-- ===== src/Ingester/Checking.antt =====
-- `doRoutineCheck` of ingester.go with a storage that does not fail.
use sqlog.Base.{
  ℕ, zero, suc, ◌+◌, ◌≤◌, ◌<◌, ◌≡◌, refl, sym, ◌∙◌, Bool, true, false, Option, some, List, [], ◌∷◌,
  ◌++◌, arith, ◌==◌, if◌then◌else◌, length, All, drop,
}
use mathlib.Core.Bool.{false≢true}
use sqlog.Base.Int.{pos, ◌≤ℤ◌}
use sqlog.Chunk.{Time, Entry, Chunk, Chain, depth}
use sqlog.Chunk.Invariant.{log, IsBlank}
use sqlog.Chunk.Writing.{logs, WritesAt}
use sqlog.Chunk.Growth.{depth-blank, depth-le-length}
use sqlog.Ingester.{
  IngesterConfig, Ingester, Progress, at_chunk, then_discard, discard, check_loop, stop, id_at,
  do_routine_check,
}
use sqlog.Ingester.Position.{Positions}
use sqlog.Ingester.Delivery
use sqlog.Ingester.Delivery.{Contract, Relation}
use sqlog.Ingester.Adding.{IsSettled, pending}

≡-Relation : Relation (◌≡◌ {A = List Entry})
≡-Relation = record { same = λ l. refl; chain = λ p q. p ∙ q }

-- Where one chunk at most holds entries, nothing is discarded.
discard-head :
    (config : IngesterConfig) (c : Chunk) (rest : Chain)
    → depth (c ∷ rest) ≤ 1
    → pos 1 ≤ℤ config.max_dirty_chunks
    → discard config (c ∷ rest) ≡ some (c ∷ rest, 0)
discard-head config c rest d l = unfold discard in ground arith

discard-short :
    (config : IngesterConfig) (m w : ℕ) (cs : Chain)
    → Positions m w cs
    → depth (drop m cs) ≤ 1
    → pos 1 ≤ℤ config.max_dirty_chunks
    → at_chunk m (discard config) cs ≡ some (cs, 0)
unfolding at_chunk
discard-short config m w [] h d l = absurd h
discard-short config zero w (c ∷ rest) h d l = discard-head config c rest d l
discard-short config (suc zero) zero (c ∷ []) (wr, cl, z, ne) d l = absurd (ne refl)
discard-short config (suc zero) zero (c ∷ n ∷ rest) h d l =
    rw (at_chunk, discard-head config n rest d l)
discard-short config (suc (suc m)) zero (c ∷ rest) (wr, cl, z, ne) d l = absurd (omega (arith, z))
discard-short config (suc m) (suc w) (c ∷ rest) (wf, cl, h) d l =
    rw (discard-short config m w rest h d l)

module _ {S : Type 0} (flush : Chunk → S → Bool × S) (stored : S → List Entry)
    (contract : Contract flush stored) (reliable : (c : Chunk) (st : S) → (flush c st).0 ≡ false)
    (config : IngesterConfig) (limit : pos 1 ≤ℤ config.max_dirty_chunks) (now : Time) where
  -- A routine check of the chain from the flush chunk on.
  abbrev check : S → Chain → Option (Chain × (ℕ × S))
  check st cs = then_discard flush config (check_loop flush (suc (length cs)) config now cs st)

  -- What a check does to a chain, with the write pointer at number `w` and the flush pointer at `f`.
  record CheckedAt (f w : ℕ) (cs : Chain) (st : S) (r : Option (Chain × (ℕ × S))) : Type 0 where
    chain : Chain
    moved : ℕ
    storage : S
    ends : r ≡ some (chain, (moved, storage))
    target : ℕ
    lands : target ≡ f + moved
    at : Positions target w chain
    kept : stored storage ++ logs (drop target chain) ≡ stored st ++ logs (drop f cs)

  then_discard-some :
      (p : Progress S) (cs : Chain) (n : ℕ)
      → at_chunk p.moved (discard config) p.chain ≡ some (cs, n)
      → then_discard flush config (some p) ≡ some (cs, (p.moved + n, p.storage))
  unfolding then_discard
  then_discard-some p cs n h = rw (h, then_discard)

  no_loss :
      (c : Chunk) (st : S) → (flush c st).0 ≡ true → (l r : List Entry) → l ++ r ≡ l ++ (log c ++ r)
  no_loss c st bad = absurd (false≢true (sym (reliable c st) ∙ bad))

  check-write :
      (w : ℕ) (c : Chunk) (rest : Chain) (st : S)
      → WritesAt w (c ∷ rest)
      → CheckedAt 0 w (c ∷ rest) st (check st (c ∷ rest))
  check-write w c rest st h =
      let fuel : depth (c ∷ rest) < suc (length (c ∷ rest)) =
        omega (arith, depth-le-length (c ∷ rest)) in
      let (p, q, k) =
        Delivery.check_loop-Checked flush stored contract ◌≡◌ ≡-Relation no_loss config now
          (suc (length (c ∷ rest))) w c rest st fuel h in
      record {
        chain = p.chain;
        moved = p.moved + 0;
        storage = p.storage;
        ends = rw q (
            then_discard-some p p.chain 0
              (discard-short config p.moved w p.chain k.at (k.short reliable) limit));
        target = p.moved;
        lands = omega arith;
        at = k.at;
        kept = k.kept;
      }

  check-blank :
      (n : Chunk) (rest : Chain) (st : S)
      → All IsBlank (n ∷ rest)
      → check st (n ∷ rest) ≡ some (n ∷ rest, (0, st))
  unfolding stop at_chunk
  check-blank n rest st b =
      let d : depth (n ∷ rest) ≤ 1 = omega (arith, depth-blank (n ∷ rest) b) in
      let p : Progress S = record { chain = n ∷ rest; moved = 0; storage = st } in
      rw
        (Delivery.stops_blank flush stored contract ◌≡◌ ≡-Relation no_loss config now
          (suc (length (n ∷ rest))) n rest st b.0 (omega arith))
        (then_discard-some p (n ∷ rest) 0 (discard-head config n rest d limit))

  check-CheckedAt :
      (f w : ℕ) (cs : Chain) (st : S)
      → Positions f w cs
      → CheckedAt f w cs st (at_chunk f (check st) cs)
  unfolding at_chunk
  check-CheckedAt f w [] st h = absurd h
  check-CheckedAt zero w (c ∷ rest) st h = check-write w c rest st h
  check-CheckedAt (suc zero) zero (c ∷ []) st (wr, cl, z, ne) = absurd (ne refl)
  check-CheckedAt (suc zero) zero (c ∷ n ∷ rest) st (wr, cl, z, ne) = record {
    chain = c ∷ n ∷ rest;
    moved = 0;
    storage = st;
    ends = rw (at_chunk, check-blank n rest st wr.ahead) refl;
    target = 1;
    lands = omega arith;
    at = (wr, cl, refl, ne);
    kept = refl;
  }
  check-CheckedAt (suc (suc f)) zero (c ∷ rest) st (wr, cl, z, ne) = absurd (omega (arith, z))
  check-CheckedAt (suc f) (suc w) (c ∷ rest) st (wf, cl, h) =
      let r = check-CheckedAt f w rest st h in
      record {
        chain = c ∷ r.chain;
        moved = r.moved;
        storage = r.storage;
        ends = rw r.ends refl;
        target = suc r.target;
        lands = omega (arith, r.lands);
        at = (wf, cl, r.at);
        kept = r.kept;
      }

  -- A routine check succeeds; what it has persisted and what is pending afterwards are together,
  -- and in the same order, what they were before.
  pub do_routine_check-pending :
      (s : Ingester) (st : S)
      → s.config ≡ config
      → IsSettled s
      → (s' : Ingester) × (st' : S) × (do_routine_check flush now s st ≡ some (s', st'))
        × IsSettled s'
        × (s'.config ≡ config)
        × (stored st' ++ pending s' ≡ stored st ++ pending s)
  unfolding do_routine_check pending
  do_routine_check-pending s st cfg h =
      let r = check-CheckedAt s.flush_chunk s.write_chunk s.chunks st h.positions in
      let s' : Ingester = record s {
        chunks = r.chain;
        flush_chunk = s.flush_chunk + r.moved;
        flush_chunk_id =
            if r.moved == 0 then s.flush_chunk_id else id_at r.chain (s.flush_chunk + r.moved);
      } in
      (
        s',
        r.storage,
        rw (cfg, r.ends) refl,
        record { positions = rw (← r.lands) r.at; limit = h.limit },
        cfg,
        rw (← r.lands) r.kept,
      )
