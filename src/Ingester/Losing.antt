-- ===== src/Ingester/Losing.antt =====
-- The operations of ingester.go in any order, with a storage that may fail.
use mathlib.Core.List.{Sublist, sublist-append_right}
use mathlib.Core.List.Sublist
use sqlog.Base.{
  ℕ, zero, suc, ◌+◌, ◌≡◌, refl, sym, Bool, true, Option, some, List, [], ◌∷◌, ◌++◌, append-nil,
  append_assoc, arith, ◌==◌, if◌then◌else◌, length, All, drop,
}
use mathlib.Core.Path.{subst}
use sqlog.Base.Int.{pos, ◌≤ℤ◌}
use sqlog.Chunk.{Time, Entry, Chunk, Chain}
use sqlog.Chunk.Invariant.{log, IsBlank}
use sqlog.Chunk.Writing.{logs, WritesAt}
use sqlog.Chunk.Growth.{depth-le-length}
use sqlog.Ingester.{
  IngesterConfig, Ingester, Progress, new_ingester, at_chunk, then_discard, discard, check_loop,
  stop, id_at, do_routine_check,
}
use sqlog.Ingester.Position.{Positions}
use sqlog.Ingester.Delivery
use sqlog.Ingester.Delivery.{Contract, Relation}
use sqlog.Ingester.Discarding.{discard-Discarded, discard_blank}
use sqlog.Ingester.Adding.{IsSettled, pending, ingest-pending}
use sqlog.Ingester.Run.{Step, ingests, ticks, handed_in, run, new_ingester-IsSettled}

-- The first list is the second with entries left out.
abbrev Part : List Entry → List Entry → Type 0
Part = Sublist

Part-Relation : Relation Part
Part-Relation = record { same = λ l. Sublist.refl l; chain = λ p q. Sublist.trans p q }

Part-append : (l m r : List Entry) → Part l m → Part (l ++ r) (m ++ r)
Part-append l m r h = Sublist.append h (Sublist.refl r)

Part-behind : (l m r : List Entry) → Part m r → Part (l ++ m) (l ++ r)
Part-behind l m r h = Sublist.append (Sublist.refl l) h

module _ {S : Type 0} (flush : Chunk → S → Bool × S) (stored : S → List Entry)
    (contract : Contract flush stored) where
  given_up :
      (c : Chunk) (st : S)
      → (flush c st).0 ≡ true
      → (l r : List Entry) → Part (l ++ r) (l ++ (log c ++ r))
  given_up c st failed l r = Part-behind l r (log c ++ r) (sublist-append_right (log c) r)

  module _ (config : IngesterConfig) (limit : pos 1 ≤ℤ config.max_dirty_chunks) (now : Time) where
    abbrev check : S → Chain → Option (Chain × (ℕ × S))
    check st cs = then_discard flush config (check_loop flush (suc (length cs)) config now cs st)

    -- What a check does to a chain, with the write pointer at number `w` and the flush pointer at `f`.
    record CheckedAt (f w : ℕ) (cs : Chain) (st : S) (r : Option (Chain × (ℕ × S))) : Type 0 where
      chain : Chain
      moved : ℕ
      storage : S
      ends : r ≡ some (chain, (moved, storage))
      target : ℕ
      lands : target ≡ f + moved
      at : Positions target w chain
      left : Part (stored storage ++ logs (drop target chain)) (stored st ++ logs (drop f cs))

    then_discard-some :
        (p : Progress S) (cs : Chain) (n : ℕ)
        → at_chunk p.moved (discard config) p.chain ≡ some (cs, n)
        → then_discard flush config (some p) ≡ some (cs, (p.moved + n, p.storage))
    unfolding then_discard
    then_discard-some p cs n h = rw (h, then_discard)

    check_write :
        (w : ℕ) (c : Chunk) (rest : Chain) (st : S)
        → WritesAt w (c ∷ rest)
        → CheckedAt 0 w (c ∷ rest) st (check st (c ∷ rest))
    check_write w c rest st h =
        let (p, q, k) =
          Delivery.check_loop-Checked flush stored contract Part Part-Relation given_up config now
            (suc (length (c ∷ rest))) w c rest st (omega (arith, depth-le-length (c ∷ rest))) h in
        let d = discard-Discarded config limit p.moved w p.chain k.at in
        record {
          chain = d.chain;
          moved = p.moved + d.moved;
          storage = p.storage;
          ends = rw q (then_discard-some p d.chain d.moved d.ends);
          target = d.target;
          lands = omega (arith, d.lands);
          at = d.at;
          left = Sublist.trans (Part-behind (stored p.storage) _ _ d.left) k.kept;
        }

    check_blank :
        (n : Chunk) (rest : Chain) (st : S)
        → All IsBlank (n ∷ rest)
        → check st (n ∷ rest) ≡ some (n ∷ rest, (0, st))
    unfolding stop at_chunk
    check_blank n rest st b =
        let p : Progress S = record { chain = n ∷ rest; moved = 0; storage = st } in
        rw
          (Delivery.stops_blank flush stored contract Part Part-Relation given_up config now
            (suc (length (n ∷ rest))) n rest st b.0 (omega arith))
          (then_discard-some p (n ∷ rest) 0 (discard_blank config limit n rest b))

    check_at :
        (f w : ℕ) (cs : Chain) (st : S)
        → Positions f w cs
        → CheckedAt f w cs st (at_chunk f (check st) cs)
    unfolding at_chunk
    check_at f w [] st h = absurd h
    check_at zero w (c ∷ rest) st h = check_write w c rest st h
    check_at (suc zero) zero (c ∷ []) st (wr, cl, z, ne) = absurd (ne refl)
    check_at (suc zero) zero (c ∷ n ∷ rest) st (wr, cl, z, ne) = record {
      chain = c ∷ n ∷ rest;
      moved = 0;
      storage = st;
      ends = rw (at_chunk, check_blank n rest st wr.ahead) refl;
      target = 1;
      lands = omega arith;
      at = (wr, cl, refl, ne);
      left = Sublist.refl _;
    }
    check_at (suc (suc f)) zero (c ∷ rest) st (wr, cl, z, ne) = absurd (omega (arith, z))
    check_at (suc f) (suc w) (c ∷ rest) st (wf, cl, h) =
        let r = check_at f w rest st h in
        record {
          chain = c ∷ r.chain;
          moved = r.moved;
          storage = r.storage;
          ends = rw r.ends refl;
          target = suc r.target;
          lands = omega (arith, r.lands);
          at = (wf, cl, r.at);
          left = r.left;
        }

    do_routine_check-Part :
        (s : Ingester) (st : S)
        → s.config ≡ config
        → IsSettled s
        → (s' : Ingester) × (st' : S) × (do_routine_check flush now s st ≡ some (s', st'))
          × IsSettled s'
          × Part (stored st' ++ pending s') (stored st ++ pending s)
    unfolding do_routine_check pending
    do_routine_check-Part s st cfg h =
        let r = check_at s.flush_chunk s.write_chunk s.chunks st h.positions in
        let s' : Ingester = record s {
          chunks = r.chain;
          flush_chunk = s.flush_chunk + r.moved;
          flush_chunk_id =
              if r.moved == 0 then s.flush_chunk_id else id_at r.chain (s.flush_chunk + r.moved);
        } in
        (
          s',
          r.storage,
          rw (cfg, r.ends) refl,
          record { positions = rw (← r.lands) r.at; limit = h.limit },
          rw (← r.lands) r.left,
        )

  pub run-Part :
      (steps : List Step) (s : Ingester) (st : S)
      → IsSettled s
      → (s' : Ingester) × (st' : S) × (run flush steps s st ≡ some (s', st'))
        × IsSettled s'
        × Part (stored st' ++ pending s') ((stored st ++ pending s) ++ handed_in steps)
  unfolding run
  run-Part [] s st h = (s, st, refl, h, subst (Part _) (sym (append-nil _)) (Sublist.refl _))
  run-Part (ingests e ∷ l) s st h =
      let (s1, q, h1, added) = ingest-pending e s h in
      let (s', st', r, h', left) = run-Part l s1 st h1 in
      (s', st', rw (q, run) r, h', subst (Part _) (simp (added, append_assoc)) left)
  run-Part (ticks now ∷ l) s st h =
      let (s1, st1, q, h1, part) = do_routine_check-Part s.config h.limit now s st refl h in
      let (s', st', r, h', left) = run-Part l s1 st1 h1 in
      (s', st', rw (q, run) r, h', Sublist.trans left (Part-append _ _ (handed_in l) part))

-- The same from a new ingester on.
pub run_left :
    {S : Type 0} (flush : Chunk → S → Bool × S) (stored : S → List Entry)
    → Contract flush stored
    → (config : IngesterConfig) (steps : List Step) (st : S)
    → (s' : Ingester) × (st' : S) × (run flush steps (new_ingester config) st ≡ some (s', st'))
      × IsSettled s'
      × Part (stored st' ++ pending s') (stored st ++ handed_in steps)
run_left flush stored contract config steps st =
    let (settled, none_pending, _) = new_ingester-IsSettled config in
    let (s', st', q, h, left) =
      run-Part flush stored contract steps (new_ingester config) st settled in
    (s', st', q, h, subst (Part _) (simp (none_pending, append-nil)) left)

-- If `Flush` persists the entries of the chunk it is given, behind those that are stored, or fails
-- and persists nothing, whenever it fails: whatever configuration is given and whatever calls of
-- `Ingest` and ticks follow, none of them fails, however many chunks are given up after their
-- retries or discarded; and what the storage holds at the end, followed by what is pending, has no
-- entry twice, in another order or of another origin: it is what the storage held at the start
-- followed by the entries handed in, with entries left out.
pub run-Sublist :
    {S : Type 0} (flush : Chunk → S → Bool × S) (stored : S → List Entry)
    → Contract flush stored
    → (config : IngesterConfig) (steps : List Step) (st : S)
    → (s' : Ingester) × (st' : S) × (run flush steps (new_ingester config) st ≡ some (s', st'))
      × Sublist (stored st' ++ pending s') (stored st ++ handed_in steps)
run-Sublist flush stored contract config steps st =
    let (s', st', q, _, left) = run_left flush stored contract config steps st in (s', st', q, left)
