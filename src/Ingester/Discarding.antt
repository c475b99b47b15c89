-- ===== src/Ingester/Discarding.antt =====
-- The discard of old chunks at the end of `doRoutineCheck` in ingester.go.
use mathlib.Core.List.{Sublist, sublist-append_right}
use mathlib.Core.List.Sublist
use sqlog.Base.{
  ℕ, zero, suc, ◌+◌, ◌≤◌, ◌<◌, ◌≡◌, refl, sym, ◌∙◌, true, false, ◌&&◌, not, Option, none, some, [],
  ◌∷◌, arith, if_cases, length, All, drop, Bool-cases, inl, inr,
}
use mathlib.Core.Path.{subst}
use mathlib.Core.Bool.{false≢true}
use sqlog.Base.Int.{ℤ, pos, ◌≤ℤ◌, ltb_ℤ}
use sqlog.Chunk.{Chunk, Chain, init, init_head, next, depth, empty}
use sqlog.Chunk.Invariant.{log, IsWf, IsBlank, closed}
use sqlog.Chunk.Writing.{logs, WritesAt}
use sqlog.Chunk.Growth.{
  Grown, depth-Grown, logs-Grown, WritesAt-Grown, next-Grown, depth-cons, depth-blank, depth-empty,
  depth-le-length, IsWf-HasCap,
}
use sqlog.Ingester.{IngesterConfig, at_chunk, discard, discard_loop, init_from}
use sqlog.Ingester.Position.{Positions, Positions-start, init-keeps, cons_of_ne}

-- The loop has ended, and `Init` has run behind it: `target` is where the flush pointer is.
pub record Discarded (f w : ℕ) (cs : Chain) (r : Option (Chain × ℕ)) : Type 0 where
  pub chain : Chain
  pub moved : ℕ
  pub ends : r ≡ some (chain, moved)
  pub target : ℕ
  pub lands : target ≡ f + moved
  pub at : Positions target w chain
  pub left : Sublist (logs (drop target chain)) (logs (drop f cs))

not_deeper : (limit : ℤ) (n : ℕ) → pos 1 ≤ℤ limit → n ≤ 1 → ltb_ℤ limit (pos n) ≡ false
not_deeper limit n h k = ground (arith, h, k)

module _ (k : ℕ) (limit : ℤ) (some_chunk : pos 1 ≤ℤ limit) where
  -- The loop from the flush chunk on, with what `Init` then makes of the chain.
  record Looped (w : ℕ) (cs : Chain) (r : Option (Chain × ℕ)) : Type 0 where
    passed : Chain
    moved : ℕ
    ends : r ≡ some (passed, moved)
    chain : Chain
    inits : (n : ℕ) → at_chunk moved (λ ds. some (init k ds, n)) passed ≡ some (chain, n)
    at : Positions moved w chain
    left : Sublist (logs (drop moved chain)) (logs cs)

  Looped-here :
      (w : ℕ) (c : Chunk) (rest : Chain)
      → WritesAt w (c ∷ rest)
      → Looped w (c ∷ rest) (some (c ∷ rest, 0))
  unfolding at_chunk
  Looped-here w c rest h =
      let (at, same) = init-keeps k w c rest h in
      record {
        passed = c ∷ rest;
        moved = 0;
        ends = refl;
        chain = init k (c ∷ rest);
        inits = λ n. refl;
        at = Positions-start w _ at;
        left = subst (λ l. Sublist l (logs (c ∷ rest))) (sym same) (Sublist.refl (logs (c ∷ rest)));
      }

  -- The write pointer is behind a chunk that is discarded.
  not_written : (c : Chunk) (rest : Chain) → All IsBlank rest → depth (c ∷ rest) ≤ 1
  not_written c rest blank = elim (Bool-cases (empty c)) [
    | inl e ↦ depth-empty c rest e
    | inr e ↦ omega (arith, depth-cons c rest e, depth-blank rest blank)
  ]

  not_empty :
      (c : Chunk) (rest : Chain) → ltb_ℤ limit (pos (depth (c ∷ rest))) ≡ true → empty c ≡ false
  not_empty c rest e = elim (Bool-cases (empty c)) [
    | inl z ↦ absurd (
        false≢true
          (sym (not_deeper limit (depth (c ∷ rest)) some_chunk (depth-empty c rest z)) ∙ e))
    | inr z ↦ z
  ]

  -- One more chunk is passed.
  Looped-beyond :
      (w : ℕ) (c c' d : Chunk) (rest ds : Chain) (o : Option (Chain × ℕ))
      → IsWf c
      → closed c ≡ true
      → c' ≡ c
      → logs (d ∷ ds) ≡ logs rest
      → Looped w (d ∷ ds) o
      → Looped (suc w) (c ∷ rest) (elim o [ none ↦ none | some (cs, n) ↦ some (c' ∷ cs, suc n) ])
  unfolding at_chunk
  Looped-beyond w c c' d rest ds o wf cl head same r = record {
    passed = c ∷ r.passed;
    moved = suc r.moved;
    ends = rw (r.ends, head) refl;
    chain = c ∷ r.chain;
    inits = λ n. rw (r.inits n) refl;
    at = (wf, cl, r.at);
    left =
        Sublist.trans (subst (λ l. Sublist (logs (drop r.moved r.chain)) l) same r.left)
          (sublist-append_right (log c) (logs rest));
  }

  discard_loop-Looped :
      (f w : ℕ) (c : Chunk) (rest : Chain)
      → depth (c ∷ rest) < f
      → WritesAt w (c ∷ rest)
      → Looped w (c ∷ rest) (discard_loop f limit (c ∷ rest))
  unfolding discard_loop
  discard_loop-Looped zero w c rest lt h = absurd (omega (arith, lt))
  discard_loop-Looped (suc f) zero c rest lt h =
      if_cases (Looped zero (c ∷ rest)) (ltb_ℤ limit (pos (depth (c ∷ rest))))
        (λ e. absurd (
          false≢true (
            sym (not_deeper limit (depth (c ∷ rest)) some_chunk (not_written c rest h.ahead)) ∙ e)))
        (λ _. Looped-here zero c rest h)
  discard_loop-Looped (suc f) (suc w) c rest lt h =
      if_cases (Looped (suc w) (c ∷ rest)) (ltb_ℤ limit (pos (depth (c ∷ rest))))
        (λ e.
          let (head, grown, some_next) = next-Grown c rest (IsWf-HasCap h.0) in
          let (d, ds, onward) = cons_of_ne (next c rest) some_next in
          let grown' : Grown rest (d ∷ ds) = subst (Grown rest) onward grown in
          Looped-beyond w c (init_head c rest) d rest ds _ h.0 h.1 head (logs-Grown grown') (
            subst (λ l. Looped w (d ∷ ds) (discard_loop f limit l)) (sym onward)
              (discard_loop-Looped f w d ds
                (omega (arith, lt, depth-Grown grown', depth-cons c rest (not_empty c rest e)))
                (WritesAt-Grown grown' w h.2))))
        (λ _. Looped-here (suc w) c rest h)

module _ (config : IngesterConfig) (limit : pos 1 ≤ℤ config.max_dirty_chunks) where
  -- The discard on the chain from the flush chunk on.
  discard_head-Discarded :
      (w : ℕ) (c : Chunk) (rest : Chain)
      → WritesAt w (c ∷ rest)
      → Discarded 0 w (c ∷ rest) (discard config (c ∷ rest))
  unfolding discard init_from
  discard_head-Discarded w c rest h =
      let r =
        discard_loop-Looped config.chunks config.max_dirty_chunks limit (suc (suc (length rest))) w
          c rest (omega (arith, depth-le-length (c ∷ rest))) h in
      if_cases (Discarded 0 w (c ∷ rest))
        (not (empty c) && ltb_ℤ config.max_dirty_chunks (pos (depth (c ∷ rest))))
        (λ _. record {
          chain = r.chain;
          moved = r.moved;
          ends = rw r.ends (r.inits r.moved);
          target = r.moved;
          lands = omega arith;
          at = r.at;
          left = r.left;
        })
        (λ _. record {
          chain = c ∷ rest;
          moved = 0;
          ends = refl;
          target = 0;
          lands = refl;
          at = h;
          left = Sublist.refl (logs (c ∷ rest));
        })

  pub discard_blank :
      (n : Chunk) (rest : Chain)
      → All IsBlank (n ∷ rest)
      → discard config (n ∷ rest) ≡ some (n ∷ rest, 0)
  discard_blank n rest b =
      let short : depth (n ∷ rest) ≤ 1 = omega (arith, depth-blank (n ∷ rest) b) in
      let deep = not_deeper config.max_dirty_chunks (depth (n ∷ rest)) limit short in
      unfold discard in ground (arith, deep)

  -- The discard at the flush pointer of a whole chain.
  pub discard-Discarded :
      (f w : ℕ) (cs : Chain) → Positions f w cs → Discarded f w cs (at_chunk f (discard config) cs)
  unfolding at_chunk
  discard-Discarded f w [] h = absurd h
  discard-Discarded zero w (c ∷ rest) h = discard_head-Discarded w c rest h
  discard-Discarded (suc zero) zero (c ∷ []) (wr, cl, z, ne) = absurd (ne refl)
  discard-Discarded (suc zero) zero (c ∷ n ∷ rest) (wr, cl, z, ne) = record {
    chain = c ∷ n ∷ rest;
    moved = 0;
    ends = rw (at_chunk, discard_blank n rest wr.ahead) refl;
    target = 1;
    lands = omega arith;
    at = (wr, cl, refl, ne);
    left = Sublist.refl (logs (n ∷ rest));
  }
  discard-Discarded (suc (suc f)) zero (c ∷ rest) (wr, cl, z, ne) = absurd (omega (arith, z))
  discard-Discarded (suc f) (suc w) (c ∷ rest) (wf, cl, h) =
      let r = discard-Discarded f w rest h in
      record {
        chain = c ∷ r.chain;
        moved = r.moved;
        ends = rw r.ends refl;
        target = suc r.target;
        lands = omega (arith, r.lands);
        at = (wf, cl, r.at);
        left = r.left;
      }
