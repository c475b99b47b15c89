-- ===== src/Ingester/Ending.antt =====
-- `Close` of ingester.go after any run, with a storage that may fail.
use mathlib.Core.List.{Sublist}
use mathlib.Core.List.Sublist
use sqlog.Base.{
  ℕ, zero, suc, ◌+◌, ◌^◌, ◌<◌, ◌≡◌, refl, sym, ◌∙◌, Bool, Option, none, some, List, [], ◌∷◌, ◌++◌,
  arith, drop,
}
use mathlib.Core.Path.{subst}
use sqlog.Base.Int.{pos}
use sqlog.Chunk.{Entry, Chunk, Chain, depth}
use sqlog.Chunk.Writing.{logs, IsWritable-blank, WritesAt}
use sqlog.Ingester.{
  IngesterConfig, Ingester, new_ingester, shutdown_loop, shutdown, lock_head, closed_down, closes,
  at_chunk, id_at,
}
use sqlog.Ingester.Position.{Positions, log-lock}
use sqlog.Ingester.Delivery.{Contract}
use sqlog.Ingester.Adding.{IsSettled, pending}
use sqlog.Ingester.Retries.{Eventually}
use sqlog.Ingester.GivingUp.{ends_below}
use sqlog.Ingester.Losing.{run_left}
use sqlog.Ingester.Run.{Step, handed_in, run}

module _ {S : Type 0} (flush : Chunk → S → Bool × S) (close : S → S) (stored : S → List Entry)
    (contract : Contract flush stored) (closing : (st : S) → stored (close st) ≡ stored st)
    (config : IngesterConfig) (m : ℕ) (max : config.max_flush_retry ≡ pos m)
    (bound : m + 1 < 2 ^ 31) where
  -- The loop and `Close`, from the flush chunk on.
  abbrev drain : ℕ → S → Chain → Option (Chain × (ℕ × S))
  drain fuel st cs = closes flush close (shutdown_loop flush fuel config 0 (lock_head cs) st)

  abbrev Closes : List Entry → Option (Chain × (ℕ × S)) → Type 0
  Closes l r =
      (ds : Chain) × (n : ℕ) × (st' : S) × (r ≡ some (ds, (n, st'))) × Sublist (stored st') l

  eventually : (P Q : ℕ → Type 0) → ((f : ℕ) → P f → Q f) → Eventually P → Eventually Q
  eventually P Q step (n, h) = (n, λ f l. step f (h f l))

  drain-Closes :
      (w : ℕ) (c : Chunk) (rest : Chain) (st : S)
      → WritesAt w (c ∷ rest)
      → Eventually (λ f. Closes (stored st ++ logs (c ∷ rest)) (drain f st (c ∷ rest)))
  unfolding closes lock_head
  drain-Closes w c rest st h =
      eventually _ (λ f. Closes (stored st ++ logs (c ∷ rest)) (drain f st (c ∷ rest)))
        (λ f (p, q, left). (
          p.chain,
          p.moved,
          close p.storage,
          rw q refl,
          subst (λ l. Sublist l (stored st ++ logs (c ∷ rest))) (sym (closing p.storage))
              (subst (λ l. Sublist (stored p.storage) (stored st ++ (l ++ logs rest))) (log-lock c)
                left),
        ))
        (ends_below flush stored contract config m max bound (suc (depth (c ∷ rest))) w c rest st
          (omega arith) h)

  -- One more chunk before the flush pointer.
  closes_behind :
      (l : List Entry) (c : Chunk) (f : ℕ) (rest : Chain) (step : Chain → Option (Chain × (ℕ × S)))
      → Closes l (at_chunk f step rest)
      → Closes l (at_chunk (suc f) step (c ∷ rest))
  unfolding at_chunk
  closes_behind l c f rest step (ds, n, st', q, left) = (c ∷ ds, n, st', rw q refl, left)

  closes_at :
      (f w : ℕ) (cs : Chain) (st : S)
      → Positions f w cs
      → Eventually (λ fuel. Closes (stored st ++ logs (drop f cs)) (at_chunk f (drain fuel st) cs))
  unfolding at_chunk
  closes_at f w [] st h = absurd h
  closes_at zero w (c ∷ rest) st h = drain-Closes w c rest st h
  closes_at (suc zero) zero (c ∷ []) st (wr, cl, z, ne) = absurd (ne refl)
  closes_at (suc zero) zero (c ∷ n ∷ rest) st (wr, cl, z, ne) =
      eventually (λ fuel. Closes (stored st ++ logs (n ∷ rest)) (drain fuel st (n ∷ rest)))
        (λ fuel. Closes (stored st ++ logs (n ∷ rest)) (at_chunk 1 (drain fuel st) (c ∷ n ∷ rest)))
        (λ fuel. closes_behind (stored st ++ logs (n ∷ rest)) c 0 (n ∷ rest) (drain fuel st))
        (drain-Closes 0 n rest st (IsWritable-blank wr.ahead.0 wr.ahead.1))
  closes_at (suc (suc f)) zero (c ∷ rest) st (wr, cl, z, ne) = absurd (omega (arith, z))
  closes_at (suc f) (suc w) (c ∷ rest) st (wf, cl, h) =
      eventually
        (λ fuel. Closes (stored st ++ logs (drop f rest)) (at_chunk f (drain fuel st) rest))
        (λ fuel.
          Closes (stored st ++ logs (drop f rest)) (at_chunk (suc f) (drain fuel st) (c ∷ rest)))
        (λ fuel. closes_behind (stored st ++ logs (drop f rest)) c f rest (drain fuel st))
        (closes_at f w rest st h)

  Shut : Ingester → S → List Entry → ℕ → Type 0
  Shut s st l fuel =
      (s' : Ingester) × (st' : S) × (shutdown flush fuel close s st ≡ some (s', st'))
      × Sublist (stored st') l

  shutdown-Shut :
      (s : Ingester) (st : S)
      → s.config ≡ config
      → IsSettled s
      → Eventually (Shut s st (stored st ++ pending s))
  unfolding shutdown closed_down pending Shut
  shutdown-Shut s st cfg h =
      eventually _ (Shut s st (stored st ++ pending s))
        (λ fuel (ds, n, st', q, left).
          let s' : Ingester = record s {
            chunks = ds;
            flush_chunk = s.flush_chunk + n;
            flush_chunk_id = id_at ds (s.flush_chunk + n);
          } in
          (s', st', rw (cfg, q) refl, left))
        (closes_at s.flush_chunk s.write_chunk s.chunks st h.positions)

-- If `Flush` persists the entries of the chunk it is given, behind those that are stored, or fails
-- and persists nothing, whenever it fails, and `Close` of the storage keeps what is stored: after any
-- calls of `Ingest` and ticks that a new ingester has seen, where a chunk may have fewer than
-- 2^31 - 1 retries, `Close` of the ingester ends, however often the storage fails; and the storage
-- then has no entry twice, in another order or of another origin: it holds what it held at the start
-- followed by the entries handed in, with entries left out.
pub close-Sublist :
    {S : Type 0} (flush : Chunk → S → Bool × S) (close : S → S) (stored : S → List Entry)
    → Contract flush stored
    → ((st : S) → stored (close st) ≡ stored st)
    → (config : IngesterConfig) (steps : List Step) (st : S) (s : Ingester) (st1 : S) (m : ℕ)
    → run flush steps (new_ingester config) st ≡ some (s, st1)
    → s.config.max_flush_retry ≡ pos m
    → m + 1 < 2 ^ 31
    → Eventually (λ fuel.
      (s' : Ingester) × (st' : S) × (shutdown flush fuel close s st1 ≡ some (s', st'))
      × Sublist (stored st') (stored st ++ handed_in steps))
unfolding Shut
close-Sublist {S = S} flush close stored contract closing config steps st s st1 m ran max bound =
    let Left : Option (Ingester × S) → Type 0 = λ o. elim o [
      | none ↦ ⊥
      | some (x, y) ↦ IsSettled x × Sublist (stored y ++ pending x) (stored st ++ handed_in steps)
    ] in
    let (x, y, q, h, left) = run_left flush stored contract config steps st in
    let (settled, part) = subst Left (sym q ∙ ran) (h, left) in
    let (n, ends) =
      shutdown-Shut flush close stored contract closing s.config m max bound s st1 refl settled in
    (
      n,
      λ fuel l. let (s', st', shut, kept) = ends fuel l in (s', st', shut, Sublist.trans kept part),
    )
