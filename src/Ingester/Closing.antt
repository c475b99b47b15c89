-- ===== src/Ingester/Closing.antt =====
-- `Close` of ingester.go after any run, with a storage that does not fail.
use sqlog.Base.{
  ℕ, zero, suc, ◌+◌, ◌<◌, ◌≡◌, refl, ◌∙◌, Bool, false, Option, some, List, [], ◌∷◌, ◌++◌, arith,
  length, drop,
}
use sqlog.Chunk.{Entry, Chunk, Chain, depth}
use sqlog.Chunk.Writing.{logs, IsWritable-blank, WritesAt}
use sqlog.Chunk.Growth.{depth-le-length}
use sqlog.Ingester.{
  IngesterConfig, Ingester, new_ingester, shutdown_loop, shutdown, lock_head, closed_down, closes,
  at_chunk, id_at,
}
use sqlog.Ingester.Position.{Positions, log-lock}
use sqlog.Ingester.Delivery.{Contract}
use sqlog.Ingester.Adding.{IsSettled, pending}
use sqlog.Ingester.Shutdown.{drains}
use sqlog.Ingester.Run.{Step, handed_in, run, run-settles}

module _ {S : Type 0} (flush : Chunk → S → Bool × S) (close : S → S) (stored : S → List Entry)
    (contract : Contract flush stored) (closing : (st : S) → stored (close st) ≡ stored st)
    (reliable : (c : Chunk) (st : S) → (flush c st).0 ≡ false) (config : IngesterConfig) where
  abbrev Closes : ℕ → Chain → S → Option (Chain × (ℕ × S)) → Type 0
  Closes f cs st r =
      (ds : Chain) × (n : ℕ) × (st' : S) × (r ≡ some (ds, (n, st')))
      × (stored st' ≡ stored st ++ logs (drop f cs))

  -- The loop and `Close`, from the flush chunk on.
  abbrev drain : ℕ → S → Chain → Option (Chain × (ℕ × S))
  drain fuel st cs = closes flush close (shutdown_loop flush fuel config 0 (lock_head cs) st)

  drain-Closes :
      (fuel w : ℕ) (c : Chunk) (rest : Chain) (st : S)
      → depth (c ∷ rest) < fuel
      → WritesAt w (c ∷ rest)
      → Closes 0 (c ∷ rest) st (drain fuel st (c ∷ rest))
  unfolding closes lock_head
  drain-Closes fuel w c rest st lt h =
      let (p, q, k) = drains flush stored contract reliable config fuel 0 w c rest st lt h in
      (p.chain, p.moved, close p.storage, rw q refl, closing p.storage ∙ k ∙ rw (log-lock c) refl)

  close-Closes :
      (fuel f w : ℕ) (cs : Chain) (st : S)
      → length cs < fuel
      → Positions f w cs
      → Closes f cs st (at_chunk f (drain fuel st) cs)
  unfolding at_chunk
  close-Closes fuel f w [] st lt h = absurd h
  close-Closes fuel zero w (c ∷ rest) st lt h =
      drain-Closes fuel w c rest st (omega (arith, depth-le-length (c ∷ rest))) h
  close-Closes fuel (suc zero) zero (c ∷ []) st lt (wr, cl, z, ne) = absurd (ne refl)
  close-Closes fuel (suc zero) zero (c ∷ n ∷ rest) st lt (wr, cl, z, ne) =
      let fits : depth (n ∷ rest) < fuel = omega (arith, depth-le-length (n ∷ rest)) in
      let h = IsWritable-blank wr.ahead.0 wr.ahead.1 in
      let (ds, m, st', q, k) = drain-Closes fuel 0 n rest st fits h in
      (c ∷ ds, m, st', rw (at_chunk, q) refl, k)
  close-Closes fuel (suc (suc f)) zero (c ∷ rest) st lt (wr, cl, z, ne) = absurd (omega (arith, z))
  close-Closes fuel (suc f) (suc w) (c ∷ rest) st lt (wf, cl, h) =
      let (ds, n, st', q, k) = close-Closes fuel f w rest st (omega arith) h in
      (c ∷ ds, n, st', rw q refl, k)

  shutdown-delivers :
      (fuel : ℕ) (s : Ingester) (st : S)
      → s.config ≡ config
      → IsSettled s
      → length s.chunks < fuel
      → (s' : Ingester) × (st' : S) × (shutdown flush fuel close s st ≡ some (s', st'))
        × (stored st' ≡ stored st ++ pending s)
  unfolding shutdown closed_down pending
  shutdown-delivers fuel s st cfg h lt =
      let (ds, n, st', q, k) =
        close-Closes fuel s.flush_chunk s.write_chunk s.chunks st lt h.positions in
      let s' : Ingester = record s {
        chunks = ds;
        flush_chunk = s.flush_chunk + n;
        flush_chunk_id = id_at ds (s.flush_chunk + n);
      } in
      (s', st', rw (cfg, q) refl, k)

-- If `Flush` never fails and persists the entries of each chunk it is given, behind those that are
-- stored, and `Close` of the storage keeps what is stored: from a new ingester, whatever calls of
-- `Ingest` and ticks follow, `Close` of the ingester ends within a round for each chunk and one more,
-- and the storage then holds what it held at the start followed by all the entries handed in, each
-- once and in their order.
pub close-delivers :
    {S : Type 0} (flush : Chunk → S → Bool × S) (close : S → S) (stored : S → List Entry)
    → Contract flush stored
    → ((st : S) → stored (close st) ≡ stored st)
    → ((c : Chunk) (st : S) → (flush c st).0 ≡ false)
    → (config : IngesterConfig) (steps : List Step) (st : S)
    → (s : Ingester) × (st1 : S) × (run flush steps (new_ingester config) st ≡ some (s, st1))
      × ((fuel : ℕ)
          → length s.chunks < fuel
          → (s' : Ingester) × (st' : S) × (shutdown flush fuel close s st1 ≡ some (s', st'))
            × (stored st' ≡ stored st ++ handed_in steps))
close-delivers flush close stored contract closing reliable config steps st =
    let (s, st1, q, settled, kept) = run-settles flush stored contract reliable config steps st in
    (
      s,
      st1,
      q,
      λ fuel lt.
          let (s', st', r, k) =
            shutdown-delivers flush close stored contract closing reliable s.config fuel s st1 refl
              settled lt in
          (s', st', r, k ∙ kept),
    )
