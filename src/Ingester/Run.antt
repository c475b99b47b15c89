-- ===== src/Ingester/Run.antt =====
-- The operations of ingester.go in any order, from `NewIngester` on, with a storage that does not fail.
use sqlog.Base.{
  ◌≡◌, refl, ap, sym, ◌∙◌, Bool, false, Option, none, some, List, [], ◌∷◌, ◌++◌, append-nil,
  append_assoc, arith,
}
use sqlog.Base.Int.{pos, ◌≤ℤ◌}
use sqlog.Chunk.{Time, Entry, Chunk, new_chunk}
use sqlog.Chunk.Invariant.{IsBlank-IsWf, new_chunk-IsBlank, log-blank}
use sqlog.Chunk.Growth.{init-Grown, WritesAt-Grown, logs-Grown}
use sqlog.Ingester.{IngesterConfig, Ingester, new_ingester, with_defaults, ingest, do_routine_check}
use sqlog.Ingester.Position.{Positions-start}
use sqlog.Ingester.Delivery.{Contract}
use sqlog.Ingester.Adding.{IsSettled, pending, ingest-pending}
use sqlog.Ingester.Checking.{do_routine_check-pending}

-- A call of `Ingest`, or a tick of the routine at a time of the clock.
pub data Step : Type 0 where
  ingests : Entry → Step
  ticks : Time → Step

-- The entries that a list of steps hands in.
abbrev pub handed_in : List Step → List Entry
handed_in [] = []
handed_in (ingests e ∷ l) = e ∷ handed_in l
handed_in (ticks now ∷ l) = handed_in l

with_defaults-limit : (c : IngesterConfig) → pos 1 ≤ℤ (with_defaults c).max_dirty_chunks
unfolding with_defaults
with_defaults-limit c = ground arith

-- A new ingester has nothing pending.
pub new_ingester-IsSettled :
    (c : IngesterConfig)
    → IsSettled (new_ingester c)
      × (pending (new_ingester c) ≡ [])
      × ((new_ingester c).config ≡ with_defaults c)
unfolding new_ingester pending
new_ingester-IsSettled c =
    let config = with_defaults c in
    let root = new_chunk (pos config.chunk_size) in
    let b = new_chunk-IsBlank (pos config.chunk_size) in
    let g = init-Grown config.chunks root [] (omega (arith, b.cap_pos, b.cap_max)) tt in
    (
      record {
        positions = Positions-start 0 _ (
            WritesAt-Grown g 0
              (record { wf = IsBlank-IsWf b; room = omega (arith, b.unbooked); ahead = tt }));
        limit = with_defaults-limit c;
      },
      logs-Grown g ∙ rw (log-blank root b.unwritten) refl,
      refl,
    )

module _ {S : Type 0} (flush : Chunk → S → Bool × S) where
  unfoldable pub run : List Step → Ingester → S → Option (Ingester × S)
  run [] s st = some (s, st)
  run (ingests e ∷ l) s st = elim (ingest e s) [ none ↦ none | some s' ↦ run l s' st ]
  run (ticks now ∷ l) s st = elim (do_routine_check flush now s st) [
    | none ↦ none
    | some (s', st') ↦ run l s' st'
  ]

  module _ (stored : S → List Entry) (contract : Contract flush stored)
      (reliable : (c : Chunk) (st : S) → (flush c st).0 ≡ false) where
    run-pending :
        (steps : List Step) (s : Ingester) (st : S)
        → IsSettled s
        → (s' : Ingester) × (st' : S) × (run steps s st ≡ some (s', st'))
          × IsSettled s'
          × (stored st' ++ pending s' ≡ (stored st ++ pending s) ++ handed_in steps)
    unfolding run
    run-pending [] s st h = (s, st, refl, h, sym (append-nil _))
    run-pending (ingests e ∷ l) s st h =
        let (s1, q, h1, added) = ingest-pending e s h in
        let (s', st', r, h', kept) = run-pending l s1 st h1 in
        (s', st', rw (q, run) r, h', kept ∙ simp (added, append_assoc))
    run-pending (ticks now ∷ l) s st h =
        let (s1, st1, q, h1, _, same) =
          do_routine_check-pending flush stored contract reliable s.config h.limit now s st refl
            h in
        let (s', st', r, h', kept) = run-pending l s1 st1 h1 in
        (s', st', rw (q, run) r, h', kept ∙ ap (λ x. x ++ handed_in l) same)

    pub run-settles :
        (config : IngesterConfig) (steps : List Step) (st : S)
        → (s' : Ingester) × (st' : S) × (run steps (new_ingester config) st ≡ some (s', st'))
          × IsSettled s'
          × (stored st' ++ pending s' ≡ stored st ++ handed_in steps)
    run-settles config steps st =
        let (settled, none_pending, _) = new_ingester-IsSettled config in
        let (s', st', q, settled', kept) = run-pending steps (new_ingester config) st settled in
        (s', st', q, settled', kept ∙ simp (none_pending, append-nil))

-- If `Flush` never fails and persists the entries of each chunk it is given, behind those that are
-- stored: whatever configuration is given and whatever calls of `Ingest` and ticks follow, none of
-- them fails; and what the storage holds at the end, followed by what is pending, is what it held at
-- the start followed by the entries handed in, in their order.
pub run-delivers :
    {S : Type 0} (flush : Chunk → S → Bool × S) (stored : S → List Entry)
    → Contract flush stored
    → ((c : Chunk) (st : S) → (flush c st).0 ≡ false)
    → (config : IngesterConfig) (steps : List Step) (st : S)
    → (s' : Ingester) × (st' : S) × (run flush steps (new_ingester config) st ≡ some (s', st'))
      × (stored st' ++ pending s' ≡ stored st ++ handed_in steps)
run-delivers flush stored contract reliable config steps st =
    let (s', st', q, _, kept) = run-settles flush stored contract reliable config steps st in
    (s', st', q, kept)
