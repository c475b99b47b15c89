-- ===== src/Ingester/Tests.antt =====
-- Runs of ingester.go at small inputs, and instances of the theorems.
use mathlib.Core.List.{Sublist}
use mathlib.Core.Option
use sqlog.Base.{
  ℕ, ◌<◌, ◌≡◌, refl, Bool, true, false, Option, none, some, List, [], ◌∷◌, ◌++◌, arith, length,
  codes,
}
use sqlog.Base.Int.{pos, ◌+ℤ◌, ◌*ℤ◌}
use sqlog.Chunk.{Time, Entry, Chunk, list, new_chunk, lock, put, init, empty, ready, seconds, ttl}
use sqlog.Chunk.Invariant.{log, present}
use sqlog.Ingester.{
  IngesterConfig, Ingester, new_ingester, ingest, do_routine_check, discard, maintain, shutdown,
  shutdown_loop,
}
use sqlog.Ingester.Config.{Defaults, with_defaults_lem}
use sqlog.Ingester.Delivery.{Contract}
use sqlog.Ingester.Adding.{pending}
use sqlog.Ingester.Run.{Step, ingests, ticks, handed_in, run, run-delivers}
use sqlog.Ingester.Losing.{run-Sublist}
use sqlog.Ingester.Retries.{Eventually}
use sqlog.Ingester.Ending.{close-Sublist}
use sqlog.Ingester.Closing.{close-delivers}
use sqlog.Ingester.Shutdown.{shutdown_loop-hangs}

-- A storage that keeps every entry.
abbrev keep : Chunk → List Entry → Bool × List Entry
keep c st = (false, st ++ present (list c))

abbrev stored : List Entry → List Entry
stored st = st

keep-Contract : Contract keep stored
keep-Contract = record { accepted = λ c st h. refl; refused = λ c st h. cc }

abbrev zeros : IngesterConfig
zeros = record {
  chunks = 0;
  chunk_size = 2;
  max_chunk_size_bytes = pos 0;
  max_dirty_chunks = pos 0;
  max_flush_retry = pos 0;
  flush_after_sec = pos 0;
  interval_check_ms = pos 0;
}

abbrev at : ℕ → Time
at t = record { unix = pos t; nanos = 0 }

abbrev entry : ℕ → Entry
entry t = record { time = at t; level = pos 0; content = codes "{}" }

abbrev three : List Step
three = ingests (entry 1) ∷ ingests (entry 2) ∷ ingests (entry 3) ∷ ticks (at 3) ∷ []

-- The first chunk is full and flushed, the third entry waits.
abbrev persisted : Option (List Entry)
persisted = elim (run keep three (new_ingester zeros) []) [ none ↦ none | some (_, st) ↦ some st ]

flushes_full : persisted ≡ some (entry 1 ∷ entry 2 ∷ [])
unfolding run new_ingester ingest do_routine_check put init new_chunk empty ready discard maintain
    seconds ttl ◌+ℤ◌ ◌*ℤ◌ list
flushes_full = refl

-- Without a chunk size in range the defaults are taken.
with_defaults_example : Defaults zeros
with_defaults_example = with_defaults_lem zeros

run-delivers_example :
    (s' : Ingester) × (st' : List Entry) × (run keep three (new_ingester zeros) [] ≡ some (s', st'))
    × (st' ++ pending s' ≡ [] ++ handed_in three)
run-delivers_example = run-delivers keep stored keep-Contract (λ c st. refl) zeros three []

-- A storage that always fails, and the ticks of which the fourth gives up the first chunk.
abbrev refuse : Chunk → List Entry → Bool × List Entry
refuse c st = (true, st)

refuse-Contract : Contract refuse stored
refuse-Contract = record { accepted = λ c st h. cc; refused = λ c st h. refl }

abbrev given_up_steps : List Step
given_up_steps = three ++ (ticks (at 3) ∷ ticks (at 3) ∷ ticks (at 3) ∷ [])

-- One entry is left of three.
one_left :
    Option.map
      (λ (s, st). length (st ++ pending s))
      (run refuse given_up_steps (new_ingester zeros) [])
    ≡ some 1
unfolding run new_ingester ingest do_routine_check put init new_chunk empty ready discard maintain
    seconds ttl ◌+ℤ◌ ◌*ℤ◌ list pending log
one_left = refl

run-Sublist_example :
    (s' : Ingester) × (st' : List Entry) × (run refuse given_up_steps (new_ingester zeros) []
      ≡ some (s', st'))
    × Sublist (st' ++ pending s') ([] ++ handed_in given_up_steps)
run-Sublist_example = run-Sublist refuse stored refuse-Contract zeros given_up_steps []

-- The ingester behind the steps, with a storage that always fails.
abbrev refused : Ingester × List Entry
refused = elim (run refuse three (new_ingester zeros) []) [
  | none ↦ (new_ingester zeros, [])
  | some p ↦ p
]

close-Sublist_example : Eventually (λ fuel.
    (s' : Ingester) × (st' : List Entry) × (shutdown refuse fuel (λ st. st) refused.0 refused.1
      ≡ some (s', st'))
    × Sublist (stored st') ([] ++ handed_in three))
unfolding run new_ingester ingest do_routine_check put init new_chunk empty ready discard maintain
    seconds ttl ◌+ℤ◌ ◌*ℤ◌ list
close-Sublist_example =
    close-Sublist refuse (λ st. st) stored refuse-Contract (λ st. refl) zeros three [] refused.0
      refused.1 3 refl refl (omega arith)

close-delivers_example :
    (s : Ingester) × (st1 : List Entry) × (run keep three (new_ingester zeros) [] ≡ some (s, st1))
    × ((fuel : ℕ)
        → length s.chunks < fuel
        → (s' : Ingester) × (st' : List Entry) × (shutdown keep fuel (λ st. st) s st1
            ≡ some (s', st'))
          × (st' ≡ [] ++ handed_in three))
close-delivers_example =
    close-delivers keep (λ st. st) stored keep-Contract (λ st. refl) (λ c st. refl) zeros three []

-- Two slots are booked, and one is written.
abbrev booked_twice : Chunk
booked_twice = record (new_chunk (pos 5)) { book = 2; write = 1 }

shutdown_loop-hangs_example : shutdown_loop keep 1000 zeros 0 (lock booked_twice ∷ []) [] ≡ none
unfolding new_chunk
shutdown_loop-hangs_example =
    shutdown_loop-hangs keep 1000 zeros booked_twice [] [] (omega arith) (omega arith) (omega arith)
