-- ===== src/Chunk/Tests.antt =====
-- Runs of chunk.go at small inputs, after chunk_test.go, and instances of the theorems.
use sqlog.Base.{
  ℕ, ◌≡◌, refl, Bool, true, false, Option, none, some, List, [], ◌∷◌, ◌++◌, arith, map, drop, codes,
}
use mathlib.Core.Option
use sqlog.Base.Int.{pos}
use sqlog.Chunk.{Entry, Chunk, Chain, new_chunk, put, depth, ready, ttl, seconds, init}
use sqlog.Chunk.Invariant.{log, IsWf, closed, new_chunk-IsBlank, IsBlank-IsWf}
use sqlog.Chunk.Writing.{logs, IsWritable, WritesAt, IsSound, Succeeds, put-Succeeds, put-WritesAt}
use sqlog.Chunk.Epochs.{Spans, put-Spans}

abbrev entry : ℕ → Entry
entry t = record { time = record { unix = pos t; nanos = 5 }; level = pos 0; content = codes "{}" }

abbrev small : Chunk
small = new_chunk (pos 1)

-- Test_Chunk_Put: the second entry goes to a new chunk.
abbrev after_two : Option (List (List Entry) × ℕ)
after_two = elim (put 2 (small ∷ []) (entry 7)) [
  | none ↦ none
  | some (cs, _) ↦ elim (put 3 cs (entry 8)) [
    | none ↦ none
    | some (ds, hops) ↦ some (map log ds, hops)
  ]
]

overflows : after_two ≡ some ((entry 7 ∷ []) ∷ (entry 8 ∷ []) ∷ [], 1)
unfolding put new_chunk log
overflows = refl

abbrev filled : Option (Bool × ℕ)
filled =
    Option.map (λ (cs, _). (elim cs [ [] ↦ false | c ∷ _ ↦ ready c ], depth cs))
      (put 2 (small ∷ []) (entry 7))

full_is_ready : filled ≡ some (true, 1)
unfolding put new_chunk ready depth
full_is_ready = refl

-- Test_Chunk_Init: the second chunk of the chain has the id 1.
init_ids : map (λ (c : Chunk). c.id) (init 2 (small ∷ [])) ≡ 0 ∷ 1 ∷ 2 ∷ []
unfolding init new_chunk
init_ids = refl

age : seconds (ttl (record { unix = pos 12; nanos = 4 }) small) ≡ pos 0
unfolding seconds ttl new_chunk
age = refl

small-IsWf : IsWf small
small-IsWf = IsBlank-IsWf (new_chunk-IsBlank (pos 1))

small-IsWritable : IsWritable small []
unfolding new_chunk
small-IsWritable = record { wf = small-IsWf; room = omega arith; ahead = tt }

small-IsSound : IsSound small
unfolding new_chunk
small-IsSound = omega arith

put-Succeeds_example : Succeeds (put 2 (small ∷ []) (entry 7))
put-Succeeds_example = put-Succeeds 2 small [] (entry 7) (omega arith) small-IsSound tt

put-WritesAt_example :
    (cs : Chain) × (hops : ℕ) × (put 2 (small ∷ []) (entry 7) ≡ some (cs, hops))
    × WritesAt hops cs
    × (logs cs ≡ logs (small ∷ []) ++ entry 7 ∷ [])
    × (closed small ≡ true → (hops ≡ 1) × (logs (drop 1 cs) ≡ [] ++ entry 7 ∷ []))
put-WritesAt_example = put-WritesAt 0 small [] (entry 7) small-IsWritable

small-closed : closed small ≡ false
unfolding closed new_chunk
small-closed = refl

small-Spans : Spans small.epoch_start small.epoch_end (log small)
unfolding new_chunk log
small-Spans = (refl, refl)

put-Spans_example :
    (c' : Chunk) × (put 2 (small ∷ []) (entry 7) ≡ some (c' ∷ [], 0))
    × (log c' ≡ log small ++ entry 7 ∷ [])
    × Spans c'.epoch_start c'.epoch_end (log c')
put-Spans_example = put-Spans 1 small [] (entry 7) small-IsWf small-closed small-Spans (omega arith)
