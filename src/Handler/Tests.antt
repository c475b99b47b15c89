-- ===== src/Handler/Tests.antt =====
-- Runs of handler.go, and instances of the theorems.
use sqlog.Base.{
  ℕ, ◌+◌, ◌≡◌, refl, Bool, Option, none, some, List, [], ◌∷◌, ◌++◌, Bytes, codes, length, arith,
  ◌==◌,
}
use sqlog.Base.Int.{ℤ, pos, negsuc}
use sqlog.Chunk.{Time}
use sqlog.Handler.{LogRecord, Sink, Handler, root, derive, handle, int8, lookup, enabled}
use sqlog.Handler.Pools.{path}
use sqlog.Handler.Disabled.{handle-disabled}
use sqlog.Handler.Handling.{Op, handles, derives, run, reference, handle-derived}

-- An encoder that writes its changes, and the text of the record.
abbrev encode : List Bytes → LogRecord Bytes → Option ℕ × Bytes
encode [] r = (none, r.attrs)
encode (m ∷ changes) r = (none, m ++ r.attrs)

abbrev ingest : Time → ℤ → Bytes → List Bytes → Option ℕ × List Bytes
ingest time level text st = (none, text ∷ st)

abbrev only_first : ℕ → ℤ → Bool
only_first id l = id == 0

abbrev record_of : Bytes → LogRecord Bytes
record_of text = record { time = record { unix = pos 5; nanos = 0 }; level = pos 4; attrs = text }

-- Handler 1 is derived from the root, both are called, and each takes its writer from its pool.
abbrev calls : List (
    Op {M = Bytes} {A = Bytes} {S = List Bytes} {E = ℕ} none only_first encode
      (λ c n. c + n)
      ingest)
calls =
    derives 0 (codes "g.")
    ∷ handles (λ i. none) 1 (record_of (codes "a"))
    ∷ handles (λ i. some 0) 0 (record_of (codes "b"))
    ∷ handles (λ i. some 0) 1 (record_of (codes "c"))
    ∷ []

int8_wraps : (int8 (pos 200) ≡ negsuc 55) × (int8 (negsuc 3) ≡ negsuc 3)
int8_wraps = (refl, refl)

run_texts :
    (run none only_first encode (λ c n. c + n) ingest calls (root ∷ [], [])).1
    ≡ codes "g.c" ∷ codes "b" ∷ codes "g.a" ∷ []
unfolding run derive handle root
run_texts = refl

handle-derived_example :
    let (hs, st') = run none only_first encode (λ c n. c + n) ingest calls (root ∷ [], []) in
    ((sent : List (Sink Bytes)) × (e : Option ℕ) × (st'' : List Bytes) × (hs' : List
        (Handler Bytes))
      × (handle none only_first encode
            (λ c n. c + n)
            ingest
            (λ i. some 0)
            1
            (record_of (codes "d"))
            hs
            st'
          ≡ some (sent, e, st'', hs'))
      × (◌≡◌ {A = Option ℕ × List Bytes}
          (e, st'')
          (reference none only_first encode
            (λ c n. c + n)
            ingest
            (path 1 hs)
            (record_of (codes "d"))
            st'))
      × ((j : ℕ) → path j hs' ≡ path j hs))
    × ((m : Bytes) → path (length hs) (derive 1 m hs) ≡ path 1 hs ++ m ∷ [])
unfolding run derive handle root
handle-derived_example =
    handle-derived none only_first encode (λ c n. c + n) ingest calls [] (λ i. some 0) 1
      (record_of (codes "d")) (omega arith)

abbrev debug_record : LogRecord Bytes
debug_record = record {
  time = record { unix = pos 5; nanos = 0 };
  level = negsuc 3;
  attrs = codes "debug";
}

handle-disabled_example :
    handle none only_first encode (λ c n. c + n) ingest (λ i. none) 0 debug_record (root ∷ []) []
    ≡ some ([], none, [], root ∷ [])
unfolding enabled lookup root
handle-disabled_example =
    handle-disabled none only_first encode (λ c n. c + n) ingest (λ i. none) 0 debug_record
      (root ∷ []) [] root refl refl
