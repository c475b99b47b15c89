-- ===== src/Http/Numbers.antt =====
-- The numbers that http.go reads from a request: what becomes of one that its type does not hold.
use sqlog.Base.{
  ℕ, zero, suc, ◌-◌, ◌^◌, ◌<◌, ◌≤◌, ◌≡◌, ap, ◌∙◌, true, false, Option, none, some, List, ◌∷◌, Bytes,
  bytes_eq_refl, codes, ltb, arith, if◌then◌else◌, if_cases, leb, ◌⊎◌, inl, inr,
}
use sqlog.Base.Int.{ℤ, pos, negsuc}
use sqlog.Base.Decimal.{
  scanned, too_large, neg, signed, format_int, parse_int, IsPrinted, scan-printed, lt_or_le,
  parse_int-pos, parse_int-negsuc,
}
use sqlog.Api.{StorageWithApi, Answer, failed, answered, ask_result, ask_cancel}
use sqlog.Http.{
  Response, Payload, nil, value_of, get_int, query_value, entries_input, ticks_input, as_payload,
  sent, send_json, serve_result, serve_cancel,
}

-- The integer of `bits` bits that is nearest to a number.
abbrev pub clamp : ℕ → ℤ → ℤ
clamp bits (pos n) = pos (if ltb n (2 ^ (bits - 1)) then n else 2 ^ (bits - 1) - 1)
clamp bits (negsuc n) = negsuc (if ltb n (2 ^ (bits - 1)) then n else 2 ^ (bits - 1) - 1)

neg-negsuc : (n : ℕ) → 1 ≤ n → neg n ≡ negsuc (n - 1)
unfolding neg
neg-negsuc zero h = absurd (omega (arith, h))
neg-negsuc (suc n) h = ap negsuc (omega arith)

module _ (bits : ℕ) (some_bit : 1 ≤ 2 ^ (bits - 1)) (half : 2 ^ (bits - 1) ≤ 2 ^ bits) where
  signed-pos : (n : ℕ) → value_of (signed bits false (scanned n)) ≡ clamp bits (pos n)
  unfolding signed value_of
  signed-pos n = ground arith

  signed-negsuc : (n : ℕ) → value_of (signed bits true (scanned (suc n))) ≡ clamp bits (negsuc n)
  unfolding signed value_of neg
  signed-negsuc n =
      if_cases (λ p. value_of p ≡ clamp bits (negsuc n)) (leb (suc n) (2 ^ (bits - 1)))
        (λ e. ap negsuc (ground (arith, e)))
        (λ e. neg-negsuc (2 ^ (bits - 1)) some_bit ∙ ap negsuc (ground (arith, e)))

  over-pos : (n : ℕ) → 2 ^ bits ≤ n → value_of (signed bits false too_large) ≡ clamp bits (pos n)
  unfolding signed value_of
  over-pos n h = ground (arith, h, half)

  over-negsuc :
      (n : ℕ) → 2 ^ bits ≤ suc n → value_of (signed bits true too_large) ≡ clamp bits (negsuc n)
  unfolding signed value_of neg
  over-negsuc n h =
      neg-negsuc (2 ^ (bits - 1)) some_bit ∙ ap negsuc (over (lt_or_le n (2 ^ (bits - 1))))
    where
      over :
          (n < 2 ^ (bits - 1)) ⊎ (2 ^ (bits - 1) ≤ n)
          → 2 ^ (bits - 1) - 1 ≡ (if ltb n (2 ^ (bits - 1)) then n else 2 ^ (bits - 1) - 1)
      over o = ground (arith, o, h, half, some_bit)

  read-clamp : (z : ℤ) → IsPrinted z → value_of (parse_int bits (format_int z)) ≡ clamp bits z
  read-clamp (pos n) h = ap value_of (parse_int-pos bits n) ∙ elim (scan-printed bits n h) [
    | inl (fits, e) ↦ ap (λ s. value_of (signed bits false s)) e ∙ signed-pos n
    | inr (over, e) ↦ ap (λ s. value_of (signed bits false s)) e ∙ over-pos n over
  ]
  read-clamp (negsuc n) h =
      ap value_of (parse_int-negsuc bits n) ∙ elim (scan-printed bits (suc n) h) [
        | inl (fits, e) ↦ ap (λ s. value_of (signed bits true s)) e ∙ signed-negsuc n
        | inr (over, e) ↦ ap (λ s. value_of (signed bits true s)) e ∙ over-negsuc n over
      ]

-- What a number is, of a request whose value of this key is the printed number.
get_int-clamp :
    (bits : ℕ) (key : Bytes) (z : ℤ) (q : List (Bytes × Bytes))
    → 1 ≤ 2 ^ (bits - 1)
    → 2 ^ (bits - 1) ≤ 2 ^ bits
    → IsPrinted z
    → get_int bits key ((key, format_int z) ∷ q) ≡ clamp bits z
unfolding get_int query_value
get_int-clamp bits key z q some_bit half h =
    rw (bytes_eq_refl key) (read-clamp bits some_bit half z h)

-- A query that begins with a text under a key.
abbrev pub with_value : List (Bytes × Bytes) → Bytes → Bytes → List (Bytes × Bytes)
with_value q text key = (key, text) ∷ q

-- What `Cancel` answers.
abbrev pub cancel_answer : {S E : Type 0} → Option E × S → Response E × S
cancel_answer {E = E} (failure, st) = (
  send_json
      (elim failure as (λ _. Answer E (Payload E)) [ some e ↦ failed e | none ↦ answered nil ]),
  st,
)

-- A number of a request that has at most 20 digits reaches the storage as it is, if the type of its
-- parameter holds it, and else as the nearest number that it holds: the number of a task is one of
-- 32 bits, for `Result` and for `Cancel`, and the times, the limits and the interval are of 64 bits.
pub serve-clamp :
    {S E : Type 0} (storage : Option (StorageWithApi S E)) (z : ℤ) (q : List (Bytes × Bytes))
    (st : S)
    → IsPrinted z
    → let at = with_value q (format_int z) in
      (serve_result storage (at (codes "id")) st
        ≡ sent (as_payload (ask_result storage (clamp 32 z) st)))
      × (serve_cancel storage (at (codes "id")) st
          ≡ cancel_answer (ask_cancel storage (clamp 32 z) st))
      × ((entries_input (at (codes "epoch"))).epoch_start ≡ clamp 64 z)
      × ((entries_input (at (codes "nanos"))).nanos_start ≡ clamp 64 z)
      × ((entries_input (at (codes "limit"))).max_result ≡ clamp 64 z)
      × ((ticks_input (at (codes "epoch"))).epoch_end ≡ clamp 64 z)
      × ((ticks_input (at (codes "interval"))).interval_sec ≡ clamp 64 z)
      × ((ticks_input (at (codes "limit"))).max_result ≡ clamp 64 z)
unfolding serve_result serve_cancel entries_input ticks_input
serve-clamp storage z q st h =
    let id = get_int-clamp 32 (codes "id") z q (omega arith) (omega arith) h in
    let wide = λ (key : Bytes). get_int-clamp 64 key z q (omega arith) (omega arith) h in
    (
      ap (λ n. sent (as_payload (ask_result storage n st))) id,
      ap (λ n. cancel_answer (ask_cancel storage n st)) id,
      wide (codes "epoch"),
      wide (codes "nanos"),
      wide (codes "limit"),
      wide (codes "epoch"),
      wide (codes "interval"),
      wide (codes "limit"),
    )
