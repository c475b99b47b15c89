-- ===== src/Base/Decimal.antt =====
-- strconv on decimal integers: what `%d` prints of an int64, and `ParseInt(s, 10, bits)`.
use sqlog.Base.{
  ℕ, zero, suc, ◌+◌, ◌-◌, ◌*◌, ◌/◌, ◌%◌, ◌^◌, ◌≤◌, ◌<◌, ◌≡◌, refl, ap, ◌∙◌, true, false, [], ◌∷◌,
  ◌++◌, ltb, leb, ◌&&◌, ◌⊎◌, if◌then◌else◌, Bytes, arith, append_assoc, Bool, inl, inr, All,
  All-append, ◌||◌, length, length-append, append-nil, sym, ◌==◌,
}
use sqlog.Base.Int.{ℤ, pos, negsuc}
use native.Mathlib.Nat.{pow-suc, one-le-pow}

-- The digits of a number that has at most `f` of them.
unfoldable pub digits : ℕ → ℕ → Bytes
digits zero n = []
digits (suc f) n = elim (ltb n 10) [
  | true ↦ (b'0' + n) ∷ []
  | false ↦ digits f (n / 10) ++ (b'0' + n % 10) ∷ []
]

-- A word of 64 bits has at most 20 digits.
unfoldable pub format_int : ℤ → Bytes
unfolding digits
format_int (pos n) = digits 20 n
format_int (negsuc n) = b'-' ∷ digits 20 (suc n)

-- The error of strconv, with the value that comes with it.
pub data Parsed : Type 0 where
  parsed : ℤ → Parsed
  bad_syntax : Parsed
  out_of_range : ℤ → Parsed

-- ParseUint: the value, or an error; the range is checked at each digit.
pub data Scanned : Type 0 where
  scanned : ℕ → Scanned
  no_digits : Scanned
  too_large : Scanned

unfoldable pub is_digit : ℕ → Bool
is_digit c = leb b'0' c && leb c b'9'

unfoldable pub scan_digits : ℕ → ℕ → Bytes → Scanned
unfolding is_digit
scan_digits bits n [] = scanned n
scan_digits bits n (c ∷ s) =
    let m = 10 * n + (c - b'0') in
    let rest = scan_digits bits m s in
    if is_digit c then (if ltb m (2 ^ bits) then rest else too_large) else no_digits

unfoldable pub parse_uint : ℕ → Bytes → Scanned
unfolding scan_digits
parse_uint bits [] = no_digits
parse_uint bits (c ∷ s) = scan_digits bits 0 (c ∷ s)

unfoldable pub neg : ℕ → ℤ
neg zero = pos 0
neg (suc n) = negsuc n

-- The sign is taken off; what is left has to be below half of the words, or at it with a minus.
unfoldable pub signed : ℕ → Bool → Scanned → Parsed
unfolding neg
signed bits negative no_digits = bad_syntax
signed bits negative too_large =
    out_of_range (if negative then neg (2 ^ (bits - 1)) else pos (2 ^ (bits - 1) - 1))
signed bits false (scanned n) =
    if ltb n (2 ^ (bits - 1)) then parsed (pos n) else out_of_range (pos (2 ^ (bits - 1) - 1))
signed bits true (scanned n) =
    if leb n (2 ^ (bits - 1)) then parsed (neg n) else out_of_range (neg (2 ^ (bits - 1)))

unfoldable pub parse_int : ℕ → Bytes → Parsed
unfolding parse_uint signed
parse_int bits [] = bad_syntax
parse_int bits (c ∷ s) =
    if c == b'+'
    then signed bits false (parse_uint bits s)
    else if c == b'-'
    then signed bits true (parse_uint bits s)
    else signed bits false (parse_uint bits (c ∷ s))

digit-is_digit : (d : ℕ) → d < 10 → is_digit (b'0' + d) ≡ true
unfolding is_digit
digit-is_digit d h = ground arith

scan-step :
    (bits m d : ℕ) (rest : Bytes)
    → d < 10
    → 10 * m + d < 2 ^ bits
    → scan_digits bits m ((b'0' + d) ∷ rest) ≡ scan_digits bits (10 * m + d) rest
unfolding scan_digits
scan-step bits m d rest h k =
    let value : 10 * m + (b'0' + d - b'0') ≡ 10 * m + d = omega arith in
    let fits : ltb (10 * m + d) (2 ^ bits) ≡ true = ground (arith, k) in
    rw (digit-is_digit d h, value, fits)

ten_times : (f n : ℕ) → n < 10 ^ suc f → n / 10 < 10 ^ f
ten_times f n h = let e : 10 ^ suc f ≡ 10 ^ f * 10 = pow-suc 10 f in omega (arith, h, e)

digits-none : (n : ℕ) → digits 0 n ≡ []
unfolding digits
digits-none n = refl

lt_or_ge : (n : ℕ) → (n < 10) ⊎ (10 ≤ n)
lt_or_ge n = ground arith

digits-small : (f n : ℕ) → n < 10 → digits (suc f) n ≡ (b'0' + n) ∷ []
unfolding digits
digits-small f n h = ground (arith, h)

digits-large : (f n : ℕ) → 10 ≤ n → digits (suc f) n ≡ digits f (n / 10) ++ (b'0' + n % 10) ∷ []
unfolding digits
digits-large f n h = ground (arith, h)

pub scan-digits :
    (bits f n : ℕ) (rest : Bytes)
    → n < 10 ^ f
    → n < 2 ^ bits
    → scan_digits bits 0 (digits f n ++ rest) ≡ scan_digits bits n rest
scan-digits bits zero n rest h k =
    rw (digits-none n) (ap (λ m. scan_digits bits m rest) (omega (arith, h)))
scan-digits bits (suc f) n rest h k = elim (lt_or_ge n) [
  | inl small ↦ rw (digits-small f n small) (
      scan-step bits 0 n rest small (omega (arith, k))
      ∙ ap (λ m. scan_digits bits m rest) (omega arith))
  | inr large ↦ rw (digits-large f n large) (
      ap (scan_digits bits 0) (append_assoc (digits f (n / 10)) ((b'0' + n % 10) ∷ []) rest)
      ∙ scan-digits bits f (n / 10) ((b'0' + n % 10) ∷ rest) (ten_times f n h) (omega (arith, k))
      ∙ scan-step bits (n / 10) (n % 10) rest (omega arith) (omega (arith, k))
      ∙ ap (λ m. scan_digits bits m rest) (omega arith))
]

abbrev pub IsDigits : Bytes → Type 0
IsDigits s = All (λ c. is_digit c ≡ true) s

pub digits-IsDigits : (f n : ℕ) → IsDigits (digits f n)
digits-IsDigits zero n = rw (digits-none n) tt
digits-IsDigits (suc f) n = elim (lt_or_ge n) [
  | inl small ↦ rw (digits-small f n small) (digit-is_digit n small, tt)
  | inr large ↦ rw (digits-large f n large) (
      All-append (λ c. is_digit c ≡ true) (digits f (n / 10)) ((b'0' + n % 10) ∷ [])
        (digits-IsDigits f (n / 10)) (digit-is_digit (n % 10) (omega arith), tt))
]

some_digit : (f n : ℕ) → 0 < length (digits (suc f) n)
some_digit f n = elim (lt_or_ge n) [
  | inl small ↦ rw (digits-small f n small) (omega arith)
  | inr large ↦
      rw (digits-large f n large, length-append (digits f (n / 10)) ((b'0' + n % 10) ∷ []))
        (omega arith)
]

-- Without a sign the digits are scanned as they are.
parse_int-unsigned :
    (bits : ℕ) (s : Bytes)
    → 0 < length s
    → IsDigits s
    → parse_int bits s ≡ signed bits false (scan_digits bits 0 s)
unfolding parse_int parse_uint is_digit
parse_int-unsigned bits [] h d = absurd (omega (arith, h))
parse_int-unsigned bits (c ∷ s) h d = ground (arith, d.0)

parse_uint-scan_digits :
    (bits : ℕ) (s : Bytes) → 0 < length s → parse_uint bits s ≡ scan_digits bits 0 s
unfolding parse_uint
parse_uint-scan_digits bits [] h = absurd (omega (arith, h))
parse_uint-scan_digits bits (c ∷ s) h = refl

scan-word : (bits f n : ℕ) → n < 10 ^ f → n < 2 ^ bits → scan_digits bits 0 (digits f n) ≡ scanned n
unfolding scan_digits
scan-word bits f n h k =
    ap (scan_digits bits 0) (sym (append-nil (digits f n))) ∙ scan-digits bits f n [] h k

scan-over :
    (bits m d : ℕ) (rest : Bytes)
    → d < 10
    → 2 ^ bits ≤ 10 * m + d
    → scan_digits bits m ((b'0' + d) ∷ rest) ≡ too_large
unfolding scan_digits
scan-over bits m d rest h k =
    let value : 10 * m + (b'0' + d - b'0') ≡ 10 * m + d = omega arith in
    let digit = digit-is_digit d h in ground (arith, value, digit, k)

pub lt_or_le : (n m : ℕ) → (n < m) ⊎ (m ≤ n)
lt_or_le n m = ground arith

-- A number that is too large for the word.
scan-too_large :
    (bits f n : ℕ) (rest : Bytes)
    → n < 10 ^ f
    → 2 ^ bits ≤ n
    → scan_digits bits 0 (digits f n ++ rest) ≡ too_large
scan-too_large bits zero n rest h k = absurd (omega (arith, h, k, one-le-pow bits 2 (omega arith)))
scan-too_large bits (suc f) n rest h k = elim (lt_or_ge n) [
  | inl small ↦ rw (digits-small f n small) (scan-over bits 0 n rest small (omega (arith, k)))
  | inr large ↦
      let front = ten_times f n h in
      let last : n % 10 < 10 = omega arith in
      let split = append_assoc (digits f (n / 10)) ((b'0' + n % 10) ∷ []) rest in
      rw (digits-large f n large, split)
        (elim (lt_or_le (n / 10) (2 ^ bits)) [
          | inl fits ↦
              scan-digits bits f (n / 10) ((b'0' + n % 10) ∷ rest) front fits
              ∙ scan-over bits (n / 10) (n % 10) rest last (omega (arith, k))
          | inr over ↦ scan-too_large bits f (n / 10) ((b'0' + n % 10) ∷ rest) front over
        ])
]

parse_int-minus :
    (bits : ℕ) (s : Bytes)
    → 0 < length s
    → parse_int bits (b'-' ∷ s) ≡ signed bits true (scan_digits bits 0 s)
unfolding parse_int
parse_int-minus bits s h = ap (signed bits true) (parse_uint-scan_digits bits s h)

signed-pos : (n : ℕ) → n < 2 ^ 63 → signed 64 false (scanned n) ≡ parsed (pos n)
unfolding signed
signed-pos n h = ground (arith, h)

signed-neg : (n : ℕ) → n < 2 ^ 63 → signed 64 true (scanned (suc n)) ≡ parsed (negsuc n)
unfolding signed neg
signed-neg n h = ground (arith, h)

-- The int64 numbers.
abbrev pub IsInt64 : ℤ → Type 0
IsInt64 (pos n) = n < 2 ^ 63
IsInt64 (negsuc n) = n < 2 ^ 63

format_int-pos : (n : ℕ) → format_int (pos n) ≡ digits 20 n
unfolding format_int
format_int-pos n = refl

format_int-negsuc : (n : ℕ) → format_int (negsuc n) ≡ b'-' ∷ digits 20 (suc n)
unfolding format_int
format_int-negsuc n = refl

pub parse_int-format_int : (z : ℤ) → IsInt64 z → parse_int 64 (format_int z) ≡ parsed z
parse_int-format_int (pos n) h =
    ap (parse_int 64) (format_int-pos n)
    ∙ parse_int-unsigned 64 (digits 20 n) (some_digit 19 n) (digits-IsDigits 20 n)
    ∙ ap (signed 64 false) (scan-word 64 20 n (omega (arith, h)) (omega (arith, h)))
    ∙ signed-pos n h
parse_int-format_int (negsuc n) h =
    ap (parse_int 64) (format_int-negsuc n)
    ∙ parse_int-minus 64 (digits 20 (suc n)) (some_digit 19 (suc n))
    ∙ ap (signed 64 true) (scan-word 64 20 (suc n) (omega (arith, h)) (omega (arith, h)))
    ∙ signed-neg n h

-- The numbers of at most 20 digits.
abbrev pub IsPrinted : ℤ → Type 0
IsPrinted (pos n) = n < 10 ^ 20
IsPrinted (negsuc n) = suc n < 10 ^ 20

-- The scan of a printed number.
pub scan-printed :
    (bits n : ℕ)
    → n < 10 ^ 20
    → ((n < 2 ^ bits) × (scan_digits bits 0 (digits 20 n) ≡ scanned n))
      ⊎ ((2 ^ bits ≤ n) × (scan_digits bits 0 (digits 20 n) ≡ too_large))
scan-printed bits n h = elim (lt_or_le n (2 ^ bits)) [
  | inl fits ↦ inl (fits, scan-word bits 20 n h fits)
  | inr over ↦ inr (
    over,
    ap (scan_digits bits 0) (sym (append-nil (digits 20 n))) ∙ scan-too_large bits 20 n [] h over,
  )
]

pub parse_int-pos :
    (bits n : ℕ)
    → parse_int bits (format_int (pos n)) ≡ signed bits false (scan_digits bits 0 (digits 20 n))
parse_int-pos bits n =
    ap (parse_int bits) (format_int-pos n)
    ∙ parse_int-unsigned bits (digits 20 n) (some_digit 19 n) (digits-IsDigits 20 n)

pub parse_int-negsuc :
    (bits n : ℕ)
    → parse_int bits (format_int (negsuc n))
      ≡ signed bits true (scan_digits bits 0 (digits 20 (suc n)))
parse_int-negsuc bits n =
    ap (parse_int bits) (format_int-negsuc n)
    ∙ parse_int-minus bits (digits 20 (suc n)) (some_digit 19 (suc n))

-- What a printed number is made of.
abbrev pub IsNumeral : Bytes → Type 0
IsNumeral s = All (λ c. (c == b'-') || is_digit c ≡ true) s

IsDigits-IsNumeral : (s : Bytes) → IsDigits s → IsNumeral s
IsDigits-IsNumeral [] h = tt
IsDigits-IsNumeral (c ∷ s) h = (ground (arith, h.0), IsDigits-IsNumeral s h.1)

pub format_int-IsNumeral : (z : ℤ) → IsNumeral (format_int z)
format_int-IsNumeral (pos n) =
    rw (format_int-pos n) (IsDigits-IsNumeral (digits 20 n) (digits-IsDigits 20 n))
format_int-IsNumeral (negsuc n) =
    rw (format_int-negsuc n)
      (refl, IsDigits-IsNumeral (digits 20 (suc n)) (digits-IsDigits 20 (suc n)))
