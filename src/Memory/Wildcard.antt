-- ===== src/Memory/Wildcard.antt =====
-- memory/wildcard.go: `wildcardMatch`, a loop over two indices with two places to go back to.
pub mod Rank
pub mod Descent
pub mod Ending
use sqlog.Base.{
  ℕ, zero, suc, Bool, true, false, not, ◌&&◌, ◌||◌, Option, none, some, [], ◌∷◌, ◌==◌,
  if◌then◌else◌, drop, get_elem?, Bytes, codes, bytes_eq,
}
use sqlog.Expr.Text.{is_empty}

-- The variables of the loop; -1 of `star` and `eroteme` is `none`, and else each has the index in
-- the text that goes with it.
pub record Cursor : Type 0 where
  pub pattern_index : ℕ
  pub s_index : ℕ
  pub star : Option ℕ
  pub last_star : ℕ
  pub eroteme : Option ℕ
  pub last_eroteme : ℕ
  pub last_eroteme_byte : ℕ

unfoldable pub cursor_start : Cursor
cursor_start = record {
  pattern_index = 0;
  s_index = 0;
  star = none;
  last_star = 0;
  eroteme = none;
  last_eroteme = 0;
  last_eroteme_byte = 0;
}

-- The loop at `checkPattern`, from the rest of the pattern on.
unfoldable pub check_pattern : Bytes → Bool
check_pattern [] = true
check_pattern (p ∷ rest) = (p == b'*' || p == b'?') && check_pattern rest

pub data Next : Type 0 where
  goes_on : Cursor → Next
  fails : Next

-- Back to the last star, one byte further on.
unfoldable pub back_to_star : Cursor → Next
back_to_star c = elim c.star [
  | none ↦ fails
  | some star ↦ goes_on (record c {
    pattern_index = suc star;
    last_star = suc c.last_star;
    s_index = suc c.last_star;
  })
]

-- Back behind the last question mark, which then stands for no byte.
unfoldable pub back_to_eroteme : Cursor → Next
unfolding back_to_star
back_to_eroteme c = elim c.eroteme [
  | none ↦ back_to_star c
  | some eroteme ↦
      goes_on (record c { pattern_index = suc eroteme; s_index = c.last_eroteme; eroteme = none })
]

unfoldable pub is_some {ℓ} : {A : Type ℓ} → Option A → Bool
is_some none = false
is_some (some x) = true

-- One round, on a byte `p` of the pattern and a byte `b` of the text.
unfoldable pub match_byte : ℕ → ℕ → Cursor → Next
unfolding back_to_eroteme is_some
match_byte p b c =
    if p == b'?'
    then goes_on (record c {
      eroteme = some c.pattern_index;
      last_eroteme = c.s_index;
      last_eroteme_byte = b;
      pattern_index = suc c.pattern_index;
      s_index = suc c.s_index;
    })
    else if p == b'*'
    then goes_on (record c {
      star = some c.pattern_index;
      last_star = c.s_index;
      pattern_index = suc c.pattern_index;
    })
    else if not (p == b)
    then back_to_eroteme c
    else goes_on (record c {
      eroteme = if is_some c.eroteme && not (c.last_eroteme_byte == b) then none else c.eroteme;
      pattern_index = suc c.pattern_index;
      s_index = suc c.s_index;
    })

unfoldable pub at_pattern : Bytes → ℕ → Cursor → Next
unfolding match_byte back_to_star
at_pattern pattern b c = elim (get_elem? pattern c.pattern_index) [
  | none ↦ back_to_star c
  | some p ↦ match_byte p b c
]

unfoldable pub match_loop : ℕ → Bytes → Bytes → Cursor → Option Bool
unfolding at_pattern check_pattern
match_loop zero pattern s c = none
match_loop (suc f) pattern s c = elim (get_elem? s c.s_index) [
  | none ↦ some (check_pattern (drop c.pattern_index pattern))
  | some b ↦ elim (at_pattern pattern b c) [
    | fails ↦ some false
    | goes_on c' ↦ match_loop f pattern s c'
  ]
]

unfoldable pub wildcard_match : ℕ → Bytes → Bytes → Option Bool
unfolding match_loop is_empty cursor_start
wildcard_match f pattern s =
    if is_empty pattern
    then some (is_empty s)
    else if bytes_eq pattern (codes "*") || bytes_eq s pattern
    then some true
    else match_loop f pattern s cursor_start
