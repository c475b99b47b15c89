-- ===== src/Expr/Text.antt =====
-- What the parser uses of the packages strings and bytes, on ASCII text.
use sqlog.Base.{
  ℕ, ◌-◌, Bool, true, false, ◌&&◌, ◌||◌, Option, none, some, List, [], ◌∷◌, ◌++◌, leb, ◌==◌,
  if◌then◌else◌, Bytes,
}
use mathlib.Core.List.{reverse}

unfoldable pub is_space : ℕ → Bool
is_space c = c == 32 || leb 9 c && leb c 13

trim_left : Bytes → Bytes
unfolding is_space
trim_left [] = []
trim_left (c ∷ s) = if is_space c then trim_left s else c ∷ s

-- strings.TrimSpace
unfoldable pub trim_space : Bytes → Bytes
unfolding trim_left
trim_space s = reverse (trim_left (reverse (trim_left s)))

-- strings.ToUpper
unfoldable pub to_upper : Bytes → Bytes
to_upper [] = []
to_upper (c ∷ s) = (if leb b'a' c && leb c b'z' then c - 32 else c) ∷ to_upper s

-- strings.HasPrefix and strings.TrimPrefix: what is behind the prefix, if it is one
unfoldable pub cut_prefix : Bytes → Bytes → Option Bytes
cut_prefix [] s = some s
cut_prefix (p ∷ ps) [] = none
cut_prefix (p ∷ ps) (c ∷ s) = let rest = cut_prefix ps s in if p == c then rest else none

-- strings.LastIndexByte(s, c) >= 0
unfoldable pub has_byte : ℕ → Bytes → Bool
has_byte c [] = false
has_byte c (d ∷ s) = d == c || has_byte c s

unfoldable pub is_empty {ℓ} : {A : Type ℓ} → List A → Bool
is_empty [] = true
is_empty (x ∷ xs) = false

-- strings.Join(parts, "")
unfoldable pub join : List Bytes → Bytes
join [] = []
join (s ∷ parts) = s ++ join parts

-- bytes.Buffer.Truncate(b.Len() - 1), which panics on an empty buffer
unfoldable pub drop_last : Bytes → Option Bytes
drop_last [] = none
drop_last (c ∷ []) = some []
drop_last (c ∷ d ∷ s) = elim (drop_last (d ∷ s)) [ none ↦ none | some r ↦ some (c ∷ r) ]
