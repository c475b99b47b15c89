-- ===== src/Memory/Expr/Tests.antt =====
-- Runs of memory/memory_expr.go and memory/wildcard.go at small inputs, after their tests, and
-- instances of the theorems.
use sqlog.Base.{
  ℕ, ◌≤◌, ◌≡◌, refl, Bool, true, false, Option, none, some, [], ◌∷◌, ◌-◌, ◌+◌, ◌&&◌, ltb, leb, ◌==◌,
  if◌then◌else◌, Bytes, codes,
}
use sqlog.Expr.Safety.{Returns}
use sqlog.Expr.Parse.{build_expr}
use sqlog.Memory.Wildcard.{wildcard_match}
use sqlog.Memory.Wildcard.Ending.{wildcard_match-ends}
use sqlog.Memory.Expr.{Stack, bottom, snoc, text_expr, factory}
use sqlog.Memory.Expr.Eval.{
  Value, text, number, other, Fields, Answer, answer, panics, Library, eval_all,
}
use sqlog.Memory.Expr.Eval
use sqlog.Memory.Expr.Compile.{IsMeaning, build_expr-asks}

match_star : wildcard_match 20 (codes "*st?ing") (codes "a string") ≡ some true
unfolding wildcard_match
match_star = refl

match_not : wildcard_match 20 (codes "s*e") (codes "string") ≡ some false
unfolding wildcard_match
match_not = refl

-- Numbers of one digit.
abbrev digit : Bytes → Option ℕ
digit [] = none
digit (c ∷ []) = if leb b'0' c && leb c b'9' then some (c - b'0') else none
digit (c ∷ d ∷ rest) = none

-- Content is a message.
abbrev digits : Library ℕ Unit
digits = record {
  equals = λ x y. x == y;
  less = λ x y. ltb x y;
  less_or_equal = λ x y. leb x y;
  parse_float = digit;
  marshal = λ v. elim v [ text s ↦ some s | number n ↦ some ((b'0' + n) ∷ []) | other w ↦ none ];
  unmarshal = λ content. some ((codes "msg", text content) ∷ []);
}

abbrev asks_a : Stack ℕ
asks_a = snoc bottom (text_expr (codes "a") (codes "1") true false)

-- A number is not found by its text the first time, and is the second.
eval_number_once :
    eval_all digits 0 asks_a ((codes "a", number 1) ∷ [])
    ≡ answer false ((codes "___csa", text (codes "1")) ∷ (codes "a", number 1) ∷ [])
unfolding eval_all Eval.◌>>=◌
eval_number_once = refl

eval_number_again :
    eval_all digits 0 asks_a ((codes "___csa", text (codes "1")) ∷ (codes "a", number 1) ∷ [])
    ≡ answer true ((codes "___csa", text (codes "1")) ∷ (codes "a", number 1) ∷ [])
unfolding eval_all Eval.◌>>=◌
eval_number_again = refl

-- Content with a key of the cache's name.
eval_panics :
    eval_all digits 0 asks_a ((codes "a", number 1) ∷ (codes "___csa", number 2) ∷ []) ≡ panics
unfolding eval_all Eval.◌>>=◌
eval_panics = refl

build_expr-asks_example :
    Returns
      (IsMeaning digits 20 (codes "a or (b* x:>=2) c"))
      (build_expr digits.parse_float factory (codes "a or (b* x:>=2) c"))
build_expr-asks_example = build_expr-asks digits 20 (codes "a or (b* x:>=2) c")

wildcard_match-ends_example :
    (f : ℕ) × (b : Bool) × ((g : ℕ)
      → f ≤ g
      → wildcard_match g (codes "?a*?b") (codes "xaab") ≡ some b)
wildcard_match-ends_example = wildcard_match-ends (codes "?a*?b") (codes "xaab")
