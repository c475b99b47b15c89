-- ===== src/Expr/Tests.antt =====
-- Runs of expr.go at small inputs, after expr_test.go, and instances of the theorems.
use sqlog.Base.{
  ℕ, ◌≡◌, refl, true, false, Option, none, some, [], ◌∷◌, ◌-◌, ◌&&◌, codes, Bytes, leb,
  if◌then◌else◌,
}
use sqlog.Expr.{group_start, group_end, operator, text, number, between, text_in}
use sqlog.Expr.State.{ok, err, unexpected_colon}
use sqlog.Expr.Query.{Query, query_calls}
use sqlog.Expr.Parse.{parse}
use sqlog.Expr.Safety.{Returns}
use sqlog.Expr.Grammar.{parse-Query}

-- Numbers of one digit.
abbrev digit : Bytes → Option ℕ
digit [] = none
digit (c ∷ []) = if leb b'0' c && leb c b'9' then some (c - b'0') else none
digit (c ∷ d ∷ rest) = none

abbrev msg : Bytes
msg = codes "msg"

parse_words :
    parse digit (codes "hello* or \"big world\"")
    ≡ ok (
        text msg (codes "hello*") false true
        ∷ operator (codes "OR")
        ∷ text msg (codes "big world") true false
        ∷ [])
unfolding parse
parse_words = refl

parse_group :
    parse digit (codes "a (x:>=5 y:[1 b])")
    ≡ ok (
        text msg (codes "a") false false
        ∷ operator (codes "AND")
        ∷ group_start
        ∷ number (codes "x") (codes ">=") 5
        ∷ operator (codes "AND")
        ∷ group_start
        ∷ number (codes "y") (codes "=") 1
        ∷ operator (codes "OR")
        ∷ text_in (codes "y") (codes "b" ∷ [])
        ∷ group_end
        ∷ group_end
        ∷ [])
unfolding parse
parse_group = refl

parse_interval : parse digit (codes "x:[1 TO 3]") ≡ ok (between (codes "x") 1 3 ∷ [])
unfolding parse
parse_interval = refl

parse_escaped : parse digit (codes "c\\:/p") ≡ ok (text msg (codes "c:/p") false false ∷ [])
unfolding parse
parse_escaped = refl

parse_colon : parse digit (codes "a:b:c") ≡ err (unexpected_colon 3)
unfolding parse
parse_colon = refl

abbrev nested : Bytes
nested = codes "a OR (x:>=5 y:[1 b]) c:[1 TO 3]"

parse-Query_example :
    Returns (λ calls. (q : Query ℕ) × (calls ≡ query_calls q)) (parse digit nested)
parse-Query_example = parse-Query digit nested
