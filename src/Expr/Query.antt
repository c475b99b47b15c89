-- ===== src/Expr/Query.antt =====
-- What an expression of expr.go means, apart from its text: a sequence of clauses with a connective
-- before each but the first, where a clause is a condition on a field or a group in parentheses.
use sqlog.Base.{Bool, true, false, List, [], ◌∷◌, ◌++◌, Bytes, codes}
use sqlog.Expr.{Call, group_start, group_end, operator, text, number, between, text_in, number_in}

pub data Connective : Type 0 where
  and_ : Connective
  or_ : Connective

pub data Comparison : Type 0 where
  at_least : Comparison
  above : Comparison
  at_most : Comparison
  below : Comparison
  equal : Comparison

mutual
  pub data Query (F : Type 0) : Type 0 where
    nothing : Query F
    of_terms : Terms F → Query F

  pub data Terms (F : Type 0) : Type 0 where
    only : Clause F → Terms F
    join : Terms F → Connective → Clause F → Terms F

  pub data Clause (F : Type 0) : Type 0 where
    has_text : Bytes → Bytes → Bool → Bool → Clause F
    has_number : Bytes → Comparison → F → Clause F
    in_between : Bytes → F → F → Clause F
    in_texts : Bytes → List Bytes → Clause F
    in_numbers : Bytes → List F → Clause F
    group : Query F → Clause F

unfoldable pub spelling : Connective → Bytes
spelling and_ = codes "AND"
spelling or_ = codes "OR"

unfoldable pub symbol : Comparison → Bytes
symbol at_least = codes ">="
symbol above = codes ">"
symbol at_most = codes "<="
symbol below = codes "<"
symbol equal = codes "="

module _ {F : Type 0} where
  -- The calls that a parser makes for a query.
  unfoldable mutual
    unfolding spelling symbol

    pub query_calls : Query F → List (Call F)
    query_calls nothing = []
    query_calls (of_terms ts) = terms_calls ts

    pub terms_calls : Terms F → List (Call F)
    terms_calls (only c) = clause_calls c
    terms_calls (join ts op c) = terms_calls ts ++ operator (spelling op) ∷ clause_calls c

    pub clause_calls : Clause F → List (Call F)
    clause_calls (has_text field term is_sequence is_wildcard) =
        text field term is_sequence is_wildcard ∷ []
    clause_calls (has_number field condition value) = number field (symbol condition) value ∷ []
    clause_calls (in_between field x y) = between field x y ∷ []
    clause_calls (in_texts field values) = text_in field values ∷ []
    clause_calls (in_numbers field values) = number_in field values ∷ []
    clause_calls (group q) = group_start ∷ (query_calls q ++ group_end ∷ [])

  unfoldable pub is_nothing : Query F → Bool
  is_nothing nothing = true
  is_nothing (of_terms ts) = false
