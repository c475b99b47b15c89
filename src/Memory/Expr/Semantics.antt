-- ===== src/Memory/Expr/Semantics.antt =====
-- What a query asks of an entry, by recursion on the query, and that the predicate that
-- memory/memory_expr.go makes of an expression answers it.
use sqlog.Base.{ℕ, ◌≡◌, refl, ap, ◌∙◌, Bool, true, false, [], ◌&&◌, Bytes, Option, none, some}
use sqlog.Expr.Query.{
  Query, nothing, of_terms, Terms, only, join, Clause, has_text, has_number, in_between, in_texts,
  in_numbers, group, and_, or_, symbol,
}
use sqlog.Memory.Expr.{
  MemExpr, group_expr, or_expr, and_expr, text_expr, number_expr, between_expr, text_in_expr,
  number_in_expr, bottom, snoc,
}
use sqlog.Memory.Expr.Eval.{
  Fields, Answer, answer, panics, unfinished, ◌>>=◌, Library, compares, any_equal, eval_text,
  eval_text_in, eval_number, eval, eval_all, eval_any, holds_of,
}
use sqlog.Memory.Expr.Meaning.{conjuncts, disjuncts, query_stack, terms_expr, clause_expr}

module _ {F V : Type 0} where
  -- The second answer counts only if the first is yes, or only if it is no.
  unfoldable pub and_then : Answer F V Bool → (Fields F V → Answer F V Bool) → Answer F V Bool
  and_then (answer true j) k = k j
  and_then (answer false j) k = answer false j
  and_then panics k = panics
  and_then unfinished k = unfinished

  unfoldable pub or_else : Answer F V Bool → (Fields F V → Answer F V Bool) → Answer F V Bool
  or_else (answer true j) k = answer true j
  or_else (answer false j) k = k j
  or_else panics k = panics
  or_else unfinished k = unfinished

  and_then-bind :
      (r : Answer F V Bool) (k k' : Fields F V → Answer F V Bool)
      → ((j : Fields F V) → k j ≡ k' j)
      → (r >>= λ holds j. elim holds [ true ↦ k j | false ↦ answer false j ]) ≡ and_then r k'
  unfolding and_then ◌>>=◌
  and_then-bind (answer true j) k k' h = h j
  and_then-bind (answer false j) k k' h = refl
  and_then-bind panics k k' h = refl
  and_then-bind unfinished k k' h = refl

  or_else-bind :
      (r : Answer F V Bool) (k k' : Fields F V → Answer F V Bool)
      → ((j : Fields F V) → k j ≡ k' j)
      → (r >>= λ holds j. elim holds [ true ↦ answer true j | false ↦ k j ]) ≡ or_else r k'
  unfolding or_else ◌>>=◌
  or_else-bind (answer true j) k k' h = refl
  or_else-bind (answer false j) k k' h = h j
  or_else-bind panics k k' h = refl
  or_else-bind unfinished k k' h = refl

module _ {F V : Type 0} (lib : Library F V) (fuel : ℕ) where
  -- Each clause is asked with the connective before it, of what is in front of it as a whole.
  unfoldable mutual
    unfolding and_then or_else symbol

    pub asks : Query F → Fields F V → Answer F V Bool
    asks nothing j = answer true j
    asks (of_terms ts) j = asks_terms ts j

    pub asks_terms : Terms F → Fields F V → Answer F V Bool
    asks_terms (only c) j = asks_clause c j
    asks_terms (join ts and_ c) j = and_then (asks_terms ts j) (λ j'. asks_clause c j')
    asks_terms (join ts or_ c) j = or_else (asks_terms ts j) (λ j'. asks_clause c j')

    pub asks_clause : Clause F → Fields F V → Answer F V Bool
    asks_clause (has_text field term is_sequence is_wildcard) j =
        eval_text lib fuel field term is_sequence is_wildcard j
    asks_clause (has_number field condition value) j =
        eval_number lib fuel field (λ n. compares lib (symbol condition) n value) j
    asks_clause (in_between field x y) j =
        eval_number lib fuel field (λ n. lib.less_or_equal x n && lib.less_or_equal n y) j
    asks_clause (in_texts field values) j = eval_text_in lib fuel field values j
    asks_clause (in_numbers field values) j =
        eval_number lib fuel field (λ n. any_equal lib lib.equals n values) j
    asks_clause (group q) j = asks q j

  eval_all-conjuncts :
      (e : MemExpr F) (j : Fields F V) → eval_all lib fuel (conjuncts e) j ≡ eval lib fuel e j
  unfolding conjuncts eval ◌>>=◌
  eval_all-conjuncts (group_expr x) j = refl
  eval_all-conjuncts (or_expr x) j = refl
  eval_all-conjuncts (and_expr x) j = refl
  eval_all-conjuncts (text_expr a b c d) j = refl
  eval_all-conjuncts (number_expr a b c) j = refl
  eval_all-conjuncts (between_expr a b c) j = refl
  eval_all-conjuncts (text_in_expr a b) j = refl
  eval_all-conjuncts (number_in_expr a b) j = refl

  eval_any-disjuncts :
      (e : MemExpr F) (j : Fields F V) → eval_any lib fuel (disjuncts e) j ≡ eval lib fuel e j
  unfolding disjuncts eval ◌>>=◌
  eval_any-disjuncts (group_expr x) j = refl
  eval_any-disjuncts (or_expr x) j = refl
  eval_any-disjuncts (and_expr x) j = refl
  eval_any-disjuncts (text_expr a b c d) j = refl
  eval_any-disjuncts (number_expr a b c) j = refl
  eval_any-disjuncts (between_expr a b c) j = refl
  eval_any-disjuncts (text_in_expr a b) j = refl
  eval_any-disjuncts (number_in_expr a b) j = refl

  mutual
    unfolding query_stack eval asks ◌>>=◌

    eval-query : (q : Query F) (j : Fields F V) → eval_all lib fuel (query_stack q) j ≡ asks q j
    eval-query nothing j = refl
    eval-query (of_terms ts) j = eval-terms ts j

    eval-terms : (ts : Terms F) (j : Fields F V) → eval lib fuel (terms_expr ts) j ≡ asks_terms ts j
    eval-terms (only c) j = eval-clause c j
    eval-terms (join ts and_ c) j =
        and_then-bind (eval_all lib fuel (conjuncts (terms_expr ts)) j) _ _ (eval-clause c)
        ∙ ap (λ r. and_then r (λ j'. asks_clause c j'))
            (eval_all-conjuncts (terms_expr ts) j ∙ eval-terms ts j)
    eval-terms (join ts or_ c) j =
        or_else-bind (eval_any lib fuel (disjuncts (terms_expr ts)) j) _ _ (eval-clause c)
        ∙ ap (λ r. or_else r (λ j'. asks_clause c j'))
            (eval_any-disjuncts (terms_expr ts) j ∙ eval-terms ts j)

    eval-clause :
        (c : Clause F) (j : Fields F V) → eval lib fuel (clause_expr c) j ≡ asks_clause c j
    eval-clause (has_text field term is_sequence is_wildcard) j = refl
    eval-clause (has_number field condition value) j = refl
    eval-clause (in_between field x y) j = refl
    eval-clause (in_texts field values) j = refl
    eval-clause (in_numbers field values) j = refl
    eval-clause (group q) j = eval-query q j

  -- A query that has a clause is asked of an entry whose content is a JSON object, and of no other.
  unfoldable pub asks_entry : Query F → Bytes → Answer F V Bool
  unfolding asks
  asks_entry nothing content = answer true []
  asks_entry (of_terms ts) content = elim (lib.unmarshal content) [
    | none ↦ answer false []
    | some j ↦ asks_terms ts j
  ]

  pub holds_of-asks :
      (q : Query F) (content : Bytes)
      → holds_of lib fuel (query_stack q) content ≡ asks_entry q content
  unfolding holds_of asks_entry query_stack
  holds_of-asks nothing content = refl
  holds_of-asks (of_terms ts) content = go (lib.unmarshal content)
    where
      go :
          (r : Option (Fields F V))
          → (elim r [
            | none ↦ answer false []
            | some j ↦ eval_all lib fuel (snoc bottom (terms_expr ts)) j
          ])
            ≡ (elim r [ none ↦ answer false [] | some j ↦ asks_terms ts j ])
      go none = refl
      go (some j) = eval-query (of_terms ts) j
