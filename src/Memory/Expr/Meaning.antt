-- ===== src/Memory/Expr/Meaning.antt =====
-- What a query asks of an entry, clause by clause from the left, and that the predicates of
-- memory/memory_expr.go answer it.
use sqlog.Base.{◌≡◌, refl, ap, ◌∙◌, List, [], ◌∷◌}
use sqlog.Expr.{Call, apply, run_calls, ExprBuilder}
use sqlog.Expr as Parser
use sqlog.Expr.Run.{run_calls-append}
use sqlog.Expr.Query.{
  Query, nothing, of_terms, Terms, only, join, Clause, has_text, has_number, in_between, in_texts,
  in_numbers, group, and_, or_, spelling, symbol, query_calls, terms_calls, clause_calls,
}
use sqlog.Memory.Expr.{
  MemExpr, group_expr, or_expr, and_expr, text_expr, number_expr, between_expr, text_in_expr,
  number_in_expr, Stack, bottom, snoc, MemoryExprBuilder, push, add, as_and, as_or, combine,
  operator, group_start, group_end, memory_builder,
}

module _ {F : Type 0} where
  unfoldable pub conjuncts : MemExpr F → Stack F
  conjuncts (and_expr stack) = stack
  conjuncts e = snoc bottom e

  unfoldable pub disjuncts : MemExpr F → Stack F
  disjuncts (or_expr stack) = stack
  disjuncts e = snoc bottom e

  -- The stack that the builder makes of a query.
  unfoldable mutual
    unfolding conjuncts disjuncts symbol

    pub query_stack : Query F → Stack F
    query_stack nothing = bottom
    query_stack (of_terms ts) = snoc bottom (terms_expr ts)

    pub terms_expr : Terms F → MemExpr F
    terms_expr (only c) = clause_expr c
    terms_expr (join ts and_ c) = and_expr (snoc (conjuncts (terms_expr ts)) (clause_expr c))
    terms_expr (join ts or_ c) = or_expr (snoc (disjuncts (terms_expr ts)) (clause_expr c))

    pub clause_expr : Clause F → MemExpr F
    clause_expr (has_text field term is_sequence is_wildcard) =
        text_expr field term is_sequence is_wildcard
    clause_expr (has_number field condition value) = number_expr field (symbol condition) value
    clause_expr (in_between field x y) = between_expr field x y
    clause_expr (in_texts field values) = text_in_expr field values
    clause_expr (in_numbers field values) = number_in_expr field values
    clause_expr (group q) = group_expr (query_stack q)

  combine-and :
      (e : MemExpr F)
      → combine (spelling and_) (snoc bottom e) ≡ snoc bottom (and_expr (conjuncts e))
  unfolding combine spelling conjuncts as_and
  combine-and (group_expr x) = refl
  combine-and (or_expr x) = refl
  combine-and (and_expr x) = refl
  combine-and (text_expr a b c d) = refl
  combine-and (number_expr a b c) = refl
  combine-and (between_expr a b c) = refl
  combine-and (text_in_expr a b) = refl
  combine-and (number_in_expr a b) = refl

  combine-or :
      (e : MemExpr F) → combine (spelling or_) (snoc bottom e) ≡ snoc bottom (or_expr (disjuncts e))
  unfolding combine spelling disjuncts as_or
  combine-or (group_expr x) = refl
  combine-or (or_expr x) = refl
  combine-or (and_expr x) = refl
  combine-or (text_expr a b c d) = refl
  combine-or (number_expr a b c) = refl
  combine-or (between_expr a b c) = refl
  combine-or (text_in_expr a b) = refl
  combine-or (number_in_expr a b) = refl

  mutual
    unfolding query_calls query_stack run_calls apply add push operator group_start group_end

    pub run-query :
        (q : Query F) (gs : List (Stack F))
        → run_calls memory_builder (query_calls q) (record { stack = bottom; group_stack = gs })
          ≡ record { stack = query_stack q; group_stack = gs }
    run-query nothing gs = refl
    run-query (of_terms ts) gs = run-terms ts gs

    run-terms :
        (ts : Terms F) (gs : List (Stack F))
        → run_calls memory_builder (terms_calls ts) (record { stack = bottom; group_stack = gs })
          ≡ record { stack = snoc bottom (terms_expr ts); group_stack = gs }
    run-terms (only c) gs = run-clause c (record { stack = bottom; group_stack = gs })
    run-terms (join ts and_ c) gs =
        run_calls-append memory_builder (terms_calls ts)
          (Parser.operator (spelling and_) ∷ clause_calls c) _
        ∙ ap (λ m. run_calls memory_builder (clause_calls c) (operator (spelling and_) m))
            (run-terms ts gs)
        ∙ run-clause c _
        ∙ ap (λ s. add (clause_expr c) (record { stack = s; group_stack = gs }))
            (combine-and (terms_expr ts))
    run-terms (join ts or_ c) gs =
        run_calls-append memory_builder (terms_calls ts)
          (Parser.operator (spelling or_) ∷ clause_calls c) _
        ∙ ap (λ m. run_calls memory_builder (clause_calls c) (operator (spelling or_) m))
            (run-terms ts gs)
        ∙ run-clause c _
        ∙ ap (λ s. add (clause_expr c) (record { stack = s; group_stack = gs }))
            (combine-or (terms_expr ts))

    run-clause :
        (c : Clause F) (m : MemoryExprBuilder F)
        → run_calls memory_builder (clause_calls c) m ≡ add (clause_expr c) m
    run-clause (has_text field term is_sequence is_wildcard) m = refl
    run-clause (has_number field condition value) m = refl
    run-clause (in_between field x y) m = refl
    run-clause (in_texts field values) m = refl
    run-clause (in_numbers field values) m = refl
    run-clause (group q) m =
        run_calls-append memory_builder (query_calls q) (Parser.group_end ∷ []) (group_start m)
        ∙ ap group_end (run-query q (m.stack ∷ m.group_stack))
