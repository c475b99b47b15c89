-- ===== src/Sqlite/Expr/Compile.antt =====
-- `ExpBuilderFn` of sqlite/expr.go: what an expression becomes, behind the cache.
use sqlog.Base.{
  ℕ, suc, ◌≡◌, refl, sym, ap, ◌∙◌, Option, some, List, [], ◌∷◌, map, append-nil, Bytes, length,
}
use sqlog.Expr.{Call, run_calls}
use sqlog.Expr.Query.{
  Query, nothing, of_terms, Terms, only, join, Clause, has_text, has_number, in_between, in_texts,
  in_numbers, group, query_calls,
}
use sqlog.Expr.State.{Outcome, ok, err, panic, out_of_fuel, ◌>>=◌}
use sqlog.Expr.Parse.{parse, build_expr}
use sqlog.Expr.Safety.{Returns, Returns-mono}
use sqlog.Expr.Grammar.{parse-Query}
use sqlog.Sqlite.Expr.{placeholders, build, sqlite_builder, factory, builder_start}
use sqlog.Sqlite.Expr.Meaning.{query_sql, terms_sql, clause_sql, query_args, run-Query}
use sqlog.Sqlite.Expr.Binding.{count, parens, count-query, query-Closes}

placeholders-map :
    {A B : Type 0} (f : A → B) (i : ℕ) (vs : List A) → placeholders i (map f vs) ≡ placeholders i vs
unfolding placeholders
placeholders-map f i [] = refl
placeholders-map f i (v ∷ vs) = rw (placeholders-map f (suc i) vs) refl

module _ {F : Type 0} where
  -- The shape of a query: no field, no text and no number of it.
  unfoldable mutual
    pub query_shape : Query F → Query Unit
    query_shape nothing = nothing
    query_shape (of_terms ts) = of_terms (terms_shape ts)

    pub terms_shape : Terms F → Terms Unit
    terms_shape (only c) = only (clause_shape c)
    terms_shape (join ts op c) = join (terms_shape ts) op (clause_shape c)

    pub clause_shape : Clause F → Clause Unit
    clause_shape (has_text field term is_sequence is_wildcard) =
        has_text [] [] is_sequence is_wildcard
    clause_shape (has_number field condition value) = has_number [] condition tt
    clause_shape (in_between field x y) = in_between [] tt tt
    clause_shape (in_texts field values) = in_texts [] (map (λ v. []) values)
    clause_shape (in_numbers field values) = in_numbers [] (map (λ v. tt) values)
    clause_shape (group q) = group (query_shape q)

  mutual
    unfolding query_sql query_shape

    query_sql-shape : (q : Query F) → query_sql (query_shape q) ≡ query_sql q
    query_sql-shape nothing = refl
    query_sql-shape (of_terms ts) = terms_sql-shape ts

    terms_sql-shape : (ts : Terms F) → terms_sql (terms_shape ts) ≡ terms_sql ts
    terms_sql-shape (only c) = clause_sql-shape c
    terms_sql-shape (join ts op c) = rw (terms_sql-shape ts, clause_sql-shape c) refl

    clause_sql-shape : (c : Clause F) → clause_sql (clause_shape c) ≡ clause_sql c
    clause_sql-shape (has_text field term is_sequence is_wildcard) = refl
    clause_sql-shape (has_number field condition value) = refl
    clause_sql-shape (in_between field x y) = refl
    clause_sql-shape (in_texts field values) =
        rw (placeholders-map {B = Bytes} (λ v. []) 0 values) refl
    clause_sql-shape (in_numbers field values) =
        rw (placeholders-map {A = F} {B = Unit} (λ v. tt) 0 values) refl
    clause_sql-shape (group q) = rw (query_sql-shape q) refl

parens-query : {F : Type 0} (q : Query F) → parens 0 (query_sql q) ≡ some 0
unfolding parens
parens-query q = ap (parens 0) (sym (append-nil (query_sql q))) ∙ query-Closes q 0 []

module _ {F : Type 0} (parse_float : Bytes → Option F) (expression : Bytes) where
  -- Compiling an expression for SQLite always returns, an error or the SQL and the arguments of a
  -- query, whose calls are those that the parser makes for the expression.
  pub build_expr-Query :
      Returns
        (λ e.
          (q : Query F) × (parse parse_float expression ≡ ok (query_calls q))
          × (e.sql ≡ query_sql q)
          × (e.args ≡ query_args q))
        (build_expr parse_float factory expression)
  unfolding build_expr factory build
  build_expr-Query = go (parse parse_float expression) refl (parse-Query parse_float expression)
    where
      go :
          (r : Outcome (List (Call F)))
          → parse parse_float expression ≡ r
          → Returns (λ calls. (q : Query F) × (calls ≡ query_calls q)) r
          → Returns
              (λ e.
                (q : Query F) × (parse parse_float expression ≡ ok (query_calls q))
                × (e.sql ≡ query_sql q)
                × (e.args ≡ query_args q))
              (r >>= λ calls. ok (build (run_calls (sqlite_builder F) calls builder_start)))
      go (ok calls) h (q, e) = (q, h ∙ ap ok e, rw (e, run-Query q) refl, rw (e, run-Query q) refl)
      go (err x) h r = tt
      go panic h r = absurd r
      go out_of_fuel h r = absurd r

  -- The SQL that an expression compiles to is safe to run: it has as many placeholders as there
  -- are arguments, its parentheses are closed, and no field, text or number of the expression is
  -- part of it: it is the SQL of the shape of a query.
  pub build_expr-safe :
      Returns
        (λ e.
          (count b'?' e.sql ≡ length e.args)
          × (parens 0 e.sql ≡ some 0)
          × ((q : Query F) × (parse parse_float expression ≡ ok (query_calls q))
              × (e.sql ≡ query_sql (query_shape q))))
        (build_expr parse_float factory expression)
  build_expr-safe =
      Returns-mono
        (λ e.
          (q : Query F) × (parse parse_float expression ≡ ok (query_calls q))
          × (e.sql ≡ query_sql q)
          × (e.args ≡ query_args q))
        _ _
        (λ e (q, p, s, a).
          (rw (s, a) (count-query q), rw s (parens-query q), (q, p, s ∙ sym (query_sql-shape q))))
        build_expr-Query
