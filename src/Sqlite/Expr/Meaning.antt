-- ===== src/Sqlite/Expr/Meaning.antt =====
-- The SQL that a query stands for, by recursion on the query, and that the builder of
-- sqlite/expr.go makes it.
use sqlog.Base.{
  ◌≡◌, refl, sym, ap, ◌∙◌, Bool, true, false, not, ◌&&◌, ◌||◌, List, [], ◌∷◌, ◌++◌, map, append-nil,
  append_assoc, if◌then◌else◌, Bytes, codes,
}
use sqlog.Expr.{operator, group_end, apply, run_calls}
use sqlog.Expr.Text.{is_empty}
use sqlog.Expr.Run.{run_calls-append}
use sqlog.Expr.Query.{
  Query, nothing, of_terms, Terms, only, join, Clause, has_text, has_number, in_between, in_texts,
  in_numbers, group, spelling, symbol, query_calls, terms_calls, clause_calls,
}
use sqlog.Sqlite.Expr.{
  Arg, text_arg, number_arg, text_sql, number_sql, placeholders, path, SqliteExprBuilder, write,
  sqlite_builder, on_operator, on_text, on_group_start, on_group_end, on_number, on_between,
  on_text_in, on_number_in, builder_start,
}

-- A phrase is compared as it stands, a word is looked for in the text, and both are patterns if
-- they hold a wildcard.
unfoldable pub is_exact : Bool → Bool → Bool
is_exact is_sequence is_wildcard = is_sequence && not is_wildcard

unfoldable pub pattern : Bytes → Bool → Bool → Bytes
pattern term is_sequence is_wildcard =
    if is_sequence || is_wildcard then term else codes "*" ++ (term ++ codes "*")

append-is_empty : (s t : Bytes) → is_empty s ≡ false → is_empty (t ++ s) ≡ false
unfolding is_empty
append-is_empty s [] h = h
append-is_empty s (c ∷ t) h = refl

is_empty-append : (s t : Bytes) → is_empty s ≡ false → is_empty (s ++ t) ≡ false
unfolding is_empty
is_empty-append [] t h = cc
is_empty-append (c ∷ s) t h = refl

module _ {F : Type 0} where
  unfoldable mutual
    unfolding spelling symbol is_exact placeholders

    pub query_sql : Query F → Bytes
    query_sql nothing = []
    query_sql (of_terms ts) = terms_sql ts

    pub terms_sql : Terms F → Bytes
    terms_sql (only c) = clause_sql c
    terms_sql (join ts op c) =
        terms_sql ts ++ (codes " " ++ (spelling op ++ (codes " " ++ clause_sql c)))

    pub clause_sql : Clause F → Bytes
    clause_sql (has_text field term is_sequence is_wildcard) =
        text_sql ++ (if is_exact is_sequence is_wildcard then codes " = ?" else codes " GLOB ?")
    clause_sql (has_number field condition value) = number_sql ++ (symbol condition ++ codes " ? ")
    clause_sql (in_between field x y) = number_sql ++ codes "BETWEEN ? AND ?"
    clause_sql (in_texts field values) =
        text_sql ++ (codes " IN (" ++ (placeholders 0 values ++ codes ")"))
    clause_sql (in_numbers field values) =
        number_sql ++ (codes "IN (" ++ (placeholders 0 values ++ codes ")"))
    clause_sql (group q) = codes "(" ++ (query_sql q ++ codes ")")

  unfoldable mutual
    unfolding path pattern

    pub query_args : Query F → List (Arg F)
    query_args nothing = []
    query_args (of_terms ts) = terms_args ts

    pub terms_args : Terms F → List (Arg F)
    terms_args (only c) = clause_args c
    terms_args (join ts op c) = terms_args ts ++ clause_args c

    pub clause_args : Clause F → List (Arg F)
    clause_args (has_text field term is_sequence is_wildcard) =
        path field ∷ text_arg (pattern term is_sequence is_wildcard) ∷ []
    clause_args (has_number field condition value) = path field ∷ number_arg value ∷ []
    clause_args (in_between field x y) = path field ∷ number_arg x ∷ number_arg y ∷ []
    clause_args (in_texts field values) = path field ∷ map text_arg values
    clause_args (in_numbers field values) = path field ∷ map number_arg values
    clause_args (group q) = query_args q

  write-write :
      (a b : Bytes) (x y : List (Arg F)) (s : SqliteExprBuilder F)
      → write b y (write a x s) ≡ write (a ++ b) (x ++ y) s
  unfolding write
  write-write a b x y s = simp append_assoc

  write-nil : (s : SqliteExprBuilder F) → write [] [] s ≡ s
  unfolding write
  write-nil s = simp append-nil

  on_operator-write :
      (op sql : Bytes) (args : List (Arg F)) (s : SqliteExprBuilder F)
      → is_empty sql ≡ false
      → on_operator op (write sql args s) ≡ write (sql ++ (codes " " ++ (op ++ codes " "))) args s
  unfolding on_operator write
  on_operator-write op sql args s h =
      rw (append-is_empty sql s.sql h) (simp (append-nil, append_assoc))

  group-write :
      (sql : Bytes) (args : List (Arg F)) (s : SqliteExprBuilder F)
      → on_group_end (write sql args (on_group_start s))
        ≡ write (codes "(" ++ (sql ++ codes ")")) args s
  unfolding on_group_end on_group_start write
  group-write sql args s = simp append_assoc

  clause_sql-is_empty : (c : Clause F) → is_empty (clause_sql c) ≡ false
  unfolding clause_sql is_empty
  clause_sql-is_empty (has_text field term is_sequence is_wildcard) = refl
  clause_sql-is_empty (has_number field condition value) = refl
  clause_sql-is_empty (in_between field x y) = refl
  clause_sql-is_empty (in_texts field values) = refl
  clause_sql-is_empty (in_numbers field values) = refl
  clause_sql-is_empty (group q) = refl

  terms_sql-is_empty : (ts : Terms F) → is_empty (terms_sql ts) ≡ false
  unfolding terms_sql
  terms_sql-is_empty (only c) = clause_sql-is_empty c
  terms_sql-is_empty (join ts op c) = is_empty-append (terms_sql ts) _ (terms_sql-is_empty ts)

  on_text-write :
      (field term : Bytes) (is_sequence is_wildcard : Bool) (s : SqliteExprBuilder F)
      → on_text field term is_sequence is_wildcard s
        ≡ write
            (text_sql
              ++ (if is_exact is_sequence is_wildcard then codes " = ?" else codes " GLOB ?"))
            (path field ∷ text_arg (pattern term is_sequence is_wildcard) ∷ [])
            s
  unfolding on_text is_exact pattern
  on_text-write field term true true s = refl
  on_text-write field term true false s = refl
  on_text-write field term false true s = refl
  on_text-write field term false false s = refl

  mutual
    unfolding query_calls query_sql query_args run_calls apply on_number on_between on_text_in
        on_number_in

    run-query :
        (q : Query F) (s : SqliteExprBuilder F)
        → run_calls (sqlite_builder F) (query_calls q) s ≡ write (query_sql q) (query_args q) s
    run-query nothing s = sym (write-nil s)
    run-query (of_terms ts) s = run-terms ts s

    run-terms :
        (ts : Terms F) (s : SqliteExprBuilder F)
        → run_calls (sqlite_builder F) (terms_calls ts) s ≡ write (terms_sql ts) (terms_args ts) s
    run-terms (only c) s = run-clause c s
    run-terms (join ts op c) s =
        run_calls-append (sqlite_builder F) (terms_calls ts)
          (operator (spelling op) ∷ clause_calls c) s
        ∙ ap (λ t. run_calls (sqlite_builder F) (clause_calls c) (on_operator (spelling op) t))
            (run-terms ts s)
        ∙ ap (λ t. run_calls (sqlite_builder F) (clause_calls c) t)
            (on_operator-write (spelling op) _ _ s (terms_sql-is_empty ts))
        ∙ run-clause c _
        ∙ write-write _ (clause_sql c) (terms_args ts) (clause_args c) s
        ∙ ap (λ sql. write sql (terms_args ts ++ clause_args c) s) (simp append_assoc)

    run-clause :
        (c : Clause F) (s : SqliteExprBuilder F)
        → run_calls (sqlite_builder F) (clause_calls c) s ≡ write (clause_sql c) (clause_args c) s
    run-clause (has_text field term is_sequence is_wildcard) s =
        on_text-write field term is_sequence is_wildcard s
    run-clause (has_number field condition value) s = refl
    run-clause (in_between field x y) s = refl
    run-clause (in_texts field values) s = refl
    run-clause (in_numbers field values) s = refl
    run-clause (group q) s =
        run_calls-append (sqlite_builder F) (query_calls q) (group_end ∷ []) (on_group_start s)
        ∙ ap on_group_end (run-query q (on_group_start s))
        ∙ group-write (query_sql q) (query_args q) s

-- The builder makes of a query the SQL and the arguments that the query stands for.
pub run-Query :
    {F : Type 0} (q : Query F)
    → run_calls (sqlite_builder F) (query_calls q) builder_start
      ≡ record { sql = query_sql q; args = query_args q; groups = [] }
unfolding write builder_start
run-Query q = run-query q builder_start
