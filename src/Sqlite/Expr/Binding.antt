-- ===== src/Sqlite/Expr/Binding.antt =====
-- What SQLite needs of the conditions of sqlite/expr.go: an argument for each placeholder, closed
-- parentheses, and no text of the user in the SQL.
use sqlog.Base.{
  ltb, if_both, append_assoc, ℕ, zero, suc, ◌+◌, ◌≡◌, refl, ap, ◌∙◌, true, false, Option, none,
  some, List, [], ◌∷◌, ◌++◌, map, if◌then◌else◌, ◌==◌, Bytes, codes, arith, length, length-append,
}
use sqlog.Expr.Query.{
  Query, nothing, of_terms, Terms, only, join, Clause, has_text, has_number, in_between, in_texts,
  in_numbers, group, Connective, and_, or_, spelling, Comparison, at_least, above, at_most, below,
  equal, symbol,
}
use sqlog.Sqlite.Expr.{Arg, text_arg, number_arg, placeholders}
use sqlog.Sqlite.Expr.Meaning.{
  query_sql, terms_sql, clause_sql, query_args, terms_args, clause_args,
}

unfoldable pub count : ℕ → Bytes → ℕ
count c [] = 0
count c (d ∷ s) = (if d == c then 1 else 0) + count c s

-- The parentheses that are open behind a byte, of `n` before it.
unfoldable paren : ℕ → ℕ → Option ℕ
paren c n =
    if c == b'('
    then some (suc n)
    else if c == b')'
    then elim n [ zero ↦ none | suc m ↦ some m ]
    else some n

-- The parentheses that are open behind a text, none if one closes that has not been opened.
unfoldable pub parens : ℕ → Bytes → Option ℕ
unfolding paren
parens n [] = some n
parens n (c ∷ s) = elim (paren c n) [ none ↦ none | some m ↦ parens m s ]

pub count-append : (c : ℕ) (s t : Bytes) → count c (s ++ t) ≡ count c s + count c t
unfolding count
count-append c [] t = omega arith
count-append c (d ∷ s) t = omega (arith, count-append c s t)

-- Every parenthesis is closed.
abbrev pub Closes : Bytes → Type 0
Closes s = (n : ℕ) (t : Bytes) → parens n (s ++ t) ≡ parens n t

spelling-Closes : (op : Connective) → Closes (spelling op)
unfolding spelling parens
spelling-Closes and_ n t = refl
spelling-Closes or_ n t = refl

symbol-Closes : (k : Comparison) → Closes (symbol k)
unfolding symbol parens
symbol-Closes at_least n t = refl
symbol-Closes above n t = refl
symbol-Closes at_most n t = refl
symbol-Closes below n t = refl
symbol-Closes equal n t = refl

placeholders-Closes : {A : Type 0} (i : ℕ) (vs : List A) → Closes (placeholders i vs)
unfolding placeholders parens
placeholders-Closes i [] n t = refl
placeholders-Closes i (v ∷ vs) n t =
    let rest = placeholders-Closes (suc i) vs n t in
    if_both (λ l. parens n ((l ++ (codes "?" ++ placeholders (suc i) vs)) ++ t) ≡ parens n t)
      (ltb 0 i) rest rest

pub Closes-append : (s u : Bytes) → Closes s → Closes u → Closes (s ++ u)
Closes-append s u hs hu n t = ap (parens n) (append_assoc s u t) ∙ hs n (u ++ t) ∙ hu n t

count-spelling : (op : Connective) → count b'?' (spelling op) ≡ 0
unfolding spelling count
count-spelling and_ = refl
count-spelling or_ = refl

count-symbol : (k : Comparison) → count b'?' (symbol k) ≡ 0
unfolding symbol count
count-symbol at_least = refl
count-symbol above = refl
count-symbol at_most = refl
count-symbol below = refl
count-symbol equal = refl

count-placeholders : {A : Type 0} (i : ℕ) (vs : List A) → count b'?' (placeholders i vs) ≡ length vs
unfolding placeholders count
count-placeholders i [] = refl
count-placeholders i (v ∷ vs) =
    let rest = count-placeholders (suc i) vs in
    if_both (λ l. count b'?' (l ++ (codes "?" ++ placeholders (suc i) vs)) ≡ length (v ∷ vs))
      (ltb 0 i) (omega arith) (omega arith)

pub length-map : {A B : Type 0} (f : A → B) (xs : List A) → length (map f xs) ≡ length xs
length-map f [] = refl
length-map f (x ∷ xs) = omega (arith, length-map f xs)

module _ {F : Type 0} where
  mutual
    unfolding query_sql query_args count

    pub count-query : (q : Query F) → count b'?' (query_sql q) ≡ length (query_args q)
    count-query nothing = refl
    count-query (of_terms ts) = count-terms ts

    count-terms : (ts : Terms F) → count b'?' (terms_sql ts) ≡ length (terms_args ts)
    count-terms (only c) = count-clause c
    count-terms (join ts op c) = omega (
      arith,
      count-append b'?' (terms_sql ts) (codes " " ++ (spelling op ++ (codes " " ++ clause_sql c))),
      count-append b'?' (spelling op) (codes " " ++ clause_sql c),
      count-spelling op,
      count-terms ts,
      count-clause c,
      length-append (terms_args ts) (clause_args c),
    )

    count-clause : (c : Clause F) → count b'?' (clause_sql c) ≡ length (clause_args c)
    count-clause (has_text field term true true) = refl
    count-clause (has_text field term true false) = refl
    count-clause (has_text field term false is_wildcard) = refl
    count-clause (has_number field condition value) =
        omega (arith, count-append b'?' (symbol condition) (codes " ? "), count-symbol condition)
    count-clause (in_between field x y) = refl
    count-clause (in_texts field values) = omega (
      arith,
      count-append b'?' (placeholders 0 values) (codes ")"),
      count-placeholders 0 values,
      length-map {B = Arg F} text_arg values,
    )
    count-clause (in_numbers field values) = omega (
      arith,
      count-append b'?' (placeholders 0 values) (codes ")"),
      count-placeholders 0 values,
      length-map number_arg values,
    )
    count-clause (group q) =
        omega (arith, count-append b'?' (query_sql q) (codes ")"), count-query q)

module _ {F : Type 0} where
  mutual
    unfolding query_sql parens

    pub query-Closes : (q : Query F) → Closes (query_sql q)
    query-Closes nothing n t = refl
    query-Closes (of_terms ts) n t = terms-Closes ts n t

    terms-Closes : (ts : Terms F) → Closes (terms_sql ts)
    terms-Closes (only c) n t = clause-Closes c n t
    terms-Closes (join ts op c) n t =
        Closes-append (terms_sql ts) _ (terms-Closes ts)
          (Closes-append (codes " " ++ spelling op) (codes " " ++ clause_sql c) (spelling-Closes op)
            (clause-Closes c))
          n t

    clause-Closes : (c : Clause F) → Closes (clause_sql c)
    clause-Closes (has_text field term true true) n t = refl
    clause-Closes (has_text field term true false) n t = refl
    clause-Closes (has_text field term false is_wildcard) n t = refl
    clause-Closes (has_number field condition value) n t =
        Closes-append (symbol condition) (codes " ? ") (symbol-Closes condition) (λ m u. refl) n t
    clause-Closes (in_between field x y) n t = refl
    clause-Closes (in_texts field values) n t =
        ap (parens (suc n)) (append_assoc (placeholders 0 values) (codes ")") t)
        ∙ placeholders-Closes 0 values (suc n) (codes ")" ++ t)
    clause-Closes (in_numbers field values) n t =
        ap (parens (suc n)) (append_assoc (placeholders 0 values) (codes ")") t)
        ∙ placeholders-Closes 0 values (suc n) (codes ")" ++ t)
    clause-Closes (group q) n t =
        ap (parens (suc n)) (append_assoc (query_sql q) (codes ")") t)
        ∙ query-Closes q (suc n) (codes ")" ++ t)
