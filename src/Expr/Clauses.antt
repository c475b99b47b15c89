-- ===== src/Expr/Clauses.antt =====
-- The methods of expr_parse_state.go add a clause each to what has been called on the builder.
use mathlib.Core.Path.{subst}
use sqlog.Base.{
  All, ◌≡◌, refl, sym, ap, ◌∙◌, Bool, true, false, not, Option, some, List, [], ◌∷◌, ◌++◌, Bytes,
  codes, arith, ◌⊎◌, inl, inr, append-nil, append_assoc, bytes_eq, bytes_eq→≡, if◌then◌else◌,
  Bool-cases, Option-cases,
}
use sqlog.Expr.{Call, operator}
use sqlog.Expr.Query.{
  of_terms, Comparison, at_least, above, at_most, below, equal, symbol, Query, nothing, only, join,
  Clause, has_text, has_number, in_between, in_texts, in_numbers, group, Connective, and_, or_,
  spelling, query_calls, clause_calls, is_nothing,
}
use sqlog.Expr.Text.{cut_prefix, trim_space, is_empty, to_upper}
use sqlog.Expr.State.{
  ExprParseState, start, call, add_operator, term_call, numeric, first_prefix, conditions,
  condition_of, is_operator, number_args, text_args, number_calls, text_calls, list_calls,
  interval_call, array_calls,
}
use sqlog.Expr.Safety.{Returns}

-- The field `operator` of the state.
abbrev pub IsOperator : Bytes → Type 0
IsOperator op = (op ≡ []) ⊎ (op ≡ codes "AND") ⊎ (op ≡ codes "OR")

connective :
    (op : Bytes)
    → IsOperator op
    → (k : Connective) × ((if is_empty op then codes "AND" else op) ≡ spelling k)
unfolding spelling is_empty
connective op (inl q) = (and_, rw q refl)
connective op (inr (inl q)) = (and_, rw q refl)
connective op (inr (inr q)) = (or_, rw q refl)

pub is_operator-IsOperator : (term : Bytes) → is_operator term ≡ true → IsOperator (to_upper term)
unfolding is_operator
is_operator-IsOperator term h = elim (Bool-cases (bytes_eq (to_upper term) (codes "AND"))) [
  | inl t ↦ inr (inl (bytes_eq→≡ _ _ t))
  | inr f ↦ inr (inr (bytes_eq→≡ _ _ (ground (arith, f, h))))
]

-- The call before the next clause.
unfoldable operator_calls : {F : Type 0} → Bool → Connective → List (Call F)
unfolding spelling
operator_calls dirty k = if dirty then operator (spelling k) ∷ [] else []

add_operator-calls :
    {F : Type 0} (s : ExprParseState F) (k : Connective)
    → (if is_empty s.op then codes "AND" else s.op) ≡ spelling k
    → (add_operator s).calls ≡ s.calls ++ operator_calls s.dirty k
unfolding add_operator call operator_calls
add_operator-calls s k h = elim (Bool-cases s.dirty) [
  | inr f ↦ rw f (sym (append-nil s.calls))
  | inl t ↦ rw t (ap (λ op. s.calls ++ operator op ∷ []) h)
]

-- A clause behind a query, with an operator between them if there has to be one.
clause_behind :
    {F : Type 0} (q : Query F) (k : Connective) (c : Clause F)
    → (r : Query F) × (query_calls q ++ (operator_calls (not (is_nothing q)) k ++ clause_calls c)
        ≡ query_calls r)
      × (is_nothing r ≡ false)
unfolding query_calls is_nothing operator_calls
clause_behind nothing k c = (of_terms (only c), refl, refl)
clause_behind (of_terms ts) k c = (of_terms (join ts k c), refl, refl)

first_prefix-All :
    (P : Bytes → Type 0) (conds : List Bytes) (term cond rest : Bytes)
    → All P conds
    → first_prefix conds term ≡ some (cond, rest)
    → P cond
unfolding first_prefix
first_prefix-All P [] term cond rest a h = cc
first_prefix-All P (c ∷ conds) term cond rest a h = elim (Option-cases (cut_prefix c term)) [
  | inr (r, q) ↦ subst P (ground (arith, q, h)) a.0
  | inl n ↦ first_prefix-All P conds term cond rest a.1 (ground (arith, n, h))
]

numeric-symbol :
    {F : Type 0} (parse_float : Bytes → Option F) (term condition : Bytes) (n : F)
    → numeric parse_float term ≡ some (condition, n)
    → (k : Comparison) × (condition ≡ symbol k)
unfolding numeric symbol condition_of
numeric-symbol parse_float term condition n h = elim (Option-cases (condition_of term)) [
  | inr ((c, rest), q) ↦ elim (Option-cases (parse_float rest)) [
    | inr (x, e) ↦
        first_prefix-All (λ c. (k : Comparison) × (c ≡ symbol k)) conditions term condition rest
          ((at_least, refl), ((above, refl), ((at_most, refl), ((below, refl), tt))))
          (ground (arith, q, e, h))
    | inl e ↦ absurd (ground (arith, q, e, h))
  ]
  | inl q ↦ elim (Option-cases (parse_float (trim_space term))) [
    | inr (x, e) ↦ (equal, ground (arith, q, e, h))
    | inl e ↦ absurd (ground (arith, q, e, h))
  ]
]

module _ {F : Type 0} where
  -- Behind the calls `before` the state has made those of a query.
  pub record Parsed (before : List (Call F)) (s : ExprParseState F) : Type 0 where
    pub query : Query F
    pub called : s.calls ≡ before ++ query_calls query
    pub is_dirty : s.dirty ≡ not (is_nothing query)
    pub op_ok : IsOperator s.op

  pub start-Parsed : (calls : List (Call F)) → Parsed calls (start calls)
  unfolding start query_calls is_nothing
  start-Parsed calls = record {
    query = nothing;
    called = sym (append-nil calls);
    is_dirty = refl;
    op_ok = inl refl;
  }

  -- A state that has the same calls and the same flag.
  pub Parsed-same :
      {before : List (Call F)} {s : ExprParseState F} (t : ExprParseState F)
      → Parsed before s
      → t.calls ≡ s.calls
      → t.dirty ≡ s.dirty
      → IsOperator t.op
      → Parsed before t
  Parsed-same t p c d o = record {
    query = p.query;
    called = c ∙ p.called;
    is_dirty = d ∙ p.is_dirty;
    op_ok = o;
  }

  -- A state that has called the operator and a clause.
  pub Parsed-clause :
      {before : List (Call F)} {s : ExprParseState F} (t : ExprParseState F) (c : Clause F)
      → Parsed before s
      → t.calls ≡ (add_operator s).calls ++ clause_calls c
      → t.dirty ≡ true
      → IsOperator t.op
      → Parsed before t
  Parsed-clause {before} {s} t c p q d o =
      let (k, e) = connective s.op p.op_ok in
      let (r, e', n) = clause_behind p.query k c in
      record {
        query = r;
        called = q ∙ rw (add_operator-calls s k e, p.called, p.is_dirty) (simp (append_assoc, e'));
        is_dirty = rw n d;
        op_ok = o;
      }

  pub term_call-clause :
      (parse_float : Bytes → Option F) (s : ExprParseState F)
      → (c : Clause F) × (term_call parse_float s ∷ [] ≡ clause_calls c)
  unfolding term_call clause_calls
  term_call-clause parse_float s = elim (Bool-cases (is_empty s.field)) [
    | inl e ↦ rw (term_call, e) (has_text _ _ _ _, refl)
    | inr e ↦ elim (Option-cases (numeric parse_float s.buf)) [
      | inl q ↦ rw (term_call, e, q) (has_text _ _ _ _, refl)
      | inr ((condition, n), q) ↦
          let (k, h) = numeric-symbol parse_float s.buf condition n q in
          rw (term_call, e, q, h) (has_number _ k n, refl)
    ]
  ]

  module _ (parse_float : Bytes → Option F) where
    number_calls-clause :
        (field : Bytes) (n : F) (ns : List F)
        → (c : Clause F) × (number_calls parse_float field (n ∷ ns) ≡ clause_calls c)
    unfolding number_calls clause_calls
    number_calls-clause field n [] = (has_number field equal n, refl)
    number_calls-clause field n (m ∷ ns) = (in_numbers field (n ∷ m ∷ ns), refl)

    args-empty :
        (parts : List Bytes)
        → is_empty parts ≡ false
        → number_args parse_float parts ≡ []
        → text_args parse_float parts ≡ []
        → ⊥
    unfolding number_args text_args is_empty
    args-empty [] h p q = cc
    args-empty (v ∷ parts) h p q = elim (Option-cases (parse_float v)) [
      | inl n ↦ ground (arith, n, p, q)
      | inr (x, n) ↦ ground (arith, n, p, q)
    ]

    -- The parts of an array that are numbers, and those that are not, are not both missing.
    list_calls-clause :
        (field : Bytes) (parts : List Bytes)
        → is_empty parts ≡ false
        → (c : Clause F) × (list_calls parse_float field parts ≡ clause_calls c)
    unfolding list_calls text_calls clause_calls query_calls spelling is_empty
    list_calls-clause field parts h =
        go (number_args parse_float parts) (text_args parse_float parts) refl refl
      where
        go :
            (ns : List F) (ts : List Bytes)
            → number_args parse_float parts ≡ ns
            → text_args parse_float parts ≡ ts
            → (c : Clause F) × (list_calls parse_float field parts ≡ clause_calls c)
        go [] [] p q = absurd (args-empty parts h p q)
        go [] (t ∷ ts) p q = rw (list_calls, p, q) (in_texts field (t ∷ ts), refl)
        go (n ∷ ns) [] p q =
            let (c, e) = number_calls-clause field n ns in
            rw (list_calls, p, q, e) (c, append-nil _)
        go (n ∷ ns) (t ∷ ts) p q =
            let (c, e) = number_calls-clause field n ns in
            rw (list_calls, p, q, e)
              (group (of_terms (join (only c) or_ (in_texts field (t ∷ ts)))), simp append_assoc)

    pub array_calls-clause :
        (field : Bytes) (parts : List Bytes)
        → is_empty parts ≡ false
        → Returns
            (λ calls. (c : Clause F) × (calls ≡ clause_calls c))
            (array_calls parse_float field parts)
    unfolding array_calls interval_call clause_calls
    array_calls-clause field [] h = list_calls-clause field [] h
    array_calls-clause field (a ∷ []) h = list_calls-clause field (a ∷ []) h
    array_calls-clause field (a ∷ b ∷ []) h = list_calls-clause field (a ∷ b ∷ []) h
    array_calls-clause field (a ∷ b ∷ c ∷ d ∷ parts) h =
        list_calls-clause field (a ∷ b ∷ c ∷ d ∷ parts) h
    array_calls-clause field (a ∷ b ∷ c ∷ []) h = elim (Bool-cases (bytes_eq b (codes "TO"))) [
      | inr f ↦ rw (array_calls, f) (list_calls-clause field (a ∷ b ∷ c ∷ []) h)
      | inl t ↦ elim (Option-cases (parse_float a)) [
        | inl n ↦ rw (array_calls, t, interval_call, n) tt
        | inr (x, m) ↦ elim (Option-cases (parse_float c)) [
          | inl n ↦ rw (array_calls, t, interval_call, m, n) tt
          | inr (y, n) ↦ rw (array_calls, t, interval_call, m, n) (in_between field x y, refl)
        ]
      ]
    ]
