-- ===== src/Expr/Steps.antt =====
-- Each branch of the parser's loop keeps the calls a query, and finds an escaped byte's backslash.
use mathlib.Core.Path.{subst}
use sqlog.Base.{
  ==_iff, ℕ, ◌≡◌, refl, sym, ap, true, false, not, ◌&&◌, Option, none, some, List, [], ◌∷◌, ◌++◌,
  Bytes, arith, ◌≢◌, inl, inr, append_assoc, if_both, if_cases, Bool-cases, ◌==◌,
}
use sqlog.Expr.{Call}
use sqlog.Expr.Query.{Clause, has_text, group, clause_calls}
use sqlog.Expr.Text.{is_empty}
use sqlog.Expr.State.{
  ExprParseState, call, add_operator, add_term_sequence, add_term_single, is_operator, field_name,
  is_wildcard, reset, close_array,
}
use sqlog.Expr.Parse.{
  is_escaped, write_byte, unescape, on_open_bracket, on_close_bracket, on_space, on_quote, on_colon,
  on_byte, add_last, enter_group, leave_group,
}
use sqlog.Expr.Safety.{Returns, Returns-mono, Returns-bind, drop_last-some}
use sqlog.Expr.Clauses.{
  is_operator-IsOperator, Parsed, Parsed-same, Parsed-clause, term_call-clause, array_calls-clause,
}

module _ {F : Type 0} (parse_float : Bytes → Option F) {before : List (Call F)} where
  add_term_sequence-Parsed :
      (s : ExprParseState F) → Parsed before s → Parsed before (add_term_sequence s)
  unfolding add_term_sequence clause_calls reset call add_operator
  add_term_sequence-Parsed s p =
      if_both (Parsed before) s.in_array (Parsed-same _ p refl refl p.op_ok) (
        if_both (Parsed before) (is_empty s.buf) (Parsed-same _ p refl refl p.op_ok) (
          Parsed-clause _ (has_text (field_name s) s.buf true (is_wildcard s.buf)) p refl refl
            (inl refl)))

  add_term_single-Parsed :
      (s : ExprParseState F) → Parsed before s → Parsed before (add_term_single parse_float s)
  unfolding add_term_single reset call add_operator
  add_term_single-Parsed s p =
      let (c, e) = term_call-clause parse_float s in
      if_both (Parsed before) s.in_array (Parsed-same _ p refl refl p.op_ok) (
        if_both (Parsed before) (is_empty s.buf) (Parsed-same _ p refl refl p.op_ok) (
          if_cases (Parsed before) (is_operator s.buf)
            (λ h. Parsed-same _ p refl refl (is_operator-IsOperator s.buf h))
            (λ h. Parsed-clause _ c p (ap (λ l. (add_operator s).calls ++ l) e) refl (inl refl))))

  close_array-Parsed :
      (s : ExprParseState F) → Parsed before s → Returns (Parsed before) (close_array parse_float s)
  unfolding close_array
  close_array-Parsed s p =
      let s' = record s { in_array = false } in
      let p' = Parsed-same s' p refl refl p.op_ok in
      if_both (Returns (Parsed before)) (not s.in_array) p (
        if_cases (Returns (Parsed before)) (is_empty s.array_parts) (λ h. p')
          (λ h.
            Returns-bind (λ calls. (c : Clause F) × (calls ≡ clause_calls c)) (Parsed before) _ _
              (array_calls-clause parse_float (field_name s) s.array_parts h)
              (λ calls (c, e).
                Parsed-clause _ c p' (ap (λ l. (add_operator s').calls ++ l) e) refl (inl refl))))

-- The byte before is a backslash only if it is in the buffer.
pub Escapable : {F : Type 0} → Option ℕ → ExprParseState F → Type 0
Escapable prev s = is_escaped prev ≡ true → s.buf ≢ []

pub Escapable-none : {F : Type 0} (s : ExprParseState F) → Escapable none s
unfolding Escapable is_escaped
Escapable-none s h = cc

pub Escapable-group : {F : Type 0} (s : ExprParseState F) → Escapable (some b')') s
unfolding Escapable is_escaped
Escapable-group s h = cc

module _ {F : Type 0} (parse_float : Bytes → Option F) {before : List (Call F)} where
  unescape-Parsed :
      (b : ℕ) (prev : Option ℕ) (s : ExprParseState F)
      → Parsed before s
      → Escapable prev s
      → is_escaped prev ≡ true
      → Returns (Parsed before) (unescape parse_float b s)
  unfolding unescape Escapable
  unescape-Parsed b prev s p e h =
      let (r, q) = drop_last-some s.buf (e h) in
      rw (unescape, q) (Parsed-same _ p refl refl p.op_ok)

  write_byte-Parsed :
      (b : ℕ) (s : ExprParseState F) → Parsed before s → Parsed before (write_byte parse_float b s)
  unfolding write_byte
  write_byte-Parsed b s p = Parsed-same _ p refl refl p.op_ok

  module _ (i : ℕ) (prev : Option ℕ) (s : ExprParseState F) (p : Parsed before s)
      (e : Escapable prev s) where
    on_open_bracket-Parsed : Returns (Parsed before) (on_open_bracket parse_float i prev s)
    unfolding on_open_bracket
    on_open_bracket-Parsed =
        if_cases (Returns (Parsed before)) (is_escaped prev) (unescape-Parsed b'[' prev s p e)
          (λ _. if_both (Returns (Parsed before)) s.in_array tt (Parsed-same _ p refl refl p.op_ok))

    on_close_bracket-Parsed : Returns (Parsed before) (on_close_bracket parse_float prev s)
    unfolding on_close_bracket
    on_close_bracket-Parsed =
        if_cases (Returns (Parsed before)) (is_escaped prev) (unescape-Parsed b']' prev s p e)
          (λ _. close_array-Parsed parse_float _ (add_term_single-Parsed parse_float s p))

    on_quote-Parsed : Returns (Parsed before) (on_quote parse_float prev s)
    unfolding on_quote
    on_quote-Parsed =
        if_cases (Returns (Parsed before)) (is_escaped prev) (unescape-Parsed b'"' prev s p e) (λ _.
          if_both (Returns (Parsed before)) s.in_quote
            (add_term_sequence-Parsed parse_float _ (Parsed-same _ p refl refl p.op_ok))
            (Parsed-same _ p refl refl p.op_ok))

    on_colon-Parsed : Returns (Parsed before) (on_colon parse_float i prev s)
    unfolding on_colon
    on_colon-Parsed =
        if_cases (Returns (Parsed before)) (is_escaped prev) (unescape-Parsed b':' prev s p e) (λ _.
          if_both (Returns (Parsed before)) (not (is_empty s.field)) tt
            (Parsed-same _ p refl refl p.op_ok))

    on_space-Parsed : Parsed before (on_space parse_float s)
    unfolding on_space
    on_space-Parsed =
        if_both (Parsed before) s.in_quote (write_byte-Parsed b' ' s p)
          (add_term_single-Parsed parse_float s p)

    on_byte-Parsed : (b : ℕ) → Returns (Parsed before) (on_byte parse_float i prev b s)
    unfolding on_byte
    on_byte-Parsed b =
        if_both (Returns (Parsed before)) (b == b'[' && not s.in_quote) on_open_bracket-Parsed (
          if_both (Returns (Parsed before)) (b == b']' && (s.in_array && not s.in_quote))
            on_close_bracket-Parsed
            (if_both (Returns (Parsed before)) (b == b' ') on_space-Parsed (
              if_both (Returns (Parsed before)) (b == b'"') on_quote-Parsed (
                if_both (Returns (Parsed before)) (b == b':' && not s.in_quote) on_colon-Parsed
                  (write_byte-Parsed b s p)))))

  -- A backslash goes to the buffer.
  backslash-Escapable :
      (i : ℕ) (prev : Option ℕ) (s : ExprParseState F)
      → Parsed before s
      → Returns
          (λ t. Parsed before t × Escapable (some b'\\') t)
          (on_byte parse_float i prev b'\\' s)
  unfolding on_byte Escapable is_escaped
  backslash-Escapable i prev s p = (write_byte-Parsed _ s p, λ _. not_empty s.buf)
    where
      not_empty : (buf : Bytes) → buf ++ b'\\' ∷ [] ≢ []
      not_empty [] e = cc
      not_empty (c ∷ buf) e = cc

  pub on_byte-Escapable :
      (i : ℕ) (prev : Option ℕ) (b : ℕ) (s : ExprParseState F)
      → Parsed before s
      → Escapable prev s
      → Returns (λ t. Parsed before t × Escapable (some b) t) (on_byte parse_float i prev b s)
  unfolding Escapable is_escaped
  on_byte-Escapable i prev b s p e = elim (Bool-cases (b == b'\\')) [
    | inl h ↦
        subst
          (λ c.
            Returns (λ t. Parsed before t × Escapable (some c) t) (on_byte parse_float i prev c s))
          (sym ((==_iff b b'\\').0 h)) (backslash-Escapable i prev s p)
    | inr f ↦
        Returns-mono (Parsed before) (λ t. Parsed before t × Escapable (some b) t) _
          (λ t q. (q, λ g. absurd (ground (arith, f, g)))) (on_byte-Parsed i prev s p e b)
  ]

  pub add_last-Parsed :
      (s : ExprParseState F) → Parsed before s → Returns (Parsed before) (add_last parse_float s)
  unfolding add_last
  add_last-Parsed s p = close_array-Parsed parse_float _ (
      if_both (Parsed before) s.in_quote (add_term_sequence-Parsed parse_float s p)
        (add_term_single-Parsed parse_float s p))

  -- A group that has been parsed is a clause.
  pub leave_group-Parsed :
      (s t : ExprParseState F)
      → Parsed before s
      → Parsed (enter_group parse_float s).calls t
      → Parsed before (leave_group parse_float (enter_group parse_float s) t)
  unfolding leave_group enter_group call clause_calls
  leave_group-Parsed s t p q =
      Parsed-clause _ (group q.query) p (rw q.called (simp append_assoc)) refl (inl refl)
