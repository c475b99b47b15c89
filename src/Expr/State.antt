-- ===== src/Expr/State.antt =====
-- expr_parse_state.go: the state of the parser and its methods. `parse_float` is strconv.ParseFloat.
use sqlog.Base.{
  ℕ, Bool, true, false, ◌&&◌, ◌||◌, not, Option, none, some, List, [], ◌∷◌, ◌++◌, if◌then◌else◌,
  Bytes, codes, bytes_eq,
}
use sqlog.Expr.{Call, group_start, group_end, operator, text, number, between, text_in, number_in}
use sqlog.Expr.Text.{trim_space, to_upper, cut_prefix, has_byte, is_empty}

-- The errors that the parser returns: the offset of an unexpected byte, the parts of an array that
-- is no clause, or the error of a group with the text of the group.
pub data ParseError : Type 0 where
  unexpected_bracket : ℕ → ParseError
  unexpected_colon : ℕ → ParseError
  invalid_clause : List Bytes → ParseError
  invalid_expression : Bytes → ParseError → ParseError

pub data Outcome (A : Type 0) : Type 0 where
  ok : A → Outcome A
  err : ParseError → Outcome A
  panic : Outcome A
  out_of_fuel : Outcome A

infixl 5 ◌>>=◌
abbrev pub ◌>>=◌ : {A B : Type 0} → Outcome A → (A → Outcome B) → Outcome B
ok a >>= f = f a
err e >>= f = err e
panic >>= f = panic
out_of_fuel >>= f = out_of_fuel

-- `calls` is what has been called on the builder so far.
pub record ExprParseState (F : Type 0) : Type 0 where
  pub calls : List (Call F)
  pub in_quote : Bool
  pub in_array : Bool
  pub op : Bytes
  pub array_parts : List Bytes
  pub dirty : Bool
  pub buf : Bytes
  pub field : Bytes

unfoldable pub is_wildcard : Bytes → Bool
unfolding has_byte
is_wildcard term = has_byte b'*' term || has_byte b'?' term

unfoldable pub is_operator : Bytes → Bool
unfolding to_upper
is_operator term = bytes_eq (to_upper term) (codes "AND") || bytes_eq (to_upper term) (codes "OR")

module _ {F : Type 0} where
  unfoldable pub start : List (Call F) → ExprParseState F
  start calls = record {
    calls = calls;
    in_quote = false;
    in_array = false;
    op = [];
    array_parts = [];
    dirty = false;
    buf = [];
    field = [];
  }

  unfoldable pub call : Call F → ExprParseState F → ExprParseState F
  call c s = record s { calls = s.calls ++ c ∷ [] }

  unfoldable pub add_operator : ExprParseState F → ExprParseState F
  unfolding call is_empty
  add_operator s =
      let op = if is_empty s.op then codes "AND" else s.op in
      let s' = if s.dirty then call (operator op) s else s in record s' { op = [] }

  unfoldable pub field_name : ExprParseState F → Bytes
  unfolding is_empty
  field_name s = if is_empty s.field then codes "msg" else s.field

  -- s.buf.Reset(); s.field.Reset()
  unfoldable pub reset : ExprParseState F → ExprParseState F
  reset s = record s { buf = []; field = [] }

  unfoldable pub add_term_sequence : ExprParseState F → ExprParseState F
  unfolding add_operator call field_name is_wildcard reset is_empty
  add_term_sequence s =
      if s.in_array
      then record s { array_parts = s.array_parts ++ s.buf ∷ []; buf = [] }
      else if is_empty s.buf
      then reset s
      else reset
          (record (call (text (field_name s) s.buf true (is_wildcard s.buf)) (add_operator s)) {
            dirty = true;
          })

-- The first of the conditions that is a prefix of the text, and what is behind it.
unfoldable pub first_prefix : List Bytes → Bytes → Option (Bytes × Bytes)
unfolding cut_prefix
first_prefix [] term = none
first_prefix (cond ∷ conds) term = elim (cut_prefix cond term) [
  | some rest ↦ some (cond, rest)
  | none ↦ first_prefix conds term
]

abbrev pub conditions : List Bytes
conditions = codes ">=" ∷ codes ">" ∷ codes "<=" ∷ codes "<" ∷ []

unfoldable pub condition_of : Bytes → Option (Bytes × Bytes)
unfolding first_prefix
condition_of term = first_prefix conditions term

module _ {F : Type 0} (parse_float : Bytes → Option F) where
  -- The condition and the number that a term of a named field stands for, if it is numeric.
  unfoldable pub numeric : Bytes → Option (Bytes × F)
  unfolding condition_of trim_space
  numeric term = elim (condition_of term) [
    | some (condition, rest) ↦ elim (parse_float rest) [
      | none ↦ none
      | some n ↦ some (condition, n)
    ]
    | none ↦ elim (parse_float (trim_space term)) [ none ↦ none | some n ↦ some (codes "=", n) ]
  ]

  -- The call for a single term.
  unfoldable pub term_call : ExprParseState F → Call F
  unfolding numeric field_name is_wildcard is_empty
  term_call s =
      let plain = text (field_name s) s.buf false (is_wildcard s.buf) in
      if is_empty s.field then plain else elim (numeric s.buf) [
        | none ↦ plain
        | some (condition, n) ↦ number (field_name s) condition n
      ]

  unfoldable pub add_term_single : ExprParseState F → ExprParseState F
  unfolding add_operator call term_call is_operator reset is_empty
  add_term_single s =
      if s.in_array
      then record s {
        array_parts = if is_empty s.buf then s.array_parts else s.array_parts ++ s.buf ∷ [];
        buf = [];
      }
      else if is_empty s.buf
      then reset s
      else if is_operator s.buf
      then record s { op = to_upper s.buf; buf = [] }
      else reset (record (call (term_call s) (add_operator s)) { dirty = true })

  unfoldable pub number_args : List Bytes → List F
  number_args [] = []
  number_args (v ∷ parts) = elim (parse_float v) [
    | none ↦ number_args parts
    | some n ↦ n ∷ number_args parts
  ]

  unfoldable pub text_args : List Bytes → List Bytes
  text_args [] = []
  text_args (v ∷ parts) = elim (parse_float v) [
    | none ↦ v ∷ text_args parts
    | some n ↦ text_args parts
  ]

  unfoldable pub number_calls : Bytes → List F → List (Call F)
  number_calls field [] = []
  number_calls field (n ∷ []) = number field (codes "=") n ∷ []
  number_calls field ns = number_in field ns ∷ []

  unfoldable pub text_calls : Bytes → List Bytes → List (Call F)
  text_calls field [] = []
  text_calls field vs = text_in field vs ∷ []

  -- The calls for an array that is not an interval.
  unfoldable pub list_calls : Bytes → List Bytes → List (Call F)
  unfolding number_args text_args number_calls text_calls is_empty
  list_calls field parts =
      let numbers = number_args parts in
      let texts = text_args parts in
      if not (is_empty numbers) && not (is_empty texts)
      then group_start
        ∷ (number_calls field numbers
            ++ operator (codes "OR") ∷ (text_calls field texts ++ group_end ∷ []))
      else number_calls field numbers ++ text_calls field texts

  unfoldable pub interval_call : Bytes → List Bytes → Bytes → Bytes → Outcome (List (Call F))
  interval_call field parts from to = elim (parse_float from) [
    | none ↦ err (invalid_clause parts)
    | some x ↦ elim (parse_float to) [
      | none ↦ err (invalid_clause parts)
      | some y ↦ ok (between field x y ∷ [])
    ]
  ]

  unfoldable pub array_calls : Bytes → List Bytes → Outcome (List (Call F))
  unfolding list_calls interval_call
  array_calls field (from ∷ mid ∷ to ∷ []) =
      let parts = from ∷ mid ∷ to ∷ [] in
      if bytes_eq mid (codes "TO")
      then interval_call field parts from to
      else ok (list_calls field parts)
  array_calls field parts = ok (list_calls field parts)

  unfoldable pub close_array : ExprParseState F → Outcome (ExprParseState F)
  unfolding add_operator field_name array_calls is_empty
  close_array s =
      if not s.in_array
      then ok s
      else if is_empty s.array_parts
      then ok (record s { in_array = false })
      else (do
        let s' = add_operator (record s { in_array = false })
        calls ← array_calls (field_name s) s.array_parts
        ok (record s' { calls = s'.calls ++ calls; dirty = true; array_parts = [] }))
