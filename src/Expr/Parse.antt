-- ===== src/Expr/Parse.antt =====
-- expr.go: the parser of `NewExprBuilder`, a loop over the bytes of the expression that calls itself
-- on the text of each group, and the function that it gives, which keeps a cache.
use sqlog.Base.{
  ℕ, zero, suc, ◌-◌, Bool, true, false, ◌&&◌, not, Option, none, some, List, [], ◌∷◌, ◌++◌, ◌==◌,
  if◌then◌else◌, length, Bytes, bytes_eq,
}
use sqlog.Expr.{Call, group_start, group_end, ExprBuilder, run_calls}
use sqlog.Expr.Text.{trim_space, drop_last, is_empty}
use sqlog.Expr.State.{
  unexpected_bracket, unexpected_colon, invalid_expression, Outcome, ok, err, panic, out_of_fuel,
  ◌>>=◌, ExprParseState, start, call, add_operator, add_term_single, add_term_sequence, close_array,
}

-- The text of a group, of which one more parenthesis than `parenthesis` is open, up to the
-- parenthesis that closes it, and the text behind that.
unfoldable pub split_group : ℕ → Bool → ℕ → Bytes → Bytes × Bytes
split_group parenthesis in_quote prev [] = ([], [])
split_group parenthesis in_quote prev (c ∷ rest) =
    let deeper = split_group (suc parenthesis) in_quote c rest in
    let quoted =
      split_group parenthesis (if prev == b'\\' then in_quote else not in_quote) c rest in
    let same = split_group parenthesis in_quote c rest in
    if c == b'(' && not in_quote
    then (c ∷ deeper.0, deeper.1)
    else if c == b')' && not in_quote
    then elim parenthesis [
      | zero ↦ ([], rest)
      | suc p ↦ let shallower = split_group p in_quote c rest in (c ∷ shallower.0, shallower.1)
    ]
    else if c == b'"'
    then (c ∷ quoted.0, quoted.1)
    else (c ∷ same.0, same.1)

-- `i > 0 && qs[i-1] == '\\'`
unfoldable pub is_escaped : Option ℕ → Bool
is_escaped none = false
is_escaped (some c) = c == b'\\'

module _ {F : Type 0} (parse_float : Bytes → Option F) where
  unfoldable pub write_byte : ℕ → ExprParseState F → ExprParseState F
  write_byte b s = record s { buf = s.buf ++ b ∷ [] }

  -- An escaped byte takes the place of the backslash.
  unfoldable pub unescape : ℕ → ExprParseState F → Outcome (ExprParseState F)
  unfolding drop_last
  unescape b s = elim (drop_last s.buf) [
    | none ↦ panic
    | some buf ↦ ok (record s { buf = buf ++ b ∷ [] })
  ]

  unfoldable pub on_open_bracket : ℕ → Option ℕ → ExprParseState F → Outcome (ExprParseState F)
  unfolding unescape is_escaped
  on_open_bracket i prev s =
      if is_escaped prev
      then unescape b'[' s
      else if s.in_array
      then err (unexpected_bracket i)
      else ok (record s { in_array = true })

  unfoldable pub on_close_bracket : Option ℕ → ExprParseState F → Outcome (ExprParseState F)
  unfolding unescape is_escaped add_term_single close_array
  on_close_bracket prev s =
      if is_escaped prev
      then unescape b']' s
      else close_array parse_float (add_term_single parse_float s)

  unfoldable pub on_space : ExprParseState F → ExprParseState F
  unfolding add_term_single write_byte
  on_space s = if s.in_quote then write_byte b' ' s else add_term_single parse_float s

  unfoldable pub on_quote : Option ℕ → ExprParseState F → Outcome (ExprParseState F)
  unfolding unescape is_escaped add_term_sequence
  on_quote prev s =
      if is_escaped prev
      then unescape b'"' s
      else if s.in_quote
      then ok (add_term_sequence (record s { in_quote = false }))
      else ok (record s { in_quote = true })

  unfoldable pub on_colon : ℕ → Option ℕ → ExprParseState F → Outcome (ExprParseState F)
  unfolding unescape is_escaped trim_space is_empty
  on_colon i prev s =
      if is_escaped prev
      then unescape b':' s
      else if not (is_empty s.field)
      then err (unexpected_colon i)
      else ok (record s { field = s.field ++ trim_space s.buf; buf = [] })

  -- The branches for a byte that opens no group.
  unfoldable pub on_byte : ℕ → Option ℕ → ℕ → ExprParseState F → Outcome (ExprParseState F)
  unfolding on_open_bracket on_close_bracket on_space on_quote on_colon write_byte
  on_byte i prev b s =
      if b == b'[' && not s.in_quote
      then on_open_bracket i prev s
      else if b == b']' && (s.in_array && not s.in_quote)
      then on_close_bracket prev s
      else if b == b' '
      then ok (on_space s)
      else if b == b'"'
      then on_quote prev s
      else if b == b':' && not s.in_quote
      then on_colon i prev s
      else ok (write_byte b s)

  unfoldable pub opens_group : ℕ → ExprParseState F → Bool
  opens_group b s = b == b'(' && (not s.in_array && not s.in_quote)

  -- What follows the loop.
  unfoldable pub add_last : ExprParseState F → Outcome (ExprParseState F)
  unfolding add_term_sequence add_term_single close_array
  add_last s =
      close_array parse_float
        (if s.in_quote then add_term_sequence s else add_term_single parse_float s)

  unfoldable pub enter_group : ExprParseState F → ExprParseState F
  unfolding add_operator call
  enter_group s = call group_start (add_operator s)

  -- Back in the expression of a group, on whose builder the group has made the calls up to its end.
  unfoldable pub leave_group : ExprParseState F → ExprParseState F → ExprParseState F
  unfolding call
  leave_group s inner = record (call group_end (record s { calls = inner.calls })) { dirty = true }

  unfoldable pub in_group : Bytes → Outcome (ExprParseState F) → Outcome (ExprParseState F)
  in_group inner (ok s) = ok s
  in_group inner (err e) = err (invalid_expression inner e)
  in_group inner panic = panic
  in_group inner out_of_fuel = out_of_fuel

  -- The loop from a byte on, of an expression of `n` bytes; `prev` is the byte before.
  unfoldable pub scan : ℕ → ℕ → Option ℕ → Bytes → ExprParseState F → Outcome (ExprParseState F)
  unfolding split_group start on_byte opens_group add_last enter_group leave_group in_group
  scan zero n prev qs s = out_of_fuel
  scan (suc f) n prev [] s = add_last s
  scan (suc f) n prev (b ∷ rest) s =
      let (inner, after) = split_group 0 false b rest in
      let s' = enter_group s in
      if opens_group b s
      then (in_group inner (scan f (length inner) none inner (start s'.calls)) >>= λ t.
          scan f n (some b')') after (leave_group s' t))
      else (on_byte (n - length (b ∷ rest)) prev b s >>= λ t. scan f n (some b) rest t)

  -- A round for each byte, and one more.
  unfoldable pub parse : Bytes → Outcome (List (Call F))
  unfolding scan start
  parse expression =
      scan (suc (length expression)) (length expression) none expression (start []) >>= λ s.
      ok s.calls

  module _ {E : Type 0} (factory : Bytes → ExprBuilder F E × Bytes) where
    -- sync.Map: what was stored last comes first.
    abbrev pub Cache : Type 0
    Cache = List (Bytes × E)

    unfoldable pub load : Bytes → Cache → Option E
    load expression [] = none
    load expression ((k, e) ∷ cache) =
        let older = load expression cache in if bytes_eq k expression then some e else older

    -- The expression that a builder makes of the calls.
    unfoldable pub build_expr : Bytes → Outcome E
    unfolding parse run_calls
    build_expr expression =
        let (mapper, text) = factory expression in
        parse text >>= λ calls. ok (mapper.build (run_calls mapper calls mapper.start))

    unfoldable pub store_ok : Bytes → Cache → Outcome E → Outcome E × Cache
    store_ok expression cache (ok e) = (ok e, (expression, e) ∷ cache)
    store_ok expression cache r = (r, cache)

    -- The function that `NewExprBuilder` gives, with its cache.
    unfoldable pub compile : Bytes → Cache → Outcome E × Cache
    unfolding trim_space load build_expr store_ok
    compile expression cache =
        let expression' = trim_space expression in
        elim (load expression' cache) [
          | some e ↦ (ok e, cache)
          | none ↦ store_ok expression' cache (build_expr expression')
        ]
