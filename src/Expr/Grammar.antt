-- ===== src/Expr/Grammar.antt =====
-- The parser of expr.go as a whole: it returns, and its calls are those of a query.
use sqlog.Base.{
  ℕ, zero, suc, ◌<◌, ◌≡◌, false, Option, none, some, List, [], ◌∷◌, Bytes, arith, length, if_both,
}
use sqlog.Expr.{Call}
use sqlog.Expr.Query.{Query, query_calls}
use sqlog.Expr.State.{Outcome, ok, err, panic, out_of_fuel, ExprParseState, start}
use sqlog.Expr.Parse.{split_group, opens_group, enter_group, leave_group, in_group, scan, parse}
use sqlog.Expr.Safety.{Returns, Returns-bind, split_group-le}
use sqlog.Expr.Clauses.{Parsed, start-Parsed}
use sqlog.Expr.Steps.{
  Escapable, Escapable-none, Escapable-group, on_byte-Escapable, add_last-Parsed,
  leave_group-Parsed,
}

module _ {F : Type 0} (parse_float : Bytes → Option F) where
  in_group-Returns :
      (P : ExprParseState F → Type 0) (inner : Bytes) (r : Outcome (ExprParseState F))
      → Returns P r
      → Returns P (in_group parse_float inner r)
  unfolding in_group
  in_group-Returns P inner (ok s) h = h
  in_group-Returns P inner (err e) h = tt
  in_group-Returns P inner panic h = absurd h
  in_group-Returns P inner out_of_fuel h = absurd h

  scan-Parsed :
      (f n : ℕ) (prev : Option ℕ) (qs : Bytes) (before : List (Call F)) (s : ExprParseState F)
      → length qs < f
      → Parsed before s
      → Escapable prev s
      → Returns (Parsed before) (scan parse_float f n prev qs s)
  unfolding scan
  scan-Parsed zero n prev qs before s h p e = absurd (omega arith)
  scan-Parsed (suc f) n prev [] before s h p e = add_last-Parsed parse_float s p
  scan-Parsed (suc f) n prev (b ∷ rest) before s h p e =
      let s' = enter_group parse_float s in
      let l = split_group-le 0 false b rest in
      let (inner, after) = split_group 0 false b rest in
      if_both (Returns (Parsed before)) (opens_group parse_float b s)
        (Returns-bind (Parsed s'.calls) (Parsed before) _ _
          (in_group-Returns (Parsed s'.calls) inner _ (
            scan-Parsed f (length inner) none inner s'.calls (start s'.calls) (omega arith)
              (start-Parsed _) (Escapable-none _)))
          (λ t q.
            scan-Parsed f n (some b')') after before (leave_group parse_float s' t) (omega arith)
              (leave_group-Parsed parse_float s t p q) (Escapable-group _)))
        (Returns-bind (λ t. Parsed before t × Escapable (some b) t) (Parsed before) _ _
          (on_byte-Escapable parse_float _ prev b s p e)
          (λ t q. scan-Parsed f n (some b) rest before t (omega arith) q.0 q.1))

  -- On every text the parser returns: it does not truncate an empty buffer, and a round for each
  -- byte and one more are enough, in every group. If it returns no error, the calls on the builder
  -- are those of a query: an operator before each clause but the first, which is AND or OR, and
  -- groups that are closed, each after calls that are a query again.
  pub parse-Query :
      (expression : Bytes)
      → Returns (λ calls. (q : Query F) × (calls ≡ query_calls q)) (parse parse_float expression)
  unfolding parse
  parse-Query expression =
      Returns-bind (Parsed []) (λ calls. (q : Query F) × (calls ≡ query_calls q)) _ _
        (scan-Parsed (suc (length expression)) _ none expression [] (start []) (omega arith)
          (start-Parsed []) (Escapable-none _))
        (λ s p. (p.query, p.called))
