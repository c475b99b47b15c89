-- ===== src/Memory/Expr/Compile.antt =====
-- `MemoryExprBuilderFn` of memory/memory_expr.go: what an expression becomes, behind the cache.
use sqlog.Base.{ℕ, ◌≡◌, refl, ap, ◌∙◌, List, [], Bytes}
use sqlog.Expr.{Call, run_calls}
use sqlog.Expr.Query.{Query, query_calls}
use sqlog.Expr.State.{Outcome, ok, err, panic, out_of_fuel, ◌>>=◌}
use sqlog.Expr.Parse.{parse, build_expr}
use sqlog.Expr.Safety.{Returns}
use sqlog.Expr.Grammar.{parse-Query}
use sqlog.Memory.Expr.{Stack, bottom, memory_builder, factory}
use sqlog.Memory.Expr.Eval.{Library, holds_of}
use sqlog.Memory.Expr.Meaning.{run-query}
use sqlog.Memory.Expr.Semantics.{asks_entry, holds_of-asks}

module _ {F V : Type 0} (lib : Library F V) (fuel : ℕ) (expression : Bytes) where
  -- The stack answers a query, which has the calls that the parser makes for the expression.
  pub record IsMeaning (stack : Stack F) : Type 0 where
    pub query : Query F
    pub parsed : parse lib.parse_float expression ≡ ok (query_calls query)
    pub answers :
        (content : Bytes) → holds_of lib fuel stack content ≡ asks_entry lib fuel query content

  -- Compiling an expression for the memory storage always returns, an error or a predicate. On the
  -- content of any entry the predicate answers what the query of the expression asks: its clauses
  -- from the left, AND and OR alike, each asked only if the answer of those before it does not
  -- decide; and a group as one clause. The map is passed on, with the texts that are stored in it.
  pub build_expr-asks : Returns IsMeaning (build_expr lib.parse_float factory expression)
  unfolding build_expr factory
  build_expr-asks =
      go (parse lib.parse_float expression) refl (parse-Query lib.parse_float expression)
    where
      go :
          (r : Outcome (List (Call F)))
          → parse lib.parse_float expression ≡ r
          → Returns (λ calls. (q : Query F) × (calls ≡ query_calls q)) r
          → Returns IsMeaning (
              r >>= λ calls.
              ok
                (run_calls memory_builder calls
                  (record { stack = bottom; group_stack = [] })).stack)
      go (ok calls) h (q, e) = record {
        query = q;
        parsed = h ∙ ap ok e;
        answers = λ content. rw (e, run-query q []) (holds_of-asks lib fuel q content);
      }
      go (err x) h r = tt
      go panic h r = absurd r
      go out_of_fuel h r = absurd r
