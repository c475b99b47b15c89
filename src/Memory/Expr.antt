-- ===== src/Memory/Expr.antt =====
-- memory/memory_expr.go: the builder of predicates on entries. float64 is the type `F`, and `V` are
-- the JSON values that are neither texts nor numbers.
pub mod Eval
pub mod Meaning
pub mod Semantics
pub mod Compile
pub mod Panics
mod Tests
use sqlog.Base.{
  Bool, List, [], ◌∷◌, ◌++◌, if◌then◌else◌, Bytes, codes, bytes_eq, Option, none, some,
}
use sqlog.Expr.{ExprBuilder}

-- An expression and a stack of them, the last of which is `e` in `snoc es e`.
mutual
  pub data MemExpr (F : Type 0) : Type 0 where
    group_expr : Stack F → MemExpr F
    or_expr : Stack F → MemExpr F
    and_expr : Stack F → MemExpr F
    text_expr : Bytes → Bytes → Bool → Bool → MemExpr F
    number_expr : Bytes → Bytes → F → MemExpr F
    between_expr : Bytes → F → F → MemExpr F
    text_in_expr : Bytes → List Bytes → MemExpr F
    number_in_expr : Bytes → List F → MemExpr F

  pub data Stack (F : Type 0) : Type 0 where
    bottom : Stack F
    snoc : Stack F → MemExpr F → Stack F

-- The last of `group_stack` stands first.
pub record MemoryExprBuilder (F : Type 0) : Type 0 where
  pub stack : Stack F
  pub group_stack : List (Stack F)

module _ {F : Type 0} where
  unfoldable pub push : MemExpr F → Stack F → Stack F
  push e (snoc es (and_expr stack)) = snoc es (and_expr (snoc stack e))
  push e (snoc es (or_expr stack)) = snoc es (or_expr (snoc stack e))
  push e es = snoc es e

  unfoldable pub add : MemExpr F → MemoryExprBuilder F → MemoryExprBuilder F
  unfolding push
  add e m = record m { stack = push e m.stack }

  -- The last expression under an AND, or under an OR.
  unfoldable pub as_and : MemExpr F → MemExpr F
  as_and (and_expr stack) = and_expr stack
  as_and last = and_expr (snoc bottom last)

  unfoldable pub as_or : MemExpr F → MemExpr F
  as_or (or_expr stack) = or_expr stack
  as_or last = or_expr (snoc bottom last)

  unfoldable pub combine : Bytes → Stack F → Stack F
  unfolding as_and as_or
  combine op bottom = bottom
  combine op (snoc es last) =
      if bytes_eq op (codes "AND") then snoc es (as_and last) else snoc es (as_or last)

  unfoldable pub operator : Bytes → MemoryExprBuilder F → MemoryExprBuilder F
  unfolding combine
  operator op m = record m { stack = combine op m.stack }

  unfoldable pub group_start : MemoryExprBuilder F → MemoryExprBuilder F
  group_start m = record { stack = bottom; group_stack = m.stack ∷ m.group_stack }

  unfoldable pub group_end : MemoryExprBuilder F → MemoryExprBuilder F
  unfolding add
  group_end m = elim m.group_stack [
    | [] ↦ m
    | parent ∷ rest ↦ add (group_expr m.stack) (record { stack = parent; group_stack = rest })
  ]

  abbrev pub memory_builder : ExprBuilder F (Stack F)
  memory_builder = record {
    State = MemoryExprBuilder F;
    start = record { stack = bottom; group_stack = [] };
    on_group_start = group_start;
    on_group_end = group_end;
    on_operator = operator;
    on_text =
        λ field term is_sequence is_wildcard. add (text_expr field term is_sequence is_wildcard);
    on_number = λ field condition value. add (number_expr field condition value);
    on_between = λ field x y. add (between_expr field x y);
    on_text_in = λ field values. add (text_in_expr field values);
    on_number_in = λ field values. add (number_in_expr field values);
    build = λ m. m.stack;
  }

  unfoldable pub factory : Bytes → ExprBuilder F (Stack F) × Bytes
  factory expression = (memory_builder, expression)
