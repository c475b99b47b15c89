-- ===== src/Sqlite/Expr.antt =====
-- sqlite/expr.go: the builder of SQL conditions. float64 is the type `F`.
pub mod Meaning
pub mod Binding
pub mod Compile
mod Tests
use sqlog.Base.{
  ℕ, zero, suc, map, ltb, Bool, true, false, List, [], ◌∷◌, ◌++◌, if◌then◌else◌, not, Bytes, codes,
}
use sqlog.Expr.{ExprBuilder}
use sqlog.Expr.Text.{is_empty}

pub data Arg (F : Type 0) : Type 0 where
  text_arg : Bytes → Arg F
  number_arg : F → Arg F

pub record Expr (F : Type 0) : Type 0 where
  pub sql : Bytes
  pub args : List (Arg F)

-- The last of `groups` stands first.
pub record SqliteExprBuilder (F : Type 0) : Type 0 where
  pub args : List (Arg F)
  pub sql : Bytes
  pub groups : List Bytes

abbrev pub text_sql : Bytes
text_sql = codes "json_extract(e.content, ?)"

abbrev pub number_sql : Bytes
number_sql = codes "CAST(json_extract(e.content, ?) AS NUMERIC) "

-- The loop over the values of `TextIn` and `NumberIn`, from value `i` on.
unfoldable pub placeholders {ℓ} : {A : Type ℓ} → ℕ → List A → Bytes
placeholders i [] = []
placeholders i (v ∷ values) =
    (if ltb 0 i then codes "," else []) ++ (codes "?" ++ placeholders (suc i) values)

module _ {F : Type 0} where
  -- The argument for the path of a field.
  unfoldable pub path : Bytes → Arg F
  path field = text_arg (codes "$." ++ field)

  unfoldable pub builder_start : SqliteExprBuilder F
  builder_start = record { args = []; sql = []; groups = [] }

  -- s.sql.WriteString, and append to s.args
  unfoldable pub write : Bytes → List (Arg F) → SqliteExprBuilder F → SqliteExprBuilder F
  write text values s = record s { sql = s.sql ++ text; args = s.args ++ values }

  unfoldable pub build : SqliteExprBuilder F → Expr F
  build s = record { sql = s.sql; args = s.args }

  unfoldable pub on_group_start : SqliteExprBuilder F → SqliteExprBuilder F
  on_group_start s = record s { groups = (s.sql ++ codes "(") ∷ s.groups; sql = [] }

  unfoldable pub on_group_end : SqliteExprBuilder F → SqliteExprBuilder F
  on_group_end s = elim s.groups [
    | [] ↦ record s { sql = s.sql ++ codes ")" }
    | parent ∷ rest ↦ record s { groups = rest; sql = (parent ++ s.sql) ++ codes ")" }
  ]

  unfoldable pub on_operator : Bytes → SqliteExprBuilder F → SqliteExprBuilder F
  unfolding write is_empty
  on_operator op s = if is_empty s.sql then s else write (codes " " ++ (op ++ codes " ")) [] s

  unfoldable pub on_text : Bytes → Bytes → Bool → Bool → SqliteExprBuilder F → SqliteExprBuilder F
  unfolding write path
  on_text field term is_sequence is_wildcard s =
      let glob = text_sql ++ codes " GLOB ?" in
      if is_sequence
      then (if is_wildcard
          then write glob (path field ∷ text_arg term ∷ []) s
          else write (text_sql ++ codes " = ?") (path field ∷ text_arg term ∷ []) s)
      else (if is_wildcard
          then write glob (path field ∷ text_arg term ∷ []) s
          else write glob (path field ∷ text_arg (codes "*" ++ (term ++ codes "*")) ∷ []) s)

  unfoldable pub on_text_in : Bytes → List Bytes → SqliteExprBuilder F → SqliteExprBuilder F
  unfolding write path placeholders
  on_text_in field values s =
      write (text_sql ++ (codes " IN (" ++ (placeholders 0 values ++ codes ")")))
        (path field ∷ map text_arg values) s

  unfoldable pub on_number : Bytes → Bytes → F → SqliteExprBuilder F → SqliteExprBuilder F
  unfolding write path
  on_number field condition value s =
      write (number_sql ++ (condition ++ codes " ? ")) (path field ∷ number_arg value ∷ []) s

  unfoldable pub on_between : Bytes → F → F → SqliteExprBuilder F → SqliteExprBuilder F
  unfolding write path
  on_between field x y s =
      write (number_sql ++ codes "BETWEEN ? AND ?") (path field ∷ number_arg x ∷ number_arg y ∷ [])
        s

  unfoldable pub on_number_in : Bytes → List F → SqliteExprBuilder F → SqliteExprBuilder F
  unfolding write path placeholders
  on_number_in field values s =
      write (number_sql ++ (codes "IN (" ++ (placeholders 0 values ++ codes ")")))
        (path field ∷ map number_arg values) s

-- The methods as the parser calls them.
abbrev pub sqlite_builder : (F : Type 0) → ExprBuilder F (Expr F)
sqlite_builder F = record {
  State = SqliteExprBuilder F;
  start = builder_start;
  on_group_start = on_group_start;
  on_group_end = on_group_end;
  on_operator = on_operator;
  on_text = on_text;
  on_number = on_number;
  on_between = on_between;
  on_text_in = on_text_in;
  on_number_in = on_number_in;
  build = build;
}

-- The factory behind `ExpBuilderFn`.
unfoldable pub factory : {F : Type 0} → Bytes → ExprBuilder F (Expr F) × Bytes
factory {F} expression = (sqlite_builder F, expression)
