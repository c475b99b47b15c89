-- ===== src/Expr.antt =====
-- expr.go: the interface `ExprBuilder`. The parser calls a builder and never reads it, so what a
-- parser does is the list of its calls; a builder is run on such a list. float64 is the type `F`.
pub mod Text
pub mod Run
pub mod State
pub mod Parse
pub mod Query
mod Tests
pub mod Cache
pub mod Safety
pub mod Clauses
pub mod Steps
pub mod Grammar
use sqlog.Base.{ℕ, Bool, List, [], ◌∷◌, Bytes}

pub data Call (F : Type 0) : Type 0 where
  group_start : Call F
  group_end : Call F
  operator : Bytes → Call F
  text : Bytes → Bytes → Bool → Bool → Call F
  number : Bytes → Bytes → F → Call F
  between : Bytes → F → F → Call F
  text_in : Bytes → List Bytes → Call F
  number_in : Bytes → List F → Call F

pub record ExprBuilder (F E : Type 0) : Type 1 where
  pub State : Type 0
  pub start : State
  pub on_group_start : State → State
  pub on_group_end : State → State
  pub on_operator : Bytes → State → State
  pub on_text : Bytes → Bytes → Bool → Bool → State → State
  pub on_number : Bytes → Bytes → F → State → State
  pub on_between : Bytes → F → F → State → State
  pub on_text_in : Bytes → List Bytes → State → State
  pub on_number_in : Bytes → List F → State → State
  pub build : State → E

module _ {F E : Type 0} (b : ExprBuilder F E) where
  unfoldable pub apply : Call F → b.State → b.State
  apply group_start s = b.on_group_start s
  apply group_end s = b.on_group_end s
  apply (operator op) s = b.on_operator op s
  apply (text field term is_sequence is_wildcard) s = b.on_text field term is_sequence is_wildcard s
  apply (number field condition value) s = b.on_number field condition value s
  apply (between field x y) s = b.on_between field x y s
  apply (text_in field values) s = b.on_text_in field values s
  apply (number_in field values) s = b.on_number_in field values s

  unfoldable pub run_calls : List (Call F) → b.State → b.State
  unfolding apply
  run_calls [] s = s
  run_calls (c ∷ cs) s = run_calls cs (apply c s)
