-- ===== src/Memory/Expr/Eval.antt =====
-- memory/memory_expr.go: the evaluation of an expression on an entry. The decoded content is a map
-- that the evaluation adds texts to, so that each evaluation passes the map on.
use sqlog.Base.{
  ℕ, Bool, true, false, not, ◌&&◌, ◌||◌, List, [], ◌∷◌, ◌++◌, if◌then◌else◌, Bytes, codes, bytes_eq,
  Option, none, some,
}
use sqlog.Expr.Text.{is_empty}
use sqlog.Memory.Wildcard.{wildcard_match}
use sqlog.Memory.Expr.{
  MemExpr, group_expr, or_expr, and_expr, text_expr, number_expr, between_expr, text_in_expr,
  number_in_expr, Stack, bottom, snoc,
}

pub data Value (F V : Type 0) : Type 0 where
  text : Bytes → Value F V
  number : F → Value F V
  other : V → Value F V

-- map[string]any: what was stored last comes first.
abbrev pub Fields : Type 0 → Type 0 → Type 0
Fields F V = List (Bytes × Value F V)

-- An evaluation gives an answer and the map, or panics; the loop of a pattern may take more rounds
-- than its fuel.
pub data Answer (F V A : Type 0) : Type 0 where
  answer : A → Fields F V → Answer F V A
  panics : Answer F V A
  unfinished : Answer F V A

module _ {F V : Type 0} where
  unfoldable pub get : Bytes → Fields F V → Option (Value F V)
  get field [] = none
  get field ((k, v) ∷ j) = let rest = get field j in if bytes_eq k field then some v else rest

  infixl 5 ◌>>=◌
  unfoldable pub ◌>>=◌ :
      {A B : Type 0} → Answer F V A → (A → Fields F V → Answer F V B) → Answer F V B
  answer a j >>= k = k a j
  panics >>= k = panics
  unfinished >>= k = unfinished

  unfoldable pub matched : Option Bool → Fields F V → Answer F V Bool
  matched none j = unfinished
  matched (some b) j = answer b j

-- What the code uses of float64, strconv and encoding/json: the comparisons, ParseFloat, Marshal
-- and Unmarshal into a map.
pub record Library (F V : Type 0) : Type 0 where
  pub equals : F → F → Bool
  pub less : F → F → Bool
  pub less_or_equal : F → F → Bool
  pub parse_float : Bytes → Option F
  pub marshal : Value F V → Option Bytes
  pub unmarshal : Bytes → Option (Fields F V)

module _ {F V : Type 0} (lib : Library F V) where
  unfoldable pub get_number : Fields F V → Bytes → Option F
  unfolding get
  get_number j field = elim (get field j) [
    | none ↦ none
    | some (number n) ↦ some n
    | some (text s) ↦ lib.parse_float s
    | some (other v) ↦ none
  ]

  unfoldable pub valid_text : Bytes → Fields F V → Answer F V (Option Bytes)
  unfolding is_empty
  valid_text s j = answer (if is_empty s then none else some s) j

  -- The text of a value that is none: the first time it is stored, and the field is not valid.
  unfoldable pub cached_text : Bytes → Value F V → Fields F V → Answer F V (Option Bytes)
  unfolding get valid_text
  cached_text field v j =
      let key = codes "___cs" ++ field in
      elim (get key j) [
        | none ↦ elim (lib.marshal v) [
          | none ↦ answer none ((key, text []) ∷ j)
          | some b ↦ answer none ((key, text b) ∷ j)
        ]
        | some (text s) ↦ valid_text s j
        | some (number n) ↦ panics
        | some (other w) ↦ panics
      ]

  unfoldable pub get_text : Fields F V → Bytes → Answer F V (Option Bytes)
  unfolding get valid_text cached_text
  get_text j field = elim (get field j) [
    | none ↦ answer none j
    | some (text s) ↦ valid_text s j
    | some (number n) ↦ cached_text field (number n) j
    | some (other v) ↦ cached_text field (other v) j
  ]

  unfoldable pub compares : Bytes → F → F → Bool
  compares condition x value =
      if bytes_eq condition (codes "=")
      then lib.equals x value
      else if bytes_eq condition (codes ">")
      then lib.less value x
      else if bytes_eq condition (codes "<")
      then lib.less x value
      else if bytes_eq condition (codes ">=")
      then lib.less_or_equal value x
      else if bytes_eq condition (codes "<=")
      then lib.less_or_equal x value
      else false

  unfoldable pub any_equal {ℓ} : {A : Type ℓ} → (A → A → Bool) → A → List A → Bool
  any_equal eq x [] = false
  any_equal eq x (v ∷ values) = eq x v || any_equal eq x values

  -- `fuel` bounds the rounds of the loop of each pattern.
  module _ (fuel : ℕ) where
    unfoldable pub eval_text : Bytes → Bytes → Bool → Bool → Fields F V → Answer F V Bool
    unfolding get_text matched wildcard_match
    eval_text field term is_sequence is_wildcard j = get_text j field >>= λ value j'. elim value [
      | none ↦ answer false j'
      | some s ↦
          if is_sequence && not is_wildcard
          then answer (bytes_eq s term) j'
          else if is_wildcard
          then matched (wildcard_match fuel term s) j'
          else matched (wildcard_match fuel (codes "*" ++ (term ++ codes "*")) s) j'
    ]

    unfoldable pub eval_text_in : Bytes → List Bytes → Fields F V → Answer F V Bool
    unfolding get_text any_equal
    eval_text_in field values j = get_text j field >>= λ value j'. elim value [
      | none ↦ answer false j'
      | some s ↦ answer (any_equal bytes_eq s values) j'
    ]

    unfoldable pub eval_number : Bytes → (F → Bool) → Fields F V → Answer F V Bool
    unfolding get_number
    eval_number field test j = elim (get_number j field) [
      | none ↦ answer false j
      | some n ↦ answer (test n) j
    ]

    unfoldable mutual
      unfolding eval_text eval_text_in eval_number compares any_equal

      pub eval : MemExpr F → Fields F V → Answer F V Bool
      eval (group_expr stack) j = eval_all stack j
      eval (or_expr stack) j = eval_any stack j
      eval (and_expr stack) j = eval_all stack j
      eval (text_expr field term is_sequence is_wildcard) j =
          eval_text field term is_sequence is_wildcard j
      eval (number_expr field condition value) j =
          eval_number field (λ n. compares condition n value) j
      eval (between_expr field x y) j =
          eval_number field (λ n. lib.less_or_equal x n && lib.less_or_equal n y) j
      eval (text_in_expr field values) j = eval_text_in field values j
      eval (number_in_expr field values) j =
          eval_number field (λ n. any_equal lib.equals n values) j

      -- The loops over a stack.
      pub eval_all : Stack F → Fields F V → Answer F V Bool
      eval_all bottom j = answer true j
      eval_all (snoc es e) j =
          eval_all es j >>= λ holds j'. elim holds [ true ↦ eval e j' | false ↦ answer false j' ]

      pub eval_any : Stack F → Fields F V → Answer F V Bool
      eval_any bottom j = answer false j
      eval_any (snoc es e) j =
          eval_any es j >>= λ holds j'. elim holds [ true ↦ answer true j' | false ↦ eval e j' ]

    -- What `Build` gives, on the content of an entry.
    unfoldable pub holds_of : Stack F → Bytes → Answer F V Bool
    unfolding eval_all
    holds_of bottom content = answer true []
    holds_of (snoc es e) content = elim (lib.unmarshal content) [
      | none ↦ answer false []
      | some j ↦ eval_all (snoc es e) j
    ]
