-- ===== src/Memory/Expr/Panics.antt =====
-- The type assertion `s.(string)` of memory/memory_expr.go.
use sqlog.Base.{
  ℕ, ◌≡◌, refl, Bool, true, false, not, ◌&&◌, List, [], ◌∷◌, ◌++◌, Bytes, codes, Option, none, some,
  inl, inr, bytes_eq, if_both, Bool-cases, arith,
}
use sqlog.Memory.Expr.{
  MemExpr, group_expr, or_expr, and_expr, text_expr, number_expr, between_expr, text_in_expr,
  number_in_expr, Stack, bottom, snoc,
}
use sqlog.Memory.Expr.Eval.{
  Value, text, number, other, Fields, Answer, answer, panics, unfinished, ◌>>=◌, get, matched,
  Library, valid_text, cached_text, get_text, get_number, eval_text, eval_text_in, eval_number,
  eval, eval_all, eval_any,
}

-- What holds of each case holds of the elimination.
option_both :
    {A B : Type 0} (P : B → Type 0) (o : Option A) (n : B) (k : A → B)
    → P n
    → ((a : A) → P (k a))
    → P (elim o [ none ↦ n | some a ↦ k a ])
option_both P none n k h f = h
option_both P (some a) n k h f = f a

bool_both :
    {B : Type 0} (P : B → Type 0) (b : Bool) {x y : B}
    → P x
    → P y
    → P (elim b [ true ↦ x | false ↦ y ])
bool_both P true px py = px
bool_both P false px py = py

module _ {F V : Type 0} where
  -- Every value under a key of the cache is a text.
  abbrev pub IsClean : Fields F V → Type 0
  IsClean j =
      (key : Bytes) (v : Value F V)
      → get (codes "___cs" ++ key) j ≡ some v
      → (s : Bytes) × (v ≡ text s)

  module _ {A : Type 0} where
    -- The evaluation does not panic, and the map is clean behind it.
    abbrev pub Clean : Answer F V A → Type 0
    Clean (answer a j) = IsClean j
    Clean panics = ⊥
    Clean unfinished = Unit

  bind-Clean :
      {A B : Type 0} (r : Answer F V A) (k : A → Fields F V → Answer F V B)
      → Clean r
      → ((a : A) (j : Fields F V) → IsClean j → Clean (k a j))
      → Clean (r >>= k)
  unfolding ◌>>=◌
  bind-Clean (answer a j) k h c = c a j h
  bind-Clean panics k h c = absurd h
  bind-Clean unfinished k h c = tt

  store-IsClean : (key b : Bytes) (j : Fields F V) → IsClean j → IsClean ((key, text b) ∷ j)
  unfolding get
  store-IsClean key b j h key' v q = elim (Bool-cases (bytes_eq key (codes "___cs" ++ key'))) [
    | inl t ↦ (b, ground (arith, t, q))
    | inr f ↦ h key' v (ground (arith, f, q))
  ]

module _ {F V : Type 0} (lib : Library F V) where
  valid_text-Clean : (s : Bytes) (j : Fields F V) → IsClean j → Clean (valid_text lib s j)
  unfolding valid_text
  valid_text-Clean s j h = h

  cached_text-Clean :
      (field : Bytes) (v : Value F V) (j : Fields F V)
      → IsClean j
      → Clean (cached_text lib field v j)
  unfolding cached_text
  cached_text-Clean field v j h = go (get (codes "___cs" ++ field) j) (lib.marshal v) (h field)
    where
      go :
          (r : Option (Value F V)) (m : Option Bytes)
          → ((w : Value F V) → r ≡ some w → (s : Bytes) × (w ≡ text s))
          → Clean {A = Option Bytes} (elim r [
            | none ↦ elim m [
              | none ↦ answer none ((codes "___cs" ++ field, text []) ∷ j)
              | some b ↦ answer none ((codes "___cs" ++ field, text b) ∷ j)
            ]
            | some (text s) ↦ valid_text lib s j
            | some (number n) ↦ panics
            | some (other w) ↦ panics
          ])
      go none none k = store-IsClean (codes "___cs" ++ field) [] j h
      go none (some b) k = store-IsClean (codes "___cs" ++ field) b j h
      go (some (text s)) m k = valid_text-Clean s j h
      go (some (number n)) m k = let (s, q) = k (number n) refl in cc
      go (some (other w)) m k = let (s, q) = k (other w) refl in cc

  get_text-Clean : (field : Bytes) (j : Fields F V) → IsClean j → Clean (get_text lib j field)
  unfolding get_text
  get_text-Clean field j h = go (get field j)
    where
      go :
          (r : Option (Value F V))
          → Clean {A = Option Bytes} (elim r [
            | none ↦ answer none j
            | some (text s) ↦ valid_text lib s j
            | some (number n) ↦ cached_text lib field (number n) j
            | some (other v) ↦ cached_text lib field (other v) j
          ])
      go none = h
      go (some (text s)) = valid_text-Clean s j h
      go (some (number n)) = cached_text-Clean field (number n) j h
      go (some (other v)) = cached_text-Clean field (other v) j h

  matched-Clean : (r : Option Bool) (j : Fields F V) → IsClean j → Clean (matched r j)
  unfolding matched
  matched-Clean none j h = tt
  matched-Clean (some b) j h = h

  module _ (fuel : ℕ) where
    eval_text-Clean :
        (field term : Bytes) (is_sequence is_wildcard : Bool) (j : Fields F V)
        → IsClean j
        → Clean (eval_text lib fuel field term is_sequence is_wildcard j)
    unfolding eval_text
    eval_text-Clean field term is_sequence is_wildcard j h =
        bind-Clean (get_text lib j field) _ (get_text-Clean field j h) (λ value j' c.
          option_both Clean value _ _ c (λ s.
            if_both Clean (is_sequence && not is_wildcard) c
              (if_both Clean is_wildcard (matched-Clean _ j' c) (matched-Clean _ j' c))))

    eval_text_in-Clean :
        (field : Bytes) (values : List Bytes) (j : Fields F V)
        → IsClean j
        → Clean (eval_text_in lib fuel field values j)
    unfolding eval_text_in
    eval_text_in-Clean field values j h =
        bind-Clean (get_text lib j field) _ (get_text-Clean field j h)
          (λ value j' c. option_both Clean value _ _ c (λ s. c))

    eval_number-Clean :
        (field : Bytes) (test : F → Bool) (j : Fields F V)
        → IsClean j
        → Clean (eval_number lib fuel field test j)
    unfolding eval_number
    eval_number-Clean field test j h = option_both Clean (get_number lib j field) _ _ h (λ n. h)

    -- No evaluation panics on content whose keys behind `___cs` all have texts, if it has any. The
    -- code reads a key of that name without a look at its type.
    mutual
      unfolding eval

      eval-Clean : (e : MemExpr F) (j : Fields F V) → IsClean j → Clean (eval lib fuel e j)
      eval-Clean (group_expr es) j h = eval_all-Clean es j h
      eval-Clean (or_expr es) j h = eval_any-Clean es j h
      eval-Clean (and_expr es) j h = eval_all-Clean es j h
      eval-Clean (text_expr field term is_sequence is_wildcard) j h =
          eval_text-Clean field term is_sequence is_wildcard j h
      eval-Clean (number_expr field condition value) j h = eval_number-Clean field _ j h
      eval-Clean (between_expr field x y) j h = eval_number-Clean field _ j h
      eval-Clean (text_in_expr field values) j h = eval_text_in-Clean field values j h
      eval-Clean (number_in_expr field values) j h = eval_number-Clean field _ j h

      eval_all-Clean : (es : Stack F) (j : Fields F V) → IsClean j → Clean (eval_all lib fuel es j)
      eval_all-Clean bottom j h = h
      eval_all-Clean (snoc es e) j h =
          bind-Clean (eval_all lib fuel es j) _ (eval_all-Clean es j h)
            (λ holds j' c. bool_both Clean holds (eval-Clean e j' c) c)

      eval_any-Clean : (es : Stack F) (j : Fields F V) → IsClean j → Clean (eval_any lib fuel es j)
      eval_any-Clean bottom j h = h
      eval_any-Clean (snoc es e) j h =
          bind-Clean (eval_any lib fuel es j) _ (eval_any-Clean es j h)
            (λ holds j' c. bool_both Clean holds c (eval-Clean e j' c))
