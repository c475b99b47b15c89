-- ===== src/Expr/Safety.antt =====
-- What an outcome of the parser of expr.go says of the code that returns it, and the two places
-- that could go wrong: the text of a group, which the parser calls itself on, and the buffer.
use sqlog.Base.{ℕ, zero, suc, ◌≤◌, ◌≡◌, refl, Bool, not, some, [], ◌∷◌, Bytes, arith, length, ◌≢◌}
use sqlog.Expr.Text.{drop_last}
use sqlog.Expr.State.{Outcome, ok, err, panic, out_of_fuel, ◌>>=◌}
use sqlog.Expr.Parse.{split_group}

module _ {A : Type 0} (P : A → Type 0) where
  -- The code returns, and if it returns a value, the value satisfies `P`.
  abbrev pub Returns : Outcome A → Type 0
  Returns (ok a) = P a
  Returns (err e) = Unit
  Returns panic = ⊥
  Returns out_of_fuel = ⊥

pub Returns-bind :
    {A B : Type 0} (P : A → Type 0) (Q : B → Type 0) (r : Outcome A) (f : A → Outcome B)
    → Returns P r
    → ((a : A) → P a → Returns Q (f a))
    → Returns Q (r >>= f)
Returns-bind P Q (ok a) f h k = k a h
Returns-bind P Q (err e) f h k = tt
Returns-bind P Q panic f h k = absurd h
Returns-bind P Q out_of_fuel f h k = absurd h

pub Returns-mono :
    {A : Type 0} (P Q : A → Type 0) (r : Outcome A)
    → ((a : A) → P a → Q a)
    → Returns P r
    → Returns Q r
Returns-mono P Q (ok a) k h = k a h
Returns-mono P Q (err e) k h = tt
Returns-mono P Q panic k h = absurd h
Returns-mono P Q out_of_fuel k h = absurd h

-- The two parts of a group are no longer than the text.
pub split_group-le :
    (p : ℕ) (q : Bool) (prev : ℕ) (s : Bytes)
    → (length ((split_group p q prev s).0) ≤ length s)
      × (length ((split_group p q prev s).1) ≤ length s)
unfolding split_group
split_group-le p q prev [] = omega arith
split_group-le zero q prev (c ∷ rest) =
    ground
      (arith, split_group-le 1 q c rest, split_group-le 0 q c rest, split_group-le 0 (not q) c rest)
split_group-le (suc p) q prev (c ∷ rest) = ground (
  arith,
  split_group-le (suc (suc p)) q c rest,
  split_group-le p q c rest,
  split_group-le (suc p) q c rest,
  split_group-le (suc p) (not q) c rest,
)

pub drop_last-some : (s : Bytes) → s ≢ [] → (r : Bytes) × (drop_last s ≡ some r)
unfolding drop_last
drop_last-some [] h = absurd (h refl)
drop_last-some (c ∷ []) h = ([], refl)
drop_last-some (c ∷ d ∷ s) h = let (r, q) = drop_last-some (d ∷ s) (λ e. cc) in (c ∷ r, rw q refl)
