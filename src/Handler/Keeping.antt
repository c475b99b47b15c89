-- ===== src/Handler/Keeping.antt =====
-- What the methods of handler.go leave of the pools, and of the changes of each handler.
use sqlog.Base.{
  ℕ, ◌<◌, ◌≡◌, refl, ap, ◌∙◌, some, List, [], ◌∷◌, ◌==◌, length, arith, if_both, if_cases,
}
use sqlog.Handler.{Writer, Sink, Handler, root, lookup, change, fanout, derive, put_back}
use sqlog.Handler.Pools.{path, HasPools, Same, Same-refl, Same-cons, HasPools-cons, path-behind}

pub root-HasPools : (M : Type 0) → HasPools {M = M} (root ∷ [])
unfolding root HasPools
root-HasPools M = (tt, tt, tt)

module _ {M : Type 0} where
  -- What is put behind: the pools are right, and the handlers the same.
  abbrev pub Kept : List (Handler M) → List (Handler M) → Type 0
  Kept hs hs' = HasPools hs' × Same hs hs'

  pub Kept_trans : {hs hs' hs'' : List (Handler M)} → Same hs hs' → Kept hs' hs'' → Kept hs hs''
  Kept_trans s k = (k.0, record { size = k.1.size ∙ s.size; paths = λ i. k.1.paths i ∙ s.paths i })

  Kept-cons :
      (h : Handler M) (hs hs' : List (Handler M))
      → HasPools (h ∷ hs)
      → Kept hs hs'
      → Kept (h ∷ hs) (h ∷ hs')
  Kept-cons h hs hs' p k = (HasPools-cons h hs hs' k.1 p k.0, Same-cons h hs hs' k.1)

  tail-HasPools : (h : Handler M) (hs : List (Handler M)) → HasPools (h ∷ hs) → HasPools hs
  unfolding HasPools
  tail-HasPools h hs p = p.2

  pub put_back-Kept :
      (i : ℕ) (w : Writer M) (hs : List (Handler M))
      → w.encoder ≡ path i hs
      → HasPools hs
      → Kept hs (put_back i w hs)
  unfolding put_back change path HasPools
  put_back-Kept i w [] e p = (p, Same-refl [])
  put_back-Kept i w (h ∷ hs) e p =
      if_cases (Kept (h ∷ hs)) (i == length hs)
        (λ here. (
          ((e ∙ ap (λ n. path n (h ∷ hs)) (ground (arith, here)), p.0), p.1, p.2),
          record { size = refl; paths = λ j. refl },
        ))
        (λ other.
          Kept-cons h hs (put_back i w hs) p
            (put_back-Kept i w hs (e ∙ path-behind i h hs other) (tail-HasPools h hs p)))

  pub fanout-Kept :
      (i : ℕ) (sinks : List (Sink M)) (hs : List (Handler M))
      → HasPools hs
      → Kept hs (fanout i sinks hs)
  unfolding fanout change path HasPools
  fanout-Kept i sinks [] p = (p, Same-refl [])
  fanout-Kept i sinks (h ∷ hs) p =
      if_both (Kept (h ∷ hs)) (i == length hs) (p, record { size = refl; paths = λ j. refl })
        (Kept-cons h hs (fanout i sinks hs) p (fanout-Kept i sinks hs (tail-HasPools h hs p)))

  pub derive-HasPools :
      (i : ℕ) (m : M) (hs : List (Handler M))
      → i < length hs
      → HasPools hs
      → HasPools (derive i m hs)
  unfolding derive HasPools
  derive-HasPools i m hs b p = (tt, b, p)

  pub lookup-some :
      (i : ℕ) (hs : List (Handler M)) → i < length hs → (h : Handler M) × (lookup i hs ≡ some h)
  unfolding lookup
  lookup-some i [] b = absurd (omega (arith, b))
  lookup-some i (h ∷ hs) b =
      if_cases (λ o. (x : Handler M) × (o ≡ some x)) (i == length hs) (λ _. (h, refl))
        (λ other. lookup-some i hs (ground (arith, b, other)))
