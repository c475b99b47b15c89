-- ===== src/Handler/Pools.antt =====
-- The pools of writers of handler.go: a writer that a handler gets has its encoder changed as the
-- handler was derived, whichever pool it comes from.
use mathlib.Core.Path.{subst}
use sqlog.Base.{
  ℕ, suc, ◌-◌, ◌<◌, ◌≡◌, refl, sym, ap, ◌∙◌, true, false, Option, none, some, List, [], ◌∷◌, ◌++◌,
  ◌==◌, if◌then◌else◌, length, arith, All, All-map, if_both, if_cases,
}
use sqlog.Handler.{Writer, Handler, buffer_start, take_out, choose, behind, extended, get}

module _ {M : Type 0} where
  -- The changes that were made from the configured encoder to handler `i`.
  unfoldable pub path : ℕ → List (Handler M) → List M
  path i [] = []
  path i (h ∷ hs) =
      let elsewhere = path i hs in
      let here : List M = elim h.parent [ none ↦ [] | some (p, m) ↦ path p hs ++ m ∷ [] ] in
      if i == length hs then here else elsewhere

  -- The writers of each pool have the changes of its handler, and each parent stands behind.
  unfoldable pub HasPools : List (Handler M) → Type 0
  HasPools [] = Unit
  HasPools (h ∷ hs) =
      All (λ (w : Writer M). w.encoder ≡ path (length hs) (h ∷ hs)) h.writers
      × (elim h.parent as (λ _. Type 0) [ none ↦ Unit | some (p, m) ↦ p < length hs ])
      × HasPools hs

  -- The same handlers, up to their pools.
  pub record Same (hs hs' : List (Handler M)) : Type 0 where
    pub size : length hs' ≡ length hs
    pub paths : (i : ℕ) → path i hs' ≡ path i hs

  pub Same-refl : (hs : List (Handler M)) → Same hs hs
  Same-refl hs = record { size = refl; paths = λ i. refl }

  own-Same :
      (hs hs' : List (Handler M)) (parent : Option (ℕ × M))
      → Same hs hs'
      → ◌≡◌ {A = List M}
          (elim parent [ none ↦ [] | some (p, m) ↦ path p hs' ++ m ∷ [] ])
          (elim parent [ none ↦ [] | some (p, m) ↦ path p hs ++ m ∷ [] ])
  own-Same hs hs' none s = refl
  own-Same hs hs' (some (p, m)) s = ap (λ l. l ++ m ∷ []) (s.paths p)

  pub Same-cons :
      (h : Handler M) (hs hs' : List (Handler M)) → Same hs hs' → Same (h ∷ hs) (h ∷ hs')
  unfolding path
  Same-cons h hs hs' s = record {
    size = ap suc s.size;
    paths = λ i. rw (s.size, s.paths i, own-Same hs hs' h.parent s) refl;
  }

  -- What is behind a handler changes, up to pools.
  pub HasPools-cons :
      (h : Handler M) (hs hs' : List (Handler M))
      → Same hs hs'
      → HasPools (h ∷ hs)
      → HasPools hs'
      → HasPools (h ∷ hs')
  unfolding HasPools
  HasPools-cons h hs hs' s p q = (
    All-map h.writers
        (λ w e.
          e
          ∙ sym ((Same-cons h hs hs' s).paths (length hs))
          ∙ ap (λ n. path n (h ∷ hs')) (sym s.size))
        p.0,
    below h.parent p.1,
    q,
  )
    where
      below :
          (parent : Option (ℕ × M))
          → elim parent as (λ _. Type 0) [ none ↦ Unit | some (p, m) ↦ p < length hs ]
          → elim parent as (λ _. Type 0) [ none ↦ Unit | some (p, m) ↦ p < length hs' ]
      below none b = tt
      below (some (p, m)) b = rw s.size b

  -- An item that is taken out of a pool has what all have.
  abbrev Taken : (Writer M → Type 0) → Option (Writer M × List (Writer M)) → Type 0
  Taken P none = Unit
  Taken P (some (w, ws)) = P w × All P ws

  Taken-cons :
      (P : Writer M → Type 0) (x : Writer M) (o : Option (Writer M × List (Writer M)))
      → P x
      → Taken P o
      → Taken P (elim o [ none ↦ none | some (v, vs) ↦ some (v, x ∷ vs) ])
  Taken-cons P x none px h = tt
  Taken-cons P x (some (v, vs)) px h = (h.0, (px, h.1))

  take_out-Taken :
      (P : Writer M → Type 0) (k : ℕ) (ws : List (Writer M)) → All P ws → Taken P (take_out k ws)
  unfolding take_out
  take_out-Taken P k [] h = tt
  take_out-Taken P k (x ∷ ws) h =
      if_both (Taken P) (k == 0) h
        (Taken-cons P x (take_out (k - 1) ws) h.0 (take_out-Taken P (k - 1) ws h.1))

  choose-Taken :
      (P : Writer M → Type 0) (o : Option ℕ) (ws : List (Writer M))
      → All P ws
      → Taken P (choose o ws)
  unfolding choose
  choose-Taken P none ws h = tt
  choose-Taken P (some k) ws h = take_out-Taken P k ws h

  -- A writer of handler `i` has been got, and the handlers are the same up to their pools.
  unfoldable pub Got : List M → List (Handler M) → Option (Writer M × List (Handler M)) → Type 0
  Got wanted hs none = ⊥
  Got wanted hs (some (w, hs')) = (w.encoder ≡ wanted) × HasPools hs' × Same hs hs'

  behind-Got :
      (wanted : List M) (h : Handler M) (hs : List (Handler M))
      (o : Option (Writer M × List (Handler M)))
      → HasPools (h ∷ hs)
      → Got wanted hs o
      → Got wanted (h ∷ hs) (behind h o)
  unfolding behind Got
  behind-Got wanted h hs none p g = absurd g
  behind-Got wanted h hs (some (w, hs')) p (e, q, s) =
      (e, HasPools-cons h hs hs' s p q, Same-cons h hs hs' s)

  extended-Got :
      (wanted : List M) (m : M) (hs : List (Handler M)) (o : Option (Writer M × List (Handler M)))
      → Got wanted hs o
      → Got (wanted ++ m ∷ []) hs (extended m o)
  unfolding extended Got
  extended-Got wanted m hs none g = absurd g
  extended-Got wanted m hs (some (w, hs')) (e, q, s) = (ap (λ l. l ++ m ∷ []) e, q, s)

  pub path-here :
      (i : ℕ) (h : Handler M) (hs : List (Handler M))
      → (i == length hs) ≡ true
      → path i (h ∷ hs) ≡ elim h.parent [ none ↦ [] | some (p, m) ↦ path p hs ++ m ∷ [] ]
  unfolding path
  path-here i h hs e = rw e refl

  pub path-behind :
      (i : ℕ) (h : Handler M) (hs : List (Handler M))
      → (i == length hs) ≡ false
      → path i (h ∷ hs) ≡ path i hs
  unfolding path
  path-behind i h hs e = rw e refl

  -- The changes of a handler with this parent.
  abbrev own : Option (ℕ × M) → List (Handler M) → List M
  own none hs = []
  own (some (p, m)) hs = path p hs ++ m ∷ []

  -- A parent stands behind.
  abbrev pub Below : Option (ℕ × M) → List (Handler M) → Type 0
  Below none hs = Unit
  Below (some (p, m)) hs = p < length hs

  -- New of a pool.
  new-Got :
      (choice : ℕ → Option ℕ) (hs : List (Handler M)) (parent : Option (ℕ × M))
      → HasPools hs
      → Below parent hs
      → ((p : ℕ) → p < length hs → Got (path p hs) hs (get choice p hs))
      → Got (own parent hs) hs (elim parent [
        | none ↦ some (record { encoder = []; cap = buffer_start }, hs)
        | some (p, m) ↦ extended m (get choice p hs)
      ])
  unfolding Got
  new-Got choice hs none q b ih = (refl, q, Same-refl hs)
  new-Got choice hs (some (p, m)) q b ih = extended-Got (path p hs) m hs (get choice p hs) (ih p b)

  -- Get of a pool: one of its writers, or a new one.
  pool-Got :
      (h : Handler M) (hs : List (Handler M)) (o : Option (Writer M × List (Writer M)))
      (new : Option (Writer M × List (Handler M)))
      → HasPools (h ∷ hs)
      → Taken (λ w. w.encoder ≡ path (length hs) (h ∷ hs)) o
      → Got (path (length hs) (h ∷ hs)) (h ∷ hs) (behind h new)
      → Got
          (path (length hs) (h ∷ hs))
          (h ∷ hs)
          (elim o [ some (w, ws) ↦ some (w, record h { writers = ws } ∷ hs) | none ↦ behind h new ])
  unfolding Got HasPools path
  pool-Got h hs none new p t g = g
  pool-Got h hs (some (w, ws)) new p t g =
      (t.0, (t.1, p.1, p.2), record { size = refl; paths = λ i. refl })

  pub HasPools-parts :
      (h : Handler M) (hs : List (Handler M))
      → HasPools (h ∷ hs)
      → All (λ (w : Writer M). w.encoder ≡ path (length hs) (h ∷ hs)) h.writers
        × Below h.parent hs
        × HasPools hs
  unfolding HasPools
  HasPools-parts h hs p = (p.0, below h.parent p.1, p.2)
    where
      below :
          (parent : Option (ℕ × M))
          → elim parent as (λ _. Type 0) [ none ↦ Unit | some (q, m) ↦ q < length hs ]
          → Below parent hs
      below none b = tt
      below (some (q, m)) b = b

  own-path : (h : Handler M) (hs : List (Handler M)) → own h.parent hs ≡ path (length hs) (h ∷ hs)
  own-path h hs = same h.parent ∙ sym (path-here (length hs) h hs (ground arith))
    where
      same :
          (parent : Option (ℕ × M))
          → own parent hs ≡ elim parent [ none ↦ [] | some (p, m) ↦ path p hs ++ m ∷ [] ]
      same none = refl
      same (some (p, m)) = refl

  Got-path :
      {wanted wanted' : List M} (hs : List (Handler M)) (o : Option (Writer M × List (Handler M)))
      → wanted ≡ wanted'
      → Got wanted hs o
      → Got wanted' hs o
  Got-path hs o e g = subst (λ l. Got l hs o) e g

  pub get-Got :
      (choice : ℕ → Option ℕ) (i : ℕ) (hs : List (Handler M))
      → i < length hs
      → HasPools hs
      → Got (path i hs) hs (get choice i hs)
  unfolding get
  get-Got choice i [] b p = absurd (omega (arith, b))
  get-Got choice i (h ∷ hs) b p =
      let (pool, parent, q) = HasPools-parts h hs p in
      let ih : (j : ℕ) → j < length hs → Got (path j hs) hs (get choice j hs) =
        λ j c. get-Got choice j hs c q in
      let new : Option (Writer M × List (Handler M)) = elim h.parent [
        | none ↦ some (record { encoder = []; cap = buffer_start }, hs)
        | some (p, m) ↦ extended m (get choice p hs)
      ] in
      let top = path (length hs) (h ∷ hs) in
      let made : Got top hs new =
        Got-path hs new (own-path h hs) (new-Got choice hs h.parent q parent ih) in
      if_cases (Got (path i (h ∷ hs)) (h ∷ hs)) (i == length hs)
        (λ here. Got-path (h ∷ hs) _ (ap (λ n. path n (h ∷ hs)) (sym (ground (arith, here)))) (
          pool-Got h hs (choose (choice i) h.writers) new p
            (choose-Taken (λ w. w.encoder ≡ top) (choice i) h.writers pool)
            (behind-Got top h hs new p made)))
        (λ other.
          Got-path (h ∷ hs) (behind h (get choice i hs)) (sym (path-behind i h hs other))
            (behind-Got (path i hs) h hs (get choice i hs) p (ih i (ground (arith, b, other)))))
