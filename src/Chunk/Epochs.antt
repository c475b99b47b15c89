-- ===== src/Chunk/Epochs.antt =====
-- `First` and `Last` of chunk.go: the span of the epochs in a chunk.
use sqlog.Base.{
  ℕ, suc, some, ◌≡◌, refl, sym, false, ◌⊎◌, inl, inr, List, [], ◌∷◌, ◌++◌, arith, All, All-append,
}
use mathlib.Core.Path.{subst}
use sqlog.Base.Int.{ℤ, pos, ◌≤ℤ◌, ◌<ℤ◌}
use sqlog.Chunk.{Entry, Chunk, Chain, put, store, new_epoch_end, new_epoch_start}
use sqlog.Chunk.Writing.{put-open, IsWf-IsSound}
use sqlog.Chunk.Invariant.{log, IsWf, closed, put-IsWf}

abbrev pub Any {ℓ} : {A : Type ℓ} → (A → Type 0) → List A → Type 0
Any P [] = ⊥
Any P (x ∷ xs) = P x ⊎ Any P xs

module _ {ℓ} {A : Type ℓ} (P : A → Type 0) where
  Any-append_left : (xs ys : List A) → Any P xs → Any P (xs ++ ys)
  Any-append_left [] ys h = absurd h
  Any-append_left (x ∷ xs) ys (inl h) = inl h
  Any-append_left (x ∷ xs) ys (inr h) = inr (Any-append_left xs ys h)

  Any-append_last : (xs : List A) (y : A) → P y → Any P (xs ++ y ∷ [])
  Any-append_last [] y h = inl h
  Any-append_last (x ∷ xs) y h = inr (Any-append_last xs y h)

All-init {ℓ κ} :
    {A : Type ℓ} (P : A → Type κ) (xs : List A) (y : A) → All P (xs ++ y ∷ []) → All P xs × P y
All-init P [] y h = (tt, h.0)
All-init P (x ∷ xs) y h = let (hs, hy) = All-init P xs y h.1 in ((h.0, hs), hy)

All-weaken {ℓ κ} :
    {A : Type ℓ} (P Q : A → Type κ) (xs : List A) → ((x : A) → P x → Q x) → All P xs → All Q xs
All-weaken P Q [] f h = tt
All-weaken P Q (x ∷ xs) f h = (f x h.0, All-weaken P Q xs f h.1)

abbrev epoch : Entry → ℤ
epoch e = e.time.unix

-- What `First` and `Last` say of the entries `l`, all of a time after 1970.
abbrev pub Spans : ℤ → ℤ → List Entry → Type 0
Spans start end_ [] = (start ≡ pos 0) × (end_ ≡ pos 0)
Spans start end_ (e ∷ l) =
    (pos 0 <ℤ start)
    × All (λ x. start ≤ℤ epoch x) (e ∷ l)
    × All (λ x. epoch x ≤ℤ end_) (e ∷ l)
    × Any (λ x. epoch x ≡ start) (e ∷ l)
    × Any (λ x. epoch x ≡ end_) (e ∷ l)

module _ (l : List Entry) (e : Entry) (start : ℤ) (positive : pos 0 <ℤ start) where
  start_choice :
      (new_epoch_start start (epoch e) ≡ start) ⊎ (new_epoch_start start (epoch e) ≡ epoch e)
  unfolding new_epoch_start
  start_choice = ground arith

  start_low :
      All (λ x. start ≤ℤ epoch x) l
      → All (λ x. new_epoch_start start (epoch e) ≤ℤ epoch x) (l ++ e ∷ [])
  unfolding new_epoch_start
  start_low h =
      All-append _ l (e ∷ []) (All-weaken _ _ l (λ x p. ground arith) h) (ground arith, tt)

  start_at :
      Any (λ x. epoch x ≡ start) l
      → Any (λ x. epoch x ≡ new_epoch_start start (epoch e)) (l ++ e ∷ [])
  start_at h = elim start_choice [
    | inl q ↦ rw q (Any-append_left _ l (e ∷ []) h)
    | inr q ↦ rw q (Any-append_last _ l e refl)
  ]

module _ (l : List Entry) (e : Entry) (end_ : ℤ) where
  end_choice : (new_epoch_end end_ (epoch e) ≡ end_) ⊎ (new_epoch_end end_ (epoch e) ≡ epoch e)
  unfolding new_epoch_end
  end_choice = ground arith

  end_high :
      All (λ x. epoch x ≤ℤ end_) l
      → All (λ x. epoch x ≤ℤ new_epoch_end end_ (epoch e)) (l ++ e ∷ [])
  unfolding new_epoch_end
  end_high h = All-append _ l (e ∷ []) (All-weaken _ _ l (λ x p. ground arith) h) (ground arith, tt)

  end_at :
      Any (λ x. epoch x ≡ end_) l → Any (λ x. epoch x ≡ new_epoch_end end_ (epoch e)) (l ++ e ∷ [])
  end_at h = elim end_choice [
    | inl q ↦ rw q (Any-append_left _ l (e ∷ []) h)
    | inr q ↦ rw q (Any-append_last _ l e refl)
  ]

start_positive : (start t : ℤ) → pos 0 <ℤ start → pos 0 <ℤ t → pos 0 <ℤ new_epoch_start start t
unfolding new_epoch_start
start_positive start t h k = ground arith

Spans-one :
    (e : Entry)
    → pos 0 <ℤ epoch e
    → Spans (new_epoch_start (pos 0) (epoch e)) (new_epoch_end (pos 0) (epoch e)) (e ∷ [])
unfolding new_epoch_start new_epoch_end
Spans-one e p = ground arith

Spans-append :
    (start end_ : ℤ) (l : List Entry) (e : Entry)
    → Spans start end_ l
    → pos 0 <ℤ epoch e
    → Spans (new_epoch_start start (epoch e)) (new_epoch_end end_ (epoch e)) (l ++ e ∷ [])
Spans-append start end_ [] e (h, k) p = rw (h, k) (Spans-one e p)
Spans-append start end_ (x ∷ l) e (h, low, high, at, at') p = (
  start_positive start (epoch e) h p,
  start_low (x ∷ l) e start h low,
  end_high (x ∷ l) e end_ high,
  start_at (x ∷ l) e start h at,
  end_at (x ∷ l) e end_ at',
)

store-Spans :
    (c : Chunk) (e : Entry)
    → IsWf c
    → closed c ≡ false
    → Spans c.epoch_start c.epoch_end (log c)
    → pos 0 <ℤ e.time.unix
    → Spans (store c c.book e).epoch_start (store c c.book e).epoch_end (log (store c c.book e))
unfolding store
store-Spans c e w o h p =
    subst (Spans (new_epoch_start c.epoch_start (epoch e)) (new_epoch_end c.epoch_end (epoch e)))
      (sym (put-IsWf c e w o).1) (Spans-append c.epoch_start c.epoch_end (log c) e h p)

-- While every entry is of a time after 1970, `First` and `Last` stay the least and the greatest
-- epoch of the entries of a well-formed chunk, through each `Put` that the chunk accepts: the entry
-- is added, and both ends are then epochs of entries that bound all the others.
pub put-Spans :
    (f : ℕ) (c : Chunk) (rest : Chain) (e : Entry)
    → IsWf c
    → closed c ≡ false
    → Spans c.epoch_start c.epoch_end (log c)
    → pos 0 <ℤ e.time.unix
    → (c' : Chunk) × (put (suc f) (c ∷ rest) e ≡ some (c' ∷ rest, 0))
      × (log c' ≡ log c ++ e ∷ [])
      × Spans c'.epoch_start c'.epoch_end (log c')
put-Spans f c rest e w o h p = (
  store c c.book e,
  put-open f c rest e (IsWf-IsSound w) o,
  (put-IsWf c e w o).1,
  store-Spans c e w o h p,
)
