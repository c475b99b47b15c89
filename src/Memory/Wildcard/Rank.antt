-- ===== src/Memory/Wildcard/Rank.antt =====
-- A rank that falls in each round of the loop of memory/wildcard.go.
use sqlog.Base.{
  ℕ, zero, suc, ◌+◌, ◌-◌, ◌≤◌, ◌<◌, ◌≡◌, min, Bool, ◌&&◌, not, leb, ◌==◌, if◌then◌else◌, ◌⊎◌, inl,
  inr, arith,
}

module _ {C : Type 0} where
  -- Induction along a relation.
  abbrev pub Induction : (C → C → Type 0) → Type 1
  Induction R = (P : C → Type 0) → ((c : C) → ((d : C) → R d c → P d) → P c) → (c : C) → P c

  abbrev pub Never : C → C → Type 0
  Never d c = ⊥

  -- The number falls, or it does not rise and `R` holds.
  abbrev pub Falls : (C → ℕ) → (C → C → Type 0) → C → C → Type 0
  Falls rank R d c = (rank d < rank c) ⊎ ((rank d ≤ rank c) × R d c)

  pub Never-induction : Induction Never
  Never-induction P step c = step c (λ d h. absurd h)

  pub Falls-induction : (rank : C → ℕ) (R : C → C → Type 0) → Induction R → Induction (Falls rank R)
  Falls-induction rank R ind P step c = go (suc (rank c)) c (omega arith)
    where
      go : (k : ℕ) (c : C) → rank c < k → P c
      go zero c h = absurd (omega arith)
      go (suc k) c h =
          ind (λ c. rank c < suc k → P c)
            (λ c ih h.
              step c
                (λ d r. elim r [ inl lt ↦ go k d (omega arith) | inr q ↦ ih d q.1 (omega arith) ]))
            c h

-- The loop's position in the pattern, the positions behind the last star and the last question
-- mark to go back to, 0 for none, and the star's place in the text.
pub record Place : Type 0 where
  pub at : ℕ
  pub star : ℕ
  pub eroteme : ℕ
  pub from : ℕ

module _ (n m : ℕ) where
  or_last : ℕ → ℕ
  or_last k = if k == 0 then n + 1 else k

  -- The least position that the loop can still come to.
  lowest : Place → ℕ
  unfolding or_last
  lowest c = min c.at (min (or_last c.star) (or_last c.eroteme))

  unfoldable pub rank1 : Place → ℕ
  unfolding lowest
  rank1 c = n - lowest c

  low : Place → Bool
  unfolding or_last
  low c = not (c.eroteme == 0) && (leb c.eroteme c.at && leb c.eroteme (or_last c.star))

  unfoldable pub rank2 : Place → ℕ
  unfolding low
  rank2 c = if low c then 1 else 0

  unfoldable pub rank3 : Place → ℕ
  unfolding low
  rank3 c =
      if low c then (if not (c.star == 0) && leb c.star c.at then 0 else 1) else m + 1 - c.from

  unfoldable pub rank4 : Place → ℕ
  unfolding low or_last
  rank4 c = if low c then n + 1 - c.star else n - min c.at (or_last c.eroteme)

  unfoldable pub rank5 : Place → ℕ
  unfolding low
  rank5 c =
      if low c then m + 1 - c.from else if not (c.eroteme == 0) && leb c.eroteme c.at then 1 else 0

  unfoldable pub rank6 : Place → ℕ
  rank6 c = n - c.at

  abbrev pub Sinks : Place → Place → Type 0
  Sinks = Falls rank1 (Falls rank2 (Falls rank3 (Falls rank4 (Falls rank5 (Falls rank6 Never)))))

  pub Sinks-induction : Induction Sinks
  Sinks-induction = Falls-induction rank1 _ (
      Falls-induction rank2 _ (
        Falls-induction rank3 _ (
          Falls-induction rank4 _
            (Falls-induction rank5 _ (Falls-induction rank6 _ Never-induction)))))

  pub record IsPlace (c : Place) : Type 0 where
    pub at_le : c.at ≤ n
    pub star_le : c.star ≤ n
    pub eroteme_le : c.eroteme ≤ n
    pub from_lt : c.from < m
    pub apart : c.star ≡ c.eroteme → c.star ≡ 0

  module _ (c : Place) (h : IsPlace c) where
    abbrev pub matched : Place
    matched = record c { at = suc c.at }

    pub Sinks-matched : c.at < n → Sinks matched c
    unfolding rank1 rank2 rank3 rank4 rank5 rank6 low lowest or_last
    Sinks-matched lt = ground arith

    -- The byte after a question mark ended what it could go back to.
    abbrev pub settled : Place
    settled = record c { at = suc c.at; eroteme = 0 }

    pub Sinks-settled : c.at < n → Sinks settled c
    unfolding rank1 rank2 rank3 rank4 rank5 rank6 low lowest or_last
    Sinks-settled lt = ground arith

    abbrev pub questioned : Place
    questioned = record c { at = suc c.at; eroteme = suc c.at }

    pub Sinks-questioned : c.at < n → (c.star ≡ suc c.at → ⊥) → Sinks questioned c
    unfolding rank1 rank2 rank3 rank4 rank5 rank6 low lowest or_last
    Sinks-questioned lt d = ground arith

    abbrev pub starred : ℕ → Place
    starred i = record c { at = suc c.at; star = suc c.at; from = i }

    pub Sinks-starred : (i : ℕ) → c.at < n → (c.eroteme ≡ suc c.at → ⊥) → Sinks (starred i) c
    unfolding rank1 rank2 rank3 rank4 rank5 rank6 low lowest or_last
    Sinks-starred i lt d = ground arith

    abbrev pub at_eroteme : Place
    at_eroteme = record c { at = c.eroteme; eroteme = 0 }

    pub Sinks-at_eroteme : 0 < c.eroteme → Sinks at_eroteme c
    unfolding rank1 rank2 rank3 rank4 rank5 rank6 low lowest or_last
    Sinks-at_eroteme lt = ground arith

    abbrev pub at_star : Place
    at_star = record c { at = c.star; from = suc c.from }

    pub Sinks-at_star : 0 < c.star → (c.eroteme ≡ 0) ⊎ (n ≤ c.at) → Sinks at_star c
    unfolding rank1 rank2 rank3 rank4 rank5 rank6 low lowest or_last
    Sinks-at_star lt (inl z) = ground arith
    Sinks-at_star lt (inr z) = ground arith
