-- ===== src/Memory/Wildcard/Descent.antt =====
-- Each round of the loop of memory/wildcard.go lowers the rank.
use mathlib.Core.Path.{subst}
use sqlog.Base.{
  ==_iff, ℕ, zero, suc, ◌≤◌, ◌<◌, ◌≡◌, refl, sym, ap, ◌∙◌, true, ◌&&◌, not, ◌==◌, if_both, if_cases,
  ◌⊎◌, inl, inr, arith, Option, none, some, [], ◌∷◌, length, get_elem?, Bytes,
}
use sqlog.Memory.Wildcard.{
  Cursor, Next, goes_on, fails, back_to_star, back_to_eroteme, is_some, match_byte, at_pattern,
}
use sqlog.Memory.Wildcard.Rank.{
  Place, IsPlace, Sinks, Sinks-matched, Sinks-settled, Sinks-questioned, Sinks-starred,
  Sinks-at_eroteme, Sinks-at_star,
}

pub get_elem?-some : (xs : Bytes) (i a : ℕ) → get_elem? xs i ≡ some a → i < length xs
get_elem?-some [] i a h = cc
get_elem?-some (x ∷ xs) zero a h = omega arith
get_elem?-some (x ∷ xs) (suc i) a h = omega (arith, get_elem?-some xs i a h)

get_elem?-none : (xs : Bytes) (i : ℕ) → get_elem? xs i ≡ none → length xs ≤ i
get_elem?-none [] i h = omega arith
get_elem?-none (x ∷ xs) zero h = cc
get_elem?-none (x ∷ xs) (suc i) h = omega (arith, get_elem?-none xs i h)

get_elem?-ge : (xs : Bytes) (i : ℕ) → length xs ≤ i → get_elem? xs i ≡ none
get_elem?-ge [] i h = refl
get_elem?-ge (x ∷ xs) zero h = absurd (omega arith)
get_elem?-ge (x ∷ xs) (suc i) h = get_elem?-ge xs i (omega arith)

abbrev behind : Option ℕ → ℕ
behind none = 0
behind (some i) = suc i

abbrev pub place : Cursor → Place
place c = record {
  at = c.pattern_index;
  star = behind c.star;
  eroteme = behind c.eroteme;
  from = c.last_star;
}

module _ (pattern s : Bytes) where
  -- The places to go back to are a star and a question mark.
  pub record IsHeld (c : Cursor) : Type 0 where
    pub at_le : c.pattern_index ≤ length pattern
    pub is_star : (i : ℕ) → c.star ≡ some i → get_elem? pattern i ≡ some b'*'
    pub is_eroteme : (i : ℕ) → c.eroteme ≡ some i → get_elem? pattern i ≡ some b'?'
    pub from_lt : c.s_index < length s → c.last_star < length s

  char_at :
      (i j p a : ℕ)
      → get_elem? pattern i ≡ some p
      → (p == a) ≡ true
      → some i ≡ some j
      → get_elem? pattern j ≡ some a
  char_at i j p a q t e =
      subst (λ k. get_elem? pattern k ≡ some a) (ground (arith, e)) (q ∙ ap some ((==_iff p a).0 t))

  behind-le :
      (o : Option ℕ) (a : ℕ)
      → ((i : ℕ) → o ≡ some i → get_elem? pattern i ≡ some a)
      → behind o ≤ length pattern
  behind-le none a h = omega arith
  behind-le (some i) a h = omega (arith, get_elem?-some pattern i a (h i refl))

  behind-suc : (o : Option ℕ) (i : ℕ) → behind o ≡ suc i → o ≡ some i
  behind-suc none i h = absurd (omega arith)
  behind-suc (some j) i h = ap some (omega arith)

  behind-apart :
      (o u : Option ℕ)
      → ((i : ℕ) → o ≡ some i → get_elem? pattern i ≡ some b'*')
      → ((i : ℕ) → u ≡ some i → get_elem? pattern i ≡ some b'?')
      → behind o ≡ behind u
      → behind o ≡ 0
  behind-apart none u h k q = refl
  behind-apart (some i) u h k q =
      absurd (ground (arith, sym (h i refl) ∙ k i (behind-suc u i (sym q))))

  held-IsPlace :
      (c : Cursor) → IsHeld c → c.s_index < length s → IsPlace (length pattern) (length s) (place c)
  held-IsPlace c h lt = record {
    at_le = h.at_le;
    star_le = behind-le c.star _ h.is_star;
    eroteme_le = behind-le c.eroteme _ h.is_eroteme;
    from_lt = h.from_lt lt;
    apart = behind-apart c.star c.eroteme h.is_star h.is_eroteme;
  }

  -- The loop goes on from a cursor of a lower rank, unless it is at the end of the text.
  abbrev pub GoesDown : Cursor → Next → Type 0
  GoesDown c fails = Unit
  GoesDown c (goes_on d) =
      IsHeld d × (d.s_index < length s → Sinks (length pattern) (length s) (place d) (place c))

  module _ (c : Cursor) (h : IsHeld c) (lt : c.s_index < length s) where
    back_to_star-GoesDown :
        (c.eroteme ≡ none) ⊎ (length pattern ≤ c.pattern_index) → GoesDown c (back_to_star c)
    unfolding back_to_star
    back_to_star-GoesDown u = go c.star refl
      where
        go :
            (o : Option ℕ)
            → c.star ≡ o
            → GoesDown c (elim o [
              | none ↦ fails
              | some star ↦ goes_on (record c {
                pattern_index = suc star;
                last_star = suc c.last_star;
                s_index = suc c.last_star;
              })
            ])
        go none q = tt
        go (some i) q = (
          record {
            at_le = omega (arith, get_elem?-some pattern i b'*' (h.is_star i q));
            is_star = h.is_star;
            is_eroteme = h.is_eroteme;
            from_lt = λ x. x;
          },
          λ _.
              subst
                (λ k.
                  Sinks (length pattern) (length s)
                    (record {
                      at = k;
                      star = behind c.star;
                      eroteme = behind c.eroteme;
                      from = suc c.last_star;
                    })
                    (place c))
                (ap behind q)
                (Sinks-at_star (length pattern) (length s) (place c) (held-IsPlace c h lt)
                  (omega (arith, ap behind q))
                  (elim u [ inl z ↦ inl (ap behind z) | inr z ↦ inr z ])),
        )

    back_to_eroteme-GoesDown : GoesDown c (back_to_eroteme c)
    unfolding back_to_eroteme
    back_to_eroteme-GoesDown = go c.eroteme refl
      where
        go :
            (o : Option ℕ)
            → c.eroteme ≡ o
            → GoesDown c (elim o [
              | none ↦ back_to_star c
              | some eroteme ↦ goes_on (record c {
                pattern_index = suc eroteme;
                s_index = c.last_eroteme;
                eroteme = none;
              })
            ])
        go none q = back_to_star-GoesDown (inl q)
        go (some i) q = (
          record {
            at_le = omega (arith, get_elem?-some pattern i b'?' (h.is_eroteme i q));
            is_star = h.is_star;
            is_eroteme = λ j e. cc;
            from_lt = λ _. h.from_lt lt;
          },
          λ _.
              subst
                (λ k.
                  Sinks (length pattern) (length s)
                    (record { at = k; star = behind c.star; eroteme = 0; from = c.last_star })
                    (place c))
                (ap behind q)
                (Sinks-at_eroteme (length pattern) (length s) (place c) (held-IsPlace c h lt)
                  (omega (arith, ap behind q))),
        )

    match_byte-GoesDown :
        (p b : ℕ) → get_elem? pattern c.pattern_index ≡ some p → GoesDown c (match_byte p b c)
    unfolding match_byte is_some
    match_byte-GoesDown p b q =
        let at_lt = get_elem?-some pattern c.pattern_index p q in
        let w = held-IsPlace c h lt in
        if_cases (GoesDown c) (p == b'?')
          (λ t. (
            record {
              at_le = omega arith;
              is_star = h.is_star;
              is_eroteme = λ j e. char_at c.pattern_index j p b'?' q t e;
              from_lt = λ _. h.from_lt lt;
            },
            λ _. Sinks-questioned (length pattern) (length s) (place c) w at_lt (λ e.
                ground
                  (arith, t, q, h.is_star c.pattern_index (behind-suc c.star c.pattern_index e))),
          ))
          (λ f.
            if_cases (GoesDown c) (p == b'*')
              (λ t. (
                record {
                  at_le = omega arith;
                  is_star = λ j e. char_at c.pattern_index j p b'*' q t e;
                  is_eroteme = h.is_eroteme;
                  from_lt = λ _. lt;
                },
                λ _. Sinks-starred (length pattern) (length s) (place c) w c.s_index at_lt (λ e.
                    ground (
                      arith,
                      t,
                      q,
                      h.is_eroteme c.pattern_index (behind-suc c.eroteme c.pattern_index e),
                    )),
              ))
              (λ g. if_both (GoesDown c) (not (p == b)) back_to_eroteme-GoesDown (
                if_both
                  (λ o. GoesDown c (
                    goes_on (record c {
                      eroteme = o;
                      pattern_index = suc c.pattern_index;
                      s_index = suc c.s_index;
                    })))
                  (is_some c.eroteme && not (c.last_eroteme_byte == b))
                  (
                    record {
                      at_le = omega arith;
                      is_star = h.is_star;
                      is_eroteme = λ j e. cc;
                      from_lt = λ _. h.from_lt lt;
                    },
                    λ _. Sinks-settled (length pattern) (length s) (place c) w at_lt,
                  )
                  (
                    record {
                      at_le = omega arith;
                      is_star = h.is_star;
                      is_eroteme = h.is_eroteme;
                      from_lt = λ _. h.from_lt lt;
                    },
                    λ _. Sinks-matched (length pattern) (length s) (place c) w at_lt,
                  ))))

    pub at_pattern-GoesDown : (b : ℕ) → GoesDown c (at_pattern pattern b c)
    unfolding at_pattern
    at_pattern-GoesDown b = go (get_elem? pattern c.pattern_index) refl
      where
        go :
            (o : Option ℕ)
            → get_elem? pattern c.pattern_index ≡ o
            → GoesDown c (elim o [ none ↦ back_to_star c | some p ↦ match_byte p b c ])
        go none q = back_to_star-GoesDown (inr (get_elem?-none pattern c.pattern_index q))
        go (some p) q = match_byte-GoesDown p b q
