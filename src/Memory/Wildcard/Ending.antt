-- ===== src/Memory/Wildcard/Ending.antt =====
-- The loop of memory/wildcard.go ends on every pattern and every text.
use mathlib.Core.Path.{subst}
use sqlog.Base.{
  Bool-cases, ℕ, zero, suc, ◌≤◌, ◌≡◌, refl, Bool, true, false, ◌||◌, inl, inr, arith, none, some,
  length, get_elem?, Bytes, Option-cases, bytes_eq, codes, drop,
}
use sqlog.Expr.Text.{is_empty}
use sqlog.Memory.Wildcard.{
  Cursor, cursor_start, Next, goes_on, fails, at_pattern, match_loop, wildcard_match, check_pattern,
}
use sqlog.Memory.Wildcard.Rank.{Place, Sinks, Sinks-induction}
use sqlog.Memory.Wildcard.Descent.{get_elem?-some, place, IsHeld, GoesDown, at_pattern-GoesDown}

module _ (pattern s : Bytes) where
  -- From some fuel on the loop gives the same answer.
  abbrev Ends : Cursor → Type 0
  Ends c = (f : ℕ) × (b : Bool) × ((g : ℕ) → f ≤ g → match_loop g pattern s c ≡ some b)

  Ends-at_end : (c : Cursor) → get_elem? s c.s_index ≡ none → Ends c
  unfolding match_loop
  Ends-at_end c q = (1, check_pattern (drop c.pattern_index pattern), answer)
    where
      answer :
          (g : ℕ)
          → 1 ≤ g
          → match_loop g pattern s c ≡ some (check_pattern (drop c.pattern_index pattern))
      answer zero h = absurd (omega arith)
      answer (suc g) h = rw (match_loop, q) refl

  Ends-before :
      (c : Cursor) (b : ℕ) (x : Next)
      → get_elem? s c.s_index ≡ some b
      → at_pattern pattern b c ≡ x
      → ((d : Cursor) → x ≡ goes_on d → Ends d)
      → Ends c
  unfolding match_loop
  Ends-before c b fails q e k = (1, false, answer)
    where
      answer : (g : ℕ) → 1 ≤ g → match_loop g pattern s c ≡ some false
      answer zero h = absurd (omega arith)
      answer (suc g) h = rw (match_loop, q, e) refl
  Ends-before c b (goes_on d) q e k = let (f, a, h) = k d refl in (suc f, a, answer f a h)
    where
      answer :
          (f : ℕ) (a : Bool)
          → ((g : ℕ) → f ≤ g → match_loop g pattern s d ≡ some a)
          → (g : ℕ) → suc f ≤ g
          → match_loop g pattern s c ≡ some a
      answer f a h zero l = absurd (omega arith)
      answer f a h (suc g) l = rw (match_loop, q, e) (h g (omega arith))

  loop-Ends : (c : Cursor) → IsHeld pattern s c → Ends c
  loop-Ends c h =
      Sinks-induction (length pattern) (length s)
        (λ q. (c : Cursor) → place c ≡ q → IsHeld pattern s c → Ends c) step (place c) c refl h
    where
      step :
          (q : Place)
          → ((r : Place)
              → Sinks (length pattern) (length s) r q
              → (c : Cursor) → place c ≡ r
              → IsHeld pattern s c
              → Ends c)
          → (c : Cursor) → place c ≡ q
          → IsHeld pattern s c
          → Ends c
      step q ih c e h = elim (Option-cases (get_elem? s c.s_index)) [
        | inl n ↦ Ends-at_end c n
        | inr (b, n) ↦ Ends-before c b (at_pattern pattern b c) n refl (λ d g. further d (
            subst (GoesDown pattern s c) g
              (at_pattern-GoesDown pattern s c h (get_elem?-some s c.s_index b n) b)))
      ]
        where
          further : (d : Cursor) → GoesDown pattern s c (goes_on d) → Ends d
          further d (hd, sinks) = elim (Option-cases (get_elem? s d.s_index)) [
            | inl n ↦ Ends-at_end d n
            | inr (b, n) ↦
                ih (place d)
                  (subst (Sinks (length pattern) (length s) (place d)) e
                    (sinks (get_elem?-some s d.s_index b n)))
                  d refl hd
          ]

-- `wildcardMatch` ends on every pattern and every text: it gives one answer, with all fuel from some
-- amount on.
pub wildcard_match-ends :
    (pattern s : Bytes)
    → (f : ℕ) × (b : Bool) × ((g : ℕ) → f ≤ g → wildcard_match g pattern s ≡ some b)
unfolding wildcard_match cursor_start
wildcard_match-ends pattern s = elim (Bool-cases (is_empty pattern)) [
  | inl t ↦ (0, is_empty s, λ g l. rw (wildcard_match, t) refl)
  | inr f ↦ elim (Bool-cases (bytes_eq pattern (codes "*") || bytes_eq s pattern)) [
    | inl t ↦ (0, true, λ g l. rw (wildcard_match, f, t) refl)
    | inr u ↦
        let (k, b, h) = loop-Ends pattern s cursor_start start_held in
        (k, b, λ g l. rw (wildcard_match, f, u) (h g l))
  ]
]
  where
    start_held : IsHeld pattern s cursor_start
    start_held = record {
      at_le = omega arith;
      is_star = λ i e. cc;
      is_eroteme = λ i e. cc;
      from_lt = λ x. x;
    }
