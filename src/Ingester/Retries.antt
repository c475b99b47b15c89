-- ===== src/Ingester/Retries.antt =====
-- One chunk in the quit branch of `routineCheck` in ingester.go: how often its flush is tried again,
-- and what is behind it.
use sqlog.Base.{
  ℕ, zero, suc, ◌+◌, ◌^◌, ◌≤◌, ◌<◌, ◌≡◌, refl, sym, ap, ◌∙◌, Bool, true, false, ◌&&◌, not, ◌∷◌,
  arith, Bool-cases, ltb, ◌⊎◌, inl, inr,
}
use mathlib.Core.Path.{subst}
use sqlog.Base.Int.{pos, inc32, int32, ltb_ℤ}
use sqlog.Chunk.{Chunk, Chain, init_head, next, empty, ready, lock, depth}
use sqlog.Chunk.Invariant.{IsBlank}
use sqlog.Chunk.Writing.{logs, logs-blank, IsWritable-blank, WritesAt}
use sqlog.Chunk.Growth.{
  Grown, IsWf-HasCap, next-Grown, WritesAt-Grown, logs-Grown, All-Grown, depth-Grown, depth-cons,
  depth-blank,
}
use sqlog.Ingester.{IngesterConfig, beyond, shutdown_loop, lock_head, retried, gives_up}
use sqlog.Ingester.Position.{cons_of_ne}

-- From some amount of fuel on.
abbrev pub Eventually : (ℕ → Type 0) → Type 0
Eventually P = (n : ℕ) × ((f : ℕ) → n ≤ f → P f)

-- One round more.
pub eventually_suc : (P Q : ℕ → Type 0) → ((f : ℕ) → P f → Q (suc f)) → Eventually P → Eventually Q
eventually_suc P Q step (n, h) = (suc n, λ f. at f)
  where
    at : (f : ℕ) → suc n ≤ f → Q f
    at zero l = absurd (omega (arith, l))
    at (suc f) l = step f (h f (omega (arith, l)))

-- The chunk behind one that is left.
pub record Onward (c : Chunk) (rest : Chain) : Type 0 where
  pub head : Chunk
  pub tail : Chain
  pub write : ℕ
  pub onward : next c rest ≡ head ∷ tail
  pub at : WritesAt write (head ∷ tail)
  pub lower : depth (head ∷ tail) < depth (c ∷ rest)
  pub same : logs (head ∷ tail) ≡ logs rest

pub goes-Onward :
    (w : ℕ) (c : Chunk) (rest : Chain) → empty c ≡ false → WritesAt w (c ∷ rest) → Onward c rest
goes-Onward zero c rest e h =
    let (_, g, ne) = next-Grown c rest (IsWf-HasCap h.wf) in
    let (d, ds, q) = cons_of_ne (next c rest) ne in
    let b = All-Grown (subst (Grown rest) q g) IsBlank (λ c b. b) h.ahead in
    record {
      head = d;
      tail = ds;
      write = 0;
      onward = q;
      at = IsWritable-blank b.0 b.1;
      lower = omega (arith, depth-blank (d ∷ ds) b, depth-cons c rest e);
      same = logs-blank (d ∷ ds) b ∙ sym (logs-blank rest h.ahead);
    }
goes-Onward (suc w) c rest e (wf, cl, h) =
    let (_, g, ne) = next-Grown c rest (IsWf-HasCap wf) in
    let (d, ds, q) = cons_of_ne (next c rest) ne in
    let g' = subst (Grown rest) q g in
    record {
      head = d;
      tail = ds;
      write = w;
      onward = q;
      at = WritesAt-Grown g' w h;
      lower = omega (arith, depth-Grown g', depth-cons c rest e);
      same = logs-Grown g';
    }

pub empty-retried : (b : Bool) (c : Chunk) → empty (retried b c) ≡ empty c
unfolding retried empty
empty-retried true c = refl
empty-retried false c = refl

pub ready-retried : (b : Bool) (c : Chunk) → ready (retried b c) ≡ ready c
unfolding retried ready
ready-retried true c = refl
ready-retried false c = refl

-- After at most `k` failures more a chunk is given up, which has at most `m` retries.
pub record Tries (m k : ℕ) (c : Chunk) : Type 0 where
  few : inc32 c.retries ≤ m → m + 1 ≤ inc32 c.retries + k
  negative : 2 ^ 31 ≤ inc32 c.retries → 2 ^ 32 + m + 1 ≤ inc32 c.retries + k

pub Tries-all : (m : ℕ) (c : Chunk) → Tries m (2 ^ 32 + m + 1) c
Tries-all m c = record { few = λ h. omega arith; negative = λ h. omega arith }

still_trying : (m n : ℕ) → ltb_ℤ (pos m) (int32 n) ≡ false → (n ≤ m) ⊎ (2 ^ 31 ≤ n)
still_trying m n h = elim (Bool-cases (ltb n (2 ^ 31))) [
  | inl small ↦ inl (ground (arith, small, h))
  | inr large ↦ inr (ground (arith, large))
]

module _ (config : IngesterConfig) (m : ℕ) (max : config.max_flush_retry ≡ pos m)
    (bound : m + 1 < 2 ^ 31) where
  kept_trying :
      (c : Chunk)
      → gives_up config (retried true c) ≡ false
      → ltb_ℤ (pos m) (int32 (inc32 c.retries)) ≡ false
  unfolding gives_up retried
  kept_trying c g = ap (λ z. ltb_ℤ z (int32 (inc32 c.retries))) (sym max) ∙ g

  pub Tries-none : (c : Chunk) → Tries m 0 c → gives_up config (retried true c) ≡ false → ⊥
  Tries-none c t g = elim (still_trying m (inc32 c.retries) (kept_trying c g)) [
    | inl few ↦ omega (arith, few, t.few few)
    | inr negative ↦ omega (arith, negative, t.negative negative, bound)
  ]

  pub Tries-again :
      (k : ℕ) (c : Chunk)
      → Tries m (suc k) c
      → gives_up config (retried true c) ≡ false
      → Tries m k (retried true c)
  unfolding retried
  Tries-again k c t g = elim (still_trying m (inc32 c.retries) (kept_trying c g)) [
    | inl few ↦ record {
      few = λ h. omega (arith, few, t.few few, h, bound);
      negative = λ h. absurd (omega (arith, few, h, bound));
    }
    | inr negative ↦ record {
      few = λ h. omega (arith, negative, t.negative negative, h, bound);
      negative = λ h. omega (arith, negative, t.negative negative, h, bound);
    }
  ]

module _ {S : Type 0} (flush : Chunk → S → Bool × S) where
  pub shutdown-beyond :
      (f : ℕ) (config : IngesterConfig) (b : Bool) (c d : Chunk) (rest ds : Chain) (st : S)
      → empty c ≡ false
      → ready c ≡ true
      → (flush c st).0 ≡ b
      → b && not (gives_up config (retried b c)) ≡ false
      → next (retried b c) rest ≡ d ∷ ds
      → shutdown_loop flush (suc f) config 0 (c ∷ rest) st
        ≡ beyond
            (init_head (retried b c) rest)
            (shutdown_loop flush f config 0 (lock d ∷ ds) (flush c st).1)
  unfolding shutdown_loop lock_head
  shutdown-beyond f config b c d rest ds st h k q g n = rw (h, k, q, g, n)

  pub shutdown-again :
      (f : ℕ) (config : IngesterConfig) (c : Chunk) (rest : Chain) (st : S)
      → empty c ≡ false
      → ready c ≡ true
      → (flush c st).0 ≡ true
      → gives_up config (retried true c) ≡ false
      → shutdown_loop flush (suc f) config 0 (c ∷ rest) st
        ≡ shutdown_loop flush f config 0 (retried true c ∷ rest) (flush c st).1
  unfolding shutdown_loop
  shutdown-again f config c rest st h k q g = rw (h, k, q, g)
