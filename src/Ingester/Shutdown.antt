-- ===== src/Ingester/Shutdown.antt =====
-- The quit branch of `routineCheck` in ingester.go: what `Close` writes out, and where it hangs.
use sqlog.Base.{
  ℕ, zero, suc, ◌<◌, ◌≡◌, refl, sym, ◌∙◌, Bool, true, false, Option, none, some, List, [], ◌∷◌,
  ◌++◌, append-nil, append_assoc, arith, Bool-cases, inl, inr,
}
use mathlib.Core.Path.{subst}
use sqlog.Chunk.{Entry, Chunk, Chain, init_head, next, empty, ready, lock, depth}
use sqlog.Chunk.Invariant.{log, IsBlank}
use sqlog.Chunk.Writing.{logs, logs-blank, IsWritable-blank, WritesAt}
use sqlog.Chunk.Growth.{
  Grown, IsWf-HasCap, next-Grown, WritesAt-Grown, logs-Grown, All-Grown, depth-Grown, depth-cons,
  depth-blank,
}
use sqlog.Ingester.{IngesterConfig, Progress, stop, beyond, shutdown_loop, lock_head, retried}
use sqlog.Ingester.Position.{
  closed-ready, WritesAt-lock, log-lock, closed-lock, logs-empty, cons_of_ne,
}
use sqlog.Ingester.Delivery.{Contract}

empty-lock : (c : Chunk) → 0 < c.book → empty (lock c) ≡ false
unfolding empty lock
empty-lock c h = ground arith

unready-lock : (c : Chunk) → c.write < c.book → c.write < c.cap → ready (lock c) ≡ false
unfolding ready lock
unready-lock c h k = ground arith

pub lock_same : (c : Chunk) → empty (lock c) ≡ empty c
unfolding empty lock
lock_same c = refl

module _ {S : Type 0} (flush : Chunk → S → Bool × S) where
  -- A chunk that holds a slot which is booked and never written keeps `Close` waiting forever: the
  -- counter `t` is reset in each round, so the branch that would skip the chunk is never taken.
  pub shutdown_loop-hangs :
      (fuel : ℕ) (config : IngesterConfig) (c : Chunk) (rest : Chain) (st : S)
      → 0 < c.book
      → c.write < c.book
      → c.write < c.cap
      → shutdown_loop flush fuel config 0 (lock c ∷ rest) st ≡ none
  unfolding shutdown_loop lock
  shutdown_loop-hangs zero config c rest st b w k = refl
  shutdown_loop-hangs (suc f) config c rest st b w k =
      rw (empty-lock c b, unready-lock c w k) (shutdown_loop-hangs f config c rest st b w k)

  pub shutdown-empty :
      (f : ℕ) (config : IngesterConfig) (t : ℕ) (c : Chunk) (rest : Chain) (st : S)
      → empty c ≡ true
      → shutdown_loop flush (suc f) config t (c ∷ rest) st ≡ stop (c ∷ rest) st
  unfolding shutdown_loop
  shutdown-empty f config t c rest st h = rw h

  shutdown-flushes :
      (f : ℕ) (config : IngesterConfig) (t : ℕ) (c d : Chunk) (rest ds : Chain) (st : S)
      → empty c ≡ false
      → ready c ≡ true
      → (flush c st).0 ≡ false
      → next c rest ≡ d ∷ ds
      → shutdown_loop flush (suc f) config t (c ∷ rest) st
        ≡ beyond (init_head c rest) (shutdown_loop flush f config t (lock d ∷ ds) (flush c st).1)
  unfolding shutdown_loop retried lock_head
  shutdown-flushes f config t c d rest ds st h k q n = rw (h, k, q, n)

module _ {S : Type 0} (flush : Chunk → S → Bool × S) (stored : S → List Entry)
    (contract : Contract flush stored) (reliable : (c : Chunk) (st : S) → (flush c st).0 ≡ false)
    (config : IngesterConfig) where
  -- The loop ended with everything of the chain `cs` in the storage.
  abbrev pub Drained : Chain → S → Option (Progress S) → Type 0
  Drained cs st o = (p : Progress S) × (o ≡ some p) × (stored p.storage ≡ stored st ++ logs cs)

  -- Behind the last chunk that holds entries the loop stops at once.
  Drained-blank :
      (f t : ℕ) (d : Chunk) (ds : Chain) (st : S)
      → empty (lock d) ≡ true
      → logs (lock d ∷ ds) ≡ []
      → 0 < f
      → Drained (lock d ∷ ds) st (shutdown_loop flush f config t (lock d ∷ ds) st)
  unfolding stop
  Drained-blank zero t d ds st e l h = absurd (omega arith)
  Drained-blank (suc f) t d ds st e l h = (
    record { chain = lock d ∷ ds; moved = 0; storage = st },
    shutdown-empty flush f config t (lock d) ds st e,
    rw l (sym (append-nil (stored st))),
  )

  -- A chunk that is flushed, and the rest of the chain drained.
  Drained-step :
      (f t : ℕ) (c d : Chunk) (rest ds : Chain) (st : S)
      → empty (lock c) ≡ false
      → ready (lock c) ≡ true
      → next (lock c) rest ≡ d ∷ ds
      → logs (lock d ∷ ds) ≡ logs rest
      → Drained
          (lock d ∷ ds)
          (flush (lock c) st).1
          (shutdown_loop flush f config t (lock d ∷ ds) (flush (lock c) st).1)
      → Drained (lock c ∷ rest) st (shutdown_loop flush (suc f) config t (lock c ∷ rest) st)
  unfolding beyond log
  Drained-step f t c d rest ds st e k n l (p, q, h) = (
    record { chain = init_head (lock c) rest ∷ p.chain; moved = suc p.moved; storage = p.storage },
    rw (shutdown-flushes flush f config t (lock c) d rest ds st e k (reliable (lock c) st) n, q)
        refl,
    h ∙ rw (contract.accepted (lock c) st (reliable (lock c) st), l, append_assoc) refl,
  )

  Drained-empty :
      (f t w : ℕ) (c : Chunk) (rest : Chain) (st : S)
      → WritesAt w (c ∷ rest)
      → empty c ≡ true
      → 0 < f
      → Drained (lock c ∷ rest) st (shutdown_loop flush f config t (lock c ∷ rest) st)
  Drained-empty f t w c rest st h e lt =
      let (none_behind, nothing) = logs-empty w c rest h e in
      Drained-blank f t c rest st (lock_same c ∙ e) (rw (log-lock c, nothing) none_behind) lt

  drains-locked :
      (f t w : ℕ) (c : Chunk) (rest : Chain) (st : S)
      → ((v : ℕ) (d : Chunk) (ds : Chain) (st : S)
          → depth (d ∷ ds) < f
          → WritesAt v (d ∷ ds)
          → Drained (lock d ∷ ds) st (shutdown_loop flush f config t (lock d ∷ ds) st))
      → depth (c ∷ rest) < suc f
      → empty c ≡ false
      → WritesAt w (lock c ∷ rest)
      → Drained (lock c ∷ rest) st (shutdown_loop flush (suc f) config t (lock c ∷ rest) st)
  drains-locked f t zero c rest st ih lt e h =
      let (_, g, ne) = next-Grown (lock c) rest (IsWf-HasCap h.wf) in
      let (d, ds, q) = cons_of_ne (next (lock c) rest) ne in
      let b = All-Grown (subst (Grown rest) q g) IsBlank (λ c b. b) h.ahead in
      let l = logs-blank (d ∷ ds) b in
      Drained-step f t c d rest ds st (lock_same c ∙ e)
        (closed-ready (lock c) h.wf (lock_same c ∙ e) (closed-lock c)) q
        (rw (log-lock d) (l ∙ sym (logs-blank rest h.ahead)))
        (ih zero d ds (flush (lock c) st).1
          (omega (arith, depth-blank (d ∷ ds) b, depth-cons c rest e)) (IsWritable-blank b.0 b.1))
  drains-locked f t (suc w) c rest st ih lt e (wf, cl, h) =
      let (_, g, ne) = next-Grown (lock c) rest (IsWf-HasCap wf) in
      let (d, ds, q) = cons_of_ne (next (lock c) rest) ne in
      let g' = subst (Grown rest) q g in
      Drained-step f t c d rest ds st (lock_same c ∙ e)
        (closed-ready (lock c) wf (lock_same c ∙ e) cl) q (rw (log-lock d) (logs-Grown g'))
        (ih w d ds (flush (lock c) st).1 (omega (arith, depth-Grown g', depth-cons c rest e))
          (WritesAt-Grown g' w h))

  pub drains :
      (f t w : ℕ) (c : Chunk) (rest : Chain) (st : S)
      → depth (c ∷ rest) < f
      → WritesAt w (c ∷ rest)
      → Drained (lock c ∷ rest) st (shutdown_loop flush f config t (lock c ∷ rest) st)
  drains zero t w c rest st lt h = absurd (omega arith)
  drains (suc f) t w c rest st lt h = elim (Bool-cases (empty c)) [
    | inl e ↦ Drained-empty (suc f) t w c rest st h e (omega arith)
    | inr e ↦ drains-locked f t w c rest st (drains f t) lt e (WritesAt-lock w c rest e h)
  ]
