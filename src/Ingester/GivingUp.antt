-- ===== src/Ingester/GivingUp.antt =====
-- The quit branch of `routineCheck` in ingester.go, with a storage that may fail.
use mathlib.Core.List.{Sublist, sublist-append_right}
use mathlib.Core.List.Sublist
use sqlog.Base.{
  ℕ, zero, suc, ◌+◌, ◌^◌, ◌<◌, ◌≡◌, refl, sym, ap, ◌∙◌, Bool, true, false, ◌&&◌, not, Option, some,
  List, ◌∷◌, ◌++◌, append_assoc, append-nil, arith, Bool-cases, inl, inr,
}
use mathlib.Core.Path.{subst}
use sqlog.Base.Int.{pos}
use sqlog.Chunk.{Entry, Chunk, Chain, init_head, next, empty, ready, lock, depth}
use sqlog.Chunk.Invariant.{log}
use sqlog.Chunk.Writing.{logs, WritesAt}
use sqlog.Chunk.Growth.{depth-cons}
use sqlog.Ingester.{IngesterConfig, Progress, stop, beyond, shutdown_loop, retried, gives_up}
use sqlog.Ingester.Position.{
  closed-ready, WritesAt-All, WritesAt-lock, WritesAt-retried, log-retried, log-lock, closed-lock,
  logs-empty,
}
use sqlog.Ingester.Delivery.{Contract}
use sqlog.Ingester.Shutdown.{shutdown-empty, lock_same}
use sqlog.Ingester.Retries.{
  Eventually, eventually_suc, goes-Onward, empty-retried, ready-retried, Tries, Tries-all,
  Tries-none, Tries-again, shutdown-beyond, shutdown-again,
}

module _ {S : Type 0} (flush : Chunk → S → Bool × S) (stored : S → List Entry)
    (contract : Contract flush stored) (config : IngesterConfig) (m : ℕ)
    (max : config.max_flush_retry ≡ pos m) (bound : m + 1 < 2 ^ 31) where
  -- The loop has ended with no more than the entries of the chain in the storage.
  abbrev pub Ended : Chain → S → Option (Progress S) → Type 0
  Ended cs st o =
      (p : Progress S) × (o ≡ some p) × Sublist (stored p.storage) (stored st ++ logs cs)

  abbrev pub Ending : Chain → S → Type 0
  Ending cs st = Eventually (λ f. Ended cs st (shutdown_loop flush f config 0 cs st))

  -- The chunk has been persisted or is given up.
  stored_beyond :
      (b : Bool) (c : Chunk) (l : List Entry) (st : S)
      → (flush c st).0 ≡ b
      → Sublist (stored (flush c st).1 ++ l) (stored st ++ (log c ++ l))
  unfolding log
  stored_beyond false c l st h =
      subst (Sublist (stored (flush c st).1 ++ l))
        (ap (λ k. k ++ l) (contract.accepted c st h) ∙ append_assoc (stored st) (log c) l)
        (Sublist.refl (stored (flush c st).1 ++ l))
  stored_beyond true c l st h =
      subst (λ k. Sublist (k ++ l) (stored st ++ (log c ++ l))) (sym (contract.refused c st h))
        (Sublist.append (Sublist.refl (stored st)) (sublist-append_right (log c) l))

  Ended-beyond :
      (f : ℕ) (b : Bool) (c d : Chunk) (rest ds : Chain) (st : S)
      → empty c ≡ false
      → ready c ≡ true
      → (flush c st).0 ≡ b
      → b && not (gives_up config (retried b c)) ≡ false
      → next (retried b c) rest ≡ d ∷ ds
      → logs (lock d ∷ ds) ≡ logs rest
      → Ended
          (lock d ∷ ds)
          (flush c st).1
          (shutdown_loop flush f config 0 (lock d ∷ ds) (flush c st).1)
      → Ended (c ∷ rest) st (shutdown_loop flush (suc f) config 0 (c ∷ rest) st)
  unfolding beyond
  Ended-beyond f b c d rest ds st e k q g n l (p, r, h) = (
    record {
      chain = init_head (retried b c) rest ∷ p.chain;
      moved = suc p.moved;
      storage = p.storage;
    },
    rw (shutdown-beyond flush f config b c d rest ds st e k q g n, r) refl,
    Sublist.trans (subst (λ x. Sublist (stored p.storage) (stored (flush c st).1 ++ x)) l h)
        (stored_beyond b c (logs rest) st q),
  )

  Ended-again :
      (f : ℕ) (c : Chunk) (rest : Chain) (st : S)
      → empty c ≡ false
      → ready c ≡ true
      → (flush c st).0 ≡ true
      → gives_up config (retried true c) ≡ false
      → Ended
          (retried true c ∷ rest)
          (flush c st).1
          (shutdown_loop flush f config 0 (retried true c ∷ rest) (flush c st).1)
      → Ended (c ∷ rest) st (shutdown_loop flush (suc f) config 0 (c ∷ rest) st)
  Ended-again f c rest st e k q g (p, r, h) = (
    p,
    shutdown-again flush f config c rest st e k q g ∙ r,
    subst (Sublist (stored p.storage))
        (ap (λ l. l ++ logs (retried true c ∷ rest)) (contract.refused c st q)
          ∙ ap (λ l. stored st ++ (l ++ logs rest)) (log-retried true c))
        h,
  )

  -- The loop ends from each chunk whose chain is not longer.
  abbrev EndsBelow : ℕ → Type 0
  EndsBelow n =
      (w : ℕ) (d : Chunk) (ds : Chain) (st : S)
      → depth (d ∷ ds) < n
      → WritesAt w (d ∷ ds)
      → Ending (lock d ∷ ds) st

  module _ (n : ℕ) (below : EndsBelow n) (w : ℕ) (rest : Chain) where
    passes :
        (b : Bool) (c : Chunk) (st : S)
        → depth (c ∷ rest) < suc n
        → empty c ≡ false
        → ready c ≡ true
        → WritesAt w (c ∷ rest)
        → (flush c st).0 ≡ b
        → b && not (gives_up config (retried b c)) ≡ false
        → Ending (c ∷ rest) st
    passes b c st lt e k h q g =
        let e' = empty-retried b c ∙ e in
        let o = goes-Onward w (retried b c) rest e' (WritesAt-retried b c w rest h) in
        eventually_suc
          (λ f.
            Ended (lock o.head ∷ o.tail) (flush c st).1
              (shutdown_loop flush f config 0 (lock o.head ∷ o.tail) (flush c st).1))
          (λ f. Ended (c ∷ rest) st (shutdown_loop flush f config 0 (c ∷ rest) st))
          (λ f.
            Ended-beyond f b c o.head rest o.tail st e k q g o.onward
              (ap (λ l. l ++ logs o.tail) (log-lock o.head) ∙ o.same))
          (below o.write o.head o.tail (flush c st).1
            (omega (arith, lt, o.lower, depth-cons c rest e, depth-cons (retried b c) rest e'))
            o.at)

    -- A round: the chunk is passed, or tried again.
    tried :
        (c : Chunk) (st : S)
        → depth (c ∷ rest) < suc n
        → empty c ≡ false
        → ready c ≡ true
        → WritesAt w (c ∷ rest)
        → ((flush c st).0 ≡ true → gives_up config (retried true c) ≡ false → Ending (c ∷ rest) st)
        → Ending (c ∷ rest) st
    tried c st lt e r h again = elim (Bool-cases (flush c st).0) [
      | inr saved ↦ passes false c st lt e r h saved refl
      | inl failed ↦ elim (Bool-cases (gives_up config (retried true c))) [
        | inl g ↦ passes true c st lt e r h failed (rw g refl)
        | inr g ↦ again failed g
      ]
    ]

    tries :
        (k : ℕ) (c : Chunk) (st : S)
        → Tries m k c
        → depth (c ∷ rest) < suc n
        → empty c ≡ false
        → ready c ≡ true
        → WritesAt w (c ∷ rest)
        → Ending (c ∷ rest) st
    tries zero c st t lt e r h =
        tried c st lt e r h (λ failed g. absurd (Tries-none config m max bound c t g))
    tries (suc k) c st t lt e r h =
        let e' = empty-retried true c ∙ e in
        tried c st lt e r h (λ failed g.
          eventually_suc
            (λ f.
              Ended (retried true c ∷ rest) (flush c st).1
                (shutdown_loop flush f config 0 (retried true c ∷ rest) (flush c st).1))
            (λ f. Ended (c ∷ rest) st (shutdown_loop flush f config 0 (c ∷ rest) st))
            (λ f. Ended-again f c rest st e r failed g)
            (tries k (retried true c) (flush c st).1 (Tries-again config m max bound k c t g)
              (omega (arith, lt, depth-cons c rest e, depth-cons (retried true c) rest e')) e'
              (ready-retried true c ∙ r) (WritesAt-retried true c w rest h)))

  ends_empty :
      (w : ℕ) (c : Chunk) (rest : Chain) (st : S)
      → WritesAt w (c ∷ rest)
      → empty c ≡ true
      → Ending (lock c ∷ rest) st
  unfolding stop
  ends_empty w c rest st h e =
      let (none_behind, nothing) = logs-empty w c rest h e in
      eventually_suc (λ f. ℕ)
        (λ f. Ended (lock c ∷ rest) st (shutdown_loop flush f config 0 (lock c ∷ rest) st))
        (λ f _. (
          record { chain = lock c ∷ rest; moved = 0; storage = st },
          shutdown-empty flush f config 0 (lock c) rest st (lock_same c ∙ e),
          rw (log-lock c, nothing, none_behind, append-nil (stored st)) (Sublist.refl (stored st)),
        ))
        (0, λ f _. 0)

  pub ends_below : (n : ℕ) → EndsBelow n
  ends_below zero w c rest st lt h = absurd (omega (arith, lt))
  ends_below (suc n) w c rest st lt h = elim (Bool-cases (empty c)) [
    | inl e ↦ ends_empty w c rest st h e
    | inr e ↦
        let h' = WritesAt-lock w c rest e h in
        let e' = lock_same c ∙ e in
        tries n (ends_below n) w rest (2 ^ 32 + m + 1) (lock c) st (Tries-all m (lock c))
          (omega (arith, lt, depth-cons c rest e, depth-cons (lock c) rest e')) e'
          (closed-ready (lock c) (WritesAt-All w (lock c ∷ rest) h').0 e' (closed-lock c)) h'
  ]
