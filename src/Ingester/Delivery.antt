-- ===== src/Ingester/Delivery.antt =====
-- The loops of `doRoutineCheck` in ingester.go against the contract of a storage: what has been
-- flushed and what is still in memory.
use sqlog.Base.{
  ℕ, zero, suc, ◌+◌, ◌%◌, ◌≤◌, ◌<◌, ◌≡◌, refl, ap, sym, ◌∙◌, Bool, true, false, ◌&&◌, not, Option,
  some, List, ◌∷◌, ◌++◌, append_assoc, arith, Bool-cases, inl, inr, drop,
}
use mathlib.Core.Bool.{false≢true}
use sqlog.Chunk.{Time, Entry, Chunk, Chain, init, empty, depth, ready, list}
use sqlog.Chunk.Invariant.{log, IsBlank, present}
use sqlog.Chunk.Writing.{logs, IsWritable, WritesAt}
use sqlog.Chunk.Growth.{
  Grown, depth-Grown, logs-Grown, WritesAt-Grown, All-Grown, depth-cons, depth-blank, depth-empty,
  empty-blank,
}
use sqlog.Ingester.{
  IngesterConfig, Progress, maintain, retried, gives_up, leave, stop, beyond, check_loop,
}
use sqlog.Ingester.Position.{
  Positions, Positions-start, ready-closed, WritesAt-All, IsWf-retried, closed-retried, log-retried,
  WritesAt-retried, maintain-keeps, maintain-short, leave-Grown,
}

-- What `Flush` of the interface `Storage` promises: to have persisted the entries of the chunk, or
-- to have failed and persisted nothing. `stored` lists what has been persisted, oldest first.
pub record Contract {S : Type 0} (flush : Chunk → S → Bool × S) (stored : S → List Entry)
    : Type 0 where
  pub accepted :
      (c : Chunk) (st : S)
      → (flush c st).0 ≡ false
      → stored (flush c st).1 ≡ stored st ++ present (list c)
  pub refused : (c : Chunk) (st : S) → (flush c st).0 ≡ true → stored (flush c st).1 ≡ stored st

-- How the entries that are left after a step relate to those before it.
pub record Relation (R : List Entry → List Entry → Type 0) : Type 0 where
  pub same : (l : List Entry) → R l l
  pub chain : {l m n : List Entry} → R l m → R m n → R l n

module _ {S : Type 0} (flush : Chunk → S → Bool × S) (stored : S → List Entry)
    (contract : Contract flush stored) (R : List Entry → List Entry → Type 0) (rel : Relation R)
    (loses : (c : Chunk) (st : S)
      → (flush c st).0 ≡ true
      → (l r : List Entry) → R (l ++ r) (l ++ (log c ++ r)))
    (config : IngesterConfig) (now : Time) where
  -- No flush fails.
  abbrev pub IsReliable : Type 0
  IsReliable = (c : Chunk) (st : S) → (flush c st).0 ≡ false

  -- The result of a loop on the chain `cs`, with the write pointer at number `w`.
  pub record Checked (w : ℕ) (cs : Chain) (st : S) (p : Progress S) : Type 0 where
    pub at : Positions p.moved w p.chain
    pub kept : R (stored p.storage ++ logs (drop p.moved p.chain)) (stored st ++ logs cs)
    pub short : IsReliable → depth (drop p.moved p.chain) ≤ 1

  abbrev pub Result : ℕ → Chain → S → Option (Progress S) → Type 0
  Result w cs st o = (p : Progress S) × (o ≡ some p) × Checked w cs st p

  -- The branches of one round.
  step_empty :
      (f : ℕ) (c : Chunk) (rest : Chain) (st : S)
      → empty c ≡ true
      → check_loop flush (suc f) config now (c ∷ rest) st ≡ stop (c ∷ rest) st
  unfolding check_loop
  step_empty f c rest st h = rw h

  step_maintain :
      (f : ℕ) (c : Chunk) (rest : Chain) (st : S)
      → empty c ≡ false
      → ready c ≡ false
      → check_loop flush (suc f) config now (c ∷ rest) st ≡ stop (maintain config now c rest) st
  unfolding check_loop
  step_maintain f c rest st h k = rw (h, k)

  step_refused :
      (f : ℕ) (c : Chunk) (rest : Chain) (st : S)
      → empty c ≡ false
      → ready c ≡ true
      → (flush c st).0 ≡ true
      → gives_up config (retried true c) ≡ false
      → check_loop flush (suc f) config now (c ∷ rest) st
        ≡ stop (retried true c ∷ rest) (flush c st).1
  unfolding check_loop
  step_refused f c rest st h k b g = rw (h, k, b, g)

  step_beyond :
      (f : ℕ) (c d : Chunk) (rest ds : Chain) (st : S) (b : Bool)
      → empty c ≡ false
      → ready c ≡ true
      → (flush c st).0 ≡ b
      → b && not (gives_up config (retried b c)) ≡ false
      → leave (init ((config.chunks + 1) % 256) (retried b c ∷ rest)) (retried b c)
        ≡ (retried b c, d ∷ ds)
      → check_loop flush (suc f) config now (c ∷ rest) st
        ≡ beyond (retried b c) (check_loop flush f config now (d ∷ ds) (flush c st).1)
  unfolding check_loop
  step_beyond f c d rest ds st b h k q g l = rw (h, k, q, g, l)

  stopped :
      (w : ℕ) (cs ds : Chain) (st st' : S)
      → WritesAt w ds
      → logs ds ≡ logs cs
      → stored st' ≡ stored st
      → (IsReliable → depth ds ≤ 1)
      → Result w cs st (stop ds st')
  unfolding stop
  stopped w cs ds st st' h q r short = (
    _,
    refl,
    record { at = Positions-start w ds h; kept = rw (q, r) (rel.same _); short = short },
  )

  -- A chunk that is passed was persisted, or is lost as `loses` says.
  kept_beyond :
      (b : Bool) (c : Chunk) (rest ds : Chain) (st : S) (l : List Entry)
      → (flush c st).0 ≡ b
      → logs ds ≡ logs rest
      → R l (stored (flush c st).1 ++ logs ds)
      → R l (stored st ++ logs (c ∷ rest))
  unfolding log
  kept_beyond false c rest ds st l h q r =
      rw (← q) (rw (contract.accepted c st h, append_assoc) at r)
  kept_beyond true c rest ds st l h q r =
      rel.chain (rw (contract.refused c st h, q) at r) (loses c st h (stored st) (logs rest))

  abbrev pub Induction : ℕ → Type 0
  Induction f =
      (w : ℕ) (c : Chunk) (rest : Chain) (st : S)
      → depth (c ∷ rest) < f
      → WritesAt w (c ∷ rest)
      → Result w (c ∷ rest) st (check_loop flush f config now (c ∷ rest) st)

  pub stops_blank :
      (f : ℕ) (d : Chunk) (ds : Chain) (st : S)
      → IsBlank d
      → 0 < f
      → check_loop flush f config now (d ∷ ds) st ≡ stop (d ∷ ds) st
  stops_blank zero d ds st b h = absurd (omega arith)
  stops_blank (suc f) d ds st b h = step_empty f d ds st (empty-blank b)

  -- A round that goes on to the next chunk.
  module _ (f : ℕ) (c : Chunk) (rest : Chain) (st : S) (b : Bool) (e : empty c ≡ false)
      (k : ready c ≡ true) (q : (flush c st).0 ≡ b)
      (g : b && not (gives_up config (retried b c)) ≡ false) (fuel : depth (c ∷ rest) < suc f) where
    depth_next : {ds : Chain} → Grown rest ds → depth ds < f
    depth_next gr = omega (arith, depth-Grown gr, depth-cons c rest e)

    -- The write pointer stands on the chunk: the next one is blank, and the loop ends there.
    goes_on_last :
        IsWritable c rest
        → Result 0 (c ∷ rest) st (check_loop flush (suc f) config now (c ∷ rest) st)
    unfolding beyond stop
    goes_on_last h =
        let (d, ds, gr, l) =
          leave-Grown _ (retried b c) rest (IsWf-retried b c h.wf)
            (WritesAt-All 0 (c ∷ rest) h).1 in
        let blank = All-Grown gr IsBlank (λ c b. b) h.ahead in
        let h' = WritesAt-retried b c 0 rest h in
        let p : Progress S = record {
          chain = retried b c ∷ d ∷ ds;
          moved = 1;
          storage = (flush c st).1;
        } in
        (
          p,
          rw
              (
                step_beyond f c d rest ds st b e k q g l,
                stops_blank f d ds (flush c st).1 blank.0 (omega (arith, depth_next gr)),
              )
              refl,
          record {
            at = (
              record { wf = h'.wf; room = h'.room; ahead = blank },
              closed-retried b c (ready-closed c h.wf k),
              refl,
              λ z. cc,
            );
            kept = kept_beyond b c rest (d ∷ ds) st _ q (logs-Grown gr) (rel.same _);
            short = λ _. omega (arith, depth-blank (d ∷ ds) blank);
          },
        )

    goes_on :
        (w : ℕ)
        → Induction f
        → WritesAt (suc w) (c ∷ rest)
        → Result (suc w) (c ∷ rest) st (check_loop flush (suc f) config now (c ∷ rest) st)
    unfolding beyond
    goes_on w ih (wf, cl, h) =
        let (d, ds, gr, l) =
          leave-Grown _ (retried b c) rest (IsWf-retried b c wf) (WritesAt-All w rest h) in
        let (p, eq, chk) = ih w d ds (flush c st).1 (depth_next gr) (WritesAt-Grown gr w h) in
        let p' : Progress S = record {
          chain = retried b c ∷ p.chain;
          moved = suc p.moved;
          storage = p.storage;
        } in
        (
          p',
          rw (step_beyond f c d rest ds st b e k q g l, eq) refl,
          record {
            at = (IsWf-retried b c wf, closed-retried b c cl, chk.at);
            kept = kept_beyond b c rest (d ∷ ds) st _ q (logs-Grown gr) chk.kept;
            short = chk.short;
          },
        )

  goes_on_any :
      (f w : ℕ) (c : Chunk) (rest : Chain) (st : S) (b : Bool)
      → Induction f
      → depth (c ∷ rest) < suc f
      → WritesAt w (c ∷ rest)
      → empty c ≡ false
      → ready c ≡ true
      → (flush c st).0 ≡ b
      → b && not (gives_up config (retried b c)) ≡ false
      → Result w (c ∷ rest) st (check_loop flush (suc f) config now (c ∷ rest) st)
  goes_on_any f zero c rest st b ih lt h e k q g = goes_on_last f c rest st b e k q g lt h
  goes_on_any f (suc w) c rest st b ih lt h e k q g = goes_on f c rest st b e k q g lt w ih h

  -- The loop ends within a round for each chunk that holds entries and one more.
  pub check_loop-Checked : (f : ℕ) → Induction f
  check_loop-Checked zero w c rest st lt h = absurd (omega arith)
  check_loop-Checked (suc f) w c rest st lt h = elim (Bool-cases (empty c)) [
    | inl e ↦
        rw (step_empty f c rest st e) (stopped w _ _ st st h refl refl (λ _. depth-empty c rest e))
    | inr e ↦ elim (Bool-cases (ready c)) [
      | inr k ↦
          let m = maintain-keeps config now w c rest e h in
          rw (step_maintain f c rest st e k)
            (stopped w _ _ st st m.0 m.1 refl (λ _. maintain-short config now w c rest h e k))
      | inl k ↦ elim (Bool-cases (flush c st).0) [
        | inr q ↦ goes_on_any f w c rest st false (check_loop-Checked f) lt h e k q refl
        | inl q ↦ elim (Bool-cases (gives_up config (retried true c))) [
          | inl g ↦ goes_on_any f w c rest st true (check_loop-Checked f) lt h e k q (rw g)
          | inr g ↦ rw (step_refused f c rest st e k q g) (
              stopped w _ _ st _ (WritesAt-retried true c w rest h)
                (ap (λ l. l ++ logs rest) (log-retried true c)) (contract.refused c st q)
                (λ ok. absurd (false≢true (sym (ok c st) ∙ q))))
        ]
      ]
    ]
  ]
