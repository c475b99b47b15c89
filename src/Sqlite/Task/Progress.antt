-- ===== src/Sqlite/Task/Progress.antt =====
-- What becomes of a task of sqlite/storage_scheduler.go.
use sqlog.Base.{
  ℕ, suc, ◌+◌, ◌≡◌, refl, true, false, not, Option, none, some, List, [], ◌∷◌, ltb, if◌then◌else◌,
  arith, map, if_both, if_cases, ap,
}
use sqlog.Sqlite.Task.{
  created, process, finished, Attempt, Run, is_created, has_result, set_state, complete, reschedule,
  give_up, attempt, exec, Event, runs, cancels, happens, happen, taken,
}

module _ {E : Type 0} where
  -- The count of active tasks has the task as long as its goroutine is to run; and a task that has
  -- failed once is not created any more, so that the next attempt ends it.
  record IsCounted (n : ℕ) (s : Run E) : Type 0 where
    pub counted : s.active ≡ n + (if s.pending then 1 else 0)
    pub fresh : s.pending ≡ true → is_created s.task.state ≡ true → s.retries ≡ 0
    pub silent : s.task.error ≡ none

  complete-IsCounted :
      (n : ℕ) (s : Run E) → s.active ≡ suc n → s.task.error ≡ none → IsCounted n (complete s)
  unfolding complete
  complete-IsCounted n s a e = record { counted = omega arith; fresh = λ p c. cc; silent = e }

  attempt-IsCounted :
      (n : ℕ) (a : Attempt E) (s : Run E)
      → s.active ≡ suc n
      → s.task.error ≡ none
      → s.task.state ≡ process
      → s.retries ≡ 0
      → IsCounted n (attempt a s)
  unfolding attempt reschedule set_state is_created
  attempt-IsCounted n a s act e p r =
      if_both (IsCounted n) (not a.open_before)
        (complete-IsCounted n (record (set_state created s) { scheduled = suc s.scheduled }) act e)
        (go a.failure)
    where
      go :
          (failure : Option E)
          → IsCounted n (elim failure [
            | none ↦ complete (set_state finished s)
            | some x ↦
                if not a.open_after
                then reschedule s
                else if ltb s.retries 3
                then record s { retries = suc s.retries; pending = true }
                else give_up x s
          ])
      go none = complete-IsCounted n (set_state finished s) act e
      go (some x) =
          if_both (IsCounted n) (not a.open_after)
            (complete-IsCounted n (record (set_state created s) { scheduled = suc s.scheduled }) act
              e)
            (if_cases (IsCounted n) (ltb s.retries 3)
              (λ _. record {
                counted = omega arith;
                fresh = λ _ c. absurd (ground (arith, p, c));
                silent = e;
              })
              (λ f. absurd (ground (arith, f, r))))

  happens-IsCounted : (n : ℕ) (e : Event E) (s : Run E) → IsCounted n s → IsCounted n (happens e s)
  unfolding happens exec set_state is_created
  happens-IsCounted n cancels s h = record {
    counted = h.counted;
    fresh = λ p c. cc;
    silent = h.silent;
  }
  happens-IsCounted n (runs a) s h =
      if_cases (IsCounted n) s.pending
        (λ t.
          if_cases (IsCounted n) (is_created s.task.state)
            (λ c.
              attempt-IsCounted n a (set_state process (record s { pending = false }))
                (ground (arith, h.counted, t)) h.silent refl (h.fresh t c))
            (λ f.
              complete-IsCounted n (record s { pending = false }) (ground (arith, h.counted, t))
                h.silent))
        (λ _. h)

  happen-IsCounted :
      (n : ℕ) (events : List (Event E)) (s : Run E) → IsCounted n s → IsCounted n (happen events s)
  unfolding happen
  happen-IsCounted n [] s h = h
  happen-IsCounted n (e ∷ events) s h = happen-IsCounted n events _ (happens-IsCounted n e s h)

  taken-IsCounted : (n : ℕ) → IsCounted n (taken n)
  unfolding taken
  taken-IsCounted n = record { counted = omega arith; fresh = λ p c. refl; silent = refl }

  -- Whatever the attempts meet and whenever the task is canceled: numActiveTasks counts the task as
  -- long as its goroutine is to run, and is back at what it was once no goroutine is left; and
  -- `exec` never records an error of a callback in the output.
  pub happen-counted :
      (n : ℕ) (events : List (Event E))
      → ((happen events (taken n)).active
          ≡ n + (if (happen events (taken n)).pending then 1 else 0))
        × ((happen events (taken n)).task.error ≡ none)
  happen-counted n events =
      let h = happen-IsCounted n events _ (taken-IsCounted n) in (h.counted, h.silent)

  -- In this state nothing but `Cancel` changes the task.
  happens-stuck :
      (a : Attempt E) (s : Run E)
      → s.task.state ≡ process
      → (happens (runs a) s).task.state ≡ process
  unfolding happens exec complete is_created
  happens-stuck a s h =
      if_both (λ (r : Run E). r.task.state ≡ process) s.pending
        (if_cases (λ (r : Run E). r.task.state ≡ process) (is_created s.task.state)
          (λ c. absurd (ground (arith, c, h))) (λ f. h))
        h

  happen-stuck :
      (attempts : List (Attempt E)) (s : Run E)
      → s.task.state ≡ process
      → (happen (map runs attempts) s).task.state ≡ process
  unfolding happen
  happen-stuck [] s h = h
  happen-stuck (a ∷ attempts) s h = happen-stuck attempts _ (happens-stuck a s h)

  -- A task whose callback fails once on a database that stays open is never finished: whatever the
  -- attempts after it meet, it has no result, so that `Result` answers forever that the task is
  -- scheduled, until it is canceled.
  pub happen-fails :
      (n : ℕ) (e : E) (attempts : List (Attempt E))
      → has_result
          (happen
            (runs (record { open_before = true; failure = some e; open_after = true })
              ∷ map runs attempts)
            (taken n)).task.state
        ≡ false
  unfolding happen happens exec attempt taken set_state is_created has_result
  happen-fails n e attempts = ap has_result (happen-stuck attempts _ refl)
