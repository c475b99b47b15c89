-- ===== src/Sqlite/Scheduler/Tasks.antt =====
-- What `schedule` of sqlite/storage_scheduler.go promises for its tasks, and what `Result` and
-- `Cancel` make of it.
use sqlog.Base.{
  ℕ, suc, ◌+◌, ◌^◌, ◌<◌, ◌≤◌, ◌≡◌, refl, ap, ◌∙◌, Bool, true, Option, none, some, List, [], ◌∷◌,
  ◌==◌, if◌then◌else◌, if_cases, length, All, All-map, arith,
}
use sqlog.Base.Int.{inc32}
use sqlog.Sqlite.Task.{DbTask, created, canceled, has_result}
use sqlog.Sqlite.Scheduler.{
  Scheduler, TaskAnswer, unknown, still_scheduled, output_of, find_task, delete_task, set_task,
  result, cancel_at, cancel_found, cancel_task, schedule_at, schedule_dbs,
}

module _ {E : Type 0} where
  abbrev new_task : DbTask E
  new_task = record { db = none; state = created; error = none }

  -- The storage behind one task more.
  abbrev with_task : ℕ → Scheduler E → Scheduler E
  with_task i s =
      let id = inc32 s.task_id_seq in
      record s {
        task_id_seq = id;
        task_map = (id, new_task) ∷ s.task_map;
        storage = record (s.storage) { heap = schedule_at i id s.storage.heap };
      }

  find_task_other :
      (id i : ℕ) (t : DbTask E) (tasks : List (ℕ × DbTask E))
      → id < i
      → find_task id ((i, t) ∷ tasks) ≡ find_task id tasks
  unfolding find_task
  find_task_other id i t tasks h = ground (arith, h)

  find_task_same :
      (id : ℕ) (t : DbTask E) (tasks : List (ℕ × DbTask E))
      → find_task id ((id, t) ∷ tasks) ≡ some t
  unfolding find_task
  find_task_same id t tasks = ground arith

  -- Tasks that are there already stay.
  schedule_dbs-find_task :
      (is : List ℕ) (s : Scheduler E) (id : ℕ)
      → id ≤ s.task_id_seq
      → s.task_id_seq + length is < 2 ^ 32
      → find_task id (schedule_dbs is s).1.task_map ≡ find_task id s.task_map
  unfolding schedule_dbs
  schedule_dbs-find_task [] s id h k = refl
  schedule_dbs-find_task (i ∷ is) s id h k =
      schedule_dbs-find_task is (with_task i s) id (omega (arith, h, k)) (omega (arith, k))
      ∙ find_task_other id (inc32 s.task_id_seq) new_task s.task_map (omega (arith, h, k))

  schedule_dbs-new_task :
      (is : List ℕ) (s : Scheduler E)
      → s.task_id_seq + length is < 2 ^ 32
      → All
          (λ id. find_task id (schedule_dbs is s).1.task_map ≡ some new_task)
          (schedule_dbs is s).0
        × (length (schedule_dbs is s).0 ≡ length is)
  unfolding schedule_dbs
  schedule_dbs-new_task [] s k = (tt, refl)
  schedule_dbs-new_task (i ∷ is) s k =
      let id = inc32 s.task_id_seq in
      let rest = schedule_dbs-new_task is (with_task i s) (omega (arith, k)) in
      (
        (
          schedule_dbs-find_task is (with_task i s) id (omega arith) (omega (arith, k))
              ∙ find_task_same id new_task s.task_map,
          rest.0,
        ),
        ap suc rest.1,
      )

  result-new_task :
      (id : ℕ) (s : Scheduler E)
      → find_task id s.task_map ≡ some new_task
      → result id s ≡ (still_scheduled id, s)
  unfolding result has_result
  result-new_task id s h =
      ap
        (λ (o : Option (DbTask E)). elim o as (λ _. TaskAnswer E × Scheduler E) [
          | none ↦ (unknown, s)
          | some t ↦
              if has_result t.state
              then (output_of t, record s { task_map = delete_task id s.task_map })
              else (still_scheduled id, s)
        ])
        h

  -- A task that has been canceled, and its output.
  abbrev canceled_task : DbTask E
  canceled_task = record { db = none; state = canceled; error = none }

  find_task-set_task :
      (id : ℕ) (t u : DbTask E) (tasks : List (ℕ × DbTask E))
      → find_task id tasks ≡ some u
      → find_task id (set_task id t tasks) ≡ some t
  unfolding find_task set_task
  find_task-set_task id t u [] h = absurd (ground (arith, h))
  find_task-set_task id t u ((i, v) ∷ tasks) h =
      if_cases (λ l. find_task id l ≡ some t) (i == id) (λ e. ground (arith, e))
        (λ e. ground (arith, e, find_task-set_task id t u tasks (ground (arith, e, h))))

  cancel_task-new_task :
      (id : ℕ) (s : Scheduler E)
      → find_task id s.task_map ≡ some new_task
      → cancel_task id s ≡ (true, record s { task_map = set_task id canceled_task s.task_map })
  unfolding cancel_task cancel_found cancel_at
  cancel_task-new_task id s h = ap (cancel_found id s) h

  result-canceled :
      (id : ℕ) (s : Scheduler E)
      → find_task id s.task_map ≡ some canceled_task
      → (result id s).0 ≡ output_of canceled_task
  unfolding result has_result
  result-canceled id s h =
      ap
        (λ (o : Option (DbTask E)).
          (elim o as (λ _. TaskAnswer E × Scheduler E) [
            | none ↦ (unknown, s)
            | some t ↦
                if has_result t.state
                then (output_of t, record s { task_map = delete_task id s.task_map })
                else (still_scheduled id, s)
          ]).0)
        h

  -- A task that can be asked for: it is scheduled, `Cancel` of it panics, and if the panic is
  -- recovered `Result` answers with its output, which is empty.
  pub Pending : ℕ → Scheduler E → Type 0
  Pending id s =
      (result id s ≡ (still_scheduled id, s))
      × ((cancel_task id s).0 ≡ true)
      × ((result id (cancel_task id s).1).0
          ≡ output_of (record { db = none; state = canceled; error = none }))

  new_task-Pending :
      (id : ℕ) (s : Scheduler E) → find_task id s.task_map ≡ some new_task → Pending id s
  unfolding Pending
  new_task-Pending id s h =
      let e = cancel_task-new_task id s h in
      (
        result-new_task id s h,
        ap (λ r. r.0) e,
        ap (λ (r : Bool × Scheduler E). (result id r.1).0) e
            ∙ result-canceled id _ (find_task-set_task id canceled_task new_task s.task_map h),
      )

  -- As long as the counter of the ids does not wrap around, `schedule` gives an id for each
  -- database, and the task of each id is still there behind all of them: `Result` answers that it
  -- is scheduled; `Cancel` of it panics, as the task has no database, and behind the panic `Result`
  -- answers its empty output.
  pub schedule_dbs-Pending :
      (is : List ℕ) (s : Scheduler E)
      → s.task_id_seq + length is < 2 ^ 32
      → let (ids, s') = schedule_dbs is s in
        (length ids ≡ length is) × All (λ id. Pending id s') ids
  schedule_dbs-Pending is s k =
      let (ids, s') = schedule_dbs is s in
      let (new, count) = schedule_dbs-new_task is s k in
      (count, All-map ids (λ id h. new_task-Pending id s' h) new)
