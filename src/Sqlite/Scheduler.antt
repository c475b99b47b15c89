-- ===== src/Sqlite/Scheduler.antt =====
-- sqlite/storage_scheduler.go: the tasks of the storage, and a round of the routine that runs them,
-- closes idle databases and opens those with tasks. A task's run is `Sqlite.Task`.
pub mod Tasks
pub mod Limits
pub mod Keeping
pub mod Running
pub mod Opening
mod Tests
use sqlog.Base.{
  ℕ, zero, suc, ◌+◌, ◌-◌, ◌*◌, ◌/◌, max, Bool, true, false, not, ◌&&◌, Option, none, some, List, [],
  ◌∷◌, ◌++◌, ltb, ◌==◌, if◌then◌else◌, Bytes, length, get_elem?,
}
use sqlog.Base.Int.{ℤ, pos, pos_part, ltb_ℤ, ◌-ℤ◌, ◌+ℤ◌, int32, inc32}
use sqlog.Sqlite.Db.{
  StorageDb, Dial, connect, is_open, schedule, cancel, execute, close_safe, last_query_sec, FileOp,
}
use sqlog.Sqlite.Databases.{less}
use sqlog.Sqlite.Storage.{Storage, set_at}
use sqlog.Sqlite.Storage.Config.{StorageConfig}
use sqlog.Sqlite.Task.{DbTask, created, canceled, has_result}

-- The tasks are stored by their numbers; `task_id_seq` is the bit pattern of an int32.
pub record Scheduler (E : Type 0) : Type 0 where
  pub storage : Storage
  pub task_id_seq : ℕ
  pub task_map : List (ℕ × DbTask E)
  pub num_active : ℕ

-- What Result answers: nil, that the task is scheduled, or the output of the task.
pub data TaskAnswer (E : Type 0) : Type 0 where
  unknown : TaskAnswer E
  still_scheduled : ℕ → TaskAnswer E
  output_of : DbTask E → TaskAnswer E

unfoldable pub schedule_at : ℕ → ℕ → List StorageDb → List StorageDb
unfolding schedule set_at
schedule_at i id heap = elim (get_elem? heap i) [
  | none ↦ heap
  | some d ↦ set_at i (schedule id d) heap
]

-- task.db.cancel(taskId): the databases behind it, and none if it panics, which a method does
-- that reads a field of a nil pointer.
unfoldable pub cancel_at : Option ℕ → ℕ → List StorageDb → Option (List StorageDb)
unfolding cancel set_at
cancel_at none id heap = none
cancel_at (some i) id heap = elim (get_elem? heap i) [
  | none ↦ none
  | some d ↦ some (set_at i (cancel id d).1 heap)
]

module _ {E : Type 0} where
  unfoldable pub find_task : ℕ → List (ℕ × DbTask E) → Option (DbTask E)
  find_task id [] = none
  find_task id ((i, t) ∷ tasks) = let rest = find_task id tasks in if i == id then some t else rest

  unfoldable pub delete_task : ℕ → List (ℕ × DbTask E) → List (ℕ × DbTask E)
  delete_task id [] = []
  delete_task id ((i, t) ∷ tasks) =
      let rest = delete_task id tasks in if i == id then rest else (i, t) ∷ rest

  unfoldable pub result : ℕ → Scheduler E → TaskAnswer E × Scheduler E
  unfolding find_task delete_task has_result
  result id s = elim (find_task id s.task_map) [
    | none ↦ (unknown, s)
    | some t ↦
        if has_result t.state
        then (output_of t, record s { task_map = delete_task id s.task_map })
        else (still_scheduled id, s)
  ]

  unfoldable pub set_task : ℕ → DbTask E → List (ℕ × DbTask E) → List (ℕ × DbTask E)
  set_task id t [] = []
  set_task id t ((i, u) ∷ tasks) =
      let rest = set_task id t tasks in if i == id then (i, t) ∷ tasks else (i, u) ∷ rest

  unfoldable pub cancel_found : ℕ → Scheduler E → Option (DbTask E) → Bool × Scheduler E
  unfolding set_task delete_task cancel_at
  cancel_found id s none = (false, s)
  cancel_found id s (some t) =
      let tasks = set_task id (record t { state = canceled }) s.task_map in
      elim (cancel_at t.db id s.storage.heap) [
        | none ↦ (true, record s { task_map = tasks })
        | some heap ↦ (
          false,
          record s {
            task_map = delete_task id tasks;
            storage = record (s.storage) { heap = heap };
          },
        )
      ]

  -- `Cancel`: whether it panics, and the scheduler; the state of the task is set before, and the
  -- task is deleted behind.
  unfoldable pub cancel_task : ℕ → Scheduler E → Bool × Scheduler E
  unfolding find_task cancel_found
  cancel_task id s = cancel_found id s (find_task id s.task_map)

  -- `schedule`: a task for each database.
  unfoldable pub schedule_dbs : List ℕ → Scheduler E → List ℕ × Scheduler E
  unfolding schedule_at
  schedule_dbs [] s = ([], s)
  schedule_dbs (i ∷ is) s =
      let id = inc32 s.task_id_seq in
      let (ids, s') = schedule_dbs is (record s {
        task_id_seq = id;
        task_map = (id, record { db = none; state = created; error = none }) ∷ s.task_map;
        storage = record (s.storage) { heap = schedule_at i id s.storage.heap };
      }) in
      (id ∷ ids, s')

-- What a round gathers of the databases.
pub record Gathered : Type 0 where
  pub total_tasks : ℕ
  pub total_open : ℕ
  pub open_with_tasks : List ℕ
  pub open_without_task : List ℕ
  pub closed_with_tasks : List ℕ

-- One more database, in front.
unfoldable pub gather_one : ℕ → StorageDb → Gathered → Gathered
unfolding is_open
gather_one i d g =
    let tasks = d.task_count in
    if is_open d
    then (if ltb 0 tasks
        then record g {
          total_tasks = tasks + g.total_tasks;
          total_open = suc g.total_open;
          open_with_tasks = i ∷ g.open_with_tasks;
        }
        else record g {
          total_open = suc g.total_open;
          open_without_task = i ∷ g.open_without_task;
        })
    else (if ltb 0 tasks
        then record g {
          total_tasks = tasks + g.total_tasks;
          closed_with_tasks = i ∷ g.closed_with_tasks;
        }
        else g)

unfoldable pub gather : List StorageDb → List ℕ → Gathered
unfolding gather_one
gather heap [] = record {
  total_tasks = 0;
  total_open = 0;
  open_with_tasks = [];
  open_without_task = [];
  closed_with_tasks = [];
}
gather heap (i ∷ is) = elim (get_elem? heap i) [
  | none ↦ gather heap is
  | some d ↦ gather_one i d (gather heap is)
]

-- max(1, numTasks/totalTasks*qtMaxTasks)
unfoldable pub max_for_db : ℕ → ℕ → ℕ → ℕ
max_for_db num_tasks total_tasks qt_max_tasks = max 1 (num_tasks / total_tasks * qt_max_tasks)

-- The tasks of the open databases that are taken up, and the databases without them.
unfoldable pub execute_dbs : ℕ → ℕ → List ℕ → List StorageDb → List ℕ × List StorageDb
unfolding max_for_db execute set_at
execute_dbs total qt [] heap = ([], heap)
execute_dbs total qt (i ∷ is) heap = elim (get_elem? heap i) [
  | none ↦ execute_dbs total qt is heap
  | some d ↦
      let (taken, d') = execute (max_for_db d.task_count total qt - 1) d.task_map d in
      let (more, heap') = execute_dbs total qt is (set_at i d' heap) in
      if d.task_count == 0 then execute_dbs total qt is heap else (taken ++ more, heap')
]

-- How many databases are open, whether one has been closed, and the databases.
pub record Closing : Type 0 where
  pub total_open : ℤ
  pub closed_any : Bool
  pub ops : List FileOp
  pub heap : List StorageDb

-- totalOpen--, if closeSafe answers true
unfoldable pub closed_by : ℕ → Closing → Bool × List FileOp × StorageDb → Closing
unfolding set_at ◌-ℤ◌
closed_by i c (closed, ops, d) = record {
  total_open = if closed then c.total_open -ℤ pos 1 else c.total_open;
  closed_any = if closed then true else c.closed_any;
  ops = c.ops ++ ops;
  heap = set_at i d c.heap;
}

module _ (path_join : Bytes → Bytes → Bytes) (now : ℤ) where
  -- A database is closed if `wanted` says so, it is not live, and closeSafe closes it.
  unfoldable pub close_found :
      (StorageDb → Closing → Bool) → ℕ → Closing → Option StorageDb → Closing
  unfolding close_safe closed_by
  close_found wanted i c none = c
  close_found wanted i c (some d) =
      if wanted d c && not d.live then closed_by i c (close_safe path_join now d) else c

  unfoldable pub close_one : (StorageDb → Closing → Bool) → ℕ → Closing → Closing
  unfolding close_found
  close_one wanted i c = close_found wanted i c (get_elem? c.heap i)

  unfoldable pub close_each : (StorageDb → Closing → Bool) → List ℕ → Closing → Closing
  unfolding close_one
  close_each wanted [] c = c
  close_each wanted (i ∷ is) c = close_each wanted is (close_one wanted i c)

  unfoldable pub is_idle : StorageConfig → StorageDb → Closing → Bool
  unfolding last_query_sec
  is_idle config d c = ltb_ℤ config.close_idle_sec (last_query_sec now d)

  unfoldable pub is_over : StorageConfig → StorageDb → Closing → Bool
  is_over config d c = ltb_ℤ config.max_opened_db c.total_open

-- sort.SliceStable of pointers
module _ (before : StorageDb → StorageDb → Bool) (heap : List StorageDb) where
  unfoldable pub insert_by : ℕ → List ℕ → List ℕ
  insert_by i [] = i ∷ []
  insert_by i (j ∷ js) =
      let behind = insert_by i js in
      elim (get_elem? heap i) [
        | none ↦ i ∷ (j ∷ js)
        | some d ↦ elim (get_elem? heap j) [
          | none ↦ i ∷ (j ∷ js)
          | some e ↦ if before e d then j ∷ behind else i ∷ (j ∷ js)
        ]
      ]

  unfoldable pub sort_by : List ℕ → List ℕ
  unfolding insert_by
  sort_by [] = []
  sort_by (i ∷ is) = insert_by i (sort_by is)

-- Counts of tasks are taken below 2^31.
unfoldable pub fewer_tasks : StorageDb → StorageDb → Bool
fewer_tasks d e = ltb d.task_count e.task_count

-- A connection that fails leaves the database closed; so does one of a pointer to nothing.
module _ {E : Type 0} (config : StorageConfig) (answers : ℕ → Dial E) (now : ℤ) where
  unfoldable pub connect_at : ℕ → List StorageDb → Bool × List StorageDb
  unfolding connect set_at
  connect_at i heap = elim (get_elem? heap i) [
    | none ↦ (false, heap)
    | some d ↦
        let (failure, d') = connect config.sqlite_options (answers i) now d in
        ((elim failure [ none ↦ true | some e ↦ false ]), set_at i d' heap)
  ]

  -- Over the limit: the first database that can be opened.
  unfoldable pub open_first : List ℕ → List StorageDb → List StorageDb
  unfolding connect_at
  open_first [] heap = heap
  open_first (i ∷ is) heap =
      let (opened, heap') = connect_at i heap in
      let rest = open_first is heap' in if opened then heap' else rest

  -- Else one after the other, until there are more than the limit.
  unfoldable pub open_allowed : List ℕ → ℤ → List StorageDb → ℤ × List StorageDb
  unfolding connect_at ◌+ℤ◌
  open_allowed [] total heap = (total, heap)
  open_allowed (i ∷ is) total heap =
      let (opened, heap') = connect_at i heap in
      let rest = open_allowed is (if opened then total +ℤ pos 1 else total) heap' in
      if ltb_ℤ config.max_opened_db total then (total, heap) else rest

  -- The last part of a round: databases with tasks are opened.
  unfoldable pub open_dbs : List ℕ → ℤ → List StorageDb → List StorageDb
  unfolding open_first open_allowed sort_by fewer_tasks
  open_dbs closed total heap =
      let sorted = sort_by fewer_tasks heap closed in
      if ltb_ℤ config.max_opened_db total
      then open_first sorted heap
      else (open_allowed sorted total heap).1

-- The tasks that are taken up, if there are tasks and more of them may run.
unfoldable pub run_tasks :
    {E : Type 0} → StorageConfig → Scheduler E → Gathered → List ℕ × List StorageDb
unfolding execute_dbs ◌-ℤ◌
run_tasks config s g =
    let qt = config.max_running_tasks -ℤ pos s.num_active in
    if ltb 0 g.total_tasks && ltb_ℤ (pos 0) qt
    then execute_dbs g.total_tasks (pos_part qt) g.open_with_tasks s.storage.heap
    else ([], s.storage.heap)

-- The databases that are closed: idle ones, then over the limit those without tasks, then those
-- with the fewest tasks.
unfoldable pub close_round :
    (Bytes → Bytes → Bytes) → StorageConfig → ℤ → List ℕ → Gathered → List StorageDb → Closing
unfolding close_each is_idle is_over sort_by fewer_tasks
close_round path_join config now dbs g heap =
    let idle =
      close_each path_join now (is_idle path_join now config) dbs
        (record { total_open = pos g.total_open; closed_any = false; ops = []; heap = heap }) in
    let free = close_each path_join now (is_over path_join now config) g.open_without_task idle in
    close_each path_join now (is_over path_join now config)
      (sort_by fewer_tasks free.heap g.open_with_tasks) free

-- sortDbs of both lists, if a database has been closed.
unfoldable pub sort_again : Bool → List StorageDb → Storage → Storage
unfolding sort_by less
sort_again closed_any heap s = record {
  heap = heap;
  dbs = if closed_any then sort_by less heap s.dbs else s.dbs;
  live_dbs = if closed_any then sort_by less heap s.live_dbs else s.live_dbs;
}

-- doRoutineScheduledTasks: the ids of the tasks that are taken up, the changes of files, and the
-- scheduler. The goroutines of the tasks have not run yet.
unfoldable pub scheduled_tasks :
    {E : Type 0}
    → (Bytes → Bytes → Bytes)
    → StorageConfig
    → (ℕ → Dial E)
    → ℤ
    → Scheduler E
    → List ℕ × List FileOp × Scheduler E
unfolding gather run_tasks close_round open_dbs sort_again
scheduled_tasks path_join config answers now s =
    let g = gather s.storage.heap s.storage.dbs in
    let run = run_tasks config s g in
    let closing = close_round path_join config now s.storage.dbs g run.1 in
    let heap = open_dbs config answers now g.closed_with_tasks closing.total_open closing.heap in
    (
      run.0,
      closing.ops,
      record s {
        num_active = s.num_active + length run.0;
        storage = sort_again closing.closed_any heap s.storage;
      },
    )
