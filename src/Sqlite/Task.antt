-- ===== src/Sqlite/Task.antt =====
-- sqlite/storage_scheduler.go: one task from when `executeDbTasks` takes it out of its database's
-- map. `E` are the errors of a callback. Each run of `exec` is an attempt, and `Cancel` may come
-- between two of them.
pub mod Progress
mod Tests
use sqlog.Base.{
  ℕ, suc, ◌+◌, ◌-◌, Bool, true, false, not, Option, none, some, List, [], ◌∷◌, ltb, if◌then◌else◌,
}

pub data TaskState : Type 0 where
  created : TaskState
  process : TaskState
  finished : TaskState
  canceled : TaskState

-- `db` is the pointer to a database, which may be nil; `error` is the output's. The callback, whose
-- runs are the attempts below, is left out.
pub record DbTask (E : Type 0) : Type 0 where
  pub db : Option ℕ
  pub state : TaskState
  pub error : Option E

-- What an attempt meets: whether the database is open before the callback, the callback's error,
-- and whether the database is open behind it.
pub record Attempt (E : Type 0) : Type 0 where
  pub open_before : Bool
  pub failure : Option E
  pub open_after : Bool

-- `retries` is the variable of the closure, `scheduled` counts the calls of db.schedule, `active`
-- is numActiveTasks, and `pending` says that a goroutine with `exec` has been started and not run.
pub record Run (E : Type 0) : Type 0 where
  pub task : DbTask E
  pub retries : ℕ
  pub scheduled : ℕ
  pub active : ℕ
  pub pending : Bool

unfoldable pub is_created : TaskState → Bool
is_created created = true
is_created _ = false

-- `Result` returns the output of a task in one of these states.
unfoldable pub has_result : TaskState → Bool
has_result finished = true
has_result canceled = true
has_result _ = false

-- What happens to a task: `exec` runs in its goroutine, or another calls `Cancel`.
pub data Event (E : Type 0) : Type 0 where
  runs : Attempt E → Event E
  cancels : Event E

module _ {E : Type 0} where
  unfoldable pub set_state : TaskState → Run E → Run E
  set_state state s = record s { task = record (s.task) { state = state } }

  -- onTask(id, true), and no further goroutine
  unfoldable pub complete : Run E → Run E
  complete s = record s { active = s.active - 1; pending = false }

  -- Back to the database's map, if the database has been closed.
  unfoldable pub reschedule : Run E → Run E
  unfolding set_state complete
  reschedule s = complete (record (set_state created s) { scheduled = suc s.scheduled })

  unfoldable pub give_up : E → Run E → Run E
  unfolding complete
  give_up e s = complete (record s { task = record (s.task) { state = finished; error = some e } })

  -- `exec` with the state already `process`.
  unfoldable pub attempt : Attempt E → Run E → Run E
  unfolding set_state complete reschedule give_up
  attempt a s = if not a.open_before then reschedule s else elim a.failure [
    | none ↦ complete (set_state finished s)
    | some e ↦
        if not a.open_after
        then reschedule s
        else if ltb s.retries 3
        then record s { retries = suc s.retries; pending = true }
        else give_up e s
  ]

  unfoldable pub exec : Attempt E → Run E → Run E
  unfolding set_state complete attempt is_created
  exec a s = if is_created s.task.state then attempt a (set_state process s) else complete s

  unfoldable pub happens : Event E → Run E → Run E
  unfolding exec set_state
  happens (runs a) s = if s.pending then exec a (record s { pending = false }) else s
  happens cancels s = set_state canceled s

  unfoldable pub happen : List (Event E) → Run E → Run E
  unfolding happens
  happen [] s = s
  happen (e ∷ events) s = happen events (happens e s)

  -- The task when its goroutine starts, as `schedule` makes it: onTask(id, false) has counted it.
  unfoldable pub taken : ℕ → Run E
  taken active = record {
    task = record { db = none; state = created; error = none };
    retries = 0;
    scheduled = 0;
    active = suc active;
    pending = true;
  }
