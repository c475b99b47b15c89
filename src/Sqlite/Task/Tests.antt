-- ===== src/Sqlite/Task/Tests.antt =====
-- Runs of a task of sqlite/storage_scheduler.go, and instances of the theorems.
use sqlog.Base.{ℕ, ◌+◌, ◌≡◌, refl, true, false, none, some, List, [], ◌∷◌, if◌then◌else◌, map}
use sqlog.Sqlite.Task.{finished, canceled, Attempt, Event, runs, cancels, has_result, happen, taken}
use sqlog.Sqlite.Task.Progress.{happen-counted, happen-fails}

abbrev failing : Attempt ℕ
failing = record { open_before = true; failure = some 7; open_after = true }

abbrev succeeding : Attempt ℕ
succeeding = record { open_before = true; failure = none; open_after = true }

abbrev closed : Attempt ℕ
closed = record { open_before = false; failure = none; open_after = false }

task_succeeds : (happen (runs succeeding ∷ []) (taken 2)).task.state ≡ finished
unfolding happen taken
task_succeeds = refl

task_waits : (happen (runs closed ∷ []) (taken 2)).scheduled ≡ 1
unfolding happen taken
task_waits = refl

task_canceled :
    (happen (runs failing ∷ cancels ∷ runs failing ∷ []) (taken 2)).task.state ≡ canceled
unfolding happen taken
task_canceled = refl

abbrev troubled : List (Event ℕ)
troubled = runs failing ∷ cancels ∷ runs succeeding ∷ []

happen-counted_example :
    ((happen troubled (taken 2)).active
      ≡ 2 + (if (happen troubled (taken 2)).pending then 1 else 0))
    × ((happen troubled (taken 2)).task.error ≡ none)
happen-counted_example = happen-counted 2 troubled

happen-fails_example :
    has_result (happen (runs failing ∷ map runs (succeeding ∷ [])) (taken 0)).task.state ≡ false
happen-fails_example = happen-fails 0 7 (succeeding ∷ [])
