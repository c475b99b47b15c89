-- ===== src/Sqlite/Db/Lifecycle/Removed.antt =====
-- A database of sqlite/storage_db.go that `remove` has taken away stays away.
use sqlog.Base.{
  ℕ, ◌-◌, ◌≡◌, refl, ap, Bool, false, not, Option, none, some, List, [], ◌∷◌, ◌++◌, ltb,
  if◌then◌else◌, Bytes, arith, if_both, if_cases,
}
use sqlog.Base.Int.{ℤ, pos, ltb_ℤ, ◌-ℤ◌}
use sqlog.Chunk.{Chunk}
use sqlog.Sqlite.Db.{
  db_removing, StorageDb, FileOp, is_db_open, is_db_closed, close, close_safe, remove, Dial,
  connect, Asked, QueryError, is_closed, update_size, last_query_sec, of_driver, remove_file,
  has_id, delete_id, dec32, execute, cancel, schedule,
}
use sqlog.Sqlite.Db.Flush.{Engine, flush, flush_rows, Flushed}
use sqlog.Sqlite.Db.Lifecycle.{
  Step, lives, connects, queries, measures, flushes, closes, closes_safe, removes, schedules,
  cancels, executes, Steps, done, follows,
}
use sqlog.Sqlite.Db.Lifecycle.Running.{query-closed}

-- `remove` has taken the database away.
pub record IsGone (d : StorageDb) : Type 0 where
  pub removing : d.status ≡ db_removing
  pub apart : d.connected ≡ false

gone-open : (d : StorageDb) → IsGone d → is_db_open d.status ≡ false
unfolding is_db_open
gone-open d g = ap is_db_open g.removing

gone-closed : (d : StorageDb) → IsGone d → is_db_closed d.status ≡ false
unfolding is_db_closed
gone-closed d g = ap is_db_closed g.removing

module _ {E : Type 0} where
  connect-gone :
      (options : List (Bytes × Bytes)) (a : Dial E) (now : ℤ) (d : StorageDb)
      → IsGone d
      → connect options a now d ≡ (none, d)
  unfolding connect
  connect-gone options a now d g =
      if_cases (λ (r : Option E × StorageDb). r ≡ (none, d)) (is_db_closed d.status)
        (λ h. absurd (ground (arith, h, gone-closed d g))) (λ _. refl)

  update_size-gone :
      (a : Asked E) (now : ℤ) (failure : Option E) (total freelist : ℤ) (d : StorageDb)
      → IsGone d
      → update_size a now failure total freelist d ≡ (some is_closed, d)
  unfolding update_size
  update_size-gone a now failure total freelist d g =
      ap
        (λ (r : Option (QueryError E) × StorageDb).
          elim r.0 as (λ _. Option (QueryError E) × StorageDb) [
            | some e ↦ (some e, r.1)
            | none ↦ elim failure [
              | some e ↦ (some (of_driver e), r.1)
              | none ↦ (none, record (r.1) { size = total -ℤ freelist })
            ]
          ])
        (query-closed a now d g.apart)

  flush-IsGone :
      {S : Type 0} (engine : Engine S E) (c : Chunk) (d : StorageDb) (st : S)
      → IsGone d
      → IsGone (flush engine c d st).2
  unfolding flush flush_rows
  flush-IsGone {S = S} engine c d st g =
      let P = λ (r : Flushed E × S × StorageDb). IsGone r.2 in
      if_both P _ g
        (if_cases P (not d.connected) (λ _. g) (λ h. absurd (ground (arith, h, g.apart))))

module _ (path_join : Bytes → Bytes → Bytes) where
  close-gone : (d : StorageDb) → IsGone d → close path_join d ≡ (false, [], d)
  unfolding close
  close-gone d g =
      if_cases (λ (r : Bool × List FileOp × StorageDb). r ≡ (false, [], d)) (is_db_open d.status)
        (λ h. absurd (ground (arith, h, gone-open d g)))
        (λ _. ap (λ b. (b, [], d)) (gone-closed d g))

  remove-gone : (d : StorageDb) → IsGone d → remove path_join d ≡ ([], d)
  unfolding remove
  remove-gone d g =
      ap
        (λ (r : Bool × List FileOp × StorageDb).
          if r.0
          then (r.1 ++ remove_file r.2.file_path ∷ [], record (r.2) { status = db_removing })
          else (r.1, r.2))
        (close-gone d g)

execute-IsGone : (n : ℕ) (ids : List ℕ) (d : StorageDb) → IsGone d → IsGone (execute n ids d).1
unfolding execute
execute-IsGone n [] d g = g
execute-IsGone n (id ∷ ids) d g =
    let d' = record d { task_map = delete_id id d.task_map; task_count = dec32 d.task_count } in
    let g' : IsGone d' = record { removing = g.removing; apart = g.apart } in
    if_both (λ (r : List ℕ × StorageDb). IsGone r.1) (ltb 0 n) (execute-IsGone (n - 1) ids d' g') g'

module _ {path_join : Bytes → Bytes → Bytes} {S E : Type 0} {engine : Engine S E} where
  step-IsGone :
      {d d' : StorageDb} {ops : List FileOp}
      → Step path_join engine d ops d'
      → IsGone d
      → (ops ≡ []) × IsGone d'
  unfolding schedule cancel close_safe
  step-IsGone (lives d) g = (refl, record { removing = g.removing; apart = g.apart })
  step-IsGone (connects options a now d) g = (refl, rw (connect-gone options a now d g) g)
  step-IsGone (queries a now d) g = (refl, rw (query-closed a now d g.apart) g)
  step-IsGone (measures a now failure total freelist d) g =
      (refl, rw (update_size-gone a now failure total freelist d g) g)
  step-IsGone (flushes c d st) g = (refl, flush-IsGone engine c d st g)
  step-IsGone (closes d) g = rw (close-gone path_join d g) (refl, g)
  step-IsGone (closes_safe now d) g =
      if_both (λ (r : Bool × List FileOp × StorageDb). (r.1 ≡ []) × IsGone r.2)
        (ltb_ℤ (last_query_sec now d) (pos 2)) {y = close path_join d} (refl, g)
        (rw (close-gone path_join d g) (refl, g))
  step-IsGone (removes d) g = rw (remove-gone path_join d g) (refl, g)
  step-IsGone (schedules id d fresh) g = (refl, record { removing = g.removing; apart = g.apart })
  step-IsGone (cancels id d) g = (
    refl,
    if_both (λ (r : Bool × StorageDb). IsGone r.1) (has_id id d.task_map)
        (record { removing = g.removing; apart = g.apart }) g,
  )
  step-IsGone (executes n d) g = (refl, execute-IsGone n d.task_map d g)

  -- Once `remove` has taken a database away it stays so, whatever is called: no method connects
  -- it again or touches a file, and `connect` reports no error.
  pub Steps-IsGone :
      {d d' : StorageDb} {ops : List FileOp}
      → IsGone d
      → Steps path_join engine d ops d'
      → (ops ≡ [])
        × IsGone d'
        × ((options : List (Bytes × Bytes)) (a : Dial E) (now : ℤ)
            → connect options a now d' ≡ (none, d'))
  Steps-IsGone g (done d) = (refl, g, λ options a now. connect-gone options a now d g)
  Steps-IsGone g (follows step steps) =
      let (here, g') = step-IsGone step g in
      let (there, gone, later) = Steps-IsGone g' steps in (rw (here, there) refl, gone, later)
