-- ===== src/Sqlite/Db/Lifecycle.antt =====
-- The states of a database of sqlite/storage_db.go: a step for each method that changes it, and
-- what holds of the database whatever steps it has taken.
pub mod Tasks
pub mod Running
pub mod Removed
use sqlog.Base.{
  ℕ, suc, ◌+◌, ◌-◌, ◌%◌, ◌^◌, ◌≡◌, ◌≢◌, refl, sym, ap, ◌∙◌, Bool, true, false, not, Option, none,
  some, List, [], ◌∷◌, ◌++◌, ltb, ◌==◌, if◌then◌else◌, Bytes, length, arith, if_both, if_cases,
  Bool-cases, Option_both, inl, inr,
}
use sqlog.Base.Int.{ℤ, inc32}
use sqlog.Chunk.{Chunk}
use sqlog.Expr.Text.{is_empty}
use sqlog.Sqlite.Db.{
  Status, db_closed, db_loading, db_open, db_closing, db_removing, StorageDb, FileOp, rename,
  remove_file, is_db_open, is_db_closed, is_open, store_id, has_id, delete_id, dec32, schedule,
  cancel, execute, close, close_safe, remove, new_db, Dial, dial, conn_string, connect, Asked,
  query, QueryError, is_closed, of_driver, update_size,
}
use sqlog.Sqlite.Db.Flush.{Engine, Value, flush, flush_rows, transact, Flushed, panics, extend}

-- A method has run: the changes of files, and the database behind it. An id is scheduled that the
-- map does not have, as the storage counts its ids up.
pub data Step (path_join : Bytes → Bytes → Bytes) {S E : Type 0} (engine : Engine S E)
    : StorageDb → List FileOp → StorageDb → Type 0 where
  lives : (d : StorageDb) → Step path_join engine d [] (record d { live = true })
  connects :
      (options : List (Bytes × Bytes)) (a : Dial E) (now : ℤ) (d : StorageDb)
      → Step path_join engine d [] (connect options a now d).1
  queries : (a : Asked E) (now : ℤ) (d : StorageDb) → Step path_join engine d [] (query a now d).1
  measures :
      (a : Asked E) (now : ℤ) (failure : Option E) (total freelist : ℤ) (d : StorageDb)
      → Step path_join engine d [] (update_size a now failure total freelist d).1
  flushes :
      (c : Chunk) (d : StorageDb) (st : S) → Step path_join engine d [] (flush engine c d st).2
  closes : (d : StorageDb) → Step path_join engine d (close path_join d).1 (close path_join d).2
  closes_safe :
      (now : ℤ) (d : StorageDb)
      → Step path_join engine d (close_safe path_join now d).1 (close_safe path_join now d).2
  removes : (d : StorageDb) → Step path_join engine d (remove path_join d).0 (remove path_join d).1
  schedules :
      (id : ℕ) (d : StorageDb)
      → has_id id d.task_map ≡ false
      → Step path_join engine d [] (schedule id d)
  cancels : (id : ℕ) (d : StorageDb) → Step path_join engine d [] (cancel id d).1
  executes : (n : ℕ) (d : StorageDb) → Step path_join engine d [] (execute n d.task_map d).1

pub data Steps (path_join : Bytes → Bytes → Bytes) {S E : Type 0} (engine : Engine S E)
    : StorageDb → List FileOp → StorageDb → Type 0 where
  done : (d : StorageDb) → Steps path_join engine d [] d
  follows :
      {d d' d'' : StorageDb} {ops ops' : List FileOp}
      → Step path_join engine d ops d'
      → Steps path_join engine d' ops' d''
      → Steps path_join engine d (ops ++ ops') d''

unfoldable pub is_settled : Status → Bool
is_settled db_loading = false
is_settled db_closing = false
is_settled _ = true

-- The connection is there exactly while the database is open, no method leaves it in between, and
-- the counter of tasks is the number of tasks.
pub record IsWf (d : StorageDb) : Type 0 where
  pub opened : d.connected ≡ is_open d
  pub settled : is_settled d.status ≡ true
  pub counted : d.task_count ≡ length d.task_map % 2 ^ 32

-- The parts that an invariant of the status and the tasks reads.
pub same-IsWf :
    (d e : StorageDb)
    → e.connected ≡ d.connected
    → e.status ≡ d.status
    → e.task_count ≡ d.task_count
    → e.task_map ≡ d.task_map
    → IsWf d
    → IsWf e
unfolding is_open
same-IsWf d e c s n m w = record {
  opened = ground (arith, c, s, w.opened);
  settled = ap is_settled s ∙ w.settled;
  counted = n ∙ w.counted ∙ ap (λ (l : List ℕ). length l % 2 ^ 32) (sym m);
}

closed-IsWf : (d : StorageDb) → IsWf d → IsWf (record d { connected = false; status = db_closed })
unfolding is_open is_db_open is_settled
closed-IsWf d w = record { opened = refl; settled = refl; counted = w.counted }

closed-disconnected : (d : StorageDb) → IsWf d → is_db_closed d.status ≡ true → d.connected ≡ false
unfolding is_db_closed is_open is_db_open
closed-disconnected d w h = w.opened ∙ not_both d.status h
  where
    not_both : (s : Status) → is_db_closed s ≡ true → is_db_open s ≡ false
    not_both db_closed h = refl
    not_both db_loading h = refl
    not_both db_open h = absurd (ground (arith, h))
    not_both db_closing h = refl
    not_both db_removing h = refl

-- A status without a connection.
unopened-IsWf :
    (d : StorageDb) (s : Status)
    → is_db_open s ≡ false
    → is_settled s ≡ true
    → d.connected ≡ false
    → IsWf d
    → IsWf (record d { status = s })
unfolding is_open
unopened-IsWf d s p q h w = record { opened = h ∙ sym p; settled = q; counted = w.counted }

queried-IsWf : (now : ℤ) (d : StorageDb) → IsWf d → IsWf (record d { last_query_epoch = now })
unfolding is_open
queried-IsWf now d w = record { opened = w.opened; settled = w.settled; counted = w.counted }

module _ {E : Type 0} where
  pub connect-IsWf :
      (options : List (Bytes × Bytes)) (a : Dial E) (now : ℤ) (d : StorageDb)
      → IsWf d
      → IsWf (connect options a now d).1
  unfolding connect is_open is_db_open is_settled
  connect-IsWf options a now d w =
      if_cases (λ (r : Option E × StorageDb). IsWf r.1) (is_db_closed d.status)
        (λ h.
          Option_both (λ (r : Option E × StorageDb). IsWf r.1)
            (dial a (conn_string d.file_path options))
            (record { opened = refl; settled = refl; counted = w.counted })
            (λ e. unopened-IsWf d db_closed refl refl (closed-disconnected d w h) w))
        (λ _. w)

  pub query-IsWf : (a : Asked E) (now : ℤ) (d : StorageDb) → IsWf d → IsWf (query a now d).1
  unfolding query
  query-IsWf a now d w =
      let P = λ (r : Option (QueryError E) × StorageDb). IsWf r.1 in
      if_both P (not d.connected) w (
        Option_both P a.prepare_answer
          (Option_both P a.query_answer (queried-IsWf now d w) (λ e. w)) (λ e. w))

  pub update_size-IsWf :
      (a : Asked E) (now : ℤ) (failure : Option E) (total freelist : ℤ) (d : StorageDb)
      → IsWf d
      → IsWf (update_size a now failure total freelist d).1
  unfolding update_size is_open
  update_size-IsWf a now failure total freelist d w =
      let P = λ (r : Option (QueryError E) × StorageDb). IsWf r.1 in
      let q = query-IsWf a now d w in
      Option_both P (query a now d).0
        (Option_both P failure
          (record { opened = q.opened; settled = q.settled; counted = q.counted }) (λ e. q))
        (λ e. q)

  pub flush_rows-IsWf :
      {S : Type 0} (engine : Engine S E) (text : Bytes) (values : List Value) (c : Chunk)
      (d : StorageDb) (st : S)
      → IsWf d
      → IsWf (flush_rows engine text values c d st).2
  unfolding flush_rows is_open extend
  flush_rows-IsWf {S = S} engine text values c d st w =
      let P = λ (r : Flushed E × S × StorageDb). IsWf r.2 in
      if_both P (is_empty values) w (
        if_both P (not d.connected) w (
          Option_both P (transact engine text values st)
            (record { opened = w.opened; settled = w.settled; counted = w.counted }) (λ e. w)))

module _ (path_join : Bytes → Bytes → Bytes) where
  pub close-IsWf : (d : StorageDb) → IsWf d → IsWf (close path_join d).2
  unfolding close
  close-IsWf d w =
      if_both (λ (r : Bool × List FileOp × StorageDb). IsWf r.2) (is_db_open d.status)
        (closed-IsWf d w) w

  pub close_safe-IsWf : (now : ℤ) (d : StorageDb) → IsWf d → IsWf (close_safe path_join now d).2
  unfolding close_safe
  close_safe-IsWf now d w =
      if_both (λ (r : Bool × List FileOp × StorageDb). IsWf r.2) _ w (close-IsWf d w)

  -- `close` answers whether the database is closed behind it.
  close-answer : (d : StorageDb) → (close path_join d).0 ≡ is_db_closed (close path_join d).2.status
  unfolding close is_db_closed
  close-answer d = ground arith

  pub remove-IsWf : (d : StorageDb) → IsWf d → IsWf (remove path_join d).1
  unfolding remove is_db_open is_settled
  remove-IsWf d w =
      let c = close-IsWf d w in
      if_cases (λ (r : List FileOp × StorageDb). IsWf r.1) (close path_join d).0
        (λ h.
          unopened-IsWf (close path_join d).2 db_removing refl refl
            (closed-disconnected (close path_join d).2 c (sym (close-answer d) ∙ h)) c)
        (λ _. c)
