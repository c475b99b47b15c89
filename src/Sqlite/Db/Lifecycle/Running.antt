-- ===== src/Sqlite/Db/Lifecycle/Running.antt =====
-- What holds of a database of sqlite/storage_db.go whatever its methods have done.
use sqlog.Base.{
  ℕ, ◌%◌, ◌^◌, ◌≡◌, ◌≢◌, refl, sym, ap, ◌∙◌, true, false, not, Option, some, List, [], Bytes,
  length, arith, if_both, if_cases, Option_both, Bool-cases, ◌⊎◌, inl, inr,
}
use sqlog.Base.Int.{ℤ}
use sqlog.Chunk.{Chunk}
use sqlog.Expr.Text.{is_empty}
use sqlog.Sqlite.Db.{
  db_closed, StorageDb, FileOp, is_db_open, is_open, new_db, Asked, query, QueryError, is_closed,
}
use sqlog.Sqlite.Db.Flush.{Engine, Value, flush, flush_rows, transact, Flushed, panics}
use sqlog.Sqlite.Db.Names.{loaded_db}
use sqlog.Sqlite.Db.Lifecycle.{
  Step, lives, connects, queries, measures, flushes, closes, closes_safe, removes, schedules,
  cancels, executes, Steps, done, follows, IsWf, is_settled, same-IsWf, connect-IsWf, query-IsWf,
  update_size-IsWf, flush_rows-IsWf, close-IsWf, close_safe-IsWf, remove-IsWf,
}
use sqlog.Sqlite.Db.Lifecycle.Tasks.{schedule-IsWf, cancel-IsWf, execute-IsWf}

module _ {path_join : Bytes → Bytes → Bytes} {S E : Type 0} {engine : Engine S E} where
  step-IsWf :
      {d d' : StorageDb} {ops : List FileOp} → Step path_join engine d ops d' → IsWf d → IsWf d'
  unfolding is_open flush
  step-IsWf (lives d) w = same-IsWf d (record d { live = true }) refl refl refl refl w
  step-IsWf (connects options a now d) w = connect-IsWf options a now d w
  step-IsWf (queries a now d) w = query-IsWf a now d w
  step-IsWf (measures a now failure total freelist d) w =
      update_size-IsWf a now failure total freelist d w
  step-IsWf (flushes c d st) w = flush_rows-IsWf engine _ _ c d st w
  step-IsWf (closes d) w = close-IsWf path_join d w
  step-IsWf (closes_safe now d) w = close_safe-IsWf path_join now d w
  step-IsWf (removes d) w = remove-IsWf path_join d w
  step-IsWf (schedules id d fresh) w = schedule-IsWf id d fresh w
  step-IsWf (cancels id d) w = cancel-IsWf id d w
  step-IsWf (executes n d) w = execute-IsWf n d.task_map d refl w

  Steps-IsWf :
      {d d' : StorageDb} {ops : List FileOp} → Steps path_join engine d ops d' → IsWf d → IsWf d'
  Steps-IsWf (done d) w = w
  Steps-IsWf (follows step steps) w = Steps-IsWf steps (step-IsWf step w)

-- A database that has just been made or found.
pub record IsFresh (d : StorageDb) : Type 0 where
  pub closed : d.status ≡ db_closed
  pub apart : d.connected ≡ false
  pub idle : (d.task_count ≡ 0) × (d.task_map ≡ [])

pub fresh-IsWf : (d : StorageDb) → IsFresh d → IsWf d
unfolding is_open is_db_open is_settled
fresh-IsWf d f = record {
  opened = ground (arith, f.closed, f.apart);
  settled = ap is_settled f.closed;
  counted = f.idle.0 ∙ ap (λ (l : List ℕ). length l % 2 ^ 32) (sym f.idle.1);
}

pub new_db-IsFresh :
    (path_join : Bytes → Bytes → Bytes) (dir prefix : Bytes) (start age : ℤ)
    → IsFresh (new_db path_join dir prefix start age)
unfolding new_db
new_db-IsFresh path_join dir prefix start age = record {
  closed = refl;
  apart = refl;
  idle = (refl, refl);
}

pub loaded_db-IsFresh :
    (path_join : Bytes → Bytes → Bytes) (dir name : Bytes) (size start end : ℤ)
    → IsFresh (loaded_db path_join dir name size start end)
unfolding loaded_db
loaded_db-IsFresh path_join dir name size start end = record {
  closed = refl;
  apart = refl;
  idle = (refl, refl);
}

module _ {E : Type 0} where
  pub query-closed :
      (a : Asked E) (now : ℤ) (d : StorageDb)
      → d.connected ≡ false
      → query a now d ≡ (some is_closed, d)
  unfolding query
  query-closed a now d h =
      if_cases (λ (r : Option (QueryError E) × StorageDb). r ≡ (some is_closed, d))
        (not d.connected) (λ _. refl) (λ n. absurd (ground (arith, n, h)))

  pub flush_rows-connected :
      {S : Type 0} (engine : Engine S E) (text : Bytes) (values : List Value) (c : Chunk)
      (d : StorageDb) (st : S)
      → d.connected ≡ true
      → (flush_rows engine text values c d st).0 ≢ panics
  unfolding flush_rows
  flush_rows-connected {S = S} engine text values c d st h =
      let P = λ (r : Flushed E × S × StorageDb). r.0 ≢ panics in
      if_both P (is_empty values) (λ e. absurd (ground (arith, e)))
        (if_cases P (not d.connected) (λ n. absurd (ground (arith, n, h)))
          (λ _.
            Option_both P (transact engine text values st) (λ e. absurd (ground (arith, e)))
              (λ x e. absurd (ground (arith, e)))))

module _ {path_join : Bytes → Bytes → Bytes} {S E : Type 0} {engine : Engine S E} where
  -- Whatever the methods of a new database have done, in whatever order and with whatever answers
  -- of SQLite: it is closed, open or removed, and never left in between; while it is open, a
  -- `flush` does not panic; while it is not, each query is refused and changes nothing; and the
  -- counter of its tasks is the number of the tasks that it has.
  pub Steps-connection :
      {d d' : StorageDb} {ops : List FileOp}
      → IsFresh d
      → Steps path_join engine d ops d'
      → (is_settled d'.status ≡ true)
        × (((is_open d' ≡ true) × ((c : Chunk) (st : S) → (flush engine c d' st).0 ≢ panics))
            ⊎ ((is_open d' ≡ false)
                × ((a : Asked E) (now : ℤ) → query a now d' ≡ (some is_closed, d'))))
        × (d'.task_count ≡ length d'.task_map % 2 ^ 32)
  unfolding flush
  Steps-connection {d' = d'} fresh steps =
      let w = Steps-IsWf steps (fresh-IsWf _ fresh) in
      (
        w.settled,
        (elim (Bool-cases (is_open d')) [
          | inl o ↦ inl (o, λ c st. flush_rows-connected engine _ _ c d' st (w.opened ∙ o))
          | inr o ↦ inr (o, λ a now. query-closed a now d' (w.opened ∙ o))
        ]),
        w.counted,
      )
