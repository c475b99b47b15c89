-- ===== src/Sqlite/Db/Renaming.antt =====
-- Which files `close` of sqlite/storage_db.go renames, for the databases that `newDb` makes and
-- for those that `initDbs` finds.
use sqlog.Base.{◌≡◌, refl, ap, true, Option, none, some, List, [], ◌∷◌, Bytes, if◌then◌else◌}
use sqlog.Base.Int.{ℤ, pos, ltb_ℤ}
use sqlog.Sqlite.Db.{
  StorageDb, rename, db_closed, db_open, is_older, db_name, close, Dial, dial, conn_string, connect,
  is_db_open, is_db_closed,
}
use sqlog.Sqlite.Db.Names.{loaded_db}

module _ {E : Type 0} (path_join : Bytes → Bytes → Bytes) where
  connect-loaded :
      (dir name : Bytes) (size start end : ℤ) (options : List (Bytes × Bytes)) (a : Dial E)
      (now : ℤ)
      → dial a (conn_string (path_join dir name) options) ≡ none
      → connect options a now (loaded_db path_join dir name size start end) ≡ (
        none,
        record (loaded_db path_join dir name size start end) {
          connected = true;
          last_query_epoch = now;
          status = db_open;
        },
      )
  unfolding connect loaded_db is_db_closed
  connect-loaded dir name size start end options a now h =
      ap
        (λ (o : Option E). elim o as (λ _. Option E × StorageDb) [
          | some e ↦
              (some e, record (loaded_db path_join dir name size start end) { status = db_closed })
          | none ↦ (
            none,
            record (loaded_db path_join dir name size start end) {
              connected = true;
              last_query_epoch = now;
              status = db_open;
            },
          )
        ])
        h

  -- A database that `initDbs` has found, with a start after 1970, is renamed when it is closed
  -- after it has been connected: whatever directory and prefix are configured, its file becomes
  -- `_0.db`, in no directory.
  pub loaded_db-close :
      (dir name : Bytes) (size start end : ℤ) (options : List (Bytes × Bytes)) (a : Dial E)
      (now : ℤ)
      → dial a (conn_string (path_join dir name) options) ≡ none
      → ltb_ℤ (pos 0) start ≡ true
      → let (failure, d) = connect options a now (loaded_db path_join dir name size start end) in
        (failure ≡ none)
        × ((close path_join d).1
            ≡ rename (path_join dir name) (path_join [] (db_name [] (pos 0))) ∷ [])
  unfolding close is_older loaded_db is_db_open
  loaded_db-close dir name size start end options a now h late =
      rw (connect-loaded dir name size start end options a now h) (
        refl,
        ap
            (λ b.
              if b
              then rename (path_join dir name) (path_join [] (db_name [] (pos 0))) ∷ []
              else [])
            late,
      )
