-- ===== src/Sqlite/Storage/Reaching.antt =====
-- Which databases of sqlite/storage.go are reached: by `Flush`, and by `Close` behind a size check.
use mathlib.Core.Path.{subst}
use sqlog.Base.{
  ℕ, ◌<◌, ◌≡◌, ◌≢◌, refl, sym, ap, ◌∙◌, true, not, Option, none, some, List, [], ◌∷◌, ◌++◌,
  if◌then◌else◌, Bytes, length, get_elem?, All, arith, if_cases, Option_both,
}
use sqlog.Base.Int.{ℤ, pos, ltb_ℤ, ◌*ℤ◌}
use sqlog.Chunk.{Chunk}
use sqlog.Sqlite.Db.{
  StorageDb, FileOp, db_open, db_closed, is_open, is_db_open, is_db_closed, close, new_db, Dial,
  dial, conn_string, connect,
}
use sqlog.Sqlite.Db.Flush.{Engine, Flushed, saved, fails, panics, flush}
use sqlog.Sqlite.Db.Lifecycle.{IsWf, flush_rows-IsWf}
use sqlog.Sqlite.Db.Lifecycle.Running.{flush_rows-connected}
use sqlog.Sqlite.Storage.Config.{StorageConfig}
use sqlog.Sqlite.Storage.{
  Storage, set_at, last_of, close_dbs, close_storage, grow, grow_from, add_live, choose_db,
  StorageError, of_flush, flush_at, flush_storage,
}
use sqlog.Sqlite.Storage.Heap.{
  Valid, get-some, get-All, set_at-All, get-set_at, get-append, last_of-Valid, last_of-append,
  choose_db-Valid,
}

module _ {S E : Type 0} (engine : Engine S E) where
  not_panics :
      (answer : Flushed E)
      → answer ≢ panics
      → elim answer as (λ _. Flushed (StorageError E)) [
        | saved ↦ saved
        | fails e ↦ fails (of_flush e)
        | panics ↦ panics
      ]
        ≢ panics
  not_panics saved h q = absurd (ground (arith, q))
  not_panics (fails e) h q = absurd (ground (arith, q))
  not_panics panics h q = h refl

  flush_at-safe :
      (c : Chunk) (i : ℕ) (d : StorageDb) (s : Storage) (st : S)
      → All IsWf s.heap
      → IsWf d
      → let (answer, st', s') = flush_at engine c i d s st in (answer ≢ panics) × All IsWf s'.heap
  unfolding flush_at flush
  flush_at-safe c i d s st h w =
      if_cases (λ (r : Flushed (StorageError E) × S × Storage). (r.0 ≢ panics) × All IsWf r.2.heap)
        (not (is_open d)) (λ _. (λ q. absurd (ground (arith, q)), h))
        (λ opened. (
          not_panics _ (flush_rows-connected engine _ _ c d st (ground (arith, opened, w.opened))),
          set_at-All IsWf i _ s.heap (flush_rows-IsWf engine _ _ c d st w) h,
        ))

  -- `Flush` of a storage whose databases are well-formed, with a live database, never panics,
  -- whichever live database it chooses and whatever SQLite answers; and it leaves the databases
  -- well-formed.
  pub flush_storage-safe :
      (c : Chunk) (s : Storage) (st : S) (i : ℕ) (is : List ℕ)
      → s.live_dbs ≡ i ∷ is
      → Valid s.heap (i ∷ is)
      → All IsWf s.heap
      → let (answer, st', s') = flush_storage engine c s st in (answer ≢ panics) × All IsWf s'.heap
  unfolding flush_storage
  flush_storage-safe c s st i is e v h =
      let j = choose_db c.epoch_start c.epoch_end s.heap s.live_dbs (last_of 0 s.live_dbs) in
      let live : Valid s.heap s.live_dbs = subst (Valid s.heap) (sym e) v in
      let last : last_of 0 s.live_dbs < length s.heap =
        subst (λ l. last_of 0 l < length s.heap) (sym e) (last_of-Valid s.heap i is v) in
      let (d, found) =
        get-some s.heap j
          (choose_db-Valid c.epoch_start c.epoch_end s.heap s.live_dbs _ live last) in
      subst
        (λ (o : Option StorageDb).
          let (answer, st', s') = elim o as (λ _. Flushed (StorageError E) × S × Storage) [
            | none ↦ (panics, st, s)
            | some x ↦ flush_at engine c j x s st
          ] in
          (answer ≢ panics) × All IsWf s'.heap)
        (sym found) (flush_at-safe c j d s st h (get-All IsWf s.heap j d h found))

module _ (path_join : Bytes → Bytes → Bytes) where
  -- `Close` leaves a database alone that it has no pointer to.
  close_dbs-apart :
      (j : ℕ) (is : List ℕ) (heap : List StorageDb)
      → All (λ i. i < j) is
      → get_elem? (close_dbs path_join is heap).1 j ≡ get_elem? heap j
  unfolding close_dbs
  close_dbs-apart j [] heap h = refl
  close_dbs-apart j (i ∷ is) heap h =
      Option_both (λ (r : List FileOp × List StorageDb). get_elem? r.1 j ≡ get_elem? heap j)
        (get_elem? heap i) (close_dbs-apart j is heap h.1)
        (λ d.
          close_dbs-apart j is (set_at i (close path_join d).2 heap) h.1
          ∙ get-set_at i j (close path_join d).2 heap (λ q. omega (arith, q, h.0)))

  module _ {E : Type 0} (config : StorageConfig) (answers : Dial E) (now start : ℤ) where
    abbrev fresh : StorageDb
    fresh = new_db path_join config.dir config.prefix start config.max_chunk_age_sec

    abbrev opened : StorageDb
    opened = record fresh { connected = true; last_query_epoch = now; status = db_open }

    connect-fresh :
        dial answers (conn_string fresh.file_path config.sqlite_options) ≡ none
        → connect config.sqlite_options answers now fresh
          ≡ (none, record fresh { connected = true; last_query_epoch = now; status = db_open })
    unfolding connect new_db is_db_closed
    connect-fresh h =
        ap
          (λ (o : Option E). elim o as (λ _. Option E × StorageDb) [
            | some e ↦ (some e, record fresh { status = db_closed })
            | none ↦
                (none, record fresh { connected = true; last_query_epoch = now; status = db_open })
          ])
          h

    grow-fresh :
        (s : Storage) (d : StorageDb)
        → get_elem? s.heap (last_of 0 s.live_dbs) ≡ some d
        → ltb_ℤ (config.max_filesize_mb *ℤ pos 1000000) d.size ≡ true
        → dial answers (conn_string fresh.file_path config.sqlite_options) ≡ none
        → grow path_join config answers now start s
          ≡ record s { heap = s.heap ++ opened ∷ []; live_dbs = s.live_dbs ++ length s.heap ∷ [] }
    unfolding grow grow_from add_live
    grow-fresh s d found large dialed =
        ap (grow_from path_join config answers now start s) found
        ∙ ap (λ b. if b then add_live (connect config.sqlite_options answers now fresh) s else s)
            large
        ∙ ap (λ r. add_live r s) (connect-fresh dialed)

    opened-kept :
        (s : Storage)
        → Valid s.heap s.dbs
        → get_elem? (close_dbs path_join s.dbs (s.heap ++ opened ∷ [])).1 (length s.heap)
          ≡ some opened
    opened-kept s v =
        close_dbs-apart (length s.heap) s.dbs (s.heap ++ opened ∷ []) v ∙ get-append s.heap opened

    -- A size check that finds the last live database too large opens a successor, which then is
    -- the last live one; but it is not among the databases that the queries and the check of the
    -- total size go through, and `Close` leaves it open.
    pub grow-close_storage :
        (s : Storage) (d : StorageDb)
        → Valid s.heap s.dbs
        → get_elem? s.heap (last_of 0 s.live_dbs) ≡ some d
        → ltb_ℤ (config.max_filesize_mb *ℤ pos 1000000) d.size ≡ true
        → dial answers (conn_string fresh.file_path config.sqlite_options) ≡ none
        → let s' = grow path_join config answers now start s in
          (last_of 0 s'.live_dbs ≡ length s.heap)
          × (s'.dbs ≡ s.dbs)
          × ((d' : StorageDb) × (get_elem? (close_storage path_join s').1.heap (length s.heap)
                ≡ some d')
              × (is_open d' ≡ true))
    unfolding grow close_storage is_open is_db_open
    grow-close_storage s d v found large dialed =
        subst
          (λ (s' : Storage).
            (last_of 0 s'.live_dbs ≡ length s.heap)
            × (s'.dbs ≡ s.dbs)
            × ((d' : StorageDb) × (get_elem? (close_storage path_join s').1.heap (length s.heap)
                  ≡ some d')
                × (is_open d' ≡ true)))
          (sym (grow-fresh s d found large dialed))
          (last_of-append 0 s.live_dbs (length s.heap), refl, (opened, opened-kept s v, refl))
