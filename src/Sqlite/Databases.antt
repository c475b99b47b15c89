-- ===== src/Sqlite/Databases.antt =====
-- The list of databases of sqlite/storage.go: its order, `sortDbs` of sqlite/storage_db.go, and the
-- databases that `New` and the size check take from its ends. Epochs and sizes are int64.
pub mod Order
mod Tests
use sqlog.Base.{Bool, true, false, ◌&&◌, Option, none, some, List, [], ◌∷◌, if◌then◌else◌, not}
use sqlog.Sqlite.Db.{StorageDb}
use sqlog.Base.Int.{ℤ, pos, ltb_ℤ, eqb_ℤ, ◌+ℤ◌, ◌*ℤ◌}

-- A database that takes entries has no end yet.
unfoldable pub is_ended : StorageDb → Bool
is_ended d = not (eqb_ℤ d.epoch_end (pos 0))

unfoldable pub less : StorageDb → StorageDb → Bool
unfolding is_ended
less a b =
    if not (is_ended a) && not (is_ended b)
    then ltb_ℤ a.epoch_start b.epoch_start
    else if not (is_ended b)
    then true
    else if not (is_ended a)
    then false
    else ltb_ℤ b.epoch_end a.epoch_end

-- sort.SliceStable, by insertion: a database goes in front of the first that is not less.
unfoldable pub insert_db : StorageDb → List StorageDb → List StorageDb
unfolding less
insert_db d [] = d ∷ []
insert_db d (e ∷ ds) = let behind = insert_db d ds in if less e d then e ∷ behind else d ∷ (e ∷ ds)

unfoldable pub sort_dbs : List StorageDb → List StorageDb
unfolding insert_db
sort_dbs [] = []
sort_dbs (d ∷ ds) = insert_db d (sort_dbs ds)

-- dbs[len(dbs)-1]
unfoldable pub live_of : List StorageDb → Option StorageDb
live_of [] = none
live_of (d ∷ []) = some d
live_of (d ∷ e ∷ ds) = live_of (e ∷ ds)

unfoldable pub total_size : List StorageDb → ℤ
total_size [] = pos 0
total_size (d ∷ ds) = d.size +ℤ total_size ds

-- The last part of the size check: the database that is removed, if one is, and those that stay.
unfoldable pub check_total : ℤ → List StorageDb → Option StorageDb × List StorageDb
unfolding total_size
check_total cap_mb [] = (none, [])
check_total cap_mb (older ∷ ds) =
    if ltb_ℤ (cap_mb *ℤ pos 1000000) (total_size (older ∷ ds)) && not older.live
    then (some older, ds)
    else (none, older ∷ ds)
