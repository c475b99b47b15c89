-- ===== src/Sqlite/Databases/Tests.antt =====
-- Runs of the list of databases of sqlite/storage.go, and instances of the theorems.
use sqlog.Base.{◌≡◌, refl, false, List, [], ◌∷◌, All, ℕ}
use sqlog.Base.Int.{pos, ltb_ℤ, ◌*ℤ◌, ◌+ℤ◌}
use sqlog.Sqlite.Db.{StorageDb, new_db}
use sqlog.Sqlite.Databases.{is_ended, sort_dbs, live_of, check_total}
use sqlog.Sqlite.Databases.Order.{IsNewest, sort_dbs-live_of, check_total-IsNewest}

abbrev db : ℕ → ℕ → StorageDb
db start end = record (new_db (λ dir name. name) [] [] (pos start) (pos 3600)) {
  epoch_end = pos end;
  size = pos 30000000;
}

abbrev three : List StorageDb
three = db 100 200 ∷ db 300 0 ∷ db 200 300 ∷ []

sorted_three : sort_dbs three ≡ db 200 300 ∷ db 100 200 ∷ db 300 0 ∷ []
unfolding new_db sort_dbs
sorted_three = refl

sort_dbs-live_of_example :
    All
      (λ d.
        is_ended d ≡ false
        → (is_ended (db 300 0) ≡ false) × (ltb_ℤ (pos 300) d.epoch_start ≡ false))
      three
unfolding new_db sort_dbs live_of
sort_dbs-live_of_example = sort_dbs-live_of three (db 300 0) refl

check_total-IsNewest_example : (false ≡ false) × IsNewest (db 200 300) three
unfolding new_db sort_dbs check_total ◌*ℤ◌ ◌+ℤ◌
check_total-IsNewest_example = check_total-IsNewest (pos 80) three (db 200 300) refl
