-- ===== src/Sqlite/Db/Lifecycle/Tasks.antt =====
-- The tasks of a database of sqlite/storage_db.go: its counter is the size of its map.
use sqlog.Base.{
  ℕ, suc, ◌-◌, ◌%◌, ◌^◌, ◌≡◌, refl, sym, ap, ◌∙◌, Bool, true, false, List, [], ◌∷◌, ltb, length,
  arith, if_both, if_cases,
}
use sqlog.Sqlite.Db.{
  StorageDb, is_open, store_id, has_id, delete_id, dec32, schedule, cancel, execute,
}
use sqlog.Sqlite.Db.Lifecycle.{IsWf}

length-store_id :
    (id : ℕ) (ids : List ℕ) → has_id id ids ≡ false → length (store_id id ids) ≡ suc (length ids)
unfolding store_id has_id
length-store_id id [] h = refl
length-store_id id (i ∷ ids) h = grind (arith, length-store_id id ids)

length-delete_id :
    (id : ℕ) (ids : List ℕ) → has_id id ids ≡ true → suc (length (delete_id id ids)) ≡ length ids
unfolding delete_id has_id
length-delete_id id [] h = ground (arith, h)
length-delete_id id (i ∷ ids) h = grind (arith, length-delete_id id ids)

counted-dec32 : (n m l : ℕ) → n ≡ m % 2 ^ 32 → suc l ≡ m → dec32 n ≡ l % 2 ^ 32
unfolding dec32
counted-dec32 n m l h e = omega (arith, h, e)

-- One task fewer.
forget-IsWf :
    (d : StorageDb) (ids : List ℕ)
    → suc (length ids) ≡ length d.task_map
    → IsWf d
    → IsWf (record d { task_map = ids; task_count = dec32 d.task_count })
unfolding is_open
forget-IsWf d ids e w = record {
  opened = w.opened;
  settled = w.settled;
  counted = counted-dec32 d.task_count (length d.task_map) (length ids) w.counted e;
}

pub schedule-IsWf :
    (id : ℕ) (d : StorageDb) → has_id id d.task_map ≡ false → IsWf d → IsWf (schedule id d)
unfolding schedule is_open
schedule-IsWf id d h w = record {
  opened = w.opened;
  settled = w.settled;
  counted = omega (arith, w.counted, length-store_id id d.task_map h);
}

pub cancel-IsWf : (id : ℕ) (d : StorageDb) → IsWf d → IsWf (cancel id d).1
unfolding cancel
cancel-IsWf id d w =
    if_cases (λ (r : Bool × StorageDb). IsWf r.1) (has_id id d.task_map)
      (λ h. forget-IsWf d (delete_id id d.task_map) (length-delete_id id d.task_map h) w) (λ _. w)

delete_id-head : (id : ℕ) (ids : List ℕ) → delete_id id (id ∷ ids) ≡ ids
unfolding delete_id
delete_id-head id ids = ground arith

pub execute-IsWf :
    (n : ℕ) (ids : List ℕ) (d : StorageDb) → d.task_map ≡ ids → IsWf d → IsWf (execute n ids d).1
unfolding execute
execute-IsWf n [] d h w = w
execute-IsWf n (id ∷ ids) d h w =
    let rest : delete_id id d.task_map ≡ ids = ap (delete_id id) h ∙ delete_id-head id ids in
    let w' =
      forget-IsWf d (delete_id id d.task_map) (ap (λ l. suc (length l)) rest ∙ sym (ap length h))
        w in
    if_both (λ (r : List ℕ × StorageDb). IsWf r.1) (ltb 0 n) (execute-IsWf (n - 1) ids _ rest w') w'
