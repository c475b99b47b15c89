-- ===== src/Sqlite/Databases/Order.antt =====
-- What stands at the ends of the sorted list of databases.
use mathlib.Core.Path.{subst}
use sqlog.Base.{
  ◌≡◌, true, false, not, ◌&&◌, Option, some, List, [], ◌∷◌, All, All-map, arith, if_cases,
}
use sqlog.Base.Int.{ℤ, pos, ltb_ℤ, ◌*ℤ◌}
use sqlog.Sqlite.Db.{StorageDb}
use sqlog.Sqlite.Databases.{is_ended, less, insert_db, sort_dbs, live_of, total_size, check_total}

less-asym : (a b : StorageDb) → less a b ≡ true → less b a ≡ false
unfolding less is_ended
less-asym a b h = ground arith

not_less_trans : (a b c : StorageDb) → less b a ≡ false → less c b ≡ false → less c a ≡ false
unfolding less is_ended
not_less_trans a b c h k = ground arith

-- No database is less than one in front of it.
abbrev Sorted : List StorageDb → Type 0
Sorted [] = Unit
Sorted (d ∷ ds) = All (λ e. less e d ≡ false) ds × Sorted ds

-- What holds of the sorted databases holds of the databases, and the other way.
module _ (P : StorageDb → Type 0) where
  All-insert_db : (d : StorageDb) (ds : List StorageDb) → P d → All P ds → All P (insert_db d ds)
  unfolding insert_db
  All-insert_db d [] x h = (x, tt)
  All-insert_db d (e ∷ ds) x h =
      if_cases (All P) (less e d) (λ _. (h.0, All-insert_db d ds x h.1)) (λ _. (x, h))

  insert_db-All : (d : StorageDb) (ds : List StorageDb) → All P (insert_db d ds) → P d × All P ds
  unfolding insert_db
  insert_db-All d [] h = (h.0, tt)
  insert_db-All d (e ∷ ds) h =
      if_cases (λ l. All P l → P d × All P (e ∷ ds)) (less e d)
        (λ _ k. let (x, r) = insert_db-All d ds k.1 in (x, (k.0, r))) (λ _ k. (k.0, k.1)) h

  sort_dbs-All : (ds : List StorageDb) → All P (sort_dbs ds) → All P ds
  unfolding sort_dbs
  sort_dbs-All [] h = tt
  sort_dbs-All (d ∷ ds) h = let (x, h') = insert_db-All d (sort_dbs ds) h in (x, sort_dbs-All ds h')

insert_db-Sorted : (d : StorageDb) (ds : List StorageDb) → Sorted ds → Sorted (insert_db d ds)
unfolding insert_db
insert_db-Sorted d [] h = (tt, tt)
insert_db-Sorted d (e ∷ ds) h =
    if_cases Sorted (less e d)
      (λ t. (
        All-insert_db (λ x. less x e ≡ false) d ds (less-asym e d t) h.0,
        insert_db-Sorted d ds h.1,
      ))
      (λ f. ((f, All-map ds (λ x k. not_less_trans d e x f k) h.0), h))

sort_dbs-Sorted : (ds : List StorageDb) → Sorted (sort_dbs ds)
unfolding sort_dbs
sort_dbs-Sorted [] = tt
sort_dbs-Sorted (d ∷ ds) = insert_db-Sorted d (sort_dbs ds) (sort_dbs-Sorted ds)

live_of-All :
    (P : StorageDb → Type 0) (ds : List StorageDb) (last : StorageDb)
    → All P ds
    → live_of ds ≡ some last
    → P last
unfolding live_of
live_of-All P [] last h q = cc
live_of-All P (d ∷ []) last h q = subst P (ground (arith, q)) h.0
live_of-All P (d ∷ e ∷ ds) last h q = live_of-All P (e ∷ ds) last h.1 q

less_irrefl : (d : StorageDb) → less d d ≡ false
unfolding less is_ended
less_irrefl d = ground arith

Sorted-live_of :
    (ds : List StorageDb) (last : StorageDb)
    → Sorted ds
    → live_of ds ≡ some last
    → All (λ d. less last d ≡ false) ds
unfolding live_of
Sorted-live_of [] last s q = tt
Sorted-live_of (d ∷ []) last s q =
    (subst (λ x. less x d ≡ false) (ground (arith, q)) (less_irrefl d), tt)
Sorted-live_of (d ∷ e ∷ ds) last s q =
    (live_of-All (λ x. less x d ≡ false) (e ∷ ds) last s.0 q, Sorted-live_of (e ∷ ds) last s.1 q)

-- A database that is open is not in front of the last.
not_less-open :
    (last d : StorageDb)
    → less last d ≡ false
    → is_ended d ≡ false
    → (is_ended last ≡ false) × (ltb_ℤ last.epoch_start d.epoch_start ≡ false)
unfolding less is_ended
not_less-open last d h o = (ground arith, ground arith)

not_less-ended :
    (first d : StorageDb)
    → less d first ≡ false
    → is_ended d ≡ true
    → (is_ended first ≡ true) × (ltb_ℤ first.epoch_end d.epoch_end ≡ false)
unfolding less is_ended
not_less-ended first d h o = (ground arith, ground arith)

-- The last of the sorted databases, which `New` makes the live one, has no end if any has none,
-- and of those that have none it is one with the latest start.
pub sort_dbs-live_of :
    (ds : List StorageDb) (last : StorageDb)
    → live_of (sort_dbs ds) ≡ some last
    → All
        (λ d.
          is_ended d ≡ false
          → (is_ended last ≡ false) × (ltb_ℤ last.epoch_start d.epoch_start ≡ false))
        ds
sort_dbs-live_of ds last q = sort_dbs-All _ ds (
    All-map (sort_dbs ds) (λ d h o. not_less-open last d h o)
      (Sorted-live_of (sort_dbs ds) last (sort_dbs-Sorted ds) q))

-- No database with an end has a later one.
abbrev pub IsNewest : StorageDb → List StorageDb → Type 0
IsNewest d ds =
    All (λ e. is_ended e ≡ true → (is_ended d ≡ true) × (ltb_ℤ d.epoch_end e.epoch_end ≡ false)) ds

Sorted-IsNewest : (d : StorageDb) (ds : List StorageDb) → Sorted (d ∷ ds) → IsNewest d (d ∷ ds)
Sorted-IsNewest d ds s =
    (not_less-ended d d (less_irrefl d), All-map ds (λ e h o. not_less-ended d e h o) s.0)

check_total-IsNewest-Sorted :
    (cap_mb : ℤ) (ds : List StorageDb) (older : StorageDb)
    → Sorted ds
    → (check_total cap_mb ds).0 ≡ some older
    → (older.live ≡ false) × IsNewest older ds
unfolding check_total
check_total-IsNewest-Sorted cap_mb [] older s q = cc
check_total-IsNewest-Sorted cap_mb (d ∷ ds) older s q =
    if_cases
      (λ (p : Option StorageDb × List StorageDb).
        p.0 ≡ some older → (older.live ≡ false) × IsNewest older (d ∷ ds))
      (ltb_ℤ (cap_mb *ℤ pos 1000000) (total_size (d ∷ ds)) && not d.live)
      (λ t e.
        subst (λ x. (x.live ≡ false) × IsNewest x (d ∷ ds)) (ground (arith, e))
          (ground (arith, t), Sorted-IsNewest d ds s))
      (λ f e. cc) q

-- The database that the size check removes from the sorted ones is not live, and it is the newest:
-- it has an end if any has one, and none of the others has a later end.
pub check_total-IsNewest :
    (cap_mb : ℤ) (ds : List StorageDb) (older : StorageDb)
    → (check_total cap_mb (sort_dbs ds)).0 ≡ some older
    → (older.live ≡ false) × IsNewest older ds
check_total-IsNewest cap_mb ds older q =
    let (l, h) = check_total-IsNewest-Sorted cap_mb (sort_dbs ds) older (sort_dbs-Sorted ds) q in
    (l, sort_dbs-All _ ds h)
