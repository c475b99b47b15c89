-- ===== src/Sqlite/Storage/Heap.antt =====
-- Pointers to the databases of sqlite/storage.go, and what is behind them.
use mathlib.Core.Path.{subst}
use sqlog.Base.{
  ℕ, zero, suc, ◌<◌, ◌≡◌, ◌≢◌, refl, ap, some, List, [], ◌∷◌, ◌++◌, length, get_elem?, All, arith,
  if_both, Option_both,
}
use sqlog.Base.Int.{ℤ}
use sqlog.Sqlite.Db.{StorageDb}
use sqlog.Sqlite.Storage.{set_at, last_of, takes, choose_db}

-- Pointers to databases that are there.
abbrev pub Valid : List StorageDb → List ℕ → Type 0
Valid heap is = All (λ i. i < length heap) is

pub get-some :
    (heap : List StorageDb) (i : ℕ)
    → i < length heap
    → (d : StorageDb) × (get_elem? heap i ≡ some d)
get-some [] i h = absurd (omega (arith, h))
get-some (d ∷ heap) zero h = (d, refl)
get-some (d ∷ heap) (suc i) h = get-some heap i (omega (arith, h))

pub get-All :
    (P : StorageDb → Type 0) (heap : List StorageDb) (i : ℕ) (d : StorageDb)
    → All P heap
    → get_elem? heap i ≡ some d
    → P d
get-All P [] i d h e = cc
get-All P (x ∷ heap) zero d h e = subst P (ground (arith, e)) h.0
get-All P (x ∷ heap) (suc i) d h e = get-All P heap i d h.1 e

pub set_at-All :
    (P : StorageDb → Type 0) (i : ℕ) (d : StorageDb) (heap : List StorageDb)
    → P d
    → All P heap
    → All P (set_at i d heap)
unfolding set_at
set_at-All P i d [] x h = tt
set_at-All P zero d (e ∷ heap) x h = (x, h.1)
set_at-All P (suc i) d (e ∷ heap) x h = (h.0, set_at-All P i d heap x h.1)

pub get-set_at :
    (i j : ℕ) (d : StorageDb) (heap : List StorageDb)
    → i ≢ j
    → get_elem? (set_at i d heap) j ≡ get_elem? heap j
unfolding set_at
get-set_at i j d [] h = refl
get-set_at zero zero d (e ∷ heap) h = absurd (h refl)
get-set_at zero (suc j) d (e ∷ heap) h = refl
get-set_at (suc i) zero d (e ∷ heap) h = refl
get-set_at (suc i) (suc j) d (e ∷ heap) h = get-set_at i j d heap (λ q. h (ap suc q))

pub get-append :
    (heap : List StorageDb) (d : StorageDb) → get_elem? (heap ++ d ∷ []) (length heap) ≡ some d
get-append [] d = refl
get-append (x ∷ heap) d = get-append heap d

pub last_of-Valid :
    (heap : List StorageDb) (i : ℕ) (is : List ℕ) → Valid heap (i ∷ is) → last_of i is < length heap
unfolding last_of
last_of-Valid heap i [] h = h.0
last_of-Valid heap i (j ∷ is) h = last_of-Valid heap j is h.1

pub last_of-append : (i : ℕ) (is : List ℕ) (j : ℕ) → last_of i (is ++ j ∷ []) ≡ j
unfolding last_of
last_of-append i [] j = refl
last_of-append i (k ∷ is) j = last_of-append k is j

pub choose_db-Valid :
    (first last : ℤ) (heap : List StorageDb) (is : List ℕ) (otherwise : ℕ)
    → Valid heap is
    → otherwise < length heap
    → choose_db first last heap is otherwise < length heap
unfolding choose_db
choose_db-Valid first last heap [] otherwise h o = o
choose_db-Valid first last heap (i ∷ is) otherwise h o =
    let rest = choose_db-Valid first last heap is otherwise h.1 o in
    Option_both (λ j. j < length heap) (get_elem? heap i) rest
      (λ d. if_both (λ j. j < length heap) (takes first last d) h.0 rest)
