-- ===== src/Sqlite/Query/Paging.antt =====
-- The page that `Entries` of sqlite/api_entries.go puts together.
use sqlog.Base.{
  ℕ, ◌+◌, ◌≡◌, ◌≢◌, refl, sym, ap, ◌∙◌, Bool, true, false, ◌&&◌, if◌then◌else◌, Option, none, some,
  List, [], ◌∷◌, ◌++◌, append-nil, append_assoc, Bytes, length, arith, All, All-map, if_both,
  if_cases,
}
use sqlog.Base.Int.{ℤ, pos, leb_ℤ}
use sqlog.Sqlite.Db.{StorageDb, is_open}
use sqlog.Sqlite.Query.Entries.{
  has_page, with_page, starts_sooner, insert_page, sort_page, page_dbs, Page, page_loop,
  entries_page,
}
use sqlog.Api.{EntriesInput, Row, Answer, failed, answered}

-- There are as many rows as were asked for.
abbrev pub is_full : ℤ → List Row → Bool
is_full max_result rows = leb_ℤ max_result (pos (length rows))

module _ {E : Type 0} (ask : StorageDb → Answer E (List Row)) (max_result : ℤ) where
  -- The rows of databases that are open and have answered, behind the rows `before`. Another one is
  -- asked only if there are not rows enough.
  pub data Asked : List Row → List StorageDb → List Row → Type 0 where
    nobody : {before : List Row} → Asked before [] []
    asks :
        {before ll found : List Row} {d : StorageDb} {ds : List StorageDb}
        → is_open d ≡ true
        → ask d ≡ answered ll
        → (ds ≢ [] → is_full max_result (before ++ ll) ≡ false)
        → Asked (before ++ ll) ds found
        → Asked before (d ∷ ds) (ll ++ found)

  -- Why the page ends behind the databases `asked`: no database is left; or the next one is closed
  -- and is the one that a task is scheduled for, and there are not rows enough or it is the first;
  -- or there are rows enough.
  pub data Ends (rows : List Row) (asked : List StorageDb)
      : List StorageDb → Option StorageDb → Type 0 where
    all_asked : Ends rows asked [] none
    at_closed :
        {d : StorageDb} {ds : List StorageDb}
        → is_open d ≡ false
        → (asked ≢ [] → is_full max_result rows ≡ false)
        → Ends rows asked (d ∷ ds) (some d)
    full :
        {ds : List StorageDb}
        → asked ≢ []
        → is_full max_result rows ≡ true
        → Ends rows asked ds none

  pub record Paged (before : List Row) (ds : List StorageDb) (page : Page) : Type 0 where
    pub asked : List StorageDb
    pub left : List StorageDb
    pub found : List Row
    pub order : ds ≡ asked ++ left
    pub answers : Asked before asked found
    pub rows : page.rows ≡ before ++ found
    pub ending : Ends page.rows asked left page.next

  -- A failure of the page is the failure of a database.
  abbrev pub Outcome : List Row → List StorageDb → Answer E Page → Type 0
  Outcome before ds (answered page) = Paged before ds page
  Outcome before ds (failed e) = (d : StorageDb) × (is_open d ≡ true) × (ask d ≡ failed e)

  Ends-ask :
      {list found rows : List Row} {asked left : List StorageDb} {next : Option StorageDb}
      (d : StorageDb)
      → is_full max_result list ≡ false
      → rows ≡ list ++ found
      → Asked list asked found
      → Ends rows asked left next
      → Ends rows (d ∷ asked) left next
  Ends-ask d few e a all_asked = all_asked
  Ends-ask d few e nobody (at_closed c h) =
      at_closed c (λ _. ap (is_full max_result) (e ∙ append-nil _) ∙ few)
  Ends-ask d few e (asks o q m a) (at_closed c h) = at_closed c (λ _. h (λ z. cc))
  Ends-ask d few e a (full ne h) = full (λ z. cc) h

  -- One more database has answered, and there are not rows enough.
  Paged-ask :
      {list ll : List Row} {d : StorageDb} {ds : List StorageDb} {page : Page}
      → is_open d ≡ true
      → ask d ≡ answered ll
      → is_full max_result (list ++ ll) ≡ false
      → Paged (list ++ ll) ds page
      → Paged list (d ∷ ds) page
  Paged-ask {list = list} {ll = ll} {d = d} opened answer few p = record {
    asked = d ∷ p.asked;
    left = p.left;
    found = ll ++ p.found;
    order = ap (λ l. d ∷ l) p.order;
    answers = asks opened answer (λ _. few) p.answers;
    rows = p.rows ∙ append_assoc list ll p.found;
    ending = Ends-ask d few p.rows p.answers p.ending;
  }

  Outcome-ask :
      (list ll : List Row) (d : StorageDb) (ds : List StorageDb) (a : Answer E Page)
      → is_open d ≡ true
      → ask d ≡ answered ll
      → is_full max_result (list ++ ll) ≡ false
      → Outcome (list ++ ll) ds a
      → Outcome list (d ∷ ds) a
  Outcome-ask list ll d ds (answered page) opened answer few p = Paged-ask opened answer few p
  Outcome-ask list ll d ds (failed e) opened answer few p = p

  -- There are rows enough behind a database.
  stopped_full :
      (list ll : List Row) (d : StorageDb) (ds : List StorageDb)
      → is_open d ≡ true
      → ask d ≡ answered ll
      → is_full max_result (list ++ ll) ≡ true
      → Paged list (d ∷ ds) (record { rows = list ++ ll; next = none })
  stopped_full list ll d ds opened answer enough = record {
    asked = d ∷ [];
    left = ds;
    found = ll ++ [];
    order = refl;
    answers = asks opened answer (λ ne. absurd (ne refl)) nobody;
    rows = ap (λ l. list ++ l) (sym (append-nil ll));
    ending = full (λ z. cc) enough;
  }

  -- There is no database left, or the next one is closed.
  stopped :
      (list : List Row) (ds : List StorageDb) (next : Option StorageDb)
      → Ends list [] ds next
      → Paged list ds (record { rows = list; next = next })
  stopped list ds next ending = record {
    asked = [];
    left = ds;
    found = [];
    order = refl;
    answers = nobody;
    rows = sym (append-nil list);
    ending = ending;
  }

  module _ (d : StorageDb) (ds : List StorageDb) (list : List Row)
      (later : (ll : List Row)
        → Outcome (list ++ ll) ds (page_loop ask max_result ds (list ++ ll))) where
    counted :
        is_open d ≡ true
        → (ll : List Row) → ask d ≡ answered ll
        → (b : Bool) → is_full max_result (list ++ ll) ≡ b
        → Outcome list (d ∷ ds) (elim b [
          | true ↦ answered (record { rows = list ++ ll; next = none })
          | false ↦ page_loop ask max_result ds (list ++ ll)
        ])
    counted opened ll answer true h = stopped_full list ll d ds opened answer h
    counted opened ll answer false h = Outcome-ask list ll d ds _ opened answer h (later ll)

    answer :
        is_open d ≡ true
        → (a : Answer E (List Row)) → ask d ≡ a
        → Outcome list (d ∷ ds) (elim a [
          | failed e ↦ failed e
          | answered ll ↦ elim (leb_ℤ max_result (pos (length (list ++ ll)))) [
            | true ↦ answered (record { rows = list ++ ll; next = none })
            | false ↦ page_loop ask max_result ds (list ++ ll)
          ]
        ])
    answer opened (failed e) h = (d, opened, h)
    answer opened (answered ll) h = counted opened ll h _ refl

    visited :
        (b : Bool)
        → is_open d ≡ b
        → Outcome list (d ∷ ds) (elim b [
          | false ↦ answered (record { rows = list; next = some d })
          | true ↦ elim (ask d) [
            | failed e ↦ failed e
            | answered ll ↦ elim (leb_ℤ max_result (pos (length (list ++ ll)))) [
              | true ↦ answered (record { rows = list ++ ll; next = none })
              | false ↦ page_loop ask max_result ds (list ++ ll)
            ]
          ]
        ])
    visited true h = answer h (ask d) refl
    visited false h = stopped list (d ∷ ds) (some d) (at_closed h (λ ne. absurd (ne refl)))

  page_loop-Outcome :
      (ds : List StorageDb) (list : List Row) → Outcome list ds (page_loop ask max_result ds list)
  unfolding page_loop
  page_loop-Outcome [] list = stopped list [] none all_asked
  page_loop-Outcome (d ∷ ds) list =
      visited d ds list (λ ll. page_loop-Outcome ds (list ++ ll)) (is_open d) refl

-- Each database in front of another does not start after it in the order of the direction.
abbrev pub Ordered : Bytes → List StorageDb → Type 0
Ordered direction [] = Unit
Ordered direction (d ∷ ds) =
    All (λ e. starts_sooner direction e d ≡ false) ds × Ordered direction ds

module _ (direction : Bytes) (P : StorageDb → Type 0) where
  All-insert_page :
      (d : StorageDb) (ds : List StorageDb) → P d → All P ds → All P (insert_page direction d ds)
  unfolding insert_page
  All-insert_page d [] x h = (x, tt)
  All-insert_page d (e ∷ ds) x h =
      if_both (All P) (starts_sooner direction e d) (h.0, All-insert_page d ds x h.1) (x, h)

-- How many of the databases pass a test.
abbrev pub count : (StorageDb → Bool) → List StorageDb → ℕ
count p [] = 0
count p (d ∷ ds) = (if p d then 1 else 0) + count p ds

module _ (direction : Bytes) (p : StorageDb → Bool) where
  insert_page-count :
      (d : StorageDb) (ds : List StorageDb)
      → count p (insert_page direction d ds) ≡ count p (d ∷ ds)
  unfolding insert_page
  insert_page-count d [] = refl
  insert_page-count d (e ∷ ds) =
      if_both (λ l. count p l ≡ count p (d ∷ e ∷ ds)) (starts_sooner direction e d)
        (omega (arith, insert_page-count d ds)) refl

  sort_page-count : (ds : List StorageDb) → count p (sort_page direction ds) ≡ count p ds
  unfolding sort_page
  sort_page-count [] = refl
  sort_page-count (d ∷ ds) =
      insert_page-count d (sort_page direction ds)
      ∙ ap (λ n. (if p d then 1 else 0) + n) (sort_page-count ds)

  with_page-count :
      (epoch : ℤ) (ds : List StorageDb)
      → count p (with_page direction epoch ds) ≡ count (λ d. has_page direction epoch d && p d) ds
  unfolding with_page
  with_page-count epoch [] = refl
  with_page-count epoch (d ∷ ds) =
      kept (has_page direction epoch d)
      ∙ ap (λ n. (if has_page direction epoch d && p d then 1 else 0) + n)
          (with_page-count epoch ds)
    where
      rest : List StorageDb
      rest = with_page direction epoch ds

      kept :
          (b : Bool)
          → count p (if b then d ∷ rest else rest) ≡ (if b && p d then 1 else 0) + count p rest
      kept true = refl
      kept false = omega arith

module _ (direction : Bytes) where
  sooner-asym :
      (a b : StorageDb) → starts_sooner direction a b ≡ true → starts_sooner direction b a ≡ false
  unfolding starts_sooner
  sooner-asym a b h = ground (arith, h)

  sooner_trans :
      (a b c : StorageDb)
      → starts_sooner direction b a ≡ false
      → starts_sooner direction c b ≡ false
      → starts_sooner direction c a ≡ false
  unfolding starts_sooner
  sooner_trans a b c h k = ground (arith, h, k)

  insert_page-Ordered :
      (d : StorageDb) (ds : List StorageDb)
      → Ordered direction ds
      → Ordered direction (insert_page direction d ds)
  unfolding insert_page
  insert_page-Ordered d [] h = (tt, tt)
  insert_page-Ordered d (e ∷ ds) h =
      if_cases (Ordered direction) (starts_sooner direction e d)
        (λ t. (
          All-insert_page direction (λ x. starts_sooner direction x e ≡ false) d ds
              (sooner-asym e d t) h.0,
          insert_page-Ordered d ds h.1,
        ))
        (λ f. ((f, All-map ds (λ x k. sooner_trans d e x f k) h.0), h))

  sort_page-Ordered : (ds : List StorageDb) → Ordered direction (sort_page direction ds)
  unfolding sort_page
  sort_page-Ordered [] = tt
  sort_page-Ordered (d ∷ ds) = insert_page-Ordered d (sort_page direction ds) (sort_page-Ordered ds)

-- `Entries` goes through the databases that may have entries of the page, each as often as the
-- storage lists it, and through no other, in the order of the direction: those that do not start
-- behind the epoch, the latest first, or those that have not ended before it, the earliest first. It
-- fails only if an open database fails; else the rows are those of the first databases, all of them
-- open, each row once and in the order of the answers. No database is gone to while there are as many
-- rows as were asked for, but for the first; the page ends at the last database, at one that is closed
-- and that the task is scheduled for, or with as many rows as were asked for.
pub entries_page-Paged :
    {E : Type 0} (ask : StorageDb → Answer E (List Row)) (epoch : ℤ) (input : EntriesInput)
    (dbs : List StorageDb)
    → Ordered input.direction (page_dbs input.direction epoch dbs)
      × ((p : StorageDb → Bool)
          → count p (page_dbs input.direction epoch dbs)
            ≡ count (λ d. has_page input.direction epoch d && p d) dbs)
      × Outcome ask input.max_result []
          (page_dbs input.direction epoch dbs)
          (entries_page ask epoch input dbs)
unfolding entries_page page_dbs
entries_page-Paged ask epoch input dbs =
    let ds = with_page input.direction epoch dbs in
    (
      sort_page-Ordered input.direction ds,
      (λ p. sort_page-count input.direction p ds ∙ with_page-count input.direction p epoch dbs),
      page_loop-Outcome ask input.max_result (sort_page input.direction ds) [],
    )
