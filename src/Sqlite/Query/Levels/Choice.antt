-- ===== src/Sqlite/Query/Levels/Choice.antt =====
-- The filter on levels of sqlite/api_entries.go and sqlite/api_ticks.go lets exactly the levels
-- pass that are chosen.
use sqlog.Base.{
  ℕ, ◌+◌, ◌≡◌, refl, Bool, true, false, not, ◌&&◌, ◌||◌, List, [], ◌∷◌, ◌++◌, map, ltb, ◌==◌,
  if◌then◌else◌, Bytes, codes, bytes_eq, arith, ◌⊎◌, inl, inr, ap, sym, ◌∙◌, Bool-cases,
}
use sqlog.Base.Int.{ℤ, pos, ltb_ℤ, leb_ℤ}
use sqlog.Base.Decimal.{format_int}
use sqlog.Sqlite.Query.Levels.{
  has_level, distinct, level_sql, level_sql_of, is_filtered, entries_filter, ticks_filter,
}

pub data Level : Type 0 where
  error : Level
  warn : Level
  info : Level
  debug : Level

unfoldable pub spelling : Level → Bytes
spelling error = codes "error"
spelling warn = codes "warn"
spelling info = codes "info"
spelling debug = codes "debug"

-- The level that the number of an entry stands for, as slog has them.
unfoldable pub level_of : ℤ → Level
level_of l =
    if ltb_ℤ l (pos 0)
    then debug
    else if ltb_ℤ l (pos 4)
    then info
    else if ltb_ℤ l (pos 8)
    then warn
    else error

unfoldable pub same_level : Level → Level → Bool
same_level error error = true
same_level warn warn = true
same_level info info = true
same_level debug debug = true
same_level _ _ = false

unfoldable pub chosen : Level → List Level → Bool
unfolding same_level
chosen l [] = false
chosen l (m ∷ ls) = same_level m l || chosen l ls

-- A test of the number of an entry's level, its SQL and its meaning.
pub data LevelTest : Type 0 where
  from : ℕ → LevelTest
  within : ℕ → ℕ → LevelTest
  negative : LevelTest

unfoldable pub test_sql : LevelTest → Bytes
test_sql (from n) = codes " e.level >= " ++ (format_int (pos n) ++ codes " ")
test_sql (within n m) =
    codes " (e.level BETWEEN "
    ++ (format_int (pos n) ++ (codes " AND " ++ (format_int (pos m) ++ codes ") ")))
test_sql negative = codes " e.level < 0 "

unfoldable pub test_holds : LevelTest → ℤ → Bool
test_holds (from n) l = leb_ℤ (pos n) l
test_holds (within n m) l = leb_ℤ (pos n) l && leb_ℤ l (pos m)
test_holds negative l = ltb_ℤ l (pos 0)

unfoldable pub tests_sql : List LevelTest → Bytes
unfolding test_sql
tests_sql [] = []
tests_sql (t ∷ []) = test_sql t
tests_sql (t ∷ u ∷ ts) = test_sql t ++ (codes " OR " ++ tests_sql (u ∷ ts))

unfoldable pub any_holds : List LevelTest → ℤ → Bool
unfolding test_holds
any_holds [] l = false
any_holds (t ∷ ts) l = test_holds t l || any_holds ts l

-- Whether a level passes of which the flags say if it is chosen.
unfoldable pub passes : Bool → Bool → Bool → Bool → Level → Bool
passes e w i d error = e
passes e w i d warn = w
passes e w i d info = i
passes e w i d debug = d

abbrev Selects : Bool → Bool → Bool → Bool → Type 0
Selects e w i d =
    (ts : List LevelTest) × (level_sql e w i d ≡ tests_sql ts)
    × ((l : ℤ) → any_holds ts l ≡ passes e w i d (level_of l))

-- For the tests that each choice writes.
selects : (e w i d : Bool) → (e && (w && (i && d))) ≡ false → Selects e w i d
unfolding level_sql tests_sql any_holds passes level_of format_int
selects true true true true h = absurd (ground (arith, h))
selects true true true false h = (from 0 ∷ [], refl, λ l. ground arith)
selects true true false true h = (from 4 ∷ negative ∷ [], refl, λ l. ground arith)
selects true true false false h = (from 4 ∷ [], refl, λ l. ground arith)
selects true false true true h = (from 8 ∷ within 0 3 ∷ negative ∷ [], refl, λ l. ground arith)
selects true false true false h = (from 8 ∷ within 0 3 ∷ [], refl, λ l. ground arith)
selects true false false true h = (from 8 ∷ negative ∷ [], refl, λ l. ground arith)
selects true false false false h = (from 8 ∷ [], refl, λ l. ground arith)
selects false true true true h = (within 4 7 ∷ within 0 3 ∷ negative ∷ [], refl, λ l. ground arith)
selects false true true false h = (within 4 7 ∷ within 0 3 ∷ [], refl, λ l. ground arith)
selects false true false true h = (within 4 7 ∷ negative ∷ [], refl, λ l. ground arith)
selects false true false false h = (within 4 7 ∷ [], refl, λ l. ground arith)
selects false false true true h = (within 0 3 ∷ negative ∷ [], refl, λ l. ground arith)
selects false false true false h = (within 0 3 ∷ [], refl, λ l. ground arith)
selects false false false true h = (negative ∷ [], refl, λ l. ground arith)
selects false false false false h = ([], refl, λ l. ground arith)

spelling-same : (m x : Level) → bytes_eq (spelling m) (spelling x) ≡ same_level m x
unfolding spelling same_level
spelling-same error error = refl
spelling-same error warn = refl
spelling-same error info = refl
spelling-same error debug = refl
spelling-same warn error = refl
spelling-same warn warn = refl
spelling-same warn info = refl
spelling-same warn debug = refl
spelling-same info error = refl
spelling-same info warn = refl
spelling-same info info = refl
spelling-same info debug = refl
spelling-same debug error = refl
spelling-same debug warn = refl
spelling-same debug info = refl
spelling-same debug debug = refl

has_level-chosen :
    (x : Level) (ls : List Level) → has_level (spelling x) (map spelling ls) ≡ chosen x ls
unfolding has_level chosen
has_level-chosen x [] = refl
has_level-chosen x (m ∷ ls) = rw (spelling-same m x, has_level-chosen x ls) refl

abbrev weight : Bool → ℕ
weight true = 1
weight false = 0

-- How many of the four levels are chosen.
abbrev weights : List Level → ℕ
weights ls =
    weight (chosen error ls)
    + (weight (chosen warn ls) + (weight (chosen info ls) + weight (chosen debug ls)))

distinct-weights : (ls : List Level) → distinct (map spelling ls) ≡ weights ls
unfolding distinct chosen same_level
distinct-weights [] = refl
distinct-weights (m ∷ ls) = rw (has_level-chosen m ls, distinct-weights ls) (one_more m)
  where
    one_more : (m : Level) → (if chosen m ls then weights ls else 1 + weights ls) ≡ weights (m ∷ ls)
    one_more error = ground arith
    one_more warn = ground arith
    one_more info = ground arith
    one_more debug = ground arith

passes-chosen :
    (ls : List Level) (x : Level)
    → passes (chosen error ls) (chosen warn ls) (chosen info ls) (chosen debug ls) x ≡ chosen x ls
unfolding passes
passes-chosen ls error = refl
passes-chosen ls warn = refl
passes-chosen ls info = refl
passes-chosen ls debug = refl

-- Four levels are all of them.
four-chosen :
    (e w i d : Bool)
    → weight e + (weight w + (weight i + weight d)) ≡ 4
    → (x : Level) → passes e w i d x ≡ true
unfolding passes
four-chosen e w i d h error = ground (arith, h)
four-chosen e w i d h warn = ground (arith, h)
four-chosen e w i d h info = ground (arith, h)
four-chosen e w i d h debug = ground (arith, h)

less_than_four :
    (e w i d : Bool)
    → (weight e + (weight w + (weight i + weight d)) == 4) ≡ false
    → (e && (w && (i && d))) ≡ false
less_than_four e w i d h = ground (arith, h)

level_sql-chosen :
    (ls : List Level)
    → level_sql_of (map spelling ls)
      ≡ level_sql (chosen error ls) (chosen warn ls) (chosen info ls) (chosen debug ls)
unfolding level_sql_of spelling
level_sql-chosen ls =
    rw
      (
        has_level-chosen error ls,
        has_level-chosen warn ls,
        has_level-chosen info ls,
        has_level-chosen debug ls,
      )
      refl

some_weight : (m : Level) (ls : List Level) → ltb 0 (weights (m ∷ ls)) ≡ true
unfolding chosen same_level
some_weight error ls = ground arith
some_weight warn ls = ground arith
some_weight info ls = ground arith
some_weight debug ls = ground arith

is_filtered-weights :
    (m : Level) (ls : List Level)
    → is_filtered (map spelling (m ∷ ls)) ≡ not (weights (m ∷ ls) == 4)
unfolding is_filtered
is_filtered-weights m ls = rw (distinct-weights (m ∷ ls), some_weight m ls) refl

-- Whatever levels are chosen: either all four are, and neither query has a filter; or both have
-- the same tests, joined by OR, and a number passes one of them exactly if its level is chosen.
pub filter-chosen :
    (m : Level) (ls : List Level)
    → (((l : ℤ) → chosen (level_of l) (m ∷ ls) ≡ true)
        × (entries_filter (map spelling (m ∷ ls)) ≡ [])
        × (ticks_filter (map spelling (m ∷ ls)) ≡ []))
      ⊎ ((ts : List LevelTest) × ((l : ℤ) → any_holds ts l ≡ chosen (level_of l) (m ∷ ls))
          × (entries_filter (map spelling (m ∷ ls))
              ≡ codes " AND (" ++ (tests_sql ts ++ codes ") "))
          × (ticks_filter (map spelling (m ∷ ls))
              ≡ codes " WHERE " ++ (codes " (" ++ (tests_sql ts ++ codes ") "))))
unfolding entries_filter ticks_filter
filter-chosen m ls = elim (Bool-cases (weights (m ∷ ls) == 4)) [
  | inl four ↦
      let off : is_filtered (map spelling (m ∷ ls)) ≡ false =
        is_filtered-weights m ls ∙ ap not four in
      inl (
        λ l.
            sym (passes-chosen (m ∷ ls) (level_of l))
            ∙ four-chosen _ _ _ _ (ground (arith, four)) (level_of l),
        rw off refl,
        rw off refl,
      )
  | inr other ↦
      let on : is_filtered (map spelling (m ∷ ls)) ≡ true =
        is_filtered-weights m ls ∙ ap not other in
      let (ts, sql, holds) = selects _ _ _ _ (less_than_four _ _ _ _ other) in
      inr (
        ts,
        λ l. holds l ∙ passes-chosen (m ∷ ls) (level_of l),
        rw (on, level_sql-chosen (m ∷ ls), sql) refl,
        rw (on, level_sql-chosen (m ∷ ls), sql) refl,
      )
]
