-- ===== src/Sqlite/Query/Tests.antt =====
-- Runs of the queries of sqlite/api_entries.go and sqlite/api_ticks.go, and instances of the
-- theorems.
use sqlog.Base.{
  ℕ, ◌≡◌, refl, Bool, true, false, ◌⊎◌, Option, none, some, List, [], ◌∷◌, ◌++◌, ◌-◌, ◌&&◌, leb,
  if◌then◌else◌, Bytes, codes,
}
use sqlog.Base.Int.{ℤ, pos}
use sqlog.Expr.Safety.{Returns}
use sqlog.Sqlite.Db.{StorageDb, new_db, db_open, db_closed}
use sqlog.Sqlite.Query.Levels.{entries_filter, ticks_filter}
use sqlog.Sqlite.Query.Levels.Choice.{
  warn, debug, spelling, level_of, chosen, LevelTest, any_holds, tests_sql, filter-chosen,
}
use sqlog.Sqlite.Query.Entries.{has_page, page_dbs, entries_page, entries_statement}
use sqlog.Sqlite.Query.Ticks.{ticks_statement}
use sqlog.Sqlite.Query.Binding.{IsSafe, default_builder, statements-IsSafe}
use sqlog.Sqlite.Query.Paging.{count, Ordered, Outcome, entries_page-Paged}
use sqlog.Api.{EntriesInput, TicksInput, Row, Answer, answered}

-- Numbers of one digit.
abbrev digit : Bytes → Option ℕ
digit [] = none
digit (c ∷ []) = if leb b'0' c && leb c b'9' then some (c - b'0') else none
digit (c ∷ d ∷ rest) = none

abbrev page_input : EntriesInput
page_input = record {
  expr = codes " a OR x:>5 ";
  level = codes "warn" ∷ codes "debug" ∷ codes "warn" ∷ [];
  direction = codes "before";
  epoch_start = pos 250;
  nanos_start = pos 0;
  max_result = pos 3;
}

abbrev series_input : TicksInput
series_input = record {
  expr = codes "a OR b";
  level = codes "error" ∷ [];
  epoch_end = pos 0;
  interval_sec = pos 5;
  max_result = pos 20;
}

filter_text :
    entries_filter page_input.level ≡ codes " AND ( (e.level BETWEEN 4 AND 7)  OR  e.level < 0 ) "
unfolding entries_filter
filter_text = refl

-- Three known names and one that is not are four names, so that no filter is written.
filter_unknown :
    entries_filter (codes "error" ∷ codes "warn" ∷ codes "info" ∷ codes "fatal" ∷ []) ≡ []
unfolding entries_filter
filter_unknown = refl

filter_only_unknown : entries_filter (codes "fatal" ∷ []) ≡ codes " AND () "
unfolding entries_filter
filter_only_unknown = refl

filter-chosen_example :
    (((l : ℤ) → chosen (level_of l) (warn ∷ debug ∷ []) ≡ true)
      × (entries_filter (codes "warn" ∷ codes "debug" ∷ []) ≡ [])
      × (ticks_filter (codes "warn" ∷ codes "debug" ∷ []) ≡ []))
    ⊎ ((ts : List LevelTest) × ((l : ℤ) → any_holds ts l ≡ chosen (level_of l) (warn ∷ debug ∷ []))
        × (entries_filter (codes "warn" ∷ codes "debug" ∷ [])
            ≡ codes " AND (" ++ (tests_sql ts ++ codes ") "))
        × (ticks_filter (codes "warn" ∷ codes "debug" ∷ [])
            ≡ codes " WHERE " ++ (codes " (" ++ (tests_sql ts ++ codes ") "))))
unfolding spelling
filter-chosen_example = filter-chosen warn (debug ∷ [])

statements-IsSafe_example :
    Returns IsSafe (entries_statement (default_builder digit) (pos 1700000000) page_input)
    × Returns IsSafe (ticks_statement (default_builder digit) (pos 1700000000) series_input)
statements-IsSafe_example = statements-IsSafe digit (pos 1700000000) page_input series_input

abbrev row : ℕ → Row
row s = record { epoch = pos s; nanos = pos 0; level = pos 4; content = codes "{}" }

-- A database that is open, or not.
abbrev db : ℕ → Bool → StorageDb
db start opened = record (new_db (λ dir name. name) [] [] (pos start) (pos 3600)) {
  status = if opened then db_open else db_closed;
}

-- Each database has one row, at its start.
abbrev ask : StorageDb → Answer ℕ (List Row)
ask d =
    answered
      (record { epoch = d.epoch_start; nanos = pos 0; level = pos 4; content = codes "{}" } ∷ [])

abbrev dbs : List StorageDb
dbs = db 100 false ∷ db 300 true ∷ db 200 true ∷ db 210 true ∷ []

page_rows :
    entries_page ask (pos 250) page_input dbs
    ≡ answered record { rows = row 210 ∷ row 200 ∷ []; next = some (db 100 false) }
unfolding entries_page new_db
page_rows = refl

entries_page-Paged_example :
    Ordered (codes "before") (page_dbs (codes "before") (pos 250) dbs)
    × ((p : StorageDb → Bool)
        → count p (page_dbs (codes "before") (pos 250) dbs)
          ≡ count (λ d. has_page (codes "before") (pos 250) d && p d) dbs)
    × Outcome ask
        (pos 3)
        []
        (page_dbs (codes "before") (pos 250) dbs)
        (entries_page ask (pos 250) page_input dbs)
entries_page-Paged_example = entries_page-Paged ask (pos 250) page_input dbs
