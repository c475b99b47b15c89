-- ===== src/Sqlite/Query/Levels.antt =====
-- The filter on levels of sqlite/api_entries.go and sqlite/api_ticks.go.
pub mod Choice
use sqlog.Base.{
  ℕ, ◌+◌, Bool, true, false, not, ◌&&◌, ◌||◌, List, [], ◌∷◌, ◌++◌, ltb, ◌==◌, if◌then◌else◌, Bytes,
  codes, bytes_eq, length,
}

-- levels[name], for a map of the names that are given
unfoldable pub has_level : Bytes → List Bytes → Bool
has_level name [] = false
has_level name (n ∷ names) = bytes_eq n name || has_level name names

-- len(levels)
unfoldable pub distinct : List Bytes → ℕ
unfolding has_level
distinct [] = 0
distinct (n ∷ names) = let rest = distinct names in if has_level n names then rest else 1 + rest

-- What is written between the parentheses: `clause` is what the next test begins with.
unfoldable pub level_tail : Bytes → Bool → Bool → Bytes
level_tail clause info debug =
    let sep = if info then codes " OR " else clause in
    (if info then clause ++ codes " (e.level BETWEEN 0 AND 3) " else [])
    ++ (if debug then sep ++ codes " e.level < 0 " else [])

unfoldable pub level_sql : Bool → Bool → Bool → Bool → Bytes
unfolding level_tail
level_sql error warn info debug =
    if error && (warn && info)
    then codes " e.level >= 0 "
    else if error && warn
    then codes " e.level >= 4 " ++ level_tail (codes " OR ") info debug
    else if error
    then codes " e.level >= 8 " ++ level_tail (codes " OR ") info debug
    else if warn
    then codes " (e.level BETWEEN 4 AND 7) " ++ level_tail (codes " OR ") info debug
    else level_tail [] info debug

unfoldable pub level_sql_of : List Bytes → Bytes
unfolding has_level level_sql
level_sql_of names =
    level_sql (has_level (codes "error") names) (has_level (codes "warn") names)
      (has_level (codes "info") names) (has_level (codes "debug") names)

-- len(levels) > 0 && len(levels) != 4
unfoldable pub is_filtered : List Bytes → Bool
unfolding distinct
is_filtered names = ltb 0 (distinct names) && not (distinct names == 4)

-- What the two queries write for the levels, if they write something.
unfoldable pub entries_filter : List Bytes → Bytes
unfolding is_filtered level_sql_of
entries_filter names =
    if is_filtered names then codes " AND (" ++ (level_sql_of names ++ codes ") ") else []

unfoldable pub ticks_filter : List Bytes → Bytes
unfolding is_filtered level_sql_of
ticks_filter names =
    if is_filtered names
    then codes " WHERE " ++ (codes " (" ++ (level_sql_of names ++ codes ") "))
    else []
