-- ===== src/Sqlite/Query/Entries.antt =====
-- `Entries` of sqlite/api_entries.go: the statement, and the databases that are asked for a page.
-- `build` is the configured ExprBuilder, and `F` is float64.
use sqlog.Base.{
  Bool, true, false, ◌||◌, Option, none, some, List, [], ◌∷◌, ◌++◌, map, if◌then◌else◌, Bytes,
  codes, bytes_eq, length,
}
use sqlog.Base.Int.{ℤ, pos, ltb_ℤ, leb_ℤ, eqb_ℤ}
use sqlog.Expr.Text.{trim_space, is_empty}
use sqlog.Expr.State.{Outcome, ok, ◌>>=◌}
use sqlog.Sqlite.Expr.{Arg, Expr}
use sqlog.Sqlite.Db.{StorageDb, is_open}
use sqlog.Sqlite.Query.Levels.{entries_filter}
use sqlog.Api.{EntriesInput, Row, Answer, failed, answered}

-- A value that is bound to a placeholder of a query.
pub data QueryArg (F : Type 0) : Type 0 where
  integer : ℤ → QueryArg F
  of_expr : Arg F → QueryArg F

pub record Statement (F : Type 0) : Type 0 where
  pub sql : Bytes
  pub args : List (QueryArg F)

abbrev pub sql_page_after : Bytes
sql_page_after =
    codes
      "SELECT e.epoch_secs, e.nanos, e.level, e.content FROM entries e WHERE (e.epoch_secs > ? OR (e.epoch_secs = ? AND e.nanos > ?)) "

abbrev pub sql_page_before : Bytes
sql_page_before =
    codes
      "SELECT e.epoch_secs, e.nanos, e.level, e.content FROM entries e WHERE (e.epoch_secs < ? OR (e.epoch_secs = ? AND e.nanos < ?)) "

abbrev pub sql_after_order : Bytes
sql_after_order = codes " ORDER BY e.epoch_secs ASC, e.nanos ASC LIMIT ?"

abbrev pub sql_before_order : Bytes
sql_before_order = codes " ORDER BY e.epoch_secs DESC, e.nanos DESC LIMIT ?"

unfoldable pub is_before : Bytes → Bool
is_before direction = bytes_eq direction (codes "before")

-- min(max(maxResult, 10), 100)
unfoldable pub page_limit : ℤ → ℤ
page_limit n = if ltb_ℤ n (pos 10) then pos 10 else if ltb_ℤ (pos 100) n then pos 100 else n

-- The input's epoch, or the current time if it is 0.
unfoldable pub epoch_or : ℤ → ℤ → ℤ
epoch_or now epoch = if eqb_ℤ epoch (pos 0) then now else epoch

module _ {F : Type 0} where
  unfoldable pub condition_sql : Option (Expr F) → Bytes
  condition_sql none = []
  condition_sql (some e) = codes " AND (" ++ (e.sql ++ codes ")")

  unfoldable pub condition_args : Option (Expr F) → List (QueryArg F)
  condition_args none = []
  condition_args (some e) = map of_expr e.args

  unfoldable pub page_statement : ℤ → EntriesInput → Option (Expr F) → Statement F
  unfolding entries_filter condition_sql condition_args is_before page_limit
  page_statement epoch input condition = record {
    sql =
        (if is_before input.direction then sql_page_before else sql_page_after)
        ++ (entries_filter input.level
            ++ (condition_sql condition
                ++ (if is_before input.direction then sql_before_order else sql_after_order)));
    args =
        integer epoch
        ∷ integer epoch
        ∷ integer input.nanos_start
        ∷ (condition_args condition ++ integer (page_limit input.max_result) ∷ []);
  }

module _ {F : Type 0} (build : Bytes → Outcome (Expr F)) where
  -- The condition of the expression, with its arguments; none if the text is empty.
  unfoldable pub compiled : Bytes → Outcome (Option (Expr F))
  unfolding trim_space is_empty
  compiled expression =
      let text = trim_space expression in
      if is_empty text
      then ok none
      else (build text >>= λ e. ok (if is_empty e.sql then none else some e))

  unfoldable pub entries_statement : ℤ → EntriesInput → Outcome (Statement F)
  unfolding compiled page_statement epoch_or
  entries_statement now input = compiled input.expr >>= λ condition.
      ok (page_statement (epoch_or now input.epoch_start) input condition)

-- Whether a database may have entries of the page.
unfoldable pub has_page : Bytes → ℤ → StorageDb → Bool
unfolding is_before
has_page direction epoch d =
    if is_before direction
    then leb_ℤ d.epoch_start epoch
    else eqb_ℤ d.epoch_end (pos 0) || leb_ℤ epoch d.epoch_end

unfoldable pub with_page : Bytes → ℤ → List StorageDb → List StorageDb
unfolding has_page
with_page direction epoch [] = []
with_page direction epoch (d ∷ ds) =
    let rest = with_page direction epoch ds in if has_page direction epoch d then d ∷ rest else rest

-- sort.SliceStable: the latest start first before an epoch, and the earliest after it.
unfoldable pub starts_sooner : Bytes → StorageDb → StorageDb → Bool
unfolding is_before
starts_sooner direction a b =
    if is_before direction
    then ltb_ℤ b.epoch_start a.epoch_start
    else ltb_ℤ a.epoch_start b.epoch_start

unfoldable pub insert_page : Bytes → StorageDb → List StorageDb → List StorageDb
unfolding starts_sooner
insert_page direction d [] = d ∷ []
insert_page direction d (e ∷ ds) =
    let behind = insert_page direction d ds in
    if starts_sooner direction e d then e ∷ behind else d ∷ (e ∷ ds)

unfoldable pub sort_page : Bytes → List StorageDb → List StorageDb
unfolding insert_page
sort_page direction [] = []
sort_page direction (d ∷ ds) = insert_page direction d (sort_page direction ds)

unfoldable pub page_dbs : Bytes → ℤ → List StorageDb → List StorageDb
unfolding sort_page with_page
page_dbs direction epoch dbs = sort_page direction (with_page direction epoch dbs)

-- What `Entries` gives: the rows, and the database that a task is scheduled for.
pub record Page : Type 0 where
  pub rows : List Row
  pub next : Option StorageDb

-- The loop over the databases: `ask` is listEntries, an error or the rows of a database, and
-- `list` has the rows so far.
module _ {E : Type 0} (ask : StorageDb → Answer E (List Row)) where
  unfoldable pub page_loop : ℤ → List StorageDb → List Row → Answer E Page
  unfolding is_open
  page_loop max_result [] list = answered (record { rows = list; next = none })
  page_loop max_result (d ∷ ds) list = elim (is_open d) [
    | false ↦ answered (record { rows = list; next = some d })
    | true ↦ elim (ask d) [
      | failed e ↦ failed e
      | answered ll ↦ elim (leb_ℤ max_result (pos (length (list ++ ll)))) [
        | true ↦ answered (record { rows = list ++ ll; next = none })
        | false ↦ page_loop max_result ds (list ++ ll)
      ]
    ]
  ]

  -- `Entries` from the selection of the databases on.
  unfoldable pub entries_page : ℤ → EntriesInput → List StorageDb → Answer E Page
  unfolding page_loop page_dbs
  entries_page epoch input dbs = page_loop input.max_result (page_dbs input.direction epoch dbs) []
