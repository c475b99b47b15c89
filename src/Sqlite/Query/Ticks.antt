-- ===== src/Sqlite/Query/Ticks.antt =====
-- `Ticks` of sqlite/api_ticks.go: the statement, the databases in the interval, and the ticks.
-- `build` is the configured ExprBuilder, and `F` is float64.
use sqlog.Base.{
  Bool, true, false, ◌&&◌, ◌||◌, not, Option, none, some, List, [], ◌∷◌, ◌++◌, if◌then◌else◌, Bytes,
  codes,
}
use sqlog.Base.Int.{ℤ, pos, ltb_ℤ, eqb_ℤ, ◌-ℤ◌, ◌*ℤ◌}
use sqlog.Expr.State.{Outcome, ok, ◌>>=◌}
use sqlog.Sqlite.Expr.{Expr}
use sqlog.Sqlite.Db.{StorageDb, is_open}
use sqlog.Sqlite.Query.Levels.{is_filtered, ticks_filter}
use sqlog.Sqlite.Query.Entries.{integer, Statement, compiled, condition_args, epoch_or}
use sqlog.Api.{TicksInput, Tick, Answer, failed, answered}

abbrev pub sql_ticks_init : Bytes
sql_ticks_init =
    codes "\n\t\tWITH RECURSIVE series(idx, epoch_start, epoch_end) AS (\n"
    ++ (codes "\t\t\tSELECT ?-1, ? - ?, ? \n"
        ++ (codes "\t\t\tUNION ALL \n"
            ++ (codes "\t\t\tSELECT idx-1, epoch_start - ?, epoch_end - ? FROM series LIMIT ?\n"
                ++ (codes "\t\t)\t\n"
                    ++ (codes
                          "\t\tSELECT \n\t\t\tc.idx, \n\t\t\tc.epoch_start, \n\t\t\tc.epoch_end,\n"
                        ++ (codes "\t\t\tCOUNT(e.epoch_secs) AS count,\n"
                            ++ (codes
                                  "\t\t\tCOUNT(CASE WHEN e.level < 0 THEN 1 END) AS count_debug,\n"
                                ++ (codes
                                      "\t\t\tCOUNT(CASE WHEN e.level >= 0 AND e.level < 4 THEN 1 END) AS count_info,\n"
                                    ++ (codes
                                          "\t\t\tCOUNT(CASE WHEN e.level >= 4 AND e.level < 8 THEN 1 END) AS count_warn,\n"
                                        ++ (codes
                                              "\t\t\tCOUNT(CASE WHEN e.level >= 8 THEN 1 END) AS count_error\n"
                                            ++ (codes "\t\tFROM series c\n"
                                                ++ codes
                                                    "\t\tJOIN entries e ON e.epoch_secs >= c.epoch_start AND e.epoch_secs < c.epoch_end\n\t")))))))))))

abbrev pub sql_ticks_end : Bytes
sql_ticks_end = codes "GROUP BY c.epoch_start, c.epoch_end"

module _ {F : Type 0} where
  -- The expression's condition, behind what the filter on levels has left in `clause`.
  unfoldable pub where_sql : List Bytes → Option (Expr F) → Bytes
  unfolding is_filtered
  where_sql names none = []
  where_sql names (some e) =
      (if is_filtered names then codes " AND " else codes " WHERE ") ++ (e.sql ++ codes " ")

  unfoldable pub series_statement : ℤ → TicksInput → Option (Expr F) → Statement F
  unfolding ticks_filter where_sql condition_args
  series_statement epoch_end input condition = record {
    sql =
        sql_ticks_init
        ++ (ticks_filter input.level ++ (where_sql input.level condition ++ sql_ticks_end));
    args =
        integer input.max_result
        ∷ integer epoch_end
        ∷ integer input.interval_sec
        ∷ integer epoch_end
        ∷ integer input.interval_sec
        ∷ integer input.interval_sec
        ∷ integer input.max_result
        ∷ condition_args condition;
  }

module _ {F : Type 0} (build : Bytes → Outcome (Expr F)) where
  unfoldable pub ticks_statement : ℤ → TicksInput → Outcome (Statement F)
  unfolding compiled series_statement epoch_or
  ticks_statement now input = compiled build input.expr >>= λ condition.
      ok (series_statement (epoch_or now input.epoch_end) input condition)

-- The start of the oldest interval. The product is one of int, taken not to overflow.
unfoldable pub series_start : ℤ → TicksInput → ℤ
unfolding ◌-ℤ◌ ◌*ℤ◌
series_start epoch_end input = epoch_end -ℤ input.interval_sec *ℤ input.max_result

unfoldable pub is_outside : ℤ → ℤ → StorageDb → Bool
is_outside epoch_start epoch_end d =
    ltb_ℤ epoch_end d.epoch_start
    || (not (eqb_ℤ d.epoch_end (pos 0)) && ltb_ℤ d.epoch_end epoch_start)

unfoldable pub ticks_dbs : ℤ → ℤ → List StorageDb → List StorageDb
unfolding is_outside
ticks_dbs epoch_start epoch_end [] = []
ticks_dbs epoch_start epoch_end (d ∷ ds) =
    let rest = ticks_dbs epoch_start epoch_end ds in
    if is_outside epoch_start epoch_end d then rest else d ∷ rest

-- What `Ticks` gives: the ticks, and the databases that tasks are scheduled for. Nothing is ever
-- put into tickByIndex, so each tick of a database is appended.
pub record Series : Type 0 where
  pub ticks : List Tick
  pub closed_dbs : List StorageDb

module _ {E : Type 0} (ask : StorageDb → Answer E (List Tick)) where
  unfoldable pub ticks_loop : List StorageDb → List Tick → List StorageDb → Answer E Series
  unfolding is_open
  ticks_loop [] list closed = answered (record { ticks = list; closed_dbs = closed })
  ticks_loop (d ∷ ds) list closed = elim (is_open d) [
    | false ↦ ticks_loop ds list (closed ++ d ∷ [])
    | true ↦ elim (ask d) [ failed e ↦ failed e | answered ll ↦ ticks_loop ds (list ++ ll) closed ]
  ]

  unfoldable pub ticks_series : ℤ → TicksInput → List StorageDb → Answer E Series
  unfolding ticks_loop ticks_dbs series_start
  ticks_series epoch_end input dbs =
      ticks_loop (ticks_dbs (series_start epoch_end input) epoch_end dbs) [] []
