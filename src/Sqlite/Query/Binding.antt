-- ===== src/Sqlite/Query/Binding.antt =====
-- What SQLite needs of the statements of sqlite/api_entries.go and sqlite/api_ticks.go: an argument
-- for each placeholder, and closed parentheses.
use sqlog.Base.{
  ℕ, suc, ◌+◌, ◌≡◌, refl, sym, ap, ◌∙◌, Bool, true, false, Option, none, some, List, [], ◌∷◌, ◌++◌,
  append-nil, append_assoc, if_both, Bytes, codes, arith, length, length-append,
}
use sqlog.Base.Int.{ℤ}
use sqlog.Expr.State.{Outcome, ok}
use sqlog.Expr.Text.{trim_space, is_empty}
use sqlog.Expr.Query.{Query, query_calls}
use sqlog.Expr.Parse.{parse, build_expr}
use sqlog.Expr.Safety.{Returns, Returns-bind, Returns-mono}
use sqlog.Sqlite.Expr.{Expr, factory}
use sqlog.Sqlite.Expr.Meaning.{query_sql, query_args}
use sqlog.Sqlite.Expr.Compile.{build_expr-Query}
use sqlog.Sqlite.Expr.Binding.{
  count, count-append, parens, Closes, Closes-append, count-query, query-Closes, length-map,
}
use sqlog.Sqlite.Query.Levels.{
  level_sql, level_sql_of, has_level, is_filtered, entries_filter, ticks_filter,
}
use sqlog.Sqlite.Query.Entries.{
  of_expr, integer, Statement, is_before, compiled, condition_sql, condition_args, page_statement,
  entries_statement, epoch_or, page_limit,
}
use sqlog.Sqlite.Query.Ticks.{sql_ticks_init, where_sql, series_statement, ticks_statement}
use sqlog.Api.{EntriesInput, TicksInput}

-- A part of a statement that closes its parentheses and has `n` placeholders.
record IsPart (n : ℕ) (s : Bytes) : Type 0 where
  pub closes : Closes s
  pub places : count b'?' s ≡ n

IsPart-append : {n m : ℕ} {s t : Bytes} → IsPart n s → IsPart m t → IsPart (n + m) (s ++ t)
IsPart-append {s = s} {t = t} p q = record {
  closes = Closes-append s t p.closes q.closes;
  places = count-append b'?' s t ∙ omega (arith, p.places, q.places);
}

level_sql-IsPart : (e w i d : Bool) → IsPart 0 (level_sql e w i d)
unfolding level_sql count parens
level_sql-IsPart true true true d = record { closes = λ n t. refl; places = refl }
level_sql-IsPart true true false true = record { closes = λ n t. refl; places = refl }
level_sql-IsPart true true false false = record { closes = λ n t. refl; places = refl }
level_sql-IsPart true false true true = record { closes = λ n t. refl; places = refl }
level_sql-IsPart true false true false = record { closes = λ n t. refl; places = refl }
level_sql-IsPart true false false true = record { closes = λ n t. refl; places = refl }
level_sql-IsPart true false false false = record { closes = λ n t. refl; places = refl }
level_sql-IsPart false true true true = record { closes = λ n t. refl; places = refl }
level_sql-IsPart false true true false = record { closes = λ n t. refl; places = refl }
level_sql-IsPart false true false true = record { closes = λ n t. refl; places = refl }
level_sql-IsPart false true false false = record { closes = λ n t. refl; places = refl }
level_sql-IsPart false false true true = record { closes = λ n t. refl; places = refl }
level_sql-IsPart false false true false = record { closes = λ n t. refl; places = refl }
level_sql-IsPart false false false true = record { closes = λ n t. refl; places = refl }
level_sql-IsPart false false false false = record { closes = λ n t. refl; places = refl }

no-IsPart : IsPart 0 []
unfolding count
no-IsPart = record { closes = λ n t. refl; places = refl }

-- A part between a text that opens a parenthesis and one that closes it.
record IsFrame (before after : Bytes) : Type 0 where
  pub opens : (n : ℕ) (t : Bytes) → parens n (before ++ t) ≡ parens (suc n) t
  pub shuts : (n : ℕ) (t : Bytes) → parens (suc n) (after ++ t) ≡ parens n t
  pub bare : (count b'?' before ≡ 0) × (count b'?' after ≡ 0)

framed-IsPart :
    {k : ℕ} {before after : Bytes} (s : Bytes)
    → IsFrame before after
    → IsPart k s
    → IsPart k (before ++ (s ++ after))
framed-IsPart {before = before} {after = after} s f p = record {
  closes = λ n t.
      ap (parens n) (append_assoc before (s ++ after) t)
      ∙ f.opens n ((s ++ after) ++ t)
      ∙ ap (parens (suc n)) (append_assoc s after t)
      ∙ p.closes (suc n) (after ++ t)
      ∙ f.shuts n t;
  places = omega (
    arith,
    count-append b'?' before (s ++ after),
    count-append b'?' s after,
    f.bare.0,
    f.bare.1,
    p.places,
  );
}

and_IsFrame : IsFrame (codes " AND (") (codes ") ")
unfolding count parens
and_IsFrame = record { opens = λ n t. refl; shuts = λ n t. refl; bare = (refl, refl) }

level_sql_of-IsPart : (names : List Bytes) → IsPart 0 (level_sql_of names)
unfolding level_sql_of
level_sql_of-IsPart names =
    level_sql-IsPart (has_level (codes "error") names) (has_level (codes "warn") names)
      (has_level (codes "info") names) (has_level (codes "debug") names)

IsPart-index : {n m : ℕ} {s : Bytes} → n ≡ m → IsPart n s → IsPart m s
IsPart-index e p = record { closes = p.closes; places = p.places ∙ e }

entries_filter-IsPart : (names : List Bytes) → IsPart 0 (entries_filter names)
unfolding entries_filter
entries_filter-IsPart names =
    if_both (IsPart 0) (is_filtered names)
      (framed-IsPart (level_sql_of names) and_IsFrame (level_sql_of-IsPart names)) no-IsPart

ticks_filter-IsPart : (names : List Bytes) → IsPart 0 (ticks_filter names)
unfolding ticks_filter count parens
ticks_filter-IsPart names =
    if_both (IsPart 0) (is_filtered names)
      (framed-IsPart {before = codes " WHERE  ("} (level_sql_of names)
        (record { opens = λ n t. refl; shuts = λ n t. refl; bare = (refl, refl) })
        (level_sql_of-IsPart names))
      no-IsPart

module _ {F : Type 0} where
  -- The condition of an expression: closed, with as many placeholders as arguments.
  abbrev IsBound : Option (Expr F) → Type 0
  IsBound none = Unit
  IsBound (some e) = IsPart (length e.args) e.sql

  condition_sql-IsPart :
      (c : Option (Expr F)) → IsBound c → IsPart (length (condition_args c)) (condition_sql c)
  unfolding condition_sql condition_args count parens
  condition_sql-IsPart none h = no-IsPart
  condition_sql-IsPart (some e) h = rw (length-map of_expr e.args) (
      framed-IsPart {before = codes " AND ("} {after = codes ")"} e.sql
        (record { opens = λ n t. refl; shuts = λ n t. refl; bare = (refl, refl) }) h)

  where_sql-IsPart :
      (names : List Bytes) (c : Option (Expr F))
      → IsBound c
      → IsPart (length (condition_args c)) (where_sql names c)
  unfolding where_sql condition_args count parens
  where_sql-IsPart names none h = no-IsPart
  where_sql-IsPart names (some e) h = rw (length-map of_expr e.args) (
      IsPart-index {n = 0 + (length e.args + 0)} (omega arith) (
        IsPart-append
          (if_both (IsPart 0) (is_filtered names) (record { closes = λ n t. refl; places = refl })
            (record { closes = λ n t. refl; places = refl }))
          (IsPart-append h (record { closes = λ n t. refl; places = refl }))))

  page_statement-bound :
      (epoch : ℤ) (input : EntriesInput) (c : Option (Expr F))
      → IsBound c
      → IsPart (length ((page_statement epoch input c).args)) (page_statement epoch input c).sql
  unfolding page_statement count parens
  page_statement-bound epoch input c h =
      IsPart-index
        (omega
          (arith, length-append (condition_args c) (integer (page_limit input.max_result) ∷ [])))
        (IsPart-append
          (if_both (IsPart 3) (is_before input.direction)
            (record { closes = λ n t. refl; places = refl })
            (record { closes = λ n t. refl; places = refl }))
          (IsPart-append (entries_filter-IsPart input.level) (
            IsPart-append (condition_sql-IsPart c h) (
              if_both (IsPart 1) (is_before input.direction)
                (record { closes = λ n t. refl; places = refl })
                (record { closes = λ n t. refl; places = refl })))))

  series_statement-bound :
      (epoch : ℤ) (input : TicksInput) (c : Option (Expr F))
      → IsBound c
      → IsPart (length ((series_statement epoch input c).args)) (series_statement epoch input c).sql
  unfolding series_statement count parens
  series_statement-bound epoch input c h = IsPart-index (omega arith) (
      IsPart-append {n = 7} {s = sql_ticks_init} (record { closes = λ n t. refl; places = refl })
        (IsPart-append (ticks_filter-IsPart input.level) (
          IsPart-append (where_sql-IsPart input.level c h)
            (record { closes = λ n t. refl; places = refl }))))

-- A statement that has as many placeholders as arguments, and closes its parentheses.
abbrev pub IsSafe : {F : Type 0} → Statement F → Type 0
IsSafe s = (count b'?' s.sql ≡ length s.args) × (parens 0 s.sql ≡ some 0)

part-IsSafe : {F : Type 0} (s : Statement F) → IsPart (length s.args) s.sql → IsSafe s
unfolding parens
part-IsSafe s p = (p.places, ap (parens 0) (sym (append-nil s.sql)) ∙ p.closes 0 [])

module _ {F : Type 0} (parse_float : Bytes → Option F) where
  -- ExpBuilderFn, behind its cache.
  abbrev pub default_builder : Bytes → Outcome (Expr F)
  default_builder expression = build_expr parse_float factory expression

  build-IsPart : (text : Bytes) → Returns (λ e. IsPart (length e.args) e.sql) (default_builder text)
  build-IsPart text =
      Returns-mono
        (λ e.
          (q : Query F) × (parse parse_float text ≡ ok (query_calls q))
          × (e.sql ≡ query_sql q)
          × (e.args ≡ query_args q))
        (λ e. IsPart (length e.args) e.sql) (default_builder text)
        (λ e (q, p, s, a). rw (s, a) (record { closes = query-Closes q; places = count-query q }))
        (build_expr-Query parse_float text)

  compiled-IsBound : (text : Bytes) → Returns IsBound (compiled default_builder text)
  unfolding compiled
  compiled-IsBound text = if_both (Returns IsBound) (is_empty (trim_space text)) tt (
      Returns-bind (λ e. IsPart (length e.args) e.sql) IsBound (default_builder (trim_space text)) _
        (build-IsPart (trim_space text)) (λ e p. if_both IsBound (is_empty e.sql) tt p))

  -- Whatever is asked, both queries return an error of the expression, or a statement that is
  -- safe to run: it has as many placeholders as there are arguments, and its parentheses are
  -- closed, however the filter on levels and the expression are put together.
  pub statements-IsSafe :
      (now : ℤ) (page : EntriesInput) (series : TicksInput)
      → Returns IsSafe (entries_statement default_builder now page)
        × Returns IsSafe (ticks_statement default_builder now series)
  unfolding entries_statement ticks_statement
  statements-IsSafe now page series = (
    Returns-bind IsBound IsSafe (compiled default_builder page.expr) _ (compiled-IsBound page.expr)
        (λ c h.
          part-IsSafe (page_statement (epoch_or now page.epoch_start) page c)
            (page_statement-bound (epoch_or now page.epoch_start) page c h)),
    Returns-bind IsBound IsSafe (compiled default_builder series.expr) _
        (compiled-IsBound series.expr)
        (λ c h.
          part-IsSafe (series_statement (epoch_or now series.epoch_end) series c)
            (series_statement-bound (epoch_or now series.epoch_end) series c h)),
  )
