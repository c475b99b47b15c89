-- ===== src/Sqlite/Expr/Tests.antt =====
-- Runs of sqlite/expr.go at small inputs, after expr_test.go, and instances of the theorems.
use sqlog.Base.{
  ℕ, ◌≡◌, refl, Option, none, some, List, [], ◌∷◌, ◌-◌, ◌&&◌, map, leb, if◌then◌else◌, Bytes, codes,
  length,
}
use sqlog.Expr.Text.{trim_space}
use sqlog.Expr.Query.{Query, query_calls}
use sqlog.Expr.State.{ok}
use sqlog.Expr.Parse.{parse, build_expr}
use sqlog.Expr.Cache.{compile_all, compile_all-build_expr}
use sqlog.Expr.Safety.{Returns}
use sqlog.Sqlite.Expr.{
  build, on_text, on_operator, on_number, on_number_in, on_text_in, on_group_start, on_group_end,
  builder_start, text_arg, number_arg, factory,
}
use sqlog.Sqlite.Expr.Meaning.{query_sql, query_args}
use sqlog.Sqlite.Expr.Binding.{count, parens}
use sqlog.Sqlite.Expr.Compile.{query_shape, build_expr-Query, build_expr-safe}

-- Numbers of one digit.
abbrev digit : Bytes → Option ℕ
digit [] = none
digit (c ∷ []) = if leb b'0' c && leb c b'9' then some (c - b'0') else none
digit (c ∷ d ∷ rest) = none

build_words :
    build_expr digit factory (codes "hello or x:>5")
    ≡ ok record {
      sql =
          codes
            "json_extract(e.content, ?) GLOB ? OR CAST(json_extract(e.content, ?) AS NUMERIC) > ? ";
      args =
          text_arg (codes "$.msg")
          ∷ text_arg (codes "*hello*")
          ∷ text_arg (codes "$.x")
          ∷ number_arg 5
          ∷ [];
    }
unfolding build_expr factory build on_text on_operator on_number on_number_in on_text_in
    on_group_start on_group_end builder_start
build_words = refl

build_array :
    build_expr digit factory (codes "x:[1 2 a]")
    ≡ ok record {
      sql =
          codes
            "(CAST(json_extract(e.content, ?) AS NUMERIC) IN (?,?) OR json_extract(e.content, ?) IN (?))";
      args =
          text_arg (codes "$.x")
          ∷ number_arg 1
          ∷ number_arg 2
          ∷ text_arg (codes "$.x")
          ∷ text_arg (codes "a")
          ∷ [];
    }
unfolding build_expr factory build on_text on_operator on_number on_number_in on_text_in
    on_group_start on_group_end builder_start
build_array = refl

build_expr-Query_example :
    Returns
      (λ e.
        (q : Query ℕ) × (parse digit (codes "x:[1 2 a]") ≡ ok (query_calls q))
        × (e.sql ≡ query_sql q)
        × (e.args ≡ query_args q))
      (build_expr digit factory (codes "x:[1 2 a]"))
build_expr-Query_example = build_expr-Query digit (codes "x:[1 2 a]")

build_expr-safe_example :
    Returns
      (λ e.
        (count b'?' e.sql ≡ length e.args)
        × (parens 0 e.sql ≡ some 0)
        × ((q : Query ℕ) × (parse digit (codes "a (x:[1 2 b])") ≡ ok (query_calls q))
            × (e.sql ≡ query_sql (query_shape q))))
      (build_expr digit factory (codes "a (x:[1 2 b])"))
build_expr-safe_example = build_expr-safe digit (codes "a (x:[1 2 b])")

abbrev asked : List Bytes
asked = codes "a" ∷ codes " a " ∷ codes "a:b:c" ∷ codes "a" ∷ []

compile_all-build_expr_example :
    compile_all digit factory asked [] ≡ map (λ x. build_expr digit factory (trim_space x)) asked
compile_all-build_expr_example = compile_all-build_expr digit factory asked
