-- ===== src/Expr/Cache.antt =====
-- The cache of the function that `NewExprBuilder` of expr.go gives.
use sqlog.Base.{
  map, ◌≡◌, refl, sym, ap, ◌∙◌, Option, some, List, [], ◌∷◌, Bytes, All, arith, bytes_eq,
  Bool-cases, inl, inr, bytes_eq→≡, Option-cases,
}
use sqlog.Expr.{ExprBuilder}
use sqlog.Expr.Text.{trim_space}
use sqlog.Expr.State.{Outcome, ok, err, panic, out_of_fuel}
use sqlog.Expr.Parse.{Cache, load, build_expr, store_ok, compile}

module _ {F E : Type 0} (parse_float : Bytes → Option F)
    (factory : Bytes → ExprBuilder F E × Bytes) where
  -- Every entry is what its text compiles to.
  abbrev pub IsSound : Cache parse_float factory → Type 0
  IsSound cache = All (λ (p : Bytes × E). build_expr parse_float factory (p.0) ≡ ok (p.1)) cache

  load-IsSound :
      (cache : Cache parse_float factory) (expression : Bytes) (e : E)
      → IsSound cache
      → load parse_float factory expression cache ≡ some e
      → build_expr parse_float factory expression ≡ ok e
  unfolding load
  load-IsSound [] expression e h q = cc
  load-IsSound ((k, v) ∷ cache) expression e h q = elim (Bool-cases (bytes_eq k expression)) [
    | inl t ↦ rw (sym (bytes_eq→≡ k expression t)) (h.0 ∙ ap ok (ground (arith, t, q)))
    | inr f ↦ load-IsSound cache expression e h.1 (ground (arith, f, q))
  ]

  store_ok-IsSound :
      (cache : Cache parse_float factory) (expression : Bytes) (r : Outcome E)
      → IsSound cache
      → build_expr parse_float factory expression ≡ r
      → ((store_ok parse_float factory expression cache r).0 ≡ r)
        × IsSound ((store_ok parse_float factory expression cache r).1)
  unfolding store_ok
  store_ok-IsSound cache expression (ok e) h q = (refl, (q, h))
  store_ok-IsSound cache expression (err e) h q = (refl, h)
  store_ok-IsSound cache expression panic h q = (refl, h)
  store_ok-IsSound cache expression out_of_fuel h q = (refl, h)

  compile-IsSound :
      (cache : Cache parse_float factory) (expression : Bytes)
      → IsSound cache
      → ((compile parse_float factory expression cache).0
          ≡ build_expr parse_float factory (trim_space expression))
        × IsSound ((compile parse_float factory expression cache).1)
  unfolding compile
  compile-IsSound cache expression h =
      elim (Option-cases (load parse_float factory (trim_space expression) cache)) [
        | inl n ↦ rw (compile, n) (store_ok-IsSound cache (trim_space expression) _ h refl)
        | inr (e, q) ↦ rw (compile, q) (sym (load-IsSound cache (trim_space expression) e h q), h)
      ]

  -- The results of one call after another.
  unfoldable pub compile_all : List Bytes → Cache parse_float factory → List (Outcome E)
  unfolding compile
  compile_all [] cache = []
  compile_all (x ∷ xs) cache =
      let (r, cache') = compile parse_float factory x cache in r ∷ compile_all xs cache'

  compile_all-IsSound :
      (xs : List Bytes) (cache : Cache parse_float factory)
      → IsSound cache
      → compile_all xs cache ≡ map (λ x. build_expr parse_float factory (trim_space x)) xs
  unfolding compile_all
  compile_all-IsSound [] cache h = refl
  compile_all-IsSound (x ∷ xs) cache h =
      let (r, h') = compile-IsSound cache x h in rw (r, compile_all-IsSound xs _ h') refl

  -- However often the function that `NewExprBuilder` gives is called, and on whatever expressions,
  -- each call gives what a call without a cache gives on the trimmed text, errors included.
  pub compile_all-build_expr :
      (xs : List Bytes)
      → compile_all xs [] ≡ map (λ x. build_expr parse_float factory (trim_space x)) xs
  compile_all-build_expr xs = compile_all-IsSound xs [] tt
