-- ===== src/Expr/Run.antt =====
-- Builders of expr.go run on one list of calls after another.
use sqlog.Base.{◌≡◌, refl, List, [], ◌∷◌, ◌++◌}
use sqlog.Expr.{Call, ExprBuilder, apply, run_calls}

pub run_calls-append :
    {F E : Type 0} (b : ExprBuilder F E) (cs ds : List (Call F)) (s : b.State)
    → run_calls b (cs ++ ds) s ≡ run_calls b ds (run_calls b cs s)
unfolding run_calls
run_calls-append b [] ds s = refl
run_calls-append b (c ∷ cs) ds s = run_calls-append b cs ds (apply b c s)
