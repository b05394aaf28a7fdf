-- ===== src/System/Moves.antt =====
-- How what the system holds of one plan can change.
use arb_core.Common.{suc, ◌≡◌, ◌≢◌, sym, subst, ◌∙◌, false, none, List, [], ◌∷◌, ◌++◌, String}
use arb_core.Common.Dict.{find}
use arb_core.Decimal.{Decimal}
use arb_core.Strategy.Planner.{OrderLeg}
use arb_core.Strategy.Engine.{StrategyEngine, ExecutionReport}
use arb_core.Strategy.Engine.Monitor.{handle_exec_report}
use arb_core.Execution.Progress.{IsOutcome}
use arb_core.System.Views.{Task, View}

module _ {D : Type 0} ⦃d : Decimal D⦄ where
  -- The ways in which the system can go on with a plan. A worker that panics is lost.
  pub data Moves (F : Type 0) (id : String) (v v' : View D) : Type 0 where
    stays : v' ≡ v → Moves F id v v'
    expires : v'.tasks ≡ v.tasks → v'.reports ≡ v.reports → v'.entry ≡ none → Moves F id v v'
    works :
        (xs ys : List (Task D)) (t : Task D) (leg : OrderLeg D) (legs : List (OrderLeg D))
        (r : ExecutionReport D)
        → v.tasks ≡ xs ++ (t ∷ ys)
        → t.rest ≡ leg ∷ legs
        → IsOutcome t.plan leg r
        → v'.tasks ≡ xs ++ (record { plan = t.plan; place = suc t.place; rest = legs } ∷ ys)
        → v'.reports ≡ v.reports ++ (r ∷ [])
        → v'.entry ≡ v.entry
        → Moves F id v v'
    panics :
        (xs ys : List (Task D)) (t : Task D) (leg : OrderLeg D) (legs : List (OrderLeg D))
        → v.tasks ≡ xs ++ (t ∷ ys)
        → t.rest ≡ leg ∷ legs
        → leg.is_taker ≡ false
        → v'.tasks ≡ xs ++ ys
        → v'.reports ≡ v.reports
        → v'.entry ≡ v.entry
        → Moves F id v v'
    finishes :
        (xs ys : List (Task D)) (t : Task D)
        → v.tasks ≡ xs ++ (t ∷ ys)
        → t.rest ≡ []
        → v'.tasks ≡ xs ++ ys
        → v'.reports ≡ v.reports
        → v'.entry ≡ v.entry
        → Moves F id v v'
    handles :
        (e : StrategyEngine D F) (r : ExecutionReport D) (rs : List (ExecutionReport D))
        → v.reports ≡ r ∷ rs
        → find e.inflight id ≡ v.entry
        → v'.tasks ≡ v.tasks
        → v'.reports ≡ rs
        → v'.entry ≡ find (handle_exec_report e r).inflight id
        → Moves F id v v'

  -- nothing is known of the plan
  pub record IsAbsent (v : View D) : Type 0 where
    pub no_task : v.tasks ≡ []
    pub no_report : v.reports ≡ []
    pub no_entry : v.entry ≡ none

  not_empty : (xs ys : List (Task D)) (t : Task D) → xs ++ (t ∷ ys) ≢ []
  not_empty [] ys t h = cc
  not_empty (x ∷ xs) ys t h = cc

  pub Moves-IsAbsent :
      {F : Type 0} (id : String) (v v' : View D) → Moves F id v v' → IsAbsent v → IsAbsent v'
  Moves-IsAbsent id v v' (stays same) a = subst IsAbsent (sym same) a
  Moves-IsAbsent id v v' (expires hts hrs ho) a = record {
    no_task = hts ∙ a.no_task;
    no_report = hrs ∙ a.no_report;
    no_entry = ho;
  }
  Moves-IsAbsent id v v' (works xs ys t leg legs r at e out hts hrs ho) a =
      absurd (not_empty xs ys t (sym at ∙ a.no_task))
  Moves-IsAbsent id v v' (panics xs ys t leg legs at e passive hts hrs ho) a =
      absurd (not_empty xs ys t (sym at ∙ a.no_task))
  Moves-IsAbsent id v v' (finishes xs ys t at e hts hrs ho) a =
      absurd (not_empty xs ys t (sym at ∙ a.no_task))
  Moves-IsAbsent id v v' (handles e r rs hr he hts hrs ho) a =
      let h : r ∷ rs ≡ [] = sym hr ∙ a.no_report in cc
