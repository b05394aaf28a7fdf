-- ===== src/System/Views.antt =====
-- What the system holds of one plan: wherever it stands in the channels.
use mathlib.Core.List.{append_assoc, map-append}
use arb_core.Common.{
  ℕ, ◌≡◌, refl, Bool, Option, none, some, List, [], ◌∷◌, ◌++◌, map, String, str_eq, arith,
  if◌then◌else◌, ◌==◌,
}
use arb_core.Common.Dict.{find}
use arb_core.Strategy.Planner.{TradePlan, OrderLeg}
use arb_core.Strategy.Engine.{InFlightPlan, ExecutionReport}
use arb_core.System.State.{System, Job, pending}
use arb_core.System.Actions.{signal_jobs}

module _ {A : Type 0} where
  abbrev pub keep : (A → Bool) → List A → List A
  keep f [] = []
  keep f (x ∷ xs) = if f x then x ∷ keep f xs else keep f xs

  pub keep-append : (f : A → Bool) (xs ys : List A) → keep f (xs ++ ys) ≡ keep f xs ++ keep f ys
  keep-append f [] ys = refl
  keep-append f (x ∷ xs) ys = let ih = keep-append f xs ys in ground arith

-- the work on a plan: what is left of its legs, and from which place on
pub record Task (D : Type 0) : Type 0 where
  pub plan : TradePlan D
  pub place : ℕ
  pub rest : List (OrderLeg D)

pub record View (D : Type 0) : Type 0 where
  pub tasks : List (Task D)
  pub reports : List (ExecutionReport D)
  pub entry : Option (InFlightPlan D)

module _ {D : Type 0} where
  abbrev pub task_of : Job D → Task D
  task_of j = record { plan = j.plan; place = j.place; rest = j.rest }

  abbrev pub whole : TradePlan D → Task D
  whole plan = record { plan = plan; place = 0; rest = plan.legs }

  abbrev pub is_task_for : String → Task D → Bool
  is_task_for id t = str_eq id t.plan.id

  abbrev pub is_report_for : String → ExecutionReport D → Bool
  is_report_for id r = str_eq id r.plan_id

module _ {D F : Type 0} where
  -- Running workers first, then the plans that are on their way, in the order of the channels.
  abbrev pub all_tasks : System D F → List (Task D)
  all_tasks s = map task_of s.jobs ++ map whole (s.plans ++ s.engine.exec_sent)

  abbrev pub all_reports : System D F → List (ExecutionReport D)
  all_reports s = s.reports ++ s.responses

  abbrev pub view_of : String → System D F → View D
  view_of id s = record {
    tasks = keep (is_task_for id) (all_tasks s);
    reports = keep (is_report_for id) (all_reports s);
    entry = find s.engine.inflight id;
  }

pub View-eq :
    {D : Type 0} {v v' : View D}
    → v'.tasks ≡ v.tasks
    → v'.reports ≡ v.reports
    → v'.entry ≡ v.entry
    → v' ≡ v
View-eq p q r = λ i. record { tasks = p i; reports = q i; entry = r i }

module _ {D : Type 0} where
  pub signal_jobs-tasks :
      (to : Option ℕ) (jobs : List (Job D)) → map task_of (signal_jobs to jobs) ≡ map task_of jobs
  signal_jobs-tasks none jobs = refl
  signal_jobs-tasks (some worker) [] = refl
  signal_jobs-tasks (some worker) (j ∷ jobs) =
      let ih = signal_jobs-tasks (some worker) jobs in
      let first : task_of (if j.worker == worker then record j { signal = pending } else j)
          ≡ task_of j =
        ground arith in
      λ i. first i ∷ ih i

  -- the tasks of the workers, with some of them in the middle
  pub keep-middle :
      (f : Task D → Bool) (xs js ys : List (Job D)) (q : List (Task D))
      → keep f (map task_of (xs ++ (js ++ ys)) ++ q)
        ≡ keep f (map task_of xs) ++ (keep f (map task_of js) ++ keep f (map task_of ys ++ q))
  keep-middle f xs js ys q =
      rw
        (
          map-append task_of xs (js ++ ys),
          map-append task_of js ys,
          append_assoc (map task_of xs) (map task_of js ++ map task_of ys) q,
          append_assoc (map task_of js) (map task_of ys) q,
          keep-append f (map task_of xs) (map task_of js ++ (map task_of ys ++ q)),
          keep-append f (map task_of js) (map task_of ys ++ q),
        )
        refl
