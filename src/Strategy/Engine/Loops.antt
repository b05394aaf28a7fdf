-- ===== src/Strategy/Engine/Loops.antt =====
-- The loops of the engine's two tasks, `detector_loop` and `execution_monitor_loop`, as `start` runs
-- them side by side: in turns, in an order that the environment chooses. Inflight.antt has the finer
-- steps, between which the other task may come.
use arb_core.Common.{
  ℕ, ◌+◌, ◌≤◌, ◌≡◌, refl, Bool, true, false, List, [], ◌∷◌, String, Outcome, ok, err, panic,
  if◌then◌else◌, length, if-elim,
}
use arb_core.Decimal.{Decimal}
use arb_core.MarketData.Triangle.{TriView}
use arb_core.Strategy.Detector.{Opportunity, detect_triangular_opportunities}
use arb_core.Strategy.Config.{StrategyConfig, StrategyError}
use arb_core.Strategy.Engine.{StrategyEngine, ExecutionReport, count_seen, new_engine}
use arb_core.Strategy.Engine.Detector.{
  Verdict, refused, crashed, accepted, vet, handle_opportunity, handle_opportunities, handle_view,
  on_opportunities, register,
}
use arb_core.Strategy.Engine.Monitor.{
  handle_exec_report, scan_timeouts, cancel_plan, cancel_plans, to_cancel,
}
use arb_core.Strategy.Engine.Inflight.{
  Phase, idle, see, refuse, accept, enter, send, report, time_out, Reach, here, next,
  inflight-le-max,
}

-- One round of a loop: a view, with the identities and times of its opportunities; a report; a tick
-- of the monitor; and the ends of the two channels.
pub data Turn (D : Type 0) : Type 0 where
  view : TriView D → (ℕ → String × ℕ) → Turn D
  incoming : ExecutionReport D → Turn D
  tick : ℕ → Turn D
  views_closed reports_closed : Turn D

-- the engine with its two tasks, and whether each is running
pub record Tasks (D F : Type 0) : Type 0 where
  pub engine : StrategyEngine D F
  pub detecting : Bool
  pub monitoring : Bool

module _ {D F : Type 0} where
  unfoldable pub start : StrategyEngine D F → Tasks D F
  start e = record { engine = e; detecting = true; monitoring = true }

module _ {D F : Type 0} ⦃d : Decimal D⦄ where
  abbrev after_view : Tasks D F → StrategyEngine D F × Bool → Tasks D F
  after_view t (e, alive) = record t { engine = e; detecting = alive }

  unfoldable pub take_turn : Tasks D F → Turn D → Tasks D F
  unfolding handle_view handle_exec_report scan_timeouts
  take_turn t (view tv env) =
      if t.detecting then after_view t (handle_view t.engine tv 0 env) else t
  take_turn t (incoming r) =
      if t.monitoring then record t { engine = handle_exec_report t.engine r } else t
  take_turn t (tick now) =
      if t.monitoring then record t { engine = scan_timeouts t.engine now } else t
  take_turn t views_closed = record t { detecting = false }
  take_turn t reports_closed = record t { monitoring = false }

  unfoldable pub run_tasks : Tasks D F → List (Turn D) → Tasks D F
  unfolding take_turn
  run_tasks t [] = t
  run_tasks t (turn ∷ turns) = run_tasks (take_turn t turn) turns

  Reach-trans :
      {e : StrategyEngine D F} {ph : Phase D} {e' : StrategyEngine D F} {ph' : Phase D}
      {e'' : StrategyEngine D F} {ph'' : Phase D}
      → Reach e ph e' ph'
      → Reach e' ph' e'' ph''
      → Reach e ph e'' ph''
  Reach-trans r here = r
  Reach-trans r (next q s) = next (Reach-trans r q) s

  opportunity-Reach :
      (e : StrategyEngine D F) (op : Opportunity D) (id : String) (now : ℕ)
      → Reach e idle (handle_opportunity e op id now).0 idle
  unfolding handle_opportunity
  opportunity-Reach e op id now = go (vet e.cfg (length e.inflight) op id now) refl
    where
      go :
          (v : Verdict D)
          → vet e.cfg (length e.inflight) op id now ≡ v
          → Reach e idle (handle_opportunity e op id now).0 idle
      go refused f = rw (f, handle_opportunity) (next here (refuse e op id now f))
      go crashed f = rw (f, handle_opportunity) here
      go (accepted plan) f =
          rw (f, handle_opportunity)
            (next (next (next here (accept e op id now plan f)) (enter e plan now))
              (send (register e plan now) plan))

  opportunities-Reach :
      (e : StrategyEngine D F) (ops : List (Opportunity D)) (i : ℕ) (env : ℕ → String × ℕ)
      → Reach e idle (handle_opportunities e ops i env).0 idle
  unfolding handle_opportunities
  opportunities-Reach e [] i env = here
  opportunities-Reach e (op ∷ ops) i env =
      let (e', alive) = handle_opportunity e op (env i).0 (env i).1 in
      let first = opportunity-Reach e op (env i).0 (env i).1 in
      let rest = handle_opportunities e' ops (i + 1) env in
      if-elim (λ (r : StrategyEngine D F × Bool). Reach e idle r.0 idle) alive rest (e', false)
        (λ h. Reach-trans first (opportunities-Reach e' ops (i + 1) env)) (λ h. first)

  view-Reach :
      (e : StrategyEngine D F) (tv : TriView D) (env : ℕ → String × ℕ)
      → Reach e idle (handle_view e tv 0 env).0 idle
  unfolding handle_view
  view-Reach e tv env =
      go (detect_triangular_opportunities tv e.cfg.fee_map e.cfg.limits.min_profit_abs)
    where
      go :
          (r : Outcome (StrategyError D) (List (Opportunity D)))
          → Reach e idle (on_opportunities (count_seen e) 0 env r).0 idle
      go (ok ops) = Reach-trans (next here (see e)) (opportunities-Reach (count_seen e) ops 0 env)
      go (err b) = next here (see e)
      go panic = next here (see e)

  cancel_plans-Reach :
      (e : StrategyEngine D F) (ids : List String) → Reach e idle (cancel_plans e ids) idle
  unfolding cancel_plans
  cancel_plans-Reach e [] = here
  cancel_plans-Reach e (id ∷ ids) =
      Reach-trans (next here (time_out e idle id)) (cancel_plans-Reach (cancel_plan e id) ids)

  turn-Reach : (t : Tasks D F) (turn : Turn D) → Reach t.engine idle (take_turn t turn).engine idle
  unfolding take_turn scan_timeouts
  turn-Reach t (view tv env) =
      if-elim (λ (t' : Tasks D F). Reach t.engine idle t'.engine idle) t.detecting
        (after_view t (handle_view t.engine tv 0 env)) t (λ h. view-Reach t.engine tv env)
        (λ h. here)
  turn-Reach t (incoming r) =
      if-elim (λ (t' : Tasks D F). Reach t.engine idle t'.engine idle) t.monitoring
        (record t { engine = handle_exec_report t.engine r }) t
        (λ h. next here (report t.engine idle r)) (λ h. here)
  turn-Reach t (tick now) =
      if-elim (λ (t' : Tasks D F). Reach t.engine idle t'.engine idle) t.monitoring
        (record t { engine = scan_timeouts t.engine now }) t
        (λ h. cancel_plans-Reach t.engine (to_cancel t.engine.inflight now)) (λ h. here)
  turn-Reach t views_closed = here
  turn-Reach t reports_closed = here

  -- What the turns make of the engine is a run of the finer steps.
  run_tasks-Reach :
      (t : Tasks D F) (turns : List (Turn D)) → Reach t.engine idle (run_tasks t turns).engine idle
  unfolding run_tasks
  run_tasks-Reach t [] = here
  run_tasks-Reach t (turn ∷ turns) =
      Reach-trans (turn-Reach t turn) (run_tasks-Reach (take_turn t turn) turns)

  -- From a new engine, whatever turns the two tasks take, with whatever views, reports and times, and
  -- also after one of them has ended, no more plans are in flight than the configuration allows.
  pub run_tasks-le-max :
      (cfg : StrategyConfig D F) (turns : List (Turn D))
      → length (run_tasks (start (new_engine cfg)) turns).engine.inflight ≤ cfg.max_concurrent_plans
  unfolding start
  run_tasks-le-max cfg turns = inflight-le-max cfg (run_tasks-Reach (start (new_engine cfg)) turns)
