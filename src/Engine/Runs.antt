-- ===== src/Engine/Runs.antt =====
-- A tick of the engine is a run of the broker's operations.
use ai_daytrader_sim.Prelude.{
  ℕ, String, Bool, not, ◌&&◌, none, List, [], ◌∷◌, str_eq, is_empty, is_some,
}
use ai_daytrader_sim.Prelude.Dict.{Dict, lookup}
use ai_daytrader_sim.Prelude.Text.{upper}
use ai_daytrader_sim.Float.{Float}
use ai_daytrader_sim.Models.{Market, OrderState, PlanStatus, CandidatePlan, TradePlan, MarketTick}
use ai_daytrader_sim.Pullback.{Phase}
use ai_daytrader_sim.Broker.{Setup}
use ai_daytrader_sim.Broker.Ticks.{on_tick}
use ai_daytrader_sim.Broker.Markets.{desk, on_desk, close_for_corporate_action, Step, Later}
use ai_daytrader_sim.Engine.{Core}
use ai_daytrader_sim.Engine.Ready.{is_rules}
use ai_daytrader_sim.Engine.Process.{
  for_candidates, for_plans, set_status, follows, mark_pullback, sync_candidate, cancel, trade,
  invalidate, handle_corporate_action, expire_candidate, force_close_market, maintenance,
  complete_plan, end_session,
}
use ai_daytrader_sim.Engine.Calls.{
  Leads, Later-trans, if-Leads, log_rejection-Leads, mark-Leads, set_plan_status-Leads,
}

module _ {R : Type 0} ⦃f : Float R⦄ (σ : Setup R) where
  -- A step of a loop over candidates that is a run of the broker.
  abbrev pub Runs : (TradePlan R → CandidatePlan R → Core R → Core R) → Type 0
  Runs step = (p : TradePlan R) (x : CandidatePlan R) (k : Core R) → Leads σ k (step p x k)

  pub for_candidates-Leads :
      (step : TradePlan R → CandidatePlan R → Core R → Core R)
      → Runs step
      → (p : TradePlan R) (xs : List (CandidatePlan R)) (k : Core R)
      → Leads σ k (for_candidates step p xs k)
  for_candidates-Leads step runs p [] k = Later.now
  for_candidates-Leads step runs p (x ∷ xs) k =
      Later-trans σ (runs p x k) (for_candidates-Leads step runs p xs (step p x k))

  pub for_plans-Leads :
      (step : TradePlan R → CandidatePlan R → Core R → Core R)
      → Runs step
      → (ps : List (TradePlan R)) (k : Core R) → Leads σ k (for_plans step ps k)
  for_plans-Leads step runs [] k = Later.now
  for_plans-Leads step runs (p ∷ ps) k =
      Later-trans σ (for_candidates-Leads step runs p p.approved_symbols k)
        (for_plans-Leads step runs ps (for_candidates step p p.approved_symbols k))

  pub set_status-Leads :
      (p : TradePlan R) (status : PlanStatus) (now : ℕ) (k : Core R)
      → Leads σ k (set_status p status now k)
  unfolding set_status
  set_status-Leads p status now k = set_plan_status-Leads σ p.plan_id status now k

  mark_pullback-Runs :
      (tick : MarketTick R) (phase : Phase) (reason : String)
      → Runs (mark_pullback tick phase reason)
  unfolding mark_pullback
  mark_pullback-Runs tick phase reason p x k =
      if-Leads σ k (is_rules x.strategy_type) _ _ Later.now
        (mark-Leads σ p.plan_id x tick phase reason k)

  sync_candidate-Runs :
      (tick : MarketTick R) (had_pending had_position : Bool)
      → Runs (sync_candidate tick had_pending had_position)
  unfolding sync_candidate
  sync_candidate-Runs tick had_pending had_position p x k =
      let portfolio = (desk tick.market k.broker).portfolio in
      let has_pending = is_some (lookup tick.symbol portfolio.pending_orders) in
      let has_position = is_some (lookup tick.symbol portfolio.positions) in
      if-Leads σ k (not (follows tick x)) _ _ Later.now (
        if-Leads σ k (had_position && not has_position) _ _
          (mark-Leads σ p.plan_id x tick Phase.closed "POSITION_CLOSED" k)
          (if-Leads σ k has_position _ _
            (mark-Leads σ p.plan_id x tick Phase.position_open "POSITION_CONFIRMED" k)
            (if-Leads σ k (had_pending && not has_pending) _ _
              (mark-Leads σ p.plan_id x tick Phase.expired "ENTRY_ORDER_TERMINATED" k) Later.now)))

  pub cancel-Leads :
      (m : Market) (symbol reason : String) (state : OrderState) (k : Core R)
      → Leads σ k (cancel σ m symbol reason state k)
  unfolding cancel
  cancel-Leads m symbol reason state k =
      Later.then Later.now (Step.cancelled m symbol reason state k.broker)

  pub trade-Leads :
      (plans : List (TradePlan R)) (tick : MarketTick R) (k : Core R)
      → Leads σ k (trade σ plans tick k)
  unfolding trade
  trade-Leads plans tick k =
      let p = (desk tick.market k.broker).portfolio in
      let had_pending = is_some (lookup tick.symbol p.pending_orders) in
      let had_position = is_some (lookup tick.symbol p.positions) in
      Later-trans σ (Later.then Later.now (Step.ticked tick k.broker)) (
        for_plans-Leads (sync_candidate tick had_pending had_position)
          (sync_candidate-Runs tick had_pending had_position) plans
          (record k { broker = on_desk tick.market (on_tick σ tick) k.broker }))

  invalidate-Runs : (tick : MarketTick R) (now : ℕ) → Runs (invalidate σ tick now)
  unfolding invalidate
  invalidate-Runs tick now p x k =
      let marked = mark_pullback tick Phase.cancelled "CORPORATE_ACTION" p x k in
      if-Leads σ k (str_eq (upper x.symbol) (upper tick.symbol)) _ _
        (Later-trans σ (mark_pullback-Runs tick Phase.cancelled "CORPORATE_ACTION" p x k)
          (set_status-Leads p PlanStatus.cancelled now marked))
        Later.now

  pub handle_corporate_action-Leads :
      (plans : List (TradePlan R)) (tick : MarketTick R) (now : ℕ) (k : Core R)
      → Leads σ k (handle_corporate_action σ plans tick now k)
  unfolding handle_corporate_action
  handle_corporate_action-Leads plans tick now k =
      let closed = record k {
        broker = on_desk tick.market (close_for_corporate_action σ tick) k.broker;
      } in
      let done = for_plans (invalidate σ tick now) plans closed in
      Later-trans σ
        (Later-trans σ (Later.then Later.now (Step.invalidated tick k.broker))
          (for_plans-Leads (invalidate σ tick now) (invalidate-Runs tick now) plans closed))
        (log_rejection-Leads σ tick none ("CORPORATE_ACTION" ∷ []) "PLAN_INVALIDATED" done)

  pub expire_candidate-Runs : (tick : MarketTick R) → Runs (expire_candidate σ tick)
  unfolding expire_candidate
  expire_candidate-Runs tick p x k =
      let cancelled = cancel σ tick.market x.symbol "PLAN_EXPIRED" OrderState.cancelled k in
      Later-trans σ (cancel-Leads tick.market x.symbol "PLAN_EXPIRED" OrderState.cancelled k)
        (mark_pullback-Runs tick Phase.expired "PLAN_EXPIRED" p x cancelled)

  force_close_market-Leads :
      (m : Market) (ticks : Dict (MarketTick R)) (k : Core R)
      → Leads σ k (force_close_market σ m ticks k)
  unfolding force_close_market
  force_close_market-Leads m ticks k =
      Later.then Later.now (Step.forced m ticks "SESSION_FORCE_CLOSE" k.broker)

  pub maintenance-Leads : (now : ℕ) (k : Core R) → Leads σ k (maintenance σ now k)
  unfolding maintenance
  maintenance-Leads now k = Later.then Later.now (Step.expired now k.broker)

  complete_plan-Leads :
      (tick : MarketTick R) (now : ℕ) (ps : List (TradePlan R)) (k : Core R)
      → Leads σ k (complete_plan σ tick now ps k)
  unfolding complete_plan
  complete_plan-Leads tick now [] k = Later.now
  complete_plan-Leads tick now (p ∷ ps) k =
      let done = set_status p PlanStatus.completed now k in
      let closing = mark_pullback tick Phase.closed "SESSION_FORCE_CLOSE" in
      let closed = for_candidates closing p p.approved_symbols done in
      Later-trans σ
        (Later-trans σ (set_status-Leads p PlanStatus.completed now k) (
          for_candidates-Leads closing (mark_pullback-Runs tick Phase.closed "SESSION_FORCE_CLOSE")
            p p.approved_symbols done))
        (complete_plan-Leads tick now ps closed)

  pub end_session-Leads :
      (plans : List (TradePlan R)) (tick : MarketTick R) (now : ℕ) (ticks : Dict (MarketTick R))
      (k : Core R)
      → Leads σ k (end_session σ plans tick now ticks k)
  unfolding end_session
  end_session-Leads plans tick now ticks k =
      let traded = trade σ plans tick k in
      let forced = force_close_market σ tick.market ticks traded in
      let p = (desk tick.market forced.broker).portfolio in
      Later-trans σ
        (Later-trans σ (trade-Leads plans tick k)
          (force_close_market-Leads tick.market ticks traded))
        (if-Leads σ forced (is_empty p.positions && is_empty p.pending_orders) _ _
          (complete_plan-Leads tick now plans forced) Later.now)
