-- ===== src/Engine/Process.antt =====
-- engine.py: `process_tick`, with the steps that it is made of, `force_close_market` and `maintenance`.
use ai_daytrader_sim.Prelude.{
  ℕ, String, Bool, false, not, ◌&&◌, Option, none, some, List, [], ◌∷◌, ltb, leb, str_eq, is_empty,
  is_some, if◌then◌else◌,
}
use ai_daytrader_sim.Prelude.Dict.{Dict, lookup, insert}
use ai_daytrader_sim.Prelude.Text.{upper}
use ai_daytrader_sim.Float.{Float, lt}
use ai_daytrader_sim.Models.{Market, OrderState, PlanStatus, CandidatePlan, TradePlan, MarketTick}
use ai_daytrader_sim.Models.Rule.{Value}
use ai_daytrader_sim.MarketClock.{Calendar, force_exit_at}
use ai_daytrader_sim.Repository.Plans.{active_plans, set_plan_status}
use ai_daytrader_sim.Pullback.{Phase, reset}
use ai_daytrader_sim.Broker.{Setup}
use ai_daytrader_sim.Broker.Sessions.{cancel_pending}
use ai_daytrader_sim.Broker.Exits.{force_close}
use ai_daytrader_sim.Broker.Ticks.{on_tick}
use ai_daytrader_sim.Broker.Markets.{desk, on_desk, close_for_corporate_action, expire_pending}
use ai_daytrader_sim.Engine.{
  Engine, Core, FeedState, put_market, write, log_rejection, on_machine, context, validate_feed,
  update_feed_state,
}
use ai_daytrader_sim.Engine.Ready.{is_rules}
use ai_daytrader_sim.Engine.Entry.{mark, try_entry}

-- What `process_tick` answers.
pub data Answer : Type 0 where
  rejected : List String → Answer
  accepted : Option String → Answer

module _ {R : Type 0} where
  -- `for plan in plans: for candidate in plan.approved_symbols:`
  abbrev pub for_candidates :
      (TradePlan R → CandidatePlan R → Core R → Core R)
      → TradePlan R
      → List (CandidatePlan R)
      → Core R
      → Core R
  for_candidates step plan [] k = k
  for_candidates step plan (x ∷ xs) k = for_candidates step plan xs (step plan x k)

  abbrev pub for_plans :
      (TradePlan R → CandidatePlan R → Core R → Core R) → List (TradePlan R) → Core R → Core R
  for_plans step [] k = k
  for_plans step (p ∷ ps) k = for_plans step ps (for_candidates step p p.approved_symbols k)

  -- The plan's status, set at the time `now`.
  unfoldable pub set_status : TradePlan R → PlanStatus → ℕ → Core R → Core R
  unfolding write set_plan_status
  set_status plan status now = write (set_plan_status plan.plan_id status now)

module _ {R : Type 0} ⦃f : Float R⦄ where
  -- `candidate.symbol == tick.symbol and candidate.strategy_type == "pullback_rebreak"`
  abbrev pub follows : MarketTick R → CandidatePlan R → Bool
  follows tick candidate =
      str_eq candidate.symbol tick.symbol && not (is_rules candidate.strategy_type)

  unfoldable pub mark_pullback :
      MarketTick R → Phase → String → TradePlan R → CandidatePlan R → Core R → Core R
  unfolding mark
  mark_pullback tick phase reason plan candidate k =
      if is_rules candidate.strategy_type
      then k
      else mark plan.plan_id candidate tick phase reason k

  -- `_sync_pullback_execution_states`, for one candidate
  unfoldable pub sync_candidate :
      MarketTick R
      → (had_pending had_position : Bool) → TradePlan R
      → CandidatePlan R
      → Core R
      → Core R
  unfolding mark desk
  sync_candidate tick had_pending had_position plan candidate k =
      let p = (desk tick.market k.broker).portfolio in
      let has_pending = is_some (lookup tick.symbol p.pending_orders) in
      let has_position = is_some (lookup tick.symbol p.positions) in
      let marked =
        λ (phase : Phase) (reason : String). mark plan.plan_id candidate tick phase reason k in
      if not (follows tick candidate)
      then k
      else if had_position && not has_position
      then marked Phase.closed "POSITION_CLOSED"
      else if has_position
      then marked Phase.position_open "POSITION_CONFIRMED"
      else if had_pending && not has_pending
      then marked Phase.expired "ENTRY_ORDER_TERMINATED"
      else k

module _ {R : Type 0} ⦃f : Float R⦄ (σ : Setup R) where
  unfoldable pub cancel : Market → String → String → OrderState → Core R → Core R
  unfolding on_desk cancel_pending
  cancel m symbol reason state k = record k {
    broker = on_desk m (cancel_pending σ symbol reason state) k.broker;
  }

  -- The broker's `on_tick`, with `_sync_pullback_execution_states` after it.
  unfoldable pub trade : List (TradePlan R) → MarketTick R → Core R → Core R
  unfolding on_desk on_tick sync_candidate desk
  trade plans tick k =
      let p = (desk tick.market k.broker).portfolio in
      let had_pending = is_some (lookup tick.symbol p.pending_orders) in
      let had_position = is_some (lookup tick.symbol p.positions) in
      for_plans (sync_candidate tick had_pending had_position) plans
        (record k { broker = on_desk tick.market (on_tick σ tick) k.broker })

  -- One candidate of `_handle_corporate_action`
  unfoldable pub invalidate : MarketTick R → ℕ → TradePlan R → CandidatePlan R → Core R → Core R
  unfolding mark_pullback set_status upper
  invalidate tick now plan candidate k =
      if str_eq (upper candidate.symbol) (upper tick.symbol)
      then set_status plan PlanStatus.cancelled now
          (mark_pullback tick Phase.cancelled "CORPORATE_ACTION" plan candidate k)
      else k

  unfoldable pub handle_corporate_action : List (TradePlan R) → MarketTick R → ℕ → Core R → Core R
  unfolding on_desk close_for_corporate_action invalidate log_rejection
  handle_corporate_action plans tick now k =
      log_rejection tick none ("CORPORATE_ACTION" ∷ []) "PLAN_INVALIDATED" (
        for_plans (invalidate tick now) plans
          (record k { broker = on_desk tick.market (close_for_corporate_action σ tick) k.broker }))

  unfoldable pub expire_candidate : MarketTick R → TradePlan R → CandidatePlan R → Core R → Core R
  unfolding cancel mark_pullback
  expire_candidate tick plan candidate k =
      mark_pullback tick Phase.expired "PLAN_EXPIRED" plan candidate
        (cancel tick.market candidate.symbol "PLAN_EXPIRED" OrderState.cancelled k)

  -- `force_close_market`, with the last ticks of the market.
  unfoldable pub force_close_market : Market → Dict (MarketTick R) → Core R → Core R
  unfolding on_desk force_close
  force_close_market m ticks k = record k {
    broker = on_desk m (force_close σ ticks "SESSION_FORCE_CLOSE") k.broker;
  }

  unfoldable pub maintenance : ℕ → Core R → Core R
  unfolding expire_pending
  maintenance now k = record k { broker = expire_pending σ now k.broker }

  -- The end of the session: once nothing is held or pending, the plans are completed.
  unfoldable pub complete_plan : MarketTick R → ℕ → List (TradePlan R) → Core R → Core R
  unfolding set_status mark_pullback
  complete_plan tick now [] k = k
  complete_plan tick now (p ∷ ps) k = complete_plan tick now ps (
      for_candidates (mark_pullback tick Phase.closed "SESSION_FORCE_CLOSE") p p.approved_symbols
        (set_status p PlanStatus.completed now k))

  unfoldable pub end_session :
      List (TradePlan R) → MarketTick R → ℕ → Dict (MarketTick R) → Core R → Core R
  unfolding trade force_close_market complete_plan desk
  end_session plans tick now ticks k =
      let forced = force_close_market tick.market ticks (trade plans tick k) in
      let p = (desk tick.market forced.broker).portfolio in
      if is_empty p.positions && is_empty p.pending_orders
      then complete_plan tick now plans forced
      else forced

module _ {R : Type 0} ⦃f : Float R⦄ (σ : Setup R) (c : Calendar) (fmean : List R → R) where
  -- One plan of the loop: an expired one is closed, and the candidates of another may enter.
  unfoldable pub enter_candidate :
      MarketTick R
      → FeedState
      → ℕ
      → Option (Dict (Value R))
      → TradePlan R
      → CandidatePlan R
      → Core R
      → Core R
  unfolding try_entry upper
  enter_candidate tick feed now previous plan candidate k =
      if str_eq (upper candidate.symbol) tick.symbol
      then try_entry σ c fmean plan candidate tick feed now previous k
      else k

  unfoldable pub work_plan :
      MarketTick R → FeedState → ℕ → Option (Dict (Value R)) → TradePlan R → Core R → Core R
  unfolding set_status expire_candidate enter_candidate
  work_plan tick feed now previous plan k =
      if ltb plan.expires_at now
      then for_candidates (expire_candidate σ tick) plan plan.approved_symbols
          (set_status plan PlanStatus.expired now k)
      else for_candidates (enter_candidate tick feed now previous) plan plan.approved_symbols k

  unfoldable pub work_plans :
      MarketTick R → FeedState → ℕ → Option (Dict (Value R)) → List (TradePlan R) → Core R → Core R
  unfolding work_plan
  work_plans tick feed now previous [] k = k
  work_plans tick feed now previous (p ∷ ps) k =
      work_plans tick feed now previous ps (work_plan tick feed now previous p k)

  -- `self.pullback.reset` for the candidates of the tick's symbol.
  unfoldable pub reset_candidate :
      MarketTick R → String → TradePlan R → CandidatePlan R → Core R → Core R
  unfolding on_machine reset
  reset_candidate tick reason plan candidate k =
      if follows tick candidate
      then on_machine plan.plan_id candidate.symbol
          (reset (λ t. c.local_date t.market t.source_timestamp) plan.plan_id candidate tick reason)
          k
      else k

  -- What follows once the feed's state is set: the answer and the core. `ticks` are the last ticks of
  -- the market and `previous` the earlier values of the symbol.
  unfoldable pub react :
      MarketTick R
      → FeedState
      → ℕ
      → Dict (MarketTick R)
      → Option (Dict (Value R))
      → Core R
      → Answer × Core R
  unfolding active_plans reset_candidate handle_corporate_action cancel log_rejection end_session
      trade work_plans force_exit_at
  react tick feed now ticks previous k =
      let m = tick.market in
      let date = c.local_date m tick.source_timestamp in
      let plans = active_plans m date k.broker.repository in
      let begun =
        if feed.context_reset
        then for_plans (reset_candidate tick "FEED_CONTEXT_RESET") plans k
        else k in
      if tick.corporate_action
      then (accepted (some "PLAN_INVALIDATED"), handle_corporate_action σ plans tick now begun)
      else if feed.halted
      then (
        rejected ("MARKET_HALTED" ∷ []),
        for_plans (reset_candidate tick "MARKET_HALTED") plans (
            log_rejection tick none ("MARKET_HALTED" ∷ []) "DATA_PAUSED"
              (cancel σ m tick.symbol "MARKET_HALTED" OrderState.market_halted begun)),
      )
      else if c.is_session m date && leb (force_exit_at c m date) tick.source_timestamp
      then (accepted (some "SESSION_FORCE_CLOSE"), end_session σ plans tick now ticks begun)
      else (accepted none, work_plans tick feed now previous plans (trade σ plans tick begun))

  -- The values that a tick leaves for the next one: none new in a locked market, after a halt or at
  -- the end of the session.
  abbrev pub keeps_context : MarketTick R → Answer → Bool
  keeps_context tick (accepted none) = lt tick.bid tick.ask
  keeps_context tick _ = false

  -- `process_tick`, for a tick whose symbol is in upper case, at the time `now`.
  unfoldable pub process_upper : MarketTick R → ℕ → Engine R → Answer × Engine R
  unfolding validate_feed update_feed_state react context log_rejection
  process_upper tick now e =
      let m = tick.market in
      let policy = σ.costs m in
      let errors = validate_feed policy now tick e.feed_states in
      let (feed, updated) = update_feed_state policy tick e in
      let ticks = insert tick.symbol tick (updated.latest_ticks m) in
      let previous = lookup tick.symbol (updated.previous_context m) in
      let (answer, k) = react tick feed now ticks previous updated.core in
      if not (is_empty errors)
      then (
        rejected errors,
        record e { core = log_rejection tick none errors "DATA_REJECTED" e.core },
      )
      else (
        answer,
        record updated {
          core = k;
          latest_ticks = put_market m ticks updated.latest_ticks;
          previous_context =
              if keeps_context tick answer
              then put_market m (insert tick.symbol (context tick) (updated.previous_context m))
                  updated.previous_context
              else updated.previous_context;
        },
      )

  unfoldable pub process_tick : MarketTick R → ℕ → Engine R → Answer × Engine R
  unfolding process_upper upper
  process_tick tick now e = process_upper (record tick { symbol = upper tick.symbol }) now e
