-- ===== src/Engine/Ticks.antt =====
-- The engine refines the broker: each of its calls is a run of the broker's operations, so that what
-- holds of the broker after any calls holds of the engine's.
use mathlib.Core.Path.{subst}
use ai_daytrader_sim.Prelude.{
  ◌||◌, inl, inr, Bool-cases, ℕ, String, ◌≡◌, refl, Bool, true, false, not, ◌&&◌, Option, none,
  List, [], ◌∷◌, ltb, leb, str_eq, is_empty, if◌then◌else◌,
}
use ai_daytrader_sim.Prelude.Dict.{Dict, lookup, insert}
use ai_daytrader_sim.Prelude.Text.{upper}
use ai_daytrader_sim.Float.{Float}
use ai_daytrader_sim.Models.{CostConfig, OrderState, PlanStatus, TradePlan, MarketTick}
use ai_daytrader_sim.Models.Rule.{Value}
use ai_daytrader_sim.MarketClock.{Calendar, force_exit_at}
use ai_daytrader_sim.Repository.Plans.{active_plans}
use ai_daytrader_sim.Pullback.{reset}
use ai_daytrader_sim.Pullback.Writes.{reset-KeepsKeys}
use ai_daytrader_sim.Broker.{Setup}
use ai_daytrader_sim.Broker.Markets.{Later}
use ai_daytrader_sim.Engine.{
  Engine, Core, FeedState, log_rejection, validate_feed, update_feed_state, next_feed,
}
use ai_daytrader_sim.Engine.Process.{
  Answer, for_plans, set_status, follows, cancel, trade, expire_candidate, maintenance,
  enter_candidate, work_plan, work_plans, reset_candidate, react, process_upper, process_tick,
}
use ai_daytrader_sim.Engine.Calls.{
  Leads, Later-trans, if-Leads, log_rejection-Leads, on_machine-Leads, try_entry-Leads,
}
use ai_daytrader_sim.Broker.Slot.Reach.{OneSlotEach, one_slot}
use ai_daytrader_sim.Broker.Markets.{Broker, Reachable, new_broker}
use ai_daytrader_sim.Repository.{Repository}
use ai_daytrader_sim.Engine.Runs.{
  Runs, for_candidates-Leads, for_plans-Leads, set_status-Leads, cancel-Leads, trade-Leads,
  handle_corporate_action-Leads, expire_candidate-Runs, maintenance-Leads, end_session-Leads,
}

module _ {R : Type 0} ⦃f : Float R⦄ (σ : Setup R) (c : Calendar) (fmean : List R → R) where
  enter_candidate-Runs :
      (tick : MarketTick R) (feed : FeedState) (now : ℕ) (previous : Option (Dict (Value R)))
      → Runs σ (enter_candidate σ c fmean tick feed now previous)
  unfolding enter_candidate
  enter_candidate-Runs tick feed now previous p x k =
      if-Leads σ k (str_eq (upper x.symbol) tick.symbol) _ _
        (try_entry-Leads σ c fmean p x tick feed now previous k) Later.now

  work_plan-Leads :
      (tick : MarketTick R) (feed : FeedState) (now : ℕ) (previous : Option (Dict (Value R)))
      (p : TradePlan R) (k : Core R)
      → Leads σ k (work_plan σ c fmean tick feed now previous p k)
  unfolding work_plan
  work_plan-Leads tick feed now previous p k =
      let expired = set_status p PlanStatus.expired now k in
      if-Leads σ k (ltb p.expires_at now) _ _
        (Later-trans σ (set_status-Leads σ p PlanStatus.expired now k) (
          for_candidates-Leads σ (expire_candidate σ tick) (expire_candidate-Runs σ tick) p
            p.approved_symbols expired))
        (for_candidates-Leads σ (enter_candidate σ c fmean tick feed now previous)
          (enter_candidate-Runs tick feed now previous) p p.approved_symbols k)

  work_plans-Leads :
      (tick : MarketTick R) (feed : FeedState) (now : ℕ) (previous : Option (Dict (Value R)))
      (ps : List (TradePlan R)) (k : Core R)
      → Leads σ k (work_plans σ c fmean tick feed now previous ps k)
  unfolding work_plans
  work_plans-Leads tick feed now previous [] k = Later.now
  work_plans-Leads tick feed now previous (p ∷ ps) k =
      Later-trans σ (work_plan-Leads tick feed now previous p k) (
        work_plans-Leads tick feed now previous ps (work_plan σ c fmean tick feed now previous p k))

  reset_candidate-Runs :
      (tick : MarketTick R) (reason : String) → Runs σ (reset_candidate σ c fmean tick reason)
  unfolding reset_candidate
  reset_candidate-Runs tick reason p x k =
      let date : MarketTick R → ℕ = λ t. c.local_date t.market t.source_timestamp in
      if-Leads σ k (follows tick x) _ _
        (on_machine-Leads σ p.plan_id x.symbol (reset date p.plan_id x tick reason) k
          (reset-KeepsKeys date p.plan_id x tick reason))
        Later.now

  if-answer :
      (k : Core R) (t : Bool) (x y : Answer × Core R)
      → Leads σ k x.1
      → Leads σ k y.1
      → Leads σ k (if t then x else y).1
  if-answer k true x y h g = h
  if-answer k false x y h g = g

  react-Leads :
      (tick : MarketTick R) (feed : FeedState) (now : ℕ) (ticks : Dict (MarketTick R))
      (previous : Option (Dict (Value R))) (k : Core R)
      → Leads σ k (react σ c fmean tick feed now ticks previous k).1
  unfolding react
  react-Leads tick feed now ticks previous k =
      let m = tick.market in
      let date = c.local_date m tick.source_timestamp in
      let plans = active_plans m date k.broker.repository in
      let restart = reset_candidate σ c fmean tick "FEED_CONTEXT_RESET" in
      let begun = if feed.context_reset then for_plans restart plans k else k in
      let first : Leads σ k begun =
        if-Leads σ k feed.context_reset _ _
          (for_plans-Leads σ restart (reset_candidate-Runs tick "FEED_CONTEXT_RESET") plans k)
          Later.now in
      let paused = cancel σ m tick.symbol "MARKET_HALTED" OrderState.market_halted begun in
      let logged = log_rejection tick none ("MARKET_HALTED" ∷ []) "DATA_PAUSED" paused in
      let traded = trade σ plans tick begun in
      if-answer k tick.corporate_action _ _
        (Later-trans σ first (handle_corporate_action-Leads σ plans tick now begun))
        (if-answer k feed.halted _ _
          (Later-trans σ first (
            Later-trans σ
              (Later-trans σ
                (cancel-Leads σ m tick.symbol "MARKET_HALTED" OrderState.market_halted begun)
                (log_rejection-Leads σ tick none ("MARKET_HALTED" ∷ []) "DATA_PAUSED" paused))
              (for_plans-Leads σ (reset_candidate σ c fmean tick "MARKET_HALTED")
                (reset_candidate-Runs tick "MARKET_HALTED") plans logged)))
          (if-answer k (c.is_session m date && leb (force_exit_at c m date) tick.source_timestamp) _
            _ (Later-trans σ first (end_session-Leads σ plans tick now ticks begun))
            (Later-trans σ first (
              Later-trans σ (trade-Leads σ plans tick begun)
                (work_plans-Leads tick feed now previous plans traded)))))

  update_feed_state-broker :
      (policy : CostConfig R) (tick : MarketTick R) (e : Engine R)
      → (update_feed_state policy tick e).1.core.broker ≡ e.core.broker
  unfolding update_feed_state
  update_feed_state-broker policy tick e =
      let state = next_feed policy tick (lookup (upper tick.symbol) (e.feed_states tick.market)) in
      elim (Bool-cases (state.context_reset || state.halted)) [
        | inl h ↦ rw h refl
        | inr h ↦ rw h refl
      ]

  process_upper-Leads :
      (tick : MarketTick R) (now : ℕ) (e : Engine R)
      → Leads σ e.core (process_upper σ c fmean tick now e).1.core
  unfolding process_upper
  process_upper-Leads tick now e =
      let policy = σ.costs tick.market in
      let errors = validate_feed policy now tick e.feed_states in
      let (feed, updated) = update_feed_state policy tick e in
      let ticks = insert tick.symbol tick (updated.latest_ticks tick.market) in
      let previous = lookup tick.symbol (updated.previous_context tick.market) in
      let run = react-Leads tick feed now ticks previous updated.core in
      elim (Bool-cases (not (is_empty errors))) [
        | inl h ↦ rw h (log_rejection-Leads σ tick none errors "DATA_REJECTED" e.core)
        | inr h ↦ rw h (
            subst
              (λ b. Later σ b (react σ c fmean tick feed now ticks previous updated.core).1.broker)
              (update_feed_state-broker policy tick e) run)
      ]

  -- Whatever a tick does to the broker, it does by calls of the broker's own operations, and by writes
  -- to the tables that leave the idempotency keys alone: the broker after `process_tick` is one that
  -- such steps lead to from the broker before it.
  pub process_tick-Later :
      (tick : MarketTick R) (now : ℕ) (e : Engine R)
      → Later σ e.core.broker (process_tick σ c fmean tick now e).1.core.broker
  unfolding process_tick
  process_tick-Later tick now e =
      process_upper-Leads (record tick { symbol = upper tick.symbol }) now e

  Reachable-Later : {a b : Broker R} → Reachable σ a → Later σ a b → Reachable σ b
  Reachable-Later r Later.now = r
  Reachable-Later r (Later.then h s) = Reachable.next (Reachable-Later r h) s

  -- The engines that ticks and maintenance lead to, from one with a new broker.
  pub data Running : Engine R → Type 0 where
    started :
        (r : Repository R) (draws : ℕ) (e : Engine R)
        → e.core.broker ≡ new_broker σ r draws
        → Running e
    ticked :
        {e : Engine R} (tick : MarketTick R) (now : ℕ)
        → Running e
        → Running (process_tick σ c fmean tick now e).1
    maintained :
        {e : Engine R} (now : ℕ)
        → Running e
        → Running (record e { core = maintenance σ now e.core })

  Running-Reachable : {e : Engine R} → Running e → Reachable σ e.core.broker
  Running-Reachable (started r draws e h) = rw h (Reachable.new r draws)
  Running-Reachable (ticked {e} tick now h) =
      Reachable-Later (Running-Reachable h) (process_tick-Later tick now e)
  Running-Reachable (maintained {e} now h) =
      Reachable-Later (Running-Reachable h) (maintenance-Leads σ now e.core)

  -- Whatever ticks an engine with a new broker has processed, valid or not, and whatever plans were
  -- active, each market has one slot: all its orders and positions stand under one symbol, at most
  -- one of each, an order asks for more than it has got, and a position holds shares, no more than it
  -- was given.
  pub Running-OneSlotEach : (e : Engine R) → Running e → OneSlotEach e.core.broker
  Running-OneSlotEach e h = one_slot σ e.core.broker (Running-Reachable h)
