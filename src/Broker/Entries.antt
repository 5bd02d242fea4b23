-- ===== src/Broker/Entries.antt =====
-- broker.py: the submission of an entry order.
use ai_daytrader_sim.Prelude.{
  ℕ, ◌+◌, ◌*◌, String, ◌<>◌, Bool, true, not, Option, none, some, map, min, ◌==◌, is_some,
  if◌then◌else◌, str_eq,
}
use ai_daytrader_sim.Prelude.Dict.{insert}
use ai_daytrader_sim.Prelude.Text.{upper}
use ai_daytrader_sim.Float.{Float, ◌⊖◌, ◌⊗◌, ◌⊘◌, num, le, floor, fmax, fmin}
use ai_daytrader_sim.Models.{OrderState, CostConfig, CandidatePlan, MarketTick}
use ai_daytrader_sim.Portfolio.{Portfolio, PendingOrder}
use ai_daytrader_sim.Repository.{Repository, Side, claim_idempotency_key}
use ai_daytrader_sim.KisOrders.{record_new_order}
use ai_daytrader_sim.Broker.{Setup, Desk, save, with_portfolio, order_event}
use ai_daytrader_sim.Broker.Costs.{
  worst_case_risk_per_share, entry_unit_cost_at_limit, daily_risk_used,
}
use ai_daytrader_sim.Broker.Sessions.{Refusal, can_submit}

module _ {R : Type 0} ⦃f : Float R⦄ where
  -- The number of shares that the budgets, the cash and the cap allow.
  unfoldable pub entry_quantity : CostConfig R → CandidatePlan R → R → Portfolio R → ℕ
  unfolding daily_risk_used entry_unit_cost_at_limit
  entry_quantity cost c risk_per_share p =
      let per_trade_budget = p.initial_cash ⊗ cost.trade_risk_pct ⊘ num 100 in
      let daily_budget = p.initial_cash ⊗ cost.daily_loss_limit_pct ⊘ num 100 in
      let available = fmax (num 0) (daily_budget ⊖ daily_risk_used cost p) in
      let risk_quantity = floor (fmin per_trade_budget available ⊘ risk_per_share) in
      let cash_quantity = floor (p.cash ⊘ entry_unit_cost_at_limit cost c.entry.limit_price) in
      min (min risk_quantity cash_quantity) cost.max_position_quantity

  abbrev pub entry_key : String → CandidatePlan R → String
  entry_key plan_id c = plan_id <> ":" <> upper c.symbol <> ":ENTRY"

  unfoldable pub new_order :
      CostConfig R → String → CandidatePlan R → MarketTick R → String → ℕ → R → PendingOrder R
  new_order cost plan_id c tick order_id quantity risk_per_share = record {
    order_id = order_id;
    idempotency_key = entry_key plan_id c;
    market = tick.market;
    symbol = c.symbol;
    exchange = c.exchange;
    plan_id = plan_id;
    state = OrderState.entry_pending;
    created_at = tick.received_timestamp;
    eligible_fill_at = tick.received_timestamp + cost.fill_latency_ms * 1000;
    expires_at = tick.received_timestamp + cost.fill_timeout;
    limit_price = c.entry.limit_price;
    desired_quantity = quantity;
    filled_quantity = 0;
    average_fill_price = num 0;
    risk_per_share = risk_per_share;
    stop_price = c.stop_loss.price;
    stop_limit_offset_pct = c.stop_loss.limit_offset_pct;
    emergency_exit_after = c.stop_loss.emergency_exit_after;
    target_specs = map (λ t. (t.price, t.quantity_pct)) c.take_profit;
    exit_policy = c.exit_policy;
  }

module _ {R : Type 0} ⦃f : Float R⦄ (σ : Setup R) where
  -- `record_new_order` for the entry: whether it may go on, which a missing recorder never prevents.
  unfoldable pub record_entry : PendingOrder R → Repository R → Bool × Repository R
  unfolding record_new_order
  record_entry o r =
      if σ.recording
      then record_new_order o.order_id o.idempotency_key o.plan_id o.market o.symbol o.exchange
          Side.buy o.desired_quantity o.limit_price "ENTRY_SIGNAL" r
      else (true, r)

  -- `portfolio.pending_orders[candidate.symbol] = order` and what follows it.
  unfoldable pub place : PendingOrder R → Desk R → Desk R
  unfolding save order_event with_portfolio
  place o d =
      let p = d.portfolio in
      let placed =
        with_portfolio
          (record p {
            pending_orders = insert o.symbol o p.pending_orders;
            order_submissions_today = p.order_submissions_today + 1;
          })
          d in
      order_event o OrderState.entry_pending
        (order_event o OrderState.signal_triggered (save placed))

  -- From the claim of the idempotency key on.
  unfoldable pub claim_and_place :
      String → CandidatePlan R → MarketTick R → ℕ → R → Desk R → (Option Refusal) × Desk R
  unfolding claim_idempotency_key new_order record_entry place
  claim_and_place plan_id c tick quantity risk_per_share d =
      let (claimed, r) = claim_idempotency_key (entry_key plan_id c) d.repository in
      if not claimed
      then (some Refusal.order_already_submitted, d)
      else (let o =
            new_order (σ.costs tick.market) plan_id c tick (σ.uuid d.draws) quantity
              risk_per_share in
          let (recorded, r') = record_entry o r in
          let d' = record d { repository = r'; draws = d.draws + 1 } in
          if not recorded
          then (some Refusal.order_intent_already_recorded, d')
          else (none, place o d'))

  -- The reason for no order, or `none` for an order, which then is the newest pending one.
  unfoldable pub submit_entry :
      String → CandidatePlan R → MarketTick R → Desk R → Option Refusal × Desk R
  submit_entry plan_id c tick d =
      let cost = σ.costs tick.market in
      if not (str_eq (upper c.symbol) (upper tick.symbol))
      then (some Refusal.symbol_mismatch, d)
      else (let (reason, d') = can_submit σ tick.market tick.received_timestamp d in
          let risk_per_share = worst_case_risk_per_share cost c in
          let quantity = entry_quantity cost c risk_per_share d'.portfolio in
          if not (is_some reason)
          then (if le risk_per_share (num 0)
              then (some Refusal.risk_reward_invalid, d')
              else if quantity == 0
              then (some Refusal.risk_blocked, d')
              else claim_and_place plan_id c tick quantity risk_per_share d')
          else (reason, d'))
