-- ===== src/Broker/Fills.antt =====
-- broker.py: fills of entry orders.
use ai_daytrader_sim.Prelude.{
  ℕ, ◌+◌, ◌-◌, ◌*◌, ◌/◌, Bool, not, ◌&&◌, ◌||◌, none, some, List, [], ◌∷◌, min, ltb, leb, ◌==◌,
  if◌then◌else◌, or_else, is_empty,
}
use ai_daytrader_sim.Prelude.Dict.{lookup, insert, erase}
use ai_daytrader_sim.Float.{Float, ◌⊕◌, ◌⊖◌, ◌⊗◌, ◌⊘◌, num, le, lt, floor}
use ai_daytrader_sim.Models.{
  Market, same_market, OrderState, CostConfig, MarketTick, is_open, is_trading, is_regular,
  is_normal, is_consolidated,
}
use ai_daytrader_sim.Portfolio.{Portfolio, PendingOrder, Position, remaining_of}
use ai_daytrader_sim.Repository.{Event}
use ai_daytrader_sim.Broker.{Setup, Desk, save, log, with_portfolio, order_event}
use ai_daytrader_sim.Broker.Costs.{entry_fill}
use ai_daytrader_sim.Broker.Sessions.{cancel_pending}

-- The loop of `_allocate_targets`. `math.ceil(quantity * pct / 100)` is the quotient rounded up: the
-- division of these whole numbers is exact or misses the next whole number by 0.01 at least.
unfoldable pub allocate_from {ℓ} : {P : Type ℓ} → ℕ → ℕ → List (P × ℕ) → List (P × ℕ)
allocate_from quantity allocated [] = []
allocate_from quantity allocated ((price, pct) ∷ specs) =
    let qty =
      if is_empty specs
      then quantity - allocated
      else min (quantity - allocated) ((quantity * pct + 99) / 100) in
    (price, qty) ∷ allocate_from quantity (allocated + qty) specs

unfoldable pub allocate_targets {ℓ} : {P : Type ℓ} → ℕ → List (P × ℕ) → List (P × ℕ)
unfolding allocate_from
allocate_targets quantity specs = allocate_from quantity 0 specs

module _ {R : Type 0} ⦃f : Float R⦄ where
  -- The position that the first fill of an order opens, still empty.
  unfoldable pub empty_position : PendingOrder R → MarketTick R → Position R
  empty_position o tick = record {
    market = o.market;
    symbol = o.symbol;
    exchange = o.exchange;
    plan_id = o.plan_id;
    quantity = 0;
    remaining = 0;
    entry_price = num 0;
    stop_price = o.stop_price;
    stop_limit_offset_pct = o.stop_limit_offset_pct;
    emergency_exit_after = o.emergency_exit_after;
    targets = [];
    target_specs = o.target_specs;
    opened_at = tick.source_timestamp;
    exit_policy = o.exit_policy;
    highest_price = tick.bid;
    realized_pnl = num 0;
    fees = num 0;
    filled_targets = [];
    exit_pending_at = none;
    exit_reason = none;
    below_vwap_since = none;
  }

  unfoldable pub filled_order : PendingOrder R → ℕ → R → PendingOrder R
  filled_order o quantity all_in =
      let filled = o.filled_quantity + quantity in
      record o {
        filled_quantity = filled;
        average_fill_price =
            (o.average_fill_price ⊗ num o.filled_quantity ⊕ all_in ⊗ num quantity) ⊘ num filled;
        state =
            if o.desired_quantity - filled == 0
            then OrderState.filled
            else OrderState.partially_filled;
      }

  unfoldable pub grown_position : Position R → ℕ → R → R → Position R
  unfolding allocate_targets
  grown_position q quantity all_in fee =
      let held = q.quantity + quantity in
      record q {
        quantity = held;
        remaining = q.remaining + quantity;
        entry_price = (q.entry_price ⊗ num q.quantity ⊕ all_in ⊗ num quantity) ⊘ num held;
        fees = q.fees ⊕ fee ⊗ num quantity;
        targets = allocate_targets held q.target_specs;
      }

  -- The portfolio after a fill of `quantity` shares, which is positive and leaves the order `o'`.
  unfoldable pub filled_portfolio :
      PendingOrder R → PendingOrder R → MarketTick R → ℕ → R → R → Portfolio R → Portfolio R
  unfolding empty_position grown_position
  filled_portfolio o o' tick quantity all_in fee p =
      let q = or_else (lookup o.symbol p.positions) (empty_position o tick) in
      record p {
        cash = p.cash ⊖ all_in ⊗ num quantity;
        positions = insert o.symbol (grown_position q quantity all_in fee) p.positions;
        pending_orders =
            if remaining_of o' == 0
            then erase o.symbol p.pending_orders
            else insert o.symbol o' p.pending_orders;
        trades_today = if o.filled_quantity == 0 then p.trades_today + 1 else p.trades_today;
      }

  -- The events of a fill, oldest first.
  unfoldable pub fill_events : PendingOrder R → PendingOrder R → ℕ → R → R → Desk R → Desk R
  unfolding log order_event
  fill_events o o' quantity execution fee d =
      let bought =
        Event.paper_buy_filled o.market o.symbol o.plan_id quantity execution (fee ⊗ num quantity)
          o'.filled_quantity in
      let d' = order_event o' o'.state (log bought d) in
      if o.filled_quantity == 0 then order_event o' OrderState.position_open d' else d'

  unfoldable pub apply_entry_fill : PendingOrder R → MarketTick R → ℕ → R → R → Desk R → Desk R
  unfolding filled_order filled_portfolio fill_events save with_portfolio
  apply_entry_fill o tick wanted execution fee d =
      let all_in = execution ⊕ fee in
      let affordable = floor (d.portfolio.cash ⊘ all_in) in
      let quantity = min (min wanted affordable) (remaining_of o) in
      let o' = filled_order o quantity all_in in
      if quantity == 0
      then d
      else save (
          fill_events o o' quantity execution fee
            (with_portfolio (filled_portfolio o o' tick quantity all_in fee d.portfolio) d))

  abbrev pub spread_pct : MarketTick R → R
  spread_pct tick = (tick.ask ⊖ tick.bid) ⊘ tick.last ⊗ num 100

  -- The quote conditions under which `process_pending` goes on.
  unfoldable pub quote_usable : CostConfig R → MarketTick R → Bool
  quote_usable cost tick =
      not (
        not (is_regular tick.session)
        || not (is_normal tick.luld_status)
        || le tick.ask tick.bid
        || (same_market tick.market Market.us && not (is_consolidated tick.quote_scope)))
      && not (lt cost.max_spread_pct (spread_pct tick))

  -- The shares that a fill on this tick may take from the market.
  unfoldable pub visible_quantity : CostConfig R → MarketTick R → ℕ
  visible_quantity cost tick =
      min
        (if tick.ask_size == 0
          then floor (num tick.trade_size ⊗ cost.volume_participation_pct ⊘ num 100)
          else tick.ask_size)
        cost.max_fill_quantity_per_tick

module _ {R : Type 0} ⦃f : Float R⦄ (σ : Setup R) where
  -- From the fill price on.
  unfoldable pub try_fill : PendingOrder R → MarketTick R → Desk R → Desk R
  try_fill o tick d =
      let cost = σ.costs tick.market in
      let (execution, fee) = entry_fill cost tick.ask o.limit_price in
      let visible = visible_quantity cost tick in
      if le execution (num 0)
      then d
      else if visible == 0
      then d
      else if not cost.allow_partial_fill && ltb visible (remaining_of o)
      then d
      else apply_entry_fill o tick (min (remaining_of o) visible) execution fee d

  unfoldable pub process_order : PendingOrder R → MarketTick R → Desk R → Desk R
  process_order o tick d =
      if not (is_open tick.market_status) || not (is_trading tick.symbol_status)
      then cancel_pending σ tick.symbol "MARKET_HALTED" OrderState.market_halted d
      else if not (quote_usable (σ.costs tick.market) tick)
      then d
      else if leb o.expires_at tick.received_timestamp
      then cancel_pending σ tick.symbol "FILL_TIMEOUT" OrderState.expired d
      else if ltb tick.received_timestamp o.eligible_fill_at || lt o.limit_price tick.ask
      then d
      else try_fill o tick d

  unfoldable pub process_pending : MarketTick R → Desk R → Desk R
  process_pending tick d = elim (lookup tick.symbol d.portfolio.pending_orders) [
    | none ↦ d
    | some o ↦ process_order o tick d
  ]
