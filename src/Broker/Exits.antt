-- ===== src/Broker/Exits.antt =====
-- broker.py: the closing of positions.
use ai_daytrader_sim.Prelude.{
  ℕ, ◌+◌, ◌-◌, ◌*◌, String, ◌<>◌, Bool, true, false, ◌||◌, none, some, [], ◌∷◌, min, leb, ◌==◌,
  if◌then◌else◌, or_else, is_some, str_eq,
}
use ai_daytrader_sim.Prelude.Dict.{Dict, lookup, insert, erase, keys}
use ai_daytrader_sim.Float.{Float, ◌⊕◌, ◌⊖◌, ◌⊗◌, ◌⊘◌, num, le, lt}
use ai_daytrader_sim.Models.{OrderState, CostConfig, MarketTick, us_per_minute}
use ai_daytrader_sim.Portfolio.{Portfolio, Position}
use ai_daytrader_sim.Repository.{Event, Side}
use ai_daytrader_sim.KisOrders.{record_new_order}
use ai_daytrader_sim.Broker.{Setup, Desk, save, log, with_portfolio}
use ai_daytrader_sim.Broker.Costs.{exit_net}
use ai_daytrader_sim.Broker.Sessions.{cancel_pending, cancel_each}

module _ {R : Type 0} ⦃f : Float R⦄ where
  -- A position is one object, in the dict and in the hands of the caller: a change is stored in the
  -- dict under its symbol.
  unfoldable pub put_position : Position R → Desk R → Desk R
  unfolding with_portfolio
  put_position q d =
      let p = d.portfolio in
      with_portfolio (record p { positions = insert q.symbol q p.positions }) d

  -- The position after a sale of `quantity` shares with the profit `pnl` and the costs `fees`.
  unfoldable pub sold_position : Position R → ℕ → R → R → Position R
  sold_position q quantity pnl fees = record q {
    realized_pnl = q.realized_pnl ⊕ pnl;
    fees = q.fees ⊕ fees;
    remaining = q.remaining - quantity;
  }

  -- The stops in a row and the cooldown, after a position is closed in full.
  unfoldable pub closed_counters : CostConfig R → String → R → ℕ → Portfolio R → Portfolio R
  closed_counters cost reason pnl received p =
      if str_eq reason "STOP_LOSS"
      then record p {
        consecutive_stops = p.consecutive_stops + 1;
        cooldown_until = some (received + cost.stop_cooldown_minutes * us_per_minute);
      }
      else if lt (num 0) pnl
      then record p { consecutive_stops = 0 }
      else p

  -- The cash and the profits after a sale.
  unfoldable pub credited : R → R → Portfolio R → Portfolio R
  credited net pnl p = record p {
    cash = p.cash ⊕ net;
    realized_pnl = p.realized_pnl ⊕ pnl;
    session_realized_pnl = p.session_realized_pnl ⊕ pnl;
  }

module _ {R : Type 0} ⦃f : Float R⦄ where
  abbrev pub stop_limit : Position R → R
  stop_limit q = q.stop_price ⊗ (num 1 ⊖ q.stop_limit_offset_pct ⊘ num 100)

  unfoldable pub reset_day : Desk R → Desk R
  unfolding save with_portfolio
  reset_day d = save (
      with_portfolio
        (record d.portfolio {
          trades_today = 0;
          order_submissions_today = 0;
          session_realized_pnl = num 0;
          consecutive_stops = 0;
          cooldown_until = none;
        })
        d)

module _ {R : Type 0} ⦃f : Float R⦄ (σ : Setup R) where
  -- The intent of an exit, if there is a recorder; its result is not read.
  unfoldable pub record_exit : Position R → String → ℕ → R → String → Desk R → Desk R
  unfolding record_new_order
  record_exit q exit_order_id quantity price reason d =
      if σ.recording
      then record d {
        repository =
            (record_new_order exit_order_id
              (q.plan_id <> ":" <> q.symbol <> ":EXIT:" <> exit_order_id) q.plan_id q.market
              q.symbol q.exchange Side.sell quantity price reason d.repository).1;
      }
      else d

  -- What a sale leaves of the portfolio: a position with no shares left is taken out of the dict.
  unfoldable pub settle_portfolio : Position R → R → String → R → ℕ → Portfolio R → Portfolio R
  unfolding credited closed_counters
  settle_portfolio q net reason pnl received p =
      let p' = credited net pnl p in
      if q.remaining == 0
      then (let p'' = closed_counters (σ.costs q.market) reason pnl received p' in
          record p'' { positions = erase q.symbol p''.positions })
      else record p' { positions = insert q.symbol q p'.positions }

  unfoldable pub sale_events : Position R → OrderState → String → ℕ → R → R → R → Desk R → Desk R
  unfolding log
  sale_events q state reason quantity price fees pnl d =
      let d' =
        log
          (Event.paper_sell_filled q.market q.symbol q.plan_id state reason quantity price fees pnl)
          d in
      if q.remaining == 0
      then log (Event.order_state_changed q.market q.symbol q.plan_id state) (
          log (Event.paper_position_closed q.market q.symbol q.plan_id q.realized_pnl q.fees reason)
            d')
      else d'

  -- `close_quantity` once the quantity is set: the position that the caller goes on with, and the desk.
  unfoldable pub sell :
      Position R → ℕ → MarketTick R → String → OrderState → Desk R → Position R × Desk R
  sell q quantity tick reason state d =
      let d' =
        record_exit q (σ.uuid d.draws) quantity tick.bid reason
          (record d { draws = d.draws + 1 }) in
      let (net, fees) = exit_net (σ.costs q.market) (tick.bid ⊗ num quantity) in
      let pnl = net ⊖ q.entry_price ⊗ num quantity in
      let q' = sold_position q quantity pnl fees in
      (
        q',
        save (
            sale_events q' state reason quantity tick.bid fees pnl (
              with_portfolio
                (settle_portfolio q' net reason pnl tick.received_timestamp d'.portfolio) d')),
      )

  unfoldable pub close_quantity :
      Position R → ℕ → MarketTick R → String → OrderState → Desk R → Position R × Desk R
  close_quantity q wanted tick reason state d =
      let quantity = min wanted q.remaining in
      if quantity == 0 then (q, d) else sell q quantity tick reason state d

  unfoldable pub begin_exit : Position R → MarketTick R → String → Desk R → Position R × Desk R
  begin_exit q tick reason d =
      let q' = record q {
        exit_pending_at = some tick.received_timestamp;
        exit_reason = some reason;
      } in
      if is_some q.exit_pending_at then (q, d) else (
        q',
        cancel_pending σ q.symbol "EXIT_TRIGGERED" OrderState.cancelled (
            log (Event.order_state_changed q.market q.symbol q.plan_id OrderState.exit_pending)
              (put_position q' d)),
      )

  -- Whether the exit was made, the position and the desk.
  unfoldable pub process_exit_pending :
      Position R → MarketTick R → Desk R → Bool × Position R × Desk R
  process_exit_pending q tick d = elim q.exit_pending_at [
    | none ↦ (false, q, d)
    | some since ↦
        if le (stop_limit q) tick.bid
          || leb (since + q.emergency_exit_after) tick.received_timestamp
        then (let (q', d') =
              close_quantity q q.remaining tick (or_else q.exit_reason "STOP_LOSS")
                OrderState.closed d in
            (true, q', d'))
        else (false, q, d)
  ]

  -- The loop of `force_close` over the positions: those without a tick stay.
  unfoldable pub close_each : Dict (Position R) → Dict (MarketTick R) → String → Desk R → Desk R
  close_each [] ticks reason d = d
  close_each ((symbol, q) ∷ qs) ticks reason d =
      close_each qs ticks reason (elim (lookup symbol ticks) [
        | none ↦ d
        | some tick ↦ (close_quantity q q.remaining tick reason OrderState.force_closed d).1
      ])

  unfoldable pub force_close : Dict (MarketTick R) → String → Desk R → Desk R
  force_close ticks reason d =
      let d' = cancel_each σ (keys d.portfolio.pending_orders) reason OrderState.force_closed d in
      close_each d'.portfolio.positions ticks reason d'
