-- ===== src/Broker/Slot/Fill.antt =====
-- `process_pending` and `_apply_entry_fill` keep the slot, and a fill never exceeds its order.
use mathlib.Core.Path.{subst⁻¹}
use ai_daytrader_sim.Prelude.{
  ℕ, ◌-◌, ◌<◌, ◌≤◌, String, ◌≡◌, refl, ◌∙◌, ◌⊎◌, true, false, ◌&&◌, some, arith, inl, inr,
  Bool-cases, Option-cases, or_else, ◌==◌, min,
}
use ai_daytrader_sim.Prelude.Dict.{Dict, lookup, At, At-insert, At-erase, At-lookup}
use ai_daytrader_sim.Float.{Float, ◌⊕◌, ◌⊘◌, num, le, lt, floor}
use ai_daytrader_sim.Models.{OrderState, MarketTick, is_open, is_trading}
use ai_daytrader_sim.Portfolio.{Portfolio, PendingOrder, Position, remaining_of}
use ai_daytrader_sim.Broker.{Setup, Desk}
use ai_daytrader_sim.Broker.Costs.{entry_fill}
use ai_daytrader_sim.Broker.Sessions.{cancel_pending}
use ai_daytrader_sim.Broker.Fills.{
  empty_position, filled_order, grown_position, filled_portfolio, fill_events, apply_entry_fill,
  quote_usable, visible_quantity, try_fill, process_order, process_pending,
}
use ai_daytrader_sim.Broker.Slot.{SlotAt, PositionAt, OrderAt, cancel_pending-SlotAt}

module _ {R : Type 0} ⦃f : Float R⦄ where
  grown_position-PositionAt :
      (k : String) (q : Position R) (quantity : ℕ) (all_in fee : R)
      → q.symbol ≡ k
      → q.remaining ≤ q.quantity
      → 0 < quantity
      → PositionAt k (grown_position q quantity all_in fee)
  unfolding grown_position
  grown_position-PositionAt k q quantity all_in fee s h p = (s, (omega arith, omega arith))

  filled_order-OrderAt :
      (k : String) (o : PendingOrder R) (quantity : ℕ) (all_in : R)
      → o.symbol ≡ k
      → (remaining_of (filled_order o quantity all_in) == 0) ≡ false
      → OrderAt k (filled_order o quantity all_in)
  unfolding filled_order
  filled_order-OrderAt k o quantity all_in s more = (s, ground arith)

  filled_order-remaining :
      (o : PendingOrder R) (quantity : ℕ) (all_in : R)
      → quantity ≤ remaining_of o
      → remaining_of (filled_order o quantity all_in) ≡ remaining_of o - quantity
  unfolding filled_order
  filled_order-remaining o quantity all_in h = omega arith

  -- The position that a fill adds to: the open one, or an empty one for the order's symbol.
  found_position :
      (k : String) (o : PendingOrder R) (tick : MarketTick R) (qs : Dict (Position R))
      → At k (PositionAt k) qs
      → o.symbol ≡ k
      → let q = or_else (lookup o.symbol qs) (empty_position o tick) in
        (q.symbol ≡ k) × (q.remaining ≤ q.quantity)
  unfolding empty_position
  found_position k o tick qs h s = elim (Option-cases (lookup o.symbol qs)) [
    | inl e ↦ rw e (s, omega arith)
    | inr (q, e) ↦
        let (_, (t, (_, le))) = At-lookup k o.symbol (PositionAt k) q qs h e in rw e (t, le)
  ]

  filled_portfolio-SlotAt :
      (k : String) (o : PendingOrder R) (tick : MarketTick R) (quantity : ℕ) (all_in fee : R)
      (p : Portfolio R)
      → SlotAt k p
      → OrderAt k o
      → 0 < quantity
      → quantity ≤ remaining_of o
      → SlotAt k (filled_portfolio o (filled_order o quantity all_in) tick quantity all_in fee p)
  unfolding filled_portfolio
  filled_portfolio-SlotAt k o tick quantity all_in fee p (qs, os) (s, ok) pos le =
      let o' = filled_order o quantity all_in in
      let (t, held) = found_position k o tick p.positions qs s in
      (
        At-insert k o.symbol (PositionAt k) _ p.positions s qs (
            grown_position-PositionAt k
              (or_else (lookup o.symbol p.positions) (empty_position o tick)) quantity all_in fee t
              held pos),
        elim (Bool-cases (remaining_of o' == 0)) [
          | inl done ↦ rw done (At-erase k o.symbol (OrderAt k) p.pending_orders os)
          | inr more ↦ rw more (
              At-insert k o.symbol (OrderAt k) o' p.pending_orders s os
                (filled_order-OrderAt k o quantity all_in s more))
        ],
      )

  pub fill_events-portfolio :
      (o o' : PendingOrder R) (quantity : ℕ) (execution fee : R) (d : Desk R)
      → (fill_events o o' quantity execution fee d).portfolio ≡ d.portfolio
  unfolding fill_events
  fill_events-portfolio o o' quantity execution fee d = ground arith

  -- A fill buys at least one share, no more than the order lacks and no more than was wanted, and
  -- saves the portfolio; or it changes nothing.
  pub record Bought (o : PendingOrder R) (tick : MarketTick R) (wanted : ℕ) (execution fee : R)
      (d d' : Desk R) : Type 0 where
    pub quantity : ℕ
    pub positive : 0 < quantity
    pub le_remaining : quantity ≤ remaining_of o
    pub le_wanted : quantity ≤ wanted
    pub affordable : quantity ≤ floor (d.portfolio.cash ⊘ (execution ⊕ fee))
    pub portfolio_after :
        d'.portfolio
        ≡ filled_portfolio o
            (filled_order o quantity (execution ⊕ fee))
            tick
            quantity
            (execution ⊕ fee)
            fee
            d.portfolio
    pub stored : d'.saved ≡ some d'.portfolio

  pub apply_entry_fill-Bought :
      (o : PendingOrder R) (tick : MarketTick R) (wanted : ℕ) (execution fee : R) (d : Desk R)
      → let d' = apply_entry_fill o tick wanted execution fee d in
        (d' ≡ d) ⊎ Bought o tick wanted execution fee d d'
  unfolding apply_entry_fill
  apply_entry_fill-Bought o tick wanted execution fee d =
      let all_in = execution ⊕ fee in
      let quantity = min (min wanted (floor (d.portfolio.cash ⊘ all_in))) (remaining_of o) in
      elim (Bool-cases (quantity == 0)) [
        | inl none_bought ↦ inl (rw (none_bought, apply_entry_fill) refl)
        | inr some_bought ↦ inr (record {
          quantity = quantity;
          positive = ground arith;
          le_remaining = ground arith;
          le_wanted = ground arith;
          affordable = ground arith;
          portfolio_after =
              rw (some_bought, apply_entry_fill)
                (fill_events-portfolio o (filled_order o quantity all_in) quantity execution fee _);
          stored = rw (some_bought, apply_entry_fill) refl;
        })
      ]

  Bought-SlotAt :
      (k : String) (o : PendingOrder R) (tick : MarketTick R) (wanted : ℕ) (execution fee : R)
      (d d' : Desk R)
      → SlotAt k d.portfolio
      → OrderAt k o
      → Bought o tick wanted execution fee d d'
      → SlotAt k d'.portfolio
  Bought-SlotAt k o tick wanted execution fee d d' h ok b = subst⁻¹ (SlotAt k) b.portfolio_after (
      filled_portfolio-SlotAt k o tick b.quantity (execution ⊕ fee) fee d.portfolio h ok b.positive
        b.le_remaining)

module _ {R : Type 0} ⦃f : Float R⦄ (σ : Setup R) where
  -- The conditions under which a tick fills an order, and the fill that it then makes.
  pub record Filled (tick : MarketTick R) (d d' : Desk R) : Type 0 where
    pub order : PendingOrder R
    pub wanted : ℕ
    pub found : lookup tick.symbol d.portfolio.pending_orders ≡ some order
    pub open_market : (is_open tick.market_status && is_trading tick.symbol_status) ≡ true
    pub usable : quote_usable (σ.costs tick.market) tick ≡ true
    pub eligible : order.eligible_fill_at ≤ tick.received_timestamp
    pub unexpired : tick.received_timestamp < order.expires_at
    pub ask_within : lt order.limit_price tick.ask ≡ false
    pub wanted_visible : wanted ≤ visible_quantity (σ.costs tick.market) tick
    pub bought :
        let (execution, fee) = entry_fill (σ.costs tick.market) tick.ask order.limit_price in
        (le execution (num 0) ≡ false) × Bought order tick wanted execution fee d d'

  -- What `process_pending` does to a desk: nothing, a cancellation, or a fill.
  pub data Processed (tick : MarketTick R) (d d' : Desk R) : Type 0 where
    untouched : d' ≡ d → Processed tick d d'
    cancelled :
        (reason : String) (state : OrderState)
        → d' ≡ cancel_pending σ tick.symbol reason state d
        → Processed tick d d'
    filled : Filled tick d d' → Processed tick d d'

  try_fill-cases :
      (o : PendingOrder R) (tick : MarketTick R) (d : Desk R)
      → let d' = try_fill σ o tick d in
        let cost = σ.costs tick.market in
        let (execution, fee) = entry_fill cost tick.ask o.limit_price in
        let wanted = min (remaining_of o) (visible_quantity cost tick) in
        (d' ≡ d)
        ⊎ ((le execution (num 0) ≡ false) × (d' ≡ apply_entry_fill o tick wanted execution fee d))
  unfolding try_fill
  try_fill-cases o tick d = ground arith

  process_order-cases :
      (o : PendingOrder R) (tick : MarketTick R) (d : Desk R)
      → let d' = process_order σ o tick d in
        (d' ≡ d)
        ⊎ (d' ≡ cancel_pending σ tick.symbol "MARKET_HALTED" OrderState.market_halted d)
        ⊎ (d' ≡ cancel_pending σ tick.symbol "FILL_TIMEOUT" OrderState.expired d)
        ⊎ (((is_open tick.market_status && is_trading tick.symbol_status) ≡ true)
            × (quote_usable (σ.costs tick.market) tick ≡ true)
            × (o.eligible_fill_at ≤ tick.received_timestamp)
            × (tick.received_timestamp < o.expires_at)
            × (lt o.limit_price tick.ask ≡ false)
            × (d' ≡ try_fill σ o tick d))
  unfolding process_order
  process_order-cases o tick d = ground arith

  process_order-Processed :
      (o : PendingOrder R) (tick : MarketTick R) (d : Desk R)
      → lookup tick.symbol d.portfolio.pending_orders ≡ some o
      → Processed tick d (process_order σ o tick d)
  process_order-Processed o tick d found = elim (process_order-cases o tick d) [
    | inl same ↦ Processed.untouched same
    | inr (inl halted) ↦ Processed.cancelled "MARKET_HALTED" OrderState.market_halted halted
    | inr (inr (inl late)) ↦ Processed.cancelled "FILL_TIMEOUT" OrderState.expired late
    | inr (inr (inr (opened, usable, eligible, unexpired, within, tried))) ↦
        elim (try_fill-cases o tick d) [
          | inl same ↦ Processed.untouched (tried ∙ same)
          | inr (priced, applied) ↦
              let cost = σ.costs tick.market in
              let fill = entry_fill cost tick.ask o.limit_price in
              let wanted = min (remaining_of o) (visible_quantity cost tick) in
              elim (apply_entry_fill-Bought o tick wanted fill.0 fill.1 d) [
                | inl same ↦ Processed.untouched (tried ∙ applied ∙ same)
                | inr bought ↦ Processed.filled (record {
                  order = o;
                  wanted = wanted;
                  found = found;
                  open_market = opened;
                  usable = usable;
                  eligible = eligible;
                  unexpired = unexpired;
                  ask_within = within;
                  wanted_visible = omega arith;
                  bought = (
                    priced,
                    subst⁻¹ (Bought o tick wanted fill.0 fill.1 d) (tried ∙ applied) bought,
                  );
                })
              ]
        ]
  ]

  -- On every tick `process_pending` leaves the desk as it is, cancels the pending order of the tick's
  -- symbol, or fills it: the last only in an open market on a usable quote, from the order's latency
  -- on and before it expires, with the ask within the limit, and for no more shares than the order
  -- lacks, than the tick shows and than the cash pays.
  pub process_pending-Processed :
      (tick : MarketTick R) (d : Desk R) → Processed tick d (process_pending σ tick d)
  unfolding process_pending
  process_pending-Processed tick d =
      elim (Option-cases (lookup tick.symbol d.portfolio.pending_orders)) [
        | inl e ↦ rw (e, process_pending) (Processed.untouched refl)
        | inr (o, e) ↦ rw (e, process_pending) (process_order-Processed o tick d e)
      ]

  Processed-SlotAt :
      (k : String) (tick : MarketTick R) (d d' : Desk R)
      → Processed tick d d'
      → SlotAt k d.portfolio
      → SlotAt k d'.portfolio
  Processed-SlotAt k tick d d' (Processed.untouched e) h =
      subst⁻¹ (λ (b : Desk R). SlotAt k b.portfolio) e h
  Processed-SlotAt k tick d d' (Processed.cancelled reason state e) h =
      subst⁻¹ (λ (b : Desk R). SlotAt k b.portfolio) e
        (cancel_pending-SlotAt σ k tick.symbol reason state d h)
  Processed-SlotAt k tick d d' (Processed.filled fill) h =
      let o = fill.order in
      let (execution, fee) = entry_fill (σ.costs tick.market) tick.ask o.limit_price in
      let (_, ok) =
        At-lookup k tick.symbol (OrderAt k) o d.portfolio.pending_orders h.1 fill.found in
      Bought-SlotAt k o tick fill.wanted execution fee d d' h ok fill.bought.1

  pub process_pending-SlotAt :
      (k : String) (tick : MarketTick R) (d : Desk R)
      → SlotAt k d.portfolio
      → SlotAt k (process_pending σ tick d).portfolio
  process_pending-SlotAt k tick d h =
      Processed-SlotAt k tick d (process_pending σ tick d) (process_pending-Processed tick d) h
