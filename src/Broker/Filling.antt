-- ===== src/Broker/Filling.antt =====
-- `process_pending` against the conditions of a fill, written out: when it fills an order, for how many
-- shares, and what that does to the books.
use mathlib.Core.Path.{subst⁻¹}
use ai_daytrader_sim.Prelude.{
  ℕ, ◌+◌, ◌≤◌, ◌<◌, String, Bool, ◌≡◌, ◌⊎◌, refl, ap, ◌∙◌, true, false, not, ◌&&◌, ◌||◌, Option,
  none, some, arith, min, leb, ltb, ◌==◌, inl, inr, Bool-cases, Option-cases, if◌then◌else◌,
}
use ai_daytrader_sim.Prelude.Dict.{lookup, erase, lookup-insert_self}
use ai_daytrader_sim.Float.{Float, ◌⊕◌, ◌⊖◌, ◌⊗◌, ◌⊘◌, num, le, lt, floor}
use ai_daytrader_sim.Float.Laws.{IsOrdered}
use ai_daytrader_sim.Models.{
  Market, OrderState, MarketTick, CostConfig, same_market, is_open, is_trading, is_regular,
  is_normal, is_consolidated,
}
use ai_daytrader_sim.Portfolio.{Portfolio, PendingOrder, Position, remaining_of}
use ai_daytrader_sim.Broker.{Setup, Desk, save, with_portfolio}
use ai_daytrader_sim.Broker.Costs.{entry_fill}
use ai_daytrader_sim.Broker.Sessions.{cancel_pending}
use ai_daytrader_sim.Broker.Fills.{
  empty_position, grown_position, filled_order, filled_portfolio, apply_entry_fill, quote_usable,
  visible_quantity, try_fill, process_order, process_pending,
}
use ai_daytrader_sim.Broker.Slot.{cancel_pending-portfolio}
use ai_daytrader_sim.Broker.Slot.Fill.{fill_events-portfolio}

module _ {R : Type 0} ⦃f : Float R⦄ (cost : CostConfig R) (o : PendingOrder R)
    (tick : MarketTick R) where
  -- The ask with slippage, and the costs of a share at that price.
  abbrev pub fill_price : R
  fill_price = tick.ask ⊕ tick.ask ⊗ cost.slippage_bps_each_side ⊘ num 10_000

  abbrev pub fill_cost : R
  fill_cost = fill_price ⊗ (cost.commission_bps_each_side ⊕ cost.fx_bps_each_side) ⊘ num 10_000

  -- The size that the tick shows, or its share of the trade if it shows none, up to the cap.
  abbrev pub shown : ℕ
  shown =
      min
        (if tick.ask_size == 0
          then floor (num tick.trade_size ⊗ cost.volume_participation_pct ⊘ num 100)
          else tick.ask_size)
        cost.max_fill_quantity_per_tick

  -- What the order lacks, the tick shows and the cash pays, whichever is least.
  abbrev pub fill_quantity : R → ℕ
  fill_quantity cash = min (min (remaining_of o) shown) (floor (cash ⊘ (fill_price ⊕ fill_cost)))

  -- An open market in the regular session without halt or price limit, and a quote that is neither
  -- locked nor too wide, of all venues in the US.
  abbrev pub tradable : Bool
  tradable =
      (is_open tick.market_status && is_trading tick.symbol_status)
      && is_regular tick.session
      && is_normal tick.luld_status
      && not (le tick.ask tick.bid)
      && (not (same_market tick.market Market.us) || is_consolidated tick.quote_scope)
      && not (lt cost.max_spread_pct ((tick.ask ⊖ tick.bid) ⊘ tick.last ⊗ num 100))

  -- After the order's latency and before it expires, and at a positive price within its limit.
  abbrev pub in_reach : Bool
  in_reach =
      ltb tick.received_timestamp o.expires_at
      && leb o.eligible_fill_at tick.received_timestamp
      && not (lt o.limit_price tick.ask)
      && not (lt o.limit_price fill_price)
      && not (le fill_price (num 0))

  abbrev pub can_fill : R → Bool
  can_fill cash =
      tradable
      && in_reach
      && (cost.allow_partial_fill || leb (remaining_of o) shown)
      && ltb 0 (fill_quantity cash)

module _ {R : Type 0} ⦃f : Float R⦄ where
  -- The shares held under a symbol.
  abbrev shares_of : Option (Position R) → ℕ
  shares_of none = 0
  shares_of (some q) = q.remaining

  abbrev pub held : String → Portfolio R → ℕ
  held symbol p = shares_of (lookup symbol p.positions)

  -- The books after a fill of `n` shares, each for `all_in`.
  pub record Bought (o : PendingOrder R) (n : ℕ) (all_in : R) (p p' : Portfolio R) : Type 0 where
    pub cash : p'.cash ≡ p.cash ⊖ all_in ⊗ num n
    pub shares : held o.symbol p' ≡ held o.symbol p + n
    pub counted :
        p'.trades_today ≡ (if o.filled_quantity == 0 then p.trades_today + 1 else p.trades_today)
    pub order :
        ((n ≡ remaining_of o) × (p'.pending_orders ≡ erase o.symbol p.pending_orders))
        ⊎ ((n < remaining_of o)
            × (o' : PendingOrder R) × (lookup o.symbol p'.pending_orders ≡ some o')
            × (o'.filled_quantity ≡ o.filled_quantity + n)
            × (o'.desired_quantity ≡ o.desired_quantity)
            × (o'.limit_price ≡ o.limit_price))

  abbrev pub Unfilled : Portfolio R → Portfolio R → Type 0
  Unfilled p p' =
      (p'.cash ≡ p.cash) × (p'.positions ≡ p.positions) × (p'.trades_today ≡ p.trades_today)

  -- A fill if the test is true, and none if it is not.
  abbrev pub Outcome : Bool → PendingOrder R → ℕ → R → Portfolio R → Portfolio R → Type 0
  Outcome true o n all_in p p' = Bought o n all_in p p'
  Outcome false o n all_in p p' = Unfilled p p'

  filled_portfolio-held :
      (o o' : PendingOrder R) (tick : MarketTick R) (n : ℕ) (all_in fee : R) (p : Portfolio R)
      → held o.symbol (filled_portfolio o o' tick n all_in fee p) ≡ held o.symbol p + n
  unfolding filled_portfolio grown_position empty_position
  filled_portfolio-held o o' tick n all_in fee p =
      elim (Option-cases (lookup o.symbol p.positions)) [
        | inl e ↦ ap shares_of (lookup-insert_self o.symbol _ p.positions) ∙ rw e (omega arith)
        | inr (q, e) ↦ ap shares_of (lookup-insert_self o.symbol _ p.positions) ∙ rw e refl
      ]

  filled_portfolio-Bought :
      (o : PendingOrder R) (tick : MarketTick R) (n : ℕ) (all_in fee : R) (p : Portfolio R)
      → n ≤ remaining_of o
      → Bought o n all_in p (filled_portfolio o (filled_order o n all_in) tick n all_in fee p)
  unfolding filled_portfolio filled_order
  filled_portfolio-Bought o tick n all_in fee p h = record {
    cash = refl;
    shares = filled_portfolio-held o (filled_order o n all_in) tick n all_in fee p;
    counted = refl;
    order = elim (Bool-cases (remaining_of (filled_order o n all_in) == 0)) [
      | inl e ↦ inl (ground (arith, e), rw e refl)
      | inr e ↦ inr (
        ground (arith, e),
        filled_order o n all_in,
        rw e (lookup-insert_self o.symbol _ p.pending_orders),
        refl,
        refl,
        refl,
      )
    ];
  }

  apply_entry_fill-portfolio :
      (o : PendingOrder R) (tick : MarketTick R) (wanted : ℕ) (execution fee : R) (d : Desk R)
      → let all_in = execution ⊕ fee in
        let quantity = min wanted (floor (d.portfolio.cash ⊘ all_in)) in
        0 < quantity
        → wanted ≤ remaining_of o
        → (apply_entry_fill o tick wanted execution fee d).portfolio
          ≡ filled_portfolio o (filled_order o quantity all_in) tick quantity all_in fee d.portfolio
  unfolding apply_entry_fill save with_portfolio
  apply_entry_fill-portfolio o tick wanted execution fee d pos within =
      let all_in = execution ⊕ fee in
      let quantity = min wanted (floor (d.portfolio.cash ⊘ all_in)) in
      let same : min quantity (remaining_of o) ≡ quantity = omega arith in
      let some_bought : (quantity == 0) ≡ false = ground arith in
      rw (same, some_bought)
        (fill_events-portfolio o (filled_order o quantity all_in) quantity execution fee _)

  apply_entry_fill-nothing :
      (o : PendingOrder R) (tick : MarketTick R) (wanted : ℕ) (execution fee : R) (d : Desk R)
      → min wanted (floor (d.portfolio.cash ⊘ (execution ⊕ fee))) ≡ 0
      → apply_entry_fill o tick wanted execution fee d ≡ d
  unfolding apply_entry_fill
  apply_entry_fill-nothing o tick wanted execution fee d h =
      let affordable = floor (d.portfolio.cash ⊘ (execution ⊕ fee)) in
      let nothing : (min (min wanted affordable) (remaining_of o) == 0) ≡ true = ground arith in
      rw (nothing, apply_entry_fill) refl

module _ {R : Type 0} ⦃f : Float R⦄ (σ : Setup R) where
  -- The guards of `process_order` and `try_fill`, in their order.
  abbrev guards : PendingOrder R → MarketTick R → Bool
  guards o tick =
      let cost = σ.costs tick.market in
      (is_open tick.market_status && is_trading tick.symbol_status)
      && quote_usable cost tick
      && not (leb o.expires_at tick.received_timestamp)
      && not (ltb tick.received_timestamp o.eligible_fill_at || lt o.limit_price tick.ask)
      && not (le (entry_fill cost tick.ask o.limit_price).0 (num 0))
      && not (visible_quantity cost tick == 0)
      && not (not cost.allow_partial_fill && ltb (visible_quantity cost tick) (remaining_of o))

  process_order-applies :
      (o : PendingOrder R) (tick : MarketTick R) (d : Desk R)
      → guards o tick ≡ true
      → let cost = σ.costs tick.market in
        let (execution, fee) = entry_fill cost tick.ask o.limit_price in
        process_order σ o tick d
        ≡ apply_entry_fill o tick
            (min (remaining_of o) (visible_quantity cost tick))
            execution
            fee
            d
  unfolding process_order try_fill
  process_order-applies o tick d can = ground (arith, can)

  process_order-guarded :
      (o : PendingOrder R) (tick : MarketTick R) (d : Desk R)
      → guards o tick ≡ false
      → (process_order σ o tick d ≡ d)
        ⊎ (process_order σ o tick d
            ≡ cancel_pending σ tick.symbol "MARKET_HALTED" OrderState.market_halted d)
        ⊎ (process_order σ o tick d
            ≡ cancel_pending σ tick.symbol "FILL_TIMEOUT" OrderState.expired d)
  unfolding process_order try_fill
  process_order-guarded o tick d cannot = ground (arith, cannot)

  entry_fill-within :
      (o : PendingOrder R) (tick : MarketTick R)
      → let cost = σ.costs tick.market in
        lt o.limit_price (fill_price cost o tick) ≡ false
        → entry_fill cost tick.ask o.limit_price ≡ (fill_price cost o tick, fill_cost cost o tick)
  unfolding entry_fill
  entry_fill-within o tick h = rw h refl

  entry_fill-beyond :
      (o : PendingOrder R) (tick : MarketTick R)
      → let cost = σ.costs tick.market in
        lt o.limit_price (fill_price cost o tick) ≡ true
        → entry_fill cost tick.ask o.limit_price ≡ (num 0, num 0)
  unfolding entry_fill
  entry_fill-beyond o tick h = rw h refl

  -- The conditions, written out, are those of the code.
  can_fill-guards :
      (o : PendingOrder R) (tick : MarketTick R) (cash : R)
      → let cost = σ.costs tick.market in
        can_fill cost o tick cash ≡ (
          guards o tick
          && not (lt o.limit_price (fill_price cost o tick))
          && ltb 0 (fill_quantity cost o tick cash))
  unfolding quote_usable visible_quantity
  can_fill-guards o tick cash =
      let price = fill_price (σ.costs tick.market) o tick in
      elim (Bool-cases (lt o.limit_price price)) [
        | inl e ↦ ground (arith, e)
        | inr e ↦ rw (entry_fill-within o tick e) (ground (arith, e))
      ]

  moved :
      (d : Desk R) {d' e : Desk R}
      → d' ≡ e
      → Unfilled d.portfolio e.portfolio
      → Unfilled d.portfolio d'.portfolio
  moved d h u = subst⁻¹ (λ (x : Desk R). Unfilled d.portfolio x.portfolio) h u

  cancelled-Unfilled :
      (symbol reason : String) (state : OrderState) (d : Desk R)
      → Unfilled d.portfolio (cancel_pending σ symbol reason state d).portfolio
  cancelled-Unfilled symbol reason state d =
      subst⁻¹ (Unfilled d.portfolio) (cancel_pending-portfolio σ symbol reason state d)
        (refl, refl, refl)

  process_order-fills :
      (o : PendingOrder R) (tick : MarketTick R) (d : Desk R)
      → let cost = σ.costs tick.market in
        can_fill cost o tick d.portfolio.cash ≡ true
        → process_order σ o tick d
          ≡ apply_entry_fill o tick
              (min (remaining_of o) (shown cost o tick))
              (fill_price cost o tick)
              (fill_cost cost o tick)
              d
  unfolding visible_quantity
  process_order-fills o tick d can =
      let parts = can_fill-guards o tick d.portfolio.cash in
      process_order-applies o tick d (ground (arith, parts, can))
      ∙ ap
          (λ x.
            apply_entry_fill o tick (min (remaining_of o) (shown (σ.costs tick.market) o tick)) x.0
              x.1 d)
          (entry_fill-within o tick (ground (arith, can)))

  priced_of :
      (o : PendingOrder R) (tick : MarketTick R)
      → guards o tick ≡ true
      → le (entry_fill (σ.costs tick.market) tick.ask o.limit_price).0 (num 0) ≡ false
  priced_of o tick g = ground (arith, g)

  unpriced :
      IsOrdered R
      → (o : PendingOrder R) (tick : MarketTick R)
      → entry_fill (σ.costs tick.market) tick.ask o.limit_price ≡ (num 0, num 0)
      → guards o tick ≡ true
      → ⊥
  unpriced order o tick h g =
      let zero = order.le_refl (num 0) in
      let price = ap (λ x. x.0) h in cc (zero, price, priced_of o tick g)

  process_order-Unfilled :
      IsOrdered R
      → (o : PendingOrder R) (tick : MarketTick R) (d : Desk R)
      → can_fill (σ.costs tick.market) o tick d.portfolio.cash ≡ false
      → Unfilled d.portfolio (process_order σ o tick d).portfolio
  unfolding visible_quantity
  process_order-Unfilled order o tick d cannot =
      let cost = σ.costs tick.market in
      let parts = can_fill-guards o tick d.portfolio.cash in
      let wanted = min (remaining_of o) (visible_quantity cost tick) in
      elim (Bool-cases (guards o tick)) [
        | inr e ↦ elim (process_order-guarded o tick d e) [
          | inl same ↦ moved d same (refl, refl, refl)
          | inr (inl c) ↦
              moved d c (cancelled-Unfilled tick.symbol "MARKET_HALTED" OrderState.market_halted d)
          | inr (inr c) ↦
              moved d c (cancelled-Unfilled tick.symbol "FILL_TIMEOUT" OrderState.expired d)
        ]
        | inl e ↦ elim (Bool-cases (lt o.limit_price (fill_price cost o tick))) [
          | inl beyond ↦ absurd (unpriced order o tick (entry_fill-beyond o tick beyond) e)
          | inr within ↦
              moved d
                (process_order-applies o tick d e
                  ∙ ap (λ x. apply_entry_fill o tick wanted x.0 x.1 d)
                      (entry_fill-within o tick within)
                  ∙ apply_entry_fill-nothing o tick wanted (fill_price cost o tick)
                      (fill_cost cost o tick) d (ground (arith, parts, cannot, e, within)))
                (refl, refl, refl)
        ]
      ]

  -- With a pending order for its symbol, a tick fills it exactly if the market is open, the session
  -- regular and the quote usable, the order's latency is over and it has not expired, the ask and the
  -- price with slippage are within the limit and that price is positive, the whole order is shown
  -- unless partial fills are allowed, and the shares that the order lacks, the tick shows and the cash
  -- pays are at least one. It then buys that many: the cash pays for them with their costs, they are
  -- added to those held, the first fill of an order counts as a trade, and the order is gone if it is
  -- complete and keeps what it got otherwise. In every other case the cash, the positions and the
  -- number of trades stay. The numbers are in a total order.
  pub process_pending-Outcome :
      IsOrdered R
      → (o : PendingOrder R) (tick : MarketTick R) (d : Desk R)
      → lookup tick.symbol d.portfolio.pending_orders ≡ some o
      → let cost = σ.costs tick.market in
        let cash = d.portfolio.cash in
        Outcome
          (can_fill cost o tick cash)
          o
          (fill_quantity cost o tick cash)
          (fill_price cost o tick ⊕ fill_cost cost o tick)
          d.portfolio
          (process_pending σ tick d).portfolio
  unfolding process_pending
  process_pending-Outcome order o tick d found =
      let cost = σ.costs tick.market in
      let cash = d.portfolio.cash in
      let n = fill_quantity cost o tick cash in
      let price = fill_price cost o tick in
      let fee = fill_cost cost o tick in
      rw (found, process_pending)
        (elim (Bool-cases (can_fill cost o tick cash)) [
          | inl can ↦
              let pos : 0 < n = ground (arith, can) in
              rw can (
                subst⁻¹ (Bought o n (price ⊕ fee) d.portfolio)
                  (ap (λ (e : Desk R). e.portfolio) (process_order-fills o tick d can)
                    ∙ apply_entry_fill-portfolio o tick (min (remaining_of o) (shown cost o tick))
                        price fee d pos (omega arith))
                  (filled_portfolio-Bought o tick n (price ⊕ fee) fee d.portfolio (omega arith)))
          | inr cannot ↦ rw cannot (process_order-Unfilled order o tick d cannot)
        ])
