-- ===== src/Broker/Accounts.antt =====
-- What a sale does to the books, written out: the proceeds and the costs, the cash, the profits and the
-- shares.
use ai_daytrader_sim.Prelude.{
  ℕ, ◌+◌, ◌*◌, ◌<◌, String, ◌≡◌, ◌⊎◌, refl, some, arith, inl, inr, Bool-cases, min, ◌==◌, str_eq,
  or_else, if◌then◌else◌, ◌-◌,
}
use ai_daytrader_sim.Prelude.Dict.{lookup, erase, lookup-insert_self}
use mathlib.Core.Path.{subst, subst⁻¹}
use ai_daytrader_sim.Float.{Float, ◌⊕◌, ◌⊖◌, ◌⊗◌, ◌⊘◌, num, lt}
use ai_daytrader_sim.Models.{OrderState, MarketTick, CostConfig, us_per_minute}
use ai_daytrader_sim.Portfolio.{Portfolio, Position}
use ai_daytrader_sim.Broker.{Setup, Desk}
use ai_daytrader_sim.Broker.Costs.{exit_net}
use ai_daytrader_sim.Broker.Exits.{
  sold_position, settle_portfolio, credited, closed_counters, close_quantity,
}
use ai_daytrader_sim.Broker.Slot.Close.{close_quantity-Sold}

module _ {R : Type 0} ⦃f : Float R⦄ where
  -- The costs of selling `n` shares at the bid, in basis points of the gross proceeds.
  abbrev pub sale_costs : CostConfig R → MarketTick R → ℕ → R
  sale_costs cost tick n =
      tick.bid
      ⊗ num n
      ⊗ (cost.commission_bps_each_side
          ⊕ cost.slippage_bps_each_side
          ⊕ cost.fx_bps_each_side
          ⊕ or_else cost.sell_tax_bps (num 0))
      ⊘ num 10_000

  abbrev pub proceeds : CostConfig R → MarketTick R → ℕ → R
  proceeds cost tick n = tick.bid ⊗ num n ⊖ sale_costs cost tick n

  abbrev pub profit : CostConfig R → Position R → MarketTick R → ℕ → R
  profit cost q tick n = proceeds cost tick n ⊖ q.entry_price ⊗ num n

  -- Shares are left: the position is kept with them, and no stop is counted.
  abbrev pub Kept : Position R → Portfolio R → Portfolio R → Type 0
  Kept q' p p' =
      (0 < q'.remaining)
      × (lookup q'.symbol p'.positions ≡ some q')
      × (p'.consecutive_stops ≡ p.consecutive_stops)
      × (p'.cooldown_until ≡ p.cooldown_until)

  -- No share is left: the position is out of the portfolio, and a stop is counted and starts the
  -- cooldown, and a profit ends a run of stops.
  abbrev pub Closed :
      CostConfig R → String → R → MarketTick R → Position R → Portfolio R → Portfolio R → Type 0
  Closed cost reason pnl tick q' p p' =
      (q'.remaining ≡ 0)
      × (p'.positions ≡ erase q'.symbol p.positions)
      × (p'.consecutive_stops ≡ (
          if str_eq reason "STOP_LOSS"
          then p.consecutive_stops + 1
          else if lt (num 0) pnl
          then 0
          else p.consecutive_stops))
      × (p'.cooldown_until ≡ (
          if str_eq reason "STOP_LOSS"
          then some (tick.received_timestamp + cost.stop_cooldown_minutes * us_per_minute)
          else p.cooldown_until))

  -- The books after `n` shares of `q` are sold on the tick.
  pub record Accounts (cost : CostConfig R) (q : Position R) (n : ℕ) (tick : MarketTick R)
      (reason : String) (p : Portfolio R) (q' : Position R) (p' : Portfolio R) : Type 0 where
    pub some_sold : 0 < n
    pub shares : q'.remaining + n ≡ q.remaining
    pub same_entry : q'.entry_price ≡ q.entry_price
    pub earned : q'.realized_pnl ≡ q.realized_pnl ⊕ profit cost q tick n
    pub paid : q'.fees ≡ q.fees ⊕ sale_costs cost tick n
    pub cash : p'.cash ≡ p.cash ⊕ proceeds cost tick n
    pub total_profit : p'.realized_pnl ≡ p.realized_pnl ⊕ profit cost q tick n
    pub day_profit : p'.session_realized_pnl ≡ p.session_realized_pnl ⊕ profit cost q tick n
    pub same_orders : p'.pending_orders ≡ p.pending_orders
    pub same_trades : p'.trades_today ≡ p.trades_today
    pub rest : Kept q' p p' ⊎ Closed cost reason (profit cost q tick n) tick q' p p'

module _ {R : Type 0} ⦃f : Float R⦄ (σ : Setup R) where
  counted :
      (cost : CostConfig R) (reason : String) (pnl : R) (received : ℕ) (p : Portfolio R)
      → closed_counters cost reason pnl received p ≡ record p {
        consecutive_stops =
            if str_eq reason "STOP_LOSS"
            then p.consecutive_stops + 1
            else if lt (num 0) pnl
            then 0
            else p.consecutive_stops;
        cooldown_until =
            if str_eq reason "STOP_LOSS"
            then some (received + cost.stop_cooldown_minutes * us_per_minute)
            else p.cooldown_until;
      }
  unfolding closed_counters
  counted cost reason pnl received p = elim (Bool-cases (str_eq reason "STOP_LOSS")) [
    | inl e ↦ rw e refl
    | inr e ↦ elim (Bool-cases (lt (num 0) pnl)) [ inl u ↦ rw (e, u) refl | inr u ↦ rw (e, u) refl ]
  ]

  settled :
      (q : Position R) (n : ℕ) (tick : MarketTick R) (reason : String) (p : Portfolio R)
      → 0 < n
      → n + (q.remaining - n) ≡ q.remaining
      → let cost = σ.costs q.market in
        let (net, fees) = exit_net cost (tick.bid ⊗ num n) in
        let pnl = net ⊖ q.entry_price ⊗ num n in
        let q' = sold_position q n pnl fees in
        Accounts cost q n tick reason p q'
          (settle_portfolio σ q' net reason pnl tick.received_timestamp p)
  unfolding settle_portfolio sold_position exit_net credited
  settled q n tick reason p pos h = elim (Bool-cases (q.remaining - n == 0)) [
    | inl e ↦
        let cost = σ.costs q.market in
        let (net, fees) = exit_net cost (tick.bid ⊗ num n) in
        let pnl = net ⊖ q.entry_price ⊗ num n in
        rw e (
          subst⁻¹
            (λ (p' : Portfolio R).
              Accounts cost q n tick reason p (sold_position q n pnl fees)
                (record p' { positions = erase q.symbol p'.positions }))
            (counted cost reason pnl tick.received_timestamp (credited net pnl p))
            (record {
              some_sold = pos;
              shares = omega (arith, h);
              same_entry = refl;
              earned = refl;
              paid = refl;
              cash = refl;
              total_profit = refl;
              day_profit = refl;
              same_orders = refl;
              same_trades = refl;
              rest = inr (ground (arith, e), refl, refl, refl);
            }))
    | inr e ↦ rw e (record {
      some_sold = pos;
      shares = omega (arith, h);
      same_entry = refl;
      earned = refl;
      paid = refl;
      cash = refl;
      total_profit = refl;
      day_profit = refl;
      same_orders = refl;
      same_trades = refl;
      rest = inl (ground (arith, e), (lookup-insert_self q.symbol _ p.positions), refl, refl);
    })
  ]

  -- `close_quantity` changes nothing if no share is wanted or none is held. Otherwise it sells what is
  -- wanted or all that is held, whichever is less: the shares leave the position, the bid for each less
  -- the costs is added to the cash, and what that is above the entry price to the profits of the
  -- position, of the portfolio and of the day; a position with no share left is taken out and counts
  -- as a stop or ends a run of stops, and any other is kept. No order is touched, and the portfolio is
  -- stored.
  pub close_quantity-Accounts :
      (q : Position R) (wanted : ℕ) (tick : MarketTick R) (reason : String) (state : OrderState)
      (d : Desk R)
      → let r = close_quantity σ q wanted tick reason state d in
        let n = min wanted q.remaining in
        ((n ≡ 0) × (r ≡ (q, d)))
        ⊎ (Accounts (σ.costs q.market) q n tick reason d.portfolio r.0 r.1.portfolio
            × (r.1.saved ≡ some r.1.portfolio))
  close_quantity-Accounts q wanted tick reason state d =
      elim (close_quantity-Sold σ q wanted tick reason state d) [
        | inl same ↦ inl same
        | inr sold ↦
            let cost = σ.costs q.market in
            let r = close_quantity σ q wanted tick reason state d in
            let n = sold.quantity in
            let (net, fees) = exit_net cost (tick.bid ⊗ num n) in
            let pnl = net ⊖ q.entry_price ⊗ num n in
            let least : n ≡ min wanted q.remaining =
              ground (arith, sold.most, sold.le_wanted, sold.le_remaining) in
            let books : Accounts cost q n tick reason d.portfolio r.0 r.1.portfolio =
              subst⁻¹ (Accounts cost q n tick reason d.portfolio r.0) sold.portfolio_after (
                subst⁻¹
                  (λ q'.
                    Accounts cost q n tick reason d.portfolio q'
                      (settle_portfolio σ q' net reason pnl tick.received_timestamp d.portfolio))
                  sold.position_after
                  (settled q n tick reason d.portfolio sold.positive
                    (omega (arith, sold.le_remaining)))) in
            inr (
              subst (λ m. Accounts cost q m tick reason d.portfolio r.0 r.1.portfolio) least books,
              sold.stored,
            )
      ]
