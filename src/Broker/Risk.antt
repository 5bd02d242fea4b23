-- ===== src/Broker/Risk.antt =====
-- The size of an entry order: what it can lose at worst, against the budgets of the trade and the day.
use mathlib.Core.Path.{subst⁻¹}
use ai_daytrader_sim.Prelude.{ℕ, ◌≤◌, ◌<◌, String, ◌≡◌, refl, sym, none, some, false, arith}
use ai_daytrader_sim.Prelude.Dict.{lookup, insert, lookup-insert_self}
use ai_daytrader_sim.Float.{Float, ◌⊖◌, ◌⊗◌, ◌⊘◌, num, fmax, fmin, floor, le}
use ai_daytrader_sim.Float.Laws.{
  ◌≼◌, IsOrdered, IsFloored, lt-of-not-le, fmin-le_left, fmin-le_right,
}
use ai_daytrader_sim.Models.{CandidatePlan, MarketTick, CostConfig}
use ai_daytrader_sim.Portfolio.{Portfolio, PendingOrder}
use ai_daytrader_sim.Broker.{Setup, Desk}
use ai_daytrader_sim.Broker.Costs.{
  entry_unit_cost_at_limit, worst_case_risk_per_share, daily_risk_used,
}
use ai_daytrader_sim.Broker.Sessions.{ensure_session}
use ai_daytrader_sim.Broker.Entries.{entry_quantity, new_order, submit_entry}
use ai_daytrader_sim.Broker.Slot.Submit.{submit_entry-Placed}

module _ {R : Type 0} ⦃f : Float R⦄ where
  -- The most that one trade may risk, and what is left of the day's limit.
  abbrev pub trade_budget : CostConfig R → Portfolio R → R
  trade_budget cost p = p.initial_cash ⊗ cost.trade_risk_pct ⊘ num 100

  abbrev pub day_left : CostConfig R → Portfolio R → R
  day_left cost p =
      fmax (num 0) (p.initial_cash ⊗ cost.daily_loss_limit_pct ⊘ num 100 ⊖ daily_risk_used cost p)

  entry_quantity-bounds :
      (cost : CostConfig R) (c : CandidatePlan R) (risk : R) (p : Portfolio R)
      → let quantity = entry_quantity cost c risk p in
        (quantity ≤ floor (fmin (trade_budget cost p) (day_left cost p) ⊘ risk))
        × (quantity ≤ floor (p.cash ⊘ entry_unit_cost_at_limit cost c.entry.limit_price))
        × (quantity ≤ cost.max_position_quantity)
  unfolding entry_quantity
  entry_quantity-bounds cost c risk p = (omega arith, omega arith, omega arith)

  -- What bounds the size `n` of an order, each share of which can lose `risk`: the trade's budget and
  -- what is left of the day's, by the loss of a share, and the cash, by its cost at the limit.
  pub record Capped (cost : CostConfig R) (c : CandidatePlan R) (p : Portfolio R) (risk : R) (n : ℕ)
      : Type 0 where
    pub positive : 0 < n
    pub within_cap : n ≤ cost.max_position_quantity
    pub within_trade : num n ≼ trade_budget cost p ⊘ risk
    pub within_day : num n ≼ day_left cost p ⊘ risk
    pub within_cash : num n ≼ p.cash ⊘ entry_unit_cost_at_limit cost c.entry.limit_price

  entry_quantity-Capped :
      IsOrdered R
      → IsFloored R
      → (cost : CostConfig R) (c : CandidatePlan R) (risk : R) (p : Portfolio R)
      → 0 < entry_quantity cost c risk p
      → le risk (num 0) ≡ false
      → Capped cost c p risk (entry_quantity cost c risk p)
  entry_quantity-Capped o x cost c risk p pos risky =
      let b = trade_budget cost p in
      let l = day_left cost p in
      let n = entry_quantity cost c risk p in
      let risks = lt-of-not-le o (num 0) risk risky in
      let bounds = entry_quantity-bounds cost c risk p in
      let whole : num n ≼ fmin b l ⊘ risk = x.floor_le (fmin b l ⊘ risk) n pos bounds.0 in
      let below : (y : R) → fmin b l ≼ y → num n ≼ y ⊘ risk = λ y h.
        o.le_trans (num n) (fmin b l ⊘ risk) (y ⊘ risk) whole
          (x.div_mono (fmin b l) y risk h risks) in
      record {
        positive = pos;
        within_cap = bounds.2;
        within_trade = below b (fmin-le_left o b l);
        within_day = below l (fmin-le_right o b l);
        within_cash =
            x.floor_le (p.cash ⊘ entry_unit_cost_at_limit cost c.entry.limit_price) n pos bounds.1;
      }

module _ {R : Type 0} ⦃f : Float R⦄ (σ : Setup R) where
  -- An accepted entry leaves an order under the plan's symbol for at least one share and at most
  -- `max_position_quantity`, whose number of shares does not exceed the budget of a trade divided by
  -- the worst-case loss of a share, nor what the day's loss limit leaves divided by that loss, nor the
  -- cash divided by the cost of a share at the limit price, all of the portfolio that the session
  -- begins with. The quotients are those of the number type, which is ordered, has monotone quotients
  -- and a floor that does not exceed its number; it may round.
  pub entry_risk_cap :
      IsOrdered R
      → IsFloored R
      → (plan_id : String) (c : CandidatePlan R) (tick : MarketTick R) (d : Desk R)
      → (submit_entry σ plan_id c tick d).0 ≡ none
      → let cost = σ.costs tick.market in
        let p = (ensure_session σ tick.market tick.received_timestamp d).portfolio in
        (o : PendingOrder R) × (lookup c.symbol
            (submit_entry σ plan_id c tick d).1.portfolio.pending_orders
          ≡ some o)
        × (o.risk_per_share ≡ worst_case_risk_per_share cost c)
        × Capped cost c p o.risk_per_share o.desired_quantity
  unfolding new_order
  entry_risk_cap ordered floored plan_id c tick d accepted =
      let cost = σ.costs tick.market in
      let began = ensure_session σ tick.market tick.received_timestamp d in
      let p = began.portfolio in
      let risk = worst_case_risk_per_share cost c in
      let placed = submit_entry-Placed σ plan_id c tick d accepted in
      let o =
        new_order cost plan_id c tick (σ.uuid began.draws) (entry_quantity cost c risk p) risk in
      let found : lookup c.symbol (insert c.symbol o p.pending_orders) ≡ some o =
        lookup-insert_self c.symbol o p.pending_orders in
      (
        o,
        rw (placed.portfolio_after, placed.sized) found,
        refl,
        entry_quantity-Capped ordered floored cost c risk p
            (subst⁻¹ (λ n. 0 < n) (sym placed.sized) placed.positive) placed.risky,
      )
