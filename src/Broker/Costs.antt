-- ===== src/Broker/Costs.antt =====
-- broker.py: the costs of a fill, and the risk that an order or a position carries.
use ai_daytrader_sim.Prelude.{[], ◌∷◌, if◌then◌else◌, or_else}
use ai_daytrader_sim.Prelude.Dict.{Dict}
use ai_daytrader_sim.Float.{Float, ◌⊕◌, ◌⊖◌, ◌⊗◌, ◌⊘◌, num, lt, fmax, neg}
use ai_daytrader_sim.Models.{CostConfig, CandidatePlan}
use ai_daytrader_sim.Portfolio.{Portfolio, Position, PendingOrder, remaining_of}

module _ {R : Type 0} ⦃f : Float R⦄ where
  unfoldable pub bps : R → R → R
  bps value points = value ⊗ points ⊘ num 10_000

module _ {R : Type 0} ⦃f : Float R⦄ (cost : CostConfig R) where
  unfoldable pub entry_unit_cost_at_limit : R → R
  unfolding bps
  entry_unit_cost_at_limit limit_price =
      limit_price ⊕ bps limit_price (cost.commission_bps_each_side ⊕ cost.fx_bps_each_side)

  -- The execution price and the fee for each share, or two zeros above the limit.
  unfoldable pub entry_fill : R → R → R × R
  unfolding bps
  entry_fill ask limit_price =
      let execution_price = ask ⊕ bps ask cost.slippage_bps_each_side in
      if lt limit_price execution_price then (num 0, num 0) else (
        execution_price,
        bps execution_price (cost.commission_bps_each_side ⊕ cost.fx_bps_each_side),
      )

  -- The proceeds after costs, and the costs.
  unfoldable pub exit_net : R → R × R
  unfolding bps
  exit_net gross =
      let fees = bps gross (
        cost.commission_bps_each_side
        ⊕ cost.slippage_bps_each_side
        ⊕ cost.fx_bps_each_side
        ⊕ or_else cost.sell_tax_bps (num 0)) in
      (gross ⊖ fees, fees)

  unfoldable pub expected_stop_net_per_share : R → R → R
  unfolding exit_net
  expected_stop_net_per_share stop_price offset_pct =
      (exit_net (stop_price ⊗ (num 1 ⊖ offset_pct ⊘ num 100))).0

  unfoldable pub worst_case_risk_per_share : CandidatePlan R → R
  unfolding entry_unit_cost_at_limit expected_stop_net_per_share
  worst_case_risk_per_share c = fmax (num 0) (
      entry_unit_cost_at_limit c.entry.limit_price
      ⊖ expected_stop_net_per_share c.stop_loss.price c.stop_loss.limit_offset_pct)

  -- `sum(...)` over the pending orders
  unfoldable pub pending_risk_from : R → Dict (PendingOrder R) → R
  pending_risk_from total [] = total
  pending_risk_from total ((_, o) ∷ os) =
      pending_risk_from (total ⊕ num (remaining_of o) ⊗ o.risk_per_share) os

  unfoldable pub pending_risk : Portfolio R → R
  unfolding pending_risk_from
  pending_risk p = pending_risk_from (num 0) p.pending_orders

  unfoldable pub position_risk_from : R → Dict (Position R) → R
  unfolding expected_stop_net_per_share
  position_risk_from total [] = total
  position_risk_from total ((_, q) ∷ qs) =
      let stop_net = expected_stop_net_per_share q.stop_price q.stop_limit_offset_pct in
      position_risk_from (total ⊕ fmax (num 0) (q.entry_price ⊖ stop_net) ⊗ num q.remaining) qs

  unfoldable pub position_risk : Portfolio R → R
  unfolding position_risk_from
  position_risk p = position_risk_from (num 0) p.positions

  unfoldable pub daily_risk_used : Portfolio R → R
  unfolding position_risk pending_risk
  daily_risk_used p = fmax (num 0) (neg p.session_realized_pnl) ⊕ position_risk p ⊕ pending_risk p
