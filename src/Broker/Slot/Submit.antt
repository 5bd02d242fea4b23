-- ===== src/Broker/Slot/Submit.antt =====
-- `submit_entry`: an order is placed only into an empty slot, and within the limits.
use mathlib.Core.Path.{subst⁻¹}
use ai_daytrader_sim.Prelude.{
  ℕ, ◌+◌, ◌<◌, String, ◌≡◌, refl, false, none, some, [], arith, ◌⊎◌, inl, inr, Option-cases,
  empty_of_test,
}
use ai_daytrader_sim.Prelude.Dict.{insert, At, At-insert}
use ai_daytrader_sim.Float.{Float, num, le}
use ai_daytrader_sim.Models.{CandidatePlan, MarketTick, CostConfig}
use ai_daytrader_sim.Portfolio.{Portfolio, PendingOrder}
use ai_daytrader_sim.Broker.{Setup, Desk}
use ai_daytrader_sim.Broker.Costs.{worst_case_risk_per_share}
use ai_daytrader_sim.Broker.Sessions.{Refusal, admission, can_submit, ensure_session, is_before}
use ai_daytrader_sim.Broker.Entries.{entry_quantity, new_order, claim_and_place, submit_entry}
use ai_daytrader_sim.Broker.Slot.{SlotAt, PositionAt, OrderAt, ensure_session-SlotAt}

-- What `can_submit` grants: an empty slot, and counters below their limits.
pub record Admitted {R : Type 0} (cost : CostConfig R) (at : ℕ) (p : Portfolio R) : Type 0 where
  pub no_position : p.positions ≡ []
  pub no_order : p.pending_orders ≡ []
  pub trades_left : p.trades_today < cost.max_filled_entries_per_day
  pub submissions_left : p.order_submissions_today < cost.max_order_submissions_per_day
  pub stops_left : p.consecutive_stops < cost.consecutive_stop_limit
  pub cooled_down : is_before at p.cooldown_until ≡ false

module _ {R : Type 0} ⦃f : Float R⦄ where
  admission-Admitted :
      (cost : CostConfig R) (at : ℕ) (p : Portfolio R)
      → admission cost at p ≡ none
      → Admitted cost at p
  unfolding admission
  admission-Admitted cost at p h =
      ground (arith, empty_of_test p.positions, empty_of_test p.pending_orders)

module _ {R : Type 0} ⦃f : Float R⦄ (σ : Setup R) where
  -- The portfolio that an accepted order leaves, from the one that the session begins with.
  abbrev pub with_order : PendingOrder R → Portfolio R → Portfolio R
  with_order o p = record p {
    pending_orders = insert o.symbol o p.pending_orders;
    order_submissions_today = p.order_submissions_today + 1;
  }

  claim_and_place-placed :
      (plan_id : String) (c : CandidatePlan R) (tick : MarketTick R) (quantity : ℕ) (risk : R)
      (d : Desk R)
      → let (reason, d') = claim_and_place σ plan_id c tick quantity risk d in
        let o = new_order (σ.costs tick.market) plan_id c tick (σ.uuid d.draws) quantity risk in
        reason ≡ none → (d'.portfolio ≡ with_order o d.portfolio) × (d'.saved ≡ some d'.portfolio)
  unfolding claim_and_place
  claim_and_place-placed plan_id c tick quantity risk d h = ground arith

  claim_and_place-refused :
      (plan_id : String) (c : CandidatePlan R) (tick : MarketTick R) (quantity : ℕ) (risk : R)
      (d : Desk R) {x : Refusal}
      → let (reason, d') = claim_and_place σ plan_id c tick quantity risk d in
        reason ≡ some x → (d'.portfolio ≡ d.portfolio) × (d'.saved ≡ d.saved)
  unfolding claim_and_place
  claim_and_place-refused plan_id c tick quantity risk d h = ground arith

  -- What an accepted submission has met and done, from the portfolio `p` that the session begins with.
  pub record Placed (plan_id : String) (c : CandidatePlan R) (tick : MarketTick R) (draw : ℕ)
      (p : Portfolio R) (d' : Desk R) : Type 0 where
    pub quantity : ℕ
    pub admitted : Admitted (σ.costs tick.market) tick.received_timestamp p
    pub sized :
        quantity
        ≡ entry_quantity
            (σ.costs tick.market)
            c
            (worst_case_risk_per_share (σ.costs tick.market) c)
            p
    pub positive : 0 < quantity
    pub risky : le (worst_case_risk_per_share (σ.costs tick.market) c) (num 0) ≡ false
    pub portfolio_after :
        d'.portfolio
        ≡ with_order
            (new_order
              (σ.costs tick.market)
              plan_id
              c
              tick
              (σ.uuid draw)
              quantity
              (worst_case_risk_per_share (σ.costs tick.market) c))
            p
    pub stored : d'.saved ≡ some d'.portfolio

  -- A submission that is accepted found, in the portfolio that the session begins with, no position, no
  -- order and counters below their limits, and no cooldown running. It leaves that portfolio with one
  -- more order, the new one, for the positive quantity that the budgets give at a positive risk for
  -- each share, and with one more submission counted, and that portfolio is the one stored.
  pub submit_entry-Placed :
      (plan_id : String) (c : CandidatePlan R) (tick : MarketTick R) (d : Desk R)
      → (submit_entry σ plan_id c tick d).0 ≡ none
      → let began = ensure_session σ tick.market tick.received_timestamp d in
        Placed plan_id c tick began.draws began.portfolio (submit_entry σ plan_id c tick d).1
  unfolding submit_entry can_submit
  submit_entry-Placed plan_id c tick d h =
      let cost = σ.costs tick.market in
      let began = ensure_session σ tick.market tick.received_timestamp d in
      let risk = worst_case_risk_per_share cost c in
      let quantity = entry_quantity cost c risk began.portfolio in
      let placed = claim_and_place-placed plan_id c tick quantity risk began in
      record {
        quantity = quantity;
        admitted = admission-Admitted cost tick.received_timestamp began.portfolio (ground arith);
        sized = refl;
        positive = ground arith;
        risky = ground arith;
        portfolio_after = ground (arith, placed);
        stored = ground (arith, placed);
      }

  pub submit_entry-refused :
      (plan_id : String) (c : CandidatePlan R) (tick : MarketTick R) (d : Desk R) {x : Refusal}
      → (submit_entry σ plan_id c tick d).0 ≡ some x
      → let d' = (submit_entry σ plan_id c tick d).1 in
        (d' ≡ d)
        ⊎ (d'.portfolio ≡ (ensure_session σ tick.market tick.received_timestamp d).portfolio)
  unfolding submit_entry can_submit
  submit_entry-refused plan_id c tick d {x} h =
      let cost = σ.costs tick.market in
      let began = ensure_session σ tick.market tick.received_timestamp d in
      let risk = worst_case_risk_per_share cost c in
      let quantity = entry_quantity cost c risk began.portfolio in
      ground (arith, claim_and_place-refused plan_id c tick quantity risk began {x = x})

  -- Whatever `submit_entry` answers, one slot is enough for the desk that it leaves.
  pub submit_entry-SlotAt :
      (k plan_id : String) (c : CandidatePlan R) (tick : MarketTick R) (d : Desk R)
      → SlotAt k d.portfolio
      → (j : String) × SlotAt j (submit_entry σ plan_id c tick d).1.portfolio
  unfolding new_order
  submit_entry-SlotAt k plan_id c tick d h =
      elim (Option-cases (submit_entry σ plan_id c tick d).0) [
        | inl e ↦
            let placed = submit_entry-Placed plan_id c tick d e in
            (
              c.symbol,
              subst⁻¹ (SlotAt c.symbol) placed.portfolio_after (
                subst⁻¹ (At c.symbol (PositionAt c.symbol)) placed.admitted.no_position tt,
                At-insert c.symbol c.symbol (OrderAt c.symbol) _ _ refl
                    (subst⁻¹ (At c.symbol (OrderAt c.symbol)) placed.admitted.no_order tt)
                    (refl, placed.positive),
              ),
            )
        | inr (x, e) ↦ elim (submit_entry-refused plan_id c tick d e) [
          | inl same ↦ (k, subst⁻¹ (λ (b : Desk R). SlotAt k b.portfolio) same h)
          | inr began ↦ (
            k,
            subst⁻¹ (SlotAt k) began
                (ensure_session-SlotAt σ k tick.market tick.received_timestamp d h),
          )
        ]
      ]
