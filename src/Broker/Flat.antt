-- ===== src/Broker/Flat.antt =====
-- Sales of all that a position holds, and the closing of a market.
use mathlib.Core.Path.{subst⁻¹}
use ai_daytrader_sim.Prelude.{
  ◌-◌, ◌<◌, String, ◌≡◌, refl, ap, ◌∙◌, true, false, some, [], ◌∷◌, arith, ◌==◌, min,
}
use ai_daytrader_sim.Prelude.Dict.{Dict, lookup, erase, keys, At, At-erase_self}
use ai_daytrader_sim.Float.{Float, ◌⊖◌, ◌⊗◌, num}
use ai_daytrader_sim.Models.{Market, OrderState, MarketTick}
use ai_daytrader_sim.Portfolio.{Portfolio, Position}
use ai_daytrader_sim.Broker.{Setup, Desk}
use ai_daytrader_sim.Broker.Costs.{exit_net}
use ai_daytrader_sim.Broker.Sessions.{cancel_each}
use ai_daytrader_sim.Broker.Exits.{
  sold_position, settle_portfolio, credited, closed_counters, sell, close_quantity, close_each,
  force_close,
}
use ai_daytrader_sim.Broker.Slot.{PositionAt, cancel_all-portfolio}
use ai_daytrader_sim.Broker.Markets.{Broker, desk, Reachable}
use ai_daytrader_sim.Broker.Slot.Reach.{one_slot}
use ai_daytrader_sim.Broker.Slot.Close.{sell-portfolio, closed_counters-dicts}

-- Each position of the dict has a tick.
abbrev pub Covered : {R : Type 0} → Dict (MarketTick R) → Dict (Position R) → Type 0
Covered ticks [] = Unit
Covered {R} ticks ((s, q) ∷ qs) =
    ((t : MarketTick R) × (lookup s ticks ≡ some t)) × Covered ticks qs

-- Nothing is open and nothing is pending.
abbrev pub IsFlat : {R : Type 0} → Portfolio R → Type 0
IsFlat p = (p.positions ≡ []) × (p.pending_orders ≡ [])

module _ {R : Type 0} ⦃f : Float R⦄ (σ : Setup R) where
  -- The portfolio after a sale of all the shares of `q` on the tick.
  abbrev pub flat_portfolio : Position R → MarketTick R → String → Portfolio R → Portfolio R
  flat_portfolio q tick reason p =
      let (net, fees) = exit_net (σ.costs q.market) (tick.bid ⊗ num q.remaining) in
      let pnl = net ⊖ q.entry_price ⊗ num q.remaining in
      let p' =
        closed_counters (σ.costs q.market) reason pnl tick.received_timestamp
          (credited net pnl p) in
      record p' { positions = erase q.symbol p'.positions }

  pub close_all-portfolio :
      (q : Position R) (tick : MarketTick R) (reason : String) (state : OrderState) (d : Desk R)
      → 0 < q.remaining
      → (close_quantity σ q q.remaining tick reason state d).1.portfolio
        ≡ flat_portfolio q tick reason d.portfolio
  unfolding close_quantity sell sold_position settle_portfolio
  close_all-portfolio q tick reason state d h =
      let all_of_it : min q.remaining q.remaining ≡ q.remaining = omega arith in
      let some_left : (q.remaining == 0) ≡ false = ground arith in
      let none_left : (q.remaining - q.remaining == 0) ≡ true = ground arith in
      rw (all_of_it, some_left)
        (sell-portfolio σ q q.remaining tick reason state d ∙ rw none_left refl)

  pub flat_portfolio-IsFlat :
      (k : String) (q : Position R) (tick : MarketTick R) (reason : String) (p : Portfolio R)
      → At k (PositionAt k) p.positions
      → q.symbol ≡ k
      → p.pending_orders ≡ []
      → IsFlat (flat_portfolio q tick reason p)
  unfolding credited
  flat_portfolio-IsFlat k q tick reason p qs s os =
      let cost = σ.costs q.market in
      let (net, fees) = exit_net cost (tick.bid ⊗ num q.remaining) in
      let pnl = net ⊖ q.entry_price ⊗ num q.remaining in
      let (same_qs, same_os) =
        closed_counters-dicts σ cost reason pnl tick.received_timestamp (credited net pnl p) in
      (
        ap (erase q.symbol) same_qs
            ∙ ap (λ j. erase j p.positions) s
            ∙ At-erase_self k (PositionAt k) p.positions qs,
        same_os ∙ os,
      )

  close_each-IsFlat :
      (k : String) (qs : Dict (Position R)) (ticks : Dict (MarketTick R)) (reason : String)
      (d : Desk R)
      → At k (PositionAt k) qs
      → d.portfolio.positions ≡ qs
      → d.portfolio.pending_orders ≡ []
      → Covered ticks qs
      → IsFlat (close_each σ qs ticks reason d).portfolio
  unfolding close_each
  close_each-IsFlat k [] ticks reason d h same os covered = (same, os)
  close_each-IsFlat k ((s, q) ∷ []) ticks reason d h same os ((tick, e), _) =
      let (_, (t, ok)) = h in
      rw (e, close_each)
        (subst⁻¹ IsFlat (close_all-portfolio q tick reason OrderState.force_closed d ok.0) (
          flat_portfolio-IsFlat k q tick reason d.portfolio (subst⁻¹ (At k (PositionAt k)) same h) t
            os))
  close_each-IsFlat k (x ∷ y ∷ qs) ticks reason d h same os covered = absurd h

  -- In every broker that calls can lead to, `force_close` of a market whose positions all have a tick
  -- leaves no position open and no order pending there.
  pub force_close-IsFlat :
      (b : Broker R) (m : Market) (ticks : Dict (MarketTick R)) (reason : String)
      → Reachable σ b
      → Covered ticks (desk m b).portfolio.positions
      → IsFlat (force_close σ ticks reason (desk m b)).portfolio
  unfolding force_close
  force_close-IsFlat b m ticks reason reached covered =
      let d = desk m b in
      let (k, (qs, _)) = one_slot σ b reached m in
      let cleared = cancel_all-portfolio σ reason OrderState.force_closed d in
      let same = ap (λ (p : Portfolio R). p.positions) cleared in
      let d' = cancel_each σ (keys d.portfolio.pending_orders) reason OrderState.force_closed d in
      close_each-IsFlat k d'.portfolio.positions ticks reason d'
        (subst⁻¹ (At k (PositionAt k)) same qs) refl
        (ap (λ (p : Portfolio R). p.pending_orders) cleared) (subst⁻¹ (Covered ticks) same covered)
