-- ===== src/Broker/Quiet/Calls.antt =====
-- The calls of the whole broker leave the idempotency keys and the count of submissions alone.
use ai_daytrader_sim.Prelude.{ℕ, refl, ◌&&◌, [], ◌∷◌, inl, inr, Bool-cases, Option-cases, leb}
use ai_daytrader_sim.Prelude.Dict.{Dict, lookup}
use ai_daytrader_sim.Float.{Float, le}
use ai_daytrader_sim.Models.{OrderState, MarketTick, is_trading}
use ai_daytrader_sim.Portfolio.{PendingOrder}
use ai_daytrader_sim.Broker.{Setup, Desk}
use ai_daytrader_sim.Broker.Sessions.{cancel_pending}
use ai_daytrader_sim.Broker.Exits.{close_quantity}
use ai_daytrader_sim.Broker.Markets.{expire_each, expire_desk, close_for_corporate_action}
use ai_daytrader_sim.Broker.Quiet.{Quiet, Quiet-trans, cancel_pending-Quiet, close_quantity-Quiet}

module _ {R : Type 0} ⦃f : Float R⦄ (σ : Setup R) where
  expire_each-Quiet :
      (now : ℕ) (os : Dict (PendingOrder R)) (d : Desk R) → Quiet d (expire_each σ now os d)
  unfolding expire_each
  expire_each-Quiet now [] d = (refl, refl)
  expire_each-Quiet now ((s, o) ∷ os) d = elim (Bool-cases (leb o.expires_at now)) [
    | inl late ↦
        let d' = cancel_pending σ s "FILL_TIMEOUT" OrderState.expired d in
        rw (late, expire_each)
          (Quiet-trans d d' (expire_each σ now os d')
            (cancel_pending-Quiet σ s "FILL_TIMEOUT" OrderState.expired d)
            (expire_each-Quiet now os d'))
    | inr early ↦ rw (early, expire_each) (expire_each-Quiet now os d)
  ]

  pub expire_desk-Quiet : (now : ℕ) (d : Desk R) → Quiet d (expire_desk σ now d)
  unfolding expire_desk
  expire_desk-Quiet now d = expire_each-Quiet now d.portfolio.pending_orders d

  pub close_for_corporate_action-Quiet :
      (tick : MarketTick R) (d : Desk R) → Quiet d (close_for_corporate_action σ tick d)
  unfolding close_for_corporate_action
  close_for_corporate_action-Quiet tick d =
      let d' = cancel_pending σ tick.symbol "CORPORATE_ACTION" OrderState.cancelled d in
      let quiet = cancel_pending-Quiet σ tick.symbol "CORPORATE_ACTION" OrderState.cancelled d in
      elim (Option-cases (lookup tick.symbol d'.portfolio.positions)) [
        | inl e ↦ rw (e, close_for_corporate_action) quiet
        | inr (q, e) ↦
            let closed =
              close_quantity σ q q.remaining tick "CORPORATE_ACTION" OrderState.closed d' in
            elim (Bool-cases (le tick.bid tick.ask && is_trading tick.symbol_status)) [
              | inl tradable ↦
                  rw (e, close_for_corporate_action, tradable)
                    (Quiet-trans d d' closed.1 quiet (
                      close_quantity-Quiet σ q q.remaining tick "CORPORATE_ACTION" OrderState.closed
                        d'))
              | inr not_tradable ↦ rw (e, close_for_corporate_action, not_tradable) quiet
            ]
      ]
