-- ===== src/Broker/Expiry.antt =====
-- `expire_pending` and `force_close`: what they leave of a slot.
use ai_daytrader_sim.Prelude.{
  ℕ, String, ◌≡◌, refl, ap, ◌∙◌, [], ◌∷◌, inl, inr, Bool-cases, if◌then◌else◌, leb, eq_iff,
}
use ai_daytrader_sim.Prelude.Dict.{Dict, erase, At}
use ai_daytrader_sim.Float.{Float}
use ai_daytrader_sim.Models.{Market, OrderState}
use ai_daytrader_sim.Portfolio.{PendingOrder}
use ai_daytrader_sim.Broker.{Setup, Desk}
use ai_daytrader_sim.Broker.Markets.{
  Broker, account, desk, put_desk, on_desk, expire_each, expire_desk, expire_pending, Reachable,
}
use ai_daytrader_sim.Broker.Slot.{OrderAt, cancel_pending-portfolio}
use ai_daytrader_sim.Broker.Slot.Reach.{one_slot}

-- The orders that have not expired.
abbrev pub live : {R : Type 0} → ℕ → Dict (PendingOrder R) → Dict (PendingOrder R)
live now [] = []
live now ((k, o) ∷ os) = if leb o.expires_at now then live now os else (k, o) ∷ live now os

module _ {R : Type 0} ⦃f : Float R⦄ (σ : Setup R) where
  expire_each-portfolio :
      (k : String) (now : ℕ) (os : Dict (PendingOrder R)) (d : Desk R)
      → At k (OrderAt k) os
      → d.portfolio.pending_orders ≡ os
      → (expire_each σ now os d).portfolio ≡ record (d.portfolio) { pending_orders = live now os }
  unfolding expire_each
  expire_each-portfolio k now [] d h e = ap (λ os. record (d.portfolio) { pending_orders = os }) e
  expire_each-portfolio k now ((j, o) ∷ []) d h e = elim (Bool-cases (leb o.expires_at now)) [
    | inl late ↦
        rw (late, expire_each)
          (cancel_pending-portfolio σ j "FILL_TIMEOUT" OrderState.expired d
            ∙ ap (λ os. record (d.portfolio) { pending_orders = erase j os }) e
            ∙ rw ((eq_iff j j).1 refl) refl)
    | inr early ↦
        rw (early, expire_each) (ap (λ os. record (d.portfolio) { pending_orders = os }) e)
  ]
  expire_each-portfolio k now (x ∷ y ∷ os) d h e = absurd h

  expire_desk-portfolio :
      (k : String) (now : ℕ) (d : Desk R)
      → At k (OrderAt k) d.portfolio.pending_orders
      → (expire_desk σ now d).portfolio
        ≡ record (d.portfolio) { pending_orders = live now d.portfolio.pending_orders }
  unfolding expire_desk
  expire_desk-portfolio k now d h = expire_each-portfolio k now d.portfolio.pending_orders d h refl

  -- In every broker that calls can lead to, `expire_pending` takes out of each market's portfolio
  -- exactly the orders whose time has come, and changes nothing else in it.
  pub expire_pending-live :
      (now : ℕ) (b : Broker R) (m : Market)
      → Reachable σ b
      → (desk m (expire_pending σ now b)).portfolio ≡ record ((desk m b).portfolio) {
        pending_orders = live now (desk m b).portfolio.pending_orders;
      }
  unfolding expire_pending on_desk desk put_desk account
  expire_pending-live now b Market.kr reached =
      let (k, slot) = one_slot σ b reached Market.kr in
      expire_desk-portfolio k now (desk Market.kr b) slot.1
  expire_pending-live now b Market.us reached =
      let (k, slot) = one_slot σ b reached Market.us in
      expire_desk-portfolio k now (desk Market.us (on_desk Market.kr (expire_desk σ now) b)) slot.1
