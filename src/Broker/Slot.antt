-- ===== src/Broker/Slot.antt =====
-- The one slot of a market, shared by its pending order and its open position: what each holds, and
-- that cancellations and sessions keep it.
pub mod Submit
pub mod Fill
pub mod Close
pub mod Tick
pub mod Reach
use mathlib.Core.Path.{subst⁻¹}
use ai_daytrader_sim.Prelude.{
  ℕ, ◌<◌, ◌≤◌, String, ◌≡◌, refl, ap, ◌∙◌, Bool, true, false, none, some, List, [], ◌∷◌, arith, inl,
  inr, Bool-cases, Option-cases, is_empty, if◌then◌else◌,
}
use ai_daytrader_sim.Prelude.Dict.{
  Dict, lookup, erase, keys, erase_each, erase-missing, erase_each-keys, At, At-erase,
}
use ai_daytrader_sim.Float.{Float}
use ai_daytrader_sim.Models.{Market, OrderState}
use ai_daytrader_sim.Portfolio.{Portfolio, PendingOrder, Position}
use ai_daytrader_sim.Broker.{Setup, Desk, save, with_portfolio, order_event}
use ai_daytrader_sim.Broker.Sessions.{
  record_cancel, cancel_pending, cancel_each, fresh_session, ensure_session, same_date,
}

-- A pending order asks for more than it has got; an open position holds shares, and no more than it
-- was given.
abbrev pub OrderOk : {R : Type 0} → PendingOrder R → Type 0
OrderOk o = o.filled_quantity < o.desired_quantity

abbrev pub PositionOk : {R : Type 0} → Position R → Type 0
PositionOk q = (0 < q.remaining) × (q.remaining ≤ q.quantity)

abbrev pub OrderAt : {R : Type 0} → String → PendingOrder R → Type 0
OrderAt k o = (o.symbol ≡ k) × OrderOk o

abbrev pub PositionAt : {R : Type 0} → String → Position R → Type 0
PositionAt k q = (q.symbol ≡ k) × PositionOk q

-- The position in the hands of a caller: it belongs to the slot, and may be sold out.
abbrev pub Held : {R : Type 0} → String → Position R → Type 0
Held k q = (q.symbol ≡ k) × (q.remaining ≤ q.quantity)

-- Every order and every position of the portfolio stands under the symbol `k`, one of each at most.
abbrev pub SlotAt : {R : Type 0} → String → Portfolio R → Type 0
SlotAt k p = At k (PositionAt k) p.positions × At k (OrderAt k) p.pending_orders

module _ {R : Type 0} ⦃f : Float R⦄ (σ : Setup R) where
  record_cancel-portfolio :
      (o : PendingOrder R) (reason : String) (d : Desk R)
      → (record_cancel σ o reason d).portfolio ≡ d.portfolio
  unfolding record_cancel
  record_cancel-portfolio o reason d = ground arith

  -- A cancellation takes the order out of the portfolio and changes nothing else in it.
  pub cancel_pending-portfolio :
      (symbol reason : String) (state : OrderState) (d : Desk R)
      → (cancel_pending σ symbol reason state d).portfolio
        ≡ record (d.portfolio) { pending_orders = erase symbol d.portfolio.pending_orders }
  unfolding cancel_pending
  cancel_pending-portfolio symbol reason state d =
      elim (Option-cases (lookup symbol d.portfolio.pending_orders)) [
        | inl e ↦
            rw (e, cancel_pending) (rw (erase-missing symbol d.portfolio.pending_orders e) refl)
        | inr (o, e) ↦
            rw (e, cancel_pending)
              (record_cancel-portfolio o reason (
                with_portfolio
                  (record (d.portfolio) {
                    pending_orders = erase symbol d.portfolio.pending_orders;
                  })
                  d))
      ]

  pub cancel_each-portfolio :
      (ss : List String) (reason : String) (state : OrderState) (d : Desk R)
      → (cancel_each σ ss reason state d).portfolio
        ≡ record (d.portfolio) { pending_orders = erase_each ss d.portfolio.pending_orders }
  unfolding cancel_each
  cancel_each-portfolio [] reason state d = refl
  cancel_each-portfolio (s ∷ ss) reason state d =
      cancel_each-portfolio ss reason state (cancel_pending σ s reason state d)
      ∙ ap (λ (p : Portfolio R). record p { pending_orders = erase_each ss p.pending_orders })
          (cancel_pending-portfolio s reason state d)

  -- The loop over all pending orders leaves none.
  pub cancel_all-portfolio :
      (reason : String) (state : OrderState) (d : Desk R)
      → (cancel_each σ (keys d.portfolio.pending_orders) reason state d).portfolio
        ≡ record (d.portfolio) { pending_orders = [] }
  cancel_all-portfolio reason state d =
      cancel_each-portfolio (keys d.portfolio.pending_orders) reason state d
      ∙ ap (λ os. record (d.portfolio) { pending_orders = os })
          (erase_each-keys d.portfolio.pending_orders)

  -- The portfolio after `_ensure_session`: untouched on the day of its session; on another day the
  -- day's counters start anew and no order is pending.
  pub ensure_session-portfolio :
      (market : Market) (timestamp : ℕ) (d : Desk R)
      → let date = σ.local_date market timestamp in
        (ensure_session σ market timestamp d).portfolio ≡ (
          if same_date d.portfolio.session_date date
          then d.portfolio
          else record (fresh_session date d.portfolio) { pending_orders = [] })
  unfolding ensure_session
  ensure_session-portfolio market timestamp d =
      elim (Bool-cases (same_date d.portfolio.session_date (σ.local_date market timestamp))) [
        | inl e ↦ rw (e, ensure_session) refl
        | inr e ↦
            rw (e, ensure_session)
              (cancel_all-portfolio "SESSION_CHANGED" OrderState.expired
                (with_portfolio (fresh_session (σ.local_date market timestamp) d.portfolio) d))
      ]

  pub cancel_pending-SlotAt :
      (k symbol reason : String) (state : OrderState) (d : Desk R)
      → SlotAt k d.portfolio
      → SlotAt k (cancel_pending σ symbol reason state d).portfolio
  cancel_pending-SlotAt k symbol reason state d (qs, os) =
      subst⁻¹ (SlotAt k) (cancel_pending-portfolio symbol reason state d)
        (qs, At-erase k symbol (OrderAt k) d.portfolio.pending_orders os)

  pub cancel_all-SlotAt :
      (k reason : String) (state : OrderState) (d : Desk R)
      → SlotAt k d.portfolio
      → SlotAt k (cancel_each σ (keys d.portfolio.pending_orders) reason state d).portfolio
  cancel_all-SlotAt k reason state d (qs, os) =
      subst⁻¹ (SlotAt k) (cancel_all-portfolio reason state d) (qs, tt)

  pub ensure_session-SlotAt :
      (k : String) (market : Market) (timestamp : ℕ) (d : Desk R)
      → SlotAt k d.portfolio
      → SlotAt k (ensure_session σ market timestamp d).portfolio
  ensure_session-SlotAt k market timestamp d h =
      subst⁻¹ (SlotAt k) (ensure_session-portfolio market timestamp d)
        (go (same_date d.portfolio.session_date (σ.local_date market timestamp)))
    where
      go :
          (b : Bool)
          → SlotAt k (
              if b
              then d.portfolio
              else record (fresh_session (σ.local_date market timestamp) d.portfolio) {
                pending_orders = [];
              })
      go true = h
      go false = (h.0, tt)
