-- ===== src/Broker/Fresh.antt =====
-- `_ensure_session`: what the first call of a day resets, and that further calls of the day do nothing.
use ai_daytrader_sim.Prelude.{
  ℕ, ◌≡◌, ◌⊎◌, refl, ap, ◌∙◌, true, false, none, some, [], arith, inl, inr, Bool-cases,
}
use mathlib.Core.Path.{subst⁻¹}
use ai_daytrader_sim.Float.{Float, num}
use ai_daytrader_sim.Models.{Market}
use ai_daytrader_sim.Portfolio.{Portfolio}
use ai_daytrader_sim.Broker.{Setup, Desk}
use ai_daytrader_sim.Broker.Sessions.{ensure_session, same_date}
use ai_daytrader_sim.Broker.Slot.{ensure_session-portfolio}

pub same_date-some : (date : ℕ) → same_date (some date) date ≡ true
same_date-some date = ground arith

-- The portfolio `p'` begins the day `date` where `p` ended another: no order is pending and the day's
-- counters are 0, and the cash, the positions and the total profit are those of `p`.
pub record FreshDay {R : Type 0} ⦃f : Float R⦄ (date : ℕ) (p p' : Portfolio R) : Type 0 where
  pub session_date : p'.session_date ≡ some date
  pub no_orders : p'.pending_orders ≡ []
  pub no_trades : p'.trades_today ≡ 0
  pub no_submissions : p'.order_submissions_today ≡ 0
  pub no_stops : p'.consecutive_stops ≡ 0
  pub no_cooldown : p'.cooldown_until ≡ none
  pub no_profit : p'.session_realized_pnl ≡ num 0
  pub same_cash : p'.cash ≡ p.cash
  pub same_initial : p'.initial_cash ≡ p.initial_cash
  pub same_positions : p'.positions ≡ p.positions
  pub same_profit : p'.realized_pnl ≡ p.realized_pnl

module _ {R : Type 0} ⦃f : Float R⦄ (σ : Setup R) where
  pub ensure_session-kept :
      (market : Market) (timestamp : ℕ) (d : Desk R)
      → same_date d.portfolio.session_date (σ.local_date market timestamp) ≡ true
      → ensure_session σ market timestamp d ≡ d
  unfolding ensure_session
  ensure_session-kept market timestamp d e = rw (e, ensure_session) refl

  -- On the day of its session `_ensure_session` does nothing. On another day the session of that day
  -- begins: no order is left pending, the day's trades, submissions, profit, stops in a row and
  -- cooldown are reset, and the cash, the positions and the total profit stay. A further call at any
  -- time of the same local date does nothing.
  pub ensure_session-FreshDay :
      (market : Market) (timestamp later : ℕ) (d : Desk R)
      → σ.local_date market later ≡ σ.local_date market timestamp
      → let date = σ.local_date market timestamp in
        let d' = ensure_session σ market timestamp d in
        (((same_date d.portfolio.session_date date ≡ true) × (d' ≡ d))
          ⊎ ((same_date d.portfolio.session_date date ≡ false)
              × FreshDay date d.portfolio d'.portfolio))
        × (ensure_session σ market later d' ≡ d')
  ensure_session-FreshDay market timestamp later d h =
      let date = σ.local_date market timestamp in
      let d' = ensure_session σ market timestamp d in
      let after = ensure_session-portfolio σ market timestamp d in
      elim (Bool-cases (same_date d.portfolio.session_date date)) [
        | inl e ↦
            let kept = ensure_session-kept market timestamp d e in
            (inl (e, kept), ensure_session-kept market later d' (rw (h, kept) e))
        | inr e ↦
            let fresh : FreshDay date d.portfolio d'.portfolio =
              subst⁻¹ (FreshDay date d.portfolio) (rw e at after) (record {
                session_date = refl;
                no_orders = refl;
                no_trades = refl;
                no_submissions = refl;
                no_stops = refl;
                no_cooldown = refl;
                no_profit = refl;
                same_cash = refl;
                same_initial = refl;
                same_positions = refl;
                same_profit = refl;
              }) in
            (
              inr (e, fresh),
              ensure_session-kept market later d' (
                  ap (λ s. same_date s (σ.local_date market later)) fresh.session_date
                  ∙ ap (same_date (some date)) h
                  ∙ same_date-some date),
            )
      ]
