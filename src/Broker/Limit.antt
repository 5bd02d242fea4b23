-- ===== src/Broker/Limit.antt =====
-- The limit on the orders of a day (`max_order_submissions_per_day`), over the life of a broker.
use mathlib.Core.Path.{subst⁻¹}
use ai_daytrader_sim.Prelude.{ℕ, ◌≤◌, String, arith, inl, inr, Bool-cases, Option-cases}
use ai_daytrader_sim.Float.{Float}
use ai_daytrader_sim.Models.{Market, MarketTick, CandidatePlan}
use ai_daytrader_sim.Portfolio.{Portfolio}
use ai_daytrader_sim.Repository.{Repository}
use ai_daytrader_sim.Broker.{Setup, Desk, save, with_portfolio}
use ai_daytrader_sim.Broker.Sessions.{cancel_pending, ensure_session, same_date}
use ai_daytrader_sim.Broker.Entries.{submit_entry}
use ai_daytrader_sim.Broker.Exits.{force_close, reset_day}
use ai_daytrader_sim.Broker.Ticks.{on_tick}
use ai_daytrader_sim.Broker.Markets.{
  Broker, Each, desk, account, on_desk, on_desk-Each, written-Each, new_broker, expire_desk,
  expire_pending, close_for_corporate_action, Step, Reachable,
}
use ai_daytrader_sim.Broker.Slot.{ensure_session-portfolio}
use ai_daytrader_sim.Broker.Slot.Submit.{submit_entry-Placed, submit_entry-refused}
use ai_daytrader_sim.Broker.Quiet.{Quiet, cancel_pending-Quiet, force_close-Quiet}
use ai_daytrader_sim.Broker.Quiet.Ticks.{on_tick-Quiet}
use ai_daytrader_sim.Broker.Quiet.Calls.{expire_desk-Quiet, close_for_corporate_action-Quiet}

module _ {R : Type 0} ⦃f : Float R⦄ (σ : Setup R) where
  -- A portfolio has made no more submissions than the limit of its market.
  abbrev pub WithinLimit : Market → Portfolio R → Type 0
  WithinLimit m p = p.order_submissions_today ≤ (σ.costs m).max_order_submissions_per_day

  Quiet-WithinLimit :
      (m : Market) (d d' : Desk R)
      → Quiet d d'
      → WithinLimit m d.portfolio
      → WithinLimit m d'.portfolio
  Quiet-WithinLimit m d d' (_, same) h = rw same h

  ensure_session-WithinLimit :
      (m : Market) (at : ℕ) (d : Desk R)
      → WithinLimit m d.portfolio
      → WithinLimit m (ensure_session σ m at d).portfolio
  ensure_session-WithinLimit m at d h =
      subst⁻¹ (WithinLimit m) (ensure_session-portfolio σ m at d)
        (elim (Bool-cases (same_date d.portfolio.session_date (σ.local_date m at))) [
          | inl e ↦ rw e h
          | inr e ↦ rw e (omega arith)
        ])

  submit_entry-WithinLimit :
      (plan_id : String) (c : CandidatePlan R) (tick : MarketTick R) (d : Desk R)
      → WithinLimit tick.market d.portfolio
      → WithinLimit tick.market (submit_entry σ plan_id c tick d).1.portfolio
  submit_entry-WithinLimit plan_id c tick d h =
      elim (Option-cases (submit_entry σ plan_id c tick d).0) [
        | inl accepted ↦
            let placed = submit_entry-Placed σ plan_id c tick d accepted in
            subst⁻¹ (WithinLimit tick.market) placed.portfolio_after
              (omega (arith, placed.admitted.submissions_left))
        | inr (x, refused) ↦ elim (submit_entry-refused σ plan_id c tick d refused) [
          | inl same ↦ subst⁻¹ (λ (b : Desk R). WithinLimit tick.market b.portfolio) same h
          | inr began ↦
              subst⁻¹ (WithinLimit tick.market) began
                (ensure_session-WithinLimit tick.market tick.received_timestamp d h)
        ]
      ]

  reset_day-WithinLimit : (m : Market) (d : Desk R) → WithinLimit m (reset_day d).portfolio
  unfolding reset_day save with_portfolio
  reset_day-WithinLimit m d = omega arith

  Step-WithinLimit : {b c : Broker R} → Step σ b c → Each WithinLimit b → Each WithinLimit c
  unfolding expire_pending
  Step-WithinLimit (Step.submitted plan_id c tick b) =
      on_desk-Each WithinLimit tick.market (λ d. (submit_entry σ plan_id c tick d).1) b
        (submit_entry-WithinLimit plan_id c tick)
  Step-WithinLimit (Step.ticked tick b) =
      on_desk-Each WithinLimit tick.market (on_tick σ tick) b
        (λ d. Quiet-WithinLimit tick.market d (on_tick σ tick d) (on_tick-Quiet σ tick d))
  Step-WithinLimit (Step.cancelled m symbol reason state b) =
      on_desk-Each WithinLimit m (cancel_pending σ symbol reason state) b (λ d.
        Quiet-WithinLimit m d (cancel_pending σ symbol reason state d)
          (cancel_pending-Quiet σ symbol reason state d))
  Step-WithinLimit (Step.expired now b) = λ h.
      let quiet = λ (m : Market) (d : Desk R).
        Quiet-WithinLimit m d (expire_desk σ now d) (expire_desk-Quiet σ now d) in
      on_desk-Each WithinLimit Market.us (expire_desk σ now)
        (on_desk Market.kr (expire_desk σ now) b) (quiet Market.us)
        (on_desk-Each WithinLimit Market.kr (expire_desk σ now) b (quiet Market.kr) h)
  Step-WithinLimit (Step.invalidated tick b) =
      on_desk-Each WithinLimit tick.market (close_for_corporate_action σ tick) b (λ d.
        Quiet-WithinLimit tick.market d (close_for_corporate_action σ tick d)
          (close_for_corporate_action-Quiet σ tick d))
  Step-WithinLimit (Step.forced m ticks reason b) =
      on_desk-Each WithinLimit m (force_close σ ticks reason) b (λ d.
        Quiet-WithinLimit m d (force_close σ ticks reason d) (force_close-Quiet σ ticks reason d))
  Step-WithinLimit (Step.reset m b) =
      on_desk-Each WithinLimit m reset_day b (λ d h. reset_day-WithinLimit m d)
  Step-WithinLimit (Step.written r b e) = written-Each WithinLimit r b

  new_broker-WithinLimit : (r : Repository R) (draws : ℕ) → Each WithinLimit (new_broker σ r draws)
  unfolding new_broker desk account
  new_broker-WithinLimit r draws Market.kr = omega arith
  new_broker-WithinLimit r draws Market.us = omega arith

  -- After any calls on a new broker, each market counts no more submissions for the day than the limit
  -- of that market.
  pub submissions_limit : (b : Broker R) → Reachable σ b → Each WithinLimit b
  submissions_limit b (Reachable.new r draws) = new_broker-WithinLimit r draws
  submissions_limit c (Reachable.next {b} reached step) =
      Step-WithinLimit step (submissions_limit b reached)
