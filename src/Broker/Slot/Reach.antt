-- ===== src/Broker/Slot/Reach.antt =====
-- The one slot of each market, over all calls of the broker.
use ai_daytrader_sim.Prelude.{ℕ, String, ◌&&◌, [], ◌∷◌, inl, inr, Bool-cases, Option-cases, leb}
use ai_daytrader_sim.Prelude.Dict.{Dict, lookup, At-lookup}
use ai_daytrader_sim.Float.{Float, le}
use ai_daytrader_sim.Models.{Market, OrderState, MarketTick, is_trading}
use ai_daytrader_sim.Portfolio.{Portfolio, PendingOrder}
use ai_daytrader_sim.Repository.{Repository}
use ai_daytrader_sim.Broker.{Setup, Desk, save, with_portfolio}
use ai_daytrader_sim.Broker.Sessions.{cancel_pending}
use ai_daytrader_sim.Broker.Entries.{submit_entry}
use ai_daytrader_sim.Broker.Exits.{force_close, reset_day}
use ai_daytrader_sim.Broker.Ticks.{on_tick}
use ai_daytrader_sim.Broker.Markets.{
  Broker, account, desk, on_desk-Each, written-Each, new_broker, expire_each, expire_desk,
  expire_pending, close_for_corporate_action, Step, Reachable,
}
use ai_daytrader_sim.Broker.Slot.{SlotAt, PositionAt, cancel_pending-SlotAt}
use ai_daytrader_sim.Broker.Slot.Submit.{submit_entry-SlotAt}
use ai_daytrader_sim.Broker.Slot.Close.{close_quantity-SlotAt, force_close-SlotAt}
use ai_daytrader_sim.Broker.Slot.Tick.{on_tick-SlotAt}

-- Some symbol has the portfolio's slot, or none does.
abbrev pub OneSlot : {R : Type 0} → Portfolio R → Type 0
OneSlot p = (k : String) × SlotAt k p

abbrev Slotted : {R : Type 0} → Market → Portfolio R → Type 0
Slotted m p = OneSlot p

-- Each market of a broker has one slot.
abbrev pub OneSlotEach : {R : Type 0} → Broker R → Type 0
OneSlotEach b = (m : Market) → OneSlot (desk m b).portfolio

module _ {R : Type 0} ⦃f : Float R⦄ (σ : Setup R) where
  reset_day-OneSlot : (d : Desk R) → OneSlot d.portfolio → OneSlot (reset_day d).portfolio
  unfolding reset_day save with_portfolio
  reset_day-OneSlot d h = h

  expire_each-SlotAt :
      (k : String) (now : ℕ) (os : Dict (PendingOrder R)) (d : Desk R)
      → SlotAt k d.portfolio
      → SlotAt k (expire_each σ now os d).portfolio
  unfolding expire_each
  expire_each-SlotAt k now [] d h = h
  expire_each-SlotAt k now ((s, o) ∷ os) d h = elim (Bool-cases (leb o.expires_at now)) [
    | inl late ↦
        rw (late, expire_each)
          (expire_each-SlotAt k now os _
            (cancel_pending-SlotAt σ k s "FILL_TIMEOUT" OrderState.expired d h))
    | inr early ↦ rw (early, expire_each) (expire_each-SlotAt k now os d h)
  ]

  expire_desk-OneSlot :
      (now : ℕ) (d : Desk R) → OneSlot d.portfolio → OneSlot (expire_desk σ now d).portfolio
  unfolding expire_desk
  expire_desk-OneSlot now d (k, h) = (k, expire_each-SlotAt k now d.portfolio.pending_orders d h)

  close_for_corporate_action-SlotAt :
      (k : String) (tick : MarketTick R) (d : Desk R)
      → SlotAt k d.portfolio
      → SlotAt k (close_for_corporate_action σ tick d).portfolio
  unfolding close_for_corporate_action
  close_for_corporate_action-SlotAt k tick d h =
      let d' = cancel_pending σ tick.symbol "CORPORATE_ACTION" OrderState.cancelled d in
      let h' = cancel_pending-SlotAt σ k tick.symbol "CORPORATE_ACTION" OrderState.cancelled d h in
      elim (Option-cases (lookup tick.symbol d'.portfolio.positions)) [
        | inl e ↦ rw (e, close_for_corporate_action) h'
        | inr (q, e) ↦
            let (_, ok) = At-lookup k tick.symbol (PositionAt k) q d'.portfolio.positions h'.0 e in
            elim (Bool-cases (le tick.bid tick.ask && is_trading tick.symbol_status)) [
              | inl tradable ↦
                  rw (e, close_for_corporate_action, tradable)
                    (close_quantity-SlotAt σ k q q.remaining tick "CORPORATE_ACTION"
                      OrderState.closed d' h' (ok.0, ok.1.1)).0
              | inr not_tradable ↦ rw (e, close_for_corporate_action, not_tradable) h'
            ]
      ]

  Step-OneSlotEach : {b c : Broker R} → Step σ b c → OneSlotEach b → OneSlotEach c
  unfolding expire_pending
  Step-OneSlotEach (Step.submitted plan_id c tick b) =
      on_desk-Each Slotted tick.market (λ d. (submit_entry σ plan_id c tick d).1) b
        (λ d h. submit_entry-SlotAt σ h.0 plan_id c tick d h.1)
  Step-OneSlotEach (Step.ticked tick b) =
      on_desk-Each Slotted tick.market (on_tick σ tick) b
        (λ d h. (h.0, on_tick-SlotAt σ h.0 tick d h.1))
  Step-OneSlotEach (Step.cancelled m symbol reason state b) =
      on_desk-Each Slotted m (cancel_pending σ symbol reason state) b
        (λ d h. (h.0, cancel_pending-SlotAt σ h.0 symbol reason state d h.1))
  Step-OneSlotEach (Step.expired now b) = λ h.
      on_desk-Each Slotted Market.us (expire_desk σ now) _ (expire_desk-OneSlot now)
        (on_desk-Each Slotted Market.kr (expire_desk σ now) b (expire_desk-OneSlot now) h)
  Step-OneSlotEach (Step.invalidated tick b) =
      on_desk-Each Slotted tick.market (close_for_corporate_action σ tick) b
        (λ d h. (h.0, close_for_corporate_action-SlotAt h.0 tick d h.1))
  Step-OneSlotEach (Step.forced m ticks reason b) =
      on_desk-Each Slotted m (force_close σ ticks reason) b
        (λ d h. (h.0, force_close-SlotAt σ h.0 ticks reason d h.1))
  Step-OneSlotEach (Step.reset m b) = on_desk-Each Slotted m reset_day b reset_day-OneSlot
  Step-OneSlotEach (Step.written r b e) = written-Each Slotted r b

  new_broker-OneSlotEach : (r : Repository R) (draws : ℕ) → OneSlotEach (new_broker σ r draws)
  unfolding new_broker desk account
  new_broker-OneSlotEach r draws Market.kr = ("", (tt, tt))
  new_broker-OneSlotEach r draws Market.us = ("", (tt, tt))

  -- After any calls on a new broker, in each market all orders and positions are those of one symbol,
  -- at most one order and one position: a pending order still lacks shares, and an open position holds
  -- at least one share and no more than were bought for it.
  pub one_slot : (b : Broker R) → Reachable σ b → OneSlotEach b
  one_slot b (Reachable.new r draws) = new_broker-OneSlotEach r draws
  one_slot c (Reachable.next {b} reached step) = Step-OneSlotEach step (one_slot b reached)
