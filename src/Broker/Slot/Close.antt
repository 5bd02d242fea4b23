-- ===== src/Broker/Slot/Close.antt =====
-- `close_quantity` and what sells through it: a sale never exceeds the position, and keeps the slot.
use mathlib.Core.Path.{subst⁻¹}
use ai_daytrader_sim.Prelude.{
  ℕ, ◌+◌, ◌<◌, ◌≤◌, String, ◌≡◌, refl, sym, ap, ◌∙◌, ◌⊎◌, Bool, true, false, some, [], ◌∷◌, arith,
  inl, inr, Bool-cases, Option-cases, or_else, is_some, ◌==◌, min,
}
use ai_daytrader_sim.Prelude.Dict.{Dict, lookup, erase, At, At-insert, At-erase}
use ai_daytrader_sim.Float.{Float, ◌⊖◌, ◌⊗◌, num}
use ai_daytrader_sim.Models.{OrderState, MarketTick, CostConfig}
use ai_daytrader_sim.Portfolio.{Portfolio, Position}
use ai_daytrader_sim.Broker.{Setup, Desk, save, log, with_portfolio}
use ai_daytrader_sim.Broker.Costs.{exit_net}
use ai_daytrader_sim.Broker.Exits.{
  put_position, sold_position, closed_counters, credited, record_exit, settle_portfolio,
  sale_events, sell, close_quantity, begin_exit, process_exit_pending, close_each, force_close,
}
use ai_daytrader_sim.Broker.Slot.{
  SlotAt, PositionAt, OrderAt, Held, cancel_pending-SlotAt, cancel_all-SlotAt,
}

module _ {R : Type 0} ⦃f : Float R⦄ where
  pub put_position-SlotAt :
      (k : String) (q : Position R) (d : Desk R)
      → SlotAt k d.portfolio
      → PositionAt k q
      → SlotAt k (put_position q d).portfolio
  unfolding put_position
  put_position-SlotAt k q d (qs, os) ok =
      (At-insert k q.symbol (PositionAt k) q d.portfolio.positions ok.0 qs ok, os)

module _ {R : Type 0} ⦃f : Float R⦄ (σ : Setup R) where
  record_exit-portfolio :
      (q : Position R) (id : String) (quantity : ℕ) (price : R) (reason : String) (d : Desk R)
      → (record_exit σ q id quantity price reason d).portfolio ≡ d.portfolio
  unfolding record_exit
  record_exit-portfolio q id quantity price reason d = ground arith

  sale_events-portfolio :
      (q : Position R) (state : OrderState) (reason : String) (quantity : ℕ) (price fees pnl : R)
      (d : Desk R)
      → (sale_events σ q state reason quantity price fees pnl d).portfolio ≡ d.portfolio
  unfolding sale_events
  sale_events-portfolio q state reason quantity price fees pnl d = ground arith

  -- A sale of at least one share, of no more than are held and no more than were wanted.
  pub record Sold (q : Position R) (wanted : ℕ) (tick : MarketTick R) (reason : String) (d : Desk R)
      (r : Position R × Desk R) : Type 0 where
    pub quantity : ℕ
    pub positive : 0 < quantity
    pub le_wanted : quantity ≤ wanted
    pub le_remaining : quantity ≤ q.remaining
    pub most : (quantity ≡ wanted) ⊎ (quantity ≡ q.remaining)
    pub position_after :
        let (net, fees) = exit_net (σ.costs q.market) (tick.bid ⊗ num quantity) in
        r.0 ≡ sold_position q quantity (net ⊖ q.entry_price ⊗ num quantity) fees
    pub portfolio_after :
        let (net, fees) = exit_net (σ.costs q.market) (tick.bid ⊗ num quantity) in
        r.1.portfolio
        ≡ settle_portfolio σ r.0 net reason
            (net ⊖ q.entry_price ⊗ num quantity)
            tick.received_timestamp
            d.portfolio
    pub stored : r.1.saved ≡ some r.1.portfolio

  pub sell-portfolio :
      (q : Position R) (quantity : ℕ) (tick : MarketTick R) (reason : String) (state : OrderState)
      (d : Desk R)
      → let r = sell σ q quantity tick reason state d in
        let (net, fees) = exit_net (σ.costs q.market) (tick.bid ⊗ num quantity) in
        r.1.portfolio
        ≡ settle_portfolio σ r.0 net reason
            (net ⊖ q.entry_price ⊗ num quantity)
            tick.received_timestamp
            d.portfolio
  unfolding sell with_portfolio save
  sell-portfolio q quantity tick reason state d =
      let (net, fees) = exit_net (σ.costs q.market) (tick.bid ⊗ num quantity) in
      let pnl = net ⊖ q.entry_price ⊗ num quantity in
      let q' = sold_position q quantity pnl fees in
      sale_events-portfolio q' state reason quantity tick.bid fees pnl _
      ∙ ap (settle_portfolio σ q' net reason pnl tick.received_timestamp) (
          record_exit-portfolio q (σ.uuid d.draws) quantity tick.bid reason
            (record d { draws = d.draws + 1 }))

  -- `close_quantity` changes nothing if no share is wanted or none is held. Otherwise it sells what is
  -- wanted or all that is held, whichever is less: the position has so many shares less and the profit
  -- after costs, the portfolio is settled with them, and it is stored.
  pub close_quantity-Sold :
      (q : Position R) (wanted : ℕ) (tick : MarketTick R) (reason : String) (state : OrderState)
      (d : Desk R)
      → let r = close_quantity σ q wanted tick reason state d in
        ((min wanted q.remaining ≡ 0) × (r ≡ (q, d))) ⊎ Sold q wanted tick reason d r
  unfolding close_quantity sell save
  close_quantity-Sold q wanted tick reason state d =
      let quantity = min wanted q.remaining in
      elim (Bool-cases (quantity == 0)) [
        | inl none_sold ↦ inl (ground arith, rw (none_sold, close_quantity) refl)
        | inr some_sold ↦ inr (record {
          quantity = quantity;
          positive = ground arith;
          le_wanted = ground arith;
          le_remaining = ground arith;
          most = ground arith;
          position_after = rw (some_sold, close_quantity) refl;
          portfolio_after =
              rw (some_sold, close_quantity) (sell-portfolio q quantity tick reason state d);
          stored = rw (some_sold, close_quantity) refl;
        })
      ]

  pub closed_counters-dicts :
      (cost : CostConfig R) (reason : String) (pnl : R) (received : ℕ) (p : Portfolio R)
      → let p' = closed_counters cost reason pnl received p in
        (p'.positions ≡ p.positions) × (p'.pending_orders ≡ p.pending_orders)
  unfolding closed_counters
  closed_counters-dicts cost reason pnl received p = ground arith

  settle_portfolio-SlotAt :
      (k : String) (q : Position R) (net pnl : R) (reason : String) (received : ℕ) (p : Portfolio R)
      → SlotAt k p
      → q.symbol ≡ k
      → q.remaining ≤ q.quantity
      → SlotAt k (settle_portfolio σ q net reason pnl received p)
  unfolding settle_portfolio
  settle_portfolio-SlotAt k q net pnl reason received p (qs, os) s held =
      elim (Bool-cases (q.remaining == 0)) [
        | inl sold ↦
            let cost = σ.costs q.market in
            let (same_qs, same_os) =
              closed_counters-dicts cost reason pnl received (credited net pnl p) in
            rw sold (
              subst⁻¹ (λ ps. At k (PositionAt k) (erase q.symbol ps)) same_qs
                  (At-erase k q.symbol (PositionAt k) p.positions qs),
              subst⁻¹ (At k (OrderAt k)) same_os os,
            )
        | inr open_yet ↦
            rw open_yet
              (At-insert k q.symbol (PositionAt k) q p.positions s qs (s, (ground arith, held)), os)
      ]

  Sold-SlotAt :
      (k : String) (q : Position R) (wanted : ℕ) (tick : MarketTick R) (reason : String)
      (d : Desk R) (r : Position R × Desk R)
      → SlotAt k d.portfolio
      → Held k q
      → Sold q wanted tick reason d r
      → SlotAt k r.1.portfolio × Held k r.0
  unfolding sold_position
  Sold-SlotAt k q wanted tick reason d r h (s, held) sold =
      let (net, fees) = exit_net (σ.costs q.market) (tick.bid ⊗ num sold.quantity) in
      let pnl = net ⊖ q.entry_price ⊗ num sold.quantity in
      let held' : Held k r.0 = subst⁻¹ (Held k) sold.position_after (s, omega arith) in
      (
        subst⁻¹ (SlotAt k) sold.portfolio_after (
            settle_portfolio-SlotAt k r.0 net pnl reason tick.received_timestamp d.portfolio h
              held'.0 held'.1),
        held',
      )

  pub close_quantity-SlotAt :
      (k : String) (q : Position R) (wanted : ℕ) (tick : MarketTick R) (reason : String)
      (state : OrderState) (d : Desk R)
      → SlotAt k d.portfolio
      → Held k q
      → let (q', d') = close_quantity σ q wanted tick reason state d in
        SlotAt k d'.portfolio × Held k q'
  close_quantity-SlotAt k q wanted tick reason state d h held =
      elim (close_quantity-Sold q wanted tick reason state d) [
        | inl (_, same) ↦
            subst⁻¹ (λ (r : Position R × Desk R). SlotAt k r.1.portfolio × Held k r.0) same
              (h, held)
        | inr sold ↦ Sold-SlotAt k q wanted tick reason d _ h held sold
      ]

  pub begin_exit-SlotAt :
      (k : String) (q : Position R) (tick : MarketTick R) (reason : String) (d : Desk R)
      → SlotAt k d.portfolio
      → PositionAt k q
      → let (q', d') = begin_exit σ q tick reason d in SlotAt k d'.portfolio × PositionAt k q'
  unfolding begin_exit log
  begin_exit-SlotAt k q tick reason d h ok = elim (Bool-cases (is_some q.exit_pending_at)) [
    | inl begun ↦ rw begun (h, ok)
    | inr anew ↦ rw anew (
      cancel_pending-SlotAt σ k q.symbol "EXIT_TRIGGERED" OrderState.cancelled _
          (put_position-SlotAt k _ d h ok),
      ok,
    )
  ]

  process_exit_pending-cases :
      (q : Position R) (tick : MarketTick R) (d : Desk R)
      → let r = process_exit_pending σ q tick d in
        let (q', d') =
          close_quantity σ q q.remaining tick
            (or_else q.exit_reason "STOP_LOSS")
            OrderState.closed
            d in
        (r ≡ (false, q, d)) ⊎ (r ≡ (true, q', d'))
  unfolding process_exit_pending
  process_exit_pending-cases q tick d = ground arith

  pub process_exit_pending-SlotAt :
      (k : String) (q : Position R) (tick : MarketTick R) (d : Desk R)
      → SlotAt k d.portfolio
      → Held k q
      → let (exited, q', d') = process_exit_pending σ q tick d in
        SlotAt k d'.portfolio × (exited ≡ false → (q' ≡ q) × (d' ≡ d))
  process_exit_pending-SlotAt k q tick d h held = elim (process_exit_pending-cases q tick d) [
    | inl e ↦ subst⁻¹ Kept e (h, λ _. (refl, refl))
    | inr e ↦ subst⁻¹ Kept e (
      (close_quantity-SlotAt k q q.remaining tick (or_else q.exit_reason "STOP_LOSS")
          OrderState.closed d h held).0,
      λ exited. absurd (cc),
    )
  ]
    where
      Kept : Bool × Position R × Desk R → Type 0
      Kept (exited, q', d') = SlotAt k d'.portfolio × (exited ≡ false → (q' ≡ q) × (d' ≡ d))

  pub close_each-SlotAt :
      (k : String) (qs : Dict (Position R)) (ticks : Dict (MarketTick R)) (reason : String)
      (d : Desk R)
      → SlotAt k d.portfolio
      → At k (PositionAt k) qs
      → SlotAt k (close_each σ qs ticks reason d).portfolio
  unfolding close_each
  close_each-SlotAt k [] ticks reason d h hs = h
  close_each-SlotAt k ((s, q) ∷ []) ticks reason d h (_, (sym, (_, held))) =
      elim (Option-cases (lookup s ticks)) [
        | inl e ↦ rw (e, close_each) h
        | inr (tick, e) ↦
            rw (e, close_each)
              (close_quantity-SlotAt k q q.remaining tick reason OrderState.force_closed d h
                (sym, held)).0
      ]
  close_each-SlotAt k (x ∷ y ∷ qs) ticks reason d h hs = absurd hs

  pub force_close-SlotAt :
      (k : String) (ticks : Dict (MarketTick R)) (reason : String) (d : Desk R)
      → SlotAt k d.portfolio
      → SlotAt k (force_close σ ticks reason d).portfolio
  unfolding force_close
  force_close-SlotAt k ticks reason d h =
      let h' = cancel_all-SlotAt σ k reason OrderState.force_closed d h in
      close_each-SlotAt k _ ticks reason _ h' h'.0
