-- ===== src/Broker/Quiet.antt =====
-- What all operations but a submission leave alone: the claimed idempotency keys, and the count of the
-- day's submissions.
pub mod Ticks
pub mod Calls
use mathlib.Core.Path.{subst⁻¹}
use ai_daytrader_sim.Prelude.{
  ℕ, ◌+◌, String, ◌<>◌, ◌≡◌, refl, min, sym, ap, ◌∙◌, Bool, true, false, Option, none, some, List,
  [], ◌∷◌, arith, inl, inr, Bool-cases, Option-cases, if◌then◌else◌, leb, ◌==◌, or_else, ◌&&◌, ◌||◌,
  not, is_some,
}
use ai_daytrader_sim.Prelude.Dict.{Dict, lookup, erase, keys}
use ai_daytrader_sim.Prelude.Text.{upper}
use ai_daytrader_sim.Float.{Float, ◌⊕◌, ◌⊖◌, ◌⊗◌, num, le}
use ai_daytrader_sim.Models.{Market, OrderState, MarketTick}
use ai_daytrader_sim.Portfolio.{Portfolio, PendingOrder, Position, remaining_of}
use ai_daytrader_sim.Repository.{Repository, OrderIntent, add_event, record_kis_order_intent}
use ai_daytrader_sim.KisOrders.{store, record_new_order, record_cancel_order}
use ai_daytrader_sim.Broker.{Setup, Desk, save, log, with_portfolio, order_event}
use ai_daytrader_sim.Broker.Costs.{entry_fill, exit_net}
use ai_daytrader_sim.Broker.Sessions.{record_cancel, cancel_pending, cancel_each}
use ai_daytrader_sim.Broker.Fills.{
  visible_quantity, fill_events, filled_portfolio, apply_entry_fill, try_fill, process_order,
  process_pending,
}
use ai_daytrader_sim.Broker.Exits.{
  put_position, record_exit, settle_portfolio, credited, closed_counters, sale_events, sell,
  close_quantity, close_each, force_close, begin_exit, process_exit_pending,
}

abbrev pub Quiet : {R : Type 0} → Desk R → Desk R → Type 0
Quiet d d' =
    (d'.repository.idempotency_keys ≡ d.repository.idempotency_keys)
    × (d'.portfolio.order_submissions_today ≡ d.portfolio.order_submissions_today)

pub Quiet-trans : {R : Type 0} (a b c : Desk R) → Quiet a b → Quiet b c → Quiet a c
Quiet-trans a b c (p, q) (r, s) = (r ∙ p, s ∙ q)

pub store-keys :
    {R : Type 0} ⦃f : Float R⦄ (i : OrderIntent R) (r : Repository R)
    → (store i r).1.idempotency_keys ≡ r.idempotency_keys
unfolding store record_kis_order_intent add_event
store-keys i r = ground arith

module _ {R : Type 0} ⦃f : Float R⦄ where
  pub put_position-Quiet : (q : Position R) (d : Desk R) → Quiet d (put_position q d)
  unfolding put_position with_portfolio
  put_position-Quiet q d = (refl, refl)

module _ {R : Type 0} ⦃f : Float R⦄ (σ : Setup R) where
  record_cancel-Quiet :
      (o : PendingOrder R) (reason : String) (d : Desk R) → Quiet d (record_cancel σ o reason d)
  unfolding record_cancel record_cancel_order
  record_cancel-Quiet o reason d = elim (Bool-cases σ.recording) [
    | inl e ↦ rw e (store-keys _ d.repository, refl)
    | inr e ↦ rw e (refl, refl)
  ]

  pub cancel_pending-Quiet :
      (symbol reason : String) (state : OrderState) (d : Desk R)
      → Quiet d (cancel_pending σ symbol reason state d)
  unfolding cancel_pending order_event log save with_portfolio add_event
  cancel_pending-Quiet symbol reason state d =
      elim (Option-cases (lookup symbol d.portfolio.pending_orders)) [
        | inl e ↦ rw (e, cancel_pending) (refl, refl)
        | inr (o, e) ↦
            rw (e, cancel_pending)
              (record_cancel-Quiet o reason (
                with_portfolio
                  (record (d.portfolio) {
                    pending_orders = erase symbol d.portfolio.pending_orders;
                  })
                  d))
      ]

  pub cancel_each-Quiet :
      (ss : List String) (reason : String) (state : OrderState) (d : Desk R)
      → Quiet d (cancel_each σ ss reason state d)
  unfolding cancel_each
  cancel_each-Quiet [] reason state d = (refl, refl)
  cancel_each-Quiet (s ∷ ss) reason state d =
      let d' = cancel_pending σ s reason state d in
      Quiet-trans d d' (cancel_each σ ss reason state d') (cancel_pending-Quiet s reason state d)
        (cancel_each-Quiet ss reason state d')

  apply_entry_fill-Quiet :
      (o : PendingOrder R) (tick : MarketTick R) (wanted : ℕ) (execution fee : R) (d : Desk R)
      → Quiet d (apply_entry_fill o tick wanted execution fee d)
  unfolding apply_entry_fill fill_events filled_portfolio order_event log save with_portfolio
      add_event
  apply_entry_fill-Quiet o tick wanted execution fee d = ground arith

  process_order-Quiet :
      (o : PendingOrder R) (tick : MarketTick R) (d : Desk R) → Quiet d (process_order σ o tick d)
  unfolding process_order try_fill
  process_order-Quiet o tick d =
      let cost = σ.costs tick.market in
      let (execution, fee) = entry_fill cost tick.ask o.limit_price in
      ground (
        arith,
        cancel_pending-Quiet tick.symbol "MARKET_HALTED" OrderState.market_halted d,
        cancel_pending-Quiet tick.symbol "FILL_TIMEOUT" OrderState.expired d,
        apply_entry_fill-Quiet o tick (min (remaining_of o) (visible_quantity cost tick)) execution
            fee d,
      )

  pub process_pending-Quiet :
      (tick : MarketTick R) (d : Desk R) → Quiet d (process_pending σ tick d)
  unfolding process_pending
  process_pending-Quiet tick d =
      elim (Option-cases (lookup tick.symbol d.portfolio.pending_orders)) [
        | inl e ↦ rw (e, process_pending) (refl, refl)
        | inr (o, e) ↦ rw (e, process_pending) (process_order-Quiet o tick d)
      ]

  record_exit-Quiet :
      (q : Position R) (id : String) (quantity : ℕ) (price : R) (reason : String) (d : Desk R)
      → Quiet d (record_exit σ q id quantity price reason d)
  unfolding record_exit record_new_order
  record_exit-Quiet q id quantity price reason d = elim (Bool-cases σ.recording) [
    | inl e ↦ rw e (store-keys _ d.repository, refl)
    | inr e ↦ rw e (refl, refl)
  ]

  settle_portfolio-submissions :
      (q : Position R) (net : R) (reason : String) (pnl : R) (received : ℕ) (p : Portfolio R)
      → (settle_portfolio σ q net reason pnl received p).order_submissions_today
        ≡ p.order_submissions_today
  unfolding settle_portfolio credited closed_counters
  settle_portfolio-submissions q net reason pnl received p = ground arith

  sale_events-Quiet :
      (q : Position R) (state : OrderState) (reason : String) (quantity : ℕ) (price fees pnl : R)
      (d : Desk R)
      → Quiet d (sale_events σ q state reason quantity price fees pnl d)
  unfolding sale_events log add_event
  sale_events-Quiet q state reason quantity price fees pnl d = ground arith

  sell-Quiet :
      (q : Position R) (quantity : ℕ) (tick : MarketTick R) (reason : String) (state : OrderState)
      (d : Desk R)
      → Quiet d (sell σ q quantity tick reason state d).1
  unfolding sell save with_portfolio
  sell-Quiet q quantity tick reason state d =
      let drawn = record d { draws = d.draws + 1 } in
      let recorded = record_exit σ q (σ.uuid d.draws) quantity tick.bid reason drawn in
      let (k, n) = record_exit-Quiet q (σ.uuid d.draws) quantity tick.bid reason drawn in
      let (k', n') = sale_events-Quiet _ state reason quantity tick.bid _ _ _ in
      (
        k' ∙ k,
        n'
            ∙ settle_portfolio-submissions _ _ reason _ tick.received_timestamp recorded.portfolio
            ∙ n,
      )

  pub close_quantity-Quiet :
      (q : Position R) (wanted : ℕ) (tick : MarketTick R) (reason : String) (state : OrderState)
      (d : Desk R)
      → Quiet d (close_quantity σ q wanted tick reason state d).1
  unfolding close_quantity
  close_quantity-Quiet q wanted tick reason state d =
      ground (arith, sell-Quiet q (min wanted q.remaining) tick reason state d)

  pub close_each-Quiet :
      (qs : Dict (Position R)) (ticks : Dict (MarketTick R)) (reason : String) (d : Desk R)
      → Quiet d (close_each σ qs ticks reason d)
  unfolding close_each
  close_each-Quiet [] ticks reason d = (refl, refl)
  close_each-Quiet ((s, q) ∷ qs) ticks reason d = elim (Option-cases (lookup s ticks)) [
    | inl e ↦ rw (e, close_each) (close_each-Quiet qs ticks reason d)
    | inr (tick, e) ↦
        let closed = (close_quantity σ q q.remaining tick reason OrderState.force_closed d).1 in
        rw (e, close_each)
          (Quiet-trans d closed (close_each σ qs ticks reason closed)
            (close_quantity-Quiet q q.remaining tick reason OrderState.force_closed d)
            (close_each-Quiet qs ticks reason closed))
  ]

  pub force_close-Quiet :
      (ticks : Dict (MarketTick R)) (reason : String) (d : Desk R)
      → Quiet d (force_close σ ticks reason d)
  unfolding force_close
  force_close-Quiet ticks reason d =
      let cleared =
        cancel_each σ (keys d.portfolio.pending_orders) reason OrderState.force_closed d in
      Quiet-trans d cleared (close_each σ cleared.portfolio.positions ticks reason cleared)
        (cancel_each-Quiet (keys d.portfolio.pending_orders) reason OrderState.force_closed d)
        (close_each-Quiet cleared.portfolio.positions ticks reason cleared)

  pub begin_exit-Quiet :
      (q : Position R) (tick : MarketTick R) (reason : String) (d : Desk R)
      → Quiet d (begin_exit σ q tick reason d).1
  unfolding begin_exit log add_event put_position with_portfolio
  begin_exit-Quiet q tick reason d = elim (Bool-cases (is_some q.exit_pending_at)) [
    | inl e ↦ rw e (refl, refl)
    | inr e ↦ rw e (cancel_pending-Quiet q.symbol "EXIT_TRIGGERED" OrderState.cancelled _)
  ]

  pub process_exit_pending-Quiet :
      (q : Position R) (tick : MarketTick R) (d : Desk R)
      → Quiet d (process_exit_pending σ q tick d).2
  unfolding process_exit_pending
  process_exit_pending-Quiet q tick d = elim (Option-cases q.exit_pending_at) [
    | inl e ↦ rw (e, process_exit_pending) (refl, refl)
    | inr (since, e) ↦
        rw (e, process_exit_pending)
          (ground (
            arith,
            close_quantity-Quiet q q.remaining tick (or_else q.exit_reason "STOP_LOSS")
                OrderState.closed d,
          ))
  ]
