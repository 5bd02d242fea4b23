-- ===== src/Broker/Quiet/Ticks.antt =====
-- `on_tick` leaves the idempotency keys and the count of submissions alone.
use ai_daytrader_sim.Prelude.{
  ℕ, ◌+◌, String, ◌<>◌, refl, Bool, true, false, not, ◌||◌, List, [], ◌∷◌, arith, inl, inr,
  Bool-cases, Option-cases, ◌==◌,
}
use ai_daytrader_sim.Prelude.Dict.{lookup}
use ai_daytrader_sim.Float.{Float, fmax}
use ai_daytrader_sim.Models.{OrderState, MarketTick, is_open, is_trading}
use ai_daytrader_sim.Portfolio.{Position}
use ai_daytrader_sim.Rules.Names.{show}
use ai_daytrader_sim.Broker.{Setup, Desk, save}
use ai_daytrader_sim.Broker.Sessions.{cancel_pending}
use ai_daytrader_sim.Broker.Fills.{process_pending}
use ai_daytrader_sim.Broker.Exits.{put_position, close_quantity, begin_exit, process_exit_pending}
use ai_daytrader_sim.Broker.Ticks.{
  after_target, take_profit, walk_targets, watch_vwap, manage_position, stop_out, resume,
  on_position, on_tick,
}
use ai_daytrader_sim.Broker.Quiet.{
  Quiet, Quiet-trans, cancel_pending-Quiet, put_position-Quiet, close_quantity-Quiet,
  process_pending-Quiet, begin_exit-Quiet, process_exit_pending-Quiet,
}

module _ {R : Type 0} ⦃f : Float R⦄ (σ : Setup R) where
  take_profit-Quiet :
      (index quantity : ℕ) (tick : MarketTick R) (q : Position R) (d : Desk R)
      → Quiet d (take_profit σ index quantity tick q d).1
  unfolding take_profit
  take_profit-Quiet index quantity tick q d =
      let marked = record q { filled_targets = index ∷ q.filled_targets } in
      let cancelled = cancel_pending σ q.symbol "TARGET_REACHED" OrderState.cancelled d in
      let (q', sold) =
        close_quantity σ marked quantity tick ("TAKE_PROFIT_" <> show (index + 1)) OrderState.closed
          (put_position marked cancelled) in
      let quiet : Quiet d sold =
        Quiet-trans d (put_position marked cancelled) sold
          (Quiet-trans d cancelled (put_position marked cancelled)
            (cancel_pending-Quiet σ q.symbol "TARGET_REACHED" OrderState.cancelled d)
            (put_position-Quiet marked cancelled))
          (close_quantity-Quiet σ marked quantity tick ("TAKE_PROFIT_" <> show (index + 1))
            OrderState.closed (put_position marked cancelled)) in
      elim (Bool-cases (q'.remaining == 0)) [
        | inl e ↦ rw e quiet
        | inr e ↦ rw e (
            Quiet-trans d sold (put_position (after_target index q') sold) quiet
              (put_position-Quiet (after_target index q') sold))
      ]

  walk_targets-Quiet :
      (index : ℕ) (targets : List (R × ℕ)) (tick : MarketTick R) (q : Position R) (d : Desk R)
      → Quiet d (walk_targets σ index targets tick q d)
  unfolding walk_targets save
  walk_targets-Quiet index [] tick q d = (refl, refl)
  walk_targets-Quiet index ((price, quantity) ∷ targets) tick q d =
      let (q', d') = take_profit σ index quantity tick q d in
      let skip = walk_targets-Quiet (index + 1) targets tick q d in
      let sale = take_profit-Quiet index quantity tick q d in
      let on =
        Quiet-trans d d' (walk_targets σ (index + 1) targets tick q' d') sale
          (walk_targets-Quiet (index + 1) targets tick q' d') in
      ground (arith, skip, sale, on)

  manage_position-Quiet :
      (tick : MarketTick R) (q : Position R) (d : Desk R) → Quiet d (manage_position σ tick q d)
  unfolding manage_position
  manage_position-Quiet tick q d =
      let q' = (watch_vwap tick q).0 in
      let put = put_position-Quiet q' d in
      let close = λ (reason : String) (p : Position R) (e : Desk R).
        close_quantity-Quiet σ p p.remaining tick reason OrderState.closed e in
      ground (
        arith,
        close "MAX_HOLDING_TIME" q d,
        close "NO_PROGRESS" q d,
        Quiet-trans d (put_position q' d)
            (close_quantity σ q' q'.remaining tick "VWAP_FAILURE" OrderState.closed
              (put_position q' d)).1
            put (close "VWAP_FAILURE" q' (put_position q' d)),
        Quiet-trans d (put_position q' d) (walk_targets σ 0 q'.targets tick q' (put_position q' d))
            put (walk_targets-Quiet 0 q'.targets tick q' (put_position q' d)),
      )

  stop_out-Quiet :
      (tick : MarketTick R) (q : Position R) (d : Desk R) → Quiet d (stop_out σ tick q d)
  unfolding stop_out
  stop_out-Quiet tick q d =
      let (q', d') = begin_exit σ q tick "STOP_LOSS" d in
      Quiet-trans d d' (process_exit_pending σ q' tick d').2
        (begin_exit-Quiet σ q tick "STOP_LOSS" d) (process_exit_pending-Quiet σ q' tick d')

  resume-Quiet :
      (tick : MarketTick R) (r : Bool × Position R × Desk R) → Quiet r.2 (resume σ tick r)
  unfolding resume
  resume-Quiet tick (true, q, d) = (refl, refl)
  resume-Quiet tick (false, q, d) =
      ground (arith, stop_out-Quiet tick q d, manage_position-Quiet tick q d)

  on_position-Quiet :
      (tick : MarketTick R) (q : Position R) (d : Desk R) → Quiet d (on_position σ tick q d)
  unfolding on_position
  on_position-Quiet tick q d =
      let high = record q { highest_price = fmax q.highest_price tick.bid } in
      let r = process_exit_pending σ high tick (put_position high d) in
      Quiet-trans d (put_position high d) (resume σ tick r) (put_position-Quiet high d) (
        Quiet-trans (put_position high d) r.2 (resume σ tick r)
          (process_exit_pending-Quiet σ high tick (put_position high d)) (resume-Quiet tick r))

  pub on_tick-Quiet : (tick : MarketTick R) (d : Desk R) → Quiet d (on_tick σ tick d)
  unfolding on_tick
  on_tick-Quiet tick d =
      let d' = process_pending σ tick d in
      let quiet = process_pending-Quiet σ tick d in
      elim (Option-cases (lookup tick.symbol d'.portfolio.positions)) [
        | inl e ↦ rw (e, on_tick) quiet
        | inr (q, e) ↦
            elim (Bool-cases
              (not (is_open tick.market_status) || not (is_trading tick.symbol_status))) [
                | inl halted ↦ rw (e, on_tick, halted) quiet
                | inr going ↦
                    rw (e, on_tick, going)
                      (Quiet-trans d d' (on_position σ tick q d') quiet
                        (on_position-Quiet tick q d'))
              ]
      ]
