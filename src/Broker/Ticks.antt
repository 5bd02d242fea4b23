-- ===== src/Broker/Ticks.antt =====
-- broker.py: `on_tick`, the reaction of an open position to a tick.
use ai_daytrader_sim.Prelude.{
  ℕ, ◌+◌, ◌*◌, String, ◌<>◌, Bool, true, false, not, ◌&&◌, ◌||◌, none, some, List, [], ◌∷◌, leb,
  ◌==◌, if◌then◌else◌, or_else,
}
use ai_daytrader_sim.Prelude.Dict.{lookup}
use ai_daytrader_sim.Float.{Float, ◌⊖◌, ◌⊗◌, ◌⊘◌, num, le, lt, fmax}
use ai_daytrader_sim.Models.{
  OrderState, MarketTick, is_open, is_trading, us_per_second, us_per_minute,
}
use ai_daytrader_sim.Models.Rule.{as_float}
use ai_daytrader_sim.Portfolio.{Position}
use ai_daytrader_sim.Rules.Names.{show}
use ai_daytrader_sim.Broker.{Setup, Desk, save}
use ai_daytrader_sim.Broker.Sessions.{cancel_pending}
use ai_daytrader_sim.Broker.Fills.{process_pending}
use ai_daytrader_sim.Broker.Exits.{put_position, close_quantity, begin_exit, process_exit_pending}

unfoldable pub member : ℕ → List ℕ → Bool
member n [] = false
member n (m ∷ ms) = m == n || member n ms

module _ {R : Type 0} ⦃f : Float R⦄ where
  -- The stop moves to the entry price after the first target, if the policy says so.
  unfoldable pub after_target : ℕ → Position R → Position R
  after_target index q =
      if index == 0 && not (q.remaining == 0) && q.exit_policy.move_stop_to_entry_after_tp1
      then record q { stop_price = fmax q.stop_price q.entry_price }
      else q

  -- `no_progress_exit_minutes` has passed and the highest price made too little of the entry price.
  unfoldable pub no_progress : MarketTick R → Position R → Bool
  no_progress tick q = elim q.exit_policy.no_progress_exit_minutes [
    | none ↦ false
    | some minutes ↦
        not (minutes == 0)
        && leb (q.opened_at + minutes * us_per_minute) tick.source_timestamp
        && lt ((q.highest_price ⊖ q.entry_price) ⊘ q.entry_price ⊗ num 100)
            q.exit_policy.no_progress_min_pct
  ]

  -- The watch on the VWAP: the position, and whether it failed for too long.
  unfoldable pub watch_vwap : MarketTick R → Position R → Position R × Bool
  watch_vwap tick q = elim q.exit_policy.exit_if_below_vwap_sec [
    | none ↦ (q, false)
    | some seconds ↦ elim (lookup "vwap_regular" tick.indicators) [
      | none ↦ (q, false)
      | some vwap ↦
          let since = or_else q.below_vwap_since tick.source_timestamp in
          if seconds == 0
          then (q, false)
          else if lt tick.bid (as_float vwap)
          then (
            record q { below_vwap_since = some since },
            leb (since + seconds * us_per_second) tick.source_timestamp,
          )
          else (record q { below_vwap_since = none }, false)
    ]
  ]

module _ {R : Type 0} ⦃f : Float R⦄ (σ : Setup R) where
  -- One target that is reached: the position and the desk after its sale.
  unfoldable pub take_profit : ℕ → ℕ → MarketTick R → Position R → Desk R → Position R × Desk R
  take_profit index quantity tick q d =
      let d' = cancel_pending σ q.symbol "TARGET_REACHED" OrderState.cancelled d in
      let marked = record q { filled_targets = index ∷ q.filled_targets } in
      let (q', d'') =
        close_quantity σ marked quantity tick ("TAKE_PROFIT_" <> show (index + 1)) OrderState.closed
          (put_position marked d') in
      let q'' = after_target index q' in
      (q'', if q'.remaining == 0 then d'' else put_position q'' d'')

  -- The loop over `position.targets`, from `index` on, with the final save.
  unfoldable pub walk_targets : ℕ → List (R × ℕ) → MarketTick R → Position R → Desk R → Desk R
  walk_targets index [] tick q d = save d
  walk_targets index ((target_price, quantity) ∷ targets) tick q d =
      let skip = walk_targets (index + 1) targets tick q d in
      let (q', d') = take_profit index quantity tick q d in
      let go_on = walk_targets (index + 1) targets tick q' d' in
      if member index q.filled_targets || quantity == 0
      then skip
      else if le target_price tick.bid
      then (if q'.remaining == 0 then d' else go_on)
      else skip

  -- What follows the stop: the time limits, the VWAP, the targets.
  unfoldable pub manage_position : MarketTick R → Position R → Desk R → Desk R
  manage_position tick q d =
      let close = λ (reason : String) (p : Position R) (e : Desk R).
        (close_quantity σ p p.remaining tick reason OrderState.closed e).1 in
      let (q', failed) = watch_vwap tick q in
      if leb (q.opened_at + q.exit_policy.max_holding_minutes * us_per_minute) tick.source_timestamp
      then close "MAX_HOLDING_TIME" q d
      else if no_progress tick q
      then close "NO_PROGRESS" q d
      else if failed
      then close "VWAP_FAILURE" q' (put_position q' d)
      else walk_targets 0 q'.targets tick q' (put_position q' d)

  -- The stop: an exit is begun, and made at once if the bid allows it.
  unfoldable pub stop_out : MarketTick R → Position R → Desk R → Desk R
  stop_out tick q d =
      let (q', d') = begin_exit σ q tick "STOP_LOSS" d in (process_exit_pending σ q' tick d').2

  -- What `on_tick` does after `_process_exit_pending` has said whether it made an exit.
  unfoldable pub resume : MarketTick R → Bool × Position R × Desk R → Desk R
  resume tick (true, q, d) = d
  resume tick (false, q, d) =
      if le tick.bid q.stop_price then stop_out tick q d else manage_position tick q d

  unfoldable pub on_position : MarketTick R → Position R → Desk R → Desk R
  on_position tick q d =
      let high = record q { highest_price = fmax q.highest_price tick.bid } in
      resume tick (process_exit_pending σ high tick (put_position high d))

  unfoldable pub on_tick : MarketTick R → Desk R → Desk R
  on_tick tick d =
      let d' = process_pending σ tick d in
      elim (lookup tick.symbol d'.portfolio.positions) [
        | none ↦ d'
        | some q ↦
            if not (is_open tick.market_status) || not (is_trading tick.symbol_status)
            then d'
            else on_position tick q d'
      ]
