-- ===== src/Broker/Sessions.antt =====
-- broker.py: cancellations, the start of a session, and the tests before an entry.
use ai_daytrader_sim.Prelude.{
  ℕ, String, ◌<>◌, Bool, false, not, ◌&&◌, Option, none, some, List, [], ◌∷◌, ltb, leb, ◌==◌,
  is_empty, if◌then◌else◌,
}
use ai_daytrader_sim.Prelude.Dict.{lookup, erase, keys}
use ai_daytrader_sim.Float.{Float, ◌⊗◌, ◌⊘◌, num, le}
use ai_daytrader_sim.Models.{Market, OrderState, CostConfig}
use ai_daytrader_sim.Portfolio.{Portfolio, PendingOrder, remaining_of}
use ai_daytrader_sim.Repository.{Event}
use ai_daytrader_sim.KisOrders.{record_cancel_order}
use ai_daytrader_sim.Broker.{Setup, Desk, save, log, with_portfolio, order_event}
use ai_daytrader_sim.Broker.Costs.{daily_risk_used}

-- The reasons that `submit_entry` gives for no order.
pub data Refusal : Type 0 where
  symbol_mismatch position_slot_occupied daily_entry_limit daily_order_limit consecutive_stop_limit
        stop_cooldown daily_risk_limit risk_reward_invalid risk_blocked order_already_submitted
        order_intent_already_recorded :
      Refusal

abbrev pub refusal_name : Refusal → String
refusal_name Refusal.symbol_mismatch = "SYMBOL_MISMATCH"
refusal_name Refusal.position_slot_occupied = "POSITION_SLOT_OCCUPIED"
refusal_name Refusal.daily_entry_limit = "DAILY_ENTRY_LIMIT"
refusal_name Refusal.daily_order_limit = "DAILY_ORDER_LIMIT"
refusal_name Refusal.consecutive_stop_limit = "CONSECUTIVE_STOP_LIMIT"
refusal_name Refusal.stop_cooldown = "STOP_COOLDOWN"
refusal_name Refusal.daily_risk_limit = "DAILY_RISK_LIMIT"
refusal_name Refusal.risk_reward_invalid = "RISK_REWARD_INVALID"
refusal_name Refusal.risk_blocked = "RISK_BLOCKED"
refusal_name Refusal.order_already_submitted = "ORDER_ALREADY_SUBMITTED"
refusal_name Refusal.order_intent_already_recorded = "ORDER_INTENT_ALREADY_RECORDED"

abbrev pub same_date : Option ℕ → ℕ → Bool
same_date none date = false
same_date (some d) date = d == date

-- `cooldown_until and timestamp < cooldown_until`
abbrev pub is_before : ℕ → Option ℕ → Bool
is_before at none = false
is_before at (some t) = ltb at t

module _ {R : Type 0} ⦃f : Float R⦄ where
  abbrev pub fresh_session : ℕ → Portfolio R → Portfolio R
  fresh_session date p = record p {
    session_date = some date;
    session_realized_pnl = num 0;
    trades_today = 0;
    order_submissions_today = 0;
    consecutive_stops = 0;
    cooldown_until = none;
  }

  -- The tests of `can_submit` after the session is set: `none` stands for `True, None`.
  unfoldable pub admission : CostConfig R → ℕ → Portfolio R → Option Refusal
  unfolding daily_risk_used
  admission cost timestamp p =
      if not (is_empty p.positions && is_empty p.pending_orders)
      then some Refusal.position_slot_occupied
      else if leb cost.max_filled_entries_per_day p.trades_today
      then some Refusal.daily_entry_limit
      else if leb cost.max_order_submissions_per_day p.order_submissions_today
      then some Refusal.daily_order_limit
      else if leb cost.consecutive_stop_limit p.consecutive_stops
      then some Refusal.consecutive_stop_limit
      else if is_before timestamp p.cooldown_until
      then some Refusal.stop_cooldown
      else if le (p.initial_cash ⊗ cost.daily_loss_limit_pct ⊘ num 100) (daily_risk_used cost p)
      then some Refusal.daily_risk_limit
      else none

module _ {R : Type 0} ⦃f : Float R⦄ (σ : Setup R) where
  -- The intent of a cancellation, if there is a recorder; its result is not read.
  unfoldable pub record_cancel : PendingOrder R → String → Desk R → Desk R
  unfolding record_cancel_order
  record_cancel o reason d =
      if σ.recording
      then record d {
        repository =
            (record_cancel_order o.order_id (o.idempotency_key <> ":CANCEL") o.plan_id o.market
              o.symbol o.exchange (remaining_of o) reason d.repository).1;
      }
      else d

  unfoldable pub cancel_pending : String → String → OrderState → Desk R → Desk R
  unfolding record_cancel order_event save with_portfolio
  cancel_pending symbol reason state d = elim (lookup symbol d.portfolio.pending_orders) [
    | none ↦ d
    | some o ↦
        let p = d.portfolio in
        let popped =
          with_portfolio (record p { pending_orders = erase symbol p.pending_orders }) d in
        save (order_event o state (record_cancel o reason popped))
  ]

  -- `for symbol in list(...): self.cancel_pending(...)`
  unfoldable pub cancel_each : List String → String → OrderState → Desk R → Desk R
  unfolding cancel_pending
  cancel_each [] reason state d = d
  cancel_each (s ∷ ss) reason state d =
      cancel_each ss reason state (cancel_pending s reason state d)

  unfoldable pub ensure_session : Market → ℕ → Desk R → Desk R
  unfolding cancel_each save log with_portfolio
  ensure_session market timestamp d =
      let date = σ.local_date market timestamp in
      if same_date d.portfolio.session_date date
      then d
      else (let begun = with_portfolio (fresh_session date d.portfolio) d in
          log (Event.paper_session_started market date) (
            save (
              cancel_each (keys d.portfolio.pending_orders) "SESSION_CHANGED" OrderState.expired
                begun)))

  unfoldable pub can_submit : Market → ℕ → Desk R → Option Refusal × Desk R
  can_submit market timestamp d =
      let d' = ensure_session market timestamp d in
      (admission (σ.costs market) timestamp d'.portfolio, d')
