-- ===== src/Engine/Entry.antt =====
-- engine.py: `_try_entry`.
use ai_daytrader_sim.Prelude.{
  ℕ, String, ◌<>◌, Bool, true, false, not, Option, none, some, List, [], ◌∷◌, str_eq, is_empty,
  is_some, or_else, if◌then◌else◌,
}
use ai_daytrader_sim.Prelude.Dict.{Dict, lookup}
use ai_daytrader_sim.Prelude.Text.{upper}
use ai_daytrader_sim.Float.{Float}
use ai_daytrader_sim.Models.{
  OrderState, PlanStatus, StrategyType, CandidatePlan, TradePlan, MarketTick,
}
use ai_daytrader_sim.Models.Rule.{Value}
use ai_daytrader_sim.MarketClock.{Calendar}
use ai_daytrader_sim.Repository.{latest_order_state}
use ai_daytrader_sim.Repository.Plans.{set_plan_status}
use ai_daytrader_sim.Rules.{evaluate_group}
use ai_daytrader_sim.Pullback.{
  Phase, phase_name, same_phase, Decision, Machine, mark_submission, mark_terminal,
}
use ai_daytrader_sim.Pullback.Evaluate.{evaluate}
use ai_daytrader_sim.Broker.{Setup}
use ai_daytrader_sim.Broker.Sessions.{Refusal, refusal_name}
use ai_daytrader_sim.Broker.Entries.{submit_entry}
use ai_daytrader_sim.Broker.Markets.{desk, on_desk}
use ai_daytrader_sim.Engine.{
  Core, FeedState, write, log_rejection, machine, put_machine, on_machine, context, lookup2,
  insert2,
}
use ai_daytrader_sim.Engine.Ready.{is_rules, eligible_time, entry_reasons}

-- The phase that an order which ended leaves, with the state's name; no other state ends an order here.
abbrev pub ended_phase : OrderState → Option (Phase × String)
ended_phase OrderState.expired = some (Phase.expired, "EXPIRED")
ended_phase OrderState.cancelled = some (Phase.cancelled, "CANCELLED")
ended_phase OrderState.market_halted = some (Phase.cancelled, "MARKET_HALTED")
ended_phase OrderState.force_closed = some (Phase.closed, "FORCE_CLOSED")
ended_phase OrderState.closed = some (Phase.closed, "CLOSED")
ended_phase _ = none

abbrev pub reason_of : Option Refusal → Option String
reason_of none = none
reason_of (some r) = some (refusal_name r)

module _ {R : Type 0} ⦃f : Float R⦄ where
  unfoldable pub mark : String → CandidatePlan R → MarketTick R → Phase → String → Core R → Core R
  unfolding on_machine mark_terminal
  mark plan_id candidate tick phase reason =
      on_machine plan_id candidate.symbol (mark_terminal plan_id candidate tick phase reason)

  -- `ENTRY_PENDING` with an order that has ended since: the end is marked. `none` to go on.
  unfoldable pub after_pending : String → CandidatePlan R → MarketTick R → Core R → Option (Core R)
  unfolding mark machine latest_order_state
  after_pending plan_id candidate tick k =
      if not (same_phase (machine plan_id candidate.symbol k).state.phase Phase.entry_pending)
      then none
      else elim (latest_order_state plan_id candidate.symbol k.broker.repository) [
        | none ↦ none
        | some latest ↦ elim (ended_phase latest) [
          | none ↦ none
          | some (phase, name) ↦ some (mark plan_id candidate tick phase ("ORDER_" <> name) k)
        ]
      ]

  -- The part of `_try_entry` that follows a position or an order of the plan. `none` to go on.
  unfoldable pub follow_execution :
      String → CandidatePlan R → MarketTick R → Core R → Option (Core R)
  unfolding mark after_pending on_machine mark_submission desk
  follow_execution plan_id candidate tick k =
      let p = (desk tick.market k.broker).portfolio in
      let held : Bool = elim (lookup candidate.symbol p.positions) [
        | none ↦ false
        | some q ↦ str_eq q.plan_id plan_id
      ] in
      let ordered : Bool = elim (lookup candidate.symbol p.pending_orders) [
        | none ↦ false
        | some o ↦ str_eq o.plan_id plan_id
      ] in
      if held
      then some (mark plan_id candidate tick Phase.position_open "POSITION_CONFIRMED" k)
      else if ordered
      then some (
          on_machine plan_id candidate.symbol
            (mark_submission plan_id candidate tick true (some "ORDER_CONFIRMED")) k)
      else after_pending plan_id candidate tick k

  -- What `_try_entry` does with the broker's answer: the mark of a pullback, and the event or the
  -- plan's status, set at the time `now`.
  unfoldable pub conclude_entry :
      String → CandidatePlan R → MarketTick R → ℕ → Option Refusal → Core R → Core R
  unfolding on_machine mark_submission write log_rejection set_plan_status
  conclude_entry plan_id candidate tick now blocked k =
      let marked =
        if is_rules candidate.strategy_type
        then k
        else on_machine plan_id candidate.symbol
            (mark_submission plan_id candidate tick (not (is_some blocked)) (reason_of blocked))
            k in
      elim blocked [
        | none ↦ write (set_plan_status plan_id PlanStatus.running now) marked
        | some r ↦ log_rejection tick (some plan_id) (refusal_name r ∷ []) "ENTRY_REJECTED" marked
      ]

module _ {R : Type 0} ⦃f : Float R⦄ (σ : Setup R) where
  unfoldable pub submit : String → CandidatePlan R → MarketTick R → ℕ → Core R → Core R
  unfolding on_desk desk submit_entry conclude_entry
  submit plan_id candidate tick now k =
      let b = k.broker in
      let blocked = (submit_entry σ plan_id candidate tick (desk tick.market b)).0 in
      conclude_entry plan_id candidate tick now blocked (record k {
        broker = on_desk tick.market (λ d. (submit_entry σ plan_id candidate tick d).1) b;
      })

  -- The rules of the candidate, over the values of the tick and those before.
  unfoldable pub try_rules :
      String → CandidatePlan R → MarketTick R → ℕ → Option (Dict (Value R)) → Core R → Core R
  unfolding submit evaluate_group context log_rejection upper
  try_rules plan_id candidate tick now previous k =
      let symbol = upper tick.symbol in
      let states = or_else (lookup2 symbol plan_id k.cross_states) [] in
      let (result, states') =
        evaluate_group "root" candidate.entry.rules (context tick) previous states
          tick.source_timestamp in
      let noted = record k { cross_states = insert2 symbol plan_id states' k.cross_states } in
      if candidate.entry.price_only
      then submit plan_id candidate tick now k
      else if result
      then submit plan_id candidate tick now noted
      else log_rejection tick (some plan_id) ("INDICATOR_RULES_NOT_MET" ∷ []) "ENTRY_REJECTED" noted

module _ {R : Type 0} ⦃f : Float R⦄ (σ : Setup R) (c : Calendar) (fmean : List R → R) where
  abbrev pub tick_date : MarketTick R → ℕ
  tick_date tick = c.local_date tick.market tick.source_timestamp

  -- What `_try_entry` does with the decision of the strategy.
  unfoldable pub act_on :
      String → CandidatePlan R → MarketTick R → ℕ → Option (Decision × Machine R) → Core R → Core R
  unfolding submit put_machine log_rejection
  act_on plan_id candidate tick now none k = k
  act_on plan_id candidate tick now (some (decision, s)) k =
      let evaluated = put_machine plan_id candidate.symbol s k in
      if decision.signal
      then submit σ plan_id candidate tick now evaluated
      else log_rejection tick (some plan_id)
          (("PULLBACK_" <> phase_name decision.phase) ∷ decision.reasons) "ENTRY_REJECTED" evaluated

  -- No decision stands for the `KeyError` of a missing indicator, all of which the gates have seen.
  unfoldable pub try_pullback :
      String → CandidatePlan R → MarketTick R → ℕ → Option (Dict (Value R)) → Core R → Core R
  unfolding follow_execution act_on evaluate machine eligible_time
  try_pullback plan_id candidate tick now previous k =
      elim (follow_execution plan_id candidate tick k) [
        | some done ↦ done
        | none ↦
            act_on plan_id candidate tick now
              (evaluate fmean tick_date plan_id candidate tick previous
                (eligible_time c candidate tick) (machine plan_id candidate.symbol k))
              k
      ]

  unfoldable pub try_entry :
      TradePlan R
      → CandidatePlan R
      → MarketTick R
      → FeedState
      → ℕ
      → Option (Dict (Value R))
      → Core R
      → Core R
  unfolding entry_reasons log_rejection try_rules try_pullback
  try_entry plan candidate tick feed now previous k =
      let reasons = entry_reasons c (σ.costs tick.market) candidate tick feed in
      if not (is_empty reasons)
      then log_rejection tick (some plan.plan_id) reasons "ENTRY_REJECTED" k
      else elim candidate.strategy_type [
        | StrategyType.pullback_rebreak ↦ try_pullback plan.plan_id candidate tick now previous k
        | StrategyType.rules ↦ try_rules σ plan.plan_id candidate tick now previous k
      ]
