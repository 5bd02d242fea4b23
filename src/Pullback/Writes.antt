-- ===== src/Pullback/Writes.antt =====
-- What the strategy writes to the tables: rows of its own and events, no idempotency key.
use ai_daytrader_sim.Prelude.{
  ℕ, String, ◌≡◌, refl, ◌∙◌, Bool, true, false, Option, none, some, List, arith, inl, inr,
  Bool-cases, Option-cases, or_else,
}
use ai_daytrader_sim.Prelude.Dict.{Dict}
use ai_daytrader_sim.Float.{Float, num, le}
use ai_daytrader_sim.Models.{MarketTick, CandidatePlan, PullbackRebreakSpec}
use ai_daytrader_sim.Models.Rule.{Value}
use ai_daytrader_sim.Repository.{add_event}
use ai_daytrader_sim.Pullback.{
  Phase, Decision, Machine, Reading, reading, keep, store_state, transition, reset, mark_submission,
  mark_terminal, same_phase,
}
use ai_daytrader_sim.Pullback.Evaluate.{
  await_breakout, await_pullback, await_rebreak, follow_extremes, depth_atr, follow_pullback,
  by_phase, enter_context, evaluate_reading, evaluate, other_context,
}

abbrev pub keys_of : {R : Type 0} → Machine R → List String
keys_of k = k.repository.idempotency_keys

-- A change of the machine keeps the keys.
abbrev pub KeepsKeys : {R : Type 0} → (Machine R → Machine R) → Type 0
KeepsKeys {R} change = (k : Machine R) → keys_of (change k) ≡ keys_of k

module _ {R : Type 0} where
  pub transition-KeepsKeys :
      (plan_id : String) (c : CandidatePlan R) (tick : MarketTick R) (phase : Phase)
      (reason : String)
      → KeepsKeys (transition plan_id c tick phase reason)
  unfolding transition keep store_state add_event
  transition-KeepsKeys plan_id c tick phase reason k =
      elim (Bool-cases (same_phase k.state.phase phase)) [ inl e ↦ rw e refl | inr e ↦ rw e refl ]

  pub mark_submission-KeepsKeys :
      (plan_id : String) (c : CandidatePlan R) (tick : MarketTick R) (accepted : Bool)
      (reason : Option String)
      → KeepsKeys (mark_submission plan_id c tick accepted reason)
  unfolding mark_submission
  mark_submission-KeepsKeys plan_id c tick true reason k =
      transition-KeepsKeys plan_id c tick Phase.entry_pending "ORDER_SUBMITTED" k
  mark_submission-KeepsKeys plan_id c tick false reason k =
      transition-KeepsKeys plan_id c tick Phase.risk_blocked (or_else reason "RISK_BLOCKED") k

  pub mark_terminal-KeepsKeys :
      (plan_id : String) (c : CandidatePlan R) (tick : MarketTick R) (phase : Phase)
      (reason : String)
      → KeepsKeys (mark_terminal plan_id c tick phase reason)
  unfolding mark_terminal
  mark_terminal-KeepsKeys = transition-KeepsKeys

  pub reset-KeepsKeys :
      (local_date : MarketTick R → ℕ) (plan_id : String) (c : CandidatePlan R) (tick : MarketTick R)
      (reason : String)
      → KeepsKeys (reset local_date plan_id c tick reason)
  unfolding reset transition keep store_state add_event
  reset-KeepsKeys local_date plan_id c tick reason k =
      elim (Bool-cases (same_phase k.state.phase Phase.wait_breakout)) [
        | inl e ↦ rw e refl
        | inr e ↦ rw e refl
      ]

module _ {R : Type 0} ⦃f : Float R⦄ where
  await_breakout-keys :
      (spec : PullbackRebreakSpec R) (plan_id : String) (c : CandidatePlan R) (tick : MarketTick R)
      (previous : Option (Dict (Value R))) (v : Reading R) (k : Machine R)
      → keys_of (await_breakout spec plan_id c tick previous v k).1 ≡ keys_of k
  unfolding await_breakout transition keep store_state add_event
  await_breakout-keys spec plan_id c tick previous v k = ground arith

module _ {R : Type 0} ⦃f : Float R⦄ (fmean : List R → R) (local_date : MarketTick R → ℕ) where
  await_pullback-keys :
      (spec : PullbackRebreakSpec R) (plan_id : String) (c : CandidatePlan R) (tick : MarketTick R)
      (v : Reading R) (depth : R) (k : Machine R)
      → keys_of (await_pullback fmean local_date spec plan_id c tick v depth k).1 ≡ keys_of k
  unfolding await_pullback reset transition keep store_state add_event
  await_pullback-keys spec plan_id c tick v depth k = ground arith

  await_rebreak-keys :
      (spec : PullbackRebreakSpec R) (plan_id : String) (c : CandidatePlan R) (tick : MarketTick R)
      (previous : Option (Dict (Value R))) (entry_allowed : Bool) (v : Reading R) (k : Machine R)
      → keys_of (await_rebreak fmean local_date spec plan_id c tick previous entry_allowed v k).1
        ≡ keys_of k
  unfolding await_rebreak reset transition keep store_state add_event
  await_rebreak-keys spec plan_id c tick previous entry_allowed v k = ground arith

  follow_pullback-keys :
      (spec : PullbackRebreakSpec R) (plan_id : String) (c : CandidatePlan R) (tick : MarketTick R)
      (previous : Option (Dict (Value R))) (entry_allowed : Bool) (v : Reading R) (k : Machine R)
      → keys_of (follow_pullback fmean local_date spec plan_id c tick previous entry_allowed v k).1
        ≡ keys_of k
  unfolding follow_pullback keep
  follow_pullback-keys spec plan_id c tick previous entry_allowed v k =
      let followed = follow_extremes tick v k.state in
      let depth = depth_atr v followed in
      let k' = keep (record followed { pullback_depth_atr = some depth }) k in
      ground (
        arith,
        reset-KeepsKeys local_date plan_id c tick "PULLBACK_INVALIDATED" k',
        await_pullback-keys spec plan_id c tick v depth k',
        await_rebreak-keys spec plan_id c tick previous entry_allowed v k',
      )

  by_phase-keys :
      (spec : PullbackRebreakSpec R) (plan_id : String) (c : CandidatePlan R) (tick : MarketTick R)
      (previous : Option (Dict (Value R))) (entry_allowed : Bool) (v : Reading R) (p : Phase)
      (k : Machine R)
      → keys_of (by_phase fmean local_date spec plan_id c tick previous entry_allowed v p k).1
        ≡ keys_of k
  unfolding by_phase
  by_phase-keys spec plan_id c tick previous entry_allowed v Phase.wait_breakout k =
      await_breakout-keys spec plan_id c tick previous v k
  by_phase-keys spec plan_id c tick previous entry_allowed v Phase.wait_pullback k =
      follow_pullback-keys spec plan_id c tick previous entry_allowed v k
  by_phase-keys spec plan_id c tick previous entry_allowed v Phase.wait_rebreak k =
      follow_pullback-keys spec plan_id c tick previous entry_allowed v k
  by_phase-keys spec plan_id c tick previous entry_allowed v Phase.data_error k =
      follow_pullback-keys spec plan_id c tick previous entry_allowed v k
  by_phase-keys spec plan_id c tick previous entry_allowed v p k = refl

  enter_context-keys :
      (plan_id : String) (c : CandidatePlan R) (tick : MarketTick R) (k : Machine R)
      → keys_of (enter_context fmean local_date plan_id c tick k) ≡ keys_of k
  unfolding enter_context keep
  enter_context-keys plan_id c tick k =
      elim (Bool-cases (other_context (local_date tick) tick.connection_id k.state)) [
        | inl e ↦ rw e (reset-KeepsKeys local_date plan_id c tick "DATA_CONTEXT_RESET" k)
        | inr e ↦ rw e refl
      ]

  evaluate_reading-keys :
      (spec : PullbackRebreakSpec R) (plan_id : String) (c : CandidatePlan R) (tick : MarketTick R)
      (previous : Option (Dict (Value R))) (entry_allowed : Bool) (v : Reading R) (k : Machine R)
      → keys_of (evaluate_reading fmean local_date spec plan_id c tick previous entry_allowed v k).1
        ≡ keys_of k
  unfolding evaluate_reading
  evaluate_reading-keys spec plan_id c tick previous entry_allowed v k =
      let k' = enter_context fmean local_date plan_id c tick k in
      elim (Bool-cases (le v.atr (num 0))) [
        | inl e ↦ rw e (enter_context-keys plan_id c tick k)
        | inr e ↦ rw e (
            by_phase-keys spec plan_id c tick previous entry_allowed v k'.state.phase k'
            ∙ enter_context-keys plan_id c tick k)
      ]

  -- What an evaluation leaves, if it does not raise, has the keys of what it began with.
  abbrev pub Evaluated : Machine R → Option (Decision × Machine R) → Type 0
  Evaluated k none = Unit
  Evaluated k (some (decision, k')) = keys_of k' ≡ keys_of k

  pub evaluate-Evaluated :
      (plan_id : String) (c : CandidatePlan R) (tick : MarketTick R)
      (previous : Option (Dict (Value R))) (entry_allowed : Bool) (k : Machine R)
      → Evaluated k (evaluate fmean local_date plan_id c tick previous entry_allowed k)
  unfolding evaluate
  evaluate-Evaluated plan_id c tick previous entry_allowed k =
      elim (Option-cases c.pullback_rebreak) [
        | inl e ↦ rw (e, evaluate) refl
        | inr (spec, e) ↦ elim (Option-cases (reading tick)) [
          | inl q ↦ rw (e, evaluate, q) tt
          | inr (v, q) ↦
              rw (e, evaluate, q)
                (evaluate_reading-keys spec plan_id c tick previous entry_allowed v k)
        ]
      ]
