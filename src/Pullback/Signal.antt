-- ===== src/Pullback/Signal.antt =====
-- What an entry signal of the strategy rests on.
use mathlib.Core.Path.{subst}
use ai_daytrader_sim.Prelude.{
  ℕ, String, ◌≡◌, refl, sym, ap, ◌∙◌, ◌⊎◌, Bool, true, false, not, ◌&&◌, ◌||◌, Option, none, some,
  List, [], ◌∷◌, arith, inl, inr, Bool-cases, Option-cases, is_empty,
}
use ai_daytrader_sim.Prelude.Dict.{Dict, lookup}
use ai_daytrader_sim.Float.{Float, num, le, lt}
use ai_daytrader_sim.Models.{MarketTick, CandidatePlan, PullbackRebreakSpec}
use ai_daytrader_sim.Models.Rule.{Value}
use ai_daytrader_sim.Pullback.{
  Phase, RuntimeState, Machine, Reading, keep, float_or, record_volume, support_intact, same_phase,
}
use ai_daytrader_sim.Pullback.Evaluate.{
  too_late, failing, conditions, other_context, follow_extremes, depth_atr, await_breakout,
  await_rebreak, follow_pullback, by_phase, enter_context, evaluate_reading,
}
use ai_daytrader_sim.Pullback.Moves.{
  same_phase-wait_pullback, same_phase-wait_rebreak, follow_extremes-phase, transition-state,
  followed_machine, intact_pullback, enter_context-phase, await_pullback-Move,
}

abbrev pub AllHold : List (String × Bool) → Type 0
AllHold [] = Unit
AllHold ((reason, passed) ∷ rest) = (passed ≡ true) × AllHold rest

failing-AllHold : (cs : List (String × Bool)) → is_empty (failing cs) ≡ true → AllHold cs
failing-AllHold [] h = tt
failing-AllHold ((reason, true) ∷ rest) h = (refl, failing-AllHold rest h)
failing-AllHold ((reason, false) ∷ rest) h = cc

module _ {R : Type 0} ⦃f : Float R⦄ where
  record_volume-pullback_high :
      (of_pullback : Bool) (tick : MarketTick R) (v : Reading R) (s : RuntimeState R)
      → (record_volume of_pullback tick v s).pullback_high ≡ s.pullback_high
  unfolding record_volume
  record_volume-pullback_high of_pullback tick v s =
      elim (Option-cases (lookup "bar_volume_1m_regular" tick.indicator_timestamps)) [
        | inl e ↦ rw (e, record_volume) refl
        | inr (at, e) ↦ rw (e, record_volume) (ground arith)
      ]

  follow_extremes-pullback_high :
      (tick : MarketTick R) (v : Reading R) (s : RuntimeState R)
      → (follow_extremes tick v s).pullback_high ≡ s.pullback_high
  unfolding follow_extremes
  follow_extremes-pullback_high tick v s =
      let above = record s {
        impulse_high = some v.last;
        pullback_low = some v.last;
        pullback_started_at = none;
        pullback_volumes = [];
      } in
      let test =
        same_phase s.phase Phase.wait_pullback && lt (float_or s.impulse_high v.last) v.last in
      elim (Bool-cases test) [
        | inl e ↦ rw (e, follow_extremes) (record_volume-pullback_high false tick v above)
        | inr e ↦ rw (e, follow_extremes) refl
      ]

module _ {R : Type 0} ⦃f : Float R⦄ (fmean : List R → R) (local_date : MarketTick R → ℕ) where
  intact_pullback-signal :
      (spec : PullbackRebreakSpec R) (plan_id : String) (c : CandidatePlan R) (tick : MarketTick R)
      (previous : Option (Dict (Value R))) (entry_allowed : Bool) (v : Reading R) (depth : R)
      (k : Machine R)
      → let (decision, k') =
          intact_pullback fmean local_date spec plan_id c tick previous entry_allowed v depth k in
        decision.signal ≡ true
        → (k.state.phase ≡ Phase.wait_rebreak)
          × AllHold (conditions spec c previous entry_allowed v k.state)
          × (k'.state.phase ≡ Phase.signal_triggered)
  unfolding await_rebreak
  intact_pullback-signal spec plan_id c tick previous entry_allowed v depth k =
      elim (Bool-cases (same_phase k.state.phase Phase.wait_pullback)) [
        | inl here ↦
            let e = same_phase-wait_pullback k.state.phase here in
            let silent = (await_pullback-Move fmean local_date spec plan_id c tick v depth k e).1 in
            rw here (λ h. cc)
        | inr past ↦ elim (Bool-cases (same_phase k.state.phase Phase.wait_rebreak)) [
          | inr beyond ↦ rw (past, beyond) (λ h. cc)
          | inl here ↦
              elim (Bool-cases (too_late spec tick.source_timestamp k.state.pullback_started_at)) [
                | inl late ↦ rw (past, here, late) (λ h. cc)
                | inr early ↦
                    elim (Bool-cases
                      (is_empty (failing (conditions spec c previous entry_allowed v k.state)))) [
                        | inr failed ↦ rw (past, here, early, failed) (λ h. cc)
                        | inl passed ↦
                            rw (past, here, early, passed)
                              (λ h. (
                                same_phase-wait_rebreak k.state.phase here,
                                failing-AllHold (conditions spec c previous entry_allowed v k.state)
                                    passed,
                                ap (λ (t : RuntimeState R). t.phase)
                                    (transition-state plan_id c tick Phase.signal_triggered
                                      "PULLBACK_REBREAK" k),
                              ))
                      ]
              ]
        ]
      ]

  -- The pullback still counts: it is no deeper than the limit, and its support holds.
  abbrev pub Intact : PullbackRebreakSpec R → MarketTick R → Reading R → RuntimeState R → Type 0
  Intact spec tick v s =
      (lt spec.pullback_depth_atr_max (depth_atr v (follow_extremes tick v s)) ≡ false)
      × (support_intact v spec.support_breach_pct_max ≡ true)

  -- What a signal from the state `s` rests on.
  abbrev pub Rebroken :
      PullbackRebreakSpec R
      → CandidatePlan R
      → MarketTick R
      → Option (Dict (Value R))
      → Bool
      → Reading R
      → RuntimeState R
      → Type 0
  Rebroken spec c tick previous entry_allowed v s =
      (s.phase ≡ Phase.wait_rebreak)
      × Intact spec tick v s
      × AllHold (conditions spec c previous entry_allowed v s)

  follow_pullback-signal :
      (spec : PullbackRebreakSpec R) (plan_id : String) (c : CandidatePlan R) (tick : MarketTick R)
      (previous : Option (Dict (Value R))) (entry_allowed : Bool) (v : Reading R) (k : Machine R)
      → let (decision, k') =
          follow_pullback fmean local_date spec plan_id c tick previous entry_allowed v k in
        decision.signal ≡ true
        → Rebroken spec c tick previous entry_allowed v k.state
          × (k'.state.phase ≡ Phase.signal_triggered)
  unfolding follow_pullback keep
  follow_pullback-signal spec plan_id c tick previous entry_allowed v k =
      let s = k.state in
      let depth = depth_atr v (follow_extremes tick v s) in
      let k' = followed_machine fmean local_date tick v k in
      let too_deep = lt spec.pullback_depth_atr_max depth in
      let supported = support_intact v spec.support_breach_pct_max in
      elim (Bool-cases (too_deep || not supported)) [
        | inl broken ↦ rw broken (λ h. cc)
        | inr intact ↦ rw intact (λ h.
            let (here, all_hold, moved) =
              intact_pullback-signal spec plan_id c tick previous entry_allowed v depth k' h in
            (
              (
                sym (follow_extremes-phase tick v s) ∙ here,
                (ground (arith, intact), ground (arith, intact)),
                subst
                    (λ high. AllHold (
                      conditions spec c previous entry_allowed v
                        (record s { pullback_high = high })))
                    (follow_extremes-pullback_high tick v s) all_hold,
              ),
              moved,
            ))
      ]

  by_phase-signal :
      (spec : PullbackRebreakSpec R) (plan_id : String) (c : CandidatePlan R) (tick : MarketTick R)
      (previous : Option (Dict (Value R))) (entry_allowed : Bool) (v : Reading R) (p : Phase)
      (k : Machine R)
      → k.state.phase ≡ p
      → let (decision, k') =
          by_phase fmean local_date spec plan_id c tick previous entry_allowed v p k in
        decision.signal ≡ true
        → ((k.state.phase ≡ Phase.signal_triggered)
            ⊎ Rebroken spec c tick previous entry_allowed v k.state)
          × (k'.state.phase ≡ Phase.signal_triggered)
  unfolding by_phase await_breakout
  by_phase-signal spec plan_id c tick previous entry_allowed v Phase.wait_breakout k e h = cc
  by_phase-signal spec plan_id c tick previous entry_allowed v Phase.signal_triggered k e h =
      (inl e, e)
  by_phase-signal spec plan_id c tick previous entry_allowed v Phase.wait_pullback k e h =
      let (rebroken, moved) =
        follow_pullback-signal spec plan_id c tick previous entry_allowed v k h in
      (inr rebroken, moved)
  by_phase-signal spec plan_id c tick previous entry_allowed v Phase.wait_rebreak k e h =
      let (rebroken, moved) =
        follow_pullback-signal spec plan_id c tick previous entry_allowed v k h in
      (inr rebroken, moved)
  by_phase-signal spec plan_id c tick previous entry_allowed v Phase.data_error k e h =
      let (rebroken, moved) =
        follow_pullback-signal spec plan_id c tick previous entry_allowed v k h in
      (inr rebroken, moved)
  by_phase-signal spec plan_id c tick previous entry_allowed v _ k e h = cc

  -- An evaluation that signals an entry was made in the session and on the connection of the one
  -- before it, if any, and leaves the phase SIGNAL_TRIGGERED. It found that phase already, or, in the
  -- state with this session and connection noted, it found WAIT_REBREAK, a pullback no deeper than the
  -- limit whose support holds, and all the conditions of a rebreak: the price crosses the high of the
  -- pullback upwards, above EMA 9 and VWAP, with RSI, relative volume, spread and market within the
  -- plan, at or above the entry's trigger price, and inside the entry window.
  pub evaluate_reading-signal :
      (spec : PullbackRebreakSpec R) (plan_id : String) (c : CandidatePlan R) (tick : MarketTick R)
      (previous : Option (Dict (Value R))) (entry_allowed : Bool) (v : Reading R) (k : Machine R)
      → let (decision, k') =
          evaluate_reading fmean local_date spec plan_id c tick previous entry_allowed v k in
        let s = (enter_context fmean local_date plan_id c tick k).state in
        decision.signal ≡ true
        → (other_context (local_date tick) tick.connection_id k.state ≡ false)
          × (k'.state.phase ≡ Phase.signal_triggered)
          × ((s.phase ≡ Phase.signal_triggered) ⊎ Rebroken spec c tick previous entry_allowed v s)
  unfolding evaluate_reading
  evaluate_reading-signal spec plan_id c tick previous entry_allowed v k =
      let k' = enter_context fmean local_date plan_id c tick k in
      let entered = enter_context-phase fmean local_date plan_id c tick k in
      elim (Bool-cases (le v.atr (num 0))) [
        | inl flat ↦ rw flat (λ h. cc)
        | inr moving ↦ rw moving (λ h.
            let (why, moved) =
              by_phase-signal spec plan_id c tick previous entry_allowed v k'.state.phase k' refl
                h in
            (
              elim (Bool-cases (other_context (local_date tick) tick.connection_id k.state)) [
                | inr same ↦ same
                | inl other ↦
                    let began : k'.state.phase ≡ Phase.wait_breakout = entered ∙ rw other refl in
                    elim why [ inl there ↦ cc | inr rebroken ↦ let there = rebroken.0 in cc ]
              ],
              moved,
              why,
            ))
      ]
