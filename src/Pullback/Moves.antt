-- ===== src/Pullback/Moves.antt =====
-- The phases that one evaluation of the strategy can lead to.
use mathlib.Core.Path.{subst, subst⁻¹}
use ai_daytrader_sim.Prelude.{
  ℕ, ◌+◌, String, ◌≡◌, refl, ap, ◌∙◌, Bool, true, false, not, ◌&&◌, ◌||◌, Option, none, some, List,
  [], ◌∷◌, arith, inl, inr, Bool-cases, Option-cases, ltb, leb, ◌==◌, if◌then◌else◌, is_empty,
  or_else,
}
use ai_daytrader_sim.Prelude.Dict.{Dict, lookup}
use ai_daytrader_sim.Float.{Float, num, le, lt, fmax, fmin}
use ai_daytrader_sim.Models.{MarketTick, CandidatePlan, PullbackRebreakSpec}
use ai_daytrader_sim.Models.Rule.{Value}
use ai_daytrader_sim.Pullback.{
  Phase, RuntimeState, Decision, Machine, Reading, keep, store_state, transition, reset,
  reset_values, float_or, crossed_over, record_volume, support_intact, volume_ratio, same_phase,
}
use ai_daytrader_sim.Pullback.Evaluate.{
  answer, strong, rsi_ready, volume_ready, too_late, failing, conditions, other_context,
  follow_breakout, breakout_confirmed, await_breakout, follow_extremes, depth_atr, await_pullback,
  await_rebreak, follow_pullback, by_phase, enter_context, evaluate_reading,
}

-- One step forward, a step back to the start, or none.
pub data Move : Phase → Phase → Type 0 where
  stayed : (p : Phase) → Move p p
  restarted : (p : Phase) → Move p Phase.wait_breakout
  broke_out : Move Phase.wait_breakout Phase.wait_pullback
  pulled_back : Move Phase.wait_pullback Phase.wait_rebreak
  rebroke : Move Phase.wait_rebreak Phase.signal_triggered

Move-to : {p q r : Phase} → q ≡ r → Move p r → Move p q
Move-to {p} e m = subst⁻¹ (Move p) e m

pub same_phase-wait_pullback :
    (p : Phase) → same_phase p Phase.wait_pullback ≡ true → p ≡ Phase.wait_pullback
same_phase-wait_pullback Phase.wait_pullback h = refl
same_phase-wait_pullback _ h = cc

pub same_phase-wait_rebreak :
    (p : Phase) → same_phase p Phase.wait_rebreak ≡ true → p ≡ Phase.wait_rebreak
same_phase-wait_rebreak Phase.wait_rebreak h = refl
same_phase-wait_rebreak _ h = cc

module _ {R : Type 0} where
  pub transition-state :
      (plan_id : String) (c : CandidatePlan R) (tick : MarketTick R) (phase : Phase)
      (reason : String) (k : Machine R)
      → (transition plan_id c tick phase reason k).state ≡ record (k.state) { phase = phase }
  unfolding transition keep store_state
  transition-state plan_id c tick phase reason k =
      elim (Bool-cases (same_phase k.state.phase phase)) [ inl e ↦ rw e refl | inr e ↦ rw e refl ]

  pub reset-phase :
      (local_date : MarketTick R → ℕ) (plan_id : String) (c : CandidatePlan R) (tick : MarketTick R)
      (reason : String) (k : Machine R)
      → (reset local_date plan_id c tick reason k).state.phase ≡ Phase.wait_breakout
  unfolding reset
  reset-phase local_date plan_id c tick reason k =
      let s = record (reset_values k.state) {
        session_date = some (local_date tick);
        connection_id = some tick.connection_id;
      } in
      ap (λ (t : RuntimeState R). t.phase)
        (transition-state plan_id c tick Phase.wait_breakout reason (keep s k))

module _ {R : Type 0} ⦃f : Float R⦄ where
  record_volume-phase :
      (of_pullback : Bool) (tick : MarketTick R) (v : Reading R) (s : RuntimeState R)
      → (record_volume of_pullback tick v s).phase ≡ s.phase
  unfolding record_volume
  record_volume-phase of_pullback tick v s =
      elim (Option-cases (lookup "bar_volume_1m_regular" tick.indicator_timestamps)) [
        | inl e ↦ rw (e, record_volume) refl
        | inr (at, e) ↦ rw (e, record_volume) (ground arith)
      ]

  follow_breakout-phase :
      (crossed is_strong : Bool) (now : ℕ) (v : Reading R) (s : RuntimeState R)
      → (follow_breakout crossed is_strong now v s).phase ≡ s.phase
  unfolding follow_breakout
  follow_breakout-phase crossed is_strong now v s = ground arith

  pub follow_extremes-phase :
      (tick : MarketTick R) (v : Reading R) (s : RuntimeState R)
      → (follow_extremes tick v s).phase ≡ s.phase
  unfolding follow_extremes
  follow_extremes-phase tick v s =
      let above = record s {
        impulse_high = some v.last;
        pullback_low = some v.last;
        pullback_started_at = none;
        pullback_volumes = [];
      } in
      let test =
        same_phase s.phase Phase.wait_pullback && lt (float_or s.impulse_high v.last) v.last in
      elim (Bool-cases test) [
        | inl e ↦ rw (e, follow_extremes) (record_volume-phase false tick v above)
        | inr e ↦ rw (e, follow_extremes) refl
      ]

  confirm-Move :
      (spec : PullbackRebreakSpec R) (plan_id : String) (c : CandidatePlan R) (tick : MarketTick R)
      (now : ℕ) (s : RuntimeState R) (k : Machine R)
      → s.phase ≡ Phase.wait_breakout
      → Move Phase.wait_breakout
          (if breakout_confirmed spec now s
            then transition plan_id c tick Phase.wait_pullback "BREAKOUT_CONFIRMED"
                (keep (record s { prior_breakout_confirmed = true; breakout_at = some now }) k)
            else store_state (keep s k)).state.phase
  unfolding keep store_state
  confirm-Move spec plan_id c tick now s k e = elim (Bool-cases (breakout_confirmed spec now s)) [
    | inl sure ↦ rw sure (
        Move-to
          (ap (λ (t : RuntimeState R). t.phase)
            (transition-state plan_id c tick Phase.wait_pullback "BREAKOUT_CONFIRMED"
              (keep (record s { prior_breakout_confirmed = true; breakout_at = some now }) k)))
          Move.broke_out)
    | inr unsure ↦ rw unsure (Move-to e (Move.stayed Phase.wait_breakout))
  ]

  await_breakout-Move :
      (spec : PullbackRebreakSpec R) (plan_id : String) (c : CandidatePlan R) (tick : MarketTick R)
      (previous : Option (Dict (Value R))) (v : Reading R) (k : Machine R)
      → k.state.phase ≡ Phase.wait_breakout
      → Move Phase.wait_breakout (await_breakout spec plan_id c tick previous v k).1.state.phase
  unfolding await_breakout
  await_breakout-Move spec plan_id c tick previous v k e =
      let now = tick.source_timestamp in
      let crossed = crossed_over previous v.last v.opening_high in
      let followed = follow_breakout crossed (strong spec v) now v k.state in
      let same = follow_breakout-phase crossed (strong spec v) now v k.state ∙ e in
      let s =
        if followed.breakout_confirm_count == 0
        then followed
        else record_volume false tick v followed in
      confirm-Move spec plan_id c tick now s k
        (elim (Bool-cases (followed.breakout_confirm_count == 0)) [
          | inl none_yet ↦ rw none_yet same
          | inr going ↦ rw going (record_volume-phase false tick v followed ∙ same)
        ])

module _ {R : Type 0} ⦃f : Float R⦄ (fmean : List R → R) (local_date : MarketTick R → ℕ) where
  pub await_pullback-Move :
      (spec : PullbackRebreakSpec R) (plan_id : String) (c : CandidatePlan R) (tick : MarketTick R)
      (v : Reading R) (depth : R) (k : Machine R)
      → k.state.phase ≡ Phase.wait_pullback
      → let (decision, k') = await_pullback fmean local_date spec plan_id c tick v depth k in
        Move Phase.wait_pullback k'.state.phase × (decision.signal ≡ false)
  unfolding await_pullback keep store_state
  await_pullback-Move spec plan_id c tick v depth k e =
      let now = tick.source_timestamp in
      let started = or_else k.state.pullback_started_at now in
      let begun = record (k.state) { pullback_started_at = some started } in
      let s = record_volume true tick v begun in
      let same = record_volume-phase true tick v begun ∙ e in
      let ratio = volume_ratio fmean s in
      let high = fmax v.last (fmin v.recent_high (or_else s.impulse_high v.last)) in
      elim (Bool-cases (lt depth spec.pullback_depth_atr_min)) [
        | inl shallow ↦ rw shallow (
          Move-to (record_volume-phase false tick v k.state ∙ e) (Move.stayed Phase.wait_pullback),
          refl,
        )
        | inr deep ↦ elim (Bool-cases (ltb (started + spec.pullback_max) now)) [
          | inl late ↦
              rw (deep, late)
                (
                  Move-to (reset-phase local_date plan_id c tick "PULLBACK_TIMEOUT" (keep s k))
                      (Move.restarted Phase.wait_pullback),
                  refl,
                )
          | inr early ↦
              elim (Bool-cases (
                leb (started + spec.pullback_min) now
                && rsi_ready spec v
                && volume_ready spec ratio)) [
                  | inl ready ↦
                      rw (deep, early, ready)
                        (
                          Move-to
                              (ap (λ (t : RuntimeState R). t.phase)
                                (transition-state plan_id c tick Phase.wait_rebreak
                                  "PULLBACK_CONFIRMED"
                                  (keep (record s { pullback_high = some high }) k)))
                              Move.pulled_back,
                          refl,
                        )
                  | inr not_ready ↦
                      rw (deep, early, not_ready)
                        (Move-to same (Move.stayed Phase.wait_pullback), refl)
                ]
        ]
      ]

  await_rebreak-Move :
      (spec : PullbackRebreakSpec R) (plan_id : String) (c : CandidatePlan R) (tick : MarketTick R)
      (previous : Option (Dict (Value R))) (entry_allowed : Bool) (v : Reading R) (k : Machine R)
      → k.state.phase ≡ Phase.wait_rebreak
      → Move Phase.wait_rebreak
          (await_rebreak fmean local_date spec plan_id c tick previous entry_allowed v
            k).1.state.phase
  unfolding await_rebreak store_state
  await_rebreak-Move spec plan_id c tick previous entry_allowed v k e =
      elim (Bool-cases (too_late spec tick.source_timestamp k.state.pullback_started_at)) [
        | inl late ↦ rw late (
            Move-to (reset-phase local_date plan_id c tick "REBREAK_TIMEOUT" k)
              (Move.restarted Phase.wait_rebreak))
        | inr early ↦
            elim (Bool-cases
              (is_empty (failing (conditions spec c previous entry_allowed v k.state)))) [
                | inl passed ↦
                    rw (early, passed)
                      (Move-to
                        (ap (λ (t : RuntimeState R). t.phase)
                          (transition-state plan_id c tick Phase.signal_triggered "PULLBACK_REBREAK"
                            k))
                        Move.rebroke)
                | inr failed ↦ rw (early, failed) (Move-to e (Move.stayed Phase.wait_rebreak))
              ]
      ]

  -- The machine that `follow_pullback` goes on with.
  abbrev pub followed_machine : MarketTick R → Reading R → Machine R → Machine R
  followed_machine tick v k =
      let followed = follow_extremes tick v k.state in
      keep (record followed { pullback_depth_atr = some (depth_atr v followed) }) k

  pub followed_machine-phase :
      (tick : MarketTick R) (v : Reading R) (k : Machine R)
      → (followed_machine tick v k).state.phase ≡ k.state.phase
  unfolding keep
  followed_machine-phase tick v k = follow_extremes-phase tick v k.state

  -- What `follow_pullback` does while the pullback is intact, with the machine that it goes on with.
  abbrev pub intact_pullback :
      PullbackRebreakSpec R
      → String
      → CandidatePlan R
      → MarketTick R
      → Option (Dict (Value R))
      → Bool
      → Reading R
      → R
      → Machine R
      → Decision × Machine R
  intact_pullback spec plan_id c tick previous entry_allowed v depth k =
      if same_phase k.state.phase Phase.wait_pullback
      then await_pullback fmean local_date spec plan_id c tick v depth k
      else if same_phase k.state.phase Phase.wait_rebreak
      then await_rebreak fmean local_date spec plan_id c tick previous entry_allowed v k
      else answer false ("UNKNOWN_STRATEGY_STATE" ∷ []) k

  intact_pullback-Move :
      (spec : PullbackRebreakSpec R) (plan_id : String) (c : CandidatePlan R) (tick : MarketTick R)
      (previous : Option (Dict (Value R))) (entry_allowed : Bool) (v : Reading R) (depth : R)
      (k : Machine R)
      → Move k.state.phase
          (intact_pullback spec plan_id c tick previous entry_allowed v depth k).1.state.phase
  intact_pullback-Move spec plan_id c tick previous entry_allowed v depth k =
      elim (Bool-cases (same_phase k.state.phase Phase.wait_pullback)) [
        | inl here ↦
            let e = same_phase-wait_pullback k.state.phase here in
            rw here (
              subst⁻¹
                (λ p.
                  Move p
                    (await_pullback fmean local_date spec plan_id c tick v depth k).1.state.phase)
                e (await_pullback-Move spec plan_id c tick v depth k e).0)
        | inr past ↦ elim (Bool-cases (same_phase k.state.phase Phase.wait_rebreak)) [
          | inl here ↦
              let e = same_phase-wait_rebreak k.state.phase here in
              rw (past, here)
                (subst⁻¹
                  (λ p.
                    Move p
                      (await_rebreak fmean local_date spec plan_id c tick previous entry_allowed v
                        k).1.state.phase)
                  e (await_rebreak-Move spec plan_id c tick previous entry_allowed v k e))
          | inr beyond ↦ rw (past, beyond) (Move.stayed k.state.phase)
        ]
      ]

  follow_pullback-Move :
      (spec : PullbackRebreakSpec R) (plan_id : String) (c : CandidatePlan R) (tick : MarketTick R)
      (previous : Option (Dict (Value R))) (entry_allowed : Bool) (v : Reading R) (p : Phase)
      (k : Machine R)
      → k.state.phase ≡ p
      → Move p
          (follow_pullback fmean local_date spec plan_id c tick previous entry_allowed v
            k).1.state.phase
  unfolding follow_pullback
  follow_pullback-Move spec plan_id c tick previous entry_allowed v p k e =
      let depth = depth_atr v (follow_extremes tick v k.state) in
      let k' = followed_machine tick v k in
      let same = followed_machine-phase tick v k ∙ e in
      elim (Bool-cases (
        lt spec.pullback_depth_atr_max depth
        || not (support_intact v spec.support_breach_pct_max))) [
          | inl broken ↦ rw broken (
              Move-to (reset-phase local_date plan_id c tick "PULLBACK_INVALIDATED" k')
                (Move.restarted p))
          | inr intact ↦ rw intact (
              subst
                (λ q.
                  Move q
                    (intact_pullback spec plan_id c tick previous entry_allowed v depth
                      k').1.state.phase)
                same (intact_pullback-Move spec plan_id c tick previous entry_allowed v depth k'))
        ]

  by_phase-Move :
      (spec : PullbackRebreakSpec R) (plan_id : String) (c : CandidatePlan R) (tick : MarketTick R)
      (previous : Option (Dict (Value R))) (entry_allowed : Bool) (v : Reading R) (p : Phase)
      (k : Machine R)
      → k.state.phase ≡ p
      → Move p
          (by_phase fmean local_date spec plan_id c tick previous entry_allowed v p k).1.state.phase
  unfolding by_phase
  by_phase-Move spec plan_id c tick previous entry_allowed v Phase.wait_breakout k e =
      await_breakout-Move spec plan_id c tick previous v k e
  by_phase-Move spec plan_id c tick previous entry_allowed v Phase.wait_pullback k e =
      follow_pullback-Move spec plan_id c tick previous entry_allowed v Phase.wait_pullback k e
  by_phase-Move spec plan_id c tick previous entry_allowed v Phase.wait_rebreak k e =
      follow_pullback-Move spec plan_id c tick previous entry_allowed v Phase.wait_rebreak k e
  by_phase-Move spec plan_id c tick previous entry_allowed v Phase.data_error k e =
      follow_pullback-Move spec plan_id c tick previous entry_allowed v Phase.data_error k e
  by_phase-Move spec plan_id c tick previous entry_allowed v p k e = Move-to e (Move.stayed p)

  pub enter_context-phase :
      (plan_id : String) (c : CandidatePlan R) (tick : MarketTick R) (k : Machine R)
      → (enter_context fmean local_date plan_id c tick k).state.phase ≡ (
          if other_context (local_date tick) tick.connection_id k.state
          then Phase.wait_breakout
          else k.state.phase)
  unfolding enter_context keep
  enter_context-phase plan_id c tick k =
      elim (Bool-cases (other_context (local_date tick) tick.connection_id k.state)) [
        | inl other ↦ rw other (reset-phase local_date plan_id c tick "DATA_CONTEXT_RESET" k)
        | inr same ↦ rw same refl
      ]

  -- One evaluation makes one move at most from the phase that it starts from, which is WAIT_BREAKOUT if
  -- the session date or the connection is another one: to the next phase of WAIT_BREAKOUT,
  -- WAIT_PULLBACK, WAIT_REBREAK and SIGNAL_TRIGGERED, or back to WAIT_BREAKOUT. No phase is skipped.
  pub evaluate_reading-Move :
      (spec : PullbackRebreakSpec R) (plan_id : String) (c : CandidatePlan R) (tick : MarketTick R)
      (previous : Option (Dict (Value R))) (entry_allowed : Bool) (v : Reading R) (k : Machine R)
      → Move
          (if other_context (local_date tick) tick.connection_id k.state
            then Phase.wait_breakout
            else k.state.phase)
          (evaluate_reading fmean local_date spec plan_id c tick previous entry_allowed v
            k).1.state.phase
  unfolding evaluate_reading
  evaluate_reading-Move spec plan_id c tick previous entry_allowed v k =
      let k' = enter_context fmean local_date plan_id c tick k in
      subst
        (λ p.
          Move p
            (evaluate_reading fmean local_date spec plan_id c tick previous entry_allowed v
              k).1.state.phase)
        (enter_context-phase plan_id c tick k)
        (elim (Bool-cases (le v.atr (num 0))) [
          | inl flat ↦ rw flat (Move.stayed k'.state.phase)
          | inr moving ↦
              rw moving
                (by_phase-Move spec plan_id c tick previous entry_allowed v k'.state.phase k' refl)
        ])
