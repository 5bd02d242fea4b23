-- ===== src/Pullback/Evaluate.antt =====
-- pullback.py: `PullbackRebreakEngine.evaluate`.
use ai_daytrader_sim.Prelude.{
  ℕ, ◌+◌, ◌*◌, String, Bool, true, false, not, ◌&&◌, ◌||◌, Option, none, some, List, [], ◌∷◌, ◌++◌,
  ltb, leb, ◌==◌, if◌then◌else◌, str_eq, is_empty, or_else,
}
use ai_daytrader_sim.Prelude.Dict.{Dict}
use ai_daytrader_sim.Float.{Float, ◌⊖◌, ◌⊘◌, num, le, lt, fmax, fmin}
use ai_daytrader_sim.Models.{MarketTick, CandidatePlan, PullbackRebreakSpec}
use ai_daytrader_sim.Models.Rule.{Value}
use ai_daytrader_sim.Pullback.{
  Phase, phase_name, RuntimeState, Decision, Machine, Reading, reading, keep, store_state,
  transition, reset, float_or, crossed_over, record_volume, support_intact, volume_ratio,
  same_phase,
}

abbrev pub answer : {R : Type 0} → Bool → List String → Machine R → Decision × Machine R
answer signal reasons k = (record { signal = signal; phase = k.state.phase; reasons = reasons }, k)

-- `state.session_date and (state.session_date != date or state.connection_id != id)`
abbrev pub other_context : {R : Type 0} → ℕ → String → RuntimeState R → Bool
other_context date id s = elim s.session_date [
  | none ↦ false
  | some d ↦ not (d == date) || not (elim s.connection_id [ none ↦ false | some i ↦ str_eq i id ])
]

-- The milliseconds since a breakout candidate began reach `ms`; without one they are 0.
abbrev pub held_for : Option ℕ → ℕ → ℕ → Bool
held_for none ms now = ms == 0
held_for (some t) ms now = leb (t + ms * 1000) now

-- `condition and reason`: the reasons of the conditions that do not hold.
abbrev pub failing : List (String × Bool) → List String
failing [] = []
failing ((reason, passed) ∷ rest) =
    let more = failing rest in if passed then more else reason ∷ more

module _ {R : Type 0} ⦃f : Float R⦄ where
  abbrev pub strong : PullbackRebreakSpec R → Reading R → Bool
  strong spec v =
      lt v.opening_high v.last
      && lt v.vwap v.last
      && (lt v.ema_20 v.ema_9 && lt v.ema_50 v.ema_20)
      && le spec.breakout_relative_volume_min v.relative_volume

  -- The breakout candidate after a tick: begun, counted on, or given up.
  unfoldable pub follow_breakout : Bool → Bool → ℕ → Reading R → RuntimeState R → RuntimeState R
  follow_breakout crossed is_strong now v s =
      if crossed && is_strong
      then record s {
        impulse_volumes = [];
        pullback_volumes = [];
        last_volume_timestamp = none;
        breakout_candidate_started = some now;
        breakout_confirm_count = 1;
        breakout_price = some v.last;
        impulse_high = some v.last;
        atr_at_breakout = some v.atr;
      }
      else if not (s.breakout_confirm_count == 0) && is_strong
      then record s {
        breakout_confirm_count = s.breakout_confirm_count + 1;
        impulse_high = some (fmax (float_or s.impulse_high (num 0)) v.last);
      }
      else record s {
        breakout_candidate_started = none;
        breakout_confirm_count = 0;
        breakout_price = none;
        impulse_high = none;
      }

  unfoldable pub breakout_confirmed : PullbackRebreakSpec R → ℕ → RuntimeState R → Bool
  breakout_confirmed spec now s =
      leb spec.breakout_confirm_ticks s.breakout_confirm_count
      && held_for s.breakout_candidate_started spec.breakout_hold_ms now

  -- The phase WAIT_BREAKOUT
  unfoldable pub await_breakout :
      PullbackRebreakSpec R
      → String
      → CandidatePlan R
      → MarketTick R
      → Option (Dict (Value R))
      → Reading R
      → Machine R
      → Decision × Machine R
  await_breakout spec plan_id c tick previous v k =
      let now = tick.source_timestamp in
      let followed =
        follow_breakout (crossed_over previous v.last v.opening_high) (strong spec v) now v
          k.state in
      let s =
        if followed.breakout_confirm_count == 0
        then followed
        else record_volume false tick v followed in
      answer false ("WAITING_FOR_BREAKOUT" ∷ []) (
        if breakout_confirmed spec now s
        then transition plan_id c tick Phase.wait_pullback "BREAKOUT_CONFIRMED"
            (keep (record s { prior_breakout_confirmed = true; breakout_at = some now }) k)
        else store_state (keep s k))

  -- The highest and the lowest price since the breakout, after a tick.
  unfoldable pub follow_extremes : MarketTick R → Reading R → RuntimeState R → RuntimeState R
  follow_extremes tick v s =
      if same_phase s.phase Phase.wait_pullback && lt (float_or s.impulse_high v.last) v.last
      then record_volume false tick v (record s {
        impulse_high = some v.last;
        pullback_low = some v.last;
        pullback_started_at = none;
        pullback_volumes = [];
      })
      else record s {
        impulse_high = some (fmax (float_or s.impulse_high v.last) v.last);
        pullback_low = some (fmin (float_or s.pullback_low v.last) v.last);
      }

  -- `follow_extremes` has set both prices.
  unfoldable pub depth_atr : Reading R → RuntimeState R → R
  depth_atr v s =
      (or_else s.impulse_high v.last ⊖ or_else s.pullback_low v.last)
      ⊘ float_or s.atr_at_breakout v.atr

  abbrev pub rsi_ready : PullbackRebreakSpec R → Reading R → Bool
  rsi_ready spec v = le spec.pullback_rsi_min v.rsi && le v.rsi spec.pullback_rsi_max

  abbrev pub volume_ready : PullbackRebreakSpec R → Option R → Bool
  volume_ready spec none = false
  volume_ready spec (some ratio) = le ratio spec.pullback_volume_ratio_max

  abbrev pub volume_reason : PullbackRebreakSpec R → Option R → List String
  volume_reason spec none = "PULLBACK_VOLUME_NOT_READY" ∷ []
  volume_reason spec (some ratio) =
      if lt spec.pullback_volume_ratio_max ratio then "PULLBACK_VOLUME_TOO_HIGH" ∷ [] else []

  abbrev pub is_true : Value R → Bool
  is_true (Value.flag b) = b
  is_true (Value.number x) = false

  abbrev pub crossed_level : Option (Dict (Value R)) → R → Option R → Bool
  crossed_level previous last none = false
  crossed_level previous last (some level) = crossed_over previous last level

  -- The conditions of a rebreak, in their order.
  abbrev pub conditions :
      PullbackRebreakSpec R
      → CandidatePlan R
      → Option (Dict (Value R))
      → Bool
      → Reading R
      → RuntimeState R
      → List (String × Bool)
  conditions spec c previous entry_allowed v s =
      ("REBREAK_NOT_CROSSED", crossed_level previous v.last s.pullback_high)
      ∷ ("BELOW_EMA9", lt v.ema_9 v.last)
      ∷ ("BELOW_VWAP", lt v.vwap v.last)
      ∷ ("RSI_OUT_OF_RANGE", le spec.rebreak_rsi_min v.rsi && le v.rsi spec.rebreak_rsi_max)
      ∷ ("RELATIVE_VOLUME_LOW", le spec.rebreak_relative_volume_min v.relative_volume)
      ∷ ("SPREAD_TOO_WIDE", le v.spread_pct spec.spread_pct_max)
      ∷ ("MARKET_BELOW_VWAP", not spec.require_market_above_vwap || is_true v.market_above_vwap)
      ∷ ("ENTRY_TRIGGER_NOT_REACHED", le c.entry.trigger_price v.last)
      ∷ ("OUTSIDE_ENTRY_WINDOW", entry_allowed)
      ∷ []

  abbrev pub too_late : PullbackRebreakSpec R → ℕ → Option ℕ → Bool
  too_late spec now none = false
  too_late spec now (some started) = ltb (started + spec.pullback_max) now

module _ {R : Type 0} ⦃f : Float R⦄ (fmean : List R → R) (local_date : MarketTick R → ℕ) where
  -- The phase WAIT_PULLBACK, with the depth of the pullback
  unfoldable pub await_pullback :
      PullbackRebreakSpec R
      → String
      → CandidatePlan R
      → MarketTick R
      → Reading R
      → R
      → Machine R
      → Decision × Machine R
  await_pullback spec plan_id c tick v depth k =
      let now = tick.source_timestamp in
      let started = or_else k.state.pullback_started_at now in
      let s = record_volume true tick v (record (k.state) { pullback_started_at = some started }) in
      let long_enough = leb (started + spec.pullback_min) now in
      let ratio = volume_ratio fmean s in
      let high = fmax v.last (fmin v.recent_high (or_else s.impulse_high v.last)) in
      let reasons =
        (if long_enough then [] else "PULLBACK_DURATION_SHORT" ∷ [])
        ++ (if rsi_ready spec v then [] else "PULLBACK_RSI_OUT_OF_RANGE" ∷ [])
        ++ volume_reason spec ratio in
      if lt depth spec.pullback_depth_atr_min
      then answer false ("PULLBACK_TOO_SHALLOW" ∷ [])
          (store_state (keep (record_volume false tick v k.state) k))
      else if ltb (started + spec.pullback_max) now
      then answer false ("PULLBACK_TIMEOUT" ∷ [])
          (reset local_date plan_id c tick "PULLBACK_TIMEOUT" (keep s k))
      else if long_enough && rsi_ready spec v && volume_ready spec ratio
      then answer false ("WAITING_FOR_REBREAK" ∷ []) (
          transition plan_id c tick Phase.wait_rebreak "PULLBACK_CONFIRMED"
            (keep (record s { pullback_high = some high }) k))
      else answer false reasons (store_state (keep s k))

  -- The phase WAIT_REBREAK
  unfoldable pub await_rebreak :
      PullbackRebreakSpec R
      → String
      → CandidatePlan R
      → MarketTick R
      → Option (Dict (Value R))
      → Bool
      → Reading R
      → Machine R
      → Decision × Machine R
  await_rebreak spec plan_id c tick previous entry_allowed v k =
      let failures = failing (conditions spec c previous entry_allowed v k.state) in
      if too_late spec tick.source_timestamp k.state.pullback_started_at
      then answer false ("REBREAK_TIMEOUT" ∷ [])
          (reset local_date plan_id c tick "REBREAK_TIMEOUT" k)
      else if is_empty failures
      then answer true [] (transition plan_id c tick Phase.signal_triggered "PULLBACK_REBREAK" k)
      else answer false failures (store_state k)

  -- From the extremes on, for the phases that follow a breakout.
  unfoldable pub follow_pullback :
      PullbackRebreakSpec R
      → String
      → CandidatePlan R
      → MarketTick R
      → Option (Dict (Value R))
      → Bool
      → Reading R
      → Machine R
      → Decision × Machine R
  follow_pullback spec plan_id c tick previous entry_allowed v k =
      let followed = follow_extremes tick v k.state in
      let depth = depth_atr v followed in
      let k' = keep (record followed { pullback_depth_atr = some depth }) k in
      if lt spec.pullback_depth_atr_max depth || not (support_intact v spec.support_breach_pct_max)
      then answer false ("PULLBACK_INVALIDATED" ∷ [])
          (reset local_date plan_id c tick "PULLBACK_INVALIDATED" k')
      else if same_phase k'.state.phase Phase.wait_pullback
      then await_pullback spec plan_id c tick v depth k'
      else if same_phase k'.state.phase Phase.wait_rebreak
      then await_rebreak spec plan_id c tick previous entry_allowed v k'
      else answer false ("UNKNOWN_STRATEGY_STATE" ∷ []) k'

  unfoldable pub by_phase :
      PullbackRebreakSpec R
      → String
      → CandidatePlan R
      → MarketTick R
      → Option (Dict (Value R))
      → Bool
      → Reading R
      → Phase
      → Machine R
      → Decision × Machine R
  by_phase spec plan_id c tick previous entry_allowed v Phase.wait_breakout k =
      await_breakout spec plan_id c tick previous v k
  by_phase spec plan_id c tick previous entry_allowed v Phase.signal_triggered k =
      answer true ("RECOVERING_SIGNAL" ∷ []) k
  by_phase spec plan_id c tick previous entry_allowed v Phase.wait_pullback k =
      follow_pullback spec plan_id c tick previous entry_allowed v k
  by_phase spec plan_id c tick previous entry_allowed v Phase.wait_rebreak k =
      follow_pullback spec plan_id c tick previous entry_allowed v k
  by_phase spec plan_id c tick previous entry_allowed v Phase.data_error k =
      follow_pullback spec plan_id c tick previous entry_allowed v k
  by_phase spec plan_id c tick previous entry_allowed v _ k =
      answer false (phase_name k.state.phase ∷ []) k

  -- The reset on another session date or connection, or the note of this one.
  unfoldable pub enter_context : String → CandidatePlan R → MarketTick R → Machine R → Machine R
  enter_context plan_id c tick k =
      if other_context (local_date tick) tick.connection_id k.state
      then reset local_date plan_id c tick "DATA_CONTEXT_RESET" k
      else keep
          (record (k.state) {
            session_date = some (local_date tick);
            connection_id = some tick.connection_id;
          })
          k

  unfoldable pub evaluate_reading :
      PullbackRebreakSpec R
      → String
      → CandidatePlan R
      → MarketTick R
      → Option (Dict (Value R))
      → Bool
      → Reading R
      → Machine R
      → Decision × Machine R
  evaluate_reading spec plan_id c tick previous entry_allowed v k =
      let k' = enter_context plan_id c tick k in
      if le v.atr (num 0)
      then answer false ("ATR_NOT_POSITIVE" ∷ []) k'
      else by_phase spec plan_id c tick previous entry_allowed v k'.state.phase k'

  -- No answer stands for the `KeyError` of a missing indicator.
  unfoldable pub evaluate :
      String
      → CandidatePlan R
      → MarketTick R
      → Option (Dict (Value R))
      → Bool
      → Machine R
      → Option (Decision × Machine R)
  evaluate plan_id c tick previous entry_allowed k = elim c.pullback_rebreak [
    | none ↦ some (
      record { signal = false; phase = Phase.data_error; reasons = "PULLBACK_CONFIG_MISSING" ∷ [] },
      k,
    )
    | some spec ↦ elim (reading tick) [
      | none ↦ none
      | some v ↦ some (evaluate_reading spec plan_id c tick previous entry_allowed v k)
    ]
  ]
