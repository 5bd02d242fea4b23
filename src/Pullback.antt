-- ===== src/Pullback.antt =====
-- pullback.py: the pullback-and-rebreak strategy, for one plan and symbol. What `evaluate` does on a
-- tick is in Pullback/Evaluate.
pub mod Evaluate
pub mod Moves
pub mod Signal
pub mod Writes
mod Tests
use ai_daytrader_sim.Prelude.{
  ℕ, ◌+◌, ◌*◌, String, Bool, true, false, not, ◌&&◌, ◌||◌, Option, none, some, List, [], ◌∷◌, ◌++◌,
  length, ltb, leb, ◌==◌, if◌then◌else◌, str_eq, is_empty, or_else,
}
use ai_daytrader_sim.Prelude.Dict.{Dict, lookup}
use ai_daytrader_sim.Float.{Float, ◌⊖◌, ◌⊗◌, ◌⊘◌, num, le, lt, feq, fmax}
use ai_daytrader_sim.Models.{MarketTick, CandidatePlan}
use ai_daytrader_sim.Models.Rule.{Value, as_float}
use ai_daytrader_sim.Repository.{Repository, Event, add_event}

pub data Phase : Type 0 where
  wait_breakout wait_pullback wait_rebreak signal_triggered entry_pending position_open risk_blocked
        closed cancelled expired data_error :
      Phase

abbrev pub phase_name : Phase → String
phase_name Phase.wait_breakout = "WAIT_BREAKOUT"
phase_name Phase.wait_pullback = "WAIT_PULLBACK"
phase_name Phase.wait_rebreak = "WAIT_REBREAK"
phase_name Phase.signal_triggered = "SIGNAL_TRIGGERED"
phase_name Phase.entry_pending = "ENTRY_PENDING"
phase_name Phase.position_open = "POSITION_OPEN"
phase_name Phase.risk_blocked = "RISK_BLOCKED"
phase_name Phase.closed = "CLOSED"
phase_name Phase.cancelled = "CANCELLED"
phase_name Phase.expired = "EXPIRED"
phase_name Phase.data_error = "DATA_ERROR"

abbrev pub same_phase : Phase → Phase → Bool
same_phase p q = str_eq (phase_name p) (phase_name q)

pub record RuntimeState (R : Type 0) : Type 0 where
  pub phase : Phase
  pub session_date : Option ℕ
  pub connection_id : Option String
  pub breakout_candidate_started : Option ℕ
  pub breakout_confirm_count : ℕ
  pub breakout_price : Option R
  pub breakout_at : Option ℕ
  pub impulse_high : Option R
  pub atr_at_breakout : Option R
  pub pullback_started_at : Option ℕ
  pub pullback_low : Option R
  pub pullback_high : Option R
  pub pullback_depth_atr : Option R
  pub prior_breakout_confirmed : Bool
  pub impulse_volumes : List R
  pub pullback_volumes : List R
  pub last_volume_timestamp : Option ℕ

-- `PullbackDecision`. Its metrics are those of the state that is returned beside it.
pub record Decision : Type 0 where
  pub signal : Bool
  pub phase : Phase
  pub reasons : List String

-- The state in memory, its stored row, and the repository with the events.
pub record Machine (R : Type 0) : Type 0 where
  pub state : RuntimeState R
  pub saved : Option (RuntimeState R)
  pub repository : Repository R

abbrev pub new_state : {R : Type 0} → RuntimeState R
new_state = record {
  phase = Phase.wait_breakout;
  session_date = none;
  connection_id = none;
  breakout_candidate_started = none;
  breakout_confirm_count = 0;
  breakout_price = none;
  breakout_at = none;
  impulse_high = none;
  atr_at_breakout = none;
  pullback_started_at = none;
  pullback_low = none;
  pullback_high = none;
  pullback_depth_atr = none;
  prior_breakout_confirmed = false;
  impulse_volumes = [];
  pullback_volumes = [];
  last_volume_timestamp = none;
}

-- `_reset_values`
abbrev pub reset_values : {R : Type 0} → RuntimeState R → RuntimeState R
reset_values s = record new_state {
  phase = s.phase;
  session_date = s.session_date;
  connection_id = s.connection_id;
}

-- A list of volumes with one more at its end; of more than 20 the oldest goes.
abbrev pub drop_first : {R : Type 0} → List R → List R
drop_first [] = []
drop_first (x ∷ xs) = xs

unfoldable pub push : {R : Type 0} → R → List R → List R
push v vs = let more = vs ++ (v ∷ []) in if ltb 20 (length more) then drop_first more else more

abbrev pub same_time : Option ℕ → ℕ → Bool
same_time none t = false
same_time (some s) t = s == t

module _ {R : Type 0} where
  unfoldable pub keep : RuntimeState R → Machine R → Machine R
  keep s k = record k { state = s }

  unfoldable pub store_state : Machine R → Machine R
  store_state k = record k { saved = some k.state }

  -- `_transition`: the phase is set and stored, and an event tells of a change.
  unfoldable pub transition :
      String → CandidatePlan R → MarketTick R → Phase → String → Machine R → Machine R
  unfolding keep store_state add_event
  transition plan_id c tick phase reason k =
      let previous = k.state.phase in
      let k' = store_state (keep (record (k.state) { phase = phase }) k) in
      let changed =
        Event.strategy_state_changed tick.market c.symbol plan_id (phase_name previous)
          (phase_name phase) reason in
      if same_phase previous phase
      then k'
      else record k' { repository = add_event changed k'.repository }

  -- `reset`; `local_date` gives the date of an instant in the market's time zone.
  unfoldable pub reset :
      (MarketTick R → ℕ) → String → CandidatePlan R → MarketTick R → String → Machine R → Machine R
  unfolding transition keep
  reset local_date plan_id c tick reason k =
      let s = record (reset_values k.state) {
        session_date = some (local_date tick);
        connection_id = some tick.connection_id;
      } in
      transition plan_id c tick Phase.wait_breakout reason (keep s k)

  unfoldable pub mark_submission :
      String → CandidatePlan R → MarketTick R → Bool → Option String → Machine R → Machine R
  unfolding transition
  mark_submission plan_id c tick accepted reason =
      if accepted
      then transition plan_id c tick Phase.entry_pending "ORDER_SUBMITTED"
      else transition plan_id c tick Phase.risk_blocked (or_else reason "RISK_BLOCKED")

  unfoldable pub mark_terminal :
      String → CandidatePlan R → MarketTick R → Phase → String → Machine R → Machine R
  unfolding transition
  mark_terminal = transition

-- The values of a tick that `evaluate` reads.
pub record Reading (R : Type 0) : Type 0 where
  pub last : R
  pub spread_pct : R
  pub opening_high : R
  pub vwap : R
  pub atr : R
  pub ema_9 : R
  pub ema_20 : R
  pub ema_50 : R
  pub rsi : R
  pub relative_volume : R
  pub market_above_vwap : Value R
  pub recent_high : R
  pub bar_volume : R

module _ {R : Type 0} ⦃f : Float R⦄ where
  -- `values[name]`: an indicator, or what stands in `values` beforehand.
  abbrev pub value_or : String → R → MarketTick R → R
  value_or name given tick = elim (lookup name tick.indicators) [
    | none ↦ given
    | some v ↦ as_float v
  ]

  abbrev pub indicator : String → MarketTick R → (R → Option (Reading R)) → Option (Reading R)
  indicator name tick next = elim (lookup name tick.indicators) [
    | none ↦ none
    | some v ↦ next (as_float v)
  ]

  -- The engine asks for all of these indicators before it calls `evaluate`; without one there is no
  -- reading, as `values[name]` then raises `KeyError`.
  unfoldable pub reading : MarketTick R → Option (Reading R)
  reading tick =
      let spread = (tick.ask ⊖ tick.bid) ⊘ tick.last ⊗ num 100 in
      indicator "opening_range_5_high" tick (λ opening_high. indicator "vwap_regular" tick (λ vwap.
        indicator "atr_14_1m_regular" tick (λ atr. indicator "ema_9_1m_regular" tick (λ ema_9.
          indicator "ema_20_1m_regular" tick (λ ema_20.
            indicator "ema_50_1m_regular" tick (λ ema_50. indicator "rsi_14_1m_regular" tick (λ rsi.
              indicator "relative_volume_cumulative_20d_same_time_regular" tick (λ relative_volume.
                indicator "recent_high_5_1m_regular" tick (λ recent_high.
                  indicator "bar_volume_1m_regular" tick (λ bar_volume.
                    elim (lookup "market_above_vwap_regular" tick.indicators) [
                      | none ↦ none
                      | some above ↦ some (record {
                        last = value_or "last" tick.last tick;
                        spread_pct = value_or "spread_pct" spread tick;
                        opening_high = opening_high;
                        vwap = vwap;
                        atr = atr;
                        ema_9 = ema_9;
                        ema_20 = ema_20;
                        ema_50 = ema_50;
                        rsi = rsi;
                        relative_volume = relative_volume;
                        market_above_vwap = above;
                        recent_high = recent_high;
                        bar_volume = bar_volume;
                      })
                    ]))))))))))

  -- `x or d` for a float, where 0.0 counts as missing.
  abbrev pub float_or : Option R → R → R
  float_or none d = d
  float_or (some x) d = if feq x (num 0) then d else x

  -- `bool(previous and previous.get("last", last) <= level and last > level)`
  abbrev pub crossed_over : Option (Dict (Value R)) → R → R → Bool
  crossed_over none last level = false
  crossed_over (some values) last level = elim (lookup "last" values) [
    | none ↦ not (is_empty values) && le last level && lt level last
    | some v ↦ le (as_float v) level && lt level last
  ]

  -- `_record_volume` for the volumes of the impulse or of the pullback
  unfoldable pub record_volume : Bool → MarketTick R → Reading R → RuntimeState R → RuntimeState R
  unfolding push
  record_volume pullback tick v s =
      elim (lookup "bar_volume_1m_regular" tick.indicator_timestamps) [
        | none ↦ s
        | some generated ↦
            if same_time s.last_volume_timestamp generated
            then s
            else if pullback
            then record s {
              last_volume_timestamp = some generated;
              pullback_volumes = push v.bar_volume s.pullback_volumes;
            }
            else record s {
              last_volume_timestamp = some generated;
              impulse_volumes = push v.bar_volume s.impulse_volumes;
            }
      ]

  -- `_support_intact`
  unfoldable pub support_intact : Reading R → R → Bool
  support_intact v max_breach_pct =
      let floor_multiplier = num 1 ⊖ max_breach_pct ⊘ num 100 in
      le (fmax (v.vwap ⊗ floor_multiplier) (v.ema_20 ⊗ floor_multiplier)) v.last

  -- `pullback_volume_ratio` of `metrics`; `fmean` is that of the module `statistics`.
  unfoldable pub volume_ratio : (List R → R) → RuntimeState R → Option R
  volume_ratio fmean s =
      if is_empty s.impulse_volumes || is_empty s.pullback_volumes
      then none
      else if lt (num 0) (fmean s.impulse_volumes)
      then some (fmean s.pullback_volumes ⊘ fmean s.impulse_volumes)
      else none
