-- ===== src/Pullback/Tests.antt =====
-- A rebreak in whole units of money, and the theorems of the strategy at it.
use ai_daytrader_sim.Prelude.{
  ℕ, ◌⊎◌, ◌≡◌, refl, true, false, none, some, Option, List, [], ◌∷◌, length,
}
use ai_daytrader_sim.Prelude.Dict.{Dict}
use ai_daytrader_sim.Float.{◌⊕◌, ◌⊘◌, num}
use ai_daytrader_sim.Float.Scaled.{ℤ, pos, scaled_float}
use ai_daytrader_sim.Models.{MarketTick, CandidatePlan, PullbackRebreakSpec, StrategyType}
use ai_daytrader_sim.Models.Rule.{Value}
use ai_daytrader_sim.Repository.{empty}
use ai_daytrader_sim.Broker.Sample.{plan, quote}
use ai_daytrader_sim.Pullback.{Phase, Machine, Reading, new_state, keep, support_intact}
use ai_daytrader_sim.Pullback.Evaluate.{
  other_context, enter_context, evaluate_reading, by_phase, follow_pullback, depth_atr,
  follow_extremes, await_rebreak,
}
use ai_daytrader_sim.Pullback.Moves.{Move, evaluate_reading-Move}
use ai_daytrader_sim.Pullback.Signal.{Rebroken, evaluate_reading-signal}

abbrev total : List ℤ → ℤ
total [] = pos 0
total (v ∷ vs) = v ⊕ total vs

abbrev mean : List ℤ → ℤ
mean vs = total vs ⊘ num (length vs)

abbrev date_of : MarketTick ℤ → ℕ
date_of tick = 20_000

abbrev spec : PullbackRebreakSpec ℤ
spec = record {
  breakout_confirm_ticks = 3;
  breakout_hold_ms = 1000;
  breakout_relative_volume_min = pos 1;
  pullback_depth_atr_min = pos 0;
  pullback_depth_atr_max = pos 1;
  pullback_min = 120_000_000;
  pullback_max = 600_000_000;
  pullback_rsi_min = pos 45;
  pullback_rsi_max = pos 60;
  pullback_volume_ratio_max = pos 1;
  support_breach_pct_max = pos 0;
  rebreak_rsi_min = pos 50;
  rebreak_rsi_max = pos 68;
  rebreak_relative_volume_min = pos 1;
  spread_pct_max = pos 1;
  require_market_above_vwap = true;
}

abbrev candidate : CandidatePlan ℤ
candidate = record plan {
  strategy_type = StrategyType.pullback_rebreak;
  pullback_rebreak = some spec;
}

abbrev tick : MarketTick ℤ
tick = quote 400_000_000 9_980

abbrev seen : Reading ℤ
seen = record {
  last = pos 9_980;
  spread_pct = pos 0;
  opening_high = pos 9_900;
  vwap = pos 9_920;
  atr = pos 40;
  ema_9 = pos 9_960;
  ema_20 = pos 9_950;
  ema_50 = pos 9_940;
  rsi = pos 55;
  relative_volume = pos 2;
  market_above_vwap = Value.flag true;
  recent_high = pos 9_970;
  bar_volume = pos 100;
}

abbrev before : Option (Dict (Value ℤ))
before = some (("last", Value.number (pos 9_965)) ∷ [])

-- A confirmed pullback from 9,990 down to 9,960, with its high at 9,970.
abbrev waiting : Machine ℤ
waiting = record {
  state = record new_state {
    phase = Phase.wait_rebreak;
    session_date = some 20_000;
    connection_id = some "feed-1";
    impulse_high = some (pos 9_990);
    atr_at_breakout = some (pos 40);
    pullback_started_at = some 200_000_000;
    pullback_low = some (pos 9_960);
    pullback_high = some (pos 9_970);
    prior_breakout_confirmed = true;
  };
  saved = none;
  repository = empty;
}

rebroken :
    (evaluate_reading mean date_of spec "plan-0001" candidate tick before true seen
      waiting).0.signal
    ≡ true
unfolding evaluate_reading enter_context by_phase keep follow_pullback depth_atr follow_extremes
    support_intact await_rebreak
rebroken = refl

evaluate_reading-signal_example :
    let (decision, k') =
      evaluate_reading mean date_of spec "plan-0001" candidate tick before true seen waiting in
    let s = (enter_context mean date_of "plan-0001" candidate tick waiting).state in
    (other_context 20_000 "feed-1" waiting.state ≡ false)
    × (k'.state.phase ≡ Phase.signal_triggered)
    × ((s.phase ≡ Phase.signal_triggered)
        ⊎ Rebroken mean date_of spec candidate tick before true seen s)
evaluate_reading-signal_example =
    evaluate_reading-signal mean date_of spec "plan-0001" candidate tick before true seen waiting
      rebroken

evaluate_reading-Move_example :
    Move Phase.wait_rebreak
      (evaluate_reading mean date_of spec "plan-0001" candidate tick before false seen
        waiting).1.state.phase
evaluate_reading-Move_example =
    evaluate_reading-Move mean date_of spec "plan-0001" candidate tick before false seen waiting
