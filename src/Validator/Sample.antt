-- ===== src/Validator/Sample.antt =====
-- A calendar and a plan in whole units of money.
use ai_daytrader_sim.Prelude.{ℕ, ◌+◌, ◌*◌, ◌/◌, ◌%◌, true, false, [], ◌∷◌}
use ai_daytrader_sim.Float.Scaled.{ℤ, pos, scaled_float}
use ai_daytrader_sim.Models.{Market, CandidatePlan, TradePlan, us_per_minute}
use ai_daytrader_sim.Models.Rule.{Operator, Value, Operand, Predicate, Mode, RuleGroup, Groups}
use ai_daytrader_sim.MarketClock.{Calendar}
use ai_daytrader_sim.Validator.{Universe}
use ai_daytrader_sim.Broker.Sample.{plan}

abbrev pub us_per_day : ℕ
us_per_day = 24 * 60 * us_per_minute

-- Sessions on every day, from 9:00 to 15:30, in a zone of the time's own.
abbrev pub calendar : Calendar
calendar = record {
  is_session = λ m date. true;
  session_open = λ m date. date * us_per_day + 9 * 60 * us_per_minute;
  session_close = λ m date. date * us_per_day + (15 * 60 + 30) * us_per_minute;
  local_date = λ m at. at / us_per_day;
  local_time = λ m at. at % us_per_day;
}

abbrev pub compare_rsi : Operator → ℕ → Predicate ℤ
compare_rsi operator value = record {
  indicator = "rsi_14_1m_regular";
  operator = operator;
  value = Operand.literal (Value.number (pos value));
  confirm_ticks = 1;
  hold_above_ms = 0;
  minimum_cross_pct = pos 0;
  cooldown_sec = 0;
}

abbrev pub candidate : RuleGroup ℤ → CandidatePlan ℤ
candidate rules = record plan {
  entry = record (plan.entry) {
    start_time = (9 * 60 + 30) * us_per_minute;
    end_time = 14 * 60 * us_per_minute;
    price_only = false;
    rules = rules;
  };
  force_exit_time = (15 * 60 + 15) * us_per_minute;
}

abbrev pub trade_plan : RuleGroup ℤ → TradePlan ℤ
trade_plan rules = record {
  plan_id = "KR-0001-A";
  plan_version = 1;
  created_at = 20_000 * us_per_day;
  market = Market.kr;
  trade_date = 20_000;
  expires_at = 20_000 * us_per_day + (15 * 60 + 20) * us_per_minute;
  approval_nonce = "123456";
  approved_symbols = candidate rules ∷ [];
}

abbrev pub universe : Universe
universe m = ("005930", "KRX") ∷ []

abbrev pub now : ℕ
now = 20_000 * us_per_day + 8 * 60 * us_per_minute

abbrev pub rising : RuleGroup ℤ
rising =
    RuleGroup.group Mode.all_of (compare_rsi Operator.gt 50 ∷ compare_rsi Operator.lte 70 ∷ [])
      Groups.nil
