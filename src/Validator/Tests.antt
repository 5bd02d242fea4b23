-- ===== src/Validator/Tests.antt =====
-- The validator at concrete inputs, in whole units of money.
use ai_daytrader_sim.Prelude.{◌≡◌, ◌↔◌, refl, true, [], ◌∷◌}
use ai_daytrader_sim.Prelude.Result.{ok, error, is_ok}
use ai_daytrader_sim.Float.Scaled.{ℤ, scaled_float, ℤ-IsOrdered, ℤ-IsDecided}
use ai_daytrader_sim.Models.Rule.{Operator, Mode, RuleGroup, Groups}
use ai_daytrader_sim.Validator.{PlanValidationError, validate_plan}
use ai_daytrader_sim.Validator.Contradictions.{Contradiction, assert_no_contradictions}
use ai_daytrader_sim.Validator.Contradicted.{Dead, contradiction-Dead}
use ai_daytrader_sim.Validator.Accepted.{PlanOk, validate_plan-accepts}
use ai_daytrader_sim.Validator.Sample.{calendar, compare_rsi, trade_plan, universe, now, rising}
use ai_daytrader_sim.Broker.Sample.{cost}

-- An alternative that cannot be true, beside one that can.
abbrev never : RuleGroup ℤ
never =
    RuleGroup.group Mode.all_of (compare_rsi Operator.gt 70 ∷ compare_rsi Operator.lte 70 ∷ [])
      Groups.nil

abbrev either : RuleGroup ℤ
either = RuleGroup.group Mode.any_of [] (Groups.cons rising (Groups.cons never Groups.nil))

rejected : assert_no_contradictions either ≡ error (Contradiction.conditions "rsi_14_1m_regular")
unfolding assert_no_contradictions
rejected = refl

contradiction-Dead_example : Dead either
contradiction-Dead_example =
    contradiction-Dead ℤ-IsOrdered ℤ-IsDecided either (Contradiction.conditions "rsi_14_1m_regular")
      rejected

accepted : validate_plan calendar now universe (λ m. cost) (trade_plan rising) ≡ ok tt
unfolding validate_plan
accepted = refl

refused :
    validate_plan calendar now universe (λ m. cost) (trade_plan either)
    ≡ error (PlanValidationError.contradiction (Contradiction.conditions "rsi_14_1m_regular"))
unfolding validate_plan
refused = refl

validate_plan-accepts_example :
    (is_ok (validate_plan calendar now universe (λ m. cost) (trade_plan rising)) ≡ true)
    ↔ PlanOk calendar now universe (λ m. cost) (trade_plan rising)
validate_plan-accepts_example =
    validate_plan-accepts calendar now universe (λ m. cost) (trade_plan rising)
