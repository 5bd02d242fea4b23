-- ===== src/Models/Tests.antt =====
-- The validators at concrete inputs, in whole units of money.
use ai_daytrader_sim.Prelude.{◌≡◌, ◌≤◌, ◌↔◌, refl, true, []}
use ai_daytrader_sim.Prelude.Result.{ok, error, is_ok}
use ai_daytrader_sim.Float.Scaled.{ℤ, pos, scaled_float, ℤ-IsOrdered, ℤ-IsDecided}
use ai_daytrader_sim.Models.Rule.{Mode, RuleGroup, Groups}
use ai_daytrader_sim.Models.Checks.{
  ModelError, validate_depth, validate_window, validate_prices, validate_plan_identity,
}
use ai_daytrader_sim.Models.Nesting.{levels, Filled, validate_depth-Filled}
use ai_daytrader_sim.Models.Prices.{Accepted, validate_prices-Accepted}
use ai_daytrader_sim.Broker.Sample.{plan}
use ai_daytrader_sim.Validator.Sample.{rising, trade_plan}

-- Groups nested one in the other.
abbrev nest : RuleGroup ℤ → RuleGroup ℤ
nest g = RuleGroup.group Mode.any_of [] (Groups.cons g Groups.nil)

four_levels : validate_depth (nest (nest (nest rising))) 1 ≡ ok tt
unfolding validate_depth
four_levels = refl

five_levels : validate_depth (nest (nest (nest (nest rising)))) 1 ≡ error ModelError.nesting
unfolding validate_depth
five_levels = refl

empty_below :
    validate_depth (nest (nest (RuleGroup.group Mode.all_of [] Groups.nil))) 1
    ≡ error ModelError.empty_group
unfolding validate_depth
empty_below = refl

validate_depth-Filled_example :
    (is_ok (validate_depth (nest (nest (nest rising))) 1) ≡ true)
    ↔ ((levels (nest (nest (nest rising))) ≤ 4) × Filled (nest (nest (nest rising))))
validate_depth-Filled_example = validate_depth-Filled (nest (nest (nest rising)))

window_passes : is_ok (validate_window (plan.entry)) ≡ true
unfolding validate_window
window_passes = refl

prices_pass : validate_prices plan ≡ ok plan
unfolding validate_prices
prices_pass = refl

validate_prices-Accepted_example : Accepted plan
validate_prices-Accepted_example =
    validate_prices-Accepted ℤ-IsOrdered ℤ-IsDecided plan plan window_passes prices_pass

stop_too_high :
    validate_prices (record plan { stop_loss = record (plan.stop_loss) { price = pos 9_950 } })
    ≡ error ModelError.stop_above_trigger
unfolding validate_prices
stop_too_high = refl

no_duplicates : validate_plan_identity (trade_plan rising) ≡ ok tt
unfolding validate_plan_identity
no_duplicates = refl
