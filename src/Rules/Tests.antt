-- ===== src/Rules/Tests.antt =====
-- Runs of the rules, and their theorems at concrete inputs.
use ai_daytrader_sim.Prelude.{ℕ, ◌*◌, ◌≡◌, ◌≤◌, ◌+◌, refl, true, false, none, some, List, [], ◌∷◌}
use ai_daytrader_sim.Prelude.Dict.{Dict}
use ai_daytrader_sim.Float.Scaled.{ℤ, pos, scaled_float}
use ai_daytrader_sim.Models.Rule.{Value, Operand, Operator, Predicate, Mode, RuleGroup, Groups}
use ai_daytrader_sim.Rules.{
  fresh_state, us_per_sec, us_per_ms, debounce, evaluate_predicate, evaluate_group,
}
use ai_daytrader_sim.Rules.Debounce.{Observation, Streak, after, fired-Streak}
use ai_daytrader_sim.Rules.Cooldown.{Sample, Spaced, firings, cooldown_spacing}
use ai_daytrader_sim.Rules.Group.{holds, group_reading}

-- Two ticks above the line, half a second apart, with a minute of cooldown.
abbrev above_vwap : Predicate ℤ
above_vwap = record {
  indicator = "last";
  operator = Operator.cross_above;
  value = Operand.reference "vwap_regular";
  confirm_ticks = 2;
  hold_above_ms = 500;
  minimum_cross_pct = pos 0;
  cooldown_sec = 60;
}

abbrev values : ℕ → Dict (Value ℤ)
values last = ("last", Value.number (pos last)) ∷ ("vwap_regular", Value.number (pos 100)) ∷ []

abbrev history : List Observation
history = record { crossed = true; condition = true; at = 1_000_000 } ∷ []

abbrev second : Observation
second = record { crossed = false; condition = true; at = 1_500_000 }

abbrev stream : List (Sample ℤ)
stream =
    record { current = values 101; previous = some (values 99); at = 1_000_000 }
    ∷ record { current = values 102; previous = some (values 101); at = 1_500_000 }
    ∷ record { current = values 103; previous = some (values 102); at = 2_500_000 }
    ∷ []

fires_once : firings above_vwap stream fresh_state ≡ 1_500_000 ∷ []
unfolding firings evaluate_predicate
fires_once = refl

fired-Streak_example :
    (n t : ℕ) × Streak n t (second ∷ history) × (2 ≤ n) × (t + 500 * us_per_ms ≤ 1_500_000)
unfolding debounce after
fired-Streak_example = fired-Streak above_vwap second history refl

cooldown_spacing_example : Spaced (60 * us_per_sec) none (firings above_vwap stream fresh_state)
cooldown_spacing_example = cooldown_spacing above_vwap stream fresh_state refl

abbrev over : Predicate ℤ
over = record above_vwap {
  operator = Operator.gt;
  confirm_ticks = 1;
  hold_above_ms = 0;
  cooldown_sec = 0;
}

abbrev nested : RuleGroup ℤ
nested = RuleGroup.group Mode.all_of (over ∷ []) (
    Groups.cons
      (RuleGroup.group Mode.any_of
        (record over { operator = Operator.lt; value = Operand.literal (Value.number (pos 50)) }
          ∷ record over { value = Operand.reference "rsi_14_1m_regular" }
          ∷ [])
        Groups.nil)
      Groups.nil)

group_reading_example :
    evaluate_group "root" nested (values 101) none [] 7 ≡ (holds nested (values 101), [])
group_reading_example =
    group_reading "root" nested (values 101) none [] 7 ((refl, tt), (((refl, (refl, tt)), tt), tt))

nested_fails : evaluate_group "root" nested (values 101) none [] 7 ≡ (false, [])
unfolding evaluate_group
nested_fails = refl
