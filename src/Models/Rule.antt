-- ===== src/Models/Rule.antt =====
-- models.py: predicates and rule groups, and the values that they are evaluated over.
use ai_daytrader_sim.Prelude.{ℕ, String, Bool, List, if◌then◌else◌}
use ai_daytrader_sim.Float.{Float, num}

pub data Operator : Type 0 where
  eq ne gt gte lt lte cross_above cross_below : Operator

-- `float | bool`, the values of indicators.
pub data Value (R : Type 0) : Type 0 where
  number : R → Value R
  flag : Bool → Value R

-- `float | bool | str`, the right side of a predicate: a text names an indicator.
pub data Operand (R : Type 0) : Type 0 where
  literal : Value R → Operand R
  reference : String → Operand R

-- Python's numeric value: `True` is 1 and `False` is 0.
abbrev pub as_float : {R : Type 0} ⦃f : Float R⦄ → Value R → R
as_float (Value.number x) = x
as_float (Value.flag b) = if b then num 1 else num 0

pub record Predicate (R : Type 0) : Type 0 where
  pub indicator : String
  pub operator : Operator
  pub value : Operand R
  pub confirm_ticks : ℕ
  pub hold_above_ms : ℕ
  pub minimum_cross_pct : R
  pub cooldown_sec : ℕ

pub data Mode : Type 0 where
  all_of any_of : Mode

mutual
  pub data RuleGroup (R : Type 0) : Type 0 where
    group : Mode → List (Predicate R) → Groups R → RuleGroup R

  pub data Groups (R : Type 0) : Type 0 where
    nil : Groups R
    cons : RuleGroup R → Groups R → Groups R
