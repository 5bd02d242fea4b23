-- ===== src/Rules.antt =====
-- rules.py: predicates with debounced crosses, and groups of them. Times are in microseconds.
pub mod Names
pub mod Debounce
pub mod Cooldown
pub mod Group
pub mod Fired
mod Tests
use ai_daytrader_sim.Prelude.{
  ℕ, zero, suc, ◌+◌, ◌*◌, String, Bool, true, false, not, ◌&&◌, Option, none, some, List, [], ◌∷◌,
  ◌++◌, leb, if◌then◌else◌, is_empty, all, any, or_else,
}
use ai_daytrader_sim.Prelude.Dict.{Dict, lookup, insert}
use ai_daytrader_sim.Float.{Float, ◌⊕◌, ◌⊖◌, ◌⊗◌, ◌⊘◌, num, le, lt, feq, abs}
use ai_daytrader_sim.Models.Rule.{
  Operator, Value, Operand, as_float, Predicate, Mode, RuleGroup, Groups,
}
use Names.{predicate_path, group_path}

pub record CrossDebounceState : Type 0 where
  pub active : Bool
  pub started_at : Option ℕ
  pub confirm_count : ℕ
  pub last_fired_at : Option ℕ

abbrev pub fresh_state : CrossDebounceState
fresh_state = record { active = false; started_at = none; confirm_count = 0; last_fired_at = none }

abbrev pub us_per_ms : ℕ
us_per_ms = 1000

abbrev pub us_per_sec : ℕ
us_per_sec = 1_000_000

-- `operator.startswith("cross_")`
abbrev pub is_cross : Operator → Bool
is_cross Operator.cross_above = true
is_cross Operator.cross_below = true
is_cross _ = false

-- What follows a cross: the counters, and `none` where the function returns `False` at once.
pub track : Bool → Bool → ℕ → CrossDebounceState → Option CrossDebounceState
track crossed condition at s =
    if crossed
    then some (record s { active = true; started_at = some at; confirm_count = 1 })
    else if s.active && condition
    then some (record s { confirm_count = s.confirm_count + 1 })
    else none

-- `started_at` and `last_fired_at` set before: `(at - t).total_seconds() >= d`, and what `None` gives.
abbrev pub elapsed : Option ℕ → ℕ → ℕ → Bool → Bool
elapsed none duration at otherwise = otherwise
elapsed (some t) duration at otherwise = leb (t + duration) at

abbrev pub cleared : CrossDebounceState → CrossDebounceState
cleared s = record s { active = false; started_at = none; confirm_count = 0 }

-- `all(results) if mode == "all" else any(results)`, with no results being false.
pub combine : Mode → List Bool → Bool
combine m [] = false
combine Mode.all_of (b ∷ bs) = all (b ∷ bs)
combine Mode.any_of (b ∷ bs) = any (b ∷ bs)

module _ {R : Type 0} ⦃f : Float R⦄ where
  pub confirmed : Predicate R → ℕ → CrossDebounceState → Bool
  confirmed p at s =
      leb p.confirm_ticks s.confirm_count
      && elapsed s.started_at (p.hold_above_ms * us_per_ms) at (leb p.hold_above_ms 0)
      && elapsed s.last_fired_at (p.cooldown_sec * us_per_sec) at true

  -- What a tracked state gives: the result, and the state that is left.
  pub settle :
      Predicate R → ℕ → CrossDebounceState → Option CrossDebounceState → Bool × CrossDebounceState
  unfolding confirmed
  settle p at s none = (false, cleared s)
  settle p at s (some t) =
      if confirmed p at t
      then (true, record (cleared t) { last_fired_at = some at })
      else (false, t)

  -- The part of `evaluate_predicate` that reads and writes the debounce state.
  pub debounce : Predicate R → Bool → Bool → ℕ → CrossDebounceState → Bool × CrossDebounceState
  unfolding track settle
  debounce p crossed condition at s = settle p at s (track crossed condition at s)

  -- `_resolve`, with `none` for the `KeyError`
  unfoldable pub resolve : Operand R → Dict (Value R) → Option (Value R)
  resolve (Operand.literal v) context = some v
  resolve (Operand.reference name) context = lookup name context

  -- `_cross_condition`
  pub cross_condition : Predicate R → R → R → Bool
  cross_condition p left right =
      let margin = abs right ⊗ p.minimum_cross_pct ⊘ num 100 in
      elim p.operator [
        | Operator.cross_above ↦ le (right ⊕ margin) left
        | _ ↦ le left (right ⊖ margin)
      ]

  -- The comparisons that read the current values alone; `none` for the cross operators.
  abbrev pub compare_values : Operator → R → R → Option Bool
  compare_values Operator.eq left right = some (feq left right)
  compare_values Operator.ne left right = some (not (feq left right))
  compare_values Operator.gt left right = some (lt right left)
  compare_values Operator.gte left right = some (le right left)
  compare_values Operator.lt left right = some (lt left right)
  compare_values Operator.lte left right = some (le left right)
  compare_values _ left right = none

  -- The side of the line on which the earlier value has to be.
  abbrev pub was_before : Operator → R → R → Bool
  was_before Operator.cross_above left right = le left right
  was_before _ left right = le right left

  -- The values that a cross compares, if all of them are there: current left and right, earlier left
  -- and right.
  pub cross_values :
      Predicate R → Value R → Value R → Option (Dict (Value R)) → Option (Bool × Bool)
  unfolding resolve cross_condition
  cross_values p left right none = none
  cross_values p left right (some previous) = elim (lookup p.indicator previous) [
    | none ↦ none
    | some previous_left ↦ elim (resolve p.value previous) [
      | none ↦ none
      | some previous_right ↦
          let condition = cross_condition p (as_float left) (as_float right) in
          some (
            was_before p.operator (as_float previous_left) (as_float previous_right) && condition,
            condition,
          )
    ]
  ]

  -- The result, and the debounce state that is left; a call without a state gives none back.
  pub evaluate_cross :
      Predicate R
      → Option (Bool × Bool)
      → Option CrossDebounceState
      → Option ℕ
      → Bool × Option CrossDebounceState
  unfolding debounce
  evaluate_cross p none state at = (false, state)
  evaluate_cross p (some (crossed, condition)) none at = (crossed, none)
  evaluate_cross p (some (crossed, condition)) (some s) none = (crossed, some s)
  evaluate_cross p (some (crossed, condition)) (some s) (some at) =
      let (fired, s') = debounce p crossed condition at s in (fired, some s')

  pub evaluate_predicate :
      Predicate R
      → Dict (Value R)
      → Option (Dict (Value R))
      → Option CrossDebounceState
      → Option ℕ
      → Bool × Option CrossDebounceState
  unfolding resolve cross_values evaluate_cross
  evaluate_predicate p current previous state at = elim (lookup p.indicator current) [
    | none ↦ (false, state)
    | some left ↦ elim (resolve p.value current) [
      | none ↦ (false, state)
      | some right ↦ elim (compare_values p.operator (as_float left) (as_float right)) [
        | some result ↦ (result, state)
        | none ↦ evaluate_cross p (cross_values p left right previous) state at
      ]
    ]
  ]

  -- One round of the loop over `group.predicates`: `states.setdefault`, then the call, whose changes
  -- to the state object are seen in the dict.
  pub evaluate_entry :
      String
      → ℕ
      → Predicate R
      → Dict (Value R)
      → Option (Dict (Value R))
      → Dict CrossDebounceState
      → ℕ
      → Bool × Dict CrossDebounceState
  unfolding evaluate_predicate
  evaluate_entry path index p current previous states at =
      if is_cross p.operator
      then (let key = predicate_path path index in
          let state = or_else (lookup key states) fresh_state in
          let (result, state') = evaluate_predicate p current previous (some state) (some at) in
          (result, insert key (or_else state' state) states))
      else ((evaluate_predicate p current previous none (some at)).0, states)

  pub evaluate_predicates :
      String
      → ℕ
      → List (Predicate R)
      → Dict (Value R)
      → Option (Dict (Value R))
      → Dict CrossDebounceState
      → ℕ
      → List Bool × Dict CrossDebounceState
  unfolding evaluate_entry
  evaluate_predicates path index [] current previous states at = ([], states)
  evaluate_predicates path index (p ∷ ps) current previous states at =
      let (result, states') = evaluate_entry path index p current previous states at in
      let (results, states'') =
        evaluate_predicates path (index + 1) ps current previous states' at in
      (result ∷ results, states'')

unfoldable mutual
  unfolding evaluate_predicates combine

  pub evaluate_group :
      {R : Type 0} ⦃f : Float R⦄
      → String
      → RuleGroup R
      → Dict (Value R)
      → Option (Dict (Value R))
      → Dict CrossDebounceState
      → ℕ
      → Bool × Dict CrossDebounceState
  evaluate_group path (RuleGroup.group mode ps gs) current previous states at =
      let (own, states') = evaluate_predicates path 0 ps current previous states at in
      let (below, states'') = evaluate_groups path 0 gs current previous states' at in
      (combine mode (own ++ below), states'')

  pub evaluate_groups :
      {R : Type 0} ⦃f : Float R⦄
      → String
      → ℕ
      → Groups R
      → Dict (Value R)
      → Option (Dict (Value R))
      → Dict CrossDebounceState
      → ℕ
      → List Bool × Dict CrossDebounceState
  evaluate_groups path index Groups.nil current previous states at = ([], states)
  evaluate_groups path index (Groups.cons g gs) current previous states at =
      let (result, states') = evaluate_group (group_path path index) g current previous states at in
      let (results, states'') = evaluate_groups path (index + 1) gs current previous states' at in
      (result ∷ results, states'')
