-- ===== src/Validator/Contradictions.antt =====
-- validator.py, `_assert_no_contradictions`: the conditions that a rule group of mode "all" puts on an
-- indicator, gathered in one pass over its predicates.
use ai_daytrader_sim.Prelude.{
  String, Bool, true, false, not, ◌&&◌, ◌||◌, Option, none, some, List, [], ◌∷◌, ◌++◌, or_else,
  if◌then◌else◌,
}
use ai_daytrader_sim.Prelude.Dict.{Dict, lookup, insert}
use ai_daytrader_sim.Prelude.Result.{Result, ok, error, ◌>>=◌, ◌>>◌, raise_if}
use ai_daytrader_sim.Float.{Float, lt, feq}
use ai_daytrader_sim.Models.Rule.{
  Operator, Value, Operand, Predicate, Mode, RuleGroup, Groups, as_float,
}

-- The errors that `_assert_no_contradictions` raises, with the indicator that each names.
pub data Contradiction : Type 0 where
  equalities conditions equality_lower equality_upper eq_ne : String → Contradiction

-- `item`: the tightest lower and upper bound, each with whether it is strict.
pub record Interval (R : Type 0) : Type 0 where
  pub lower : Option (R × Bool)
  pub upper : Option (R × Bool)

pub record Facts (R : Type 0) : Type 0 where
  pub bounds : Dict (Interval R)
  pub equals : Dict (Value R)
  pub not_equals : Dict (List (Value R))

abbrev pub no_facts : {R : Type 0} → Facts R
no_facts = record { bounds = []; equals = []; not_equals = [] }

abbrev pub no_bounds : {R : Type 0} → Interval R
no_bounds = record { lower = none; upper = none }

module _ {R : Type 0} ⦃f : Float R⦄ where
  -- Python's `==` on numbers and truth values.
  abbrev pub same_value : Value R → Value R → Bool
  same_value a b = feq (as_float a) (as_float b)

  -- `value in values`
  unfoldable pub member : Value R → List (Value R) → Bool
  member a [] = false
  member a (b ∷ bs) = same_value b a || member a bs

  -- `current is None or value > current[0] or (value == current[0] and strict and not current[1])`,
  -- with `further` for the comparison.
  abbrev pub replaces : (R → R → Bool) → R → Bool → Option (R × Bool) → Bool
  replaces further value strict none = true
  replaces further value strict (some (v, s)) = further value v || feq value v && strict && not s

  unfoldable pub raise_lower : R → Bool → Interval R → Interval R
  raise_lower value strict item =
      if replaces (λ a b. lt b a) value strict item.lower
      then record item { lower = some (value, strict) }
      else item

  unfoldable pub cut_upper : R → Bool → Interval R → Interval R
  cut_upper value strict item =
      if replaces (λ a b. lt a b) value strict item.upper
      then record item { upper = some (value, strict) }
      else item

  -- A comparison with a number; a cross leaves the bounds as they are.
  unfoldable pub tighten : Operator → R → Interval R → Interval R
  unfolding raise_lower cut_upper
  tighten Operator.gt value item = raise_lower value true item
  tighten Operator.gte value item = raise_lower value false item
  tighten Operator.lt value item = cut_upper value true item
  tighten Operator.lte value item = cut_upper value false item
  tighten _ value item = item

  unfoldable pub note_bound : String → Operator → R → Facts R → Facts R
  unfolding tighten
  note_bound name operator value k =
      let item = or_else (lookup name k.bounds) no_bounds in
      record k { bounds = insert name (tighten operator value item) k.bounds }

  unfoldable pub note_equal : String → Value R → Facts R → Result Contradiction (Facts R)
  note_equal name value k =
      let noted = record k { equals = insert name value k.equals } in
      elim (lookup name k.equals) [
        | none ↦ ok noted
        | some earlier ↦
            if not (same_value earlier value) then error (equalities name) else ok noted
      ]

  unfoldable pub note_not_equal : String → Value R → Facts R → Facts R
  note_not_equal name value k =
      let earlier = or_else (lookup name k.not_equals) [] in
      record k { not_equals = insert name (value ∷ earlier) k.not_equals }

  -- The body of the loop over the predicates, at an operator, a value and an indicator.
  unfoldable pub note : Operator → Operand R → String → Facts R → Result Contradiction (Facts R)
  unfolding note_bound note_equal note_not_equal
  note operator (Operand.reference other) name k = ok k
  note Operator.eq (Operand.literal value) name k = note_equal name value k
  note Operator.ne (Operand.literal value) name k = ok (note_not_equal name value k)
  note operator (Operand.literal (Value.flag b)) name k = ok k
  note operator (Operand.literal (Value.number value)) name k =
      ok (note_bound name operator value k)

  unfoldable pub note_all : List (Predicate R) → Facts R → Result Contradiction (Facts R)
  unfolding note
  note_all [] k = ok k
  note_all (p ∷ ps) k = note p.operator p.value p.indicator k >>= note_all ps

  -- `lower[0] > upper[0] or (lower[0] == upper[0] and (lower[1] or upper[1]))`
  abbrev pub empty_interval : Interval R → Bool
  empty_interval item = elim item.lower [
    | none ↦ false
    | some (l, ls) ↦ elim item.upper [
      | none ↦ false
      | some (u, us) ↦ lt u l || feq l u && (ls || us)
    ]
  ]

  -- An equality with a number that lies outside a bound; `below` compares.
  abbrev pub outside : (R → R → Bool) → Option (Value R) → Option (R × Bool) → Bool
  outside below (some (Value.number e)) (some (b, strict)) = below e b || feq e b && strict
  outside below _ _ = false

  unfoldable pub check_bounds : Dict (Value R) → Dict (Interval R) → Result Contradiction (Unit {0})
  check_bounds equals [] = ok tt
  check_bounds equals ((name, item) ∷ rest) = do
    raise_if (empty_interval item) (conditions name)
    raise_if (outside (λ e l. lt e l) (lookup name equals) item.lower) (equality_lower name)
    raise_if (outside (λ e u. lt u e) (lookup name equals) item.upper) (equality_upper name)
    check_bounds equals rest

  unfoldable pub check_equals :
      Dict (List (Value R)) → Dict (Value R) → Result Contradiction (Unit {0})
  unfolding member
  check_equals not_equals [] = ok tt
  check_equals not_equals ((name, value) ∷ rest) = do
    raise_if (member value (or_else (lookup name not_equals) [])) (eq_ne name)
    check_equals not_equals rest

  unfoldable pub check_predicates : List (Predicate R) → Result Contradiction (Unit {0})
  unfolding note_all check_bounds check_equals
  check_predicates ps = note_all ps no_facts >>= λ k.
      (check_bounds k.equals k.bounds >> check_equals k.not_equals k.equals)

  -- The predicates of the child groups of mode "all".
  abbrev pub all_children : Groups R → List (Predicate R)
  all_children Groups.nil = []
  all_children (Groups.cons (RuleGroup.group Mode.all_of ps gs) rest) = ps ++ all_children rest
  all_children (Groups.cons (RuleGroup.group Mode.any_of ps gs) rest) = all_children rest

  -- What a group says for itself; a group of mode "any" is not looked at.
  unfoldable pub check_group : RuleGroup R → Result Contradiction (Unit {0})
  unfolding check_predicates
  check_group (RuleGroup.group Mode.all_of ps gs) = check_predicates (ps ++ all_children gs)
  check_group (RuleGroup.group Mode.any_of ps gs) = ok tt

unfoldable mutual
  unfolding check_group

  pub assert_no_contradictions :
      {R : Type 0} ⦃f : Float R⦄ → RuleGroup R → Result Contradiction (Unit {0})
  assert_no_contradictions (RuleGroup.group mode ps gs) =
      check_group (RuleGroup.group mode ps gs) >> assert_children gs

  pub assert_children : {R : Type 0} ⦃f : Float R⦄ → Groups R → Result Contradiction (Unit {0})
  assert_children Groups.nil = ok tt
  assert_children (Groups.cons g gs) = assert_no_contradictions g >> assert_children gs
