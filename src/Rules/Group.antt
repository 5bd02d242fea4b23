-- ===== src/Rules/Group.antt =====
-- `evaluate_group` against a reading of a rule group that keeps no states.
use ai_daytrader_sim.Prelude.{
  ℕ, ◌+◌, String, ◌≡◌, refl, ap, Bool, true, false, not, ◌&&◌, ◌||◌, Option, none, some, List, [],
  ◌∷◌, ◌++◌, arith, all, any, is_empty,
}
use ai_daytrader_sim.Prelude.Dict.{Dict, lookup}
use ai_daytrader_sim.Float.{Float}
use ai_daytrader_sim.Models.Rule.{Value, Predicate, Mode, RuleGroup, Groups, as_float}
use ai_daytrader_sim.Rules.{
  CrossDebounceState, is_cross, resolve, compare_values, evaluate_predicate, evaluate_entry,
  evaluate_predicates, combine, evaluate_group, evaluate_groups,
}
use ai_daytrader_sim.Rules.Names.{group_path}

-- The truth of a comparison in a set of values: both sides are there and stand in the relation.
unfoldable pub comparison : {R : Type 0} ⦃f : Float R⦄ → Predicate R → Dict (Value R) → Bool
comparison p current = elim (lookup p.indicator current) [
  | none ↦ false
  | some left ↦ elim (resolve p.value current) [
    | none ↦ false
    | some right ↦ elim (compare_values p.operator (as_float left) (as_float right)) [
      | none ↦ false
      | some result ↦ result
    ]
  ]
]

abbrev pub join : Mode → Bool → Bool → Bool
join Mode.all_of x y = x && y
join Mode.any_of x y = x || y

-- What a mode gives for no members at all, as the start of a fold.
abbrev pub unit : Mode → Bool
unit Mode.all_of = true
unit Mode.any_of = false

abbrev pub no_groups : {R : Type 0} → Groups R → Bool
no_groups Groups.nil = true
no_groups (Groups.cons g gs) = false

abbrev pub NoCross : {R : Type 0} → List (Predicate R) → Type 0
NoCross [] = Unit
NoCross (p ∷ ps) = (is_cross p.operator ≡ false) × NoCross ps

unfoldable pub fold_predicates :
    {R : Type 0} ⦃f : Float R⦄ → Mode → List (Predicate R) → Dict (Value R) → Bool
fold_predicates mode [] current = unit mode
fold_predicates mode (p ∷ ps) current =
    join mode (comparison p current) (fold_predicates mode ps current)

unfoldable mutual
  -- A group holds if it is not empty and all (any) of its members do. A cross reads as false: the
  -- reading is that of groups without crosses.
  pub holds : {R : Type 0} ⦃f : Float R⦄ → RuleGroup R → Dict (Value R) → Bool
  holds (RuleGroup.group mode ps gs) current =
      not (is_empty ps && no_groups gs)
      && join mode (fold_predicates mode ps current) (fold_groups mode gs current)

  pub fold_groups : {R : Type 0} ⦃f : Float R⦄ → Mode → Groups R → Dict (Value R) → Bool
  fold_groups mode Groups.nil current = unit mode
  fold_groups mode (Groups.cons g gs) current =
      join mode (holds g current) (fold_groups mode gs current)

abbrev mutual
  pub Plain : {R : Type 0} → RuleGroup R → Type 0
  Plain (RuleGroup.group mode ps gs) = NoCross ps × PlainGroups gs

  pub PlainGroups : {R : Type 0} → Groups R → Type 0
  PlainGroups Groups.nil = Unit
  PlainGroups (Groups.cons g gs) = Plain g × PlainGroups gs

abbrev reduce : Mode → List Bool → Bool
reduce Mode.all_of bs = all bs
reduce Mode.any_of bs = any bs

reduce-append :
    (m : Mode) (xs ys : List Bool) → reduce m (xs ++ ys) ≡ join m (reduce m xs) (reduce m ys)
reduce-append Mode.all_of [] ys = refl
reduce-append Mode.all_of (x ∷ xs) ys = ground (arith, reduce-append Mode.all_of xs ys)
reduce-append Mode.any_of [] ys = refl
reduce-append Mode.any_of (x ∷ xs) ys = ground (arith, reduce-append Mode.any_of xs ys)

combine-reduce : (m : Mode) (bs : List Bool) → combine m bs ≡ (not (is_empty bs) && reduce m bs)
unfolding combine
combine-reduce m [] = refl
combine-reduce Mode.all_of (b ∷ bs) = refl
combine-reduce Mode.any_of (b ∷ bs) = refl

module _ {R : Type 0} ⦃f : Float R⦄ (current : Dict (Value R)) where
  abbrev comparisons : List (Predicate R) → List Bool
  comparisons [] = []
  comparisons (p ∷ ps) = comparison p current ∷ comparisons ps

  abbrev group_results : Groups R → List Bool
  group_results Groups.nil = []
  group_results (Groups.cons g gs) = holds g current ∷ group_results gs

  reduce-comparisons :
      (m : Mode) (ps : List (Predicate R))
      → reduce m (comparisons ps) ≡ fold_predicates m ps current
  unfolding fold_predicates
  reduce-comparisons Mode.all_of [] = refl
  reduce-comparisons Mode.any_of [] = refl
  reduce-comparisons Mode.all_of (p ∷ ps) = ap (◌&&◌ _) (reduce-comparisons Mode.all_of ps)
  reduce-comparisons Mode.any_of (p ∷ ps) = ap (◌||◌ _) (reduce-comparisons Mode.any_of ps)

  reduce-group_results :
      (m : Mode) (gs : Groups R) → reduce m (group_results gs) ≡ fold_groups m gs current
  unfolding fold_groups
  reduce-group_results Mode.all_of Groups.nil = refl
  reduce-group_results Mode.any_of Groups.nil = refl
  reduce-group_results Mode.all_of (Groups.cons g gs) =
      ap (◌&&◌ _) (reduce-group_results Mode.all_of gs)
  reduce-group_results Mode.any_of (Groups.cons g gs) =
      ap (◌||◌ _) (reduce-group_results Mode.any_of gs)

  is_empty-results :
      (ps : List (Predicate R)) (gs : Groups R)
      → is_empty (comparisons ps ++ group_results gs) ≡ (is_empty ps && no_groups gs)
  is_empty-results [] Groups.nil = refl
  is_empty-results [] (Groups.cons g gs) = refl
  is_empty-results (p ∷ ps) gs = refl

  combine-holds :
      (m : Mode) (ps : List (Predicate R)) (gs : Groups R)
      → combine m (comparisons ps ++ group_results gs) ≡ holds (RuleGroup.group m ps gs) current
  unfolding holds
  combine-holds m ps gs = rw (
    combine-reduce,
    is_empty-results ps gs,
    reduce-append m (comparisons ps) (group_results gs),
    reduce-comparisons m ps,
    reduce-group_results m gs,
  )

  pub evaluate_predicate-plain :
      (p : Predicate R) (previous : Option (Dict (Value R))) (at : Option ℕ)
      → is_cross p.operator ≡ false
      → (evaluate_predicate p current previous none at).0 ≡ comparison p current
  unfolding evaluate_predicate comparison
  evaluate_predicate-plain p previous at h = ground arith

  evaluate_predicates-plain :
      (path : String) (index : ℕ) (ps : List (Predicate R)) (previous : Option (Dict (Value R)))
      (states : Dict CrossDebounceState) (at : ℕ)
      → NoCross ps
      → evaluate_predicates path index ps current previous states at ≡ (comparisons ps, states)
  unfolding evaluate_predicates evaluate_entry
  evaluate_predicates-plain path index [] previous states at h = refl
  evaluate_predicates-plain path index (p ∷ ps) previous states at h = rw (
    h.0,
    evaluate_predicate-plain p previous (some at) h.0,
    evaluate_predicates-plain path (index + 1) ps previous states at h.1,
  )

mutual
  unfolding evaluate_group

  evaluate_group-holds :
      {R : Type 0} ⦃f : Float R⦄ (path : String) (g : RuleGroup R) (current : Dict (Value R))
      (previous : Option (Dict (Value R))) (states : Dict CrossDebounceState) (at : ℕ)
      → Plain g
      → evaluate_group path g current previous states at ≡ (holds g current, states)
  evaluate_group-holds path (RuleGroup.group mode ps gs) current previous states at h = rw (
    evaluate_predicates-plain current path 0 ps previous states at h.0,
    evaluate_groups-holds path 0 gs current previous states at h.1,
    combine-holds current mode ps gs,
  )

  evaluate_groups-holds :
      {R : Type 0} ⦃f : Float R⦄ (path : String) (index : ℕ) (gs : Groups R)
      (current : Dict (Value R)) (previous : Option (Dict (Value R)))
      (states : Dict CrossDebounceState) (at : ℕ)
      → PlainGroups gs
      → evaluate_groups path index gs current previous states at
        ≡ (group_results current gs, states)
  evaluate_groups-holds path index Groups.nil current previous states at h = refl
  evaluate_groups-holds path index (Groups.cons g gs) current previous states at h = rw (
    evaluate_group-holds (group_path path index) g current previous states at h.0,
    evaluate_groups-holds path (index + 1) gs current previous states at h.1,
  )

-- A rule group without cross operators, at any depth of nesting, evaluates to its reading (not empty,
-- and all or any of its predicates and groups hold in the current values, a predicate with a missing
-- value being false), whatever the earlier values and the time, and leaves the debounce states alone.
pub group_reading :
    {R : Type 0} ⦃f : Float R⦄ (path : String) (g : RuleGroup R) (current : Dict (Value R))
    (previous : Option (Dict (Value R))) (states : Dict CrossDebounceState) (at : ℕ)
    → Plain g
    → evaluate_group path g current previous states at ≡ (holds g current, states)
group_reading path g current previous states at h =
    evaluate_group-holds path g current previous states at h
