-- ===== src/Validator/Contradicted.antt =====
-- What a group that the validator rejects as contradictory is: one that, or a part of which, can never
-- be true.
use ai_daytrader_sim.Prelude.{
  ℕ, ◌+◌, String, all, Option, ◌≡◌, refl, sym, ◌∙◌, true, false, List, [], ◌∷◌, ◌++◌, arith, inl,
  inr, Bool-cases, All, All-append,
}
use ai_daytrader_sim.Prelude.Dict.{Dict}
use ai_daytrader_sim.Prelude.Result.{Result, ok, error, ◌>>=◌, ◌>>◌, error-step}
use ai_daytrader_sim.Float.{Float}
use ai_daytrader_sim.Float.Laws.{IsOrdered, IsDecided}
use ai_daytrader_sim.Models.Rule.{Operator, Value, Operand, Predicate, Mode, RuleGroup, Groups}
use ai_daytrader_sim.Rules.{CrossDebounceState, evaluate_group, evaluate_groups}
use ai_daytrader_sim.Rules.Names.{group_path}
use ai_daytrader_sim.Rules.Fired.{Fired, evaluate_group-parts}
use ai_daytrader_sim.Validator.Contradictions.{
  Contradiction, Facts, no_facts, note, note_all, check_bounds, check_equals, check_predicates,
}
use ai_daytrader_sim.Validator.Contradictions.{
  all_children, check_group, assert_no_contradictions, assert_children,
}
use ai_daytrader_sim.Validator.Sound.{
  Describes, Sound, reading, comparison-reading, note-Sound, note_cross-Sound,
}
use ai_daytrader_sim.Validator.Conflicts.{check_bounds-ok, check_equals-ok}

module _ {R : Type 0} ⦃f : Float R⦄ (o : IsOrdered R) (d : IsDecided R)
    (current : Dict (Value R)) where
  note_operand-Sound :
      (operator : Operator) (value : Operand R) (name : String) (k : Facts R)
      → ((v : Value R) → value ≡ Operand.literal v → reading current operator v name ≡ true)
      → Describes current k
      → Sound current (note operator value name k)
  unfolding note
  note_operand-Sound operator (Operand.reference other) name k h i = i
  note_operand-Sound operator (Operand.literal v) name k h i =
      note-Sound o d current operator v name k (h v refl) i

  bind-Sound :
      (m : Result Contradiction (Facts R)) (next : Facts R → Result Contradiction (Facts R))
      → Sound current m
      → ((k : Facts R) → Describes current k → Sound current (next k))
      → Sound current (m >>= next)
  bind-Sound (ok k) next h n = n k h
  bind-Sound (error e) next h n = absurd h

  note_all-Sound :
      (ps : List (Predicate R)) (k : Facts R)
      → All (Fired current) ps
      → Describes current k
      → Sound current (note_all ps k)
  unfolding note_all
  note_all-Sound [] k h i = i
  note_all-Sound (p ∷ ps) k (h, hs) i =
      bind-Sound (note p.operator p.value p.indicator k) (note_all ps)
        (elim h [
          | inl cross ↦ note_cross-Sound current p.operator p.value p.indicator k cross i
          | inr true_now ↦
              note_operand-Sound p.operator p.value p.indicator k
                (λ v e. sym (comparison-reading current p v e) ∙ true_now) i
        ])
        (λ k'. note_all-Sound ps k' hs)

  checks-ok :
      (m : Result Contradiction (Facts R))
      → Sound current m
      → (m >>= λ k. (check_bounds k.equals k.bounds >> check_equals k.not_equals k.equals)) ≡ ok tt
  checks-ok (ok k) (b, e, n) = rw (
    check_bounds-ok o d current k.equals k.bounds e b,
    check_equals-ok o d current k.not_equals k.equals n e,
  )
  checks-ok (error e) h = absurd h

  -- Predicates that are all true are not contradictory.
  check_predicates-ok :
      (ps : List (Predicate R)) → All (Fired current) ps → check_predicates ps ≡ ok tt
  unfolding check_predicates
  check_predicates-ok ps h =
      checks-ok (note_all ps no_facts) (note_all-Sound ps no_facts h (tt, tt, tt))

module _ {R : Type 0} ⦃f : Float R⦄ (current : Dict (Value R)) (previous : Option (Dict (Value R)))
    (at : ℕ) where
  evaluate_groups-Fired :
      (path : String) (index : ℕ) (gs : Groups R) (states : Dict CrossDebounceState)
      → all (evaluate_groups path index gs current previous states at).0 ≡ true
      → All (Fired current) (all_children gs)
  unfolding evaluate_group
  evaluate_groups-Fired path index Groups.nil states h = tt
  evaluate_groups-Fired path index (Groups.cons (RuleGroup.group Mode.all_of ps gs) rest) states h =
      let g = RuleGroup.group Mode.all_of ps gs in
      let states' = (evaluate_group (group_path path index) g current previous states at).1 in
      All-append (Fired current) ps (all_children rest)
        (evaluate_group-parts current previous at (group_path path index) ps gs states
          (ground (arith, h))).0
        (evaluate_groups-Fired path (index + 1) rest states' (ground (arith, h)))
  evaluate_groups-Fired path index (Groups.cons (RuleGroup.group Mode.any_of ps gs) rest) states h =
      let g = RuleGroup.group Mode.any_of ps gs in
      let states' = (evaluate_group (group_path path index) g current previous states at).1 in
      evaluate_groups-Fired path (index + 1) rest states' (ground (arith, h))

pub data Member {R : Type 0} : RuleGroup R → Groups R → Type 0 where
  here : {g : RuleGroup R} (gs : Groups R) → Member g (Groups.cons g gs)
  there :
      {g : RuleGroup R} (h : RuleGroup R) {gs : Groups R}
      → Member g gs
      → Member g (Groups.cons h gs)

-- A part of a rule group, at any depth; the group itself is one.
pub data Part {R : Type 0} : RuleGroup R → RuleGroup R → Type 0 where
  whole : {g : RuleGroup R} → Part g g
  child :
      {g s : RuleGroup R} (mode : Mode) (ps : List (Predicate R)) (gs : Groups R)
      → Member g gs
      → Part s g
      → Part s (RuleGroup.group mode ps gs)

-- A group that `evaluate_group` never finds true: at no path, in no values, whatever the values before
-- them, the debounce states and the time.
abbrev pub Never : {R : Type 0} ⦃f : Float R⦄ → RuleGroup R → Type 0
Never {R} g =
    (path : String) (current : Dict (Value R)) (previous : Option (Dict (Value R)))
    (states : Dict CrossDebounceState) (at : ℕ)
    → (evaluate_group path g current previous states at).0 ≡ false

-- Some part of the group, or of one of the groups, is never true.
abbrev pub Dead : {R : Type 0} ⦃f : Float R⦄ → RuleGroup R → Type 0
Dead {R} g = (s : RuleGroup R) × Part s g × Never s

abbrev DeadChild : {R : Type 0} ⦃f : Float R⦄ → Groups R → Type 0
DeadChild {R} gs = (g : RuleGroup R) × Member g gs × Dead g

module _ {R : Type 0} ⦃f : Float R⦄ (o : IsOrdered R) (d : IsDecided R) where
  check_group-ok :
      (g : RuleGroup R) (path : String) (current : Dict (Value R))
      (previous : Option (Dict (Value R))) (states : Dict CrossDebounceState) (at : ℕ)
      → (evaluate_group path g current previous states at).0 ≡ true
      → check_group g ≡ ok tt
  unfolding check_group
  check_group-ok (RuleGroup.group Mode.all_of ps gs) path current previous states at h =
      let (p, g) = evaluate_group-parts current previous at path ps gs states h in
      check_predicates-ok o d current (ps ++ all_children gs) (
        All-append (Fired current) ps (all_children gs) p
          (evaluate_groups-Fired current previous at path 0 gs _ g))
  check_group-ok (RuleGroup.group Mode.any_of ps gs) path current previous states at h = refl

  check_group-Never : (g : RuleGroup R) (e : Contradiction) → check_group g ≡ error e → Never g
  check_group-Never g e h path current previous states at =
      elim (Bool-cases (evaluate_group path g current previous states at).0) [
        | inl t ↦ cc (sym (check_group-ok g path current previous states at t) ∙ h)
        | inr t ↦ t
      ]

mutual
  unfolding assert_no_contradictions

  assert-Dead :
      {R : Type 0} ⦃f : Float R⦄ (o : IsOrdered R) (d : IsDecided R) (g : RuleGroup R)
      (e : Contradiction)
      → assert_no_contradictions g ≡ error e
      → Dead g
  assert-Dead o d (RuleGroup.group mode ps gs) e h =
      elim (error-step (check_group (RuleGroup.group mode ps gs)) (assert_children gs) e h) [
        | inl c ↦ (
          RuleGroup.group mode ps gs,
          whole,
          check_group-Never o d (RuleGroup.group mode ps gs) e c,
        )
        | inr c ↦
            let (g, m, (s, p, n)) = assert_children-Dead o d gs e c in (s, child mode ps gs m p, n)
      ]

  assert_children-Dead :
      {R : Type 0} ⦃f : Float R⦄ (o : IsOrdered R) (d : IsDecided R) (gs : Groups R)
      (e : Contradiction)
      → assert_children gs ≡ error e
      → DeadChild gs
  assert_children-Dead o d Groups.nil e h = cc
  assert_children-Dead o d (Groups.cons g gs) e h =
      elim (error-step (assert_no_contradictions g) (assert_children gs) e h) [
        | inl c ↦ (g, here gs, assert-Dead o d g e c)
        | inr c ↦ let (g', m, dead) = assert_children-Dead o d gs e c in (g', there g m, dead)
      ]

-- If the validator rejects a rule group as contradictory, some part of it, the group itself or one
-- nested in it at any depth, is never found true by `evaluate_group`, whatever the values, the values
-- before them, the debounce states and the time, also if it has cross operators. The numbers are
-- ordered and `==` agrees with the order.
pub contradiction-Dead :
    {R : Type 0} ⦃f : Float R⦄ (o : IsOrdered R) (d : IsDecided R) (g : RuleGroup R)
    (e : Contradiction)
    → assert_no_contradictions g ≡ error e
    → Dead g
contradiction-Dead o d g e h = assert-Dead o d g e h
