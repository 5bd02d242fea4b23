-- ===== src/Validator/Sound.antt =====
-- A rule group that the validator finds contradictory is true in no values: the facts that it gathers
-- hold wherever its predicates do, and a conflict of facts holds nowhere.
use ai_daytrader_sim.Prelude.{
  String, ◌≡◌, refl, Bool, true, false, not, Option, none, some, List, [], ◌∷◌, or_else,
  if◌then◌else◌, arith, inl, inr, Bool-cases, Option-cases, All,
}
use ai_daytrader_sim.Prelude.Dict.{Dict, lookup, Entries, Entries-lookup, Entries-insert}
use ai_daytrader_sim.Prelude.Result.{Result, ok, error}
use ai_daytrader_sim.Float.{Float, lt, le, feq}
use ai_daytrader_sim.Float.Laws.{IsOrdered, IsDecided}
use ai_daytrader_sim.Models.Rule.{Operator, Value, Operand, Predicate, as_float}
use ai_daytrader_sim.Rules.{is_cross, compare_values, resolve}
use ai_daytrader_sim.Rules.Group.{comparison}
use ai_daytrader_sim.Validator.Contradictions.{
  Contradiction, Interval, Facts, no_bounds, same_value, tighten, raise_lower, cut_upper, replaces,
  note_bound, note_equal, note_not_equal, note,
}

-- A test of the value that an indicator has, false if it has none.
abbrev pub test : {R : Type 0} ⦃f : Float R⦄ → (R → Bool) → Option (Value R) → Bool
test t none = false
test t (some left) = t (as_float left)

abbrev decided : Option Bool → Bool
decided none = false
decided (some b) = b

module _ {R : Type 0} ⦃f : Float R⦄ where
  abbrev pub Lower : Option (Value R) → Option (R × Bool) → Type 0
  Lower left none = Unit
  Lower left (some (l, s)) = test (λ x. if s then lt l x else le l x) left ≡ true

  abbrev pub Upper : Option (Value R) → Option (R × Bool) → Type 0
  Upper left none = Unit
  Upper left (some (u, s)) = test (λ x. if s then lt x u else le x u) left ≡ true

module _ {R : Type 0} ⦃f : Float R⦄ (current : Dict (Value R)) where
  abbrev pub Inside : String → Interval R → Type 0
  Inside name item = Lower (lookup name current) item.lower × Upper (lookup name current) item.upper

  abbrev pub Equal : String → Value R → Type 0
  Equal name v = test (λ x. feq x (as_float v)) (lookup name current) ≡ true

  abbrev pub Unequal : String → List (Value R) → Type 0
  Unequal name vs = All (λ v. test (λ x. not (feq x (as_float v))) (lookup name current) ≡ true) vs

  abbrev pub Describes : Facts R → Type 0
  Describes k = Entries Inside k.bounds × Entries Equal k.equals × Entries Unequal k.not_equals

  abbrev pub Sound : Result Contradiction (Facts R) → Type 0
  Sound (ok k) = Describes k
  Sound (error e) = ⊥

  -- The comparison of an indicator with a literal.
  abbrev pub reading : Operator → Value R → String → Bool
  reading operator v name =
      test (λ x. decided (compare_values operator x (as_float v))) (lookup name current)

  decided-elim : (b : Option Bool) → (elim b [ none ↦ false | some result ↦ result ]) ≡ decided b
  decided-elim none = refl
  decided-elim (some b) = refl

  pub comparison-reading :
      (p : Predicate R) (v : Value R)
      → p.value ≡ Operand.literal v
      → comparison p current ≡ reading p.operator v p.indicator
  unfolding comparison resolve
  comparison-reading p v h = elim (Option-cases (lookup p.indicator current)) [
    | inl e ↦ rw (e, comparison) refl
    | inr (left, e) ↦
        rw (e, comparison, h)
          (decided-elim (compare_values p.operator (as_float left) (as_float v)))
  ]

  raise_lower-Inside :
      (name : String) (v : R) (s : Bool) (item : Interval R)
      → test (λ x. if s then lt v x else le v x) (lookup name current) ≡ true
      → Inside name item
      → Inside name (raise_lower v s item)
  unfolding raise_lower
  raise_lower-Inside name v s item h (l, u) =
      elim (Bool-cases (replaces (λ a b. lt b a) v s item.lower)) [
        | inl e ↦ rw e (h, u)
        | inr e ↦ rw e (l, u)
      ]

  cut_upper-Inside :
      (name : String) (v : R) (s : Bool) (item : Interval R)
      → test (λ x. if s then lt x v else le x v) (lookup name current) ≡ true
      → Inside name item
      → Inside name (cut_upper v s item)
  unfolding cut_upper
  cut_upper-Inside name v s item h (l, u) =
      elim (Bool-cases (replaces (λ a b. lt a b) v s item.upper)) [
        | inl e ↦ rw e (l, h)
        | inr e ↦ rw e (l, u)
      ]

  tighten-Inside :
      (operator : Operator) (name : String) (v : R) (item : Interval R)
      → reading operator (Value.number v) name ≡ true
      → Inside name item
      → Inside name (tighten operator v item)
  unfolding tighten
  tighten-Inside Operator.gt name v item h i = raise_lower-Inside name v true item h i
  tighten-Inside Operator.gte name v item h i = raise_lower-Inside name v false item h i
  tighten-Inside Operator.lt name v item h i = cut_upper-Inside name v true item h i
  tighten-Inside Operator.lte name v item h i = cut_upper-Inside name v false item h i
  tighten-Inside Operator.eq name v item h i = i
  tighten-Inside Operator.ne name v item h i = i
  tighten-Inside Operator.cross_above name v item h i = i
  tighten-Inside Operator.cross_below name v item h i = i

  earlier-Inside :
      (name : String) (b : Dict (Interval R))
      → Entries Inside b
      → Inside name (or_else (lookup name b) no_bounds)
  earlier-Inside name b h = elim (Option-cases (lookup name b)) [
    | inl e ↦ rw e (tt, tt)
    | inr (item, e) ↦ rw e (Entries-lookup Inside name item b h e)
  ]

  note_bound-Describes :
      (operator : Operator) (name : String) (v : R) (k : Facts R)
      → reading operator (Value.number v) name ≡ true
      → Describes k
      → Describes (note_bound name operator v k)
  unfolding note_bound
  note_bound-Describes operator name v k h (b, e, n) =
      let item = or_else (lookup name k.bounds) no_bounds in
      (
        Entries-insert Inside name (tighten operator v item) k.bounds b
            (tighten-Inside operator name v item h (earlier-Inside name k.bounds b)),
        e,
        n,
      )

  -- A cross tells the validator nothing: the bounds stay as they are.
  pub note_cross-Sound :
      (operator : Operator) (value : Operand R) (name : String) (k : Facts R)
      → is_cross operator ≡ true
      → Describes k
      → Sound (note operator value name k)
  unfolding note note_bound tighten
  note_cross-Sound operator (Operand.reference other) name k h i = i
  note_cross-Sound Operator.cross_above (Operand.literal (Value.flag b)) name k h i = i
  note_cross-Sound Operator.cross_below (Operand.literal (Value.flag b)) name k h i = i
  note_cross-Sound Operator.cross_above (Operand.literal (Value.number v)) name k h (b, e, n) =
      (Entries-insert Inside name _ k.bounds b (earlier-Inside name k.bounds b), e, n)
  note_cross-Sound Operator.cross_below (Operand.literal (Value.number v)) name k h (b, e, n) =
      (Entries-insert Inside name _ k.bounds b (earlier-Inside name k.bounds b), e, n)
  note_cross-Sound Operator.eq (Operand.literal v) name k h i = cc h
  note_cross-Sound Operator.ne (Operand.literal v) name k h i = cc h
  note_cross-Sound Operator.gt (Operand.literal v) name k h i = cc h
  note_cross-Sound Operator.gte (Operand.literal v) name k h i = cc h
  note_cross-Sound Operator.lt (Operand.literal v) name k h i = cc h
  note_cross-Sound Operator.lte (Operand.literal v) name k h i = cc h

  pub earlier-Unequal :
      (name : String) (b : Dict (List (Value R)))
      → Entries Unequal b
      → Unequal name (or_else (lookup name b) [])
  earlier-Unequal name b h = elim (Option-cases (lookup name b)) [
    | inl e ↦ rw e tt
    | inr (vs, e) ↦ rw e (Entries-lookup Unequal name vs b h e)
  ]

  note_not_equal-Describes :
      (name : String) (v : Value R) (k : Facts R)
      → reading Operator.ne v name ≡ true
      → Describes k
      → Describes (note_not_equal name v k)
  unfolding note_not_equal
  note_not_equal-Describes name v k h (b, e, n) =
      let earlier = or_else (lookup name k.not_equals) [] in
      (
        b,
        e,
        Entries-insert Unequal name (v ∷ earlier) k.not_equals n
            (h, earlier-Unequal name k.not_equals n),
      )

module _ {R : Type 0} ⦃f : Float R⦄ (o : IsOrdered R) (d : IsDecided R)
    (current : Dict (Value R)) where
  -- Two values that one value equals are equal.
  feq-join : (x a b : R) → feq x a ≡ true → feq x b ≡ true → feq a b ≡ true
  feq-join x a b h k =
      ground (arith, d.eq-le x a, d.eq-le x b, d.eq-le a b, o.le_trans a x b, o.le_trans b x a)

  Equal-join :
      (name : String) (a b : Value R)
      → Equal current name a
      → Equal current name b
      → same_value a b ≡ true
  Equal-join name a b h k = elim (Option-cases (lookup name current)) [
    | inl e ↦ cc (rw e at h)
    | inr (left, e) ↦ feq-join (as_float left) (as_float a) (as_float b) (rw e at h) (rw e at k)
  ]

  note_equal-Sound :
      (name : String) (v : Value R) (k : Facts R)
      → Equal current name v
      → Describes current k
      → Sound current (note_equal name v k)
  unfolding note_equal
  note_equal-Sound name v k h (b, e, n) = elim (Option-cases (lookup name k.equals)) [
    | inl q ↦ rw (q, note_equal) (b, Entries-insert (Equal current) name v k.equals e h, n)
    | inr (earlier, q) ↦
        rw
          (
            q,
            note_equal,
            Equal-join name earlier v (Entries-lookup (Equal current) name earlier k.equals e q) h,
          )
          (b, Entries-insert (Equal current) name v k.equals e h, n)
  ]

  pub note-Sound :
      (operator : Operator) (v : Value R) (name : String) (k : Facts R)
      → reading current operator v name ≡ true
      → Describes current k
      → Sound current (note operator (Operand.literal v) name k)
  unfolding note
  note-Sound Operator.eq v name k h i = note_equal-Sound name v k h i
  note-Sound Operator.ne v name k h i = note_not_equal-Describes current name v k h i
  note-Sound Operator.gt (Value.flag b) name k h i = i
  note-Sound Operator.gt (Value.number v) name k h i =
      note_bound-Describes current Operator.gt name v k h i
  note-Sound Operator.gte (Value.flag b) name k h i = i
  note-Sound Operator.gte (Value.number v) name k h i =
      note_bound-Describes current Operator.gte name v k h i
  note-Sound Operator.lt (Value.flag b) name k h i = i
  note-Sound Operator.lt (Value.number v) name k h i =
      note_bound-Describes current Operator.lt name v k h i
  note-Sound Operator.lte (Value.flag b) name k h i = i
  note-Sound Operator.lte (Value.number v) name k h i =
      note_bound-Describes current Operator.lte name v k h i
  note-Sound Operator.cross_above (Value.flag b) name k h i = i
  note-Sound Operator.cross_above (Value.number v) name k h i =
      note_bound-Describes current Operator.cross_above name v k h i
  note-Sound Operator.cross_below (Value.flag b) name k h i = i
  note-Sound Operator.cross_below (Value.number v) name k h i =
      note_bound-Describes current Operator.cross_below name v k h i
