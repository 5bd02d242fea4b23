-- ===== src/Rules/Fired.antt =====
-- What follows from a rule group of mode "all" that `evaluate_group` finds true.
use ai_daytrader_sim.Prelude.{
  ℕ, ◌+◌, String, Bool, all, Option, some, ◌⊎◌, ◌≡◌, refl, sym, ◌∙◌, true, List, [], ◌∷◌, ◌++◌,
  arith, inl, inr, Bool-cases, All,
}
use ai_daytrader_sim.Prelude.Dict.{Dict}
use ai_daytrader_sim.Float.{Float}
use ai_daytrader_sim.Models.Rule.{Value, Predicate, Mode, RuleGroup, Groups}
use ai_daytrader_sim.Rules.{
  CrossDebounceState, is_cross, combine, evaluate_entry, evaluate_predicates, evaluate_group,
  evaluate_groups,
}
use ai_daytrader_sim.Rules.Group.{comparison, evaluate_predicate-plain}

-- A predicate that has fired: its comparison is true, unless it is a cross, of which nothing is said.
abbrev pub Fired : {R : Type 0} ⦃f : Float R⦄ → Dict (Value R) → Predicate R → Type 0
Fired current p = (is_cross p.operator ≡ true) ⊎ (comparison p current ≡ true)

combine-all : (bs : List Bool) → combine Mode.all_of bs ≡ true → all bs ≡ true
unfolding combine
combine-all [] h = refl
combine-all (b ∷ bs) h = h

all-append : (xs ys : List Bool) → all (xs ++ ys) ≡ true → (all xs ≡ true) × (all ys ≡ true)
all-append [] ys h = (refl, h)
all-append (x ∷ xs) ys h = ground (arith, all-append xs ys)

module _ {R : Type 0} ⦃f : Float R⦄ (current : Dict (Value R)) (previous : Option (Dict (Value R)))
    (at : ℕ) where
  evaluate_entry-Fired :
      (path : String) (index : ℕ) (p : Predicate R) (states : Dict CrossDebounceState)
      → (evaluate_entry path index p current previous states at).0 ≡ true
      → Fired current p
  unfolding evaluate_entry
  evaluate_entry-Fired path index p states h = elim (Bool-cases (is_cross p.operator)) [
    | inl cross ↦ inl cross
    | inr plain ↦
        inr (sym (evaluate_predicate-plain current p previous (some at) plain) ∙ (rw plain at h))
  ]

  evaluate_predicates-Fired :
      (path : String) (index : ℕ) (ps : List (Predicate R)) (states : Dict CrossDebounceState)
      → all (evaluate_predicates path index ps current previous states at).0 ≡ true
      → All (Fired current) ps
  unfolding evaluate_predicates
  evaluate_predicates-Fired path index [] states h = tt
  evaluate_predicates-Fired path index (p ∷ ps) states h =
      let states' = (evaluate_entry path index p current previous states at).1 in
      (
        evaluate_entry-Fired path index p states (ground (arith, h)),
        evaluate_predicates-Fired path (index + 1) ps states' (ground (arith, h)),
      )

  -- In a group of mode "all" that fires, its predicates and the results of its children are true.
  pub evaluate_group-parts :
      (path : String) (ps : List (Predicate R)) (gs : Groups R) (states : Dict CrossDebounceState)
      → (evaluate_group path (RuleGroup.group Mode.all_of ps gs) current previous states at).0
        ≡ true
      → let states' = (evaluate_predicates path 0 ps current previous states at).1 in
        All (Fired current) ps
        × (all (evaluate_groups path 0 gs current previous states' at).0 ≡ true)
  unfolding evaluate_group
  evaluate_group-parts path ps gs states h =
      let own = evaluate_predicates path 0 ps current previous states at in
      let below = evaluate_groups path 0 gs current previous own.1 at in
      let parts = all-append own.0 below.0 (combine-all (own.0 ++ below.0) h) in
      (evaluate_predicates-Fired path 0 ps states parts.0, parts.1)
