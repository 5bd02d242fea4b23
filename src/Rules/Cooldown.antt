-- ===== src/Rules/Cooldown.antt =====
-- `cooldown_sec` of `evaluate_predicate`, over a stream of ticks.
use mathlib.Core.Path.{subst}
use ai_daytrader_sim.Prelude.{
  ℕ, ◌+◌, ◌*◌, ◌≤◌, ◌≡◌, refl, Bool, true, false, Option, none, some, List, [], ◌∷◌, arith,
  if◌then◌else◌, or_else, Bool-cases, Option-cases, inl, inr,
}
use ai_daytrader_sim.Prelude.Dict.{Dict, lookup}
use ai_daytrader_sim.Float.{Float}
use ai_daytrader_sim.Models.Rule.{Value, Predicate, Operator, as_float}
use ai_daytrader_sim.Rules.{
  CrossDebounceState, us_per_sec, is_cross, track, confirmed, settle, debounce, resolve,
  compare_values, cross_values, evaluate_cross, evaluate_predicate,
}

-- An earlier firing, if there is one, lies at least `d` back.
abbrev pub Gap : ℕ → Option ℕ → ℕ → Type 0
Gap d none t = Unit
Gap d (some u) t = u + d ≤ t

-- Each firing lies at least `d` after the one before it.
abbrev pub Spaced : ℕ → Option ℕ → List ℕ → Type 0
Spaced d last [] = Unit
Spaced d last (t ∷ ts) = Gap d last t × Spaced d (some t) ts

-- What an evaluation leaves: a firing keeps its distance and is noted, no firing changes no note.
abbrev Outcome : ℕ → ℕ → CrossDebounceState → Bool × Option CrossDebounceState → Type 0
Outcome d at s (fired, none) = ⊥
Outcome d at s (true, some u) = Gap d s.last_fired_at at × (u.last_fired_at ≡ some at)
Outcome d at s (false, some u) = u.last_fired_at ≡ s.last_fired_at

track-last_fired_at :
    (crossed condition : Bool) (at : ℕ) (s t : CrossDebounceState)
    → track crossed condition at s ≡ some t
    → t.last_fired_at ≡ s.last_fired_at
unfolding track
track-last_fired_at crossed condition at s t e = ground arith

-- One tick as the predicate sees it: the values, those of the tick before, and the time.
pub record Sample (R : Type 0) : Type 0 where
  pub current : Dict (Value R)
  pub previous : Option (Dict (Value R))
  pub at : ℕ

module _ {R : Type 0} ⦃f : Float R⦄ where
  abbrev cooldown : Predicate R → ℕ
  cooldown p = p.cooldown_sec * us_per_sec

  -- The times at which the predicate fires along a stream of ticks.
  unfoldable pub firings : Predicate R → List (Sample R) → CrossDebounceState → List ℕ
  firings p [] s = []
  firings p (x ∷ xs) s =
      let (fired, s') = evaluate_predicate p x.current x.previous (some s) (some x.at) in
      let rest = firings p xs (or_else s' s) in if fired then x.at ∷ rest else rest

  confirmed-Gap :
      (p : Predicate R) (at : ℕ) (s : CrossDebounceState)
      → confirmed p at s ≡ true
      → Gap (cooldown p) s.last_fired_at at
  unfolding confirmed
  confirmed-Gap p at s c = elim (Option-cases s.last_fired_at) [
    | inl never ↦ rw never tt
    | inr (u, fired) ↦ rw fired (ground arith)
  ]

  settle-Outcome :
      (p : Predicate R) (at : ℕ) (s : CrossDebounceState) (o : Option CrossDebounceState)
      → ((t : CrossDebounceState) → o ≡ some t → t.last_fired_at ≡ s.last_fired_at)
      → let (fired, s') = settle p at s o in Outcome (cooldown p) at s (fired, some s')
  unfolding settle
  settle-Outcome p at s none kept = refl
  settle-Outcome p at s (some t) kept = elim (Bool-cases (confirmed p at t)) [
    | inl c ↦ rw c (rw (← kept t refl) (confirmed-Gap p at t c), refl)
    | inr c ↦ rw c (kept t refl)
  ]

  evaluate_cross-Outcome :
      (p : Predicate R) (values : Option (Bool × Bool)) (at : ℕ) (s : CrossDebounceState)
      → Outcome (cooldown p) at s (evaluate_cross p values (some s) (some at))
  unfolding evaluate_cross debounce
  evaluate_cross-Outcome p none at s = refl
  evaluate_cross-Outcome p (some (crossed, condition)) at s =
      settle-Outcome p at s (track crossed condition at s)
        (track-last_fired_at crossed condition at s)

  compare_values-cross : (o : Operator) (x y : R) → is_cross o ≡ true → compare_values o x y ≡ none
  compare_values-cross Operator.cross_above x y c = refl
  compare_values-cross Operator.cross_below x y c = refl
  compare_values-cross _ x y c = cc

  evaluate_predicate-Outcome :
      (p : Predicate R) (current : Dict (Value R)) (previous : Option (Dict (Value R))) (at : ℕ)
      (s : CrossDebounceState)
      → is_cross p.operator ≡ true
      → Outcome (cooldown p) at s (evaluate_predicate p current previous (some s) (some at))
  unfolding evaluate_predicate
  evaluate_predicate-Outcome p current previous at s cross =
      elim (Option-cases (lookup p.indicator current)) [
        | inl e ↦ rw (e, evaluate_predicate) refl
        | inr (left, e) ↦ elim (Option-cases (resolve p.value current)) [
          | inl e' ↦ rw (e, evaluate_predicate, e') refl
          | inr (right, e') ↦
              rw
                (
                  e,
                  evaluate_predicate,
                  e',
                  compare_values-cross p.operator (as_float left) (as_float right) cross,
                )
                (evaluate_cross-Outcome p (cross_values p left right previous) at s)
        ]
      ]

  firings-Spaced :
      (p : Predicate R) (xs : List (Sample R)) (s : CrossDebounceState)
      → is_cross p.operator ≡ true
      → Spaced (cooldown p) s.last_fired_at (firings p xs s)
  unfolding firings
  firings-Spaced p [] s cross = tt
  firings-Spaced p (x ∷ xs) s cross =
      go (evaluate_predicate p x.current x.previous (some s) (some x.at))
        (evaluate_predicate-Outcome p x.current x.previous x.at s cross)
        (λ s'. firings-Spaced p xs s' cross)
    where
      go :
          (r : Bool × Option CrossDebounceState)
          → Outcome (cooldown p) x.at s r
          → ((s' : CrossDebounceState) → Spaced (cooldown p) s'.last_fired_at (firings p xs s'))
          → let rest = firings p xs (or_else r.1 s) in
            Spaced (cooldown p) s.last_fired_at (if r.0 then x.at ∷ rest else rest)
      go (true, some u) (gap, noted) rest =
          (gap, subst (λ l. Spaced (cooldown p) l (firings p xs u)) noted (rest u))
      go (false, some u) same rest =
          subst (λ l. Spaced (cooldown p) l (firings p xs u)) same (rest u)
      go (fired, none) h rest = absurd h

  -- Along any stream of ticks, two firings of one cross predicate are at least its `cooldown_sec`
  -- apart, and the first one is so far from the firing that the given state remembers, if any.
  pub cooldown_spacing :
      (p : Predicate R) (xs : List (Sample R)) (s : CrossDebounceState)
      → is_cross p.operator ≡ true
      → Spaced (p.cooldown_sec * us_per_sec) s.last_fired_at (firings p xs s)
  cooldown_spacing p xs s cross = firings-Spaced p xs s cross
