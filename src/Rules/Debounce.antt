-- ===== src/Rules/Debounce.antt =====
-- The debounce of the cross operators in `evaluate_predicate`, over streams of evaluations.
use mathlib.Core.Path.{subst₂}
use ai_daytrader_sim.Prelude.{
  ℕ, suc, ◌+◌, ◌*◌, ◌≤◌, ◌≡◌, refl, Bool, true, Option, none, some, List, [], ◌∷◌, arith,
  Bool-cases, inl, inr,
}
use ai_daytrader_sim.Float.{Float}
use ai_daytrader_sim.Models.Rule.{Predicate}
use ai_daytrader_sim.Rules.{
  CrossDebounceState, fresh_state, us_per_ms, track, confirmed, settle, debounce,
}

-- What one evaluation hands to the debounce: the cross, the standing condition, and the time.
pub record Observation : Type 0 where
  pub crossed : Bool
  pub condition : Bool
  pub at : ℕ

-- The newest `n` observations of a history (newest first) run on from a cross at the time `t`.
pub data Streak : ℕ → ℕ → List Observation → Type 0 where
  start : (o : Observation) (h : List Observation) → o.crossed ≡ true → Streak 1 o.at (o ∷ h)
  grow :
      {n t : ℕ} {h : List Observation} (o : Observation)
      → o.condition ≡ true
      → Streak n t h
      → Streak (suc n) t (o ∷ h)

abbrev pub IsTracked : List Observation → CrossDebounceState → Type 0
IsTracked h s = (t : ℕ) × (s.started_at ≡ some t) × Streak s.confirm_count t h

Streak-cast : {m n t u : ℕ} {h : List Observation} → Streak m t h → m ≡ n → t ≡ u → Streak n u h
Streak-cast {h} k p q = subst₂ (λ a b. Streak a b h) p q k

track-IsTracked :
    (o : Observation) (h : List Observation) (s s' : CrossDebounceState)
    → (s.active ≡ true → IsTracked h s)
    → track o.crossed o.condition o.at s ≡ some s'
    → IsTracked (o ∷ h) s'
unfolding track
track-IsTracked o h s s' inv e = elim (Bool-cases o.crossed) [
  | inl c ↦ (o.at, ground arith, Streak-cast (Streak.start o h c) (ground arith) refl)
  | inr c ↦
      let (t, begun, streak) = inv (ground arith) in
      (t, ground arith, Streak-cast (Streak.grow o (ground arith) streak) (ground arith) refl)
]

module _ {R : Type 0} ⦃f : Float R⦄ where
  -- The state after a history of observations, newest first, from a new state.
  unfoldable pub after : Predicate R → List Observation → CrossDebounceState
  after p [] = fresh_state
  after p (o ∷ h) = (debounce p o.crossed o.condition o.at (after p h)).1

  settle-active :
      (p : Predicate R) (at : ℕ) (s : CrossDebounceState) (o : Option CrossDebounceState)
      → (settle p at s o).1.active ≡ true
      → o ≡ some (settle p at s o).1
  unfolding settle
  settle-active p at s none a = cc
  settle-active p at s (some t) a = ground arith

  settle-fired :
      (p : Predicate R) (at : ℕ) (s : CrossDebounceState) (o : Option CrossDebounceState)
      → (settle p at s o).0 ≡ true
      → (t : CrossDebounceState) × (o ≡ some t)
        × (confirmed p at t ≡ true)
        × ((settle p at s o).1.last_fired_at ≡ some at)
  unfolding settle
  settle-fired p at s none a = cc
  settle-fired p at s (some t) a = (t, refl, ground arith, ground arith)

  after-IsTracked :
      (p : Predicate R) (h : List Observation) → (after p h).active ≡ true → IsTracked h (after p h)
  unfolding after debounce
  after-IsTracked p [] a = cc
  after-IsTracked p (o ∷ h) a =
      track-IsTracked o h (after p h) _ (after-IsTracked p h)
        (settle-active p o.at (after p h) (track o.crossed o.condition o.at (after p h)) a)

  confirmed_lem :
      (p : Predicate R) (at t : ℕ) (s : CrossDebounceState)
      → s.started_at ≡ some t
      → confirmed p at s ≡ true
      → (p.confirm_ticks ≤ s.confirm_count) × (t + p.hold_above_ms * us_per_ms ≤ at)
  unfolding confirmed
  confirmed_lem p at t s e c = ground arith

  -- A cross predicate that fires has seen, up to this observation, an unbroken run of at least
  -- `confirm_ticks` observations: the first is a cross, on each later one the condition stands, and
  -- the run began at least `hold_above_ms` milliseconds ago.
  pub fired-Streak :
      (p : Predicate R) (o : Observation) (h : List Observation)
      → (debounce p o.crossed o.condition o.at (after p h)).0 ≡ true
      → (n t : ℕ) × Streak n t (o ∷ h)
        × (p.confirm_ticks ≤ n)
        × (t + p.hold_above_ms * us_per_ms ≤ o.at)
  unfolding debounce
  fired-Streak p o h fired =
      let s = after p h in
      let (s', e, c, last) = settle-fired p o.at s (track o.crossed o.condition o.at s) fired in
      let (t, begun, streak) = track-IsTracked o h s s' (after-IsTracked p h) e in
      let (enough, held) = confirmed_lem p o.at t s' begun c in
      (s'.confirm_count, t, streak, enough, held)
