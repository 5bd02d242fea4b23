-- ===== src/Validator/Conflicts.antt =====
-- The checks of the facts that a rule group's predicates state find a conflict only where no values
-- make all the predicates true.
use ai_daytrader_sim.Prelude.{
  String, ◌≡◌, refl, Bool, true, false, not, ◌&&◌, ◌||◌, Option, none, some, List, [], ◌∷◌, or_else,
  if◌then◌else◌, arith, inl, inr, Option-cases,
}
use ai_daytrader_sim.Prelude.Dict.{Dict, lookup, Entries, Entries-lookup}
use ai_daytrader_sim.Prelude.Result.{ok}
use ai_daytrader_sim.Float.{Float, lt, le, feq}
use ai_daytrader_sim.Float.Laws.{IsOrdered, IsDecided}
use ai_daytrader_sim.Models.Rule.{Value, as_float}
use ai_daytrader_sim.Validator.Contradictions.{
  Interval, same_value, member, empty_interval, outside, check_bounds, check_equals,
}
use ai_daytrader_sim.Validator.Sound.{test, Lower, Upper, Inside, Equal, Unequal, earlier-Unequal}

-- An equality that is stated, if any, holds of the values.
abbrev Met : {R : Type 0} ⦃f : Float R⦄ → Dict (Value R) → String → Option (Value R) → Type 0
Met current name none = Unit
Met current name (some v) = Equal current name v

module _ {R : Type 0} ⦃f : Float R⦄ (o : IsOrdered R) (d : IsDecided R) where
  gap :
      (x l u : R) (ls us : Bool)
      → (if ls then lt l x else le l x) ≡ true
      → (if us then lt x u else le x u) ≡ true
      → (lt u l || feq l u && (ls || us)) ≡ false
  gap x l u ls us h k = ground (
    arith,
    d.eq-le l u,
    o.lt-eq-not-le l x,
    o.lt-eq-not-le x u,
    o.lt-eq-not-le u l,
    o.le_total l x,
    o.le_total x u,
    o.le_trans l x u,
    o.le_trans x u l,
    o.le_trans u l x,
  )

  above :
      (x e l : R) (s : Bool)
      → feq x e ≡ true
      → (if s then lt l x else le l x) ≡ true
      → (lt e l || feq e l && s) ≡ false
  above x e l s h k = ground (
    arith,
    d.eq-le x e,
    d.eq-le e l,
    o.lt-eq-not-le l x,
    o.lt-eq-not-le e l,
    o.le_total l x,
    o.le_trans l x e,
    o.le_trans x e l,
  )

  beneath :
      (x e u : R) (s : Bool)
      → feq x e ≡ true
      → (if s then lt x u else le x u) ≡ true
      → (lt u e || feq e u && s) ≡ false
  beneath x e u s h k = ground (
    arith,
    d.eq-le x e,
    d.eq-le e u,
    o.lt-eq-not-le x u,
    o.lt-eq-not-le u e,
    o.le_total x u,
    o.le_trans e x u,
    o.le_trans u e x,
  )

  apart : (x v w : R) → feq x v ≡ true → not (feq x w) ≡ true → feq w v ≡ false
  apart x v w h k =
      ground (arith, d.eq-le x v, d.eq-le x w, d.eq-le w v, o.le_trans x v w, o.le_trans w v x)

  not_empty :
      (left : Option (Value R)) (lower upper : Option (R × Bool))
      → Lower left lower
      → Upper left upper
      → empty_interval (record { lower = lower; upper = upper }) ≡ false
  not_empty left none u h k = refl
  not_empty left (some (l, ls)) none h k = refl
  not_empty none (some (l, ls)) (some (u, us)) h k = cc
  not_empty (some x) (some (l, ls)) (some (u, us)) h k = gap (as_float x) l u ls us h k

  module _ (current : Dict (Value R)) where
    not_below :
        (name : String) (equal : Option (Value R)) (lower : Option (R × Bool))
        → Met current name equal
        → Lower (lookup name current) lower
        → outside (λ e l. lt e l) equal lower ≡ false
    not_below name none lower h k = refl
    not_below name (some (Value.flag b)) lower h k = refl
    not_below name (some (Value.number e)) none h k = refl
    not_below name (some (Value.number e)) (some (l, s)) h k =
        elim (Option-cases (lookup name current)) [
          | inl q ↦ cc (rw q at h)
          | inr (x, q) ↦ above (as_float x) e l s (rw q at h) (rw q at k)
        ]

    not_beyond :
        (name : String) (equal : Option (Value R)) (upper : Option (R × Bool))
        → Met current name equal
        → Upper (lookup name current) upper
        → outside (λ e u. lt u e) equal upper ≡ false
    not_beyond name none upper h k = refl
    not_beyond name (some (Value.flag b)) upper h k = refl
    not_beyond name (some (Value.number e)) none h k = refl
    not_beyond name (some (Value.number e)) (some (u, s)) h k =
        elim (Option-cases (lookup name current)) [
          | inl q ↦ cc (rw q at h)
          | inr (x, q) ↦ beneath (as_float x) e u s (rw q at h) (rw q at k)
        ]

    lookup-Met :
        (name : String) (equals : Dict (Value R))
        → Entries (Equal current) equals
        → Met current name (lookup name equals)
    lookup-Met name equals h = elim (Option-cases (lookup name equals)) [
      | inl e ↦ rw e tt
      | inr (v, e) ↦ rw e (Entries-lookup (Equal current) name v equals h e)
    ]

    pub check_bounds-ok :
        (equals : Dict (Value R)) (bounds : Dict (Interval R))
        → Entries (Equal current) equals
        → Entries (Inside current) bounds
        → check_bounds equals bounds ≡ ok tt
    unfolding check_bounds
    check_bounds-ok equals [] h k = refl
    check_bounds-ok equals ((name, item) ∷ rest) h ((l, u), k) =
        let met = lookup-Met name equals h in
        rw (
          not_empty (lookup name current) item.lower item.upper l u,
          not_below name (lookup name equals) item.lower met l,
          not_beyond name (lookup name equals) item.upper met u,
          check_bounds-ok equals rest h k,
        )

    differs :
        (name : String) (v w : Value R)
        → Equal current name v
        → test (λ x. not (feq x (as_float w))) (lookup name current) ≡ true
        → same_value w v ≡ false
    differs name v w h k = elim (Option-cases (lookup name current)) [
      | inl q ↦ cc (rw q at h)
      | inr (x, q) ↦ apart (as_float x) (as_float v) (as_float w) (rw q at h) (rw q at k)
    ]

    not_member :
        (name : String) (v : Value R) (vs : List (Value R))
        → Equal current name v
        → Unequal current name vs
        → member v vs ≡ false
    unfolding member
    not_member name v [] h k = refl
    not_member name v (w ∷ vs) h (k, ks) = rw (differs name v w h k, not_member name v vs h ks)

    pub check_equals-ok :
        (not_equals : Dict (List (Value R))) (equals : Dict (Value R))
        → Entries (Unequal current) not_equals
        → Entries (Equal current) equals
        → check_equals not_equals equals ≡ ok tt
    unfolding check_equals
    check_equals-ok not_equals [] h k = refl
    check_equals-ok not_equals ((name, v) ∷ rest) h (k, ks) = rw (
      not_member name v (or_else (lookup name not_equals) []) k
          (earlier-Unequal current name not_equals h),
      check_equals-ok not_equals rest h ks,
    )
