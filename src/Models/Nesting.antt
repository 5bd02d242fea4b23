-- ===== src/Models/Nesting.antt =====
-- The depth of a rule group, described apart from the code, against `validate_depth`.
use ai_daytrader_sim.Prelude.{
  ℕ, suc, ◌+◌, ◌≤◌, max, ◌≡◌, ◌↔◌, refl, true, false, ltb, arith, inl, inr, Bool-cases,
}
use ai_daytrader_sim.Prelude.Result.{◌>>◌, is_ok, raise_if-ok, step-ok}
use ai_daytrader_sim.Models.Rule.{RuleGroup, Groups}
use ai_daytrader_sim.Models.Checks.{ModelError, empty_rule, validate_depth, validate_groups}

unfoldable mutual
  pub levels : {R : Type 0} → RuleGroup R → ℕ
  levels (RuleGroup.group mode ps gs) = suc (deepest gs)

  pub deepest : {R : Type 0} → Groups R → ℕ
  deepest Groups.nil = 0
  deepest (Groups.cons g gs) = max (levels g) (deepest gs)

-- No group below is empty.
unfoldable mutual
  pub Filled : {R : Type 0} → RuleGroup R → Type 0
  Filled (RuleGroup.group mode ps gs) = FilledBelow gs

  pub FilledBelow : {R : Type 0} → Groups R → Type 0
  FilledBelow Groups.nil = Unit
  FilledBelow (Groups.cons g gs) = (empty_rule g ≡ false) × (Filled g × FilledBelow gs)

mutual
  unfolding validate_depth levels Filled

  depth-ok :
      {R : Type 0} (g : RuleGroup R) (d : ℕ)
      → (is_ok (validate_depth g d) ≡ true) ↔ ((d + levels g ≤ 5) × Filled g)
  depth-ok (RuleGroup.group mode ps gs) d = elim (Bool-cases (ltb 4 d)) [
    | inl e ↦ (
      λ h.
          absurd
            (cc (((raise_if-ok (ltb 4 d) ModelError.nesting (validate_groups gs d)).0 h).0, e)),
      λ h. ground (arith, h.0, e),
    )
    | inr e ↦
        let below : d ≤ 4 = ground (arith, e) in
        (
          λ h.
              let r =
                (groups-ok gs d below).0
                  ((raise_if-ok (ltb 4 d) ModelError.nesting (validate_groups gs d)).0 h).1 in
              (omega (arith, r.0), r.1),
          λ h.
              (raise_if-ok (ltb 4 d) ModelError.nesting (validate_groups gs d)).1
                (e, (groups-ok gs d below).1 (omega (arith, h.0), h.1)),
        )
  ]

  groups-ok :
      {R : Type 0} (gs : Groups R) (d : ℕ)
      → d ≤ 4
      → (is_ok (validate_groups gs d) ≡ true) ↔ ((d + deepest gs ≤ 4) × FilledBelow gs)
  groups-ok Groups.nil d h = (λ e. (omega (arith, h), tt), λ e. refl)
  groups-ok (Groups.cons g gs) d h =
      let first =
        raise_if-ok (empty_rule g) ModelError.empty_group
          (validate_depth g (suc d) >> validate_groups gs d) in
      let rest = step-ok (validate_depth g (suc d)) (validate_groups gs d) in
      (
        λ e.
            let a = first.0 e in
            let b = rest.0 a.1 in
            let x = (depth-ok g (suc d)).0 b.0 in
            let y = (groups-ok gs d h).0 b.1 in (omega (arith, x.0, y.0), (a.0, (x.1, y.1))),
        λ e. first.1 (
          e.1.0,
          rest.1 (
            (depth-ok g (suc d)).1 (omega (arith, e.0), e.1.1.0),
            (groups-ok gs d h).1 (omega (arith, e.0), e.1.1.1),
          ),
        ),
      )

-- A rule group passes `validate_depth` exactly if it has at most four levels and none of the groups
-- nested in it, at any level, is empty.
pub validate_depth-Filled :
    {R : Type 0} (g : RuleGroup R)
    → (is_ok (validate_depth g 1) ≡ true) ↔ ((levels g ≤ 4) × Filled g)
validate_depth-Filled g = (
  λ h. let r = (depth-ok g 1).0 h in (omega (arith, r.0), r.1),
  λ h. (depth-ok g 1).1 (omega (arith, h.0), h.1),
)
