-- ===== src/Prelude/Dict.antt =====
-- A Python dict keyed by texts, in insertion order.
use Prim.Native.String.{String}
use mathlib.Core.Path.{◌≡◌, refl, sym, ap, ◌∙◌, subst}
use mathlib.Core.Logic.{inl, inr}
use mathlib.Core.Option.{Option, none, some}
use mathlib.Core.List.{List, [], ◌∷◌}
use native.Mathlib.Omega.{arith}
use text.Mathlib.Text.{◌==◌ as str_eq}
use text.Mathlib.TextEquality.{eq_iff}
use ai_daytrader_sim.Prelude.Tests.{if◌then◌else◌, Bool-cases}

abbrev pub Dict {ℓ} : Type ℓ → Type ℓ
Dict V = List (String × V)

module _ {ℓ} {V : Type ℓ} where
  abbrev pub lookup : String → Dict V → Option V
  lookup k [] = none
  lookup k ((j, v) ∷ d) = if str_eq j k then some v else lookup k d

  -- `d[k] = v`: an old key keeps its place, a new one goes to the end.
  abbrev pub insert : String → V → Dict V → Dict V
  insert k v [] = (k, v) ∷ []
  insert k v ((j, w) ∷ d) = if str_eq j k then (j, v) ∷ d else (j, w) ∷ insert k v d

  -- `d.pop(k, None)`, for the dict that is left.
  abbrev pub erase : String → Dict V → Dict V
  erase k [] = []
  erase k ((j, v) ∷ d) = if str_eq j k then d else (j, v) ∷ erase k d

  pub lookup-insert :
      (k j : String) (v : V) (d : Dict V)
      → lookup j (insert k v d) ≡ (if str_eq k j then some v else lookup j d)
  lookup-insert k j v [] = refl
  lookup-insert k j v ((i, w) ∷ d) =
      ground (arith, eq_iff k j, eq_iff i k, eq_iff i j, lookup-insert k j v d)

  pub lookup-insert_self : (k : String) (v : V) (d : Dict V) → lookup k (insert k v d) ≡ some v
  lookup-insert_self k v d = lookup-insert k k v d ∙ rw ((eq_iff k k).1 refl) refl

  -- `d.update(more)`
  abbrev pub update : Dict V → Dict V → Dict V
  update d [] = d
  update d ((k, v) ∷ more) = update (insert k v d) more

  pub lookup-update :
      (k : String) (d more : Dict V) → lookup k more ≡ none → lookup k (update d more) ≡ lookup k d
  lookup-update k d [] h = refl
  lookup-update k d ((j, v) ∷ more) h =
      ground (arith, lookup-update k (insert j v d) more, lookup-insert j k v d)

  -- The keys in order, and what a loop of `pop` over some keys leaves.
  abbrev pub keys : Dict V → List String
  keys [] = []
  keys ((k, v) ∷ d) = k ∷ keys d

  abbrev pub erase_each : List String → Dict V → Dict V
  erase_each [] d = d
  erase_each (k ∷ ks) d = erase_each ks (erase k d)

  pub erase-missing : (k : String) (d : Dict V) → lookup k d ≡ none → erase k d ≡ d
  erase-missing k [] e = refl
  erase-missing k ((j, v) ∷ d) e = ground (arith, erase-missing k d)

  erase-head : (k : String) (v : V) (d : Dict V) → erase k ((k, v) ∷ d) ≡ d
  erase-head k v d = rw ((eq_iff k k).1 refl) refl

  pub erase_each-keys : (d : Dict V) → erase_each (keys d) d ≡ []
  erase_each-keys [] = refl
  erase_each-keys ((k, v) ∷ d) = ap (erase_each (keys d)) (erase-head k v d) ∙ erase_each-keys d

  -- A dict with one key at most, which is `k`, whose value has the property `P`.
  abbrev pub At : String → (V → Type 0) → Dict V → Type 0
  At k P [] = Unit
  At k P ((j, v) ∷ []) = (j ≡ k) × P v
  At k P (x ∷ y ∷ d) = ⊥

  pub At-erase : (k s : String) (P : V → Type 0) (d : Dict V) → At k P d → At k P (erase s d)
  At-erase k s P [] h = tt
  At-erase k s P ((j, v) ∷ []) h = elim (Bool-cases (str_eq j s)) [
    | inl e ↦ rw e tt
    | inr e ↦ rw e h
  ]
  At-erase k s P (x ∷ y ∷ d) h = absurd h

  pub At-insert :
      (k s : String) (P : V → Type 0) (v : V) (d : Dict V)
      → s ≡ k
      → At k P d
      → P v
      → At k P (insert s v d)
  At-insert k s P v [] e h p = (e, p)
  At-insert k s P v ((j, w) ∷ []) e h p = rw ((eq_iff j s).1 (h.0 ∙ sym e)) (h.0, p)
  At-insert k s P v (x ∷ y ∷ d) e h p = absurd h

  pub At-lookup :
      (k s : String) (P : V → Type 0) (v : V) (d : Dict V)
      → At k P d
      → lookup s d ≡ some v
      → (s ≡ k) × P v
  At-lookup k s P v [] h e = cc
  At-lookup k s P v ((j, w) ∷ []) h e = elim (Bool-cases (str_eq j s)) [
    | inl t ↦ let same : w ≡ v = ground arith in (sym ((eq_iff j s).0 t) ∙ h.0, subst P same h.1)
    | inr t ↦ cc
  ]
  At-lookup k s P v (x ∷ y ∷ d) h e = absurd h

  pub At-erase_self : (k : String) (P : V → Type 0) (d : Dict V) → At k P d → erase k d ≡ []
  At-erase_self k P [] h = refl
  At-erase_self k P ((j, v) ∷ []) h = rw ((eq_iff j k).1 h.0) refl
  At-erase_self k P (x ∷ y ∷ d) h = absurd h

  -- Every entry of a dict has the property `P`.
  abbrev pub Entries : (String → V → Type 0) → Dict V → Type 0
  Entries P [] = Unit
  Entries P ((k, v) ∷ d) = P k v × Entries P d

  pub Entries-lookup :
      (P : String → V → Type 0) (k : String) (v : V) (d : Dict V)
      → Entries P d
      → lookup k d ≡ some v
      → P k v
  Entries-lookup P k v [] h e = cc
  Entries-lookup P k v ((j, w) ∷ d) (h, hs) e = elim (Bool-cases (str_eq j k)) [
    | inl t ↦
        let same : w ≡ v = ground arith in
        subst (λ i. P i v) ((eq_iff j k).0 t) (subst (P j) same h)
    | inr t ↦ Entries-lookup P k v d hs (rw t at e)
  ]

  pub Entries-insert :
      (P : String → V → Type 0) (k : String) (v : V) (d : Dict V)
      → Entries P d
      → P k v
      → Entries P (insert k v d)
  Entries-insert P k v [] h p = (p, tt)
  Entries-insert P k v ((j, w) ∷ d) (h, hs) p = elim (Bool-cases (str_eq j k)) [
    | inl t ↦ rw t (subst (λ i. P i v) (sym ((eq_iff j k).0 t)) p, hs)
    | inr t ↦ rw t (h, Entries-insert P k v d hs p)
  ]
