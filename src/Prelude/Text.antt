-- ===== src/Prelude/Text.antt =====
-- `str.upper` on the ASCII letters.
pub use text.Mathlib.Text.{starts_with, find?}
use Prim.Native.Char.{Char, code}
use Prim.Native.String.{String}
use Prim.Native.Nat.{ℕ}
use mathlib.Core.List.{List, [], ◌∷◌}
use mathlib.Core.Path.{◌≡◌, refl, ap}
use mathlib.Core.Logic.{◌⊎◌, inl, inr}
use ai_daytrader_sim.Prelude.Tests.{◌==◌, if◌then◌else◌, Bool-cases}

-- The codes of the lower case letters, each with its upper case letter.
abbrev letters : List (ℕ × Char)
letters =
    (b'a', "A")
    ∷ (b'b', "B")
    ∷ (b'c', "C")
    ∷ (b'd', "D")
    ∷ (b'e', "E")
    ∷ (b'f', "F")
    ∷ (b'g', "G")
    ∷ (b'h', "H")
    ∷ (b'i', "I")
    ∷ (b'j', "J")
    ∷ (b'k', "K")
    ∷ (b'l', "L")
    ∷ (b'm', "M")
    ∷ (b'n', "N")
    ∷ (b'o', "O")
    ∷ (b'p', "P")
    ∷ (b'q', "Q")
    ∷ (b'r', "R")
    ∷ (b's', "S")
    ∷ (b't', "T")
    ∷ (b'u', "U")
    ∷ (b'v', "V")
    ∷ (b'w', "W")
    ∷ (b'x', "X")
    ∷ (b'y', "Y")
    ∷ (b'z', "Z")
    ∷ []

replaced : List (ℕ × Char) → Char → Char
replaced [] c = c
replaced ((n, u) ∷ rest) c = if code c == n then u else replaced rest c

unfoldable pub upper : String → String
unfolding replaced
upper String.[] = String.[]
upper (String.◌∷◌ c s) = String.◌∷◌ (replaced letters c) (upper s)

-- The letters of a table stay as they are.
abbrev Fixed : List (ℕ × Char) → Type 0
Fixed [] = Unit
Fixed ((n, u) ∷ rest) = (replaced letters u ≡ u) × Fixed rest

letters-Fixed : Fixed letters
unfolding replaced
letters-Fixed = (
  refl,
  (
    refl,
    (
      refl,
      (
        refl,
        (
          refl,
          (
            refl,
            (
              refl,
              (
                refl,
                (
                  refl,
                  (
                    refl,
                    (
                      refl,
                      (
                        refl,
                        (
                          refl,
                          (
                            refl,
                            (
                              refl,
                              (
                                refl,
                                (
                                  refl,
                                  (
                                    refl,
                                    (
                                      refl,
                                      (refl, (refl, (refl, (refl, (refl, (refl, (refl, tt))))))),
                                    ),
                                  ),
                                ),
                              ),
                            ),
                          ),
                        ),
                      ),
                    ),
                  ),
                ),
              ),
            ),
          ),
        ),
      ),
    ),
  ),
)

replaced-Fixed :
    (ls : List (ℕ × Char)) (c : Char)
    → Fixed ls
    → (replaced ls c ≡ c) ⊎ (replaced letters (replaced ls c) ≡ replaced ls c)
unfolding replaced
replaced-Fixed [] c h = inl refl
replaced-Fixed ((n, u) ∷ rest) c (h, hs) = elim (Bool-cases (code c == n)) [
  | inl e ↦ rw e (inr h)
  | inr e ↦ rw e (replaced-Fixed rest c hs)
]

replaced-twice : (c : Char) → replaced letters (replaced letters c) ≡ replaced letters c
replaced-twice c = elim (replaced-Fixed letters c letters-Fixed) [
  | inl e ↦ ap (replaced letters) e
  | inr e ↦ e
]

pub upper-upper : (s : String) → upper (upper s) ≡ upper s
unfolding upper
upper-upper String.[] = refl
upper-upper (String.◌∷◌ c s) = rw (replaced-twice c, upper-upper s) refl
