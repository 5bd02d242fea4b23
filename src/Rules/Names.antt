-- ===== src/Rules/Names.antt =====
-- The keys under which rules.py keeps the debounce states: f"{path}.p{index}" and f"{path}.g{index}".
use ai_daytrader_sim.Prelude.{◌<>◌, ℕ, zero, suc, ◌/◌, ◌%◌, String, ltb, if◌then◌else◌, ◌==◌}

abbrev digit : ℕ → String
digit n =
    if n == 0
    then "0"
    else if n == 1
    then "1"
    else if n == 2
    then "2"
    else if n == 3
    then "3"
    else if n == 4
    then "4"
    else if n == 5
    then "5"
    else if n == 6
    then "6"
    else if n == 7
    then "7"
    else if n == 8
    then "8"
    else "9"

-- The decimal digits of a number; `n` rounds are enough for `n`.
pub show_fuel : ℕ → ℕ → String
show_fuel zero n = digit n
show_fuel (suc k) n =
    let rest = show_fuel k (n / 10) in if ltb n 10 then digit n else rest <> digit (n % 10)

unfoldable pub show : ℕ → String
unfolding show_fuel
show n = show_fuel n n

unfoldable pub predicate_path : String → ℕ → String
unfolding show
predicate_path path index = path <> ".p" <> show index

unfoldable pub group_path : String → ℕ → String
unfolding show
group_path path index = path <> ".g" <> show index
