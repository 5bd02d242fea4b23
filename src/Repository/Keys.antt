-- ===== src/Repository/Keys.antt =====
-- The claimed idempotency keys.
use ai_daytrader_sim.Prelude.{String, ◌≡◌, refl, true, List, ◌∷◌, arith, eq_iff}
use ai_daytrader_sim.Repository.{contains}

pub contains-head : (k : String) (ks : List String) → contains k (k ∷ ks) ≡ true
unfolding contains
contains-head k ks = rw ((eq_iff k k).1 refl) refl

pub contains-tail :
    (k j : String) (ks : List String) → contains k ks ≡ true → contains k (j ∷ ks) ≡ true
unfolding contains
contains-tail k j ks h = ground arith
