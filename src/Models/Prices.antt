-- ===== src/Models/Prices.antt =====
-- The prices of a candidate that passes `validate_window` and `validate_prices`.
use mathlib.Core.Path.{subst}
use ai_daytrader_sim.Prelude.{
  ◌≡◌, refl, Bool, true, false, not, ◌&&◌, ◌||◌, List, [], ◌∷◌, is_some, arith, Option, none, some,
  if◌then◌else◌,
}
use ai_daytrader_sim.Prelude.Result.{Result, ok, error, is_ok, ◌>>=◌, ◌>>◌}
use ai_daytrader_sim.Prelude.Text.{upper}
use ai_daytrader_sim.Float.{Float, le, lt, feq}
use ai_daytrader_sim.Float.Laws.{IsOrdered, IsDecided, ◌≼◌, ◌≺◌, le-of-not-lt, lt-of-not-le}
use ai_daytrader_sim.Models.{TakeProfitSpec, CandidatePlan, StrategyType, PullbackRebreakSpec}
use ai_daytrader_sim.Models.Checks.{
  ModelError, validate_window, validate_prices, validate_config, validate_targets, repeated, priced,
  unsorted_after, total_pct, empty_rule,
}

abbrev pub is_pullback : StrategyType → Bool
is_pullback StrategyType.rules = false
is_pullback StrategyType.pullback_rebreak = true

module _ {R : Type 0} ⦃f : Float R⦄ where
  -- Each target is above the one before it, and the first above `x`.
  abbrev pub Rising : R → List (TakeProfitSpec R) → Type 0
  Rising x [] = Unit
  Rising x (t ∷ ts) = (x ≺ t.price) × Rising t.price ts

  -- The stop is below the trigger, the trigger not above the limit, and the targets rise from there;
  -- they sell the whole position.
  abbrev pub Priced : CandidatePlan R → Type 0
  Priced c =
      (c.stop_loss.price ≺ c.entry.trigger_price)
      × ((c.entry.trigger_price ≼ c.entry.limit_price)
          × (Rising c.entry.limit_price c.take_profit × (total_pct c.take_profit ≡ 100)))

  -- A plan by rules has a price alone or some rule, and no pullback config; a pullback plan has a
  -- config and no rule.
  abbrev pub Configured : StrategyType → Bool → Bool → Option (PullbackRebreakSpec R) → Type 0
  Configured t price_only no_rules config =
      (is_some config ≡ is_pullback t)
      × ((if is_pullback t then not price_only && no_rules else price_only || not no_rules) ≡ true)

  abbrev pub Accepted : CandidatePlan R → Type 0
  Accepted c =
      Priced c
      × Configured c.strategy_type c.entry.price_only (empty_rule c.entry.rules) c.pullback_rebreak

module _ {R : Type 0} ⦃f : Float R⦄ (o : IsOrdered R) (d : IsDecided R) where
  above : (x y : R) → feq x y ≡ false → lt y x ≡ false → x ≺ y
  above x y e h = lt-of-not-le o x y (ground (arith, e, d.eq-le x y, le-of-not-lt o y x h))

  rising :
      (x : R) (ts : List (TakeProfitSpec R))
      → unsorted_after x ts ≡ false
      → priced x ts ≡ false
      → repeated ts ≡ false
      → Rising x ts
  rising x [] u p r = tt
  rising x (t ∷ ts) u p r = (
    above x t.price (ground (arith, p)) (ground (arith, u)),
    rising t.price ts (ground (arith, u)) (ground (arith, r)) (ground (arith, r)),
  )

  targets :
      (trigger limit stop : R) (ts : List (TakeProfitSpec R))
      → is_ok (validate_targets trigger limit stop ts) ≡ true
      → (stop ≺ trigger) × (Rising limit ts × (total_pct ts ≡ 100))
  targets trigger limit stop [] h = cc h
  targets trigger limit stop (t ∷ ts) h =
      let below : le trigger stop ≡ false = ground (arith, h) in
      let apart : repeated (t ∷ ts) ≡ false = ground (arith, h) in
      let order : (unsorted_after t.price ts ≡ false) × (le t.price limit ≡ false) =
        ground (arith, h) in
      (
        lt-of-not-le o stop trigger below,
        (
          (
            lt-of-not-le o limit t.price order.1,
            rising t.price ts order.0 (ground (arith, apart)) (ground (arith, apart)),
          ),
          ground (arith, h),
        ),
      )

  limit_lem :
      (c : CandidatePlan R)
      → is_ok (validate_window c.entry) ≡ true
      → c.entry.trigger_price ≼ c.entry.limit_price
  unfolding validate_window
  limit_lem c h = le-of-not-lt o c.entry.limit_price c.entry.trigger_price (ground (arith, h))

  -- A plan that `validate_prices` returns, by the steps that it takes.
  returned :
      {A B : Type 0} (m : Result ModelError A) (v : Result ModelError (Unit {0})) (k : A → B)
      (b : B)
      → (m >>= λ a. v >> ok (k a)) ≡ ok b
      → (a : A) × ((m ≡ ok a) × ((is_ok v ≡ true) × (k a ≡ b)))
  returned (error e) v k b h = cc h
  returned (ok a) (error e) k b h = cc h
  returned (ok a) (ok u) k b h = (a, (refl, (refl, cc h)))

  config_lem :
      (t : StrategyType) (price_only no_rules : Bool) (spec config : Option (PullbackRebreakSpec R))
      → validate_config t price_only no_rules spec ≡ ok config
      → Configured t price_only no_rules config
  config_lem StrategyType.rules true b none config h = ground (arith, h)
  config_lem StrategyType.rules false true none config h = cc h
  config_lem StrategyType.rules false false none config h = ground (arith, h)
  config_lem StrategyType.rules price_only b (some spec) config h = ground (arith, h)
  config_lem StrategyType.pullback_rebreak price_only b spec config h = ground (arith, h)

  -- A candidate whose entry passes `validate_window` and that `validate_prices` returns has its stop
  -- below the trigger, the trigger not above the limit, the first target above the limit and each
  -- further target above the one before it, and its targets sell the whole position; a plan by rules
  -- is by price only or has rules, and has no pullback config, and a pullback plan has a config, is not
  -- by price only and has no rules. Prices are in a total order whose equality is that of the order.
  pub validate_prices-Accepted :
      (c c' : CandidatePlan R)
      → is_ok (validate_window c.entry) ≡ true
      → validate_prices c ≡ ok c'
      → Accepted c'
  unfolding validate_prices
  validate_prices-Accepted c c' w h =
      let (config, (e, (v, k))) =
        returned
          (validate_config c.strategy_type c.entry.price_only (empty_rule c.entry.rules)
            c.pullback_rebreak)
          (validate_targets c.entry.trigger_price c.entry.limit_price c.stop_loss.price
            c.take_profit)
          (λ config. record c {
            symbol = upper c.symbol;
            exchange = upper c.exchange;
            pullback_rebreak = config;
          })
          c' h in
      let r = targets c.entry.trigger_price c.entry.limit_price c.stop_loss.price c.take_profit v in
      subst Accepted k (
        (r.0, (limit_lem c w, (r.1.0, r.1.1))),
        config_lem c.strategy_type c.entry.price_only (empty_rule c.entry.rules) c.pullback_rebreak
            config e,
      )
