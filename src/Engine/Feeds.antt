-- ===== src/Engine/Feeds.antt =====
-- The order of a feed: a tick that is not newer than one that was accepted from its connection is
-- refused, as long as the feed keeps its connection.
use mathlib.Core.Path.{subst⁻¹}
use ai_daytrader_sim.Prelude.{
  ℕ, ◌+◌, ◌≤◌, String, ◌≡◌, ◌⊎◌, refl, ◌&&◌, All, str_eq, if◌then◌else◌, empty_of_test, ap, sym,
  ◌∙◌, true, false, ◌||◌, some, List, [], ◌∷◌, ◌++◌, arith, eq_iff, inl, inr, Bool-cases, is_empty,
  is_empty-append_right, ltb, leb,
}
use ai_daytrader_sim.Prelude.Dict.{lookup, insert, lookup-insert}
use ai_daytrader_sim.Prelude.Text.{upper, upper-upper}
use ai_daytrader_sim.Float.{Float, lt}
use ai_daytrader_sim.Models.{Market, same_market, CostConfig, MarketTick, us_per_second}
use ai_daytrader_sim.MarketClock.{Calendar}
use ai_daytrader_sim.Repository.{add_event}
use ai_daytrader_sim.Broker.{Setup}
use ai_daytrader_sim.Engine.{
  Engine, FeedState, ByMarket, reason_if, write, log_rejection, feed_order, validate_feed,
  next_feed, update_feed_state,
}
use ai_daytrader_sim.Engine.Process.{Answer, process_upper, process_tick}

same_market_refl : (m : Market) → same_market m m ≡ true
same_market_refl Market.kr = refl
same_market_refl Market.us = refl

market_of_test : (m n : Market) → same_market m n ≡ true → m ≡ n
market_of_test Market.kr Market.kr h = refl
market_of_test Market.us Market.us h = refl
market_of_test Market.kr Market.us h = cc h
market_of_test Market.us Market.kr h = cc h

-- A refusal, which changes no portfolio, no state of the strategy in memory or stored, no debounce
-- state, no feed, and neither the last ticks nor the earlier values.
abbrev pub Refused : {R : Type 0} → Engine R → Answer × Engine R → Type 0
Refused e (Answer.accepted action, e') = ⊥
Refused e (Answer.rejected reasons, e') =
    (is_empty reasons ≡ false)
    × (e'.core.broker.kr ≡ e.core.broker.kr)
    × (e'.core.broker.us ≡ e.core.broker.us)
    × (e'.core.states ≡ e.core.states)
    × (e'.core.cross_states ≡ e.core.cross_states)
    × (e'.core.strategy_states ≡ e.core.strategy_states)
    × (e'.feed_states ≡ e.feed_states)
    × (e'.latest_ticks ≡ e.latest_ticks)
    × (e'.previous_context ≡ e.previous_context)

module _ {R : Type 0} ⦃f : Float R⦄ where
  feed_order-replay :
      (u : MarketTick R) (s : FeedState)
      → s.connection_id ≡ u.connection_id
      → u.sequence_id ≤ s.sequence_id
      → is_empty (feed_order u (some s)) ≡ false
  unfolding feed_order
  feed_order-replay u s h k =
      let last : leb u.sequence_id s.sequence_id ≡ true = ground arith in
      rw ((eq_iff s.connection_id u.connection_id).1 h, last)
        (is_empty-append_right
          (reason_if (ltb u.source_timestamp s.source_timestamp) "SOURCE_TIME_REVERSED"
            ++ reason_if (ltb u.received_timestamp s.received_timestamp) "RECEIVED_TIME_REVERSED")
          ("SEQUENCE_REVERSED" ∷ []) refl)

  validate_feed-replay :
      (policy : CostConfig R) (now : ℕ) (u : MarketTick R) (feeds : ByMarket FeedState)
      (s : FeedState)
      → lookup (upper u.symbol) (feeds u.market) ≡ some s
      → s.connection_id ≡ u.connection_id
      → u.sequence_id ≤ s.sequence_id
      → is_empty (validate_feed policy now u feeds) ≡ false
  unfolding validate_feed
  validate_feed-replay policy now u feeds s e h k =
      let source = u.source_timestamp in
      let received = u.received_timestamp in
      let order = feed_order u (lookup (upper u.symbol) (feeds u.market)) in
      let crossed = reason_if (lt u.ask u.bid) "CROSSED_MARKET" in
      let after = reason_if (ltb (received + us_per_second) source) "SOURCE_AFTER_RECEIVED" in
      let future =
        reason_if (ltb (now + us_per_second) source || ltb (now + us_per_second) received)
          "FUTURE_TIMESTAMP" in
      let stale = reason_if (ltb (source + policy.max_tick_age) now) "STALE_DATA" in
      let replay : is_empty order ≡ false = rw e (feed_order-replay u s h k) in
      is_empty-append_right (stale ++ future ++ after ++ crossed) order replay

  -- The feeds after a tick: that of its market and symbol is new, the others stay.
  update_feed_state-lookup :
      (policy : CostConfig R) (tick : MarketTick R) (e : Engine R) (m : Market) (symbol : String)
      → lookup symbol ((update_feed_state policy tick e).1.feed_states m) ≡ (
          if same_market tick.market m && str_eq (upper tick.symbol) symbol
          then some (next_feed policy tick (lookup (upper tick.symbol) (e.feed_states tick.market)))
          else lookup symbol (e.feed_states m))
  unfolding update_feed_state
  update_feed_state-lookup policy tick e m symbol =
      let feeds = e.feed_states tick.market in
      let state = next_feed policy tick (lookup (upper tick.symbol) feeds) in
      let inserted = lookup-insert (upper tick.symbol) symbol state feeds in
      elim (Bool-cases (same_market tick.market m)) [
        | inr other ↦ elim (Bool-cases (state.context_reset || state.halted)) [
          | inl t ↦ rw (t, other) refl
          | inr t ↦ rw (t, other) refl
        ]
        | inl same ↦
            let found : lookup symbol (insert (upper tick.symbol) state feeds) ≡ (
                if str_eq (upper tick.symbol) symbol
                then some state
                else lookup symbol (e.feed_states m)) =
              inserted ∙ rw (market_of_test tick.market m same) refl in
            elim (Bool-cases (state.context_reset || state.halted)) [
              | inl t ↦ rw (t, same) found
              | inr t ↦ rw (t, same) found
            ]
      ]

module _ {R : Type 0} ⦃f : Float R⦄ (σ : Setup R) (c : Calendar) (fmean : List R → R) where
  process_upper-Refused :
      (u : MarketTick R) (now : ℕ) (e : Engine R)
      → is_empty (validate_feed (σ.costs u.market) now u e.feed_states) ≡ false
      → Refused e (process_upper σ c fmean u now e)
  unfolding process_upper log_rejection write add_event
  process_upper-Refused u now e h = rw h (h, refl, refl, refl, refl, refl, refl, refl, refl)

  process_upper-feeds :
      (tick : MarketTick R) (now : ℕ) (e : Engine R)
      → validate_feed (σ.costs tick.market) now tick e.feed_states ≡ []
      → (process_upper σ c fmean tick now e).1.feed_states
        ≡ (update_feed_state (σ.costs tick.market) tick e).1.feed_states
  unfolding process_upper
  process_upper-feeds tick now e h = rw h refl

  process_upper-unread :
      (tick : MarketTick R) (now : ℕ) (e : Engine R)
      → is_empty (validate_feed (σ.costs tick.market) now tick e.feed_states) ≡ false
      → (process_upper σ c fmean tick now e).1.feed_states ≡ e.feed_states
  unfolding process_upper log_rejection write
  process_upper-unread tick now e h = rw h refl

  -- The feed of `u` has a state of `u`'s connection with a sequence number that is not lower.
  abbrev Passed : MarketTick R → ByMarket FeedState → Type 0
  Passed u feeds =
      (s : FeedState) × (lookup (upper u.symbol) (feeds u.market) ≡ some s)
      × (s.connection_id ≡ u.connection_id)
      × (u.sequence_id ≤ s.sequence_id)

  -- A tick of another feed, or of the same connection.
  abbrev pub Alike : MarketTick R → MarketTick R → Type 0
  Alike u t =
      (same_market t.market u.market ≡ false)
      ⊎ (str_eq (upper t.symbol) (upper u.symbol) ≡ false)
      ⊎ (t.connection_id ≡ u.connection_id)

  accepted-newer :
      (t : MarketTick R) (now : ℕ) (feeds : ByMarket FeedState) (s : FeedState)
      → validate_feed (σ.costs t.market) now t feeds ≡ []
      → lookup (upper t.symbol) (feeds t.market) ≡ some s
      → s.connection_id ≡ t.connection_id
      → s.sequence_id ≤ t.sequence_id
  accepted-newer t now feeds s valid found same =
      elim (Bool-cases (leb t.sequence_id s.sequence_id)) [
        | inl e ↦ cc (
          validate_feed-replay (σ.costs t.market) now t feeds s found same (ground (arith, e)),
          ap is_empty valid,
        )
        | inr e ↦ ground (arith, e)
      ]

  update-Passed :
      (u t : MarketTick R) (now : ℕ) (e : Engine R)
      → Alike u t
      → validate_feed (σ.costs t.market) now t e.feed_states ≡ []
      → Passed u e.feed_states
      → Passed u (update_feed_state (σ.costs t.market) t e).1.feed_states
  unfolding next_feed
  update-Passed u t now e alike valid (s, found, same, older) =
      let look = update_feed_state-lookup (σ.costs t.market) t e u.market (upper u.symbol) in
      elim (Bool-cases
        (same_market t.market u.market && str_eq (upper t.symbol) (upper u.symbol))) [
          | inr other ↦ (s, look ∙ rw other found, same, older)
          | inl own ↦
              let market = market_of_test t.market u.market (ground (arith, own)) in
              let symbol = (eq_iff (upper t.symbol) (upper u.symbol)).0 (ground (arith, own)) in
              let joined : t.connection_id ≡ u.connection_id = elim alike [
                | inl other ↦ absurd (ground (arith, own, other))
                | inr (inl other) ↦ absurd (ground (arith, own, other))
                | inr (inr h) ↦ h
              ] in
              let here : lookup (upper t.symbol) (e.feed_states t.market) ≡ some s =
                rw (market, symbol) found in
              let newer = accepted-newer t now e.feed_states s valid here (same ∙ sym joined) in
              (
                next_feed (σ.costs t.market) t (lookup (upper t.symbol) (e.feed_states t.market)),
                look ∙ rw own refl,
                joined,
                omega (arith, older, newer),
              )
        ]

  -- The tick as `process_tick` goes on with it.
  abbrev raised : MarketTick R → MarketTick R
  raised t = record t { symbol = upper t.symbol }

  raised-Alike : (u t : MarketTick R) → Alike u t → Alike (raised u) (raised t)
  raised-Alike u t (inl other) = inl other
  raised-Alike u t (inr (inl other)) =
      inr (inl (rw (upper-upper t.symbol, upper-upper u.symbol) other))
  raised-Alike u t (inr (inr same)) = inr (inr same)

  -- The engine after a run of ticks, each with the time at which it comes.
  abbrev pub run : List (MarketTick R × ℕ) → Engine R → Engine R
  run [] e = e
  run ((t, now) ∷ ts) e = run ts (process_tick σ c fmean t now e).1

  process_tick-Passed :
      (u t : MarketTick R) (now : ℕ) (e : Engine R)
      → Alike u t
      → Passed (raised u) e.feed_states
      → Passed (raised u) (process_tick σ c fmean t now e).1.feed_states
  unfolding process_tick
  process_tick-Passed u t now e alike h =
      let reasons = validate_feed (σ.costs t.market) now (raised t) e.feed_states in
      elim (Bool-cases (is_empty reasons)) [
        | inl none_given ↦
            let valid = empty_of_test reasons none_given in
            subst⁻¹ (Passed (raised u)) (process_upper-feeds (raised t) now e valid)
              (update-Passed (raised u) (raised t) now e (raised-Alike u t alike) valid h)
        | inr some_given ↦
            subst⁻¹ (Passed (raised u)) (process_upper-unread (raised t) now e some_given) h
      ]

  run-Passed :
      (u : MarketTick R) (ts : List (MarketTick R × ℕ)) (e : Engine R)
      → All (λ x. Alike u x.0) ts
      → Passed (raised u) e.feed_states
      → Passed (raised u) (run ts e).feed_states
  run-Passed u [] e alike h = h
  run-Passed u ((t, now) ∷ ts) e (a, alike) h =
      run-Passed u ts (process_tick σ c fmean t now e).1 alike (process_tick-Passed u t now e a h)

  accepted-Passed :
      (tick : MarketTick R) (now : ℕ) (u : MarketTick R) (e : Engine R)
      → validate_feed (σ.costs tick.market) now (raised tick) e.feed_states ≡ []
      → u.market ≡ tick.market
      → upper u.symbol ≡ upper tick.symbol
      → u.connection_id ≡ tick.connection_id
      → u.sequence_id ≤ tick.sequence_id
      → Passed (raised u) (process_tick σ c fmean tick now e).1.feed_states
  unfolding process_tick next_feed
  accepted-Passed tick now u e valid m s i n =
      let t = raised tick in
      let policy = σ.costs tick.market in
      let own : (same_market t.market u.market && str_eq (upper t.symbol) (upper (upper u.symbol)))
          ≡ true =
        rw (m, same_market_refl tick.market, s)
          ((eq_iff (upper (upper tick.symbol)) (upper (upper tick.symbol))).1 refl) in
      subst⁻¹ (Passed (raised u)) (process_upper-feeds t now e valid) (
        next_feed policy t (lookup (upper t.symbol) (e.feed_states t.market)),
        update_feed_state-lookup policy t e u.market (upper (upper u.symbol)) ∙ rw own refl,
        sym i,
        n,
      )

  -- A tick that passes the checks of its feed sets the feed's order. After it, and after any run of
  -- ticks each of which is of another market or symbol (in upper case) or of the same connection, a
  -- tick of its market, symbol and connection whose sequence number is not higher is refused. The
  -- refusal changes no portfolio, no debounce state, no state of the strategy in memory or stored, no
  -- feed, and neither the last ticks nor the earlier values.
  pub replay-Refused :
      (tick : MarketTick R) (now : ℕ) (ts : List (MarketTick R × ℕ)) (u : MarketTick R) (later : ℕ)
      (e : Engine R)
      → validate_feed
          (σ.costs tick.market)
          now
          (record tick { symbol = upper tick.symbol })
          e.feed_states
        ≡ []
      → All (λ x. Alike u x.0) ts
      → u.market ≡ tick.market
      → upper u.symbol ≡ upper tick.symbol
      → u.connection_id ≡ tick.connection_id
      → u.sequence_id ≤ tick.sequence_id
      → let e' = run ts (process_tick σ c fmean tick now e).1 in
        Refused e' (process_tick σ c fmean u later e')
  unfolding process_tick
  replay-Refused tick now ts u later e valid alike m s i n =
      let e' = run ts (process_tick σ c fmean tick now e).1 in
      let (state, found, same, older) =
        run-Passed u ts (process_tick σ c fmean tick now e).1 alike
          (accepted-Passed tick now u e valid m s i n) in
      process_upper-Refused (raised u) later e' (
        validate_feed-replay (σ.costs u.market) later (raised u) e'.feed_states state found same
          older)
