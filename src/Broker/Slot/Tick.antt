-- ===== src/Broker/Slot/Tick.antt =====
-- `on_tick` keeps the slot.
use mathlib.Core.Path.{subst⁻¹}
use ai_daytrader_sim.Prelude.{
  ℕ, ◌+◌, ◌*◌, leb, String, ◌<>◌, ◌≡◌, refl, Bool, true, false, not, ◌||◌, List, [], ◌∷◌, arith,
  inl, inr, Bool-cases, Option-cases, if◌then◌else◌, ◌==◌,
}
use ai_daytrader_sim.Prelude.Dict.{lookup, At-lookup}
use ai_daytrader_sim.Float.{Float, le, fmax}
use ai_daytrader_sim.Models.{OrderState, MarketTick, is_open, is_trading, us_per_minute}
use ai_daytrader_sim.Portfolio.{Position}
use ai_daytrader_sim.Rules.Names.{show}
use ai_daytrader_sim.Broker.{Setup, Desk, save}
use ai_daytrader_sim.Broker.Sessions.{cancel_pending}
use ai_daytrader_sim.Broker.Fills.{process_pending}
use ai_daytrader_sim.Broker.Exits.{put_position}
use ai_daytrader_sim.Broker.Ticks.{
  member, after_target, take_profit, walk_targets, no_progress, watch_vwap, manage_position,
  stop_out, resume, on_position, on_tick,
}
use ai_daytrader_sim.Broker.Slot.{SlotAt, PositionAt, Held, cancel_pending-SlotAt}
use ai_daytrader_sim.Broker.Slot.Fill.{process_pending-SlotAt}
use ai_daytrader_sim.Broker.Slot.Close.{
  close_quantity-SlotAt, put_position-SlotAt, begin_exit-SlotAt, process_exit_pending-SlotAt,
}

module _ {R : Type 0} ⦃f : Float R⦄ (σ : Setup R) where
  after_target-PositionAt :
      (k : String) (index : ℕ) (q : Position R)
      → PositionAt k q
      → PositionAt k (after_target index q)
  unfolding after_target
  after_target-PositionAt k index q h = ground arith

  after_target-remaining :
      (index : ℕ) (q : Position R) → (after_target index q).remaining ≡ q.remaining
  unfolding after_target
  after_target-remaining index q = ground arith

  after_sale-SlotAt :
      (k : String) (index : ℕ) (q : Position R) (d : Desk R)
      → SlotAt k d.portfolio
      → Held k q
      → let q' = after_target index q in
        SlotAt k (if q.remaining == 0 then d else put_position q' d).portfolio
        × ((q'.remaining == 0) ≡ false → PositionAt k q')
  after_sale-SlotAt k index q d h (s, held) =
      let ok = λ (more : (q.remaining == 0) ≡ false).
        after_target-PositionAt k index q (s, (ground arith, held)) in
      (
        elim (Bool-cases (q.remaining == 0)) [
          | inl sold ↦ rw sold h
          | inr more ↦ rw more (put_position-SlotAt k (after_target index q) d h (ok more))
        ],
        λ more. ok (rw (after_target-remaining index q) at more),
      )

  take_profit-SlotAt :
      (k : String) (index quantity : ℕ) (tick : MarketTick R) (q : Position R) (d : Desk R)
      → SlotAt k d.portfolio
      → PositionAt k q
      → let (q', d') = take_profit σ index quantity tick q d in
        SlotAt k d'.portfolio × ((q'.remaining == 0) ≡ false → PositionAt k q')
  unfolding take_profit
  take_profit-SlotAt k index quantity tick q d h ok =
      let marked = record q { filled_targets = index ∷ q.filled_targets } in
      let cancelled = cancel_pending σ q.symbol "TARGET_REACHED" OrderState.cancelled d in
      let h1 = cancel_pending-SlotAt σ k q.symbol "TARGET_REACHED" OrderState.cancelled d h in
      let h2 = put_position-SlotAt k marked cancelled h1 ok in
      let (h3, held) =
        close_quantity-SlotAt σ k marked quantity tick ("TAKE_PROFIT_" <> show (index + 1))
          OrderState.closed (put_position marked cancelled) h2 (ok.0, ok.1.1) in
      after_sale-SlotAt k index _ _ h3 held

  walk_targets-SlotAt :
      (k : String) (index : ℕ) (targets : List (R × ℕ)) (tick : MarketTick R) (q : Position R)
      (d : Desk R)
      → SlotAt k d.portfolio
      → PositionAt k q
      → SlotAt k (walk_targets σ index targets tick q d).portfolio
  unfolding walk_targets save
  walk_targets-SlotAt k index [] tick q d h ok = h
  walk_targets-SlotAt k index ((price, quantity) ∷ targets) tick q d h ok =
      let (h', ok') = take_profit-SlotAt k index quantity tick q d h ok in
      let (q', d') = take_profit σ index quantity tick q d in
      elim (Bool-cases (member index q.filled_targets || quantity == 0)) [
        | inl skip ↦ rw skip (walk_targets-SlotAt k (index + 1) targets tick q d h ok)
        | inr try ↦ elim (Bool-cases (le price tick.bid)) [
          | inr below ↦ rw (try, below) (walk_targets-SlotAt k (index + 1) targets tick q d h ok)
          | inl reached ↦ elim (Bool-cases (q'.remaining == 0)) [
            | inl sold ↦ rw (try, reached, sold) h'
            | inr kept ↦
                rw (try, reached, kept)
                  (walk_targets-SlotAt k (index + 1) targets tick q' d' h' (ok' kept))
          ]
        ]
      ]

  watch_vwap-PositionAt :
      (k : String) (tick : MarketTick R) (q : Position R)
      → PositionAt k q
      → PositionAt k (watch_vwap tick q).0
  unfolding watch_vwap
  watch_vwap-PositionAt k tick q ok = ground arith

  manage_position-SlotAt :
      (k : String) (tick : MarketTick R) (q : Position R) (d : Desk R)
      → SlotAt k d.portfolio
      → PositionAt k q
      → SlotAt k (manage_position σ tick q d).portfolio
  unfolding manage_position
  manage_position-SlotAt k tick q d h ok =
      let q' = (watch_vwap tick q).0 in
      let ok' = watch_vwap-PositionAt k tick q ok in
      let h' = put_position-SlotAt k q' d h ok' in
      let sold =
        λ (reason : String) (p : Position R) (e : Desk R) (b : SlotAt k e.portfolio)
            (held : Held k p).
          (close_quantity-SlotAt σ k p p.remaining tick reason OrderState.closed e b held).0 in
      elim (Bool-cases (
        leb (q.opened_at + q.exit_policy.max_holding_minutes * us_per_minute)
          tick.source_timestamp)) [
            | inl late ↦ rw (late, manage_position) (sold "MAX_HOLDING_TIME" q d h (ok.0, ok.1.1))
            | inr early ↦ elim (Bool-cases (no_progress tick q)) [
              | inl slow ↦
                  rw (early, slow, manage_position) (sold "NO_PROGRESS" q d h (ok.0, ok.1.1))
              | inr fast ↦ elim (Bool-cases (watch_vwap tick q).1) [
                | inl failed ↦
                    rw (early, fast, failed, manage_position)
                      (sold "VWAP_FAILURE" q' (put_position q' d) h' (ok'.0, ok'.1.1))
                | inr above ↦
                    rw (early, fast, above, manage_position)
                      (walk_targets-SlotAt k 0 q'.targets tick q' (put_position q' d) h' ok')
              ]
            ]
          ]

  stop_out-SlotAt :
      (k : String) (tick : MarketTick R) (q : Position R) (d : Desk R)
      → SlotAt k d.portfolio
      → PositionAt k q
      → SlotAt k (stop_out σ tick q d).portfolio
  unfolding stop_out
  stop_out-SlotAt k tick q d h ok =
      let (h', ok') = begin_exit-SlotAt σ k q tick "STOP_LOSS" d h ok in
      (process_exit_pending-SlotAt σ k _ tick _ h' (ok'.0, ok'.1.1)).0

  resume-SlotAt :
      (k : String) (tick : MarketTick R) (r : Bool × Position R × Desk R)
      → SlotAt k r.2.portfolio
      → (r.0 ≡ false → PositionAt k r.1)
      → SlotAt k (resume σ tick r).portfolio
  unfolding resume
  resume-SlotAt k tick (true, q, d) h ok = h
  resume-SlotAt k tick (false, q, d) h ok = elim (Bool-cases (le tick.bid q.stop_price)) [
    | inl hit ↦ rw hit (stop_out-SlotAt k tick q d h (ok refl))
    | inr clear ↦ rw clear (manage_position-SlotAt k tick q d h (ok refl))
  ]

  on_position-SlotAt :
      (k : String) (tick : MarketTick R) (q : Position R) (d : Desk R)
      → SlotAt k d.portfolio
      → PositionAt k q
      → SlotAt k (on_position σ tick q d).portfolio
  unfolding on_position
  on_position-SlotAt k tick q d h ok =
      let high = record q { highest_price = fmax q.highest_price tick.bid } in
      let h' = put_position-SlotAt k high d h ok in
      let (kept, same) =
        process_exit_pending-SlotAt σ k high tick (put_position high d) h' (ok.0, ok.1.1) in
      resume-SlotAt k tick _ kept (λ going. subst⁻¹ (PositionAt k) (same going).0 ok)

  pub on_tick-SlotAt :
      (k : String) (tick : MarketTick R) (d : Desk R)
      → SlotAt k d.portfolio
      → SlotAt k (on_tick σ tick d).portfolio
  unfolding on_tick
  on_tick-SlotAt k tick d h =
      let d' = process_pending σ tick d in
      let h' = process_pending-SlotAt σ k tick d h in
      elim (Option-cases (lookup tick.symbol d'.portfolio.positions)) [
        | inl e ↦ rw (e, on_tick) h'
        | inr (q, e) ↦
            let (_, ok) = At-lookup k tick.symbol (PositionAt k) q d'.portfolio.positions h'.0 e in
            elim (Bool-cases
              (not (is_open tick.market_status) || not (is_trading tick.symbol_status))) [
                | inl halted ↦ rw (e, on_tick, halted) h'
                | inr going ↦ rw (e, on_tick, going) (on_position-SlotAt k tick q d' h' ok)
              ]
      ]
