-- ===== src/MarketClock.antt =====
-- market_clock.py: the times of an exchange session. The calendar (exchange_calendars) and the time
-- zones (zoneinfo) are libraries, and stand here as functions. Instants and times of day are in
-- microseconds, dates in days.
use ai_daytrader_sim.Prelude.{ℕ, ◌+◌, ◌-◌, ◌*◌, Bool}
use ai_daytrader_sim.Models.{Market, us_per_minute}

pub record Calendar : Type 0 where
  pub is_session : Market → (trade_date : ℕ) → Bool
  -- the instants of `session_bounds`
  pub session_open : Market → (trade_date : ℕ) → ℕ
  pub session_close : Market → (trade_date : ℕ) → ℕ
  -- the date and the time of day of an instant in a market's time zone
  pub local_date : Market → (instant : ℕ) → ℕ
  pub local_time : Market → (instant : ℕ) → ℕ

abbrev pub force_exit_offset : Market → ℕ
force_exit_offset Market.kr = 15 * us_per_minute
force_exit_offset Market.us = 10 * us_per_minute

unfoldable pub force_exit_at : Calendar → Market → ℕ → ℕ
force_exit_at c m date = c.session_close m date - force_exit_offset m

-- The time of day of the forced exit.
unfoldable pub force_exit_time : Calendar → Market → ℕ → ℕ
unfolding force_exit_at
force_exit_time c m date = c.local_time m (force_exit_at c m date)

-- The time of day that is some minutes after the session's open.
unfoldable pub after_open : Calendar → Market → ℕ → ℕ → ℕ
after_open c m date minutes = c.local_time m (c.session_open m date + minutes * us_per_minute)
