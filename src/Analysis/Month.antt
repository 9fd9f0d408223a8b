-- ===== src/Analysis/Month.antt =====
-- The start of the month that the token budget counts from.
use promptlens_v.Prelude.{ℕ, ◌≤◌, ◌<◌, ◌+◌, ◌*◌, ◌≡◌, ◌%◌, ◌/◌, arith}
use promptlens_v.Analysis.{month_start_of, days_into_month, day_of_year, day_of_era}

days_into_month_bound : (doy : ℕ) → days_into_month doy ≤ 30
days_into_month_bound doy = omega arith

-- The start of the month is a midnight (UTC) at or before the instant, and less than 31 days before
-- it.
pub month_start_bounds :
    (now : ℕ)
    → (month_start_of now ≤ now)
      × (now < month_start_of now + 31 * 86400000)
      × (month_start_of now % 86400000 ≡ 0)
unfolding month_start_of
month_start_bounds now = (
  omega arith,
  omega (arith, days_into_month_bound (day_of_year (day_of_era (now / 86400000)))),
  omega arith,
)
