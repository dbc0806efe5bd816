-- ===== src/Time.antt =====
-- packages/core/src/time.ts. A time is a number of milliseconds since 1970 UTC; Asia/Seoul is nine
-- hours ahead of UTC, all year, as it has been since October 1988; the code reads the calendar day
-- with the time zone and the range with the fixed offset +09:00, which differ on summer days of 1987
-- and 1988.
use agentic_bank.Common.{ℕ, ◌+◌, ◌-◌, ◌*◌, ◌/◌, ◌%◌, ◌≤◌, ◌<◌, ◌≡◌, ◌↔◌, ap, arith}

abbrev pub day_ms : ℕ
day_ms = 24 * 60 * 60 * 1000

abbrev pub seoul_offset_ms : ℕ
seoul_offset_ms = 9 * 60 * 60 * 1000

-- The day since 1970 of the Seoul calendar.
unfoldable pub seoul_calendar_day : ℕ → ℕ
seoul_calendar_day now = (now + seoul_offset_ms) / day_ms

-- The half-open range of UTC times of the Seoul day; before 15:00 UTC on the first day of 1970
-- the start would be negative, and is 0.
unfoldable pub seoul_day_utc_range : ℕ → ℕ × ℕ
unfolding seoul_calendar_day
seoul_day_utc_range now =
    let midnight = seoul_calendar_day now * day_ms in
    (midnight - seoul_offset_ms, midnight + day_ms - seoul_offset_ms)

same_day :
    (now t : ℕ)
    → seoul_calendar_day now * day_ms - seoul_offset_ms ≤ t
    → t < seoul_calendar_day now * day_ms + day_ms - seoul_offset_ms
    → seoul_calendar_day t ≡ seoul_calendar_day now
unfolding seoul_calendar_day
same_day now t h k = omega arith

day_holds :
    (now t : ℕ)
    → seoul_calendar_day t * day_ms + day_ms - seoul_offset_ms
      ≡ seoul_calendar_day now * day_ms + day_ms - seoul_offset_ms
    → (seoul_calendar_day now * day_ms - seoul_offset_ms ≤ t)
      × (t < seoul_calendar_day now * day_ms + day_ms - seoul_offset_ms)
unfolding seoul_calendar_day
day_holds now t e = omega arith

-- 1989 in UTC: since October 1988 Asia/Seoul has been nine hours ahead of UTC all year.
abbrev pub nine_hours_since : ℕ
nine_hours_since = 599_616_000_000

-- The range of a time since 1989 holds it, begins at 15:00 UTC and lasts 24 hours; and another such
-- time lies in it exactly when it has the same range.
pub seoul_day_utc_range-from_15 :
    (now t : ℕ)
    → nine_hours_since ≤ now
    → nine_hours_since ≤ t
    → let (start_utc, end_utc) = seoul_day_utc_range now in
      (start_utc ≤ now)
      × (now < end_utc)
      × (start_utc % 86_400_000 ≡ 54_000_000)
      × (end_utc ≡ start_utc + 86_400_000)
      × (((start_utc ≤ t) × (t < end_utc)) ↔ (seoul_day_utc_range t ≡ seoul_day_utc_range now))
unfolding seoul_day_utc_range seoul_calendar_day
seoul_day_utc_range-from_15 now t since since_t = (
  omega arith,
  omega arith,
  omega arith,
  omega arith,
  (
    λ h.
        ap (λ (d : ℕ). (d * day_ms - seoul_offset_ms, d * day_ms + day_ms - seoul_offset_ms))
          (same_day now t h.0 h.1),
    λ e. day_holds now t (ap (λ (r : ℕ × ℕ). r.1) e),
  ),
)
