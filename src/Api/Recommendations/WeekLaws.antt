-- ===== src/Api/Recommendations/WeekLaws.antt =====
-- The week of a date.
use gachinol.Prelude.{ℕ, ◌≡◌, ◌+◌, ◌*◌, ◌-◌, ◌%◌, ◌≤◌, ◌<◌, refl, ap, String, some, arith}
use gachinol.Api.Recommendations.Week.{
  Dates, day_ms, kst_offset_ms, to_date_only, parse_date_only, monday_before, monday_of_week_kst,
  week_window_utc,
}

-- What JavaScript says of the midnight (UTC) of a day: its day of the week, and that its date is read
-- back.
pub record Midnight (js : Dates) (day : ℕ) : Type 0 where
  pub weekday : js.utc_day (day * day_ms) ≡ (day + 1) % 7
  pub read_back : parse_date_only js (to_date_only js (day * day_ms)) ≡ some (day * day_ms)

monday_before_lem :
    (js : Dates) (day : ℕ)
    → js.utc_day (day * day_ms) ≡ (day + 1) % 7
    → monday_before js (day * day_ms) ≡ (day - day % 7) * day_ms
monday_before_lem js day h = rw h (omega arith)

abbrev pub monday : ℕ → ℕ
monday day = day - day % 7

monday-monday : (day : ℕ) → monday (monday day) ≡ monday day
monday-monday day = omega arith

-- `week` is the week of the day: its window has seven days and the midnight in Seoul with which the day begins, and
-- the week of its first day is the same.
pub record IsWeekOf (js : Dates) (day : ℕ) (week : String) : Type 0 where
  pub start : ℕ
  pub end_ : ℕ
  pub window : week_window_utc js week ≡ some (start, end_)
  pub seven_days : end_ ≡ start + 7 * day_ms
  pub from_start : start ≤ day * day_ms - kst_offset_ms
  pub before_end : day * day_ms - kst_offset_ms < end_
  pub same_week : monday_of_week_kst js week ≡ some week

monday-IsWeekOf :
    (js : Dates) (day : ℕ)
    → 7 ≤ day
    → Midnight js (monday day)
    → IsWeekOf js day (to_date_only js (monday day * day_ms))
unfolding week_window_utc monday_of_week_kst
monday-IsWeekOf js day late m = record {
  start = monday day * day_ms - kst_offset_ms;
  end_ = monday day * day_ms - kst_offset_ms + 7 * day_ms;
  window = rw m.read_back refl;
  seven_days = refl;
  from_start = omega arith;
  before_end = omega arith;
  same_week =
      rw (m.read_back, monday_before_lem js (monday day) m.weekday)
        (ap (λ n. some (to_date_only js (n * day_ms))) (monday-monday day));
}

-- The week of a date that can be read has a window of seven days that holds the beginning of that date in Seoul,
-- and the week of that week's first day is the same, if JavaScript reads the date as a midnight, knows
-- the day of the week of that day and of its Monday, and reads the date of that Monday back.
pub monday_of_week_kst-IsWeekOf :
    (js : Dates) (date_only : String) (day : ℕ)
    → 7 ≤ day
    → parse_date_only js date_only ≡ some (day * day_ms)
    → js.utc_day (day * day_ms) ≡ (day + 1) % 7
    → Midnight js (monday day)
    → (week : String) × (monday_of_week_kst js date_only ≡ some week) × IsWeekOf js day week
unfolding monday_of_week_kst
monday_of_week_kst-IsWeekOf js date_only day late read weekday m = (
  to_date_only js (monday day * day_ms),
  rw (read, monday_before_lem js day weekday) refl,
  monday-IsWeekOf js day late m,
)
