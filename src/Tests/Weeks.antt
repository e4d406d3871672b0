-- ===== src/Tests/Weeks.antt =====
-- The theorem on weeks, for the Wednesday 2026-06-03; day 7 stands for the Monday before it.
use gachinol.Prelude.{
  ◌≡◌, ◌+◌, ◌*◌, ◌/◌, ◌%◌, refl, String, true, some, ◌==◌, string_eq, number_eq, if◌then◌else◌,
  arith,
}
use gachinol.Api.Recommendations.Week.{
  Dates, day_ms, to_date_only, parse_date_only, monday_of_week_kst,
}
use gachinol.Api.Recommendations.WeekLaws.{Midnight, IsWeekOf, monday_of_week_kst-IsWeekOf}

abbrev dates : Dates
dates = record {
  is_date_only_form = λ s. true;
  parse = λ s. some (if s == "2026-06-01T00:00:00.000Z" then 7 * day_ms else 9 * day_ms);
  to_iso_string =
      λ ms. if ms == 7 * day_ms then "2026-06-01T00:00:00.000Z" else "2026-06-03T00:00:00.000Z";
  utc_day = λ ms. (ms / day_ms + 1) % 7;
}

monday_of_dates : Midnight dates 7
unfolding to_date_only parse_date_only
monday_of_dates = record { weekday = refl; read_back = refl }

wednesday : parse_date_only dates "2026-06-03" ≡ some (9 * day_ms)
unfolding parse_date_only
wednesday = refl

monday_of_week_kst-IsWeekOf_example :
    (week : String) × (monday_of_week_kst dates "2026-06-03" ≡ some week) × IsWeekOf dates 9 week
monday_of_week_kst-IsWeekOf_example =
    monday_of_week_kst-IsWeekOf dates "2026-06-03" 9 (omega arith) wednesday refl monday_of_dates
