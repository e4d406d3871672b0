-- ===== src/Api/Recommendations/Week.antt =====
-- services/api/src/recommendations/week.ts. The dates of JavaScript are a parameter. A time is counted
-- in milliseconds from a midnight (UTC) between a Sunday and a Monday, before all dates in use.
use Prim.Native.String.{slice}
use gachinol.Prelude.{
  ℕ, ◌+◌, ◌*◌, ◌-◌, ◌%◌, String, Bool, Option, none, some, [], ◌∷◌, ◌==◌, string_eq, template,
  if◌then◌else◌,
}

-- What the code uses of JavaScript: the pattern, `Date.parse`, `toISOString`, `getUTCDay`.
pub record Dates : Type 0 where
  pub is_date_only_form : String → Bool
  pub parse : String → Option ℕ
  pub to_iso_string : ℕ → String
  pub utc_day : ℕ → ℕ

abbrev pub day_ms : ℕ
day_ms = 86400000

abbrev pub kst_offset_ms : ℕ
kst_offset_ms = 32400000

module _ (js : Dates) where
  unfoldable pub to_date_only : ℕ → String
  to_date_only ms = slice (js.to_iso_string ms) 0 10

  -- A text that rolls over to another date is rejected.
  abbrev same_date : String → Option ℕ → Option ℕ
  same_date value none = none
  same_date value (some ms) = if to_date_only ms == value then some ms else none

  -- `none` is an error.
  unfoldable pub parse_date_only : String → Option ℕ
  unfolding to_date_only
  parse_date_only value =
      if js.is_date_only_form value
      then same_date value (js.parse (template (value ∷ "T00:00:00.000Z" ∷ [])))
      else none

  abbrev pub monday_before : ℕ → ℕ
  monday_before ms = ms - (js.utc_day ms + 6) % 7 * day_ms

  abbrev monday_of : Option ℕ → Option String
  monday_of none = none
  monday_of (some ms) = some (to_date_only (monday_before ms))

  unfoldable pub monday_of_week_kst : String → Option String
  unfolding parse_date_only to_date_only
  monday_of_week_kst date_only = monday_of (parse_date_only date_only)

  abbrev window_of : Option ℕ → Option (ℕ × ℕ)
  window_of none = none
  window_of (some ms) = some (ms - kst_offset_ms, ms - kst_offset_ms + 7 * day_ms)

  unfoldable pub week_window_utc : String → Option (ℕ × ℕ)
  unfolding parse_date_only
  week_window_utc week_of_monday = window_of (parse_date_only week_of_monday)
