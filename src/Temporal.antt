-- ===== src/Temporal.antt =====
-- temporal/intervals.py. An instant is a number of microseconds since `datetime.min`.
pub mod Overlap
use memory_os.Base.{ℕ, Bool, true, ◌&&◌, Option, none, some, ltb, leb, max, min}

-- A `datetime`: naive, or aware with its instant in UTC and the offset that its clock face adds to
-- or takes from that instant.
pub data Datetime : Type 0 where
  naive : ℕ → Datetime
  ahead behind : ℕ → ℕ → Datetime

-- `_utc` on a value: a naive value is read as UTC.
unfoldable pub utc : Datetime → ℕ
utc (naive t) = t
utc (ahead t offset) = t
utc (behind t offset) = t

-- `_utc` on an optional value
unfoldable pub utc_optional : Option Datetime → Option ℕ
unfolding utc
utc_optional none = none
utc_optional (some d) = some (utc d)

-- The half-open interval tests on instants; `none` is an open end.
abbrev pub starts_by : Option ℕ → ℕ → Bool
starts_by none t = true
starts_by (some a) t = leb a t

abbrev pub ends_after : Option ℕ → ℕ → Bool
ends_after none t = true
ends_after (some b) t = ltb t b

abbrev pub within : Option ℕ → Option ℕ → ℕ → Bool
within a b t = starts_by a t && ends_after b t

unfoldable pub as_of : Option Datetime → Option Datetime → Datetime → Bool
unfolding utc utc_optional
as_of valid_from valid_to moment =
    let point = utc moment in
    let start = utc_optional valid_from in let end = utc_optional valid_to in within start end point

unfoldable pub is_known_at : Datetime → Datetime → Bool
unfolding utc
is_known_at recorded_at moment = leb (utc recorded_at) (utc moment)

-- `datetime.max`: 31 December 9999, one microsecond before midnight.
abbrev pub datetime_max : ℕ
datetime_max = 315_537_897_599_999_999

abbrev pub start_or_min : Option ℕ → ℕ
start_or_min none = 0
start_or_min (some a) = a

abbrev pub end_or_max : Option ℕ → ℕ
end_or_max none = datetime_max
end_or_max (some b) = b

-- `intervals_overlap` on the instants of its arguments.
unfoldable pub overlap : Option ℕ → Option ℕ → Option ℕ → Option ℕ → Bool
overlap left_start left_end right_start right_end =
    ltb (max (start_or_min left_start) (start_or_min right_start))
      (min (end_or_max left_end) (end_or_max right_end))

unfoldable pub intervals_overlap :
    Option Datetime → Option Datetime → Option Datetime → Option Datetime → Bool
unfolding utc_optional overlap
intervals_overlap left_start left_end right_start right_end =
    overlap (utc_optional left_start) (utc_optional left_end) (utc_optional right_start)
      (utc_optional right_end)
