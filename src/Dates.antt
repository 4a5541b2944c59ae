-- ===== src/Dates.antt =====
-- The dates of the paid rails (onboard/src/util.rs and onboard/src/billing.rs). The calendar is the
-- time crate's: its dates come and go by their three fields, and the years are those from 0 on.
pub mod Renewal
mod Tests
use kyriakon_infra.Base.{
  ℕ, Option, if◌then◌else◌, String, Bool, some, min, ltb, ◌+◌, none, ◌||◌, true, ◌==◌, ◌&&◌, not,
  leb,
}

pub record Date : Type 0 where
  pub year : ℕ
  pub month : ℕ
  pub day : ℕ

-- What the code calls: the length of a month in a year, `Date::from_calendar_date`, and the parsers of a
-- store date and of an RFC 3339 stamp, the date part alone.
pub record Calendar : Type 0 where
  pub length : ℕ → ℕ → ℕ
  pub from_calendar_date : ℕ → ℕ → ℕ → Option Date
  pub parse_date : String → Option Date
  pub parse_stamp : String → Option Date

-- The order of dates is the order in time.
abbrev pub before_or_at : Date → Date → Bool
before_or_at a b =
    ltb a.year b.year
    || (a.year == b.year && (ltb a.month b.month || (a.month == b.month && leb a.day b.day)))

abbrev pub later_of : Date → Date → Date
later_of a b = if before_or_at a b then b else a

module _ (calendar : Calendar) where
  unfoldable pub anniversary : Date → ℕ → Option Date
  anniversary date year =
      calendar.from_calendar_date year date.month (min date.day (calendar.length date.month year))

  abbrev pub start_of : Date → Option Date → Date
  start_of received none = received
  start_of received (some b) = later_of b received

  pub paid_until_after : Date → Option Date → Option Date
  paid_until_after received before =
      let start = start_of received before in anniversary start (start.year + 1)

  unfoldable pub credit_ceiling : Date → Option Date
  credit_ceiling received = anniversary received (received.year + 2)

  unfoldable pub received_beyond_window : Date → Date → Bool
  received_beyond_window received today = elim (credit_ceiling today) [
    | none ↦ true
    | some ceiling ↦ not (before_or_at received ceiling)
  ]

  -- `day` of onboard/src/billing.rs: a store date, or the date part of a stamp.
  pub day : String → Option Date
  day stamp = elim (calendar.parse_date stamp) [
    | some date ↦ some date
    | none ↦ calendar.parse_stamp stamp
  ]

  -- `extend_paid_until`, up to the text of the date.
  pub extend_paid_until : String → Option String → Option Date
  extend_paid_until received none = elim (day received) [
    | none ↦ none
    | some r ↦ paid_until_after r none
  ]
  extend_paid_until received (some before) = elim (day received) [
    | none ↦ none
    | some r ↦ elim (day before) [ none ↦ none | some b ↦ paid_until_after r (some b) ]
  ]
