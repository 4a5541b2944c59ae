-- ===== src/Dates/Tests.antt =====
-- The Gregorian calendar to the year 9999.
use kyriakon_infra.Dates.{
  Calendar, Date, paid_until_after, credit_ceiling, received_beyond_window, anniversary,
}
use kyriakon_infra.Base.{
  if◌then◌else◌, ℕ, ◌≤◌, arith, le→leb, ◌+◌, Bool, ◌==◌, Bool-cases, none, leb, some, ◌≡◌, ◌%◌,
  ◌&&◌, ◌||◌, inl, inr, not, refl,
}
use kyriakon_infra.Dates.Renewal.{
  IsCalendar, IsDate, a_year_on, IsLatest, received_within_window, paid_until_after_lem,
}
use mathlib.Core.Path.{subst}

abbrev is_leap : ℕ → Bool
is_leap y = y % 4 == 0 && (not (y % 100 == 0) || y % 400 == 0)

abbrev month_length : ℕ → ℕ → ℕ
month_length m y =
    if m == 2
    then (if is_leap y then 29 else 28)
    else if m == 4 || (m == 6 || (m == 9 || m == 11))
    then 30
    else 31

abbrev gregorian : Calendar
gregorian = record {
  length = month_length;
  from_calendar_date = λ y m d.
      if leb y 9999 && (leb 1 m && (leb m 12 && (leb 1 d && leb d (month_length m y))))
      then some (record { year = y; month = m; day = d })
      else none;
  parse_date = λ s. none;
  parse_stamp = λ s. none;
}

gregorian-lengths : (m y : ℕ) → (28 ≤ month_length m y) × (month_length m y ≤ 31)
gregorian-lengths m y = elim (Bool-cases (m == 2)) [
  | inl e ↦
      rw e
        (elim (Bool-cases (is_leap y)) [ inl f ↦ rw f (omega arith) | inr f ↦ rw f (omega arith) ])
  | inr e ↦ rw e (elim (Bool-cases (m == 4 || (m == 6 || (m == 9 || m == 11)))) [
    | inl f ↦ rw f (omega arith)
    | inr f ↦ rw f (omega arith)
  ])
]

gregorian-IsCalendar : IsCalendar gregorian 9999
gregorian-IsCalendar = record {
  lengths = gregorian-lengths;
  builds = λ y m d hy m1 m12 d1 dl.
      rw (le→leb _ _ hy, le→leb _ _ m1, le→leb _ _ m12, le→leb _ _ d1, le→leb _ _ dl) refl;
  refuses = λ y m d h. ground arith;
}

-- The day that a common year has not.
abbrev leap_day : Date
leap_day = record { year = 2024; month = 2; day = 29 }

abbrev paid_to : Date
paid_to = record { year = 2025; month = 1; day = 31 }

leap_day-IsDate : IsDate leap_day
leap_day-IsDate = (omega arith, omega arith, omega arith, omega arith)

same_date : (d : Date) → some paid_to ≡ some d → paid_to ≡ d
same_date d e = ground arith

-- An early renewal: the year runs from the last of January, on which the year before ends.
paid_until_after_lem_example :
    (start : Date) × (IsLatest leap_day (some paid_to) start
      × (paid_until_after gregorian leap_day (some paid_to) ≡ some (a_year_on gregorian start 1)))
paid_until_after_lem_example =
    paid_until_after_lem gregorian 9999 gregorian-IsCalendar leap_day (some paid_to) leap_day-IsDate
      (λ d e. subst IsDate (same_date d e) (omega arith, omega arith, omega arith, omega arith))
      (omega arith) (λ d e. subst (λ d. d.year + 1 ≤ 9999) (same_date d e) (omega arith))

received_within_window_test :
    (leap_day.year ≤ leap_day.year + 2)
    × (paid_until_after gregorian leap_day none ≡ some (a_year_on gregorian leap_day 1))
received_within_window_test =
    received_within_window gregorian 9999 gregorian-IsCalendar leap_day leap_day leap_day-IsDate
      leap_day-IsDate (omega arith)
      (unfold received_beyond_window credit_ceiling anniversary in refl)
