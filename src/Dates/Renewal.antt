-- ===== src/Dates/Renewal.antt =====
-- What a payment does to a date, on a calendar that behaves as the time crate documents.
use kyriakon_infra.Dates.{
  Calendar, Date, anniversary, paid_until_after, credit_ceiling, before_or_at, start_of,
  received_beyond_window,
}
use kyriakon_infra.Base.{
  ◌⊎◌, ℕ, ◌≤◌, ◌+◌, Option, ◌≡◌, min, some, ◌<◌, none, arith, Bool-cases, true, inl, inr, refl,
  false, not,
}

-- A month has 28 to 31 days, the fields that name a day of a year up to `last_year` make that date, and
-- those of a later year make none.
pub record IsCalendar (calendar : Calendar) (last_year : ℕ) : Type 0 where
  pub lengths :
      (month year : ℕ) → (28 ≤ calendar.length month year) × (calendar.length month year ≤ 31)
  pub builds :
      (year month day : ℕ)
      → year ≤ last_year
      → 1 ≤ month
      → month ≤ 12
      → 1 ≤ day
      → day ≤ calendar.length month year
      → calendar.from_calendar_date year month day
        ≡ some (record { year = year; month = month; day = day })
  pub refuses :
      (year month day : ℕ) → last_year < year → calendar.from_calendar_date year month day ≡ none

abbrev pub IsDate : Date → Type 0
IsDate d = (1 ≤ d.month) × (d.month ≤ 12) × (1 ≤ d.day) × (d.day ≤ 31)

-- A year from a day: the same month, and the same day or the last of that month.
abbrev pub a_year_on : Calendar → Date → ℕ → Date
a_year_on calendar d years = record {
  year = d.year + years;
  month = d.month;
  day = min d.day (calendar.length d.month (d.year + years));
}

-- A day that is not after another: by the year, then the month, then the day.
abbrev pub IsBy : Date → Date → Type 0
IsBy a b =
    (a.year < b.year)
    ⊎ ((a.year ≡ b.year) × ((a.month < b.month) ⊎ ((a.month ≡ b.month) × (a.day ≤ b.day))))

-- The last of the days given: no day of them is after it, and it is one of them.
abbrev pub IsLatest : Date → Option Date → Date → Type 0
IsLatest received none start = start ≡ received
IsLatest received (some b) start =
    IsBy received start × (IsBy b start × ((start ≡ received) ⊎ (start ≡ b)))

before_or_at-IsBy : (a b : Date) → before_or_at a b ≡ true → IsBy a b
before_or_at-IsBy a b h = ground (arith, h)

after-IsBy : (a b : Date) → before_or_at a b ≡ false → IsBy b a
after-IsBy a b h = ground (arith, h)

IsBy-self : (a : Date) → IsBy a a
IsBy-self a = inr (refl, inr (refl, omega arith))

module _ (calendar : Calendar) (last_year : ℕ) (sound : IsCalendar calendar last_year) where
  anniversary_lem :
      (d : Date) (years : ℕ)
      → IsDate d
      → d.year + years ≤ last_year
      → anniversary calendar d (d.year + years) ≡ some (a_year_on calendar d years)
  unfolding anniversary
  anniversary_lem d years h in_range =
      sound.builds (d.year + years) d.month _ in_range h.0 h.1
        (omega (arith, h.2, sound.lengths d.month (d.year + years))) (omega arith)

  start_of-IsDate :
      (r : Date) (b : Option Date)
      → IsDate r
      → ((d : Date) → b ≡ some d → IsDate d)
      → IsDate (start_of calendar r b)
  start_of-IsDate r none hr hb = hr
  start_of-IsDate r (some b) hr hb = elim (Bool-cases (before_or_at b r)) [
    | inl e ↦ rw e hr
    | inr e ↦ rw e (hb b refl)
  ]

  start_of-IsLatest :
      (r : Date) (before : Option Date) → IsLatest r before (start_of calendar r before)
  start_of-IsLatest r none = refl
  start_of-IsLatest r (some b) = elim (Bool-cases (before_or_at b r)) [
    | inl e ↦ rw e (IsBy-self r, (before_or_at-IsBy b r e, inl refl))
    | inr e ↦ rw e (after-IsBy b r e, (IsBy-self b, inr refl))
  ]

  start_of-year :
      (r : Date) (before : Option Date)
      → r.year + 1 ≤ last_year
      → ((d : Date) → before ≡ some d → d.year + 1 ≤ last_year)
      → (start_of calendar r before).year + 1 ≤ last_year
  start_of-year r none hr hb = hr
  start_of-year r (some b) hr hb = elim (Bool-cases (before_or_at b r)) [
    | inl e ↦ rw e hr
    | inr e ↦ rw e (hb b refl)
  ]

  -- Where the calendar has a year more than the day a payment was received and the date already paid to,
  -- the payment gets a date: a year from the later of the two, or from the day it was received where
  -- nothing is paid, on the same day of the month or the month's last.
  pub paid_until_after_lem :
      (received : Date) (before : Option Date)
      → IsDate received
      → ((d : Date) → before ≡ some d → IsDate d)
      → received.year + 1 ≤ last_year
      → ((d : Date) → before ≡ some d → d.year + 1 ≤ last_year)
      → (start : Date) × (IsLatest received before start
          × (paid_until_after calendar received before ≡ some (a_year_on calendar start 1)))
  unfolding paid_until_after
  paid_until_after_lem received before hr hb in_range before_in_range =
      let start : Date = start_of calendar received before in
      (
        start,
        (
          start_of-IsLatest received before,
          anniversary_lem start 1 (start_of-IsDate received before hr hb)
              (start_of-year received before in_range before_in_range),
        ),
      )

  -- The first payment of an account is never past the ceiling of twenty-four months, so that it needs
  -- no override.
  pub first_payment_within :
      (received : Date)
      → IsDate received
      → received.year + 2 ≤ last_year
      → (until ceiling : Date) × (paid_until_after calendar received none ≡ some until)
        × (credit_ceiling calendar received ≡ some ceiling)
        × (before_or_at until ceiling ≡ true)
  unfolding paid_until_after credit_ceiling
  first_payment_within received h in_range = (
    a_year_on calendar received 1,
    a_year_on calendar received 2,
    anniversary_lem received 1 h (omega arith),
    anniversary_lem received 2 h in_range,
    ground arith,
  )

  -- A received date that is not beyond the window of today has a year after it in the calendar, and is
  -- at most two years past today's, where the calendar has three years more than today.
  pub received_within_window :
      (received today : Date)
      → IsDate received
      → IsDate today
      → today.year + 3 ≤ last_year
      → received_beyond_window calendar received today ≡ false
      → (received.year ≤ today.year + 2)
        × (paid_until_after calendar received none ≡ some (a_year_on calendar received 1))
  unfolding received_beyond_window credit_ceiling paid_until_after
  received_within_window received today hr ht in_range h =
      let ceiling = anniversary_lem today 2 ht (omega arith) in
      let soon : received.year ≤ today.year + 2 =
        within (rw (ceiling, received_beyond_window) at h) in
      (soon, anniversary_lem received 1 hr (omega arith))
    where
      within :
          not (before_or_at received (a_year_on calendar today 2)) ≡ false
          → received.year ≤ today.year + 2
      within e = ground arith
