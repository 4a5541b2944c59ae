-- ===== src/Journal/Tests.antt =====
-- A short journal (onboard/src/journal.rs).
use kyriakon_infra.Base.{
  ℕ, List, [], ◌∷◌, String, Option, some, none, if◌then◌else◌, str_eq, ◌++◌, ◌≡◌, refl,
}
use kyriakon_infra.Journal.{
  append, failures_of, load, load_from, remember, remember_mark, remember_credit, remember_started,
  remember_failure,
}
use kyriakon_infra.Journal.Agreement.{Answers, load-Answers, append-Answers}
use kyriakon_infra.Store.{JournalLine, account_ref}

-- A parser that reads two times of the day.
abbrev clock : String → Option ℕ
clock s = if str_eq s "noon" then some 43200 else if str_eq s "one" then some 46800 else none

abbrev entry : String → String → String → JournalLine
entry at intent outcome = record {
  version = 1;
  at = at;
  intent = intent;
  kind = "approve";
  release = "r1";
  application = account_ref "anna";
  outcome = outcome;
  note = some outcome;
  credit = none;
}

abbrev file : List JournalLine
file = entry "noon" "i1" "failed" ∷ entry "one" "i1" "failed" ∷ entry "?" "i2" "applied" ∷ []

load-Answers_example : Answers clock (load clock file) file
load-Answers_example = load-Answers clock file

append-Answers_test :
    Answers clock
      (append clock (entry "one" "i2" "failed") (load clock file))
      (file ++ entry "one" "i2" "failed" ∷ [])
append-Answers_test = append-Answers clock file (entry "one" "i2" "failed")

two_failures : failures_of "i1" (load clock file) ≡ (2, some 46800, some "failed")
unfolding failures_of load load_from remember remember_mark remember_credit remember_started
    remember_failure
two_failures = refl
