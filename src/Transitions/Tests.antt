-- ===== src/Transitions/Tests.antt =====
-- Passes over one intent, with failing calls (onboard/src/transitions.rs).
use kyriakon_infra.Base.{
  ℕ, List, [], ◌∷◌, String, Option, some, none, if◌then◌else◌, ◌≤◌, arith, ◌≡◌, str_eq, ok, true,
  keep, ◌↔◌, not, ◌+◌, ◌++◌, refl, ◌*◌,
}
use kyriakon_infra.Transitions.Settle.{settle, Envelope, Disposition, Settlement, remove_file, line}
use kyriakon_infra.Transitions.Retry.{note_failure, due, retry_after_minutes}
use kyriakon_infra.Transitions.Settle.Replay.{
  Recorded, Ending, IsTidy, no_intent_lost, owed, applied_finishes,
}
use kyriakon_infra.Transitions.World.{Action, remove_group_record, World, begin_pass, late}
use kyriakon_infra.Store.{JournalLine, account_ref}
use kyriakon_infra.Transitions.Settle.Once.{IsQuiet, count_outcome, passes, outcome_once}
use kyriakon_infra.Journal.{load}
use kyriakon_infra.Transitions.Retry.Schedule.{retry_schedule, failure_reported_once, due_iff}
use kyriakon_infra.Journal.Scan.{scan_count, scan_has, scan_last}

abbrev clock : String → Option ℕ
clock s = if str_eq s "noon" then some 43200 else none

abbrev entry : String → String → JournalLine
entry intent outcome = record {
  version = 1;
  at = "noon";
  intent = intent;
  kind = "close";
  release = "r1";
  application = account_ref "anna";
  outcome = outcome;
  note = some "the mailbox is locked";
  credit = none;
}

abbrev world : List JournalLine → World ℕ
world lines = record {
  lines = lines;
  index = load clock lines;
  intents = "a" ∷ "b" ∷ [];
  carried_out = [];
  faults = [];
}

abbrev envelope : Envelope
envelope = record { id = "i1"; kind = "close"; application = account_ref "anna" }

abbrev disposition : Disposition
disposition = record { after = remove_group_record "example.org"; refusal = remove_file }

abbrev body : Action (World ℕ) Settlement
body w = (ok (line "applied" (account_ref "anna") none none), w)

body-IsQuiet : IsQuiet clock "noon" "r1" "i1" "applied" body
body-IsQuiet = record { counts = λ w c. refl; refusals = λ w c. refl; coherent = λ w s c e. c }

-- Two passes: in the first the record is written and the call reports an error all the same.
outcome_once_example :
    count_outcome "i1" "applied"
      (passes clock "noon" "r1" "a" envelope disposition
        (record { faults = late ∷ []; body = body } ∷ record { faults = []; body = body } ∷ [])
        (world [])).lines
    ≤ 1
outcome_once_example =
    outcome_once clock "noon" "r1" "a" envelope disposition
      (record { faults = late ∷ []; body = body } ∷ record { faults = []; body = body } ∷ [])
      "applied" (world []) (body-IsQuiet, (body-IsQuiet, tt)) (unfold count_outcome in omega arith)

body-IsTidy : IsTidy clock "noon" "r1" body
body-IsTidy = record {
  intents = λ w. refl;
  some_line = λ w e. ground arith;
  coherent = λ w s c e. c;
}

no_intent_lost_example :
    Recorded clock "noon" "r1"
      (Ending clock "noon" "r1" (ok (line "applied" (account_ref "anna") none none)))
      "a"
      "i1"
      (world [])
      (settle clock "noon" "r1" "a" envelope disposition body (world [])).1
no_intent_lost_example =
    no_intent_lost clock "noon" "r1" "a" envelope disposition body (world []) body-IsTidy refl

applied_finishes_example :
    settle clock "noon" "r1" "a" envelope disposition body
      (begin_pass clock [] (world (entry "i1" "applied" ∷ [])))
    ≡ (
      ok tt,
      record (begin_pass clock [] (world (entry "i1" "applied" ∷ []))) {
        intents = keep (λ f. not (str_eq f "a")) ("a" ∷ "b" ∷ []);
        carried_out = [] ++ owed (remove_group_record "example.org");
      },
    )
applied_finishes_example =
    applied_finishes clock "noon" "r1" "a" envelope disposition body
      (world (entry "i1" "applied" ∷ [])) (unfold scan_has in refl)

retry_schedule_test :
    (1 ≤ retry_after_minutes 2)
    × (retry_after_minutes 2 ≤ retry_after_minutes 7)
    × (retry_after_minutes 7 ≤ 60)
retry_schedule_test = retry_schedule 2 7 (omega arith) (omega arith)

due_iff_test :
    ((due (load clock (entry "i1" "failed" ∷ [])) "i1" 43300 ≡ true)
      ↔ (43200 + 60 * retry_after_minutes (scan_count "i1" (entry "i1" "failed" ∷ [])) ≤ 43300))
    × (43200 + 3600 ≤ 43300 → due (load clock (entry "i1" "failed" ∷ [])) "i1" 43300 ≡ true)
due_iff_test = due_iff clock (entry "i1" "failed" ∷ []) "i1" 43300 43200 (unfold scan_last in refl)

failure_reported_once_test :
    (note_failure clock "noon" "r1" "i1" "close" "locked"
      (note_failure clock "noon" "r1" "i1" "close" "locked" (world [])).1).0
    ≡ ok (not (str_eq "locked" "locked"))
failure_reported_once_test =
    failure_reported_once clock "noon" "r1" "i1" "close" "locked" "locked" (world []) refl refl
