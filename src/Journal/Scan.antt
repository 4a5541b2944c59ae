-- ===== src/Journal/Scan.antt =====
-- What each query of the index asks of the file, as a scan over its lines.
use kyriakon_infra.Base.{
  ℕ, [], false, String, Option, List, Bool, if◌then◌else◌, str_eq, none, ◌∷◌, some, ◌+◌, ◌||◌, ◌&&◌,
  not,
}
use kyriakon_infra.Base.Chars.{codes}
use kyriakon_infra.Store.{JournalLine, CreditProgress}
use kyriakon_infra.Store.Tokens.{is_status_token}
use kyriakon_infra.Journal.{or_old}

abbrev pub is_failure_of : String → JournalLine → Bool
is_failure_of id line = str_eq line.outcome "failed" && str_eq line.intent id

-- Some line of this intent has this outcome.
unfoldable pub scan_has : String → String → List JournalLine → Bool
scan_has id outcome [] = false
scan_has id outcome (l ∷ ls) =
    str_eq l.intent id && str_eq l.outcome outcome || scan_has id outcome ls

-- How many lines of this intent failed.
unfoldable pub scan_count : String → List JournalLine → ℕ
scan_count id [] = 0
scan_count id (l ∷ ls) = (if is_failure_of id l then 1 else 0) + scan_count id ls

-- The last value that a failed line of this intent has.
unfoldable pub scan_last {ℓ} :
    {A : Type ℓ} → (JournalLine → Option A) → String → List JournalLine → Option A
scan_last value id [] = none
scan_last value id (l ∷ ls) =
    or_old (scan_last value id ls) (if is_failure_of id l then value l else none)

-- Some line of this intent failed.
unfoldable pub scan_failed : String → List JournalLine → Bool
scan_failed id [] = false
scan_failed id (l ∷ ls) = is_failure_of id l || scan_failed id ls

abbrev pub names_token : String → JournalLine → Bool
names_token token line = elim line.application.status_token [
  | none ↦ false
  | some t ↦ str_eq t token
]

-- A line marks this token if the token has the shape of one.
abbrev pub is_mark : String → String → String → JournalLine → Bool
is_mark token kind outcome line = elim line.application.status_token [
  | none ↦ false
  | some t ↦
      is_status_token (codes t)
      && (str_eq t token && (str_eq line.kind kind && str_eq line.outcome outcome))
]

-- Some mark stands: the intent of its line has not failed on a later line.
unfoldable pub scan_seen : String → String → String → List JournalLine → Bool
scan_seen token kind outcome [] = false
scan_seen token kind outcome (l ∷ ls) =
    is_mark token kind outcome l && not (scan_failed l.intent ls) || scan_seen token kind outcome ls

abbrev pub starts : String → JournalLine → Bool
starts token l =
    str_eq l.outcome "applying"
    && (str_eq l.kind "approve" || str_eq l.kind "provision")
    && names_token token l

-- Some line says that the approval of this token began.
unfoldable pub scan_started : String → List JournalLine → Bool
scan_started token [] = false
scan_started token (l ∷ ls) = starts token l || scan_started token ls

abbrev pub credit_of : String → JournalLine → Option CreditProgress
credit_of id l = if str_eq l.outcome "applying" && str_eq l.intent id then l.credit else none

-- The credit of the first `applying` line of this intent that carries one.
unfoldable pub scan_credit : String → List JournalLine → Option CreditProgress
scan_credit id [] = none
scan_credit id (l ∷ ls) = or_old (credit_of id l) (scan_credit id ls)
