-- ===== src/Journal.antt =====
-- The journal's index (onboard/src/journal.rs). Each hash map is the function that answers a lookup,
-- the default value where the map has no entry; `parse_time` is the time crate's RFC 3339 parser.
-- The lock is not modelled: it is held for one lookup or one insertion.
pub mod Scan
pub mod Positions
pub mod Remember
pub mod Agreement
mod Tests
use kyriakon_infra.Store.{JournalLine, CreditProgress}
use kyriakon_infra.Store.Tokens.{is_status_token}
use kyriakon_infra.Base.Chars.{codes}
use kyriakon_infra.Base.{
  ℕ, suc, ◌+◌, List, [], ◌∷◌, ◌++◌, Option, none, some, Bool, true, false, not, ◌&&◌, ◌||◌, ltb,
  any, if◌then◌else◌, String, str_eq,
}

pub record Failure (Time : Type 0) : Type 0 where
  pub count : ℕ
  pub last : Option Time
  pub message : Option String

pub record Index (Time : Type 0) : Type 0 where
  pub lines : ℕ
  pub outcomes : String → List String
  pub failures : String → Failure Time
  pub failed_at : String → List ℕ
  pub marks : String → String → String → List (ℕ × String)
  pub started : String → Bool
  pub credits : String → Option CreditProgress

-- The entry of one key given anew.
abbrev pub update {ℓ} : {V : Type ℓ} → (String → V) → String → V → String → V
update f k v j = if str_eq k j then v else f j

abbrev pub contains : String → List String → Bool
contains s l = any (λ x. str_eq x s) l

-- A text in an optional field is not absent.
abbrev pub or_old {ℓ} : {A : Type ℓ} → Option A → Option A → Option A
or_old none old = old
or_old (some a) old = some a

-- `or_insert`
abbrev pub first_kept {ℓ} : {A : Type ℓ} → Option A → A → Option A
first_kept none new = some new
first_kept (some a) new = some a

module _ {Time : Type 0} where
  abbrev pub no_failure : Failure Time
  no_failure = record { count = 0; last = none; message = none }

  abbrev pub empty : Index Time
  empty = record {
    lines = 0;
    outcomes = λ id. [];
    failures = λ id. no_failure;
    failed_at = λ id. [];
    marks = λ token kind outcome. [];
    started = λ token. false;
    credits = λ id. none;
  }

  pub remember_failure : (String → Option Time) → ℕ → JournalLine → Index Time → Index Time
  remember_failure parse_time at line index =
      if str_eq line.outcome "failed"
      then (let failure = index.failures line.intent in
          record index {
            failures = update index.failures line.intent (record {
              count = failure.count + 1;
              last = or_old (parse_time line.at) failure.last;
              message = or_old line.note failure.message;
            });
            failed_at = update index.failed_at line.intent (index.failed_at line.intent ++ at ∷ []);
          })
      else index

  pub remember_started : JournalLine → Index Time → Index Time
  remember_started line index =
      if str_eq line.outcome "applying"
        && (str_eq line.kind "approve" || str_eq line.kind "provision")
      then elim line.application.status_token [
        | none ↦ index
        | some token ↦ record index { started = update index.started token true }
      ]
      else index

  pub remember_credit : JournalLine → Index Time → Index Time
  remember_credit line index =
      if str_eq line.outcome "applying"
      then elim line.credit [
        | none ↦ index
        | some credit ↦ record index {
          credits =
              update index.credits line.intent (first_kept (index.credits line.intent) credit);
        }
      ]
      else index

  pub remember_mark : ℕ → JournalLine → Index Time → Index Time
  remember_mark at line index = elim line.application.status_token [
    | none ↦ index
    | some token ↦
        if is_status_token (codes token)
        then record index {
          marks = λ t k o.
              if str_eq token t && (str_eq line.kind k && str_eq line.outcome o)
              then index.marks t k o ++ (at, line.intent) ∷ []
              else index.marks t k o;
        }
        else index
  ]

  -- `Index::remember`, its five parts in the order of the code.
  pub remember : (String → Option Time) → ℕ → JournalLine → Index Time → Index Time
  remember parse_time at line index =
      let noted = record index {
        lines = at + 1;
        outcomes = update index.outcomes line.intent (line.outcome ∷ index.outcomes line.intent);
      } in
      remember_mark at line
        (remember_credit line (remember_started line (remember_failure parse_time at line noted)))

  -- The lines of the file in order, with their positions.
  pub load_from : (String → Option Time) → ℕ → List JournalLine → Index Time → Index Time
  load_from parse_time at [] index = index
  load_from parse_time at (line ∷ lines) index =
      load_from parse_time (at + 1) lines (remember parse_time at line index)

  -- `Journal::load`, on a file whose lines all parse.
  pub load : (String → Option Time) → List JournalLine → Index Time
  load parse_time lines = load_from parse_time 0 lines empty

  -- What `Journal::append` does to the index, once the line is in the file.
  pub append : (String → Option Time) → JournalLine → Index Time → Index Time
  append parse_time line index = remember parse_time index.lines line index

  pub has : String → String → Index Time → Bool
  has id outcome index = contains outcome (index.outcomes id)

  pub failures_of : String → Index Time → ℕ × Option Time × Option String
  failures_of id index =
      let failure = index.failures id in (failure.count, failure.last, failure.message)

  pub application_seen : String → String → String → Index Time → Bool
  application_seen token kind outcome index =
      any (λ m. not (any (λ f. ltb m.0 f) (index.failed_at m.1))) (index.marks token kind outcome)

  pub approval_started : String → Index Time → Bool
  approval_started token index = index.started token

  pub credit_progress : String → Index Time → Option CreditProgress
  credit_progress id index = index.credits id
