-- ===== src/Transitions/Retry/Schedule.antt =====
-- A failing intent waits by its failures, is always tried again, and is reported once for each
-- distinct message.
use kyriakon_infra.Transitions.World.{write_journal, append_line, system_call, World}
use kyriakon_infra.Journal.Scan.{scan_count}
use kyriakon_infra.Base.{
  leb, Bool, ap, ◌∙◌, ℕ, [], true, refl, ◌≤◌, arith, suc, zero, ◌<◌, ◌≡◌, String, Option,
  if◌then◌else◌, ◌==◌, min, List, some, ok, ◌↔◌, not, ◌+◌, str_eq, ◌*◌, ◌++◌, none, ◌∷◌,
}
use kyriakon_infra.Transitions.Retry.{retry_after_minutes, due, note_failure, is_fresh}
use kyriakon_infra.Store.{JournalLine, account_ref}
use kyriakon_infra.Journal.Scan.{scan_last, scan_count}
use kyriakon_infra.Journal.{load, failures_of, append}
use kyriakon_infra.Journal.Agreement.{load-Answers, append-Answers, scan_last-snoc}
use text.Mathlib.TextPositions.{eq_refl}

-- The schedule as a ladder.
retry_after_minutes_lem :
    (n : ℕ)
    → retry_after_minutes n ≡ (
        if n == 0 then 0 else if n == 1 then 1 else if n == 2 then 5 else if n == 3 then 15 else 60)
unfolding retry_after_minutes
retry_after_minutes_lem zero = refl
retry_after_minutes_lem (suc zero) = refl
retry_after_minutes_lem (suc (suc zero)) = refl
retry_after_minutes_lem (suc (suc (suc zero))) = refl
retry_after_minutes_lem (suc (suc (suc (suc n)))) =
    let last : min (suc (suc (suc n))) 3 ≡ 3 = omega arith in rw last (ground arith)

-- More failures never shorten the wait, and it stays between one minute and an hour.
pub retry_schedule :
    (m n : ℕ)
    → 0 < m
    → m ≤ n
    → (1 ≤ retry_after_minutes m)
      × (retry_after_minutes m ≤ retry_after_minutes n)
      × (retry_after_minutes n ≤ 60)
retry_schedule m n h le = rw (retry_after_minutes_lem m, retry_after_minutes_lem n) (ground arith)

hour : (n : ℕ) → retry_after_minutes n ≤ 60
hour n = rw (retry_after_minutes_lem n) (ground arith)

module _ (parse_time : String → Option ℕ) where
  due_at :
      (lines : List JournalLine) (id : String) (now at : ℕ)
      → scan_last (λ l. parse_time l.at) id lines ≡ some at
      → due (load parse_time lines) id now
        ≡ leb (at + 60 * retry_after_minutes (scan_count id lines)) now
  unfolding due
  due_at lines id now at h =
      ap
        (λ f. elim f.1 as (λ _. Bool) [
          | none ↦ true
          | some a ↦ leb (a + 60 * retry_after_minutes f.0) now
        ])
        ((load-Answers parse_time lines).failures id)
      ∙ rw h refl

  -- By the file of the journal, where some failure of the intent has a time that can be read: it is due
  -- exactly if the wait for the number of its failures is over since the last such time; an hour after
  -- that time it is due whatever that number.
  pub due_iff :
      (lines : List JournalLine) (id : String) (now at : ℕ)
      → scan_last (λ l. parse_time l.at) id lines ≡ some at
      → ((due (load parse_time lines) id now ≡ true)
          ↔ (at + 60 * retry_after_minutes (scan_count id lines) ≤ now))
        × (at + 3600 ≤ now → due (load parse_time lines) id now ≡ true)
  due_iff lines id now at h =
      rw (due_at lines id now at h)
        (ground arith, λ late. let bound = hour (scan_count id lines) in ground arith)

module _ {Time : Type 0} (parse_time : String → Option Time) (now release : String) where
  abbrev failed_line : String → String → String → JournalLine
  failed_line id kind message = record {
    version = 1;
    at = now;
    intent = id;
    kind = kind;
    release = release;
    application = account_ref "";
    outcome = "failed";
    note = some message;
    credit = none;
  }

  -- Where no call fails a failure is written, and the answer reads the index from before.
  calm_note :
      (id kind message : String) (w : World Time)
      → w.faults ≡ []
      → note_failure parse_time now release id kind message w ≡ (
        ok (is_fresh (failures_of id w.index).2 message),
        record w {
          lines = w.lines ++ failed_line id kind message ∷ [];
          index = append parse_time (failed_line id kind message) w.index;
        },
      )
  unfolding note_failure write_journal append_line system_call
  calm_note id kind message w calm = rw (calm, system_call) refl

  -- Behind a failure the index carries its message.
  message_kept :
      (id kind message : String) (lines : List JournalLine)
      → (failures_of id (append parse_time (failed_line id kind message) (load parse_time lines))).2
        ≡ some message
  message_kept id kind message lines =
      rw ((append-Answers parse_time lines (failed_line id kind message)).failures id)
        (rw (scan_last-snoc (λ l. l.note) id lines (failed_line id kind message)) (rw (eq_refl id)))

  -- Where no call fails and the index is the file's, the second of two failures of an intent in a row is
  -- reported exactly if its message is another.
  pub failure_reported_once :
      (id kind first second : String) (w : World Time)
      → w.index ≡ load parse_time w.lines
      → w.faults ≡ []
      → (note_failure parse_time now release id kind second
          (note_failure parse_time now release id kind first w).1).0
        ≡ ok (not (str_eq first second))
  unfolding is_fresh
  failure_reported_once id kind first second w coherent calm = rw (calm_note id kind first w calm) (
      rw
        (calm_note id kind second
          (record w {
            lines = w.lines ++ failed_line id kind first ∷ [];
            index = append parse_time (failed_line id kind first) w.index;
          })
          calm)
        (rw coherent (rw (message_kept id kind first w.lines))))
