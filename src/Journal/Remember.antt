-- ===== src/Journal/Remember.antt =====
-- What one line changes in the index, field by field.
use kyriakon_infra.Base.{
  ◌&&◌, ◌||◌, ℕ, [], String, Option, ◌≡◌, str_eq, ◌++◌, arith, if◌then◌else◌, eq_iff, none, ◌+◌,
  ◌∷◌, ◌∙◌,
}
use kyriakon_infra.Store.{JournalLine}
use kyriakon_infra.Journal.{
  Index, remember, remember_mark, remember_credit, remember_started, remember_failure, contains,
  or_old, update,
}
use kyriakon_infra.Journal.Scan.{starts, credit_of, is_mark, is_failure_of}
use mathlib.Core.List.{append-nil}

module _ {Time : Type 0} (parse_time : String → Option Time) where
  -- What each part of `remember` leaves alone.
  mark_keeps :
      (at : ℕ) (l : JournalLine) (i : Index Time)
      → let j = remember_mark at l i in
        (j.lines ≡ i.lines)
        × (j.outcomes ≡ i.outcomes)
        × (j.failures ≡ i.failures)
        × (j.failed_at ≡ i.failed_at)
        × (j.started ≡ i.started)
        × (j.credits ≡ i.credits)
  unfolding remember_mark
  mark_keeps at l i =
      (ground arith, ground arith, ground arith, ground arith, ground arith, ground arith)

  credit_keeps :
      (l : JournalLine) (i : Index Time)
      → let j = remember_credit l i in
        (j.lines ≡ i.lines)
        × (j.outcomes ≡ i.outcomes)
        × (j.failures ≡ i.failures)
        × (j.failed_at ≡ i.failed_at)
        × (j.started ≡ i.started)
        × (j.marks ≡ i.marks)
  unfolding remember_credit
  credit_keeps l i =
      (ground arith, ground arith, ground arith, ground arith, ground arith, ground arith)

  started_keeps :
      (l : JournalLine) (i : Index Time)
      → let j = remember_started l i in
        (j.lines ≡ i.lines)
        × (j.outcomes ≡ i.outcomes)
        × (j.failures ≡ i.failures)
        × (j.failed_at ≡ i.failed_at)
        × (j.credits ≡ i.credits)
        × (j.marks ≡ i.marks)
  unfolding remember_started
  started_keeps l i =
      (ground arith, ground arith, ground arith, ground arith, ground arith, ground arith)

  failure_keeps :
      (at : ℕ) (l : JournalLine) (i : Index Time)
      → let j = remember_failure parse_time at l i in
        (j.lines ≡ i.lines)
        × (j.outcomes ≡ i.outcomes)
        × (j.started ≡ i.started)
        × (j.credits ≡ i.credits)
        × (j.marks ≡ i.marks)
  unfolding remember_failure
  failure_keeps at l i = (ground arith, ground arith, ground arith, ground arith, ground arith)

  -- The steps of `remember`, each a function of the one before.
  abbrev pub noted : ℕ → JournalLine → Index Time → Index Time
  noted at l i = record i {
    lines = at + 1;
    outcomes = update i.outcomes l.intent (l.outcome ∷ i.outcomes l.intent);
  }

  abbrev pub failed : ℕ → JournalLine → Index Time → Index Time
  failed at l i = remember_failure parse_time at l (noted at l i)

  abbrev pub begun : ℕ → JournalLine → Index Time → Index Time
  begun at l i = remember_started l (failed at l i)

  abbrev pub credited : ℕ → JournalLine → Index Time → Index Time
  credited at l i = remember_credit l (begun at l i)

  pub remember_lines :
      (at : ℕ) (l : JournalLine) (i : Index Time) → (remember parse_time at l i).lines ≡ at + 1
  unfolding remember
  remember_lines at l i =
      (mark_keeps at l (credited at l i)).0
      ∙ (credit_keeps l (begun at l i)).0
      ∙ (started_keeps l (failed at l i)).0
      ∙ (failure_keeps at l (noted at l i)).0

  remember_outcomes :
      (at : ℕ) (l : JournalLine) (i : Index Time)
      → (remember parse_time at l i).outcomes
        ≡ update i.outcomes l.intent (l.outcome ∷ i.outcomes l.intent)
  unfolding remember
  remember_outcomes at l i =
      (mark_keeps at l (credited at l i)).1
      ∙ (credit_keeps l (begun at l i)).1
      ∙ (started_keeps l (failed at l i)).1
      ∙ (failure_keeps at l (noted at l i)).1

  remember_failures :
      (at : ℕ) (l : JournalLine) (i : Index Time)
      → (remember parse_time at l i).failures
        ≡ (remember_failure parse_time at l (noted at l i)).failures
  unfolding remember
  remember_failures at l i =
      (mark_keeps at l (credited at l i)).2
      ∙ (credit_keeps l (begun at l i)).2
      ∙ (started_keeps l (failed at l i)).2

  remember_failed_at :
      (at : ℕ) (l : JournalLine) (i : Index Time)
      → (remember parse_time at l i).failed_at
        ≡ (remember_failure parse_time at l (noted at l i)).failed_at
  unfolding remember
  remember_failed_at at l i =
      (mark_keeps at l (credited at l i)).3
      ∙ (credit_keeps l (begun at l i)).3
      ∙ (started_keeps l (failed at l i)).3

  remember_starts :
      (at : ℕ) (l : JournalLine) (i : Index Time)
      → (remember parse_time at l i).started ≡ (remember_started l (failed at l i)).started
  unfolding remember
  remember_starts at l i = (mark_keeps at l (credited at l i)).4 ∙ (credit_keeps l (begun at l i)).4

  remember_credits :
      (at : ℕ) (l : JournalLine) (i : Index Time)
      → (remember parse_time at l i).credits ≡ (remember_credit l (begun at l i)).credits
  unfolding remember
  remember_credits at l i = (mark_keeps at l (credited at l i)).5

  -- A field of the new index, in terms of the line and the old one.
  pub has-remember :
      (at : ℕ) (l : JournalLine) (i : Index Time) (id o : String)
      → contains o ((remember parse_time at l i).outcomes id)
        ≡ (str_eq l.intent id && str_eq l.outcome o || contains o (i.outcomes id))
  has-remember at l i id o = rw (remember_outcomes at l i) (ground (arith, eq_iff l.intent id))

  pub count-remember :
      (at : ℕ) (l : JournalLine) (i : Index Time) (id : String)
      → ((remember parse_time at l i).failures id).count
        ≡ (if is_failure_of id l then 1 else 0) + (i.failures id).count
  unfolding remember_failure
  count-remember at l i id = rw (remember_failures at l i) (ground (arith, eq_iff l.intent id))

  pub last-remember :
      (at : ℕ) (l : JournalLine) (i : Index Time) (id : String)
      → ((remember parse_time at l i).failures id).last
        ≡ or_old (if is_failure_of id l then parse_time l.at else none) (i.failures id).last
  unfolding remember_failure
  last-remember at l i id = rw (remember_failures at l i) (ground (arith, eq_iff l.intent id))

  pub message-remember :
      (at : ℕ) (l : JournalLine) (i : Index Time) (id : String)
      → ((remember parse_time at l i).failures id).message
        ≡ or_old (if is_failure_of id l then l.note else none) (i.failures id).message
  unfolding remember_failure
  message-remember at l i id = rw (remember_failures at l i) (ground (arith, eq_iff l.intent id))

  pub failed_at-remember :
      (at : ℕ) (l : JournalLine) (i : Index Time) (id : String)
      → (remember parse_time at l i).failed_at id
        ≡ i.failed_at id ++ (if is_failure_of id l then at ∷ [] else [])
  unfolding remember_failure
  failed_at-remember at l i id =
      rw (remember_failed_at at l i)
        (ground (arith, eq_iff l.intent id, append-nil (i.failed_at id)))

  pub started-remember :
      (at : ℕ) (l : JournalLine) (i : Index Time) (t : String)
      → (remember parse_time at l i).started t ≡ (starts t l || i.started t)
  unfolding remember_started
  started-remember at l i t =
      rw (remember_starts at l i) (ground (arith, (failure_keeps at l (noted at l i)).2))

  pub credits-remember :
      (at : ℕ) (l : JournalLine) (i : Index Time) (id : String)
      → (remember parse_time at l i).credits id ≡ or_old (i.credits id) (credit_of id l)
  unfolding remember_credit
  credits-remember at l i id = rw (remember_credits at l i) (
      ground (
        arith,
        eq_iff l.intent id,
        (started_keeps l (failed at l i)).4,
        (failure_keeps at l (noted at l i)).3,
      ))

  pub marks-remember :
      (at : ℕ) (l : JournalLine) (i : Index Time) (t k o : String)
      → (remember parse_time at l i).marks t k o
        ≡ i.marks t k o ++ (if is_mark t k o l then (at, l.intent) ∷ [] else [])
  unfolding remember remember_mark
  marks-remember at l i t k o = ground (
    arith,
    append-nil (i.marks t k o),
    (credit_keeps l (begun at l i)).5,
    (started_keeps l (failed at l i)).5,
    (failure_keeps at l (noted at l i)).4,
  )
