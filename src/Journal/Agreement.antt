-- ===== src/Journal/Agreement.antt =====
-- The index answers every query as a scan of the file does, whatever was appended to it.
use kyriakon_infra.Journal
use native.Mathlib.Nat.{zero-add}
use kyriakon_infra.Base.{
  true, false, ◌&&◌, ◌||◌, ℕ, [], refl, String, Option, List, ◌≡◌, length, str_eq, ◌++◌, arith,
  if◌then◌else◌, none, ◌+◌, ◌∷◌, ◌∙◌, some, sym, length-append, Bool, ap,
}
use kyriakon_infra.Store.{JournalLine}
use kyriakon_infra.Journal.{
  Index, remember, remember_mark, remember_credit, remember_started, remember_failure, contains,
  empty, or_old, update, load, failures_of, load_from, application_seen, append, approval_started,
  credit_progress,
}
use kyriakon_infra.Journal.Scan.{
  scan_has, scan_count, scan_last, scan_started, scan_credit, starts, credit_of, is_failure_of,
  scan_seen,
}
use kyriakon_infra.Journal.Positions.{
  fail_positions, mark_positions, any-mark_positions, fail_positions-snoc, mark_positions-snoc,
}
use mathlib.Core.List.{append-nil, append_assoc}
use kyriakon_infra.Base.{◌&&◌, ◌||◌}
use kyriakon_infra.Journal.Remember.{
  remember_lines, has-remember, count-remember, last-remember, message-remember, failed_at-remember,
  marks-remember, started-remember, credits-remember,
}
use mathlib.Core.Path.{fun_ext, subst}

or_swap : (a b c : Bool) → (a || (b || c)) ≡ (b || (a || c))
or_swap true true c = refl
or_swap true false c = refl
or_swap false b c = refl

scan_has-snoc :
    (id o : String) (ls : List JournalLine) (l : JournalLine)
    → scan_has id o (ls ++ l ∷ []) ≡ (str_eq l.intent id && str_eq l.outcome o || scan_has id o ls)
unfolding scan_has
scan_has-snoc id o [] l = refl
scan_has-snoc id o (m ∷ ls) l = rw (scan_has-snoc id o ls l) (or_swap _ _ (scan_has id o ls))

scan_count-snoc :
    (id : String) (ls : List JournalLine) (l : JournalLine)
    → scan_count id (ls ++ l ∷ []) ≡ (if is_failure_of id l then 1 else 0) + scan_count id ls
unfolding scan_count
scan_count-snoc id [] l = refl
scan_count-snoc id (m ∷ ls) l = omega (arith, scan_count-snoc id ls l)

or_old_assoc {ℓ} : {A : Type ℓ} (a b c : Option A) → or_old (or_old a b) c ≡ or_old a (or_old b c)
or_old_assoc none b c = refl
or_old_assoc (some a) b c = refl

or_old-none {ℓ} : {A : Type ℓ} (a : Option A) → or_old a none ≡ a
or_old-none none = refl
or_old-none (some a) = refl

pub scan_last-snoc {ℓ} :
    {A : Type ℓ} (value : JournalLine → Option A) (id : String) (ls : List JournalLine)
    (l : JournalLine)
    → scan_last value id (ls ++ l ∷ [])
      ≡ or_old (if is_failure_of id l then value l else none) (scan_last value id ls)
unfolding scan_last
scan_last-snoc value id [] l = sym (or_old-none _)
scan_last-snoc value id (m ∷ ls) l =
    rw (scan_last-snoc value id ls l) (or_old_assoc _ (scan_last value id ls) _)

scan_started-snoc :
    (t : String) (ls : List JournalLine) (l : JournalLine)
    → scan_started t (ls ++ l ∷ []) ≡ (starts t l || scan_started t ls)
unfolding scan_started
scan_started-snoc t [] l = refl
scan_started-snoc t (m ∷ ls) l =
    rw (scan_started-snoc t ls l) (or_swap (starts t m) (starts t l) (scan_started t ls))

scan_credit-snoc :
    (id : String) (ls : List JournalLine) (l : JournalLine)
    → scan_credit id (ls ++ l ∷ []) ≡ or_old (scan_credit id ls) (credit_of id l)
unfolding scan_credit
scan_credit-snoc id [] l = or_old-none (credit_of id l)
scan_credit-snoc id (m ∷ ls) l =
    rw (scan_credit-snoc id ls l)
      (sym (or_old_assoc (credit_of id m) (scan_credit id ls) (credit_of id l)))

module _ {Time : Type 0} (parse_time : String → Option Time) where
  record Agrees (index : Index Time) (seen : List JournalLine) : Type 0 where
    lines : index.lines ≡ length seen
    outcomes : (id o : String) → contains o (index.outcomes id) ≡ scan_has id o seen
    count : (id : String) → (index.failures id).count ≡ scan_count id seen
    last : (id : String) → (index.failures id).last ≡ scan_last (λ l. parse_time l.at) id seen
    message : (id : String) → (index.failures id).message ≡ scan_last (λ l. l.note) id seen
    failed_at : (id : String) → index.failed_at id ≡ fail_positions id 0 seen
    marks : (t k o : String) → index.marks t k o ≡ mark_positions t k o 0 seen
    started : (t : String) → index.started t ≡ scan_started t seen
    credits : (id : String) → index.credits id ≡ scan_credit id seen

  Agrees-empty : Agrees empty []
  unfolding scan_has scan_count scan_last fail_positions mark_positions scan_started scan_credit
  Agrees-empty = record {
    lines = refl;
    outcomes = λ id o. refl;
    count = λ id. refl;
    last = λ id. refl;
    message = λ id. refl;
    failed_at = λ id. refl;
    marks = λ t k o. refl;
    started = λ t. refl;
    credits = λ id. refl;
  }

  Agrees-remember :
      (i : Index Time) (seen : List JournalLine) (l : JournalLine)
      → Agrees i seen
      → Agrees (remember parse_time (length seen) l i) (seen ++ l ∷ [])
  Agrees-remember i seen l h = record {
    lines = omega (arith, remember_lines parse_time (length seen) l i, length-append seen (l ∷ []));
    outcomes = λ id o.
        rw (has-remember parse_time (length seen) l i id o, h.outcomes id o)
          (sym (scan_has-snoc id o seen l));
    count = λ id.
        rw (count-remember parse_time (length seen) l i id, h.count id)
          (sym (scan_count-snoc id seen l));
    last = λ id.
        rw (last-remember parse_time (length seen) l i id, h.last id)
          (sym (scan_last-snoc (λ m. parse_time m.at) id seen l));
    message = λ id.
        rw (message-remember parse_time (length seen) l i id, h.message id)
          (sym (scan_last-snoc (λ m. m.note) id seen l));
    failed_at = λ id.
        rw (failed_at-remember parse_time (length seen) l i id, h.failed_at id)
          (sym (fail_positions-snoc id 0 seen l ∙ rw (zero-add (length seen))));
    marks = λ t k o.
        rw (marks-remember parse_time (length seen) l i t k o, h.marks t k o)
          (sym (mark_positions-snoc t k o 0 seen l ∙ rw (zero-add (length seen))));
    started = λ t.
        rw (started-remember parse_time (length seen) l i t, h.started t)
          (sym (scan_started-snoc t seen l));
    credits = λ id.
        rw (credits-remember parse_time (length seen) l i id, h.credits id)
          (sym (scan_credit-snoc id seen l));
  }

  Agrees-load_from :
      (at : ℕ) (ls : List JournalLine) (i : Index Time) (seen : List JournalLine)
      → at ≡ length seen
      → Agrees i seen
      → Agrees (load_from parse_time at ls i) (seen ++ ls)
  unfolding load_from
  Agrees-load_from at [] i seen e h = rw append-nil h
  Agrees-load_from at (l ∷ ls) i seen e h = rw (← append_assoc seen (l ∷ []) ls) (
      Agrees-load_from (at + 1) ls (remember parse_time at l i) (seen ++ l ∷ [])
        (omega (arith, length-append seen (l ∷ []))) (rw e (Agrees-remember i seen l h)))

  -- Every answer of the index, as a scan of the lines.
  pub record Answers (index : Index Time) (lines : List JournalLine) : Type 0 where
    pub has : (id o : String) → Journal.has id o index ≡ scan_has id o lines
    pub failures :
        (id : String)
        → failures_of id index ≡ (
          scan_count id lines,
          scan_last (λ l. parse_time l.at) id lines,
          scan_last (λ l. l.note) id lines,
        )
    pub seen : (t k o : String) → application_seen t k o index ≡ scan_seen t k o lines
    pub started : (t : String) → approval_started t index ≡ scan_started t lines
    pub credit : (id : String) → credit_progress id index ≡ scan_credit id lines

  Agrees-Answers : (i : Index Time) (seen : List JournalLine) → Agrees i seen → Answers i seen
  unfolding Journal.has failures_of application_seen approval_started credit_progress
  Agrees-Answers i seen h = record {
    has = h.outcomes;
    failures = λ id. cc (h.count id, h.last id, h.message id);
    seen = λ t k o. rw (h.marks t k o, fun_ext h.failed_at) (any-mark_positions t k o [] seen);
    started = h.started;
    credit = h.credits;
  }

  -- On the index of any file, each of the five queries answers as a scan of the lines in order does:
  -- an outcome of an intent; its failures, counted, with the last readable time and the last note;
  -- a mark that no later failure of its own intent has undone; an approval begun; a credit's first
  -- progress.
  pub load-Answers : (lines : List JournalLine) → Answers (load parse_time lines) lines
  unfolding load
  load-Answers lines = Agrees-Answers _ lines (Agrees-load_from 0 lines empty [] refl Agrees-empty)

  -- After a line is appended in a pass, the index answers as if it had been loaded from the file with
  -- that line at its end.
  pub append-Answers :
      (lines : List JournalLine) (line : JournalLine)
      → Answers (append parse_time line (load parse_time lines)) (lines ++ line ∷ [])
  unfolding load append
  append-Answers lines line =
      let before = Agrees-load_from 0 lines empty [] refl Agrees-empty in
      Agrees-Answers _ (lines ++ line ∷ []) (
        subst
          (λ at. Agrees (remember parse_time at line (load parse_time lines)) (lines ++ line ∷ []))
          (sym before.lines) (Agrees-remember _ lines line before))

  load_from-append :
      (at : ℕ) (ls : List JournalLine) (l : JournalLine) (i : Index Time) (seen : List JournalLine)
      → at ≡ length seen
      → Agrees i seen
      → append parse_time l (load_from parse_time at ls i)
        ≡ load_from parse_time at (ls ++ l ∷ []) i
  unfolding load_from append
  load_from-append at [] l i seen e h = ap (λ k. remember parse_time k l i) (h.lines ∙ sym e)
  load_from-append at (m ∷ ls) l i seen e h =
      load_from-append (at + 1) ls l (remember parse_time at m i) (seen ++ m ∷ [])
        (omega (arith, length-append seen (m ∷ []))) (rw e (Agrees-remember i seen m h))

  -- Appending is loading the longer file.
  pub append-load :
      (lines : List JournalLine) (line : JournalLine)
      → append parse_time line (load parse_time lines) ≡ load parse_time (lines ++ line ∷ [])
  unfolding load
  append-load lines line = load_from-append 0 lines line empty [] refl Agrees-empty
