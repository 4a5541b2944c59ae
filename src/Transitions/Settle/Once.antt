-- ===== src/Transitions/Settle/Once.antt =====
-- However calls fail and however often a pass is made, an outcome is journalled once.
use kyriakon_infra.Transitions.World.{◌>>◌, ◌>>=◌, Fault, begin_pass}
use kyriakon_infra.Base.{
  ℕ, [], false, refl, String, List, Option, ◌++◌, ◌≡◌, ◌∷◌, if◌then◌else◌, ◌+◌, arith, str_eq, ◌&&◌,
  some, none, ◌≤◌, ok, ap, ◌∙◌, Bool-cases, inl, inr, eq_iff, All, Result-cases, sym,
}
use kyriakon_infra.Journal.Scan.{scan_has}
use kyriakon_infra.Store.{JournalLine, ApplicationRef}
use kyriakon_infra.Transitions.World.{
  World, remove_intent, system_call, finish, AfterLine, write_journal, Action, append_line,
}
use kyriakon_infra.Journal.{load, has}
use kyriakon_infra.Transitions.Settle.{
  dispose, report, finish_more, RefusalFile, keep_file, remove_file, write_once, Envelope, conclude,
  Disposition, Settlement, line, refused, nothing, settle,
}
use kyriakon_infra.Journal.Agreement.{load-Answers}

-- How many lines of an intent carry an outcome.
unfoldable pub count_outcome : String → String → List JournalLine → ℕ
count_outcome id o [] = 0
count_outcome id o (l ∷ ls) =
    (if str_eq l.intent id && str_eq l.outcome o then 1 else 0) + count_outcome id o ls

count_outcome-snoc :
    (id o : String) (ls : List JournalLine) (l : JournalLine)
    → count_outcome id o (ls ++ l ∷ [])
      ≡ count_outcome id o ls + (if str_eq l.intent id && str_eq l.outcome o then 1 else 0)
unfolding count_outcome
count_outcome-snoc id o [] l = omega arith
count_outcome-snoc id o (m ∷ ls) l = omega (arith, count_outcome-snoc id o ls l)

-- An outcome that the file has not is counted nought.
count_outcome-zero :
    (id o : String) (ls : List JournalLine) → scan_has id o ls ≡ false → count_outcome id o ls ≡ 0
unfolding count_outcome scan_has
count_outcome-zero id o [] h = refl
count_outcome-zero id o (l ∷ ls) h = ground (arith, count_outcome-zero id o ls)

module _ {Time : Type 0} where
  pub remove_intent_lines :
      (file : String) (w : World Time) → (remove_intent file w).1.lines ≡ w.lines
  unfolding remove_intent system_call
  remove_intent_lines file w = ground arith

  pub finish_lines : (a : AfterLine) (w : World Time) → (finish a w).1.lines ≡ w.lines
  unfolding finish system_call
  finish_lines a w = ground arith

  pub finish_more_lines :
      (a : Option AfterLine) (w : World Time) → (finish_more a w).1.lines ≡ w.lines
  unfolding finish_more
  finish_more_lines none w = refl
  finish_more_lines (some a) w = finish_lines a w

  pub dispose_lines :
      (r : RefusalFile) (file : String) (w : World Time) → (dispose r file w).1.lines ≡ w.lines
  unfolding dispose
  dispose_lines keep_file file w = refl
  dispose_lines remove_file file w = remove_intent_lines file w

  pub report_lines : (f : Option String) (w : World Time) → (report f w).1.lines ≡ w.lines
  unfolding report
  report_lines none w = refl
  report_lines (some f) w = refl

  -- What follows leaves the lines that it finds.
  pub then_lines :
      {A B : Type 0} (m : Action (World Time) A) (k : Action (World Time) B) (w : World Time)
      → ((v : World Time) → (k v).1.lines ≡ v.lines)
      → ((m >> k) w).1.lines ≡ (m w).1.lines
  then_lines m k w h = ground (arith, h (m w).1)

  abbrev pub KeepsLines : {A : Type 0} → Action (World Time) A → Type 0
  KeepsLines m = (v : World Time) → (m v).1.lines ≡ v.lines

  keeps_then :
      {A B : Type 0} (m : Action (World Time) A) (k : Action (World Time) B)
      → KeepsLines m
      → KeepsLines k
      → KeepsLines (m >> k)
  keeps_then m k hm hk v = then_lines m k v hk ∙ hm v

  -- What follows the line: the work that is owed and the removal of the file.
  pub tail_lines :
      (a : AfterLine) (more : Option AfterLine) (file : String)
      → KeepsLines (finish a >> (finish_more more >> remove_intent file))
  tail_lines a more file =
      keeps_then (finish a) (finish_more more >> remove_intent file) (finish_lines a) (
        keeps_then (finish_more more) (remove_intent file) (finish_more_lines more)
          (remove_intent_lines file))

  pub finished_lines : (a : AfterLine) (file : String) → KeepsLines (finish a >> remove_intent file)
  finished_lines a file =
      keeps_then (finish a) (remove_intent file) (finish_lines a) (remove_intent_lines file)

  pub refusal_lines :
      (r : RefusalFile) (file : String) (f : Option String)
      → KeepsLines (dispose r file >> report f)
  refusal_lines r file f =
      keeps_then (dispose r file) (report f) (dispose_lines r file) (report_lines f)

module _ {Time : Type 0} (parse_time : String → Option Time) where
  -- The index is that of the file.
  abbrev pub Coherent : World Time → Type 0
  Coherent w = w.index ≡ load parse_time w.lines

  -- On the index of the file, the test for an outcome is the scan.
  pub has-Coherent :
      (id o : String) (w : World Time) → Coherent w → has id o w.index ≡ scan_has id o w.lines
  has-Coherent id o w h = ap (λ i. has id o i) h ∙ (load-Answers parse_time w.lines).has id o

module _ {Time : Type 0} (parse_time : String → Option Time) (now release : String) where
  -- A journal write adds its line or nothing.
  write_journal-count :
      (id intent kind : String) (application : ApplicationRef) (o outcome : String)
      (note : Option String) (w : World Time)
      → count_outcome id o
          (write_journal parse_time now release intent kind application outcome note w).1.lines
        ≤ count_outcome id o w.lines + (if str_eq intent id && str_eq outcome o then 1 else 0)
  unfolding write_journal append_line system_call
  write_journal-count id intent kind application o outcome note w = ground (
    arith,
    count_outcome-snoc id o w.lines (record {
      version = 1;
      at = now;
      intent = intent;
      kind = kind;
      release = release;
      application = application;
      outcome = outcome;
      note = note;
      credit = none;
    }),
  )

  write_once-count :
      (envelope : Envelope) (o outcome : String) (application : ApplicationRef)
      (note : Option String) (w : World Time)
      → Coherent parse_time w
      → count_outcome envelope.id o w.lines ≤ 1
      → count_outcome envelope.id o
          (write_once parse_time now release envelope outcome application note w).1.lines
        ≤ 1
  unfolding write_once
  write_once-count envelope o outcome application note w coherent h =
      elim (Bool-cases (has envelope.id outcome w.index)) [
        | inl e ↦ rw e h
        | inr e ↦ rw e (
            ground (
              arith,
              write_journal-count envelope.id envelope.id envelope.kind application o outcome note
                  w,
              count_outcome-zero envelope.id o w.lines,
              has-Coherent parse_time envelope.id outcome w coherent,
              eq_iff outcome o,
            ))
      ]

  conclude-count :
      (file : String) (envelope : Envelope) (disposition : Disposition) (o : String)
      (s : Settlement) (w : World Time)
      → Coherent parse_time w
      → scan_has envelope.id "refused" w.lines ≡ false
      → count_outcome envelope.id o w.lines ≤ 1
      → count_outcome envelope.id o
          (conclude parse_time now release file envelope disposition s w).1.lines
        ≤ 1
  unfolding conclude
  conclude-count file envelope disposition o (line outcome application note more) w coherent new h =
      rw
        (then_lines (write_once parse_time now release envelope outcome application note)
          (finish disposition.after >> (finish_more more >> remove_intent file)) w
          (tail_lines disposition.after more file))
        (write_once-count envelope o outcome application note w coherent h)
  conclude-count file envelope disposition o nothing w coherent new h =
      rw (finished_lines disposition.after file w) h
  conclude-count file envelope disposition o (refused reason failure) w coherent new h =
      rw
        (then_lines
          (write_journal parse_time now release envelope.id envelope.kind envelope.application
            "refused" (some reason))
          (dispose disposition.refusal file >> report failure) w
          (refusal_lines disposition.refusal file failure))
        (ground (
          arith,
          write_journal-count envelope.id envelope.id envelope.kind envelope.application o "refused"
              (some reason) w,
          count_outcome-zero envelope.id o w.lines,
          eq_iff "refused" o,
        ))

  -- What is asked of the body of a verb: it writes no line of this intent with the outcome, and
  -- where it returns a settlement its index is that of the file.
  pub record IsQuiet (id o : String) (body : Action (World Time) Settlement) : Type 0 where
    pub counts :
        (w : World Time)
        → Coherent parse_time w
        → count_outcome id o (body w).1.lines ≡ count_outcome id o w.lines
    pub refusals :
        (w : World Time)
        → Coherent parse_time w
        → scan_has id "refused" (body w).1.lines ≡ scan_has id "refused" w.lines
    pub coherent :
        (w : World Time) (s : Settlement)
        → Coherent parse_time w
        → (body w).0 ≡ ok s
        → Coherent parse_time (body w).1

  settle-count :
      (file : String) (envelope : Envelope) (disposition : Disposition)
      (body : Action (World Time) Settlement) (o : String) (w : World Time)
      → IsQuiet envelope.id o body
      → Coherent parse_time w
      → count_outcome envelope.id o w.lines ≤ 1
      → count_outcome envelope.id o
          (settle parse_time now release file envelope disposition body w).1.lines
        ≤ 1
  unfolding settle
  settle-count file envelope disposition body o w quiet coherent h =
      elim (Bool-cases (has envelope.id "applied" w.index)) [
        | inl e ↦ rw e (rw (finished_lines disposition.after file w) h)
        | inr e ↦ elim (Bool-cases (has envelope.id "refused" w.index)) [
          | inl f ↦ rw (e, f) (rw (dispose_lines disposition.refusal file w) h)
          | inr f ↦ elim (Result-cases (body w).0) [
            | inl (s, r) ↦
                rw (e, f, r, ◌>>=◌)
                  (conclude-count file envelope disposition o s (body w).1
                    (quiet.coherent w s coherent r)
                    (quiet.refusals w coherent
                      ∙ sym (has-Coherent parse_time envelope.id "refused" w coherent)
                      ∙ f)
                    (rw (quiet.counts w coherent) h))
            | inr (x, r) ↦ rw (e, f, r, ◌>>=◌) (rw (quiet.counts w coherent) h)
          ]
        ]
      ]

  -- A pass over one intent: the faults that it meets and the body that it runs.
  pub record Pass : Type 0 where
    pub faults : List Fault
    pub body : Action (World Time) Settlement

  abbrev pub AllQuiet : String → String → List Pass → Type 0
  AllQuiet id o ps = All (λ p. IsQuiet id o p.body) ps

  pub passes : String → Envelope → Disposition → List Pass → World Time → World Time
  passes file envelope disposition [] w = w
  passes file envelope disposition (p ∷ ps) w =
      passes file envelope disposition ps
        (settle parse_time now release file envelope disposition p.body
          (begin_pass parse_time p.faults w)).1

  -- However many passes are made over an intent, and wherever in each a call fails, with its effect or
  -- without, the journal carries an outcome of the intent at most once, if it did so before, no body
  -- writes that outcome or a refusal of the intent itself, and each returns with the index of the file.
  pub outcome_once :
      (file : String) (envelope : Envelope) (disposition : Disposition) (ps : List Pass)
      (o : String) (w : World Time)
      → AllQuiet envelope.id o ps
      → count_outcome envelope.id o w.lines ≤ 1
      → count_outcome envelope.id o (passes file envelope disposition ps w).lines ≤ 1
  unfolding passes
  outcome_once file envelope disposition [] o w quiet h = h
  outcome_once file envelope disposition (p ∷ ps) o w quiet h =
      outcome_once file envelope disposition ps o _ quiet.1 (
        unfold begin_pass in
        settle-count file envelope disposition p.body o (begin_pass parse_time p.faults w) quiet.0
          refl h)
