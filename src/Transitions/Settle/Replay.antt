-- ===== src/Transitions/Settle/Replay.antt =====
-- An intent's file goes only once its outcome is journalled, and an intent that was applied is
-- finished by the next pass without its body.
use kyriakon_infra.Transitions.World.{
  ◌>>◌, ◌>>=◌, nothing_owed, remove_group_record, mark_attributed, print, AfterLine, finish,
  system_call, write_journal, World, append_line, Action, begin_pass, remove_intent,
}
use kyriakon_infra.Transitions.Settle.Files.{
  without, Trims, finish_intents, finish_more_intents, remove_intent-Trims, kept_then-Trims,
  refusal-Trims, dispose-Trims,
}
use kyriakon_infra.Base.{
  Result, [], true, false, refl, String, List, Option, ◌∷◌, ◌≡◌, str_eq, ◌++◌, arith, Bool, ok,
  ◌||◌, none, ◌⊎◌, Result-cases, inl, ◌≢◌, keep, inr, Bool-cases, not, sym, ◌∙◌, ap, some,
}
use kyriakon_infra.Journal.Scan.{scan_has}
use kyriakon_infra.Store.{JournalLine, ApplicationRef}
use text.Mathlib.TextPositions.{eq_refl}
use kyriakon_infra.Transitions.Settle.{
  write_once, settle, conclude, Settlement, Envelope, Disposition, nothing, has, line, finish_more,
  refused, dispose, report,
}
use kyriakon_infra.Transitions.Settle.Once.{
  Coherent, finished_lines, has-Coherent, tail_lines, dispose_lines, refusal_lines,
}
use mathlib.Core.List.{append-nil}
use kyriakon_infra.Journal.Agreement.{load-Answers}
use mathlib.Core.HLevel.{Unit-prop}

scan_has-snoc_self :
    (id o : String) (ls : List JournalLine) (l : JournalLine)
    → str_eq l.intent id ≡ true
    → str_eq l.outcome o ≡ true
    → scan_has id o (ls ++ l ∷ []) ≡ true
unfolding scan_has
scan_has-snoc_self id o [] l p q = rw (p, q)
scan_has-snoc_self id o (m ∷ ls) l p q = rw (scan_has-snoc_self id o ls l p q) (or_true _)
  where
    or_true : (b : Bool) → (b || true) ≡ true
    or_true true = refl
    or_true false = refl

-- The work that an after-line leaves behind.
abbrev pub owed : AfterLine → List AfterLine
owed nothing_owed = []
owed a = a ∷ []

module _ {Time : Type 0} (parse_time : String → Option Time) (now release : String) where
  write_journal_intents :
      (intent kind : String) (application : ApplicationRef) (outcome : String) (why : Option String)
      (w : World Time)
      → (write_journal parse_time now release intent kind application outcome why w).1.intents
        ≡ w.intents
  unfolding write_journal append_line system_call
  write_journal_intents intent kind application outcome why w = ground arith

  write_journal_written :
      (intent kind : String) (application : ApplicationRef) (outcome : String) (why : Option String)
      (w : World Time)
      → (write_journal parse_time now release intent kind application outcome why w).0 ≡ ok tt
      → scan_has intent outcome
          (write_journal parse_time now release intent kind application outcome why w).1.lines
        ≡ true
  unfolding write_journal append_line system_call
  write_journal_written intent kind application outcome why w h = ground (
    arith,
    eq_refl intent,
    eq_refl outcome,
    scan_has-snoc_self intent outcome w.lines (record {
      version = 1;
      at = now;
      intent = intent;
      kind = kind;
      release = release;
      application = application;
      outcome = outcome;
      note = why;
      credit = none;
    }),
  )

  -- What is known of the intent files once a step is done: they are as they were, or this one is removed,
  -- no other, and the journal has an outcome of the intent that ends it.
  abbrev pub Recorded : (String → Type 0) → String → String → World Time → World Time → Type 0
  Recorded Ends file id w v =
      (v.intents ≡ w.intents)
      ⊎ ((v.intents ≡ without file w.intents)
          × ((o : String) × (Ends o × (scan_has id o v.lines ≡ true))))

  -- A step behind one that left the files alone.
  Recorded-from :
      (Ends : String → Type 0) (file id : String) (w v u : World Time)
      → v.intents ≡ w.intents
      → Recorded Ends file id v u
      → Recorded Ends file id w u
  Recorded-from Ends file id w v u h (inl e) = inl (e ∙ h)
  Recorded-from Ends file id w v u h (inr (e, o)) = inr (e ∙ ap (without file) h, o)

  -- A step behind a line that is in the file already.
  Recorded-found :
      (Ends : String → Type 0) (file id o : String) (w v : World Time)
      → Ends o
      → (v.intents ≡ w.intents) ⊎ (v.intents ≡ without file w.intents)
      → scan_has id o v.lines ≡ true
      → Recorded Ends file id w v
  Recorded-found Ends file id o w v end (inl e) h = inl e
  Recorded-found Ends file id o w v end (inr e) h = inr (e, (o, (end, h)))

  -- Behind a line that is written, whatever keeps the lines keeps the record of it.
  written_then :
      {A : Type 0} (Ends : String → Type 0) (file id outcome : String)
      (m : Action (World Time) Unit) (k : Action (World Time) A) (w : World Time)
      → Ends outcome
      → (m w).1.intents ≡ w.intents
      → ((m w).0 ≡ ok tt → scan_has id outcome (m w).1.lines ≡ true)
      → ((v : World Time) → (k v).1.lines ≡ v.lines)
      → Trims file k
      → Recorded Ends file id w ((m >> k) w).1
  written_then Ends file id outcome m k w end same written kept trims =
      elim (Result-cases (m w).0) [
        | inl (a, r) ↦
            rw (r, ◌>>=◌)
              (Recorded-from Ends file id w (m w).1 (k (m w).1).1 same (
                Recorded-found Ends file id outcome (m w).1 (k (m w).1).1 end (trims (m w).1)
                  (kept_line (m w).1 (written (r ∙ ap ok (Unit-prop a tt))))))
        | inr (e, r) ↦ inl (rw (r, ◌>>=◌) same)
      ]
    where
      kept_line :
          (v : World Time)
          → scan_has id outcome v.lines ≡ true
          → scan_has id outcome (k v).1.lines ≡ true
      kept_line v h = rw (kept v) h

  write_once_intents :
      (envelope : Envelope) (outcome : String) (application : ApplicationRef) (why : Option String)
      (w : World Time)
      → (write_once parse_time now release envelope outcome application why w).1.intents ≡ w.intents
  unfolding write_once
  write_once_intents envelope outcome application why w =
      ground (arith, write_journal_intents envelope.id envelope.kind application outcome why w)

  write_once_written :
      (envelope : Envelope) (outcome : String) (application : ApplicationRef) (why : Option String)
      (w : World Time)
      → Coherent parse_time w
      → (write_once parse_time now release envelope outcome application why w).0 ≡ ok tt
      → scan_has envelope.id outcome
          (write_once parse_time now release envelope outcome application why w).1.lines
        ≡ true
  unfolding write_once
  write_once_written envelope outcome application why w coherent h =
      elim (Bool-cases (has envelope.id outcome w.index)) [
        | inl e ↦ rw e (sym (has-Coherent parse_time envelope.id outcome w coherent) ∙ e)
        | inr e ↦ rw e (
            write_journal_written envelope.id envelope.kind application outcome why w (rw (e) at h))
      ]

  -- The outcomes that end an intent: that it was applied, that it was refused, and the one of the line that
  -- its body settled on.
  pub data Ending (r : Result String Settlement) : String → Type 0 where
    by_application : Ending r "applied"
    by_refusal : Ending r "refused"
    by_line :
        (outcome : String) (application : ApplicationRef) (why : Option String)
        (more : Option AfterLine)
        → r ≡ ok (line outcome application why more)
        → Ending r outcome

  conclude-Recorded :
      (file : String) (envelope : Envelope) (disposition : Disposition) (s : Settlement)
      (w : World Time)
      → Coherent parse_time w
      → s ≢ nothing
      → Recorded
          (Ending (ok s))
          file
          envelope.id
          w
          (conclude parse_time now release file envelope disposition s w).1
  unfolding conclude
  conclude-Recorded file envelope disposition (line outcome application why more) w coherent
        some_line =
      written_then (Ending (ok (line outcome application why more))) file envelope.id outcome
        (write_once parse_time now release envelope outcome application why)
        (finish disposition.after >> (finish_more more >> remove_intent file)) w
        (by_line outcome application why more refl)
        (write_once_intents envelope outcome application why w)
        (write_once_written envelope outcome application why w coherent)
        (tail_lines disposition.after more file)
        (kept_then-Trims file (finish disposition.after) (finish_more more >> remove_intent file)
          (finish_intents disposition.after)
          (kept_then-Trims file (finish_more more) (remove_intent file) (finish_more_intents more)
            (remove_intent-Trims file)))
  conclude-Recorded file envelope disposition nothing w coherent some_line = absurd (some_line refl)
  conclude-Recorded file envelope disposition (refused reason failure) w coherent some_line =
      written_then (Ending (ok (refused reason failure))) file envelope.id "refused"
        (write_journal parse_time now release envelope.id envelope.kind envelope.application
          "refused" (some reason))
        (dispose disposition.refusal file >> report failure) w by_refusal
        (write_journal_intents envelope.id envelope.kind envelope.application "refused"
          (some reason) w)
        (write_journal_written envelope.id envelope.kind envelope.application "refused"
          (some reason) w)
        (refusal_lines disposition.refusal file failure)
        (refusal-Trims disposition.refusal file failure)

  -- What is asked of a body: it leaves the intent files alone, never settles as `nothing`, and returns
  -- with the index of the file.
  pub record IsTidy (body : Action (World Time) Settlement) : Type 0 where
    pub intents : (w : World Time) → (body w).1.intents ≡ w.intents
    pub some_line : (w : World Time) → (body w).0 ≢ ok nothing
    pub coherent :
        (w : World Time) (s : Settlement)
        → Coherent parse_time w
        → (body w).0 ≡ ok s
        → Coherent parse_time (body w).1

  -- Wherever a call fails, with its effect or without, no intent is lost: after a pass the intent files are
  -- as they were, or the file of this intent is removed, no other, and the journal has the intent as
  -- applied, as refused or with the outcome that its body settled on. The body leaves the intent files
  -- alone, settles as a line or a refusal, and its index is the file's, as it was before.
  pub no_intent_lost :
      (file : String) (envelope : Envelope) (disposition : Disposition)
      (body : Action (World Time) Settlement) (w : World Time)
      → IsTidy body
      → Coherent parse_time w
      → Recorded
          (Ending (body w).0)
          file
          envelope.id
          w
          (settle parse_time now release file envelope disposition body w).1
  unfolding settle
  no_intent_lost file envelope disposition body w tidy coherent =
      elim (Bool-cases (has envelope.id "applied" w.index)) [
        | inl e ↦ rw e (
            Recorded-found (Ending (body w).0) file envelope.id "applied" w
              ((finish disposition.after >> remove_intent file) w).1 by_application
              (kept_then-Trims file (finish disposition.after) (remove_intent file)
                (finish_intents disposition.after) (remove_intent-Trims file) w)
              (rw (finished_lines disposition.after file w)
                (sym (has-Coherent parse_time envelope.id "applied" w coherent) ∙ e)))
        | inr e ↦ elim (Bool-cases (has envelope.id "refused" w.index)) [
          | inl f ↦
              rw (e, f)
                (Recorded-found (Ending (body w).0) file envelope.id "refused" w
                  (dispose disposition.refusal file w).1 by_refusal
                  (dispose-Trims disposition.refusal file w)
                  (rw (dispose_lines disposition.refusal file w)
                    (sym (has-Coherent parse_time envelope.id "refused" w coherent) ∙ f)))
          | inr f ↦ elim (Result-cases (body w).0) [
            | inl (s, r) ↦
                rw (e, f, r, ◌>>=◌)
                  (Recorded-from (Ending (ok s)) file envelope.id w (body w).1
                    (conclude parse_time now release file envelope disposition s (body w).1).1
                    (tidy.intents w)
                    (conclude-Recorded file envelope disposition s (body w).1
                      (tidy.coherent w s coherent r) (λ n. tidy.some_line w (r ∙ ap ok n))))
            | inr (x, r) ↦ inl (rw (e, f, r, ◌>>=◌) (tidy.intents w))
          ]
        ]
      ]

  -- Once the journal's file has the `applied` line, a pass that meets no fault ends well whatever the
  -- body is: it adds no line, removes the file and carries out the work owed after the line.
  pub applied_finishes :
      (file : String) (envelope : Envelope) (disposition : Disposition)
      (body : Action (World Time) Settlement) (w : World Time)
      → scan_has envelope.id "applied" w.lines ≡ true
      → settle parse_time now release file envelope disposition body (begin_pass parse_time [] w)
        ≡ (
          ok tt,
          record (begin_pass parse_time [] w) {
            intents = keep (λ f. not (str_eq f file)) w.intents;
            carried_out = w.carried_out ++ owed disposition.after;
          },
        )
  unfolding settle begin_pass finish remove_intent system_call
  applied_finishes file envelope disposition body w h =
      rw ((load-Answers parse_time w.lines).has envelope.id "applied" ∙ h) (go disposition.after)
    where
      go :
          (a : AfterLine)
          → (finish a >> remove_intent file) (begin_pass parse_time [] w) ≡ (
            ok tt,
            record (begin_pass parse_time [] w) {
              intents = keep (λ f. not (str_eq f file)) w.intents;
              carried_out = w.carried_out ++ owed a;
            },
          )
      go nothing_owed = rw append-nil
      go (remove_group_record d) = refl
      go (mark_attributed i t) = refl
      go (print t) = refl
