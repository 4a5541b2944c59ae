-- ===== src/Payments/Group/Appends.antt =====
-- A credit of a group keeps the ledger or adds one line to it, and leaves the queue alone.
use kyriakon_infra.Base.{
  String, List, Option, Result, ℕ, some, none, ok, err, [], ◌∷◌, ◌++◌, if◌then◌else◌, not, refl,
  true, inl, inr, arith, Result-cases, Option-cases, Bool-cases, str_eq,
}
use kyriakon_infra.Base.Chars.{codes}
use kyriakon_infra.Ledger.{has_intent}
use kyriakon_infra.Dates.{Date, Calendar}
use kyriakon_infra.Payments.{CreditIntent, credit_fields}
use kyriakon_infra.Payments.Line.{credit_line}
use kyriakon_infra.Payments.Apply.{
  Account, Books, GroupRecord, Answer, group_free, other_group_token, Verdict, Plan, applied,
  refused, misconfigured, refuses, goes, text_eq, date_string, gbp_text, call, send, append_line,
  unless, journal_applying, restore, receipt,
}
use kyriakon_infra.Payments.Apply.Appends.{
  Appends, Keeps, quiet_first, quiet_last, quiet_both, send-Keeps, append_line-Appends, if-Appends,
  journal_applying-Keeps, unless_append-Appends,
}
use kyriakon_infra.Payments.Group.{
  restore_mailboxes, restore_group_mailboxes, restored, write_group, paid_group, group_progress,
  group_carry_out, group_finish_written, group_go_on, group_apply, group_credit, weigh_group,
  group_written,
}
use kyriakon_infra.Store.{CreditProgress}
use kyriakon_infra.Journal.{credit_progress}
use kyriakon_infra.Validate
use kyriakon_infra.Transitions.World.{Action, ◌>>◌}

module _ {Time : Type 0} where
  write_mailboxes-Keeps :
      (mailboxes : List (Option Account))
      → Keeps (call {Time = Time} (λ c. record c { mailboxes = mailboxes }))
  unfolding call
  write_mailboxes-Keeps mailboxes b = ground arith

  restore_mailboxes-Keeps :
      (done rest : List (Option Account)) → Keeps (restore_mailboxes {Time = Time} done rest)
  unfolding restore_mailboxes
  restore_mailboxes-Keeps done [] b = refl
  restore_mailboxes-Keeps done (none ∷ rest) b = restore_mailboxes-Keeps (done ++ none ∷ []) rest b
  restore_mailboxes-Keeps done (some account ∷ rest) b =
      let next = some (restored account) in
      let more : Action (Books Time) Unit = restore_mailboxes (done ++ next ∷ []) rest in
      let change : Action (Books Time) Unit =
        call (λ c. record c { mailboxes = done ++ next ∷ rest }) in
      elim (Bool-cases (str_eq account.state "lapsed")) [
        | inr e ↦
            rw (e, restore_mailboxes) (restore_mailboxes-Keeps (done ++ some account ∷ []) rest b)
        | inl e ↦
            rw (e, restore_mailboxes)
              (quiet_both (send restore) (change >> more) (send-Keeps restore)
                (quiet_both change more (write_mailboxes-Keeps (done ++ next ∷ rest))
                  (restore_mailboxes-Keeps (done ++ next ∷ []) rest))
                b)
      ]

  restore_group_mailboxes-Keeps : Keeps (restore_group_mailboxes {Time = Time})
  unfolding restore_group_mailboxes
  restore_group_mailboxes-Keeps b = restore_mailboxes-Keeps [] b.mailboxes b

  write_group-Keeps : (group : GroupRecord) → Keeps (write_group {Time = Time} group)
  unfolding write_group call
  write_group-Keeps group b = ground arith

module _ {Time : Type 0} (parse_time : String → Option Time) (now release : String) where
  group_carry_out-Appends :
      (intent : CreditIntent) (amount : ℕ) (received : Date) (plan : Plan) (group : GroupRecord)
      (b : Books Time)
      → Appends b (group_carry_out parse_time now release intent amount received plan group b).1
  unfolding group_carry_out
  group_carry_out-Appends intent amount received plan group =
      let stop : Action (Books Time) Answer = λ c. (ok applied, c) in
      let told : Action (Books Time) Answer = send (receipt true) >> stop in
      let entry : Action (Books Time) Unit = append_line (
        credit_line intent none (date_string received) (gbp_text amount)
          (gbp_text plan.money.applied) (some (date_string plan.until))) in
      let written : Action (Books Time) Answer =
        write_group (paid_group intent plan group) >> (entry >> told) in
      quiet_first
        (journal_applying parse_time now release intent group.site_owner (group_progress plan))
        (restore_group_mailboxes >> written)
        (journal_applying-Keeps parse_time now release intent group.site_owner
          (group_progress plan))
        (quiet_first restore_group_mailboxes written restore_group_mailboxes-Keeps (
          quiet_first (write_group (paid_group intent plan group)) (entry >> told)
            (write_group-Keeps (paid_group intent plan group))
            (quiet_last entry told (append_line-Appends _)
              (quiet_both (send (receipt true)) stop (send-Keeps _) (λ c. refl)))))

  group_finish_written-Appends :
      (intent : CreditIntent) (amount : ℕ) (received : Date) (p : CreditProgress) (b : Books Time)
      → Appends b (group_finish_written parse_time now release intent amount received p b).1
  unfolding group_finish_written
  group_finish_written-Appends intent amount received p b =
      let stop : Action (Books Time) Answer = λ c. (ok applied, c) in
      let line =
        credit_line intent none (date_string received) (gbp_text amount) p.applied_gbp
          p.paid_until_after in
      quiet_last (unless (has_intent intent.id b.ledger) (append_line line)) stop
        (unless_append-Appends (has_intent intent.id b.ledger) line) (λ c. refl) b

  group_go_on-Appends :
      (price : String) (calendar : Calendar) (intent : CreditIntent) (amount : ℕ) (received : Date)
      (attributed : Option String) (group : GroupRecord) (b : Books Time)
      → Appends b
          (group_go_on parse_time now release price calendar intent amount received attributed group
            b).1
  unfolding group_go_on
  group_go_on-Appends price calendar intent amount received attributed group b =
      split (weigh_group price calendar intent amount received attributed group b.ledger b.held)
    where
      split :
          (v : Verdict)
          → Appends b
              (elim v as (λ _. Result String Answer × Books Time) [
                | misconfigured ↦ (err "the drain's configured group_price_gbp", b)
                | refuses problem ↦ (ok (refused problem), b)
                | goes plan ↦
                    group_carry_out parse_time now release intent amount received plan group b
              ]).1
      split misconfigured = inl refl
      split (refuses problem) = inl refl
      split (goes plan) = group_carry_out-Appends intent amount received plan group b

  group_apply-Appends :
      (price : String) (calendar : Calendar) (intent : CreditIntent) (amount : ℕ) (received : Date)
      (attributed : Option String) (group : GroupRecord) (b : Books Time)
      → Appends b
          (group_apply parse_time now release price calendar intent amount received attributed group
            b).1
  unfolding group_apply
  group_apply-Appends price calendar intent amount received attributed group b =
      split (credit_progress intent.id b.index)
    where
      split :
          (p : Option CreditProgress)
          → Appends b
              (elim p as (λ _. Result String Answer × Books Time) [
                | none ↦
                    group_go_on parse_time now release price calendar intent amount received
                      attributed group b
                | some progress ↦
                    if group_written group progress
                    then group_finish_written parse_time now release intent amount received progress
                        b
                    else group_go_on parse_time now release price calendar intent amount received
                        attributed group b
              ]).1
      split none = group_go_on-Appends price calendar intent amount received attributed group b
      split (some progress) =
          if-Appends b (group_written group progress) _ _
            (group_finish_written-Appends intent amount received progress b)
            (group_go_on-Appends price calendar intent amount received attributed group b)

  -- A credit of a group leaves the queue, and leaves the ledger as it is or adds one line, wherever a
  -- call fails.
  pub group_credit-Appends :
      (price : String) (calendar : Calendar) (today : Date) (intent : CreditIntent)
      (domain : String) (attributed : Option String) (b : Books Time)
      → Appends b
          (group_credit parse_time now release price calendar today intent domain attributed b).1
  unfolding group_credit
  group_credit-Appends price calendar today intent domain attributed b =
      elim (Result-cases (credit_fields calendar today intent)) [
        | inr (why, e) ↦ rw (e, group_credit) (inl refl)
        | inl (amount, e) ↦ elim (Option-cases (calendar.parse_date intent.received)) [
          | inl f ↦ rw (e, f, group_credit) (inl refl)
          | inr (received, f) ↦ elim (Option-cases (Validate.domain (codes domain))) [
            | inr (why, g) ↦ rw (e, f, g, group_credit) (inl refl)
            | inl g ↦ elim (Option-cases b.group) [
              | inl h ↦ rw (e, f, g, h, group_credit) (inl refl)
              | inr (group, h) ↦ rw (e, f, g, h, group_credit) (held amount received group)
            ]
          ]
        ]
      ]
    where
      held :
          (amount : ℕ) (received : Date) (group : GroupRecord)
          → Appends b
              (if group.no_charge
                then (ok (refused group_free), b)
                else if not (text_eq group.token_ref (some intent.token))
                then (ok (refused other_group_token), b)
                else group_apply parse_time now release price calendar intent amount received
                    attributed group b).1
      held amount received group = if-Appends b group.no_charge _ _ (inl refl) (
          if-Appends b (not (text_eq group.token_ref (some intent.token))) _ _ (inl refl)
            (group_apply-Appends price calendar intent amount received attributed group b))
