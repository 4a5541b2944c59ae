-- ===== src/Payments/Group.antt =====
-- A credit of a group (`group_credit` and `restore_group_mailboxes` of
-- onboard/src/transitions/payments.rs): one date on the group's record, and every mailbox that lapsed comes
-- back. A mailbox without an account is skipped.
pub mod Appends
pub mod Restored
use kyriakon_infra.Base.{
  String, List, Option, Bool, ℕ, some, none, ok, err, [], ◌∷◌, ◌++◌, if◌then◌else◌, not, str_eq,
  ltb, ◌&&◌, ◌==◌, true, false,
}
use kyriakon_infra.Base.Chars.{codes}
use kyriakon_infra.Ledger.{LedgerLine, has_intent}
use kyriakon_infra.Ledger.Record.{is_some}
use kyriakon_infra.Dates.{Date, Calendar, paid_until_after}
use kyriakon_infra.Money.{pence}
use kyriakon_infra.Payments.{CreditIntent, CreditMoney, credit_fields, credit_money}
use kyriakon_infra.Payments.Line.{credit_line}
use kyriakon_infra.Payments.Apply.{
  Account, Books, GroupRecord, HeldItem, Answer, Problem, Verdict, Plan, applied, refused,
  bad_field, misconfigured, refuses, goes, group_gone, group_free, other_group_token, not_enough,
  too_much, paid_until_unreadable, no_year, past_ceiling, text_eq, date_before, past_ceiling_of,
  override_of, txid_problem, renewal_problem, date_string, gbp_text, call, send, append_line,
  unless, journal_applying, restore, receipt,
}
use kyriakon_infra.Store.{CreditProgress}
use kyriakon_infra.Journal.{credit_progress}
use kyriakon_infra.Validate
use kyriakon_infra.Transitions.World.{Action, ◌>>◌}

-- Whether the group's date is the one that the journalled progress was about to write.
pub group_written : GroupRecord → CreditProgress → Bool
group_written group p = p.paid && text_eq group.paid_until p.paid_until_after

-- The year is one payment, neither less nor more.
pub exact_price : CreditMoney → Option Problem
exact_price money =
    if not money.paid then some not_enough else if ltb 0 money.balance then some too_much else none

-- The checks between the witness and the first write, in the order of the code.
pub weigh_group :
    String
    → Calendar
    → CreditIntent
    → ℕ
    → Date
    → Option String
    → GroupRecord
    → List LedgerLine
    → List HeldItem
    → Verdict
weigh_group price_gbp calendar intent amount received attributed group ledger held =
    elim (date_before calendar group.paid_until) [
      | none ↦ refuses paid_until_unreadable
      | some before ↦ elim (paid_until_after calendar received before) [
        | none ↦ refuses no_year
        | some until ↦
            if past_ceiling_of calendar received until && not (is_some (override_of intent))
            then refuses past_ceiling
            else elim (pence (codes price_gbp)) [
              | err e ↦ misconfigured
              | ok price ↦
                  if price == 0
                  then misconfigured
                  else elim (exact_price (credit_money price 0 amount)) [
                    | some problem ↦ refuses problem
                    | none ↦ elim (txid_problem intent.txid attributed ledger held) [
                      | some problem ↦ refuses problem
                      | none ↦ elim (renewal_problem group.paid_until intent.confirm_double) [
                        | some problem ↦ refuses problem
                        | none ↦ goes (record {
                          money = credit_money price 0 amount;
                          until = until;
                          before = before;
                        })
                      ]
                    ]
                  ]
            ]
      ]
    ]

pub paid_group : CreditIntent → Plan → GroupRecord → GroupRecord
paid_group intent plan group = record group {
  paid_until = some (date_string plan.until);
  rail = intent.rail;
  window = elim group.window [ none ↦ none | some state ↦ some "paid" ];
}

pub group_progress : Plan → CreditProgress
group_progress plan = record {
  paid = true;
  paid_until_after = some (date_string plan.until);
  applied_gbp = gbp_text plan.money.applied;
  balance_gbp = none;
}

abbrev pub restored : Account → Account
restored account = record account { state = "active"; grace_until = none }

module _ {Time : Type 0} where
  -- The loop over the group's mailboxes; `done` are those behind it.
  pub restore_mailboxes : List (Option Account) → List (Option Account) → Action (Books Time) Unit
  restore_mailboxes done [] b = (ok tt, b)
  restore_mailboxes done (none ∷ rest) b = restore_mailboxes (done ++ none ∷ []) rest b
  restore_mailboxes done (some account ∷ rest) b =
      let next = some (restored account) in
      elim (str_eq account.state "lapsed") [
        | false ↦ restore_mailboxes (done ++ some account ∷ []) rest b
        | true ↦
            (send restore
                >> (call (λ c. record c { mailboxes = done ++ next ∷ rest })
                    >> restore_mailboxes (done ++ next ∷ []) rest))
              b
      ]

  pub restore_group_mailboxes : Action (Books Time) Unit
  restore_group_mailboxes b = restore_mailboxes [] b.mailboxes b

  pub write_group : GroupRecord → Action (Books Time) Unit
  write_group group = call (λ b. record b { group = some group })

module _ {Time : Type 0} (parse_time : String → Option Time) (now release : String) where
  pub group_carry_out : CreditIntent → ℕ → Date → Plan → GroupRecord → Action (Books Time) Answer
  group_carry_out intent amount received plan group =
      journal_applying parse_time now release intent group.site_owner (group_progress plan)
      >> (restore_group_mailboxes
          >> (write_group (paid_group intent plan group)
              >> (append_line (
                    credit_line intent none (date_string received) (gbp_text amount)
                      (gbp_text plan.money.applied) (some (date_string plan.until)))
                  >> (send (receipt true) >> (λ b. (ok applied, b))))))

  pub group_finish_written : CreditIntent → ℕ → Date → CreditProgress → Action (Books Time) Answer
  group_finish_written intent amount received progress b =
      (unless (has_intent intent.id b.ledger) (
            append_line (
              credit_line intent none (date_string received) (gbp_text amount) progress.applied_gbp
                progress.paid_until_after))
          >> (λ c. (ok applied, c)))
        b

  pub group_go_on :
      String
      → Calendar
      → CreditIntent
      → ℕ
      → Date
      → Option String
      → GroupRecord
      → Action (Books Time) Answer
  group_go_on price_gbp calendar intent amount received attributed group b =
      elim (weigh_group price_gbp calendar intent amount received attributed group b.ledger
        b.held) [
          | misconfigured ↦ (err "the drain's configured group_price_gbp", b)
          | refuses problem ↦ (ok (refused problem), b)
          | goes plan ↦ group_carry_out intent amount received plan group b
        ]

  pub group_apply :
      String
      → Calendar
      → CreditIntent
      → ℕ
      → Date
      → Option String
      → GroupRecord
      → Action (Books Time) Answer
  group_apply price_gbp calendar intent amount received attributed group b =
      elim (credit_progress intent.id b.index) [
        | none ↦ group_go_on price_gbp calendar intent amount received attributed group b
        | some progress ↦
            if group_written group progress
            then group_finish_written intent amount received progress b
            else group_go_on price_gbp calendar intent amount received attributed group b
      ]

  -- The fields are read again, as the code does.
  pub group_credit :
      String → Calendar → Date → CreditIntent → String → Option String → Action (Books Time) Answer
  group_credit price_gbp calendar today intent domain attributed b =
      elim (credit_fields calendar today intent) [
        | err why ↦ (ok (refused (bad_field why)), b)
        | ok amount ↦ elim (calendar.parse_date intent.received) [
          | none ↦ (err "the date was validated above", b)
          | some received ↦ elim (Validate.domain (codes domain)) [
            | some why ↦ (err "the token's group domain", b)
            | none ↦ elim b.group [
              | none ↦ (ok (refused group_gone), b)
              | some group ↦
                  if group.no_charge
                  then (ok (refused group_free), b)
                  else if not (text_eq group.token_ref (some intent.token))
                  then (ok (refused other_group_token), b)
                  else group_apply price_gbp calendar intent amount received attributed group b
            ]
          ]
        ]
      ]
