-- ===== src/Payments/Apply.antt =====
-- A credit of one account in its steps (the account's branch of `credit`, and `apply_payment` of
-- onboard/src/transitions/payments.rs). The books are the account on disk, the ledger, the queue of held
-- payments, the journal and what went out; each call of the system takes the next fault. A refusal is named
-- and its text left out.
pub mod Appends
pub mod Once
pub mod Resume
use kyriakon_infra.Ledger.Record.{is_some}
use kyriakon_infra.Payments
use kyriakon_infra.Payments.Join
use kyriakon_infra.Journal
use kyriakon_infra.Payments.{CreditIntent, credit_fields, credit_money, CreditMoney, is_empty}
use kyriakon_infra.Transitions.World.{Action, ◌>>=◌, ◌>>◌, Fault, fine, early, late}
use kyriakon_infra.Base.{
  Bool, ℕ, String, List, Option, ◌+◌, some, if◌then◌else◌, any, none, true, str_eq, ◌/◌, false, ◌∷◌,
  ◌%◌, [], not, ◌&&◌, err, ok, ◌==◌, ◌++◌, ltb, ◌||◌,
}
use kyriakon_infra.Store.{CreditProgress, JournalLine, account_ref}
use kyriakon_infra.Dates.{Date, Calendar, credit_ceiling, paid_until_after, before_or_at}
use kyriakon_infra.Base.Chars.{plain_text, trim, codes}
use kyriakon_infra.Ledger.{append, LedgerLine, is_text, by_txid, has_intent}
use kyriakon_infra.Payments.Line.{Monero, credit_line}
use kyriakon_infra.Money.{pence, gbp}
use kyriakon_infra.Journal.{Index, credit_progress}

pub record Account : Type 0 where
  pub state : String
  pub grace_until : Option String
  pub closing_until : Option String
  pub paid_until : Option String
  pub balance_gbp : Option String
  pub rail : Option String
  pub window : Option String
  pub monero : Option Monero

-- Without `version` and `kind`, which are the same on every item.
pub record HeldItem : Type 0 where
  pub id : String
  pub state : String
  pub rail : String
  pub amount_gbp : String
  pub received_on : String
  pub amount_xmr : Option String
  pub txid : Option String
  pub intent : String
  pub note : Option String
  pub attributed_at : Option String
  pub attributed_to : Option String
  pub returned_at : Option String

-- A group's record: its owner and its payment.
pub record GroupRecord : Type 0 where
  pub site_owner : String
  pub no_charge : Bool
  pub token_ref : Option String
  pub paid_until : Option String
  pub rail : String
  pub window : Option String

-- What leaves the books: the script that restores a lapsed account, the copy of the payment, a receipt,
-- the notice of a refund with its number.
pub data Outward : Type 0 where
  restore copy : Outward
  receipt : Bool → Outward
  refund_notice : ℕ → Outward

pub record Books (Time : Type 0) : Type 0 where
  pub account : Account
  pub group : Option GroupRecord
  pub mailboxes : List (Option Account)
  pub ledger : List LedgerLine
  pub held : List HeldItem
  pub lines : List JournalLine
  pub index : Index Time
  pub outward : List Outward
  pub faults : List Fault

pub data Problem : Type 0 where
  bad_field : Payments.Refusal → Problem
  paid_until_unreadable no_year past_ceiling balance_unreadable already_credited already_held
        renewal :
      Problem
  hand_cash no_note bad_item bad_item_token no_item not_held no_evidence : Problem
  unresolved : Join.Problem → Problem
  group_gone group_free other_group_token not_enough too_much : Problem

pub data Answer : Type 0 where
  replayed applied : Answer
  refused : Problem → Answer

-- What an account is about to be given.
pub record Plan : Type 0 where
  pub money : CreditMoney
  pub until : Date
  pub before : Option Date

-- `{:04}-{:02}-{:02}`
pub date_codes : Date → List ℕ
date_codes d =
    (b'0' + d.year / 1000)
    ∷ (b'0' + d.year / 100 % 10)
    ∷ (b'0' + d.year / 10 % 10)
    ∷ (b'0' + d.year % 10)
    ∷ b'-'
    ∷ (b'0' + d.month / 10)
    ∷ (b'0' + d.month % 10)
    ∷ b'-'
    ∷ (b'0' + d.day / 10)
    ∷ (b'0' + d.day % 10)
    ∷ []

abbrev pub date_string : Date → String
date_string d = plain_text (date_codes d)

abbrev pub gbp_text : ℕ → String
gbp_text n = plain_text (gbp n)

abbrev pub text_eq : Option String → Option String → Bool
text_eq none none = true
text_eq none (some b) = false
text_eq (some a) none = false
text_eq (some a) (some b) = str_eq a b

-- Whether the account already shows what the journalled progress was about to write.
unfoldable pub written : Account → CreditProgress → Bool
written account p =
    if p.paid
    then text_eq account.paid_until p.paid_until_after
    else text_eq account.balance_gbp p.balance_gbp

-- The account's date, or that it cannot be read.
pub date_before : Calendar → Option String → Option (Option Date)
date_before calendar none = some none
date_before calendar (some stamp) = elim (calendar.parse_date stamp) [
  | none ↦ none
  | some d ↦ some (some d)
]

unfoldable pub balance_pence : Option String → Option ℕ
balance_pence none = some 0
balance_pence (some text) = elim (pence (codes text)) [ ok n ↦ some n | err e ↦ none ]

-- A reason that is not blank.
pub override_of : CreditIntent → Option String
override_of intent = elim intent.override_reason [
  | none ↦ none
  | some r ↦ if is_empty (trim (codes r)) then none else some r
]

pub past_ceiling_of : Calendar → Date → Date → Bool
past_ceiling_of calendar received until = elim (credit_ceiling calendar received) [
  | none ↦ false
  | some ceiling ↦ not (before_or_at until ceiling)
]

abbrev pub held_with : String → HeldItem → Bool
held_with txid item = is_text txid item.txid

pub held_txid : String → List HeldItem → Option String
held_txid txid [] = none
held_txid txid (item ∷ items) =
    let later = held_txid txid items in if held_with txid item then some item.id else later

unfoldable pub held_has_intent : String → List HeldItem → Bool
held_has_intent id items = any (λ i. str_eq i.intent id) items

-- The transaction checks: in the ledger, or held as another item than the one being attributed.
pub txid_problem : Option String → Option String → List LedgerLine → List HeldItem → Option Problem
txid_problem none attributed ledger held = none
txid_problem (some txid) attributed ledger held =
    if is_some (by_txid txid ledger) then some already_credited else elim (held_txid txid held) [
      | none ↦ none
      | some id ↦ if text_eq attributed (some id) then none else some already_held
    ]

pub renewal_problem : Option String → Bool → Option Problem
renewal_problem none confirmed = none
renewal_problem (some until) confirmed = if confirmed then none else some renewal

-- The checks between the witness and the first write, in the order of the code; an `err` is an error of
-- the configuration, which is no refusal.
pub data Verdict : Type 0 where
  misconfigured : Verdict
  refuses : Problem → Verdict
  goes : Plan → Verdict

pub weigh :
    String
    → Calendar
    → CreditIntent
    → ℕ
    → Date
    → Option String
    → Account
    → List LedgerLine
    → List HeldItem
    → Verdict
weigh price_gbp calendar intent amount received attributed account ledger held =
    elim (date_before calendar account.paid_until) [
      | none ↦ refuses paid_until_unreadable
      | some before ↦ elim (paid_until_after calendar received before) [
        | none ↦ refuses no_year
        | some until ↦
            if past_ceiling_of calendar received until && not (is_some (override_of intent))
            then refuses past_ceiling
            else elim (pence (codes price_gbp)) [
              | err e ↦ misconfigured
              | ok price ↦
                  if price == 0 then misconfigured else elim (balance_pence account.balance_gbp) [
                    | none ↦ refuses balance_unreadable
                    | some balance ↦ elim (txid_problem intent.txid attributed ledger held) [
                      | some problem ↦ refuses problem
                      | none ↦ elim (renewal_problem account.paid_until intent.confirm_double) [
                        | some problem ↦ refuses problem
                        | none ↦ goes (record {
                          money = credit_money price balance amount;
                          until = until;
                          before = before;
                        })
                      ]
                    ]
                  ]
            ]
      ]
    ]

-- What the account becomes.
pub paid_account : CreditIntent → Plan → Account → Account
paid_account intent plan account =
    let moved = record account {
      rail = some intent.rail;
      balance_gbp = if ltb 0 plan.money.balance then some (gbp_text plan.money.balance) else none;
    } in
    if plan.money.paid
    then (let dated = record moved {
      paid_until = some (date_string plan.until);
      window = elim account.window [ none ↦ none | some state ↦ some "paid" ];
    } in
        if str_eq account.state "lapsed" || str_eq account.state "active"
        then record dated { state = "active"; grace_until = none }
        else dated)
    else moved

pub after_of : Plan → Option String
after_of plan =
    if plan.money.paid
    then some (date_string plan.until)
    else elim plan.before [ none ↦ none | some d ↦ some (date_string d) ]

pub progress_of : Plan → CreditProgress
progress_of plan = record {
  paid = plan.money.paid;
  paid_until_after = after_of plan;
  applied_gbp = gbp_text plan.money.applied;
  balance_gbp = if ltb 0 plan.money.balance then some (gbp_text plan.money.balance) else none;
}

module _ {Time : Type 0} where
  unfoldable pub call : (Books Time → Books Time) → Action (Books Time) Unit
  call effect b = elim b.faults [
    | [] ↦ (ok tt, effect b)
    | f ∷ fs ↦ elim f [
      | fine ↦ (ok tt, effect (record b { faults = fs }))
      | early ↦ (err "the call failed", record b { faults = fs })
      | late ↦ (err "the call failed", effect (record b { faults = fs }))
    ]
  ]

  unfoldable pub append_line : LedgerLine → Action (Books Time) Unit
  append_line line = call (λ b. record b { ledger = (append line b.ledger).1 })

  unfoldable pub send : Outward → Action (Books Time) Unit
  send out = call (λ b. record b { outward = b.outward ++ out ∷ [] })

  unfoldable pub write_account : Account → Action (Books Time) Unit
  write_account account = call (λ b. record b { account = account })

  abbrev pub unless : Bool → Action (Books Time) Unit → Action (Books Time) Unit
  unless true m b = (ok tt, b)
  unless false m b = m b

module _ {Time : Type 0} (parse_time : String → Option Time) (now release : String) where
  -- `journal_credit_applying`: the file, then the index.
  pub journal_applying : CreditIntent → String → CreditProgress → Action (Books Time) Unit
  journal_applying intent username progress =
      let line : JournalLine = record {
        version = 1;
        at = now;
        intent = intent.id;
        kind = intent.kind;
        release = release;
        application = account_ref username;
        outcome = "applying";
        note = none;
        credit = some progress;
      } in
      call (λ b. record b { lines = b.lines ++ line ∷ [] })
      >> (λ b. (ok tt, record b { index = Journal.append parse_time line b.index }))

  -- The writes, in the order of the code.
  pub carry_out :
      CreditIntent → String → ℕ → Date → Bool → Plan → Account → Action (Books Time) Answer
  carry_out intent username amount received journalled plan account =
      unless journalled (journal_applying intent username (progress_of plan))
      >> (unless (not (plan.money.paid && str_eq account.state "lapsed")) (send restore)
          >> (write_account (paid_account intent plan account)
              >> (send copy
                  >> (append_line (
                        credit_line intent account.monero (date_string received) (gbp_text amount)
                          (gbp_text plan.money.applied) (after_of plan))
                      >> (send (receipt plan.money.paid) >> (λ b. (ok applied, b)))))))

  -- The rest of a pass that had written the account and not the ledger.
  pub finish_written : CreditIntent → ℕ → Date → CreditProgress → Action (Books Time) Answer
  finish_written intent amount received progress b =
      (unless (has_intent intent.id b.ledger) (
            append_line (
              credit_line intent b.account.monero (date_string received) (gbp_text amount)
                progress.applied_gbp progress.paid_until_after))
          >> (send copy >> (λ b'. (ok applied, b'))))
        b

  pub go_on :
      String
      → Calendar
      → CreditIntent
      → String
      → ℕ
      → Date
      → Option String
      → Bool
      → Action (Books Time) Answer
  go_on price_gbp calendar intent username amount received attributed journalled b =
      elim (weigh price_gbp calendar intent amount received attributed b.account b.ledger b.held) [
        | misconfigured ↦ (err "the drain's configured price_gbp", b)
        | refuses problem ↦ (ok (refused problem), b)
        | goes plan ↦ carry_out intent username amount received journalled plan b.account b
      ]

  pub apply_payment :
      String
      → Calendar
      → CreditIntent
      → String
      → ℕ
      → Date
      → Option String
      → Action (Books Time) Answer
  apply_payment price_gbp calendar intent username amount received attributed b =
      elim (credit_progress intent.id b.index) [
        | none ↦ go_on price_gbp calendar intent username amount received attributed false b
        | some progress ↦
            if written b.account progress
            then finish_written intent amount received progress b
            else go_on price_gbp calendar intent username amount received attributed true b
      ]

  -- `credit` where its token is there, is no group's and resolves to the account of `username`: the
  -- dedup, the fields, the application. Its other branches hold the payment, credit a group or refuse.
  pub credit_account : String → Calendar → Date → CreditIntent → String → Action (Books Time) Answer
  credit_account price_gbp calendar today intent username b =
      if has_intent intent.id b.ledger || held_has_intent intent.id b.held
      then (ok replayed, b)
      else elim (credit_fields calendar today intent) [
        | err why ↦ (ok (refused (bad_field why)), b)
        | ok amount ↦ elim (calendar.parse_date intent.received) [
          | none ↦ (err "the date was validated above", b)
          | some received ↦ apply_payment price_gbp calendar intent username amount received none b
        ]
      ]
