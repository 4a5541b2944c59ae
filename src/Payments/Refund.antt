-- ===== src/Payments/Refund.antt =====
-- Refunds (`refund`, `refund_group`, `refund_total`, `append_refund_ledger` and `settle_refund` of
-- onboard/src/transitions/payments.rs), over the books of one account. The account's balance is that of the
-- payment. A refusal is named and its text left out; the three dates that the clock makes are arguments.
pub mod Recorded
pub mod Total
pub mod Once
pub mod Again
mod Tests
use kyriakon_infra.Payments.Apply.{
  Books, Account, call, append_line, send, write_account, refund_notice, text_eq, gbp_text,
  balance_pence, unless, date_string,
}
use kyriakon_infra.Payments.{is_empty}
use kyriakon_infra.Payments.Join
use kyriakon_infra.Ledger
use kyriakon_infra.Ledger.{
  LedgerLine, RefundSum, empty_line, has_intent, settled_by, settle_refund, refunded_total,
  last_payment, is_none,
}
use kyriakon_infra.Money.{pence, gbp}
use kyriakon_infra.Dates.{Calendar, Date}
use kyriakon_infra.Transitions.World.{Action, ◌>>=◌, ◌>>◌}
use kyriakon_infra.Base.{
  ok, List, ℕ, Bool, Result, String, Option, err, some, not, ◌∷◌, if◌then◌else◌, str_eq, ltb, true,
  any, none, [], ◌||◌, false, ◌-◌, ◌&&◌, ◌+◌, ◌==◌,
}
use kyriakon_infra.Base.Chars.{plain_text, codes, trim, trim_text}
use kyriakon_infra.Ledger.Record.{is_some}
use kyriakon_infra.Store.Tokens.{is_payment_token}

pub record RefundIntent : Type 0 where
  pub id : String
  pub token : String
  pub amount_gbp : Option String
  pub rail : Option String
  pub reason : Option String
  pub close : Bool
  pub excess : Bool
  pub rate : Option String
  pub settled_on : Option String

abbrev pub refund_rails : List String
refund_rails = "card" ∷ "cash" ∷ "cash-hand" ∷ "monero" ∷ []

pub data Problem : Type 0 where
  bad_token not_alone bad_settled_date nothing_unsettled bad_rail close_or_excess no_reason
        rate_off_monero no_amount amount_unreadable no_rate rate_unreadable no_payment
        payment_unreadable other_rail more_than_arrived not_in_full balance_unreadable
        refunds_unreadable identical exceeds group_gone group_close :
      Problem
  unresolved : Join.Problem → Problem

-- A refund that is applied has its number, and whether the console is told the key for Stripe.
pub data Answer : Type 0 where
  replayed settlement_replayed : Answer
  settled : ℕ → Answer
  applied : ℕ → Bool → Answer
  refused : Problem → Answer

abbrev pub or_blank : Option String → String
or_blank none = ""
or_blank (some t) = t

pub record PaymentLine : Type 0 where
  pub seq : ℕ
  pub rail : String
  pub amount : ℕ
  pub amount_xmr : Option String
  pub paid_until_after : Option String

pub last_payment_line : String → List LedgerLine → Result Problem PaymentLine
last_payment_line token lines = elim (last_payment token lines) [
  | err e ↦ err payment_unreadable
  | ok none ↦ err no_payment
  | ok (some line) ↦ elim line.amount_gbp [
    | none ↦ err payment_unreadable
    | some text ↦ elim (pence (codes text)) [
      | err e ↦ err payment_unreadable
      | ok amount ↦ ok (record {
        seq = line.seq;
        rail = line.rail;
        amount = amount;
        amount_xmr = line.amount_xmr;
        paid_until_after = line.paid_until_after;
      })
    ]
  ]
]

-- What a refund gives back, once its fields are checked.
pub record Terms : Type 0 where
  pub amount : ℕ
  pub rate : Option String

abbrev pub same_flag : Bool → Bool → Bool
same_flag true b = b
same_flag false b = not b

unfoldable pub shape_problem : RefundIntent → Option Problem
shape_problem intent =
    if not (any (λ r. str_eq r (or_blank intent.rail)) refund_rails)
    then some bad_rail
    else if same_flag intent.close intent.excess
    then some close_or_excess
    else if is_empty (trim (codes (or_blank intent.reason)))
    then some no_reason
    else if is_some intent.rate && not (str_eq (or_blank intent.rail) "monero")
    then some rate_off_monero
    else none

unfoldable pub rate_of : Option String → Result Problem (Option String)
rate_of none = ok none
rate_of (some text) = elim (pence (codes text)) [
  | err e ↦ err rate_unreadable
  | ok p ↦ if ltb 0 p then ok (some (gbp_text p)) else err no_rate
]

pub terms_of : RefundIntent → Result Problem Terms
terms_of intent = elim (shape_problem intent) [
  | some problem ↦ err problem
  | none ↦ elim (pence (codes (or_blank intent.amount_gbp))) [
    | err e ↦ err amount_unreadable
    | ok amount ↦ if not (ltb 0 amount) then err no_amount else elim (rate_of intent.rate) [
      | err e ↦ err e
      | ok rate ↦ ok (record { amount = amount; rate = rate })
    ]
  ]
]

pub against : RefundIntent → ℕ → PaymentLine → Option Problem
against intent amount original =
    if not (str_eq (or_blank intent.rail) original.rail)
    then some other_rail
    else if ltb original.amount amount
    then some more_than_arrived
    else if intent.close && not (amount == original.amount)
    then some not_in_full
    else none

-- `-{gbp}`
abbrev pub deducted : ℕ → String
deducted amount = plain_text (b'-' ∷ gbp amount)

pub refund_total : String → PaymentLine → ℕ → List LedgerLine → Option Problem
refund_total token original amount lines = elim (refunded_total token original.seq lines) [
  | err e ↦ some refunds_unreadable
  | ok refunds ↦
      if any (λ l. text_eq l.amount_gbp (some (deducted amount))) refunds.lines
      then some identical
      else if ltb original.amount (refunds.total + amount)
      then some exceeds
      else none
]

abbrev pub refund_basis : String → Option String → Option String
refund_basis rail rate =
    if str_eq rail "monero"
    then some (if is_some rate then "sterling" else "recorded_xmr")
    else none

abbrev pub or_else : Option String → Option String → Option String
or_else none b = b
or_else (some a) b = some a

pub refund_line : RefundIntent → PaymentLine → Terms → String → Option String → LedgerLine
refund_line intent original terms received_on paid_until_after =
    record (empty_line intent.token "refund" (or_blank intent.rail)) {
      received_on = some received_on;
      amount_gbp = some (deducted terms.amount);
      applied_gbp = some (deducted terms.amount);
      paid_until_after = or_else paid_until_after original.paid_until_after;
      amount_xmr = original.amount_xmr;
      intent = some intent.id;
      note = some (trim_text (or_blank intent.reason));
      refund = some (record {
        refund_of = some original.seq;
        settled_on = none;
        refund_basis = refund_basis (or_blank intent.rail) terms.rate;
        rate_refund = terms.rate;
      });
    }

-- The account after a refund: a close has its date, and what is given back leaves the balance.
pub refunded_account : RefundIntent → String → ℕ → ℕ → Account → Account
refunded_account intent closing_until amount balance account =
    let closed =
      if intent.close
      then record account { state = "closing"; closing_until = some closing_until }
      else account in
    if intent.excess
    then record closed {
      balance_gbp = if ltb 0 (balance - amount) then some (gbp_text (balance - amount)) else none;
    }
    else closed

-- What the token resolves to: nothing, a group with its record's date or one whose record is gone, or the
-- account of the books.
pub data Payee : Type 0 where
  no_payee : Join.Problem → Payee
  group : Option (Option String) → Payee
  account : Payee

-- A settlement names a date and a token, and nothing else.
abbrev pub is_alone : RefundIntent → Bool
is_alone intent = not (
    is_some intent.amount_gbp
    || is_some intent.rail
    || is_some intent.reason
    || intent.close
    || intent.excess
    || is_some intent.rate)

module _ {Time : Type 0} where
  abbrev pub refuse : Problem → Action (Books Time) Answer
  refuse problem b = (ok (refused problem), b)

  -- `append_refund_ledger`, with the number that the line is given.
  pub append_refund : LedgerLine → Action (Books Time) ℕ
  append_refund line b =
      let seq = (Ledger.append line b.ledger).0 in (append_line line >> (λ c. (ok seq, c))) b

  -- The line, the notice, the answer.
  pub record_refund : RefundIntent → LedgerLine → Action (Books Time) Answer
  record_refund intent line = append_refund line >>= (λ seq.
      send (refund_notice seq)
      >> (λ b. (ok (applied seq (str_eq (or_blank intent.rail) "card")), b)))

  pub refund_group :
      RefundIntent
      → PaymentLine
      → Terms
      → String
      → Option (Option String)
      → Action (Books Time) Answer
  refund_group intent original terms received_on none b = refuse group_gone b
  refund_group intent original terms received_on (some paid_until) b =
      if intent.close
      then refuse group_close b
      else elim (refund_total intent.token original terms.amount b.ledger) [
        | some problem ↦ refuse problem b
        | none ↦ record_refund intent (refund_line intent original terms received_on paid_until) b
      ]

  pub refund_account :
      RefundIntent → PaymentLine → Terms → String → String → Action (Books Time) Answer
  refund_account intent original terms received_on closing_until b =
      elim (balance_pence b.account.balance_gbp) [
        | none ↦ refuse balance_unreadable b
        | some balance ↦ elim (refund_total intent.token original terms.amount b.ledger) [
          | some problem ↦ refuse problem b
          | none ↦
              (unless (not (intent.close || intent.excess)) (
                    write_account
                      (refunded_account intent closing_until terms.amount balance b.account))
                  >> record_refund intent
                      (refund_line intent original terms received_on b.account.paid_until))
                b
        ]
      ]

  -- A refund that is not a settlement, from the line it reverses on.
  pub refund_original :
      RefundIntent → Payee → Terms → PaymentLine → String → String → Action (Books Time) Answer
  refund_original intent (no_payee why) terms original received_on closing_until b =
      refuse (unresolved why) b
  refund_original intent (group paid_until) terms original received_on closing_until b =
      refund_group intent original terms received_on paid_until b
  refund_original intent account terms original received_on closing_until b =
      refund_account intent original terms received_on closing_until b

  pub refund_payment : RefundIntent → Payee → String → String → Action (Books Time) Answer
  refund_payment intent payee received_on closing_until b =
      if has_intent intent.id b.ledger then (ok replayed, b) else elim (terms_of intent) [
        | err problem ↦ refuse problem b
        | ok terms ↦ elim (last_payment_line intent.token b.ledger) [
          | err problem ↦ refuse problem b
          | ok original ↦ elim (against intent terms.amount original) [
            | some problem ↦ refuse problem b
            | none ↦ refund_original intent payee terms original received_on closing_until b
          ]
        ]
      ]

  -- The ledger's one rewrite; `settled_on` is the date as it is written back.
  unfoldable pub record_settlement : RefundIntent → String → Action (Books Time) Answer
  record_settlement intent on b =
      let (found, lines) = settle_refund intent.token intent.id on b.ledger in
      elim found [
        | none ↦ refuse nothing_unsettled b
        | some seq ↦ (call (λ c. record c { ledger = lines }) >> (λ c. (ok (settled seq), c))) b
      ]

  unfoldable pub settlement_form : Calendar → RefundIntent → String → Action (Books Time) Answer
  settlement_form calendar intent on b =
      if not (is_alone intent) then refuse not_alone b else elim (calendar.parse_date on) [
        | none ↦ refuse bad_settled_date b
        | some date ↦
            if settled_by intent.id b.ledger
            then (ok settlement_replayed, b)
            else record_settlement intent (date_string date) b
      ]

  unfoldable pub refund :
      Calendar → RefundIntent → Payee → String → String → Action (Books Time) Answer
  refund calendar intent payee received_on closing_until b =
      if not (is_payment_token (codes intent.token))
      then refuse bad_token b
      else if not (is_empty (codes (or_blank intent.settled_on)))
      then settlement_form calendar intent (or_blank intent.settled_on) b
      else refund_payment intent payee received_on closing_until b
