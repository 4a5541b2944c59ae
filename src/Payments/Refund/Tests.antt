-- ===== src/Payments/Refund/Tests.antt =====
-- A refund of a payment with held money (onboard/src/transitions/payments.rs).
use kyriakon_infra.Payments.Refund.{
  RefundIntent, Terms, PaymentLine, account, refund_account, refund_payment, last_payment_line,
  refund_total, deducted,
}
use kyriakon_infra.Payments.Apply.Once.{count_intent}
use kyriakon_infra.Base.{[], ◌∷◌, some, none, ℕ, false, ◌≡◌, refl, true, ok, ◌-◌, ◌≤◌, arith}
use kyriakon_infra.Ledger.{LedgerLine, empty_line, RefundSum, refunded_total}
use kyriakon_infra.Payments.Apply.{balance_pence, Books}
use kyriakon_infra.Payments.Refund.Again.{of_excess, refund_taken_again}
use kyriakon_infra.Transitions.World.{fine, early}
use kyriakon_infra.Journal.{load}
use kyriakon_infra.Payments.Refund.Total.{refund_payment_within}
use kyriakon_infra.Payments.Refund.Once.{runs, refund_once}
use kyriakon_infra.Ledger

abbrev intent : RefundIntent
intent = record {
  id = "r1";
  token = "KYR-1";
  amount_gbp = some "6.00";
  rail = some "cash";
  reason = some "asked for";
  close = false;
  excess = true;
  rate = none;
  settled_on = none;
}

abbrev paid : LedgerLine
paid = record (empty_line "KYR-1" "payment" "cash") {
  seq = 1;
  amount_gbp = some "30.00";
  intent = some "i1";
}

abbrev original : PaymentLine
original = record {
  seq = 1;
  rail = "cash";
  amount = 3000;
  amount_xmr = none;
  paid_until_after = none;
}

abbrev books : Books ℕ
books = record {
  account = record {
    state = "active";
    grace_until = none;
    closing_until = none;
    paid_until = none;
    balance_gbp = some "20.00";
    rail = none;
    window = none;
    monero = none;
  };
  group = none;
  mailboxes = [];
  ledger = paid ∷ [];
  held = [];
  lines = [];
  index = load (λ s. none) [];
  outward = [];
  faults = [];
}

found : last_payment_line intent.token books.ledger ≡ ok original
unfolding last_payment_line Ledger.last_payment Ledger.last_payment_from kyriakon_infra.Money.pence
    kyriakon_infra.Money.amount kyriakon_infra.Base.Chars.split_once
    kyriakon_infra.Base.Chars.utf8_len kyriakon_infra.Money.number kyriakon_infra.Money.pennies
found = refl

no_refund : refunded_total intent.token 1 books.ledger ≡ ok (record { total = 0; lines = [] })
unfolding refunded_total Ledger.sum_refunds Ledger.refunds
no_refund = refl

refund_payment_within_example :
    let (answer, after) = refund_payment intent account "2026-05-01" "2026-05-08" books in
    (t : RefundSum) × (refunded_total intent.token original.seq after.ledger ≡ ok t)
    × (t.total ≤ original.amount)
refund_payment_within_example =
    refund_payment_within intent account original "2026-05-01" "2026-05-08" books
      (record { total = 0; lines = [] }) found no_refund (omega arith)

refund_once_example :
    count_intent "r1" (runs intent account "2026-05-01" "2026-05-08" ([] ∷ [] ∷ []) books).ledger
    ≤ 1
refund_once_example =
    refund_once intent account "2026-05-01" "2026-05-08" ([] ∷ [] ∷ []) books
      (unfold count_intent in omega arith)

abbrev terms : Terms
terms = record { amount = 600; rate = none }

has_balance : balance_pence (some "20.00") ≡ some 2000
unfolding balance_pence kyriakon_infra.Money.pence kyriakon_infra.Money.amount
    kyriakon_infra.Base.Chars.split_once kyriakon_infra.Base.Chars.utf8_len
    kyriakon_infra.Money.number kyriakon_infra.Money.pennies
has_balance = refl

within : refund_total "KYR-1" original 600 books.ledger ≡ none
unfolding refund_total refunded_total Ledger.sum_refunds Ledger.refunds
within = refl

refund_taken_again_example :
    let (first, c) =
      refund_account
        (of_excess intent)
        original
        terms
        "2026-05-01"
        "2026-05-08"
        (record books { faults = fine ∷ early ∷ [] }) in
    let (second, d) =
      refund_account
        (of_excess intent)
        original
        terms
        "2026-05-01"
        "2026-05-08"
        (record c { faults = [] }) in
    (balance_pence d.account.balance_gbp ≡ some (2000 - 600 - 600))
    × ((line : LedgerLine) × (line.amount_gbp ≡ some (deducted 600))
        × (d.ledger ≡ (Ledger.append line books.ledger).1))
refund_taken_again_example =
    refund_taken_again intent original terms "2026-05-01" "2026-05-08" books 2000 has_balance
      (omega arith) within
