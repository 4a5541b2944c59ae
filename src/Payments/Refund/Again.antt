-- ===== src/Payments/Refund/Again.antt =====
-- A refund of held money that stops between its two writes (onboard/src/transitions/payments.rs).
use kyriakon_infra.Ledger
use kyriakon_infra.Transitions.World.{fine, early}
use kyriakon_infra.Base.{
  [], ◌∷◌, ℕ, ◌<◌, if◌then◌else◌, ltb, some, none, ◌≡◌, Bool-cases, inr, arith, ap, inl, Option,
  String, true, ◌-◌, false, refl, ◌∙◌,
}
use kyriakon_infra.Payments.Refund.Total.{gbp_plain}
use kyriakon_infra.Payments.Apply.{
  balance_pence, gbp_text, append_line, send, write_account, call, Books,
}
use kyriakon_infra.Base.Texts.{codes-plain_text}
use kyriakon_infra.Money.{gbp}
use kyriakon_infra.Money.RoundTrip.{pence-gbp}
use kyriakon_infra.Payments.Refund.{
  refund_account, record_refund, append_refund, refunded_account, RefundIntent, PaymentLine, Terms,
  refund_total, refund_line, deducted,
}
use kyriakon_infra.Ledger.{has_intent, LedgerLine}

balance-gbp_text :
    (n : ℕ)
    → n < 100_000_000_000
    → balance_pence (if ltb 0 n then some (gbp_text n) else none) ≡ some n
unfolding balance_pence
balance-gbp_text n h = elim (Bool-cases (ltb 0 n)) [
  | inr e ↦ rw e (let z : 0 ≡ n = ground (arith, e) in ap some z)
  | inl e ↦ rw e (
      rw (codes-plain_text (gbp n) (gbp_plain n), balance_pence)
        (rw (pence-gbp n h, balance_pence) refl))
]

abbrev left_of : ℕ → Option String
left_of n = if ltb 0 n then some (gbp_text n) else none

-- The intent, as a refund of held money.
abbrev pub of_excess : RefundIntent → RefundIntent
of_excess intent = record intent { close = false; excess = true }

module _ {Time : Type 0} where
  -- A try writes the account; its line is there unless the call for it fails.
  cut_short :
      (intent : RefundIntent) (original : PaymentLine) (terms : Terms)
      (received_on closing_until : String) (b : Books Time) (balance : ℕ)
      → balance_pence b.account.balance_gbp ≡ some balance
      → refund_total intent.token original terms.amount b.ledger ≡ none
      → let (answer, c) =
          refund_account
            (of_excess intent)
            original
            terms
            received_on
            closing_until
            (record b { faults = fine ∷ early ∷ [] }) in
        (c.ledger ≡ b.ledger) × (c.account.balance_gbp ≡ left_of (balance - terms.amount))
  unfolding refund_account record_refund append_refund append_line send write_account call
      refunded_account
  cut_short intent original terms received_on closing_until b balance read within =
      rw (read, refund_account) (rw (within, refund_account) (refl, refl))

  carried_out :
      (intent : RefundIntent) (original : PaymentLine) (terms : Terms)
      (received_on closing_until : String) (b : Books Time) (balance : ℕ)
      → balance_pence b.account.balance_gbp ≡ some balance
      → refund_total intent.token original terms.amount b.ledger ≡ none
      → let (answer, c) =
          refund_account
            (of_excess intent)
            original
            terms
            received_on
            closing_until
            (record b { faults = [] }) in
        (c.account.balance_gbp ≡ left_of (balance - terms.amount))
        × ((line : LedgerLine) × (line.amount_gbp ≡ some (deducted terms.amount))
            × (c.ledger ≡ (Ledger.append line b.ledger).1))
  unfolding refund_account record_refund append_refund append_line send write_account call
      refunded_account refund_line
  carried_out intent original terms received_on closing_until b balance read within =
      rw (read, refund_account) (rw (within, refund_account) (refl, (_, refl, refl)))

  -- A refund of held money whose call for the ledger fails, after the account was written, takes its amount
  -- from the balance a second time when it is tried again, while the ledger has one line for both: of a
  -- balance of at least twice the refund, the member loses the refund once more than it was paid.
  pub refund_taken_again :
      (intent : RefundIntent) (original : PaymentLine) (terms : Terms)
      (received_on closing_until : String) (b : Books Time) (balance : ℕ)
      → balance_pence b.account.balance_gbp ≡ some balance
      → balance < 100_000_000_000
      → refund_total intent.token original terms.amount b.ledger ≡ none
      → let (first, c) =
          refund_account
            (of_excess intent)
            original
            terms
            received_on
            closing_until
            (record b { faults = fine ∷ early ∷ [] }) in
        let (second, d) =
          refund_account
            (of_excess intent)
            original
            terms
            received_on
            closing_until
            (record c { faults = [] }) in
        (balance_pence d.account.balance_gbp ≡ some (balance - terms.amount - terms.amount))
        × ((line : LedgerLine) × (line.amount_gbp ≡ some (deducted terms.amount))
            × (d.ledger ≡ (Ledger.append line b.ledger).1))
  refund_taken_again intent original terms received_on closing_until b balance read small within =
      let c =
        (refund_account (of_excess intent) original terms received_on closing_until
          (record b { faults = fine ∷ early ∷ [] })).1 in
      let (same, left) =
        cut_short intent original terms received_on closing_until b balance read within in
      let again : balance_pence c.account.balance_gbp ≡ some (balance - terms.amount) =
        ap balance_pence left ∙ balance-gbp_text (balance - terms.amount) (omega (arith, small)) in
      let free : refund_total intent.token original terms.amount c.ledger ≡ none =
        ap (refund_total intent.token original terms.amount) same ∙ within in
      let (taken, (line, worth, there)) =
        carried_out intent original terms received_on closing_until c (balance - terms.amount) again
          free in
      (
        ap balance_pence taken
            ∙ balance-gbp_text (balance - terms.amount - terms.amount) (omega (arith, small)),
        (line, worth, there ∙ ap (λ ls. (Ledger.append line ls).1) same),
      )
