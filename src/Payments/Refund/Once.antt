-- ===== src/Payments/Refund/Once.antt =====
-- A refund is in the ledger once, however often it is tried (onboard/src/transitions/payments.rs).
use kyriakon_infra.Payments.Apply.Once.{count_intent, count_intent-zero, count_intent-append}
use kyriakon_infra.Payments.Refund.Recorded.{Recorded, kept, added, refund_payment-Recorded}
use kyriakon_infra.Base.{
  [], ◌∷◌, String, ◌≤◌, List, Bool-cases, ◌≡◌, inl, false, arith, inr, Result-cases, sym,
}
use kyriakon_infra.Payments.Refund.{
  refund_payment, RefundIntent, Payee, PaymentLine, last_payment_line, refund_line, terms_of,
}
use kyriakon_infra.Payments.Apply.{Books}
use kyriakon_infra.Ledger.{has_intent}
use kyriakon_infra.Transitions.World.{Fault}
use mathlib.Core.Path.{subst}

module _ {Time : Type 0} where
  -- Every try meets its own faults.
  pub runs : RefundIntent → Payee → String → String → List (List Fault) → Books Time → Books Time
  runs intent payee received_on closing_until [] b = b
  runs intent payee received_on closing_until (fs ∷ more) b =
      runs intent payee received_on closing_until more
        (refund_payment intent payee received_on closing_until (record b { faults = fs })).1

  Recorded-count :
      (intent : RefundIntent) (original : PaymentLine) (b c : Books Time)
      → has_intent intent.id b.ledger ≡ false
      → Recorded intent original b c
      → count_intent intent.id c.ledger ≤ 1
  Recorded-count intent original b c fresh (kept e) =
      rw e (rw (count_intent-zero intent.id b.ledger fresh) (omega arith))
  Recorded-count intent original b c fresh (added l) =
      subst (λ ls. count_intent intent.id ls ≤ 1) (sym l.added)
        (count_intent-append intent.id
          (refund_line intent original l.terms l.received_on l.paid_until) b.ledger
          (count_intent-zero intent.id b.ledger fresh))

  refund_payment-count :
      (intent : RefundIntent) (payee : Payee) (received_on closing_until : String) (b : Books Time)
      → count_intent intent.id b.ledger ≤ 1
      → count_intent intent.id (refund_payment intent payee received_on closing_until b).1.ledger
        ≤ 1
  unfolding refund_payment
  refund_payment-count intent payee received_on closing_until b h =
      elim (Bool-cases (has_intent intent.id b.ledger)) [
        | inl e ↦ rw (e, refund_payment) h
        | inr e ↦ elim (Result-cases (last_payment_line intent.token b.ledger)) [
          | inl (original, f) ↦
              Recorded-count intent original b
                (refund_payment intent payee received_on closing_until b).1 e
                (refund_payment-Recorded intent payee original received_on closing_until b f)
          | inr (x, f) ↦ elim (Result-cases (terms_of intent)) [
            | inr (y, g) ↦ rw (e, refund_payment) (rw (g, refund_payment) h)
            | inl (terms, g) ↦
                rw (e, refund_payment) (rw (g, refund_payment) (rw (f, refund_payment) h))
          ]
        ]
      ]

  -- However often a refund is tried, and wherever in each try a call fails, with its effect or without, the
  -- ledger has at most one line of its intent, if it had at most one before.
  pub refund_once :
      (intent : RefundIntent) (payee : Payee) (received_on closing_until : String)
      (tries : List (List Fault)) (b : Books Time)
      → count_intent intent.id b.ledger ≤ 1
      → count_intent intent.id (runs intent payee received_on closing_until tries b).ledger ≤ 1
  unfolding runs
  refund_once intent payee received_on closing_until [] b h = h
  refund_once intent payee received_on closing_until (fs ∷ more) b h =
      refund_once intent payee received_on closing_until more
        (refund_payment intent payee received_on closing_until (record b { faults = fs })).1
        (refund_payment-count intent payee received_on closing_until (record b { faults = fs }) h)
