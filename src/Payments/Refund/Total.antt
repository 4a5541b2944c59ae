-- ===== src/Payments/Refund/Total.antt =====
-- The refunds of a payment never exceed it (`refund_total` of onboard/src/transitions/payments.rs).

use kyriakon_infra.Money.RoundTrip.{pence-gbp, digits-AllDigits}
use kyriakon_infra.Base.Texts.{is_plain, codes-plain_text}
use kyriakon_infra.Money.{digits, gbp, pence}
use kyriakon_infra.Base.{
  List, ℕ, all, ◌≡◌, true, ◌++◌, ◌∷◌, arith, [], ◌/◌, ◌+◌, ◌%◌, String, Option, ◌<◌, ok, refl,
  Option-cases, inr, inl, none, ◌≤◌, Bool-cases, Result-cases, any, some, ltb, ==_iff, sym,
}
use kyriakon_infra.Ledger.{refund_pence, LedgerLine, RefundSum, refunded_total, reverses, is_of}
use kyriakon_infra.Payments.Refund.{
  refund_line, RefundIntent, PaymentLine, Terms, terms_of, Payee, refund_total, shape_problem,
  last_payment_line, refund_payment, or_blank, deducted, rate_of,
}
use kyriakon_infra.Base.Chars.{is_digit, codes}
use kyriakon_infra.Payments.Apply.{Books, text_eq}
use kyriakon_infra.Payments.Refund.Recorded.{refund_payment-Recorded, Recorded, kept, added}
use kyriakon_infra.Money.Bounds.{pence_bound}
use text.Mathlib.TextPositions.{eq_refl}
use kyriakon_infra.Ledger.Refunds.{refunded_total-append}
use mathlib.Core.Path.{subst}

digits_plain :
    (s t : List ℕ) → all is_digit s ≡ true → all is_plain t ≡ true → all is_plain (s ++ t) ≡ true
digits_plain [] t hs ht = ht
digits_plain (c ∷ s) t hs ht = ground (arith, digits_plain s t)

pub gbp_plain : (n : ℕ) → all is_plain (gbp n) ≡ true
unfolding gbp
gbp_plain n =
    digits_plain (digits 20 (n / 100)) (b'.' ∷ (b'0' + n % 100 / 10) ∷ (b'0' + n % 100 % 10) ∷ [])
      (digits-AllDigits 20 (n / 100)) (ground arith)

-- The line of a refund is read back as the amount that it gives back.
refund_line_pence :
    (intent : RefundIntent) (original : PaymentLine) (terms : Terms) (on : String)
    (until : Option String)
    → terms.amount < 100_000_000_000
    → refund_pence (refund_line intent original terms on until) ≡ ok terms.amount
unfolding refund_pence refund_line
refund_line_pence intent original terms on until h =
    let text = codes-plain_text (b'-' ∷ gbp terms.amount) (gbp_plain terms.amount) in
    rw (text, refund_pence) (rw (pence-gbp terms.amount h, refund_pence) refl)

-- What the checks of a refund say of its amount.
terms_of-bound :
    (intent : RefundIntent) (terms : Terms)
    → terms_of intent ≡ ok terms
    → terms.amount < 100_000_000_000
unfolding terms_of
terms_of-bound intent terms h = elim (Option-cases (shape_problem intent)) [
  | inr (problem, e) ↦ absurd (ground (arith, e))
  | inl e ↦ elim (Result-cases (pence (codes (or_blank intent.amount_gbp)))) [
    | inr (x, f) ↦ absurd (ground (arith, e, f))
    | inl (amount, f) ↦ elim (Bool-cases (ltb 0 amount)) [
      | inr g ↦ absurd (ground (arith, e, f, g))
      | inl g ↦ elim (Result-cases (rate_of intent.rate)) [
        | inr (x, k) ↦ absurd (ground (arith, e, f, g, k))
        | inl (rate, k) ↦
            let same : amount ≡ terms.amount = ground (arith, e, f, g, k) in
            let bound = pence_bound (codes (or_blank intent.amount_gbp)) amount f in
            omega (arith, same, bound)
      ]
    ]
  ]
]

refund_total-within :
    (token : String) (original : PaymentLine) (amount : ℕ) (lines : List LedgerLine) (s : RefundSum)
    → refunded_total token original.seq lines ≡ ok s
    → refund_total token original amount lines ≡ none
    → s.total + amount ≤ original.amount
unfolding refund_total
refund_total-within token original amount lines s h within =
    elim (Bool-cases (any (λ l. text_eq l.amount_gbp (some (deducted amount))) s.lines)) [
      | inl e ↦ absurd (ground (arith, h, e))
      | inr e ↦ ground (arith, h, e)
    ]

refund_line-reverses :
    (intent : RefundIntent) (original : PaymentLine) (terms : Terms) (on : String)
    (until : Option String)
    → (is_of intent.token "refund" (refund_line intent original terms on until) ≡ true)
      × (reverses original.seq (refund_line intent original terms on until) ≡ true)
unfolding refund_line reverses
refund_line-reverses intent original terms on until =
    (rw (eq_refl intent.token) refl, (==_iff original.seq original.seq).1 refl)

Recorded-within :
    {Time : Type 0} (intent : RefundIntent) (original : PaymentLine) (b c : Books Time)
    (s : RefundSum)
    → refunded_total intent.token original.seq b.ledger ≡ ok s
    → s.total ≤ original.amount
    → Recorded intent original b c
    → (t : RefundSum) × (refunded_total intent.token original.seq c.ledger ≡ ok t)
      × (t.total ≤ original.amount)
Recorded-within intent original b c s h small (kept e) = (s, rw e h, small)
Recorded-within intent original b c s h small (added l) =
    let line = refund_line intent original l.terms l.received_on l.paid_until in
    let (kind, back) = refund_line-reverses intent original l.terms l.received_on l.paid_until in
    let read =
      refund_line_pence intent original l.terms l.received_on l.paid_until
        (terms_of-bound intent l.terms l.checked) in
    let (t, total, sum) =
      refunded_total-append intent.token original.seq l.terms.amount b.ledger s line h kind back
        read in
    (
      t,
      subst (λ ls. refunded_total intent.token original.seq ls ≡ ok t) (sym l.added) total,
      omega (
        arith,
        sum,
        refund_total-within intent.token original l.terms.amount b.ledger s h l.within,
      ),
    )

-- Where the refunds of the token's last payment are within it before a refund, they are within it after,
-- whatever the refund asks for, whoever is paid and wherever a call fails.
pub refund_payment_within :
    {Time : Type 0} (intent : RefundIntent) (payee : Payee) (original : PaymentLine)
    (received_on closing_until : String) (b : Books Time) (s : RefundSum)
    → last_payment_line intent.token b.ledger ≡ ok original
    → refunded_total intent.token original.seq b.ledger ≡ ok s
    → s.total ≤ original.amount
    → let (answer, after) = refund_payment intent payee received_on closing_until b in
      (t : RefundSum) × (refunded_total intent.token original.seq after.ledger ≡ ok t)
      × (t.total ≤ original.amount)
refund_payment_within intent payee original received_on closing_until b s found h small =
    Recorded-within intent original b (refund_payment intent payee received_on closing_until b).1 s
      h small (refund_payment-Recorded intent payee original received_on closing_until b found)
