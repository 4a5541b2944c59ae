-- ===== src/Payments/Refund/Recorded.antt =====
-- What a refund does to the ledger: nothing, or one line for the refund that passed every check.
use kyriakon_infra.Ledger
use kyriakon_infra.Base.{◌∷◌, [], refl, inl, inr, if◌then◌else◌}
use kyriakon_infra.Transitions.World.{◌>>◌, ◌>>=◌, Action, Fault, fine, early, late}
use kyriakon_infra.Payments.Refund.{
  RefundIntent, Terms, PaymentLine, Payee, refund_payment, refund_original, refund_account,
  refund_group, record_refund, append_refund, refund_line, refund_total, against, terms_of,
  last_payment_line, group, account, no_payee, refunded_account, refuse, group_close,
}
use kyriakon_infra.Payments.Apply.{
  Books, append_line, send, write_account, unless, call, balance_pence, Account,
}
use kyriakon_infra.Ledger.{LedgerLine, has_intent}
use kyriakon_infra.Base.{
  ◌≡◌, String, Option, ◌⊎◌, ok, none, Bool, Option-cases, List, Bool-cases, inl, some, ◌∙◌, inr, ap,
  not, Result-cases, refl, arith, ◌||◌, true, false,
}

module _ {Time : Type 0} where
  abbrev Adds : LedgerLine → Books Time → Books Time → Type 0
  Adds line b c = (c.ledger ≡ b.ledger) ⊎ (c.ledger ≡ (Ledger.append line b.ledger).1)

  record_refund-Adds :
      (intent : RefundIntent) (line : LedgerLine) (b : Books Time)
      → Adds line b (record_refund intent line b).1
  unfolding record_refund append_refund append_line send call
  record_refund-Adds intent line b = go b.faults
    where
      go : (fs : List Fault) → Adds line b (record_refund intent line (record b { faults = fs })).1
      go [] = inr refl
      go (early ∷ fs) = inl refl
      go (late ∷ fs) = inr refl
      go (fine ∷ []) = inr refl
      go (fine ∷ fine ∷ fs) = inr refl
      go (fine ∷ early ∷ fs) = inr refl
      go (fine ∷ late ∷ fs) = inr refl

  -- A refund that reached the ledger had its line checked against the lines that were there.
  pub record Line (intent : RefundIntent) (original : PaymentLine) (b c : Books Time) : Type 0 where
    pub terms : Terms
    pub received_on : String
    pub paid_until : Option String
    pub checked : terms_of intent ≡ ok terms
    pub fits : against intent terms.amount original ≡ none
    pub within : refund_total intent.token original terms.amount b.ledger ≡ none
    pub added :
        c.ledger
        ≡ (Ledger.append (refund_line intent original terms received_on paid_until) b.ledger).1

  pub data Recorded (intent : RefundIntent) (original : PaymentLine) (b c : Books Time)
      : Type 0 where
    kept : c.ledger ≡ b.ledger → Recorded intent original b c
    added : Line intent original b c → Recorded intent original b c

  recorded :
      (intent : RefundIntent) (original : PaymentLine) (terms : Terms) (received_on : String)
      (paid_until : Option String) (b : Books Time)
      → terms_of intent ≡ ok terms
      → against intent terms.amount original ≡ none
      → refund_total intent.token original terms.amount b.ledger ≡ none
      → (c : Books Time) → Adds (refund_line intent original terms received_on paid_until) b c
      → Recorded intent original b c
  recorded intent original terms received_on paid_until b checked fits within c (inl e) = kept e
  recorded intent original terms received_on paid_until b checked fits within c (inr e) =
      added (record {
        terms = terms;
        received_on = received_on;
        paid_until = paid_until;
        checked = checked;
        fits = fits;
        within = within;
        added = e;
      })

  -- Before the line nothing touches the ledger.
  quiet_then :
      {A B : Type 0} (line : LedgerLine) (m : Action (Books Time) A) (k : Action (Books Time) B)
      → ((b : Books Time) → (m b).1.ledger ≡ b.ledger)
      → ((b : Books Time) → Adds line b (k b).1)
      → (b : Books Time) → Adds line b ((m >> k) b).1
  quiet_then line m k hm hk b = elim (Result-cases (m b).0) [
    | inr (x, e) ↦ rw (e, ◌>>=◌) (inl (hm b))
    | inl (a, e) ↦ rw (e, ◌>>=◌) (from (k (m b).1).1 (hk (m b).1))
  ]
    where
      from : (d : Books Time) → Adds line (m b).1 d → Adds line b d
      from d (inl e) = inl (e ∙ hm b)
      from d (inr e) = inr (e ∙ ap (λ ls. (Ledger.append line ls).1) (hm b))

  write_unless :
      (skip : Bool) (a : Account) (b : Books Time)
      → (unless skip (write_account a) b).1.ledger ≡ b.ledger
  unfolding write_account call
  write_unless true a b = refl
  write_unless false a b = ground arith

  group-Recorded :
      (intent : RefundIntent) (original : PaymentLine) (terms : Terms) (received_on : String)
      (record' : Option (Option String)) (b : Books Time)
      → terms_of intent ≡ ok terms
      → against intent terms.amount original ≡ none
      → Recorded intent original b (refund_group intent original terms received_on record' b).1
  unfolding refund_group
  group-Recorded intent original terms received_on none b checked fits = kept refl
  group-Recorded intent original terms received_on (some paid_until) b checked fits =
      of_flag intent.close
    where
      of_flag :
          (close : Bool)
          → Recorded intent original b
              (if close
                then refuse group_close b
                else elim (refund_total intent.token original terms.amount b.ledger) [
                  | some problem ↦ refuse problem b
                  | none ↦
                      record_refund intent
                        (refund_line intent original terms received_on paid_until)
                        b
                ]).1
      of_flag true = kept refl
      of_flag false =
          elim (Option-cases (refund_total intent.token original terms.amount b.ledger)) [
            | inr (problem, f) ↦ rw f (kept refl)
            | inl f ↦ rw f (
                recorded intent original terms received_on paid_until b checked fits f _ (
                  record_refund-Adds intent
                    (refund_line intent original terms received_on paid_until) b))
          ]

  account-Recorded :
      (intent : RefundIntent) (original : PaymentLine) (terms : Terms)
      (received_on closing_until : String) (b : Books Time)
      → terms_of intent ≡ ok terms
      → against intent terms.amount original ≡ none
      → Recorded intent original b
          (refund_account intent original terms received_on closing_until b).1
  unfolding refund_account
  account-Recorded intent original terms received_on closing_until b checked fits =
      elim (Option-cases (balance_pence b.account.balance_gbp)) [
        | inl e ↦ rw (e, refund_account) (kept refl)
        | inr (balance, e) ↦
            elim (Option-cases (refund_total intent.token original terms.amount b.ledger)) [
              | inr (problem, f) ↦ rw (e, refund_account) (rw (f, refund_account) (kept refl))
              | inl f ↦
                  rw (e, refund_account)
                    (rw (f, refund_account)
                      (let line =
                          refund_line intent original terms received_on b.account.paid_until in
                        recorded intent original terms received_on b.account.paid_until b checked
                          fits f _
                          (quiet_then line
                            (unless (not (intent.close || intent.excess)) (
                              write_account (
                                refunded_account intent closing_until terms.amount balance
                                  b.account)))
                            (record_refund intent line)
                            (write_unless (not (intent.close || intent.excess)) (
                              refunded_account intent closing_until terms.amount balance b.account))
                            (record_refund-Adds intent line) b)))
            ]
      ]

  -- A refund that is no settlement keeps the ledger, or adds one line that its checks let through.
  pub refund_payment-Recorded :
      (intent : RefundIntent) (payee : Payee) (original : PaymentLine)
      (received_on closing_until : String) (b : Books Time)
      → last_payment_line intent.token b.ledger ≡ ok original
      → Recorded intent original b (refund_payment intent payee received_on closing_until b).1
  unfolding refund_payment refund_original
  refund_payment-Recorded intent payee original received_on closing_until b found =
      elim (Bool-cases (has_intent intent.id b.ledger)) [
        | inl e ↦ rw (e, refund_payment) (kept refl)
        | inr e ↦ elim (Result-cases (terms_of intent)) [
          | inr (x, f) ↦ rw (e, refund_payment) (rw (f, refund_payment) (kept refl))
          | inl (terms, f) ↦ elim (Option-cases (against intent terms.amount original)) [
            | inr (problem, g) ↦
                rw (e, refund_payment)
                  (rw (f, refund_payment)
                    (rw (found, refund_payment) (rw (g, refund_payment) (kept refl))))
            | inl g ↦
                rw (e, refund_payment)
                  (rw (f, refund_payment)
                    (rw (found, refund_payment)
                      (rw (g, refund_payment) (of_payee payee terms f g))))
          ]
        ]
      ]
    where
      of_payee :
          (p : Payee) (terms : Terms)
          → terms_of intent ≡ ok terms
          → against intent terms.amount original ≡ none
          → Recorded intent original b
              (refund_original intent p terms original received_on closing_until b).1
      of_payee (no_payee why) terms f g = kept refl
      of_payee (group paid_until) terms f g =
          group-Recorded intent original terms received_on paid_until b f g
      of_payee account terms f g =
          account-Recorded intent original terms received_on closing_until b f g
