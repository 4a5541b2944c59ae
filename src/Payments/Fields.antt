-- ===== src/Payments/Fields.antt =====
-- What a credit that passes the checks looks like.
use kyriakon_infra.Payments.{
  CreditIntent, credit_fields, credit_amount, Refusal, credit_rails, is_empty, valid_txid,
  valid_xmr,
}
use kyriakon_infra.Base.{
  Bool, String, not, ◌&&◌, ℕ, ◌≡◌, any, false, ok, str_eq, true, ◌⊎◌, Result, inl, err, ◌<◌, arith,
  Result-cases, inr, some, refl, Bool-cases, Option-cases,
}
use kyriakon_infra.Dates.{Calendar, Date, received_beyond_window}
use kyriakon_infra.Money.{pence}
use kyriakon_infra.Base.Chars.{codes}
use kyriakon_infra.Store.Tokens.{is_payment_token}

pub record IsChecked (calendar : Calendar) (today : Date) (intent : CreditIntent) (amount : ℕ)
    : Type 0 where
  pub rail : any (λ r. str_eq r intent.rail) credit_rails ≡ true
  pub token :
      (is_empty (codes intent.token) ≡ true) ⊎ (is_payment_token (codes intent.token) ≡ true)
  pub received :
      (d : Date) × (calendar.parse_date intent.received ≡ some d)
      × (received_beyond_window calendar d today ≡ false)
  pub txid : valid_txid intent.txid ≡ true
  pub amount_xmr : valid_xmr intent.amount_xmr ≡ true
  pub pounds : pence (codes intent.amount_gbp) ≡ ok amount
  pub positive : 0 < amount

credit_amount-ok :
    (text : String) (n : ℕ) → credit_amount text ≡ ok n → (pence (codes text) ≡ ok n) × (0 < n)
unfolding credit_amount
credit_amount-ok text n h = elim (Result-cases (pence (codes text))) [
  | inl (m, p) ↦ ground (arith, p)
  | inr (x, p) ↦ absurd (ground (arith, p))
]

token_either : (a b : Bool) → (not a && not b) ≡ false → (a ≡ true) ⊎ (b ≡ true)
token_either true b h = inl refl
token_either false true h = inr refl
token_either false false h = absurd (ground arith)

-- Where the checks pass with an amount, each of them holds: the rail is one of the three, a token that is
-- there has the shape of one, the received date can be read and is not beyond the window, and the amount
-- is what `pence` reads, more than nothing.
pub credit_fields-IsChecked :
    (calendar : Calendar) (today : Date) (intent : CreditIntent) (amount : ℕ)
    → credit_fields calendar today intent ≡ ok amount
    → IsChecked calendar today intent amount
unfolding credit_fields
credit_fields-IsChecked calendar today intent amount h =
    elim (Bool-cases (any (λ r. str_eq r intent.rail) credit_rails)) [
      | inr e ↦ absurd (err_not_ok (rw (e, credit_fields) at h))
      | inl e ↦
          elim (Bool-cases
            (not (is_empty (codes intent.token)) && not (is_payment_token (codes intent.token)))) [
              | inl f ↦ absurd (err_not_ok (rw (e, f, credit_fields) at h))
              | inr f ↦ elim (Option-cases (calendar.parse_date intent.received)) [
                | inl g ↦ absurd (err_not_ok (rw (e, f, g, credit_fields) at h))
                | inr (d, g) ↦ elim (Bool-cases (received_beyond_window calendar d today)) [
                  | inl k ↦ absurd (err_not_ok (rw (e, f, g, k, credit_fields) at h))
                  | inr k ↦ elim (Bool-cases (valid_txid intent.txid)) [
                    | inr l ↦ absurd (err_not_ok (rw (e, f, g, k, l, credit_fields) at h))
                    | inl l ↦ elim (Bool-cases (valid_xmr intent.amount_xmr)) [
                      | inr q ↦ absurd (err_not_ok (rw (e, f, g, k, l, q, credit_fields) at h))
                      | inl q ↦
                          let read =
                            credit_amount-ok intent.amount_gbp amount
                              (rw (e, f, g, k, l, q, credit_fields) at h) in
                          record {
                            rail = e;
                            token = token_either _ _ f;
                            received = (d, g, k);
                            txid = l;
                            amount_xmr = q;
                            pounds = read.0;
                            positive = read.1;
                          }
                    ]
                  ]
                ]
              ]
            ]
    ]
  where
    err_not_ok : {r : Refusal} {n : ℕ} → ◌≡◌ {A = Result Refusal ℕ} (err r) (ok n) → ⊥
    err_not_ok p = ground arith
