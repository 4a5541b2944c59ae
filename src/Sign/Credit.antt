-- ===== src/Sign/Credit.antt =====
-- The text under a credit's signature: `credit_payload` of onboard/src/sign.rs. The id of the intent is no
-- part of it.
use kyriakon_infra.Sign.{Text, or_empty, credit_payload}
use kyriakon_infra.Sign.Delimited.{
  cut_unique, free_field_unique, bool_field_unique, free_text_alone,
}
use kyriakon_infra.Base.{Option, Bool, ◌≡◌, refl}
use kyriakon_infra.Base.Pieces.{IsFree}
use kyriakon_infra.Base.Chars.{codes}

-- The fields of a credit that are signed.
pub record Signed : Type 0 where
  pub token : Text
  pub rail : Text
  pub amount_gbp : Text
  pub received : Text
  pub txid : Option Text
  pub amount_xmr : Option Text
  pub confirm_double : Bool
  pub override_reason : Option Text
  pub note : Option Text

abbrev pub payload : Signed → Text
payload c =
    credit_payload c.token c.rail c.amount_gbp c.received c.txid c.amount_xmr c.confirm_double
      c.override_reason c.note

-- The fields that the drain checks the shape of hold no colon.
pub record IsShaped (c : Signed) : Type 0 where
  pub token : IsFree b':' c.token
  pub rail : IsFree b':' c.rail
  pub amount_gbp : IsFree b':' c.amount_gbp
  pub received : IsFree b':' c.received
  pub txid : IsFree b':' (or_empty c.txid)
  pub amount_xmr : IsFree b':' (or_empty c.amount_xmr)

-- Two credits with the same signed fields: an absent text and an empty one count as the same.
pub record IsSameCredit (a b : Signed) : Type 0 where
  pub token : a.token ≡ b.token
  pub rail : a.rail ≡ b.rail
  pub amount_gbp : a.amount_gbp ≡ b.amount_gbp
  pub received : a.received ≡ b.received
  pub txid : or_empty a.txid ≡ or_empty b.txid
  pub amount_xmr : or_empty a.amount_xmr ≡ or_empty b.amount_xmr
  pub confirm_double : a.confirm_double ≡ b.confirm_double
  pub override_reason : or_empty a.override_reason ≡ or_empty b.override_reason
  pub note : or_empty a.note ≡ or_empty b.note

-- Two credits whose token, rail, amount, date, transaction and Monero amount hold no colon have the same
-- payload only if each of the nine fields that are signed is the same, the free texts included, where
-- an absent text counts as an empty one. The id of the intent is not among them.
pub credit_payload-IsSameCredit :
    (a b : Signed) → IsShaped a → IsShaped b → payload a ≡ payload b → IsSameCredit a b
unfolding credit_payload
credit_payload-IsSameCredit a b ha hb h =
    let verb = cut_unique b':' (codes "credit") (codes "credit") _ _ refl refl h in
    let token = cut_unique b':' a.token b.token _ _ ha.token hb.token verb.1 in
    let rail = cut_unique b':' a.rail b.rail _ _ ha.rail hb.rail token.1 in
    let amount = cut_unique b':' a.amount_gbp b.amount_gbp _ _ ha.amount_gbp hb.amount_gbp rail.1 in
    let received = cut_unique b':' a.received b.received _ _ ha.received hb.received amount.1 in
    let txid = cut_unique b':' (or_empty a.txid) (or_empty b.txid) _ _ ha.txid hb.txid received.1 in
    let xmr =
      cut_unique b':' (or_empty a.amount_xmr) (or_empty b.amount_xmr) _ _ ha.amount_xmr
        hb.amount_xmr txid.1 in
    let double = bool_field_unique a.confirm_double b.confirm_double _ _ xmr.1 in
    let reason =
      free_field_unique b':' b':' (or_empty a.override_reason) (or_empty b.override_reason) _ _
        (cc (double.1)) in
    let note = free_text_alone (or_empty a.note) (or_empty b.note) reason.1 in
    record {
      token = token.0;
      rail = rail.0;
      amount_gbp = amount.0;
      received = received.0;
      txid = txid.0;
      amount_xmr = xmr.0;
      confirm_double = double.0;
      override_reason = reason.0;
      note = note;
    }
