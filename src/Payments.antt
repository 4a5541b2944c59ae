-- ===== src/Payments.antt =====
-- The checks and the arithmetic of a credit (onboard/src/transitions/payments.rs). Amounts are in
-- pence; a code's i64 holds every sum here, since an amount is below 10 ^ 11.
pub mod Fields
pub mod Amounts
pub mod Join
pub mod Line
pub mod Apply
pub mod Refund
pub mod Queue
pub mod Group
pub mod Credit
mod Tests
use kyriakon_infra.Base.{
  ℕ, Option, List, ◌+◌, String, Bool, if◌then◌else◌, true, Result, ◌∷◌, false, ◌||◌, leb, [], not,
  some, any, ◌-◌, ◌*◌, ◌==◌, ok, str_eq, ◌&&◌, err, ltb, all, none,
}
use kyriakon_infra.Dates.{Calendar, Date, received_beyond_window}
use kyriakon_infra.Base.Chars.{is_digit, utf8_len, in_range, codes, split_once}
use kyriakon_infra.Money.{pence, or_whole}
use kyriakon_infra.Store.Tokens.{is_payment_token}

-- `CreditIntent`, without `filed_at` and `sig`.
pub record CreditIntent : Type 0 where
  pub id : String
  pub kind : String
  pub token : String
  pub rail : String
  pub amount_gbp : String
  pub received : String
  pub txid : Option String
  pub amount_xmr : Option String
  pub confirm_double : Bool
  pub override_reason : Option String
  pub note : Option String

pub data Refusal : Type 0 where
  bad_rail bad_token bad_date too_far bad_txid bad_xmr no_amount not_in_pounds : Refusal

abbrev pub credit_rails : List String
credit_rails = "cash" ∷ "cash-hand" ∷ "monero" ∷ []

abbrev pub is_hex_digit : ℕ → Bool
is_hex_digit c = is_digit c || (in_range b'a' b'f' c || in_range b'A' b'F' c)

pub valid_txid : Option String → Bool
valid_txid none = true
valid_txid (some t) = utf8_len (codes t) == 64 && all is_hex_digit (codes t)

abbrev pub is_empty : List ℕ → Bool
is_empty [] = true
is_empty (c ∷ s) = false

pub valid_xmr : Option String → Bool
valid_xmr none = true
valid_xmr (some a) =
    let (whole, fraction) = or_whole (codes a) (split_once b'.' (codes a)) in
    not (is_empty whole)
    && (all is_digit whole && (leb (utf8_len fraction) 12 && all is_digit fraction))

-- The amount of a credit in pence: `pence`, and more than nothing.
pub credit_amount : String → Result Refusal ℕ
credit_amount text = elim (pence (codes text)) [
  | ok n ↦ if ltb 0 n then ok n else err no_amount
  | err e ↦ err not_in_pounds
]

-- `credit_fields`, on the day `today`; the tests in the order of the code.
pub credit_fields : Calendar → Date → CreditIntent → Result Refusal ℕ
credit_fields calendar today intent =
    if not (any (λ r. str_eq r intent.rail) credit_rails)
    then err bad_rail
    else if not (is_empty (codes intent.token)) && not (is_payment_token (codes intent.token))
    then err bad_token
    else elim (calendar.parse_date intent.received) [
      | none ↦ err bad_date
      | some received ↦
          if received_beyond_window calendar received today
          then err too_far
          else if not (valid_txid intent.txid)
          then err bad_txid
          else if not (valid_xmr intent.amount_xmr)
          then err bad_xmr
          else credit_amount intent.amount_gbp
    ]

pub record CreditMoney : Type 0 where
  pub applied : ℕ
  pub balance : ℕ
  pub paid : Bool

pub credit_money : ℕ → ℕ → ℕ → CreditMoney
credit_money price balance amount =
    let total = balance + amount in
    if leb price total
    then record { applied = price; balance = total - price; paid = true }
    else if leb ((price - total) * 100) price
    then record { applied = price; balance = 0; paid = true }
    else record { applied = 0; balance = total; paid = false }
