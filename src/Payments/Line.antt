-- ===== src/Payments/Line.antt =====
-- The ledger line of a credit (`append_credit_ledger` of onboard/src/transitions/payments.rs).
use kyriakon_infra.Base.{refl, ap}
use kyriakon_infra.Payments.{CreditIntent}
use kyriakon_infra.Base.{
  Option, String, some, if◌then◌else◌, List, str_eq, none, ℕ, ◌≡◌, ok, true, ◌∙◌, arith,
}
use kyriakon_infra.Ledger.{LedgerLine, empty_line, append, by_txid, last_payment, has_intent}
use kyriakon_infra.Ledger.Lookups.{numbered, has_intent-append, last_payment-append, by_txid-append}
use text.Mathlib.TextPositions.{eq_refl}

-- The quote of a window, `Monero`.
pub record Monero : Type 0 where
  pub rate_gbp_per_xmr : Option String
  pub rate_source : Option String
  pub rate_at : Option String

abbrev pub quote_field : (Monero → Option String) → Option Monero → Option String
quote_field field none = none
quote_field field (some m) = field m

-- The rate is recorded on the Monero rail alone.
abbrev pub quoted : CreditIntent → Option Monero → Option Monero
quoted intent monero = if str_eq intent.rail "monero" then monero else none

unfoldable pub credit_line :
    CreditIntent → Option Monero → String → String → String → Option String → LedgerLine
credit_line intent monero received_on amount_gbp applied_gbp paid_until_after =
    record (empty_line intent.token "payment" intent.rail) {
      received_on = some received_on;
      amount_gbp = some amount_gbp;
      applied_gbp = some applied_gbp;
      paid_until_after = paid_until_after;
      amount_xmr = intent.amount_xmr;
      rate_quoted = quote_field (λ m. m.rate_gbp_per_xmr) (quoted intent monero);
      rate_source = quote_field (λ m. m.rate_source) (quoted intent monero);
      rate_at = quote_field (λ m. m.rate_at) (quoted intent monero);
      txid = intent.txid;
      intent = some intent.id;
    }

pub append_credit_ledger :
    CreditIntent
    → Option Monero
    → String
    → String
    → String
    → Option String
    → List LedgerLine
    → List LedgerLine
append_credit_ledger intent monero received_on amount_gbp applied_gbp paid_until_after lines =
    (append (credit_line intent monero received_on amount_gbp applied_gbp paid_until_after) lines).1

abbrev pub or_earlier : Option String → String
or_earlier none = "an earlier date"
or_earlier (some date) = date

pub ledger_txid : String → List LedgerLine → Option (ℕ × String)
ledger_txid txid lines = elim (by_txid txid lines) [
  | none ↦ none
  | some line ↦ some (line.seq, or_earlier line.received_on)
]

-- Behind the line of a credit the ledger knows its intent, so that a replay stops there; it knows the
-- transaction, where the credit has one that was not there before, with the line's number and date; and
-- the token's last payment, where the ledger could tell it before, is this line, which a refund would
-- reverse.
pub credit_recorded :
    (intent : CreditIntent) (monero : Option Monero) (received_on amount applied : String)
    (until : Option String) (lines : List LedgerLine) (last : Option LedgerLine)
    → last_payment intent.token lines ≡ ok last
    → let after = append_credit_ledger intent monero received_on amount applied until lines in
      let line = numbered (credit_line intent monero received_on amount applied until) lines in
      (has_intent intent.id after ≡ true)
      × (last_payment intent.token after ≡ ok (some line))
      × ((txid : String)
          → intent.txid ≡ some txid
          → by_txid txid lines ≡ none
          → ledger_txid txid after ≡ some (line.seq, received_on))
unfolding append_credit_ledger ledger_txid credit_line
credit_recorded intent monero received_on amount applied until lines last h = (
  has_intent-append intent.id (credit_line intent monero received_on amount applied until) lines
      ∙ rw (eq_refl intent.id) (ground arith),
  last_payment-append intent.token amount
      (credit_line intent monero received_on amount applied until) lines last h
      (rw (eq_refl intent.token) (ground arith)) refl,
  λ txid t fresh.
      ap
        (λ o. elim o as (λ _. Option (ℕ × String)) [
          | none ↦ none
          | some line ↦ some (line.seq, or_earlier line.received_on)
        ])
        (by_txid-append txid (credit_line intent monero received_on amount applied until) lines
          fresh (rw t (eq_refl txid))),
)
