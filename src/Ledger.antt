-- ===== src/Ledger.antt =====
-- The ledger of money movements (onboard/src/ledger.rs). Its file is the list of its lines, all of
-- which parse; the lock is held throughout an append and a settlement, so each is one step.
pub mod Record
pub mod Numbers
pub mod Refunds
pub mod Settlement
pub mod Lookups
mod Tests
use kyriakon_infra.Base.{
  ℕ, zero, suc, ◌+◌, ◌%◌, ◌^◌, max, List, [], ◌∷◌, ◌++◌, Option, none, some, Bool, true, false,
  ◌&&◌, ◌||◌, ◌==◌, if◌then◌else◌, any, keep, String, str_eq, Result, ok, err,
}
use kyriakon_infra.Base.Chars.{codes}
use kyriakon_infra.Money.{pence}

pub record RefundTail : Type 0 where
  pub refund_of : Option ℕ
  pub settled_on : Option String
  pub refund_basis : Option String
  pub rate_refund : Option String

pub record LedgerLine : Type 0 where
  pub version : ℕ
  pub seq : ℕ
  pub token : String
  pub kind : String
  pub rail : String
  pub received_on : Option String
  pub amount_gbp : Option String
  pub applied_gbp : Option String
  pub paid_until_after : Option String
  pub amount_xmr : Option String
  pub rate_quoted : Option String
  pub rate_source : Option String
  pub rate_at : Option String
  pub txid : Option String
  pub intent : Option String
  pub note : Option String
  pub settled_intent : Option String
  pub refund : Option RefundTail

-- `LedgerLine::empty`
abbrev pub empty_line : String → String → String → LedgerLine
empty_line token kind rail = record {
  version = 1;
  seq = 0;
  token = token;
  kind = kind;
  rail = rail;
  received_on = none;
  amount_gbp = none;
  applied_gbp = none;
  paid_until_after = none;
  amount_xmr = none;
  rate_quoted = none;
  rate_source = none;
  rate_at = none;
  txid = none;
  intent = none;
  note = none;
  settled_intent = none;
  refund = none;
}

abbrev pub refund_of : LedgerLine → Option ℕ
refund_of line = elim line.refund [ none ↦ none | some tail ↦ tail.refund_of ]

abbrev pub settled_on : LedgerLine → Option String
settled_on line = elim line.refund [ none ↦ none | some tail ↦ tail.settled_on ]

pub data Error : Type 0 where
  payment_without_amount : Error
  refund_without_amount refund_unreadable : ℕ → Error

-- The pass over the lines for the highest number.
pub highest : ℕ → List LedgerLine → ℕ
highest last [] = last
highest last (seen ∷ lines) = highest (max last seen.seq) lines

-- `Ledger::append`: the number is a u64.
pub append : LedgerLine → List LedgerLine → ℕ × List LedgerLine
append line lines =
    let seq = (highest 0 lines + 1) % 2 ^ 64 in (seq, lines ++ record line { seq = seq } ∷ [])

abbrev pub is_of : String → String → LedgerLine → Bool
is_of token kind line = str_eq line.token token && str_eq line.kind kind

unfoldable pub last_payment_from :
    String → Option LedgerLine → List LedgerLine → Result Error (Option LedgerLine)
last_payment_from token found [] = ok found
last_payment_from token found (line ∷ lines) =
    let kept = last_payment_from token found lines in
    let taken = last_payment_from token (some line) lines in
    if is_of token "payment" line
    then elim line.amount_gbp [ none ↦ err payment_without_amount | some text ↦ taken ]
    else kept

unfoldable pub last_payment : String → List LedgerLine → Result Error (Option LedgerLine)
last_payment token lines = last_payment_from token none lines

unfoldable pub refunds : String → List LedgerLine → List LedgerLine
refunds token lines = keep (is_of token "refund") lines

pub record RefundSum : Type 0 where
  pub total : ℕ
  pub lines : List LedgerLine

-- `text.strip_prefix('-').unwrap_or(text)`
abbrev pub strip_minus : List ℕ → List ℕ
strip_minus [] = []
strip_minus (c ∷ s) = if c == b'-' then s else c ∷ s

unfoldable pub reverses : ℕ → LedgerLine → Bool
reverses original line = elim (refund_of line) [ none ↦ false | some n ↦ n == original ]

-- The pence of one refund, or what is wrong with it.
unfoldable pub refund_pence : LedgerLine → Result Error ℕ
refund_pence line = elim line.amount_gbp [
  | none ↦ err (refund_without_amount line.seq)
  | some text ↦ elim (pence (strip_minus (codes text))) [
    | ok n ↦ ok n
    | err e ↦ err (refund_unreadable line.seq)
  ]
]

-- The loop over the refunds. The total is an i64: each amount is below 10 ^ 11.
unfoldable pub sum_refunds : ℕ → RefundSum → List LedgerLine → Result Error RefundSum
sum_refunds original sum [] = ok sum
sum_refunds original sum (line ∷ lines) =
    let skipped = sum_refunds original sum lines in
    let counted = λ (n : ℕ).
      sum_refunds original (record { total = sum.total + n; lines = sum.lines ++ line ∷ [] })
        lines in
    if reverses original line
    then elim (refund_pence line) [ ok n ↦ counted n | err e ↦ err e ]
    else skipped

unfoldable pub refunded_total : String → ℕ → List LedgerLine → Result Error RefundSum
refunded_total token original lines =
    sum_refunds original (record { total = 0; lines = [] }) (refunds token lines)

abbrev pub is_text : String → Option String → Bool
is_text text none = false
is_text text (some t) = str_eq t text

pub settled_by : String → List LedgerLine → Bool
settled_by intent lines = any (λ l. is_text intent l.settled_intent) lines

unfoldable pub has_intent : String → List LedgerLine → Bool
has_intent intent lines = any (λ l. is_text intent l.intent) lines

pub has_window_open : String → List LedgerLine → Bool
has_window_open token lines = any (is_of token "window_open") lines

pub by_txid : String → List LedgerLine → Option LedgerLine
by_txid txid [] = none
by_txid txid (line ∷ lines) =
    let later = by_txid txid lines in if is_text txid line.txid then some line else later

abbrev pub is_none : Option String → Bool
is_none none = true
is_none (some t) = false

abbrev pub is_unsettled : String → LedgerLine → Bool
is_unsettled token line = is_of token "refund" line && is_none (settled_on line)

-- The loop of `unsettled_index`: the last such line, with its position.
pub unsettled_from :
    String → ℕ → Option (ℕ × LedgerLine) → List LedgerLine → Option (ℕ × LedgerLine)
unsettled_from token index found [] = found
unsettled_from token index found (line ∷ lines) =
    unsettled_from token (index + 1) (if is_unsettled token line then some (index, line) else found)
      lines

pub unsettled_index : String → List LedgerLine → Option (ℕ × LedgerLine)
unsettled_index token lines = unsettled_from token 0 none lines

-- The two fields set in the line's object; the other refund fields stay as they are.
pub settle_line : String → String → LedgerLine → LedgerLine
settle_line intent on line = record line {
  settled_intent = some intent;
  refund = elim line.refund [
    | none ↦
        some (record {
          refund_of = none;
          settled_on = some on;
          refund_basis = none;
          rate_refund = none;
        })
    | some tail ↦ some (record tail { settled_on = some on })
  ];
}

pub replace_at : ℕ → LedgerLine → List LedgerLine → List LedgerLine
replace_at i new [] = []
replace_at zero new (line ∷ lines) = new ∷ lines
replace_at (suc i) new (line ∷ lines) = line ∷ replace_at i new lines

pub settle_refund : String → String → String → List LedgerLine → Option ℕ × List LedgerLine
settle_refund token intent on lines = elim (unsettled_index token lines) [
  | none ↦ (none, lines)
  | some (index, settled) ↦
      (some settled.seq, replace_at index (settle_line intent on settled) lines)
]
