-- ===== src/Ledger/Record.antt =====
-- How a line reads back (`LedgerLineRecord` and its `Deserialize` of onboard/src/ledger.rs): on disk the
-- four fields of a refund stand beside the others.
use kyriakon_infra.Ledger.{LedgerLine, RefundTail}
use kyriakon_infra.Base.{
  ℕ, ◌≢◌, none, Option, Bool, String, ◌≡◌, some, false, if◌then◌else◌, ap, refl, true, ◌||◌,
}

pub record LedgerLineRecord : Type 0 where
  pub version : ℕ
  pub seq : ℕ
  pub token : String
  pub kind : String
  pub rail : String
  pub received_on : Option String
  pub amount_gbp : Option String
  pub applied_gbp : Option String
  pub paid_until_after : Option String
  pub amount_xmr : Option String
  pub rate_quoted : Option String
  pub rate_source : Option String
  pub rate_at : Option String
  pub txid : Option String
  pub intent : Option String
  pub note : Option String
  pub settled_intent : Option String
  pub refund_of : Option ℕ
  pub settled_on : Option String
  pub refund_basis : Option String
  pub rate_refund : Option String

abbrev pub is_some {ℓ} : {A : Type ℓ} → Option A → Bool
is_some none = false
is_some (some a) = true

-- The block is there if one of its fields is.
pub tail_of : Option ℕ → Option String → Option String → Option String → Option RefundTail
tail_of reversed on basis rate =
    if is_some reversed || (is_some on || (is_some basis || is_some rate))
    then some
        (record { refund_of = reversed; settled_on = on; refund_basis = basis; rate_refund = rate })
    else none

pub deserialize : LedgerLineRecord → LedgerLine
deserialize raw = record {
  version = raw.version;
  seq = raw.seq;
  token = raw.token;
  kind = raw.kind;
  rail = raw.rail;
  received_on = raw.received_on;
  amount_gbp = raw.amount_gbp;
  applied_gbp = raw.applied_gbp;
  paid_until_after = raw.paid_until_after;
  amount_xmr = raw.amount_xmr;
  rate_quoted = raw.rate_quoted;
  rate_source = raw.rate_source;
  rate_at = raw.rate_at;
  txid = raw.txid;
  intent = raw.intent;
  note = raw.note;
  settled_intent = raw.settled_intent;
  refund = tail_of raw.refund_of raw.settled_on raw.refund_basis raw.rate_refund;
}

abbrev tail_field {ℓ} : {A : Type ℓ} → (RefundTail → Option A) → Option RefundTail → Option A
tail_field field none = none
tail_field field (some tail) = field tail

-- The derived `Serialize`: the refund's block is flattened, and absent keys read as none.
pub serialize : LedgerLine → LedgerLineRecord
serialize line = record {
  version = line.version;
  seq = line.seq;
  token = line.token;
  kind = line.kind;
  rail = line.rail;
  received_on = line.received_on;
  amount_gbp = line.amount_gbp;
  applied_gbp = line.applied_gbp;
  paid_until_after = line.paid_until_after;
  amount_xmr = line.amount_xmr;
  rate_quoted = line.rate_quoted;
  rate_source = line.rate_source;
  rate_at = line.rate_at;
  txid = line.txid;
  intent = line.intent;
  note = line.note;
  settled_intent = line.settled_intent;
  refund_of = tail_field (λ t. t.refund_of) line.refund;
  settled_on = tail_field (λ t. t.settled_on) line.refund;
  refund_basis = tail_field (λ t. t.refund_basis) line.refund;
  rate_refund = tail_field (λ t. t.rate_refund) line.refund;
}

-- The one line that does not read back as itself: a refund block with nothing in it.
abbrev pub empty_tail : RefundTail
empty_tail = record { refund_of = none; settled_on = none; refund_basis = none; rate_refund = none }

abbrev tail : Option ℕ → Option String → Option String → Option String → RefundTail
tail a b c d = record { refund_of = a; settled_on = b; refund_basis = c; rate_refund = d }

tail_of_lem :
    (a : Option ℕ) (b c d : Option String)
    → tail a b c d ≢ empty_tail
    → tail_of a b c d ≡ some (tail a b c d)
unfolding tail_of
tail_of_lem (some a) b c d p = refl
tail_of_lem none (some b) c d p = refl
tail_of_lem none none (some c) d p = refl
tail_of_lem none none none (some d) p = refl
tail_of_lem none none none none p = absurd (p refl)

-- A line that is written and read again is the same line, unless it has a refund block with nothing
-- in it; a payment, which has none, gains none.
pub deserialize-serialize :
    (line : LedgerLine) → line.refund ≢ some empty_tail → deserialize (serialize line) ≡ line
unfolding deserialize serialize
deserialize-serialize line h = go line.refund h
  where
    go :
        (r : Option RefundTail)
        → r ≢ some empty_tail
        → (record line {
          refund =
              tail_of
                (tail_field (λ t. t.refund_of) r)
                (tail_field (λ t. t.settled_on) r)
                (tail_field (λ t. t.refund_basis) r)
                (tail_field (λ t. t.rate_refund) r);
        })
          ≡ record line { refund = r }
    go none p = unfold tail_of in refl
    go (some t) p =
        ap (λ x. record line { refund = x })
          (tail_of_lem t.refund_of t.settled_on t.refund_basis t.rate_refund (λ e. p (ap some e)))
