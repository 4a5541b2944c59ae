-- ===== src/Sign/Tests.antt =====
-- Signatures at work (onboard/src/sign.rs), under a digest of one byte.
use kyriakon_infra.Sign.Key.{read_key, strip_end}
use kyriakon_infra.Base.{
  some, [], length, refl, ◌+◌, none, List, ◌≡◌, ◌%◌, false, ℕ, ok, true, All, ◌∷◌, ◌↔◌, arith,
  Option,
}
use kyriakon_infra.Sign.{verify_bytes, sign_bytes, Hmac, Text, codes, hex, credit_payload}
use kyriakon_infra.Sign.Verbs.{verb, decide, signed_text-verb}
use kyriakon_infra.Sign.Group.{GroupIntent, group_provision_payload}
use kyriakon_infra.Base.Chars.{codes}
use kyriakon_infra.Base.Bytes.{IsByte}
use kyriakon_infra.Sign.Compare.{verify_bytes_iff}
use mathlib.Core.Path.{subst}
use kyriakon_infra.Sign.Credit.{Signed, IsSameCredit, IsShaped, credit_payload-IsSameCredit}
use kyriakon_infra.Sign.Group.Unique.{IsSameGroup, group_provision_payload-IsSameGroup}

abbrev short_mac : Hmac
short_mac key = some (λ message. (length key + length message) % 256 ∷ [])

-- The digest is one byte, whatever is signed.
short_mac-IsByte : (k p : Text) (mac : Text → List ℕ) → short_mac k ≡ some mac → All IsByte (mac p)
short_mac-IsByte k p mac h = subst (λ m. All IsByte (m p)) (some_unique h) (omega arith, tt)
  where
    some_unique : {A : Type 0} {x y : A} → Path (Option A) (some x) (some y) → x ≡ y
    some_unique e = cc

verify_bytes_iff_example :
    (verify_bytes short_mac (codes "k") (codes "abc") (codes "04") ≡ true)
    ↔ (sign_bytes short_mac (codes "k") (codes "abc") ≡ ok (codes "04"))
verify_bytes_iff_example =
    verify_bytes_iff short_mac (codes "k") (codes "abc") (codes "04") short_mac-IsByte
      (ground arith)

signature_of_four : sign_bytes short_mac (codes "k") (codes "abc") ≡ ok (codes "04")
unfolding sign_bytes hex
signature_of_four = refl

abbrev credit_a : Signed
credit_a = record {
  token = codes "KYR-0000-0000-0000";
  rail = codes "cash";
  amount_gbp = codes "24.00";
  received = codes "2026-01-02";
  txid = none;
  amount_xmr = none;
  confirm_double = false;
  override_reason = none;
  note = some (codes "by hand: in person");
}

abbrev credit_b : Signed
credit_b = record credit_a { override_reason = some [] }

credit_payload-IsSameCredit_example : IsSameCredit credit_a credit_b
unfolding credit_payload
credit_payload-IsSameCredit_example =
    credit_payload-IsSameCredit credit_a credit_b shaped_a shaped_b refl
  where
    shaped_a : IsShaped credit_a
    shaped_a = record {
      token = refl;
      rail = refl;
      amount_gbp = refl;
      received = refl;
      txid = refl;
      amount_xmr = refl;
    }

    shaped_b : IsShaped credit_b
    shaped_b = record {
      token = refl;
      rail = refl;
      amount_gbp = refl;
      received = refl;
      txid = refl;
      amount_xmr = refl;
    }

abbrev body : GroupIntent
body = record {
  username = codes "anna";
  status_token = none;
  domain = codes "a.example";
  name = codes "Choir";
  body_kind = codes "choir";
  payment = record {
    rail = codes "cash";
    no_charge = false;
    token_ref = none;
    window = some (record {
      opened_at = codes "o";
      closes_at = codes "c";
      state = codes "open";
      extensions = 1;
    });
    paid_until = none;
    stripe = record {
      subscription = none;
      customer = none;
      status = none;
      cancel_at_period_end = false;
      current_period_end = none;
      next_payment_attempt = none;
      failed_attempts = 0;
      last_invoice = none;
    };
  };
  addresses = record { address = codes "info"; mailbox = codes "anna" } ∷ [];
  mailboxes = codes "anna" ∷ [];
  site_owner = codes "anna";
  upload_key = [];
  mail_keys = [];
}

group_provision_payload-IsSameGroup_example :
    IsSameGroup body (record body { status_token = some [] })
unfolding group_provision_payload
group_provision_payload-IsSameGroup_example =
    group_provision_payload-IsSameGroup body (record body { status_token = some [] }) refl

signed_text-verb_example :
    verb (decide (codes "t") (codes "approve")) ≡ verb (decide (codes "t") (codes "approve"))
signed_text-verb_example =
    signed_text-verb (λ key. key) (decide (codes "t") (codes "approve"))
      (decide (codes "t") (codes "approve")) refl

read_key-append_test :
    read_key 0 (some (record { uid = 0; mode = 384; bytes = codes "secret\n" }))
    ≡ ok (codes "secret")
unfolding read_key strip_end
read_key-append_test = refl
