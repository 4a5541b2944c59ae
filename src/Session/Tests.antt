-- ===== src/Session/Tests.antt =====
-- A login, its session and its end (onboard/src/session.rs).
use kyriakon_infra.Session
use kyriakon_infra.Session.Proofs.{IsProved, verify_proof_iff}
use kyriakon_infra.Sign.{Text, Hmac}
use kyriakon_infra.Session.{
  Stamps, open_session, lookup, from_header, verify_proof, close, prune, cookie_name, File,
  OpenError, second, Record, whole, expiry,
}
use kyriakon_infra.Base.Chars.{codes}
use kyriakon_infra.Base.{
  ℕ, Result, some, [], ◌/◌, ◌*◌, ◌≡◌, length, refl, true, ◌+◌, ok, ◌∷◌, Option, none, ◌%◌,
  if◌then◌else◌, ◌↔◌, leb, arith, ap,
}
use kyriakon_infra.Store.Records.{Directory}
use kyriakon_infra.Session.Pruning.{lookup-prune}
use mathlib.Core.Path.{subst}
use kyriakon_infra.Session.Admission.{lookup-close, lookup-open_session}

-- A stamp is one byte per half day.
abbrev stamps : Stamps
stamps = record {
  format = λ t. some ((t / second) ∷ []);
  parse = λ s. elim s as (λ _. Option ℕ) [ [] ↦ none | c ∷ cs ↦ some (c * second) ];
}

abbrev any_mac : Hmac
any_mac key = some (λ message. (length key + length message) % 256 ∷ [])

abbrev noon : ℕ
noon = 12 * second

stamps_read_back :
    (s : ℕ) (t : Text) → stamps.format (s * second) ≡ some t → stamps.parse t ≡ some (s * second)
stamps_read_back s t h =
    subst (λ u. stamps.parse u ≡ some (s * second)) (some_unique h) (ap some (omega arith))
  where
    some_unique : {A : Type 0} {x y : A} → Path (Option A) (some x) (some y) → x ≡ y
    some_unique e = cc

abbrev opened : Result OpenError Text × Directory (File Record)
opened =
    open_session stamps any_mac (codes "anna") (codes "p") noon (λ n. true) (some 0) (some 1) true
      true []

abbrev the_cookie : Text
the_cookie = codes "00000000000000000000000000.34"

abbrev the_file : Directory (File Record)
the_file =
    (
      codes "00000000000000000000000000.json",
      whole (record {
        username = codes "anna";
        created_at = 12 ∷ [];
        expires_at = 43_212 ∷ [];
        secret = codes "00000000000000000000000001";
        proof = codes "p";
      }),
    )
    ∷ []

opened_lem : opened ≡ (ok the_cookie, the_file)
unfolding open_session Session.file_session kyriakon_infra.Store.Records.write_record
    kyriakon_infra.Store.Records.write_record_mode Session.json
    kyriakon_infra.Store.Tokens.crockford128 kyriakon_infra.Store.Tokens.symbols
    kyriakon_infra.Store.Tokens.symbol Session.prune Session.prune_each
    kyriakon_infra.Store.Records.list kyriakon_infra.Store.Records.put
    kyriakon_infra.Store.Records.ends_with kyriakon_infra.Store.Records.starts_with
    Session.cookie_value kyriakon_infra.Sign.sign_bytes kyriakon_infra.Sign.hex
    kyriakon_infra.Store.Records.sort
opened_lem = refl

lookup-open_session_example :
    lookup stamps any_mac the_file the_cookie (20_000 * second)
    ≡ (if leb (expiry noon) (20_000 * second) then none else some (codes "anna"))
lookup-open_session_example =
    lookup-open_session stamps any_mac (codes "anna") (codes "p") noon (λ n. true) (some 0) (some 1)
      true true [] the_file the_cookie (20_000 * second) stamps_read_back opened_lem

lookup-close_example :
    lookup stamps any_mac (close the_cookie true the_file) the_cookie (20_000 * second) ≡ none
lookup-close_example =
    lookup-close stamps any_mac the_file the_cookie the_cookie (20_000 * second) refl

lookup-prune_example :
    lookup stamps any_mac (prune stamps noon (λ n. true) the_file) the_cookie noon
    ≡ lookup stamps any_mac the_file the_cookie noon
lookup-prune_example =
    lookup-prune stamps any_mac (λ n. true) the_file the_cookie noon noon (omega arith)

verify_proof_iff_example :
    (verify_proof [] (codes "ab") (codes "anna") noon ≡ ok tt)
    ↔ IsProved [] (codes "ab") (codes "anna") noon
verify_proof_iff_example = verify_proof_iff [] (codes "ab") (codes "anna") noon

from_header_test :
    from_header (codes "a=b; kyriakon_session=xyz; c") cookie_name ≡ some (codes "xyz")
unfolding from_header Session.first_some kyriakon_infra.Base.Chars.split Session.from_pair
    kyriakon_infra.Base.Chars.split_once kyriakon_infra.Base.Chars.trim
from_header_test = refl
