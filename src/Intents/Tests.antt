-- ===== src/Intents/Tests.antt =====
-- Intents with and without their proof (onboard/src/intents.rs).
use kyriakon_infra.Intents
use kyriakon_infra.Sign.{Text, Hmac}
use kyriakon_infra.Intents.{Evidence, verify, Intent, remove_group, run, kind}
use kyriakon_infra.Intents.Pass.{intent_id}
use kyriakon_infra.Transitions.World.{World}
use kyriakon_infra.Intents.Kinds.{arm_of, arms, removing, arm_of-kind}
use kyriakon_infra.Base.{
  some, List, ◌≡◌, length, ℕ, All, ◌⊎◌, ◌+◌, [], refl, ok, none, ◌%◌, Option, ◌∷◌, err, arith,
}
use kyriakon_infra.Intents.Proofs.{IsBacked, verify-IsBacked}
use kyriakon_infra.Transitions.Settle.{Envelope, nothing}
use kyriakon_infra.Base.Chars.{codes}
use kyriakon_infra.Store.{account_ref}
use kyriakon_infra.Base.Bytes.{IsByte}
use kyriakon_infra.Journal.{load}
use mathlib.Core.Path.{subst}
use kyriakon_infra.Intents.Carried.{run-IsBacked}

abbrev any_mac : Hmac
any_mac key = some (λ message. (length key + length message) % 256 ∷ [])

any_mac-IsByte : (k p : Text) (mac : Text → List ℕ) → any_mac k ≡ some mac → All IsByte (mac p)
any_mac-IsByte k p mac h = subst (λ m. All IsByte (m p)) (some_unique h) (omega arith, tt)
  where
    some_unique : {A : Type 0} {x y : A} → Path (Option A) (some x) (some y) → x ≡ y
    some_unique e = cc

abbrev evidence : Evidence
evidence = record {
  hmac = any_mac;
  sha256 = λ t. t;
  key = codes "k";
  sessions = [];
  proofs = [];
  now = 0;
  today = "2026-05-01";
  redacted = none;
}

-- `remove-group:ab` has 15 bytes, and the key one.
abbrev removal : Intent
removal = remove_group "ab" "10"

removal_proved : verify evidence removal ≡ ok none
unfolding verify kyriakon_infra.Sign.verify_bytes kyriakon_infra.Sign.sign_bytes
    kyriakon_infra.Sign.constant_eq kyriakon_infra.Sign.hex kyriakon_infra.Base.Chars.bytes
    kyriakon_infra.Sign.difference kyriakon_infra.Sign.or kyriakon_infra.Sign.xor
    kyriakon_infra.Sign.group_remove_payload
removal_proved = refl

verify-IsBacked_example : IsBacked evidence removal
verify-IsBacked_example = verify-IsBacked evidence any_mac-IsByte removal removal_proved

abbrev envelope : Envelope
envelope = record { id = "i1"; kind = "remove-group"; application = account_ref "" }

abbrev world : World ℕ
world = record {
  lines = [];
  index = load (λ s. none) [];
  intents = "i1.json" ∷ [];
  carried_out = [];
  faults = [];
}

run-IsBacked_example :
    IsBacked evidence (remove_group "ab" "11")
    ⊎ (run
          (λ s. none)
          "noon"
          "r1"
          evidence
          "i1.json"
          envelope
          (remove_group "ab" "11")
          (λ i v. (ok nothing, v))
          world
        ≡ run
            (λ s. none)
            "noon"
            "r1"
            evidence
            "i1.json"
            envelope
            (remove_group "ab" "11")
            (λ i v. (err "never", v))
            world)
run-IsBacked_example =
    run-IsBacked (λ s. none) "noon" "r1" evidence "i1.json" envelope (remove_group "ab" "11")
      (λ i v. (ok nothing, v)) (λ i v. (err "never", v)) world any_mac-IsByte

arm_of-kind_test : arm_of "remove-group" arms ≡ removing
arm_of-kind_test = unfold kind in arm_of-kind removal tt

id_test : intent_id "01ABC.json" ≡ "01ABC"
unfolding intent_id kyriakon_infra.Intents.Pass.strip_json
id_test = refl
