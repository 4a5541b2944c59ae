-- ===== src/Sign/Verbs.antt =====
-- What is signed for one purpose says so: the payloads of onboard/src/sign.rs, all of them.
use kyriakon_infra.Sign.{
  Text, decide_payload, password_payload, address_payload, group_remove_payload, resend_payload,
  window_extend_payload, reconcile_attribute_payload, reconcile_return_payload, refund_payload,
  credit_payload,
}
use kyriakon_infra.Sign.Credit.{Signed, payload}
use kyriakon_infra.Sign.Group.{GroupIntent, group_provision_payload}
use kyriakon_infra.Sign.Delimited.{cut_unique}
use kyriakon_infra.Base.{ℕ, List, ◌∷◌, ◌++◌, Option, Bool, ◌≡◌, refl, ◌∙◌, sym}
use kyriakon_infra.Base.Pieces.{IsFree}
use kyriakon_infra.Base.Chars.{codes}

-- Everything that the key is used for.
pub data Request : Type 0 where
  decide password resend give_back : Text → Text → Request
  group_remove : Text → Request
  address : Text → Text → Text → Text → Text → Text → Request
  credit : Signed → Request
  provision : GroupIntent → Request
  window_extend : Text → ℕ → Text → Request
  attribute : Text → Text → Bool → Option Text → Request
  refund : Text → Text → Text → Bool → Bool → Text → Text → Text → Request

abbrev pub verb : Request → Text
verb (decide token action) = codes "decide"
verb (password token until) = codes "password"
verb (resend username token) = codes "resend"
verb (give_back item note) = codes "reconcile-return"
verb (group_remove domain) = codes "remove-group"
verb (address domain action localpart mailbox owner key) = codes "address"
verb (credit c) = codes "credit"
verb (provision intent) = codes "provision-group"
verb (window_extend token days reason) = codes "window-extend"
verb (attribute item token double reason) = codes "reconcile-attribute"
verb (refund token amount rail close excess rate settled reason) = codes "refund"

module _ (sha256 : Text → List ℕ) where
  pub signed_text : Request → Text
  signed_text (decide token action) = decide_payload token action
  signed_text (password token until) = password_payload token until
  signed_text (resend username token) = resend_payload username token
  signed_text (give_back item note) = reconcile_return_payload item note
  signed_text (group_remove domain) = group_remove_payload domain
  signed_text (address domain action localpart mailbox owner key) =
      address_payload sha256 domain action localpart mailbox owner key
  signed_text (credit c) = payload c
  signed_text (provision intent) = group_provision_payload intent
  signed_text (window_extend token days reason) = window_extend_payload token days reason
  signed_text (attribute item token double reason) =
      reconcile_attribute_payload item token double reason
  signed_text (refund token amount rail close excess rate settled reason) =
      refund_payload token amount rail close excess rate settled reason

  -- A payload is its verb, which holds no colon, and the fields after a colon.
  leads :
      (r : Request) → (rest : Text) × (signed_text r ≡ verb r ++ b':' ∷ rest) × IsFree b':' (verb r)
  unfolding signed_text decide_payload password_payload resend_payload reconcile_return_payload
      group_remove_payload address_payload credit_payload group_provision_payload
      window_extend_payload reconcile_attribute_payload refund_payload
  leads (decide token action) = (_, refl, refl)
  leads (password token until) = (_, refl, refl)
  leads (resend username token) = (_, refl, refl)
  leads (give_back item note) = (_, refl, refl)
  leads (group_remove domain) = (_, refl, refl)
  leads (address domain action localpart mailbox owner key) = (_, refl, refl)
  leads (credit c) = (_, refl, refl)
  leads (provision intent) = (_, refl, refl)
  leads (window_extend token days reason) = (_, refl, refl)
  leads (attribute item token double reason) = (_, refl, refl)
  leads (refund token amount rail close excess rate settled reason) = (_, refl, refl)

  -- Two requests with one payload have one verb: what is signed for one purpose is never the text of
  -- another, whatever their fields hold.
  pub signed_text-verb : (a b : Request) → signed_text a ≡ signed_text b → verb a ≡ verb b
  signed_text-verb a b h =
      let (s, p, hs) = leads a in
      let (t, q, ht) = leads b in
      let both = cut_unique b':' (verb a) (verb b) s t hs ht (sym p ∙ (h ∙ q)) in both.0
