-- ===== src/Intents/Kinds.antt =====
-- The kind of an intent and its reader (`Intent::parse` and `Intent::kind` of onboard/src/intents.rs).
use kyriakon_infra.Intents.{
  Intent, kind, application, decision, password, provision_group, group_address, remove_group,
  close, resend, credit, window_extend, attribute, give_back, refund, export, change_password,
  upload_key, outside_address, serving, cancel_renewal, mail_key, unknown,
}
use kyriakon_infra.Base.{◌≡◌, List, String, ◌∷◌, ◌⊎◌, inl, [], if◌then◌else◌, ap, str_eq, inr, refl}

-- The variants, without what they carry.
pub data Verb : Type 0 where
  applying deciding set_password provisioning addressing removing closing resending crediting
        extending attributing returning refunding exporting changing_password setting_key
        setting_address setting_serving cancelling setting_mail_key not_known :
      Verb

-- The arms of `parse`, in their order.
abbrev pub arms : List (String × Verb)
arms =
    ("application", applying)
    ∷ ("approve", deciding)
    ∷ ("provision", deciding)
    ∷ ("decline", deciding)
    ∷ ("set-password", set_password)
    ∷ ("provision-group", provisioning)
    ∷ ("group-address", addressing)
    ∷ ("remove-group", removing)
    ∷ ("close", closing)
    ∷ ("token-resend", resending)
    ∷ ("credit", crediting)
    ∷ ("window-extend", extending)
    ∷ ("reconcile-attribute", attributing)
    ∷ ("reconcile-return", returning)
    ∷ ("refund", refunding)
    ∷ ("export", exporting)
    ∷ ("change-password", changing_password)
    ∷ ("upload-key", setting_key)
    ∷ ("outside-address", setting_address)
    ∷ ("serving", setting_serving)
    ∷ ("cancel-renewal", cancelling)
    ∷ ("mail-key", setting_mail_key)
    ∷ []

pub arm_of : String → List (String × Verb) → Verb
arm_of text [] = not_known
arm_of text ((k, v) ∷ rest) = let later = arm_of text rest in if str_eq k text then v else later

abbrev pub verb_of : Intent → Verb
verb_of application = applying
verb_of (decision d) = deciding
verb_of (password p) = set_password
verb_of (provision_group g sig) = provisioning
verb_of (group_address a) = addressing
verb_of (remove_group domain sig) = removing
verb_of (close p) = closing
verb_of (resend username token sig) = resending
verb_of (credit c) = crediting
verb_of (window_extend token days reason sig) = extending
verb_of (attribute a) = attributing
verb_of (give_back item note sig) = returning
verb_of (refund r) = refunding
verb_of (export p) = exporting
verb_of (change_password p hash) = changing_password
verb_of (upload_key p) = setting_key
verb_of (outside_address p) = setting_address
verb_of (serving p) = setting_serving
verb_of (cancel_renewal p) = cancelling
verb_of (mail_key p) = setting_mail_key
verb_of (unknown k) = not_known

-- A decision's kind is one of the three, and a kind that is not known has no arm.
abbrev pub IsFiled : Intent → Type 0
IsFiled (decision d) = (d.kind ≡ "approve") ⊎ (d.kind ≡ "provision") ⊎ (d.kind ≡ "decline")
IsFiled (unknown k) = arm_of k arms ≡ not_known
IsFiled _ = Unit

-- What is filed under a verb's kind is read as that verb.
pub arm_of-kind : (intent : Intent) → IsFiled intent → arm_of (kind intent) arms ≡ verb_of intent
unfolding kind arm_of
arm_of-kind application h = refl
arm_of-kind (decision d) (inl e) = ap (λ k. arm_of k arms) e
arm_of-kind (decision d) (inr (inl e)) = ap (λ k. arm_of k arms) e
arm_of-kind (decision d) (inr (inr e)) = ap (λ k. arm_of k arms) e
arm_of-kind (password p) h = refl
arm_of-kind (provision_group g sig) h = refl
arm_of-kind (group_address a) h = refl
arm_of-kind (remove_group domain sig) h = refl
arm_of-kind (close p) h = refl
arm_of-kind (resend username token sig) h = refl
arm_of-kind (credit c) h = refl
arm_of-kind (window_extend token days reason sig) h = refl
arm_of-kind (attribute a) h = refl
arm_of-kind (give_back item note sig) h = refl
arm_of-kind (refund r) h = refl
arm_of-kind (export p) h = refl
arm_of-kind (change_password p hash) h = refl
arm_of-kind (upload_key p) h = refl
arm_of-kind (outside_address p) h = refl
arm_of-kind (serving p) h = refl
arm_of-kind (cancel_renewal p) h = refl
arm_of-kind (mail_key p) h = refl
arm_of-kind (unknown k) h = h
