-- ===== src/Intents/Proofs.antt =====
-- What stands behind an intent that the drain carries out (`Intent::verify` of onboard/src/intents.rs).
use kyriakon_infra.Session.Proofs.{IsProved}
use kyriakon_infra.Session.{File, json, unreadable, damaged, whole, is_proof_token}
use kyriakon_infra.Store.Records.{read_record}
use kyriakon_infra.Passwords
use kyriakon_infra.Session.Proofs.{verify_proof_iff}
use kyriakon_infra.Intents.{
  Intent, Evidence, Page, DecisionIntent, PasswordIntent, application, decision, password,
  provision_group, group_address, remove_group, close, resend, credit, window_extend, attribute,
  give_back, refund, export, change_password, upload_key, outside_address, serving, cancel_renewal,
  mail_key, unknown, decision_proved, page_proved, password_problem, verify,
}
use kyriakon_infra.Sign.Compare.{verify_bytes_iff}
use kyriakon_infra.Validate.Names.{IsName, username_shape-IsName}
use kyriakon_infra.Base.Texts.{bytes-IsByte}
use kyriakon_infra.Intents.{
  Evidence, Text, Intent, Page, PasswordIntent, session_proved, DecisionIntent, verify_session,
  is_name, decision, signed, proves, fails, password, provision_group, decision_for_kind, or_blank,
  before, group_address, decisions, address_text, remove_group, proof_token, close, resend, credit,
  credit_text, window_extend, attribute, attribute_text, give_back, refund, refund_text, export,
  change_password, upload_key, outside_address, serving, cancel_renewal, mail_key, unknown,
}
use kyriakon_infra.Base.{
  [], Option, String, ◌≡◌, List, ok, true, ℕ, false, some, Option-cases, All, none, Bool-cases, inl,
  inr, arith, Result-cases, str_eq, ◌∙◌, ap, sym, eq_iff, refl,
}
use kyriakon_infra.Base.Chars.{codes, bytes}
use kyriakon_infra.Sign.{
  sign_bytes, password_payload, decide_payload, group_remove_payload, resend_payload,
  window_extend_payload, reconcile_return_payload,
}
use kyriakon_infra.Store.Tokens.{is_status_token}
use kyriakon_infra.Base.Bytes.{IsByte}
use kyriakon_infra.Sign.Group.{group_provision_payload}
use kyriakon_infra.Validate.{username_shape}
use kyriakon_infra.Session.{verify_proof}

module _ (ev : Evidence) where
  -- The signature that the key makes for the text.
  abbrev pub IsSigned : Text → String → Type 0
  IsSigned text sig = sign_bytes ev.hmac ev.key text ≡ ok (bytes sig)

  -- A live session of the account: the record of the very session that the intent names, which the handler
  -- wrote, names a file that root wrote, and that file proves a login of the account.
  pub record IsSession (page : Page) : Type 0 where
    pub named : IsName (codes page.username)
    pub shaped : is_status_token (bytes page.session) ≡ true
    pub token : Text
    pub recorded : read_record (json (bytes page.session)) ev.sessions ≡ some (whole (some token))
    pub proved : IsProved ev.proofs token (bytes page.username) ev.now

  pub record IsDecision (d : DecisionIntent) : Type 0 where
    pub token : String
    pub found : d.status_token ≡ some token
    pub shaped : is_status_token (bytes token) ≡ true
    pub named : IsName (codes d.username)
    pub matches : decision_for_kind d.kind decisions ≡ some d.action
    pub signed_by : IsSigned (decide_payload (bytes token) (bytes d.action)) d.sig

  pub record IsPassword (p : PasswordIntent) : Type 0 where
    pub plain : p.carries_hash ≡ false
    pub signed_by :
        IsSigned (password_payload (bytes (or_blank p.status_token)) (bytes p.until)) p.sig
    pub in_time : before (bytes ev.today) (bytes p.until) ≡ true
    pub fits : Passwords.validate (codes p.password) ≡ none

  -- What each verb has behind it; an unknown one has nothing.
  abbrev pub IsBacked : Intent → Type 0
  IsBacked application = Unit
  IsBacked (decision d) = IsDecision d
  IsBacked (password p) = IsPassword p
  IsBacked (provision_group g sig) = IsSigned (group_provision_payload g) sig
  IsBacked (group_address a) = IsSigned (address_text ev.sha256 a) a.sig
  IsBacked (remove_group domain sig) = IsSigned (group_remove_payload (bytes domain)) sig
  IsBacked (close page) = IsSession page
  IsBacked (resend username token sig) =
      IsSigned (resend_payload (bytes username) (bytes token)) sig
  IsBacked (credit c) = IsSigned (credit_text c) c.sig
  IsBacked (window_extend token days reason sig) =
      IsSigned (window_extend_payload (bytes token) days (bytes reason)) sig
  IsBacked (attribute a) = IsSigned (attribute_text a) a.sig
  IsBacked (give_back item note sig) =
      IsSigned (reconcile_return_payload (bytes item) (bytes note)) sig
  IsBacked (refund r) = IsSigned (refund_text r) r.sig
  IsBacked (export page) = IsSession page
  IsBacked (change_password page hash) = IsSession page × (hash ≡ false)
  IsBacked (upload_key page) = IsSession page
  IsBacked (outside_address page) = IsSession page
  IsBacked (serving page) = IsSession page
  IsBacked (cancel_renewal page) = IsSession page
  IsBacked (mail_key page) = IsSession page
  IsBacked (unknown k) = ⊥

  -- The digests are bytes, as the crate's are.
  abbrev pub ByteDigests : Type 0
  ByteDigests = (k p : Text) (mac : Text → List ℕ) → ev.hmac k ≡ some mac → All IsByte (mac p)

  module _ (digests : ByteDigests) where
    signed-IsSigned : (text : Text) (sig : String) → signed ev text sig ≡ true → IsSigned text sig
    signed-IsSigned text sig h =
        (verify_bytes_iff ev.hmac ev.key text (bytes sig) digests (bytes-IsByte sig)).0 h

    fails-IsSigned :
        (text : Text) (sig why : String)
        → fails (signed ev text sig) why ≡ ok none
        → IsSigned text sig
    fails-IsSigned text sig why h = elim (Bool-cases (signed ev text sig)) [
      | inl e ↦ signed-IsSigned text sig e
      | inr e ↦ absurd (ground (arith, e))
    ]

    proves-IsSigned :
        (text : Text) (sig why : String)
        → proves (signed ev text sig) why ≡ ok none
        → IsSigned text sig
    proves-IsSigned text sig why h = elim (Bool-cases (signed ev text sig)) [
      | inl e ↦ signed-IsSigned text sig e
      | inr e ↦ absurd (ground (arith, e))
    ]

  is_name-IsName : (username : String) → is_name ev username ≡ true → IsName (codes username)
  is_name-IsName username h = elim (Option-cases (username_shape (codes username))) [
    | inl e ↦ username_shape-IsName (codes username) e
    | inr (why, e) ↦ absurd (ground (arith, e))
  ]

  is_proof_token-nil : is_proof_token [] ≡ false
  unfolding is_proof_token
  is_proof_token-nil = refl

  -- A session without a proof in its record has none.
  proof_token-recorded :
      (id token : Text)
      → is_proof_token token ≡ true
      → proof_token ev id ≡ ok token
      → read_record (json id) ev.sessions ≡ some (whole (some token))
  unfolding proof_token
  proof_token-recorded id token shaped h = go (read_record (json id) ev.sessions) refl
    where
      go :
          (o : Option (File (Option Text)))
          → read_record (json id) ev.sessions ≡ o
          → read_record (json id) ev.sessions ≡ some (whole (some token))
      go none e = absurd (ground (arith, e))
      go (some unreadable) e = absurd (ground (arith, e))
      go (some damaged) e = absurd (ground (arith, e))
      go (some (whole none)) e = ground (arith, e, is_proof_token-nil)
      go (some (whole (some proof))) e = ground (arith, e)

  session_proved-IsSession :
      (page : Page)
      → IsName (codes page.username)
      → session_proved ev page ≡ ok none
      → IsSession page
  unfolding session_proved verify_session
  session_proved-IsSession page named h = elim (Bool-cases (is_status_token (bytes page.session))) [
    | inr e ↦ absurd (ground (arith, e))
    | inl e ↦ elim (Result-cases (proof_token ev (bytes page.session))) [
      | inr (x, f) ↦ absurd (ground (arith, e, f))
      | inl (token, f) ↦
          elim (Result-cases (verify_proof ev.proofs token (bytes page.username) ev.now)) [
            | inr (x, g) ↦ absurd (ground (arith, e, f, g))
            | inl (u, g) ↦
                let proved : IsProved ev.proofs token (bytes page.username) ev.now =
                  (verify_proof_iff ev.proofs token (bytes page.username) ev.now).0 g in
                record {
                  named = named;
                  shaped = e;
                  token = token;
                  recorded = proof_token-recorded (bytes page.session) token proved.shaped f;
                  proved = proved;
                }
          ]
    ]
  ]

  page_proved-IsSession : (page : Page) → page_proved ev page ≡ ok none → IsSession page
  unfolding page_proved
  page_proved-IsSession page h = elim (Bool-cases (is_name ev page.username)) [
    | inr e ↦ absurd (ground (arith, e))
    | inl e ↦
        session_proved-IsSession page (is_name-IsName page.username e) (rw (e, page_proved) at h)
  ]

  decision_proved-IsDecision :
      ByteDigests → (d : DecisionIntent) → decision_proved ev d ≡ ok none → IsDecision d
  unfolding decision_proved
  decision_proved-IsDecision digests d h = elim (Option-cases d.status_token) [
    | inl e ↦ absurd (ground (arith, e))
    | inr (token, e) ↦ elim (Bool-cases (is_status_token (bytes token))) [
      | inr f ↦ absurd (ground (arith, e, f))
      | inl f ↦ elim (Bool-cases (is_name ev d.username)) [
        | inr g ↦ absurd (ground (arith, e, f, g))
        | inl g ↦ elim (Option-cases (decision_for_kind d.kind decisions)) [
          | inl k ↦ absurd (ground (arith, e, f, g, k))
          | inr (action, k) ↦ elim (Bool-cases (str_eq d.action action)) [
            | inr m ↦ absurd (ground (arith, e, f, g, k, m))
            | inl m ↦
                elim (Bool-cases
                  (signed ev (decide_payload (bytes token) (bytes d.action)) d.sig)) [
                    | inr n ↦ absurd (ground (arith, e, f, g, k, m, n))
                    | inl n ↦ record {
                      token = token;
                      found = e;
                      shaped = f;
                      named = is_name-IsName d.username g;
                      matches = k ∙ ap some (sym ((eq_iff d.action action).0 m));
                      signed_by =
                          signed-IsSigned digests (decide_payload (bytes token) (bytes d.action))
                            d.sig n;
                    }
                  ]
          ]
        ]
      ]
    ]
  ]

  password_problem-IsPassword :
      ByteDigests → (p : PasswordIntent) → password_problem ev p ≡ none → IsPassword p
  unfolding password_problem
  password_problem-IsPassword digests p h = elim (Bool-cases p.carries_hash) [
    | inl e ↦ absurd (ground (arith, e))
    | inr e ↦
        let text = password_payload (bytes (or_blank p.status_token)) (bytes p.until) in
        elim (Bool-cases (signed ev text p.sig)) [
          | inr f ↦ absurd (ground (arith, e, f))
          | inl f ↦ elim (Bool-cases (before (bytes ev.today) (bytes p.until))) [
            | inr g ↦ absurd (ground (arith, e, f, g))
            | inl g ↦ elim (Option-cases (Passwords.validate (codes p.password))) [
              | inr (problem, k) ↦ absurd (ground (arith, e, f, g, k))
              | inl k ↦ record {
                plain = e;
                signed_by = signed-IsSigned digests text p.sig f;
                in_time = g;
                fits = k;
              }
            ]
          ]
        ]
  ]

  -- An intent that the drain finds proved has the proof of its kind. The verbs of the operator, the link of
  -- a decision and the link of a password have the key's own signature over the payload of the verb: for
  -- a decision the status token and the action, which is the one of its kind; for a password the status
  -- token and the date, which has not passed, of a password that fits and comes without a hash. A page's
  -- verb has the session that the intent names, whose record names a live login of the account, and a
  -- change of password comes without a hash. An application needs nothing, and a kind that is not
  -- known is never proved. The digests are bytes.
  pub verify-IsBacked :
      ByteDigests → (intent : Intent) → verify ev intent ≡ ok none → IsBacked intent
  unfolding verify
  verify-IsBacked digests application h = tt
  verify-IsBacked digests (decision d) h = decision_proved-IsDecision digests d h
  verify-IsBacked digests (password p) h = elim (Option-cases (password_problem ev p)) [
    | inl e ↦ password_problem-IsPassword digests p e
    | inr (why, e) ↦ absurd (ground (arith, e))
  ]
  verify-IsBacked digests (provision_group g sig) h =
      fails-IsSigned digests (group_provision_payload g) sig _ h
  verify-IsBacked digests (group_address a) h =
      fails-IsSigned digests (address_text ev.sha256 a) a.sig _ h
  verify-IsBacked digests (remove_group domain sig) h =
      fails-IsSigned digests (group_remove_payload (bytes domain)) sig _ h
  verify-IsBacked digests (close page) h = elim (Bool-cases (is_name ev page.username)) [
    | inr e ↦ absurd (ground (arith, e))
    | inl e ↦ session_proved-IsSession page (is_name-IsName page.username e) (rw (e, verify) at h)
  ]
  verify-IsBacked digests (resend username token sig) h =
      fails-IsSigned digests (resend_payload (bytes username) (bytes token)) sig _ h
  verify-IsBacked digests (credit c) h = proves-IsSigned digests (credit_text c) c.sig _ h
  verify-IsBacked digests (window_extend token days reason sig) h =
      proves-IsSigned digests (window_extend_payload (bytes token) days (bytes reason)) sig _ h
  verify-IsBacked digests (attribute a) h = proves-IsSigned digests (attribute_text a) a.sig _ h
  verify-IsBacked digests (give_back item note sig) h =
      proves-IsSigned digests (reconcile_return_payload (bytes item) (bytes note)) sig _ h
  verify-IsBacked digests (refund r) h = proves-IsSigned digests (refund_text r) r.sig _ h
  verify-IsBacked digests (export page) h = elim (Bool-cases (is_name ev page.username)) [
    | inr e ↦ absurd (ground (arith, e))
    | inl e ↦ session_proved-IsSession page (is_name-IsName page.username e) (rw (e, verify) at h)
  ]
  verify-IsBacked digests (change_password page true) h = absurd cc
  verify-IsBacked digests (change_password page false) h = (page_proved-IsSession page h, refl)
  verify-IsBacked digests (upload_key page) h = page_proved-IsSession page h
  verify-IsBacked digests (outside_address page) h = page_proved-IsSession page h
  verify-IsBacked digests (serving page) h = page_proved-IsSession page h
  verify-IsBacked digests (cancel_renewal page) h = page_proved-IsSession page h
  verify-IsBacked digests (mail_key page) h = page_proved-IsSession page h
  verify-IsBacked digests (unknown k) h = absurd cc
