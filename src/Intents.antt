-- ===== src/Intents.antt =====
-- The intents that the drain reads (onboard/src/intents.rs): their kinds, what proves each, and the one seam
-- that carries it out. Of a payload only what the proof and the disposition read is kept; what an intent does
-- beyond it is the action `body`. A signature covers the bytes of a text.
pub mod Proofs
pub mod Kinds
pub mod Carried
pub mod Pass
mod Tests
use kyriakon_infra.Base.Chars.{codes, bytes}
use kyriakon_infra.Sign.{
  Text, Hmac, verify_bytes, decide_payload, password_payload, address_payload, group_remove_payload,
  resend_payload, credit_payload, window_extend_payload, reconcile_attribute_payload,
  reconcile_return_payload, refund_payload,
}
use kyriakon_infra.Sign.Group.{GroupIntent, group_provision_payload}
use kyriakon_infra.Session.{File, Record, Proof, verify_proof, json, unreadable, damaged, whole}
use kyriakon_infra.Store.Records.{Directory, read_record, before, list}
use kyriakon_infra.Store.Tokens.{is_status_token}
use kyriakon_infra.Validate.{username_shape}
use kyriakon_infra.Passwords
use kyriakon_infra.Transitions.World.{
  World, Action, AfterLine, nothing_owed, remove_group_record, mark_attributed,
}
use kyriakon_infra.Transitions.Settle.{
  Envelope, Settlement, Disposition, RefusalFile, keep_file, remove_file, refused, settle,
}
use Prim.Native.String.{String, []}
use kyriakon_infra.Base.{
  List, Option, String, ℕ, Bool, ◌∷◌, none, [], if◌then◌else◌, str_eq, some, true, not, ok, err,
  Result, false,
}

-- What a page action is proved by.
pub record Page : Type 0 where
  pub username : String
  pub session : String

pub record DecisionIntent : Type 0 where
  pub kind : String
  pub status_token : Option String
  pub username : String
  pub action : String
  pub sig : String

pub record PasswordIntent : Type 0 where
  pub status_token : Option String
  pub until : String
  pub password : String
  pub carries_hash : Bool
  pub sig : String

pub record AddressIntent : Type 0 where
  pub domain : String
  pub action : String
  pub address : String
  pub mailbox : String
  pub site_owner : Option String
  pub mail_key : Option String
  pub sig : String

pub record CreditFields : Type 0 where
  pub token : String
  pub rail : String
  pub amount_gbp : String
  pub received : String
  pub txid : Option String
  pub amount_xmr : Option String
  pub confirm_double : Bool
  pub override_reason : Option String
  pub note : Option String
  pub sig : String

pub record AttributeIntent : Type 0 where
  pub item : String
  pub token : String
  pub confirm_double : Bool
  pub override_reason : Option String
  pub sig : String

pub record RefundFields : Type 0 where
  pub token : String
  pub amount_gbp : Option String
  pub rail : Option String
  pub close : Bool
  pub excess : Bool
  pub rate : Option String
  pub settled_on : Option String
  pub reason : Option String
  pub sig : String

pub data Intent : Type 0 where
  application : Intent
  decision : DecisionIntent → Intent
  password : PasswordIntent → Intent
  provision_group : GroupIntent → String → Intent
  group_address : AddressIntent → Intent
  remove_group : String → String → Intent
  close : Page → Intent
  resend : String → String → String → Intent
  credit : CreditFields → Intent
  window_extend : String → ℕ → String → String → Intent
  attribute : AttributeIntent → Intent
  give_back : String → String → String → Intent
  refund : RefundFields → Intent
  export : Page → Intent
  change_password : Page → Bool → Intent
  upload_key outside_address serving cancel_renewal mail_key : Page → Intent
  unknown : String → Intent

-- `Intent::kind`
unfoldable pub kind : Intent → String
kind application = "application"
kind (decision d) = d.kind
kind (password p) = "set-password"
kind (provision_group g sig) = "provision-group"
kind (group_address a) = "group-address"
kind (remove_group domain sig) = "remove-group"
kind (close p) = "close"
kind (resend username token sig) = "token-resend"
kind (credit c) = "credit"
kind (window_extend token days reason sig) = "window-extend"
kind (attribute a) = "reconcile-attribute"
kind (give_back item note sig) = "reconcile-return"
kind (refund r) = "refund"
kind (export p) = "export"
kind (change_password p hash) = "change-password"
kind (upload_key p) = "upload-key"
kind (outside_address p) = "outside-address"
kind (serving p) = "serving"
kind (cancel_renewal p) = "cancel-renewal"
kind (mail_key p) = "mail-key"
kind (unknown k) = k

-- The rows of `DECISIONS`: the kind, and the action that its signature covers.
abbrev pub decisions : List (String × String)
decisions = ("approve", "approve") ∷ ("provision", "approve-free") ∷ ("decline", "decline") ∷ []

unfoldable pub decision_for_kind : String → List (String × String) → Option String
decision_for_kind kind [] = none
decision_for_kind kind ((k, action) ∷ rows) =
    let later = decision_for_kind kind rows in if str_eq k kind then some action else later

-- `Intent::disposition`
unfoldable pub after_line : Intent → AfterLine
after_line (remove_group domain sig) = remove_group_record domain
after_line (attribute a) = mark_attributed a.item a.token
after_line _ = nothing_owed

unfoldable pub refusal_file : Intent → RefusalFile
refusal_file (change_password p hash) = remove_file
refusal_file (upload_key p) = remove_file
refusal_file (outside_address p) = remove_file
refusal_file (serving p) = remove_file
refusal_file (cancel_renewal p) = remove_file
refusal_file (mail_key p) = remove_file
refusal_file (close p) = remove_file
refusal_file (export p) = remove_file
refusal_file _ = keep_file

unfoldable pub disposition : Intent → Disposition
disposition intent = record { after = after_line intent; refusal = refusal_file intent }

abbrev pub or_blank : Option String → String
or_blank none = ""
or_blank (some t) = t

abbrev pub bytes_of : Option String → Option Text
bytes_of none = none
bytes_of (some t) = some (bytes t)

-- What a verb's own text and its signature are.
unfoldable pub credit_text : CreditFields → Text
credit_text c =
    credit_payload (bytes c.token) (bytes c.rail) (bytes c.amount_gbp) (bytes c.received)
      (bytes_of c.txid) (bytes_of c.amount_xmr) c.confirm_double (bytes_of c.override_reason)
      (bytes_of c.note)

unfoldable pub refund_text : RefundFields → Text
refund_text r =
    refund_payload (bytes r.token) (bytes (or_blank r.amount_gbp)) (bytes (or_blank r.rail)) r.close
      r.excess (bytes (or_blank r.rate)) (bytes (or_blank r.settled_on)) (bytes (or_blank r.reason))

unfoldable pub attribute_text : AttributeIntent → Text
attribute_text a =
    reconcile_attribute_payload (bytes a.item) (bytes a.token) a.confirm_double
      (bytes_of a.override_reason)

unfoldable pub address_text : (Text → List ℕ) → AddressIntent → Text
address_text sha256 a =
    address_payload sha256 (bytes a.domain) (bytes a.action) (bytes a.address) (bytes a.mailbox)
      (bytes (or_blank a.site_owner)) (bytes (or_blank a.mail_key))

abbrev pub Proving : Type 0
Proving = Result String (Option Settlement)

abbrev pub refuses : String → Proving
refuses why = ok (some (refused why none))

abbrev pub fails : Bool → String → Proving
fails true why = ok none
fails false why = err why

abbrev pub proves : Bool → String → Proving
proves true why = ok none
proves false why = refuses why

-- What the drain proves an intent with: the key of the links, the crates' digests, the handler's sessions, the
-- proofs that root wrote, the time, and today's date. `redacted` is what went wrong where a password was
-- taken out of its file.
pub record Evidence : Type 0 where
  pub hmac : Hmac
  pub sha256 : Text → List ℕ
  pub key : Text
  pub sessions : Directory (File (Option Text))
  pub proofs : Directory (File Proof)
  pub now : ℕ
  pub today : String
  pub redacted : Option String

module _ (ev : Evidence) where
  abbrev pub signed : Text → String → Bool
  signed text sig = verify_bytes ev.hmac ev.key text (bytes sig)

  -- The proof that a session's record names, or that there is none; a record is JSON of any shape here.
  pub proof_token : Text → Result String Text
  proof_token id = elim (read_record (json id) ev.sessions) [
    | none ↦ err "the session named by the intent has gone"
    | some unreadable ↦ err "the session named by the intent has gone"
    | some damaged ↦ err "the session record does not parse"
    | some (whole none) ↦ ok []
    | some (whole (some proof)) ↦ ok proof
  ]

  pub verify_session : String → String → Result String Unit
  verify_session session username =
      if not (is_status_token (bytes session))
      then err "the intent carries no usable session id"
      else elim (proof_token (bytes session)) [
        | err why ↦ err why
        | ok token ↦ elim (verify_proof ev.proofs token (bytes username) ev.now) [
          | ok u ↦ ok tt
          | err problem ↦ err "the session's proof"
        ]
      ]

  pub session_proved : Page → Proving
  session_proved page = elim (verify_session page.session page.username) [
    | ok u ↦ ok none
    | err reason ↦ refuses reason
  ]

  abbrev pub is_name : String → Bool
  is_name username = elim (username_shape (codes username)) [ none ↦ true | some why ↦ false ]

  pub page_proved : Page → Proving
  page_proved page =
      if not (is_name page.username) then refuses "the username" else session_proved page

  pub decision_proved : DecisionIntent → Proving
  decision_proved d = elim d.status_token [
    | none ↦ err "the status token is not 128 bits of Crockford"
    | some token ↦
        if not (is_status_token (bytes token))
        then err "the status token is not 128 bits of Crockford"
        else if not (is_name d.username)
        then err "the username"
        else elim (decision_for_kind d.kind decisions) [
          | none ↦ err "the kind is not a decision"
          | some action ↦
              if not (str_eq d.action action)
              then err "the action does not match the kind"
              else fails (signed (decide_payload (bytes token) (bytes d.action)) d.sig)
                  "the decision intent's signature does not verify"
        ]
  ]

  -- Dates compare as texts.
  pub password_problem : PasswordIntent → Option String
  password_problem p =
      if p.carries_hash
      then some "the intent carries a hash rather than a plaintext"
      else if not
          (signed (password_payload (bytes (or_blank p.status_token)) (bytes p.until)) p.sig)
      then some "the link's signature does not verify"
      else if not (before (bytes ev.today) (bytes p.until))
      then some "the link's date has passed"
      else elim (Passwords.validate (codes p.password)) [
        | none ↦ none
        | some problem ↦ some "the password"
      ]

  -- `Intent::verify`: `ok none` where the intent is proved.
  pub verify : Intent → Proving
  verify application = ok none
  verify (decision d) = decision_proved d
  verify (password p) = elim (password_problem p) [
    | some why ↦ ok (some (refused why ev.redacted))
    | none ↦ ok none
  ]
  verify (provision_group g sig) =
      fails (signed (group_provision_payload g) sig) "the group intent's signature does not verify"
  verify (group_address a) =
      fails (signed (address_text ev.sha256 a) a.sig)
        "the address intent's signature does not verify"
  verify (remove_group domain sig) =
      fails (signed (group_remove_payload (bytes domain)) sig)
        "the remove-group intent's signature does not verify"
  verify (close page) =
      if not (is_name page.username) then err "the username" else session_proved page
  verify (resend username token sig) =
      fails (signed (resend_payload (bytes username) (bytes token)) sig)
        "the token resend's signature does not verify"
  verify (credit c) =
      proves (signed (credit_text c) c.sig) "the credit intent's signature does not verify"
  verify (window_extend token days reason sig) =
      proves (signed (window_extend_payload (bytes token) days (bytes reason)) sig)
        "the window extension's signature does not verify"
  verify (attribute a) =
      proves (signed (attribute_text a) a.sig)
        "the reconcile-attribute intent's signature does not verify"
  verify (give_back item note sig) =
      proves (signed (reconcile_return_payload (bytes item) (bytes note)) sig)
        "the reconcile-return intent's signature does not verify"
  verify (refund r) =
      proves (signed (refund_text r) r.sig) "the refund intent's signature does not verify"
  verify (export page) =
      if not (is_name page.username)
      then refuses "the export intent's username"
      else session_proved page
  verify (change_password page hash) =
      if hash then refuses "the intent carries a hash rather than a plaintext" else page_proved page
  verify (upload_key page) = page_proved page
  verify (outside_address page) = page_proved page
  verify (serving page) = page_proved page
  verify (cancel_renewal page) = page_proved page
  verify (mail_key page) = page_proved page
  verify (unknown k) =
      refuses "this build does not implement this kind; the intent is left in place"

-- `Intent::run`, and `Intent::apply` within it: a refusal and a body go through the same seam.
module _ {Time : Type 0} (parse_time : String → Option Time) (now release : String) where
  pub run :
      Evidence
      → String
      → Envelope
      → Intent
      → (Intent → Action (World Time) Settlement)
      → Action (World Time) Unit
  run ev file envelope intent body w = elim (verify ev intent) [
    | err why ↦ (err why, w)
    | ok (some settlement) ↦
        settle parse_time now release file envelope (disposition intent) (λ v. (ok settlement, v)) w
    | ok none ↦ settle parse_time now release file envelope (disposition intent) (body intent) w
  ]
