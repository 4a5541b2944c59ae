-- ===== src/Session.antt =====
-- The login and the sessions of the account page (onboard/src/session.rs). A text is the list of its
-- bytes, an instant is the count of nanoseconds, and a directory the list of its files. Parameters: HMAC,
-- the time crate's RFC 3339 stamps, and what the file system and the login check answer.
pub mod Admission
pub mod Pruning
pub mod Proofs
mod Tests
use kyriakon_infra.Base.Chars.{codes, split, split_once, trim}
use kyriakon_infra.Base.Bytes.{bytes_eq}
use kyriakon_infra.Sign.{Text, Hmac, sign_bytes, verify_bytes, decimal}
use kyriakon_infra.Store.Tokens.{crockford128, is_status_token}
use kyriakon_infra.Store.Records.{
  Name, Directory, read_record, write_record, remove, list, ends_with,
}
use kyriakon_infra.Base.{
  Bool, ◌++◌, Option, ℕ, Result, leb, err, length, ◌/◌, true, ◌+◌, ◌*◌, List, if◌then◌else◌, none,
  ◌==◌, ok, not, ◌∷◌, ◌&&◌, some, all, ◌||◌, [], false,
}
use Prim.Native.Nat.{ℕ}

abbrev pub cookie_name : Text
cookie_name = codes "kyriakon_session"

abbrev pub ttl_hours : ℕ
ttl_hours = 12

abbrev pub second : ℕ
second = 1_000_000_000

-- `OffsetDateTime::parse` and `format` under RFC 3339.
pub record Stamps : Type 0 where
  pub parse : Text → Option ℕ
  pub format : ℕ → Option Text

-- What the login check did: it could not be run, its input was cut off, or it ended, with success or
-- not, and what it printed where that is UTF-8.
pub data Checked : Type 0 where
  not_run cut_off not_waited : Checked
  ended : Bool → Option Text → Checked

pub authenticate : Checked → Option Text
authenticate not_run = none
authenticate cut_off = none
authenticate not_waited = none
authenticate (ended false printed) = none
authenticate (ended true none) = none
authenticate (ended true (some text)) = elim (trim text) as (λ _. Option Text) [
  | [] ↦ none
  | c ∷ cs ↦ some (c ∷ cs)
]

pub record Record : Type 0 where
  pub username : Text
  pub created_at : Text
  pub expires_at : Text
  pub secret : Text
  pub proof : Text

-- A file as it is read: not at all, as something else, or as what was written.
pub data File (A : Type 0) : Type 0 where
  unreadable damaged : File A
  whole : A → File A

abbrev pub is_proof_symbol : ℕ → Bool
is_proof_symbol b = (leb b'0' b && leb b b'9') || (leb b'a' b && leb b b'f')

unfoldable pub is_proof_token : Text → Bool
is_proof_token token = length token == 64 && all is_proof_symbol token

pub record Proof : Type 0 where
  pub username : Text
  pub expires : ℕ

pub data Problem : Type 0 where
  no_proof not_minted expired : Problem
  belongs_to : Text → Problem

pub read_proof : Text → Directory (File Proof) → Option Proof
read_proof token files = elim (read_record token files) [
  | none ↦ none
  | some unreadable ↦ none
  | some damaged ↦ none
  | some (whole proof) ↦ some proof
]

pub verify_proof : Directory (File Proof) → Text → Text → ℕ → Result Problem Unit
verify_proof files token username now =
    if not (is_proof_token token) then err no_proof else elim (read_proof token files) [
      | none ↦ err not_minted
      | some proof ↦
          if not (bytes_eq proof.username username)
          then err (belongs_to proof.username)
          else if leb proof.expires (now / second)
          then err expired
          else ok tt
    ]

-- One file of the pass of `prune_proofs`; a file that is not removed stays.
pub prune_proof : ℕ → (Name → Bool) → Name → Directory (File Proof) → Directory (File Proof)
prune_proof now removed name files =
    if not (is_proof_token name) then files else elim (read_proof name files) [
      | none ↦ files
      | some proof ↦
          if leb proof.expires (now / second) then remove name (removed name) files else files
    ]

-- The names are those that the directory had when it was opened.
pub prune_proofs : ℕ → (Name → Bool) → List Name → Directory (File Proof) → Directory (File Proof)
prune_proofs now removed [] files = files
prune_proofs now removed (n ∷ names) files =
    prune_proofs now removed names (prune_proof now removed n files)

pub json : Text → Name
json id = id ++ codes ".json"

module _ (stamps : Stamps) where
  -- A record counts as expired when its stamp cannot be read.
  pub is_expired : ℕ → File Record → Bool
  is_expired now unreadable = true
  is_expired now damaged = true
  is_expired now (whole record') = elim (stamps.parse record'.expires_at) [
    | none ↦ true
    | some expires ↦ leb expires now
  ]

  pub prune_one : ℕ → (Name → Bool) → Name → Directory (File Record) → Directory (File Record)
  prune_one now removed name files =
      if not (ends_with (codes ".json") name) then files else elim (read_record name files) [
        | none ↦ files
        | some unreadable ↦ files
        | some damaged ↦ remove name (removed name) files
        | some (whole r) ↦
            if is_expired now (whole r) then remove name (removed name) files else files
      ]

  pub prune_each : ℕ → (Name → Bool) → List Name → Directory (File Record) → Directory (File Record)
  prune_each now removed [] files = files
  prune_each now removed (n ∷ names) files =
      prune_each now removed names (prune_one now removed n files)

  pub prune : ℕ → (Name → Bool) → Directory (File Record) → Directory (File Record)
  prune now removed files = prune_each now removed (list files) files

-- `(now + Duration::hours(TTL_HOURS)).replace_nanosecond(0)`
abbrev pub expiry : ℕ → ℕ
expiry now = (now + ttl_hours * 3600 * second) / second * second

-- What the two draws, the directory and the writer answer.
abbrev pub Draw : Type 0
Draw = Option ℕ

pub data OpenError : Type 0 where
  no_draw no_stamp no_directory no_key : OpenError
  not_written : kyriakon_infra.Store.Records.Error → OpenError

module _ (hmac : Hmac) where
  -- The cookie: the id, a dot, and the signature of the id under the session's own secret.
  pub cookie_value : Text → Text → Result OpenError Text
  cookie_value secret id = elim (sign_bytes hmac secret id) [
    | err e ↦ err no_key
    | ok sig ↦ ok (id ++ b'.' ∷ sig)
  ]

module _ (stamps : Stamps) (hmac : Hmac) where
  -- `open`, from the moment the two draws are there.
  pub file_session :
      Text
      → Text
      → ℕ
      → Text
      → Text
      → Bool
      → Bool
      → Directory (File Record)
      → Result OpenError Text × Directory (File Record)
  file_session username proof now id secret ensured placed files =
      elim (stamps.format (now / second * second)) [
        | none ↦ (err no_stamp, files)
        | some created ↦ elim (stamps.format (expiry now)) [
          | none ↦ (err no_stamp, files)
          | some expires ↦
              if not ensured
              then (err no_directory, files)
              else (let r : Record = record {
                username = username;
                created_at = created;
                expires_at = expires;
                secret = secret;
                proof = proof;
              } in
                  let (answer, written) = write_record (json id) (whole r) placed files in
                  elim answer [
                    | err e ↦ (err (not_written e), written)
                    | ok u ↦ (cookie_value hmac secret id, written)
                  ])
        ]
      ]

  pub open_session :
      Text
      → Text
      → ℕ
      → (Name → Bool)
      → Draw
      → Draw
      → Bool
      → Bool
      → Directory (File Record)
      → Result OpenError Text × Directory (File Record)
  open_session username proof now removed none second_draw ensured placed files =
      (err no_draw, prune stamps now removed files)
  open_session username proof now removed (some a) none ensured placed files =
      (err no_draw, prune stamps now removed files)
  open_session username proof now removed (some a) (some b) ensured placed files =
      file_session username proof now (crockford128 a) (crockford128 b) ensured placed
        (prune stamps now removed files)

  unfoldable pub admit : Text → Text → ℕ → Record → Option Text
  admit id sig now r =
      if not (verify_bytes hmac r.secret id sig) then none else elim (stamps.parse r.expires_at) [
        | none ↦ none
        | some expires ↦ if leb expires now then none else some r.username
      ]

  pub admit_file : Text → Text → ℕ → Option (File Record) → Option Text
  admit_file id sig now none = none
  admit_file id sig now (some unreadable) = none
  admit_file id sig now (some damaged) = none
  admit_file id sig now (some (whole r)) = admit id sig now r

  -- The account that a cookie is admitted for.
  unfoldable pub lookup : Directory (File Record) → Text → ℕ → Option Text
  lookup files cookie now = elim (split_once b'.' cookie) [
    | none ↦ none
    | some (id, sig) ↦
        if not (is_status_token id)
        then none
        else admit_file id sig now (read_record (json id) files)
  ]

unfoldable pub id : Text → Option Text
id cookie = elim (split_once b'.' cookie) [
  | none ↦ none
  | some (token, sig) ↦ if is_status_token token then some token else none
]

unfoldable pub close : Text → Bool → Directory (File Record) → Directory (File Record)
close cookie removed files = elim (split_once b'.' cookie) [
  | none ↦ files
  | some (token, sig) ↦
      if not (is_status_token token) then files else remove (json token) removed files
]

pub cookie : Text → Text
cookie value =
    cookie_name
    ++ codes "="
    ++ value
    ++ codes "; Path=/; Max-Age="
    ++ decimal (ttl_hours * 3600)
    ++ codes "; HttpOnly; Secure; SameSite=Lax"

pub clear_cookie : Text
clear_cookie = cookie_name ++ codes "=; Path=/; Max-Age=0; HttpOnly; Secure; SameSite=Lax"

abbrev pub is_empty : Text → Bool
is_empty [] = true
is_empty (c ∷ cs) = false

-- One pair of a header, when it is the cookie of that name and holds a value. The header is text, by
-- its code points.
pub from_pair : Text → Text → Option Text
from_pair name pair = elim (split_once b'=' (trim pair)) [
  | none ↦ none
  | some (key, value) ↦
      if bytes_eq (trim key) name && not (is_empty (trim value)) then some (trim value) else none
]

pub first_some : (Text → Option Text) → List Text → Option Text
first_some f [] = none
first_some f (p ∷ ps) = let later = first_some f ps in elim (f p) [ none ↦ later | some v ↦ some v ]

pub from_header : Text → Text → Option Text
from_header header name = first_some (from_pair name) (split b';' header)
