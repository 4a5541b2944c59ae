-- ===== src/Session/Admission.antt =====
-- A cookie that is handed out is admitted until its session expires, and one that is closed is not
-- (onboard/src/session.rs).
use kyriakon_infra.Session.{
  Text, json, file_session, Stamps, cookie_value, File, Record, whole, second, expiry, lookup,
  admit, close, open_session, id, ttl_hours, OpenError, Draw, prune, remove, admit_file,
}
use kyriakon_infra.Base.Chars.{split_once, codes}
use kyriakon_infra.Base.{
  all, ℕ, ◌≡◌, ◌++◌, true, ◌∷◌, some, arith, ◌==◌, ==_iff, false, [], refl, length, Bool,
  if◌then◌else◌, ok, err, length-append, Option-cases, ◌/◌, ◌*◌, inl, inr, Bool-cases, ap,
  Result-cases, leb, none, ◌∙◌, ◌+◌, Result, sym,
}
use kyriakon_infra.Sign.{Hmac, sign_bytes, verify_bytes}
use kyriakon_infra.Store.Tokens.{is_one_of, lower, is_status_token, crockford128}
use kyriakon_infra.Base.Pieces.{IsFree}
use kyriakon_infra.Store.Records.{
  write_record, write_record_mode, Directory, put, not_placed, ends_with, starts_with, read_record,
  Name,
}
use kyriakon_infra.Base.Bytes.{bytes_eq}
use mathlib.Core.List.{reverse-append}
use mathlib.Core.Path.{subst}
use kyriakon_infra.Store.Records.Laws.{read_record-put, read_record-remove}
use kyriakon_infra.Sign.Compare.{constant_eq_self}
use kyriakon_infra.Store.Tokens.Shape.{tokens_shaped}

split_once_free : (c : ℕ) (s t : Text) → IsFree c s → split_once c (s ++ c ∷ t) ≡ some (s, t)
unfolding split_once
split_once_free c [] t h = rw ((==_iff c c).1 refl) refl
split_once_free c (x ∷ s) t h =
    let here : (x == c) ≡ false = ground arith in
    let rest : IsFree c s = ground arith in rw here (rw (split_once_free c s t rest) refl)

-- The symbols of a status token are not a dot.
lower_free : (s : Text) → all (is_one_of lower) s ≡ true → IsFree b'.' s
lower_free [] h = refl
lower_free (x ∷ s) h =
    let here : is_one_of lower x ≡ true = ground arith in
    let rest : all (is_one_of lower) s ≡ true = ground arith in
    let apart : (x == b'.') ≡ false = ground (arith, here) in rw apart (lower_free s rest)

unequal_lengths : (s t : Text) → (length s == length t) ≡ false → bytes_eq s t ≡ false
unequal_lengths [] [] h = absurd (ground arith)
unequal_lengths [] (y ∷ t) h = refl
unequal_lengths (x ∷ s) [] h = refl
unequal_lengths (x ∷ s) (y ∷ t) h =
    let rest : (length s == length t) ≡ false = ground arith in
    rw (unequal_lengths s t rest) (ground arith)

record IsToken (id : Text) : Type 0 where
  size : length id ≡ 26
  symbols : all (is_one_of lower) id ≡ true

id-IsToken : (id : Text) → is_status_token id ≡ true → IsToken id
unfolding is_status_token
id-IsToken id h = record { size = ground arith; symbols = ground arith }

no_log : (id : Text) → ends_with (codes ".jsonl") (id ++ codes ".json") ≡ false
unfolding ends_with starts_with
no_log id = rw (reverse-append id (codes ".json")) refl

-- A session's file is no account, no group and no log, so its write is never refused.
pub write_record-json :
    {A : Type 0} (id : Text) (a : A) (placed : Bool) (files : Directory A)
    → is_status_token id ≡ true
    → write_record (json id) a placed files
      ≡ (if placed then (ok tt, put (json id) a files) else (err not_placed, files))
unfolding write_record write_record_mode json
write_record-json id a placed files h =
    let size : length (id ++ codes ".json") ≡ 31 =
      omega (arith, length-append id (codes ".json"), (id-IsToken id h).size) in
    let account : bytes_eq (id ++ codes ".json") (codes "account.json") ≡ false =
      unequal_lengths (id ++ codes ".json") (codes "account.json") (rw size refl) in
    let group : bytes_eq (id ++ codes ".json") (codes "group.json") ≡ false =
      unequal_lengths (id ++ codes ".json") (codes "group.json") (rw size refl) in
    rw account (rw group (rw (no_log id) refl))

-- What a filed session is: the record at its name, and the cookie that its secret signs.
record IsFiled (stamps : Stamps) (hmac : Hmac) (username : Text) (now : ℕ) (id secret cookie : Text)
    (files : Directory (File Record)) : Type 0 where
  r : Record
  expires : Text
  sig : Text
  stored : read_record (json id) files ≡ some (whole r)
  named : r.username ≡ username
  kept : r.secret ≡ secret
  stamped : r.expires_at ≡ expires
  formatted : stamps.format (expiry now) ≡ some expires
  signed : sign_bytes hmac secret id ≡ ok sig
  handed : cookie ≡ id ++ b'.' ∷ sig

cookie_value-signed :
    (hmac : Hmac) (secret id cookie : Text)
    → cookie_value hmac secret id ≡ ok cookie
    → (sig : Text) × (sign_bytes hmac secret id ≡ ok sig) × (cookie ≡ id ++ b'.' ∷ sig)
unfolding cookie_value
cookie_value-signed hmac secret id cookie h = elim (Result-cases (sign_bytes hmac secret id)) [
  | inr (x, q) ↦ absurd (ground (arith, q))
  | inl (sig, q) ↦ (sig, q, ground (arith, q))
]

file_session-IsFiled :
    (stamps : Stamps) (hmac : Hmac) (username proof : Text) (now : ℕ) (id secret : Text)
    (ensured placed : Bool) (files files' : Directory (File Record)) (cookie : Text)
    → is_status_token id ≡ true
    → file_session stamps hmac username proof now id secret ensured placed files
      ≡ (ok cookie, files')
    → IsFiled stamps hmac username now id secret cookie files'
unfolding file_session cookie_value
file_session-IsFiled stamps hmac username proof now id secret ensured placed files files' cookie
      shaped h =
    elim (Option-cases (stamps.format (now / second * second))) [
      | inl e ↦ absurd (ground (arith, e))
      | inr (created, e) ↦ elim (Option-cases (stamps.format (expiry now))) [
        | inl f ↦ absurd (ground (arith, e, f))
        | inr (expires, f) ↦ elim (Bool-cases ensured) [
          | inr g ↦ absurd (ground (arith, e, f, g))
          | inl g ↦
              let r : Record = record {
                username = username;
                created_at = created;
                expires_at = expires;
                secret = secret;
                proof = proof;
              } in
              let h1 = rw (e, file_session) at h in
              let h2 = rw (f, file_session) at h1 in
              let h3 = rw g at h2 in
              elim (Bool-cases placed) [
                | inr k ↦
                    let wrote : write_record (json id) (whole r) placed files
                        ≡ (err not_placed, files) =
                      write_record-json id (whole r) placed files shaped ∙ rw k refl in
                    let h4 = rw wrote at h3 in let refused = ap (λ p. p.0) h4 in absurd cc
                | inl k ↦
                    let wrote : write_record (json id) (whole r) placed files
                        ≡ (ok tt, put (json id) (whole r) files) =
                      write_record-json id (whole r) placed files shaped ∙ rw k refl in
                    let half = rw wrote at h3 in
                    let h4 : Path (Result OpenError Text × Directory (File Record))
                        (cookie_value hmac secret id, put (json id) (whole r) files)
                        (ok cookie, files') =
                      rw wrote at half in
                    let at_place : put (json id) (whole r) files ≡ files' = ap (λ p. p.1) h4 in
                    let value : cookie_value hmac secret id ≡ ok cookie = ap (λ p. p.0) h4 in
                    let (sig, q, handed) = cookie_value-signed hmac secret id cookie value in
                    record {
                      r = r;
                      expires = expires;
                      sig = sig;
                      stored =
                          subst (λ d. read_record (json id) d ≡ some (whole r)) at_place
                            (read_record-put (json id) (whole r) files);
                      named = refl;
                      kept = refl;
                      stamped = refl;
                      formatted = f;
                      signed = q;
                      handed = handed;
                    }
              ]
        ]
      ]
    ]

signed_passes :
    (hmac : Hmac) (key payload sig : Text)
    → sign_bytes hmac key payload ≡ ok sig
    → verify_bytes hmac key payload sig ≡ true
unfolding verify_bytes
signed_passes hmac key payload sig h = rw (h, verify_bytes) (constant_eq_self sig)

lookup-IsFiled :
    (stamps : Stamps) (hmac : Hmac) (username : Text) (now : ℕ) (id secret cookie : Text)
    (files : Directory (File Record)) (at : ℕ)
    → ((s : ℕ) (t : Text)
        → stamps.format (s * second) ≡ some t
        → stamps.parse t ≡ some (s * second))
    → is_status_token id ≡ true
    → IsFiled stamps hmac username now id secret cookie files
    → lookup stamps hmac files cookie at ≡ (if leb (expiry now) at then none else some username)
unfolding lookup admit admit_file verify_bytes
lookup-IsFiled stamps hmac username now id secret cookie files at reads_back shaped filed =
    let parsed : stamps.parse filed.r.expires_at ≡ some (expiry now) =
      ap stamps.parse filed.stamped
      ∙ reads_back ((now + ttl_hours * 3600 * second) / second) filed.expires filed.formatted in
    let passes : verify_bytes hmac filed.r.secret id filed.sig ≡ true =
      ap (λ k. verify_bytes hmac k id filed.sig) filed.kept
      ∙ signed_passes hmac secret id filed.sig filed.signed in
    let free : IsFree b'.' id = lower_free id (id-IsToken id shaped).symbols in
    subst
      (λ c. lookup stamps hmac files c at ≡ (if leb (expiry now) at then none else some username))
      (sym filed.handed)
      (rw (split_once_free b'.' id filed.sig free, lookup)
        (rw shaped (
          rw filed.stored (
            rw passes (
              rw (parsed, admit)
                (ap (λ u. if leb (expiry now) at then none else some u) filed.named))))))

-- A cookie that a login hands out is admitted for the account that logged in until the session's expiry,
-- and for nobody from then on: twelve hours after the login, in whole seconds. The stamps are read back by
-- the parser as they were written.
pub lookup-open_session :
    (stamps : Stamps) (hmac : Hmac) (username proof : Text) (now : ℕ) (removed : Name → Bool)
    (id_draw secret_draw : Draw) (ensured placed : Bool) (files files' : Directory (File Record))
    (cookie : Text) (at : ℕ)
    → ((s : ℕ) (t : Text)
        → stamps.format (s * second) ≡ some t
        → stamps.parse t ≡ some (s * second))
    → open_session stamps hmac username proof now removed id_draw secret_draw ensured placed files
      ≡ (ok cookie, files')
    → lookup stamps hmac files' cookie at ≡ (if leb (expiry now) at then none else some username)
unfolding open_session
lookup-open_session stamps hmac username proof now removed none b ensured placed files files' cookie
      at back h =
    let refused = ap (λ p. p.0) h in absurd cc
lookup-open_session stamps hmac username proof now removed (some a) none ensured placed files files'
      cookie at back h =
    let refused = ap (λ p. p.0) h in absurd cc
lookup-open_session stamps hmac username proof now removed (some a) (some b) ensured placed files
      files' cookie at back h =
    let shaped = (tokens_shaped a).0 in
    lookup-IsFiled stamps hmac username now (crockford128 a) (crockford128 b) cookie files' at back
      shaped
      (file_session-IsFiled stamps hmac username proof now (crockford128 a) (crockford128 b) ensured
        placed (prune stamps now removed files) files' cookie shaped h)

close-of :
    (cookie token : Text) (files : Directory (File Record))
    → id cookie ≡ some token
    → close cookie true files ≡ remove (json token) true files
unfolding close id
close-of cookie token files h = elim (Option-cases (split_once b'.' cookie)) [
  | inl e ↦ absurd (ground (arith, e))
  | inr ((found, sig), e) ↦ elim (Bool-cases (is_status_token found)) [
    | inr f ↦ absurd (ground (arith, e, f))
    | inl f ↦
        let same : found ≡ token = ground (arith, e, f) in
        rw (e, close) (rw f (ap (λ t. remove (json t) true files) same))
  ]
]

-- Once a session is closed and its file removed, no cookie of it is admitted any more.
pub lookup-close :
    (stamps : Stamps) (hmac : Hmac) (files : Directory (File Record)) (cookie other : Text) (at : ℕ)
    → id other ≡ id cookie
    → lookup stamps hmac (close cookie true files) other at ≡ none
unfolding lookup admit_file close id
lookup-close stamps hmac files cookie other at h = elim (Option-cases (split_once b'.' other)) [
  | inl e ↦ rw (e, lookup) refl
  | inr ((token, sig), e) ↦ elim (Bool-cases (is_status_token token)) [
    | inr f ↦ rw (e, lookup) (rw f refl)
    | inl f ↦
        let named : id other ≡ some token = rw (e, id) (rw f refl) in
        let gone : read_record (json token) (close cookie true files) ≡ none =
          ap (read_record (json token)) (close-of cookie token files (sym h ∙ named))
          ∙ read_record-remove (json token) files in
        rw (e, lookup) (rw f (rw gone refl))
  ]
]
