-- ===== src/Lapse/Erase/Order.antt =====
-- The record of an account goes before what is found by it.
use kyriakon_infra.Base.{
  String, List, Option, Result, Bool, some, none, ok, [], ◌∷◌, ◌++◌, if◌then◌else◌, not, str_eq,
  true, false, ◌≡◌, refl, inl, inr, arith, Result-cases, Bool-cases,
}
use kyriakon_infra.Ledger.Record.{is_some}
use kyriakon_infra.Transitions.World.{Action, Fault, fine, early, late, ◌>>◌, ◌>>=◌}
use kyriakon_infra.Lapse.Erase.{
  Account, Estate, call, when, has, write_line, write_once, send_answer, hold_name,
  remove_upload_key, delete_user, deletion_id, clean_up, behind_script, erase, delete_account, look,
  go_on, tries,
}
use kyriakon_infra.Lapse.Erase.Gone.{
  IsGone, behind_script-StaysGone, clean_up-StaysGone, delete_user-IsGone,
}

-- As long as the account has its record, its keyring entry and the token index are as they were at the
-- start, and its deletion is not in the journal as applied.
record IsKept (username : String) (start e : Estate) : Type 0 where
  kept :
      (a : Account)
      → e.account ≡ some a
      → (e.keyring ≡ start.keyring)
        × ((e.tokens ≡ start.tokens) × (has (deletion_id username a) "applied" e.lines ≡ false))

module _ (username : String) (start : Estate) where
  abbrev Keeps : Action Estate Unit → Type 0
  Keeps m = (e : Estate) → IsKept username start e → IsKept username start (m e).1

  IsGone-IsKept : (e : Estate) → IsGone e → IsKept username start e
  IsGone-IsKept e h = record { kept = λ a k. absurd cc }

  then-Keeps : (m k : Action Estate Unit) → Keeps m → Keeps k → Keeps (m >> k)
  then-Keeps m k hm hk e h = elim (Result-cases (m e).0) [
    | inl (u, f) ↦ rw (f, ◌>>=◌) (hk (m e).1 (hm e h))
    | inr (x, f) ↦ rw (f, ◌>>=◌) (hm e h)
  ]

  call-Keeps :
      (effect : Estate → Estate)
      → ((e : Estate) (fs : List Fault)
          → IsKept username start e
          → IsKept username start (effect (record e { faults = fs })))
      → Keeps (call effect)
  unfolding call
  call-Keeps effect p e h = go e.faults (p e e.faults h)
    where
      go :
          (fs : List Fault)
          → IsKept username start (effect e)
          → IsKept username start (call effect (record e { faults = fs })).1
      go [] q = p e [] h
      go (fine ∷ fs) q = p e fs h
      go (early ∷ fs) q = record { kept = h.kept }
      go (late ∷ fs) q = p e fs h

  when-Keeps : (test : Bool) (m : Action Estate Unit) → Keeps m → Keeps (when test m)
  when-Keeps true m h e k = h e k
  when-Keeps false m h e k = k

  has-snoc :
      (id ident outcome : String) (lines : List (String × String))
      → str_eq outcome "applied" ≡ false
      → has id "applied" lines ≡ false
      → has id "applied" (lines ++ (ident, outcome) ∷ []) ≡ false
  unfolding has
  has-snoc id ident outcome [] n h = ground (arith, n)
  has-snoc id ident outcome ((i, o) ∷ lines) n h =
      let rest : has id "applied" lines ≡ false = ground (arith, h) in
      ground (arith, h, has-snoc id ident outcome lines n rest)

  write_once-Keeps :
      (id outcome : String) → str_eq outcome "applied" ≡ false → Keeps (write_once id outcome)
  unfolding write_once write_line
  write_once-Keeps id outcome n e h =
      when-Keeps (not (has id outcome e.lines)) (write_line id outcome)
        (call-Keeps _ (λ d fs k. record {
          kept = λ a x.
              let (y, (z, w)) = k.kept a x in
              (y, (z, has-snoc (deletion_id username a) id outcome d.lines n w));
        }))
        e h

  send_answer-Keeps : (a : Account) → Keeps (send_answer a)
  unfolding send_answer
  send_answer-Keeps a =
      when-Keeps (is_some a.outside_address) _ (call-Keeps _ (λ d fs k. record { kept = k.kept }))

  look-Keeps : Keeps look
  unfolding look
  look-Keeps = call-Keeps (λ e. e) (λ d fs k. record { kept = k.kept })

  hold_name-Keeps : Keeps hold_name
  unfolding hold_name
  hold_name-Keeps =
      then-Keeps look (λ e. when (not e.name_held) (call (λ d. record d { name_held = true })) e)
        look-Keeps
        (λ e.
          when-Keeps (not e.name_held) (call (λ d. record d { name_held = true }))
            (call-Keeps _ (λ d fs k. record { kept = k.kept })) e)

  remove_upload_key-Keeps : Keeps remove_upload_key
  unfolding remove_upload_key
  remove_upload_key-Keeps = call-Keeps _ (λ d fs k. record { kept = k.kept })

  scripted-Keeps : (id : String) → Keeps (delete_user >> behind_script username id)
  unfolding delete_user
  scripted-Keeps id e h = elim (Result-cases (delete_user e).0) [
    | inr (x, f) ↦ rw (f, ◌>>=◌) (call-Keeps _ (λ d fs k. IsGone-IsKept _ refl) e h)
    | inl (u, f) ↦
        let left : IsGone (delete_user e).1 = delete_user-IsGone e u f in
        rw (f, ◌>>=◌) (IsGone-IsKept _ (behind_script-StaysGone username id (delete_user e).1 left))
  ]

  erase-Keeps : (id : String) (a : Account) → Keeps (erase username id a)
  unfolding erase
  erase-Keeps id a =
      let scripted : Action Estate Unit = delete_user >> behind_script username id in
      let keyless : Action Estate Unit = remove_upload_key >> scripted in
      let named : Action Estate Unit = hold_name >> keyless in
      let told : Action Estate Unit = send_answer a >> named in
      let answered : Action Estate Unit = write_once id "erasure-answer" >> told in
      then-Keeps (write_once id "applying") (look >> answered) (write_once-Keeps id "applying" refl)
        (then-Keeps look answered look-Keeps (
          then-Keeps (write_once id "erasure-answer") told
            (write_once-Keeps id "erasure-answer" refl)
            (then-Keeps (send_answer a) named (send_answer-Keeps a) (
              then-Keeps hold_name keyless hold_name-Keeps (
                then-Keeps remove_upload_key scripted remove_upload_key-Keeps
                  (scripted-Keeps id))))))

  go_on-Keeps : Keeps (go_on username)
  unfolding go_on
  go_on-Keeps e h = go e.account refl
    where
      go :
          (o : Option Account)
          → e.account ≡ o
          → IsKept username start
              (elim o as (λ _. Result String Unit × Estate) [
                | none ↦ clean_up username e
                | some a ↦
                    if has (deletion_id username a) "applied" e.lines
                    then (ok tt, e)
                    else erase username (deletion_id username a) a e
              ]).1
      go none x = IsGone-IsKept _ (clean_up-StaysGone username e x)
      go (some a) x = elim (Bool-cases (has (deletion_id username a) "applied" e.lines)) [
        | inl y ↦ rw y h
        | inr y ↦ rw y (erase-Keeps (deletion_id username a) a e h)
      ]

  delete_account-Keeps : Keeps (delete_account username)
  unfolding delete_account
  delete_account-Keeps = then-Keeps look (go_on username) look-Keeps go_on-Keeps

  tries-IsKept :
      (rounds : List (List Fault)) (e : Estate)
      → IsKept username start e
      → IsKept username start (tries username rounds e)
  unfolding tries
  tries-IsKept [] e h = h
  tries-IsKept (fs ∷ rest) e h =
      tries-IsKept rest (delete_account username (record e { faults = fs })).1
        (delete_account-Keeps (record e { faults = fs }) (record { kept = h.kept }))

-- Passes over an account whose deletion is not in the journal as applied, each with failures at any calls,
-- where a call that fails ends its pass: as long as the account has its record, its keyring entry and the
-- token index are as they were at the start, and the deletion is not in the journal as applied.
pub record_goes_first :
    (username : String) (rounds : List (List Fault)) (start : Estate) (a : Account)
    → ((b : Account)
        → start.account ≡ some b
        → has (deletion_id username b) "applied" start.lines ≡ false)
    → (tries username rounds start).account ≡ some a
    → ((tries username rounds start).keyring ≡ start.keyring)
      × (((tries username rounds start).tokens ≡ start.tokens)
          × (has (deletion_id username a) "applied" (tries username rounds start).lines ≡ false))
record_goes_first username rounds start a fresh h =
    (tries-IsKept username start rounds start
        (record { kept = λ b x. (refl, (refl, fresh b x)) })).kept
      a h
