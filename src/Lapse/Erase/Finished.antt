-- ===== src/Lapse/Erase/Finished.antt =====
-- A deletion comes to its end.
use kyriakon_infra.Base.{
  ◌⊎◌, Bool-cases, err, Result-cases, inl, inr, String, List, none, ok, [], ◌∷◌, any, false, ◌≡◌,
  refl, some, Option, Result, if◌then◌else◌, Bool, true,
}
use kyriakon_infra.Transitions.World.{Action, Fault, ◌>>◌}
use kyriakon_infra.Lapse.Erase.{
  Account, Token, Estate, look, when, has, write_line, write_once, send_answer, hold_name,
  remove_upload_key, remove_keyring_entry, joins, remove_token, close_tokens, close_group_tokens,
  clean_up, behind_script, delete_account, delete_user, erase, go_on, deletion_id, tries,
}
use kyriakon_infra.Lapse.Erase.Tokens.{
  missed, missed_self, missed-removed, missed-stays, missed-none,
}
use kyriakon_infra.Lapse.Erase.Order.{record_goes_first}
use kyriakon_infra.Lapse.Erase.Goes.{
  smooth, Goes, Anything, call-Goes, then-Goes, when-Goes, write_once-Goes, send_answer-Goes,
  look-Goes, hold_name-Goes,
}

abbrev IsKeyless : Estate → Type 0
IsKeyless e = e.upload_key ≡ false

abbrev IsGone : Estate → Type 0
IsGone e = e.account ≡ none

-- The account has no record and no upload key, and the keyring has no entry of it.
abbrev IsRemoved : Estate → Type 0
IsRemoved e = (e.account ≡ none) × ((e.upload_key ≡ false) × (e.keyring ≡ false))

-- Nothing of the account is left, and no token joins it.
abbrev pub IsClean : String → Estate → Type 0
IsClean username e = IsRemoved e × (any (joins username) e.tokens ≡ false)

abbrev pub is_ok : Result String Unit → Bool
is_ok (ok u) = true
is_ok (err x) = false

module _ (username : String) where
  abbrev IsOwed : List Token → Estate → Type 0
  IsOwed ts e = IsRemoved e × (missed username ts e.tokens ≡ false)

  close_token-Goes :
      (t : Token) (ts : List Token)
      → Goes (when (joins username t) (remove_token t.name)) (IsOwed (t ∷ ts)) (IsOwed ts)
  unfolding remove_token
  close_token-Goes t ts =
      when-Goes (joins username t) (remove_token t.name) (IsOwed (t ∷ ts)) (IsOwed ts)
        (λ x.
          call-Goes _ (IsOwed (t ∷ ts)) (IsOwed ts)
            (λ d fs y. (y.0, missed-removed username t ts d.tokens y.1)) (λ d. refl))
        (λ x d y. (y.0, missed-stays username t ts d.tokens x y.1))

  close_tokens-Goes :
      (ts : List Token) → Goes (close_tokens username ts) (IsOwed ts) (IsClean username)
  unfolding close_tokens
  close_tokens-Goes [] = λ e k. (λ x. (k.0, missed-none username e.tokens k.1), λ x. (refl, x))
  close_tokens-Goes (t ∷ ts) =
      let removal : Action Estate Unit = when (joins username t) (remove_token t.name) in
      then-Goes look (removal >> close_tokens username ts) (IsOwed (t ∷ ts)) (IsOwed (t ∷ ts))
        (IsClean username) (look-Goes (IsOwed (t ∷ ts)) (λ d fs y. y))
        (then-Goes removal (close_tokens username ts) (IsOwed (t ∷ ts)) (IsOwed ts)
          (IsClean username) (close_token-Goes t ts) (close_tokens-Goes ts))

  close_group_tokens-Goes : Goes (close_group_tokens username) IsRemoved (IsClean username)
  unfolding close_group_tokens
  close_group_tokens-Goes =
      then-Goes look (λ e. close_tokens username e.tokens e) IsRemoved IsRemoved (IsClean username)
        (look-Goes IsRemoved (λ d fs y. y))
        (λ e k. close_tokens-Goes e.tokens e (k, missed_self username e.tokens))

  abbrev IsUnscripted : Estate → Type 0
  IsUnscripted e = (e.account ≡ none) × (e.upload_key ≡ false)

  remove_keyring_entry-Goes : Goes remove_keyring_entry IsUnscripted IsRemoved
  unfolding remove_keyring_entry
  remove_keyring_entry-Goes =
      call-Goes _ IsUnscripted IsRemoved (λ d fs y. (y.0, (y.1, refl))) (λ d. refl)

  clean_up-Goes : Goes (clean_up username) IsGone (IsClean username)
  unfolding clean_up remove_upload_key
  clean_up-Goes =
      then-Goes remove_upload_key (remove_keyring_entry >> close_group_tokens username) IsGone
        IsUnscripted (IsClean username)
        (call-Goes _ IsGone IsUnscripted (λ d fs y. (y, refl)) (λ d. refl))
        (then-Goes remove_keyring_entry (close_group_tokens username) IsUnscripted IsRemoved
          (IsClean username) remove_keyring_entry-Goes close_group_tokens-Goes)

  behind_script-Goes :
      (id : String) → Goes (behind_script username id) IsUnscripted (IsClean username)
  unfolding behind_script write_line
  behind_script-Goes id =
      then-Goes remove_keyring_entry (close_group_tokens username >> write_line id "applied")
        IsUnscripted IsRemoved (IsClean username) remove_keyring_entry-Goes
        (then-Goes (close_group_tokens username) (write_line id "applied") IsRemoved
          (IsClean username) (IsClean username) close_group_tokens-Goes
          (call-Goes _ (IsClean username) (IsClean username) (λ d fs y. y) (λ d. refl)))

  remove-Goes :
      (id : String)
      → Goes
          (remove_upload_key >> (delete_user >> behind_script username id))
          Anything
          (IsClean username)
  unfolding remove_upload_key delete_user
  remove-Goes id =
      then-Goes remove_upload_key (delete_user >> behind_script username id) Anything IsKeyless
        (IsClean username) (call-Goes _ Anything IsKeyless (λ d fs y. refl) (λ d. refl))
        (then-Goes delete_user (behind_script username id) IsKeyless IsUnscripted (IsClean username)
          (call-Goes _ IsKeyless IsUnscripted (λ d fs y. (refl, y)) (λ d. refl))
          (behind_script-Goes id))

  erase-Goes : (id : String) (a : Account) → Goes (erase username id a) Anything (IsClean username)
  unfolding erase
  erase-Goes id a =
      let removed : Action Estate Unit =
        remove_upload_key >> (delete_user >> behind_script username id) in
      let named : Action Estate Unit = hold_name >> removed in
      let told : Action Estate Unit = send_answer a >> named in
      let answered : Action Estate Unit = write_once id "erasure-answer" >> told in
      then-Goes (write_once id "applying") (look >> answered) Anything Anything (IsClean username)
        (write_once-Goes id "applying")
        (then-Goes look answered Anything Anything (IsClean username)
          (look-Goes Anything (λ e fs k. tt))
          (then-Goes (write_once id "erasure-answer") told Anything Anything (IsClean username)
            (write_once-Goes id "erasure-answer")
            (then-Goes (send_answer a) named Anything Anything (IsClean username)
              (send_answer-Goes a)
              (then-Goes hold_name removed Anything Anything (IsClean username) hold_name-Goes
                (remove-Goes id)))))

  -- A deletion of the account as it stands is not in the journal as applied.
  abbrev IsOpen : Estate → Type 0
  IsOpen e =
      (a : Account) → e.account ≡ some a → has (deletion_id username a) "applied" e.lines ≡ false

  go_on-Goes : Goes (go_on username) IsOpen (IsClean username)
  unfolding go_on
  go_on-Goes e h = go e.account refl
    where
      go :
          (o : Option Account)
          → e.account ≡ o
          → let r : Result String Unit × Estate = elim o [
            | none ↦ clean_up username e
            | some a ↦
                if has (deletion_id username a) "applied" e.lines
                then (ok tt, e)
                else erase username (deletion_id username a) a e
          ] in
            (r.0 ≡ ok tt → IsClean username r.1)
            × (smooth e.faults ≡ true → (r.0 ≡ ok tt) × (smooth r.1.faults ≡ true))
      go none x = clean_up-Goes e x
      go (some a) x =
          let y : has (deletion_id username a) "applied" e.lines ≡ false = h a x in
          rw y (erase-Goes (deletion_id username a) a e tt)

  delete_account-Goes : Goes (delete_account username) IsOpen (IsClean username)
  unfolding delete_account
  delete_account-Goes =
      then-Goes look (go_on username) IsOpen IsOpen (IsClean username)
        (look-Goes IsOpen (λ d fs y. y)) go_on-Goes

-- Behind any passes over an account whose deletion was not in the journal as applied at the start, each of
-- them with failures at any calls, a further pass ends in one of two ways: well, and then the account has
-- no record and no upload key, the keyring has no entry of it and no token of the index joins it; or with
-- an error, and then one of its own calls failed.
pub erased_in_the_end :
    (username : String) (rounds : List (List Fault)) (start : Estate) (faults : List Fault)
    → ((a : Account)
        → start.account ≡ some a
        → has (deletion_id username a) "applied" start.lines ≡ false)
    → let last : Result String Unit × Estate =
        delete_account username (record (tries username rounds start) { faults = faults }) in
      ((last.0 ≡ ok tt) × IsClean username last.1)
      ⊎ ((is_ok last.0 ≡ false) × (smooth faults ≡ false))
erased_in_the_end username rounds start faults fresh =
    let s : Estate = record (tries username rounds start) { faults = faults } in
    let (q, g) =
      delete_account-Goes username s
        (λ a h. (record_goes_first username rounds start a fresh h).1.1) in
    elim (Result-cases (delete_account username s).0) [
      | inl (u, f) ↦ inl (f, q f)
      | inr (x, f) ↦ inr (
        rw f refl,
        elim (Bool-cases (smooth faults)) [
          | inl y ↦ let z : (delete_account username s).0 ≡ ok tt = (g y).0 in absurd cc
          | inr y ↦ y
        ],
      )
    ]
