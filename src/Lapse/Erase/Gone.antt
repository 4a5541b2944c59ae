-- ===== src/Lapse/Erase/Gone.antt =====
-- A record that is gone stays gone.
use kyriakon_infra.Base.{
  String, List, Bool, none, ok, [], ◌∷◌, true, false, ◌≡◌, refl, inl, inr, Result-cases,
}
use kyriakon_infra.Transitions.World.{Action, Fault, fine, early, late, ◌>>◌, ◌>>=◌}
use kyriakon_infra.Lapse.Erase.{
  Token, Estate, call, when, write_line, remove_upload_key, delete_user, remove_keyring_entry,
  joins, remove_token, close_tokens, close_group_tokens, clean_up, behind_script, look,
}

abbrev pub IsGone : Estate → Type 0
IsGone e = e.account ≡ none

abbrev pub StaysGone : Action Estate Unit → Type 0
StaysGone m = (e : Estate) → IsGone e → IsGone (m e).1

pub then-StaysGone : (m k : Action Estate Unit) → StaysGone m → StaysGone k → StaysGone (m >> k)
then-StaysGone m k hm hk e h = elim (Result-cases (m e).0) [
  | inl (u, f) ↦ rw (f, ◌>>=◌) (hk (m e).1 (hm e h))
  | inr (x, f) ↦ rw (f, ◌>>=◌) (hm e h)
]

pub call-StaysGone :
    (effect : Estate → Estate)
    → ((e : Estate) (fs : List Fault) → IsGone e → IsGone (effect (record e { faults = fs })))
    → StaysGone (call effect)
unfolding call
call-StaysGone effect p e h = go e.faults (p e e.faults h)
  where
    go : (fs : List Fault) → IsGone (effect e) → IsGone (call effect (record e { faults = fs })).1
    go [] q = p e [] h
    go (fine ∷ fs) q = p e fs h
    go (early ∷ fs) q = h
    go (late ∷ fs) q = p e fs h

pub when-StaysGone : (test : Bool) (m : Action Estate Unit) → StaysGone m → StaysGone (when test m)
when-StaysGone true m h e k = h e k
when-StaysGone false m h e k = k

pub look-StaysGone : StaysGone look
unfolding look
look-StaysGone = call-StaysGone (λ e. e) (λ d fs k. k)

pub remove_keyring_entry-StaysGone : StaysGone remove_keyring_entry
unfolding remove_keyring_entry
remove_keyring_entry-StaysGone = call-StaysGone _ (λ d fs k. k)

pub delete_user-IsGone :
    (e : Estate) (u : Unit) → (delete_user e).0 ≡ ok u → IsGone (delete_user e).1
unfolding delete_user call
delete_user-IsGone e u h = go e.faults h
  where
    effect : Estate → Estate
    effect d = record d { account = none }

    go :
        (fs : List Fault)
        → (call effect (record e { faults = fs })).0 ≡ ok u
        → IsGone (call effect (record e { faults = fs })).1
    go [] k = refl
    go (fine ∷ fs) k = refl
    go (early ∷ fs) k = absurd cc
    go (late ∷ fs) k = absurd cc

module _ (username : String) where
  pub close_tokens-StaysGone : (ts : List Token) → StaysGone (close_tokens username ts)
  unfolding close_tokens remove_token
  close_tokens-StaysGone [] = λ e h. h
  close_tokens-StaysGone (t ∷ ts) =
      let removal : Action Estate Unit = when (joins username t) (remove_token t.name) in
      then-StaysGone look (removal >> close_tokens username ts) look-StaysGone (
        then-StaysGone removal (close_tokens username ts)
          (when-StaysGone (joins username t) (remove_token t.name) (call-StaysGone _ (λ d fs k. k)))
          (close_tokens-StaysGone ts))

  pub close_group_tokens-StaysGone : StaysGone (close_group_tokens username)
  unfolding close_group_tokens
  close_group_tokens-StaysGone =
      then-StaysGone look (λ e. close_tokens username e.tokens e) look-StaysGone
        (λ e. close_tokens-StaysGone e.tokens e)

  pub behind_script-StaysGone : (id : String) → StaysGone (behind_script username id)
  unfolding behind_script write_line
  behind_script-StaysGone id =
      then-StaysGone remove_keyring_entry (close_group_tokens username >> write_line id "applied")
        remove_keyring_entry-StaysGone
        (then-StaysGone (close_group_tokens username) (write_line id "applied")
          close_group_tokens-StaysGone (call-StaysGone _ (λ d fs k. k)))

  pub clean_up-StaysGone : StaysGone (clean_up username)
  unfolding clean_up remove_upload_key
  clean_up-StaysGone =
      then-StaysGone remove_upload_key (remove_keyring_entry >> close_group_tokens username)
        (call-StaysGone _ (λ d fs k. k))
        (then-StaysGone remove_keyring_entry (close_group_tokens username)
          remove_keyring_entry-StaysGone close_group_tokens-StaysGone)
