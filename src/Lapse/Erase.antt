-- ===== src/Lapse/Erase.antt =====
-- The deletion of an account in its steps (`delete_account` of onboard/src/transitions/lifecycle.rs, with
-- `hold_name` and `close_group_tokens` of onboard/src/transitions/groups.rs). The state is what the box has
-- of one member; a line of the journal is its id and its outcome, and the answer's text is left out.
-- A read of the store is a call without an effect: it too can fail.
pub mod Finished
pub mod Goes
pub mod Gone
pub mod Order
mod Tests
pub mod Tokens
use kyriakon_infra.Base.{
  String, List, Option, Bool, some, none, ok, err, [], ◌∷◌, ◌++◌, if◌then◌else◌, not, str_eq, any,
  keep, ◌&&◌, true, false,
}
use kyriakon_infra.Ledger.Record.{is_some}
use kyriakon_infra.Base.Chars.{chars, string}
use kyriakon_infra.Transitions.World.{Action, Fault, fine, early, late, ◌>>◌}

-- Of the account's record what the deletion reads.
pub record Account : Type 0 where
  pub created_at : String
  pub outside_address : Option String

-- A record of the token index, by its name.
pub record Token : Type 0 where
  pub name : String
  pub username : String
  pub group : Option String

pub record Estate : Type 0 where
  pub account : Option Account
  pub upload_key : Bool
  pub keyring : Bool
  pub name_held : Bool
  pub tokens : List Token
  pub lines : List (String × String)
  pub answered : Bool
  pub faults : List Fault

unfoldable pub call : (Estate → Estate) → Action Estate Unit
call effect e = elim e.faults [
  | [] ↦ (ok tt, effect e)
  | f ∷ fs ↦ elim f [
    | fine ↦ (ok tt, effect (record e { faults = fs }))
    | early ↦ (err "the call failed", record e { faults = fs })
    | late ↦ (err "the call failed", effect (record e { faults = fs }))
  ]
]

pub look : Action Estate Unit
look = call (λ e. e)

abbrev pub when : Bool → Action Estate Unit → Action Estate Unit
when true m e = m e
when false m e = (ok tt, e)

unfoldable pub has : String → String → List (String × String) → Bool
has id outcome lines = any (λ l. str_eq l.0 id && str_eq l.1 outcome) lines

pub write_line : String → String → Action Estate Unit
write_line id outcome = call (λ e. record e { lines = e.lines ++ (id, outcome) ∷ [] })

unfoldable pub write_once : String → String → Action Estate Unit
write_once id outcome e = when (not (has id outcome e.lines)) (write_line id outcome) e

-- The notice to the outside address, where there is one.
pub send_answer : Account → Action Estate Unit
send_answer a = when (is_some a.outside_address) (call (λ e. record e { answered = true }))

pub hold_name : Action Estate Unit
hold_name = look >> (λ e. when (not e.name_held) (call (λ d. record d { name_held = true })) e)

pub remove_upload_key : Action Estate Unit
remove_upload_key = call (λ e. record e { upload_key = false })

-- The script removes the record with the home; how far it comes where it fails is its own.
pub delete_user : Action Estate Unit
delete_user = call (λ e. record e { account = none })

pub remove_keyring_entry : Action Estate Unit
remove_keyring_entry = call (λ e. record e { keyring = false })

-- Whether the record joins a token to the member alone: a group's token stays.
abbrev pub joins : String → Token → Bool
joins username t = not (is_some t.group) && str_eq t.username username

pub remove_token : String → Action Estate Unit
remove_token name = call (λ e. record e { tokens = keep (λ t. not (str_eq t.name name)) e.tokens })

-- The loop over the listing.
pub close_tokens : String → List Token → Action Estate Unit
close_tokens username [] e = (ok tt, e)
close_tokens username (t ∷ ts) e =
    (look >> (when (joins username t) (remove_token t.name) >> close_tokens username ts)) e

pub close_group_tokens : String → Action Estate Unit
close_group_tokens username = look >> (λ e. close_tokens username e.tokens e)

abbrev pub deletion_id : String → Account → String
deletion_id username a =
    string (chars "delete-" ++ (chars username ++ (chars "-" ++ chars a.created_at)))

-- What can be left where the record is gone.
pub clean_up : String → Action Estate Unit
clean_up username = remove_upload_key >> (remove_keyring_entry >> close_group_tokens username)

-- What comes behind the script.
pub behind_script : String → String → Action Estate Unit
behind_script username id =
    remove_keyring_entry >> (close_group_tokens username >> write_line id "applied")

-- The read before the answer is the one for the refund.
pub erase : String → String → Account → Action Estate Unit
erase username id a =
    write_once id "applying"
    >> (look
        >> (write_once id "erasure-answer"
            >> (send_answer a
                >> (hold_name
                    >> (remove_upload_key >> (delete_user >> behind_script username id))))))

-- What is done behind the read of the record.
unfoldable pub go_on : String → Action Estate Unit
go_on username e = elim e.account [
  | none ↦ clean_up username e
  | some a ↦
      if has (deletion_id username a) "applied" e.lines
      then (ok tt, e)
      else erase username (deletion_id username a) a e
]

-- `delete_account`, of a name that fits.
pub delete_account : String → Action Estate Unit
delete_account username = look >> go_on username

-- Passes over one account, each with its own faults.
unfoldable pub tries : String → List (List Fault) → Estate → Estate
tries username [] e = e
tries username (faults ∷ rest) e =
    tries username rest (delete_account username (record e { faults = faults })).1
