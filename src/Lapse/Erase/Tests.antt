-- ===== src/Lapse/Erase/Tests.antt =====
-- Deletions at work.
use kyriakon_infra.Base.{String, List, some, none, ok, [], ◌∷◌, ◌⊎◌, true, false, ◌≡◌, refl, Result}
use kyriakon_infra.Transitions.World.{Fault, fine, early, late}
use kyriakon_infra.Lapse.Erase.{
  look, go_on, erase, write_once, write_line, send_answer, Account, Estate, has, deletion_id,
  delete_account, tries,
}
use kyriakon_infra.Lapse.Erase.Order.{record_goes_first}
use kyriakon_infra.Lapse.Erase.Finished.{IsClean, is_ok, erased_in_the_end}

abbrev account : Account
account = record { created_at = "2026-01-02T00:00:00Z"; outside_address = some "a@example.org" }

-- A member with a token of their own and, as the owner of a group, the token of the group.
abbrev estate : Estate
estate = record {
  account = some account;
  upload_key = true;
  keyring = true;
  name_held = false;
  tokens =
      record { name = "KYR-1"; username = "anna"; group = none }
      ∷ record { name = "KYR-2"; username = "anna"; group = some "example.org" }
      ∷ [];
  lines = [];
  answered = false;
  faults = [];
}

fresh :
    (b : Account)
    → estate.account ≡ some b
    → has (deletion_id "anna" b) "applied" estate.lines ≡ false
unfolding has
fresh b h = refl

-- The notice fails.
abbrev stopped : List (List Fault)
stopped = (fine ∷ fine ∷ fine ∷ fine ∷ early ∷ []) ∷ []

stopped_account : (tries "anna" stopped estate).account ≡ some account
unfolding tries delete_account look kyriakon_infra.Lapse.Erase.call go_on has erase write_once
    write_line send_answer
stopped_account = refl

record_goes_first_example :
    ((tries "anna" stopped estate).keyring ≡ true)
    × (((tries "anna" stopped estate).tokens ≡ estate.tokens)
        × (has (deletion_id "anna" account) "applied" (tries "anna" stopped estate).lines ≡ false))
record_goes_first_example = record_goes_first "anna" stopped estate account fresh stopped_account

-- The script takes the record and reports an error; the next pass cleans up.
abbrev torn : List (List Fault)
torn = (fine ∷ fine ∷ fine ∷ fine ∷ fine ∷ fine ∷ fine ∷ fine ∷ late ∷ []) ∷ stopped

erased_in_the_end_example :
    let last : Result String Unit × Estate =
      delete_account "anna" (record (tries "anna" torn estate) { faults = fine ∷ [] }) in
    ((last.0 ≡ ok tt) × IsClean "anna" last.1) ⊎ ((is_ok last.0 ≡ false) × (true ≡ false))
erased_in_the_end_example = erased_in_the_end "anna" torn estate (fine ∷ []) fresh
