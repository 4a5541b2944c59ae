-- ===== src/Transitions/Retry.antt =====
-- The retry schedule and the failure report (`retry_after_minutes`, `note_failure` and `due` of
-- onboard/src/transitions.rs). An instant is a number of seconds.
pub mod Schedule
use kyriakon_infra.Base.{
  ℕ, zero, suc, ◌+◌, ◌-◌, ◌*◌, List, [], ◌∷◌, Option, none, some, Bool, true, false, not, leb, min,
  String, str_eq, Result, ok, err,
}
use kyriakon_infra.Store.{ApplicationRef, account_ref}
use kyriakon_infra.Journal.{Index, failures_of}
use kyriakon_infra.Transitions.World.{World, Action, ◌>>◌, write_journal}

abbrev schedule : List ℕ
schedule = 1 ∷ 5 ∷ 15 ∷ 60 ∷ []

abbrev at_or : List ℕ → ℕ → ℕ
at_or [] i = 0
at_or (x ∷ xs) zero = x
at_or (x ∷ xs) (suc i) = at_or xs i

pub retry_after_minutes : ℕ → ℕ
retry_after_minutes zero = 0
retry_after_minutes (suc n) = at_or schedule (min n 3)

pub due : Index ℕ → String → ℕ → Bool
due index id now =
    let (failures, last, message) = failures_of id index in
    elim last [ none ↦ true | some at ↦ leb (at + 60 * retry_after_minutes failures) now ]

-- Whether the previous failure carried another message, or none.
pub is_fresh : Option String → String → Bool
is_fresh none message = true
is_fresh (some previous) message = not (str_eq previous message)

module _ {Time : Type 0} (parse_time : String → Option Time) (now release : String) where
  -- `ApplicationRef::default()` is the account of no name.
  pub note_failure : String → String → String → Action (World Time) Bool
  note_failure id kind message w =
      let (failures, last, previous) = failures_of id w.index in
      (write_journal parse_time now release id kind (account_ref "") "failed" (some message)
          >> (λ v. (ok (is_fresh previous message), v)))
        w
