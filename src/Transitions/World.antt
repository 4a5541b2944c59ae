-- ===== src/Transitions/World.antt =====
-- The world of a pass, and the calls that change it (onboard/src/transitions.rs, and the file
-- operations of onboard/src/store.rs that it makes).
use kyriakon_infra.Store.{ApplicationRef, JournalLine}
use kyriakon_infra.Journal.{Index, append, load}
use kyriakon_infra.Base.{
  List, [], ◌∷◌, ◌++◌, Option, none, not, String, str_eq, keep, Result, ok, err,
}

-- `AfterLine`
pub data AfterLine : Type 0 where
  nothing_owed : AfterLine
  remove_group_record : String → AfterLine
  mark_attributed : String → String → AfterLine
  print : String → AfterLine

-- How one call ends: well, with no effect, or with its effect and an error, as where the power
-- goes behind the write.
pub data Fault : Type 0 where
  fine early late : Fault

pub record World (Time : Type 0) : Type 0 where
  pub lines : List JournalLine
  pub index : Index Time
  pub intents : List String
  pub carried_out : List AfterLine
  pub faults : List Fault

-- A call with an effect on a state; `?` leaves the function where it fails.
abbrev pub Action : Type 0 → Type 0 → Type 0
Action S A = S → Result String A × S

abbrev pub pure : {S A : Type 0} → A → Action S A
pure a w = (ok a, w)

abbrev pub fail : {S A : Type 0} → String → Action S A
fail e w = (err e, w)

infixl 5 ◌>>=◌ ◌>>◌
abbrev pub ◌>>=◌ : {S A B : Type 0} → Action S A → (A → Action S B) → Action S B
◌>>=◌ m f w = let (r, w') = m w in elim r [ ok a ↦ f a w' | err e ↦ (err e, w') ]

abbrev pub ◌>>◌ : {S A B : Type 0} → Action S A → Action S B → Action S B
m >> k = m >>= λ _. k

module _ {Time : Type 0} where
  -- A call of the operating system: it meets the next fault, and none where the list is used up.
  unfoldable pub system_call : (World Time → World Time) → Action (World Time) Unit
  system_call effect w = elim w.faults [
    | [] ↦ (ok tt, effect w)
    | f ∷ fs ↦ elim f [
      | fine ↦ (ok tt, effect (record w { faults = fs }))
      | early ↦ (err "the call failed", record w { faults = fs })
      | late ↦ (err "the call failed", effect (record w { faults = fs }))
    ]
  ]

  -- `Store::remove("intents", file)`
  unfoldable pub remove_intent : String → Action (World Time) Unit
  remove_intent file =
      system_call (λ w. record w { intents = keep (λ f. not (str_eq f file)) w.intents })

  -- `Journal::append`: the file first, then the index.
  unfoldable pub append_line : (String → Option Time) → JournalLine → Action (World Time) Unit
  append_line parse_time line =
      system_call (λ w. record w { lines = w.lines ++ line ∷ [] })
      >> (λ w. (ok tt, record w { index = append parse_time line w.index }))

  -- `finish`
  unfoldable pub finish : AfterLine → Action (World Time) Unit
  finish nothing_owed w = (ok tt, w)
  finish (print text) w = (ok tt, record w { carried_out = w.carried_out ++ print text ∷ [] })
  finish (remove_group_record domain) w =
      system_call (λ v. record v { carried_out = v.carried_out ++ remove_group_record domain ∷ [] })
        w
  finish (mark_attributed item token) w =
      system_call (λ v. record v { carried_out = v.carried_out ++ mark_attributed item token ∷ [] })
        w

  -- What a pass begins with: the index is loaded from the file.
  unfoldable pub begin_pass : (String → Option Time) → List Fault → World Time → World Time
  begin_pass parse_time faults w = record w { index = load parse_time w.lines; faults = faults }

-- `write_journal`, at the time `now` and under the running release.
module _ {Time : Type 0} (parse_time : String → Option Time) (now release : String) where
  unfoldable pub write_journal :
      String → String → ApplicationRef → String → Option String → Action (World Time) Unit
  write_journal intent kind application outcome note = append_line parse_time (record {
    version = 1;
    at = now;
    intent = intent;
    kind = kind;
    release = release;
    application = application;
    outcome = outcome;
    note = note;
    credit = none;
  })
