-- ===== src/Intents/Pass.antt =====
-- One pass of the drain over the intent files (`run` and `one` of onboard/src/intents.rs, `report_failure` of
-- onboard/src/transitions.rs). What a file holds is an argument: the intent with its envelope, or why it
-- does not parse. A text's own time is that of the pass.
use kyriakon_infra.Intents.{Intent, Evidence, run}
use kyriakon_infra.Transitions.World.{World, Action}
use kyriakon_infra.Transitions.Settle.{Envelope, Settlement}
use kyriakon_infra.Transitions.Retry.{due, note_failure}
use kyriakon_infra.Base.Chars.{chars, string}
use kyriakon_infra.Base.{
  String, ℕ, Bool, Option, List, Result, ok, length, ◌∷◌, err, if◌then◌else◌, [], suc, not, true,
  ◌==◌, ◌++◌, any, ◌&&◌, str_eq, false, zero,
}
use mathlib.Core.List.{reverse}
use Prim.Native.Char.{Char, code}

-- `trim_end_matches(".json")`, on the characters from the last one back; each round takes five.
unfoldable pub strip_json : ℕ → List Char → List Char
strip_json zero cs = cs
strip_json (suc n) (a ∷ b ∷ c ∷ d ∷ e ∷ cs) =
    let rest = strip_json n cs in
    if code a == b'n' && (code b == b'o' && (code c == b's' && (code d == b'j' && code e == b'.')))
    then rest
    else a ∷ b ∷ c ∷ d ∷ e ∷ cs
strip_json (suc n) cs = cs

unfoldable pub intent_id : String → String
intent_id name = let cs = reverse (chars name) in string (reverse (strip_json (length cs) cs))

unfoldable pub is_json : String → Bool
is_json name = elim (reverse (chars name)) as (λ _. Bool) [
  | a ∷ b ∷ c ∷ d ∷ e ∷ cs ↦
      code a == b'n' && (code b == b'o' && (code c == b's' && (code d == b'j' && code e == b'.')))
  | _ ↦ false
]

-- A failure that is mailed.
pub record Alert : Type 0 where
  pub id : String
  pub message : String

module _ (parse_time : String → Option ℕ) (now release : String) where
  -- The mails that went out are beside the world.
  unfoldable pub report_failure :
      String → String → String → World ℕ × List Alert → World ℕ × List Alert
  report_failure id kind message (w, mails) =
      let (answer, v) = note_failure parse_time now release id kind message w in
      let fresh = elim answer as (λ _. Bool) [ ok f ↦ f | err e ↦ true ] in
      (v, if fresh then mails ++ record { id = id; message = message } ∷ [] else mails)

  module _ (ev : Evidence) (holds : String → Result String (Envelope × Intent))
      (body : Intent → Action (World ℕ) Settlement) where
    -- A file that is gone is done.
    unfoldable pub one : String → Action (World ℕ) Unit
    one file w =
        if not (any (λ f. str_eq f file) w.intents) then (ok tt, w) else elim (holds file) [
          | err why ↦ (err why, w)
          | ok (envelope, intent) ↦ run parse_time now release ev file envelope intent body w
        ]

    unfoldable pub handle : ℕ → String → World ℕ × List Alert → World ℕ × List Alert
    handle time name (w, mails) =
        if not (is_json name)
        then (w, mails)
        else if not (due w.index (intent_id name) time)
        then (w, mails)
        else (let (answer, v) = one name w in
            elim answer [
              | ok u ↦ (v, mails)
              | err why ↦ report_failure (intent_id name) "intent" why (v, mails)
            ])

    -- The loop over the listing.
    unfoldable pub pass : ℕ → List String → World ℕ × List Alert → World ℕ × List Alert
    pass time [] state = state
    pass time (name ∷ names) state = pass time names (handle time name state)
