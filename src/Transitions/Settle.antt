-- ===== src/Transitions/Settle.antt =====
-- `settle`, the only writer of an intent's outcome (onboard/src/transitions.rs). The body of the
-- verb is any action on the world.
pub mod Files
pub mod Once
pub mod Replay
use kyriakon_infra.Base.{
  ℕ, List, [], ◌∷◌, Option, none, some, Bool, if◌then◌else◌, String, Result, ok, err,
}
use kyriakon_infra.Store.{ApplicationRef}
use kyriakon_infra.Journal.{has}
use kyriakon_infra.Transitions.World.{
  AfterLine, World, Action, pure, fail, ◌>>=◌, ◌>>◌, remove_intent, finish, write_journal,
}

pub record Envelope : Type 0 where
  pub id : String
  pub kind : String
  pub application : ApplicationRef

pub data Settlement : Type 0 where
  line : String → ApplicationRef → Option String → Option AfterLine → Settlement
  nothing : Settlement
  refused : String → Option String → Settlement

pub data RefusalFile : Type 0 where
  keep_file remove_file : RefusalFile

pub record Disposition : Type 0 where
  pub after : AfterLine
  pub refusal : RefusalFile

-- `Settlement::applied`
pub applied : ApplicationRef → Option String → Settlement
applied application note = line "applied" application note none

-- `Settlement::with_after`
pub with_after : AfterLine → Settlement → Settlement
with_after after (line outcome application note none) = line outcome application note (some after)
with_after after (line outcome application note (some more)) =
    line outcome application note (some more)
with_after after nothing = nothing
with_after after (refused reason failure) = refused reason failure

module _ {Time : Type 0} where
  pub dispose : RefusalFile → String → Action (World Time) Unit
  dispose keep_file file w = (ok tt, w)
  dispose remove_file file w = remove_intent file w

  pub finish_more : Option AfterLine → Action (World Time) Unit
  finish_more none w = (ok tt, w)
  finish_more (some more) w = finish more w

  pub report : Option String → Action (World Time) Unit
  report none w = (ok tt, w)
  report (some failure) w = (err failure, w)

module _ {Time : Type 0} (parse_time : String → Option Time) (now release : String) where
  -- The line, unless the journal carries it already.
  pub write_once : Envelope → String → ApplicationRef → Option String → Action (World Time) Unit
  write_once envelope outcome application note w =
      if has envelope.id outcome w.index
      then (ok tt, w)
      else write_journal parse_time now release envelope.id envelope.kind application outcome note w

  -- What is done with what the body returned.
  pub conclude : String → Envelope → Disposition → Settlement → Action (World Time) Unit
  conclude file envelope disposition (line outcome application note more) =
      write_once envelope outcome application note
      >> (finish disposition.after >> (finish_more more >> remove_intent file))
  conclude file envelope disposition nothing = finish disposition.after >> remove_intent file
  conclude file envelope disposition (refused reason failure) =
      write_journal parse_time now release envelope.id envelope.kind envelope.application "refused"
        (some reason)
      >> (dispose disposition.refusal file >> report failure)

  pub settle :
      String → Envelope → Disposition → Action (World Time) Settlement → Action (World Time) Unit
  settle file envelope disposition body w =
      if has envelope.id "applied" w.index
      then (finish disposition.after >> remove_intent file) w
      else if has envelope.id "refused" w.index
      then dispose disposition.refusal file w
      else (body >>= conclude file envelope disposition) w
