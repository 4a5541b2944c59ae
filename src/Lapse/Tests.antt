-- ===== src/Lapse/Tests.antt =====
-- The moves at work.
use kyriakon_infra.Base.{String, List, ℕ, zero, suc, ap, some, none, [], ◌∷◌, ◌≡◌, refl, true, ◌*◌}
use Prim.Native.Char.{char}
use kyriakon_infra.Lapse.{Member, Stamps, Move, passing, suspending, resuming, moves}
use kyriakon_infra.Lapse.Fair.{deleted_on, stopped_by}
use kyriakon_infra.Lapse.Extend.{WindowExtendIntent, IsWithin, extends, extended_once}
use kyriakon_infra.Lapse.Grace.{deleted_after_grace}
use kyriakon_infra.Transitions.World.{early, late}

abbrev member : Member
member = record {
  state = "active";
  grace_until = none;
  paid_until = none;
  window = some (record { state = "open"; closes_at = "day 10"; extensions = 0 });
  group = none;
  suspension_reason = none;
}

-- A suspension that is lifted; then the script fails on day 11 and works on day 12; the sweep of day 52 deletes.
abbrev passes : List Move
passes =
    suspending 86400 "spam" []
    ∷ resuming (2 * 86400) []
    ∷ passing (record { now = 11 * 86400; ready = true; faults = early ∷ [] })
    ∷ passing (record { now = 12 * 86400; ready = true; faults = [] })
    ∷ passing (record { now = 51 * 86400; ready = true; faults = [] })
    ∷ passing (record { now = 52 * 86400; ready = true; faults = [] })
    ∷ []

-- Dates as tallies.
tally : ℕ → String
tally zero = String.[]
tally (suc n) = String.◌∷◌ (char 97 tt) (tally n)

count : String → ℕ
count String.[] = 0
count (String.◌∷◌ c s) = suc (count s)

count-tally : (n : ℕ) → count (tally n) ≡ n
unfolding count tally
count-tally zero = refl
count-tally (suc n) = ap suc (count-tally n)

abbrev stamps : Stamps
stamps = record {
  parse_stamp = λ s. some 864000;
  parse_date = λ s. some (count s);
  date_string = tally;
}

deleted :
    deleted_on 52
      (moves stamps passes (record { member = some member; effects = []; faults = [] })).effects
    ≡ true
unfolding kyriakon_infra.Lapse.suspend kyriakon_infra.Lapse.suspend_member
    kyriakon_infra.Lapse.suspended_member kyriakon_infra.Lapse.note_once
    kyriakon_infra.Lapse.has_line kyriakon_infra.Lapse.resume kyriakon_infra.Lapse.resume_member
    kyriakon_infra.Lapse.resumed_member kyriakon_infra.Base.Chars.trim_text deleted_on moves
    kyriakon_infra.Lapse.move kyriakon_infra.Lapse.sweep kyriakon_infra.Lapse.window_member
    kyriakon_infra.Lapse.window_closes kyriakon_infra.Lapse.lapse kyriakon_infra.Lapse.act
    kyriakon_infra.Lapse.call kyriakon_infra.Lapse.grace_member kyriakon_infra.Lapse.write_member
    kyriakon_infra.Lapse.lapsed_member count tally kyriakon_infra.Lapse.grace_notices
    kyriakon_infra.Lapse.delete_member
deleted = refl

deleted_after_grace_example :
    stopped_by 52
      (moves stamps passes (record { member = some member; effects = []; faults = [] })).effects
    ≡ true
deleted_after_grace_example =
    deleted_after_grace stamps (λ d. ap some (count-tally d)) member [] passes 52 refl deleted

abbrev extension : WindowExtendIntent
extension = record { token = "KYR-4F2M-9QH7-XT3B"; days = 14; reason = "the post was late" }

-- The record is written and the call reports an error all the same; the extension is filed again.
extended_once_example :
    IsWithin stamps tally
      (record { state = "open"; closes_at = "day 10"; extensions = 0 })
      (extends stamps tally
        ((1, (extension, late ∷ [])) ∷ (2, (extension, [])) ∷ [])
        (record { member = some member; effects = []; faults = [] }))
extended_once_example =
    extended_once stamps tally (record { state = "open"; closes_at = "day 10"; extensions = 0 })
      member [] ((1, (extension, late ∷ [])) ∷ (2, (extension, [])) ∷ []) refl refl
