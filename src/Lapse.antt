-- ===== src/Lapse.antt =====
-- The life of one account (the account loops of `window_sweep` and `grace_sweep`, and `suspend` and
-- `resume`, of onboard/src/transitions/lifecycle.rs): a window that closes unpaid lapses it, and the
-- grace that follows ends with its deletion. A date is the number of its day and a time that of its
-- second; a failure that the code prints and passes over is no error of the sweep.
pub mod Fair
pub mod Sweep
pub mod Grace
pub mod Extend
pub mod Erase
mod Tests
use kyriakon_infra.Base.{
  String, List, Option, Result, Bool, ℕ, some, none, ok, err, [], ◌∷◌, if◌then◌else◌, not, str_eq,
  leb, ltb, ◌&&◌, ◌||◌, ◌+◌, ◌/◌, true, false,
}
use kyriakon_infra.Ledger.Record.{is_some}
use kyriakon_infra.Base.Chars.{codes, trim_text}
use kyriakon_infra.Payments.{is_empty}
use kyriakon_infra.Transitions.World.{Action, Fault, fine, early, late, ◌>>◌, ◌>>=◌}

pub record Window : Type 0 where
  pub state : String
  pub closes_at : String
  pub extensions : ℕ

-- Of `Account` and its payment what the sweeps read and write.
pub record Member : Type 0 where
  pub state : String
  pub grace_until : Option String
  pub paid_until : Option String
  pub window : Option Window
  pub group : Option String
  pub suspension_reason : Option String

-- What the sweeps do beside the record: the script that stops access, the copy of the payment, the
-- notices, the deletion, and a line of the journal on the account itself (a verb and an outcome).
pub data Effect : Type 0 where
  stop restore copy lapse_notice grace_notice final_notice suspension_notice suspended_notice
        delete :
      Effect
  line : String → String → Effect

-- The account's record, what was done and on which day, the last first, and the faults to come.
pub record Case : Type 0 where
  pub member : Option Member
  pub effects : List (ℕ × Effect)
  pub faults : List Fault

-- The texts of times and dates.
pub record Stamps : Type 0 where
  pub parse_stamp : String → Option ℕ
  pub parse_date : String → Option ℕ
  pub date_string : ℕ → String

abbrev pub day_of : ℕ → ℕ
day_of now = now / 86400

unfoldable pub call : (Case → Case) → Action Case Unit
call effect c = elim c.faults [
  | [] ↦ (ok tt, effect c)
  | f ∷ fs ↦ elim f [
    | fine ↦ (ok tt, effect (record c { faults = fs }))
    | early ↦ (err "the call failed", record c { faults = fs })
    | late ↦ (err "the call failed", effect (record c { faults = fs }))
  ]
]

pub act : ℕ → Effect → Action Case Unit
act now e = call (λ c. record c { effects = (day_of now, e) ∷ c.effects })

pub write_member : Member → Action Case Unit
write_member m = call (λ c. record c { member = some m })

-- `delete_account`, which leaves no record.
pub delete_member : ℕ → Action Case Unit
delete_member now =
    call (λ c. record c { member = none; effects = (day_of now, delete) ∷ c.effects })

-- A failure is printed or reported, and the loop goes on.
abbrev pub pass_over : Action Case Unit → Action Case Unit
pass_over m c = (ok tt, (m c).1)

abbrev pub skip : Action Case Unit
skip c = (ok tt, c)

pub lapsed_member : Stamps → ℕ → Member → Window → Member
lapsed_member stamps now m w = record m {
  state = "lapsed";
  grace_until = some (stamps.date_string (day_of now + 40));
  window = some (record w { state = "closed" });
}

-- Access is stopped before the record says so.
pub lapse : Stamps → ℕ → Member → Window → Action Case Unit
lapse stamps now m w c =
    let rest : Action Case Unit =
      write_member (lapsed_member stamps now m w)
      >> (act now copy >> pass_over (act now lapse_notice)) in
    elim (act now stop c).0 [ err e ↦ (ok tt, (act now stop c).1) | ok u ↦ rest (act now stop c).1 ]

pub window_closes : Stamps → ℕ → Member → Window → Action Case Unit
window_closes stamps now m w =
    if is_some m.paid_until
    then write_member (record m { window = some (record w { state = "paid" }) }) >> act now copy
    else lapse stamps now m w

pub window_member : Stamps → ℕ → Member → Action Case Unit
window_member stamps now m = elim m.window [
  | none ↦ skip
  | some w ↦
      if str_eq w.state "closed"
      then if str_eq m.state "lapsed" then pass_over (act now lapse_notice) else skip
      else if not (str_eq w.state "open") || not (str_eq m.state "active")
      then skip
      else elim (stamps.parse_stamp w.closes_at) [
        | none ↦ skip
        | some closes ↦ if ltb now closes then skip else window_closes stamps now m w
      ]
]

abbrev pub when : Bool → Action Case Unit → Action Case Unit
when true m = m
when false m = skip

abbrev pub in_grace : Member → Bool
in_grace m = str_eq m.state "lapsed" || str_eq m.state "suspended"

-- The notices while the grace runs: the reminder in its last month, the final notice in its last week.
pub grace_notices : ℕ → Member → ℕ → Action Case Unit
grace_notices now m grace =
    when (str_eq m.state "lapsed" && (leb grace (day_of now + 30) && ltb (day_of now + 7) grace))
      (pass_over (act now grace_notice))
    >> when (leb grace (day_of now + 7)) (
        pass_over
          (act now (if str_eq m.state "suspended" then suspension_notice else final_notice)))

-- `ready` is what the journal says of a deletion that failed before.
pub grace_member : Stamps → ℕ → Bool → Member → Action Case Unit
grace_member stamps now ready m =
    if is_some m.group || not (in_grace m) then skip else elim m.grace_until [
      | none ↦ skip
      | some text ↦ elim (stamps.parse_date text) [
        | none ↦ skip
        | some grace ↦
            if leb grace (day_of now)
            then when ready (pass_over (delete_member now))
            else grace_notices now m grace
      ]
    ]

abbrev pub on_member : (Member → Action Case Unit) → Action Case Unit
on_member f c = elim c.member [ none ↦ (ok tt, c) | some m ↦ f m c ]

pub has_line : String → String → List (ℕ × Effect) → Bool
has_line verb outcome [] = false
has_line verb outcome ((day, line v o) ∷ es) =
    str_eq v verb && str_eq o outcome || has_line verb outcome es
has_line verb outcome ((day, e) ∷ es) = has_line verb outcome es

-- A line that the journal does not have yet.
pub note_once : ℕ → String → String → Action Case Unit
note_once now verb outcome c =
    when (not (has_line verb outcome c.effects)) (act now (line verb outcome)) c

-- A suspension that is tried again keeps the date that it first set.
pub suspended_member : Stamps → ℕ → String → Member → Member
suspended_member stamps now reason m = record m {
  state = "suspended";
  suspension_reason = some reason;
  grace_until = elim m.grace_until [
    | none ↦ some (stamps.date_string (day_of now + 40))
    | some text ↦ some text
  ];
}

pub suspend_member : Stamps → ℕ → String → Member → Action Case Unit
suspend_member stamps now reason m =
    note_once now "suspend" "applying"
    >> (act now stop
        >> (write_member (suspended_member stamps now reason m)
            >> (note_once now "suspend" "applied" >> act now suspended_notice)))

-- `suspend`, of an account whose name fits.
pub suspend : Stamps → ℕ → String → Action Case Unit
suspend stamps now reason c =
    let kept = trim_text reason in
    if is_empty (codes kept) then (err "a suspension needs a reason", c) else elim c.member [
      | none ↦ (err "no account", c)
      | some m ↦ suspend_member stamps now kept m c
    ]

pub resumed_member : Member → Member
resumed_member m = record m { state = "active"; suspension_reason = none; grace_until = none }

-- `resume`, of an account whose name fits.
pub resume_member : ℕ → Member → Action Case Unit
resume_member now m =
    if not (str_eq m.state "suspended")
    then (λ c. (err "the account is not suspended", c))
    else act now (line "resume" "applying")
      >> (act now restore >> (write_member (resumed_member m) >> act now (line "resume" "applied")))

pub resume : ℕ → Action Case Unit
resume now c = elim c.member [ none ↦ (err "no account", c) | some m ↦ resume_member now m c ]

-- A pass: its time, whether a deletion is due, and the faults that it meets.
pub record Pass : Type 0 where
  pub now : ℕ
  pub ready : Bool
  pub faults : List Fault

pub sweep : Stamps → Pass → Case → Case
sweep stamps p c =
    ((on_member (window_member stamps p.now) >> on_member (grace_member stamps p.now p.ready))
      (record c { faults = p.faults })).1

-- What happens to an account: a pass of the drain, or a command of the console with its time.
pub data Move : Type 0 where
  passing : Pass → Move
  suspending : ℕ → String → List Fault → Move
  resuming : ℕ → List Fault → Move

pub move : Stamps → Move → Case → Case
move stamps (passing p) c = sweep stamps p c
move stamps (suspending now reason fs) c = (suspend stamps now reason (record c { faults = fs })).1
move stamps (resuming now fs) c = (resume now (record c { faults = fs })).1

pub moves : Stamps → List Move → Case → Case
moves stamps [] c = c
moves stamps (m ∷ ms) c = moves stamps ms (move stamps m c)
