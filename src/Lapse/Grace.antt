-- ===== src/Lapse/Grace.antt =====
-- A member is deleted only after the forty days of a grace that began with the stop of the access.
use kyriakon_infra.Base.{
  String, List, ℕ, some, [], ◌∷◌, ◌+◌, true, ◌≡◌, inl, inr, Bool-cases, ap, refl, none, Option,
  str_eq, Result, err, ◌∙◌,
}
use kyriakon_infra.Transitions.World.{Action, Fault, ◌>>◌}
use kyriakon_infra.Lapse.{
  Member, Effect, Case, Stamps, Move, passing, suspending, resuming, move, moves, stop, restore,
  line, suspended_notice, day_of, act, write_member, note_once, suspended_member, suspend_member,
  suspend, resumed_member, resume_member, resume,
}
use kyriakon_infra.Base.Chars.{codes, trim_text}
use kyriakon_infra.Payments.{is_empty}
use kyriakon_infra.Lapse.Fair.{
  IsFair, Preserves, Grants, stopped_by, deleted_on, then-Preserves, act-Preserves, written_then,
  unfaulted, note_once-Preserves, then-fair, stop_written, note_once-member,
}
use kyriakon_infra.Lapse.Sweep.{sweep-fair}

module _ (stamps : Stamps)
    (reads_back : (d : ℕ) → stamps.parse_date (stamps.date_string d) ≡ some d) where
  suspended-Grants :
      (now : ℕ) (reason : String) (m : Member) (es : List (ℕ × Effect))
      → Grants stamps m es
      → stopped_by (day_of now + 40) es ≡ true
      → Grants stamps (suspended_member stamps now reason m) es
  unfolding suspended_member
  suspended-Grants now reason m es g s = go m.grace_until refl
    where
      go :
          (o : Option String)
          → m.grace_until ≡ o
          → (text : String)
          → elim o as (λ _. Option String) [
            | none ↦ some (stamps.date_string (day_of now + 40))
            | some t ↦ some t
          ]
            ≡ some text
          → (d : ℕ) → stamps.parse_date text ≡ some d
          → stopped_by d es ≡ true
      go none e text y d z =
          let back = reads_back (day_of now + 40) in
          let same : d ≡ day_of now + 40 = cc in rw same s
      go (some t) e text y d z = g text (e ∙ y) d z

  suspend_member-fair :
      (now : ℕ) (reason : String) (m : Member) (c : Case)
      → IsFair stamps c
      → c.member ≡ some m
      → IsFair stamps (suspend_member stamps now reason m c).1
  unfolding suspend_member
  suspend_member-fair now reason m c h e =
      let n : Member = suspended_member stamps now reason m in
      let told : Action Case Unit = note_once now "suspend" "applied" >> act now suspended_notice in
      let first : Action Case Unit = note_once now "suspend" "applying" in
      let noted : IsFair stamps (first c).1 =
        note_once-Preserves stamps now "suspend" "applying" c h in
      let hk : Preserves stamps told =
        then-Preserves stamps (note_once now "suspend" "applied") (act now suspended_notice)
          (note_once-Preserves stamps now "suspend" "applied")
          (act-Preserves stamps now suspended_notice refl) in
      then-fair stamps first (act now stop >> (write_member n >> told)) c noted (
        stop_written stamps now m n told (first c).1 noted
          (note_once-member stamps now "suspend" "applying" c ∙ e) (suspended-Grants now reason m)
          hk)

  suspend-fair :
      (now : ℕ) (reason : String) (c : Case)
      → IsFair stamps c
      → IsFair stamps (suspend stamps now reason c).1
  unfolding suspend
  suspend-fair now reason c h = elim (Bool-cases (is_empty (codes (trim_text reason)))) [
    | inl x ↦ rw (x, suspend) h
    | inr x ↦ rw (x, suspend) (go c.member refl)
  ]
    where
      go :
          (o : Option Member)
          → c.member ≡ o
          → IsFair stamps
              (elim o as (λ _. Result String Unit × Case) [
                | none ↦ (err "no account", c)
                | some m ↦ suspend_member stamps now (trim_text reason) m c
              ]).1
      go none e = h
      go (some m) e = suspend_member-fair now (trim_text reason) m c h e

  resume_member-fair :
      (now : ℕ) (m : Member) (c : Case) → IsFair stamps c → IsFair stamps (resume_member now m c).1
  unfolding resume_member resumed_member
  resume_member-fair now m c h = elim (Bool-cases (str_eq m.state "suspended")) [
    | inr x ↦ rw (x, resume_member) h
    | inl x ↦
        let cleared : Action Case Unit =
          write_member (resumed_member m) >> act now (line "resume" "applied") in
        let hk : Preserves stamps cleared = λ d f.
          written_then stamps (resumed_member m) (act now (line "resume" "applied")) d f
            (λ text y. absurd cc) (act-Preserves stamps now (line "resume" "applied") refl) in
        rw (x, resume_member)
          (then-Preserves stamps (act now (line "resume" "applying")) (act now restore >> cleared)
            (act-Preserves stamps now (line "resume" "applying") refl)
            (then-Preserves stamps (act now restore) cleared (act-Preserves stamps now restore refl)
              hk)
            c h)
  ]

  resume-fair : (now : ℕ) (c : Case) → IsFair stamps c → IsFair stamps (resume now c).1
  unfolding resume
  resume-fair now c h = go c.member
    where
      go :
          (o : Option Member)
          → IsFair stamps
              (elim o as (λ _. Result String Unit × Case) [
                | none ↦ (err "no account", c)
                | some m ↦ resume_member now m c
              ]).1
      go none = h
      go (some m) = resume_member-fair now m c h

  move-fair : (m : Move) (c : Case) → IsFair stamps c → IsFair stamps (move stamps m c)
  unfolding move
  move-fair (passing p) c h = sweep-fair stamps reads_back p c h
  move-fair (suspending now reason fs) c h =
      suspend-fair now reason (record c { faults = fs }) (unfaulted stamps c fs h)
  move-fair (resuming now fs) c h =
      resume-fair now (record c { faults = fs }) (unfaulted stamps c fs h)

  moves-fair : (ms : List Move) (c : Case) → IsFair stamps c → IsFair stamps (moves stamps ms c)
  unfolding moves
  moves-fair [] c h = h
  moves-fair (m ∷ ms) c h = moves-fair ms (move stamps m c) (move-fair m c h)

  -- An account in no grace, with nothing done yet: over any passes, suspensions and resumptions, at any
  -- times and with calls that fail anywhere, where a date that is printed reads back as itself, a deletion
  -- by the sweep on a day has a stop of the access forty days before it or earlier.
  pub deleted_after_grace :
      (m : Member) (fs : List Fault) (ms : List Move) (d : ℕ)
      → m.grace_until ≡ none
      → let c = moves stamps ms (record { member = some m; effects = []; faults = fs }) in
        deleted_on d c.effects ≡ true → stopped_by d c.effects ≡ true
  unfolding deleted_on stopped_by
  deleted_after_grace m fs ms d n =
      let start : Case = record { member = some m; effects = []; faults = fs } in
      let fair : IsFair stamps start = record {
        deleted = λ d x. absurd cc;
        granted = λ k e text y. absurd (not_both m k text n e y);
      } in
      (moves-fair ms start fair).deleted d
    where
      not_both :
          (m k : Member) (text : String)
          → m.grace_until ≡ none
          → some m ≡ some k
          → k.grace_until ≡ some text
          → ⊥
      not_both m k text n e y =
          let same : m ≡ k = cc in let z = ap (λ x. x.grace_until) same in absurd cc
