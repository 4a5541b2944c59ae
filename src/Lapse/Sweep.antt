-- ===== src/Lapse/Sweep.antt =====
-- The sweeps keep what Fair says of a grace and of a deletion.
use kyriakon_infra.Base.{
  String, List, Bool, ℕ, some, [], ◌∷◌, leb, ◌&&◌, ◌||◌, ◌+◌, ◌==◌, true, false, ◌≡◌, inl, inr,
  arith, Bool-cases, Result-cases, ok, if◌then◌else◌, refl, none, Option, str_eq, ltb, not, Result,
}
use kyriakon_infra.Transitions.World.{Action, Fault, fine, early, late, ◌>>◌}
use kyriakon_infra.Lapse.{
  Window, Member, Effect, Case, Stamps, Pass, stop, copy, lapse_notice, grace_notice, final_notice,
  suspension_notice, delete, day_of, call, act, write_member, delete_member, pass_over, skip,
  lapsed_member, lapse, window_closes, window_member, when, in_grace, grace_notices, grace_member,
  on_member, sweep,
}
use kyriakon_infra.Ledger.Record.{is_some}
use kyriakon_infra.Lapse.Fair.{
  IsFair, Preserves, Grants, is_delete, stopped_by, deleted_on, stopped_by-later, then-Preserves,
  when-Preserves, act-Preserves, written_then, stop_done, unfaulted, pass_over-Preserves,
}

module _ (stamps : Stamps)
    (reads_back : (d : ℕ) → stamps.parse_date (stamps.date_string d) ≡ some d) where
  lapse-fair :
      (now : ℕ) (m : Member) (w : Window) (c : Case)
      → IsFair stamps c
      → IsFair stamps (lapse stamps now m w c).1
  unfolding lapse lapsed_member
  lapse-fair now m w c h =
      let done : IsFair stamps (act now stop c).1 = act-Preserves stamps now stop refl c h in
      let told : Preserves stamps (act now copy >> pass_over (act now lapse_notice)) =
        then-Preserves stamps (act now copy) (pass_over (act now lapse_notice))
          (act-Preserves stamps now copy refl)
          (pass_over-Preserves stamps (act now lapse_notice)
            (act-Preserves stamps now lapse_notice refl)) in
      elim (Result-cases (act now stop c).0) [
        | inr (x, e) ↦ rw (e, lapse) done
        | inl (u, e) ↦
            rw (e, lapse)
              (written_then stamps (lapsed_member stamps now m w)
                (act now copy >> pass_over (act now lapse_notice)) (act now stop c).1 done
                (granted (act now stop c).1.effects (stop_done stamps now c u e)) told)
      ]
    where
      agree :
          (es : List (ℕ × Effect)) (text : String) (d e : ℕ)
          → stopped_by e es ≡ true
          → some (stamps.date_string e) ≡ some text
          → stamps.parse_date (stamps.date_string e) ≡ some e
          → stamps.parse_date text ≡ some d
          → stopped_by d es ≡ true
      agree es text d e s t r z = let same : d ≡ e = cc in rw same s

      granted :
          (es : List (ℕ × Effect))
          → stopped_by (day_of now + 40) es ≡ true
          → Grants stamps (lapsed_member stamps now m w) es
      granted es s text y d z =
          agree es text d (day_of now + 40) s y (reads_back (day_of now + 40)) z

  window_closes-fair :
      (now : ℕ) (m : Member) (w : Window) (c : Case)
      → IsFair stamps c
      → c.member ≡ some m
      → IsFair stamps (window_closes stamps now m w c).1
  unfolding window_closes
  window_closes-fair now m w c h e = go (is_some m.paid_until)
    where
      go :
          (paid : Bool)
          → IsFair stamps
              ((if paid
                  then write_member (record m { window = some (record w { state = "paid" }) })
                    >> act now copy
                  else lapse stamps now m w)
                c).1
      go true =
          written_then stamps (record m { window = some (record w { state = "paid" }) })
            (act now copy) c h (h.granted m e) (act-Preserves stamps now copy refl)
      go false = lapse-fair now m w c h

  window_member-fair :
      (now : ℕ) (m : Member) (c : Case)
      → IsFair stamps c
      → c.member ≡ some m
      → IsFair stamps (window_member stamps now m c).1
  unfolding window_member
  window_member-fair now m c h e = go m.window
    where
      open_window :
          (w : Window) (closes : Option ℕ)
          → IsFair stamps
              ((elim closes as (λ _. Action Case Unit) [
                | none ↦ skip
                | some at ↦ if ltb now at then skip else window_closes stamps now m w
              ])
                c).1
      open_window w none = h
      open_window w (some at) = elim (Bool-cases (ltb now at)) [
        | inl x ↦ rw x h
        | inr x ↦ rw x (window_closes-fair now m w c h e)
      ]

      closed_window :
          (lapsed : Bool)
          → IsFair stamps ((if lapsed then pass_over (act now lapse_notice) else skip) c).1
      closed_window true = act-Preserves stamps now lapse_notice refl c h
      closed_window false = h

      go :
          (w : Option Window)
          → IsFair stamps
              ((elim w as (λ _. Action Case Unit) [
                | none ↦ skip
                | some w ↦
                    if str_eq w.state "closed"
                    then if str_eq m.state "lapsed" then pass_over (act now lapse_notice) else skip
                    else if not (str_eq w.state "open") || not (str_eq m.state "active")
                    then skip
                    else elim (stamps.parse_stamp w.closes_at) [
                      | none ↦ skip
                      | some closes ↦ if ltb now closes then skip else window_closes stamps now m w
                    ]
              ])
                c).1
      go none = h
      go (some w) = elim (Bool-cases (str_eq w.state "closed")) [
        | inl x ↦ rw x (closed_window (str_eq m.state "lapsed"))
        | inr x ↦ elim (Bool-cases (not (str_eq w.state "open") || not (str_eq m.state "active"))) [
          | inl y ↦ rw (x, y) h
          | inr y ↦ rw (x, y) (open_window w (stamps.parse_stamp w.closes_at))
        ]
      ]

  grace_notices-Preserves :
      (now : ℕ) (m : Member) (grace : ℕ) → Preserves stamps (grace_notices now m grace)
  unfolding grace_notices
  grace_notices-Preserves now m grace =
      let last : Effect = if str_eq m.state "suspended" then suspension_notice else final_notice in
      let first_test =
        str_eq m.state "lapsed" && (leb grace (day_of now + 30) && ltb (day_of now + 7) grace) in
      then-Preserves stamps (when first_test (pass_over (act now grace_notice)))
        (when (leb grace (day_of now + 7)) (pass_over (act now last)))
        (when-Preserves stamps first_test (pass_over (act now grace_notice))
          (act-Preserves stamps now grace_notice refl))
        (when-Preserves stamps (leb grace (day_of now + 7)) (pass_over (act now last))
          (act-Preserves stamps now last (no_deletion (str_eq m.state "suspended"))))
    where
      no_deletion : (s : Bool) → is_delete (if s then suspension_notice else final_notice) ≡ false
      no_deletion true = refl
      no_deletion false = refl

  delete_member-fair :
      (now : ℕ) (c : Case)
      → IsFair stamps c
      → stopped_by (day_of now) c.effects ≡ true
      → IsFair stamps (delete_member now c).1
  unfolding delete_member call stopped_by deleted_on
  delete_member-fair now c h s = go c.faults
    where
      gone :
          (fs : List Fault)
          → IsFair stamps
              (record c { member = none; effects = (day_of now, delete) ∷ c.effects; faults = fs })
      gone fs = record {
        deleted = λ d x. elim (Bool-cases (day_of now == d)) [
          | inl y ↦ ground (arith, y, s)
          | inr y ↦ ground (arith, x, y, h.deleted d)
        ];
        granted = λ m e. absurd cc;
      }

      effect : Case → Case
      effect c' = record c' { member = none; effects = (day_of now, delete) ∷ c'.effects }

      go : (fs : List Fault) → IsFair stamps (call effect (record c { faults = fs })).1
      go [] = gone []
      go (fine ∷ fs) = gone fs
      go (early ∷ fs) = unfaulted stamps c fs h
      go (late ∷ fs) = gone fs

  grace_member-fair :
      (now : ℕ) (ready : Bool) (m : Member) (c : Case)
      → IsFair stamps c
      → c.member ≡ some m
      → IsFair stamps (grace_member stamps now ready m c).1
  unfolding grace_member
  grace_member-fair now ready m c h e = elim (Bool-cases (is_some m.group || not (in_grace m))) [
    | inl x ↦ rw x h
    | inr x ↦ rw x (dated m.grace_until refl)
  ]
    where
      by_ready :
          (r : Bool)
          → stopped_by (day_of now) c.effects ≡ true
          → IsFair stamps (when r (pass_over (delete_member now)) c).1
      by_ready true s = delete_member-fair now c h s
      by_ready false s = h

      ended :
          (grace : ℕ)
          → stopped_by grace c.effects ≡ true
          → IsFair stamps
              ((if leb grace (day_of now)
                  then when ready (pass_over (delete_member now))
                  else grace_notices now m grace)
                c).1
      ended grace s = elim (Bool-cases (leb grace (day_of now))) [
        | inr y ↦ rw y (grace_notices-Preserves now m grace c h)
        | inl y ↦
            rw y
              (by_ready ready (stopped_by-later grace (day_of now) c.effects (ground (arith, y)) s))
      ]

      parsed :
          (text : String)
          → m.grace_until ≡ some text
          → (d : Option ℕ) → stamps.parse_date text ≡ d
          → IsFair stamps
              ((elim d as (λ _. Action Case Unit) [
                | none ↦ skip
                | some grace ↦
                    if leb grace (day_of now)
                    then when ready (pass_over (delete_member now))
                    else grace_notices now m grace
              ])
                c).1
      parsed text y none z = h
      parsed text y (some grace) z = ended grace (h.granted m e text y grace z)

      dated :
          (g : Option String)
          → m.grace_until ≡ g
          → IsFair stamps
              ((elim g as (λ _. Action Case Unit) [
                | none ↦ skip
                | some text ↦ elim (stamps.parse_date text) [
                  | none ↦ skip
                  | some grace ↦
                      if leb grace (day_of now)
                      then when ready (pass_over (delete_member now))
                      else grace_notices now m grace
                ]
              ])
                c).1
      dated none y = h
      dated (some text) y = parsed text y (stamps.parse_date text) refl

  on_member-Preserves :
      (f : Member → Action Case Unit)
      → ((m : Member) (c : Case) → IsFair stamps c → c.member ≡ some m → IsFair stamps (f m c).1)
      → Preserves stamps (on_member f)
  on_member-Preserves f p c h = go c.member refl
    where
      go :
          (o : Option Member)
          → c.member ≡ o
          → IsFair stamps
              (elim o as (λ _. Result String Unit × Case) [ none ↦ (ok tt, c) | some m ↦ f m c ]).1
      go none e = h
      go (some m) e = p m c h e

  pub sweep-fair : (p : Pass) (c : Case) → IsFair stamps c → IsFair stamps (sweep stamps p c)
  unfolding sweep
  sweep-fair p c h =
      then-Preserves stamps (on_member (window_member stamps p.now))
        (on_member (grace_member stamps p.now p.ready))
        (on_member-Preserves (window_member stamps p.now) (window_member-fair p.now))
        (on_member-Preserves (grace_member stamps p.now p.ready) (grace_member-fair p.now p.ready))
        (record c { faults = p.faults }) (unfaulted stamps c p.faults h)
