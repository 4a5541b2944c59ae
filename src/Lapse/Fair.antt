-- ===== src/Lapse/Fair.antt =====
-- What the sweeps keep: every grace that runs, and every deletion, began with a stop of the access.
use kyriakon_infra.Base.{
  String, List, Bool, ℕ, some, [], ◌∷◌, leb, ◌&&◌, ◌||◌, ◌+◌, ◌==◌, true, false, ◌≡◌, ◌≤◌, inl, inr,
  arith, Bool-cases, Result-cases, ok, ap, ◌∙◌, refl, not,
}
use kyriakon_infra.Transitions.World.{Action, Fault, fine, early, late, ◌>>◌, ◌>>=◌}
use kyriakon_infra.Lapse.{
  Member, Effect, Case, Stamps, stop, line, delete, day_of, call, act, write_member, pass_over,
  when, has_line, note_once,
}

abbrev is_stop : Effect → Bool
is_stop stop = true
is_stop _ = false

abbrev pub is_delete : Effect → Bool
is_delete delete = true
is_delete _ = false

-- Access was stopped forty days before the day, or earlier.
unfoldable pub stopped_by : ℕ → List (ℕ × Effect) → Bool
stopped_by d [] = false
stopped_by d ((day, e) ∷ es) = is_stop e && leb (day + 40) d || stopped_by d es

unfoldable pub deleted_on : ℕ → List (ℕ × Effect) → Bool
deleted_on d [] = false
deleted_on d ((day, e) ∷ es) = is_delete e && day == d || deleted_on d es

-- Every deletion has its stop, and every grace that runs began with one.
pub record IsFair (stamps : Stamps) (c : Case) : Type 0 where
  pub deleted : (d : ℕ) → deleted_on d c.effects ≡ true → stopped_by d c.effects ≡ true
  pub granted :
      (m : Member)
      → c.member ≡ some m
      → (text : String) → m.grace_until ≡ some text
      → (d : ℕ) → stamps.parse_date text ≡ some d
      → stopped_by d c.effects ≡ true

pub stopped_by-later :
    (d e : ℕ) (es : List (ℕ × Effect)) → d ≤ e → stopped_by d es ≡ true → stopped_by e es ≡ true
unfolding stopped_by
stopped_by-later d e [] h s = absurd cc
stopped_by-later d e ((day, x) ∷ es) h s = elim (Bool-cases (is_stop x && leb (day + 40) d)) [
  | inl f ↦ ground (arith, f, h)
  | inr f ↦
      let tail : stopped_by d es ≡ true = ground (arith, s, f) in
      ground (arith, stopped_by-later d e es h tail)
]

module _ (stamps : Stamps) where
  abbrev pub Preserves : Action Case Unit → Type 0
  Preserves m = (c : Case) → IsFair stamps c → IsFair stamps (m c).1

  pub then-Preserves : (m k : Action Case Unit) → Preserves m → Preserves k → Preserves (m >> k)
  then-Preserves m k hm hk c h = elim (Result-cases (m c).0) [
    | inl (u, e) ↦ rw (e, ◌>>=◌) (hk (m c).1 (hm c h))
    | inr (x, e) ↦ rw (e, ◌>>=◌) (hm c h)
  ]

  pub then-fair :
      (m k : Action Case Unit) (c : Case)
      → IsFair stamps (m c).1
      → IsFair stamps (k (m c).1).1
      → IsFair stamps ((m >> k) c).1
  then-fair m k c hm hk = elim (Result-cases (m c).0) [
    | inl (u, e) ↦ rw (e, ◌>>=◌) hk
    | inr (x, e) ↦ rw (e, ◌>>=◌) hm
  ]

  pub when-Preserves : (test : Bool) (m : Action Case Unit) → Preserves m → Preserves (when test m)
  when-Preserves true m h c = h c
  when-Preserves false m h c = λ f. f

  -- An effect that is no deletion.
  noted :
      (day : ℕ) (e : Effect) (c : Case) (fs : List Fault)
      → is_delete e ≡ false
      → IsFair stamps c
      → IsFair stamps (record c { effects = (day, e) ∷ c.effects; faults = fs })
  unfolding stopped_by deleted_on
  noted day e c fs n h = record {
    deleted = λ d x. ground (arith, n, x, h.deleted d);
    granted = λ m x text y d z. ground (arith, h.granted m x text y d z);
  }

  pub unfaulted :
      (c : Case) (fs : List Fault) → IsFair stamps c → IsFair stamps (record c { faults = fs })
  unfaulted c fs h = record { deleted = h.deleted; granted = h.granted }

  call-Preserves :
      (effect : Case → Case)
      → ((c : Case) (fs : List Fault)
          → IsFair stamps c
          → IsFair stamps (effect (record c { faults = fs })))
      → Preserves (call effect)
  unfolding call
  call-Preserves effect p c h = go c.faults (p c c.faults h)
    where
      go :
          (fs : List Fault)
          → IsFair stamps (effect c)
          → IsFair stamps (call effect (record c { faults = fs })).1
      go [] q = p c [] h
      go (fine ∷ fs) q = p c fs h
      go (early ∷ fs) q = unfaulted c fs h
      go (late ∷ fs) q = p c fs h

  pub act-Preserves : (now : ℕ) (e : Effect) → is_delete e ≡ false → Preserves (act now e)
  unfolding act
  act-Preserves now e n = call-Preserves _ (λ c fs h. noted (day_of now) e c fs n h)

  abbrev pub Grants : Member → List (ℕ × Effect) → Type 0
  Grants m es =
      (text : String)
      → m.grace_until ≡ some text
      → (d : ℕ) → stamps.parse_date text ≡ some d
      → stopped_by d es ≡ true

  write_member-fair :
      (m : Member) (c : Case)
      → IsFair stamps c
      → Grants m c.effects
      → IsFair stamps (write_member m c).1
  unfolding write_member call
  write_member-fair m c h g = go c.faults
    where
      some_inj : (m k : Member) → some m ≡ some k → m ≡ k
      some_inj m k e = cc

      written : (fs : List Fault) → IsFair stamps (record c { member = some m; faults = fs })
      written fs = record {
        deleted = h.deleted;
        granted = λ k e text y d z. g text (ap (λ k'. k'.grace_until) (some_inj m k e) ∙ y) d z;
      }

      go :
          (fs : List Fault)
          → IsFair stamps (call (λ c'. record c' { member = some m }) (record c { faults = fs })).1
      go [] = written []
      go (fine ∷ fs) = written fs
      go (early ∷ fs) = unfaulted c fs h
      go (late ∷ fs) = written fs

  pub stop_done :
      (now : ℕ) (c : Case) (u : Unit)
      → (act now stop c).0 ≡ ok u
      → stopped_by (day_of now + 40) (act now stop c).1.effects ≡ true
  unfolding act call stopped_by
  stop_done now c u h = go c.faults h
    where
      effect : Case → Case
      effect c' = record c' { effects = (day_of now, stop) ∷ c'.effects }

      go :
          (fs : List Fault)
          → (call effect (record c { faults = fs })).0 ≡ ok u
          → stopped_by (day_of now + 40) (call effect (record c { faults = fs })).1.effects ≡ true
      go [] e = ground arith
      go (fine ∷ fs) e = ground arith
      go (early ∷ fs) e = absurd cc
      go (late ∷ fs) e = absurd cc

  pub pass_over-Preserves : (m : Action Case Unit) → Preserves m → Preserves (pass_over m)
  pass_over-Preserves m h c f = h c f

  pub written_then :
      (m : Member) (k : Action Case Unit) (c : Case)
      → IsFair stamps c
      → Grants m c.effects
      → Preserves k
      → IsFair stamps ((write_member m >> k) c).1
  written_then m k c h g hk = elim (Result-cases (write_member m c).0) [
    | inl (u, e) ↦ rw (e, ◌>>=◌) (hk (write_member m c).1 (write_member-fair m c h g))
    | inr (x, e) ↦ rw (e, ◌>>=◌) (write_member-fair m c h g)
  ]

  act-member : (now : ℕ) (e : Effect) (c : Case) → (act now e c).1.member ≡ c.member
  unfolding act call
  act-member now e c = ground arith

  pub note_once-Preserves :
      (now : ℕ) (verb outcome : String) → Preserves (note_once now verb outcome)
  unfolding note_once
  note_once-Preserves now verb outcome c =
      when-Preserves (not (has_line verb outcome c.effects)) (act now (line verb outcome))
        (act-Preserves now (line verb outcome) refl) c

  pub note_once-member :
      (now : ℕ) (verb outcome : String) (c : Case)
      → (note_once now verb outcome c).1.member ≡ c.member
  unfolding note_once
  note_once-member now verb outcome c = go (not (has_line verb outcome c.effects))
    where
      go : (test : Bool) → (when test (act now (line verb outcome)) c).1.member ≡ c.member
      go true = act-member now (line verb outcome) c
      go false = refl

  -- A stop, and a record whose grace may have begun with it.
  pub stop_written :
      (now : ℕ) (m n : Member) (k : Action Case Unit) (c : Case)
      → IsFair stamps c
      → c.member ≡ some m
      → ((es : List (ℕ × Effect))
          → Grants m es
          → stopped_by (day_of now + 40) es ≡ true
          → Grants n es)
      → Preserves k
      → IsFair stamps ((act now stop >> (write_member n >> k)) c).1
  stop_written now m n k c h e g hk =
      let done : IsFair stamps (act now stop c).1 = act-Preserves now stop refl c h in
      elim (Result-cases (act now stop c).0) [
        | inr (x, f) ↦ rw (f, ◌>>=◌) done
        | inl (u, f) ↦
            rw (f, ◌>>=◌)
              (written_then n k (act now stop c).1 done
                (g (act now stop c).1.effects (done.granted m (act-member now stop c ∙ e))
                  (stop_done now c u f))
                hk)
      ]
