-- ===== src/Lapse/Extend.antt =====
-- The one extension of a payment window (`window_extend` of an account and `extend_open_window` of
-- onboard/src/transitions/lifecycle.rs). The time is that of a second, and `stamp_string` its text.
use kyriakon_infra.Base.{
  String, List, Option, Result, ℕ, some, none, ok, err, [], ◌∷◌, if◌then◌else◌, not, str_eq, leb,
  ◌||◌, ◌+◌, ◌*◌, ◌==◌, false, ◌≡◌, inl, inr, arith, Bool-cases, Option-cases, Result-cases, refl,
  sym, Bool, ◌∙◌, true, ap,
}
use mathlib.Core.Path.{subst}
use kyriakon_infra.Base.Chars.{codes, trim_text}
use kyriakon_infra.Ledger.Record.{is_some}
use kyriakon_infra.Payments.{is_empty}
use kyriakon_infra.Store.Tokens.{is_payment_token}
use kyriakon_infra.Lapse.{Window, Member, Case, Stamps, act, write_member, copy, call, Effect}
use kyriakon_infra.Transitions.World.{Action, Fault, ◌>>◌, ◌>>=◌, fine, early, late}

pub record WindowExtendIntent : Type 0 where
  pub token : String
  pub days : ℕ
  pub reason : String

pub data Problem : Type 0 where
  bad_token not_fourteen no_reason no_window not_open extended_before close_unreadable no_account :
      Problem

-- The checks on the intent alone.
pub intent_problem : WindowExtendIntent → Option Problem
intent_problem intent =
    if not (is_payment_token (codes intent.token))
    then some bad_token
    else if not (intent.days == 14)
    then some not_fourteen
    else if is_empty (codes (trim_text intent.reason))
    then some no_reason
    else none

ok-inj : (v u : Window) (r : Result Problem Window) → r ≡ ok v → r ≡ ok u → v ≡ u
ok-inj v u r g h = cc

some_inj : {A : Type 0} (x y : A) → some x ≡ some y → x ≡ y
some_inj x y e = cc

-- A try: its time, its intent and the faults that it meets.
abbrev pub Note : Type 0
Note = ℕ × (WindowExtendIntent × List Fault)

abbrev pub extended_now : Action Case (Option Problem)
extended_now d = (ok none, d)

-- A read or a write of the token index, which is not in the state: it can fail.
unfoldable index_call : Action Case Unit
index_call = call (λ d. d)

abbrev store_window : ℕ → Member → Action Case (Option Problem)
store_window now m =
    index_call >> (write_member m >> (act now copy >> (index_call >> extended_now)))

module _ (stamps : Stamps) (stamp_string : ℕ → String) where
  pub extend_open_window : Option String → Window → ℕ → Result Problem Window
  extend_open_window paid_until window days =
      if is_some paid_until || not (str_eq window.state "open")
      then err not_open
      else if leb 1 window.extensions
      then err extended_before
      else elim (stamps.parse_stamp window.closes_at) [
        | none ↦ err close_unreadable
        | some closes ↦ ok (record window {
          closes_at = stamp_string (closes + days * 86400);
          extensions = window.extensions + 1;
        })
      ]

  pub extend_member : ℕ → ℕ → Member → Action Case (Option Problem)
  extend_member now days m c = elim m.window [
    | none ↦ (ok (some no_window), c)
    | some window ↦ elim (extend_open_window m.paid_until window days) [
      | err problem ↦ (ok (some problem), c)
      | ok moved ↦ store_window now (record m { window = some moved }) c
    ]
  ]

  -- `window_extend` where the token is that of the account, if there is one that it resolves to.
  pub window_extend : ℕ → WindowExtendIntent → Action Case (Option Problem)
  window_extend now intent c = elim (intent_problem intent) [
    | some problem ↦ (ok (some problem), c)
    | none ↦ elim c.member [
      | none ↦ (ok (some no_account), c)
      | some m ↦ extend_member now intent.days m c
    ]
  ]

  pub extends : List Note → Case → Case
  extends [] c = c
  extends ((now, (intent, fs)) ∷ rest) c =
      extends rest (window_extend now intent (record c { faults = fs })).1

  -- The window as it began, or fourteen days longer and used up.
  pub data Extended (w : Window) : Window → Type 0 where
    as_it_was : Extended w w
    longer :
        (closes : ℕ)
        → stamps.parse_stamp w.closes_at ≡ some closes
        → Extended w (record w {
          closes_at = stamp_string (closes + 14 * 86400);
          extensions = w.extensions + 1;
        })

  -- The account still has its window, perhaps extended.
  pub record IsWithin (w : Window) (c : Case) : Type 0 where
    pub member : Member
    pub window : Window
    pub found : c.member ≡ some member
    pub has : member.window ≡ some window
    pub extended : Extended w window

  extend-Extended :
      (paid_until : Option String) (w v u : Window)
      → w.extensions ≡ 0
      → Extended w v
      → extend_open_window paid_until v 14 ≡ ok u
      → Extended w u
  unfolding extend_open_window
  extend-Extended paid_until w v u z e h =
      elim (Bool-cases (is_some paid_until || not (str_eq v.state "open"))) [
        | inl x ↦ let bad = rw x at h in absurd cc
        | inr x ↦ elim (Bool-cases (leb 1 v.extensions)) [
          | inl y ↦ let bad = rw (x, y) at h in absurd cc
          | inr y ↦ elim (Option-cases (stamps.parse_stamp v.closes_at)) [
            | inl q ↦ let bad = rw (x, y, q) at h in absurd cc
            | inr (closes, q) ↦ first v e y closes q (ok-inj _ u _ refl (rw (x, y, q) at h))
          ]
        ]
      ]
    where
      first :
          (v : Window)
          → Extended w v
          → leb 1 v.extensions ≡ false
          → (closes : ℕ) → stamps.parse_stamp v.closes_at ≡ some closes
          → record v {
            closes_at = stamp_string (closes + 14 * 86400);
            extensions = v.extensions + 1;
          }
            ≡ u
          → Extended w u
      first _ as_it_was y closes q g = subst (λ k. Extended w k) g (longer closes q)
      first _ (longer closes' q') y closes q g = absurd (ground (arith, y))

  unfaulted-IsWithin :
      (w : Window) (c : Case) (fs : List Fault)
      → IsWithin w c
      → IsWithin w (record c { faults = fs })
  unfaulted-IsWithin w c fs h = record {
    member = h.member;
    window = h.window;
    found = h.found;
    has = h.has;
    extended = h.extended;
  }

  noted-IsWithin :
      (w : Window) (now : ℕ) (e : Effect) (c : Case) → IsWithin w c → IsWithin w (act now e c).1
  unfolding act call
  noted-IsWithin w now e c h = record {
    member = h.member;
    window = h.window;
    found = ground (arith, h.found);
    has = h.has;
    extended = h.extended;
  }

  write-IsWithin :
      (w u : Window) (m : Member) (c : Case)
      → IsWithin w c
      → Extended w u
      → m.window ≡ some u
      → IsWithin w (write_member m c).1
  unfolding write_member call
  write-IsWithin w u m c h x e = go c.faults
    where
      written : (fs : List Fault) → IsWithin w (record c { member = some m; faults = fs })
      written fs = record { member = m; window = u; found = refl; has = e; extended = x }

      go :
          (fs : List Fault)
          → IsWithin w (call (λ d. record d { member = some m }) (record c { faults = fs })).1
      go [] = written []
      go (fine ∷ fs) = written fs
      go (early ∷ fs) = unfaulted-IsWithin w c fs h
      go (late ∷ fs) = written fs

  then-IsWithin :
      {B : Type 0} (w : Window) (m : Action Case Unit) (k : Action Case B) (c : Case)
      → IsWithin w (m c).1
      → IsWithin w (k (m c).1).1
      → IsWithin w ((m >> k) c).1
  then-IsWithin w m k c hm hk = elim (Result-cases (m c).0) [
    | inl (a, e) ↦ rw (e, ◌>>=◌) hk
    | inr (x, e) ↦ rw (e, ◌>>=◌) hm
  ]

  index_call-IsWithin : (w : Window) (c : Case) → IsWithin w c → IsWithin w (index_call c).1
  unfolding index_call call
  index_call-IsWithin w c h = record {
    member = h.member;
    window = h.window;
    found = ground (arith, h.found);
    has = h.has;
    extended = h.extended;
  }

  store_window-IsWithin :
      (w u : Window) (now : ℕ) (m : Member) (c : Case)
      → IsWithin w c
      → Extended w u
      → m.window ≡ some u
      → IsWithin w (store_window now m c).1
  store_window-IsWithin w u now m c h x e =
      let read : IsWithin w (index_call c).1 = index_call-IsWithin w c h in
      let d : Case = (index_call c).1 in
      let stored : IsWithin w (write_member m d).1 = write-IsWithin w u m d read x e in
      let copied = noted-IsWithin w now copy (write_member m d).1 stored in
      let indexed = index_call-IsWithin w (act now copy (write_member m d).1).1 copied in
      then-IsWithin w index_call (write_member m >> (act now copy >> (index_call >> extended_now)))
        c read
        (then-IsWithin w (write_member m) (act now copy >> (index_call >> extended_now)) d stored (
          then-IsWithin w (act now copy) (index_call >> extended_now) (write_member m d).1 copied (
            then-IsWithin w index_call extended_now (act now copy (write_member m d).1).1 indexed
              indexed)))

  extend_member-IsWithin :
      (w : Window) (now : ℕ) (m : Member) (c : Case)
      → w.extensions ≡ 0
      → IsWithin w c
      → ((v : Window) → m.window ≡ some v → Extended w v)
      → IsWithin w (extend_member now 14 m c).1
  unfolding extend_member
  extend_member-IsWithin w now m c z h x = go m.window refl
    where
      moved :
          (v : Window) (r : Result Problem Window)
          → Extended w v
          → extend_open_window m.paid_until v 14 ≡ r
          → IsWithin w
              (elim r as (λ _. Result String (Option Problem) × Case) [
                | err problem ↦ (ok (some problem), c)
                | ok u ↦ store_window now (record m { window = some u }) c
              ]).1
      moved v (err problem) e q = h
      moved v (ok u) e q =
          store_window-IsWithin w u now (record m { window = some u }) c h
            (extend-Extended m.paid_until w v u z e q) refl

      go :
          (o : Option Window)
          → m.window ≡ o
          → IsWithin w
              (elim o as (λ _. Result String (Option Problem) × Case) [
                | none ↦ (ok (some no_window), c)
                | some window ↦ elim (extend_open_window m.paid_until window 14) [
                  | err problem ↦ (ok (some problem), c)
                  | ok u ↦ store_window now (record m { window = some u }) c
                ]
              ]).1
      go none e = h
      go (some v) e = moved v (extend_open_window m.paid_until v 14) (x v e) refl

  fourteen : (intent : WindowExtendIntent) → intent_problem intent ≡ none → intent.days ≡ 14
  unfolding intent_problem
  fourteen intent h = elim (Bool-cases (intent.days == 14)) [
    | inl x ↦ ground (arith, x)
    | inr x ↦ absurd (refuse (not (is_payment_token (codes intent.token))) (rw x at h))
  ]
    where
      refuse : (test : Bool) → (if test then some bad_token else some not_fourteen) ≡ none → ⊥
      refuse true e = cc
      refuse false e = cc

  window_extend-IsWithin :
      (w : Window) (now : ℕ) (intent : WindowExtendIntent) (c : Case)
      → w.extensions ≡ 0
      → IsWithin w c
      → IsWithin w (window_extend now intent c).1
  unfolding window_extend
  window_extend-IsWithin w now intent c z h = checked (intent_problem intent) refl
    where
      held : (m : Member) → c.member ≡ some m → (v : Window) → m.window ≡ some v → Extended w v
      held m e v f =
          let same : h.member ≡ m = some_inj h.member m (sym h.found ∙ e) in
          let here : h.window ≡ v =
            some_inj h.window v (sym h.has ∙ (ap (λ k. k.window) same ∙ f)) in
          subst (λ k. Extended w k) here h.extended

      found :
          (o : Option Member)
          → c.member ≡ o
          → intent.days ≡ 14
          → IsWithin w
              (elim o as (λ _. Result String (Option Problem) × Case) [
                | none ↦ (ok (some no_account), c)
                | some m ↦ extend_member now intent.days m c
              ]).1
      found none e d = h
      found (some m) e d =
          subst (λ n. IsWithin w (extend_member now n m c).1) (sym d)
            (extend_member-IsWithin w now m c z h (held m e))

      checked :
          (p : Option Problem)
          → intent_problem intent ≡ p
          → IsWithin w
              (elim p as (λ _. Result String (Option Problem) × Case) [
                | some problem ↦ (ok (some problem), c)
                | none ↦ elim c.member [
                  | none ↦ (ok (some no_account), c)
                  | some m ↦ extend_member now intent.days m c
                ]
              ]).1
      checked (some problem) e = h
      checked none e = found c.member refl (fourteen intent e)

  -- However many extensions are filed, and wherever in each a call fails, an account whose window was
  -- never extended keeps its window as it was, or fourteen days longer with one extension used.
  pub extended_once :
      (w : Window) (m : Member) (fs : List Fault) (es : List Note)
      → w.extensions ≡ 0
      → m.window ≡ some w
      → IsWithin w (extends es (record { member = some m; effects = []; faults = fs }))
  unfolding extends
  extended_once w m fs es z e =
      all_within es (record { member = some m; effects = []; faults = fs })
        (record { member = m; window = w; found = refl; has = e; extended = as_it_was })
    where
      all_within : (es : List Note) (c : Case) → IsWithin w c → IsWithin w (extends es c)
      all_within [] c h = h
      all_within ((now, (intent, fs)) ∷ es) c h =
          all_within es (window_extend now intent (record c { faults = fs })).1 (
            window_extend-IsWithin w now intent (record c { faults = fs }) z
              (unfaulted-IsWithin w c fs h))
