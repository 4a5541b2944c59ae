-- ===== src/Payments/Group/Restored.antt =====
-- What `restore_group_mailboxes` does to the mailboxes of a group.
use kyriakon_infra.Base.{
  List, Option, some, none, [], ◌∷◌, ◌++◌, if◌then◌else◌, ◌≡◌, refl, true, inl, inr, ap, sym, ◌∙◌,
  str_eq, Result-cases, Bool-cases, map, ok,
}
use mathlib.Core.List.{append_assoc, map-append, append-nil}
use kyriakon_infra.Payments.Apply.{Account, Books, Outward, call, send, restore}
use kyriakon_infra.Payments.Group.{restore_mailboxes, restored, restore_group_mailboxes}
use kyriakon_infra.Transitions.World.{Action, Fault, ◌>>◌, ◌>>=◌, fine, early, late}

-- A mailbox as it is meant to be: active again where it had lapsed.
pub as_meant : Option Account → Option Account
as_meant none = none
as_meant (some account) = some (if str_eq account.state "lapsed" then restored account else account)

-- The scripts that are run, one for each mailbox that had lapsed.
pub scripts : List (Option Account) → List Outward
scripts [] = []
scripts (none ∷ rest) = scripts rest
scripts (some account ∷ rest) =
    (if str_eq account.state "lapsed" then restore ∷ [] else []) ++ scripts rest

as_meant-restored :
    (a : Account)
    → str_eq a.state "lapsed" ≡ true
    → as_meant (some (restored a)) ≡ as_meant (some a)
unfolding as_meant
as_meant-restored a h = rw h refl

shift :
    (done rest : List (Option Account)) (x : Option Account)
    → (done ++ x ∷ []) ++ rest ≡ done ++ x ∷ rest
shift done rest x = append_assoc done (x ∷ []) rest

module _ {Time : Type 0} where
  -- Every step leaves the mailboxes on their way to `aim`.
  abbrev Aims : List (Option Account) → Books Time → Type 0
  Aims aim b = map as_meant b.mailboxes ≡ map as_meant aim

  abbrev Preserves : List (Option Account) → {A : Type 0} → Action (Books Time) A → Type 0
  Preserves aim m = (b : Books Time) → Aims aim b → Aims aim (m b).1

  Preserves-then :
      {A B : Type 0} (aim : List (Option Account)) (m : Action (Books Time) A)
      (k : Action (Books Time) B)
      → Preserves aim m
      → Preserves aim k
      → Preserves aim (m >> k)
  Preserves-then aim m k hm hk b h = elim (Result-cases (m b).0) [
    | inl (a, e) ↦ rw (e, ◌>>=◌) (hk (m b).1 (hm b h))
    | inr (x, e) ↦ rw (e, ◌>>=◌) (hm b h)
  ]

  send-Preserves : (aim : List (Option Account)) (out : Outward) → Preserves aim (send out)
  unfolding send call
  send-Preserves aim out b h = go b.faults
    where
      go :
          (fs : List Fault)
          → Aims aim
              (call
                (λ c. record c { outward = c.outward ++ out ∷ [] })
                (record b { faults = fs })).1
      go [] = h
      go (fine ∷ fs) = h
      go (early ∷ fs) = h
      go (late ∷ fs) = h

  write-Preserves :
      (aim mailboxes : List (Option Account))
      → map as_meant mailboxes ≡ map as_meant aim
      → Preserves aim (call (λ c. record c { mailboxes = mailboxes }))
  unfolding call
  write-Preserves aim mailboxes e b h = go b.faults
    where
      go :
          (fs : List Fault)
          → Aims aim (call (λ c. record c { mailboxes = mailboxes }) (record b { faults = fs })).1
      go [] = e
      go (fine ∷ fs) = e
      go (early ∷ fs) = h
      go (late ∷ fs) = e

  restore_mailboxes-Preserves :
      (aim done rest : List (Option Account))
      → map as_meant (done ++ rest) ≡ map as_meant aim
      → Preserves aim (restore_mailboxes done rest)
  unfolding restore_mailboxes
  restore_mailboxes-Preserves aim done [] e b h = h
  restore_mailboxes-Preserves aim done (none ∷ rest) e b h =
      restore_mailboxes-Preserves aim (done ++ none ∷ []) rest
        (ap (map as_meant) (shift done rest none) ∙ e) b h
  restore_mailboxes-Preserves aim done (some a ∷ rest) e b h =
      let next = some (restored a) in
      let more : Action (Books Time) Unit = restore_mailboxes (done ++ next ∷ []) rest in
      let change : Action (Books Time) Unit =
        call (λ c. record c { mailboxes = done ++ next ∷ rest }) in
      elim (Bool-cases (str_eq a.state "lapsed")) [
        | inr f ↦
            rw (f, restore_mailboxes)
              (restore_mailboxes-Preserves aim (done ++ some a ∷ []) rest
                (ap (map as_meant) (shift done rest (some a)) ∙ e) b h)
        | inl f ↦
            let same : map as_meant (done ++ next ∷ rest) ≡ map as_meant aim =
              map-append as_meant done (next ∷ rest)
              ∙ (ap (λ x. map as_meant done ++ x ∷ map as_meant rest) (as_meant-restored a f)
                  ∙ (sym (map-append as_meant done (some a ∷ rest)) ∙ e)) in
            rw (f, restore_mailboxes)
              (Preserves-then aim (send restore) (change >> more) (send-Preserves aim restore)
                (Preserves-then aim change more (write-Preserves aim (done ++ next ∷ rest) same) (
                  restore_mailboxes-Preserves aim (done ++ next ∷ []) rest
                    (ap (map as_meant) (shift done rest next) ∙ same)))
                b h)
      ]

  -- Without a failure, on the loop's own list.
  restore_mailboxes_calm :
      (done rest : List (Option Account)) (b : Books Time)
      → restore_mailboxes done rest (record b { mailboxes = done ++ rest; faults = [] }) ≡ (
        ok tt,
        record b {
          mailboxes = done ++ map as_meant rest;
          faults = [];
          outward = b.outward ++ scripts rest;
        },
      )
  unfolding restore_mailboxes scripts as_meant send call
  restore_mailboxes_calm done [] b = rw (append-nil b.outward) refl
  restore_mailboxes_calm done (none ∷ rest) b =
      let later = restore_mailboxes_calm (done ++ none ∷ []) rest b in
      rw (shift done (map as_meant rest) none) at (rw (shift done rest none) at later)
  restore_mailboxes_calm done (some a ∷ rest) b = elim (Bool-cases (str_eq a.state "lapsed")) [
    | inr f ↦
        let later = restore_mailboxes_calm (done ++ some a ∷ []) rest b in
        rw (f, restore_mailboxes)
          (rw (shift done (map as_meant rest) (some a)) at (rw (shift done rest (some a)) at later))
    | inl f ↦
        let next = some (restored a) in
        let sent : Books Time = record b { outward = b.outward ++ restore ∷ [] } in
        let later = restore_mailboxes_calm (done ++ next ∷ []) rest sent in
        rw (f, restore_mailboxes)
          (rw (append_assoc b.outward (restore ∷ []) (scripts rest)) at
            (rw (shift done (map as_meant rest) next) at (rw (shift done rest next) at later)))
  ]

  -- Wherever a first run of the restoration failed, a second run without a failure ends with every
  -- mailbox that had lapsed active and every other one as it was, and runs the script for those alone that
  -- are still lapsed.
  pub restored_in_the_end :
      (b : Books Time)
      → let c = (restore_group_mailboxes b).1 in
        restore_group_mailboxes (record c { faults = [] }) ≡ (
          ok tt,
          record c {
            faults = [];
            mailboxes = map as_meant b.mailboxes;
            outward = c.outward ++ scripts c.mailboxes;
          },
        )
  unfolding restore_group_mailboxes
  restored_in_the_end b =
      let c = (restore_mailboxes [] b.mailboxes b).1 in
      let kept : map as_meant c.mailboxes ≡ map as_meant b.mailboxes =
        restore_mailboxes-Preserves b.mailboxes [] b.mailboxes refl b refl in
      rw kept at (restore_mailboxes_calm [] c.mailboxes c)
