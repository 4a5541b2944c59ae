-- ===== src/Journal/Positions.antt =====
-- The positions that the index keeps, against the scans that have none.
use kyriakon_infra.Base.{
  ℕ, [], refl, String, List, Bool, ◌+◌, ◌∷◌, ◌++◌, if◌then◌else◌, not, length, ◌≡◌, any, ltb, arith,
  Bool-cases, ◌<◌, length-append, inl, inr, sym,
}
use kyriakon_infra.Journal.Scan.{scan_seen, scan_failed, is_failure_of, is_mark}
use kyriakon_infra.Store.{JournalLine}
use mathlib.Core.List.{append_assoc}
use native.Mathlib.Nat.{add-zero}

-- The positions of the failed lines of an intent, from `at` on.
unfoldable pub fail_positions : String → ℕ → List JournalLine → List ℕ
fail_positions id at [] = []
fail_positions id at (l ∷ ls) =
    (if is_failure_of id l then at ∷ [] else []) ++ fail_positions id (at + 1) ls

unfoldable pub mark_positions : String → String → String → ℕ → List JournalLine → List (ℕ × String)
mark_positions token kind outcome at [] = []
mark_positions token kind outcome at (l ∷ ls) =
    (if is_mark token kind outcome l then (at, l.intent) ∷ [] else [])
    ++ mark_positions token kind outcome (at + 1) ls

pub fail_positions-snoc :
    (id : String) (at : ℕ) (ls : List JournalLine) (l : JournalLine)
    → fail_positions id at (ls ++ l ∷ [])
      ≡ fail_positions id at ls ++ (if is_failure_of id l then (at + length ls) ∷ [] else [])
unfolding fail_positions
fail_positions-snoc id at [] l = ground arith
fail_positions-snoc id at (m ∷ ls) l = ground (arith, fail_positions-snoc id (at + 1) ls l)

pub mark_positions-snoc :
    (token kind outcome : String) (at : ℕ) (ls : List JournalLine) (l : JournalLine)
    → mark_positions token kind outcome at (ls ++ l ∷ [])
      ≡ mark_positions token kind outcome at ls
        ++ (if is_mark token kind outcome l then (at + length ls, l.intent) ∷ [] else [])
unfolding mark_positions
mark_positions-snoc token kind outcome at [] l = elim (Bool-cases (is_mark token kind outcome l)) [
  | inl e ↦ rw e (rw (add-zero at))
  | inr e ↦ rw e
]
mark_positions-snoc token kind outcome at (m ∷ ls) l =
    rw (mark_positions-snoc token kind outcome (at + 1) ls l)
      (rw shift (sym (append_assoc _ (mark_positions token kind outcome (at + 1) ls) _)))
  where
    shift : at + 1 + length ls ≡ at + length (m ∷ ls)
    shift = omega arith

-- Past a position, the later failures are those of the lines behind it.
any-fail_positions :
    (id : String) (p at : ℕ) (ls : List JournalLine)
    → p < at
    → any (λ f. ltb p f) (fail_positions id at ls) ≡ scan_failed id ls
unfolding fail_positions scan_failed
any-fail_positions id p at [] h = refl
any-fail_positions id p at (l ∷ ls) h = ground (arith, any-fail_positions id p (at + 1) ls)

later_failures :
    (id : String) (p at : ℕ) (front : List JournalLine) (l : JournalLine) (ls : List JournalLine)
    → at + length front ≡ p
    → any (λ f. ltb p f) (fail_positions id at (front ++ l ∷ ls)) ≡ scan_failed id ls
unfolding fail_positions
later_failures id p at [] l ls h = ground (arith, any-fail_positions id p (at + 1) ls)
later_failures id p at (m ∷ front) l ls h = ground (arith, later_failures id p (at + 1) front l ls)

abbrev pub stands : List JournalLine → ℕ × String → Bool
stands lines m = not (any (λ f. ltb m.0 f) (fail_positions m.1 0 lines))

pub any-mark_positions :
    (token kind outcome : String) (front ls : List JournalLine)
    → any (stands (front ++ ls)) (mark_positions token kind outcome (length front) ls)
      ≡ scan_seen token kind outcome ls
unfolding mark_positions scan_seen
any-mark_positions token kind outcome front [] = refl
any-mark_positions token kind outcome front (l ∷ ls) =
    let next = any-mark_positions token kind outcome (front ++ l ∷ []) ls in
    let behind : any (stands (front ++ l ∷ ls))
          (mark_positions token kind outcome (length front + 1) ls)
        ≡ scan_seen token kind outcome ls =
      rw (append_assoc front (l ∷ []) ls) at (rw (length-append front (l ∷ [])) at next) in
    elim (Bool-cases (is_mark token kind outcome l)) [
      | inl e ↦ rw (e, behind, later_failures l.intent (length front) 0 front l ls (omega arith))
      | inr e ↦ rw (e, behind)
    ]
