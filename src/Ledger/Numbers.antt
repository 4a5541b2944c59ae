-- ===== src/Ledger/Numbers.antt =====
-- The numbers of the lines: one past the highest, so that no two lines share one.
use kyriakon_infra.Ledger.{LedgerLine, append, highest}
use kyriakon_infra.Base.{List, ℕ, ◌∷◌, ◌+◌, ◌<◌, ◌≤◌, arith, ◌^◌, ◌++◌, [], max, ◌≡◌, ◌%◌}

-- The numbers rise from line to line, from above `low`.
abbrev pub Rising : ℕ → List LedgerLine → Type 0
Rising low [] = Unit
Rising low (line ∷ lines) = (low < line.seq) × Rising line.seq lines

highest-ge : (last : ℕ) (lines : List LedgerLine) → last ≤ highest last lines
unfolding highest
highest-ge last [] = omega arith
highest-ge last (l ∷ ls) = omega (arith, highest-ge (max last l.seq) ls)

Rising-snoc :
    (low : ℕ) (lines : List LedgerLine) (line : LedgerLine)
    → Rising low lines
    → highest low lines < line.seq
    → Rising low (lines ++ line ∷ [])
unfolding highest
Rising-snoc low [] line rising h = (h, tt)
Rising-snoc low (l ∷ ls) line rising h =
    let same : max low l.seq ≡ l.seq = omega (arith, rising.0) in
    (rising.0, Rising-snoc l.seq ls line rising.1 (rw same at h))

-- Where the highest number is not the last of a u64, the line that an append adds has a number above
-- every line before it, and the numbers rise on.
pub append-Rising :
    (line : LedgerLine) (lines : List LedgerLine)
    → Rising 0 lines
    → highest 0 lines + 1 < 2 ^ 64
    → ((append line lines).0 ≡ highest 0 lines + 1) × Rising 0 (append line lines).1
unfolding append
append-Rising line lines rising h =
    let same : (highest 0 lines + 1) % 2 ^ 64 ≡ highest 0 lines + 1 = omega arith in
    (
      same,
      Rising-snoc 0 lines (record line { seq = (highest 0 lines + 1) % 2 ^ 64 }) rising
          (omega (arith, same)),
    )
