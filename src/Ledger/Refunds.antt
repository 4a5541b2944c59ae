-- ===== src/Ledger/Refunds.antt =====
-- What the ledger says of a payment's refunds: the total is of all of them, and none is left out.
use kyriakon_infra.Ledger.{
  LedgerLine, refunded_total, refunds, String, sum_refunds, append, RefundSum, refund_pence, is_of,
  reverses, highest,
}
use kyriakon_infra.Base.{
  List, Bool, String, keep, ℕ, ◌++◌, [], ◌∷◌, ◌≡◌, ok, if◌then◌else◌, ◌+◌, Bool-cases, inl, true,
  arith, Option-cases, ap, inr, Result-cases, refl, ◌%◌, ◌^◌,
}

-- A total, line by line.
pub data IsSum : List LedgerLine → ℕ → Type 0 where
  no_refunds : IsSum [] 0
  one_more :
      (line : LedgerLine) (n : ℕ) (lines : List LedgerLine) (total : ℕ)
      → IsSum lines total
      → refund_pence line ≡ ok n
      → IsSum (lines ++ line ∷ []) (total + n)

sum_refunds-append :
    (original : ℕ) (sum : RefundSum) (lines : List LedgerLine) (s : RefundSum) (line : LedgerLine)
    (n : ℕ)
    → sum_refunds original sum lines ≡ ok s
    → reverses original line ≡ true
    → refund_pence line ≡ ok n
    → sum_refunds original sum (lines ++ line ∷ [])
      ≡ ok (record { total = s.total + n; lines = s.lines ++ line ∷ [] })
unfolding sum_refunds
sum_refunds-append original sum [] s line n h r p =
    let same : sum ≡ s = ground arith in
    rw (r, sum_refunds)
      (rw (p, sum_refunds)
        (ap (λ t. ok (record { total = t.total + n; lines = t.lines ++ line ∷ [] })) same))
sum_refunds-append original sum (l ∷ ls) s line n h r p = elim (Bool-cases (reverses original l)) [
  | inr e ↦
      rw (e, sum_refunds)
        (sum_refunds-append original sum ls s line n (rw (e, sum_refunds) at h) r p)
  | inl e ↦ elim (Result-cases (refund_pence l)) [
    | inr (x, q) ↦ absurd (ground (arith, e, q))
    | inl (m, q) ↦
        rw (e, q, sum_refunds)
          (sum_refunds-append original
            (record { total = sum.total + m; lines = sum.lines ++ l ∷ [] }) ls s line n
            (rw (e, q, sum_refunds) at h) r p)
  ]
]

keep-append :
    (p : LedgerLine → Bool) (xs : List LedgerLine) (line : LedgerLine)
    → keep p (xs ++ line ∷ []) ≡ keep p xs ++ (if p line then line ∷ [] else [])
keep-append p [] line = refl
keep-append p (x ∷ xs) line = elim (Bool-cases (p x)) [
  | inl e ↦ rw e (ap (λ ls. x ∷ ls) (keep-append p xs line))
  | inr e ↦ rw e (keep-append p xs line)
]

-- A refund reads alike whatever number it has.
renumbered :
    (l : LedgerLine) (m seq : ℕ)
    → refund_pence l ≡ ok m
    → refund_pence (record l { seq = seq }) ≡ ok m
unfolding refund_pence
renumbered l m seq q = elim (Option-cases l.amount_gbp) [
  | inl e ↦ absurd (ground (arith, e))
  | inr (text, e) ↦ ground (arith, e)
]

-- A refund that is appended raises the total of its payment by its own amount, whatever number it is
-- given, so that the next refund is measured against both.
pub refunded_total-append :
    (token : String) (original n : ℕ) (lines : List LedgerLine) (s : RefundSum) (line : LedgerLine)
    → refunded_total token original lines ≡ ok s
    → is_of token "refund" line ≡ true
    → reverses original line ≡ true
    → refund_pence line ≡ ok n
    → (total : RefundSum) × (refunded_total token original (append line lines).1 ≡ ok total)
      × (total.total ≡ s.total + n)
unfolding refunded_total refunds append reverses
refunded_total-append token original n lines s line h kind r p =
    let seq = (highest 0 lines + 1) % 2 ^ 64 in
    let numbered : LedgerLine = record line { seq = seq } in
    let read : refund_pence numbered ≡ ok n = renumbered line n seq p in
    (
      record { total = s.total + n; lines = s.lines ++ numbered ∷ [] },
      rw (keep-append (is_of token "refund") lines numbered, kind)
          (sum_refunds-append original (record { total = 0; lines = [] })
            (keep (is_of token "refund") lines) s numbered n h r read),
      refl,
    )
