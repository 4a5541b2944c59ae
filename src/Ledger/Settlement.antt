-- ===== src/Ledger/Settlement.antt =====
-- The settlement of a refund changes the newest unsettled line and nothing else.
use kyriakon_infra.Ledger.{
  LedgerLine, settle_refund, String, settled_by, settle_line, unsettled_from, replace_at,
  unsettled_index, is_unsettled, RefundTail, is_none, is_of,
}
use kyriakon_infra.Base.{
  String, ℕ, List, any, map, ◌≡◌, ◌++◌, length, ◌∷◌, Option, true, false, none, ◌+◌, ap,
  if◌then◌else◌, arith, Bool, Bool-cases, [], ◌⊎◌, some, refl, inl, suc, ◌∙◌, inr, ◌&&◌, sym,
}
use text.Mathlib.TextPositions.{eq_refl}
use mathlib.Core.Path.{subst}

unsettled_from-none :
    (token : String) (i : ℕ) (found : Option (ℕ × LedgerLine)) (ls : List LedgerLine)
    → any (is_unsettled token) ls ≡ false
    → unsettled_from token i found ls ≡ found
unfolding unsettled_from
unsettled_from-none token i found [] h = refl
unsettled_from-none token i found (l ∷ ls) h = elim (Bool-cases (is_unsettled token l)) [
  | inl e ↦ absurd (ground (arith, e))
  | inr e ↦ rw e (unsettled_from-none token (i + 1) found ls (rw e at h))
]

unsettled_from-last :
    (token : String) (i : ℕ) (found : Option (ℕ × LedgerLine)) (before after : List LedgerLine)
    (line : LedgerLine)
    → is_unsettled token line ≡ true
    → any (is_unsettled token) after ≡ false
    → unsettled_from token i found (before ++ line ∷ after) ≡ some (i + length before, line)
unfolding unsettled_from
unsettled_from-last token i found [] after line h later =
    rw (h, unsettled_from)
      (unsettled_from-none token (i + 1) (some (i, line)) after later
        ∙ ap (λ k. some (k, line)) (omega arith))
unsettled_from-last token i found (b ∷ before) after line h later =
    unsettled_from-last token (i + 1) _ before after line h later
    ∙ ap (λ k. some (k, line)) (omega arith)

replace_at-append :
    (new line : LedgerLine) (before after : List LedgerLine)
    → replace_at (length before) new (before ++ line ∷ after) ≡ before ++ new ∷ after
unfolding replace_at
replace_at-append new line [] after = refl
replace_at-append new line (b ∷ before) after =
    ap (λ ls. b ∷ ls) (replace_at-append new line before after)

-- The newest refund of the token without a settlement is the one that is completed, whatever stands
-- before it, and every other line stays as it is; its number is returned.
pub settle_refund_newest :
    (token intent on : String) (before after : List LedgerLine) (line : LedgerLine)
    → is_unsettled token line ≡ true
    → any (is_unsettled token) after ≡ false
    → settle_refund token intent on (before ++ line ∷ after)
      ≡ (some line.seq, before ++ settle_line intent on line ∷ after)
unfolding settle_refund unsettled_index
settle_refund_newest token intent on before after line h later =
    rw
      (
        unsettled_from-last token 0 none before after line h later
            ∙ ap (λ k. some (k, line)) at_length,
        settle_refund,
      )
      (ap (λ ls. (some line.seq, ls))
        (replace_at-append (settle_line intent on line) line before after))
  where
    at_length : 0 + length before ≡ length before
    at_length = omega arith

pub count_unsettled : String → List LedgerLine → ℕ
count_unsettled token [] = 0
count_unsettled token (l ∷ ls) = (if is_unsettled token l then 1 else 0) + count_unsettled token ls

-- The lines around the newest unsettled refund.
pub record Newest (token : String) (lines : List LedgerLine) : Type 0 where
  pub before : List LedgerLine
  pub line : LedgerLine
  pub after : List LedgerLine
  pub whole : lines ≡ before ++ line ∷ after
  pub open' : is_unsettled token line ≡ true
  pub last : any (is_unsettled token) after ≡ false

newest :
    (token : String) (lines : List LedgerLine)
    → (any (is_unsettled token) lines ≡ false) ⊎ Newest token lines
newest token [] = inl refl
newest token (l ∷ ls) = elim (newest token ls) [
  | inr n ↦ inr (record {
    before = l ∷ n.before;
    line = n.line;
    after = n.after;
    whole = ap (λ k. l ∷ k) n.whole;
    open' = n.open';
    last = n.last;
  })
  | inl none_later ↦ elim (Bool-cases (is_unsettled token l)) [
    | inl e ↦
        inr
          (record { before = []; line = l; after = ls; whole = refl; open' = e; last = none_later })
    | inr e ↦ inl (rw e none_later)
  ]
]

count_unsettled-zero :
    (token : String) (ls : List LedgerLine)
    → any (is_unsettled token) ls ≡ false
    → count_unsettled token ls ≡ 0
unfolding count_unsettled
count_unsettled-zero token [] h = refl
count_unsettled-zero token (l ∷ ls) h = elim (Bool-cases (is_unsettled token l)) [
  | inl e ↦ absurd (ground (arith, e))
  | inr e ↦ rw e (rw (count_unsettled-zero token ls (rw e at h)) (omega arith))
]

count_unsettled-append :
    (token : String) (xs ys : List LedgerLine)
    → count_unsettled token (xs ++ ys) ≡ count_unsettled token xs + count_unsettled token ys
unfolding count_unsettled
count_unsettled-append token [] ys = omega arith
count_unsettled-append token (x ∷ xs) ys = omega (arith, count_unsettled-append token xs ys)

settle_line_settled :
    (token intent on : String) (line : LedgerLine)
    → is_unsettled token (settle_line intent on line) ≡ false
unfolding settle_line
settle_line_settled token intent on line = go (is_of token "refund" line) line.refund
  where
    go :
        (b : Bool) (r : Option RefundTail)
        → (b
            && is_none
                (elim (elim r as (λ _. Option RefundTail) [
                  | none ↦ some (record {
                    refund_of = none;
                    settled_on = some on;
                    refund_basis = none;
                    rate_refund = none;
                  })
                  | some tail ↦ some (record tail { settled_on = some on })
                ])
                  as (λ _. Option String) [ none ↦ none | some tail ↦ tail.settled_on ]))
          ≡ false
    go false r = refl
    go true none = refl
    go true (some t) = refl

settled_by-append :
    (intent on : String) (before after : List LedgerLine) (line : LedgerLine)
    → settled_by intent (before ++ settle_line intent on line ∷ after) ≡ true
unfolding settled_by settle_line
settled_by-append intent on [] after line = rw (eq_refl intent) refl
settled_by-append intent on (b ∷ before) after line =
    ground (arith, settled_by-append intent on before after line)

numbers_kept :
    (intent on : String) (before after : List LedgerLine) (line : LedgerLine)
    → map (λ l. l.seq) (before ++ settle_line intent on line ∷ after)
      ≡ map (λ l. l.seq) (before ++ line ∷ after)
unfolding settle_line
numbers_kept intent on [] after line = refl
numbers_kept intent on (b ∷ before) after line =
    ap (λ ns. b.seq ∷ ns) (numbers_kept intent on before after line)

-- A settlement either finds no unsettled refund of the token and changes nothing, or leaves one fewer,
-- with the numbers of all lines kept, and the ledger answers that its intent has settled a refund.
pub settle_refund_progress :
    (token intent on : String) (lines : List LedgerLine)
    → ((settle_refund token intent on lines ≡ (none, lines)) × (count_unsettled token lines ≡ 0))
      ⊎ ((suc (count_unsettled token (settle_refund token intent on lines).1)
            ≡ count_unsettled token lines)
          × (map (λ l. l.seq) (settle_refund token intent on lines).1 ≡ map (λ l. l.seq) lines)
          × (settled_by intent (settle_refund token intent on lines).1 ≡ true))
unfolding settle_refund unsettled_index count_unsettled
settle_refund_progress token intent on lines = elim (newest token lines) [
  | inl h ↦ inl (
    rw (unsettled_from-none token 0 none lines h, settle_refund) refl,
    count_unsettled-zero token lines h,
  )
  | inr n ↦ inr (
      subst
        (λ ls.
          (suc (count_unsettled token (settle_refund token intent on ls).1)
            ≡ count_unsettled token ls)
          × (map (λ l. l.seq) (settle_refund token intent on ls).1 ≡ map (λ l. l.seq) ls)
          × (settled_by intent (settle_refund token intent on ls).1 ≡ true))
        (sym n.whole) (around n.before n.line n.after n.open' n.last))
]
  where
    around :
        (before : List LedgerLine) (line : LedgerLine) (after : List LedgerLine)
        → is_unsettled token line ≡ true
        → any (is_unsettled token) after ≡ false
        → (suc (count_unsettled token (settle_refund token intent on (before ++ line ∷ after)).1)
            ≡ count_unsettled token (before ++ line ∷ after))
          × (map (λ l. l.seq) (settle_refund token intent on (before ++ line ∷ after)).1
              ≡ map (λ l. l.seq) (before ++ line ∷ after))
          × (settled_by intent (settle_refund token intent on (before ++ line ∷ after)).1 ≡ true)
    around before line after h later =
        rw (settle_refund_newest token intent on before after line h later) (
          counted,
          numbers_kept intent on before after line,
          settled_by-append intent on before after line,
        )
      where
        counted :
            suc (count_unsettled token (before ++ settle_line intent on line ∷ after))
            ≡ count_unsettled token (before ++ line ∷ after)
        counted =
            rw
              (
                count_unsettled-append token before (settle_line intent on line ∷ after),
                count_unsettled-append token before (line ∷ after),
              )
              (rw (h, settle_line_settled token intent on line) (omega arith))
