-- ===== src/Ledger/Lookups.antt =====
-- What the queries answer behind an append.
use kyriakon_infra.Ledger.{
  LedgerLine, append, has_intent, last_payment, by_txid, last_payment_from, String, is_of, is_text,
  highest, Error, payment_without_amount,
}
use kyriakon_infra.Base.{
  List, String, Bool, Option, any, ◌≡◌, ok, none, ◌++◌, ◌||◌, ◌∷◌, true, [], some, ◌+◌, arith, ◌%◌,
  Bool-cases, ◌^◌, inl, Result, err, inr, Option-cases, refl, ap,
}

abbrev pub numbered : LedgerLine → List LedgerLine → LedgerLine
numbered line lines = record line { seq = (append line lines).0 }

pub append_lines :
    (line : LedgerLine) (lines : List LedgerLine)
    → (append line lines).1 ≡ lines ++ numbered line lines ∷ []
unfolding append
append_lines line lines = refl

any-snoc :
    (p : LedgerLine → Bool) (lines : List LedgerLine) (line : LedgerLine)
    → any p (lines ++ line ∷ []) ≡ any p lines || p line
any-snoc p [] line = ground arith
any-snoc p (l ∷ ls) line = ground (arith, any-snoc p ls line)

pub has_intent-append :
    (id : String) (line : LedgerLine) (lines : List LedgerLine)
    → has_intent id (append line lines).1 ≡ has_intent id lines || is_text id line.intent
unfolding has_intent append
has_intent-append id line lines =
    any-snoc (λ l. is_text id l.intent) lines (record line { seq = (highest 0 lines + 1) % 2 ^ 64 })

by_txid-snoc :
    (txid : String) (lines : List LedgerLine) (line : LedgerLine)
    → by_txid txid lines ≡ none
    → is_text txid line.txid ≡ true
    → by_txid txid (lines ++ line ∷ []) ≡ some line
unfolding by_txid
by_txid-snoc txid [] line h t = rw t refl
by_txid-snoc txid (l ∷ ls) line h t = elim (Bool-cases (is_text txid l.txid)) [
  | inl e ↦ absurd (ground (arith, e))
  | inr e ↦ rw (e, by_txid) (by_txid-snoc txid ls line (rw (e, by_txid) at h) t)
]

pub by_txid-append :
    (txid : String) (line : LedgerLine) (lines : List LedgerLine)
    → by_txid txid lines ≡ none
    → is_text txid line.txid ≡ true
    → by_txid txid (append line lines).1 ≡ some (numbered line lines)
unfolding append
by_txid-append txid line lines h t =
    by_txid-snoc txid lines (record line { seq = (highest 0 lines + 1) % 2 ^ 64 }) h t

last_payment_from-snoc :
    (token text : String) (lines : List LedgerLine) (line : LedgerLine)
    (before found : Option LedgerLine)
    → last_payment_from token before lines ≡ ok found
    → is_of token "payment" line ≡ true
    → line.amount_gbp ≡ some text
    → last_payment_from token before (lines ++ line ∷ []) ≡ ok (some line)
unfolding last_payment_from
last_payment_from-snoc token text [] line before found h kind amount =
    rw (kind, last_payment_from)
      (ap
        (λ a. elim a as (λ _. Result Error (Option LedgerLine)) [
          | none ↦ err payment_without_amount
          | some t ↦ ok (some line)
        ])
        amount)
last_payment_from-snoc token text (l ∷ ls) line before found h kind amount =
    elim (Bool-cases (is_of token "payment" l)) [
      | inr e ↦
          rw (e, last_payment_from)
            (last_payment_from-snoc token text ls line before found (rw (e, last_payment_from) at h)
              kind amount)
      | inl e ↦ elim (Option-cases l.amount_gbp) [
        | inl f ↦ absurd (err_not_ok (rw (e, f, last_payment_from) at h))
        | inr (t, f) ↦
            rw (e, f, last_payment_from)
              (last_payment_from-snoc token text ls line (some l) found
                (rw (e, f, last_payment_from) at h) kind amount)
      ]
    ]
  where
    err_not_ok :
        {e : Error} {o : Option LedgerLine}
        → ◌≡◌ {A = Result Error (Option LedgerLine)} (err e) (ok o)
        → ⊥
    err_not_ok p = ground arith

pub last_payment-append :
    (token text : String) (line : LedgerLine) (lines : List LedgerLine) (found : Option LedgerLine)
    → last_payment token lines ≡ ok found
    → is_of token "payment" line ≡ true
    → line.amount_gbp ≡ some text
    → last_payment token (append line lines).1 ≡ ok (some (numbered line lines))
unfolding last_payment append
last_payment-append token text line lines found h kind amount =
    last_payment_from-snoc token text lines (record line { seq = (highest 0 lines + 1) % 2 ^ 64 })
      none found h kind amount
