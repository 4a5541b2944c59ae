-- ===== src/Payments/Apply/Once.antt =====
-- A credit is in the ledger once, however often it is tried and wherever a call fails.
use kyriakon_infra.Ledger
use kyriakon_infra.Payments.Apply.Appends.{Appends, apply_payment-Appends}
use kyriakon_infra.Payments.Apply.{
  Books, String, CreditIntent, credit_account, apply_payment, held_has_intent,
}
use kyriakon_infra.Base.{
  ◌≡◌, String, Option, List, inl, Result-cases, arith, false, ℕ, ◌++◌, refl, ◌∷◌, inr, [],
  if◌then◌else◌, ◌≤◌, ◌+◌, Bool-cases, ◌||◌, Option-cases, none, ap,
}
use kyriakon_infra.Ledger.{has_intent, LedgerLine, is_text}
use kyriakon_infra.Transitions.World.{Fault}
use kyriakon_infra.Payments.{CreditIntent, credit_fields}
use kyriakon_infra.Dates.{Date, Calendar}
use kyriakon_infra.Ledger.Lookups.{append_lines, numbered}
use kyriakon_infra.Journal.{load}

unfoldable pub count_intent : String → List LedgerLine → ℕ
count_intent id [] = 0
count_intent id (l ∷ ls) = (if is_text id l.intent then 1 else 0) + count_intent id ls

pub count_intent-zero :
    (id : String) (ls : List LedgerLine) → has_intent id ls ≡ false → count_intent id ls ≡ 0
unfolding count_intent has_intent
count_intent-zero id [] h = refl
count_intent-zero id (l ∷ ls) h = elim (Bool-cases (is_text id l.intent)) [
  | inl e ↦ absurd (ground (arith, e))
  | inr e ↦ rw e (rw (count_intent-zero id ls (rw e at h)) (omega arith))
]

count_intent-snoc :
    (id : String) (ls : List LedgerLine) (l : LedgerLine)
    → count_intent id (ls ++ l ∷ []) ≤ count_intent id ls + 1
unfolding count_intent
count_intent-snoc id [] l = ground arith
count_intent-snoc id (m ∷ ls) l = omega (arith, count_intent-snoc id ls l)

pub count_intent-append :
    (id : String) (line : LedgerLine) (ls : List LedgerLine)
    → count_intent id ls ≡ 0
    → count_intent id (Ledger.append line ls).1 ≤ 1
count_intent-append id line ls h =
    rw (append_lines line ls) (omega (arith, count_intent-snoc id ls (numbered line ls), h))

module _ {Time : Type 0} (parse_time : String → Option Time) (now release : String) where
  -- A try of a credit: what it meets, and the day.
  pub record Try : Type 0 where
    pub faults : List Fault
    pub today : Date

  -- Each try begins on a fresh index of the journal's file.
  pub tries : String → Calendar → CreditIntent → String → List Try → Books Time → Books Time
  tries price calendar intent username [] b = b
  tries price calendar intent username (t ∷ ts) b =
      tries price calendar intent username ts
        (credit_account parse_time now release price calendar t.today intent username
          (record b { index = load parse_time b.lines; faults = t.faults })).1

  credit_account-count :
      (price : String) (calendar : Calendar) (today : Date) (intent : CreditIntent)
      (username : String) (b : Books Time)
      → count_intent intent.id b.ledger ≤ 1
      → count_intent intent.id
          (credit_account parse_time now release price calendar today intent username b).1.ledger
        ≤ 1
  unfolding credit_account
  credit_account-count price calendar today intent username b h =
      elim (Bool-cases (has_intent intent.id b.ledger || held_has_intent intent.id b.held)) [
        | inl e ↦ rw (e, credit_account) h
        | inr e ↦
            let fresh : has_intent intent.id b.ledger ≡ false = ground (arith, e) in
            elim (Result-cases (credit_fields calendar today intent)) [
              | inr (why, f) ↦ rw (e, f, credit_account) h
              | inl (amount, f) ↦ elim (Option-cases (calendar.parse_date intent.received)) [
                | inl g ↦ rw (e, f, g, credit_account) h
                | inr (d, g) ↦
                    rw (e, f, g, credit_account)
                      (counted b
                        (apply_payment parse_time now release price calendar intent username amount
                          d none b).1
                        fresh
                        (apply_payment-Appends parse_time now release price calendar intent username
                          amount d none b))
              ]
            ]
      ]
    where
      counted :
          (b c : Books Time)
          → has_intent intent.id b.ledger ≡ false
          → Appends b c
          → count_intent intent.id c.ledger ≤ 1
      counted b c fresh (inl e) =
          rw (ap (λ k. k.0) e) (rw (count_intent-zero intent.id b.ledger fresh) (omega arith))
      counted b c fresh (inr (line, e)) =
          rw (ap (λ k. k.0) e) (
            count_intent-append intent.id line b.ledger
              (count_intent-zero intent.id b.ledger fresh))

  -- However often a credit is tried, on whatever days, and wherever in each try a call fails, with its
  -- effect or without, the ledger has at most one line of its intent, if it had at most one before.
  pub credit_once :
      (price : String) (calendar : Calendar) (intent : CreditIntent) (username : String)
      (ts : List Try) (b : Books Time)
      → count_intent intent.id b.ledger ≤ 1
      → count_intent intent.id (tries price calendar intent username ts b).ledger ≤ 1
  unfolding tries
  credit_once price calendar intent username [] b h = h
  credit_once price calendar intent username (t ∷ ts) b h =
      credit_once price calendar intent username ts _ (
        credit_account-count price calendar t.today intent username
          (record b { index = load parse_time b.lines; faults = t.faults }) h)
