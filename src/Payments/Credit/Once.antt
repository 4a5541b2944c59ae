-- ===== src/Payments/Credit/Once.antt =====
-- A credit is recorded once, in the ledger or in the queue.
use kyriakon_infra.Base.{
  String, List, Option, Bool, ℕ, none, ok, [], ◌∷◌, ◌++◌, if◌then◌else◌, ◌≡◌, ◌≤◌, ◌+◌, ◌⊎◌, refl,
  true, false, inl, inr, arith, str_eq, ◌||◌, Result-cases, Option-cases, Bool-cases, sym,
}
use kyriakon_infra.Base.Chars.{codes}
use mathlib.Core.Path.{subst}
use kyriakon_infra.Ledger.{LedgerLine, has_intent}
use kyriakon_infra.Journal.{load}
use kyriakon_infra.Dates.{Date}
use kyriakon_infra.Payments.{CreditIntent, credit_fields, is_empty}
use kyriakon_infra.Payments.Apply.{Books, HeldItem, held_has_intent, call, txid_problem, applied}
use kyriakon_infra.Payments.Apply.Appends.{Appends, money, apply_payment-Appends}
use kyriakon_infra.Payments.Apply.Once.{count_intent, count_intent-zero, count_intent-append}
use kyriakon_infra.Payments.Group.Appends.{group_credit-Appends}
use kyriakon_infra.Payments.Queue.{hold, append_held, note_of}
use kyriakon_infra.Payments.Credit.{Payee, broken, nobody, body, member, Terms, pay, credit}
use kyriakon_infra.Transitions.World.{Fault, ◌>>◌, ◌>>=◌, fine, early, late}

unfoldable pub count_held : String → List HeldItem → ℕ
count_held id [] = 0
count_held id (item ∷ items) = (if str_eq item.intent id then 1 else 0) + count_held id items

count_held-zero :
    (id : String) (items : List HeldItem)
    → held_has_intent id items ≡ false
    → count_held id items ≡ 0
unfolding count_held held_has_intent
count_held-zero id [] h = refl
count_held-zero id (item ∷ items) h = elim (Bool-cases (str_eq item.intent id)) [
  | inl e ↦ absurd (ground (arith, e))
  | inr e ↦ rw e (rw (count_held-zero id items (rw e at h)) (omega arith))
]

count_held-snoc :
    (id : String) (items : List HeldItem) (item : HeldItem)
    → count_held id (items ++ item ∷ []) ≤ count_held id items + 1
unfolding count_held
count_held-snoc id [] item = ground arith
count_held-snoc id (i ∷ items) item = omega (arith, count_held-snoc id items item)

-- The records of one intent: its lines in the ledger and its items in the queue.
unfoldable pub entries : String → List LedgerLine × List HeldItem → ℕ
entries id (lines, items) = count_intent id lines + count_held id items

module _ {Time : Type 0} where
  -- One record more at most: a line or an item.
  abbrev pub Enters : Books Time → Books Time → Type 0
  Enters b c = Appends b c ⊎ ((item : HeldItem) × (money c ≡ (b.ledger, b.held ++ item ∷ [])))

  append_held-Enters : (item : HeldItem) (b : Books Time) → Enters b (append_held item b).1
  unfolding append_held call
  append_held-Enters item b = go b.faults
    where
      go :
          (fs : List Fault)
          → Enters b
              (call (λ c. record c { held = c.held ++ item ∷ [] }) (record b { faults = fs })).1
      go [] = inr (item, refl)
      go (fine ∷ fs) = inr (item, refl)
      go (early ∷ fs) = inl (inl refl)
      go (late ∷ fs) = inr (item, refl)

  held_then-Enters :
      (item : HeldItem) (b : Books Time)
      → Enters b ((append_held item >> (λ c. (ok applied, c))) b).1
  held_then-Enters item b = elim (Result-cases (append_held item b).0) [
    | inl (u, e) ↦ rw (e, ◌>>=◌) (append_held-Enters item b)
    | inr (x, e) ↦ rw (e, ◌>>=◌) (append_held-Enters item b)
  ]

  if-Enters :
      {A : Type 0} (b : Books Time) (test : Bool) (x y : A × Books Time)
      → Enters b x.1
      → Enters b y.1
      → Enters b (if test then x else y).1
  if-Enters b true x y hx hy = hx
  if-Enters b false x y hx hy = hy

  hold-Enters :
      (intent : CreditIntent) (amount : ℕ) (received : Date) (draw : Option ℕ) (b : Books Time)
      → Enters b (hold intent amount received draw b).1
  unfolding hold
  hold-Enters intent amount received draw b =
      if-Enters b (str_eq intent.rail "cash-hand") _ _ (inl (inl refl))
        (elim (Option-cases (note_of intent.note)) [
          | inl e ↦ rw e (inl (inl refl))
          | inr (note, e) ↦ elim (Option-cases (txid_problem intent.txid none b.ledger b.held)) [
            | inr (problem, f) ↦ rw (e, f) (inl (inl refl))
            | inl f ↦ elim (Option-cases draw) [
              | inl g ↦ rw (e, f, g) (inl (inl refl))
              | inr (n, g) ↦ rw (e, f, g) (held_then-Enters _ b)
            ]
          ]
        ])

  Enters-bound :
      (id : String) (b c : Books Time)
      → Enters b c
      → entries id (money b) ≡ 0
      → entries id (money c) ≤ 1
  unfolding entries
  Enters-bound id b c (inl (inl e)) h = subst (λ m. entries id m ≤ 1) (sym e) (omega (arith, h))
  Enters-bound id b c (inl (inr (line, e))) h =
      subst (λ m. entries id m ≤ 1) (sym e)
        (omega (arith, h, count_intent-append id line b.ledger (omega (arith, h))))
  Enters-bound id b c (inr (item, e)) h =
      subst (λ m. entries id m ≤ 1) (sym e) (omega (arith, h, count_held-snoc id b.held item))

module _ {Time : Type 0} (parse_time : String → Option Time) (now release : String) where
  pub pay-Appends :
      (terms : Terms) (intent : CreditIntent) (amount : ℕ) (received : Date)
      (attributed : Option String) (payee : Payee) (b : Books Time)
      → Appends b (pay parse_time now release terms intent amount received attributed payee b).1
  unfolding pay
  pay-Appends terms intent amount received attributed (broken problem) b = inl refl
  pay-Appends terms intent amount received attributed (nobody problem) b = inl refl
  pay-Appends terms intent amount received attributed (body domain) b =
      group_credit-Appends parse_time now release terms.group_price_gbp terms.calendar terms.today
        intent domain attributed b
  pay-Appends terms intent amount received attributed (member username) b =
      apply_payment-Appends parse_time now release terms.price_gbp terms.calendar intent username
        amount received attributed b

  pub credit-Enters :
      (terms : Terms) (intent : CreditIntent) (payee : Payee) (draw : Option ℕ) (b : Books Time)
      → Enters b (credit parse_time now release terms intent payee draw b).1
  unfolding credit
  credit-Enters terms intent payee draw b =
      if-Enters b (has_intent intent.id b.ledger || held_has_intent intent.id b.held) _ _
        (inl (inl refl))
        (elim (Result-cases (credit_fields terms.calendar terms.today intent)) [
          | inr (why, f) ↦ rw f (inl (inl refl))
          | inl (amount, f) ↦ elim (Option-cases (terms.calendar.parse_date intent.received)) [
            | inl g ↦ rw (f, g) (inl (inl refl))
            | inr (received, g) ↦
                rw (f, g)
                  (if-Enters b (is_empty (codes intent.token)) (hold intent amount received draw b)
                    (pay parse_time now release terms intent amount received none payee b)
                    (hold-Enters intent amount received draw b)
                    (inl (pay-Appends terms intent amount received none payee b)))
          ]
        ])

  credit-entries :
      (terms : Terms) (intent : CreditIntent) (payee : Payee) (draw : Option ℕ) (b : Books Time)
      → entries intent.id (money b) ≤ 1
      → entries intent.id (money (credit parse_time now release terms intent payee draw b).1) ≤ 1
  unfolding credit entries
  credit-entries terms intent payee draw b h =
      elim (Bool-cases (has_intent intent.id b.ledger || held_has_intent intent.id b.held)) [
        | inl e ↦ rw (e, credit) h
        | inr e ↦
            let lines = count_intent-zero intent.id b.ledger (ground (arith, e)) in
            let items = count_held-zero intent.id b.held (ground (arith, e)) in
            Enters-bound intent.id b (credit parse_time now release terms intent payee draw b).1
              (credit-Enters terms intent payee draw b) (omega (arith, lines, items))
      ]

  -- A try of a credit: what it meets, the pass's terms, what the token names then, and the draw.
  pub record Try : Type 0 where
    pub faults : List Fault
    pub terms : Terms
    pub payee : Payee
    pub draw : Option ℕ

  -- Each try begins on a fresh index of the journal's file.
  pub tries : CreditIntent → List Try → Books Time → Books Time
  tries intent [] b = b
  tries intent (t ∷ ts) b =
      tries intent ts
        (credit parse_time now release t.terms intent t.payee t.draw
          (record b { index = load parse_time b.lines; faults = t.faults })).1

  -- However often a credit is tried, whatever its token names at each try (nothing, a member or a
  -- group), and wherever in each try a call fails, with its effect or without: the lines of its intent in
  -- the ledger and the items of its intent in the queue are together at most one, if they were before.
  pub recorded_once :
      (intent : CreditIntent) (ts : List Try) (b : Books Time)
      → entries intent.id (money b) ≤ 1
      → entries intent.id (money (tries intent ts b)) ≤ 1
  unfolding tries
  recorded_once intent [] b h = h
  recorded_once intent (t ∷ ts) b h = recorded_once intent ts _ (
      credit-entries t.terms intent t.payee t.draw
        (record b { index = load parse_time b.lines; faults = t.faults }) h)
