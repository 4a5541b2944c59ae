-- ===== src/Payments/Apply/Appends.antt =====
-- Each step of a payment keeps the ledger or adds one line to it.
use kyriakon_infra.Ledger
use kyriakon_infra.Transitions.World.{◌>>◌, ◌>>=◌}
use kyriakon_infra.Payments.Apply.{
  misconfigured, refuses, goes, Books, String, append_line, write_account, send, unless, call,
  carry_out, finish_written, Account, journal_applying, Outward, CreditIntent, Plan, copy,
  progress_of, restore, go_on, apply_payment, Answer, Verdict, applied, receipt, written,
  credit_line, date_string, gbp_text, after_of, paid_account, refused, weigh,
}
use kyriakon_infra.Base.{
  ◌≡◌, String, Bool, Option, ◌⊎◌, List, inl, true, Result-cases, ◌∙◌, arith, false, ℕ, refl, ◌∷◌,
  inr, ap, [], Bool-cases, ok, Option-cases, Result, not, ◌&&◌, str_eq, err, if◌then◌else◌,
}
use kyriakon_infra.Payments.Apply.{HeldItem}
use kyriakon_infra.Ledger.{has_intent, LedgerLine, is_text}
use kyriakon_infra.Transitions.World.{Action, Fault, fine, early, late}
use kyriakon_infra.Payments.{CreditIntent}
use kyriakon_infra.Dates.{Date, Calendar}
use kyriakon_infra.Store.{CreditProgress}
use kyriakon_infra.Journal.{credit_progress}
use kyriakon_infra.Payments.Line.{credit_line}

module _ {Time : Type 0} where
  -- The two records of money.
  abbrev pub money : Books Time → List LedgerLine × List HeldItem
  money b = (b.ledger, b.held)

  -- The queue is as it was, and so is the ledger, or it has one line more.
  abbrev pub Appends : Books Time → Books Time → Type 0
  Appends b c =
      (money c ≡ money b)
      ⊎ ((line : LedgerLine) × (money c ≡ ((Ledger.append line b.ledger).1, b.held)))

  abbrev pub Keeps : {A : Type 0} → Action (Books Time) A → Type 0
  Keeps m = (b : Books Time) → money (m b).1 ≡ money b

  pub quiet_first :
      {A B : Type 0} (m : Action (Books Time) A) (k : Action (Books Time) B)
      → Keeps m
      → ((b : Books Time) → Appends b (k b).1)
      → (b : Books Time) → Appends b ((m >> k) b).1
  quiet_first m k hm hk b = elim (Result-cases (m b).0) [
    | inl (a, e) ↦ rw (e, ◌>>=◌) (from (m b).1 (k (m b).1).1 (hm b) (hk (m b).1))
    | inr (x, e) ↦ rw (e, ◌>>=◌) (inl (hm b))
  ]
    where
      from : (c d : Books Time) → money c ≡ money b → Appends c d → Appends b d
      from c d h (inl e) = inl (e ∙ h)
      from c d h (inr (line, e)) = inr (line, e ∙ ap (λ k. ((Ledger.append line k.0).1, k.1)) h)

  pub quiet_last :
      {A B : Type 0} (m : Action (Books Time) A) (k : Action (Books Time) B)
      → ((b : Books Time) → Appends b (m b).1)
      → Keeps k
      → (b : Books Time) → Appends b ((m >> k) b).1
  quiet_last m k hm hk b = elim (Result-cases (m b).0) [
    | inl (a, e) ↦ rw (e, ◌>>=◌) (to (m b).1 (k (m b).1).1 (hk (m b).1) (hm b))
    | inr (x, e) ↦ rw (e, ◌>>=◌) (hm b)
  ]
    where
      to : (c d : Books Time) → money d ≡ money c → Appends b c → Appends b d
      to c d h (inl e) = inl (h ∙ e)
      to c d h (inr (line, e)) = inr (line, h ∙ e)

  pub send-Keeps : (out : Outward) → Keeps (send out)
  unfolding send call
  send-Keeps out b = ground arith

  pub write_account-Keeps : (a : Account) → Keeps (write_account a)
  unfolding write_account call
  write_account-Keeps a b = ground arith

  pub unless-Keeps : (skip : Bool) (m : Action (Books Time) Unit) → Keeps m → Keeps (unless skip m)
  unless-Keeps true m h b = refl
  unless-Keeps false m h b = h b

  pub quiet_both :
      {A B : Type 0} (m : Action (Books Time) A) (k : Action (Books Time) B)
      → Keeps m
      → Keeps k
      → Keeps (m >> k)
  quiet_both m k hm hk b = elim (Result-cases (m b).0) [
    | inl (a, e) ↦ rw (e, ◌>>=◌) (hk (m b).1 ∙ hm b)
    | inr (x, e) ↦ rw (e, ◌>>=◌) (hm b)
  ]

  pub append_line-Appends : (line : LedgerLine) (b : Books Time) → Appends b (append_line line b).1
  unfolding append_line call
  append_line-Appends line b = go b.faults
    where
      go :
          (fs : List Fault)
          → Appends b
              (call
                (λ c. record c { ledger = (Ledger.append line c.ledger).1 })
                (record b { faults = fs })).1
      go [] = inr (line, refl)
      go (fine ∷ fs) = inr (line, refl)
      go (early ∷ fs) = inl refl
      go (late ∷ fs) = inr (line, refl)

  pub if-Appends :
      {A : Type 0} (b : Books Time) (test : Bool) (x y : A × Books Time)
      → Appends b x.1
      → Appends b y.1
      → Appends b (if test then x else y).1
  if-Appends b true x y hx hy = hx
  if-Appends b false x y hx hy = hy

  pub unless_append-Appends :
      (skip : Bool) (line : LedgerLine) (b : Books Time)
      → Appends b (unless skip (append_line line) b).1
  unless_append-Appends true line b = inl refl
  unless_append-Appends false line b = append_line-Appends line b

module _ {Time : Type 0} (parse_time : String → Option Time) (now release : String) where
  pub journal_applying-Keeps :
      (intent : CreditIntent) (username : String) (p : CreditProgress)
      → Keeps (journal_applying parse_time now release intent username p)
  unfolding journal_applying call
  journal_applying-Keeps intent username p b = go b.faults
    where
      go :
          (fs : List Fault)
          → money
              (journal_applying parse_time now release intent username p
                (record b { faults = fs })).1
            ≡ money b
      go [] = refl
      go (fine ∷ fs) = refl
      go (early ∷ fs) = refl
      go (late ∷ fs) = refl

  carry_out-Appends :
      (intent : CreditIntent) (username : String) (amount : ℕ) (received : Date) (journalled : Bool)
      (plan : Plan) (account : Account) (b : Books Time)
      → Appends b
          (carry_out parse_time now release intent username amount received journalled plan account
            b).1
  unfolding carry_out
  carry_out-Appends intent username amount received journalled plan account =
      let stop : Action (Books Time) Answer = λ c. (ok applied, c) in
      let told : Action (Books Time) Answer = send (receipt plan.money.paid) >> stop in
      let entry : Action (Books Time) Unit = append_line (
        credit_line intent account.monero (date_string received) (gbp_text amount)
          (gbp_text plan.money.applied) (after_of plan)) in
      let copied : Action (Books Time) Answer = send copy >> (entry >> told) in
      let changed : Action (Books Time) Unit = write_account (paid_account intent plan account) in
      let restored : Action (Books Time) Unit =
        unless (not (plan.money.paid && str_eq account.state "lapsed")) (send restore) in
      let noted : Action (Books Time) Unit =
        journal_applying parse_time now release intent username (progress_of plan) in
      quiet_first (unless journalled noted) (restored >> (changed >> copied))
        (unless-Keeps journalled noted (journal_applying-Keeps intent username (progress_of plan)))
        (quiet_first restored (changed >> copied)
          (unless-Keeps _ (send restore) (send-Keeps restore))
          (quiet_first changed copied (write_account-Keeps _) (
            quiet_first (send copy) (entry >> told) (send-Keeps copy) (
              quiet_last entry told (append_line-Appends _)
                (quiet_both (send (receipt plan.money.paid)) stop (send-Keeps _) (λ c. refl))))))

  finish_written-Appends :
      (intent : CreditIntent) (amount : ℕ) (received : Date) (p : CreditProgress) (b : Books Time)
      → Appends b (finish_written parse_time now release intent amount received p b).1
  unfolding finish_written
  finish_written-Appends intent amount received p b =
      let stop : Action (Books Time) Answer = λ c. (ok applied, c) in
      let line =
        credit_line intent b.account.monero (date_string received) (gbp_text amount) p.applied_gbp
          p.paid_until_after in
      quiet_last (unless (has_intent intent.id b.ledger) (append_line line)) (send copy >> stop)
        (unless_append-Appends (has_intent intent.id b.ledger) line)
        (quiet_both (send copy) stop (send-Keeps copy) (λ c. refl)) b

  go_on-Appends :
      (price : String) (calendar : Calendar) (intent : CreditIntent) (username : String)
      (amount : ℕ) (received : Date) (attributed : Option String) (journalled : Bool)
      (b : Books Time)
      → Appends b
          (go_on parse_time now release price calendar intent username amount received attributed
            journalled b).1
  unfolding go_on
  go_on-Appends price calendar intent username amount received attributed journalled b =
      split (weigh price calendar intent amount received attributed b.account b.ledger b.held)
    where
      split :
          (v : Verdict)
          → Appends b
              (elim v as (λ _. Result String Answer × Books Time) [
                | misconfigured ↦ (err "the drain's configured price_gbp", b)
                | refuses problem ↦ (ok (refused problem), b)
                | goes plan ↦
                    carry_out parse_time now release intent username amount received journalled plan
                      b.account b
              ]).1
      split misconfigured = inl refl
      split (refuses problem) = inl refl
      split (goes plan) =
          carry_out-Appends intent username amount received journalled plan b.account b

  -- A payment leaves the ledger as it is or adds one line, wherever a call fails.
  pub apply_payment-Appends :
      (price : String) (calendar : Calendar) (intent : CreditIntent) (username : String)
      (amount : ℕ) (received : Date) (attributed : Option String) (b : Books Time)
      → Appends b
          (apply_payment parse_time now release price calendar intent username amount received
            attributed b).1
  unfolding apply_payment
  apply_payment-Appends price calendar intent username amount received attributed b =
      elim (Option-cases (credit_progress intent.id b.index)) [
        | inl e ↦
            rw (e, apply_payment)
              (go_on-Appends price calendar intent username amount received attributed false b)
        | inr (p, e) ↦ elim (Bool-cases (written b.account p)) [
          | inl f ↦ rw (e, f, apply_payment) (finish_written-Appends intent amount received p b)
          | inr f ↦
              rw (e, f, apply_payment)
                (go_on-Appends price calendar intent username amount received attributed true b)
        ]
      ]
