-- ===== src/Lapse/Erase/Goes.antt =====
-- Actions that come to their end.
use kyriakon_infra.Base.{
  ap, ◌∙◌, String, List, Bool, ok, [], ◌∷◌, not, true, false, ◌≡◌, refl, inl, inr, Result-cases,
}
use kyriakon_infra.Ledger.Record.{is_some}
use kyriakon_infra.Transitions.World.{Action, Fault, fine, early, late, ◌>>◌, ◌>>=◌}
use kyriakon_infra.Lapse.Erase.{
  Account, Estate, call, look, when, has, write_line, write_once, send_answer, hold_name,
}

-- Whether nothing fails.
abbrev pub smooth : List Fault → Bool
smooth [] = true
smooth (fine ∷ fs) = smooth fs
smooth (early ∷ fs) = false
smooth (late ∷ fs) = false

-- Where the action ends well, `Q` holds; and with no failure ahead it ends well, with none ahead.
abbrev pub Goes : Action Estate Unit → (Estate → Type 0) → (Estate → Type 0) → Type 0
Goes m P Q =
    (e : Estate)
    → P e
    → ((m e).0 ≡ ok tt → Q (m e).1)
      × (smooth e.faults ≡ true → ((m e).0 ≡ ok tt) × (smooth (m e).1.faults ≡ true))

pub call-Goes :
    (effect : Estate → Estate) (P Q : Estate → Type 0)
    → ((e : Estate) (fs : List Fault) → P e → Q (effect (record e { faults = fs })))
    → ((e : Estate) → (effect e).faults ≡ e.faults)
    → Goes (call effect) P Q
unfolding call
call-Goes effect P Q p keeps e k = go e.faults
  where
    go :
        (fs : List Fault)
        → ((call effect (record e { faults = fs })).0 ≡ ok tt
            → Q (call effect (record e { faults = fs })).1)
          × (smooth fs ≡ true
              → ((call effect (record e { faults = fs })).0 ≡ ok tt)
                × (smooth (call effect (record e { faults = fs })).1.faults ≡ true))
    go [] = (λ x. p e [] k, λ x. (refl, ap smooth (keeps (record e { faults = [] }))))
    go (fine ∷ fs) = (λ x. p e fs k, λ x. (refl, ap smooth (keeps (record e { faults = fs })) ∙ x))
    go (early ∷ fs) = (λ x. absurd cc, λ x. absurd cc)
    go (late ∷ fs) = (λ x. absurd cc, λ x. absurd cc)

pub then-Goes :
    (m k : Action Estate Unit) (P Q R : Estate → Type 0)
    → Goes m P Q
    → Goes k Q R
    → Goes (m >> k) P R
then-Goes m k P Q R hm hk e h =
    let (q, s) = hm e h in
    elim (Result-cases (m e).0) [
      | inl (u, f) ↦ let (q', s') = hk (m e).1 (q f) in rw (f, ◌>>=◌) (q', λ x. s' (s x).1)
      | inr (x, f) ↦
          rw (f, ◌>>=◌) (λ y. absurd cc, λ y. let z : (m e).0 ≡ ok tt = (s y).0 in absurd cc)
    ]

pub when-Goes :
    (test : Bool) (m : Action Estate Unit) (P Q : Estate → Type 0)
    → (test ≡ true → Goes m P Q)
    → (test ≡ false → (e : Estate) → P e → Q e)
    → Goes (when test m) P Q
when-Goes true m P Q h n = h refl
when-Goes false m P Q h n = λ e k. (λ x. n refl e k, λ x. (refl, x))

abbrev pub Anything : Estate → Type 0
Anything e = Unit

pub write_once-Goes : (id outcome : String) → Goes (write_once id outcome) Anything Anything
unfolding write_once write_line
write_once-Goes id outcome e k =
    when-Goes (not (has id outcome e.lines)) (write_line id outcome) Anything Anything
      (λ x. call-Goes _ Anything Anything (λ d fs y. tt) (λ d. refl)) (λ x d y. tt) e k

pub send_answer-Goes : (a : Account) → Goes (send_answer a) Anything Anything
unfolding send_answer
send_answer-Goes a =
    when-Goes (is_some a.outside_address) _ Anything Anything
      (λ x. call-Goes _ Anything Anything (λ d fs y. tt) (λ d. refl)) (λ x d y. tt)

pub look-Goes :
    (P : Estate → Type 0)
    → ((e : Estate) (fs : List Fault) → P e → P (record e { faults = fs }))
    → Goes look P P
unfolding look
look-Goes P p = call-Goes (λ e. e) P P p (λ d. refl)

pub hold_name-Goes : Goes hold_name Anything Anything
unfolding hold_name
hold_name-Goes =
    then-Goes look (λ e. when (not e.name_held) (call (λ d. record d { name_held = true })) e)
      Anything Anything Anything (look-Goes Anything (λ e fs k. tt))
      (λ e.
        when-Goes (not e.name_held) _ Anything Anything
          (λ x. call-Goes _ Anything Anything (λ d fs y. tt) (λ d. refl)) (λ x d y. tt) e)
