-- ===== src/Payments/Join.antt =====
-- The join of a payment token to an account (`token_join` and `resolve_payment` of
-- onboard/src/transitions/payments.rs). The store is the two lookups that they make; an account's payment
-- is what `Account::payment_state` returns.
use kyriakon_infra.Validate.{username_shape}
use Prim.Native.String.{String}
use kyriakon_infra.Base.{
  Option, String, Result, Bool, ◌≡◌, err, ok, some, none, arith, if◌then◌else◌, Option-cases, false,
  inl, str_eq, not, inr, Bool-cases, ◌∙◌, ap, sym, eq_iff, Result-cases, true,
}
use kyriakon_infra.Base.Chars.{codes}
use kyriakon_infra.Validate.Names.{IsName, username_shape-IsName}
use mathlib.Core.Path.{subst}

-- Of each record the fields that the join reads, and of a payment those that a credit changes.
pub record TokenRecord : Type 0 where
  pub token : String
  pub username : String
  pub group : Option String

pub record Payment : Type 0 where
  pub token_ref : Option String
  pub paid_until : Option String
  pub rail : Option String
  pub balance_gbp : Option String

pub record Account : Type 0 where
  pub state : String
  pub payment : Option Payment

pub record Store : Type 0 where
  pub token : String → Option TokenRecord
  pub account : String → Option Account

pub data Problem : Type 0 where
  other_token not_in_index group_token no_account no_payment token_not_held : Problem

unfoldable pub token_join : Store → String → Result Problem (Option TokenRecord)
token_join store token = elim (store.token token) [
  | none ↦ ok none
  | some join ↦ if not (str_eq join.token token) then err other_token else ok (some join)
]

abbrev pub holds : String → Payment → Bool
holds token payment = elim payment.token_ref [ none ↦ false | some t ↦ str_eq t token ]

unfoldable pub account_payment :
    Store → String → String → Result Problem (String × Account × Payment)
account_payment store token username = elim (store.account username) [
  | none ↦ err no_account
  | some account ↦ elim account.payment [
    | none ↦ err no_payment
    | some payment ↦
        if not (holds token payment) then err token_not_held else ok (username, account, payment)
  ]
]

unfoldable pub resolve_payment : Store → String → Result Problem (String × Account × Payment)
resolve_payment store token = elim (token_join store token) [
  | err e ↦ err e
  | ok none ↦ err not_in_index
  | ok (some join) ↦ elim join.group [
    | some domain ↦ err group_token
    | none ↦ elim (username_shape (codes join.username)) [
      | some why ↦ err other_token
      | none ↦ account_payment store token join.username
    ]
  ]
]

-- The chain of records from a token to its account.
pub record IsJoined (store : Store) (token username : String) (account : Account)
    (payment : Payment) : Type 0 where
  pub join : TokenRecord
  pub found : store.token token ≡ some join
  pub names : (join.token ≡ token) × (join.group ≡ none) × (join.username ≡ username)
  pub fits : IsName (codes username)
  pub account_found : store.account username ≡ some account
  pub payment_found : account.payment ≡ some payment
  pub held : payment.token_ref ≡ some token

token_join-found :
    (store : Store) (token : String) (join : TokenRecord)
    → token_join store token ≡ ok (some join)
    → (store.token token ≡ some join) × (join.token ≡ token)
unfolding token_join
token_join-found store token join h = elim (Option-cases (store.token token)) [
  | inl e ↦ absurd (ground (arith, e))
  | inr (j, e) ↦ elim (Bool-cases (str_eq j.token token)) [
    | inr f ↦ absurd (ground (arith, e, f))
    | inl f ↦
        let same : j ≡ join = injected (rw (e, f, token_join) at h) in
        (e ∙ ap some same, ap (λ k. k.token) (sym same) ∙ (eq_iff j.token token).0 f)
  ]
]
  where
    injected :
        {j : TokenRecord}
        → ◌≡◌ {A = Result Problem (Option TokenRecord)} (ok (some j)) (ok (some join))
        → j ≡ join
    injected p = ground arith

holds-some :
    (token : String) (payment : Payment)
    → holds token payment ≡ true
    → payment.token_ref ≡ some token
holds-some token payment h = elim (Option-cases payment.token_ref) [
  | inl e ↦ absurd (ground (arith, e))
  | inr (t, e) ↦ e ∙ ap some ((eq_iff t token).0 (rw e at h))
]

account_payment-found :
    (store : Store) (token name username : String) (account : Account) (payment : Payment)
    → account_payment store token name ≡ ok (username, account, payment)
    → (name ≡ username)
      × (store.account name ≡ some account)
      × (account.payment ≡ some payment)
      × (payment.token_ref ≡ some token)
unfolding account_payment
account_payment-found store token name username account payment h =
    elim (Option-cases (store.account name)) [
      | inl e ↦ absurd (ground (arith, e))
      | inr (a, e) ↦ elim (Option-cases a.payment) [
        | inl f ↦ absurd (ground (arith, e, f))
        | inr (p, f) ↦ elim (Bool-cases (holds token p)) [
          | inr g ↦ absurd (ground (arith, e, f, g))
          | inl g ↦
              let (n, same_account, same_payment) = injected (rw (e, f, g, account_payment) at h) in
              (
                n,
                e ∙ ap some same_account,
                ap (λ b. b.payment) (sym same_account) ∙ f ∙ ap some same_payment,
                ap (λ q. q.token_ref) (sym same_payment) ∙ holds-some token p g,
              )
        ]
      ]
    ]
  where
    injected :
        {a : Account} {p : Payment}
        → ◌≡◌ {A = Result Problem (String × Account × Payment)}
            (ok (name, a, p))
            (ok (username, account, payment))
        → (name ≡ username) × (a ≡ account) × (p ≡ payment)
    injected q = ground arith

-- A token that resolves is joined through the whole chain: its record is in the index and names it, it
-- is no group's, the name fits, the account is there, and the account's payment holds this token.
pub resolve_payment-IsJoined :
    (store : Store) (token username : String) (account : Account) (payment : Payment)
    → resolve_payment store token ≡ ok (username, account, payment)
    → IsJoined store token username account payment
unfolding resolve_payment
resolve_payment-IsJoined store token username account payment h =
    elim (Result-cases (token_join store token)) [
      | inr (x, e) ↦ absurd (ground (arith, e))
      | inl (found, e) ↦ elim (Option-cases found) [
        | inl f ↦ absurd (ground (arith, e, f))
        | inr (join, f) ↦ elim (Option-cases join.group) [
          | inr (domain, g) ↦ absurd (ground (arith, e, f, g))
          | inl g ↦ elim (Option-cases (username_shape (codes join.username))) [
            | inr (why, k) ↦ absurd (ground (arith, e, f, g, k))
            | inl k ↦
                let index = token_join-found store token join (e ∙ ap ok f) in
                let (n, a, p, held) =
                  account_payment-found store token join.username username account payment
                    (rw (e, f, g, k, resolve_payment) at h) in
                record {
                  join = join;
                  found = index.0;
                  names = (index.1, g, n);
                  fits =
                      subst (λ u. IsName (codes u)) n
                        (username_shape-IsName (codes join.username) k);
                  account_found = ap store.account (sym n) ∙ a;
                  payment_found = p;
                  held = held;
                }
          ]
        ]
      ]
    ]

-- Two tokens never resolve to one account.
pub resolve_payment_once :
    (store : Store) (t u username : String) (a b : Account) (p q : Payment)
    → resolve_payment store t ≡ ok (username, a, p)
    → resolve_payment store u ≡ ok (username, b, q)
    → t ≡ u
resolve_payment_once store t u username a b p q ht hu =
    let left = resolve_payment-IsJoined store t username a p ht in
    let right = resolve_payment-IsJoined store u username b q hu in
    let accounts : some a ≡ some b = sym left.account_found ∙ right.account_found in
    let payments : some p ≡ some q =
      sym left.payment_found
      ∙ ap (λ o. elim o as (λ _. Option Payment) [ none ↦ none | some c ↦ c.payment ]) accounts
      ∙ right.payment_found in
    let tokens : some t ≡ some u =
      sym left.held
      ∙ ap (λ o. elim o as (λ _. Option String) [ none ↦ none | some c ↦ c.token_ref ]) payments
      ∙ right.held in
    ground (arith, tokens)
