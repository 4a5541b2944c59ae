-- ===== src/Payments/Amounts.antt =====
-- What a credit's money does.
use kyriakon_infra.Payments.{credit_money, CreditMoney}
use kyriakon_infra.Base.{
  ℕ, List, ◌+◌, ◌≡◌, ◌∷◌, [], ◌≤◌, true, if◌then◌else◌, ◌↔◌, ◌*◌, false, arith, Bool-cases, leb,
  inl, inr, ◌-◌,
}

-- A year is paid exactly if the money held and the money received miss the price by one percent at
-- most. Then the price is applied and what is over is held; otherwise nothing is applied and all of it
-- is held. No money is lost, and none is made but the percent that is let off.
pub credit_money_lem :
    (price balance amount : ℕ)
    → let money = credit_money price balance amount in
      ((money.paid ≡ true) ↔ (price * 100 ≤ (balance + amount) * 100 + price))
      × (money.paid ≡ true → money.applied ≡ price)
      × (money.paid ≡ false → (money.applied ≡ 0) × (money.balance ≡ balance + amount))
      × (balance + amount ≤ money.applied + money.balance)
      × ((money.applied + money.balance) * 100 ≤ (balance + amount) * 100 + price)
      × (price ≤ balance + amount → money.applied + money.balance ≡ balance + amount)
unfolding credit_money
credit_money_lem price balance amount = elim (Bool-cases (leb price (balance + amount))) [
  | inl e ↦ rw e (ground arith)
  | inr e ↦ rw e (elim (Bool-cases (leb ((price - (balance + amount)) * 100) price)) [
    | inl f ↦ rw f (ground arith)
    | inr f ↦ rw f (ground arith)
  ])
]

-- The balance after each of several payments at one price, and how many years they paid.
pub pay_all : ℕ → ℕ → List ℕ → ℕ × ℕ
pay_all price balance [] = (balance, 0)
pay_all price balance (amount ∷ amounts) =
    let money = credit_money price balance amount in
    let (left, years) = pay_all price money.balance amounts in
    (left, years + (if money.paid then 1 else 0))

abbrev pub sum : List ℕ → ℕ
sum [] = 0
sum (n ∷ ns) = n + sum ns

-- Over any number of payments, the years that were paid and the balance that is left account for all of
-- the money, and a year is never paid for less than 99 percent of its price.
pub pay_all-accounts :
    (price balance : ℕ) (amounts : List ℕ)
    → let (left, years) = pay_all price balance amounts in
      (balance + sum amounts ≤ price * years + left)
      × ((price * years + left) * 100 ≤ (balance + sum amounts) * 100 + price * years)
unfolding pay_all
pay_all-accounts price balance [] = (omega arith, omega arith)
pay_all-accounts price balance (amount ∷ amounts) =
    let (decides, paid, unpaid, low, high, exact) = credit_money_lem price balance amount in
    go (credit_money price balance amount) paid unpaid low high
      (pay_all-accounts price (credit_money price balance amount).balance amounts)
  where
    go :
        (m : CreditMoney)
        → (m.paid ≡ true → m.applied ≡ price)
        → (m.paid ≡ false → (m.applied ≡ 0) × (m.balance ≡ balance + amount))
        → balance + amount ≤ m.applied + m.balance
        → (m.applied + m.balance) * 100 ≤ (balance + amount) * 100 + price
        → (let (left, years) = pay_all price m.balance amounts in
            (m.balance + sum amounts ≤ price * years + left)
            × ((price * years + left) * 100 ≤ (m.balance + sum amounts) * 100 + price * years))
        → let (left, years) = pay_all price m.balance amounts in
          (balance + (amount + sum amounts) ≤ price * (years + (if m.paid then 1 else 0)) + left)
          × ((price * (years + (if m.paid then 1 else 0)) + left) * 100
              ≤ (balance + (amount + sum amounts)) * 100
                + price * (years + (if m.paid then 1 else 0)))
    go m paid unpaid low high rest = elim (Bool-cases m.paid) [
      | inl e ↦ let a = paid e in rw e (omega arith)
      | inr e ↦ let a = unpaid e in rw e (omega arith)
    ]
