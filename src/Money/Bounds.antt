-- ===== src/Money/Bounds.antt =====
-- What is read as an amount is below a thousand million pounds.
use kyriakon_infra.Money.{number, pennies, amount, pence, or_whole}
use kyriakon_infra.Money.RoundTrip.{AllDigits, utf8_len-digits}
use kyriakon_infra.Base.{
  [], ◌∷◌, ℕ, List, ◌≡◌, ◌<◌, length, ◌≤◌, ◌^◌, ok, arith, ◌+◌, ◌*◌, Bool-cases, ◌-◌, all, inr, inl,
}
use native.Mathlib.Nat.{mul-le-mul_right, pow-suc, pow-le-pow_right}
use kyriakon_infra.Base.Chars.{is_digit, split_once}

number_bound : (acc : ℕ) (s : List ℕ) → AllDigits s → number acc s < (acc + 1) * 10 ^ length s
unfolding number
number_bound acc [] h = omega arith
number_bound acc (c ∷ s) h =
    let here : acc * 10 + (c - b'0') + 1 ≤ (acc + 1) * 10 = ground arith in
    let rest = number_bound (acc * 10 + (c - b'0')) s (ground arith) in
    let wide = mul-le-mul_right (10 ^ length s) here in
    rw (pow-suc 10 (length s)) (omega (arith, rest, wide))

nine_digits : (k : ℕ) → k ≤ 9 → 10 ^ k ≤ 1_000_000_000
nine_digits k h = pow-le-pow_right (omega arith) h

pennies_bound : (s : List ℕ) → AllDigits s → length s ≤ 2 → pennies s < 100
unfolding pennies number
pennies_bound [] h short = omega arith
pennies_bound (c ∷ []) h short = ground arith
pennies_bound (c ∷ d ∷ []) h short = ground arith
pennies_bound (c ∷ d ∷ e ∷ s) h short = absurd (omega arith)

amount_bound :
    (pounds fraction : List ℕ) (n : ℕ) → amount pounds fraction ≡ ok n → n < 100_000_000_000
unfolding amount
amount_bound pounds fraction n h = elim (Bool-cases (all is_digit pounds)) [
  | inr e ↦ absurd (ground (arith, e))
  | inl e ↦ elim (Bool-cases (all is_digit fraction)) [
    | inr f ↦ absurd (ground (arith, e, f))
    | inl f ↦
        let size = utf8_len-digits pounds e in
        let part = utf8_len-digits fraction f in
        let short : length pounds ≤ 9 = ground (arith, e, f, size, part) in
        let two : length fraction ≤ 2 = ground (arith, e, f, size, part) in
        let whole = number_bound 0 pounds e in
        let cents = pennies_bound fraction f two in
        let sum : number 0 pounds * 100 + pennies fraction ≡ n = ground (arith, e, f, size, part) in
        omega (arith, whole, cents, sum, nine_digits (length pounds) short)
  ]
]

pub pence_bound : (s : List ℕ) (n : ℕ) → pence s ≡ ok n → n < 100_000_000_000
unfolding pence
pence_bound s n h =
    let (pounds, fraction) = or_whole s (split_once b'.' s) in amount_bound pounds fraction n h
