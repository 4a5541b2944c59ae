-- ===== src/Money/RoundTrip.antt =====
-- An amount that is written is read back.
use kyriakon_infra.Money.{pence, gbp, digits, number, pennies, amount}
use kyriakon_infra.Base.{
  List, ℕ, ◌≡◌, ◌++◌, all, ◌<◌, suc, ◌∷◌, length, ok, ◌^◌, Bool-cases, true, some, ◌≤◌, ltb, arith,
  [], ◌/◌, ◌+◌, inl, ◌==◌, ◌*◌, refl, lt→ltb, ◌%◌, ◌-◌, inr, false, length-append, zero, ◌∙◌, ap,
}
use kyriakon_infra.Base.Chars.{split_once, utf8_len, is_digit}

abbrev pub AllDigits : List ℕ → Type 0
AllDigits s = all is_digit s ≡ true

number-append : (acc c : ℕ) (s : List ℕ) → number acc (s ++ c ∷ []) ≡ number acc s * 10 + (c - b'0')
unfolding number
number-append acc c [] = refl
number-append acc c (d ∷ s) = number-append (acc * 10 + (d - b'0')) c s

digits-append : (c : ℕ) (s : List ℕ) → AllDigits s → is_digit c ≡ true → AllDigits (s ++ c ∷ [])
digits-append c [] hs hc = rw hc refl
digits-append c (d ∷ s) hs hc = ground (arith, digits-append c s)

pub digits-AllDigits : (fuel n : ℕ) → AllDigits (digits fuel n)
unfolding digits
digits-AllDigits zero n = refl
digits-AllDigits (suc fuel) n = elim (Bool-cases (ltb n 10)) [
  | inl e ↦ rw e (ground arith)
  | inr e ↦ rw e (
      digits-append (b'0' + n % 10) (digits fuel (n / 10)) (digits-AllDigits fuel (n / 10))
        (ground arith))
]

pub number-digits : (fuel n : ℕ) → n < 10 ^ fuel → number 0 (digits fuel n) ≡ n
unfolding digits number
number-digits zero n h = omega arith
number-digits (suc fuel) n h = elim (Bool-cases (ltb n 10)) [
  | inl e ↦ rw e (omega arith)
  | inr e ↦ rw e (
      rw
        (
          number-append 0 (b'0' + n % 10) (digits fuel (n / 10)),
          number-digits fuel (n / 10) (omega arith),
        )
        (omega arith))
]

length-digits : (fuel n k : ℕ) → n < 10 ^ k → 0 < k → length (digits fuel n) ≤ k
unfolding digits
length-digits zero n k h p = omega arith
length-digits (suc fuel) n zero h p = absurd (omega arith)
length-digits (suc fuel) n (suc zero) h p = rw (lt→ltb n 10 (omega arith)) (omega arith)
length-digits (suc fuel) n (suc (suc k)) h p = elim (Bool-cases (ltb n 10)) [
  | inl e ↦ rw e (omega arith)
  | inr e ↦ rw e (
      omega (
        arith,
        length-append (digits fuel (n / 10)) ((b'0' + n % 10) ∷ []),
        length-digits fuel (n / 10) (suc k) (omega arith) (omega arith),
      ))
]

length-digits_pos : (fuel n : ℕ) → 0 < length (digits (suc fuel) n)
unfolding digits
length-digits_pos fuel n = elim (Bool-cases (ltb n 10)) [
  | inl e ↦ rw e (omega arith)
  | inr e ↦ rw e (omega (arith, length-append (digits fuel (n / 10)) ((b'0' + n % 10) ∷ [])))
]

split_once-digits :
    (s rest : List ℕ) → AllDigits s → split_once b'.' (s ++ b'.' ∷ rest) ≡ some (s, rest)
unfolding split_once
split_once-digits [] rest h = refl
split_once-digits (c ∷ s) rest h =
    let hc : is_digit c ≡ true = ground arith in
    let other : (c == b'.') ≡ false = ground arith in
    rw other (rw (split_once-digits s rest (ground arith)) refl)

pub utf8_len-digits : (s : List ℕ) → AllDigits s → utf8_len s ≡ length s
unfolding utf8_len
utf8_len-digits [] h = refl
utf8_len-digits (c ∷ s) h =
    let ascii : ltb c 0x80 ≡ true = ground arith in
    let rest : AllDigits s = ground arith in rw (ascii, utf8_len-digits s rest) (omega arith)

amount_lem :
    (pounds : List ℕ) (a b : ℕ)
    → AllDigits pounds
    → 0 < length pounds
    → length pounds ≤ 9
    → a < 10
    → b < 10
    → amount pounds ((b'0' + a) ∷ (b'0' + b) ∷ []) ≡ ok (number 0 pounds * 100 + (a * 10 + b))
unfolding amount pennies number utf8_len
amount_lem pounds a b ds pos short ha hb =
    rw (utf8_len-digits pounds ds, amount) (rw (ds, amount) (ground (arith, pos, short)))

-- Every amount below a thousand million pounds is read back from what `gbp` writes.
pub pence-gbp : (n : ℕ) → n < 100_000_000_000 → pence (gbp n) ≡ ok n
unfolding pence gbp
pence-gbp n h = rw (split_once-digits (digits 20 (n / 100)) _ (digits-AllDigits 20 (n / 100))) (
    amount_lem (digits 20 (n / 100)) (n % 100 / 10) (n % 100 % 10) (digits-AllDigits 20 (n / 100))
      (length-digits_pos 19 (n / 100)) (length-digits 20 (n / 100) 9 (omega arith) (omega arith))
      (omega arith) (omega arith)
    ∙ ap ok (rw (number-digits 20 (n / 100) (omega arith)) (omega arith)))
