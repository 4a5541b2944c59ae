-- ===== src/Money.antt =====
-- Amounts of money (`pence` and `gbp` of onboard/src/util.rs): a text of pounds as its code points,
-- and pence as a number. `pounds.len()` counts bytes, and a text of digits has one for each.
pub mod RoundTrip
pub mod Bounds
mod Tests
use kyriakon_infra.Base.{
  ℕ, zero, suc, List, ◌∷◌, [], ◌/◌, Result, Option, if◌then◌else◌, ◌*◌, ◌++◌, some, ltb, length,
  none, ◌+◌, ◌==◌, ◌-◌, ◌%◌, ◌||◌, not, all, err, ok,
}
use kyriakon_infra.Base.Chars.{split_once, utf8_len, is_digit}

pub data Error : Type 0 where
  not_an_amount : Error

-- `parse` on a text of digits.
unfoldable pub number : ℕ → List ℕ → ℕ
number acc [] = acc
number acc (c ∷ s) = number (acc * 10 + (c - b'0')) s

abbrev pub or_whole : List ℕ → Option (List ℕ × List ℕ) → List ℕ × List ℕ
or_whole s none = (s, [])
or_whole s (some parts) = parts

-- `{fraction:0<2}`, filled with zeros to two.
unfoldable pub pennies : List ℕ → ℕ
pennies [] = 0
pennies (c ∷ []) = number 0 (c ∷ b'0' ∷ [])
pennies s = number 0 s

unfoldable pub amount : List ℕ → List ℕ → Result Error ℕ
amount pounds fraction =
    if length pounds == 0
      || (ltb 9 (utf8_len pounds)
          || (not (all is_digit pounds)
              || (ltb 2 (utf8_len fraction) || not (all is_digit fraction))))
    then err not_an_amount
    else ok (number 0 pounds * 100 + pennies fraction)

unfoldable pub pence : List ℕ → Result Error ℕ
pence s = let (pounds, fraction) = or_whole s (split_once b'.' s) in amount pounds fraction

-- `{n}`: the digits of a number; nine rounds are enough below 10 ^ 9, twenty for any word.
pub digits : ℕ → ℕ → List ℕ
digits zero n = []
digits (suc fuel) n =
    if ltb n 10 then (b'0' + n) ∷ [] else digits fuel (n / 10) ++ (b'0' + n % 10) ∷ []

-- On an amount of nothing or more.
unfoldable pub gbp : ℕ → List ℕ
gbp n = digits 20 (n / 100) ++ b'.' ∷ (b'0' + n % 100 / 10) ∷ (b'0' + n % 100 % 10) ∷ []
