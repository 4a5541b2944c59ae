-- ===== src/Sign/Compare.antt =====
-- The comparison of two signatures, in constant time, is equality.
use kyriakon_infra.Sign.{
  Hmac, Text, xor, or, difference, constant_eq, sign_bytes, verify_bytes, hex, nibble,
}
use kyriakon_infra.Base.{
  ℕ, zero, suc, List, [], ◌∷◌, ◌≡◌, ◌↔◌, ◌<◌, ◌^◌, ◌/◌, ◌%◌, true, All, length, arith, ok, refl,
  Bool-cases, some, Option-cases, ◌==◌, inr, inl, ==_iff, ap,
}
use kyriakon_infra.Base.Bytes.{IsByte}
use mathlib.Core.Path.{subst}

xor_self : (bits x : ℕ) → xor bits x x ≡ 0
unfolding xor
xor_self zero x = refl
xor_self (suc bits) x = omega (arith, xor_self bits (x / 2))

eq_of_xor : (bits x y : ℕ) → x < 2 ^ bits → y < 2 ^ bits → xor bits x y ≡ 0 → x ≡ y
unfolding xor
eq_of_xor zero x y hx hy h = omega arith
eq_of_xor (suc bits) x y hx hy h =
    let half = eq_of_xor bits (x / 2) (y / 2) (omega arith) (omega arith) (omega arith) in
    omega (arith, half)

xor_bound : (bits x y : ℕ) → xor bits x y < 2 ^ bits
unfolding xor
xor_bound zero x y = omega arith
xor_bound (suc bits) x y = omega (arith, xor_bound bits (x / 2) (y / 2))

or_bound : (bits x y : ℕ) → or bits x y < 2 ^ bits
unfolding or
or_bound zero x y = omega arith
or_bound (suc bits) x y = omega (arith, or_bound bits (x / 2) (y / 2))

or_nothing : (bits : ℕ) → or bits 0 0 ≡ 0
unfolding or
or_nothing zero = refl
or_nothing (suc bits) = omega (arith, or_nothing bits)

zero_of_or : (bits x y : ℕ) → x < 2 ^ bits → y < 2 ^ bits → or bits x y ≡ 0 → (x ≡ 0) × (y ≡ 0)
unfolding or
zero_of_or zero x y hx hy h = omega arith
zero_of_or (suc bits) x y hx hy h =
    let half = zero_of_or bits (x / 2) (y / 2) (omega arith) (omega arith) (omega arith) in
    (omega (arith, half.0), omega (arith, half.1))

difference_self : (xs : List ℕ) → difference 0 xs xs ≡ 0
unfolding difference
difference_self [] = refl
difference_self (x ∷ xs) = rw (xor_self 8 x, or_nothing 8) (difference_self xs)

pub constant_eq_self : (a : List ℕ) → constant_eq a a ≡ true
unfolding constant_eq
constant_eq_self a = rw (difference_self a) (ground arith)

eq_of_difference :
    (diff : ℕ) (xs ys : List ℕ)
    → diff < 256
    → All IsByte xs
    → All IsByte ys
    → length xs ≡ length ys
    → difference diff xs ys ≡ 0
    → (diff ≡ 0) × (xs ≡ ys)
unfolding difference
eq_of_difference diff [] [] hd hx hy l h = (h, refl)
eq_of_difference diff [] (y ∷ ys) hd hx hy l h = absurd (omega arith)
eq_of_difference diff (x ∷ xs) [] hd hx hy l h = absurd (omega arith)
eq_of_difference diff (x ∷ xs) (y ∷ ys) hd hx hy l h =
    let rest =
      eq_of_difference (or 8 diff (xor 8 x y)) xs ys (or_bound 8 diff (xor 8 x y)) hx.1 hy.1
        (omega arith) h in
    let here = zero_of_or 8 diff (xor 8 x y) hd (xor_bound 8 x y) rest.0 in
    let head = eq_of_xor 8 x y hx.0 hy.0 here.1 in (here.0, cc (head, rest.1))

pub constant_eq_iff :
    (a b : List ℕ) → All IsByte a → All IsByte b → (constant_eq a b ≡ true) ↔ (a ≡ b)
unfolding constant_eq
constant_eq_iff a b ha hb = (
  λ h. elim (Bool-cases (length a == length b)) [
    | inr e ↦ absurd (ground (arith, e))
    | inl e ↦
        let same : difference 0 a b ≡ 0 = ground (arith, e) in
        let both =
          eq_of_difference 0 a b (omega arith) ha hb ((==_iff (length a) (length b)).0 e) same in
        both.1
  ],
  λ h. subst (λ c. constant_eq a c ≡ true) h (rw (difference_self a) (ground arith)),
)

nibble-IsByte : (d : ℕ) → d < 16 → IsByte (nibble d)
nibble-IsByte d h = ground arith

hex-IsByte : (bs : List ℕ) → All IsByte bs → All IsByte (hex bs)
unfolding hex
hex-IsByte [] h = tt
hex-IsByte (b ∷ bs) h = (
  nibble-IsByte (b / 16) (omega (arith, h.0)),
  (nibble-IsByte (b % 16) (omega arith), hex-IsByte bs h.1),
)

-- For bytes, a signature passes the comparison in constant time exactly when it is the one that the
-- key makes for the payload, whatever the crate answers for a key.
pub verify_bytes_iff :
    (hmac : Hmac) (key payload sig : Text)
    → ((k p : Text) (mac : Text → List ℕ) → hmac k ≡ some mac → All IsByte (mac p))
    → All IsByte sig
    → (verify_bytes hmac key payload sig ≡ true) ↔ (sign_bytes hmac key payload ≡ ok sig)
unfolding verify_bytes sign_bytes
verify_bytes_iff hmac key payload sig bytes hs = elim (Option-cases (hmac key)) [
  | inl e ↦ rw (e, verify_bytes) (rw (e, sign_bytes) (λ h. cc, λ h. cc))
  | inr (mac, e) ↦
      let same =
        constant_eq_iff (hex (mac payload)) sig (hex-IsByte (mac payload) (bytes key payload mac e))
          hs in
      rw (e, verify_bytes) (rw (e, sign_bytes) (λ h. ap ok (same.0 h), λ h. same.1 (ground arith)))
]
