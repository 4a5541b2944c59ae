-- ===== src/Store/Tokens/Shape.antt =====
-- The tokens have the shape that their tests ask for, and no two draws make one token.
use native.Mathlib.Nat.{pow-suc, div-add-mod', div-div-eq-div-mul}
use kyriakon_infra.Store.Tokens.{
  symbols, lower, symbol, upper, get_or, is_one_of, crockford128, is_payment_token, is_status_token,
  is_unattributed_id, payment_symbols, crockford12, crockford8, payment_draw, unattributed_draw,
}
use kyriakon_infra.Base.{
  List, ℕ, ◌%◌, ◌<◌, ◌∷◌, ◌≡◌, Bool, ==_iff, true, if◌then◌else◌, ◌*◌, ◌==◌, ◌/◌, ◌^◌, arith, suc,
  ◌+◌, [], ◌&&◌, refl, Bool-cases, ◌∙◌, zero, inl, inr, ap, all,
}

-- What a symbol stands for: its place in the alphabet.
abbrev pub place : ℕ → List ℕ → ℕ
place c [] = 0
place c (x ∷ xs) = if x == c then 0 else 1 + place c xs

-- The number that a text of symbols stands for.
abbrev pub read : List ℕ → ℕ → List ℕ → ℕ
read alphabet acc [] = acc
read alphabet acc (c ∷ cs) = read alphabet (acc * 32 + place c alphabet) cs

-- A test of the 32 symbols of an alphabet, one by one.
each : (ℕ → Bool) → ℕ → Bool
each p zero = true
each p (suc k) = each p k && p k

each-holds : (p : ℕ → Bool) (bound i : ℕ) → i < bound → each p bound ≡ true → p i ≡ true
unfolding each
each-holds p zero i small h = absurd (omega arith)
each-holds p (suc k) i small h = elim (Bool-cases (i == k)) [
  | inl here ↦ rw ((==_iff i k).0 here) (ground (arith, h))
  | inr below ↦ each-holds p k i (ground arith) (ground (arith, h))
]

-- An alphabet whose symbols stand at their places.
pub record IsAlphabet (alphabet : List ℕ) : Type 0 where
  pub places : (i : ℕ) → i < 32 → place (get_or 0 alphabet i) alphabet ≡ i
  pub members : (i : ℕ) → i < 32 → is_one_of alphabet (get_or 0 alphabet i) ≡ true

lower-IsAlphabet : IsAlphabet lower
unfolding each
lower-IsAlphabet = record {
  places =
      λ i h. (==_iff _ _).0 (each-holds (λ k. place (get_or 0 lower k) lower == k) 32 i h refl);
  members = λ i h. each-holds (λ k. is_one_of lower (get_or 0 lower k)) 32 i h refl;
}

upper-IsAlphabet : IsAlphabet upper
unfolding each
upper-IsAlphabet = record {
  places =
      λ i h. (==_iff _ _).0 (each-holds (λ k. place (get_or 0 upper k) upper == k) 32 i h refl);
  members = λ i h. each-holds (λ k. is_one_of upper (get_or 0 upper k)) 32 i h refl;
}

-- One digit in base 32 split off at the place `m`.
split_digit : (v m : ℕ) → v % (m * 32) ≡ v / m % 32 * m + v % m
split_digit v m =
    let whole = div-add-mod' v (m * 32) in
    let low = div-add-mod' v m in
    let digit = ap (λ x. x * m) (div-add-mod' (v / m) 32) in
    let twice = div-div-eq-div-mul v m 32 in
    let again = ap (λ x. x * (m * 32)) twice in omega (arith, whole, low, digit, again)

pow_step : (n : ℕ) → 2 ^ (5 * suc n) ≡ 2 ^ (5 * n) * 32
pow_step n =
    let same : 5 * suc n ≡ suc (suc (suc (suc (suc (5 * n))))) = omega arith in
    rw same (
      omega (
        arith,
        pow-suc 2 (5 * n),
        pow-suc 2 (suc (5 * n)),
        pow-suc 2 (suc (suc (5 * n))),
        pow-suc 2 (suc (suc (suc (5 * n)))),
        pow-suc 2 (suc (suc (suc (suc (5 * n))))),
      ))

read-symbols :
    (alphabet : List ℕ) (n acc v : ℕ)
    → IsAlphabet alphabet
    → read alphabet acc (symbols alphabet n v) ≡ acc * 2 ^ (5 * n) + v % 2 ^ (5 * n)
unfolding symbols symbol
read-symbols alphabet zero acc v good = omega arith
read-symbols alphabet (suc n) acc v good =
    let digit = v / 2 ^ (5 * n) % 32 in
    let here : place (get_or 0 alphabet digit) alphabet ≡ digit = good.places digit (omega arith) in
    ap (λ p. read alphabet (acc * 32 + p) (symbols alphabet n v)) here
    ∙ read-symbols alphabet n (acc * 32 + digit) v good
    ∙ step
  where
    step :
        (acc * 32 + v / 2 ^ (5 * n) % 32) * 2 ^ (5 * n) + v % 2 ^ (5 * n)
        ≡ acc * 2 ^ (5 * suc n) + v % 2 ^ (5 * suc n)
    step = rw (pow_step n) (omega (arith, split_digit v (2 ^ (5 * n))))

-- A status token reads back as the 128 bits that were drawn, so no two draws make one token.
pub read-crockford128 : (v : ℕ) → v < 2 ^ 128 → read lower 0 (crockford128 v) ≡ v
unfolding crockford128
read-crockford128 v h = read-symbols lower 26 0 v lower-IsAlphabet ∙ (omega arith)

symbols-members :
    (alphabet : List ℕ) (n v : ℕ)
    → IsAlphabet alphabet
    → all (is_one_of alphabet) (symbols alphabet n v) ≡ true
unfolding symbols symbol
symbols-members alphabet zero v good = refl
symbols-members alphabet (suc n) v good =
    ground
      (arith, good.members (v / 2 ^ (5 * n) % 32) (omega arith), symbols-members alphabet n v good)

member : (v i : ℕ) → is_one_of upper (symbol upper v i) ≡ true
unfolding symbol
member v i = upper-IsAlphabet.members (v / 2 ^ (5 * i) % 32) (omega arith)

payment_shape : (v : ℕ) → is_payment_token (crockford12 v) ≡ true
unfolding is_payment_token payment_symbols crockford12 symbols
payment_shape v =
    rw
      (
        member v 11,
        member v 10,
        member v 9,
        member v 8,
        member v 7,
        member v 6,
        member v 5,
        member v 4,
        member v 3,
        member v 2,
        member v 1,
        member v 0,
      )
      refl

-- Every draw makes a token that passes the test of its kind.
pub tokens_shaped :
    (v : ℕ)
    → (is_status_token (crockford128 v) ≡ true)
      × (is_payment_token (crockford12 (payment_draw v)) ≡ true)
      × (is_unattributed_id (crockford8 (unattributed_draw v)) ≡ true)
unfolding is_status_token is_unattributed_id crockford128 crockford8
tokens_shaped v = (
  symbols-members lower 26 v lower-IsAlphabet,
  payment_shape (payment_draw v),
  symbols-members upper 8 (unattributed_draw v) upper-IsAlphabet,
)
