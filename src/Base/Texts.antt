-- ===== src/Base/Texts.antt =====
-- The text of an amount or a date has the code points that it was made of.
use kyriakon_infra.Base.Chars.{codes, plain_text, plain_chars, char_at, is_digit, bytes, utf8}
use Prim.Native.Char.{IsScalar, char}
use Prim.Native.Nat.{Ordering, compare}
use kyriakon_infra.Base.{
  all, ℕ, List, Bool, ◌≡◌, true, any, ◌||◌, ◌∷◌, ◌==◌, Bool-cases, arith, [], inl, refl, ==_iff,
  inr, ◌<◌, String, All, All-append,
}
use Prim.Native.Char.{Char, code}
use Prim.Native.String.{String}
use kyriakon_infra.Base.Bytes.{IsByte}

abbrev pub is_plain : ℕ → Bool
is_plain c = is_digit c || c == b'.' || c == b'-'

-- A search through the characters ends at the one that has the code.
char_at-code : (c : ℕ) (xs : List Char) → any (λ x. code x == c) xs ≡ true → code (char_at c xs) ≡ c
char_at-code c [] h = absurd cc
char_at-code c (x ∷ xs) h = elim (Bool-cases (code x == c)) [
  | inl e ↦ rw e ((==_iff (code x) c).0 e)
  | inr e ↦ rw e (char_at-code c xs (rw e at h))
]

pub codes-plain_text : (s : List ℕ) → all is_plain s ≡ true → codes (plain_text s) ≡ s
unfolding plain_text
codes-plain_text [] h = refl
codes-plain_text (c ∷ s) h =
    let here : is_plain c ≡ true = ground arith in
    let rest : all is_plain s ≡ true = ground arith in
    let one = char_at-code c plain_chars (ground (arith, here)) in cc (one, codes-plain_text s rest)

-- The clauses of `IsScalar`, on the outcomes of its three comparisons.
abbrev IsLess : Ordering → Type 0
IsLess Ordering.lt = Unit
IsLess Ordering.eq = ⊥
IsLess Ordering.gt = ⊥

abbrev AreLess : Ordering → Ordering → Type 0
AreLess Ordering.lt o = IsLess o
AreLess Ordering.eq _ = ⊥
AreLess Ordering.gt _ = ⊥

abbrev IsWithin : Ordering → Ordering → Ordering → Type 0
IsWithin Ordering.lt _ _ = Unit
IsWithin Ordering.eq o p = AreLess o p
IsWithin Ordering.gt o p = AreLess o p

compared :
    (n : ℕ) (o q r : Ordering)
    → compare n 55296 ≡ o
    → compare n 1114112 ≡ r
    → IsWithin o q r
    → n < 1_114_112
compared n Ordering.lt q r e g s = ground (arith, e)
compared n Ordering.eq q r e g s = ground (arith, e)
compared n Ordering.gt Ordering.lt Ordering.lt e g s = ground (arith, g)
compared n Ordering.gt Ordering.lt Ordering.eq e g s = absurd s
compared n Ordering.gt Ordering.lt Ordering.gt e g s = absurd s
compared n Ordering.gt Ordering.eq r e g s = absurd s
compared n Ordering.gt Ordering.gt r e g s = absurd s

scalar_bound : (n : ℕ) → IsScalar n → n < 1_114_112
scalar_bound n p = compared n (compare n 55296) (compare 57343 n) (compare n 1114112) refl refl p

pub bytes-IsByte : (s : String) → All IsByte (bytes s)
unfolding bytes
bytes-IsByte String.[] = tt
bytes-IsByte (String.◌∷◌ (char n p) s) =
    All-append IsByte (utf8 n) (bytes s) (utf8-IsByte n (scalar_bound n p)) (bytes-IsByte s)
  where
    utf8-IsByte : (n : ℕ) → n < 1_114_112 → All IsByte (utf8 n)
    utf8-IsByte n h = ground arith
