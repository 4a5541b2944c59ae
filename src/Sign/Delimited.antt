-- ===== src/Sign/Delimited.antt =====
-- Fields that end where they say they end: a text cut at its first colon, one led by its own length,
-- a number and a word for a Boolean (the payloads of onboard/src/sign.rs).
use kyriakon_infra.Sign.{Text, decimal, bool_text, free_text}
use kyriakon_infra.Base.{
  ℕ, zero, suc, ◌^◌, ◌<◌, [], ◌∷◌, ◌++◌, ◌≡◌, refl, false, true, arith, length, Bool, ap, sym, ◌∙◌,
  ◌==◌,
}
use kyriakon_infra.Base.Pieces.{IsFree}
use kyriakon_infra.Base.Chars.{is_digit}
use kyriakon_infra.Money.{digits, number}
use kyriakon_infra.Money.RoundTrip.{AllDigits, digits-AllDigits, number-digits}
use mathlib.Core.List.{append_assoc, append-nil}

-- Two texts free of a separator and followed by it end at the same place.
pub cut_unique :
    (c : ℕ) (a b s t : Text) → IsFree c a → IsFree c b → a ++ c ∷ s ≡ b ++ c ∷ t → (a ≡ b) × (s ≡ t)
cut_unique c [] [] s t ha hb h = (refl, cc)
cut_unique c [] (y ∷ b) s t ha hb h = let same : c ≡ y = cc in absurd (ground (arith, same))
cut_unique c (x ∷ a) [] s t ha hb h = let same : x ≡ c = cc in absurd (ground (arith, same))
cut_unique c (x ∷ a) (y ∷ b) s t ha hb h =
    let head : x ≡ y = cc in
    let both = cut_unique c a b s t (ground (arith, ha)) (ground (arith, hb)) cc in
    (cc (head, both.0), both.1)

append_unique : (a b s t : Text) → length a ≡ length b → a ++ s ≡ b ++ t → (a ≡ b) × (s ≡ t)
append_unique [] [] s t l h = (refl, h)
append_unique [] (y ∷ b) s t l h = absurd (omega arith)
append_unique (x ∷ a) [] s t l h = absurd (omega arith)
append_unique (x ∷ a) (y ∷ b) s t l h =
    let head : x ≡ y = cc in
    let both = append_unique a b s t (omega arith) cc in (cc (head, both.0), both.1)

fewer_than_power : (n : ℕ) → n < 10 ^ suc n
fewer_than_power zero = omega arith
fewer_than_power (suc n) = omega (arith, fewer_than_power n)

pub decimal_unique : (m n : ℕ) → decimal m ≡ decimal n → m ≡ n
unfolding decimal
decimal_unique m n h =
    sym (number-digits (suc m) m (fewer_than_power m))
    ∙ (ap (number 0) h ∙ number-digits (suc n) n (fewer_than_power n))

digits_free : (c : ℕ) (s : Text) → is_digit c ≡ false → AllDigits s → IsFree c s
digits_free c [] hc h = refl
digits_free c (d ∷ s) hc h = ground (arith, digits_free c s)

pub decimal-IsFree : (c n : ℕ) → is_digit c ≡ false → IsFree c (decimal n)
unfolding decimal
decimal-IsFree c n hc = digits_free c (digits (suc n) n) hc (digits-AllDigits (suc n) n)

-- A free text says where it ends.
pub free_text_unique : (a b s t : Text) → free_text a ++ s ≡ free_text b ++ t → (a ≡ b) × (s ≡ t)
unfolding free_text
free_text_unique a b s t h =
    let lengths =
      cut_unique b':' (decimal (length a)) (decimal (length b)) (a ++ s) (b ++ t)
        (decimal-IsFree b':' (length a) refl) (decimal-IsFree b':' (length b) refl)
        (sym (append_assoc (decimal (length a)) (b':' ∷ a) s)
          ∙ (h ∙ append_assoc (decimal (length b)) (b':' ∷ b) t)) in
    append_unique a b s t (decimal_unique (length a) (length b) lengths.0) lengths.1

pub free_field_unique :
    (c d : ℕ) (a b s t : Text) → free_text a ++ c ∷ s ≡ free_text b ++ d ∷ t → (a ≡ b) × (s ≡ t)
free_field_unique c d a b s t h =
    let both = free_text_unique a b (c ∷ s) (d ∷ t) h in (both.0, cc (both.1))

-- Texts that begin with two different bytes differ.
pub heads_differ : (x y : ℕ) (s t : Text) → (x == y) ≡ false → x ∷ s ≡ y ∷ t → ⊥
heads_differ x y s t d h = let same : x ≡ y = cc in ground (arith, same)

pub bool_field_unique :
    (a b : Bool) (s t : Text) → bool_text a ++ s ≡ bool_text b ++ t → (a ≡ b) × (s ≡ t)
bool_field_unique true true s t h = (refl, cc)
bool_field_unique true false s t h = absurd (heads_differ b't' b'f' _ _ refl h)
bool_field_unique false true s t h = absurd (heads_differ b'f' b't' _ _ refl h)
bool_field_unique false false s t h = (refl, cc)

pub free_text_alone : (a b : Text) → free_text a ≡ free_text b → a ≡ b
free_text_alone a b h =
    let both =
      free_text_unique a b [] []
        (append-nil (free_text a) ∙ (h ∙ sym (append-nil (free_text b)))) in
    both.0
