-- ===== src/Base/Bytes.antt =====
-- Byte strings: equality, big-endian words, and Rust's `String::from_utf8_lossy`.
use mathlib.Core.Path.{◌≡◌, refl}
use mathlib.Core.Logic.{◌↔◌}
use mathlib.Core.Bool.{Bool, true, false, ◌&&◌}
use mathlib.Core.List.{List, [], ◌∷◌, ◌++◌}
use Prim.Native.Nat.{ℕ, zero, suc, ◌<◌}
use native.Mathlib.Omega.{arith}
use kyriakon_infra.Base.Tests.{ltb, leb, ◌==◌, if◌then◌else◌}
use kyriakon_infra.Base.Lists.{All}

abbrev pub IsByte : ℕ → Type 0
IsByte b = b < 256

abbrev pub bytes_eq : List ℕ → List ℕ → Bool
bytes_eq [] [] = true
bytes_eq [] (y ∷ ys) = false
bytes_eq (x ∷ xs) [] = false
bytes_eq (x ∷ xs) (y ∷ ys) = x == y && bytes_eq xs ys

pub bytes_eq_iff : (xs ys : List ℕ) → (bytes_eq xs ys ≡ true) ↔ (xs ≡ ys)
bytes_eq_iff [] [] = (λ h. refl, λ h. refl)
bytes_eq_iff [] (y ∷ ys) = (λ h. cc, λ h. cc)
bytes_eq_iff (x ∷ xs) [] = (λ h. cc, λ h. cc)
bytes_eq_iff (x ∷ xs) (y ∷ ys) = ground (arith, bytes_eq_iff xs ys)

-- The replacement character U+FFFD in UTF-8.
abbrev pub replacement : List ℕ
replacement = 0xef ∷ 0xbf ∷ 0xbd ∷ []

-- Where a decoder of UTF-8 stands: between characters, or inside one, with the bytes of it that
-- were read, the range that the next byte must lie in, and how many more follow that one.
pub data Decoding : Type 0 where
  between : Decoding
  inside : List ℕ → ℕ → ℕ → ℕ → Decoding

abbrev in_range : ℕ → ℕ → ℕ → Bool
in_range lo hi b = leb lo b && leb b hi

-- A first byte: what is written for it at once, and where the decoder stands after it.
first_byte : ℕ → List ℕ × Decoding
first_byte b =
    if ltb b 0x80
    then (b ∷ [], between)
    else if in_range 0xc2 0xdf b
    then ([], inside (b ∷ []) 0x80 0xbf 0)
    else if b == 0xe0
    then ([], inside (b ∷ []) 0xa0 0xbf 1)
    else if b == 0xed
    then ([], inside (b ∷ []) 0x80 0x9f 1)
    else if in_range 0xe1 0xef b
    then ([], inside (b ∷ []) 0x80 0xbf 1)
    else if b == 0xf0
    then ([], inside (b ∷ []) 0x90 0xbf 2)
    else if in_range 0xf1 0xf3 b
    then ([], inside (b ∷ []) 0x80 0xbf 2)
    else if b == 0xf4
    then ([], inside (b ∷ []) 0x80 0x8f 2)
    else (replacement, between)

-- The byte that completes a character, or one more of it.
next_byte : List ℕ → ℕ → List ℕ × Decoding
next_byte read zero = (read, between)
next_byte read (suc left) = ([], inside read 0x80 0xbf left)

-- A byte outside the range ends the character unfinished: it is replaced, and the byte is a first one.
decode_byte : Decoding → ℕ → List ℕ × Decoding
decode_byte between b = first_byte b
decode_byte (inside read lo hi left) b =
    if in_range lo hi b
    then next_byte (read ++ b ∷ []) left
    else (replacement ++ (first_byte b).0, (first_byte b).1)

decode_end : Decoding → List ℕ
decode_end between = []
decode_end (inside read lo hi left) = replacement

pub decode_from : Decoding → List ℕ → List ℕ
decode_from s [] = decode_end s
decode_from s (b ∷ bs) = (decode_byte s b).0 ++ decode_from (decode_byte s b).1 bs

-- `String::from_utf8_lossy`, the text as its UTF-8 bytes.
pub lossy : List ℕ → List ℕ
unfolding decode_from decode_byte decode_end first_byte next_byte
lossy bs = decode_from between bs

abbrev pub IsAscii : ℕ → Type 0
IsAscii b = b < 128

decode_from-ascii : (bs : List ℕ) → All IsAscii bs → decode_from between bs ≡ bs
unfolding decode_from decode_byte decode_end first_byte
decode_from-ascii [] h = refl
decode_from-ascii (b ∷ bs) h = ground (arith, decode_from-ascii bs h.1)

-- Ascii is kept as it is.
pub lossy-ascii : (bs : List ℕ) → All IsAscii bs → lossy bs ≡ bs
unfolding lossy
lossy-ascii bs h = decode_from-ascii bs h
