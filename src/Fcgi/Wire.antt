-- ===== src/Fcgi/Wire.antt =====
-- The constants of the wire and the record header (onboard/src/fcgi.rs). A byte is a number below
-- 256, and a byte string a list of them.
use Prim.Native.Nat.{bit_and}
use kyriakon_infra.Base.{
  ℕ, zero, suc, ◌+◌, ◌*◌, ◌/◌, ◌%◌, ◌<◌, ◌≡◌, refl, Bool, true, ◌&&◌, List, ◌∷◌, Option, none, some,
  arith, ◌==◌, ==_iff, Bool-cases, inl, inr,
}

abbrev pub version : ℕ
version = 1

abbrev pub begin_request : ℕ
begin_request = 1

abbrev pub abort_request : ℕ
abort_request = 2

abbrev pub end_request : ℕ
end_request = 3

abbrev pub params_kind : ℕ
params_kind = 4

abbrev pub stdin : ℕ
stdin = 5

abbrev pub stdout : ℕ
stdout = 6

-- The header's length, `HEADER`.
abbrev pub header_len : ℕ
header_len = 8

-- `u16::MAX`
pub max_content : ℕ
max_content = 65535

pub max_params : ℕ
max_params = 64 * 1024

pub max_content_value : max_content ≡ 65535
unfolding max_content
max_content_value = refl

pub max_params_value : max_params ≡ 65536
unfolding max_params
max_params_value = refl

-- `u16::from_be_bytes`
abbrev pub be16 : ℕ → ℕ → ℕ
be16 hi lo = hi * 256 + lo

-- `u32::from_be_bytes`
abbrev pub be32 : ℕ → ℕ → ℕ → ℕ → ℕ
be32 a b c d = a * 16777216 + b * 65536 + c * 256 + d

-- The fields of a record's header that the reader uses.
pub record Header : Type 0 where
  pub version_byte : ℕ
  pub kind : ℕ
  pub record_id : ℕ
  pub len : ℕ
  pub padding : ℕ

-- The eight bytes of a header and what follows them; `none` where the bytes end before.
unfoldable pub split_header : List ℕ → Option (Header × List ℕ)
split_header (v ∷ k ∷ i ∷ j ∷ l ∷ m ∷ p ∷ _ ∷ rest) =
    some (
      record { version_byte = v; kind = k; record_id = be16 i j; len = be16 l m; padding = p },
      rest,
    )
split_header _ = none

-- Two functions that agree at each value below a bound, as a test.
agree : (f g : ℕ → ℕ) → ℕ → Bool
agree f g zero = true
agree f g (suc k) = agree f g k && f k == g k

agree-equal : (f g : ℕ → ℕ) (bound x : ℕ) → x < bound → agree f g bound ≡ true → f x ≡ g x
unfolding agree
agree-equal f g zero x small same = absurd (omega arith)
agree-equal f g (suc k) x small same = elim (Bool-cases (x == k)) [
  | inl here ↦ rw ((==_iff x k).0 here) ((==_iff (f k) (g k)).0 (ground (arith, same)))
  | inr below ↦ agree-equal f g k x (ground arith) (ground (arith, same))
]

-- The masks of the code on a byte, each checked at its 256 values.
pub top_bit : (x : ℕ) → x < 256 → bit_and x 0x80 ≡ x / 128 * 128
unfolding agree
top_bit x byte = agree-equal (λ b. bit_and b 0x80) (λ b. b / 128 * 128) 256 x byte refl

pub low_bits : (x : ℕ) → x < 256 → bit_and x 0x7f ≡ x % 128
unfolding agree
low_bits x byte = agree-equal (λ b. bit_and b 0x7f) (λ b. b % 128) 256 x byte refl
