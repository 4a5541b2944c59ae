-- ===== src/Store/Tokens.antt =====
-- The tokens (onboard/src/store.rs): Crockford base32 of a random draw, and the tests of a token's
-- shape. A text is the list of its bytes, and a draw the number that the bytes make.
pub mod Shape
mod Tests
use kyriakon_infra.Base.{
  ℕ, zero, suc, ◌+◌, ◌*◌, ◌/◌, ◌%◌, ◌^◌, List, [], ◌∷◌, ◌++◌, Bool, true, ◌&&◌, ◌||◌, ◌==◌, all,
  any, length, take, drop, if◌then◌else◌,
}
use kyriakon_infra.Base.Bytes.{bytes_eq}
use kyriakon_infra.Base.Chars.{codes}

abbrev pub lower : List ℕ
lower = codes "0123456789abcdefghjkmnpqrstvwxyz"

abbrev pub upper : List ℕ
upper = codes "0123456789ABCDEFGHJKMNPQRSTVWXYZ"

abbrev pub get_or : ℕ → List ℕ → ℕ → ℕ
get_or d [] i = d
get_or d (x ∷ xs) zero = x
get_or d (x ∷ xs) (suc i) = get_or d xs i

-- `A[((v >> (5 * i)) & 31)]`, which is never out of bounds.
unfoldable pub symbol : List ℕ → ℕ → ℕ → ℕ
symbol alphabet v i = get_or 0 alphabet (v / 2 ^ (5 * i) % 32)

-- The loop over `(0..n).rev()`.
unfoldable pub symbols : List ℕ → ℕ → ℕ → List ℕ
symbols alphabet zero v = []
symbols alphabet (suc n) v = symbol alphabet v n ∷ symbols alphabet n v

unfoldable pub crockford128 : ℕ → List ℕ
unfolding symbols symbol
crockford128 v = symbols lower 26 v

pub crockford12 : ℕ → List ℕ
unfolding symbols symbol
crockford12 v =
    let body = symbols upper 12 v in
    codes "KYR-"
    ++ (take 4 body ++ (codes "-" ++ (take 4 (drop 4 body) ++ (codes "-" ++ take 4 (drop 8 body)))))

pub crockford8 : ℕ → List ℕ
unfolding symbols symbol
crockford8 v = codes "UN-" ++ symbols upper 8 v

-- What the three draws hand over: sixteen bytes, and the low 60 and 40 bits of eight.
abbrev pub payment_draw : ℕ → ℕ
payment_draw v = v % 2 ^ 60

abbrev pub unattributed_draw : ℕ → ℕ
unattributed_draw v = v % 2 ^ 40

abbrev pub is_one_of : List ℕ → ℕ → Bool
is_one_of set b = any (λ c. c == b) set

unfoldable pub is_status_token : List ℕ → Bool
is_status_token token = length token == 26 && all (is_one_of lower) token

pub is_unattributed_id : List ℕ → Bool
is_unattributed_id id =
    length id == 11 && (bytes_eq (take 3 id) (codes "UN-") && all (is_one_of upper) (drop 3 id))

-- The loop over the bytes from position 4 on.
unfoldable pub payment_symbols : ℕ → List ℕ → Bool
payment_symbols i [] = true
payment_symbols i (c ∷ cs) =
    (if i == 8 || i == 13 then c == b'-' else is_one_of upper c) && payment_symbols (i + 1) cs

unfoldable pub is_payment_token : List ℕ → Bool
unfolding payment_symbols
is_payment_token token =
    length token == 18
    && (bytes_eq (take 4 token) (codes "KYR-") && payment_symbols 4 (drop 4 token))
