-- ===== src/Fcgi/Params.antt =====
-- The parameters of a request (`params` and `length` of onboard/src/fcgi.rs). The cursor `i` into
-- the buffer is the list of the bytes from it on. A `String` is its UTF-8 bytes.
pub mod RoundTrip
pub mod Total
use Prim.Native.Nat.{bit_and}
use kyriakon_infra.Base.{
  ℕ, zero, suc, ◌+◌, List, [], ◌∷◌, Option, none, some, Bool, ltb, ◌==◌, if◌then◌else◌, length,
  take, drop, Result, ok, err, ◌>>=◌,
}
use kyriakon_infra.Base.Bytes.{bytes_eq, lossy}
use kyriakon_infra.Fcgi.Wire.{be32}

-- `unfinished` is the model's own, for a loop that is out of fuel; it is never met.
pub data Error : Type 0 where
  ends_inside_length runs_past_end unfinished : Error

-- The `BTreeMap` of the parameters, read by name only.
abbrev pub Env : Type 0
Env = List (List ℕ × List ℕ)

pub lookup : List ℕ → Env → Option (List ℕ)
lookup name [] = none
lookup name ((k, v) ∷ env) = if bytes_eq k name then some v else lookup name env

pub insert : List ℕ → List ℕ → Env → Env
insert name value [] = (name, value) ∷ []
insert name value ((k, v) ∷ env) =
    if bytes_eq k name then (name, value) ∷ env else (k, v) ∷ insert name value env

four_bytes : List ℕ → Result Error (ℕ × List ℕ)
four_bytes (a ∷ b ∷ c ∷ d ∷ rest) = ok (be32 (bit_and a 0x7f) b c d, rest)
four_bytes _ = err ends_inside_length

-- `length`: one byte below 128, four with the high bit of the first set.
pub read_length : List ℕ → Result Error (ℕ × List ℕ)
read_length [] = err ends_inside_length
read_length (first ∷ rest) =
    if bit_and first 0x80 == 0 then ok (first, rest) else four_bytes (first ∷ rest)

-- What one round of the loop takes off the buffer: a name, a value, and the rest.
pub read_pair : List ℕ → Result Error (List ℕ × List ℕ × List ℕ)
read_pair buf = do
  (name_len, buf1) ← read_length buf
  (value_len, buf2) ← read_length buf1
  if ltb (length buf2) (name_len + value_len)
      then err runs_past_end
      else ok (
        lossy (take name_len buf2),
        lossy (take value_len (drop name_len buf2)),
        drop (name_len + value_len) buf2,
      )

pub params_loop : ℕ → List ℕ → Env → Result Error Env
params_loop fuel [] out = ok out
params_loop zero (b ∷ bs) out = err unfinished
params_loop (suc fuel) (b ∷ bs) out = elim (read_pair (b ∷ bs)) [
  | ok (name, value, rest) ↦ params_loop fuel rest (insert name value out)
  | err e ↦ err e
]

-- A pair takes two bytes or more, so the length of the buffer is fuel enough.
pub params : List ℕ → Result Error Env
params buf = params_loop (length buf) buf []
