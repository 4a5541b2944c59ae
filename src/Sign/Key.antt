-- ===== src/Sign/Key.antt =====
-- The key file (`read_key` of onboard/src/sign.rs): what the file system says of it, and its bytes.
use kyriakon_infra.Sign.{Text}
use kyriakon_infra.Base.{
  ℕ, List, Option, Bool, ◌≡◌, ◌∷◌, all, Result, ◌==◌, false, true, err, [], ◌++◌, ◌||◌, some, refl,
  if◌then◌else◌, arith, ◌&&◌, not, ◌%◌, ok, none,
}

pub record KeyFile : Type 0 where
  pub uid : ℕ
  pub mode : ℕ
  pub bytes : List ℕ

pub data Error : Type 0 where
  unreadable not_owned_by_root readable_by_others empty : Error

-- `u8::is_ascii_whitespace`
abbrev pub is_ascii_whitespace : ℕ → Bool
is_ascii_whitespace b = b == 9 || b == 10 || b == 12 || b == 13 || b == 32

-- The bytes up to the last one that is not white space.
unfoldable pub strip_end : List ℕ → List ℕ
strip_end [] = []
strip_end (b ∷ bs) = elim (strip_end bs) [
  | [] ↦ if is_ascii_whitespace b then [] else b ∷ []
  | c ∷ cs ↦ b ∷ c ∷ cs
]

-- `euid` is the reader's; the file is absent when it cannot be read. The low six bits of the mode are those
-- of the group and of others.
unfoldable pub read_key : ℕ → Option KeyFile → Result Error Text
read_key euid none = err unreadable
read_key euid (some file) =
    if euid == 0 && not (file.uid == 0)
    then err not_owned_by_root
    else if not (file.mode % 64 == 0)
    then err readable_by_others
    else elim (strip_end file.bytes) [ [] ↦ err empty | c ∷ cs ↦ ok (c ∷ cs) ]

blank_end : (bs : List ℕ) → all is_ascii_whitespace bs ≡ true → strip_end bs ≡ []
unfolding strip_end
blank_end [] h = refl
blank_end (b ∷ bs) h =
    let here : is_ascii_whitespace b ≡ true = ground arith in
    let rest : all is_ascii_whitespace bs ≡ true = ground arith in
    rw (blank_end bs rest) (rw here refl)

strip_end-append :
    (key blank : List ℕ) (last : ℕ)
    → is_ascii_whitespace last ≡ false
    → all is_ascii_whitespace blank ≡ true
    → strip_end (key ++ last ∷ blank) ≡ key ++ last ∷ []
unfolding strip_end
strip_end-append [] blank last hl hb = rw (blank_end blank hb) (rw hl refl)
strip_end-append (b ∷ []) blank last hl hb = rw (strip_end-append [] blank last hl hb) refl
strip_end-append (b ∷ c ∷ key) blank last hl hb =
    rw (strip_end-append (c ∷ key) blank last hl hb) refl

-- A key that ends in no white space is read the same whatever white space the file has after it.
pub read_key-append :
    (euid : ℕ) (uid mode last : ℕ) (key blank : List ℕ)
    → is_ascii_whitespace last ≡ false
    → all is_ascii_whitespace blank ≡ true
    → read_key euid (some (record { uid = uid; mode = mode; bytes = key ++ last ∷ blank }))
      ≡ read_key euid (some (record { uid = uid; mode = mode; bytes = key ++ last ∷ [] }))
unfolding read_key
read_key-append euid uid mode last key blank hl hb =
    rw (strip_end-append key blank last hl hb, strip_end-append key [] last hl refl) refl
