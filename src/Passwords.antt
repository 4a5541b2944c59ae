-- ===== src/Passwords.antt =====
-- What a password and a stored hash may be (onboard/src/password.rs), on code points; the hash itself is the
-- bcrypt crate's.
use kyriakon_infra.Base.Chars.{codes, split, utf8_len, is_control, is_digit}
use kyriakon_infra.Base.Bytes.{bytes_eq}
use kyriakon_infra.Base.{
  List, ℕ, Option, ◌∷◌, Bool, ◌&&◌, if◌then◌else◌, not, length, ltb, ◌||◌, ◌==◌, [], false, all,
  some, any, none,
}
use kyriakon_infra.Money.{number}

pub data Problem : Type 0 where
  too_short too_long not_printable : Problem

unfoldable pub validate : List ℕ → Option Problem
validate plain =
    if ltb (length plain) 12
    then some too_short
    else if ltb 72 (utf8_len plain)
    then some too_long
    else if any is_control plain
    then some not_printable
    else none

-- `str::parse::<u32>`: digits, with a plus sign before them or not, of a number below 2 ^ 32.
abbrev pub unsigned : List ℕ → List ℕ
unsigned [] = []
unsigned (c ∷ s) = if c == b'+' then s else c ∷ s

abbrev pub is_u32 : List ℕ → Bool
is_u32 s =
    let n = unsigned s in not (length n == 0) && (all is_digit n && ltb (number 0 n) 4_294_967_296)

unfoldable pub is_hash : List ℕ → Bool
is_hash stored = elim (split b'$' stored) as (λ _. Bool) [
  | lead ∷ version ∷ cost ∷ body ∷ [] ↦
      bytes_eq lead []
      && ((bytes_eq version (codes "2a")
            || (bytes_eq version (codes "2b") || bytes_eq version (codes "2y")))
          && (is_u32 cost && utf8_len body == 53))
  | _ ↦ false
]
