-- ===== src/Base/Chars.antt =====
-- Rust's `char` and `str` methods, on a text as the list of its code points.
use mathlib.Core.Bool.{Bool, ◌&&◌, ◌||◌}
use mathlib.Core.Option.{Option, none, some}
use mathlib.Core.List.{List, [], ◌∷◌, reverse}
use Prim.Native.Char.{Char, code}
use Prim.Native.Nat.{ℕ, ◌+◌, ◌/◌}
use Prim.Native.String.{String}
use kyriakon_infra.Base.Tests.{ltb, leb, ◌==◌, if◌then◌else◌}
use kyriakon_infra.Base.{◌/◌, ◌++◌, ◌%◌}

-- The code points of a literal.
abbrev pub codes : String → List ℕ
codes String.[] = []
codes (String.◌∷◌ c s) = code c ∷ codes s

abbrev pub in_range : ℕ → ℕ → ℕ → Bool
in_range lo hi c = leb lo c && leb c hi

abbrev pub is_digit : ℕ → Bool
is_digit c = in_range b'0' b'9' c

abbrev pub is_lower : ℕ → Bool
is_lower c = in_range b'a' b'z' c

-- `char::is_whitespace`: the code points with the property White_Space.
unfoldable pub is_whitespace : ℕ → Bool
is_whitespace c =
    in_range 9 13 c
    || c == 32
    || c == 0x85
    || c == 0xa0
    || c == 0x1680
    || in_range 0x2000 0x200a c
    || c == 0x2028
    || c == 0x2029
    || c == 0x202f
    || c == 0x205f
    || c == 0x3000

-- `char::is_control`: the category Cc.
unfoldable pub is_control : ℕ → Bool
is_control c = ltb c 32 || in_range 0x7f 0x9f c

-- `str::len`: the bytes of the UTF-8 form.
unfoldable pub utf8_len : List ℕ → ℕ
utf8_len [] = 0
utf8_len (c ∷ s) =
    (if ltb c 0x80 then 1 else if ltb c 0x800 then 2 else if ltb c 0x1_0000 then 3 else 4)
    + utf8_len s

unfoldable pub trim_start : List ℕ → List ℕ
unfolding is_whitespace
trim_start [] = []
trim_start (c ∷ s) = if is_whitespace c then trim_start s else c ∷ s

unfoldable pub trim : List ℕ → List ℕ
unfolding trim_start
trim s = reverse (trim_start (reverse (trim_start s)))

abbrev pub cons_head : ℕ → List (List ℕ) → List (List ℕ)
cons_head c [] = (c ∷ []) ∷ []
cons_head c (p ∷ ps) = (c ∷ p) ∷ ps

-- `str::split`: never empty.
unfoldable pub split : ℕ → List ℕ → List (List ℕ)
split sep [] = [] ∷ []
split sep (c ∷ s) = let rest = split sep s in if c == sep then [] ∷ rest else cons_head c rest

-- `str::split_once`: at the first separator.
unfoldable pub split_once : ℕ → List ℕ → Option (List ℕ × List ℕ)
split_once sep [] = none
split_once sep (c ∷ s) =
    let rest = split_once sep s in
    if c == sep then some ([], s) else elim rest [ none ↦ none | some (a, b) ↦ some (c ∷ a, b) ]

-- The characters of amounts and dates, and the text of their code points.
abbrev pub plain_chars : List Char
plain_chars = "0" ∷ "1" ∷ "2" ∷ "3" ∷ "4" ∷ "5" ∷ "6" ∷ "7" ∷ "8" ∷ "9" ∷ "." ∷ "-" ∷ []

abbrev pub char_at : ℕ → List Char → Char
char_at c [] = "?"
char_at c (x ∷ xs) = if code x == c then x else char_at c xs

unfoldable pub plain_text : List ℕ → String
plain_text [] = String.[]
plain_text (c ∷ s) = String.◌∷◌ (char_at c plain_chars) (plain_text s)

-- `str::trim` on a text as it is stored.
abbrev pub chars : String → List Char
chars String.[] = []
chars (String.◌∷◌ c s) = c ∷ chars s

abbrev pub string : List Char → String
string [] = String.[]
string (c ∷ cs) = String.◌∷◌ c (string cs)

pub drop_blank : List Char → List Char
unfolding is_whitespace
drop_blank [] = []
drop_blank (c ∷ cs) = if is_whitespace (code c) then drop_blank cs else c ∷ cs

unfoldable pub trim_text : String → String
unfolding drop_blank
trim_text s = string (reverse (drop_blank (reverse (drop_blank (chars s)))))

-- The bytes of a character, and `str::as_bytes`.
abbrev pub utf8 : ℕ → List ℕ
utf8 c =
    if ltb c 0x80
    then c ∷ []
    else if ltb c 0x800
    then (0xc0 + c / 64) ∷ (0x80 + c % 64) ∷ []
    else if ltb c 0x1_0000
    then (0xe0 + c / 4096) ∷ (0x80 + c / 64 % 64) ∷ (0x80 + c % 64) ∷ []
    else (0xf0 + c / 262144) ∷ (0x80 + c / 4096 % 64) ∷ (0x80 + c / 64 % 64) ∷ (0x80 + c % 64) ∷ []

unfoldable pub bytes : String → List ℕ
bytes String.[] = []
bytes (String.◌∷◌ c s) = utf8 (code c) ++ bytes s
