-- ===== src/Validate.antt =====
-- The rules for the fields of an application (onboard/src/validate.rs). A text is the list of its
-- code points; where the code looks at bytes, the bytes it admits are ASCII, so that a code point
-- passes where all its bytes do. A refusal keeps what the code puts into its message.
pub mod Names
pub mod Domains
pub mod Addresses
mod Tests
use kyriakon_infra.Base.{
  ℕ, List, [], ◌∷◌, Option, none, some, Bool, not, ◌&&◌, ◌||◌, ltb, ◌==◌, if◌then◌else◌, any, all,
  keep, map, length, false, true, ◌+◌,
}
use kyriakon_infra.Base.Bytes.{bytes_eq}
use kyriakon_infra.Base.Chars.{
  codes, is_digit, is_lower, is_whitespace, is_control, utf8_len, trim, split, split_once, in_range,
}

abbrev pub Text : Type 0
Text = List ℕ

pub data Refusal : Type 0 where
  username_needed username_long username_start username_symbols held_back : Refusal
  bad_name : Text → Refusal → Refusal
  empty_label long_label few_labels : Refusal
  label_symbols label_hyphen : Text → Refusal
  too_many : ℕ → Refusal
  malformed : Text → Refusal
  bad_local : Text → Refusal → Refusal
  bad_target : Text → Text → Refusal → Refusal
  not_an_address not_offered : Refusal

abbrev is_empty : Text → Bool
is_empty [] = true
is_empty (c ∷ s) = false

-- `str::lines`: a line that `\n` ends loses one `\r` before it, and a text that ends in `\n` has no
-- empty line behind it.
pub strip_cr : Text → Text
strip_cr [] = []
strip_cr (c ∷ []) = if c == 13 then [] else c ∷ []
strip_cr (c ∷ d ∷ s) = c ∷ strip_cr (d ∷ s)

pub lines_of : List Text → List Text
lines_of [] = []
lines_of ([] ∷ []) = []
lines_of ((c ∷ s) ∷ []) = (c ∷ s) ∷ []
lines_of (p ∷ q ∷ ps) = strip_cr p ∷ lines_of (q ∷ ps)

-- `value.lines().map(str::trim).filter(|l| !l.is_empty())`
pub entries : Text → List Text
entries value = keep (λ l. not (is_empty l)) (map trim (lines_of (split 10 value)))

-- `to_ascii_lowercase`
pub lowercase : Text → Text
lowercase s = map (λ c. if in_range b'A' b'Z' c then c + 32 else c) s

abbrev is_comment : Text → Bool
is_comment [] = false
is_comment (c ∷ s) = c == b'#'

pub reserved : Text → List Text
reserved text = map lowercase (keep (λ l. not (is_comment l)) (entries text))

pub contains : Text → List Text → Bool
contains value set = any (λ s. bytes_eq s value) set

abbrev pub is_lower_digit : ℕ → Bool
is_lower_digit c = is_lower c || is_digit c

abbrev pub is_name_symbol : ℕ → Bool
is_name_symbol c = is_lower_digit c || (c == b'.' || (c == b'_' || c == b'-'))

unfoldable pub username_shape : Text → Option Refusal
username_shape [] = some username_needed
username_shape (first ∷ rest) =
    if ltb 32 (length (first ∷ rest))
    then some username_long
    else if not (is_lower_digit first)
    then some username_start
    else if not (all is_name_symbol (first ∷ rest))
    then some username_symbols
    else none

pub username : Text → List Text → Option Refusal
username value set = elim (username_shape value) [
  | some why ↦ some why
  | none ↦ if contains value set then some held_back else none
]

-- The loop over the lines.
pub first_bad : List Text → List Text → Option Refusal
first_bad [] set = none
first_bad (line ∷ rest) set =
    let later = first_bad rest set in
    elim (username line set) [ some why ↦ some (bad_name line why) | none ↦ later ]

pub usernames : Text → List Text → Option Refusal
usernames value set = first_bad (entries value) set

abbrev pub is_label_symbol : ℕ → Bool
is_label_symbol c = is_lower_digit c || c == b'-'

abbrev pub starts_hyphen : Text → Bool
starts_hyphen [] = false
starts_hyphen (c ∷ s) = c == b'-'

abbrev pub ends_hyphen : Text → Bool
ends_hyphen [] = false
ends_hyphen (c ∷ []) = c == b'-'
ends_hyphen (c ∷ d ∷ s) = ends_hyphen (d ∷ s)

pub label_reason : Text → Option Refusal
label_reason label =
    if is_empty label
    then some empty_label
    else if ltb 63 (utf8_len label)
    then some long_label
    else if not (all is_label_symbol label)
    then some (label_symbols label)
    else if starts_hyphen label || ends_hyphen label
    then some (label_hyphen label)
    else none

pub labels_reason : List Text → Option Refusal
labels_reason [] = none
labels_reason (label ∷ rest) =
    let later = labels_reason rest in
    elim (label_reason label) [ some why ↦ some why | none ↦ later ]

pub domain : Text → Option Refusal
domain value = elim (labels_reason (split b'.' value)) [
  | some why ↦ some why
  | none ↦ if ltb (length (split b'.' value)) 2 then some few_labels else none
]

-- `split_whitespace`: the pieces between white space that are not empty.
abbrev cons_head : ℕ → List Text → List Text
cons_head c [] = (c ∷ []) ∷ []
cons_head c (p ∷ ps) = (c ∷ p) ∷ ps

pub space_pieces : Text → List Text
space_pieces [] = [] ∷ []
space_pieces (c ∷ s) =
    let rest = space_pieces s in if is_whitespace c then [] ∷ rest else cons_head c rest

pub words : Text → List Text
words s = keep (λ w. not (is_empty w)) (space_pieces s)

pub target_reason : Text → List Text → Option Refusal
target_reason line (own ∷ []) = if bytes_eq own (codes "own") then none else some (malformed line)
target_reason line (alias ∷ target ∷ []) =
    if bytes_eq alias (codes "alias")
    then elim (username_shape target) [ some why ↦ some (bad_target line target why) | none ↦ none ]
    else some (malformed line)
target_reason line _ = some (malformed line)

pub address_line : Text → Option Refusal
address_line line = elim (split_once b':' line) [
  | none ↦ some (malformed line)
  | some (local, rest) ↦ elim (username_shape (trim local)) [
    | some why ↦ some (bad_local line why)
    | none ↦ target_reason line (words (trim rest))
  ]
]

pub first_bad_address : List Text → Option Refusal
first_bad_address [] = none
first_bad_address (line ∷ rest) =
    let later = first_bad_address rest in
    elim (address_line line) [ some why ↦ some why | none ↦ later ]

pub address_lines : Text → Option Refusal
address_lines value =
    if ltb 10 (length (entries value))
    then some (too_many (length (entries value)))
    else first_bad_address (entries value)

abbrev pub is_punctuation : ℕ → Bool
is_punctuation c = is_whitespace c || (is_control c || any (λ d. d == c) (codes ",;<>\"()"))

abbrev pub has_dot : Text → Bool
has_dot s = any (λ c. c == b'.') s

-- The first two pieces at `@`, and no third.
pub address : Text → Option Refusal
address v = elim (split b'@' v) [
  | local ∷ domain' ∷ [] ↦
      if not (is_empty local)
        && (not (is_empty domain') && (has_dot domain' && not (any is_punctuation v)))
      then none
      else some not_an_address
  | _ ↦ some not_an_address
]

pub choice : List Text → Text → Option Refusal
choice options v = if any (λ o. bytes_eq o v) options then none else some not_offered
