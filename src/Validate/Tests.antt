-- ===== src/Validate/Tests.antt =====
-- Fields of an application (onboard/src/validate.rs).
use kyriakon_infra.Validate.{
  Text, domain, address_line, address, username, usernames, labels_reason, entries, label_reason,
  username_shape, lines_of, target_reason, strip_cr, words, first_bad, has_dot, space_pieces,
  contains, bad_name, is_punctuation, held_back,
}
use kyriakon_infra.Base.{
  all, List, ◌≡◌, ◌∷◌, ◌++◌, none, [], true, All, ◌↔◌, ◌<◌, refl, length, ◌≤◌, any, false, some,
}
use kyriakon_infra.Base.Chars.{
  codes, split, split_once, is_whitespace, is_control, utf8_len, trim, trim_start,
}
use kyriakon_infra.Validate.Addresses.{Wanted, IsReadAs, address_line_read, address_one_recipient}
use kyriakon_infra.Validate.Domains.{is_domain_symbol, IsLabel, domain_path_safe, domain_iff}
use kyriakon_infra.Base.Pieces.{IsFree, join}
use kyriakon_infra.Validate.Names.{IsName, usernames_iff}

abbrev held : List Text
held = codes "root" ∷ codes "admin" ∷ []

usernames_iff_test :
    (usernames (codes "anna\nroot") held ≡ none)
    ↔ All (λ l. IsName l × (contains l held ≡ false)) (entries (codes "anna\nroot"))
usernames_iff_test = usernames_iff (codes "anna\nroot") held

second_line_refused :
    usernames (codes "anna\nroot\n") held ≡ some (bad_name (codes "root") held_back)
unfolding usernames entries lines_of strip_cr first_bad username username_shape contains split trim
second_line_refused = refl

domain_iff_test :
    (domain (codes "a.example") ≡ none)
    ↔ (All IsLabel (split b'.' (codes "a.example")) × (2 ≤ length (split b'.' (codes "a.example"))))
domain_iff_test = domain_iff (codes "a.example")

accepted_domain : domain (codes "st-mark.example") ≡ none
unfolding domain labels_reason label_reason split utf8_len
accepted_domain = refl

domain_path_safe_example :
    (all is_domain_symbol (codes "st-mark.example") ≡ true)
    × All (λ l. (0 < length l) × IsFree b'.' l) (split b'.' (codes "st-mark.example"))
    × (join b'.' (split b'.' (codes "st-mark.example")) ≡ codes "st-mark.example")
domain_path_safe_example = domain_path_safe (codes "st-mark.example") accepted_domain

accepted_address : address (codes "a@b.c") ≡ none
unfolding address split is_whitespace is_control
accepted_address = refl

address_one_recipient_example :
    (local : Text) × (host : Text) × (codes "a@b.c" ≡ local ++ b'@' ∷ host)
    × IsFree b'@' local
    × IsFree b'@' host
    × (0 < length local)
    × (has_dot host ≡ true)
    × (any is_punctuation (codes "a@b.c") ≡ false)
address_one_recipient_example = address_one_recipient (codes "a@b.c") accepted_address

accepted_line : address_line (codes "office: alias anna") ≡ none
unfolding address_line split_once username_shape target_reason words space_pieces trim trim_start
    is_whitespace
accepted_line = refl

address_line_read_test : (w : Wanted) × IsReadAs (codes "office: alias anna") w
address_line_read_test = address_line_read (codes "office: alias anna") accepted_line
