-- ===== src/Validate/Addresses.antt =====
-- What the addresses that the rules accept look like.
use kyriakon_infra.Base.{◌&&◌, sym}
use kyriakon_infra.Base.Pieces.{join, join-split, split-IsFree}
use kyriakon_infra.Validate.{
  Text, Refusal, address_lines, address, first_bad_address, target_reason, address_line, words,
  entries, username_shape, has_dot, is_punctuation, is_empty, not_an_address,
}
use kyriakon_infra.Base.Chars.{split_once, trim, codes, split}
use kyriakon_infra.Base.{
  ◌≡◌, List, none, some, Option-cases, ◌↔◌, ◌++◌, All, ◌∷◌, inl, length, inr, arith, ◌<◌, ◌≤◌, [],
  ◌∙◌, ap, refl, true, any, false, Option, if◌then◌else◌, not,
}
use kyriakon_infra.Validate.Names.{IsName, username_shape-IsName}
use kyriakon_infra.Base.Pieces.{IsFree}
use kyriakon_infra.Base.Bytes.{bytes_eq_iff}

-- An address that is accepted is one local part and one domain around the one `@` of the text, both
-- with something in them, the domain with a dot; nothing in the text is white space, a control
-- character or the punctuation of an address list, so no second recipient and no header line.
pub address_one_recipient :
    (v : Text)
    → address v ≡ none
    → (local : Text) × (host : Text) × (v ≡ local ++ b'@' ∷ host)
      × IsFree b'@' local
      × IsFree b'@' host
      × (0 < length local)
      × (has_dot host ≡ true)
      × (any is_punctuation v ≡ false)
unfolding address
address_one_recipient v h = go (split b'@' v) (join-split b'@' v) (split-IsFree b'@' v) h
  where
    go :
        (ps : List Text)
        → join b'@' ps ≡ v
        → All (IsFree b'@') ps
        → ◌≡◌ {A = Option Refusal}
            (elim ps [
              | local ∷ domain' ∷ [] ↦
                  if not (is_empty local)
                    && (not (is_empty domain') && (has_dot domain' && not (any is_punctuation v)))
                  then none
                  else some not_an_address
              | _ ↦ some not_an_address
            ])
            none
        → (local : Text) × (host : Text) × (v ≡ local ++ b'@' ∷ host)
          × IsFree b'@' local
          × IsFree b'@' host
          × (0 < length local)
          × (has_dot host ≡ true)
          × (any is_punctuation v ≡ false)
    go [] e free p = absurd (ground arith)
    go (a ∷ []) e free p = absurd (ground arith)
    go ([] ∷ b ∷ []) e free p = absurd (ground arith)
    go ((c ∷ a) ∷ b ∷ []) e free p =
        (c ∷ a, b, sym e, free.0, free.1.0, omega arith, ground arith, ground arith)
    go (a ∷ b ∷ c ∷ ps) e free p = absurd (ground arith)

first_bad_address_iff :
    (lines : List Text) → (first_bad_address lines ≡ none) ↔ All (λ l. address_line l ≡ none) lines
unfolding first_bad_address
first_bad_address_iff [] = (λ h. tt, λ h. refl)
first_bad_address_iff (l ∷ ls) = elim (Option-cases (address_line l)) [
  | inl e ↦ (
    λ h. (e, (first_bad_address_iff ls).0 (rw (e, first_bad_address) at h)),
    λ h. rw (e, first_bad_address) ((first_bad_address_iff ls).1 h.1),
  )
  | inr (why, e) ↦ (λ h. absurd (ground (arith, e)), λ h. absurd (ground (arith, e, h.0)))
]

-- What an accepted line asks for.
pub data Wanted : Type 0 where
  own : Text → Wanted
  alias : Text → Text → Wanted

-- The line, read as one of the two forms.
pub data IsReadAs (line : Text) : Wanted → Type 0 where
  own_line :
      (left right : Text)
      → split_once b':' line ≡ some (left, right)
      → IsName (trim left)
      → words (trim right) ≡ codes "own" ∷ []
      → IsReadAs line (own (trim left))
  alias_line :
      (left right target : Text)
      → split_once b':' line ≡ some (left, right)
      → IsName (trim left)
      → words (trim right) ≡ codes "alias" ∷ target ∷ []
      → IsName target
      → IsReadAs line (alias (trim left) target)

read_target :
    (line left right : Text) (ws : List Text)
    → split_once b':' line ≡ some (left, right)
    → IsName (trim left)
    → words (trim right) ≡ ws
    → target_reason line ws ≡ none
    → (w : Wanted) × IsReadAs line w
unfolding target_reason
read_target line left right [] s n e h = absurd (ground arith)
read_target line left right (a ∷ []) s n e h = (
  own (trim left),
  own_line left right s n (e ∙ ap (λ w. w ∷ []) ((bytes_eq_iff a (codes "own")).0 (ground arith))),
)
read_target line left right (a ∷ t ∷ []) s n e h = elim (Option-cases (username_shape t)) [
  | inl p ↦ (
    alias (trim left) t,
    alias_line left right t s n
        (e ∙ ap (λ w. w ∷ t ∷ []) ((bytes_eq_iff a (codes "alias")).0 (ground (arith, p))))
        (username_shape-IsName t p),
  )
  | inr (why, p) ↦ absurd (ground (arith, p))
]
read_target line left right (a ∷ t ∷ u ∷ ws) s n e h = absurd (ground arith)

-- An address line that is accepted reads as `name: own` or `name: alias target`, and both names fit.
pub address_line_read : (line : Text) → address_line line ≡ none → (w : Wanted) × IsReadAs line w
unfolding address_line
address_line_read line h = elim (Option-cases (split_once b':' line)) [
  | inl e ↦ absurd (ground (arith, e))
  | inr ((left, right), e) ↦ elim (Option-cases (username_shape (trim left))) [
    | inl p ↦
        read_target line left right (words (trim right)) e (username_shape-IsName (trim left) p)
          refl (rw (e, p, address_line) at h)
    | inr (why, p) ↦ absurd (ground (arith, e, p))
  ]
]

-- The list of addresses is accepted exactly if it has ten lines or fewer and each is accepted.
pub address_lines_iff :
    (value : Text)
    → (address_lines value ≡ none)
      ↔ ((length (entries value) ≤ 10) × All (λ l. address_line l ≡ none) (entries value))
unfolding address_lines
address_lines_iff value = (
  λ h. (ground arith, (first_bad_address_iff (entries value)).0 (ground arith)),
  λ h. ground (arith, h.0, (first_bad_address_iff (entries value)).1 h.1),
)
