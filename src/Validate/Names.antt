-- ===== src/Validate/Names.antt =====
-- What a username that the rules accept looks like, and which lists of them are accepted.
use kyriakon_infra.Base.{
  ℕ, List, [], ◌∷◌, ◌≡◌, ◌<◌, none, length, arith, ◌↔◌, ◌≤◌, All, true, false, Option-cases, all,
  inl, inr, refl, All-map,
}
use kyriakon_infra.Validate.{
  usernames, username_shape, Text, first_bad, username, contains, is_lower_digit, entries,
  is_name_symbol,
}

-- A username that fits: 1 to 32 lowercase letters, digits, dots, underscores and hyphens, the first
-- of them a letter or a digit.
pub record IsName (value : Text) : Type 0 where
  pub nonempty : 0 < length value
  pub short : length value ≤ 32
  pub first : (c : ℕ) (rest : Text) → value ≡ c ∷ rest → is_lower_digit c ≡ true
  pub symbols : all is_name_symbol value ≡ true

pub username_shape-IsName : (value : Text) → username_shape value ≡ none → IsName value
unfolding username_shape
username_shape-IsName [] h = absurd (ground arith)
username_shape-IsName (c ∷ s) h = record {
  nonempty = omega arith;
  short = ground arith;
  first = λ d rest e. ground arith;
  symbols = ground arith;
}

IsName-username_shape : (value : Text) → IsName value → username_shape value ≡ none
unfolding username_shape
IsName-username_shape [] h = absurd (omega (arith, h.nonempty))
IsName-username_shape (c ∷ s) h = ground (arith, h.short, h.first c s refl, h.symbols)

-- The username rule accepts exactly the names that fit and are not in the reserved set.
pub username_iff :
    (value : Text) (set : List Text)
    → (username value set ≡ none) ↔ (IsName value × (contains value set ≡ false))
unfolding username
username_iff value set = elim (Option-cases (username_shape value)) [
  | inl e ↦
      (λ h. (username_shape-IsName value e, ground (arith, e)), λ h. rw (e, h.1, username) refl)
  | inr (why, e) ↦ (
    λ h. absurd (ground (arith, e)),
    λ h. absurd (ground (arith, e, IsName-username_shape value h.0)),
  )
]

first_bad_iff :
    (lines : List Text) (set : List Text)
    → (first_bad lines set ≡ none) ↔ All (λ l. username l set ≡ none) lines
unfolding first_bad
first_bad_iff [] set = (λ h. tt, λ h. refl)
first_bad_iff (l ∷ ls) set = elim (Option-cases (username l set)) [
  | inl e ↦ (
    λ h. (e, (first_bad_iff ls set).0 (rw (e, first_bad) at h)),
    λ h. rw (e, first_bad) ((first_bad_iff ls set).1 h.1),
  )
  | inr (why, e) ↦ (λ h. absurd (ground (arith, e)), λ h. absurd (ground (arith, e, h.0)))
]

-- A list of usernames is accepted exactly if each of its lines, trimmed and not empty, is a name that
-- fits and is not reserved.
pub usernames_iff :
    (value : Text) (set : List Text)
    → (usernames value set ≡ none) ↔ All (λ l. IsName l × (contains l set ≡ false)) (entries value)
unfolding usernames
usernames_iff value set = (
  λ h.
      All-map (λ l e. (username_iff l set).0 e) (entries value)
        ((first_bad_iff (entries value) set).0 h),
  λ h.
      (first_bad_iff (entries value) set).1
        (All-map (λ l e. (username_iff l set).1 e) (entries value) h),
)
