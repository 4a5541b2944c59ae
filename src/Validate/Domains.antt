-- ===== src/Validate/Domains.antt =====
-- What a domain that the rules accept looks like.
use kyriakon_infra.Base.{◌==◌, ◌||◌}
use kyriakon_infra.Validate.{
  Text, label_reason, domain, labels_reason, is_label_symbol, starts_hyphen, ends_hyphen,
}
use kyriakon_infra.Base.{
  List, all, ◌<◌, ℕ, ◌≡◌, All, Bool, length, none, true, arith, ◌∷◌, ◌++◌, ◌≤◌, ◌↔◌, [],
  Option-cases, refl, inl, false, inr,
}
use kyriakon_infra.Base.Pieces.{join, IsFree, join-split, split-IsFree}
use kyriakon_infra.Base.Chars.{utf8_len, split}
use mathlib.Core.Path.{subst}

-- A label that fits: 1 to 63 bytes, lowercase letters, digits and hyphens, no hyphen at either end.
pub record IsLabel (label : Text) : Type 0 where
  pub nonempty : 0 < length label
  pub short : utf8_len label ≤ 63
  pub symbols : all is_label_symbol label ≡ true
  pub start : starts_hyphen label ≡ false
  pub end' : ends_hyphen label ≡ false

label_reason-IsLabel : (label : Text) → label_reason label ≡ none → IsLabel label
unfolding label_reason
label_reason-IsLabel [] h = absurd (ground arith)
label_reason-IsLabel (c ∷ s) h = record {
  nonempty = omega arith;
  short = ground arith;
  symbols = ground arith;
  start = ground arith;
  end' = ground arith;
}

IsLabel-label_reason : (label : Text) → IsLabel label → label_reason label ≡ none
unfolding label_reason
IsLabel-label_reason [] h = absurd (omega (arith, h.nonempty))
IsLabel-label_reason (c ∷ s) h = ground (arith, h.short, h.symbols, h.start, h.end')

labels_reason_iff : (labels : List Text) → (labels_reason labels ≡ none) ↔ All IsLabel labels
unfolding labels_reason
labels_reason_iff [] = (λ h. tt, λ h. refl)
labels_reason_iff (l ∷ ls) = elim (Option-cases (label_reason l)) [
  | inl e ↦ (
    λ h. (label_reason-IsLabel l e, (labels_reason_iff ls).0 (rw (e, labels_reason) at h)),
    λ h. rw (e, labels_reason) ((labels_reason_iff ls).1 h.1),
  )
  | inr (why, e) ↦
      (λ h. absurd (ground (arith, e)), λ h. absurd (ground (arith, e, IsLabel-label_reason l h.0)))
]

-- The domain rule accepts exactly the texts that are two labels that fit or more, joined by dots.
pub domain_iff :
    (value : Text)
    → (domain value ≡ none) ↔ (All IsLabel (split b'.' value) × (2 ≤ length (split b'.' value)))
unfolding domain
domain_iff value = elim (Option-cases (labels_reason (split b'.' value))) [
  | inl e ↦ (
    λ h. ((labels_reason_iff (split b'.' value)).0 e, ground (arith, e)),
    λ h. rw (e, domain) (ground (arith, h.1)),
  )
  | inr (why, e) ↦ (
    λ h. absurd (ground (arith, e)),
    λ h. absurd (ground (arith, e, (labels_reason_iff (split b'.' value)).1 h.0)),
  )
]

abbrev pub is_domain_symbol : ℕ → Bool
is_domain_symbol c = is_label_symbol c || c == b'.'

label-symbols :
    (label : Text) → all is_label_symbol label ≡ true → all is_domain_symbol label ≡ true
label-symbols [] h = refl
label-symbols (c ∷ s) h = ground (arith, label-symbols s)

all-append :
    (p : ℕ → Bool) (xs ys : Text) → all p xs ≡ true → all p ys ≡ true → all p (xs ++ ys) ≡ true
all-append p [] ys hx hy = hy
all-append p (x ∷ xs) ys hx hy = ground (arith, all-append p xs ys)

join-symbols :
    (labels : List Text) → All IsLabel labels → all is_domain_symbol (join b'.' labels) ≡ true
join-symbols [] h = refl
join-symbols (l ∷ []) h = label-symbols l h.0.symbols
join-symbols (l ∷ m ∷ ls) h =
    all-append is_domain_symbol l (b'.' ∷ join b'.' (m ∷ ls)) (label-symbols l h.0.symbols)
      (join-symbols (m ∷ ls) h.1)

-- A domain that is accepted is made of lowercase letters, digits, hyphens and dots alone, and between
-- two dots, before the first and behind the last there is a symbol that is not one: no slash and no
-- parent folder can come out of it as a path.
pub domain_path_safe :
    (value : Text)
    → domain value ≡ none
    → (all is_domain_symbol value ≡ true)
      × All (λ l. (0 < length l) × IsFree b'.' l) (split b'.' value)
      × (join b'.' (split b'.' value) ≡ value)
domain_path_safe value h =
    let labels = ((domain_iff value).0 h).0 in
    (
      subst (λ v. all is_domain_symbol v ≡ true) (join-split b'.' value)
          (join-symbols (split b'.' value) labels),
      both (split b'.' value) labels (split-IsFree b'.' value),
      join-split b'.' value,
    )
  where
    both :
        (ls : List Text)
        → All IsLabel ls
        → All (IsFree b'.') ls
        → All (λ l. (0 < length l) × IsFree b'.' l) ls
    both [] hs fs = tt
    both (l ∷ ls) hs fs = ((hs.0.nonempty, fs.0), both ls hs.1 fs.1)
