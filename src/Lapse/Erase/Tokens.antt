-- ===== src/Lapse/Erase/Tokens.antt =====
-- The tokens that a loop over a listing removes.
use kyriakon_infra.Base.{
  String, List, Bool, [], ◌∷◌, not, any, keep, str_eq, ◌&&◌, false, ◌≡◌, refl, arith, eq_iff,
}
use kyriakon_infra.Lapse.Erase.{Token, joins}

module _ (username : String) where
  abbrev named : String → List Token → Bool
  named name ts = any (λ s. joins username s && str_eq name s.name) ts

  -- Whether a token that joins the member alone is without its name in the rest of the listing.
  abbrev pub missed : List Token → List Token → Bool
  missed ts tokens = any (λ t. joins username t && not (named t.name ts)) tokens

  missed-more :
      (s : Token) (ts tokens : List Token)
      → missed ts tokens ≡ false
      → missed (s ∷ ts) tokens ≡ false
  missed-more s ts [] h = refl
  missed-more s ts (t ∷ tokens) h = ground (arith, h, missed-more s ts tokens)

  pub missed_self : (ts : List Token) → missed ts ts ≡ false
  missed_self [] = refl
  missed_self (s ∷ ts) =
      ground (arith, (eq_iff s.name s.name).1 refl, missed-more s ts ts (missed_self ts))

  pub missed-removed :
      (s : Token) (ts tokens : List Token)
      → missed (s ∷ ts) tokens ≡ false
      → missed ts (keep (λ t. not (str_eq t.name s.name)) tokens) ≡ false
  missed-removed s ts [] h = refl
  missed-removed s ts (t ∷ tokens) h = ground (arith, h, missed-removed s ts tokens)

  pub missed-stays :
      (s : Token) (ts tokens : List Token)
      → joins username s ≡ false
      → missed (s ∷ ts) tokens ≡ false
      → missed ts tokens ≡ false
  missed-stays s ts [] n h = refl
  missed-stays s ts (t ∷ tokens) n h = ground (arith, n, h, missed-stays s ts tokens n)

  pub missed-none :
      (tokens : List Token) → missed [] tokens ≡ false → any (joins username) tokens ≡ false
  missed-none [] h = refl
  missed-none (t ∷ tokens) h = ground (arith, h, missed-none tokens)
