-- ===== src/Base/Pieces.antt =====
-- What `str::split` returns: pieces free of the separator that make the text when joined by it.
use kyriakon_infra.Base.Chars.{split, cons_head}
use kyriakon_infra.Base.{
  ℕ, List, ◌∷◌, any, ◌≡◌, ◌≢◌, ◌==◌, All, false, ◌++◌, Bool-cases, [], refl, inl, inr, ==_iff,
  arith,
}
use Prim.Native.Nat.{ℕ}

abbrev pub join : ℕ → List (List ℕ) → List ℕ
join sep [] = []
join sep (p ∷ []) = p
join sep (p ∷ q ∷ ps) = p ++ sep ∷ join sep (q ∷ ps)

abbrev pub IsFree : ℕ → List ℕ → Type 0
IsFree sep s = any (λ c. c == sep) s ≡ false

pub split_nonempty : (sep : ℕ) (s : List ℕ) → split sep s ≢ []
unfolding split
split_nonempty sep [] h = cc
split_nonempty sep (c ∷ s) h = elim (Bool-cases (c == sep)) [
  | inl e ↦ absurd (ground (arith, e))
  | inr e ↦ go (split sep s) (rw (e, split) at h)
]
  where
    go : (ps : List (List ℕ)) → cons_head c ps ≡ [] → ⊥
    go [] p = cc
    go (q ∷ ps) p = cc

join-cons_head :
    (sep c : ℕ) (ps : List (List ℕ)) → ps ≢ [] → join sep (cons_head c ps) ≡ c ∷ join sep ps
join-cons_head sep c [] h = absurd (h refl)
join-cons_head sep c (p ∷ []) h = refl
join-cons_head sep c (p ∷ q ∷ ps) h = refl

join-nil : (sep : ℕ) (ps : List (List ℕ)) → ps ≢ [] → join sep ([] ∷ ps) ≡ sep ∷ join sep ps
join-nil sep [] h = absurd (h refl)
join-nil sep (p ∷ ps) h = refl

pub join-split : (sep : ℕ) (s : List ℕ) → join sep (split sep s) ≡ s
unfolding split
join-split sep [] = refl
join-split sep (c ∷ s) = elim (Bool-cases (c == sep)) [
  | inl e ↦ rw e (
      rw (join-nil sep (split sep s) (split_nonempty sep s), join-split sep s, (==_iff c sep).0 e)
        refl)
  | inr e ↦
      rw e (rw (join-cons_head sep c (split sep s) (split_nonempty sep s), join-split sep s) refl)
]

cons_head-IsFree :
    (sep c : ℕ) (ps : List (List ℕ))
    → (c == sep) ≡ false
    → All (IsFree sep) ps
    → All (IsFree sep) (cons_head c ps)
cons_head-IsFree sep c [] h hs = (rw h refl, tt)
cons_head-IsFree sep c (p ∷ ps) h hs = (rw h (hs.0), hs.1)

pub split-IsFree : (sep : ℕ) (s : List ℕ) → All (IsFree sep) (split sep s)
unfolding split
split-IsFree sep [] = (refl, tt)
split-IsFree sep (c ∷ s) = elim (Bool-cases (c == sep)) [
  | inl e ↦ rw e (refl, split-IsFree sep s)
  | inr e ↦ rw e (cons_head-IsFree sep c (split sep s) e (split-IsFree sep s))
]
