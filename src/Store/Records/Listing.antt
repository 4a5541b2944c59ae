-- ===== src/Store/Records/Listing.antt =====
-- A listing is in order and leaves out no visible file (`Store::list` of onboard/src/store.rs).
use kyriakon_infra.Store.Records.{
  Name, Directory, read_record, list, insert, sort, starts_with, before,
}
use kyriakon_infra.Base.{
  ◌∷◌, [], some, refl, ◌≡◌, true, false, Bool, Bool-cases, inl, inr, sym, arith, List, map, keep,
  not, any, ◌||◌,
}
use kyriakon_infra.Base.Bytes.{bytes_eq, bytes_eq_iff}
use kyriakon_infra.Base.Chars.{codes}
use mathlib.Core.Path.{subst}

abbrev pub contains : Name → List Name → Bool
contains name names = any (λ n. bytes_eq n name) names

-- Each name stands before the next one.
abbrev pub IsSorted : List Name → Type 0
IsSorted [] = Unit
IsSorted (n ∷ []) = Unit
IsSorted (n ∷ m ∷ names) = (before n m ≡ true) × IsSorted (m ∷ names)

before_total : (s t : Name) → before s t ≡ false → before t s ≡ true
unfolding before
before_total [] t h = absurd (ground (arith, h))
before_total (x ∷ s) [] h = refl
before_total (x ∷ s) (y ∷ t) h = ground (arith, before_total s t)

contains-insert :
    (name n : Name) (names : List Name)
    → contains name (insert n names) ≡ bytes_eq n name || contains name names
unfolding insert
contains-insert name n [] = refl
contains-insert name n (m ∷ names) = elim (Bool-cases (before n m)) [
  | inl e ↦ rw e refl
  | inr e ↦ rw e (rw (contains-insert name n names) (ground arith))
]

contains-sort : (name : Name) (names : List Name) → contains name (sort names) ≡ contains name names
unfolding sort
contains-sort name [] = refl
contains-sort name (n ∷ names) =
    rw (contains-insert name n (sort names)) (rw (contains-sort name names) refl)

insert-IsSorted : (n : Name) (names : List Name) → IsSorted names → IsSorted (insert n names)
unfolding insert
insert-IsSorted n [] h = tt
insert-IsSorted n (m ∷ []) h = elim (Bool-cases (before n m)) [
  | inl e ↦ rw e (e, tt)
  | inr e ↦ rw e (before_total n m e, tt)
]
insert-IsSorted n (m ∷ k ∷ names) h =
    let rest = insert-IsSorted n (k ∷ names) h.1 in
    elim (Bool-cases (before n m)) [
      | inl e ↦ rw e (e, h)
      | inr e ↦ rw e (elim (Bool-cases (before n k)) [
        | inl f ↦ rw f (before_total n m e, rw f at rest)
        | inr f ↦ rw f (h.0, rw f at rest)
      ])
    ]

sort-IsSorted : (names : List Name) → IsSorted (sort names)
unfolding sort
sort-IsSorted [] = tt
sort-IsSorted (n ∷ names) = insert-IsSorted n (sort names) (sort-IsSorted names)

contains-keep :
    (name : Name) (p : Name → Bool) (names : List Name)
    → p name ≡ true
    → contains name (keep p names) ≡ contains name names
contains-keep name p [] h = refl
contains-keep name p (n ∷ names) h = elim (Bool-cases (bytes_eq n name)) [
  | inl e ↦
      let here : p n ≡ true = subst (λ m. p m ≡ true) (sym ((bytes_eq_iff n name).0 e)) h in
      rw here (rw e refl)
  | inr e ↦ elim (Bool-cases (p n)) [
    | inl f ↦ rw f (rw (contains-keep name p names h) refl)
    | inr f ↦ rw f (rw e (contains-keep name p names h))
  ]
]

module _ {A : Type 0} where
  contains-names :
      (name : Name) (a : A) (files : Directory A)
      → read_record name files ≡ some a
      → contains name (map (λ f. f.0) files) ≡ true
  unfolding read_record
  contains-names name a [] h = absurd cc
  contains-names name a ((n, b) ∷ files) h = elim (Bool-cases (bytes_eq n name)) [
    | inl e ↦ rw e refl
    | inr e ↦ rw e (contains-names name a files (rw e at h))
  ]

  -- A listing is in order, and a file whose name does not begin with a dot stands in it.
  pub list-IsSorted : (files : Directory A) → IsSorted (list files)
  unfolding list
  list-IsSorted files = sort-IsSorted _

  pub contains-list :
      (name : Name) (a : A) (files : Directory A)
      → starts_with (codes ".") name ≡ false
      → read_record name files ≡ some a
      → contains name (list files) ≡ true
  unfolding list
  contains-list name a files visible h =
      rw (contains-sort name (keep (λ n. not (starts_with (codes ".") n)) (map (λ f. f.0) files))) (
        rw
          (contains-keep name (λ n. not (starts_with (codes ".") n)) (map (λ f. f.0) files)
            (rw visible refl))
          (contains-names name a files h))
