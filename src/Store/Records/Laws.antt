-- ===== src/Store/Records/Laws.antt =====
-- What is read after a write or a removal (onboard/src/store.rs), and that a listing leaves out no file.
use kyriakon_infra.Store.Records.{Name, Directory, read_record, put, remove}
use kyriakon_infra.Base.Bytes.{bytes_eq, bytes_eq_iff}
use kyriakon_infra.Base.{
  ◌∷◌, [], some, none, refl, ◌≡◌, true, false, Bool, Bool-cases, inl, inr, sym, arith,
}
use mathlib.Core.Path.{subst}
use kyriakon_infra.Base.{Bool, ◌≡◌, true, refl, none, false, some, Bool-cases, inr, inl, sym, arith}

bytes_eq_self : (s : Name) → bytes_eq s s ≡ true
bytes_eq_self s = (bytes_eq_iff s s).1 refl

bytes_eq_sym : (s t : Name) → bytes_eq s t ≡ false → bytes_eq t s ≡ false
bytes_eq_sym s t h = elim (Bool-cases (bytes_eq t s)) [
  | inr e ↦ e
  | inl e ↦
      let same : s ≡ t = sym ((bytes_eq_iff t s).0 e) in
      absurd (ground (arith, (bytes_eq_iff s t).1 same))
]

module _ {A : Type 0} where
  pub read_record-put :
      (name : Name) (a : A) (files : Directory A) → read_record name (put name a files) ≡ some a
  unfolding read_record put
  read_record-put name a [] = rw (bytes_eq_self name) refl
  read_record-put name a ((n, b) ∷ files) = elim (Bool-cases (bytes_eq n name)) [
    | inl e ↦ rw e (rw e refl)
    | inr e ↦ rw e (rw e (read_record-put name a files))
  ]

  pub read_record-put_other :
      (name other : Name) (a : A) (files : Directory A)
      → bytes_eq name other ≡ false
      → read_record other (put name a files) ≡ read_record other files
  unfolding read_record put
  read_record-put_other name other a [] h = rw h refl
  read_record-put_other name other a ((n, b) ∷ files) h = elim (Bool-cases (bytes_eq n name)) [
    | inl e ↦
        let apart : bytes_eq n other ≡ false =
          subst (λ m. bytes_eq m other ≡ false) (sym ((bytes_eq_iff n name).0 e)) h in
        rw e (rw apart refl)
    | inr e ↦ rw e (elim (Bool-cases (bytes_eq n other)) [
      | inl f ↦ rw f refl
      | inr f ↦ rw f (read_record-put_other name other a files h)
    ])
  ]

  pub read_record-remove :
      (name : Name) (files : Directory A) → read_record name (remove name true files) ≡ none
  unfolding read_record remove
  read_record-remove name [] = refl
  read_record-remove name ((n, b) ∷ files) = elim (Bool-cases (bytes_eq n name)) [
    | inl e ↦ rw e (read_record-remove name files)
    | inr e ↦ rw e (rw e (read_record-remove name files))
  ]

  pub read_record-remove_other :
      (name other : Name) (removed : Bool) (files : Directory A)
      → bytes_eq name other ≡ false
      → read_record other (remove name removed files) ≡ read_record other files
  unfolding read_record remove
  read_record-remove_other name other false files h = refl
  read_record-remove_other name other true [] h = refl
  read_record-remove_other name other true ((n, b) ∷ files) h =
      elim (Bool-cases (bytes_eq n name)) [
        | inl e ↦
            let apart : bytes_eq n other ≡ false =
              subst (λ m. bytes_eq m other ≡ false) (sym ((bytes_eq_iff n name).0 e)) h in
            rw e (rw apart (read_record-remove_other name other true files h))
        | inr e ↦ rw e (elim (Bool-cases (bytes_eq n other)) [
          | inl f ↦ rw f refl
          | inr f ↦ rw f (read_record-remove_other name other true files h)
        ])
      ]
