-- ===== src/Session/Pruning.antt =====
-- The pass over the old sessions takes no live session away and leaves no expired one
-- (`prune` of onboard/src/session.rs).
use kyriakon_infra.Store.Records.{Name, Directory, read_record, remove, list, ends_with}
use kyriakon_infra.Session.{
  unreadable, damaged, whole, prune, admit, lookup, Text, json, admit_file,
}
use kyriakon_infra.Base.Bytes.{bytes_eq, bytes_eq_iff}
use kyriakon_infra.Session.{prune_each, Stamps, prune_one, is_expired, File, Record, whole}
use kyriakon_infra.Base.{
  ℕ, Bool, List, ◌≡◌, Bool-cases, inl, some, ◌⊎◌, ◌∷◌, none, inr, true, Option-cases, [], refl, ◌∙◌,
  sym, ◌≤◌, leb, arith, ap,
}
use kyriakon_infra.Base.Chars.{codes, split_once}
use kyriakon_infra.Store.Records.Laws.{read_record-remove_other, read_record-remove}
use mathlib.Core.Path.{subst}
use kyriakon_infra.Sign.{Hmac, verify_bytes}
use kyriakon_infra.Store.Tokens.{is_status_token}

-- What a pass may do to a file: nothing, or to remove it where it holds no live session.
abbrev IsPruned : Stamps → ℕ → Name → Directory (File Record) → Directory (File Record) → Type 0
IsPruned stamps now name earlier later =
    (read_record name later ≡ read_record name earlier)
    ⊎ ((read_record name later ≡ none)
        × ((file : File Record) × (read_record name earlier ≡ some file)
            × (is_expired stamps now file ≡ true)))

remove-IsPruned :
    (stamps : Stamps) (now : ℕ) (name here : Name) (removed : Bool)
    (files : Directory (File Record)) (file : File Record)
    → read_record here files ≡ some file
    → is_expired stamps now file ≡ true
    → IsPruned stamps now name files (remove here removed files)
unfolding remove
remove-IsPruned stamps now name here removed files file stored old =
    elim (Bool-cases (bytes_eq here name)) [
      | inr e ↦ inl (read_record-remove_other here name removed files e)
      | inl e ↦
          let one : here ≡ name = (bytes_eq_iff here name).0 e in
          elim (Bool-cases removed) [
            | inr f ↦ inl (
                subst (λ r. read_record name (remove here r files) ≡ read_record name files) (sym f)
                  refl)
            | inl f ↦ inr (
              subst (λ r. read_record name (remove here r files) ≡ none) (sym f)
                  (subst (λ n. read_record n (remove here true files) ≡ none) one
                    (read_record-remove here files)),
              (file, subst (λ n. read_record n files ≡ some file) one stored, old),
            )
          ]
    ]

prune_one-IsPruned :
    (stamps : Stamps) (now : ℕ) (removed : Name → Bool) (name here : Name)
    (files : Directory (File Record))
    → IsPruned stamps now name files (prune_one stamps now removed here files)
unfolding prune_one is_expired
prune_one-IsPruned stamps now removed name here files =
    elim (Bool-cases (ends_with (codes ".json") here)) [
      | inr e ↦ rw e (inl refl)
      | inl e ↦ elim (Option-cases (read_record here files)) [
        | inl f ↦ rw e (rw (f, prune_one) (inl refl))
        | inr (unreadable, f) ↦ rw e (rw (f, prune_one) (inl refl))
        | inr (damaged, f) ↦ rw e (
            rw (f, prune_one)
              (remove-IsPruned stamps now name here (removed here) files damaged f refl))
        | inr (whole r, f) ↦ elim (Bool-cases (is_expired stamps now (whole r))) [
          | inl g ↦ rw e (
              rw (f, prune_one)
                (rw g (remove-IsPruned stamps now name here (removed here) files (whole r) f g)))
          | inr g ↦ rw e (rw (f, prune_one) (rw g (inl refl)))
        ]
      ]
    ]

IsPruned-trans :
    (stamps : Stamps) (now : ℕ) (name : Name) (a b c : Directory (File Record))
    → IsPruned stamps now name a b
    → IsPruned stamps now name b c
    → IsPruned stamps now name a c
IsPruned-trans stamps now name a b c (inl d) (inl e) = inl (e ∙ d)
IsPruned-trans stamps now name a b c (inr (gone, old)) (inl e) = inr (e ∙ gone, old)
IsPruned-trans stamps now name a b c (inl d) (inr (gone, (file, stored, old))) =
    inr (gone, (file, sym d ∙ stored, old))
IsPruned-trans stamps now name a b c (inr (before_gone, old)) (inr (gone, later)) = inr (gone, old)

prune_each-IsPruned :
    (stamps : Stamps) (now : ℕ) (removed : Name → Bool) (name : Name) (names : List Name)
    (files : Directory (File Record))
    → IsPruned stamps now name files (prune_each stamps now removed names files)
unfolding prune_each
prune_each-IsPruned stamps now removed name [] files = inl refl
prune_each-IsPruned stamps now removed name (n ∷ names) files =
    IsPruned-trans stamps now name files (prune_one stamps now removed n files)
      (prune_each stamps now removed names (prune_one stamps now removed n files))
      (prune_one-IsPruned stamps now removed name n files)
      (prune_each-IsPruned stamps now removed name names (prune_one stamps now removed n files))

prune-IsPruned :
    (stamps : Stamps) (now : ℕ) (removed : Name → Bool) (name : Name)
    (files : Directory (File Record))
    → IsPruned stamps now name files (prune stamps now removed files)
unfolding prune
prune-IsPruned stamps now removed name files =
    prune_each-IsPruned stamps now removed name (list files) files

expired_not_admitted :
    (stamps : Stamps) (hmac : Hmac) (id sig : Text) (now at : ℕ) (r : Record)
    → now ≤ at
    → is_expired stamps now (whole r) ≡ true
    → admit stamps hmac id sig at r ≡ none
unfolding admit is_expired
expired_not_admitted stamps hmac id sig now at r later old =
    elim (Bool-cases (verify_bytes hmac r.secret id sig)) [
      | inr e ↦ rw e refl
      | inl e ↦ elim (Option-cases (stamps.parse r.expires_at)) [
        | inl f ↦ rw e (rw (f, admit) refl)
        | inr (expires, f) ↦
            let passed : leb expires at ≡ true = ground (arith, f) in
            rw e (rw (f, admit) (rw passed refl))
      ]
    ]

old_not_admitted :
    (stamps : Stamps) (hmac : Hmac) (id sig : Text) (now at : ℕ) (file : File Record)
    → now ≤ at
    → is_expired stamps now file ≡ true
    → admit_file stamps hmac id sig at (some file) ≡ none
unfolding admit_file
old_not_admitted stamps hmac id sig now at unreadable later old = refl
old_not_admitted stamps hmac id sig now at damaged later old = refl
old_not_admitted stamps hmac id sig now at (whole r) later old =
    expired_not_admitted stamps hmac id sig now at r later old

admit_file-IsPruned :
    (stamps : Stamps) (hmac : Hmac) (id sig : Text) (now at : ℕ) (name : Name)
    (earlier after : Directory (File Record))
    → now ≤ at
    → IsPruned stamps now name earlier after
    → admit_file stamps hmac id sig at (read_record name after)
      ≡ admit_file stamps hmac id sig at (read_record name earlier)
unfolding admit_file
admit_file-IsPruned stamps hmac id sig now at name earlier after later (inl same) =
    ap (admit_file stamps hmac id sig at) same
admit_file-IsPruned stamps hmac id sig now at name earlier after later
      (inr (gone, (file, stored, old))) =
    ap (admit_file stamps hmac id sig at) gone
    ∙ sym (
        ap (admit_file stamps hmac id sig at) stored
        ∙ old_not_admitted stamps hmac id sig now at file later old)

-- Every cookie is admitted after the pass as it was before, at the time of the pass and at any later one,
-- whichever of the files could be removed.
pub lookup-prune :
    (stamps : Stamps) (hmac : Hmac) (removed : Name → Bool) (files : Directory (File Record))
    (cookie : Text) (now at : ℕ)
    → now ≤ at
    → lookup stamps hmac (prune stamps now removed files) cookie at
      ≡ lookup stamps hmac files cookie at
unfolding lookup
lookup-prune stamps hmac removed files cookie now at later =
    elim (Option-cases (split_once b'.' cookie)) [
      | inl e ↦ rw (e, lookup) refl
      | inr ((token, sig), e) ↦ elim (Bool-cases (is_status_token token)) [
        | inr f ↦ rw (e, lookup) (rw f refl)
        | inl f ↦
            rw (e, lookup)
              (rw f (
                admit_file-IsPruned stamps hmac token sig now at (json token) files
                  (prune stamps now removed files) later
                  (prune-IsPruned stamps now removed (json token) files)))
      ]
    ]
