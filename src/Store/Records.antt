-- ===== src/Store/Records.antt =====
-- The directories of records (onboard/src/store.rs): a directory is the list of its files with what
-- each holds. A name is the list of its bytes. What the file system answers to a call is an argument; a
-- record that is not placed leaves the file as it was, since the write goes to another name first.
pub mod Laws
pub mod Listing
use kyriakon_infra.Base.Chars.{codes}
use kyriakon_infra.Base.Bytes.{bytes_eq}
use kyriakon_infra.Base.{
  ◌∷◌, List, Option, Bool, ℕ, keep, Result, none, [], if◌then◌else◌, true, not, some, ◌||◌, false,
  ◌&&◌, map, ◌==◌, ltb, ◌/◌, ◌%◌, err, ok,
}
use Prim.Native.Nat.{ℕ}
use mathlib.Core.List.{reverse}

abbrev pub Name : Type 0
Name = List ℕ

abbrev pub Directory : Type 0 → Type 0
Directory A = List (Name × A)

unfoldable pub starts_with : Name → Name → Bool
starts_with [] name = true
starts_with (p ∷ prefix) [] = false
starts_with (p ∷ prefix) (c ∷ name) = p == c && starts_with prefix name

unfoldable pub ends_with : Name → Name → Bool
unfolding starts_with
ends_with suffix name = starts_with (reverse suffix) (reverse name)

-- The order of two names, byte by byte.
unfoldable pub before : Name → Name → Bool
before [] t = true
before (x ∷ s) [] = false
before (x ∷ s) (y ∷ t) = ltb x y || (x == y && before s t)

unfoldable pub insert : Name → List Name → List Name
insert name [] = name ∷ []
insert name (n ∷ names) =
    let later = insert name names in if before name n then name ∷ n ∷ names else n ∷ later

unfoldable pub sort : List Name → List Name
sort [] = []
sort (n ∷ names) = insert n (sort names)

pub data Error : Type 0 where
  not_for_the_handler append_only : Error
  not_placed : Error

module _ {A : Type 0} where
  -- The file of a name, when it is there.
  pub read_record : Name → Directory A → Option A
  read_record name [] = none
  read_record name ((n, a) ∷ files) =
      let later = read_record name files in if bytes_eq n name then some a else later

  -- The names in order, without those of interrupted writes.
  unfoldable pub list : Directory A → List Name
  list files = sort (keep (λ n. not (starts_with (codes ".") n)) (map (λ f. f.0) files))

  unfoldable pub put : Name → A → Directory A → Directory A
  put name a [] = (name, a) ∷ []
  put name a ((n, b) ∷ files) =
      let later = put name a files in if bytes_eq n name then (n, a) ∷ files else (n, b) ∷ later

  -- `mode & 0o040` is the sixth bit.
  unfoldable pub write_record_mode :
      Name → A → ℕ → Bool → Directory A → Result Error Unit × Directory A
  write_record_mode name a mode placed files =
      if (bytes_eq name (codes "account.json") || bytes_eq name (codes "group.json"))
        && mode / 32 % 2 == 0
      then (err not_for_the_handler, files)
      else if ends_with (codes ".jsonl") name
      then (err append_only, files)
      else if placed
      then (ok tt, put name a files)
      else (err not_placed, files)

  unfoldable pub write_record : Name → A → Bool → Directory A → Result Error Unit × Directory A
  write_record name a placed files = write_record_mode name a 384 placed files

  -- A file that is gone already counts as removed.
  unfoldable pub remove : Name → Bool → Directory A → Directory A
  remove name removed files = if removed then keep (λ f. not (bytes_eq f.0 name)) files else files
