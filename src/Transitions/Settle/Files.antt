-- ===== src/Transitions/Settle/Files.antt =====
-- What the steps of `settle` (onboard/src/transitions.rs) do to the intent files: they leave them, or remove
-- the one of the intent.
use kyriakon_infra.Transitions.World.{
  Fault, fine, early, late, ◌>>◌, ◌>>=◌, AfterLine, finish, system_call, World, Action,
  remove_intent,
}
use kyriakon_infra.Base.{
  [], refl, String, List, Option, ◌∷◌, ◌≡◌, str_eq, arith, none, ◌⊎◌, Result-cases, inl, keep, inr,
  not, ◌∙◌, ap, some,
}
use kyriakon_infra.Transitions.Settle.{
  RefusalFile, keep_file, remove_file, finish_more, dispose, report,
}

abbrev pub without : String → List String → List String
without file intents = keep (λ f. not (str_eq f file)) intents

module _ {Time : Type 0} where
  pub finish_intents : (a : AfterLine) (w : World Time) → (finish a w).1.intents ≡ w.intents
  unfolding finish system_call
  finish_intents a w = ground arith

  pub finish_more_intents :
      (m : Option AfterLine) (w : World Time) → (finish_more m w).1.intents ≡ w.intents
  unfolding finish_more
  finish_more_intents none w = refl
  finish_more_intents (some a) w = finish_intents a w

  -- An action that leaves the intent files as they are, or removes this one.
  abbrev pub Trims : {A : Type 0} → String → Action (World Time) A → Type 0
  Trims file k =
      (w : World Time) → ((k w).1.intents ≡ w.intents) ⊎ ((k w).1.intents ≡ without file w.intents)

  pub remove_intent-Trims : (file : String) → Trims file (remove_intent file)
  unfolding remove_intent system_call
  remove_intent-Trims file w = go w.faults
    where
      go :
          (fs : List Fault)
          → ((remove_intent file (record w { faults = fs })).1.intents ≡ w.intents)
            ⊎ ((remove_intent file (record w { faults = fs })).1.intents ≡ without file w.intents)
      go [] = inr refl
      go (fine ∷ fs) = inr refl
      go (early ∷ fs) = inl refl
      go (late ∷ fs) = inr refl

  pub kept_then-Trims :
      {A : Type 0} (file : String) (m : Action (World Time) Unit) (k : Action (World Time) A)
      → ((w : World Time) → (m w).1.intents ≡ w.intents)
      → Trims file k
      → Trims file (m >> k)
  kept_then-Trims file m k same h w = elim (Result-cases (m w).0) [
    | inr (e, r) ↦ inl (rw (r, ◌>>=◌) (same w))
    | inl (a, r) ↦ elim (h (m w).1) [
      | inl x ↦ inl (rw (r, ◌>>=◌) (x ∙ same w))
      | inr x ↦ inr (rw (r, ◌>>=◌) (x ∙ ap (without file) (same w)))
    ]
  ]

  pub report_intents :
      (failure : Option String) (w : World Time) → (report failure w).1.intents ≡ w.intents
  unfolding report
  report_intents none w = refl
  report_intents (some e) w = refl

  pub refusal-Trims :
      (refusal : RefusalFile) (file : String) (failure : Option String)
      → Trims file (dispose refusal file >> report failure)
  unfolding dispose
  refusal-Trims keep_file file failure w = inl (report_intents failure w)
  refusal-Trims remove_file file failure w = elim (Result-cases (remove_intent file w).0) [
    | inr (e, r) ↦ rw (r, ◌>>=◌) (remove_intent-Trims file w)
    | inl (a, r) ↦ elim (remove_intent-Trims file w) [
      | inl x ↦ inl (rw (r, ◌>>=◌) (report_intents failure (remove_intent file w).1 ∙ x))
      | inr x ↦ inr (rw (r, ◌>>=◌) (report_intents failure (remove_intent file w).1 ∙ x))
    ]
  ]

  pub dispose-Trims : (refusal : RefusalFile) (file : String) → Trims file (dispose refusal file)
  unfolding dispose
  dispose-Trims keep_file file w = inl refl
  dispose-Trims remove_file file w = remove_intent-Trims file w
