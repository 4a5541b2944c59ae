-- ===== src/Fcgi/Params/Total.antt =====
-- The loop over the parameters ends, and the map answers with what was put in it.
use kyriakon_infra.Base.{
  ℕ, zero, suc, ◌≡◌, ◌≢◌, List, [], ◌∷◌, arith, refl, ok, err, length, ◌≤◌, Result-cases, ◌<◌, inr,
  inl, length-drop, ◌∙◌, if◌then◌else◌, ◌+◌, some, ap, Result,
}
use kyriakon_infra.Base.Bytes.{bytes_eq, bytes_eq_iff}
use kyriakon_infra.Fcgi.Params.{
  unfinished, Env, four_bytes, read_length, read_pair, params_loop, params, lookup, insert, Error,
}

read_length_takes :
    (buf rest : List ℕ) (n : ℕ) → read_length buf ≡ ok (n, rest) → length rest < length buf
unfolding read_length four_bytes
read_length_takes [] rest n h = cc
read_length_takes (a ∷ []) rest n h = ground arith
read_length_takes (a ∷ b ∷ []) rest n h = ground arith
read_length_takes (a ∷ b ∷ c ∷ []) rest n h = ground arith
read_length_takes (a ∷ b ∷ c ∷ d ∷ more) rest n h = ground arith

read_length-ne-unfinished : (buf : List ℕ) → read_length buf ≢ err unfinished
unfolding read_length four_bytes
read_length-ne-unfinished [] h = cc
read_length-ne-unfinished (a ∷ []) h = ground arith
read_length-ne-unfinished (a ∷ b ∷ []) h = ground arith
read_length-ne-unfinished (a ∷ b ∷ c ∷ []) h = ground arith
read_length-ne-unfinished (a ∷ b ∷ c ∷ d ∷ more) h = ground arith

read_pair_takes :
    (buf name value rest : List ℕ)
    → read_pair buf ≡ ok (name, value, rest)
    → length rest < length buf
unfolding read_pair
read_pair_takes buf name value rest h = elim (Result-cases (read_length buf)) [
  | inr (e, p) ↦ ground arith
  | inl ((n, buf1), p) ↦ elim (Result-cases (read_length buf1)) [
    | inr (e, q) ↦ ground arith
    | inl ((m, buf2), q) ↦ ground (
      arith,
      read_length_takes buf buf1 n p,
      read_length_takes buf1 buf2 m q,
      length-drop (n + m) buf2,
    )
  ]
]

read_pair-ne-unfinished : (buf : List ℕ) → read_pair buf ≢ err unfinished
unfolding read_pair
read_pair-ne-unfinished buf h = elim (Result-cases (read_length buf)) [
  | inr (e, p) ↦ ground (arith, read_length-ne-unfinished buf)
  | inl ((n, buf1), p) ↦ ground (arith, read_length-ne-unfinished buf1)
]

params_loop-ne-unfinished :
    (fuel : ℕ) (buf : List ℕ) (out : Env)
    → length buf ≤ fuel
    → params_loop fuel buf out ≢ err unfinished
unfolding params_loop
params_loop-ne-unfinished fuel [] out hf h = cc
params_loop-ne-unfinished zero (b ∷ bs) out hf h = absurd (omega arith)
params_loop-ne-unfinished (suc fuel) (b ∷ bs) out hf h = elim (Result-cases (read_pair (b ∷ bs))) [
  | inr (e, p) ↦
      let same : ◌≡◌ {A = Result Error Env} (err e) (err unfinished) = rw (p, params_loop) at h in
      let reason : e ≡ unfinished = ground arith in
      read_pair-ne-unfinished (b ∷ bs) (p ∙ ap (λ x. err x) reason)
  | inl ((name, value, rest), p) ↦
      params_loop-ne-unfinished fuel rest (insert name value out)
        (omega (arith, read_pair_takes (b ∷ bs) name value rest p)) (rw (p, params_loop) at h)
]

-- On every buffer the loop ends within its fuel.
pub params-ne-unfinished : (buf : List ℕ) → params buf ≢ err unfinished
unfolding params
params-ne-unfinished buf = params_loop-ne-unfinished (length buf) buf [] (omega arith)

-- The map answers with the value inserted last under a name, and as before under any other.
pub lookup-insert :
    (j k value : List ℕ) (env : Env)
    → lookup j (insert k value env) ≡ (if bytes_eq k j then some value else lookup j env)
unfolding lookup insert
lookup-insert j k value [] = refl
lookup-insert j k value ((i, v) ∷ env) =
    ground
      (arith, bytes_eq_iff k j, bytes_eq_iff i k, bytes_eq_iff i j, lookup-insert j k value env)
