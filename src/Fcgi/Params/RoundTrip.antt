-- ===== src/Fcgi/Params/RoundTrip.antt =====
-- The parameters read back what a front-end wrote: `encode` is the FastCGI form of name and value
-- pairs, each length in the width that the front-end chose.
use mathlib.Core.List.{append_assoc}
use kyriakon_infra.Fcgi.Params.Total.{lookup-insert}
use kyriakon_infra.Base.{
  Option, some, none, Bool, true, if◌then◌else◌, ◌∙◌, ap, ℕ, zero, suc, ◌+◌, ◌/◌, ◌%◌, ◌≤◌, ◌<◌,
  ◌≡◌, refl, List, [], ◌∷◌, ◌++◌, arith, ltb, length, take, drop, length-append, take-append_length,
  drop-append_length, All, ok, err, false,
}
use kyriakon_infra.Base.Bytes.{lossy, bytes_eq}
use kyriakon_infra.Fcgi.Wire.{top_bit, low_bits}
use kyriakon_infra.Fcgi.Params.{
  Env, insert, lookup, four_bytes, read_length, read_pair, params_loop, params,
}

-- The two ways to write a length: httpd takes the short one where it fits, gmid always the long.
pub data Width : Type 0 where
  short long : Width

abbrev pub Fits : Width → ℕ → Type 0
Fits short n = n < 128
Fits long n = n < 2147483648

abbrev pub encode_length : Width → ℕ → List ℕ
encode_length short n = n ∷ []
encode_length long n = (n / 16777216 + 128) ∷ n / 65536 % 256 ∷ n / 256 % 256 ∷ n % 256 ∷ []

pub record Pair : Type 0 where
  pub name_width : Width
  pub name : List ℕ
  pub value_width : Width
  pub value : List ℕ

abbrev pub PairFits : Pair → Type 0
PairFits p = Fits p.name_width (length p.name) × Fits p.value_width (length p.value)

abbrev pub encode_pair : Pair → List ℕ → List ℕ
encode_pair p rest =
    encode_length p.name_width (length p.name)
    ++ (encode_length p.value_width (length p.value) ++ (p.name ++ (p.value ++ rest)))

abbrev pub encode : List Pair → List ℕ
encode [] = []
encode (p ∷ ps) = encode_pair p (encode ps)

abbrev or_before : Option (List ℕ) → Option (List ℕ) → Option (List ℕ)
or_before (some v) b = some v
or_before none b = b

or_before-none : (a : Option (List ℕ)) → or_before a none ≡ a
or_before-none (some v) = refl
or_before-none none = refl

or_before-if :
    (test : Bool) (later : Option (List ℕ)) (v : List ℕ) (before : Option (List ℕ))
    → or_before later (if test then some v else before)
      ≡ or_before (or_before later (if test then some v else none)) before
or_before-if test (some u) v before = refl
or_before-if true none v before = refl
or_before-if false none v before = refl

-- The map that holds, for each name, the value sent last.
pub collect : Env → List Pair → Env
collect out [] = out
collect out (p ∷ ps) = collect (insert (lossy p.name) (lossy p.value) out) ps

read_length-encode :
    (w : Width) (n : ℕ) (rest : List ℕ)
    → Fits w n
    → read_length (encode_length w n ++ rest) ≡ ok (n, rest)
unfolding read_length four_bytes
read_length-encode short n rest h = ground (arith, top_bit n)
read_length-encode long n rest h =
    ground (arith, top_bit (n / 16777216 + 128), low_bits (n / 16777216 + 128))

-- The body of a pair behind its lengths.
split_pair :
    (name value rest : List ℕ)
    → (ltb (length (name ++ (value ++ rest))) (length name + length value) ≡ false)
      × (take (length name) (name ++ (value ++ rest)) ≡ name)
      × (drop (length name) (name ++ (value ++ rest)) ≡ value ++ rest)
      × (take (length value) (value ++ rest) ≡ value)
      × (drop (length name + length value) (name ++ (value ++ rest)) ≡ rest)
split_pair name value rest = (
  ground (arith, length-append name (value ++ rest), length-append value rest),
  take-append_length name (value ++ rest) (length name) refl,
  drop-append_length name (value ++ rest) (length name) refl,
  take-append_length value rest (length value) refl,
  rw (← append_assoc name value rest)
      (drop-append_length (name ++ value) rest _ (omega (arith, length-append name value))),
)

read_pair-encode :
    (p : Pair) (rest : List ℕ)
    → PairFits p
    → read_pair (encode_pair p rest) ≡ ok (lossy p.name, lossy p.value, rest)
unfolding read_pair
read_pair-encode p rest h =
    let (fits, name, behind, value, after) = split_pair p.name p.value rest in
    rw (read_length-encode p.name_width (length p.name) _ h.0) (
      rw (read_length-encode p.value_width (length p.value) _ h.1)
        (rw (fits, name, behind, value, after)))

encode_pair-cons :
    (p : Pair) (rest : List ℕ) → (b : ℕ) × (bs : List ℕ) × (encode_pair p rest ≡ b ∷ bs)
encode_pair-cons p rest =
    elim p.name_width
      as (λ w.
        (b : ℕ) × (bs : List ℕ) × (encode_length w (length p.name)
            ++ (encode_length p.value_width (length p.value) ++ (p.name ++ (p.value ++ rest)))
          ≡ b ∷ bs)) [ short ↦ (_, _, refl) | long ↦ (_, _, refl) ]

params_loop_step :
    (fuel : ℕ) (b : ℕ) (bs : List ℕ) (out : Env)
    → params_loop (suc fuel) (b ∷ bs) out ≡ (elim (read_pair (b ∷ bs)) [
      | ok (name, value, rest) ↦ params_loop fuel rest (insert name value out)
      | err e ↦ err e
    ])
unfolding params_loop
params_loop_step fuel b bs out = refl

length-encode_length : (w : Width) (n : ℕ) → 1 ≤ length (encode_length w n)
length-encode_length short n = omega arith
length-encode_length long n = omega arith

length-encode_pair : (p : Pair) (rest : List ℕ) → length rest + 2 ≤ length (encode_pair p rest)
length-encode_pair p rest = omega (
  arith,
  length-encode_length p.name_width (length p.name),
  length-encode_length p.value_width (length p.value),
  length-append (encode_length p.name_width (length p.name))
      (encode_length p.value_width (length p.value) ++ (p.name ++ (p.value ++ rest))),
  length-append (encode_length p.value_width (length p.value)) (p.name ++ (p.value ++ rest)),
  length-append p.name (p.value ++ rest),
  length-append p.value rest,
)

params_loop-encode :
    (ps : List Pair) (fuel : ℕ) (out : Env)
    → All PairFits ps
    → length (encode ps) ≤ fuel
    → params_loop fuel (encode ps) out ≡ ok (collect out ps)
unfolding collect
params_loop-encode [] fuel out h hf = unfold params_loop in refl
params_loop-encode (p ∷ ps) zero out h hf = absurd (omega (arith, length-encode_pair p (encode ps)))
params_loop-encode (p ∷ ps) (suc fuel) out h hf =
    let (b, bs, e) = encode_pair-cons p (encode ps) in
    rw (e, params_loop_step fuel b bs out, ← e, read_pair-encode p (encode ps) h.0)
      (params_loop-encode ps fuel (insert (lossy p.name) (lossy p.value) out) h.1
        (omega (arith, length-encode_pair p (encode ps))))

pub params-collect : (ps : List Pair) → All PairFits ps → params (encode ps) ≡ ok (collect [] ps)
unfolding params
params-collect ps h = params_loop-encode ps _ [] h (omega arith)

-- The value sent last under a name.
abbrev pub last_sent : List ℕ → List Pair → Option (List ℕ)
last_sent name [] = none
last_sent name (p ∷ ps) =
    or_before (last_sent name ps)
      (if bytes_eq (lossy p.name) name then some (lossy p.value) else none)

lookup-collect :
    (name : List ℕ) (ps : List Pair) (out : Env)
    → lookup name (collect out ps) ≡ or_before (last_sent name ps) (lookup name out)
unfolding collect
lookup-collect name [] out = refl
lookup-collect name (p ∷ ps) out =
    lookup-collect name ps (insert (lossy p.name) (lossy p.value) out)
    ∙ (ap (or_before (last_sent name ps)) (lookup-insert name (lossy p.name) (lossy p.value) out)
        ∙ or_before-if (bytes_eq (lossy p.name) name) (last_sent name ps) (lossy p.value)
            (lookup name out))

-- Whatever pairs a front-end writes, each length in one byte where it is below 128 or in four
-- where it is below 2 ^ 31, `params` succeeds, and looked up by a name its result has the value sent last
-- under that name, or none where no pair has the name.
pub params-encode :
    (ps : List Pair)
    → All PairFits ps
    → (env : Env) × ((params (encode ps) ≡ ok env)
        × ((name : List ℕ) → lookup name env ≡ last_sent name ps))
unfolding lookup
params-encode ps h = (
  collect [] ps,
  (params-collect ps h, λ name. lookup-collect name ps [] ∙ or_before-none (last_sent name ps)),
)
