-- ===== src/Payments/Queue/Items.antt =====
-- How an item of the queue changes.
use kyriakon_infra.Base.{
  String, List, Option, Result, ℕ, zero, suc, some, none, ok, [], ◌∷◌, ◌++◌, ◌≡◌, refl, true, false,
  inl, inr, arith, ap, sym, str_eq, ◌∙◌, Result-cases, Bool-cases, eq_iff,
}
use mathlib.Core.Path.{subst}
use kyriakon_infra.Payments.Apply.{HeldItem}
use kyriakon_infra.Payments.Queue.{rewrite_at, return_item, mark_item}

-- An item is left alone, or a held one is attributed or returned; its other fields stay.
pub data Evolves : HeldItem → HeldItem → Type 0 where
  unchanged : (i : HeldItem) → Evolves i i
  attributed :
      (i : HeldItem) (at token : String)
      → i.state ≡ "held"
      → Evolves i
          (record i { state = "attributed"; attributed_at = some at; attributed_to = some token })
  returned :
      (i : HeldItem) (at note : String)
      → i.state ≡ "held"
      → Evolves i (record i { state = "returned"; returned_at = some at; note = some note })

pub item_at : ℕ → List HeldItem → Option HeldItem
item_at n [] = none
item_at zero (i ∷ is) = some i
item_at (suc n) (i ∷ is) = item_at n is

-- Every item stands where it stood.
pub record IsEvolved (items later : List HeldItem) : Type 0 where
  pub at :
      (n : ℕ) (i : HeldItem)
      → item_at n items ≡ some i
      → (j : HeldItem) × ((item_at n later ≡ some j) × Evolves i j)

attributed_ne : (s : String) → s ≡ "attributed" → s ≡ "held" → ⊥
attributed_ne s e h = absurd (heads_differ (ap (λ t. str_eq t "held") (sym e ∙ h)))
  where
    heads_differ : false ≡ true → ⊥
    heads_differ e = ground (arith, e)

returned_ne : (s : String) → s ≡ "returned" → s ≡ "held" → ⊥
returned_ne s e h = absurd (heads_differ (ap (λ t. str_eq t "held") (sym e ∙ h)))
  where
    heads_differ : false ≡ true → ⊥
    heads_differ e = ground (arith, e)

pub Evolves-trans : (i j k : HeldItem) → Evolves i j → Evolves j k → Evolves i k
Evolves-trans _ _ k (unchanged i) g = g
Evolves-trans _ _ _ (attributed i at token h) (unchanged _) = attributed i at token h
Evolves-trans _ _ _ (attributed i at token h) (attributed _ at' token' g) =
    absurd (attributed_ne "attributed" refl g)
Evolves-trans _ _ _ (attributed i at token h) (returned _ at' note g) =
    absurd (attributed_ne "attributed" refl g)
Evolves-trans _ _ _ (returned i at note h) (unchanged _) = returned i at note h
Evolves-trans _ _ _ (returned i at note h) (attributed _ at' token' g) =
    absurd (returned_ne "returned" refl g)
Evolves-trans _ _ _ (returned i at note h) (returned _ at' note' g) =
    absurd (returned_ne "returned" refl g)

pub IsEvolved-same : (items later : List HeldItem) → later ≡ items → IsEvolved items later
IsEvolved-same items later e = record { at = λ n i h. (i, (ap (item_at n) e ∙ h, unchanged i)) }

pub IsEvolved-trans :
    (items middle later : List HeldItem)
    → IsEvolved items middle
    → IsEvolved middle later
    → IsEvolved items later
IsEvolved-trans items middle later f g = record {
  at = λ n i h.
      let (j, (e, p)) = f.at n i h in
      let (k, (e', q)) = g.at n j e in (k, (e', Evolves-trans i j k p q));
}

pub IsEvolved-snoc :
    (items : List HeldItem) (item : HeldItem) → IsEvolved items (items ++ item ∷ [])
unfolding item_at
IsEvolved-snoc items item = record { at = λ n i h. (i, (in_front n items i h, unchanged i)) }
  where
    in_front :
        (n : ℕ) (items : List HeldItem) (i : HeldItem)
        → item_at n items ≡ some i
        → item_at n (items ++ item ∷ []) ≡ some i
    in_front n [] i h = absurd cc
    in_front zero (x ∷ items) i h = h
    in_front (suc n) (x ∷ items) i h = in_front n items i h

some-inj : (x i : HeldItem) → some x ≡ some i → x ≡ i
some-inj x i h = cc

ok-inj : (x i : HeldItem) (r : Result String HeldItem) → r ≡ ok x → r ≡ ok i → x ≡ i
ok-inj x i r g h = cc

IsEvolved-head :
    (x y : HeldItem) (items : List HeldItem) → Evolves x y → IsEvolved (x ∷ items) (y ∷ items)
unfolding item_at
IsEvolved-head x y items p = record { at = there }
  where
    there :
        (n : ℕ) (i : HeldItem)
        → item_at n (x ∷ items) ≡ some i
        → (j : HeldItem) × ((item_at n (y ∷ items) ≡ some j) × Evolves i j)
    there zero i h = (y, (refl, subst (λ k. Evolves k y) (some-inj x i h) p))
    there (suc n) i h = (i, (h, unchanged i))

IsEvolved-tail :
    (x : HeldItem) (items later : List HeldItem)
    → IsEvolved items later
    → IsEvolved (x ∷ items) (x ∷ later)
unfolding item_at
IsEvolved-tail x items later f = record { at = there }
  where
    there :
        (n : ℕ) (i : HeldItem)
        → item_at n (x ∷ items) ≡ some i
        → (j : HeldItem) × ((item_at n (x ∷ later) ≡ some j) × Evolves i j)
    there zero i h = (i, (h, unchanged i))
    there (suc n) i h = f.at n i h

-- A rewrite by a change of one item.
pub rewrite_at-IsEvolved :
    (id : String) (change : HeldItem → Result String HeldItem) (items later : List HeldItem)
    → ((i j : HeldItem) → change i ≡ ok j → Evolves i j)
    → rewrite_at id change items ≡ ok later
    → IsEvolved items later
unfolding rewrite_at
rewrite_at-IsEvolved id change [] later p h = absurd cc
rewrite_at-IsEvolved id change (x ∷ items) later p h = elim (Bool-cases (str_eq x.id id)) [
  | inl e ↦ elim (Result-cases (change x)) [
    | inr (why, f) ↦ let bad = rw (e, f) at h in absurd cc
    | inl (y, f) ↦
        let good = rw (e, f) at h in
        let same : y ∷ items ≡ later = cc in
        subst (λ l. IsEvolved (x ∷ items) l) same (IsEvolved-head x y items (p x y f))
  ]
  | inr e ↦ elim (Result-cases (rewrite_at id change items)) [
    | inr (why, f) ↦ let bad = rw (e, f) at h in absurd cc
    | inl (ys, f) ↦
        let good = rw (e, f) at h in
        let same : x ∷ ys ≡ later = cc in
        subst (λ l. IsEvolved (x ∷ items) l) same
          (IsEvolved-tail x items ys (rewrite_at-IsEvolved id change items ys p f))
  ]
]

pub return_item-Evolves :
    (at evidence : String) (i j : HeldItem) → return_item at evidence i ≡ ok j → Evolves i j
unfolding return_item
return_item-Evolves at evidence i j h = elim (Bool-cases (str_eq i.state "held")) [
  | inr e ↦ let bad = rw e at h in absurd cc
  | inl e ↦
      let good = rw e at h in
      let held : i.state ≡ "held" = (eq_iff i.state "held").0 e in
      subst (λ k. Evolves i k) (ok-inj _ j _ refl good) (returned i at _ held)
]

pub mark_item-Evolves :
    (at token : String) (i j : HeldItem) → mark_item at token i ≡ ok j → Evolves i j
unfolding mark_item
mark_item-Evolves at token i j h = elim (Bool-cases (str_eq i.state "returned")) [
  | inl e ↦ let bad = rw e at h in absurd cc
  | inr e ↦ elim (Bool-cases (str_eq i.state "held")) [
    | inl f ↦
        let good = rw (e, f) at h in
        let held : i.state ≡ "held" = (eq_iff i.state "held").0 f in
        subst (λ k. Evolves i k) (ok-inj _ j _ refl good) (attributed i at token held)
    | inr f ↦
        let good = rw (e, f) at h in subst (λ k. Evolves i k) (ok-inj _ j _ refl good) (unchanged i)
  ]
]
