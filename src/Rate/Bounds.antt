-- ===== src/Rate/Bounds.antt =====
-- The map stays bounded, and so does each window in it.
use kyriakon_infra.Rate.{
  v4, v6, unknown_forward, Key, evict, times_of, make_room, max_keys, allow, put, evict_batch,
  recent, Counter, allow_request, requests_per_minute, allow_draft, drafts_per_day, minute, day,
}
use kyriakon_infra.Base.{
  ◌&&◌, ℕ, [], true, refl, length, List, ◌≡◌, All, ◌↔◌, ◌≤◌, ◌+◌, ◌∷◌, arith, ◌<◌, ap, length-keep,
  Bool-cases, suc, ◌⊎◌, take, zero, ltb, leb, inl, inr, keep, not, ◌++◌, length-append,
}
use kyriakon_infra.Rate.{
  expire, remove, contains_key, Key, remove_all, sort_ages, ages, Times, insert_age, key_eq,
}

pub key_eq_iff : (j k : Key) → (key_eq j k ≡ true) ↔ (j ≡ k)
key_eq_iff (v4 a) (v4 b) = ground arith
key_eq_iff (v6 a) (v6 b) = ground arith
key_eq_iff unknown_forward unknown_forward = (λ h. refl, λ h. refl)
key_eq_iff _ _ = (λ h. cc, λ h. cc)

-- Each window holds at most `limit` times.
abbrev pub Within : ℕ → Times → Type 0
Within limit m = All (λ e. length e.1 ≤ limit) m

length-remove : (k : Key) (m : Times) → length (remove k m) ≤ length m
unfolding remove
length-remove k [] = omega arith
length-remove k (e ∷ m) = ground (arith, length-remove k m)

length-remove_present :
    (k : Key) (m : Times) → contains_key k m ≡ true → length (remove k m) + 1 ≡ length m
unfolding remove contains_key
length-remove_present k [] h = cc
length-remove_present k (e ∷ m) h = ground (arith, length-remove_present k m)

length-remove_all : (as' : List (ℕ × Key)) (m : Times) → length (remove_all as' m) ≤ length m
unfolding remove_all
length-remove_all [] m = omega arith
length-remove_all (a ∷ as') m =
    omega (arith, length-remove_all as' (remove a.1 m), length-remove a.1 m)

length-expire : (now window : ℕ) (m : Times) → length (expire now window m) ≤ length m
unfolding expire
length-expire now window [] = omega arith
length-expire now window ((k, times) ∷ m) = ground (arith, length-expire now window m)

-- Every age in the list is one of a key of the map.
abbrev Present : Times → List (ℕ × Key) → Type 0
Present m l = All (λ a. contains_key a.1 m ≡ true) l

Present-cons :
    (k : Key) (times : List ℕ) (m : Times) (l : List (ℕ × Key))
    → Present m l
    → Present ((k, times) ∷ m) l
unfolding contains_key
Present-cons k times m [] h = tt
Present-cons k times m (a ∷ l) h = (ground arith, Present-cons k times m l h.1)

ages-Present : (now : ℕ) (m : Times) → Present m (ages now m)
unfolding ages
ages-Present now [] = tt
ages-Present now ((k, times) ∷ m) = (
  unfold contains_key in ground (arith, key_eq_iff k k),
  Present-cons k times m (ages now m) (ages-Present now m),
)

insert_age-Present :
    (m : Times) (a : ℕ × Key) (l : List (ℕ × Key))
    → contains_key a.1 m ≡ true
    → Present m l
    → Present m (insert_age a l)
unfolding insert_age
insert_age-Present m a [] h hl = (h, tt)
insert_age-Present m a (b ∷ l) h hl = ground (arith, insert_age-Present m a l h hl.1)

sort_ages-Present : (m : Times) (l : List (ℕ × Key)) → Present m l → Present m (sort_ages l)
unfolding sort_ages
sort_ages-Present m [] h = tt
sort_ages-Present m (a ∷ l) h = insert_age-Present m a (sort_ages l) h.0 (sort_ages-Present m l h.1)

remove_all-lt :
    (n : ℕ) (l : List (ℕ × Key)) (m : Times)
    → 0 < n
    → 0 < length l
    → Present m l
    → length (remove_all (take n l) m) < length m
unfolding remove_all
remove_all-lt zero l m hn hl h = absurd (omega arith)
remove_all-lt (suc n) [] m hn hl h = absurd (omega arith)
remove_all-lt (suc n) (a ∷ l) m hn hl h =
    omega (arith, length-remove_all (take n l) (remove a.1 m), length-remove_present a.1 m h.0)

length-insert_age : (a : ℕ × Key) (l : List (ℕ × Key)) → length (insert_age a l) ≡ length l + 1
unfolding insert_age
length-insert_age a [] = omega arith
length-insert_age a (b ∷ l) = ground (arith, length-insert_age a l)

length-sort_ages : (l : List (ℕ × Key)) → length (sort_ages l) ≡ length l
unfolding sort_ages
length-sort_ages [] = refl
length-sort_ages (a ∷ l) = omega (arith, length-insert_age a (sort_ages l), length-sort_ages l)

length-ages : (now : ℕ) (m : Times) → length (ages now m) ≡ length m
unfolding ages
length-ages now [] = refl
length-ages now ((k, times) ∷ m) = ap suc (length-ages now m)

max_keys_pos : 0 < max_keys
unfolding max_keys
max_keys_pos = omega arith

evict_batch_pos : 0 < evict_batch
unfolding evict_batch
evict_batch_pos = omega arith

-- An eviction of a map of at most 4096 keys leaves fewer than that.
pub evict-lt :
    (now window : ℕ) (m : Times) → length m ≤ max_keys → length (evict now window m) < max_keys
unfolding evict
evict-lt now window m h =
    let live : Times = expire now window m in
    ground (
      arith,
      max_keys_pos,
      length-expire now window m,
      remove_all-lt evict_batch (sort_ages (ages now live)) live evict_batch_pos,
      length-sort_ages (ages now live),
      length-ages now live,
      sort_ages-Present live (ages now live) (ages-Present now live),
    )

expire-Within :
    (limit now window : ℕ) (m : Times) → Within limit m → Within limit (expire now window m)
unfolding expire
expire-Within limit now window [] h = tt
expire-Within limit now window ((k, times) ∷ m) h =
    ground (arith, expire-Within limit now window m h.1, length-keep (recent now window) times)

remove-Within : (limit : ℕ) (k : Key) (m : Times) → Within limit m → Within limit (remove k m)
unfolding remove
remove-Within limit k [] h = tt
remove-Within limit k (e ∷ m) h = ground (arith, remove-Within limit k m h.1)

remove_all-Within :
    (limit : ℕ) (l : List (ℕ × Key)) (m : Times) → Within limit m → Within limit (remove_all l m)
unfolding remove_all
remove_all-Within limit [] m h = h
remove_all-Within limit (a ∷ l) m h =
    remove_all-Within limit l (remove a.1 m) (remove-Within limit a.1 m h)

evict-Within :
    (limit now window : ℕ) (m : Times) → Within limit m → Within limit (evict now window m)
unfolding evict
evict-Within limit now window m h =
    elim (Bool-cases (ltb (length (expire now window m)) max_keys)) [
      | inl e ↦ rw e (expire-Within limit now window m h)
      | inr e ↦ rw e (remove_all-Within limit _ _ (expire-Within limit now window m h))
    ]

put-Within :
    (limit : ℕ) (k : Key) (times : List ℕ) (m : Times)
    → length times ≤ limit
    → Within limit m
    → Within limit (put k times m)
unfolding put
put-Within limit k times [] ht h = (ht, tt)
put-Within limit k times (e ∷ m) ht h = ground (arith, put-Within limit k times m ht h.1)

times_of-Within : (limit : ℕ) (k : Key) (m : Times) → Within limit m → length (times_of k m) ≤ limit
unfolding times_of
times_of-Within limit k [] h = omega arith
times_of-Within limit k (e ∷ m) h = ground (arith, times_of-Within limit k m h.1)

length-put : (k : Key) (times : List ℕ) (m : Times) → length (put k times m) ≤ length m + 1
unfolding put
length-put k times [] = omega arith
length-put k times (e ∷ m) = ground (arith, length-put k times m)

length-put_present :
    (k : Key) (times : List ℕ) (m : Times)
    → contains_key k m ≡ true
    → length (put k times m) ≡ length m
unfolding put contains_key
length-put_present k times [] h = cc
length-put_present k times (e ∷ m) h = ground (arith, length-put_present k times m)

-- The cap on the map and the limit on each window.
pub record IsBounded (limit : ℕ) (m : Times) : Type 0 where
  pub size : length m ≤ max_keys
  pub windows : Within limit m

make_room_bounds :
    (limit : ℕ) (k : Key) (now window : ℕ) (m : Times)
    → IsBounded limit m
    → Within limit (make_room k now window m)
      × (((contains_key k (make_room k now window m) ≡ true)
            × (length (make_room k now window m) ≤ max_keys))
          ⊎ (length (make_room k now window m) < max_keys))
unfolding make_room
make_room_bounds limit k now window m h =
    elim (Bool-cases (leb max_keys (length m) && not (contains_key k m))) [
      | inl e ↦ rw e (evict-Within limit now window m h.windows, inr (evict-lt now window m h.size))
      | inr e ↦ rw e (
        h.windows,
        elim (Bool-cases (contains_key k m)) [
          | inl p ↦ inl (p, h.size)
          | inr p ↦ inr (ground arith)
        ],
      )
    ]

put-IsBounded :
    (limit : ℕ) (k : Key) (times : List ℕ) (m : Times)
    → length times ≤ limit
    → Within limit m
    → ((contains_key k m ≡ true) × (length m ≤ max_keys)) ⊎ (length m < max_keys)
    → IsBounded limit (put k times m)
put-IsBounded limit k times m ht hw (inl (present, fits)) = record {
  size = omega (arith, length-put_present k times m present);
  windows = put-Within limit k times m ht hw;
}
put-IsBounded limit k times m ht hw (inr room) = record {
  size = omega (arith, length-put k times m);
  windows = put-Within limit k times m ht hw;
}

-- Whatever key is counted at whatever time, the map keeps at most 4096 keys and each window at most
-- `limit` times.
pub allow-IsBounded :
    (limit : ℕ) (k : Key) (now window : ℕ) (m : Times)
    → IsBounded limit m
    → IsBounded limit (allow k now window limit m).0
unfolding allow
allow-IsBounded limit k now window m h =
    let room : Times = make_room k now window m in
    let times : List ℕ = keep (recent now window) (times_of k room) in
    let (within, space) = make_room_bounds limit k now window m h in
    elim (Bool-cases (leb limit (length times))) [
      | inl e ↦ rw e (
          put-IsBounded limit k times room
            (omega (
              arith,
              length-keep (recent now window) (times_of k room),
              times_of-Within limit k room within,
            ))
            within space)
      | inr e ↦ rw e (
          put-IsBounded limit k (times ++ now ∷ []) room
            (ground (arith, length-append times (now ∷ []))) within space)
    ]

-- Both counters of the service, at their own limits.
pub record CounterIsBounded (c : Counter) : Type 0 where
  pub requests : IsBounded requests_per_minute c.requests
  pub drafts : IsBounded drafts_per_day c.drafts

-- A call of either counter keeps both maps bounded, and touches its own alone.
pub counter_bounded :
    (k : Key) (now : ℕ) (c : Counter)
    → CounterIsBounded c
    → CounterIsBounded (allow_request k now c).0
      × CounterIsBounded (allow_draft k now c).0
      × ((allow_request k now c).0.drafts ≡ c.drafts)
      × ((allow_draft k now c).0.requests ≡ c.requests)
unfolding allow_request allow_draft
counter_bounded k now c h = (
  record {
    requests = allow-IsBounded requests_per_minute k now minute c.requests h.requests;
    drafts = h.drafts;
  },
  record {
    requests = h.requests;
    drafts = allow-IsBounded drafts_per_day k now day c.drafts h.drafts;
  },
  refl,
  refl,
)
