-- ===== src/Rate.antt =====
-- The per-address counters (onboard/src/rate.rs): the key of a client, the map of its recent times,
-- and the eviction that keeps the map bounded. An `Instant` is a number of nanoseconds, and
-- `duration_since` stops at zero. The order of the list is the map's iteration order, which is any.
pub mod Bounds
pub mod Window
mod Tests
use kyriakon_infra.Base.{
  ◌/◌, ℕ, zero, suc, ◌+◌, ◌-◌, ◌*◌, List, [], ◌∷◌, ◌++◌, map, Option, none, some, Bool, true, false,
  not, ◌&&◌, ltb, leb, ◌==◌, if◌then◌else◌, length, take, keep,
}
use kyriakon_infra.Base.Chars.{split, trim}

abbrev pub requests_per_minute : ℕ
requests_per_minute = 60

abbrev pub drafts_per_day : ℕ
drafts_per_day = 5

abbrev pub minute : ℕ
minute = 60 * 1_000_000_000

abbrev pub day : ℕ
day = 24 * 60 * 60 * 1_000_000_000

pub max_keys : ℕ
max_keys = 4096

pub evict_batch : ℕ
unfolding max_keys
evict_batch = max_keys / 8

pub data Key : Type 0 where
  v4 v6 : ℕ → Key
  unknown_forward : Key

-- An address: its four bytes as one number, or its sixteen octets.
pub data IpAddr : Type 0 where
  ipv4 : ℕ → IpAddr
  ipv6 : List ℕ → IpAddr

-- `u64::from_be_bytes`
pub from_be_bytes : ℕ → List ℕ → ℕ
from_be_bytes acc [] = acc
from_be_bytes acc (b ∷ bs) = from_be_bytes (acc * 256 + b) bs

pub bucket : IpAddr → Key
bucket (ipv4 address) = v4 address
bucket (ipv6 octets) = v6 (from_be_bytes 0 (take 8 octets))

abbrev last_piece : List ℕ → List (List ℕ) → List ℕ
last_piece p [] = p
last_piece p (q ∷ qs) = last_piece q qs

-- `rsplit(',').next()`
pub after_last_comma : List ℕ → List ℕ
after_last_comma value = last_piece [] (split b',' value)

-- `parse_ip` is the standard library's parser of an address.
pub key : (parse_ip : List ℕ → Option IpAddr) → Option (List ℕ) → Option (List ℕ) → Key
key parse_ip forwarded peer =
    let observed : Option (List ℕ) = elim forwarded [
      | some value ↦ some (trim (after_last_comma value))
      | none ↦ peer
    ] in
    let parsed : Option IpAddr = elim observed [ some text ↦ parse_ip text | none ↦ none ] in
    elim parsed [ some ip ↦ bucket ip | none ↦ unknown_forward ]

abbrev pub key_eq : Key → Key → Bool
key_eq (v4 a) (v4 b) = a == b
key_eq (v6 a) (v6 b) = a == b
key_eq unknown_forward unknown_forward = true
key_eq _ _ = false

abbrev pub Times : Type 0
Times = List (Key × List ℕ)

pub contains_key : Key → Times → Bool
contains_key k [] = false
contains_key k ((j, times) ∷ m) = if key_eq j k then true else contains_key k m

-- The value of a key, empty where there is none: `entry(key).or_default()`.
pub times_of : Key → Times → List ℕ
times_of k [] = []
times_of k ((j, times) ∷ m) = if key_eq j k then times else times_of k m

pub put : Key → List ℕ → Times → Times
put k times [] = (k, times) ∷ []
put k times ((j, old) ∷ m) = if key_eq j k then (j, times) ∷ m else (j, old) ∷ put k times m

pub remove : Key → Times → Times
remove k [] = []
remove k ((j, times) ∷ m) = if key_eq j k then m else (j, times) ∷ remove k m

-- `now.duration_since(*t) < window`
abbrev pub recent : ℕ → ℕ → ℕ → Bool
recent now window t = ltb (now - t) window

-- Each window emptied of what has run out, and the keys left with none taken off.
pub expire : ℕ → ℕ → Times → Times
expire now window [] = []
expire now window ((k, times) ∷ m) =
    let rest = expire now window m in
    elim (keep (recent now window) times) [ [] ↦ rest | t ∷ ts ↦ (k, t ∷ ts) ∷ rest ]

abbrev last_or : ℕ → List ℕ → ℕ
last_or now [] = now
last_or now (t ∷ ts) = last_or t ts

pub ages : ℕ → Times → List (ℕ × Key)
ages now [] = []
ages now ((k, times) ∷ m) = (last_or now times, k) ∷ ages now m

-- `sort_by_key`, which is stable.
insert_age : ℕ × Key → List (ℕ × Key) → List (ℕ × Key)
insert_age a [] = a ∷ []
insert_age a (b ∷ bs) = if leb a.0 b.0 then a ∷ b ∷ bs else b ∷ insert_age a bs

pub sort_ages : List (ℕ × Key) → List (ℕ × Key)
sort_ages [] = []
sort_ages (a ∷ as') = insert_age a (sort_ages as')

pub remove_all : List (ℕ × Key) → Times → Times
remove_all [] m = m
remove_all (a ∷ as') m = remove_all as' (remove a.1 m)

pub evict : ℕ → ℕ → Times → Times
evict now window m =
    let live = expire now window m in
    if ltb (length live) max_keys
    then live
    else remove_all (take evict_batch (sort_ages (ages now live))) live

-- The map that the count is made in: after an eviction where the map is full and the key is new.
pub make_room : Key → ℕ → ℕ → Times → Times
make_room k now window m =
    if leb max_keys (length m) && not (contains_key k m) then evict now window m else m

-- The new map and whether the call is allowed.
pub allow : Key → ℕ → ℕ → ℕ → Times → Times × Bool
allow k now window limit m =
    let room = make_room k now window m in
    let times = keep (recent now window) (times_of k room) in
    if leb limit (length times)
    then (put k times room, false)
    else (put k (times ++ now ∷ []) room, true)

pub record Counter : Type 0 where
  pub requests : Times
  pub drafts : Times

abbrev pub new : Counter
new = record { requests = []; drafts = [] }

pub allow_request : Key → ℕ → Counter → Counter × Bool
allow_request k now c =
    let (m, allowed) = allow k now minute requests_per_minute c.requests in
    (record c { requests = m }, allowed)

pub allow_draft : Key → ℕ → Counter → Counter × Bool
allow_draft k now c =
    let (m, allowed) = allow k now day drafts_per_day c.drafts in (record c { drafts = m }, allowed)
