-- ===== src/Rate/Window.antt =====
-- Where nothing is evicted the counter is a sliding window: it answers as a limiter that keeps every
-- admitted call for ever and counts those of the key within the window.
use kyriakon_infra.Rate.{
  Key, Times, times_of, put, key_eq, allow, recent, max_keys, make_room, contains_key,
}
use kyriakon_infra.Base.{
  ◌&&◌, ℕ, [], true, false, refl, ◌++◌, Bool, List, ◌≤◌, if◌then◌else◌, keep, ◌∷◌, leb, ◌≡◌, length,
  arith, ap, length-append, not, length-keep, ◌∙◌, Bool-cases, inl, inr,
}
use kyriakon_infra.Rate.Bounds.{key_eq_iff}
use mathlib.Core.List.{append-nil, append_assoc}

pub record Call : Type 0 where
  pub who : Key
  pub at : ℕ

-- The specification: the calls admitted so far, oldest first.
abbrev pub Admitted : Type 0
Admitted = List Call

pub times_by : Key → Admitted → List ℕ
times_by k [] = []
times_by k (c ∷ cs) = if key_eq c.who k then c.at ∷ times_by k cs else times_by k cs

pub admit : ℕ → ℕ → Call → Admitted → Admitted × Bool
admit window limit c log =
    if leb limit (length (keep (recent c.at window) (times_by c.who log)))
    then (log, false)
    else (log ++ c ∷ [], true)

-- The answers to a sequence of calls, by the specification and by the code.
pub answers_spec : ℕ → ℕ → List Call → Admitted → List Bool
answers_spec window limit [] log = []
answers_spec window limit (c ∷ cs) log =
    (admit window limit c log).1 ∷ answers_spec window limit cs (admit window limit c log).0

pub answers : ℕ → ℕ → List Call → Times → List Bool
answers window limit [] m = []
answers window limit (c ∷ cs) m =
    (allow c.who c.at window limit m).1
    ∷ answers window limit cs (allow c.who c.at window limit m).0

-- The calls come in the order of their times, from `now` on.
abbrev pub InOrder : ℕ → List Call → Type 0
InOrder now [] = Unit
InOrder now (c ∷ cs) = (now ≤ c.at) × InOrder c.at cs

-- No call of the sequence finds the map full and its key new.
abbrev pub NoEviction : ℕ → ℕ → List Call → Times → Type 0
NoEviction window limit [] m = Unit
NoEviction window limit (c ∷ cs) m =
    ((leb max_keys (length m) && not (contains_key c.who m)) ≡ false)
    × NoEviction window limit cs (allow c.who c.at window limit m).0

-- From `now` on, the map and the log count alike.
abbrev CountsAlike : ℕ → ℕ → Times → Admitted → Type 0
CountsAlike window now m log =
    (k : Key) (later : ℕ)
    → now ≤ later
    → keep (recent later window) (times_of k m) ≡ keep (recent later window) (times_by k log)

times_of-put :
    (j k : Key) (times : List ℕ) (m : Times)
    → times_of j (put k times m) ≡ (if key_eq k j then times else times_of j m)
unfolding times_of put
times_of-put j k times [] = ground arith
times_of-put j k times ((i, old) ∷ m) =
    ground (arith, times_of-put j k times m, key_eq_iff i k, key_eq_iff k j, key_eq_iff i j)

times_by-append :
    (k : Key) (log : Admitted) (c : Call)
    → times_by k (log ++ c ∷ [])
      ≡ (if key_eq c.who k then times_by k log ++ c.at ∷ [] else times_by k log)
unfolding times_by
times_by-append k [] c = ground arith
times_by-append k (d ∷ log) c = ground (arith, times_by-append k log c)

keep-append {ℓ} :
    {A : Type ℓ} (p : A → Bool) (xs ys : List A) → keep p (xs ++ ys) ≡ keep p xs ++ keep p ys
keep-append p [] ys = refl
keep-append p (x ∷ xs) ys = ground (arith, keep-append p xs ys)

-- What is recent later was recent before.
keep-keep :
    (now later window : ℕ) (times : List ℕ)
    → now ≤ later
    → keep (recent later window) (keep (recent now window) times) ≡ keep (recent later window) times
keep-keep now later window [] h = refl
keep-keep now later window (t ∷ times) h = ground (arith, keep-keep now later window times h)

make_room_same :
    (k : Key) (now window : ℕ) (m : Times)
    → (leb max_keys (length m) && not (contains_key k m)) ≡ false
    → make_room k now window m ≡ m
unfolding make_room
make_room_same k now window m h = rw h

-- One call that evicts nothing is answered alike, and leaves map and log counting alike.
allow-CountsAlike :
    (window limit now : ℕ) (c : Call) (m : Times) (log : Admitted)
    → now ≤ c.at
    → (leb max_keys (length m) && not (contains_key c.who m)) ≡ false
    → CountsAlike window now m log
    → ((allow c.who c.at window limit m).1 ≡ (admit window limit c log).1)
      × CountsAlike window c.at (allow c.who c.at window limit m).0 (admit window limit c log).0
unfolding allow admit
allow-CountsAlike window limit now c m log order room alike =
    rw (make_room_same c.who c.at window m room, alike c.who c.at order)
      (elim (Bool-cases (leb limit (length (keep (recent c.at window) (times_by c.who log))))) [
        | inl full ↦ rw full (refl, λ k later h. refused k later h)
        | inr free ↦ rw free (refl, λ k later h. admitted k later h)
      ])
  where
    kept : List ℕ
    kept = keep (recent c.at window) (times_by c.who log)

    same_key :
        (k : Key) (later : ℕ)
        → c.at ≤ later
        → key_eq c.who k ≡ true
        → keep (recent later window) kept ≡ keep (recent later window) (times_by k log)
    same_key k later h e =
        keep-keep c.at later window (times_by c.who log) h
        ∙ ap (λ j. keep (recent later window) (times_by j log)) ((key_eq_iff c.who k).0 e)

    refused :
        (k : Key) (later : ℕ)
        → c.at ≤ later
        → keep (recent later window) (times_of k (put c.who kept m))
          ≡ keep (recent later window) (times_by k log)
    refused k later h = rw (times_of-put k c.who kept m) (elim (Bool-cases (key_eq c.who k)) [
      | inl e ↦ rw e (same_key k later h e)
      | inr e ↦ rw e (alike k later (omega arith))
    ])

    admitted :
        (k : Key) (later : ℕ)
        → c.at ≤ later
        → keep (recent later window) (times_of k (put c.who (kept ++ c.at ∷ []) m))
          ≡ keep (recent later window) (times_by k (log ++ c ∷ []))
    admitted k later h =
        rw (times_of-put k c.who (kept ++ c.at ∷ []) m, times_by-append k log c)
          (elim (Bool-cases (key_eq c.who k)) [
            | inl e ↦ rw (
              e,
              keep-append (recent later window) kept (c.at ∷ []),
              keep-append (recent later window) (times_by k log) (c.at ∷ []),
              same_key k later h e,
            )
            | inr e ↦ rw e (alike k later (omega arith))
          ])

answers-CountsAlike :
    (window limit now : ℕ) (cs : List Call) (m : Times) (log : Admitted)
    → InOrder now cs
    → NoEviction window limit cs m
    → CountsAlike window now m log
    → answers window limit cs m ≡ answers_spec window limit cs log
unfolding answers answers_spec
answers-CountsAlike window limit now [] m log order room alike = refl
answers-CountsAlike window limit now (c ∷ cs) m log order room alike =
    let (same, next) = allow-CountsAlike window limit now c m log order.0 room.0 alike in
    rw same (
      ap (λ l. (admit window limit c log).1 ∷ l)
        (answers-CountsAlike window limit c.at cs _ _ order.1 room.1 next))

-- On calls in the order of their times, none of which evicts, a counter that starts empty answers as
-- the limiter that counts every call admitted within the window before it.
pub sliding_window :
    (window limit : ℕ) (cs : List Call)
    → InOrder 0 cs
    → NoEviction window limit cs []
    → answers window limit cs [] ≡ answers_spec window limit cs []
sliding_window window limit cs order room =
    answers-CountsAlike window limit 0 cs [] [] order room
      (λ k later h. unfold times_of times_by in refl)

-- The log after a sequence of calls.
pub log_after : ℕ → ℕ → List Call → Admitted → Admitted
log_after window limit [] log = log
log_after window limit (c ∷ cs) log = log_after window limit cs (admit window limit c log).0

abbrev pub last_time : ℕ → List Call → ℕ
last_time now [] = now
last_time now (c ∷ cs) = last_time c.at cs

abbrev Sparse : ℕ → ℕ → ℕ → Admitted → Type 0
Sparse window limit now log =
    (k : Key) (later : ℕ)
    → now ≤ later
    → length (keep (recent later window) (times_by k log)) ≤ limit

length-keep_later :
    (now later window : ℕ) (times : List ℕ)
    → now ≤ later
    → length (keep (recent later window) times) ≤ length (keep (recent now window) times)
length-keep_later now later window [] h = omega arith
length-keep_later now later window (t ∷ times) h =
    ground (arith, length-keep_later now later window times h)

admit-Sparse :
    (window limit now : ℕ) (c : Call) (log : Admitted)
    → now ≤ c.at
    → Sparse window limit now log
    → Sparse window limit c.at (admit window limit c log).0
unfolding admit
admit-Sparse window limit now c log order sparse k later h = ground (
  arith,
  sparse k later,
  times_by-append k log c,
  key_eq_iff c.who k,
  keep-append (recent later window) (times_by k log) (c.at ∷ []),
  length-append (keep (recent later window) (times_by k log))
      (keep (recent later window) (c.at ∷ [])),
  length-keep (recent later window) (c.at ∷ []),
  length-keep_later c.at later window (times_by k log) h,
)

-- However calls come in the order of their times, from the last of them on no window holds more
-- than `limit` admitted calls of one key.
log_after-Sparse :
    (window limit now : ℕ) (cs : List Call) (log : Admitted)
    → InOrder now cs
    → Sparse window limit now log
    → Sparse window limit (last_time now cs) (log_after window limit cs log)
unfolding log_after
log_after-Sparse window limit now [] log order sparse = sparse
log_after-Sparse window limit now (c ∷ cs) log order sparse =
    log_after-Sparse window limit c.at cs _ order.1
      (admit-Sparse window limit now c log order.0 sparse)

-- The calls that were answered `true`.
pub picked : List Call → List Bool → Admitted
picked (c ∷ cs) (true ∷ bs) = c ∷ picked cs bs
picked (c ∷ cs) (false ∷ bs) = picked cs bs
picked _ _ = []

picked-answers_spec :
    (window limit : ℕ) (cs : List Call) (log : Admitted)
    → log ++ picked cs (answers_spec window limit cs log) ≡ log_after window limit cs log
unfolding picked answers_spec log_after admit
picked-answers_spec window limit [] log = append-nil log
picked-answers_spec window limit (c ∷ cs) log =
    elim (Bool-cases (leb limit (length (keep (recent c.at window) (times_by c.who log))))) [
      | inl full ↦ rw full (picked-answers_spec window limit cs log)
      | inr free ↦
          rw (free, ← append_assoc log (c ∷ []) _)
            (picked-answers_spec window limit cs (log ++ c ∷ []))
    ]

-- On calls in the order of their times, none of which evicts, a counter that starts empty allows one
-- key at most `limit` calls within any window that ends at the last call or later.
pub rate_limited :
    (window limit : ℕ) (cs : List Call)
    → InOrder 0 cs
    → NoEviction window limit cs []
    → (k : Key) (later : ℕ) → last_time 0 cs ≤ later
    → length (keep (recent later window) (times_by k (picked cs (answers window limit cs []))))
      ≤ limit
rate_limited window limit cs order room k later h =
    rw (sliding_window window limit cs order room, picked-answers_spec window limit cs [])
      (log_after-Sparse window limit 0 cs [] order (λ j t p. unfold times_by in omega arith) k later
        h)
