-- ===== src/Rate/Tests.antt =====
-- The counters on small maps (onboard/src/rate.rs).
use kyriakon_infra.Base.{List, [], ◌∷◌, length, keep, ◌≡◌, arith, false, refl, ◌≤◌}
use kyriakon_infra.Rate.Bounds.{IsBounded, allow-IsBounded}
use kyriakon_infra.Rate.{
  max_keys, Times, Counter, allow, make_room, v4, unknown_forward, put, times_of, recent,
  contains_key,
}
use kyriakon_infra.Rate.Window.{
  Call, InOrder, answers, answers_spec, sliding_window, times_by, NoEviction, picked, rate_limited,
}

abbrev few : Times
few = (v4 1, 100 ∷ 150 ∷ []) ∷ (unknown_forward, 7 ∷ []) ∷ []

few-IsBounded : IsBounded 2 few
unfolding max_keys
few-IsBounded = record { size = omega arith; windows = (omega arith, (omega arith, tt)) }

allow-IsBounded_example : IsBounded 2 (allow (v4 1) 200 60 2 few).0
allow-IsBounded_example = allow-IsBounded 2 (v4 1) 200 60 few few-IsBounded

abbrev counter : Counter
counter = record { requests = (v4 1, 5 ∷ []) ∷ []; drafts = [] }

-- Three calls in one window of ten, with a limit of two.
abbrev calls : List Call
calls =
    record { who = v4 1; at = 1 }
    ∷ record { who = v4 1; at = 2 }
    ∷ record { who = v4 1; at = 3 }
    ∷ record { who = v4 2; at = 4 }
    ∷ []

calls-InOrder : InOrder 0 calls
calls-InOrder = (omega arith, (omega arith, (omega arith, (omega arith, tt))))

calls-NoEviction : NoEviction 10 2 calls []
unfolding max_keys allow make_room put times_of contains_key
calls-NoEviction = (refl, (refl, (refl, (refl, tt))))

third_refused : (allow (v4 1) 3 10 2 ((v4 1, 1 ∷ 2 ∷ []) ∷ [])).1 ≡ false
unfolding allow make_room times_of contains_key max_keys
third_refused = refl

sliding_window_example : answers 10 2 calls [] ≡ answers_spec 10 2 calls []
sliding_window_example = sliding_window 10 2 calls calls-InOrder calls-NoEviction

rate_limited_test :
    length (keep (recent 5 10) (times_by (v4 1) (picked calls (answers 10 2 calls [])))) ≤ 2
rate_limited_test = rate_limited 10 2 calls calls-InOrder calls-NoEviction (v4 1) 5 (omega arith)
