-- ===== src/Fcgi/Reader/Bounds.antt =====
-- What holds of the reader on any bytes at all: it ends, and what it keeps is bounded.
use kyriakon_infra.Base.{
  [], false, ok, err, ℕ, length, List, arith, ◌≤◌, ◌≡◌, some, ◌+◌, length-append, length-drop, ◌∷◌,
  ◌≢◌, Result, Option, Bool, ◌⊎◌, ◌<◌, inl, suc, inr, Option-cases, refl, Result-cases, ◌∙◌, ap,
  zero,
}
use kyriakon_infra.Fcgi.Wire.{Header, split_header, max_params}
use kyriakon_infra.Fcgi.Reader.{
  read_content, start, State, begin_record, stdin_record, params_record, handle_record, more, Error,
  finish, header_missing, unfinished, Ending, failed, Request, Outcome, read_loop, closed, finished,
  read_request, Peer,
}

-- What the buffers may hold.
pub record IsBounded (body_cap : ℕ) (st : State) : Type 0 where
  pub body : length st.body ≤ body_cap
  pub params : length st.env_buf ≤ max_params

begin_record-IsBounded :
    (body_cap : ℕ) (h : Header) (content : List ℕ) (st st' : State)
    → IsBounded body_cap st
    → begin_record h content st ≡ more st'
    → IsBounded body_cap st'
unfolding begin_record
begin_record-IsBounded body_cap h (a ∷ b ∷ c ∷ d ∷ p ∷ q ∷ r ∷ s ∷ []) st st' bound e = ground arith
begin_record-IsBounded body_cap h _ st st' bound e = cc

params_record-IsBounded :
    (body_cap : ℕ) (content : List ℕ) (st st' : State)
    → IsBounded body_cap st
    → params_record content st ≡ more st'
    → IsBounded body_cap st'
unfolding params_record
params_record-IsBounded body_cap content st st' bound e =
    ground (arith, length-append st.env_buf content)

stdin_record-IsBounded :
    (body_cap : ℕ) (content : List ℕ) (st st' : State)
    → IsBounded body_cap st
    → stdin_record body_cap content st ≡ more st'
    → IsBounded body_cap st'
unfolding stdin_record
stdin_record-IsBounded body_cap [] st st' bound e = cc
stdin_record-IsBounded body_cap (b ∷ bs) st st' bound e =
    ground (arith, length-append st.body (b ∷ bs))

handle_record-IsBounded :
    (body_cap : ℕ) (h : Header) (content : List ℕ) (st st' : State)
    → IsBounded body_cap st
    → handle_record body_cap h content st ≡ more st'
    → IsBounded body_cap st'
unfolding handle_record
handle_record-IsBounded body_cap h content st st' bound e = ground (
  arith,
  begin_record-IsBounded body_cap h content st st' bound,
  params_record-IsBounded body_cap content st st' bound,
  stdin_record-IsBounded body_cap content st st' bound,
)

split_header_takes :
    (bytes rest : List ℕ) (h : Header)
    → split_header bytes ≡ some (h, rest)
    → length rest + 8 ≡ length bytes
unfolding split_header
split_header_takes (a ∷ b ∷ c ∷ d ∷ p ∷ q ∷ r ∷ s ∷ behind) rest h e = ground arith
split_header_takes _ rest h e = cc

read_content_takes :
    (h : Header) (bytes content rest : List ℕ)
    → read_content h bytes ≡ ok (content, rest)
    → length rest ≤ length bytes
unfolding read_content
read_content_takes h bytes content rest e = ground (arith, length-drop (h.len + h.padding) bytes)

-- The answer's body fits, and the answer is none of the model's own.
pub record IsSound (body_cap : ℕ) (answered : Result Error (Option Request)) : Type 0 where
  pub body_fits : (r : Request) → answered ≡ ok (some r) → length r.body ≤ body_cap
  pub ended : answered ≢ err unfinished

finish-IsSound : (body_cap : ℕ) (st : State) → IsBounded body_cap st → IsSound body_cap (finish st)
unfolding finish
finish-IsSound body_cap st bound = record {
  body_fits = λ r e. ground arith;
  ended = λ e. ground arith;
}

header_missing-IsSound :
    (body_cap : ℕ) (ending : Ending) (begun : Bool) → IsSound body_cap (header_missing ending begun)
unfolding header_missing
header_missing-IsSound body_cap closed false = record { body_fits = λ r e. cc; ended = λ e. cc }
header_missing-IsSound body_cap _ _ = record { body_fits = λ r e. cc; ended = λ e. cc }

err-IsSound : (body_cap : ℕ) (e : Error) → e ≢ unfinished → IsSound body_cap (err e)
err-IsSound body_cap e h = record { body_fits = λ r p. cc; ended = λ p. h (ground arith) }

begin_record-failed :
    (h : Header) (content : List ℕ) (st : State) → begin_record h content st ≢ failed unfinished
unfolding begin_record
begin_record-failed h (a ∷ b ∷ c ∷ d ∷ p ∷ q ∷ r ∷ s ∷ []) st e = ground arith
begin_record-failed h _ st e = cc

stdin_record-failed :
    (body_cap : ℕ) (content : List ℕ) (st : State)
    → stdin_record body_cap content st ≢ failed unfinished
unfolding stdin_record
stdin_record-failed body_cap [] st e = cc
stdin_record-failed body_cap (b ∷ bs) st e = ground arith

handle_record-failed :
    (body_cap : ℕ) (h : Header) (content : List ℕ) (st : State)
    → handle_record body_cap h content st ≢ failed unfinished
unfolding handle_record params_record
handle_record-failed body_cap h content st e =
    ground (arith, begin_record-failed h content st, stdin_record-failed body_cap content st)

read_content-failed : (h : Header) (bytes : List ℕ) → read_content h bytes ≢ err unfinished
unfolding read_content
read_content-failed h bytes e = ground arith

Outcome-cases :
    (o : Outcome)
    → ((st : State) × (o ≡ more st))
      ⊎ ((st : State) × (o ≡ finished st))
      ⊎ ((e : Error) × (o ≡ failed e))
Outcome-cases (more st) = inl (st, refl)
Outcome-cases (finished st) = inr (inl (st, refl))
Outcome-cases (failed e) = inr (inr (e, refl))

begin_record-ne-finished :
    (h : Header) (content : List ℕ) (st st' : State) → begin_record h content st ≢ finished st'
unfolding begin_record
begin_record-ne-finished h (a ∷ b ∷ c ∷ d ∷ p ∷ q ∷ r ∷ s ∷ []) st st' e = ground arith
begin_record-ne-finished h _ st st' e = cc

stdin_record-finished :
    (body_cap : ℕ) (content : List ℕ) (st st' : State)
    → stdin_record body_cap content st ≡ finished st'
    → st' ≡ st
unfolding stdin_record
stdin_record-finished body_cap [] st st' e = ground arith
stdin_record-finished body_cap (b ∷ bs) st st' e = ground arith

handle_record-finished :
    (body_cap : ℕ) (h : Header) (content : List ℕ) (st st' : State)
    → handle_record body_cap h content st ≡ finished st'
    → st' ≡ st
unfolding handle_record params_record
handle_record-finished body_cap h content st st' e = ground (
  arith,
  begin_record-ne-finished h content st st',
  stdin_record-finished body_cap content st st',
)

read_loop-IsSound :
    (fuel body_cap : ℕ) (ending : Ending) (bytes : List ℕ) (st : State)
    → IsBounded body_cap st
    → length bytes < fuel
    → IsSound body_cap (read_loop fuel body_cap ending bytes st).0
unfolding read_loop
read_loop-IsSound zero body_cap ending bytes st bound enough = absurd (omega arith)
read_loop-IsSound (suc fuel) body_cap ending bytes st bound enough =
    elim (Option-cases (split_header bytes)) [
      | inl p ↦ rw (p, read_loop) (header_missing-IsSound body_cap ending st.begun)
      | inr ((h, behind), p) ↦ elim (Result-cases (read_content h behind)) [
        | inr (e, q) ↦
            rw (p, read_loop, q, read_loop)
              (err-IsSound body_cap e (λ u. read_content-failed h behind (q ∙ ap err u)))
        | inl ((content, rest), q) ↦ elim (Outcome-cases (handle_record body_cap h content st)) [
          | inl (st', r) ↦
              rw (p, read_loop, q, read_loop, r, read_loop)
                (read_loop-IsSound fuel body_cap ending rest st'
                  (handle_record-IsBounded body_cap h content st st' bound r)
                  (omega (
                    arith,
                    split_header_takes bytes behind h p,
                    read_content_takes h behind content rest q,
                  )))
          | inr (inl (st', r)) ↦
              rw (p, read_loop, q, read_loop, r, read_loop)
                (finish-IsSound body_cap st'
                  (rw (handle_record-finished body_cap h content st st' r) bound))
          | inr (inr (e, r)) ↦
              rw (p, read_loop, q, read_loop, r, read_loop)
                (err-IsSound body_cap e
                  (λ u. handle_record-failed body_cap h content st (r ∙ ap failed u)))
        ]
      ]
    ]

-- Whatever bytes a peer sends and however they end, the reader ends within its fuel, and the body
-- of a request that it returns is no longer than the cap.
pub read_request-IsSound :
    (body_cap : ℕ) (peer : Peer) → IsSound body_cap (read_request body_cap peer).0
unfolding read_request
read_request-IsSound body_cap peer =
    read_loop-IsSound (length peer.sent + 1) body_cap peer.ending peer.sent start
      (record { body = omega arith; params = omega arith }) (omega arith)
