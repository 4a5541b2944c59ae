-- ===== src/Fcgi/Reader.antt =====
-- The reader of one request (`read_request` of onboard/src/fcgi.rs). The peer is the bytes that it
-- sends and how they end; `read_exact` takes from them or fails.
pub mod Packets
pub mod Bounds
pub mod RoundTrip
use Prim.Native.Nat.{bit_and}
use kyriakon_infra.Base.{
  ℕ, zero, suc, ◌+◌, List, [], ◌∷◌, ◌++◌, Option, none, some, Bool, true, false, not, ◌&&◌, ltb,
  ◌==◌, if◌then◌else◌, length, take, drop, Result, ok, err,
}
use kyriakon_infra.Fcgi.Wire.{
  version, begin_request, abort_request, params_kind, stdin, max_params, be16, Header, split_header,
}
use kyriakon_infra.Fcgi.Params
use kyriakon_infra.Fcgi.Params.{Env, params}

-- How the bytes of the peer end: it closed, or the connection broke.
pub data Ending : Type 0 where
  closed broken : Ending

pub record Peer : Type 0 where
  pub sent : List ℕ
  pub ending : Ending

-- `unfinished` is the model's own, for a loop that is out of fuel; it is never met.
pub data Error : Type 0 where
  ended_inside header_unreadable body_unreadable not_begun params_too_long aborted unfinished :
      Error
  bad_version bad_begin bad_role bad_kind : ℕ → Error
  bad_params : Params.Error → Error

-- The variables of the loop.
pub record State : Type 0 where
  pub env_buf : List ℕ
  pub body : List ℕ
  pub body_too_large : Bool
  pub keep_conn : Bool
  pub id : ℕ
  pub begun : Bool

pub record Request : Type 0 where
  pub env : Env
  pub body : List ℕ
  pub body_too_large : Bool
  pub keep_conn : Bool
  pub id : ℕ

abbrev pub start : State
start = record {
  env_buf = [];
  body = [];
  body_too_large = false;
  keep_conn = false;
  id = 0;
  begun = false;
}

-- What a record does to the loop: it goes on, leaves by `break`, or returns an error.
pub data Outcome : Type 0 where
  more : State → Outcome
  finished : State → Outcome
  failed : Error → Outcome

begin_record : Header → List ℕ → State → Outcome
begin_record h (r ∷ s ∷ flags ∷ _ ∷ _ ∷ _ ∷ _ ∷ _ ∷ []) st =
    if be16 r s == 1
    then more (record st { keep_conn = bit_and flags 1 == 1; id = h.record_id; begun = true })
    else failed (bad_role (be16 r s))
begin_record h content st = failed (bad_begin (length content))

params_record : List ℕ → State → Outcome
params_record content st =
    if ltb max_params (length st.env_buf + length content)
    then failed params_too_long
    else more (record st { env_buf = st.env_buf ++ content })

stdin_record : ℕ → List ℕ → State → Outcome
stdin_record body_cap [] st = finished st
stdin_record body_cap (b ∷ bs) st =
    if ltb body_cap (length st.body + length (b ∷ bs))
    then more (record st { body_too_large = true })
    else more (record st { body = st.body ++ b ∷ bs })

-- The check that the request has begun, and the match on the record's type.
pub handle_record : ℕ → Header → List ℕ → State → Outcome
handle_record body_cap h content st =
    if not st.begun && not (h.kind == begin_request)
    then failed not_begun
    else if h.kind == begin_request
    then begin_record h content st
    else if h.kind == params_kind
    then params_record content st
    else if h.kind == stdin
    then stdin_record body_cap content st
    else if h.kind == abort_request
    then failed aborted
    else failed (bad_kind h.kind)

-- A header that cannot be read: `none` is a peer that closed between requests.
unfoldable pub header_missing : Ending → Bool → Result Error (Option Request)
header_missing closed false = ok none
header_missing closed true = err ended_inside
header_missing broken begun = err header_unreadable

pub finish : State → Result Error (Option Request)
finish st = elim (params st.env_buf) [
  | ok env ↦ ok (
      some (record {
        env = env;
        body = st.body;
        body_too_large = st.body_too_large;
        keep_conn = st.keep_conn;
        id = st.id;
      }))
  | err e ↦ err (bad_params e)
]

-- The content of a record with its padding, cut to its length, and the bytes behind it.
pub read_content : Header → List ℕ → Result Error (List ℕ × List ℕ)
read_content h bytes =
    if not (h.version_byte == version)
    then err (bad_version h.version_byte)
    else if ltb (length bytes) (h.len + h.padding)
    then err body_unreadable
    else ok (take h.len bytes, drop (h.len + h.padding) bytes)

-- The loop. The bytes that a request leaves behind are the next request's.
unfoldable pub read_loop : ℕ → ℕ → Ending → List ℕ → State → Result Error (Option Request) × List ℕ
read_loop zero body_cap ending bytes st = (err unfinished, bytes)
read_loop (suc fuel) body_cap ending bytes st = elim (split_header bytes) [
  | none ↦ (header_missing ending st.begun, [])
  | some (h, behind) ↦ elim (read_content h behind) [
    | err e ↦ (err e, [])
    | ok (content, rest) ↦ elim (handle_record body_cap h content st) [
      | more st' ↦ read_loop fuel body_cap ending rest st'
      | finished st' ↦ (finish st', rest)
      | failed e ↦ (err e, rest)
    ]
  ]
]

-- A record takes eight bytes or more, so one round more than the bytes is fuel enough.
unfoldable pub read_request : ℕ → Peer → Result Error (Option Request) × List ℕ
unfolding read_loop
read_request body_cap peer = read_loop (length peer.sent + 1) body_cap peer.ending peer.sent start
