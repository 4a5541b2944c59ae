-- ===== src/Fcgi/Reader/RoundTrip.antt =====
-- A request that a front-end sends in records is read back, whole.
use kyriakon_infra.Base.{
  ℕ, [], true, false, Bool, List, ◌<◌, ◌∷◌, if◌then◌else◌, length, All, ltb, ◌++◌, ◌≤◌, ◌+◌, ◌≡◌,
  arith, Bool-cases, length-append, refl, ge→ltb, inl, inr, ◌∙◌, ap, ok, some,
}
use kyriakon_infra.Fcgi.Reader.Packets.{feed, Packet, PacketFits, wire, read_loop-wire, answer}
use kyriakon_infra.Fcgi.Reader.{
  handle_record, State, stdin_record, params_record, more, read_request, start, Ending, finished,
  finish, begin_record, Request,
}
use kyriakon_infra.Fcgi.Wire.{begin_request, params_kind, stdin, max_params_value}
use mathlib.Core.List.{append-nil, append_assoc}
use kyriakon_infra.Fcgi.Params.RoundTrip.{Pair, encode, PairFits, collect, params-collect}
use kyriakon_infra.Fcgi.Params.{Env}

abbrev pub chunk_packet : ℕ → ℕ → List ℕ → Packet
chunk_packet kind id content = record { kind = kind; id = id; content = content; padding = [] }

-- A request as a front-end sends it: its id, the flag that keeps the connection, the parameters in
-- pieces, and the body in pieces, which are not empty.
pub record Sent : Type 0 where
  pub id : ℕ
  pub keep : Bool
  pub params_pieces : List (List ℕ)
  pub body_pieces : List (List ℕ)

abbrev pub flag_byte : Bool → ℕ
flag_byte keep = if keep then 1 else 0

abbrev begin_packet : Sent → Packet
begin_packet r = chunk_packet begin_request r.id (0 ∷ 1 ∷ flag_byte r.keep ∷ 0 ∷ 0 ∷ 0 ∷ 0 ∷ 0 ∷ [])

abbrev pub pieces : ℕ → ℕ → List (List ℕ) → List Packet → List Packet
pieces kind id [] rest = rest
pieces kind id (c ∷ cs) rest = chunk_packet kind id c ∷ pieces kind id cs rest

-- The records of a request; the parameters and the body each end with an empty one.
abbrev pub packets : Sent → List Packet → List Packet
packets r rest =
    begin_packet r
    ∷ pieces params_kind r.id r.params_pieces (
        chunk_packet params_kind r.id []
        ∷ pieces stdin r.id r.body_pieces (chunk_packet stdin r.id [] ∷ rest))

abbrev pub joined : List (List ℕ) → List ℕ
joined [] = []
joined (c ∷ cs) = c ++ joined cs

abbrev pub IsPiece : List ℕ → Type 0
IsPiece c = (0 < length c) × (length c < 65536)

pub record SentFits (r : Sent) : Type 0 where
  pub id : r.id < 65536
  pub params_pieces : All IsPiece r.params_pieces
  pub body_pieces : All IsPiece r.body_pieces
  pub params_total : length (joined r.params_pieces) ≤ 65536

-- The loop's variables once the request has begun.
abbrev reading : List ℕ → List ℕ → Bool → Bool → ℕ → State
reading env_buf body too_large keep id = record {
  env_buf = env_buf;
  body = body;
  body_too_large = too_large;
  keep_conn = keep;
  id = id;
  begun = true;
}

-- What the body becomes, piece by piece.
absorb : ℕ → List (List ℕ) → List ℕ → Bool → List ℕ × Bool
absorb body_cap [] body too_large = (body, too_large)
absorb body_cap (c ∷ cs) body too_large = elim (ltb body_cap (length body + length c)) [
  | true ↦ absorb body_cap cs body true
  | false ↦ absorb body_cap cs (body ++ c) too_large
]

params_record-fits :
    (content : List ℕ) (st : State)
    → length st.env_buf + length content ≤ 65536
    → params_record content st ≡ more (record st { env_buf = st.env_buf ++ content })
unfolding params_record
params_record-fits content st h = ground (arith, max_params_value)

feed-params :
    (body_cap i k : ℕ) (keep : Bool) (cs : List (List ℕ)) (rest : List Packet) (env_buf : List ℕ)
    → length env_buf + length (joined cs) ≤ 65536
    → feed body_cap (pieces params_kind i cs rest) (reading env_buf [] false keep k)
      ≡ feed body_cap rest (reading (env_buf ++ joined cs) [] false keep k)
unfolding feed handle_record
feed-params body_cap i k keep [] rest env_buf h = rw append-nil
feed-params body_cap i k keep (c ∷ cs) rest env_buf h =
    rw
      (
        params_record-fits c (reading env_buf [] false keep k)
            (omega (arith, length-append c (joined cs))),
        feed,
      )
      (rw (← append_assoc env_buf c (joined cs)) (
        feed-params body_cap i k keep cs rest (env_buf ++ c)
          (omega (arith, length-append c (joined cs), length-append env_buf c))))

feed-body :
    (body_cap i k : ℕ) (keep : Bool) (cs : List (List ℕ)) (rest : List Packet)
    (env_buf body : List ℕ) (too_large : Bool)
    → All IsPiece cs
    → feed body_cap (pieces stdin i cs rest) (reading env_buf body too_large keep k)
      ≡ feed body_cap rest (
          reading env_buf
            (absorb body_cap cs body too_large).0
            (absorb body_cap cs body too_large).1
            keep
            k)
unfolding feed handle_record stdin_record absorb
feed-body body_cap i k keep [] rest env_buf body too_large h = refl
feed-body body_cap i k keep ([] ∷ cs) rest env_buf body too_large h = absurd (omega arith)
feed-body body_cap i k keep ((b ∷ bs) ∷ cs) rest env_buf body too_large h =
    elim (Bool-cases (ltb body_cap (length body + length (b ∷ bs)))) [
      | inl over ↦
          rw (over, feed, absorb) (feed-body body_cap i k keep cs rest env_buf body true h.1)
      | inr fits ↦
          rw (fits, feed, absorb)
            (feed-body body_cap i k keep cs rest env_buf (body ++ b ∷ bs) too_large h.1)
    ]

-- The flag says exactly whether the body is over the cap, and a body that is not is kept whole.
absorb_fits :
    (body_cap : ℕ) (cs : List (List ℕ)) (body : List ℕ) (too_large : Bool)
    → length body + length (joined cs) ≤ body_cap
    → absorb body_cap cs body too_large ≡ (body ++ joined cs, too_large)
unfolding absorb
absorb_fits body_cap [] body too_large h = rw append-nil
absorb_fits body_cap (c ∷ cs) body too_large h =
    rw
      (
        ge→ltb body_cap (length body + length c) (omega (arith, length-append c (joined cs))),
        absorb,
      )
      (rw (← append_assoc body c (joined cs)) (
        absorb_fits body_cap cs (body ++ c) too_large
          (omega (arith, length-append c (joined cs), length-append body c))))

absorb_stays :
    (body_cap : ℕ) (cs : List (List ℕ)) (body : List ℕ) → (absorb body_cap cs body true).1 ≡ true
unfolding absorb
absorb_stays body_cap [] body = refl
absorb_stays body_cap (c ∷ cs) body =
    ground (arith, absorb_stays body_cap cs body, absorb_stays body_cap cs (body ++ c))

absorb_over :
    (body_cap : ℕ) (cs : List (List ℕ)) (body : List ℕ) (too_large : Bool)
    → length body ≤ body_cap
    → body_cap < length body + length (joined cs)
    → (absorb body_cap cs body too_large).1 ≡ true
unfolding absorb
absorb_over body_cap [] body too_large fits h = absurd (omega arith)
absorb_over body_cap (c ∷ cs) body too_large fits h = ground (
  arith,
  absorb_stays body_cap cs body,
  absorb_over body_cap cs (body ++ c) too_large,
  length-append c (joined cs),
  length-append body c,
)

feed-params_end :
    (body_cap i k : ℕ) (keep : Bool) (rest : List Packet) (env_buf : List ℕ)
    → length env_buf ≤ 65536
    → feed body_cap (chunk_packet params_kind i [] ∷ rest) (reading env_buf [] false keep k)
      ≡ feed body_cap rest (reading env_buf [] false keep k)
feed-params_end body_cap i k keep rest env_buf h =
    feed-params body_cap i k keep ([] ∷ []) rest env_buf (omega arith) ∙ rw append-nil

feed-packets :
    (body_cap : ℕ) (r : Sent) (rest : List Packet)
    → SentFits r
    → let (body, too_large) = absorb body_cap r.body_pieces [] false in
      feed body_cap (packets r rest) start
      ≡ (finished (reading (joined r.params_pieces) body too_large r.keep r.id), rest)
feed-packets body_cap r rest fits =
    begun r.keep
    ∙ feed-params body_cap r.id r.id r.keep r.params_pieces _ [] (omega (arith, fits.params_total))
    ∙ feed-params_end body_cap r.id r.id r.keep _ (joined r.params_pieces) fits.params_total
    ∙ feed-body body_cap r.id r.id r.keep r.body_pieces _ (joined r.params_pieces) [] false
        fits.body_pieces
    ∙ (unfold feed handle_record stdin_record in refl)
  where
    begun :
        (keep : Bool)
        → feed body_cap
            (packets
              (record {
                id = r.id;
                keep = keep;
                params_pieces = r.params_pieces;
                body_pieces = r.body_pieces;
              })
              rest)
            start
          ≡ feed body_cap
              (pieces params_kind r.id r.params_pieces (
                chunk_packet params_kind r.id []
                ∷ pieces stdin r.id r.body_pieces (chunk_packet stdin r.id [] ∷ rest)))
              (reading [] [] false keep r.id)
    begun true = unfold feed handle_record begin_record in refl
    begun false = unfold feed handle_record begin_record in refl

pieces-PacketFits :
    (kind id : ℕ) (cs : List (List ℕ)) (rest : List Packet)
    → id < 65536
    → All IsPiece cs
    → All PacketFits rest
    → All PacketFits (pieces kind id cs rest)
pieces-PacketFits kind id [] rest h hs hr = hr
pieces-PacketFits kind id (c ∷ cs) rest h hs hr =
    ((h, hs.0.1, omega arith), pieces-PacketFits kind id cs rest h hs.1 hr)

packets-PacketFits :
    (r : Sent) (rest : List Packet)
    → SentFits r
    → All PacketFits rest
    → All PacketFits (packets r rest)
packets-PacketFits r rest fits hr = (
  (fits.id, omega arith, omega arith),
  pieces-PacketFits params_kind r.id r.params_pieces _ fits.id fits.params_pieces (
    (fits.id, omega arith, omega arith),
    pieces-PacketFits stdin r.id r.body_pieces _ fits.id fits.body_pieces
        ((fits.id, omega arith, omega arith), hr),
  ),
)

length-wire : (ps : List Packet) → length ps ≤ length (wire ps)
length-wire [] = omega arith
length-wire (p ∷ ps) = omega (
  arith,
  length-wire ps,
  length-append p.content (p.padding ++ wire ps),
  length-append p.padding (wire ps),
)

-- The whole of a well-formed request, up to how its body fits.
read_request-packets :
    (body_cap : ℕ) (ending : Ending) (r : Sent) (rest : List Packet)
    → SentFits r
    → All PacketFits rest
    → let (body, too_large) = absorb body_cap r.body_pieces [] false in
      read_request body_cap (record { sent = wire (packets r rest); ending = ending })
      ≡ (finish (reading (joined r.params_pieces) body too_large r.keep r.id), wire rest)
unfolding read_request
read_request-packets body_cap ending r rest fits hr =
    read_loop-wire (packets r rest) _ body_cap ending start (packets-PacketFits r rest fits hr)
      (omega (arith, length-wire (packets r rest)))
    ∙ ap (answer ending) (feed-packets body_cap r rest fits)

abbrev pub received : Sent → Env → List ℕ → Bool → Request
received r env body too_large = record {
  env = env;
  body = body;
  body_too_large = too_large;
  keep_conn = r.keep;
  id = r.id;
}

finish-encode :
    (r : Sent) (ps : List Pair) (body : List ℕ) (too_large : Bool)
    → joined r.params_pieces ≡ encode ps
    → All PairFits ps
    → finish (reading (joined r.params_pieces) body too_large r.keep r.id)
      ≡ ok (some (received r (collect [] ps) body too_large))
unfolding finish
finish-encode r ps body too_large e h = rw e (rw (params-collect ps h, finish))

-- A request whose ids and pieces fit their records, whose parameters encode `ps` in at most 65536
-- bytes and whose body is within the cap is read back: its parameters, its body joined, its flag and
-- its id, and the bytes behind it are left for the next request.
pub request_read_back :
    (body_cap : ℕ) (ending : Ending) (r : Sent) (ps : List Pair) (rest : List Packet)
    → SentFits r
    → All PacketFits rest
    → joined r.params_pieces ≡ encode ps
    → All PairFits ps
    → length (joined r.body_pieces) ≤ body_cap
    → read_request body_cap (record { sent = wire (packets r rest); ending = ending })
      ≡ (ok (some (received r (collect [] ps) (joined r.body_pieces) false)), wire rest)
request_read_back body_cap ending r ps rest fits hr e h within =
    read_request-packets body_cap ending r rest fits hr
    ∙ rw (absorb_fits body_cap r.body_pieces [] false (omega arith))
        (rw (finish-encode r ps (joined r.body_pieces) false e h))

-- A request as a front-end sends it, whose ids and pieces fit their records and whose parameters encode
-- `ps`, but with a body over the cap, is read to its end too: it is answered with the flag
-- `body_too_large`, its parameters and its id, and the bytes behind it are left.
pub oversized_request_flagged :
    (body_cap : ℕ) (ending : Ending) (r : Sent) (ps : List Pair) (rest : List Packet)
    → SentFits r
    → All PacketFits rest
    → joined r.params_pieces ≡ encode ps
    → All PairFits ps
    → body_cap < length (joined r.body_pieces)
    → (body : List ℕ) × (read_request body_cap
          (record { sent = wire (packets r rest); ending = ending })
        ≡ (ok (some (received r (collect [] ps) body true)), wire rest))
oversized_request_flagged body_cap ending r ps rest fits hr e h over = (
  (absorb body_cap r.body_pieces [] false).0,
  read_request-packets body_cap ending r rest fits hr
      ∙ rw (absorb_over body_cap r.body_pieces [] false (omega arith) (omega arith))
          (rw (finish-encode r ps (absorb body_cap r.body_pieces [] false).0 true e h)),
)
