-- ===== src/Fcgi/Tests.antt =====
-- Requests and replies as a front-end sees them (onboard/src/fcgi.rs).
use kyriakon_infra.Base.{
  ℕ, List, [], ◌∷◌, All, true, arith, ◌≢◌, ◌≡◌, some, err, ok, false, refl, ◌<◌, length, none,
}
use kyriakon_infra.Fcgi.Reader.{read_loop, read_request, broken, closed, start, header_missing}
use kyriakon_infra.Fcgi.Reply.{reply_bytes, gemini, head}
use kyriakon_infra.Fcgi.Reader.RoundTrip.{
  SentFits, Sent, chunk_packet, packets, pieces, received, oversized_request_flagged,
  request_read_back, joined, IsPiece,
}
use kyriakon_infra.Fcgi.Params.RoundTrip.{
  Pair, last_sent, collect, short, encode, long, params-encode,
}
use kyriakon_infra.Fcgi.Reader.Bounds.{IsSound, read_request-IsSound}
use kyriakon_infra.Fcgi.Reader.Packets.{Packet, PacketFits, wire, answer, feed, read_loop-wire}
use kyriakon_infra.Fcgi.Params.{Env, lookup, params, unfinished}
use kyriakon_infra.Fcgi.Wire.{stdout, end_request, split_header}
use kyriakon_infra.Fcgi.Params.Total.{params-ne-unfinished}
use kyriakon_infra.Fcgi.Reply.Framing.{reply_framed}

abbrev pair : Pair
pair = record { name_width = short; name = 65 ∷ []; value_width = long; value = 98 ∷ 99 ∷ [] }

-- The same name sent twice: the second value stays.
abbrev pairs : List Pair
pairs =
    pair ∷ record { name_width = short; name = 65 ∷ []; value_width = short; value = 100 ∷ [] } ∷ []

params-encode_example :
    (env : Env) × ((params (encode pairs) ≡ ok env)
      × ((name : List ℕ) → lookup name env ≡ last_sent name pairs))
params-encode_example =
    params-encode pairs ((omega arith, omega arith), ((omega arith, omega arith), tt))

params-ne-unfinished_test : params (1 ∷ 128 ∷ 0 ∷ []) ≢ err unfinished
params-ne-unfinished_test = params-ne-unfinished (1 ∷ 128 ∷ 0 ∷ [])

abbrev sent : Sent
sent = record {
  id = 258;
  keep = true;
  params_pieces = encode (pair ∷ []) ∷ [];
  body_pieces = (7 ∷ 8 ∷ []) ∷ (9 ∷ []) ∷ [];
}

sent-SentFits : SentFits sent
sent-SentFits = record {
  id = omega arith;
  params_pieces = ((omega arith, omega arith), tt);
  body_pieces = ((omega arith, omega arith), ((omega arith, omega arith), tt));
  params_total = omega arith;
}

-- A second request begins behind the first.
abbrev next : List Packet
next = chunk_packet 1 3 (0 ∷ 1 ∷ 0 ∷ 0 ∷ 0 ∷ 0 ∷ 0 ∷ 0 ∷ []) ∷ []

next-PacketFits : All PacketFits next
next-PacketFits = ((omega arith, omega arith, omega arith), tt)

request_read_back_example :
    read_request 3 (record { sent = wire (packets sent next); ending = closed })
    ≡ (ok (some (received sent (collect [] (pair ∷ [])) (7 ∷ 8 ∷ 9 ∷ []) false)), wire next)
request_read_back_example =
    request_read_back 3 closed sent (pair ∷ []) next sent-SentFits next-PacketFits refl
      ((omega arith, omega arith), tt) (omega arith)

oversized_request_flagged_test :
    (body : List ℕ) × (read_request 2 (record { sent = wire (packets sent next); ending = broken })
      ≡ (ok (some (received sent (collect [] (pair ∷ [])) body true)), wire next))
oversized_request_flagged_test =
    oversized_request_flagged 2 broken sent (pair ∷ []) next sent-SentFits next-PacketFits refl
      ((omega arith, omega arith), tt) (omega arith)

read_loop-wire_test : read_loop 3 9 closed (wire next) start ≡ answer closed (feed 9 next start)
read_loop-wire_test = read_loop-wire next 3 9 closed start next-PacketFits (omega arith)

-- A header that stops in its middle.
read_request-IsSound_example :
    IsSound 10 (read_request 10 (record { sent = 1 ∷ 1 ∷ 0 ∷ []; ending = broken })).0
read_request-IsSound_example =
    read_request-IsSound 10 (record { sent = 1 ∷ 1 ∷ 0 ∷ []; ending = broken })

reply_framed_test :
    (cs : List (List ℕ)) × (reply_bytes (gemini 20 (97 ∷ []) (98 ∷ [])) 1
      ≡ wire (
          pieces stdout 1 cs
            (chunk_packet end_request 1 (0 ∷ 0 ∷ 0 ∷ 0 ∷ 0 ∷ 0 ∷ 0 ∷ 0 ∷ []) ∷ [])))
    × (joined cs ≡ head (gemini 20 (97 ∷ []) (98 ∷ [])))
    × All IsPiece cs
    × (0 < length cs)
reply_framed_test = reply_framed (gemini 20 (97 ∷ []) (98 ∷ [])) 1

-- A peer that closes inside the first header is taken for one that closed between requests.
cut_header : read_request 10 (record { sent = 1 ∷ 1 ∷ 0 ∷ []; ending = closed }) ≡ (ok none, [])
unfolding read_request read_loop split_header header_missing
cut_header = refl
