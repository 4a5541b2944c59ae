-- ===== src/Fcgi/Reply/Framing.antt =====
-- The records of a reply carry the whole of it, and both front-ends can read them.
use kyriakon_infra.Base.{
  ℕ, [], refl, List, ◌∷◌, ◌<◌, All, ◌≡◌, length, ◌++◌, ◌≤◌, arith, suc, ◌%◌, length-take, drop,
  length-drop, ◌∙◌, length-append, zero, take-append-drop, sym, ap,
}
use kyriakon_infra.Fcgi.Reply.{
  push_record, reply_bytes, chunks, push_chunks, head, Reply, http, gemini, decimal,
}
use kyriakon_infra.Fcgi.Reader.Packets.{Packet, wire}
use kyriakon_infra.Fcgi.Reader.RoundTrip.{IsPiece, pieces, joined, chunk_packet}
use kyriakon_infra.Fcgi.Wire.{stdout, end_request, max_content, max_content_value}
use mathlib.Core.List.{append_assoc, append-nil}

abbrev zeros : List ℕ
zeros = 0 ∷ 0 ∷ 0 ∷ 0 ∷ 0 ∷ 0 ∷ 0 ∷ 0 ∷ []

chunks-joined :
    (fuel size : ℕ) (content : List ℕ)
    → 0 < size
    → length content ≤ fuel
    → joined (chunks fuel size content) ≡ content
unfolding chunks
chunks-joined fuel size [] hs hf = refl
chunks-joined zero size (b ∷ bs) hs hf = absurd (omega arith)
chunks-joined (suc fuel) size (b ∷ bs) hs hf =
    rw (chunks-joined fuel size (drop size (b ∷ bs)) hs (omega (arith, length-drop size (b ∷ bs))))
      (take-append-drop size (b ∷ bs))

chunks-IsPiece :
    (fuel size : ℕ) (content : List ℕ)
    → 0 < size
    → size < 65536
    → All IsPiece (chunks fuel size content)
unfolding chunks
chunks-IsPiece fuel size [] hs hm = tt
chunks-IsPiece zero size (b ∷ bs) hs hm = tt
chunks-IsPiece (suc fuel) size (b ∷ bs) hs hm = (
  (omega (arith, length-take size (b ∷ bs)), omega (arith, length-take size (b ∷ bs))),
  chunks-IsPiece fuel size (drop size (b ∷ bs)) hs hm,
)

push_record-wire :
    (out : List ℕ) (kind id : ℕ) (content : List ℕ) (rest : List Packet)
    → length content < 65536
    → push_record out kind id content ++ wire rest
      ≡ out ++ wire (chunk_packet kind id content ∷ rest)
unfolding push_record
push_record-wire out kind id content rest h =
    let fits : length content % 65536 ≡ length content = omega arith in
    rw fits (append_assoc out _ (wire rest))

push_chunks-wire :
    (cs : List (List ℕ)) (out : List ℕ) (id : ℕ) (rest : List Packet)
    → All IsPiece cs
    → push_chunks out id cs ++ wire rest ≡ out ++ wire (pieces stdout id cs rest)
unfolding push_chunks
push_chunks-wire [] out id rest h = refl
push_chunks-wire (c ∷ cs) out id rest h =
    push_chunks-wire cs (push_record out stdout id c) id rest h.1
    ∙ push_record-wire out stdout id c (pieces stdout id cs rest) h.0.1

head_nonempty : (reply : Reply) → 0 < length (head reply)
unfolding head
head_nonempty (http h) = omega arith
head_nonempty (gemini status meta body) =
    omega (arith, length-append (decimal status) (32 ∷ (meta ++ (13 ∷ 10 ∷ body))))

-- For every reply and id the bytes are `FCGI_STDOUT` records, each with 1 to 65535 bytes of content
-- and the id that was asked, whose contents joined are the reply, at least one of them, and then
-- one `FCGI_END_REQUEST` record of eight zero bytes.
pub reply_framed :
    (reply : Reply) (id : ℕ)
    → (cs : List (List ℕ)) × (reply_bytes reply id
        ≡ wire (pieces stdout id cs (chunk_packet end_request id zeros ∷ [])))
      × (joined cs ≡ head reply)
      × All IsPiece cs
      × (0 < length cs)
unfolding reply_bytes
reply_framed reply id = (
  chunks (length (head reply)) max_content (head reply),
  bytes,
  whole,
  fits,
  some_chunk (chunks (length (head reply)) max_content (head reply)) whole,
)
  where
    fits : All IsPiece (chunks (length (head reply)) max_content (head reply))
    fits =
        chunks-IsPiece _ max_content (head reply) (omega (arith, max_content_value))
          (omega (arith, max_content_value))

    whole : joined (chunks (length (head reply)) max_content (head reply)) ≡ head reply
    whole =
        chunks-joined _ max_content (head reply) (omega (arith, max_content_value)) (omega arith)

    bytes :
        reply_bytes reply id
        ≡ wire (
            pieces stdout id
              (chunks (length (head reply)) max_content (head reply))
              (chunk_packet end_request id zeros ∷ []))
    bytes =
        sym (append-nil (reply_bytes reply id))
        ∙ push_record-wire _ end_request id zeros [] (omega arith)
        ∙ push_chunks-wire _ [] id (chunk_packet end_request id zeros ∷ []) fits

    some_chunk : (cs : List (List ℕ)) → joined cs ≡ head reply → 0 < length cs
    some_chunk [] e = absurd (omega (arith, head_nonempty reply, ap length e))
    some_chunk (c ∷ cs) e = omega arith
