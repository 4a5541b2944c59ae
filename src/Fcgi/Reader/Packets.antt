-- ===== src/Fcgi/Reader/Packets.antt =====
-- The reader on the bytes refines a machine on records: `wire` writes records as a front-end does,
-- and `feed` hands them to `handle_record` one by one.
use kyriakon_infra.Base.{
  ℕ, zero, suc, ◌+◌, ◌/◌, ◌%◌, ◌<◌, ◌≡◌, List, [], ◌∷◌, ◌++◌, arith, length, Result, ok, err,
  Option, drop, All, some, drop-append_length, length-append, ltb, false, take-append_length, refl,
}
use kyriakon_infra.Fcgi.Wire.{Header, split_header}
use kyriakon_infra.Fcgi.Reader.{
  State, Outcome, more, finished, failed, handle_record, read_content, read_loop, Ending, Error,
  Request, finish, header_missing,
}
use mathlib.Core.List.{append_assoc}

pub record Packet : Type 0 where
  pub kind : ℕ
  pub id : ℕ
  pub content : List ℕ
  pub padding : List ℕ

abbrev pub header_of : Packet → Header
header_of p = record {
  version_byte = 1;
  kind = p.kind;
  record_id = p.id;
  len = length p.content;
  padding = length p.padding;
}

-- The lengths that the header's fields can carry.
abbrev pub PacketFits : Packet → Type 0
PacketFits p = (p.id < 65536) × (length p.content < 65536) × (length p.padding < 256)

abbrev pub wire : List Packet → List ℕ
wire [] = []
wire (p ∷ ps) =
    1
    ∷ p.kind
    ∷ p.id / 256
    ∷ p.id % 256
    ∷ length p.content / 256
    ∷ length p.content % 256
    ∷ length p.padding
    ∷ 0
    ∷ (p.content ++ (p.padding ++ wire ps))

-- The machine on records: how it ends, and the records that it did not look at.
unfoldable pub feed : ℕ → List Packet → State → Outcome × List Packet
feed body_cap [] st = (more st, [])
feed body_cap (p ∷ ps) st = elim (handle_record body_cap (header_of p) p.content st) [
  | more st' ↦ feed body_cap ps st'
  | finished st' ↦ (finished st', ps)
  | failed e ↦ (failed e, ps)
]

-- What the reader answers for an end of the machine.
abbrev pub answer : Ending → Outcome × List Packet → Result Error (Option Request) × List ℕ
answer ending (more st, left) = (header_missing ending st.begun, [])
answer ending (finished st, left) = (finish st, wire left)
answer ending (failed e, left) = (err e, wire left)

read_content-wire :
    (p : Packet) (rest : List ℕ)
    → read_content (header_of p) (p.content ++ (p.padding ++ rest)) ≡ ok (p.content, rest)
unfolding read_content
read_content-wire p rest =
    let fits : ltb (length (p.content ++ (p.padding ++ rest))) (length p.content + length p.padding)
        ≡ false =
      ground (arith, length-append p.content (p.padding ++ rest), length-append p.padding rest) in
    rw fits (rw (take-append_length p.content (p.padding ++ rest) _ refl) (rw (behind) refl))
  where
    behind : drop (length p.content + length p.padding) (p.content ++ (p.padding ++ rest)) ≡ rest
    behind = rw (← append_assoc p.content p.padding rest) (
        drop-append_length (p.content ++ p.padding) rest _
          (omega (arith, length-append p.content p.padding)))

split_header-wire :
    (p : Packet) (ps : List Packet)
    → PacketFits p
    → split_header (wire (p ∷ ps)) ≡ some (header_of p, p.content ++ (p.padding ++ wire ps))
unfolding split_header
split_header-wire p ps h = ground arith

-- On the bytes of any records whose lengths fit their headers, the reader does what the machine on
-- records does, whatever the records are.
pub read_loop-wire :
    (ps : List Packet) (fuel body_cap : ℕ) (ending : Ending) (st : State)
    → All PacketFits ps
    → length ps < fuel
    → read_loop fuel body_cap ending (wire ps) st ≡ answer ending (feed body_cap ps st)
unfolding read_loop feed
read_loop-wire [] zero body_cap ending st h hf = absurd (omega arith)
read_loop-wire [] (suc fuel) body_cap ending st h hf = unfold split_header in refl
read_loop-wire (p ∷ ps) zero body_cap ending st h hf = absurd (omega arith)
read_loop-wire (p ∷ ps) (suc fuel) body_cap ending st h hf =
    rw (split_header-wire p ps h.0, read_loop)
      (rw (read_content-wire p (wire ps), read_loop)
        (go (λ st'. read_loop-wire ps fuel body_cap ending st' h.1 (omega arith))
          (handle_record body_cap (header_of p) p.content st)))
  where
    go :
        ((st' : State)
          → read_loop fuel body_cap ending (wire ps) st' ≡ answer ending (feed body_cap ps st'))
        → (o : Outcome)
        → ◌≡◌ {A = Result Error (Option Request) × List ℕ}
            (elim o [
              | more st' ↦ read_loop fuel body_cap ending (wire ps) st'
              | finished st' ↦ (finish st', wire ps)
              | failed e ↦ (err e, wire ps)
            ])
            (answer ending (elim o [
              | more st' ↦ feed body_cap ps st'
              | finished st' ↦ (finished st', ps)
              | failed e ↦ (failed e, ps)
            ]))
    go ih (more st') = ih st'
    go ih (finished st') = refl
    go ih (failed e) = refl
