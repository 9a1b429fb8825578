-- ===== src/Codec/Limits.antt =====
-- Where `pkt_encode` and `pkt_decode` stay inside their buffers, and where they do not.
mod Cells
unfoldable pub use Cells.{header_cells}
pub use Cells.{
  Returns, Any, NotLength, Header, IsBytes, length_of, stored_length, Nat-cases, typed_cases,
}
use Cells.{first_byte-lt, from_net-length_of}
use mathlib.Core.Path.{subst}
use mathlib.Core.Option.{some-injective}
use trtp_network.Prelude.{
  ℕ, ◌+◌, ◌*◌, ◌/◌, ◌%◌, ◌≤◌, ◌<◌, ◌≡◌, ◌≢◌, ◌⊎◌, inl, inr, refl, ◌∙◌, List, [], ◌∷◌, ◌++◌, Bool,
  Option, none, some, arith, length, ltb, get_elem?, load, if◌then◌else◌, drop, Bool-cases,
  Option-cases, lt→ltb, ltb→lt, ltb_false→le, load_past, load_self, store, length-store,
  length-append, length-drop, store_past, load-within,
}
use trtp_network.Packet.{Pkt, Status, e_length}
use trtp_network.Codec.{
  Zlib, calculate_crc32, Endian, from_net, net32, decode_payload, decode_body, decode_length,
  pkt_decode, encode_payload, pkt_encode,
}
use trtp_network.Codec.Encode.{HasPayload, pkt_encode-header, sealed_header, length-sealed_header}
use trtp_network.Codec.Decode.{
  with_first, IsMistyped, pkt_decode-first, pkt_decode-mistyped, decode_length-fits,
  decode_length-stale, decode_body-match, decode_body-corrupt, decode_payload-empty,
  decode_payload-match, decode_payload-corrupt,
}

module _ (z : Zlib) (e : Endian) (room : Bool) (bytes : List ℕ) where
  decode_payload-Returns :
      (p : Pkt)
      → p.length_field ≤ 512
      → 16 + p.length_field ≤ length bytes
      → Returns NotLength (decode_payload z e room bytes p)
  decode_payload-Returns p short fits = elim (Nat-cases p.length_field 0) [
    | inl empty ↦ rw (decode_payload-empty z e room bytes p empty) (λ h. cc)
    | inr full ↦
        let (body, at12, counted) = load-within bytes 12 p.length_field (omega arith) in
        let (crc, behind, _) = load-within bytes (12 + p.length_field) 4 (omega arith) in
        elim (Nat-cases (calculate_crc32 z body) (from_net crc)) [
          | inl same ↦
              rw
                (decode_payload-match z e room bytes body crc p (omega arith) (omega arith) at12
                  behind same)
                (λ h. cc)
          | inr differ ↦
              rw
                (decode_payload-corrupt z e room bytes body crc p (omega arith) (omega arith) at12
                  behind differ)
                (λ h. cc)
        ]
  ]

  module _ (h : Header bytes) where
    decode_body-Returns :
        (p : Pkt)
        → p.length_field ≤ 512
        → 16 + p.length_field ≤ length bytes
        → Returns NotLength (decode_body z e room bytes p)
    decode_body-Returns p short fits =
        elim (Nat-cases (calculate_crc32 z h.eight) (from_net h.crc)) [
          | inl same ↦
              rw
                (decode_body-match z e room bytes h.seq h.stamp h.eight h.crc p h.at3 h.at4 h.at08
                  h.at8 same)
                (decode_payload-Returns _ short fits)
          | inr differ ↦
              rw
                (decode_body-corrupt z e room bytes h.seq h.stamp h.eight h.crc p h.at3 h.at4 h.at08
                  h.at8 differ)
                (λ h. cc)
        ]

    decode_length-Returns :
        (p : Pkt)
        → p.length_field ≤ 512
        → 16 + stored_length bytes p ≤ length bytes
        → Returns NotLength (decode_length z e room bytes p)
    decode_length-Returns p short fits =
        let wire : from_net h.raw ≡ length_of bytes = from_net-length_of bytes h.raw h.at1 in
        elim (Bool-cases (ltb 512 (length_of bytes))) [
          | inl long ↦
              rw
                (decode_length-stale z e room bytes h.raw p h.at1 (omega (arith, ltb→lt _ _ long))
                  short)
                (decode_body-Returns p short (rw long at fits))
          | inr fine ↦
              rw
                (decode_length-fits z e room bytes h.raw p h.at1
                  (omega (arith, ltb_false→le _ _ fine)))
                (decode_body-Returns _ (omega (arith, ltb_false→le _ _ fine))
                  (rw (fine, ← wire) at fits))
        ]

  -- Into a packet whose old length is at most 512, `pkt_decode` stays inside any memory that
  -- holds the header, the payload and CRC2 of the length that it goes by; it then returns a status, which is
  -- never E_LENGTH, whatever the length field on the wire says.
  pub pkt_decode-Returns :
      (q : Pkt) (len : ℕ)
      → IsBytes bytes
      → q.length_field ≤ 512
      → 16 + stored_length bytes q ≤ length bytes
      → Returns NotLength (pkt_decode z e room bytes len q)
  pkt_decode-Returns q len ok short fits = elim (Bool-cases (ltb len 8)) [
    | inl tiny ↦ unfold pkt_decode in rw tiny (λ h. cc)
    | inr enough ↦
        let h : Header bytes = header_cells bytes (omega arith) in
        let byte : h.first < 256 = first_byte-lt bytes ok h.at0 in
        let room_for : 8 ≤ len = ltb_false→le _ _ enough in
        elim (typed_cases h.first) [
          | inl bad ↦
              rw (pkt_decode-mistyped z e room bytes len h.first q h.at0 byte room_for bad)
                (λ h. cc)
          | inr good ↦
              rw (pkt_decode-first z e room bytes len h.first q h.at0 byte room_for good)
                (decode_length-Returns h (with_first q h.first) short fits)
        ]
  ]

pub decode_payload_past :
    (z : Zlib) (e : Endian) (room : Bool) (bytes : List ℕ) (p : Pkt)
    → 0 < p.length_field
    → length bytes < 16 + p.length_field
    → decode_payload z e room bytes p ≡ none
unfolding decode_payload
decode_payload_past z e room bytes p full short =
    elim (Option-cases (load bytes 12 p.length_field)) [
      | inl past ↦ rw (lt→ltb 0 p.length_field full, past)
      | inr (body, at12) ↦ rw (
        lt→ltb 0 p.length_field full,
        at12,
        load_past bytes (12 + p.length_field) 4 (omega arith) (omega arith),
      )
    ]

encode_payload_past :
    (z : Zlib) (e : Endian) (p : Pkt) (body buf : List ℕ)
    → HasPayload p body
    → 0 < length body
    → length buf < 16 + length body
    → encode_payload z e p buf ≡ none
unfolding encode_payload
encode_payload_past z e p body buf has full short =
    rw (has.0, has.1 full, lt→ltb 0 (length body) full, load_self body)
      (elim (Option-cases (store buf 12 body)) [
        | inl past ↦ rw past
        | inr (b, at12) ↦ rw (
          at12,
          store_past b (12 + length body) (net32 (calculate_crc32 z body)) (omega arith)
              (omega (arith, length-store buf 12 body at12)),
        )
      ])

-- `pkt_encode` does not look at the room that its caller has: with less room than the datagram of a
-- packet with a payload takes, it writes past the end of the buffer instead of returning E_NOMEM.
pub pkt_encode-overflow :
    (z : Zlib) (e : Endian) (p : Pkt) (body buf : List ℕ)
    → HasPayload p body
    → 0 < length body
    → 12 ≤ length buf
    → length buf < 16 + length body
    → pkt_encode z e p buf ≡ none
pkt_encode-overflow z e p body buf has full header short =
    pkt_encode-header z e p buf header
    ∙ past (sealed_header z e p ++ drop 12 buf) (
        omega (
          arith,
          length-append (sealed_header z e p) (drop 12 buf),
          length-drop 12 buf,
          length-sealed_header z e p,
        ))
  where
    past : (b : List ℕ) → length b ≡ length buf → encode_payload z e p b ≡ none
    past b same = encode_payload_past z e p body b has full (omega arith)
