-- ===== src/Codec/RoundTrip.antt =====
-- What the receiver of a datagram of `pkt_encode` reads with `pkt_decode`.
use mathlib.Core.List.{append_assoc}
use trtp_network.Prelude.{
  true, ℕ, ◌+◌, ◌/◌, ◌%◌, ◌≤◌, ◌<◌, ◌≡◌, ◌⊎◌, refl, sym, ap, ◌∙◌, List, [], ◌∷◌, ◌++◌, Bool, some,
  arith, get_elem?, load, load-behind, length-append,
}
use trtp_network.Packet.{Pkt, Payload, pkt_ok, IsStored}
use trtp_network.Codec.{
  Zlib, calculate_crc32, Endian, little, big, from_net, from_host, net16, net32, host32,
  header_bytes, first_byte, decode_payload, pkt_decode,
}
use trtp_network.Codec.Bytes.{from_net-net16, from_net-net32, from_host-host32}
use trtp_network.Codec.Encode.{HasPayload, sealed_header, wire, length-sealed_header}
use trtp_network.Codec.Decode.{
  with_first, with_stamp, allocated, pkt_decode-first, decode_length-fits, decode_body-match,
  decode_payload-empty, decode_payload-match,
}

-- A packet as the protocol has it: its fields fit, only data is truncated, and the payload is short.
pub record IsSendable (p : Pkt) : Type 0 where
  pub stored : IsStored p
  pub typed : (p.tr ≡ 0) ⊎ (p.type ≡ 1)
  pub short : p.length_field ≤ 512

-- The fixed fields of a datagram, whatever follows the header.
abbrev HeaderFields : Zlib → Endian → Pkt → List ℕ → Type 0
HeaderFields z e p bytes =
    (get_elem? bytes 0 ≡ some (first_byte p))
    × (load bytes 1 2 ≡ some (net16 p.length_field))
    × (get_elem? bytes 3 ≡ some (p.seqnum % 256))
    × (load bytes 4 4 ≡ some (host32 e p.timestamp))
    × (load bytes 0 8 ≡ some (header_bytes e p))
    × (load bytes 8 4 ≡ some (net32 (calculate_crc32 z (header_bytes e p))))

header_fields :
    (z : Zlib) (e : Endian) (p : Pkt) (tail : List ℕ)
    → HeaderFields z e p (sealed_header z e p ++ tail)
unfolding load
header_fields z little p tail = (refl, refl, refl, refl, refl, refl)
header_fields z big p tail = (refl, refl, refl, refl, refl, refl)

first_byte_fields :
    (p : Pkt)
    → IsStored p
    → (first_byte p < 256)
      × (first_byte p / 64 ≡ p.type)
      × (first_byte p / 32 % 2 ≡ p.tr)
      × (first_byte p % 32 ≡ p.window)
first_byte_fields p s = omega arith

module _ (z : Zlib) (e : Endian) (room : Bool) where
  read_payload : List ℕ → Pkt → Payload
  read_payload [] q = q.payload
  read_payload (b ∷ bs) q = allocated room (b ∷ bs)

  read_crc2 : List ℕ → Pkt → ℕ
  read_crc2 [] q = q.crc2
  read_crc2 (b ∷ bs) q = calculate_crc32 z (b ∷ bs)

  -- The packet `p`, whose header is read into the fresh packet `q`.
  abbrev pub header_of : Pkt → Pkt → Pkt
  header_of p q = record p {
    crc1 = calculate_crc32 z (header_bytes e p);
    payload = q.payload;
    crc2 = q.crc2;
  }

  -- The packet `p` with the payload `body`, read into the fresh packet `q`.
  unfoldable pub received : Pkt → List ℕ → Pkt → Pkt
  unfolding read_payload read_crc2
  received p body q = record (header_of p q) {
    payload = read_payload body q;
    crc2 = read_crc2 body q;
  }

  module _ (p q : Pkt) (len : ℕ) (ok : IsSendable p) (enough : 8 ≤ len) where
    -- The header alone: what is left to do is the payload.
    pub pkt_decode-header :
        (tail : List ℕ)
        → pkt_decode z e room (sealed_header z e p ++ tail) len q
          ≡ decode_payload z e room (sealed_header z e p ++ tail) (header_of p q)
    pkt_decode-header tail =
        pkt_decode-first z e room bytes len f q at.0 fields.0 enough (omega arith)
        ∙ decode_length-fits z e room bytes (net16 p.length_field) (with_first q f) at.1
            (omega arith)
        ∙ decode_body-match z e room bytes (p.seqnum % 256) (host32 e p.timestamp)
            (header_bytes e p) (net32 crc) with_length at.2 at.3 at.4 at.5
            (sym (from_net-net32 crc (z.crc32-lt _ _)))
        ∙ ap (decode_payload z e room bytes) same
      where
        bytes : List ℕ
        bytes = sealed_header z e p ++ tail

        f : ℕ
        f = first_byte p

        crc : ℕ
        crc = calculate_crc32 z (header_bytes e p)

        at : HeaderFields z e p bytes
        at = header_fields z e p tail

        fields : (f < 256) × (f / 64 ≡ p.type) × (f / 32 % 2 ≡ p.tr) × (f % 32 ≡ p.window)
        fields = first_byte_fields p ok.stored

        with_length : Pkt
        with_length = record (with_first q f) { length_field = from_net (net16 p.length_field) }

        same :
            with_stamp with_length
              (p.seqnum % 256)
              (from_host e (host32 e p.timestamp))
              (from_net (net32 crc))
            ≡ header_of p q
        same = ground (
          arith,
          fields,
          from_net-net16 p.length_field,
          from_net-net32 crc (z.crc32-lt _ _),
          from_host-host32 e p.timestamp,
        )

    -- `pkt_decode` reads any memory that starts with the datagram of a sendable packet: it gives
    -- that packet back, with both checksums and, if there is memory for it, the payload.
    pub pkt_decode-wire :
        (body rest : List ℕ)
        → HasPayload p body
        → pkt_decode z e room (wire z e p body ++ rest) len q ≡ some (pkt_ok, received p body q)
    unfolding received
    pkt_decode-wire [] rest has =
        pkt_decode-header rest
        ∙ decode_payload-empty z e room (sealed_header z e p ++ rest) (header_of p q) has.0
    pkt_decode-wire (b ∷ bs) rest has =
        ap (λ m. pkt_decode z e room m len q) regroup
        ∙ pkt_decode-header tail
        ∙ decode_payload-match z e room bytes body (net32 crc) (header_of p q) (omega arith)
            (omega arith) at12 behind (sym whole)
        ∙ ap
            (λ n. some (pkt_ok, record (header_of p q) { payload = allocated room body; crc2 = n }))
            whole
      where
        body : List ℕ
        body = b ∷ bs

        crc : ℕ
        crc = calculate_crc32 z body

        tail : List ℕ
        tail = body ++ (net32 crc ++ rest)

        bytes : List ℕ
        bytes = sealed_header z e p ++ tail

        whole : from_net (net32 crc) ≡ crc
        whole = from_net-net32 crc (z.crc32-lt _ _)

        outer : bytes ≡ (sealed_header z e p ++ body) ++ (net32 crc ++ rest)
        outer = sym (append_assoc (sealed_header z e p) body (net32 crc ++ rest))

        regroup : wire z e p body ++ rest ≡ bytes
        regroup = append_assoc (sealed_header z e p ++ body) (net32 crc) rest ∙ sym outer

        at12 : load bytes 12 p.length_field ≡ some body
        at12 = rw outer (
            load-behind (sealed_header z e p) body (net32 crc ++ rest) (length-sealed_header z e p)
              (sym has.0))

        behind : load bytes (12 + p.length_field) 4 ≡ some (net32 crc)
        behind = rw (← regroup) (
            load-behind (sealed_header z e p ++ body) (net32 crc) rest
              (omega (arith, length-append (sealed_header z e p) body, length-sealed_header z e p))
              refl)

  -- What is received has the payload that was sent, if there is memory for it.
  pub received-HasPayload :
      (p q : Pkt) (body : List ℕ)
      → room ≡ true
      → HasPayload p body
      → HasPayload (received p body q) body
  unfolding received
  received-HasPayload p q [] roomy has = (has.0, λ h. absurd (omega arith))
  received-HasPayload p q (b ∷ bs) roomy has = (has.0, λ h. rw roomy)
