-- ===== src/Receiver/Reassembly/Damaged.antt =====
-- src/packet_implem.c, `pkt_decode`, where the receiver calls it: datagrams with a damaged header.
use trtp_network.Prelude.{
  false, length-append, ℕ, ◌/◌, ◌%◌, ◌≤◌, ◌<◌, ◌≡◌, ◌≢◌, refl, sym, ap, ◌∙◌, List, ◌∷◌, ◌++◌, Bool,
  some, arith, length, drop, inl, inr,
}
use trtp_network.Packet.{Pkt, Status, e_type, e_crc}
use trtp_network.Codec.{Zlib, Endian, calculate_crc32, from_net, from_host, pkt_decode}
use trtp_network.Codec.Decode.{
  with_first, with_stamp, pkt_decode-first, pkt_decode-mistyped, decode_length-fits,
  decode_body-corrupt,
}
use trtp_network.Codec.Limits.{Header, header_cells, typed_cases}
use trtp_network.Build.{Machine, overwrite}
use trtp_network.Build.Wire.{overwrite_lem}
use trtp_network.Receiver.Steps.{is_ok}
use trtp_network.Receiver.Reassembly.Rejected.{IsRejected}

-- A datagram with a whole header, a length field of at most 512, and a CRC1 that is not the one of its
-- first eight bytes.
pub record IsDamaged (z : Zlib) (bytes : List ℕ) : Type 0 where
  pub whole : 12 ≤ length bytes
  pub fits : length bytes ≤ 512
  pub byte : (header_cells bytes whole).first < 256
  pub short : from_net (header_cells bytes whole).raw ≤ 512
  pub differs :
      calculate_crc32 z (header_cells bytes whole).eight ≢ from_net (header_cells bytes whole).crc

-- The cells of the header stay when more bytes follow.
header-append :
    (bytes rest : List ℕ) (whole : 12 ≤ length bytes) (more : 12 ≤ length (bytes ++ rest))
    → ((header_cells (bytes ++ rest) more).first ≡ (header_cells bytes whole).first)
      × ((header_cells (bytes ++ rest) more).raw ≡ (header_cells bytes whole).raw)
      × ((header_cells (bytes ++ rest) more).eight ≡ (header_cells bytes whole).eight)
      × ((header_cells (bytes ++ rest) more).crc ≡ (header_cells bytes whole).crc)
unfolding header_cells
header-append (a ∷ b ∷ c ∷ d ∷ f ∷ g ∷ h ∷ i ∷ j ∷ k ∷ l ∷ m ∷ bytes) rest whole more =
    (refl, refl, refl, refl)
header-append _ rest whole more = absurd (omega arith)

module _ (z : Zlib) (e : Endian) (room : Bool) (bytes : List ℕ) (whole : 12 ≤ length bytes)
    (q : Pkt) where
  abbrev h : Header bytes
  h = header_cells bytes whole

  corrupt :
      h.first < 256
      → from_net h.raw ≤ 512
      → calculate_crc32 z h.eight ≢ from_net h.crc
      → (d : Status × Pkt) × (pkt_decode z e room bytes 512 q ≡ some d) × (is_ok d.0 ≡ false)
  corrupt byte short differs = elim (typed_cases h.first) [
    | inl bad ↦ (
      (e_type, record q { type = h.first / 64; tr = h.first / 32 % 2 }),
      pkt_decode-mistyped z e room bytes 512 h.first q h.at0 byte (omega arith) bad,
      refl,
    )
    | inr good ↦ (
      (
        e_crc,
        with_stamp (record (with_first q h.first) { length_field = from_net h.raw }) h.seq
            (from_host e h.stamp) (from_net h.crc),
      ),
      pkt_decode-first z e room bytes 512 h.first q h.at0 byte (omega arith) good
          ∙ decode_length-fits z e room bytes h.raw (with_first q h.first) h.at1 short
          ∙ decode_body-corrupt z e room bytes h.seq h.stamp h.eight h.crc
              (record (with_first q h.first) { length_field = from_net h.raw }) h.at3 h.at4 h.at08
              h.at8 differs,
      refl,
    )
  ]

-- The receiver refuses every datagram whose header was damaged so that CRC1 does not match, whatever
-- its buffer held before.
pub damaged-IsRejected :
    (m : Machine) (bytes : List ℕ) → IsDamaged m.zlib bytes → IsRejected m bytes
damaged-IsRejected m bytes d room buf q sized =
    let rest : List ℕ = drop (length bytes) buf in
    let more : 12 ≤ length (bytes ++ rest) = omega (arith, length-append bytes rest, d.whole) in
    let same = header-append bytes rest d.whole more in
    let o =
      corrupt m.zlib m.endian room (bytes ++ rest) more q (rw same.0 d.byte) (rw same.1 d.short)
        (λ e. d.differs (ap (calculate_crc32 m.zlib) (sym same.2) ∙ e ∙ ap from_net same.3)) in
    (o.0, ap (λ b. pkt_decode m.zlib m.endian room b 512 q) at ∙ o.1, o.2)
  where
    at : overwrite buf bytes ≡ bytes ++ drop (length bytes) buf
    at = overwrite_lem buf bytes (omega (arith, sized, d.fits))
