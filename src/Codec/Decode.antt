-- ===== src/Codec/Decode.antt =====
-- `pkt_decode` stage by stage: what each stage stores in the packet, and where it stops.
use trtp_network.Prelude.{
  ℕ, ◌+◌, ◌/◌, ◌%◌, ◌≤◌, ◌<◌, ◌≡◌, ◌≢◌, ◌⊎◌, inl, inr, List, Bool, false, some, arith, length, ltb,
  get_elem?, load, ==_self, le→ltb_false, lt→ltb, if◌then◌else◌,
}
use trtp_network.Packet.{
  Pkt, Payload, null, block, pkt_ok, e_type, e_length, e_crc, e_noheader, pkt_set_type, pkt_set_tr,
  pkt_set_window, pkt_set_seqnum, pkt_set_length, pkt_set_timestamp, pkt_set_crc1, pkt_set_crc2,
  pkt_set_payload,
}
use trtp_network.Codec.{
  Zlib, calculate_crc32, Endian, from_net, from_host, decode_payload, decode_body, decode_length,
  pkt_decode,
}
use trtp_network.Codec.Bytes.{masks}

-- The three fields of the first byte.
abbrev pub with_first : Pkt → ℕ → Pkt
with_first p b = record p { type = b / 64; tr = b / 32 % 2; window = b % 32 }

-- A header that truncation or its type forbids.
abbrev pub IsMistyped : ℕ → Type 0
IsMistyped b = (b / 32 % 2 ≢ 0) × (b / 64 ≢ 1)

abbrev pub with_stamp : Pkt → ℕ → ℕ → ℕ → Pkt
with_stamp p s ts crc = record p { seqnum = s; timestamp = ts; crc1 = crc }

mod-two : (n : ℕ) → (n % 2 ≡ 0) ⊎ (n % 2 ≡ 1)
mod-two n = omega arith

module _ (z : Zlib) (e : Endian) (room : Bool) (bytes : List ℕ) where
  pub pkt_decode-tiny :
      (len : ℕ) (p : Pkt) → len < 8 → pkt_decode z e room bytes len p ≡ some (e_noheader, p)
  unfolding pkt_decode
  pkt_decode-tiny len p h = rw (lt→ltb len 8 h)

  module _ (len b : ℕ) (p : Pkt) (at0 : get_elem? bytes 0 ≡ some b) (byte : b < 256)
      (enough : 8 ≤ len) where
    small_type : ltb 3 (b / 64) ≡ false
    small_type = le→ltb_false 3 (b / 64) (omega arith)

    small_window : ltb 31 (b % 32) ≡ false
    small_window = le→ltb_false 31 (b % 32) (omega arith)

    pub pkt_decode-first :
        (b / 32 % 2 ≡ 0) ⊎ (b / 64 ≡ 1)
        → pkt_decode z e room bytes len p ≡ decode_length z e room bytes (with_first p b)
    unfolding pkt_decode pkt_set_type pkt_set_tr pkt_set_window
    pkt_decode-first typed = elim (mod-two (b / 32)) [
      | inl clear ↦ rw (
        le→ltb_false len 8 enough,
        at0,
        (masks b byte).0,
        (masks b byte).1,
        (masks b byte).2,
        small_type,
        small_window,
        clear,
      )
      | inr set ↦ rw (
        le→ltb_false len 8 enough,
        at0,
        (masks b byte).0,
        (masks b byte).1,
        (masks b byte).2,
        small_window,
        set,
        only_data set,
      )
    ]
      where
        only_data : b / 32 % 2 ≡ 1 → b / 64 ≡ 1
        only_data set = omega arith

    pub pkt_decode-mistyped :
        IsMistyped b
        → pkt_decode z e room bytes len p
          ≡ some (e_type, record p { type = b / 64; tr = b / 32 % 2 })
    unfolding pkt_decode pkt_set_type pkt_set_tr pkt_set_window
    pkt_decode-mistyped bad =
        rw (le→ltb_false len 8 enough, at0, (masks b byte).0, (masks b byte).1, (masks b byte).2)
          (ground arith)

  module _ (raw : List ℕ) (p : Pkt) (at1 : load bytes 1 2 ≡ some raw) where
    pub decode_length-fits :
        from_net raw ≤ 512
        → decode_length z e room bytes p
          ≡ decode_body z e room bytes (record p { length_field = from_net raw })
    unfolding decode_length pkt_set_length
    decode_length-fits h =
        rw (at1, le→ltb_false 512 (from_net raw) h, le→ltb_false 512 (from_net raw) h)

    -- A length above 512 is not stored: the packet keeps the length that it had.
    pub decode_length-stale :
        512 < from_net raw
        → p.length_field ≤ 512
        → decode_length z e room bytes p ≡ decode_body z e room bytes p
    unfolding decode_length pkt_set_length
    decode_length-stale h k =
        rw (at1, lt→ltb 512 (from_net raw) h, le→ltb_false 512 p.length_field k)

    pub decode_length-refused :
        512 < from_net raw
        → 512 < p.length_field
        → decode_length z e room bytes p ≡ some (e_length, p)
    unfolding decode_length pkt_set_length
    decode_length-refused h k = rw (at1, lt→ltb 512 (from_net raw) h, lt→ltb 512 p.length_field k)

  module _ (s : ℕ) (ts header crc : List ℕ) (p : Pkt) (at3 : get_elem? bytes 3 ≡ some s)
      (at4 : load bytes 4 4 ≡ some ts) (at0 : load bytes 0 8 ≡ some header)
      (at8 : load bytes 8 4 ≡ some crc) where
    pub decode_body-match :
        calculate_crc32 z header ≡ from_net crc
        → decode_body z e room bytes p
          ≡ decode_payload z e room bytes (with_stamp p s (from_host e ts) (from_net crc))
    unfolding decode_body pkt_set_seqnum pkt_set_timestamp pkt_set_crc1
    decode_body-match same = rw (at3, at4, at0, at8, same, ==_self (from_net crc))

    pub decode_body-corrupt :
        calculate_crc32 z header ≢ from_net crc
        → decode_body z e room bytes p
          ≡ some (e_crc, with_stamp p s (from_host e ts) (from_net crc))
    unfolding decode_body pkt_set_seqnum pkt_set_timestamp pkt_set_crc1
    decode_body-corrupt differ = rw (at3, at4, at0, at8) (ground arith)

  pub decode_payload-empty :
      (p : Pkt) → p.length_field ≡ 0 → decode_payload z e room bytes p ≡ some (pkt_ok, p)
  unfolding decode_payload
  decode_payload-empty p h = rw h

abbrev pub allocated : Bool → List ℕ → Payload
allocated room body = if room then block body else null

module _ (z : Zlib) (e : Endian) (room : Bool) (bytes body crc : List ℕ) (p : Pkt)
    (full : 0 < p.length_field) (counted : length body ≤ 512)
    (at12 : load bytes 12 p.length_field ≡ some body)
    (behind : load bytes (12 + p.length_field) 4 ≡ some crc) where
  pub decode_payload-match :
      calculate_crc32 z body ≡ from_net crc
      → decode_payload z e room bytes p
        ≡ some (pkt_ok, record p { payload = allocated room body; crc2 = from_net crc })
  unfolding decode_payload pkt_set_crc2 pkt_set_payload
  decode_payload-match same =
      rw
        (
          lt→ltb 0 p.length_field full,
          at12,
          behind,
          same,
          ==_self (from_net crc),
          le→ltb_false 512 (length body) counted,
        )
        (ground arith)

  pub decode_payload-corrupt :
      calculate_crc32 z body ≢ from_net crc
      → decode_payload z e room bytes p ≡ some (e_crc, record p { crc2 = from_net crc })
  unfolding decode_payload pkt_set_crc2 pkt_set_payload
  decode_payload-corrupt differ = rw (lt→ltb 0 p.length_field full, at12, behind) (ground arith)
