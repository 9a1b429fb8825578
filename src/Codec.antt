-- ===== src/Codec.antt =====
-- src/packet_implem.c: `pkt_encode`, `pkt_decode` and `calculate_crc32`.
-- Memory is a list of bytes, and `none` is an access outside it.
use Prim.Native.Nat.{bit_and}
use trtp_network.Prelude.{
  ℕ, ◌+◌, ◌*◌, ◌/◌, ◌%◌, ◌^◌, ◌<◌, List, [], ◌∷◌, Bool, Option, none, some, ltb, ◌==◌, ◌&&◌, not,
  if◌then◌else◌, ◌>>=◌, load, store, get_elem?,
}
use trtp_network.Packet.{
  Status, pkt_ok, e_type, e_length, e_crc, e_noheader, ptype_data, Payload, null, wild, block, Pkt,
  pkt_set_type, pkt_set_tr, pkt_set_window, pkt_set_seqnum, pkt_set_length, pkt_set_timestamp,
  pkt_set_crc1, pkt_set_crc2, pkt_set_payload,
}
pub mod Bytes
pub mod Encode
pub mod Decode
pub mod RoundTrip
pub mod Limits
pub mod Sound

-- zlib's `crc32 (crc, buf, len)`, whose result is a 32-bit number; `none` is the buffer `Z_NULL`.
pub record Zlib : Type 0 where
  pub crc32 : ℕ → Option (List ℕ) → ℕ
  pub crc32-lt : (c : ℕ) (bytes : Option (List ℕ)) → crc32 c bytes < 2 ^ 32

-- `calculate_crc32`, and the same expression where the other functions write it out.
abbrev pub calculate_crc32 : Zlib → List ℕ → ℕ
calculate_crc32 z bytes = z.crc32 (z.crc32 0 none) (some bytes)

-- The byte order of the machine. `htons` and `htonl` followed by a copy give the order of the
-- network on both; a copy alone keeps the order of the machine.
pub data Endian : Type 0 where
  little big : Endian

abbrev pub net16 : ℕ → List ℕ
net16 n = n / 256 % 256 ∷ n % 256 ∷ []

abbrev pub net32 : ℕ → List ℕ
net32 n = n / 2 ^ 24 % 256 ∷ n / 2 ^ 16 % 256 ∷ n / 2 ^ 8 % 256 ∷ n % 256 ∷ []

abbrev pub host32 : Endian → ℕ → List ℕ
host32 big n = net32 n
host32 little n = n % 256 ∷ n / 2 ^ 8 % 256 ∷ n / 2 ^ 16 % 256 ∷ n / 2 ^ 24 % 256 ∷ []

abbrev from_net_acc : ℕ → List ℕ → ℕ
from_net_acc acc [] = acc
from_net_acc acc (b ∷ bs) = from_net_acc (acc * 256 + b) bs

abbrev pub from_net : List ℕ → ℕ
from_net bs = from_net_acc 0 bs

abbrev from_little : List ℕ → ℕ
from_little [] = 0
from_little (b ∷ bs) = b + 256 * from_little bs

abbrev pub from_host : Endian → List ℕ → ℕ
from_host big bs = from_net bs
from_host little bs = from_little bs

-- What a `memcpy` of `n` bytes out of the payload reads.
abbrev pub payload_bytes : Payload → ℕ → Option (List ℕ)
payload_bytes null n = none
payload_bytes wild n = none
payload_bytes (block bytes) n = load bytes 0 n

-- `(uint8_t)((pkt->type<<6)+((pkt->tr)<<5)+(pkt->window))`
abbrev pub first_byte : Pkt → ℕ
first_byte p = (p.type * 2 ^ 6 + p.tr * 2 ^ 5 + p.window) % 2 ^ 8

-- The eight bytes that `pkt_encode` writes before the checksum.
abbrev pub header_bytes : Endian → Pkt → List ℕ
header_bytes e p =
    first_byte p
    ∷ p.length_field / 256 % 256
    ∷ p.length_field % 256
    ∷ p.seqnum % 256
    ∷ host32 e p.timestamp

module _ (z : Zlib) (e : Endian) where
  -- The payload part of `pkt_encode`, into the buffer that holds the header.
  unfoldable pub encode_payload : Pkt → List ℕ → Option (Status × List ℕ × ℕ)
  encode_payload p buf =
      if ltb 0 p.length_field
      then (do
        bytes ← payload_bytes p.payload p.length_field
        b1 ← store buf 12 bytes
        b2 ← store b1 (12 + p.length_field) (net32 (calculate_crc32 z bytes))
        some (pkt_ok, b2, 16 + p.length_field))
      else some (pkt_ok, buf, 12)

  -- `pkt_encode`: the status, the buffer and `*len` afterwards. The `*len` before is not read.
  unfoldable pub pkt_encode : Pkt → List ℕ → Option (Status × List ℕ × ℕ)
  unfolding encode_payload
  pkt_encode p buf = do
    b1 ← store buf 0 (first_byte p ∷ [])
    b2 ← store b1 1 (net16 p.length_field)
    b3 ← store b2 3 (p.seqnum % 256 ∷ [])
    b4 ← store b3 4 (host32 e p.timestamp)
    header ← load b4 0 8
    b5 ← store b4 8 (net32 (calculate_crc32 z header))
    encode_payload p b5

  -- The payload part of `pkt_decode`.
  unfoldable pub decode_payload : Bool → List ℕ → Pkt → Option (Status × Pkt)
  decode_payload room bytes p =
      if ltb 0 p.length_field
      then (do
        body ← load bytes 12 p.length_field
        crc ← load bytes (12 + p.length_field) 4
        let p' = (pkt_set_crc2 p (from_net crc)).1
        some (
            if not (p'.crc2 == calculate_crc32 z body)
            then (e_crc, p')
            else (pkt_ok, (pkt_set_payload room p' body).1)))
      else some (pkt_ok, p)

  -- From the sequence number to the check of CRC1.
  unfoldable pub decode_body : Bool → List ℕ → Pkt → Option (Status × Pkt)
  unfolding decode_payload
  decode_body room bytes p = do
    s ← get_elem? bytes 3
    ts ← load bytes 4 4
    header ← load bytes 0 8
    crc ← load bytes 8 4
    let p1 = (pkt_set_seqnum p s).1
    let p2 = (pkt_set_timestamp p1 (from_host e ts)).1
    let p3 = (pkt_set_crc1 p2 (from_net crc)).1
    if not (calculate_crc32 z header == p3.crc1)
        then some (e_crc, p3)
        else decode_payload room bytes p3

  -- The length field: `pkt_set_length` refuses a value above 512, and leaves the old one.
  unfoldable pub decode_length : Bool → List ℕ → Pkt → Option (Status × Pkt)
  unfolding decode_body
  decode_length room bytes p = do
    n ← load bytes 1 2
    let p' = (pkt_set_length p (from_net n)).1
    if ltb 512 p'.length_field then some (e_length, p') else decode_body room bytes p'

  -- `pkt_decode` into the packet `p`. `bytes` is the memory at `data`, which may hold more or fewer
  -- than `len` bytes; `room` says whether the payload can be allocated.
  unfoldable pub pkt_decode : Bool → List ℕ → ℕ → Pkt → Option (Status × Pkt)
  unfolding decode_length
  pkt_decode room bytes len p = if ltb len 8 then some (e_noheader, p) else do
    b ← get_elem? bytes 0
    let p1 = (pkt_set_type p (bit_and b 0xc0 / 2 ^ 6)).1
    let p2 = (pkt_set_tr p1 (bit_and b 0x20 / 2 ^ 5)).1
    if not (p2.tr == 0) && not (p2.type == ptype_data)
        then some (e_type, p2)
        else decode_length room bytes (pkt_set_window p2 (bit_and b 0x1f)).1
