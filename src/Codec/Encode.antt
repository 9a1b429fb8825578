-- ===== src/Codec/Encode.antt =====
-- What `pkt_encode` puts on the wire, and where it writes.
use trtp_network.Prelude.{
  ℕ, ◌+◌, ◌≤◌, ◌<◌, ◌≡◌, refl, sym, ap, ap₂, ◌∙◌, drop-drop, List, [], ◌∷◌, ◌++◌, some, arith,
  length, drop, load, store, load_self, store-behind, length-drop, lt→ltb, length-append,
}
use trtp_network.Packet.{Pkt, block, pkt_ok}
use trtp_network.Codec.{
  Zlib, calculate_crc32, Endian, little, big, net32, header_bytes, encode_payload, pkt_encode,
}

-- The length field counts the bytes of `body`, and the payload pointer, where the code looks at it,
-- points to them.
abbrev pub HasPayload : Pkt → List ℕ → Type 0
HasPayload p body = (p.length_field ≡ length body) × (0 < length body → p.payload ≡ block body)

module _ (z : Zlib) (e : Endian) where
  -- The header with its checksum.
  abbrev pub sealed_header : Pkt → List ℕ
  sealed_header p = header_bytes e p ++ net32 (calculate_crc32 z (header_bytes e p))

  -- The datagram of a packet with the payload `body`: no payload, no second checksum.
  abbrev pub wire : Pkt → List ℕ → List ℕ
  wire p [] = sealed_header p
  wire p (b ∷ bs) = sealed_header p ++ (b ∷ bs) ++ net32 (calculate_crc32 z (b ∷ bs))

-- The header goes over the first twelve bytes of the buffer.
pub pkt_encode-header :
    (z : Zlib) (e : Endian) (p : Pkt) (buf : List ℕ)
    → 12 ≤ length buf
    → pkt_encode z e p buf ≡ encode_payload z e p (sealed_header z e p ++ drop 12 buf)
unfolding pkt_encode load store
pkt_encode-header z little p (a ∷ b ∷ c ∷ d ∷ f ∷ g ∷ h ∷ i ∷ j ∷ k ∷ l ∷ m ∷ rest) fits = refl
pkt_encode-header z little p _ fits = absurd (omega arith)
pkt_encode-header z big p (a ∷ b ∷ c ∷ d ∷ f ∷ g ∷ h ∷ i ∷ j ∷ k ∷ l ∷ m ∷ rest) fits = refl
pkt_encode-header z big p _ fits = absurd (omega arith)

module _ (z : Zlib) (e : Endian) (p : Pkt) where
  pub length-sealed_header : length (sealed_header z e p) ≡ 12
  length-sealed_header = case e
    where
      case : (e : Endian) → length (sealed_header z e p) ≡ 12
      case little = refl
      case big = refl

  -- A payload that fits is copied behind the header, with its checksum.
  encode_payload_lem :
      (body header buf : List ℕ)
      → HasPayload p body
      → 0 < length body
      → 4 + length body ≤ length buf
      → length header ≡ 12
      → encode_payload z e p (header ++ buf)
        ≡ some (
          pkt_ok,
          ((header ++ body) ++ net32 (calculate_crc32 z body)) ++ drop 4 (drop (length body) buf),
          16 + length body,
        )
  unfolding encode_payload
  encode_payload_lem body header buf has full fits twelve = rw (
    has.0,
    has.1 full,
    lt→ltb 0 (length body) full,
    load_self body,
    store-behind header buf body twelve (omega arith),
    store-behind (header ++ body) (drop (length body) buf) (net32 (calculate_crc32 z body))
        {n = 12 + length body} (omega (arith, length-append header body))
        (omega (arith, length-drop (length body) buf)),
  )

  pub length-wire : (body : List ℕ) → 0 < length body → length (wire z e p body) ≡ 16 + length body
  length-wire [] full = absurd (omega arith)
  length-wire (b ∷ bs) full = omega (
    arith,
    length-append (sealed_header z e p ++ (b ∷ bs)) (net32 (calculate_crc32 z (b ∷ bs))),
    length-append (sealed_header z e p) (b ∷ bs),
    length-sealed_header,
  )

  encode_payload-empty :
      (buf : List ℕ) → p.length_field ≡ 0 → encode_payload z e p buf ≡ some (pkt_ok, buf, 12)
  unfolding encode_payload
  encode_payload-empty buf none_left = rw none_left

  drop-wire :
      (body buf : List ℕ)
      → 0 < length body
      → drop 4 (drop (length body) (drop 12 buf)) ≡ drop (length (wire z e p body)) buf
  drop-wire body buf full =
      drop-drop 4 (length body) (drop 12 buf)
      ∙ drop-drop (length body + 4) 12 buf
      ∙ ap (λ k. drop k buf) (omega (arith, length-wire body full))

  -- `pkt_encode` writes exactly the datagram of the packet over the start of any buffer that holds
  -- it, sets `*len` to its length, and leaves the rest of the buffer alone.
  pub pkt_encode-wire :
      (body buf : List ℕ)
      → HasPayload p body
      → length (wire z e p body) ≤ length buf
      → pkt_encode z e p buf
        ≡ some (
          pkt_ok,
          wire z e p body ++ drop (length (wire z e p body)) buf,
          length (wire z e p body),
        )
  pkt_encode-wire [] buf has fits =
      pkt_encode-header z e p buf (omega (arith, length-sealed_header))
      ∙ encode_payload-empty (sealed_header z e p ++ drop 12 buf) has.0
      ∙ ap (λ n. some (pkt_ok, sealed_header z e p ++ drop n buf, n)) (sym length-sealed_header)
  pkt_encode-wire (b ∷ bs) buf has fits =
      pkt_encode-header z e p buf (omega (arith, room))
      ∙ encode_payload_lem body (sealed_header z e p) (drop 12 buf) has (omega arith)
          (omega (arith, room, length-drop 12 buf)) length-sealed_header
      ∙ ap₂ (λ rest n. some (pkt_ok, wire z e p body ++ rest, n)) (drop-wire body buf (omega arith))
          (sym (length-wire body (omega arith)))
    where
      body : List ℕ
      body = b ∷ bs

      room : 16 + length body ≤ length buf
      room = omega (arith, length-wire body)
