-- ===== src/Build/Wire.antt =====
-- What `put_on_pkt` makes of an uninitialised `struct pkt`, and what the peer reads of it.
use trtp_network.Prelude.{
  ℕ, ◌+◌, ◌%◌, ◌^◌, ◌≤◌, ◌<◌, ◌≡◌, ◌≢◌, inl, refl, ap, List, [], ◌∷◌, ◌++◌, Bool, true, false,
  Option, some, arith, length, ltb, ◌>>=◌, take, drop, lt→ltb, le→ltb_false, load-all, take-append,
  length-append, length-drop, length-append, length-drop,
}
use trtp_network.Prelude.Int.{pos, to_word}
use trtp_network.Packet.{
  Pkt, Payload, block, pkt_ok, ptype_data, ptype_ack, ptype_nack, pkt_set_type, pkt_set_tr,
  pkt_set_window, pkt_set_seqnum, pkt_set_length, pkt_set_timestamp, pkt_set_payload, pkt_del,
}
use trtp_network.Codec.{Zlib, Endian, pkt_encode, pkt_decode}
use trtp_network.Codec.Encode.{HasPayload, wire, pkt_encode-wire, length-wire, length-sealed_header}
use trtp_network.Codec.RoundTrip.{IsSendable, received, pkt_decode-wire}
use trtp_network.Build.{
  Kind, data_kind, ack_kind, nack_kind, put_on_pkt, put_kind, put_fields, overwrite,
}

abbrev pub kind_type : Kind → ℕ
kind_type data_kind = ptype_data
kind_type ack_kind = ptype_ack
kind_type nack_kind = ptype_nack

-- The payload pointer after `put_on_pkt`: an empty payload leaves it as it was.
abbrev pub keep : List ℕ → Payload → Payload
keep [] old = old
keep (b ∷ bs) old = block (b ∷ bs)

-- The packet that `put_on_pkt` is to make of the fresh packet `q`.
abbrev pub made : Pkt → Kind → ℕ → ℕ → List ℕ → ℕ → Pkt
made q kind n w content t = record q {
  type = kind_type kind;
  tr = 0;
  window = w;
  length_field = length content;
  seqnum = n % 256;
  timestamp = t;
  payload = keep content q.payload;
}

module _ (z : Zlib) (e : Endian) (q : Pkt) (buf : List ℕ) (n w t : ℕ) (narrow : w < 32) where
  window_kept : ltb 31 (w % 2 ^ 8) ≡ false
  window_kept = le→ltb_false 31 _ (omega arith)

  window_same : w % 2 ^ 8 ≡ w
  window_same = omega arith

  fields_set : Pkt
  fields_set = record q { tr = 0; window = w; timestamp = t }

  put_fields_lem :
      (length : ℕ)
      → length ≤ 512
      → put_fields q (pos w) (pos length) t ≡ record fields_set { length_field = length }
  unfolding put_fields fields_set pkt_set_tr pkt_set_window pkt_set_length pkt_set_timestamp to_word
  put_fields_lem length short = rw (window_kept, window_same, same, le→ltb_false 512 length short)
    where
      same : length % 2 ^ 16 ≡ length
      same = omega arith

  put_kind-data :
      (p : Pkt) (content junk : List ℕ)
      → length content ≤ 512
      → put_kind true data_kind p (some (content ++ junk)) (length content)
        ≡ some (record p { type = 1; payload = keep content p.payload })
  unfolding put_kind pkt_set_type pkt_set_payload
  put_kind-data p [] junk short = refl
  put_kind-data p (b ∷ bs) junk short =
      rw (lt→ltb 0 (length (b ∷ bs)) (omega arith), same, kept, load-all (b ∷ bs) junk) (rw kept)
    where
      same : length (b ∷ bs) % 2 ^ 16 ≡ length (b ∷ bs)
      same = omega arith

      kept : ltb 512 (length (b ∷ bs)) ≡ false
      kept = le→ltb_false 512 _ short

  -- Encoding, and the result.
  abbrev encoded : Pkt → Option (Pkt × List ℕ × ℕ)
  encoded p = pkt_encode z e p buf >>= λ r. some (p, r.1, r.2)

  put_on_pkt-control :
      (room : Bool) (payload : Option (List ℕ)) (kind : Kind)
      → kind ≢ data_kind
      → put_on_pkt z e room (some q) buf payload (pos n) (pos w) 0 kind t
        ≡ encoded (made q kind n w [] t)
  unfolding put_on_pkt put_kind pkt_set_type pkt_set_seqnum to_word fields_set
  put_on_pkt-control room payload data_kind other = absurd (other refl)
  put_on_pkt-control room payload ack_kind other = rw (put_fields_lem 0 (omega arith))
  put_on_pkt-control room payload nack_kind other = rw (put_fields_lem 0 (omega arith))

  put_on_pkt-data :
      (content junk : List ℕ)
      → length content ≤ 512
      → put_on_pkt z e true
          (some q)
          buf
          (some (content ++ junk))
          (pos n)
          (pos w)
          (length content)
          data_kind
          t
        ≡ encoded (made q data_kind n w content t)
  unfolding put_on_pkt pkt_set_seqnum to_word fields_set
  put_on_pkt-data content junk short = rw (
    put_fields_lem (length content) short,
    put_kind-data (record fields_set { length_field = length content }) content junk short,
  )

pub overwrite_lem :
    (buf bytes : List ℕ)
    → length bytes ≤ length buf
    → overwrite buf bytes ≡ bytes ++ drop (length bytes) buf
overwrite_lem buf [] h = refl
overwrite_lem [] (b ∷ bytes) h = absurd (omega arith)
overwrite_lem (x ∷ buf) (b ∷ bytes) h = ap (λ r. b ∷ r) (overwrite_lem buf bytes (omega arith))

-- The packet `p`, encoded into `out`, of which the first `size` bytes go to `write`. A peer with the
-- same checksum and byte order that has them at the start of its buffer, whatever stands behind them,
-- and decodes that into its own fresh packet gets the packet `p` with the payload `content`; and `p`
-- itself can be freed.
pub record Delivered (z : Zlib) (e : Endian) (p : Pkt) (content buf : List ℕ)
    (r : Option (Pkt × List ℕ × ℕ)) : Type 0 where
  pub out : List ℕ
  pub size : ℕ
  pub result : r ≡ some (p, out, size)
  pub datagram : take size out ≡ wire z e p content
  pub decoded :
      (room : Bool) (peer : Pkt) (rest : List ℕ)
      → pkt_decode z e room (take size out ++ rest) 512 peer
        ≡ some (pkt_ok, received z e room p content peer)
  pub freed : pkt_del p ≡ some tt
  pub same_length : length out ≡ length buf

module _ (z : Zlib) (e : Endian) (p : Pkt) (content buf : List ℕ) (ok : IsSendable p)
    (has : HasPayload p content) (fits : length (wire z e p content) ≤ length buf) where
  freed_lem : (content : List ℕ) → HasPayload p content → pkt_del p ≡ some tt
  unfolding pkt_del
  freed_lem [] has = rw has.0
  freed_lem (b ∷ bs) has = rw (has.0, has.1 (omega arith), lt→ltb 0 (length (b ∷ bs)) (omega arith))

  encoded-Delivered : Delivered z e p content buf (pkt_encode z e p buf >>= λ r. some (p, r.1, r.2))
  encoded-Delivered = record {
    out = d ++ drop (length d) buf;
    size = length d;
    result = rw (pkt_encode-wire z e p content buf has fits);
    datagram = take-append d (drop (length d) buf);
    decoded = λ room peer rest.
        rw (take-append d (drop (length d) buf))
          (pkt_decode-wire z e room p peer 512 ok (omega arith) content rest has);
    freed = freed_lem content has;
    same_length = omega (arith, length-append d (drop (length d) buf), length-drop (length d) buf);
  }
    where
      d : List ℕ
      d = wire z e p content

module _ (z : Zlib) (e : Endian) (q : Pkt) (buf : List ℕ) (n w t : ℕ) (narrow : w < 32)
    (stamped : t < 2 ^ 32) where
  made-IsSendable :
      (kind : Kind) (content : List ℕ)
      → length content ≤ 512
      → IsSendable (made q kind n w content t)
  made-IsSendable data_kind content short = record {
    stored = omega arith;
    typed = inl refl;
    short = short;
  }
  made-IsSendable ack_kind content short = record {
    stored = omega arith;
    typed = inl refl;
    short = short;
  }
  made-IsSendable nack_kind content short = record {
    stored = omega arith;
    typed = inl refl;
    short = short;
  }

  made-HasPayload :
      (kind : Kind) (content : List ℕ) → HasPayload (made q kind n w content t) content
  made-HasPayload kind [] = (refl, λ h. absurd (omega arith))
  made-HasPayload kind (b ∷ bs) = (refl, λ h. refl)

  -- An acknowledgement or a negative one: whatever the memory of the new packet held, the peer
  -- reads its type, `seqnum % 256`, the window and the timestamp, and no payload.
  pub put_on_pkt-control-Delivered :
      (room : Bool) (payload : Option (List ℕ)) (kind : Kind)
      → kind ≢ data_kind
      → 12 ≤ length buf
      → Delivered z e
          (made q kind n w [] t)
          []
          buf
          (put_on_pkt z e room (some q) buf payload (pos n) (pos w) 0 kind t)
  put_on_pkt-control-Delivered room payload kind other fits =
      rw (put_on_pkt-control z e q buf n w t narrow room payload kind other) (
        encoded-Delivered z e (made q kind n w [] t) [] buf (made-IsSendable kind [] (omega arith))
          (made-HasPayload kind [])
          (omega (arith, length-sealed_header z e (made q kind n w [] t))))

  -- A data packet of at most 512 bytes, where there is memory for them: the peer reads the
  -- sequence number modulo 256, the window, the timestamp, and exactly the bytes of the content.
  pub put_on_pkt-data-Delivered :
      (content junk : List ℕ)
      → length content ≤ 512
      → 16 + length content ≤ length buf
      → Delivered z e (made q data_kind n w content t) content buf (
          put_on_pkt z e true
            (some q)
            buf
            (some (content ++ junk))
            (pos n)
            (pos w)
            (length content)
            data_kind
            t)
  put_on_pkt-data-Delivered content junk short fits =
      rw (put_on_pkt-data z e q buf n w t narrow content junk short) (
        encoded-Delivered z e (made q data_kind n w content t) content buf
          (made-IsSendable data_kind content short) (made-HasPayload data_kind content)
          (room_for content fits))
    where
      room_for :
          (content : List ℕ)
          → 16 + length content ≤ length buf
          → length (wire z e (made q data_kind n w content t) content) ≤ length buf
      room_for [] h = omega (arith, length-sealed_header z e (made q data_kind n w [] t))
      room_for (b ∷ bs) h =
          omega (arith, length-wire z e (made q data_kind n w (b ∷ bs) t) (b ∷ bs) (omega arith))
