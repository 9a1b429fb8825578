-- ===== src/Sender/Faults.antt =====
-- src/read_write_loop_sender.c: a datagram that makes the sender free a wild pointer.
use trtp_network.Prelude.{
  ℕ, ◌+◌, ◌≤◌, ◌<◌, ◌≡◌, ◌≢◌, sym, ap, ◌∙◌, List, ◌++◌, none, some, arith, length, drop, load,
  load-behind, length-append, lt→ltb,
}
use mathlib.Core.List.{append_assoc}
use trtp_network.Packet.{Pkt, wild, pkt_del, e_crc}
use trtp_network.Codec.{calculate_crc32, from_net, pkt_decode}
use trtp_network.Codec.Encode.{sealed_header, length-sealed_header}
use trtp_network.Codec.Decode.{decode_payload-corrupt}
use trtp_network.Codec.RoundTrip.{IsSendable, header_of, pkt_decode-header}
use trtp_network.Build.{Machine, overwrite}
use trtp_network.Build.Wire.{overwrite_lem}
use trtp_network.Sender.{Sender}
use trtp_network.Sender.Steps.{receive}

pkt_del-wild : (p : Pkt) → 0 < p.length_field → p.payload ≡ wild → pkt_del p ≡ none
unfolding pkt_del
pkt_del-wild p full h = rw (lt→ltb 0 p.length_field full, h)

module _ (m : Machine) (s : Sender) (p fresh : Pkt) (body crc : List ℕ) where
  -- The header of `p`, then a payload with a checksum that it does not have.
  abbrev pub corrupted : List ℕ
  corrupted = (sealed_header m.zlib m.endian p ++ body) ++ crc

  -- The datagram in the receive buffer, before what the buffer held.
  decode-corrupted :
      (rest : List ℕ)
      → IsSendable p
      → p.length_field ≡ length body
      → 0 < length body
      → length crc ≡ 4
      → calculate_crc32 m.zlib body ≢ from_net crc
      → pkt_decode m.zlib m.endian (m.room s.next) (corrupted ++ rest) 512 fresh
        ≡ some (
          e_crc,
          record (header_of m.zlib m.endian (m.room s.next) p fresh) { crc2 = from_net crc },
        )
  decode-corrupted rest ok sized full four differ =
      ap (λ l. pkt_decode m.zlib m.endian (m.room s.next) l 512 fresh) regroup
      ∙ pkt_decode-header m.zlib m.endian (m.room s.next) p fresh 512 ok (omega arith)
          (body ++ (crc ++ rest))
      ∙ decode_payload-corrupt m.zlib m.endian (m.room s.next) (h ++ (body ++ (crc ++ rest))) body
          crc (header_of m.zlib m.endian (m.room s.next) p fresh) (omega (arith, sized, full))
          (omega (arith, sized, ok.short)) at12 behind differ
    where
      h : List ℕ
      h = sealed_header m.zlib m.endian p

      outer : h ++ (body ++ (crc ++ rest)) ≡ (h ++ body) ++ (crc ++ rest)
      outer = sym (append_assoc h body (crc ++ rest))

      regroup : corrupted ++ rest ≡ h ++ (body ++ (crc ++ rest))
      regroup = append_assoc (h ++ body) crc rest ∙ sym outer

      at12 : load (h ++ (body ++ (crc ++ rest))) 12 p.length_field ≡ some body
      at12 =
          rw outer
            (load-behind h body (crc ++ rest) (length-sealed_header m.zlib m.endian p) (sym sized))

      behind : load (h ++ (body ++ (crc ++ rest))) (12 + p.length_field) 4 ≡ some crc
      behind = rw (← regroup) (
          load-behind (h ++ body) crc rest
            (omega (arith, sized, length-append h body, length-sealed_header m.zlib m.endian p))
            four)

  -- A data packet with an intact header, but a payload that does not match its checksum: where
  -- `malloc` leaves a wild pointer in the new packet, the sender frees it.
  pub receive-wild :
      m.pkt_new s.next ≡ some fresh
      → fresh.payload ≡ wild
      → IsSendable p
      → p.length_field ≡ length body
      → 0 < length body
      → length crc ≡ 4
      → calculate_crc32 m.zlib body ≢ from_net crc
      → length corrupted ≤ length s.buffer
      → receive m s corrupted ≡ none
  unfolding receive
  receive-wild new uninitialised ok sized full four differ fits =
      rw (new, decoded)
        (rw (
          pkt_del-wild
            (record (header_of m.zlib m.endian (m.room s.next) p fresh) { crc2 = from_net crc })
            (omega (arith, sized, full)) uninitialised))
    where
      decoded :
          pkt_decode m.zlib m.endian (m.room s.next) (overwrite s.buffer corrupted) 512 fresh
          ≡ some (
            e_crc,
            record (header_of m.zlib m.endian (m.room s.next) p fresh) { crc2 = from_net crc },
          )
      decoded =
          rw (overwrite_lem s.buffer corrupted fits)
            (decode-corrupted (drop (length corrupted) s.buffer) ok sized full four differ)
