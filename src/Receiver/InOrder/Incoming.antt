-- ===== src/Receiver/InOrder/Incoming.antt =====
-- The receiver reads the datagram of a data packet, in any state of its window.
use trtp_network.Prelude.{
  ℕ, ◌+◌, ◌≤◌, ◌<◌, ◌≡◌, ◌^◌, refl, ◌∙◌, List, false, some, arith, length, drop, ◌>>=◌, ap,
}
use trtp_network.Packet.{Pkt, pkt_ok}
use trtp_network.Codec.{pkt_decode}
use trtp_network.Codec.Encode.{HasPayload, wire, length-wire}
use trtp_network.Codec.RoundTrip.{IsSendable, received, received-HasPayload, pkt_decode-wire}
use trtp_network.Build.{Machine, read_into}
use trtp_network.Build.Wire.{overwrite_lem}
use trtp_network.Receiver.{Receiver}
use trtp_network.Receiver.Steps.{receive, place}
use trtp_network.Receiver.InOrder.Place.{
  HasMemory, later, positive, later-lt, length-overwrite, not_nack, accept_other, receive_good,
}

module _ (m : Machine) (memory : HasMemory m) where
  -- The state after the datagram was read, before the packet is placed.
  abbrev pub noted : Receiver → List ℕ → ℕ → Receiver
  noted r bytes t = record r {
    buffer = read_into r.buffer (some bytes);
    next = r.next + 1;
    data_received = r.data_received + 1;
    last_time_pkt = later r.last_time_pkt t;
  }

  module _ (r : Receiver) (sized : length r.buffer ≡ 512) (p : Pkt) (body : List ℕ)
      (ok : IsSendable p) (typed : p.type ≡ 1) (has : HasPayload p body) (full : 0 < length body)
      (fits : length body ≤ 496) where
    abbrev pub datagram : List ℕ
    datagram = wire m.zlib m.endian p body

    abbrev pub q : Pkt
    q = (memory.fresh r.next).0

    abbrev pub got : Pkt
    got = received m.zlib m.endian (m.room r.next) p body q

    decoded :
        pkt_decode m.zlib m.endian (m.room r.next) (read_into r.buffer (some datagram)) 512 q
        ≡ some (pkt_ok, got)
    decoded =
        rw
          (overwrite_lem r.buffer datagram
            (omega (arith, sized, length-wire m.zlib m.endian p body full)))
          (pkt_decode-wire m.zlib m.endian (m.room r.next) p q 512 ok (omega arith) body
            (drop (length datagram) r.buffer) has)

    pub got_fields :
        (got.seqnum ≡ p.seqnum)
        × (got.length_field ≡ length body)
        × (got.type ≡ 1)
        × (got.timestamp ≡ p.timestamp)
    unfolding received
    got_fields = (refl, has.0, typed, refl)

    pub got-HasPayload : HasPayload got body
    got-HasPayload =
        received-HasPayload m.zlib m.endian (m.room r.next) p q body (memory.payload r.next) has

    pub sized_noted : length (noted r datagram got.timestamp).buffer ≡ 512
    sized_noted = length-overwrite r.buffer datagram ∙ sized

    pub stamped_noted :
        r.last_time_pkt < 2 ^ 32 → (noted r datagram got.timestamp).last_time_pkt < 2 ^ 32
    stamped_noted stamped =
        later-lt r.last_time_pkt got.timestamp (2 ^ 32) stamped
          (rw got_fields.3 ok.stored.timestamp_fits)

    -- What is left to do is to place the packet.
    pub receive-places :
        (r' : Receiver)
        → place (noted r datagram got.timestamp) r.next got ≡ some r'
        → receive m r (some datagram) ≡ some (false, r')
    receive-places r' placed =
        receive_good m r datagram q got (memory.fresh r.next).1 decoded
          (not_nack got.type got_fields.2)
        ∙ accept_other
            (record r {
              buffer = read_into r.buffer (some datagram);
              next = r.next + 1;
              data_received = r.data_received + 1;
            })
            r.next got (positive got.length_field (rw got_fields.1 full))
        ∙ ap (λ o. o >>= λ r''. some (false, r'')) placed
