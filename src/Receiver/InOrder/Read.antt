-- ===== src/Receiver/InOrder/Read.antt =====
-- The receiver reads the datagram of the packet that is due.
use trtp_network.Prelude.{
  ℕ, ◌+◌, ◌%◌, ◌≤◌, ◌<◌, ◌≡◌, refl, List, [], ◌∷◌, ◌++◌, false, some, length,
}
use trtp_network.Packet.{Pkt, null}
use trtp_network.Codec.Encode.{HasPayload, wire}
use trtp_network.Codec.RoundTrip.{IsSendable, received}
use trtp_network.Build.{Machine}
use trtp_network.Heap.{Ptr}
use trtp_network.Receiver.{Receiver}
use trtp_network.Receiver.Steps.{receive}
use trtp_network.Receiver.InOrder.Place.{HasMemory, InStep, later, placed, place-first}
use trtp_network.Receiver.InOrder.Incoming
use trtp_network.Receiver.InOrder.Incoming.{noted, sized_noted, stamped_noted, receive-places}

-- The acknowledgement of everything before `n`, with the whole window free.
abbrev pub ack_pkt : ℕ → ℕ → Pkt
ack_pkt n t = record {
  type = 2;
  tr = 0;
  window = 4;
  length_field = 0;
  seqnum = n % 256;
  timestamp = t;
  crc1 = 0;
  payload = null;
  crc2 = 0;
}

-- What a round with the packet that is due leads to.
pub record Progress (m : Machine) (r r' : Receiver) (n : ℕ) (beyond : List Ptr) (t : ℕ)
    (body : List ℕ) : Type 0 where
  pub in_step : InStep r' ((n + 1) % 256) beyond
  pub output : r'.stdout ≡ r.stdout ++ body
  pub clock_kept : r'.last_time_pkt ≡ later r.last_time_pkt t
  pub answer :
      r'.sent
      ≡ r.sent ++ (wire m.zlib m.endian (ack_pkt ((n + 1) % 256) (later r.last_time_pkt t)) [] ∷ [])

module _ (m : Machine) (memory : HasMemory m) where
  module _ (r : Receiver) (n : ℕ) (beyond : List Ptr) (step : InStep r n beyond) (p : Pkt)
      (body : List ℕ) (ok : IsSendable p) (typed : p.type ≡ 1) (seq : p.seqnum ≡ n)
      (has : HasPayload p body) (full : 0 < length body) (fits : length body ≤ 496) where
    abbrev pub datagram : List ℕ
    datagram = wire m.zlib m.endian p body

    abbrev pub got : Pkt
    got = Incoming.got m memory r step.sized p body ok typed has full fits

    pub got_fields :
        (got.seqnum ≡ n)
        × (got.length_field ≡ length body)
        × (got.type ≡ 1)
        × (got.timestamp ≡ p.timestamp)
    unfolding received
    got_fields = (seq, has.0, typed, refl)

    pub got-HasPayload : HasPayload got body
    got-HasPayload = Incoming.got-HasPayload m memory r step.sized p body ok typed has full fits

    unfoldable pub noted_r : Receiver
    noted_r = noted m memory r datagram got.timestamp

    pub read_step : InStep noted_r n beyond
    unfolding noted_r
    read_step = record {
      empty = step.empty;
      base = step.base;
      places = step.places;
      no_nack = step.no_nack;
      no_ack = step.no_ack;
      byte = step.byte;
      sized = sized_noted m memory r step.sized p body ok typed has full fits;
      stamped = stamped_noted m memory r step.sized p body ok typed has full fits step.stamped;
    }

    unfoldable pub after : Receiver
    after = placed noted_r n beyond read_step r.next got got_fields.0

    pub receive-due : receive m r (some datagram) ≡ some (false, after)
    unfolding noted_r after
    receive-due =
        receive-places m memory r step.sized p body ok typed has full fits after
          (place-first noted_r n beyond read_step r.next got got_fields.0)
