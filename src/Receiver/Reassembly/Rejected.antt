-- ===== src/Receiver/Reassembly/Rejected.antt =====
-- src/read_write_loop.c, `read_write_loop`: a round with a datagram that cannot be decoded, and one
-- without a datagram.
use trtp_network.Prelude.{
  Bool, ◌++◌, Option, ℕ, ◌+◌, ◌≤◌, ◌<◌, ◌≡◌, ◌≢◌, refl, ap, ◌∙◌, List, [], ◌∷◌, true, false, none,
  some, arith, length, if◌then◌else◌, ◌&&◌, ltb,
}
use trtp_network.Prelude.Int.{pos, negsuc}
use trtp_network.Packet.{Pkt, Status}
use trtp_network.Codec.{pkt_decode}
use trtp_network.Build.{Machine, overwrite, put_on_pkt, nack_kind, data_kind}
use trtp_network.Build.Wire.{made, Delivered}
use trtp_network.Codec.Encode.{wire}
use trtp_network.Heap.{Ptr}
use trtp_network.Receiver.{Receiver, real_window}
use trtp_network.Receiver.Steps.{
  Round, ready, quiet, is_ok, is_null_at, drop_packet, receive, round, again, answer_nack,
  answer_ack, send_control,
}
use trtp_network.Receiver.Window.{Item}
use trtp_network.Receiver.InOrder.{
  HasMemory, control_sent, send_control-sends, not_minus_one, length-overwrite,
}
use trtp_network.Receiver.Reassembly.Store.{Holds, At-later, ptr, room}
use trtp_network.Receiver.Reassembly.Placed.{room_few}
use trtp_network.Receiver.Reassembly.Dropped.{looked_at, dropped, drop_packet-drops}

-- The decoder refuses the datagram, whatever the rest of the buffer and the packet hold.
abbrev pub IsRejected : Machine → List ℕ → Type 0
IsRejected m bytes =
    (room : Bool) (buf : List ℕ) (q : Pkt)
    → length buf ≡ 512
    → (d : Status × Pkt) × (pkt_decode m.zlib m.endian room (overwrite buf bytes) 512 q ≡ some d)
      × (is_ok d.0 ≡ false)

module _ (m : Machine) (memory : HasMemory m) where
  -- The datagram `bytes` comes while the socket can be written to.
  abbrev pub noise : List ℕ → ℕ → Round
  noise bytes now = record { input = ready; output = ready; datagram = some bytes; now = now }

  -- Nothing comes while the socket can be written to.
  abbrev pub pause : ℕ → Round
  pause now = record { input = quiet; output = ready; datagram = none; now = now }

  module _ (r : Receiver) (n : ℕ) (x y z : Option Item) (beyond : List Ptr)
      (holds : Holds r n x y z beyond) where
    abbrev Stays : Round → Type 0
    Stays t =
        (r' : Receiver) × (round m r t ≡ some (again, r'))
        × Holds r' n x y z beyond
        × (r'.stdout ≡ r.stdout)

    -- Nothing is to be answered, and nothing happens.
    pub round-pause : (now : ℕ) → Stays (pause now)
    unfolding round answer_nack answer_ack
    round-pause now = (r, (rw (holds.no_nack, holds.no_ack)), holds, refl)

    module _ (bytes : List ℕ) (now : ℕ) (d : Status × Pkt)
        (decoded : pkt_decode m.zlib m.endian
            (m.room r.next)
            (overwrite r.buffer bytes)
            512
            (memory.fresh r.next).0
          ≡ some d)
        (refused : is_ok d.0 ≡ false) where
      abbrev read : Receiver
      read = record r {
        buffer = overwrite r.buffer bytes;
        next = r.next + 1;
        data_received = r.data_received + 1;
      }

      receive-refused :
          (lost : Bool)
          → drop_packet read d.1 ≡ some (dropped read d.1 lost)
          → receive m r (some bytes) ≡ some (false, dropped read d.1 lost)
      unfolding receive
      receive-refused lost drops =
          rw ((memory.fresh r.next).1) (rw (decoded) (rw (refused) (rw drops)))

      without_nack :
          receive m r (some bytes) ≡ some (false, dropped read d.1 false) → Stays (noise bytes now)
      unfolding round answer_nack answer_ack
      without_nack received = (
        dropped read d.1 false,
        rw received (rw (holds.no_nack, holds.no_ack)),
        record {
          slots = holds.slots;
          base = holds.base;
          places = holds.places;
          first = At-later r.heap r.next (n + 1) x holds.first;
          second = At-later r.heap r.next (n + 2) y holds.second;
          third = At-later r.heap r.next (n + 3) z holds.third;
          no_nack = holds.no_nack;
          no_ack = holds.no_ack;
          sized = length-overwrite r.buffer bytes ∙ holds.sized;
          stamped = holds.stamped;
        },
        refl,
      )

      abbrev s : Receiver
      s = dropped read d.1 true

      sized : length s.buffer ≡ 512
      sized = length-overwrite r.buffer bytes ∙ holds.sized

      narrow : 1 + room x + room y + room z < 32
      narrow = room_few x y z

      wide : 12 ≤ length s.buffer
      wide = omega (arith, sized)

      control : nack_kind ≢ data_kind
      control h = cc

      abbrev fresh : Pkt
      fresh = (memory.fresh s.next).0

      sent :
          Delivered m.zlib m.endian
            (made fresh nack_kind d.1.seqnum (1 + room x + room y + room z) [] r.last_time_pkt)
            []
            s.buffer
            (put_on_pkt m.zlib m.endian
              (m.room s.next)
              (some fresh)
              s.buffer
              none
              (pos d.1.seqnum)
              (pos (1 + room x + room y + room z))
              0
              nack_kind
              r.last_time_pkt)
      sent =
          control_sent m s d.1.seqnum (1 + room x + room y + room z) fresh nack_kind
            (memory.fresh s.next).1 holds.places narrow holds.stamped control wide

      abbrev handed : Receiver
      handed = record s {
        buffer = sent.out;
        next = s.next + 1;
        sent =
            s.sent
            ++ (wire m.zlib m.endian
                  (made fresh nack_kind d.1.seqnum (1 + room x + room y + room z) []
                    r.last_time_pkt)
                  []
                ∷ []);
      }

      sends : send_control m s (pos d.1.seqnum) nack_kind ≡ some handed
      unfolding sent
      sends =
          send_control-sends m s d.1.seqnum (1 + room x + room y + room z) fresh nack_kind
            (memory.fresh s.next).1 holds.places narrow holds.stamped control wide

      abbrev nacked : Receiver
      nacked = record handed {
        nack_sent = s.nack_sent + 1;
        data_sent = s.data_sent + 1;
        nack = negsuc 0;
      }

      -- The round asks for the packet.
      abbrev pub Asks : Type 0
      Asks =
          (r' : Receiver) × (round m r (noise bytes now) ≡ some (again, r'))
          × Holds r' n x y z beyond
          × (r'.stdout ≡ r.stdout)
          × (r'.sent
              ≡ r.sent
                ++ (wire m.zlib m.endian
                      (made (memory.fresh (r.next + 1)).0 nack_kind d.1.seqnum
                        (1 + room x + room y + room z) [] r.last_time_pkt)
                      []
                    ∷ []))

      with_nack : receive m r (some bytes) ≡ some (false, dropped read d.1 true) → Asks
      unfolding round answer_nack answer_ack
      with_nack received = (
        nacked,
        rw received (rw (not_minus_one d.1.seqnum) (rw sends (rw holds.no_ack))),
        record {
          slots = holds.slots;
          base = holds.base;
          places = holds.places;
          first =
              At-later r.heap (r.next + 1) (n + 1) x (At-later r.heap r.next (n + 1) x holds.first);
          second =
              At-later r.heap (r.next + 1) (n + 2) y
                (At-later r.heap r.next (n + 2) y holds.second);
          third =
              At-later r.heap (r.next + 1) (n + 3) z (At-later r.heap r.next (n + 3) z holds.third);
          no_nack = refl;
          no_ack = holds.no_ack;
          sized = sent.same_length ∙ sized;
          stamped = holds.stamped;
        },
        refl,
        refl,
      )

      -- Where the number of the datagram is that of a free entry behind the first, the receiver sends a
      -- negative acknowledgement for it.
      pub round-asks :
          (if ltb d.1.seqnum (0 + real_window) && ltb 0 d.1.seqnum
              then is_null_at r.slots d.1.seqnum
              else some false)
            ≡ some true
          → Asks
      round-asks lost = with_nack (receive-refused true (drop_packet-drops read d.1 true lost))

    -- A datagram that the decoder refuses: the round goes on with the same window, and has written
    -- nothing.
    pub round-noise : (bytes : List ℕ) (now : ℕ) → IsRejected m bytes → Stays (noise bytes now)
    round-noise bytes now bad =
        let d = bad (m.room r.next) r.buffer (memory.fresh r.next).0 holds.sized in
        let seen = looked_at (ptr x) (ptr y) (ptr z) (none ∷ beyond) d.0.1.seqnum in
        decide d.0 d.1 d.2 seen.0 (ap (λ l. look l d.0.1.seqnum) holds.slots ∙ seen.1)
      where
        look : List Ptr → ℕ → Option Bool
        look l k = if ltb k (0 + real_window) && ltb 0 k then is_null_at l k else some false

        decide :
            (d : Status × Pkt)
            → pkt_decode m.zlib m.endian
                (m.room r.next)
                (overwrite r.buffer bytes)
                512
                (memory.fresh r.next).0
              ≡ some d
            → is_ok d.0 ≡ false
            → (lost : Bool) → look r.slots d.1.seqnum ≡ some lost
            → Stays (noise bytes now)
        decide d decoded refused true seen =
            let o = round-asks bytes now d decoded refused seen in (o.0, o.1, o.2, o.3)
        decide d decoded refused false seen = without_nack bytes now d decoded refused (
            receive-refused bytes now d decoded refused false
              (drop_packet-drops (read bytes now d decoded refused) d.1 false seen))
