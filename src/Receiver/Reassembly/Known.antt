-- ===== src/Receiver/Reassembly/Known.antt =====
-- src/read_write_loop.c, `read_write_loop`: a packet that is in the window already.
use trtp_network.Prelude.{
  Option, ℕ, ◌+◌, ◌≤◌, ◌<◌, ◌≡◌, refl, List, false, some, length, get_elem?, if◌then◌else◌, ◌==◌,
}
use trtp_network.Prelude.Int.{pos, sub_ℕ, rem}
use trtp_network.Packet.{Pkt}
use trtp_network.Codec.Encode.{HasPayload, wire}
use trtp_network.Codec.RoundTrip.{IsSendable}
use trtp_network.Build.{Machine}
use trtp_network.Heap.{Ptr}
use trtp_network.Receiver.{Receiver, real_window}
use trtp_network.Receiver.Steps.{round, receive, place, answer_ack, again}
use trtp_network.Receiver.Window.{Item}
use trtp_network.Receiver.InOrder.{HasMemory, arrival, round-runs, positive}
use trtp_network.Receiver.InOrder.Incoming
use trtp_network.Receiver.Reassembly.Store.{Holds, At-later}
use trtp_network.Receiver.Reassembly.Placed.{got, got_seq, read_r, entry, base_kept}

-- The packet is counted as ignored and as a duplicate.
abbrev counted : Receiver → Pkt → Receiver
counted r p = record r {
  base_r = if p.seqnum == 0 then 0 else r.base_r;
  packet_ignored = r.packet_ignored + 1;
  packet_duplicated = r.packet_duplicated + 1;
}

place_taken :
    (r : Receiver) (a b : ℕ) (p : Pkt) (i : ℕ)
    → rem (sub_ℕ p.seqnum (if p.seqnum == 0 then 0 else r.base_r)) real_window ≡ pos i
    → get_elem? r.slots i ≡ some (some b)
    → (p.length_field == 0) ≡ false
    → place r a p ≡ some (counted r p)
unfolding place
place_taken r a b p i at taken full = rw (at, taken) (rw full)

module _ (m : Machine) (memory : HasMemory m) (r : Receiver) (n : ℕ) (x y z : Option Item)
    (beyond : List Ptr) (holds : Holds r n x y z beyond) (p : Pkt) (body : List ℕ) (now j : ℕ)
    (ok : IsSendable p) (typed : p.type ≡ 1) (has : HasPayload p body) (full : 0 < length body)
    (fits : length body ≤ 496) (seq : p.seqnum ≡ n + j) (near : j < 4)
    (early : p.seqnum < 255) where
  -- The entry of the packet is taken: the window stays, nothing is written and nothing is sent.
  pub round-known :
      (b : ℕ)
      → get_elem? r.slots j ≡ some (some b)
      → (r' : Receiver) × (round m r (arrival m memory p body now) ≡ some (again, r'))
        × Holds r' n x y z beyond
        × (r'.stdout ≡ r.stdout)
  unfolding answer_ack
  round-known b taken = (
    s,
    round-runs m r s s (arrival m memory p body now) refl refl received (rw holds.no_nack)
        (rw holds.no_ack),
    record {
      slots = holds.slots;
      base = base_kept g.seqnum n j r.base_r seq_of holds.base;
      places = holds.places;
      first = At-later r.heap r.next (n + 1) x holds.first;
      second = At-later r.heap r.next (n + 2) y holds.second;
      third = At-later r.heap r.next (n + 3) z holds.third;
      no_nack = holds.no_nack;
      no_ack = holds.no_ack;
      sized = Incoming.sized_noted m memory r holds.sized p body ok typed has full fits;
      stamped =
          Incoming.stamped_noted m memory r holds.sized p body ok typed has full fits holds.stamped;
    },
    refl,
  )
    where
      g : Pkt
      g = got m memory r n x y z beyond holds p body now j ok typed has full fits seq near early

      read : Receiver
      read =
          read_r m memory r n x y z beyond holds p body now j ok typed has full fits seq near early

      s : Receiver
      s = counted read g

      seq_of : g.seqnum ≡ n + j
      seq_of =
          got_seq m memory r n x y z beyond holds p body now j ok typed has full fits seq near early

      nonempty : (g.length_field == 0) ≡ false
      nonempty =
          positive g.length_field
            (rw (Incoming.got_fields m memory r holds.sized p body ok typed has full fits).1 full)

      received : receive m r (some (wire m.zlib m.endian p body)) ≡ some (false, s)
      received =
          Incoming.receive-places m memory r holds.sized p body ok typed has full fits s
            (place_taken read r.next b g j at taken nonempty)
        where
          at : rem (sub_ℕ g.seqnum (if g.seqnum == 0 then 0 else r.base_r)) real_window ≡ pos j
          at = rw (base_kept g.seqnum n j r.base_r seq_of holds.base, seq_of) (entry n j near)
