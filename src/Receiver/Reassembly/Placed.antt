-- ===== src/Receiver/Reassembly/Placed.antt =====
-- src/read_write_loop.c, `read_write_loop`: a round with a packet for a free entry of the window, up
-- to what `clear_and_fill_buffer_r` delivers.
use trtp_network.Prelude.{
  Option, ℕ, ◌+◌, ◌%◌, ◌^◌, ◌≤◌, ◌<◌, ◌≡◌, refl, ap, ◌∙◌, List, ◌∷◌, false, none, some, arith,
  length, get_elem?, put, if◌then◌else◌, ◌==◌,
}
use trtp_network.Prelude.Int.{pos, sub_ℕ, rem}
use trtp_network.Packet.{Pkt}
use trtp_network.Codec.Encode.{HasPayload, wire}
use trtp_network.Codec.RoundTrip.{IsSendable}
use trtp_network.Build.{Machine}
use trtp_network.Heap.{Ptr}
use trtp_network.Receiver.{Receiver, real_window, clear_and_fill_buffer_r}
use trtp_network.Receiver.Steps.{round, receive, again}
use trtp_network.Receiver.Window.{Item}
use trtp_network.Receiver.InOrder.{HasMemory, arrival, place_free, put_at, round-runs}
use trtp_network.Receiver.InOrder.Incoming
use trtp_network.Receiver.Reassembly.Store.{Holds, At, At-later, ptr, room}
pub use trtp_network.Receiver.Reassembly.Answered.{Cleared, with_window}
use trtp_network.Receiver.Reassembly.Answered.{
  answered, answer_ack-answers, base_stays, answered_sized,
}

pub base_kept : (i n j b : ℕ) → i ≡ n + j → b ≡ n % 4 → (if i == 0 then 0 else b) ≡ n % 4
base_kept i n j b e h = ground arith

pub entry : (n j : ℕ) → j < 4 → rem (sub_ℕ (n + j) (n % 4)) real_window ≡ pos j
unfolding rem
entry n j h = ground arith

-- It is a window of packets from number `n` on, as `Holds` has it.
pub record IsWindow (c : Cleared) (next n : ℕ) (x y z : Option Item) (beyond : List Ptr)
    : Type 0 where
  pub entries : c.slots ≡ none ∷ ptr x ∷ ptr y ∷ ptr z ∷ none ∷ beyond
  pub based : c.base ≡ n % 4
  pub room_left : c.places ≡ 1 + room x + room y + room z
  pub first : At c.heap next (n + 1) x
  pub second : At c.heap next (n + 2) y
  pub third : At c.heap next (n + 3) z

pub room_few : (x y z : Option Item) → 1 + room x + room y + room z < 32
room_few none none none = omega arith
room_few none none (some z) = omega arith
room_few none (some y) none = omega arith
room_few none (some y) (some z) = omega arith
room_few (some x) none none = omega arith
room_few (some x) none (some z) = omega arith
room_few (some x) (some y) none = omega arith
room_few (some x) (some y) (some z) = omega arith

module _ (m : Machine) (memory : HasMemory m) (r : Receiver) (n : ℕ) (x y z : Option Item)
    (beyond : List Ptr) (holds : Holds r n x y z beyond) (p : Pkt) (body : List ℕ) (now j : ℕ)
    (ok : IsSendable p) (typed : p.type ≡ 1) (has : HasPayload p body) (full : 0 < length body)
    (fits : length body ≤ 496) (seq : p.seqnum ≡ n + j) (near : j < 4)
    (early : p.seqnum < 255) where
  abbrev pub got : Pkt
  got = Incoming.got m memory r holds.sized p body ok typed has full fits

  abbrev pub read_r : Receiver
  read_r = Incoming.noted m memory r (wire m.zlib m.endian p body) got.timestamp

  abbrev pub stored : List Ptr → Receiver
  stored slots = put_at read_r r.next got slots

  pub got_seq : got.seqnum ≡ n + j
  got_seq = (Incoming.got_fields m memory r holds.sized p body ok typed has full fits).0 ∙ seq

  pub got_has : HasPayload got body
  got_has = Incoming.got-HasPayload m memory r holds.sized p body ok typed has full fits

  pub stored_base : (slots : List Ptr) → (stored slots).base_r ≡ n % 4
  stored_base slots = base_kept got.seqnum n j r.base_r got_seq holds.base

  -- A packet for a free entry, and what `clear_and_fill_buffer_r` then makes of the window: the round
  -- goes on with that window, and has written what it delivered.
  pub round-Holds :
      (slots : List Ptr) (c : Cleared) (n' : ℕ) (x' y' z' : Option Item)
      → get_elem? r.slots j ≡ some none
      → put r.slots j (some r.next) ≡ some slots
      → clear_and_fill_buffer_r (stored slots) ≡ some (with_window (stored slots) c)
      → IsWindow c (r.next + 1) n' x' y' z' beyond
      → (r' : Receiver) × (round m r (arrival m memory p body now) ≡ some (again, r'))
        × Holds r' n' x' y' z' beyond
        × (r'.stdout ≡ c.output)
  round-Holds slots c n' x' y' z' free written clears w = (
    r',
    round-runs m r s r' (arrival m memory p body now) refl refl received (rw holds.no_nack) (
        answer_ack-answers m memory s c k now clears holds.no_nack refl first narrow sized stamped),
    record {
      slots = w.entries;
      base =
          base_stays m memory s c k now clears holds.no_nack refl first narrow sized stamped
          ∙ w.based;
      places = ap pos w.room_left;
      first = At-later c.heap (r.next + 1) (n' + 1) x' w.first;
      second = At-later c.heap (r.next + 1) (n' + 2) y' w.second;
      third = At-later c.heap (r.next + 1) (n' + 3) z' w.third;
      no_nack = holds.no_nack;
      no_ack = refl;
      sized =
          answered_sized m memory s c k now clears holds.no_nack refl first narrow sized stamped;
      stamped = stamped;
    },
    refl,
  )
    where
      s : Receiver
      s = stored slots

      k : ℕ
      k = (got.seqnum + 1) % 256

      first : 0 < k
      first = omega (
        arith,
        early,
        (Incoming.got_fields m memory r holds.sized p body ok typed has full fits).0,
      )

      narrow : c.places < 32
      narrow = rw w.room_left (room_few x' y' z')

      sized : length s.buffer ≡ 512
      sized = Incoming.sized_noted m memory r holds.sized p body ok typed has full fits

      stamped : s.last_time_pkt < 2 ^ 32
      stamped =
          Incoming.stamped_noted m memory r holds.sized p body ok typed has full fits holds.stamped

      r' : Receiver
      r' = answered m memory s c k now clears holds.no_nack refl first narrow sized stamped

      received : receive m r (some (wire m.zlib m.endian p body)) ≡ some (false, s)
      received =
          Incoming.receive-places m memory r holds.sized p body ok typed has full fits s
            (place_free read_r r.next got j slots at free written)
        where
          at : rem (sub_ℕ got.seqnum (if got.seqnum == 0 then 0 else r.base_r)) real_window ≡ pos j
          at = rw (stored_base slots, got_seq) (entry n j near)
