-- ===== src/Receiver/Reassembly/Dropped.antt =====
-- src/read_write_loop.c, `read_write_loop`: what is noted of a datagram that cannot be decoded.
use trtp_network.Prelude.{
  Bool, ℕ, suc, zero, ◌+◌, ◌≡◌, refl, List, ◌∷◌, true, false, none, some, arith, if◌then◌else◌,
  ◌==◌, ◌&&◌, ltb,
}
use trtp_network.Prelude.Int.{pos}
use trtp_network.Packet.{Pkt, Status}
use trtp_network.Heap.{Ptr}
use trtp_network.Receiver.{Receiver, real_window}
use trtp_network.Receiver.Steps.{is_null_at, drop_packet}

-- The test on a sequence number of the window stays inside `listPkt`.
pub looked_at :
    (x y z : Ptr) (l : List Ptr) (k : ℕ)
    → (lost : Bool) × ((if ltb k (0 + real_window) && ltb 0 k
          then is_null_at (none ∷ x ∷ y ∷ z ∷ l) k
          else some false)
        ≡ some lost)
looked_at x y z l zero = (false, refl)
looked_at none y z l (suc zero) = (true, refl)
looked_at (some a) y z l (suc zero) = (false, refl)
looked_at x none z l (suc (suc zero)) = (true, refl)
looked_at x (some a) z l (suc (suc zero)) = (false, refl)
looked_at x y none l (suc (suc (suc zero))) = (true, refl)
looked_at x y (some a) l (suc (suc (suc zero))) = (false, refl)
looked_at x y z l (suc (suc (suc (suc k)))) = (false, (rw (far k)))
  where
    far : (k : ℕ) → ltb (suc (suc (suc (suc k)))) 4 ≡ false
    far k = ground arith

-- What `drop_packet` notes.
abbrev pub dropped : Receiver → Pkt → Bool → Receiver
dropped r p lost = record r {
  data_truncated = if p.tr == 1 then r.data_truncated + 1 else r.data_truncated;
  nack = if lost then pos p.seqnum else r.nack;
  packet_ignored = r.packet_ignored + 1;
}

pub drop_packet-drops :
    (r : Receiver) (p : Pkt) (lost : Bool)
    → (if ltb p.seqnum (0 + real_window) && ltb 0 p.seqnum
        then is_null_at r.slots p.seqnum
        else some false)
      ≡ some lost
    → drop_packet r p ≡ some (dropped r p lost)
unfolding drop_packet trtp_network.Packet.pkt_del trtp_network.Packet.pkt_set_length
drop_packet-drops r p lost h = rw h
