-- ===== src/Receiver/Reassembly/Answered.antt =====
-- src/read_write_loop.c, `read_write_loop`: how a round answers, whatever the window delivered.
use trtp_network.Prelude.{
  ℕ, ◌+◌, ◌%◌, ◌^◌, ◌≤◌, ◌<◌, ◌≡◌, ◌≢◌, refl, ap, ◌∙◌, List, [], ◌∷◌, ◌++◌, none, some, arith,
  length, if◌then◌else◌,
}
use trtp_network.Prelude.Int.{pos, negsuc, eq_ℤ}
use trtp_network.Packet.{Pkt}
use trtp_network.Codec.Encode.{wire}
use trtp_network.Build.{Machine, ack_kind, data_kind, put_on_pkt}
use trtp_network.Build.Wire.{made, Delivered}
use trtp_network.Heap.{Ptr, Heap}
use trtp_network.Receiver.{Receiver, clear_and_fill_buffer_r}
use trtp_network.Receiver.Steps.{answer_ack, send_control}
use trtp_network.Receiver.InOrder.{
  HasMemory, not_minus_one, control_sent, send_control-sends, answer_ack-runs,
}

-- The window after a delivery, or without one: what `clear_and_fill_buffer_r` may change.
pub record Cleared : Type 0 where
  pub slots : List Ptr
  pub heap : Heap
  pub base : ℕ
  pub places : ℕ
  pub output : List ℕ

abbrev pub with_window : Receiver → Cleared → Receiver
with_window s c = record s {
  slots = c.slots;
  heap = c.heap;
  base_r = c.base;
  free_place = pos c.places;
  stdout = c.output;
}

module _ (m : Machine) (memory : HasMemory m) (s : Receiver) (c : Cleared) (k now : ℕ)
    (clears : clear_and_fill_buffer_r s ≡ some (with_window s c)) (calm : s.nack ≡ negsuc 0)
    (due : s.partial_ack ≡ pos k) (first : 0 < k) (narrow : c.places < 32)
    (sized : length s.buffer ≡ 512) (stamped : s.last_time_pkt < 2 ^ 32) where
  abbrev fresh : Pkt
  fresh = (memory.fresh s.next).0

  abbrev cleared : Receiver
  cleared = with_window s c

  pub wide : 12 ≤ length s.buffer
  wide = omega arith

  pub control : ack_kind ≢ data_kind
  control h = cc

  abbrev pub sent :
      Delivered m.zlib m.endian (made fresh ack_kind k c.places [] s.last_time_pkt) [] s.buffer (
        put_on_pkt m.zlib m.endian
          (m.room s.next)
          (some fresh)
          s.buffer
          none
          (pos k)
          (pos c.places)
          0
          ack_kind
          s.last_time_pkt)
  sent =
      control_sent m cleared k c.places fresh ack_kind (memory.fresh s.next).1 refl narrow stamped
        control wide

  abbrev handed : Receiver
  handed = record cleared {
    buffer = sent.out;
    next = s.next + 1;
    sent =
        s.sent
        ++ (wire m.zlib m.endian (made fresh ack_kind k c.places [] s.last_time_pkt) [] ∷ []);
  }

  sends : send_control m cleared s.partial_ack ack_kind ≡ some handed
  sends =
      ap (λ n. send_control m cleared n ack_kind) due
      ∙ send_control-sends m cleared k c.places fresh ack_kind (memory.fresh s.next).1 refl narrow
          stamped control wide

  abbrev pub answered : Receiver
  answered = record handed {
    ack_sent = s.ack_sent + 1;
    data_sent = s.data_sent + 1;
    base_r = if eq_ℤ s.partial_ack (pos 0) then 0 else c.base;
    partial_ack = negsuc 0;
    last_timestamp = now % 2 ^ 32;
  }

  pub answer_ack-answers : answer_ack m s now ≡ some answered
  answer_ack-answers =
      answer_ack-runs m s cleared handed now (rw due (not_minus_one k)) (rw calm) clears sends

  pub base_stays : answered.base_r ≡ c.base
  base_stays = ap (λ x. if eq_ℤ x (pos 0) then 0 else c.base) due ∙ positive_base k first
    where
      positive_base : (k : ℕ) → 0 < k → (if eq_ℤ (pos k) (pos 0) then 0 else c.base) ≡ c.base
      positive_base k h = ground arith

  pub answered_sized : length answered.buffer ≡ 512
  answered_sized = sent.same_length ∙ sized
