-- ===== src/Receiver/InOrder/Answer.antt =====
-- The receiver answers the packet that is due.
use trtp_network.Prelude.{
  ℕ, ◌+◌, ◌%◌, ◌^◌, ◌≤◌, ◌<◌, ◌≡◌, ◌≢◌, refl, ap, ◌∙◌, List, [], ◌∷◌, ◌++◌, true, false, none, some,
  arith, length, if◌then◌else◌,
}
use trtp_network.Prelude.Int.{pos, negsuc, ◌+ℤ◌, eq_ℤ}
use trtp_network.Packet.{Pkt}
use trtp_network.Codec.Encode.{HasPayload, wire}
use trtp_network.Codec.RoundTrip.{received}
use trtp_network.Build.{Machine, ack_kind, data_kind, Kind, put_on_pkt}
use trtp_network.Build.Wire.{Delivered, made, put_on_pkt-control-Delivered}
use trtp_network.Heap.{Ptr}
use trtp_network.Receiver.{Receiver, real_window, clear_and_fill_buffer_r}
use trtp_network.Receiver.Steps.{Round, ready, receive, answer_ack, send_control, round, again}
use trtp_network.Receiver.Window.{Item, clear_and_fill_buffer_r-slides, delivered}
use trtp_network.Receiver.InOrder.Place.{HasMemory, InStep, not_minus_one}
use trtp_network.Receiver.InOrder.Read.{ack_pkt}

module _ (m : Machine) (c : Receiver) (k w : ℕ) (q : Pkt) (kind : Kind)
    (fresh : m.pkt_new c.next ≡ some q) (places : c.free_place ≡ pos w) (narrow : w < 32)
    (stamped : c.last_time_pkt < 2 ^ 32) (control : kind ≢ data_kind)
    (fits : 12 ≤ length c.buffer) where
  pub control_sent : Delivered m.zlib m.endian (made q kind k w [] c.last_time_pkt) [] c.buffer (
      put_on_pkt m.zlib m.endian
        (m.room c.next)
        (some q)
        c.buffer
        none
        (pos k)
        (pos w)
        0
        kind
        c.last_time_pkt)
  control_sent =
      put_on_pkt-control-Delivered m.zlib m.endian q c.buffer k w c.last_time_pkt narrow stamped
        (m.room c.next) none kind control fits

  -- The receiver hands the datagram of the acknowledgement to `write`, and keeps no packet of it.
  pub send_control-sends :
      send_control m c (pos k) kind
      ≡ some (record c {
        buffer = control_sent.out;
        next = c.next + 1;
        sent = c.sent ++ (wire m.zlib m.endian (made q kind k w [] c.last_time_pkt) [] ∷ []);
      })
  unfolding send_control
  send_control-sends =
      rw (fresh, places, control_sent.result, control_sent.freed, control_sent.datagram)

pub round-runs :
    (m : Machine) (r s d : Receiver) (t : Round)
    → t.input ≡ ready
    → t.output ≡ ready
    → receive m r t.datagram ≡ some (false, s)
    → eq_ℤ s.nack (negsuc 0) ≡ true
    → answer_ack m s t.now ≡ some d
    → round m r t ≡ some (again, d)
round-runs m r s d t input output received calm answers =
    unfold round in rw (input, received, output) (rw (calm, answers))

pub answer_ack-runs :
    (m : Machine) (s c d : Receiver) (now : ℕ)
    → eq_ℤ s.partial_ack (negsuc 0) ≡ false
    → eq_ℤ s.nack (negsuc 0) ≡ true
    → clear_and_fill_buffer_r s ≡ some c
    → send_control m c c.partial_ack ack_kind ≡ some d
    → answer_ack m s now
      ≡ some (record d {
        ack_sent = d.ack_sent + 1;
        data_sent = d.data_sent + 1;
        base_r = if eq_ℤ d.partial_ack (pos 0) then 0 else d.base_r;
        partial_ack = negsuc 0;
        last_timestamp = now % 2 ^ 32;
      })
answer_ack-runs m s c d now pending calm clears sends =
    unfold answer_ack in rw (pending, calm, clears, sends)

module _ (m : Machine) (memory : HasMemory m) (s : Receiver) (a k now : ℕ) (beyond : List Ptr)
    (p : Pkt) (body : List ℕ) (window : s.slots ≡ some a ∷ none ∷ none ∷ none ∷ none ∷ beyond)
    (live : s.heap a ≡ some p) (has : HasPayload p body) (places : s.free_place ≡ pos 3)
    (quiet_nack : s.nack ≡ negsuc 0) (due : s.partial_ack ≡ pos k) (byte : k < 256)
    (based : (s.base_r + 1) % 4 ≡ k % 4) (sized : length s.buffer ≡ 512)
    (stamped : s.last_time_pkt < 2 ^ 32) where
  abbrev items : List Item
  items = (a, body) ∷ []

  abbrev cleared : Receiver
  cleared = record (delivered s items (none ∷ none ∷ none ∷ none ∷ none ∷ beyond)) {
    base_r = (s.base_r + 1) % real_window;
  }

  clears : clear_and_fill_buffer_r s ≡ some cleared
  clears =
      clear_and_fill_buffer_r-slides s items none none beyond (omega arith) ((p, live, has), tt)
        window

  freed_place : s.free_place +ℤ pos 1 ≡ pos 4
  freed_place = rw places (unfold ◌+ℤ◌ in refl)

  pub sent :
      Delivered m.zlib m.endian
        (made (memory.fresh s.next).0 ack_kind k 4 [] s.last_time_pkt)
        []
        s.buffer
        (put_on_pkt m.zlib m.endian
          (m.room s.next)
          (some (memory.fresh s.next).0)
          s.buffer
          none
          (pos k)
          (pos 4)
          0
          ack_kind
          s.last_time_pkt)
  sent =
      control_sent m cleared k 4 (memory.fresh s.next).0 ack_kind (memory.fresh s.next).1
        freed_place (omega arith) stamped (λ h. cc) (omega arith)

  abbrev answered : Receiver
  answered = record cleared {
    buffer = sent.out;
    next = s.next + 1;
    sent = s.sent ++ (wire m.zlib m.endian (ack_pkt k s.last_time_pkt) [] ∷ []);
  }

  sends : send_control m cleared s.partial_ack ack_kind ≡ some answered
  unfolding sent control_sent
  sends =
      ap (λ n. send_control m cleared n ack_kind) due
      ∙ send_control-sends m cleared k 4 (memory.fresh s.next).0 ack_kind (memory.fresh s.next).1
          freed_place (omega arith) stamped (λ h. cc) (omega arith)

  abbrev pub final : Receiver
  final = record answered {
    ack_sent = s.ack_sent + 1;
    data_sent = s.data_sent + 1;
    base_r = if eq_ℤ s.partial_ack (pos 0) then 0 else (s.base_r + 1) % real_window;
    partial_ack = negsuc 0;
    last_timestamp = now % 2 ^ 32;
  }

  pub answer_ack-due : answer_ack m s now ≡ some final
  answer_ack-due =
      answer_ack-runs m s cleared answered now (rw due (not_minus_one k)) (rw quiet_nack) clears
        sends

  pub final-InStep : InStep final k beyond
  final-InStep = record {
    empty = refl;
    base = based_at;
    places = freed_place;
    no_nack = quiet_nack;
    no_ack = refl;
    byte = byte;
    sized = sent.same_length ∙ sized;
    stamped = stamped;
  }
    where
      zero_base :
          (k : ℕ) (e : (s.base_r + 1) % 4 ≡ k % 4)
          → (if eq_ℤ (pos k) (pos 0) then 0 else (s.base_r + 1) % real_window) ≡ k % 4
      zero_base k e = ground arith

      based_at : (if eq_ℤ s.partial_ack (pos 0) then 0 else (s.base_r + 1) % real_window) ≡ k % 4
      based_at =
          ap (λ x. if eq_ℤ x (pos 0) then 0 else (s.base_r + 1) % real_window) due
          ∙ zero_base k based
