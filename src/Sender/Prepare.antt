-- ===== src/Sender/Prepare.antt =====
-- src/read_write_loop_sender.c, `read_write_loop_sender` up to its loop: the first filling.
use mathlib.Core.Path.{subst}
use trtp_network.Prelude.{
  ℕ, ◌+◌, ◌%◌, ◌^◌, ◌≡◌, refl, sym, ap, ◌∙◌, List, [], ◌++◌, true, false, none, some, arith, length,
}
use trtp_network.Prelude.Int.{pos}
use trtp_network.Packet.{Pkt}
use trtp_network.Build.{Machine, ack_kind, put_on_pkt}
use trtp_network.Build.Wire.{made, put_on_pkt-control-Delivered}
use trtp_network.Heap.{Ptr, update}
use trtp_network.Receiver.Window.{Item}
use trtp_network.Receiver.InOrder.{HasMemory}
use trtp_network.Sender.{Sender, clock32, insert_packets, fill_buffer, print_window}
use trtp_network.Sender.Next.{IsSwift}
use trtp_network.Sender.Pace.{InPace}
use trtp_network.Sender.Refill.{print_window-live}
use trtp_network.Sender.Steps.{prepare, start}
use trtp_network.Sender.First.{HasFirst, insert_packets-HasFirst}

fill_buffer-runs :
    (m : Machine) (win : ℕ) (s s' : Sender)
    → insert_packets m false win 50 0 s ≡ some s'
    → print_window s'.window s'.heap s'.slots ≡ some tt
    → fill_buffer m win s ≡ some s'
unfolding fill_buffer
fill_buffer-runs m win s s' filled printed = rw (filled, printed)

-- The first state with `last_ack`, and the filled one.
abbrev with_ack : Machine → Sender → Pkt → List ℕ → Sender
with_ack m s p out = record s {
  buffer = out;
  heap = update s.heap s.next (some p);
  last_ack = some s.next;
  next = s.next + 1;
  rtt_delay = m.clock (s.ticks + 1) % 2 ^ 32;
  ticks = s.ticks + 2;
}

prepare-runs :
    (m : Machine) (s s' : Sender) (q p : Pkt) (out : List ℕ) (size : ℕ)
    → m.pkt_new s.next ≡ some q
    → put_on_pkt m.zlib m.endian
        (m.room s.next)
        (some q)
        s.buffer
        none
        (pos 0)
        (pos 1)
        0
        ack_kind
        (clock32 m s)
      ≡ some (p, out, size)
    → fill_buffer m s.window (with_ack m s p out) ≡ some s'
    → prepare m s ≡ some (record s' { buffer_update = true })
unfolding prepare
prepare-runs m s s' q p out size fresh built filled = rw (fresh, built, filled)

-- The sender before its first round.
pub record Prepared (s : Sender) (whole : List ℕ) (beyond : List Ptr) : Type 0 where
  pub items : List Item
  pub pace : InPace s 0 0 1 whole items beyond
  pub updated : s.buffer_update ≡ true
  pub unsent : s.sent ≡ []

HasFirst-Prepared :
    (s : Sender) (whole : List ℕ) (items : List Item) (beyond : List Ptr)
    → HasFirst s 50 whole items beyond
    → Prepared (record s { buffer_update = true }) whole beyond
HasFirst-Prepared s whole items beyond h = record {
  items = items;
  pace = record {
    slots_are = h.slots_are;
    fifty = h.count;
    buffered = h.buffered;
    distinct = h.distinct;
    below = h.below;
    acked = record {
      address = h.acked.address;
      packet = h.acked.packet;
      kept = h.acked.kept;
      live = h.acked.live;
      numbered = h.acked.numbered;
      freeable = h.acked.freeable;
      old = h.acked.old;
      apart = h.acked.apart;
    };
    base_is = h.base_is;
    next_is = h.next_is;
    window_is = h.window_is;
    quiet_nack = h.quiet_nack;
    count_is = h.count_is;
    sized = h.sized;
    in_buffer = h.in_buffer;
    in_file = h.in_file;
  };
  updated = refl;
  unsent = h.unsent;
}

module _ (m : Machine) (memory : HasMemory m) (swift : IsSwift m) where
  -- Whatever the memory holds, where packets find room and the clock stays below 500 ms: the sender
  -- fills its buffer with the first fifty pieces of the file, and has sent nothing.
  pub prepare-Prepared :
      (junk beyond : List Ptr) (buffer whole : List ℕ)
      → length junk ≡ 50
      → length buffer ≡ 512
      → (s : Sender) × (prepare m (start (junk ++ beyond) buffer whole) ≡ some s)
        × Prepared s whole beyond
  unfolding start
  prepare-Prepared junk beyond buffer whole fifty sized =
      let s0 : Sender = start (junk ++ beyond) buffer whole in
      let q : Pkt = (memory.fresh 0).0 in
      let p : Pkt = made q ack_kind 0 1 [] (clock32 m s0) in
      let ack =
        put_on_pkt-control-Delivered m.zlib m.endian q buffer 0 1 (clock32 m s0) (omega arith)
          (omega arith) (m.room 0) none ack_kind (λ h. cc) (omega (arith, sized)) in
      let s1 : Sender = with_ack m s0 p ack.out in
      let first : HasFirst s1 0 whole [] (junk ++ beyond) = record {
        slots_are = refl;
        count = refl;
        buffered = tt;
        distinct = tt;
        below = tt;
        acked = record {
          address = 0;
          packet = p;
          kept = refl;
          live = refl;
          numbered = refl;
          freeable = ack.freed;
          old = omega arith;
          apart = tt;
        };
        base_is = refl;
        next_is = refl;
        window_is = refl;
        quiet_nack = refl;
        count_is = refl;
        sized = ack.same_length ∙ sized;
        unsent = refl;
        in_buffer = refl;
        in_file = refl;
      } in
      let fill =
        insert_packets-HasFirst m memory swift 1 (omega arith) false junk 0 s1 whole [] beyond
          first in
      let s2 = fill.0 in
      let full : HasFirst s2 50 whole fill.1 beyond =
        subst (λ k. HasFirst s2 k whole fill.1 beyond) (zero_plus (length junk) ∙ fifty) fill.3 in
      (
        record s2 { buffer_update = true },
        prepare-runs m s0 s2 q p ack.out ack.size (memory.fresh 0).1 ack.result (
            fill_buffer-runs m 1 s1 s2
              (ap (λ k. insert_packets m false 1 k 0 s1) (sym fifty) ∙ fill.2)
              (ap (λ w. print_window w s2.heap s2.slots) full.window_is
                ∙ ap (print_window 1 s2.heap) full.slots_are
                ∙ print_window-live 1 s2.heap 0 fill.1 beyond full.buffered
                    (omega (arith, full.count)))),
        HasFirst-Prepared s2 whole fill.1 beyond full,
      )
    where
      zero_plus : (n : ℕ) → 0 + n ≡ n
      zero_plus n = omega arith
