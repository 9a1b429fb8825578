-- ===== src/Sender/Turn.antt =====
-- src/read_write_loop_sender.c: one round of the loop in a transfer in order.
use mathlib.Core.Path.{subst}
use trtp_network.Prelude.{
  ℕ, suc, ◌+◌, ◌^◌, ◌≤◌, ◌<◌, ◌≡◌, refl, sym, ap, ◌∙◌, List, [], ◌∷◌, ◌++◌, some, arith, length,
  drop, inl, get_elem?, none,
}
use trtp_network.Packet.{Pkt, pkt_ok}
use trtp_network.Codec.{pkt_decode}
use trtp_network.Codec.Encode.{wire, length-sealed_header}
use trtp_network.Codec.RoundTrip.{received, pkt_decode-wire}
use trtp_network.Build.{Machine, read_into, overwrite}
use trtp_network.Build.Wire.{overwrite_lem}
use trtp_network.Heap.{Ptr}
use trtp_network.Receiver.Steps.{ready, again}
use trtp_network.Receiver.Window.{Item}
use trtp_network.Receiver.InOrder.{HasMemory, ack_pkt, length-overwrite}
use trtp_network.Sender.{Sender}
use trtp_network.Sender.Acknowledge.{Fresh, Advanced, handle_ack-Advanced}
use trtp_network.Sender.Next.{IsSwift}
use trtp_network.Sender.Burst.{datagrams}
use trtp_network.Sender.Content.{Below-Apart}
use trtp_network.Sender.Pace.{InPace}
use trtp_network.Sender.Steps.{receive, handle_ack, output_half, round}
use trtp_network.Sender.Output.{InPace-with, Turn, output_half-Turn_kept}

-- The packet that was the first of the buffer is gone from the heap.
pub record Freed (s s' : Sender) : Type 0 where
  pub address : ℕ
  pub at_front : get_elem? s.slots 0 ≡ some (some address)
  pub gone : s'.heap address ≡ none

module _ (m : Machine) (swift : IsSwift m) where
  -- The state after the datagram was read, and the packet that it holds.
  module _ (memory : HasMemory m) (s : Sender) (n t : ℕ) where
    abbrev bytes : List ℕ
    bytes = wire m.zlib m.endian (ack_pkt (n + 1) t) []

    abbrev got : Pkt
    got = received m.zlib m.endian (m.room s.next) (ack_pkt (n + 1) t) [] (memory.fresh s.next).0

    abbrev read : Sender
    read = record s { buffer = read_into s.buffer (some bytes); next = s.next + 1 }

    receive-ack :
        length s.buffer ≡ 512 → t < 2 ^ 32 → receive m s bytes ≡ handle_ack m read s.next got
    unfolding receive received
    receive-ack sized stamped = rw ((memory.fresh s.next).1, decoded)
      where
        decoded :
            pkt_decode m.zlib m.endian
              (m.room s.next)
              (overwrite s.buffer bytes)
              512
              (memory.fresh s.next).0
            ≡ some (pkt_ok, got)
        decoded =
            rw
              (overwrite_lem s.buffer bytes
                (omega (arith, sized, length-sealed_header m.zlib m.endian (ack_pkt (n + 1) t))))
              (pkt_decode-wire m.zlib m.endian (m.room s.next) (ack_pkt (n + 1) t)
                (memory.fresh s.next).0 512
                (record { stored = omega arith; typed = inl refl; short = omega arith })
                (omega arith) [] (drop (length bytes) s.buffer) (refl, λ h. absurd (omega arith)))

    receive-Advanced :
        (f w : ℕ) (whole : List ℕ) (items : List Item) (beyond : List Ptr)
        → InPace s n (suc f) w whole items beyond
        → t < 2 ^ 32
        → 0 < w
        → w ≤ 4
        → n + 1 < 256
        → (s' : Sender) × (receive m s bytes ≡ some s') × Advanced s s' n f whole beyond
    unfolding received
    receive-Advanced f w whole [] beyond pace stamped wide small byte =
        absurd (omega (arith, pace.fifty))
    receive-Advanced f w whole ((a, body) ∷ rest) beyond pace stamped wide small byte =
        let read_pace : InPace read n (suc f) w whole ((a, body) ∷ rest) beyond =
          InPace-with (read_into s.buffer (some bytes)) (s.next + 1) s.nextseqnum s.ticks
            (length-overwrite s.buffer bytes ∙ pace.sized) (omega arith) pace.next_is pace in
        let fresh : Fresh read s.next got n ((a, body) ∷ rest) = record {
          numbered = omega (arith, byte);
          free_window = refl;
          empty = refl;
          made = omega arith;
          apart = Below-Apart s.next ((a, body) ∷ rest) pace.below;
        } in
        let done =
          handle_ack-Advanced m memory swift read n f w s.next a got whole body rest beyond
            read_pace fresh wide small byte in
        (
          done.0,
          receive-ack pace.sized stamped ∙ done.1,
          record {
            items = done.2.items;
            pace = done.2.pace;
            sent_kept = done.2.sent_kept;
            updated = done.2.updated;
            address = done.2.address;
            at_front = done.2.at_front;
            freed = done.2.freed;
            apart = done.2.apart;
          },
        )

  round-runs :
      (memory : HasMemory m) (s s1 s2 : Sender) (bytes : List ℕ)
      → receive m s bytes ≡ some s1
      → output_half m s1 ready ≡ some s2
      → round m s (record { input = ready; output = ready; datagram = some bytes })
        ≡ some (again, s2)
  unfolding round
  round-runs memory s s1 s2 bytes h k = rw (h, k)

  -- A round with the acknowledgement of the first of `f + 1` packets in flight: the sender frees it,
  -- fills its place with the next piece of the file, and sends as many packets as the window of four
  -- has room for. The window was at most four, the numbers of these packets stay below 256, and the
  -- clock below 500 ms.
  pub round-Turn :
      (memory : HasMemory m) (s : Sender) (n t f k w : ℕ) (whole : List ℕ) (items : List Item)
      (beyond : List Ptr)
      → InPace s n (suc f) w whole items beyond
      → f + k ≡ 4
      → t < 2 ^ 32
      → 0 < w
      → w ≤ 4
      → n + 5 < 256
      → (s' : Sender) × (round m s (record {
        input = ready;
        output = ready;
        datagram = some (wire m.zlib m.endian (ack_pkt (n + 1) t) []);
      })
          ≡ some (again, s'))
        × Turn m s s' (n + 1) f k 4 whole beyond
        × Freed s s'
  round-Turn memory s n t f k w whole items beyond pace four stamped wide small byte =
      let heard =
        receive-Advanced memory s n t f w whole items beyond pace stamped wide small
          (omega arith) in
      let step = heard.2 in
      let out =
        output_half-Turn_kept m swift heard.0 (n + 1) f k whole step.items beyond
          (subst (λ v. InPace heard.0 (n + 1) f v whole step.items beyond) (sym four) step.pace)
          step.updated (omega (arith, four)) (omega (arith, four, byte)) in
      let turn = out.2 in
      (
        out.0,
        round-runs memory s heard.0 out.0 (wire m.zlib m.endian (ack_pkt (n + 1) t) []) heard.1
            out.1,
        record {
          items = turn.items;
          packets = turn.packets;
          count = turn.count;
          flight = turn.flight;
          sent = turn.sent ∙ ap (λ l. l ++ datagrams m turn.packets) step.sent_kept;
          pace = subst (λ v. InPace out.0 (n + 1) (f + k) v whole turn.items beyond) four turn.pace;
        },
        record {
          address = step.address;
          at_front = step.at_front;
          gone = out.3 step.address step.apart ∙ step.freed;
        },
      )
