-- ===== src/Sender/Resend.antt =====
-- src/read_write_loop_sender.c: packets are sent again when the receiver asks for them.
use trtp_network.Prelude.{
  ℕ, ◌+◌, ◌%◌, ◌^◌, ◌≤◌, ◌<◌, ◌≡◌, refl, sym, ap, ◌∙◌, List, [], false, some, arith, length, drop,
  inl, le→ltb_false,
}
use trtp_network.Packet.{Pkt, pkt_ok, pkt_del}
use trtp_network.Codec.{pkt_decode}
use trtp_network.Codec.Encode.{wire, length-sealed_header}
use trtp_network.Codec.RoundTrip.{received, pkt_decode-wire}
use trtp_network.Build.{Machine, read_into, overwrite}
use trtp_network.Build.Wire.{overwrite_lem}
use trtp_network.Heap.{Ptr}
use trtp_network.Receiver.Steps.{ready, again}
use trtp_network.Receiver.Window.{Item}
use trtp_network.Receiver.InOrder.{HasMemory, length-overwrite}
use trtp_network.Sender.{Sender}
use trtp_network.Sender.Next.{IsSwift}
use trtp_network.Sender.Pace.{InPace}
use trtp_network.Sender.Steps.{receive, handle_nack, output_half, resend_nack, round}
use trtp_network.Sender.Output.{
  send_update-idle, InPace-with, output_half-runs, resend_first-early, first_live,
}
use trtp_network.Sender.Asked.{nack_pkt, asked, Resent, resend_nack-Resent}

-- The state after the datagram of a request was read.
abbrev noted : Sender → List ℕ → Sender
noted s bytes = record s { buffer = read_into s.buffer (some bytes); next = s.next + 1 }

module _ (m : Machine) (memory : HasMemory m) (s : Sender) (j t : ℕ) where
  abbrev bytes : List ℕ
  bytes = wire m.zlib m.endian (nack_pkt j t) []

  abbrev got : Pkt
  got = received m.zlib m.endian (m.room s.next) (nack_pkt j t) [] (memory.fresh s.next).0

  handle_nack-asked :
      s.last_valid ≤ j
      → j ≤ s.last_valid + s.window
      → j < 256
      → handle_nack (noted s bytes) got ≡ some (asked (noted s bytes) j)
  unfolding handle_nack received pkt_del
  handle_nack-asked low high byte =
      rw (byte_same, le→ltb_false j s.last_valid low, le→ltb_false (s.last_valid + s.window) j high)
    where
      byte_same : j % 256 ≡ j
      byte_same = omega (arith, byte)

  receive-nack :
      length s.buffer ≡ 512
      → t < 2 ^ 32
      → s.last_valid ≤ j
      → j ≤ s.last_valid + s.window
      → j < 256
      → receive m s bytes ≡ some (asked (noted s bytes) j)
  unfolding receive received
  receive-nack sized stamped low high byte =
      rw ((memory.fresh s.next).1, decoded) (handle_nack-asked low high byte)
    where
      decoded :
          pkt_decode m.zlib m.endian
            (m.room s.next)
            (overwrite s.buffer bytes)
            512
            (memory.fresh s.next).0
          ≡ some (pkt_ok, got)
      decoded =
          rw
            (overwrite_lem s.buffer bytes
              (omega (arith, sized, length-sealed_header m.zlib m.endian (nack_pkt j t))))
            (pkt_decode-wire m.zlib m.endian (m.room s.next) (nack_pkt j t) (memory.fresh s.next).0
              512 (record { stored = omega arith; typed = inl refl; short = omega arith })
              (omega arith) [] (drop (length bytes) s.buffer) (refl, λ h. absurd (omega arith)))

round-runs :
    (m : Machine) (s s1 s2 : Sender) (bytes : List ℕ)
    → receive m s bytes ≡ some s1
    → output_half m s1 ready ≡ some s2
    → round m s (record { input = ready; output = ready; datagram = some bytes }) ≡ some (again, s2)
unfolding round
round-runs m s s1 s2 bytes h k = rw (h, k)

module _ (m : Machine) (swift : IsSwift m) (memory : HasMemory m) where
  -- A round with the request for packet `n + i`, below 256, one of the fifty in the buffer, which
  -- starts with packet `n`: where the number is in the sender's window, `buffer_update` is not set,
  -- and the clock stays below 500 ms, the sender sends that piece of the file again and nothing
  -- else, forgets the request, and keeps its place in the transfer.
  pub round-Resent :
      (s : Sender) (n f w i t : ℕ) (whole : List ℕ) (items : List Item) (beyond : List Ptr)
      → InPace s n f w whole items beyond
      → s.buffer_update ≡ false
      → i < 50
      → n + i < 256
      → s.last_valid ≤ n + i
      → n + i ≤ s.last_valid + s.window
      → t < 2 ^ 32
      → (s' : Sender) × (round m s (record {
        input = ready;
        output = ready;
        datagram = some (wire m.zlib m.endian (nack_pkt (n + i) t) []);
      })
          ≡ some (again, s'))
        × Resent m s s' n f w (n + i) whole items beyond
  round-Resent s n f w i t whole items beyond pace idle few byte low high stamped =
      let d : List ℕ = wire m.zlib m.endian (nack_pkt (n + i) t) [] in
      let read : Sender = noted s d in
      let read_pace : InPace read n f w whole items beyond =
        InPace-with (read_into s.buffer (some d)) (s.next + 1) s.nextseqnum s.ticks
          (length-overwrite s.buffer d ∙ pace.sized) (omega arith) pace.next_is pace in
      let again_sent = resend_nack-Resent m read n f w i whole items beyond read_pace few in
      let s1 = again_sent.0 in
      let r = again_sent.2 in
      let head = first_live s1 n f w whole items beyond r.pace in
      let s2 : Sender = record s1 { ticks = s1.ticks + 1 } in
      (
        s2,
        round-runs m s (asked read (n + i)) s2 d
            (receive-nack m memory s (n + i) t pace.sized stamped low high byte)
            (output_half-runs m (asked read (n + i)) s1 s1 s2
              (ap (λ j. resend_nack m (asked read j)) (sym (byte_same (n + i) byte)) ∙ again_sent.1)
              (send_update-idle m s1 (r.update_kept ∙ idle))
              (resend_first-early m s1 head.0 head.1 head.2 head.3 head.4 (swift.below s1.ticks))),
        record {
          pkt = r.pkt;
          body = r.body;
          flying = r.flying;
          sent = r.sent;
          pace =
              InPace-with s1.buffer s1.next s1.nextseqnum (s1.ticks + 1) r.pace.sized (omega arith)
                r.pace.next_is r.pace;
          update_kept = r.update_kept;
        },
      )
    where
      byte_same : (j : ℕ) → j < 256 → j % 256 ≡ j
      byte_same j h = omega arith
