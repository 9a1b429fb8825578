-- ===== src/Sender/Timer.antt =====
-- src/read_write_loop_sender.c: the timer of the first packet in the buffer.
use mathlib.Core.Path.{subst}
use mathlib.Core.Option.{some-injective}
use trtp_network.Prelude.{
  ==_self, ℕ, ◌+◌, ◌%◌, ◌^◌, ◌<◌, ◌≡◌, sym, ap, ◌∙◌, List, [], ◌∷◌, ◌++◌, some, arith, get_elem?,
  lt→ltb,
}
use trtp_network.Packet.{Pkt, pkt_set_timestamp}
use trtp_network.Codec.Encode.{wire}
use trtp_network.Build.{Machine}
use trtp_network.Heap.{Ptr, Heap, update}
use trtp_network.Receiver.Window.{Item}
use trtp_network.Sender.{Sender}
use trtp_network.Sender.Next.{transmit-wire}
use trtp_network.Sender.Content.{Carries, Place, standing}
use trtp_network.Sender.Pace.{InPace, piece, piece_in_buffer}
use trtp_network.Sender.Steps.{resend_first, transmit, stamp}

-- The first packet of the buffer, with the time of the clock.
abbrev pub restarted : Machine → Sender → Pkt → Pkt
restarted m s p = record p { timestamp = m.clock (s.ticks + 1) % 2 ^ 32 }

abbrev pub with_restarted : Machine → Sender → ℕ → Pkt → Sender
with_restarted m s a p = record s {
  heap = update s.heap a (some (restarted m s p));
  ticks = s.ticks + 1 + 1;
}

resend_first-runs :
    (m : Machine) (s s' : Sender) (a : ℕ) (p : Pkt)
    → get_elem? s.slots 0 ≡ some (some a)
    → s.heap a ≡ some p
    → (p.timestamp + 500000) % 2 ^ 32 < m.clock s.ticks
    → transmit m (with_restarted m s a p) (some a) ≡ some s'
    → resend_first m s ≡ some s'
unfolding resend_first stamp pkt_set_timestamp
resend_first-runs m s s' a p at live late ran =
    rw (at, live, lt→ltb ((p.timestamp + 500000) % 2 ^ 32) (m.clock s.ticks) late) ran

module _ (m : Machine) where
  -- The timer of the first packet in the buffer has run out: that packet is stamped with the time of
  -- the clock and sent again, with its piece of the file; nothing else changes but the contents
  -- of the send buffer.
  pub resend_first-due :
      (s : Sender) (n f w a : ℕ) (p : Pkt) (whole : List ℕ) (items : List Item) (beyond : List Ptr)
      → InPace s n f w whole items beyond
      → get_elem? s.slots 0 ≡ some (some a)
      → s.heap a ≡ some p
      → (p.timestamp + 500000) % 2 ^ 32 < m.clock s.ticks
      → (out : List ℕ) × (resend_first m s
          ≡ some (record (with_restarted m s a p) {
            buffer = out;
            sent = s.sent ++ (wire m.zlib m.endian (restarted m s p) (piece n whole) ∷ []);
          }))
  resend_first-due s n f w a p whole items beyond pace first live late =
      let at : Place s.heap n 0 items beyond =
        standing s.heap n 0 items beyond pace.buffered (omega (arith, pace.fifty)) in
      let here : at.address ≡ a =
        some-injective _ _
          (some-injective _ _ (sym at.at ∙ ap (λ l. get_elem? l 0) (sym pace.slots_are) ∙ first)) in
      let c : Carries p (n + 0) at.body =
        subst (λ q. Carries q (n + 0) at.body)
          (some-injective _ _ (sym at.live ∙ ap s.heap here ∙ live)) at.carries in
      let is_piece : at.body ≡ piece n whole =
        piece_in_buffer pace 0 at.body (omega arith) at.is_piece
        ∙ ap (λ k. piece k whole) (plus_zero n) in
      let t =
        transmit-wire m (with_restarted m s a p) a (restarted m s p) at.body
          (stored s.heap a (restarted m s p)) c.holds c.short pace.sized in
      (
        t.0,
        resend_first-runs m s _ a p first live late t.2
            ∙ ap
                (λ b. some (record (with_restarted m s a p) {
                  buffer = t.0;
                  sent = s.sent ++ (wire m.zlib m.endian (restarted m s p) b ∷ []);
                }))
                is_piece,
      )
    where
      plus_zero : (n : ℕ) → n + 0 ≡ n
      plus_zero n = omega arith

      stored : (h : Heap) (a : ℕ) (p : Pkt) → update h a (some p) a ≡ some p
      stored h a p = rw (==_self a)
