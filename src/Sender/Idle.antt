-- ===== src/Sender/Idle.antt =====
-- src/read_write_loop_sender.c: the branch on POLLOUT where the window has no room.
use mathlib.Core.Path.{subst}
use mathlib.Core.List.{append-nil}
use trtp_network.Prelude.{
  ℕ, ◌+◌, ◌≤◌, ◌<◌, ◌≡◌, refl, sym, List, [], false, Bool-cases, inl, inr, some, arith,
}
use trtp_network.Build.{Machine}
use trtp_network.Heap.{Ptr}
use trtp_network.Receiver.Steps.{ready}
use trtp_network.Receiver.Window.{Item}
use trtp_network.Sender.{Sender}
use trtp_network.Sender.Next.{IsSwift}
use trtp_network.Sender.Pace.{InPace}
use trtp_network.Sender.Steps.{output_half}
use trtp_network.Sender.Output.{
  InPace-with, Turn, first_live, output_half-Turn, output_half-runs, resend_nack-quiet,
  resend_first-early, send_update-idle,
}

module _ (m : Machine) (swift : IsSwift m) where
  output_half-idle :
      (s : Sender) (n f w : ℕ) (whole : List ℕ) (items : List Item) (beyond : List Ptr)
      → InPace s n f w whole items beyond
      → s.buffer_update ≡ false
      → (s' : Sender) × (output_half m s ready ≡ some s') × Turn m s s' n f 0 w whole beyond
  output_half-idle s n f w whole items beyond pace idle =
      let head = first_live s n f w whole items beyond pace in
      let s' : Sender = record s { ticks = s.ticks + 1 } in
      let kept : InPace s' n f w whole items beyond =
        InPace-with s.buffer s.next s.nextseqnum (s.ticks + 1) pace.sized (omega arith) pace.next_is
          pace in
      (
        s',
        output_half-runs m s s s s' (resend_nack-quiet m s pace.quiet_nack)
            (send_update-idle m s idle)
            (resend_first-early m s head.0 head.1 head.2 head.3 head.4 (swift.below s.ticks)),
        record {
          items = items;
          packets = [];
          count = refl;
          flight = tt;
          sent = sym (append-nil s.sent);
          pace = subst (λ k. InPace s' n k w whole items beyond) (plus_zero f) kept;
        },
      )
    where
      plus_zero : (f : ℕ) → f ≡ f + 0
      plus_zero f = omega arith

  -- With as many packets in flight as the window holds, nothing is sent.
  pub output_half-full :
      (s : Sender) (n f : ℕ) (whole : List ℕ) (items : List Item) (beyond : List Ptr)
      → InPace s n f f whole items beyond
      → f ≤ 50
      → n + f < 256
      → (s' : Sender) × (output_half m s ready ≡ some s') × Turn m s s' n f 0 f whole beyond
  output_half-full s n f whole items beyond pace few byte = elim (Bool-cases s.buffer_update) [
    | inl updated ↦
        subst
          (λ w.
            (s' : Sender) × (output_half m s ready ≡ some s') × Turn m s s' n f 0 w whole beyond)
          (plus_zero f)
          (output_half-Turn m swift s n f 0 whole items beyond
            (subst (λ w. InPace s n f w whole items beyond) (sym (plus_zero f)) pace) updated
            (omega (arith, few)) (omega (arith, byte)))
    | inr idle ↦ output_half-idle s n f f whole items beyond pace idle
  ]
    where
      plus_zero : (f : ℕ) → f + 0 ≡ f
      plus_zero f = omega arith
