-- ===== src/Network/Pipe.antt =====
-- src/read_write_loop_sender.c and src/read_write_loop.c: what the two loops promise together, as a
-- pipe of bytes.
use mathlib.Core.Path.{subst}
use trtp_network.Prelude.{
  ℕ, suc, ◌+◌, ◌≤◌, ◌<◌, ◌≡◌, refl, sym, ap, ◌∙◌, List, [], ◌∷◌, ◌++◌, Option, some, arith, length,
  take, drop, length-take, Bool,
}
use trtp_network.Packet.{Pkt}
use trtp_network.Build.{Machine}
use trtp_network.Heap.{Ptr, Heap}
use trtp_network.Sender.{Sender}
use trtp_network.Sender.Steps.{prepare, start}
use trtp_network.Receiver.InOrder.{HasMemory}
use trtp_network.Sender.Next.{IsSwift}
use trtp_network.Sender.Burst.{Flight}
use trtp_network.Sender.Filling.{left_over}
use trtp_network.Sender.Pace.{left_over-next}
use trtp_network.Network.{Net, Run, opening}
use trtp_network.Network.Transfer.{mr, UnderWay, cycle}
use trtp_network.Receiver.Steps.{again, quiet, ready, start as receiver_start}
use trtp_network.Sender.Steps as SenderSteps
use trtp_network.Network.Completion.{AreNull, first_of, begins}

-- The bytes that have come out of the pipe, and those that are still to come.
pub record Pipe : Type 0 where
  pub written : List ℕ
  pub waiting : List ℕ

-- 488 bytes pass through.
unfoldable pub flow : Pipe → Pipe
flow p = record { written = p.written ++ take 488 p.waiting; waiting = drop 488 p.waiting }

-- The two programs stand for the pipe, with packet `n` to be delivered next.
pub record Refines (m : Machine) (t : Net) (p : Pipe) (n : ℕ) : Type 0 where
  pub whole : List ℕ
  pub bs : List Ptr
  pub br : List Ptr
  pub f : ℕ
  pub w : ℕ
  pub way : UnderWay m t n (suc f) w whole bs br
  pub wide : 0 < w
  pub small : w ≤ 4
  pub few : f < 4
  pub written_is : p.written ≡ t.receiver.stdout
  pub waiting_is : p.waiting ≡ left_over n whole

module _ (m : Machine) (memory : HasMemory m) (swift : IsSwift m) (pkt_new : ℕ → Option Pkt)
    (room : ℕ → Bool) (clock : ℕ → ℕ)
    (memory_r : HasMemory (mr m memory swift pkt_new room clock)) where
  -- While bytes are waiting and fewer than 251 packets are delivered, the two programs, over a
  -- network that delivers in order, reach by their rounds a state that stands for the pipe after one
  -- flow, with the next packet to be delivered.
  pub flow-Refines :
      (t : Net) (p : Pipe) (n : ℕ)
      → Refines m t p n
      → 0 < length p.waiting
      → n < 251
      → (v : Net) × Run m (mr m memory swift pkt_new room clock) t v × Refines m v (flow p) (n + 1)
  unfolding flow
  flow-Refines t p n r more byte =
      let (pkt, body, rest, e) = first_of m t n r.f r.w r.whole r.bs r.br r.way in
      let flight : Flight n r.whole ((pkt, body) ∷ rest) =
        subst (Flight n r.whole) (sym e) r.way.flight in
      let is_piece : body ≡ take 488 p.waiting =
        flight.0.is_piece ∙ ap (take 488) (sym r.waiting_is) in
      let (v, delivered, on, out) =
        cycle m memory swift pkt_new room clock memory_r t n r.f r.w r.whole r.bs r.br pkt body rest
          r.way e r.wide r.small r.few (omega (arith, byte))
          (omega (arith, more, ap length is_piece, length-take 488 p.waiting)) in
      (
        v,
        delivered,
        record {
          whole = r.whole;
          bs = r.bs;
          br = r.br;
          f = 3;
          w = 4;
          way = on;
          wide = omega arith;
          small = omega arith;
          few = omega arith;
          written_is =
              ap (λ b. p.written ++ b) (sym is_piece) ∙ ap (λ l. l ++ body) r.written_is ∙ sym out;
          waiting_is = ap (drop 488) r.waiting_is ∙ left_over-next n r.whole;
        },
      )

  -- From the start of both programs, with any file: the sender prepares its buffer, and its first
  -- round, which reads nothing, leads to a state that stands for the pipe in which the whole file is
  -- waiting. The buffers have their sizes and may hold anything, and the first five entries of the
  -- receiver's window are NULL; there is memory, and the clock stays below 500 ms.
  pub opening-Refines :
      (junk bs : List Ptr) (buffer buffer_r whole : List ℕ) (slots br : List Ptr) (h : Heap)
      (next_r : ℕ)
      → length junk ≡ 50
      → length buffer ≡ 512
      → length buffer_r ≡ 512
      → AreNull slots br
      → (s : Sender) × (prepare m (start (junk ++ bs) buffer whole) ≡ some s)
        × (s1 : Sender) × (SenderSteps.round m s
              (record { input = quiet; output = ready; datagram = some [] })
            ≡ some (again, s1))
        × Refines m
            (opening s1 (receiver_start slots h next_r buffer_r))
            (record { written = []; waiting = whole })
            0
  opening-Refines junk bs buffer buffer_r whole slots br h next_r fifty sized sized_r nulls =
      let (s, ran, s1, sent, way, nothing) =
        begins m memory swift pkt_new room clock memory_r junk bs buffer buffer_r whole slots br h
          next_r fifty sized sized_r nulls in
      (
        s,
        ran,
        s1,
        sent,
        record {
          whole = whole;
          bs = bs;
          br = br;
          f = 0;
          w = 1;
          way = way;
          wide = omega arith;
          small = omega arith;
          few = omega arith;
          written_is = nothing;
          waiting_is = refl;
        },
      )
