-- ===== src/Network/Waiting.antt =====
-- src/read_write_loop_sender.c and src/read_write_loop.c: the rounds in which nothing is read and
-- nothing is to be sent.
use trtp_network.Prelude.{ℕ, ◌≡◌, refl, List, [], some}
use trtp_network.Build.{Machine}
use trtp_network.Heap.{Ptr}
use trtp_network.Receiver.{Receiver}
use trtp_network.Receiver.InOrder.{InStep}
use trtp_network.Receiver.Steps.{
  again, quiet, ready, input_half, output_half, answer_nack, answer_ack,
}
use trtp_network.Receiver.Steps as ReceiverSteps
use trtp_network.Sender.{Sender}
use trtp_network.Sender.Steps as SenderSteps

-- A round of the receiver that reads nothing, while no packet is due for an answer, changes nothing.
pub round-silent :
    (m : Machine) (r : Receiver) (n now : ℕ) (beyond : List Ptr)
    → InStep r n beyond
    → ReceiverSteps.round m r
        (record { input = quiet; output = ready; datagram = some []; now = now })
      ≡ some (again, r)
unfolding ReceiverSteps.round input_half output_half answer_nack answer_ack
round-silent m r n now beyond step = rw (step.no_nack) (rw (step.no_ack) refl)

pub round-waiting :
    (m : Machine) (r : Receiver) (now : ℕ)
    → ReceiverSteps.round m r
        (record { input = quiet; output = quiet; datagram = some []; now = now })
      ≡ some (again, r)
unfolding ReceiverSteps.round input_half output_half
round-waiting m r now = refl

pub sender-waiting :
    (m : Machine) (s : Sender)
    → SenderSteps.round m s (record { input = quiet; output = quiet; datagram = some [] })
      ≡ some (again, s)
unfolding SenderSteps.round SenderSteps.output_half
sender-waiting m s = refl
