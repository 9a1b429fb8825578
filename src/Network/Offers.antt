-- ===== src/Network/Offers.antt =====
-- src/read_write_loop_sender.c and src/read_write_loop.c: the rounds that the network offers.
use trtp_network.Prelude.{
  ℕ, ◌+◌, ◌≤◌, ◌≡◌, inl, inr, List, [], Bool, true, false, Option, some, length, get_elem?, ◌>>=◌,
}
use trtp_network.Packet.{Pkt}
use trtp_network.Build.{Machine}
use trtp_network.Heap.{Ptr}
use trtp_network.Receiver.InOrder.{HasMemory}
use trtp_network.Receiver.Steps.{Next, again, left, quiet, ready}
use trtp_network.Receiver.Steps as ReceiverSteps
use trtp_network.Sender.Next.{IsSwift}
use trtp_network.Sender.Steps.{prepare, start}
use trtp_network.Sender.Steps as SenderSteps
use trtp_network.Network.{
  IsKept, Net, Step, sender_sends, sender_hears, receiver_hears, receiver_ends, sender_waits,
  receiver_sends, receiver_waits,
}
use trtp_network.Network.Hearing.{sends-Flow}
use trtp_network.Network.Invariant.{opens, no_datagram, in_step}
use trtp_network.Network.Moves.{Orderly, opened, flowing, finished, hears, receives}
use trtp_network.Network.Transfer.{mr}
use trtp_network.Network.Waiting.{round-silent, round-waiting, sender-waiting}

-- A round that the network offers: one of the programs finds nothing to read, with or without a socket
-- that can be written to; or it reads the next datagram, and can write.
pub data Offer (t : Net) : Type 0 where
  nothing : Offer t
  sender_idle : Offer t
  receiver_idle : (now : ℕ) → t.over ≡ false → Offer t
  receiver_silent : (now : ℕ) → t.over ≡ false → Offer t
  answer : (d : List ℕ) → get_elem? t.receiver.sent t.answers_read ≡ some d → Offer t
  packet :
      (d : List ℕ) (now : ℕ)
      → t.over ≡ false
      → get_elem? t.sender.sent t.data_read ≡ some d
      → Offer t

-- The round, with its result.
unfoldable pub play : Machine → Machine → (t : Net) → Offer t → Option Net
play ms md t nothing = do
  i ← SenderSteps.round ms t.sender (record { input = quiet; output = ready; datagram = some [] })
  some (record t { sender = i.1 })
play ms md t sender_idle = do
  i ← SenderSteps.round ms t.sender (record { input = quiet; output = quiet; datagram = some [] })
  some (record t { sender = i.1 })
play ms md t (receiver_idle now running) = do
  i ←
      ReceiverSteps.round md t.receiver
        (record { input = quiet; output = quiet; datagram = some []; now = now })
  some (record t { receiver = i.1 })
play ms md t (receiver_silent now running) = do
  i ←
      ReceiverSteps.round md t.receiver
        (record { input = quiet; output = ready; datagram = some []; now = now })
  some (record t { receiver = i.1 })
play ms md t (answer d at) = do
  i ← SenderSteps.round ms t.sender (record { input = ready; output = ready; datagram = some d })
  some (record t { sender = i.1; answers_read = t.answers_read + 1 })
play ms md t (packet d now running at) = do
  i ←
      ReceiverSteps.round md t.receiver
        (record { input = ready; output = ready; datagram = some d; now = now })
  some (elim i.0 [
    | again ↦ record t { receiver = i.1; data_read = t.data_read + 1 }
    | _ ↦ record t { receiver = i.1; data_read = t.data_read + 1; over = true }
  ])

module _ (m : Machine) (memory : HasMemory m) (swift : IsSwift m) (pkt_new : ℕ → Option Pkt)
    (room : ℕ → Bool) (clock : ℕ → ℕ)
    (memory_r : HasMemory (mr m memory swift pkt_new room clock)) where
  abbrev receiving : Machine
  receiving = mr m memory swift pkt_new room clock

  pub play-Step :
      (whole : List ℕ) (bs br : List Ptr) (t : Net) (o : Offer t)
      → length whole ≤ 122000
      → Orderly m whole bs br t
      → t.over ≡ false
      → (u : Net) × (play m receiving t o ≡ some u) × (step : Step m receiving t u) × IsKept step
  unfolding play
  play-Step whole bs br t nothing short (opened first) running =
      let (s, ran, flow) =
        opens m memory swift pkt_new room clock memory_r whole bs br short t first in
      (record t { sender = s }, (rw ran), sender_sends t s ran, tt)
  play-Step whole bs br t nothing short (flowing n k f w flow) running =
      let (s, ran, next) = sends-Flow m swift t n k f w whole bs br flow short in
      (record t { sender = s }, (rw ran), sender_sends t s ran, tt)
  play-Step whole bs br t sender_idle short o running =
      let ran = sender-waiting m t.sender in
      (record t { sender = t.sender }, (rw ran), sender_waits t t.sender ran, tt)
  play-Step whole bs br t (receiver_idle now _) short o running =
      let ran = round-waiting receiving t.receiver now in
      (
        record t { receiver = t.receiver },
        (rw ran),
        receiver_waits t now t.receiver running ran,
        tt,
      )
  play-Step whole bs br t (receiver_silent now _) short o running =
      let (n, step) = in_step m whole bs br t running o in
      let ran = round-silent receiving t.receiver n now br step in
      (
        record t { receiver = t.receiver },
        (rw ran),
        receiver_sends t now t.receiver running ran,
        tt,
      )
  play-Step whole bs br t (answer d at) short (opened first) running =
      absurd (no_datagram t.receiver.sent t.answers_read first.unanswered at)
  play-Step whole bs br t (answer d at) short (flowing n k f w flow) running =
      let (s, ran, next) =
        hears m memory swift pkt_new room clock memory_r t n k f w d whole bs br flow at short in
      (
        record t { sender = s; answers_read = t.answers_read + 1 },
        (rw ran),
        sender_hears t d s at ran,
        tt,
      )
  play-Step whole bs br t (packet d now _ at) short (opened first) running =
      absurd (no_datagram t.sender.sent t.data_read first.unsent at)
  play-Step whole bs br t (packet d now _ at) short (flowing n k f w flow) running =
      elim (receives m memory swift pkt_new room clock memory_r t n k f w now d whole bs br flow at
        short) [
          | inl (r, ran, next) ↦ (
            record t { receiver = r; data_read = t.data_read + 1 },
            (rw ran),
            receiver_hears t d now r running at ran,
            tt,
          )
          | inr (r, ran, out) ↦ (
            record t { receiver = r; data_read = t.data_read + 1; over = true },
            (rw ran),
            receiver_ends t d now r running at ran,
            tt,
          )
        ]
  play-Step whole bs br t o short (finished over out) running = absurd (cc)
