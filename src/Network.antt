-- ===== src/Network.antt =====
-- The loops of src/read_write_loop_sender.c and src/read_write_loop.c, joined by a network: what one
-- hands to `write` is what the other may read.
use trtp_network.Prelude.{
  ℕ, ◌+◌, ◌<◌, length, [], ◌≡◌, List, Bool, true, false, Option, some, get_elem?,
}
use trtp_network.Build.{Machine}
use trtp_network.Receiver.{Receiver}
use trtp_network.Receiver.Steps.{Next, again, left, quiet, ready}
use trtp_network.Receiver.Steps as ReceiverSteps
use trtp_network.Sender.{Sender}
use trtp_network.Sender.Steps as SenderSteps
pub mod Transfer
pub mod Completion
pub mod Pipe
pub mod Counters
pub mod Flow
pub mod Hearing
pub mod Delivering
pub mod Moves
pub mod Invariant
pub mod Offers
pub mod Safety
pub mod Recovery
pub mod Waiting

-- Both programs. The datagrams that they have sent are in their states; `data_read` and
-- `answers_read` count those that have been delivered or lost. `over` says that the receiver has left its
-- loop.
pub record Net : Type 0 where
  pub sender : Sender
  pub receiver : Receiver
  pub data_read : ℕ
  pub answers_read : ℕ
  pub over : Bool

-- One step: a round of one of the programs in which `poll` reports no error and `read` does not fail,
-- or the loss of a datagram. The network keeps the order.
-- `ms` is the machine of the sender and `mr` that of the receiver.
pub data Step (ms mr : Machine) : Net → Net → Type 0 where
  -- The sender finds nothing to read, and its socket can be written to.
  sender_sends :
      (t : Net) (s : Sender)
      → SenderSteps.round ms t.sender (record { input = quiet; output = ready; datagram = some [] })
        ≡ some (again, s)
      → Step ms mr t (record t { sender = s })
  -- A datagram is read in a round in which the socket can be written to.
  sender_hears :
      (t : Net) (d : List ℕ) (s : Sender)
      → get_elem? t.receiver.sent t.answers_read ≡ some d
      → SenderSteps.round ms t.sender (record { input = ready; output = ready; datagram = some d })
        ≡ some (again, s)
      → Step ms mr t (record t { sender = s; answers_read = t.answers_read + 1 })
  receiver_hears :
      (t : Net) (d : List ℕ) (now : ℕ) (r : Receiver)
      → t.over ≡ false
      → get_elem? t.sender.sent t.data_read ≡ some d
      → ReceiverSteps.round mr t.receiver
          (record { input = ready; output = ready; datagram = some d; now = now })
        ≡ some (again, r)
      → Step ms mr t (record t { receiver = r; data_read = t.data_read + 1 })
  receiver_ends :
      (t : Net) (d : List ℕ) (now : ℕ) (r : Receiver)
      → t.over ≡ false
      → get_elem? t.sender.sent t.data_read ≡ some d
      → ReceiverSteps.round mr t.receiver
          (record { input = ready; output = ready; datagram = some d; now = now })
        ≡ some (left, r)
      → Step ms mr t (record t { receiver = r; data_read = t.data_read + 1; over = true })
  -- The socket of the sender cannot be written to, and nothing is read.
  sender_waits :
      (t : Net) (s : Sender)
      → SenderSteps.round ms t.sender (record { input = quiet; output = quiet; datagram = some [] })
        ≡ some (again, s)
      → Step ms mr t (record t { sender = s })
  -- The receiver finds nothing to read, whether its socket can be written to or not.
  receiver_sends :
      (t : Net) (now : ℕ) (r : Receiver)
      → t.over ≡ false
      → ReceiverSteps.round mr t.receiver
          (record { input = quiet; output = ready; datagram = some []; now = now })
        ≡ some (again, r)
      → Step ms mr t (record t { receiver = r })
  receiver_waits :
      (t : Net) (now : ℕ) (r : Receiver)
      → t.over ≡ false
      → ReceiverSteps.round mr t.receiver
          (record { input = quiet; output = quiet; datagram = some []; now = now })
        ≡ some (again, r)
      → Step ms mr t (record t { receiver = r })
  -- A datagram is read in a round in which the socket cannot be written to.
  sender_only_hears :
      (t : Net) (d : List ℕ) (s : Sender)
      → get_elem? t.receiver.sent t.answers_read ≡ some d
      → SenderSteps.round ms t.sender (record { input = ready; output = quiet; datagram = some d })
        ≡ some (again, s)
      → Step ms mr t (record t { sender = s; answers_read = t.answers_read + 1 })
  receiver_only_hears :
      (t : Net) (d : List ℕ) (now : ℕ) (r : Receiver)
      → t.over ≡ false
      → get_elem? t.sender.sent t.data_read ≡ some d
      → ReceiverSteps.round mr t.receiver
          (record { input = ready; output = quiet; datagram = some d; now = now })
        ≡ some (again, r)
      → Step ms mr t (record t { receiver = r; data_read = t.data_read + 1 })
  receiver_only_ends :
      (t : Net) (d : List ℕ) (now : ℕ) (r : Receiver)
      → t.over ≡ false
      → get_elem? t.sender.sent t.data_read ≡ some d
      → ReceiverSteps.round mr t.receiver
          (record { input = ready; output = quiet; datagram = some d; now = now })
        ≡ some (left, r)
      → Step ms mr t (record t { receiver = r; data_read = t.data_read + 1; over = true })
  data_lost :
      (t : Net)
      → t.data_read < length t.sender.sent
      → Step ms mr t (record t { data_read = t.data_read + 1 })
  answer_lost :
      (t : Net)
      → t.answers_read < length t.receiver.sent
      → Step ms mr t (record t { answers_read = t.answers_read + 1 })

pub data Reach (ms mr : Machine) : Net → Net → Type 0 where
  here : {t : Net} → Reach ms mr t t
  next : {t u v : Net} → Step ms mr t u → Reach ms mr u v → Reach ms mr t v

-- A step that loses nothing, and in which a program that reads a datagram can also write to its
-- socket. The two kinds of round that read without writing are left out: the receiver keeps only its
-- last answer, so that such a round can lose one.
abbrev pub IsKept : {ms mr : Machine} {t u : Net} → Step ms mr t u → Type 0
IsKept (sender_sends t s h) = Unit
IsKept (sender_hears t d s at h) = Unit
IsKept (receiver_hears t d now r running at h) = Unit
IsKept (receiver_ends t d now r running at h) = Unit
IsKept (sender_waits t s h) = Unit
IsKept (receiver_sends t now r running h) = Unit
IsKept (receiver_waits t now r running h) = Unit
IsKept (sender_only_hears t d s at h) = ⊥
IsKept (receiver_only_hears t d now r running at h) = ⊥
IsKept (receiver_only_ends t d now r running at h) = ⊥
IsKept (data_lost t h) = ⊥
IsKept (answer_lost t h) = ⊥

-- A run of such steps: nothing is lost, and no round reads without being able to write.
pub data Run (ms mr : Machine) : Net → Net → Type 0 where
  stop : {t : Net} → Run ms mr t t
  go : {t u v : Net} → (s : Step ms mr t u) → IsKept s → Run ms mr u v → Run ms mr t v

pub Run-append : {ms mr : Machine} {t u v : Net} → Run ms mr t u → Run ms mr u v → Run ms mr t v
Run-append stop r = r
Run-append (go step kept q) r = go step kept (Run-append q r)

-- Both programs at the start of their loops.
abbrev pub opening : Sender → Receiver → Net
opening s r = record { sender = s; receiver = r; data_read = 0; answers_read = 0; over = false }
