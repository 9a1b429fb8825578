-- ===== src/Network/Moves.antt =====
-- src/read_write_loop_sender.c and src/read_write_loop.c: what a round does at any moment of a
-- transfer in order, and the states that such a transfer goes through.
use trtp_network.Prelude.{
  ℕ, zero, suc, ◌+◌, ◌-◌, ◌≤◌, ◌≡◌, ◌⊎◌, inl, inr, ap, ◌∙◌, List, [], ◌∷◌, Bool, true, false,
  Option, some, arith, length, get_elem?,
}
use trtp_network.Packet.{Pkt}
use trtp_network.Codec.Encode.{wire}
use trtp_network.Build.{Machine}
use trtp_network.Heap.{Ptr}
use trtp_network.Receiver.{Receiver}
use trtp_network.Receiver.InOrder.{HasMemory, InStep}
use trtp_network.Receiver.Steps.{Next, again, left, quiet, ready}
use trtp_network.Receiver.Steps as ReceiverSteps
use trtp_network.Receiver.Window.{Item}
use trtp_network.Sender.{Sender}
use trtp_network.Sender.Burst.{datagrams}
use trtp_network.Sender.Next.{IsSwift}
use trtp_network.Sender.Pace.{InPace}
use trtp_network.Sender.Steps as SenderSteps
use trtp_network.Network.{Net}
use trtp_network.Network.Completion.{body_cases}
use trtp_network.Network.Delivering.{delivers-Flow, ends-Flow}
use trtp_network.Network.Flow.{Flow, read_is, flying_is}
use trtp_network.Network.Hearing.{hears-Flow}
use trtp_network.Network.Transfer.{mr}

-- The state before the first round of the sender.
pub record Opened (m : Machine) (t : Net) (whole : List ℕ) (bs br : List Ptr) : Type 0 where
  pub items : List Item
  pub pace : InPace t.sender 0 0 1 whole items bs
  pub updated : t.sender.buffer_update ≡ true
  pub unsent : t.sender.sent ≡ []
  pub step : InStep t.receiver 0 br
  pub unanswered : t.receiver.sent ≡ []
  pub unwritten : t.receiver.stdout ≡ []
  pub data_at : t.data_read ≡ 0
  pub answers_at : t.answers_read ≡ 0
  pub running : t.over ≡ false

-- What holds at every moment.
pub data Orderly (m : Machine) (whole : List ℕ) (bs br : List Ptr) (t : Net) : Type 0 where
  opened : Opened m t whole bs br → Orderly m whole bs br t
  flowing : (n k f w : ℕ) → Flow m t n k f w whole bs br → Orderly m whole bs br t
  finished : t.over ≡ true → t.receiver.stdout ≡ whole → Orderly m whole bs br t

-- Where the sender is after an answer.
abbrev pub Heard : Machine → Net → Sender → ℕ → List ℕ → List Ptr → List Ptr → Type 0
Heard m t s n whole bs br =
    (k : ℕ) × (f : ℕ) × Flow m (record t { sender = s; answers_read = t.answers_read + 1 }) n k f 4
      whole bs br

-- Where the receiver is after a packet.
abbrev pub Taken : Machine → Net → Receiver → ℕ → ℕ → ℕ → List ℕ → List Ptr → List Ptr → Type 0
Taken m t r n k w whole bs br =
    (f : ℕ) × Flow m (record t { receiver = r; data_read = t.data_read + 1 }) n k f w whole bs br

module _ (m : Machine) (memory : HasMemory m) (swift : IsSwift m) (pkt_new : ℕ → Option Pkt)
    (room : ℕ → Bool) (clock : ℕ → ℕ)
    (memory_r : HasMemory (mr m memory swift pkt_new room clock)) where
  abbrev receiving : Machine
  receiving = mr m memory swift pkt_new room clock

  -- What a round of the receiver with the next packet leads to.
  abbrev pub Received : Net → ℕ → ℕ → ℕ → ℕ → List ℕ → List ℕ → List Ptr → List Ptr → Type 0
  Received t n k w now d whole bs br =
      ((r : Receiver) × (ReceiverSteps.round receiving t.receiver
            (record { input = ready; output = ready; datagram = some d; now = now })
          ≡ some (again, r))
        × Taken m t r n (suc k) w whole bs br)
      ⊎ ((r : Receiver) × (ReceiverSteps.round receiving t.receiver
              (record { input = ready; output = ready; datagram = some d; now = now })
            ≡ some (left, r))
          × (r.stdout ≡ whole))

  -- What a round of the sender with the next answer leads to.
  abbrev pub Answered : Net → ℕ → List ℕ → List ℕ → List Ptr → List Ptr → Type 0
  Answered t n d whole bs br =
      (s : Sender) × (SenderSteps.round m t.sender
          (record { input = ready; output = ready; datagram = some d })
        ≡ some (again, s))
      × Heard m t s (n + 1) whole bs br

  -- A round of the sender with the next answer.
  pub hears :
      (t : Net) (n k f w : ℕ) (d : List ℕ) (whole : List ℕ) (bs br : List Ptr)
      → Flow m t n k f w whole bs br
      → get_elem? t.receiver.sent t.answers_read ≡ some d
      → length whole ≤ 122000
      → Answered t n d whole bs br
  hears t n k f w d whole bs br flow h short =
      let (more, e) =
        read_is t.receiver.sent flow.heard flow.pending t.answers_read d flow.answered
          flow.answers_at h in
      by_size k w flow e
    where
      by_size :
          (k w : ℕ) {more : List (List ℕ)} (flow : Flow m t n k f w whole bs br)
          → flow.pending ≡ d ∷ more
          → Answered t n d whole bs br
      by_size zero w flow e = absurd (omega (arith, flow.waiting, ap length e))
      by_size (suc k) zero flow e = absurd (omega (arith, flow.wide))
      by_size (suc k) (suc w) {more} flow e =
          let (s, turned, next) =
            hears-Flow m swift memory t n k f w d more whole bs br flow e short in
          (s, turned, (k, f + (4 - w), next))

  -- A round of the receiver with the next packet: it goes on, or leaves the loop with the whole
  -- file written.
  pub receives :
      (t : Net) (n k f w now : ℕ) (d : List ℕ) (whole : List ℕ) (bs br : List Ptr)
      → Flow m t n k f w whole bs br
      → get_elem? t.sender.sent t.data_read ≡ some d
      → length whole ≤ 122000
      → Received t n k w now d whole bs br
  receives t n k f w now d whole bs br flow h short =
      let (more, e) =
        read_is t.sender.sent flow.read (datagrams m flow.flying) t.data_read d flow.sent
          flow.data_at h in
      let (p, body, rest, first, is) = flying_is m flow.flying d more e in
      by_size f p body rest flow first is
    where
      by_size :
          (f : ℕ) (p : Pkt) (body : List ℕ) (rest : List (Pkt × List ℕ))
          (flow : Flow m t n k f w whole bs br)
          → flow.flying ≡ (p, body) ∷ rest
          → d ≡ wire m.zlib m.endian p body
          → Received t n k w now d whole bs br
      by_size zero p body rest flow first is = absurd (omega (arith, flow.many, ap length first))
      by_size (suc f) p body rest flow first is = elim (body_cases body) [
        | inl empty ↦
            let (r, ran, out) =
              ends-Flow m memory swift pkt_new room clock memory_r t n k f w now p rest whole bs br
                flow (first ∙ ap (λ b. (p, b) ∷ rest) empty) in
            inr (r, with_datagram (is ∙ ap (wire m.zlib m.endian p) empty) ∙ ran, out)
        | inr filled ↦
            let (r, ran, next) =
              delivers-Flow m memory swift pkt_new room clock memory_r t n k f w now p body rest
                whole bs br flow first filled short in
            inl (r, with_datagram is ∙ ran, (f, next))
      ]
        where
          with_datagram :
              {x y : List ℕ}
              → x ≡ y
              → ReceiverSteps.round receiving t.receiver
                  (record { input = ready; output = ready; datagram = some x; now = now })
                ≡ ReceiverSteps.round receiving t.receiver
                    (record { input = ready; output = ready; datagram = some y; now = now })
          with_datagram e =
              ap
                (λ b.
                  ReceiverSteps.round receiving t.receiver
                    (record { input = ready; output = ready; datagram = some b; now = now }))
                e
