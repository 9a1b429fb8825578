-- ===== src/Network/Invariant.antt =====
-- src/read_write_loop_sender.c and src/read_write_loop.c: every transfer in which nothing is lost and
-- the order is kept.
use mathlib.Core.Path.{subst}
use mathlib.Core.Option.{some-injective}
use trtp_network.Prelude.{
  ℕ, suc, ◌+◌, ◌≤◌, ◌≡◌, ◌⊎◌, inl, inr, refl, sym, ap, ◌∙◌, List, [], ◌∷◌, ◌++◌, Bool, true, false,
  Option, some, arith, length, get_elem?,
}
use trtp_network.Packet.{Pkt}
use trtp_network.Build.{Machine}
use trtp_network.Heap.{Ptr}
use trtp_network.Receiver.{Receiver}
use trtp_network.Receiver.InOrder.{HasMemory, InStep}
use trtp_network.Receiver.Steps.{Next, again, left, quiet, ready}
use trtp_network.Receiver.Steps as ReceiverSteps
use trtp_network.Sender.{Sender}
use trtp_network.Sender.Burst.{datagrams}
use trtp_network.Sender.Next.{IsSwift}
use trtp_network.Sender.Output.{output_half-Turn, round-quiet}
use trtp_network.Sender.Steps.{prepare, start}
use trtp_network.Sender.Steps as SenderSteps
use trtp_network.Network.{
  IsKept, Run, stop, go, Net, Step, sender_sends, sender_hears, receiver_hears, receiver_ends,
  sender_waits, receiver_sends, receiver_waits, sender_only_hears, receiver_only_hears,
  receiver_only_ends, data_lost, answer_lost,
}
use trtp_network.Network.Waiting.{round-silent, round-waiting, sender-waiting}
use trtp_network.Network.Flow.{Flow}
use trtp_network.Network.Hearing.{sends-Flow}
use trtp_network.Network.Moves.{
  Opened, Orderly, opened, flowing, finished, Taken, Received, hears, receives,
}
use trtp_network.Network.Transfer.{mr}

same :
    {A : Type 0} {i j : Next} {x y : A} {o : Option (Next × A)}
    → o ≡ some (i, x)
    → o ≡ some (j, y)
    → (i ≡ j) × (x ≡ y)
same e f = let p = some-injective _ _ (sym e ∙ f) in (ap (λ q. q.0) p, ap (λ q. q.1) p)

pub no_datagram : {d : List ℕ} (l : List (List ℕ)) (k : ℕ) → l ≡ [] → get_elem? l k ≡ some d → ⊥
no_datagram [] k e h = cc
no_datagram (x ∷ l) k e h = cc

-- While the receiver is in its loop, it is in step.
pub in_step :
    (m : Machine) (whole : List ℕ) (bs br : List Ptr) (t : Net)
    → t.over ≡ false
    → Orderly m whole bs br t
    → (n : ℕ) × InStep t.receiver n br
in_step m whole bs br t running (opened first) = (0, first.step)
in_step m whole bs br t running (flowing n k f w flow) = (n + k, flow.step)
in_step m whole bs br t running (finished over out) = absurd (cc)

module _ (m : Machine) (memory : HasMemory m) (swift : IsSwift m) (pkt_new : ℕ → Option Pkt)
    (room : ℕ → Bool) (clock : ℕ → ℕ)
    (memory_r : HasMemory (mr m memory swift pkt_new room clock)) where
  abbrev receiving : Machine
  receiving = mr m memory swift pkt_new room clock

  module _ (whole : List ℕ) (bs br : List Ptr) (short : length whole ≤ 122000) where
    -- The first round of the sender.
    pub opens :
        (t : Net)
        → Opened m t whole bs br
        → (s : Sender) × (SenderSteps.round m t.sender
              (record { input = quiet; output = ready; datagram = some [] })
            ≡ some (again, s))
          × Flow m (record t { sender = s }) 0 0 1 1 whole bs br
    opens t first =
        let (s, out, turn) =
          output_half-Turn m swift t.sender 0 0 1 whole first.items bs first.pace first.updated
            (omega arith) (omega arith) in
        (
          s,
          round-quiet m t.sender s out,
          record {
            items = turn.items;
            flying = turn.packets;
            pending = [];
            read = [];
            heard = [];
            pace = turn.pace;
            step = first.step;
            full = refl;
            wide = omega arith;
            small = omega arith;
            many = turn.count;
            flight = turn.flight;
            sent = turn.sent ∙ ap (λ l. l ++ datagrams m turn.packets) first.unsent;
            data_at = first.data_at;
            data_count = first.data_at;
            answers = tt;
            waiting = refl;
            answered = first.unanswered;
            answers_at = first.answers_at;
            answers_count = first.answers_at;
            written = ap (λ l. l ++ whole) first.unwritten;
            nonempty = omega arith;
            running = first.running;
          },
        )

    sends-Orderly :
        (t : Net) (s : Sender)
        → SenderSteps.round m t.sender
            (record { input = quiet; output = ready; datagram = some [] })
          ≡ some (again, s)
        → Orderly m whole bs br t
        → Orderly m whole bs br (record t { sender = s })
    sends-Orderly t s h (opened first) =
        let (s', ran, flow) = opens t first in
        subst (λ x. Orderly m whole bs br (record t { sender = x })) (same ran h).1
          (flowing 0 0 1 1 flow)
    sends-Orderly t s h (flowing n k f w flow) =
        let (s', ran, next) = sends-Flow m swift t n k f w whole bs br flow short in
        subst (λ x. Orderly m whole bs br (record t { sender = x })) (same ran h).1
          (flowing n k f w next)
    sends-Orderly t s h (finished over out) = finished over out

    hears-Orderly :
        (t : Net) (d : List ℕ) (s : Sender)
        → get_elem? t.receiver.sent t.answers_read ≡ some d
        → SenderSteps.round m t.sender (record { input = ready; output = ready; datagram = some d })
          ≡ some (again, s)
        → Orderly m whole bs br t
        → Orderly m whole bs br (record t { sender = s; answers_read = t.answers_read + 1 })
    hears-Orderly t d s at h (opened first) =
        absurd (no_datagram t.receiver.sent t.answers_read first.unanswered at)
    hears-Orderly t d s at h (flowing n k f w flow) =
        let (s', ran, (k', f', next)) =
          hears m memory swift pkt_new room clock memory_r t n k f w d whole bs br flow at short in
        subst
          (λ x. Orderly m whole bs br (record t { sender = x; answers_read = t.answers_read + 1 }))
          (same ran h).1 (flowing (n + 1) k' f' 4 next)
    hears-Orderly t d s at h (finished over out) = finished over out

    -- The two ways in which a round of the receiver ends.
    received :
        (t : Net) (n k w now : ℕ) (d : List ℕ) (i : Next) (r : Receiver)
        → ReceiverSteps.round receiving t.receiver
            (record { input = ready; output = ready; datagram = some d; now = now })
          ≡ some (i, r)
        → Received m memory swift pkt_new room clock memory_r t n k w now d whole bs br
        → ((i ≡ again) × Taken m t r n (suc k) w whole bs br) ⊎ ((i ≡ left) × (r.stdout ≡ whole))
    received t n k w now d i r h (inl (r', ran, taken)) =
        inl (
          sym (same ran h).0,
          subst (λ x. Taken m t x n (suc k) w whole bs br) (same ran h).1 taken,
        )
    received t n k w now d i r h (inr (r', ran, out)) =
        inr (sym (same ran h).0, ap (λ x. x.stdout) (sym (same ran h).1) ∙ out)

    receives-Orderly :
        (t : Net) (d : List ℕ) (now : ℕ) (r : Receiver)
        → t.over ≡ false
        → get_elem? t.sender.sent t.data_read ≡ some d
        → ReceiverSteps.round receiving t.receiver
            (record { input = ready; output = ready; datagram = some d; now = now })
          ≡ some (again, r)
        → Orderly m whole bs br t
        → Orderly m whole bs br (record t { receiver = r; data_read = t.data_read + 1 })
    receives-Orderly t d now r running at h (opened first) =
        absurd (no_datagram t.sender.sent t.data_read first.unsent at)
    receives-Orderly t d now r running at h (flowing n k f w flow) =
        elim (received t n k w now d again r h (
          receives m memory swift pkt_new room clock memory_r t n k f w now d whole bs br flow at
            short)) [
              | inl (e, (f', next)) ↦ flowing n (suc k) f' w next
              | inr (e, out) ↦ absurd (cc)
            ]
    receives-Orderly t d now r running at h (finished over out) = absurd (cc)

    ends-Orderly :
        (t : Net) (d : List ℕ) (now : ℕ) (r : Receiver)
        → t.over ≡ false
        → get_elem? t.sender.sent t.data_read ≡ some d
        → ReceiverSteps.round receiving t.receiver
            (record { input = ready; output = ready; datagram = some d; now = now })
          ≡ some (left, r)
        → Orderly m whole bs br t
        → Orderly m whole bs br
            (record t { receiver = r; data_read = t.data_read + 1; over = true })
    ends-Orderly t d now r running at h (opened first) =
        absurd (no_datagram t.sender.sent t.data_read first.unsent at)
    ends-Orderly t d now r running at h (flowing n k f w flow) =
        elim (received t n k w now d left r h (
          receives m memory swift pkt_new room clock memory_r t n k f w now d whole bs br flow at
            short)) [ inl (e, (f', next)) ↦ absurd (cc) | inr (e, out) ↦ finished refl out ]
    ends-Orderly t d now r running at h (finished over out) = absurd (cc)

    -- The receiver stays where it is.
    silent-Orderly :
        (t : Net) (r : Receiver)
        → t.receiver ≡ r
        → Orderly m whole bs br t
        → Orderly m whole bs br (record t { receiver = r })
    silent-Orderly t r e = subst (λ x. Orderly m whole bs br (record t { receiver = x })) e

    -- So does the sender.
    waiting-Orderly :
        (t : Net) (s : Sender)
        → t.sender ≡ s
        → Orderly m whole bs br t
        → Orderly m whole bs br (record t { sender = s })
    waiting-Orderly t s e = subst (λ x. Orderly m whole bs br (record t { sender = x })) e

    silent_receiver :
        (t : Net) (now : ℕ) (r : Receiver)
        → t.over ≡ false
        → Orderly m whole bs br t
        → ReceiverSteps.round receiving t.receiver
            (record { input = quiet; output = ready; datagram = some []; now = now })
          ≡ some (again, r)
        → t.receiver ≡ r
    silent_receiver t now r running o h =
        let (n, step) = in_step m whole bs br t running o in
        (same (round-silent receiving t.receiver n now br step) h).1

    Step-Orderly :
        (t u : Net) (step : Step m receiving t u)
        → IsKept step
        → Orderly m whole bs br t
        → Orderly m whole bs br u
    Step-Orderly t _ (sender_sends _ s h) kept o = sends-Orderly t s h o
    Step-Orderly t _ (sender_hears _ d s at h) kept o = hears-Orderly t d s at h o
    Step-Orderly t _ (receiver_hears _ d now r running at h) kept o =
        receives-Orderly t d now r running at h o
    Step-Orderly t _ (receiver_ends _ d now r running at h) kept o =
        ends-Orderly t d now r running at h o
    Step-Orderly t _ (sender_waits _ s h) kept o =
        waiting-Orderly t s (same (sender-waiting m t.sender) h).1 o
    Step-Orderly t _ (receiver_sends _ now r running h) kept o =
        silent-Orderly t r (silent_receiver t now r running o h) o
    Step-Orderly t _ (receiver_waits _ now r running h) kept o =
        silent-Orderly t r (same (round-waiting receiving t.receiver now) h).1 o
    Step-Orderly t _ (sender_only_hears _ d s at h) kept o = absurd kept
    Step-Orderly t _ (receiver_only_hears _ d now r running at h) kept o = absurd kept
    Step-Orderly t _ (receiver_only_ends _ d now r running at h) kept o = absurd kept
    Step-Orderly t _ (data_lost _ h) kept o = absurd kept
    Step-Orderly t _ (answer_lost _ h) kept o = absurd kept

    pub Run-Orderly :
        {t u : Net} → Run m receiving t u → Orderly m whole bs br t → Orderly m whole bs br u
    Run-Orderly stop o = o
    Run-Orderly (go {t} {u} step kept run) o = Run-Orderly run (Step-Orderly t u step kept o)
