-- ===== src/Network/Safety.antt =====
-- src/read_write_loop_sender.c and src/read_write_loop.c: every transfer in which nothing is lost and
-- the order is kept is safe, and can go on until it is complete.
use mathlib.Core.Path.{subst}
use mathlib.Core.Option.{some-injective}
use trtp_network.Prelude.{
  length-append, ℕ, zero, suc, ◌+◌, ◌*◌, ◌≤◌, ◌<◌, ◌≡◌, ◌⊎◌, inl, inr, refl, sym, ap, ◌∙◌, List, [],
  ◌∷◌, ◌++◌, Bool, true, false, Option, some, arith, length,
}
use trtp_network.Packet.{Pkt}
use trtp_network.Build.{Machine}
use trtp_network.Heap.{Ptr, Heap}
use trtp_network.Receiver.InOrder.{HasMemory}
use trtp_network.Receiver.Steps.{start as receiver_start}
use trtp_network.Sender.{Sender}
use trtp_network.Sender.Burst.{datagrams}
use trtp_network.Sender.Filling.{left_over}
use trtp_network.Sender.Next.{IsSwift}
use trtp_network.Sender.Prepare.{prepare-Prepared}
use trtp_network.Sender.Steps.{prepare, start}
use trtp_network.Network.{IsKept, Run, Net, Step, opening}
use trtp_network.Network.Completion.{AreNull, receiver-InStep, nothing_sent, nothing_written}
use trtp_network.Network.Flow.{Flow}
use trtp_network.Network.Invariant.{Run-Orderly}
use trtp_network.Network.Moves.{Opened, Orderly, opened, flowing, finished}
use trtp_network.Network.Transfer.{mr}
use trtp_network.Network.Offers.{Offer, play, play-Step}

length-datagrams : (m : Machine) (l : List (Pkt × List ℕ)) → length (datagrams m l) ≡ length l
length-datagrams m [] = refl
length-datagrams m (x ∷ l) = ap suc (length-datagrams m l)

module _ (m : Machine) (memory : HasMemory m) (swift : IsSwift m) (pkt_new : ℕ → Option Pkt)
    (room : ℕ → Bool) (clock : ℕ → ℕ)
    (memory_r : HasMemory (mr m memory swift pkt_new room clock)) where
  abbrev receiving : Machine
  receiving = mr m memory swift pkt_new room clock

  -- What the programs start with: room for their arrays and buffers, of which only the first five
  -- entries of the receiver's window have to be NULL, a file of 122000 bytes at most, and the state
  -- `s` of the sender when it enters its loop.
  module _ (junk bs : List Ptr) (buffer buffer_r whole : List ℕ) (slots br : List Ptr) (h : Heap)
      (next_r : ℕ) (s : Sender) (fifty : length junk ≡ 50) (sized : length buffer ≡ 512)
      (sized_r : length buffer_r ≡ 512) (nulls : AreNull slots br) (short : length whole ≤ 122000)
      (ran : prepare m (start (junk ++ bs) buffer whole) ≡ some s) where
    abbrev pub first_state : Net
    first_state = opening s (receiver_start slots h next_r buffer_r)

    first_state-Opened : Opened m first_state whole bs br
    first_state-Opened =
        let (s', ran', first) = prepare-Prepared m memory swift junk bs buffer whole fifty sized in
        subst (λ x. Opened m (opening x (receiver_start slots h next_r buffer_r)) whole bs br)
          (some-injective _ _ (sym ran' ∙ ran))
          (record {
            items = first.items;
            pace = first.pace;
            updated = first.updated;
            unsent = first.unsent;
            step = receiver-InStep slots br h next_r buffer_r nulls sized_r;
            unanswered = no_answers;
            unwritten = nothing_written slots h next_r buffer_r;
            data_at = refl;
            answers_at = refl;
            running = refl;
          })
      where
        length_zero : (l : List (List ℕ)) → 0 ≡ length l → l ≡ []
        length_zero [] e = refl
        length_zero (x ∷ l) e = absurd (omega arith)

        no_answers : (receiver_start slots h next_r buffer_r).sent ≡ []
        no_answers = length_zero _ (nothing_sent slots h next_r buffer_r)

    reached : {t : Net} → Run m receiving first_state t → Orderly m whole bs br t
    reached run =
        Run-Orderly m memory swift pkt_new room clock memory_r whole bs br short run
          (opened first_state-Opened)

    -- Whatever the order of the rounds, as long as nothing is lost and no round reads a datagram while
    -- its socket cannot be written to: what the receiver has written is a beginning of the file while
    -- its loop runs, and the whole file once it has left the loop. The file has at most 122000 bytes,
    -- the first five entries of the receiver's window are NULL at the start, there is memory for
    -- packets, and the clock of the sender stays below 500 ms.
    pub Run-prefix :
        (t : Net)
        → Run m receiving first_state t
        → ((t.over ≡ false) × (rest : List ℕ) × (t.receiver.stdout ++ rest ≡ whole))
          ⊎ ((t.over ≡ true) × (t.receiver.stdout ≡ whole))
    Run-prefix t run = elim (reached run) [
      | opened first ↦ inl (first.running, whole, ap (λ l. l ++ whole) first.unwritten)
      | flowing n k f w flow ↦ inl (flow.running, left_over (n + k) whole, flow.written)
      | finished over out ↦ inr (over, out)
    ]

    -- Whatever the order of the rounds, as long as nothing is lost, no round reads without being able to
    -- write, and the receiver is in its loop: every round that reads nothing, and every round that
    -- reads the next datagram and can write, runs to its end without a fault, and is such a step
    -- again. The file has at most 122000 bytes, the first five entries of the receiver's window are
    -- NULL at the start, there is memory for packets, and the clock of the sender stays below 500 ms.
    pub Run-plays :
        (t : Net) (o : Offer t)
        → Run m receiving first_state t
        → t.over ≡ false
        → (u : Net) × (play m receiving t o ≡ some u) × (step : Step m receiving t u) × IsKept step
    Run-plays t o run running =
        play-Step m memory swift pkt_new room clock memory_r whole bs br t o short (reached run)
          running

    -- No deadlock: while nothing is lost, no round reads without being able to write, and the receiver
    -- is in its loop, the sender has not sent anything yet, or a packet or an answer is on its way. The
    -- receiver has read fewer packets than it takes to hold the file and 488 bytes more, and the
    -- sender no more answers than packets have been read. The file has at most 122000 bytes, the first
    -- five entries of the receiver's window are NULL at the start, there is memory for packets, and
    -- the clock of the sender stays below 500 ms.
    pub Run-goes_on :
        (t : Net)
        → Run m receiving first_state t
        → t.over ≡ false
        → (488 * t.data_read < length whole + 488)
          × (t.answers_read ≤ t.data_read)
          × ((t.sender.sent ≡ [])
              ⊎ ((t.data_read < length t.sender.sent) ⊎ (t.answers_read < length t.receiver.sent)))
    Run-goes_on t run running = by_state (reached run)
      where
        on_the_way :
            (n k f w : ℕ)
            → Flow m t n k f w whole bs br
            → (t.sender.sent ≡ [])
              ⊎ ((t.data_read < length t.sender.sent) ⊎ (t.answers_read < length t.receiver.sent))
        on_the_way n k zero w flow = inr (
            inr (
              omega (
                arith,
                flow.full,
                flow.wide,
                flow.waiting,
                ap length flow.answered,
                length-append flow.heard flow.pending,
                flow.answers_at,
              )))
        on_the_way n k (suc f) w flow = inr (
            inl (
              omega (
                arith,
                ap length flow.sent,
                length-append flow.read (datagrams m flow.flying),
                length-datagrams m flow.flying,
                flow.many,
                flow.data_at,
              )))

        by_state :
            Orderly m whole bs br t
            → (488 * t.data_read < length whole + 488)
              × (t.answers_read ≤ t.data_read)
              × ((t.sender.sent ≡ [])
                  ⊎ ((t.data_read < length t.sender.sent)
                      ⊎ (t.answers_read < length t.receiver.sent)))
        by_state (opened first) =
            (omega (arith, first.data_at), omega (arith, first.answers_at), inl first.unsent)
        by_state (flowing n k f w flow) = (
          omega (arith, flow.nonempty, flow.data_count),
          omega (arith, flow.data_count, flow.answers_count),
          on_the_way n k f w flow,
        )
        by_state (finished over out) = absurd (cc)
