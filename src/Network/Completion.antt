-- ===== src/Network/Completion.antt =====
-- src/read_write_loop_sender.c and src/read_write_loop.c: a transfer comes to its end.
use mathlib.Core.Path.{subst}
use trtp_network.Prelude.{
  ℕ, zero, suc, ◌+◌, ◌-◌, ◌*◌, ◌≤◌, ◌<◌, ◌≡◌, ◌⊎◌, inl, inr, refl, sym, ap, ◌∙◌, List, [], ◌∷◌,
  ◌++◌, Bool, true, Option, none, some, arith, length, length-take,
}
use trtp_network.Packet.{Pkt}
use trtp_network.Build.{Machine}
use trtp_network.Heap.{Ptr, Heap}
use trtp_network.Receiver.Steps.{start as receiver_start}
use trtp_network.Receiver.InOrder.{HasMemory, InStep}
use trtp_network.Sender.{Sender}
use trtp_network.Sender.Next.{IsSwift}
use trtp_network.Sender.Burst.{Flight, datagrams}
use trtp_network.Sender.Filling.{left_over}
use trtp_network.Sender.Pace.{piece}
use trtp_network.Sender.Prepare.{prepare-Prepared}
use trtp_network.Sender.Steps.{prepare, start}
use trtp_network.Sender.Steps as SenderSteps
use trtp_network.Receiver.Steps.{again, quiet, ready}
use trtp_network.Sender.Output.{round-quiet, output_half-Turn}
use trtp_network.Network.{Net, Run, go, Run-append, sender_sends, opening}
use trtp_network.Network.Transfer.{mr, UnderWay, cycle, finish, no_piece, length-left_over}

pub first_of :
    (m : Machine) (t : Net) (n f w : ℕ) (whole : List ℕ) (bs br : List Ptr)
    → (way : UnderWay m t n (suc f) w whole bs br)
    → (p : Pkt) × (body : List ℕ) × (rest : List (Pkt × List ℕ)) × ((p, body) ∷ rest ≡ way.flying)
first_of m t n f w whole bs br way = split way.flying way.many
  where
    split :
        (l : List (Pkt × List ℕ))
        → length l ≡ suc f
        → (p : Pkt) × (body : List ℕ) × (rest : List (Pkt × List ℕ)) × ((p, body) ∷ rest ≡ l)
    split [] h = absurd (omega arith)
    split ((p, body) ∷ rest) h = (p, body, rest, refl)

pub body_cases : (body : List ℕ) → (body ≡ []) ⊎ (0 < length body)
body_cases [] = inl refl
body_cases (x ∷ body) = inr (omega arith)

-- The memory that `malloc` hands out for the window of the receiver has NULL in its first five
-- entries. The code does not initialise it.
abbrev pub AreNull : List Ptr → List Ptr → Type 0
AreNull slots br = slots ≡ none ∷ none ∷ none ∷ none ∷ none ∷ br

pub receiver-InStep :
    (slots br : List Ptr) (h : Heap) (k : ℕ) (buffer : List ℕ)
    → AreNull slots br
    → length buffer ≡ 512
    → InStep (receiver_start slots h k buffer) 0 br
unfolding receiver_start
receiver-InStep slots br h k buffer nulls sized = record {
  empty = nulls;
  base = refl;
  places = refl;
  no_nack = refl;
  no_ack = refl;
  byte = omega arith;
  sized = sized;
  stamped = omega arith;
}

pub nothing_sent :
    (slots : List Ptr) (h : Heap) (k : ℕ) (buffer : List ℕ)
    → 0 ≡ length (receiver_start slots h k buffer).sent
unfolding receiver_start
nothing_sent slots h k buffer = refl

pub nothing_written :
    (slots : List Ptr) (h : Heap) (k : ℕ) (buffer : List ℕ)
    → (receiver_start slots h k buffer).stdout ≡ []
unfolding receiver_start
nothing_written slots h k buffer = refl

-- Where the first packet under way is empty, or where 250 are delivered, nothing of the file is left.
pub empty-left_over : (n : ℕ) (whole : List ℕ) → [] ≡ piece n whole → left_over n whole ≡ []
empty-left_over n whole h = no_piece 487 (left_over n whole) (sym h)

length-piece : (n : ℕ) (whole : List ℕ) → length (piece n whole) ≤ length whole - 488 * n
length-piece n whole = omega (arith, length-take 488 (left_over n whole), length-left_over n whole)

module _ (m : Machine) (memory : HasMemory m) (swift : IsSwift m) (pkt_new : ℕ → Option Pkt)
    (room : ℕ → Bool) (clock : ℕ → ℕ)
    (memory_r : HasMemory (mr m memory swift pkt_new room clock)) where
  abbrev receiving : Machine
  receiving = mr m memory swift pkt_new room clock

  -- The last packet is delivered.
  ends :
      (t : Net) (n f w : ℕ) (whole : List ℕ) (bs br : List Ptr) (p : Pkt) (body : List ℕ)
      (rest : List (Pkt × List ℕ))
      → (way : UnderWay m t n (suc f) w whole bs br) → (p, body) ∷ rest ≡ way.flying
      → body ≡ []
      → n < 256
      → (u : Net) × Run m receiving t u × (u.over ≡ true) × (u.receiver.stdout ≡ whole)
  ends t n f w whole bs br p body rest way e empty byte =
      let flight : Flight n whole ((p, body) ∷ rest) = subst (Flight n whole) (sym e) way.flight in
      let last =
        finish m memory swift pkt_new room clock memory_r t n (suc f) w whole bs br p rest way
          (ap (λ b. (p, b) ∷ rest) (sym empty) ∙ e) byte
          (empty-left_over n whole (sym empty ∙ flight.0.is_piece)) in
      (last.0, last.1, last.2, last.3)

  -- 250 packets hold all of the file, so that the next one is empty.
  nothing_left :
      (t : Net) (n f w : ℕ) (whole : List ℕ) (bs br : List Ptr) (p : Pkt) (body : List ℕ)
      (rest : List (Pkt × List ℕ))
      → (way : UnderWay m t n (suc f) w whole bs br) → (p, body) ∷ rest ≡ way.flying
      → n ≡ 250
      → length whole ≤ 122000
      → 0 < length body
      → ⊥
  nothing_left t n f w whole bs br p body rest way e bound short full =
      let flight : Flight n whole ((p, body) ∷ rest) = subst (Flight n whole) (sym e) way.flight in
      absurd (omega (arith, bound, short, full, ap length flight.0.is_piece, length-piece n whole))

  -- `c` more packets at most are to be delivered.
  completes :
      (c : ℕ) (t : Net) (n f w : ℕ) (whole : List ℕ) (bs br : List Ptr)
      → UnderWay m t n (suc f) w whole bs br
      → 0 < w
      → w ≤ 4
      → f < 4
      → n + c ≡ 250
      → length whole ≤ 122000
      → (u : Net) × Run m receiving t u × (u.over ≡ true) × (u.receiver.stdout ≡ whole)
  completes zero t n f w whole bs br way wide small few bound short =
      let (p, body, rest, e) = first_of m t n f w whole bs br way in
      elim (body_cases body) [
        | inl empty ↦ ends t n f w whole bs br p body rest way e empty (omega (arith, bound))
        | inr full ↦
            absurd
              (nothing_left t n f w whole bs br p body rest way e (omega (arith, bound)) short full)
      ]
  completes (suc c) t n f w whole bs br way wide small few bound short =
      let (p, body, rest, e) = first_of m t n f w whole bs br way in
      elim (body_cases body) [
        | inl empty ↦ ends t n f w whole bs br p body rest way e empty (omega (arith, bound))
        | inr full ↦
            let (v, delivered, on, _) =
              cycle m memory swift pkt_new room clock memory_r t n f w whole bs br p body rest way e
                wide small few (omega (arith, bound)) full in
            let (z, steps, over, out) =
              completes c v (n + 1) 3 4 whole bs br on (omega arith) (omega arith) (omega arith)
                (omega (arith, bound)) short in
            (z, Run-append delivered steps, over, out)
      ]

  -- After the first round of the sender, from the start of both programs, one packet is under way.
  pub begins :
      (junk bs : List Ptr) (buffer buffer_r whole : List ℕ) (slots br : List Ptr) (h : Heap)
      (next_r : ℕ)
      → length junk ≡ 50
      → length buffer ≡ 512
      → length buffer_r ≡ 512
      → AreNull slots br
      → (s : Sender) × (prepare m (start (junk ++ bs) buffer whole) ≡ some s)
        × (s1 : Sender) × (SenderSteps.round m s
              (record { input = quiet; output = ready; datagram = some [] })
            ≡ some (again, s1))
        × UnderWay m (opening s1 (receiver_start slots h next_r buffer_r)) 0 1 1 whole bs br
        × ([] ≡ (receiver_start slots h next_r buffer_r).stdout)
  begins junk bs buffer buffer_r whole slots br h next_r fifty sized sized_r nulls =
      let (s, ran, first) = prepare-Prepared m memory swift junk bs buffer whole fifty sized in
      let (s1, sent, turn) =
        output_half-Turn m swift s 0 0 1 whole first.items bs first.pace first.updated (omega arith)
          (omega arith) in
      (
        s,
        ran,
        s1,
        round-quiet m s s1 sent,
        record {
          items = turn.items;
          flying = turn.packets;
          read = [];
          pace = turn.pace;
          step = receiver-InStep slots br h next_r buffer_r nulls sized_r;
          many = turn.count;
          flight = turn.flight;
          sent = turn.sent ∙ ap (λ l. l ++ datagrams m turn.packets) first.unsent;
          data_at = refl;
          answers_at = nothing_sent slots h next_r buffer_r;
          written = ap (λ l. l ++ whole) (nothing_written slots h next_r buffer_r);
          running = refl;
        },
        sym (nothing_written slots h next_r buffer_r),
      )

  -- The sender on a file of 122000 bytes at most and the receiver, from the start of both
  -- programs: there is a sequence of rounds, in which nothing is lost and the order is kept, after
  -- which the receiver has left its loop and has written exactly the file. The buffers have their
  -- sizes and may hold anything, the first five entries of the receiver's window are NULL, packets
  -- are found memory for, and no clock reading of the sender reaches 500 ms.
  pub transfer_completes :
      (junk bs : List Ptr) (buffer buffer_r whole : List ℕ) (slots br : List Ptr) (h : Heap)
      (next_r : ℕ)
      → length junk ≡ 50
      → length buffer ≡ 512
      → length buffer_r ≡ 512
      → AreNull slots br
      → length whole ≤ 122000
      → (s : Sender) × (prepare m (start (junk ++ bs) buffer whole) ≡ some s)
        × (u : Net) × Run m receiving (opening s (receiver_start slots h next_r buffer_r)) u
        × (u.over ≡ true)
        × (u.receiver.stdout ≡ whole)
  transfer_completes junk bs buffer buffer_r whole slots br h next_r fifty sized sized_r nulls
        short =
      let (s, ran, s1, sent, way, _) =
        begins junk bs buffer buffer_r whole slots br h next_r fifty sized sized_r nulls in
      let (u, steps, over, out) =
        completes 250 (opening s1 (receiver_start slots h next_r buffer_r)) 0 0 1 whole bs br way
          (omega arith) (omega arith) (omega arith) (omega arith) short in
      (
        s,
        ran,
        u,
        go (sender_sends (opening s (receiver_start slots h next_r buffer_r)) s1 sent) tt steps,
        over,
        out,
      )
