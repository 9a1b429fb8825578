-- ===== src/Tests/Receiving.antt =====
-- The theorems on the receiver at concrete states.
use trtp_network.Prelude.{
  ℕ, ◌<◌, ◌≡◌, refl, List, [], ◌∷◌, ◌++◌, none, some, arith, replicate, if◌then◌else◌, Ends, ◌==◌,
}
use trtp_network.Prelude.Int.{pos, negsuc}
use trtp_network.Heap.{Ptr, Heap}
use trtp_network.Receiver.{Receiver, clear_and_fill_buffer_r}
use trtp_network.Receiver.Steps.{Round, ready, left, read_write_loop, place, start}
use trtp_network.Receiver.Window.{Item, delivered, clear_and_fill_buffer_r-slides}
use trtp_network.Receiver.InOrder.{InStep, arrival}
use trtp_network.Receiver.Transfer.{Arrival, Numbered, IsDue, rounds, answers, read_write_loop-text}
use trtp_network.Receiver.Duplicates.{redelivery, redelivery_lem}
use trtp_network.Receiver.Faults.{place-negative, clear_and_fill_buffer_r-doubled}
use trtp_network.Receiver.Counters.{IsBalanced, tally, read_write_loop-IsBalanced}
use trtp_network.Tests.Data.{
  machine, memory, hello, data_pkt, last_pkt, data_pkt-IsSendable, hello-HasPayload,
  last_pkt-IsLast,
}
use trtp_network.Tests.Wire.{oversize}

abbrev nulls : List Ptr
nulls = none ∷ none ∷ none ∷ none ∷ none ∷ none ∷ none ∷ []

abbrev pub at_start : Receiver
at_start = start nulls (λ n. none) 0 (replicate 512 0)

pub at_start-InStep : InStep at_start 0 (none ∷ none ∷ [])
unfolding start
at_start-InStep = record {
  empty = refl;
  base = refl;
  places = refl;
  no_nack = refl;
  no_ack = refl;
  byte = omega arith;
  sized = refl;
  stamped = omega arith;
}

at_start-IsBalanced : IsBalanced (tally at_start)
unfolding start
at_start-IsBalanced = record {
  all_sent = refl;
  kinds = refl;
  duplicates = omega arith;
  ignored_received = omega arith;
}

abbrev arrivals : List Arrival
arrivals =
    record { pkt = data_pkt 0; body = hello; now = 5 }
    ∷ record { pkt = data_pkt 1; body = hello; now = 6 }
    ∷ []

pub due :
    (n : ℕ) (now : ℕ) → n < 256 → IsDue n (record { pkt = data_pkt n; body = hello; now = now })
due n now h = record {
  sendable = data_pkt-IsSendable n h;
  typed = refl;
  numbered = refl;
  holds = hello-HasPayload n;
  full = omega arith;
  fits = omega arith;
}

arrivals-Numbered : Numbered 0 arrivals
arrivals-Numbered = (due 0 5 (omega arith), (due 1 6 (omega arith), tt))

read_write_loop-text_example :
    (r' : Receiver) × (read_write_loop machine at_start
        (rounds machine memory arrivals ++ (arrival machine memory last_pkt [] 7 ∷ []))
      ≡ some (left, r'))
    × (r'.stdout ≡ at_start.stdout ++ (104 ∷ 105 ∷ 10 ∷ 104 ∷ 105 ∷ 10 ∷ []))
    × (r'.sent ≡ at_start.sent ++ answers machine 0 at_start.last_time_pkt arrivals)
read_write_loop-text_example =
    read_write_loop-text machine memory arrivals last_pkt 7 [] at_start 0 (none ∷ none ∷ [])
      at_start-InStep arrivals-Numbered last_pkt-IsLast

-- Noise, then a packet out of order.
abbrev noisy : List Round
noisy =
    record { input = ready; output = ready; datagram = some oversize; now = 1 }
    ∷ arrival machine memory (data_pkt 2) hello 2
    ∷ []

read_write_loop-IsBalanced_example :
    Ends (λ i. IsBalanced (tally i.1)) (read_write_loop machine at_start noisy)
read_write_loop-IsBalanced_example =
    read_write_loop-IsBalanced machine noisy at_start at_start-IsBalanced

-- Packets 0, 1 and 3 at the addresses 10, 11 and 13; the first two of them in the window.
abbrev pub live : Heap
live n =
    if n == 10
    then some (data_pkt 0)
    else if n == 11
    then some (data_pkt 1)
    else if n == 13
    then some (data_pkt 3)
    else none

abbrev pub window : Receiver
window = record {
  slots = some 10 ∷ some 11 ∷ none ∷ none ∷ none ∷ none ∷ [];
  heap = live;
  next = 14;
  buffer = replicate 512 0;
  base_r = 3;
  free_place = pos 2;
  nack = negsuc 0;
  partial_ack = pos 2;
  last_time_pkt = 1000;
  last_timestamp = 0;
  data_sent = 0;
  data_received = 2;
  data_truncated = 0;
  ack_sent = 0;
  nack_sent = 0;
  packet_ignored = 0;
  packet_duplicated = 0;
  stdout = 1 ∷ [];
  sent = [];
}

abbrev items : List Item
items = (10, hello) ∷ (11, hello) ∷ []

clear_and_fill_buffer_r-slides_example :
    clear_and_fill_buffer_r window
    ≡ some (record (delivered window items (none ∷ none ∷ none ∷ none ∷ none ∷ none ∷ [])) {
      base_r = 1;
    })
clear_and_fill_buffer_r-slides_example =
    clear_and_fill_buffer_r-slides window items none none (none ∷ []) (omega arith)
      ((data_pkt 0, refl, hello-HasPayload 0), ((data_pkt 1, refl, hello-HasPayload 1), tt)) refl

-- One packet in two entries, as the slide leaves one that came before its predecessors.
abbrev twice : Receiver
twice = record window { slots = some 10 ∷ some 13 ∷ some 13 ∷ none ∷ none ∷ [] }

clear_and_fill_buffer_r-doubled_example : clear_and_fill_buffer_r twice ≡ none
clear_and_fill_buffer_r-doubled_example =
    clear_and_fill_buffer_r-doubled twice (10 ∷ []) 13 (none ∷ none ∷ []) refl

place-negative_example : place window 14 (data_pkt 1) ≡ none
place-negative_example =
    place-negative window 14 (data_pkt 1) (omega arith) (omega arith) (omega arith)

-- Packet 3 once more, where packet 6 is due.
abbrev waiting : Receiver
waiting = record window {
  slots = none ∷ none ∷ none ∷ none ∷ none ∷ [];
  base_r = 2;
  free_place = pos 4;
  nack = negsuc 0;
  partial_ack = negsuc 0;
  buffer = replicate 512 0;
  last_time_pkt = 0;
}

waiting-InStep : InStep waiting 6 []
waiting-InStep = record {
  empty = refl;
  base = refl;
  places = refl;
  no_nack = refl;
  no_ack = refl;
  byte = omega arith;
  sized = refl;
  stamped = omega arith;
}

redelivery_lem_example :
    (r' : Receiver) × (redelivery waiting 14 (data_pkt 3) 15 (data_pkt 6) ≡ some r')
    × (r'.stdout ≡ waiting.stdout ++ (hello ++ hello))
    × (r'.base_r ≡ 0)
redelivery_lem_example =
    redelivery_lem waiting 6 14 15 (data_pkt 3) (data_pkt 6) hello hello [] waiting-InStep
      (omega arith) refl refl (λ e. omega (arith, e)) (hello-HasPayload 3) (hello-HasPayload 6)
