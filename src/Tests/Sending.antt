-- ===== src/Tests/Sending.antt =====
-- The theorems on the sender and on the start of the programs at concrete inputs.
use trtp_network.Prelude.{
  ℕ, ◌≡◌, refl, List, [], ◌∷◌, ◌++◌, true, none, some, arith, replicate, drop, take,
}
use trtp_network.Prelude.Int.{pos, negsuc}
use trtp_network.Heap.{Ptr, shift_slots}
use trtp_network.Sender.{Sender, insert_packets}
use trtp_network.Sender.Steps.{send_window, receive}
use mathlib.Core.List.{flatten}
use trtp_network.Sender.Filling.{Pointed, Stored, insert_packets-Stored}
use trtp_network.Sender.Buffer.{send_window-ends, shift_slots-sender}
use trtp_network.Setup.{System, Address}
use trtp_network.Setup.Main.{Library}
use trtp_network.Tests.Data.{machine, memory, hello, blank, data_pkt, data_pkt-IsSendable}
use trtp_network.Sender.Faults.{corrupted, receive-wild}
use trtp_network.Tests.Receiving.{live}

-- Fifty packets, the first three of them acknowledged.
abbrev buffered : List Ptr
buffered = none ∷ none ∷ none ∷ (replicate 47 (some 1) ++ replicate 100 none)

shift_slots-sender_example :
    shift_slots 45 3 0 buffered ≡ some (take 45 (drop 3 buffered) ++ drop 45 buffered)
shift_slots-sender_example = shift_slots-sender 3 buffered (omega arith) (omega arith)

abbrev sending : Sender
sending = record {
  slots = some 10 ∷ some 11 ∷ some 13 ∷ replicate 147 none;
  heap = live;
  next = 14;
  buffer = replicate 512 0;
  file = [];
  ticks = 0;
  sent = [];
  seqnum = 3;
  last_valid = 0;
  pkt_sent = 0;
  window = 2;
  free_place_on_buffer = 2;
  last_last_pkt = 0;
  last_pkt_sent = 0;
  rtt_delay = 0;
  last_ack = none;
  base = 0;
  nextseqnum = 0;
  buffer_update = true;
  nack = negsuc 0;
  data_sent = 0;
  data_received = 0;
  data_truncated = 0;
  ack_received = 0;
  nack_sent = 0;
  nack_received = 0;
  packet_ignored = 0;
}

send_window-ends_example : send_window machine 0 9 sending ≡ send_window machine 0 2 sending
send_window-ends_example = send_window-ends machine 0 2 9 sending (omega arith) (omega arith)

abbrev pub address : Address
address = record { host = 1 ∷ []; port = 0 }

abbrev pub system : System
system = record {
  socket = some 3;
  bind = λ fd a. true;
  connect = λ fd a. true;
  getaddrinfo = λ host. some address;
  peek_sender = λ fd. some (record { host = 2 ∷ []; port = 40000 });
}

abbrev library : Library
library = record { exists = λ name. true; strtol = λ text. (pos 5555, true) }

abbrev arguments : List (List ℕ)
arguments = (58 ∷ 58 ∷ 49 ∷ []) ∷ (53 ∷ 53 ∷ 53 ∷ 53 ∷ []) ∷ []

-- A file of three bytes is left: the packet with them, and the empty one that ends the transfer.
abbrev filling : Sender
filling = record sending { file = hello }

insert_packets-Stored_example :
    (s' : Sender) × (insert_packets machine true 4 2 48 filling ≡ some s')
    × Pointed s'.slots 48 14 2
    × Stored s'.heap 14 3 (hello ∷ [] ∷ [])
    × (flatten (hello ∷ [] ∷ []) ++ s'.file ≡ hello)
    × (s'.seqnum ≡ 5)
insert_packets-Stored_example =
    insert_packets-Stored machine memory 4 (omega arith) true 2 48 filling (omega arith)

-- A packet with the header of one with three bytes, but another checksum of them.
receive-wild_example :
    receive machine sending
      (corrupted machine sending (data_pkt 0) blank hello (0 ∷ 0 ∷ 0 ∷ 0 ∷ []))
    ≡ none
receive-wild_example =
    receive-wild machine sending (data_pkt 0) blank hello (0 ∷ 0 ∷ 0 ∷ 0 ∷ []) refl refl
      (data_pkt-IsSendable 0 (omega arith)) refl (omega arith) refl (λ h. omega (arith, h))
      (omega arith)
