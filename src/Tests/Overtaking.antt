-- ===== src/Tests/Overtaking.antt =====
-- The theorems on packets that are ahead of the one that is due, at concrete states.
use trtp_network.Prelude.{
  false, ℕ, zero, suc, ◌+◌, ◌%◌, ◌≤◌, ◌<◌, ◌≡◌, refl, List, [], ◌∷◌, ◌++◌, none, some, arith,
  replicate, if◌then◌else◌, ◌==◌,
}
use trtp_network.Prelude.Int.{negsuc}
use trtp_network.Packet.{Pkt, null, pkt_del}
use trtp_network.Heap.{Heap}
use trtp_network.Receiver.{Receiver}
use trtp_network.Receiver.Window.{Item, pointers}
use trtp_network.Receiver.Ahead.{placed_delivery, placed_delivery-ahead}
use trtp_network.Sender.{Sender}
use trtp_network.Sender.Content.{Carries, Buffered, Apart, Distinct, Below}
use trtp_network.Sender.Pace.{InPace}
use trtp_network.Sender.Steps.{handle_ack}
use trtp_network.Sender.Selective.{FreedBehind, handle_ack-selective}
use trtp_network.Tests.Data.{machine, hello, data_pkt, hello-HasPayload}
use trtp_network.Tests.Receiving.{at_start, at_start-InStep}

placed_delivery-ahead_example :
    (r' : Receiver) × (placed_delivery at_start 9 (data_pkt 4) ≡ some r')
    × (r'.stdout ≡ at_start.stdout ++ hello)
    × (r'.base_r ≡ 1)
placed_delivery-ahead_example =
    placed_delivery-ahead at_start 0 9 (data_pkt 4) hello (none ∷ none ∷ []) at_start-InStep refl
      (hello-HasPayload 4)

-- Packets without payload, and an acknowledgement.
abbrev pub hollow : ℕ → Pkt
hollow n = record (data_pkt n) { length_field = 0; payload = null; seqnum = n % 256 }

abbrev pub answer : ℕ → Pkt
answer n = record (hollow n) { type = 2 }

-- The packet number `a` at the address `a`, and the last acknowledgement at 99.
abbrev pub stored : Heap
stored a = if a == 99 then some (answer 0) else some (hollow a)

abbrev pub items_from : ℕ → ℕ → List Item
items_from n zero = []
items_from n (suc k) = (n, []) ∷ items_from (suc n) k

in_store : (a : ℕ) → a < 99 → stored a ≡ some (hollow a)
in_store a h = ground arith

pub hollow-Carries : (n : ℕ) → Carries (hollow n) n []
hollow-Carries n = record {
  typed = refl;
  untruncated = refl;
  numbered = refl;
  narrow = omega arith;
  holds = (refl, λ h. absurd (omega arith));
  short = omega arith;
  early = omega arith;
}

pub items-Buffered : (n k : ℕ) → n + k < 99 → Buffered stored n (items_from n k)
items-Buffered n zero h = tt
items-Buffered n (suc k) h =
    ((hollow n, in_store n (omega arith), hollow-Carries n), items-Buffered (suc n) k (omega arith))

pub items-Apart : (a n k : ℕ) → a < n → Apart a (items_from n k)
items-Apart a n zero h = tt
items-Apart a n (suc k) h = (λ e. omega (arith, e, h), items-Apart a (suc n) k (omega arith))

pub items-above : (a n k : ℕ) → n + k ≤ a → Apart a (items_from n k)
items-above a n zero h = tt
items-above a n (suc k) h = (λ e. omega (arith, e, h), items-above a (suc n) k (omega arith))

pub items-Distinct : (n k : ℕ) → Distinct (items_from n k)
items-Distinct n zero = tt
items-Distinct n (suc k) = (items-Apart n (suc n) k (omega arith), items-Distinct (suc n) k)

pub items-Below : (b n k : ℕ) → n + k ≤ b → Below b (items_from n k)
items-Below b n zero h = tt
items-Below b n (suc k) h = (omega arith, items-Below b (suc n) k (omega arith))

-- Four packets are in flight, from number 0 on, of a file that is empty.
abbrev pub waiting_sender : Sender
waiting_sender = record {
  slots = pointers (items_from 0 50) ++ (none ∷ []);
  heap = stored;
  next = 100;
  buffer = replicate 512 0;
  file = [];
  ticks = 0;
  sent = [];
  seqnum = 50;
  last_valid = 0;
  pkt_sent = 0;
  window = 4;
  free_place_on_buffer = 4;
  last_last_pkt = 0;
  last_pkt_sent = 0;
  rtt_delay = 0;
  last_ack = some 99;
  base = 0;
  nextseqnum = 4;
  buffer_update = false;
  nack = negsuc 0;
  data_sent = 4;
  data_received = 0;
  data_truncated = 0;
  ack_received = 0;
  nack_sent = 0;
  nack_received = 0;
  packet_ignored = 0;
}

waiting_sender-InPace : InPace waiting_sender 0 4 4 [] (items_from 0 50) (none ∷ [])
unfolding pkt_del
waiting_sender-InPace = record {
  slots_are = refl;
  fifty = refl;
  buffered = items-Buffered 0 50 (omega arith);
  distinct = items-Distinct 0 50;
  below = items-Below 100 0 50 (omega arith);
  acked = record {
    address = 99;
    packet = answer 0;
    kept = refl;
    live = refl;
    numbered = refl;
    freeable = refl;
    old = omega arith;
    apart = items-above 99 0 50 (omega arith);
  };
  base_is = refl;
  next_is = refl;
  window_is = refl;
  quiet_nack = refl;
  count_is = refl;
  sized = refl;
  in_buffer = refl;
  in_file = refl;
}

handle_ack-selective_example :
    (s' : Sender) × (handle_ack machine waiting_sender 100 (answer 2) ≡ some s')
    × FreedBehind waiting_sender s' 0 1 ((0, []) ∷ []) (items_from 2 48) (none ∷ [])
handle_ack-selective_example =
    handle_ack-selective machine waiting_sender 0 4 4 100 0 (answer 2) [] [] 1 [] []
      (items_from 2 48) (none ∷ []) waiting_sender-InPace refl (omega arith)
      (items-above 100 0 50 (omega arith)) (omega arith) (omega arith) (omega arith) (omega arith)
