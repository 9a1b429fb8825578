-- ===== src/Tests/Recovering.antt =====
-- The theorem on a damaged packet that is asked for, at a concrete state.
use trtp_network.Prelude.{load, ℕ, refl, List, [], ◌∷◌, ◌++◌, none, some, true, arith, replicate}
use trtp_network.Packet.{
  Pkt, Status, block, e_crc, pkt_del, pkt_set_type, pkt_set_tr, pkt_set_window, pkt_set_seqnum,
  pkt_set_length, pkt_set_timestamp, pkt_set_crc1,
}
use trtp_network.Codec.{pkt_decode}
use trtp_network.Heap.{Heap, update}
use trtp_network.Receiver.{Receiver}
use trtp_network.Receiver.Window.{Item, pointers}
use trtp_network.Receiver.Steps.{start}
use trtp_network.Receiver.InOrder.{InStep}
use trtp_network.Sender.{Sender}
use trtp_network.Sender.Content.{Buffered-update}
use trtp_network.Sender.Pace.{InPace}
use trtp_network.Network.Transfer.{mr}
use trtp_network.Network.Recovery.{Recovered, damaged-Recovered}
use trtp_network.Tests.Data.{blank}
use trtp_network.Tests.Receiving.{at_start}
use trtp_network.Tests.Reordering.{broken}
use trtp_network.Tests.Transfers.{still, still_memory, still-IsSwift}
use trtp_network.Tests.Overtaking.{
  hollow, answer, stored, items_from, items-Buffered, items-Apart, items-above, items-Distinct,
  items-Below, waiting_sender,
}

-- A file of two pieces, the second of one byte; the first is acknowledged.
abbrev whole : List ℕ
whole = replicate 489 65

abbrev second : Pkt
second = record (hollow 1) { length_field = 1; payload = block (65 ∷ []) }

abbrev with_second : Heap
with_second = update (update stored 99 (some (answer 1))) 1 (some second)

abbrev items : List Item
items = (1, 65 ∷ []) ∷ items_from 2 49

abbrev resender : Sender
resender = record waiting_sender {
  slots = pointers items ++ (none ∷ []);
  heap = with_second;
  seqnum = 51;
  last_valid = 1;
  base = 1;
  nextseqnum = 2;
}

resender-InPace : InPace resender 1 1 4 whole items (none ∷ [])
unfolding pkt_del
resender-InPace = record {
  slots_are = refl;
  fifty = refl;
  buffered = (
    (
      second,
      refl,
      record {
        typed = refl;
        untruncated = refl;
        numbered = refl;
        narrow = omega arith;
        holds = (refl, λ h. refl);
        short = omega arith;
        early = omega arith;
      },
    ),
    Buffered-update (update stored 99 (some (answer 1))) 2 1 (some second) (items_from 2 49)
        (items-Apart 1 2 49 (omega arith))
        (Buffered-update stored 2 99 (some (answer 1)) (items_from 2 49)
          (items-above 99 2 49 (omega arith)) (items-Buffered 2 49 (omega arith))),
  );
  distinct = (items-Apart 1 2 49 (omega arith), items-Distinct 2 49);
  below = (omega arith, items-Below 100 2 49 (omega arith));
  acked = record {
    address = 99;
    packet = answer 1;
    kept = refl;
    live = refl;
    numbered = refl;
    freeable = refl;
    old = omega arith;
    apart = (λ e. omega (arith, e), items-above 99 2 49 (omega arith));
  };
  base_is = refl;
  next_is = refl;
  window_is = refl;
  quiet_nack = refl;
  count_is = refl;
  sized = refl;
  in_buffer = refl;
  in_file = refl;
}

-- Packet 1 is due.
abbrev expecting : Receiver
expecting = record at_start { base_r = 1 }

expecting-InStep : InStep expecting 1 (none ∷ none ∷ [])
unfolding start
expecting-InStep = record {
  empty = refl;
  base = refl;
  places = refl;
  no_nack = refl;
  no_ack = refl;
  byte = omega arith;
  sized = refl;
  stamped = omega arith;
}

abbrev refused : Status × Pkt
refused = (
  e_crc,
  record (still_memory.fresh 0).0 {
    type = 1;
    tr = 0;
    window = 4;
    length_field = 0;
    seqnum = 1;
    timestamp = 0;
    crc1 = 0;
  },
)

damaged-Recovered_example :
    Recovered still
      (mr still still_memory still-IsSwift (λ n. some blank) (λ n. true) (λ n. 1000))
      resender
      expecting
      broken
      7
      1
      1
      4
      whole
      items
      (none ∷ [])
      (none ∷ none ∷ [])
unfolding pkt_decode start load pkt_set_tr pkt_set_length pkt_set_crc1 pkt_set_timestamp
    pkt_set_seqnum pkt_set_window pkt_set_type
damaged-Recovered_example =
    damaged-Recovered still still_memory still-IsSwift (λ n. some blank) (λ n. true) (λ n. 1000)
      still_memory resender expecting broken 7 1 1 4 refused whole items (none ∷ [])
      (none ∷ none ∷ []) resender-InPace refl (omega arith) (omega arith) expecting-InStep
      (omega arith) (omega arith) (omega arith) refl refl refl
