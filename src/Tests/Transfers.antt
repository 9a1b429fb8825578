-- ===== src/Tests/Transfers.antt =====
-- The theorems on whole transfers at concrete inputs.
use trtp_network.Prelude.{
  ℕ, ◌<◌, ◌≡◌, refl, List, [], ◌∷◌, ◌++◌, true, none, some, arith, replicate, length, false,
  get_elem?,
}
use trtp_network.Build.{Machine}
use trtp_network.Codec.Encode.{wire}
use trtp_network.Heap.{Ptr, Heap}
use trtp_network.Receiver.InOrder.{HasMemory, ack_pkt}
use trtp_network.Receiver.Steps.{start as receiver_start, ready, quiet, again}
use trtp_network.Sender.{Sender}
use trtp_network.Sender.Next.{IsSwift}
use trtp_network.Sender.Run.{answers, sending_round, read_write_loop_sender-Sent}
use trtp_network.Sender.Burst.{Flight, datagrams}
use trtp_network.Sender.Prepare.{Prepared, prepare-Prepared}
use trtp_network.Sender.Steps.{read_write_loop_sender, prepare, start, resend_first, round}
use trtp_network.Packet.{Pkt}
use trtp_network.Sender.Pace.{InPace, piece}
use trtp_network.Sender.Timer.{resend_first-due, restarted, with_restarted}
use trtp_network.Sender.Asked.{nack_pkt, Resent}
use trtp_network.Sender.Resend.{round-Resent}
use trtp_network.Sender.Output.{first_live, Turn, output_half-Turn}
use trtp_network.Sender.Turn.{Freed, round-Turn}
use trtp_network.Network.{Net, Run, opening}
use trtp_network.Network.Completion.{transfer_completes}
use trtp_network.Network.Pipe.{Pipe, Refines, flow, flow-Refines, opening-Refines}
use trtp_network.Tests.Data.{blank, machine, hello}

-- The clock stands still.
abbrev pub still : Machine
still = record machine { clock = λ n. 1000 }

pub still_memory : HasMemory still
still_memory = record { fresh = λ n. (blank, refl); payload = λ n. refl }

pub still-IsSwift : IsSwift still
still-IsSwift = record { below = λ n. omega arith }

-- The sender before its first round.
first_prepared :
    (s : Sender) × (prepare still (start (replicate 50 none ++ []) (replicate 512 0) hello)
      ≡ some s)
    × Prepared s hello []
first_prepared =
    prepare-Prepared still still_memory still-IsSwift (replicate 50 none) [] (replicate 512 0) hello
      refl refl

abbrev prepared : Sender
prepared = first_prepared.0

-- The first packet is sent.
first_turn : (s : Sender) × Turn still prepared s 0 0 1 1 hello []
first_turn =
    let t =
      output_half-Turn still still-IsSwift prepared 0 0 1 hello first_prepared.2.items []
        first_prepared.2.pace first_prepared.2.updated (omega arith) (omega arith) in
    (t.0, t.2)

round-Turn_example :
    (s : Sender) × (round still first_turn.0 (record {
      input = ready;
      output = ready;
      datagram = some (wire still.zlib still.endian (ack_pkt 1 1000) []);
    })
      ≡ some (again, s))
    × Turn still first_turn.0 s 1 0 4 4 hello []
    × Freed first_turn.0 s
round-Turn_example =
    round-Turn still still-IsSwift still_memory first_turn.0 0 1000 0 4 1 hello first_turn.1.items
      [] first_turn.1.pace refl (omega arith) (omega arith) (omega arith) (omega arith)

abbrev pub nothing_yet : Heap
nothing_yet a = none

abbrev pub five_nulls : List Ptr
five_nulls = replicate 5 none

transfer_completes_example :
    (s : Sender) × (prepare still (start (replicate 50 none ++ []) (replicate 512 0) hello)
      ≡ some s)
    × (u : Net) × Run still still
        (opening s (receiver_start five_nulls nothing_yet 0 (replicate 512 0)))
        u
    × (u.over ≡ true)
    × (u.receiver.stdout ≡ hello)
transfer_completes_example =
    transfer_completes still still_memory still-IsSwift (λ n. some blank) (λ n. true) (λ n. 1000)
      still_memory (replicate 50 none) [] (replicate 512 0) (replicate 512 0) hello five_nulls []
      nothing_yet 0 refl refl refl refl (omega arith)

-- Nothing is to be refilled.
abbrev idle : Sender
idle = record prepared { buffer_update = false; last_valid = 0 }

idle-InPace : InPace idle 0 0 1 hello first_prepared.2.items []
idle-InPace =
    let pace = first_prepared.2.pace in
    record {
      slots_are = pace.slots_are;
      fifty = pace.fifty;
      buffered = pace.buffered;
      distinct = pace.distinct;
      below = pace.below;
      acked = record {
        address = pace.acked.address;
        packet = pace.acked.packet;
        kept = pace.acked.kept;
        live = pace.acked.live;
        numbered = pace.acked.numbered;
        freeable = pace.acked.freeable;
        old = pace.acked.old;
        apart = pace.acked.apart;
      };
      base_is = pace.base_is;
      next_is = pace.next_is;
      window_is = pace.window_is;
      quiet_nack = pace.quiet_nack;
      count_is = pace.count_is;
      sized = pace.sized;
      in_buffer = pace.in_buffer;
      in_file = pace.in_file;
    }

-- The receiver asks for packet 0.
round-Resent_example :
    (s : Sender) × (round still idle (record {
      input = ready;
      output = ready;
      datagram = some (wire still.zlib still.endian (nack_pkt 0 1000) []);
    })
      ≡ some (again, s))
    × Resent still idle s 0 0 1 0 hello first_prepared.2.items []
round-Resent_example =
    round-Resent still still-IsSwift still_memory idle 0 0 1 0 1000 hello first_prepared.2.items []
      idle-InPace refl (omega arith) (omega arith) (omega arith)
      (omega (arith, idle-InPace.window_is)) (omega arith)

-- Two seconds later.
abbrev late : Machine
late = record still { clock = λ n. 2000000 }

head :
    (a : ℕ) × (p : Pkt) × (get_elem? idle.slots 0 ≡ some (some a))
    × (idle.heap a ≡ some p)
    × (p.timestamp < 500000)
head = first_live idle 0 0 1 hello first_prepared.2.items [] idle-InPace

resend_first-due_example :
    (out : List ℕ) × (resend_first late idle
      ≡ some (record (with_restarted late idle head.0 head.1) {
        buffer = out;
        sent =
            idle.sent
            ++ (wire late.zlib late.endian (restarted late idle head.1) (piece 0 hello) ∷ []);
      }))
resend_first-due_example =
    resend_first-due late idle 0 0 1 head.0 head.1 hello first_prepared.2.items [] idle-InPace
      head.2 head.3 (omega (arith, head.4))

-- The pipe before anything has passed.
abbrev full : Pipe
full = record { written = []; waiting = hello }

opening-Refines_example :
    (s : Sender) × (prepare still (start (replicate 50 none ++ []) (replicate 512 0) hello)
      ≡ some s)
    × (t : Sender) × (round still s (record { input = quiet; output = ready; datagram = some [] })
        ≡ some (again, t))
    × Refines still (opening t (receiver_start five_nulls nothing_yet 0 (replicate 512 0))) full 0
opening-Refines_example =
    opening-Refines still still_memory still-IsSwift (λ n. some blank) (λ n. true) (λ n. 1000)
      still_memory (replicate 50 none) [] (replicate 512 0) (replicate 512 0) hello five_nulls []
      nothing_yet 0 refl refl refl refl

opened : (t : Net) × Refines still t full 0
opened =
    let (s, ran, t, sent, refines) =
      opening-Refines still still_memory still-IsSwift (λ n. some blank) (λ n. true) (λ n. 1000)
        still_memory (replicate 50 none) [] (replicate 512 0) (replicate 512 0) hello five_nulls []
        nothing_yet 0 refl refl refl refl in
    (opening t (receiver_start five_nulls nothing_yet 0 (replicate 512 0)), refines)

flow-Refines_example :
    (v : Net) × Run still still opened.0 v
    × Refines still v (record { written = hello; waiting = [] }) 1
unfolding flow
flow-Refines_example =
    flow-Refines still still_memory still-IsSwift (λ n. some blank) (λ n. true) (λ n. 1000)
      still_memory opened.0 full 0 opened.1 (omega arith) (omega arith)

-- A whole transfer of the file.
pub completed :
    (s : Sender) × (prepare still (start (replicate 50 none ++ []) (replicate 512 0) hello)
      ≡ some s)
    × (u : Net) × Run still still
        (opening s (receiver_start five_nulls nothing_yet 0 (replicate 512 0)))
        u
    × (u.over ≡ true)
    × (u.receiver.stdout ≡ hello)
completed =
    transfer_completes still still_memory still-IsSwift (λ n. some blank) (λ n. true) (λ n. 1000)
      still_memory (replicate 50 none) [] (replicate 512 0) (replicate 512 0) hello five_nulls []
      nothing_yet 0 refl refl refl refl (omega arith)

-- Three acknowledgements.
read_write_loop_sender-Sent_example :
    (s : Sender) × (read_write_loop_sender still
        (start (replicate 50 none ++ []) (replicate 512 0) hello)
        (sending_round ∷ answers still 0 (1000 ∷ 1000 ∷ 1000 ∷ []))
      ≡ some (again, s))
    × (packets : List (Pkt × List ℕ)) × Flight 0 hello packets
    × (length packets ≡ 7)
    × (s.sent ≡ datagrams still packets)
read_write_loop_sender-Sent_example =
    read_write_loop_sender-Sent still still-IsSwift still_memory 1000 (1000 ∷ 1000 ∷ [])
      (replicate 50 none) [] (replicate 512 0) hello refl refl
      (omega arith, (omega arith, (omega arith, tt))) (omega arith)
