-- ===== src/Tests/Reordering.antt =====
-- The theorems on the receiver and packets that overtake each other, at concrete transfers.
use trtp_network.Prelude.{ℕ, ◌<◌, ◌≡◌, refl, List, [], ◌∷◌, ◌++◌, none, some, arith}
use trtp_network.Receiver.{Receiver}
use trtp_network.Receiver.Steps.{read_write_loop, left, start, round, place, again}
use trtp_network.Receiver.InOrder.{InStep, arrival}
use trtp_network.Receiver.Reassembly.{Window, reassemble}
use trtp_network.Codec.Limits.{header_cells}
use trtp_network.Receiver.Reassembly.Damaged.{damaged-IsRejected}
use trtp_network.Receiver.Reassembly.Rejected.{IsRejected}
use trtp_network.Receiver.Reassembly.Round.{IsData}
use trtp_network.Receiver.Reassembly.Refines.{
  Event, came, noisy, silent, AreGood, event_rounds, Refines, read_write_loop-reassembles,
}
use trtp_network.Receiver.Reassembly.Shuffle.{over, swapped, in_order}
use trtp_network.Receiver.Reassembly.Reordered.{InStep-InWindow, read_write_loop-Shuffled}
use trtp_network.Receiver.Wrap.{round-wrap}
use trtp_network.Receiver.InOrder.{later}
use trtp_network.Codec.Encode.{wire}
use trtp_network.Build.{ack_kind}
use trtp_network.Build.Wire.{made}
use trtp_network.Tests.Data.{blank}
use trtp_network.Tests.Data.{
  data_pkt-IsSendable, hello-HasPayload, machine, memory, hello, data_pkt, last_pkt,
  last_pkt-IsLast,
}
use trtp_network.Tests.Receiving.{at_start, at_start-InStep, due}

-- A header whose CRC1 is wrong.
abbrev pub broken : List ℕ
broken = 68 ∷ 0 ∷ 0 ∷ 1 ∷ 0 ∷ 0 ∷ 0 ∷ 0 ∷ 0 ∷ 0 ∷ 0 ∷ 0 ∷ []

broken-IsRejected : IsRejected machine broken
unfolding header_cells
broken-IsRejected = damaged-IsRejected machine broken (record {
  whole = omega arith;
  fits = omega arith;
  byte = omega arith;
  short = omega arith;
  differs = λ e. omega (arith, e);
})

abbrev overtaken : List Event
overtaken =
    came (record { pkt = data_pkt 1; body = hello; now = 5 })
    ∷ noisy broken 6
    ∷ silent 7
    ∷ came (record { pkt = data_pkt 0; body = hello; now = 8 })
    ∷ came (record { pkt = data_pkt 2; body = hello; now = 9 })
    ∷ []

one_good : (n now : ℕ) → n < 255 → IsData (record { pkt = data_pkt n; body = hello; now = now })
one_good n now h = (due n now (omega arith), h)

overtaken-AreGood : AreGood machine overtaken
overtaken-AreGood = (
  one_good 1 5 (omega arith),
  (broken-IsRejected, (one_good 0 8 (omega arith), (one_good 2 9 (omega arith), tt))),
)

-- A packet that comes twice before the one that is due.
abbrev repeated : List Event
repeated =
    came (record { pkt = data_pkt 1; body = hello; now = 5 })
    ∷ noisy broken 6
    ∷ came (record { pkt = data_pkt 1; body = hello; now = 8 })
    ∷ came (record { pkt = data_pkt 0; body = hello; now = 9 })
    ∷ []

repeated-AreGood : AreGood machine repeated
repeated-AreGood = (
  one_good 1 5 (omega arith),
  (broken-IsRejected, (one_good 1 8 (omega arith), (one_good 0 9 (omega arith), tt))),
)

abbrev fresh_window : ℕ → Window
fresh_window n = record { due = n; first = none; second = none; third = none }

read_write_loop-reassembles_example :
    Refines machine memory (none ∷ none ∷ []) at_start repeated [] (fresh_window 2, hello ++ hello)
unfolding reassemble
read_write_loop-reassembles_example =
    read_write_loop-reassembles machine memory (none ∷ none ∷ []) repeated [] at_start
      (fresh_window 0) (fresh_window 2, hello ++ hello)
      (InStep-InWindow at_start 0 (none ∷ none ∷ []) at_start-InStep) repeated-AreGood refl

read_write_loop-Shuffled_example :
    (r' : Receiver) × (read_write_loop machine at_start
        (event_rounds machine memory overtaken ++ (arrival machine memory last_pkt [] 10 ∷ []))
      ≡ some (left, r'))
    × (r'.stdout ≡ at_start.stdout ++ (hello ++ (hello ++ hello)))
read_write_loop-Shuffled_example =
    read_write_loop-Shuffled machine memory (λ n. hello) overtaken last_pkt 10 [] at_start 0
      (none ∷ none ∷ []) at_start-InStep overtaken-AreGood (refl, (refl, (refl, tt)))
      (swapped (in_order over)) (omega arith) last_pkt-IsLast

-- Packet 254 is due.
abbrev near_the_end : Receiver
near_the_end = record at_start { base_r = 2 }

near_the_end-InStep : InStep near_the_end 254 (none ∷ none ∷ [])
unfolding start
near_the_end-InStep = record {
  empty = refl;
  base = refl;
  places = refl;
  no_nack = refl;
  no_ack = refl;
  byte = omega arith;
  sized = refl;
  stamped = omega arith;
}

round-wrap_example :
    (r1 : Receiver) × (r2 : Receiver) × (round machine near_the_end
        (arrival machine memory (data_pkt 255) hello 5)
      ≡ some (again, r1))
    × (r1.sent
        ≡ near_the_end.sent
          ++ (wire machine.zlib machine.endian
                (made blank ack_kind 0 3 []
                  (later near_the_end.last_time_pkt (data_pkt 255).timestamp))
                []
              ∷ []))
    × (r1.base_r ≡ 0)
    × (place r1 9 (data_pkt 254) ≡ some r2)
    × (r2.slots ≡ none ∷ some near_the_end.next ∷ some 9 ∷ none ∷ none ∷ none ∷ none ∷ [])
round-wrap_example =
    round-wrap machine memory near_the_end (none ∷ none ∷ []) near_the_end-InStep (data_pkt 255)
      hello 5 (data_pkt-IsSendable 255 (omega arith)) refl refl (hello-HasPayload 255) (omega arith)
      (omega arith) 9 (data_pkt 254) refl
