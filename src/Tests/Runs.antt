-- ===== src/Tests/Runs.antt =====
-- The theorems on every orderly run at concrete inputs.
use trtp_network.Prelude.{
  ℕ, ◌+◌, ◌*◌, ◌≤◌, ◌<◌, ◌≡◌, ◌⊎◌, refl, sym, ap, ◌∙◌, List, [], ◌++◌, true, false, none, some,
  arith, replicate, length,
}
use trtp_network.Codec.Encode.{wire}
use trtp_network.Sender.{Sender}
use trtp_network.Sender.Burst.{datagrams}
use trtp_network.Sender.Steps.{prepare, start}
use trtp_network.Network.{Net, Step, IsKept, Run, opening, sender_sends, stop, go}
use trtp_network.Network.Completion.{first_of}
use trtp_network.Network.Flow.{read_next}
use trtp_network.Network.Offers.{Offer, packet, play}
use trtp_network.Network.Pipe.{Refines, opening-Refines}
use trtp_network.Network.Safety.{Run-prefix, Run-plays, Run-goes_on}
use trtp_network.Tests.Data.{blank, hello}
use trtp_network.Tests.Transfers.{
  still, still_memory, still-IsSwift, nothing_yet, five_nulls, completed,
}
use trtp_network.Receiver.Steps.{start as receiver_start, again, quiet, ready}
use trtp_network.Sender.Steps as SenderSteps

-- After the whole transfer.
Run-prefix_example :
    ((completed.2.over ≡ false) × (rest : List ℕ) × (completed.2.receiver.stdout ++ rest ≡ hello))
    ⊎ ((completed.2.over ≡ true) × (completed.2.receiver.stdout ≡ hello))
Run-prefix_example =
    Run-prefix still still_memory still-IsSwift (λ n. some blank) (λ n. true) (λ n. 1000)
      still_memory (replicate 50 none) [] (replicate 512 0) (replicate 512 0) hello five_nulls []
      nothing_yet 0 completed.0 refl refl refl refl (omega arith) completed.1 completed.2
      completed.3

-- After the first round of the sender.
begun :
    (s : Sender) × (prepare still (start (replicate 50 none ++ []) (replicate 512 0) hello)
      ≡ some s)
    × (t : Sender) × (SenderSteps.round still s
          (record { input = quiet; output = ready; datagram = some [] })
        ≡ some (again, t))
    × Refines still
        (opening t (receiver_start five_nulls nothing_yet 0 (replicate 512 0)))
        (record { written = []; waiting = hello })
        0
begun =
    opening-Refines still still_memory still-IsSwift (λ n. some blank) (λ n. true) (λ n. 1000)
      still_memory (replicate 50 none) [] (replicate 512 0) (replicate 512 0) hello five_nulls []
      nothing_yet 0 refl refl refl refl

abbrev after_first : Net
after_first = opening begun.2 (receiver_start five_nulls nothing_yet 0 (replicate 512 0))

first_run :
    Run still still
      (opening begun.0 (receiver_start five_nulls nothing_yet 0 (replicate 512 0)))
      after_first
first_run =
    go
      (sender_sends (opening begun.0 (receiver_start five_nulls nothing_yet 0 (replicate 512 0)))
        begun.2 begun.3)
      tt stop

-- The packet on its way.
first_packet : Offer after_first
first_packet =
    let refines = begun.4 in
    let way = refines.way in
    let (p, body, rest, e) =
      first_of still after_first 0 refines.f refines.w refines.whole refines.bs refines.br way in
    packet (wire still.zlib still.endian p body) 2000 way.running (
      read_next after_first.sender.sent way.read (datagrams still rest) after_first.data_read
        (wire still.zlib still.endian p body)
        (way.sent ∙ ap (λ l. way.read ++ datagrams still l) (sym e)) way.data_at)

Run-plays_example :
    (u : Net) × (play still still after_first first_packet ≡ some u)
    × (step : Step still still after_first u) × IsKept step
Run-plays_example =
    Run-plays still still_memory still-IsSwift (λ n. some blank) (λ n. true) (λ n. 1000)
      still_memory (replicate 50 none) [] (replicate 512 0) (replicate 512 0) hello five_nulls []
      nothing_yet 0 begun.0 refl refl refl refl (omega arith) begun.1 after_first first_packet
      first_run begun.4.way.running

Run-goes_on_example :
    (488 * after_first.data_read < 3 + 488)
    × (after_first.answers_read ≤ after_first.data_read)
    × ((after_first.sender.sent ≡ [])
        ⊎ ((after_first.data_read < length after_first.sender.sent)
            ⊎ (after_first.answers_read < length after_first.receiver.sent)))
Run-goes_on_example =
    Run-goes_on still still_memory still-IsSwift (λ n. some blank) (λ n. true) (λ n. 1000)
      still_memory (replicate 50 none) [] (replicate 512 0) (replicate 512 0) hello five_nulls []
      nothing_yet 0 begun.0 refl refl refl refl (omega arith) begun.1 after_first first_run
      begun.4.way.running
