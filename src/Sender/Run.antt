-- ===== src/Sender/Run.antt =====
-- src/read_write_loop_sender.c, `read_write_loop_sender`: a run in which every packet is acknowledged
-- in turn.
use mathlib.Core.List.{append_assoc, append-nil}
use mathlib.Core.Path.{subst}
use trtp_network.Prelude.{
  ℕ, ◌+◌, ◌^◌, ◌<◌, ◌≡◌, refl, sym, ap, ◌∙◌, List, [], ◌∷◌, ◌++◌, some, arith, length,
  length-append,
}
use trtp_network.Packet.{Pkt}
use trtp_network.Codec.Encode.{wire}
use trtp_network.Build.{Machine}
use trtp_network.Heap.{Ptr}
use trtp_network.Receiver.InOrder.{HasMemory, ack_pkt}
use trtp_network.Receiver.Steps.{ready, quiet, again}
use trtp_network.Receiver.Window.{Item}
use trtp_network.Sender.{Sender}
use trtp_network.Sender.Next.{IsSwift}
use trtp_network.Sender.Burst.{Flight, datagrams, Flight-append, datagrams-append}
use trtp_network.Sender.Pace.{InPace}
use trtp_network.Sender.Output.{Turn, output_half-Turn, round-quiet}
use trtp_network.Sender.Prepare.{prepare-Prepared}
use trtp_network.Sender.Turn.{round-Turn}
use trtp_network.Sender.Steps.{Round, round, run_rounds, prepare, start, read_write_loop_sender}

-- The acknowledgements of the packets from number `n` on, with the given timestamps.
abbrev pub answers : Machine → ℕ → List ℕ → List Round
answers m n [] = []
answers m n (t ∷ ts) =
    record {
      input = ready;
      output = ready;
      datagram = some (wire m.zlib m.endian (ack_pkt (n + 1) t) []);
    }
    ∷ answers m (n + 1) ts

abbrev pub AreStamps : List ℕ → Type 0
AreStamps [] = Unit
AreStamps (t ∷ ts) = (t < 2 ^ 32) × AreStamps ts

-- The packets that a run has sent, from number `k` on.
pub record Sent (m : Machine) (s s' : Sender) (k count : ℕ) (whole : List ℕ) : Type 0 where
  pub packets : List (Pkt × List ℕ)
  pub flight : Flight k whole packets
  pub many : length packets ≡ count
  pub sent : s'.sent ≡ s.sent ++ datagrams m packets

Sent-append :
    {m : Machine} {s s1 s2 : Sender} {k c d : ℕ} {whole : List ℕ}
    → Sent m s s1 k c whole
    → Sent m s1 s2 (k + c) d whole
    → Sent m s s2 k (c + d) whole
Sent-append {m} {s} {k} {whole} a b = record {
  packets = a.packets ++ b.packets;
  flight =
      Flight-append k whole a.packets b.packets a.flight
        (subst (λ c. Flight (k + c) whole b.packets) (sym a.many) b.flight);
  many = omega (arith, length-append a.packets b.packets, a.many, b.many);
  sent =
      b.sent
      ∙ ap (λ l. l ++ datagrams m b.packets) a.sent
      ∙ append_assoc s.sent (datagrams m a.packets) (datagrams m b.packets)
      ∙ ap (λ l. s.sent ++ l) (sym (datagrams-append m a.packets b.packets));
}

run_rounds-again :
    (m : Machine) (s s' : Sender) (t : Round) (ts : List Round)
    → round m s t ≡ some (again, s')
    → run_rounds m s (t ∷ ts) ≡ run_rounds m s' ts
unfolding run_rounds
run_rounds-again m s s' t ts h = rw h

run_rounds-done : (m : Machine) (s : Sender) → run_rounds m s [] ≡ some (again, s)
unfolding run_rounds
run_rounds-done m s = refl

Sent-along :
    {m : Machine} {s s' : Sender} {k k' c c' : ℕ} {whole : List ℕ}
    → k ≡ k'
    → c ≡ c'
    → Sent m s s' k c whole
    → Sent m s s' k' c' whole
Sent-along {whole} e f a = record {
  packets = a.packets;
  flight = subst (λ j. Flight j whole a.packets) e a.flight;
  many = a.many ∙ f;
  sent = a.sent;
}

Turn-Sent :
    {m : Machine} {s s' : Sender} {n f k w : ℕ} {whole : List ℕ} {beyond : List Ptr}
    → Turn m s s' n f k w whole beyond
    → Sent m s s' (n + f) k whole
Turn-Sent t = record { packets = t.packets; flight = t.flight; many = t.count; sent = t.sent }

read_write_loop_sender-runs :
    (m : Machine) (s0 s : Sender) (ts : List Round)
    → prepare m s0 ≡ some s
    → read_write_loop_sender m s0 ts ≡ run_rounds m s ts
unfolding read_write_loop_sender
read_write_loop_sender-runs m s0 s ts h = rw h

abbrev pub sending_round : Round
sending_round = record { input = quiet; output = ready; datagram = some [] }

module _ (m : Machine) (swift : IsSwift m) (memory : HasMemory m) where
  run_rounds-Sent :
      (ts : List ℕ) (s : Sender) (n : ℕ) (whole : List ℕ) (items : List Item) (beyond : List Ptr)
      → InPace s n 4 4 whole items beyond
      → AreStamps ts
      → n + length ts + 4 < 256
      → (s' : Sender) × (run_rounds m s (answers m n ts) ≡ some (again, s'))
        × Sent m s s' (n + 4) (length ts) whole
  run_rounds-Sent [] s n whole items beyond pace stamps byte = (
    s,
    run_rounds-done m s,
    record { packets = []; flight = tt; many = refl; sent = sym (append-nil s.sent) },
  )
  run_rounds-Sent (t ∷ ts) s n whole items beyond pace stamps byte =
      let turn =
        round-Turn m swift memory s n t 3 1 4 whole items beyond pace refl stamps.0 (omega arith)
          (omega arith) (omega (arith, byte)) in
      let more =
        run_rounds-Sent ts turn.0 (n + 1) whole turn.2.items beyond turn.2.pace stamps.1
          (omega (arith, byte)) in
      (
        more.0,
        run_rounds-again m s turn.0 _ (answers m (n + 1) ts) turn.1 ∙ more.1,
        Sent-along (omega arith) (omega arith)
            (Sent-append (Turn-Sent turn.2) (Sent-along (omega arith) refl more.2)),
      )

  -- The sender from its start, with any file, on a round that finds nothing to read and rounds with
  -- the acknowledgements of the first `length ts + 1` packets in turn, at most 251: it does not
  -- fault, and has sent exactly the packets from number 0 to `length ts + 4`, in order, each with its
  -- piece of the file. Packets find room in memory, and the clock stays below 500 ms.
  pub read_write_loop_sender-Sent :
      (t : ℕ) (ts : List ℕ) (junk beyond : List Ptr) (buffer whole : List ℕ)
      → length junk ≡ 50
      → length buffer ≡ 512
      → AreStamps (t ∷ ts)
      → length ts < 251
      → (s' : Sender) × (read_write_loop_sender m
            (start (junk ++ beyond) buffer whole)
            (sending_round ∷ answers m 0 (t ∷ ts))
          ≡ some (again, s'))
        × (packets : List (Pkt × List ℕ)) × Flight 0 whole packets
        × (length packets ≡ length ts + 5)
        × (s'.sent ≡ datagrams m packets)
  read_write_loop_sender-Sent t ts junk beyond buffer whole fifty sized stamps byte =
      let (s, ran, first) = prepare-Prepared m memory swift junk beyond buffer whole fifty sized in
      let (s1, sends, one) =
        output_half-Turn m swift s 0 0 1 whole first.items beyond first.pace first.updated
          (omega arith) (omega arith) in
      let (s2, heard, four, _) =
        round-Turn m swift memory s1 0 t 0 4 1 whole one.items beyond one.pace refl stamps.0
          (omega arith) (omega arith) (omega arith) in
      let (s3, rest, last) =
        run_rounds-Sent ts s2 1 whole four.items beyond four.pace stamps.1 (omega (arith, byte)) in
      let all : Sent m s s3 0 (length ts + 5) whole =
        Sent-along refl (omega arith)
          (Sent-append (Turn-Sent one) (Sent-append (Turn-Sent four) last)) in
      (
        s3,
        read_write_loop_sender-runs m (start (junk ++ beyond) buffer whole) s _ ran
            ∙ run_rounds-again m s s1 sending_round (answers m 0 (t ∷ ts))
                (round-quiet m s s1 sends)
            ∙ run_rounds-again m s1 s2 _ (answers m 1 ts) heard
            ∙ rest,
        all.packets,
        all.flight,
        all.many,
        all.sent ∙ ap (λ l. l ++ datagrams m all.packets) first.unsent,
      )
