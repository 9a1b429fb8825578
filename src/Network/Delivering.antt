-- ===== src/Network/Delivering.antt =====
-- src/read_write_loop.c: rounds of the receiver at any moment of a transfer in order.
use mathlib.Core.Path.{subst}
use mathlib.Core.List.{append-nil, append_assoc}
use trtp_network.Prelude.{
  ℕ, suc, ◌+◌, ◌%◌, ◌≤◌, ◌<◌, ◌≡◌, sym, ap, ◌∙◌, List, [], ◌∷◌, ◌++◌, Bool, Option, some, arith,
  length, length-append, length-take,
}
use trtp_network.Packet.{Pkt}
use trtp_network.Codec.Encode.{wire}
use trtp_network.Build.{Machine}
use trtp_network.Heap.{Ptr}
use trtp_network.Receiver.{Receiver}
use trtp_network.Receiver.InOrder.{HasMemory, InStep, round-due, later}
use trtp_network.Receiver.Steps.{ready, again, left, round}
use trtp_network.Receiver.Transfer.{IsLast, round-last, ended}
use trtp_network.Sender.Burst.{Flight, datagrams}
use trtp_network.Sender.Content.{Carries-IsSendable}
use trtp_network.Sender.Filling.{left_over}
use trtp_network.Sender.Next.{IsSwift}
use trtp_network.Sender.Pace.{piece, left_over-next}
use trtp_network.Network.{Net}
use trtp_network.Network.Flow.{Flow, Answers, Answers-snoc, ack_wire}
use trtp_network.Network.Hearing.{due_small}
use trtp_network.Network.Transfer.{mr, byte_same, take-drop, length-left_over}
use trtp_network.Network.Completion.{empty-left_over}

module _ (m : Machine) (memory : HasMemory m) (swift : IsSwift m) (pkt_new : ℕ → Option Pkt)
    (room : ℕ → Bool) (clock : ℕ → ℕ)
    (memory_r : HasMemory (mr m memory swift pkt_new room clock)) where
  -- What the receiver does with the first packet on its way: it writes its payload, and answers.
  pub delivers-Flow :
      (t : Net) (n k f w now : ℕ) (p : Pkt) (body : List ℕ) (rest : List (Pkt × List ℕ))
      (whole : List ℕ) (bs br : List Ptr)
      → (flow : Flow m t n k (suc f) w whole bs br) → flow.flying ≡ (p, body) ∷ rest
      → 0 < length body
      → length whole ≤ 122000
      → (r : Receiver) × (round (mr m memory swift pkt_new room clock) t.receiver (record {
        input = ready;
        output = ready;
        datagram = some (wire m.zlib m.endian p body);
        now = now;
      })
          ≡ some (again, r))
        × Flow m (record t { receiver = r; data_read = t.data_read + 1 }) n (suc k) f w whole bs br
  delivers-Flow t n k f w now p body rest whole bs br flow e filled short =
      let flight : Flight (n + k) whole ((p, body) ∷ rest) =
        subst (Flight (n + k) whole) e flow.flight in
      let c = flight.0.carries in
      let byte : n + k < 255 = omega (arith, due_small flow short) in
      let due =
        round-due (mr m memory swift pkt_new room clock) memory_r t.receiver (n + k) br p body now
          flow.step (Carries-IsSendable p (n + k) body c) c.typed
          (c.numbered ∙ byte_same (n + k) (omega (arith, byte))) c.holds filled
          (omega (arith, c.short)) in
      let r = due.0 in
      let went = due.2 in
      let late : ℕ = later t.receiver.last_time_pkt p.timestamp in
      let next_number : (n + k + 1) % 256 ≡ n + k + 1 =
        byte_same (n + k + 1) (omega (arith, byte)) in
      let answered : r.sent ≡ t.receiver.sent ++ (ack_wire m (n + k + 1) late ∷ []) =
        went.answer ∙ ap (λ j. t.receiver.sent ++ (ack_wire m j late ∷ [])) next_number in
      (
        r,
        due.1,
        record {
          items = flow.items;
          flying = rest;
          pending = flow.pending ++ (ack_wire m (n + k + 1) late ∷ []);
          read = flow.read ++ (wire m.zlib m.endian p body ∷ []);
          heard = flow.heard;
          pace = flow.pace;
          step = subst (λ j. InStep r j br) (next_number ∙ shuffle n k) went.in_step;
          full = omega (arith, flow.full);
          wide = flow.wide;
          small = flow.small;
          many = omega (arith, ap length e, flow.many);
          flight = subst (λ j. Flight j whole rest) (suc_is n k) flight.1;
          sent =
              flow.sent
              ∙ ap (λ l. flow.read ++ datagrams m l) e
              ∙ sym (append_assoc flow.read (wire m.zlib m.endian p body ∷ []) (datagrams m rest));
          data_at =
              omega
                (arith, flow.data_at, length-append flow.read (wire m.zlib m.endian p body ∷ []));
          data_count = omega (arith, flow.data_count);
          answers =
              subst (λ j. Answers m n (flow.pending ++ (ack_wire m (n + j + 1) late ∷ [])))
                flow.waiting
                (Answers-snoc m n late flow.pending flow.answers
                  (omega (arith, went.clock_kept, went.in_step.stamped)));
          waiting =
              omega (
                arith,
                flow.waiting,
                length-append flow.pending (ack_wire m (n + k + 1) late ∷ []),
              );
          answered =
              answered
              ∙ ap (λ l. l ++ (ack_wire m (n + k + 1) late ∷ [])) flow.answered
              ∙ append_assoc flow.heard flow.pending (ack_wire m (n + k + 1) late ∷ []);
          answers_at = flow.answers_at;
          answers_count = flow.answers_count;
          written =
              ap (λ j. r.stdout ++ left_over j whole) (sym (shuffle n k))
              ∙ ap (λ l. l ++ left_over (n + k + 1) whole) went.output
              ∙ append_assoc t.receiver.stdout body (left_over (n + k + 1) whole)
              ∙ ap (λ l. t.receiver.stdout ++ l)
                  (ap (λ b. b ++ left_over (n + k + 1) whole) flight.0.is_piece
                    ∙ ap (λ l. piece (n + k) whole ++ l) (sym (left_over-next (n + k) whole))
                    ∙ take-drop 488 (left_over (n + k) whole))
              ∙ flow.written;
          nonempty = omega (
            arith,
            filled,
            ap length flight.0.is_piece,
            length-take 488 (left_over (n + k) whole),
            length-left_over (n + k) whole,
          );
          running = flow.running;
        },
      )
    where
      shuffle : (n k : ℕ) → n + k + 1 ≡ n + suc k
      shuffle n k = omega arith

      suc_is : (n k : ℕ) → suc (n + k) ≡ n + suc k
      suc_is n k = omega arith

  -- The empty packet: the receiver leaves its loop, and has written the whole file.
  pub ends-Flow :
      (t : Net) (n k f w now : ℕ) (p : Pkt) (rest : List (Pkt × List ℕ)) (whole : List ℕ)
      (bs br : List Ptr)
      → (flow : Flow m t n k (suc f) w whole bs br) → flow.flying ≡ (p, []) ∷ rest
      → (r : Receiver) × (round (mr m memory swift pkt_new room clock) t.receiver (record {
        input = ready;
        output = ready;
        datagram = some (wire m.zlib m.endian p []);
        now = now;
      })
          ≡ some (left, r))
        × (r.stdout ≡ whole)
  ends-Flow t n k f w now p rest whole bs br flow e =
      let flight : Flight (n + k) whole ((p, []) ∷ rest) =
        subst (Flight (n + k) whole) e flow.flight in
      let c = flight.0.carries in
      let last : IsLast p = record {
        sendable = Carries-IsSendable p (n + k) [] c;
        typed = c.typed;
        holds = c.holds;
      } in
      (
        ended (mr m memory swift pkt_new room clock) memory_r t.receiver (n + k) br flow.step p
            last,
        round-last (mr m memory swift pkt_new room clock) memory_r t.receiver (n + k) br flow.step p
            last now,
        sym (append-nil t.receiver.stdout)
            ∙ ap (λ l. t.receiver.stdout ++ l)
                (sym (empty-left_over (n + k) whole flight.0.is_piece))
            ∙ flow.written,
      )
