-- ===== src/Network/Hearing.antt =====
-- src/read_write_loop_sender.c: rounds of the sender at any moment of a transfer in order.
use mathlib.Core.Path.{subst}
use mathlib.Core.List.{append-nil, append_assoc}
use trtp_network.Prelude.{
  ℕ, suc, ◌+◌, ◌-◌, ◌≤◌, ◌≡◌, sym, ap, ◌∙◌, List, [], ◌∷◌, ◌++◌, some, arith, length, length-append,
}
use trtp_network.Packet.{Pkt}
use trtp_network.Build.{Machine}
use trtp_network.Heap.{Ptr}
use trtp_network.Receiver.InOrder.{HasMemory, InStep}
use trtp_network.Receiver.Steps.{quiet, ready, again}
use trtp_network.Sender.{Sender}
use trtp_network.Sender.Next.{IsSwift}
use trtp_network.Sender.Burst.{Flight, datagrams, Flight-append, datagrams-append}
use trtp_network.Sender.Filling.{left_over}
use trtp_network.Sender.Idle.{output_half-full}
use trtp_network.Sender.Output.{round-quiet}
use trtp_network.Sender.Pace.{InPace}
use trtp_network.Sender.Steps.{round}
use trtp_network.Sender.Turn.{round-Turn}
use trtp_network.Network.{Net}
use trtp_network.Network.Flow.{Flow, Answers}

-- The number of the next packet to be delivered stays small.
pub due_small :
    {m : Machine} {t : Net} {n k f w : ℕ} {whole : List ℕ} {bs br : List Ptr}
    → Flow m t n k f w whole bs br
    → length whole ≤ 122000
    → n + k ≤ 250
due_small flow short = omega (arith, flow.nonempty, short)

nothing_sent :
    (m : Machine) (l : List (Pkt × List ℕ)) (sent old : List (List ℕ))
    → length l ≡ 0
    → sent ≡ old ++ datagrams m l
    → sent ≡ old
nothing_sent m [] sent old h e = e ∙ append-nil old
nothing_sent m (x ∷ l) sent old h e = absurd (omega arith)

module _ (m : Machine) (swift : IsSwift m) where
  -- A round in which the sender finds nothing to read leaves everything as it is.
  pub sends-Flow :
      (t : Net) (n k f w : ℕ) (whole : List ℕ) (bs br : List Ptr)
      → Flow m t n k f w whole bs br
      → length whole ≤ 122000
      → (s : Sender) × (round m t.sender
            (record { input = quiet; output = ready; datagram = some [] })
          ≡ some (again, s))
        × Flow m (record t { sender = s }) n k f w whole bs br
  sends-Flow t n k f w whole bs br flow short =
      let (s, out, turn) =
        output_half-full m swift t.sender n w whole flow.items bs flow.pace
          (omega (arith, flow.small)) (omega (arith, flow.small, due_small flow short)) in
      (
        s,
        round-quiet m t.sender s out,
        record {
          items = turn.items;
          flying = flow.flying;
          pending = flow.pending;
          read = flow.read;
          heard = flow.heard;
          pace = subst (λ j. InPace s n j w whole turn.items bs) (plus_zero w) turn.pace;
          step = flow.step;
          full = flow.full;
          wide = flow.wide;
          small = flow.small;
          many = flow.many;
          flight = flow.flight;
          sent = nothing_sent m turn.packets s.sent t.sender.sent turn.count turn.sent ∙ flow.sent;
          data_at = flow.data_at;
          data_count = flow.data_count;
          answers = flow.answers;
          waiting = flow.waiting;
          answered = flow.answered;
          answers_at = flow.answers_at;
          answers_count = flow.answers_count;
          written = flow.written;
          nonempty = flow.nonempty;
          running = flow.running;
        },
      )
    where
      plus_zero : (f : ℕ) → f + 0 ≡ f
      plus_zero f = omega arith

  -- A round with the first of the answers on their way: the window is four from then on, and full
  -- again.
  pub hears-Flow :
      (memory : HasMemory m) (t : Net) (n k f w : ℕ) (d : List ℕ) (more : List (List ℕ))
      (whole : List ℕ) (bs br : List Ptr)
      → (flow : Flow m t n (suc k) f (suc w) whole bs br) → flow.pending ≡ d ∷ more
      → length whole ≤ 122000
      → (s : Sender) × (round m t.sender
            (record { input = ready; output = ready; datagram = some d })
          ≡ some (again, s))
        × Flow m
            (record t { sender = s; answers_read = t.answers_read + 1 })
            (n + 1)
            k
            (f + (4 - w))
            4
            whole
            bs
            br
  hears-Flow memory t n k f w d more whole bs br flow e short =
      let answers : Answers m n (d ∷ more) = subst (Answers m n) e flow.answers in
      let (late, stamped, is) = answers.0 in
      let (s, turned, turn, _) =
        round-Turn m swift memory t.sender n late w (4 - w) (suc w) whole flow.items bs flow.pace
          (omega (arith, flow.small)) stamped (omega arith) flow.small
          (omega (arith, due_small flow short)) in
      (
        s,
        ap (λ b. round m t.sender (record { input = ready; output = ready; datagram = some b })) is
            ∙ turned,
        record {
          items = turn.items;
          flying = flow.flying ++ turn.packets;
          pending = more;
          read = flow.read;
          heard = flow.heard ++ (d ∷ []);
          pace =
              subst (λ j. InPace s (n + 1) j 4 whole turn.items bs) (fills w flow.small) turn.pace;
          step = subst (λ j. InStep t.receiver j br) (shuffle n k) flow.step;
          full = omega (arith, flow.full, flow.small);
          wide = omega arith;
          small = omega arith;
          many = omega (arith, length-append flow.flying turn.packets, flow.many, turn.count);
          flight =
              Flight-append (n + 1 + k) whole flow.flying turn.packets
                (subst (λ j. Flight j whole flow.flying) (shuffle n k) flow.flight)
                (subst (λ j. Flight j whole turn.packets)
                  (reach n k f w (length flow.flying) flow.many flow.full) turn.flight);
          sent =
              turn.sent
              ∙ ap (λ l. l ++ datagrams m turn.packets) flow.sent
              ∙ append_assoc flow.read (datagrams m flow.flying) (datagrams m turn.packets)
              ∙ ap (λ l. flow.read ++ l) (sym (datagrams-append m flow.flying turn.packets));
          data_at = flow.data_at;
          data_count = omega (arith, flow.data_count);
          answers = answers.1;
          waiting = omega (arith, flow.waiting, ap length e);
          answered =
              flow.answered
              ∙ ap (λ l. flow.heard ++ l) e
              ∙ sym (append_assoc flow.heard (d ∷ []) more);
          answers_at = omega (arith, flow.answers_at, length-append flow.heard (d ∷ []));
          answers_count = omega (arith, flow.answers_count);
          written =
              ap (λ j. t.receiver.stdout ++ left_over j whole) (sym (shuffle n k)) ∙ flow.written;
          nonempty = omega (arith, flow.nonempty);
          running = flow.running;
        },
      )
    where
      shuffle : (n k : ℕ) → n + suc k ≡ n + 1 + k
      shuffle n k = omega arith

      fills : (w : ℕ) → suc w ≤ 4 → w + (4 - w) ≡ 4
      fills w h = omega arith

      reach : (n k f w l : ℕ) → l ≡ f → suc k + f ≡ suc w → n + 1 + w ≡ n + 1 + k + l
      reach n k f w l e h = omega arith
