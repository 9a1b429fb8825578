-- ===== src/Network/Transfer.antt =====
-- src/read_write_loop_sender.c and src/read_write_loop.c: a whole transfer over a network that loses
-- nothing and keeps the order.
use mathlib.Core.Path.{subst}
use mathlib.Core.List.{append-nil, append_assoc}
use trtp_network.Prelude.{
  ℕ, zero, suc, ◌+◌, ◌-◌, ◌*◌, ◌%◌, ◌≤◌, ◌<◌, ◌≡◌, refl, sym, ap, ◌∙◌, List, [], ◌∷◌, ◌++◌, Bool,
  true, false, Option, some, arith, length, get_elem?, take, drop, length-append, length-drop,
}
use trtp_network.Packet.{Pkt}
use trtp_network.Codec.Encode.{wire}
use trtp_network.Build.{Machine}
use trtp_network.Heap.{Ptr}
use trtp_network.Receiver.Window.{Item}
use trtp_network.Receiver.InOrder.{HasMemory, InStep, round-due, ack_pkt, later}
use trtp_network.Receiver.Transfer.{IsLast, round-last, ended}
use trtp_network.Sender.Next.{IsSwift}
use trtp_network.Sender.Burst.{Flight-append, datagrams-append, Flight, datagrams}
use trtp_network.Sender.Content.{Carries-IsSendable}
use trtp_network.Sender.Filling.{left_over}
use trtp_network.Sender.Pace.{InPace, piece, left_over-next}
use trtp_network.Sender.Turn.{round-Turn}
use trtp_network.Network.{Net, Run, stop, go, sender_hears, receiver_hears, receiver_ends}

-- The packets `flying` are under way, the first of them number `n`; everything before them has been
-- written out and acknowledged.
pub record UnderWay (m : Machine) (t : Net) (n f w : ℕ) (whole : List ℕ) (bs br : List Ptr)
    : Type 0 where
  pub items : List Item
  pub flying : List (Pkt × List ℕ)
  pub read : List (List ℕ)
  pub pace : InPace t.sender n f w whole items bs
  pub step : InStep t.receiver n br
  pub many : length flying ≡ f
  pub flight : Flight n whole flying
  pub sent : t.sender.sent ≡ read ++ datagrams m flying
  pub data_at : t.data_read ≡ length read
  pub answers_at : t.answers_read ≡ length t.receiver.sent
  pub written : t.receiver.stdout ++ left_over n whole ≡ whole
  pub running : t.over ≡ false

pub next_in : (l k : List (List ℕ)) (d : List ℕ) → get_elem? (l ++ (d ∷ k)) (length l) ≡ some d
next_in [] k d = refl
next_in (x ∷ l) k d = next_in l k d

pub take-drop : (k : ℕ) (l : List ℕ) → take k l ++ drop k l ≡ l
take-drop zero l = refl
take-drop (suc k) [] = refl
take-drop (suc k) (x ∷ l) = ap (λ r. x ∷ r) (take-drop k l)

-- A piece is empty only at the end of the file.
pub no_piece : (k : ℕ) (l : List ℕ) → take (suc k) l ≡ [] → l ≡ []
no_piece k [] h = refl
no_piece k (x ∷ l) h = absurd (cc)

pub byte_same : (n : ℕ) → n < 256 → n % 256 ≡ n
byte_same n h = omega arith

pub length-left_over :
    (n : ℕ) (whole : List ℕ) → length (left_over n whole) ≡ length whole - 488 * n
length-left_over zero whole = omega arith
length-left_over (suc n) whole =
    omega (arith, length-left_over n (drop 488 whole), length-drop 488 whole)

-- The receiver runs on a machine with the same checksum and byte order, and memory of its own.
module _ (m : Machine) (memory : HasMemory m) (swift : IsSwift m) (pkt_new : ℕ → Option Pkt)
    (room : ℕ → Bool) (clock : ℕ → ℕ) where
  abbrev pub mr : Machine
  mr = record m { pkt_new = pkt_new; room = room; clock = clock }

  module _ (memory_r : HasMemory mr) where
    -- The first datagram under way is the one that the receiver reads next.
    first_datagram :
        (t : Net) (n f w : ℕ) (whole : List ℕ) (bs br : List Ptr) (p : Pkt) (body : List ℕ)
        (rest : List (Pkt × List ℕ))
        → (way : UnderWay m t n f w whole bs br) → (p, body) ∷ rest ≡ way.flying
        → get_elem? t.sender.sent t.data_read ≡ some (wire m.zlib m.endian p body)
    first_datagram t n f w whole bs br p body rest way e =
        ap (λ l. get_elem? l t.data_read) way.sent
        ∙ ap (λ k. get_elem? (way.read ++ datagrams m way.flying) k) way.data_at
        ∙ ap (λ l. get_elem? (way.read ++ datagrams m l) (length way.read)) (sym e)
        ∙ next_in way.read (datagrams m rest) (wire m.zlib m.endian p body)

    -- One packet is delivered, and its acknowledgement heard.
    pub cycle :
        (t : Net) (n f w : ℕ) (whole : List ℕ) (bs br : List Ptr) (p : Pkt) (body : List ℕ)
        (rest : List (Pkt × List ℕ))
        → (way : UnderWay m t n (suc f) w whole bs br) → (p, body) ∷ rest ≡ way.flying
        → 0 < w
        → w ≤ 4
        → f < 4
        → n + 5 < 256
        → 0 < length body
        → (v : Net) × Run m mr t v
          × UnderWay m v (n + 1) 4 4 whole bs br
          × (v.receiver.stdout ≡ t.receiver.stdout ++ body)
    cycle t n f w whole bs br p body rest way e wide small few byte full =
        let flight : Flight n whole ((p, body) ∷ rest) =
          subst (Flight n whole) (sym e) way.flight in
        let c = flight.0.carries in
        let d : List ℕ = wire m.zlib m.endian p body in
        let due =
          round-due mr memory_r t.receiver n br p body 0 way.step (Carries-IsSendable p n body c)
            c.typed (c.numbered ∙ byte_same n (omega (arith, byte))) c.holds full
            (omega (arith, c.short)) in
        let r = due.0 in
        let went = due.2 in
        let late : ℕ = later t.receiver.last_time_pkt p.timestamp in
        let answer : List ℕ = wire m.zlib m.endian (ack_pkt (n + 1) late) [] in
        let answered : r.sent ≡ t.receiver.sent ++ (answer ∷ []) =
          went.answer
          ∙ ap (λ k. t.receiver.sent ++ (wire m.zlib m.endian (ack_pkt k late) [] ∷ []))
              (byte_same (n + 1) (omega (arith, byte))) in
        let turn =
          round-Turn m swift memory t.sender n late f (4 - f) w whole way.items bs way.pace
            (omega (arith, few)) (omega (arith, went.clock_kept, went.in_step.stamped)) wide small
            byte in
        let heard = turn.2 in
        let u : Net = record t { receiver = r; data_read = t.data_read + 1 } in
        let count : length rest ≡ f = omega (arith, ap length e, way.many) in
        (
          record u { sender = turn.0; answers_read = t.answers_read + 1 },
          go
              (receiver_hears t d 0 r way.running
                (first_datagram t n (suc f) w whole bs br p body rest way e) due.1)
              tt
              (go
                (sender_hears u answer turn.0
                  (ap (λ l. get_elem? l t.answers_read) answered
                    ∙ ap (get_elem? (t.receiver.sent ++ (answer ∷ []))) way.answers_at
                    ∙ next_in t.receiver.sent [] answer)
                  turn.1)
                tt stop),
          record {
            items = heard.items;
            flying = rest ++ heard.packets;
            read = way.read ++ (d ∷ []);
            pace =
                subst (λ k. InPace turn.0 (n + 1) k 4 whole heard.items bs) (fills f few)
                  heard.pace;
            step =
                subst (λ k. InStep r k br) (byte_same (n + 1) (omega (arith, byte))) went.in_step;
            many = omega (arith, length-append rest heard.packets, count, heard.count, few);
            flight =
                Flight-append (n + 1) whole rest heard.packets
                  (subst (λ k. Flight k whole rest) (suc_is n) flight.1)
                  (subst (λ k. Flight (n + 1 + k) whole heard.packets) (sym count) heard.flight);
            sent =
                heard.sent
                ∙ ap (λ l. l ++ datagrams m heard.packets)
                    (way.sent ∙ ap (λ l. way.read ++ datagrams m l) (sym e))
                ∙ regroup way.read d (datagrams m rest) (datagrams m heard.packets)
                ∙ ap (λ l. (way.read ++ (d ∷ [])) ++ l)
                    (sym (datagrams-append m rest heard.packets));
            data_at = omega (arith, way.data_at, length-append way.read (d ∷ []));
            answers_at = omega (
              arith,
              way.answers_at,
              ap length answered,
              length-append t.receiver.sent (answer ∷ []),
            );
            written =
                ap (λ l. l ++ left_over (n + 1) whole) went.output
                ∙ append_assoc t.receiver.stdout body (left_over (n + 1) whole)
                ∙ ap (λ l. t.receiver.stdout ++ l)
                    (ap (λ b. b ++ left_over (n + 1) whole) flight.0.is_piece
                      ∙ ap (λ l. piece n whole ++ l) (sym (left_over-next n whole))
                      ∙ take-drop 488 (left_over n whole))
                ∙ way.written;
            running = way.running;
          },
          went.output,
        )
      where
        suc_is : (n : ℕ) → suc n ≡ n + 1
        suc_is n = omega arith

        fills : (f : ℕ) → f < 4 → f + (4 - f) ≡ 4
        fills f h = omega arith

        regroup :
            (a : List (List ℕ)) (x : List ℕ) (b c : List (List ℕ))
            → (a ++ (x ∷ b)) ++ c ≡ (a ++ (x ∷ [])) ++ (b ++ c)
        regroup a x b c = append_assoc a (x ∷ b) c ∙ sym (append_assoc a (x ∷ []) (b ++ c))

    pub finish :
        (t : Net) (n f w : ℕ) (whole : List ℕ) (bs br : List Ptr) (p : Pkt)
        (rest : List (Pkt × List ℕ))
        → (way : UnderWay m t n f w whole bs br) → (p, []) ∷ rest ≡ way.flying
        → n < 256
        → left_over n whole ≡ []
        → (u : Net) × Run m mr t u × (u.over ≡ true) × (u.receiver.stdout ≡ whole)
    finish t n f w whole bs br p rest way e byte none_left =
        let flight : Flight n whole ((p, []) ∷ rest) = subst (Flight n whole) (sym e) way.flight in
        let c = flight.0.carries in
        let last : IsLast p = record {
          sendable = Carries-IsSendable p n [] c;
          typed = c.typed;
          holds = c.holds;
        } in
        let r = ended mr memory_r t.receiver n br way.step p last in
        (
          record t { receiver = r; data_read = t.data_read + 1; over = true },
          go
              (receiver_ends t (wire m.zlib m.endian p []) 0 r way.running
                (first_datagram t n f w whole bs br p [] rest way e)
                (round-last mr memory_r t.receiver n br way.step p last 0))
              tt stop,
          refl,
          sym (append-nil t.receiver.stdout)
              ∙ ap (λ l. t.receiver.stdout ++ l) (sym none_left)
              ∙ way.written,
        )
