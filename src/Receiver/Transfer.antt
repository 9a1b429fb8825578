-- ===== src/Receiver/Transfer.antt =====
-- src/read_write_loop.c, `read_write_loop`: a whole transfer without loss or reordering.
use mathlib.Core.Path.{subst}
use mathlib.Core.List.{append-nil, append_assoc}
use trtp_network.Prelude.{
  ℕ, suc, ◌+◌, ◌%◌, ◌≤◌, ◌<◌, ◌≡◌, refl, sym, ap, ◌∙◌, List, [], ◌∷◌, ◌++◌, true, none, some, arith,
  length, drop,
}
use trtp_network.Packet.{Pkt, pkt_del, pkt_ok}
use trtp_network.Codec.{pkt_decode}
use trtp_network.Codec.Encode.{HasPayload, wire, length-sealed_header}
use trtp_network.Codec.RoundTrip.{IsSendable, received, pkt_decode-wire}
use trtp_network.Build.{Machine, read_into}
use trtp_network.Build.Wire.{overwrite_lem}
use trtp_network.Heap.{Ptr}
use trtp_network.Receiver.{Receiver}
use trtp_network.Receiver.Steps.{
  Round, receive, accept_packet, flush, round, read_write_loop, again, left, input_half,
}
use trtp_network.Receiver.InOrder.{
  HasMemory, InStep, later, ack_pkt, arrival, round-due, Progress, receive_good, not_nack,
}

-- A packet that arrives: the packet, its payload, and the reading of the clock in that round.
pub record Arrival : Type 0 where
  pub pkt : Pkt
  pub body : List ℕ
  pub now : ℕ

-- The packet is the data packet number `n`, with a payload of 1 to 496 bytes.
pub record IsDue (n : ℕ) (a : Arrival) : Type 0 where
  pub sendable : IsSendable a.pkt
  pub typed : a.pkt.type ≡ 1
  pub numbered : a.pkt.seqnum ≡ n
  pub holds : HasPayload a.pkt a.body
  pub full : 0 < length a.body
  pub fits : length a.body ≤ 496

-- The packets are numbered from `n` on, modulo 256.
abbrev pub Numbered : ℕ → List Arrival → Type 0
Numbered n [] = Unit
Numbered n (a ∷ l) = IsDue n a × Numbered ((n + 1) % 256) l

-- The text that is transferred.
abbrev pub text : List Arrival → List ℕ
text [] = []
text (a ∷ l) = a.body ++ text l

-- The latest timestamp, of `t` and those of the packets.
abbrev pub latest : ℕ → List Arrival → ℕ
latest t [] = t
latest t (a ∷ l) = latest (later t a.pkt.timestamp) l

-- One acknowledgement per packet: it asks for the next one, with the latest timestamp so far.
abbrev pub answers : Machine → ℕ → ℕ → List Arrival → List (List ℕ)
answers m n t [] = []
answers m n t (a ∷ l) =
    wire m.zlib m.endian (ack_pkt ((n + 1) % 256) (later t a.pkt.timestamp)) []
    ∷ answers m ((n + 1) % 256) (later t a.pkt.timestamp) l

-- What has happened between `r` and `r'`, when the packets `l` from number `n` on have arrived.
pub record Transferred (m : Machine) (r r' : Receiver) (n : ℕ) (beyond : List Ptr)
    (l : List Arrival) : Type 0 where
  pub in_step : InStep r' ((n + length l) % 256) beyond
  pub output : r'.stdout ≡ r.stdout ++ text l
  pub clock : r'.last_time_pkt ≡ latest r.last_time_pkt l
  pub acknowledged : r'.sent ≡ r.sent ++ answers m n r.last_time_pkt l

module _ (m : Machine) (memory : HasMemory m) where
  abbrev pub rounds : List Arrival → List Round
  rounds [] = []
  rounds (a ∷ l) = arrival m memory a.pkt a.body a.now ∷ rounds l

  pub loop-again :
      (r r' : Receiver) (t : Round) (ts : List Round)
      → round m r t ≡ some (again, r')
      → read_write_loop m r (t ∷ ts) ≡ read_write_loop m r' ts
  unfolding read_write_loop
  loop-again r r' t ts h = rw h

  loop-left :
      (r r' : Receiver) (t : Round) (ts : List Round)
      → round m r t ≡ some (left, r')
      → read_write_loop m r (t ∷ ts) ≡ some (left, r')
  unfolding read_write_loop
  loop-left r r' t ts h = rw h

  chain :
      (r r1 r' : Receiver) (n : ℕ) (beyond : List Ptr) (a : Arrival) (l : List Arrival)
      → Progress m r r1 n beyond a.pkt.timestamp a.body
      → Transferred m r1 r' ((n + 1) % 256) beyond l
      → Transferred m r r' n beyond (a ∷ l)
  chain r r1 r' n beyond a l p t = record {
    in_step = subst (λ k. InStep r' k beyond) same t.in_step;
    output = t.output ∙ (rw p.output (append_assoc r.stdout a.body (text l)));
    clock = t.clock ∙ ap (λ c. latest c l) p.clock_kept;
    acknowledged =
        t.acknowledged
        ∙ (rw (p.answer, p.clock_kept)
            (append_assoc r.sent
              (wire m.zlib m.endian
                  (ack_pkt ((n + 1) % 256) (later r.last_time_pkt a.pkt.timestamp)) []
                ∷ [])
              (answers m ((n + 1) % 256) (later r.last_time_pkt a.pkt.timestamp) l)));
  }
    where
      same : ((n + 1) % 256 + length l) % 256 ≡ (n + suc (length l)) % 256
      same = omega arith

  -- Packets with consecutive numbers, from the one on that is due: the loop runs on after them, has
  -- written exactly their payloads, has answered each with the acknowledgement of the next number,
  -- and is in step for the packet that follows.
  pub read_write_loop-Transferred :
      (l : List Arrival) (rest : List Round) (r : Receiver) (n : ℕ) (beyond : List Ptr)
      → InStep r n beyond
      → Numbered n l
      → (r' : Receiver) × (read_write_loop m r (rounds l ++ rest) ≡ read_write_loop m r' rest)
        × Transferred m r r' n beyond l
  read_write_loop-Transferred [] rest r n beyond step due = (
    r,
    refl,
    record {
      in_step = subst (λ k. InStep r k beyond) same step;
      output = sym (append-nil r.stdout);
      clock = refl;
      acknowledged = sym (append-nil r.sent);
    },
  )
    where
      same : n ≡ (n + 0) % 256
      same = omega (arith, step.byte)
  read_write_loop-Transferred (a ∷ l) rest r n beyond step due =
      let one =
        round-due m memory r n beyond a.pkt a.body a.now step due.0.sendable due.0.typed
          due.0.numbered due.0.holds due.0.full due.0.fits in
      let more =
        read_write_loop-Transferred l rest one.0 ((n + 1) % 256) beyond one.2.in_step due.1 in
      (
        more.0,
        loop-again r one.0 (arrival m memory a.pkt a.body a.now) (rounds l ++ rest) one.1 ∙ more.1,
        chain r one.0 more.0 n beyond a l one.2 more.2,
      )

-- The packet that ends a transfer: a data packet without payload.
pub record IsLast (p : Pkt) : Type 0 where
  pub sendable : IsSendable p
  pub typed : p.type ≡ 1
  pub holds : HasPayload p []

flush-empty :
    (r : Receiver) (beyond : List Ptr)
    → r.slots ≡ none ∷ none ∷ none ∷ none ∷ none ∷ beyond
    → flush r.heap r.slots r.stdout ≡ some (r.heap, r.stdout)
unfolding flush
flush-empty r beyond h = rw h

accept_last :
    (r : Receiver) (a : ℕ) (p : Pkt) (beyond : List Ptr)
    → p.length_field ≡ 0
    → p.type ≡ 1
    → r.slots ≡ none ∷ none ∷ none ∷ none ∷ none ∷ beyond
    → accept_packet r a p
      ≡ some (true, record r { last_time_pkt = later r.last_time_pkt p.timestamp })
unfolding accept_packet pkt_del
accept_last r a p beyond empty typed slots = rw (empty, typed) (rw (flush-empty r beyond slots))

module _ (m : Machine) (memory : HasMemory m) (r : Receiver) (n : ℕ) (beyond : List Ptr)
    (step : InStep r n beyond) (p : Pkt) (last : IsLast p) where
  abbrev pub bytes : List ℕ
  bytes = wire m.zlib m.endian p []

  abbrev pub fresh : Pkt
  fresh = (memory.fresh r.next).0

  abbrev pub got_last : Pkt
  got_last = received m.zlib m.endian (m.room r.next) p [] fresh

  decoded_last :
      pkt_decode m.zlib m.endian (m.room r.next) (read_into r.buffer (some bytes)) 512 fresh
      ≡ some (pkt_ok, got_last)
  decoded_last =
      rw
        (overwrite_lem r.buffer bytes
          (omega (arith, step.sized, length-sealed_header m.zlib m.endian p)))
        (pkt_decode-wire m.zlib m.endian (m.room r.next) p fresh 512 last.sendable (omega arith) []
          (drop (length bytes) r.buffer) last.holds)

  abbrev pub ended : Receiver
  ended = record r {
    buffer = read_into r.buffer (some bytes);
    next = r.next + 1;
    data_received = r.data_received + 1;
    last_time_pkt = later r.last_time_pkt got_last.timestamp;
  }

  receive-last : receive m r (some bytes) ≡ some (true, ended)
  unfolding received
  receive-last =
      receive_good m r bytes fresh got_last (memory.fresh r.next).1 decoded_last
        (not_nack got_last.type last.typed)
      ∙ accept_last
          (record r {
            buffer = read_into r.buffer (some bytes);
            next = r.next + 1;
            data_received = r.data_received + 1;
          })
          r.next got_last beyond last.holds.0 last.typed step.empty

  pub round-last : (now : ℕ) → round m r (arrival m memory p [] now) ≡ some (left, ended)
  unfolding round input_half
  round-last now = rw receive-last

  pub loop-last :
      (now : ℕ) (ts : List Round)
      → read_write_loop m r (arrival m memory p [] now ∷ ts) ≡ some (left, ended)
  loop-last now ts = loop-left m memory r ended (arrival m memory p [] now) ts (round-last now)

module _ (m : Machine) (memory : HasMemory m) where
  -- A whole transfer: the packets in order, with payloads of 1 to 496 bytes, then the packet that ends
  -- it. The loop ends there, whatever would follow; the receiver has written exactly the text, and
  -- has acknowledged every packet but the last with the number of the next.
  pub read_write_loop-text :
      (l : List Arrival) (p : Pkt) (now : ℕ) (rest : List Round) (r : Receiver) (n : ℕ)
      (beyond : List Ptr)
      → InStep r n beyond
      → Numbered n l
      → IsLast p
      → (r' : Receiver) × (read_write_loop m r
            (rounds m memory l ++ (arrival m memory p [] now ∷ rest))
          ≡ some (left, r'))
        × (r'.stdout ≡ r.stdout ++ text l)
        × (r'.sent ≡ r.sent ++ answers m n r.last_time_pkt l)
  read_write_loop-text l p now rest r n beyond step due last =
      let t =
        read_write_loop-Transferred m memory l (arrival m memory p [] now ∷ rest) r n beyond step
          due in
      (
        ended m memory t.0 ((n + length l) % 256) beyond t.2.in_step p last,
        t.1 ∙ loop-last m memory t.0 ((n + length l) % 256) beyond t.2.in_step p last now rest,
        t.2.output,
        t.2.acknowledged,
      )
