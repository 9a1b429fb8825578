-- ===== src/Sender/Output.antt =====
-- src/read_write_loop_sender.c: the branch on POLLOUT in a transfer in order.
use trtp_network.Prelude.{
  ℕ, ◌+◌, ◌-◌, ◌%◌, ◌^◌, ◌≤◌, ◌<◌, ◌≡◌, ap, ◌∙◌, List, [], ◌∷◌, ◌++◌, true, false, some, arith,
  length, if◌then◌else◌, ◌>>=◌, get_elem?, ltb, le→ltb_false,
}
use trtp_network.Prelude.Int.{negsuc}
use trtp_network.Packet.{Pkt}
use trtp_network.Build.{Machine}
use trtp_network.Heap.{Ptr, deref}
use trtp_network.Receiver.Steps.{quiet, again, ready}
use trtp_network.Receiver.Window.{Item}
use trtp_network.Sender.{Sender}
use trtp_network.Sender.Acknowledge.{deref_live}
use trtp_network.Sender.Next.{IsSwift}
use trtp_network.Sender.Burst.{Flight, datagrams, send_window-SentAll}
use trtp_network.Sender.Content.{Apart, Below-up}
use trtp_network.Sender.Pace.{InPace}
use trtp_network.Sender.Steps.{
  round, output_half, resend_nack, send_update, send_window, resend_first,
}

-- What the sender keeps of its state where only the buffer, the allocations and the clock move.
pub InPace-with :
    {s : Sender} {n f w : ℕ} {whole : List ℕ} {items : List Item} {beyond : List Ptr}
    (buffer : List ℕ) (next nextseqnum ticks : ℕ)
    → length buffer ≡ 512
    → s.next ≤ next
    → nextseqnum ≡ n + f
    → InPace s n f w whole items beyond
    → InPace
        (record s { buffer = buffer; next = next; nextseqnum = nextseqnum; ticks = ticks })
        n
        f
        w
        whole
        items
        beyond
InPace-with {s} {items} buffer next nextseqnum ticks sized later seq pace = record {
  slots_are = pace.slots_are;
  fifty = pace.fifty;
  buffered = pace.buffered;
  distinct = pace.distinct;
  below = Below-up s.next next items later pace.below;
  acked = record {
    address = pace.acked.address;
    packet = pace.acked.packet;
    kept = pace.acked.kept;
    live = pace.acked.live;
    numbered = pace.acked.numbered;
    freeable = pace.acked.freeable;
    old = omega (arith, pace.acked.old);
    apart = pace.acked.apart;
  };
  base_is = pace.base_is;
  next_is = seq;
  window_is = pace.window_is;
  quiet_nack = pace.quiet_nack;
  count_is = pace.count_is;
  sized = sized;
  in_buffer = pace.in_buffer;
  in_file = pace.in_file;
}

-- What the output half of a round sends.
pub record Turn (m : Machine) (s s' : Sender) (n f k w : ℕ) (whole : List ℕ) (beyond : List Ptr)
    : Type 0 where
  pub items : List Item
  pub packets : List (Pkt × List ℕ)
  pub count : length packets ≡ k
  pub flight : Flight (n + f) whole packets
  pub sent : s'.sent ≡ s.sent ++ datagrams m packets
  pub pace : InPace s' n (f + k) w whole items beyond

pub resend_nack-quiet : (m : Machine) (s : Sender) → s.nack ≡ negsuc 0 → resend_nack m s ≡ some s
unfolding resend_nack
resend_nack-quiet m s h = rw h

pub send_update-idle :
    (m : Machine) (s : Sender) → s.buffer_update ≡ false → send_update m s ≡ some s
unfolding send_update
send_update-idle m s idle = rw idle

send_update-runs :
    (m : Machine) (s s' : Sender) (last : Pkt) (k : ℕ)
    → s.buffer_update ≡ true
    → deref s.heap s.last_ack ≡ some last
    → s.base + s.window - s.nextseqnum ≡ k
    → send_window m last.seqnum k s ≡ some s'
    → send_update m s ≡ some (record s' { nextseqnum = s'.nextseqnum % 256 })
unfolding send_update
send_update-runs m s s' last k updated known room sends =
    ap
      (λ b.
        if b
        then (do
          last ← deref s.heap s.last_ack
          s' ← send_window m last.seqnum (s.base + s.window - s.nextseqnum) s
          some (record s' { nextseqnum = s'.nextseqnum % 256 }))
        else some s)
      updated
    ∙ rw (known, room, sends)

-- No packet is due for a retransmission.
pub resend_first-early :
    (m : Machine) (s : Sender) (a : ℕ) (p : Pkt)
    → get_elem? s.slots 0 ≡ some (some a)
    → s.heap a ≡ some p
    → p.timestamp < 500000
    → m.clock s.ticks < 500000
    → resend_first m s ≡ some (record s { ticks = s.ticks + 1 })
unfolding resend_first
resend_first-early m s a p at live early now = rw (at, live, not_due)
  where
    not_due : ltb ((p.timestamp + 500000) % 2 ^ 32) (m.clock s.ticks) ≡ false
    not_due = le→ltb_false ((p.timestamp + 500000) % 2 ^ 32) (m.clock s.ticks) (omega arith)

pub output_half-runs :
    (m : Machine) (s s1 s2 s3 : Sender)
    → resend_nack m s ≡ some s1
    → send_update m s1 ≡ some s2
    → resend_first m s2 ≡ some s3
    → output_half m s ready ≡ some s3
unfolding output_half
output_half-runs m s s1 s2 s3 h k l = rw (h, k, l)

-- The first packet of the buffer.
pub first_live :
    (s : Sender) (n f w : ℕ) (whole : List ℕ) (items : List Item) (beyond : List Ptr)
    → InPace s n f w whole items beyond
    → (a : ℕ) × (p : Pkt) × (get_elem? s.slots 0 ≡ some (some a))
      × (s.heap a ≡ some p)
      × (p.timestamp < 500000)
first_live s n f w whole [] beyond pace = absurd (omega (arith, pace.fifty))
first_live s n f w whole ((a, body) ∷ items) beyond pace = (
  a,
  pace.buffered.0.0,
  ap (λ l. get_elem? l 0) pace.slots_are,
  pace.buffered.0.1,
  pace.buffered.0.2.early,
)

-- A round that finds nothing to read.
pub round-quiet :
    (m : Machine) (s s' : Sender)
    → output_half m s ready ≡ some s'
    → round m s (record { input = quiet; output = ready; datagram = some [] }) ≡ some (again, s')
unfolding round
round-quiet m s s' h = rw h

module _ (m : Machine) (swift : IsSwift m) where
  -- The branch sends what the window has room for, and leaves the heap as it is but for the packets of
  -- the buffer.
  pub output_half-Turn_kept :
      (s : Sender) (n f k : ℕ) (whole : List ℕ) (items : List Item) (beyond : List Ptr)
      → InPace s n f (f + k) whole items beyond
      → s.buffer_update ≡ true
      → f + k ≤ 50
      → n + f + k < 256
      → (s' : Sender) × (output_half m s ready ≡ some s')
        × Turn m s s' n f k (f + k) whole beyond
        × ((a : ℕ) → Apart a items → s'.heap a ≡ s.heap a)
  output_half-Turn_kept s n f k whole items beyond pace updated few byte =
      let sends = send_window-SentAll m swift k s n f whole items beyond pace few in
      let all = sends.2 in
      let s1 = sends.0 in
      let s2 : Sender = record s1 { nextseqnum = s1.nextseqnum % 256 } in
      let head = first_live s1 n (f + k) (f + k) whole items beyond all.pace in
      (
        record s2 { ticks = s2.ticks + 1 },
        output_half-runs m s s s2 (record s2 { ticks = s2.ticks + 1 })
            (resend_nack-quiet m s pace.quiet_nack)
            (send_update-runs m s s1 pace.acked.packet k updated
              (deref_live s.heap s.last_ack pace.acked.address pace.acked.packet pace.acked.kept
                pace.acked.live)
              (omega (arith, pace.base_is, pace.window_is, pace.next_is))
              (ap (λ j. send_window m j k s) pace.acked.numbered ∙ sends.1))
            (resend_first-early m s2 head.0 head.1 head.2 head.3 head.4 (swift.below s2.ticks)),
        record {
          items = items;
          packets = all.packets;
          count = all.count;
          flight = all.flight;
          sent = all.sent;
          pace =
              InPace-with s1.buffer s1.next (s1.nextseqnum % 256) (s1.ticks + 1) all.pace.sized
                (omega arith) (omega (arith, all.pace.next_is, byte)) all.pace;
        },
        all.kept,
      )

  pub output_half-Turn :
      (s : Sender) (n f k : ℕ) (whole : List ℕ) (items : List Item) (beyond : List Ptr)
      → InPace s n f (f + k) whole items beyond
      → s.buffer_update ≡ true
      → f + k ≤ 50
      → n + f + k < 256
      → (s' : Sender) × (output_half m s ready ≡ some s') × Turn m s s' n f k (f + k) whole beyond
  output_half-Turn s n f k whole items beyond pace updated few byte =
      let (s', ran, turn, kept) =
        output_half-Turn_kept s n f k whole items beyond pace updated few byte in
      (s', ran, turn)
