-- ===== src/Sender/Steps.antt =====
-- src/read_write_loop_sender.c, `read_write_loop_sender`: what one round of the loop does with an
-- answer of the receiver, and what it sends.
use trtp_network.Prelude.{
  ℕ, zero, suc, ◌+◌, ◌-◌, ◌%◌, ◌^◌, List, [], ◌∷◌, ◌++◌, Bool, true, false, Option, none, some, ltb,
  ◌==◌, ◌&&◌, ◌||◌, not, if◌then◌else◌, ◌>>=◌, get_elem?, put, take,
}
use trtp_network.Prelude.Int.{ℤ, pos, negsuc, eq_ℤ}
use trtp_network.Packet.{Status, pkt_ok, Pkt, ptype_ack, ptype_nack, pkt_set_timestamp, pkt_del}
use trtp_network.Codec.{pkt_decode, pkt_encode}
use trtp_network.Build.{read_into, Machine, put_on_pkt, ack_kind}
use trtp_network.Heap.{Ptr, update, deref, free_pkt, find_buffer}
use trtp_network.Receiver.Steps.{Revents, quiet, ready, other, Next, again, stop, left}
use trtp_network.Sender.{
  Sender, max_buffer_size, buffer_slots, clock32, fill_buffer, clear_and_fill_buffer,
}

-- One round of the loop: what `poll` reports of `pfds[1]` and `pfds[0]`, and what `read` delivers.
pub record Round : Type 0 where
  pub input : Revents
  pub output : Revents
  pub datagram : Option (List ℕ)

-- The packet that acknowledgement `seq` is about.
abbrev pub acked : ℕ → ℕ
acked seq = if seq == 0 then 255 else seq - 1

-- The acknowledged packet is deleted if it is in the window; `find_buffer` finds it a second time
-- among all entries.
unfoldable pub delete_acked : Sender → ℕ → Option Sender
delete_acked s seq = do
  f ← find_buffer s.heap s.slots (acked seq) s.window
  elim f [
    | none ↦ some s
    | some _ ↦ (do
      g ← find_buffer s.heap s.slots (acked seq) buffer_slots
      i ← g
      a ← get_elem? s.slots i
      heap ← free_pkt s.heap a
      slots ← put s.slots i none
      some (record s { heap = heap; slots = slots }))
  ]

-- An acknowledgement, held in the packet `p` at the address `n`.
unfoldable pub handle_ack : Machine → Sender → ℕ → Pkt → Option Sender
unfolding delete_acked clear_and_fill_buffer
handle_ack m s n p = do
  last ← deref s.heap s.last_ack
  let s1 = record s {
    base = if ltb last.seqnum p.seqnum || p.seqnum == 0 then p.seqnum else s.base;
    rtt_delay = clock32 m s;
    ticks = s.ticks + 1;
    ack_received = s.ack_received + 1;
  }
  s2 ← delete_acked s1 p.seqnum
  s3 ← clear_and_fill_buffer m p.window s2
  let window = if ltb s3.window p.window then p.window else s3.window
  heap ← free_pkt s3.heap s3.last_ack
  some (record s3 {
    window = window;
    last_valid = p.seqnum;
    pkt_sent = 0;
    free_place_on_buffer = window;
    heap = update heap n (some p);
    last_ack = some n;
  })

-- A negative acknowledgement: outside the window it sets the value 256, for which nothing is sent.
unfoldable pub handle_nack : Sender → Pkt → Option Sender
handle_nack s p = do
  _ ← pkt_del p
  some (
      if ltb p.seqnum s.last_valid || ltb (s.last_valid + s.window) p.seqnum
      then record s { nack = pos 256 }
      else record s { nack = pos p.seqnum; nack_received = s.nack_received + 1 })

abbrev is_ok : Status → Bool
is_ok pkt_ok = true
is_ok _ = false

-- The branch on POLLIN after a successful `read`.
unfoldable pub receive : Machine → Sender → List ℕ → Option Sender
unfolding handle_ack handle_nack
receive m s bytes = do
  let buffer = read_into s.buffer (some bytes)
  fresh ← m.pkt_new s.next
  d ← pkt_decode m.zlib m.endian (m.room s.next) buffer max_buffer_size fresh
  let s' = record s { buffer = buffer; next = s.next + 1 }
  if not (is_ok d.0)
      then (do
        _ ← pkt_del d.1
        some (record s' {
          data_truncated = s'.data_truncated + 1;
          packet_ignored = s'.packet_ignored + 1;
        }))
      else if d.1.type == ptype_nack
      then handle_nack s' d.1
      else if d.1.type == ptype_ack
      then handle_ack m s' s.next d.1
      else (do
        _ ← pkt_del d.1
        some (record s' {
          data_received = s'.data_received + 1;
          packet_ignored = s'.packet_ignored + 1;
        }))

-- `pkt_encode` of the packet at `a` into the buffer, and `write` of the result.
unfoldable pub transmit : Machine → Sender → Ptr → Option Sender
transmit m s a = do
  p ← deref s.heap a
  r ← pkt_encode m.zlib m.endian p s.buffer
  some (record s { buffer = r.1; sent = s.sent ++ (take r.2 r.1 ∷ []) })

-- The pointer `listPkt[find_buffer(listPkt, seq, 50)]`; index -1 is a fault.
unfoldable pub buffered : Sender → ℕ → Option Ptr
buffered s seq = do f ← find_buffer s.heap s.slots seq buffer_slots; i ← f; get_elem? s.slots i

abbrev nat_of : ℤ → ℕ
nat_of (pos n) = n
nat_of (negsuc n) = 0

-- The packet that the receiver asked for.
unfoldable pub resend_nack : Machine → Sender → Option Sender
unfolding transmit buffered
resend_nack m s = if eq_ℤ s.nack (negsuc 0) || eq_ℤ s.nack (pos 256) then some s else (do
  a ← buffered s (nat_of s.nack)
  s' ← transmit m s a
  some (record s' { nack_sent = s'.nack_sent + 1; data_sent = s'.data_sent + 1; nack = negsuc 0 }))

-- `pkt_set_timestamp(*a, clock())`
unfoldable pub stamp : Machine → Sender → Ptr → Option Sender
stamp m s none = none
stamp m s (some n) = do
  p ← s.heap n
  some (record s {
    heap = update s.heap n (some (pkt_set_timestamp p (clock32 m s)).1);
    ticks = s.ticks + 1;
  })

-- One round of the loop that sends the window.
unfoldable pub send_next : Machine → Sender → Option Sender
unfolding transmit buffered stamp
send_next m s = do
  a ← buffered s (s.nextseqnum % 256)
  s1 ← transmit m s a
  s2 ← stamp m s1 a
  some (record s2 {
    data_sent = s2.data_sent + 1;
    last_pkt_sent = clock32 m s2;
    ticks = s2.ticks + 1;
    buffer_update = false;
    nextseqnum = s2.nextseqnum + 1;
  })

-- The test of that loop: `last` is the sequence number of the last acknowledgement.
abbrev pub may_send : Sender → ℕ → Bool
may_send s last = ltb s.nextseqnum (s.base + s.window) && (not (s.nextseqnum == 0) || last == 0)

-- The loop, for as many rounds as the window has room; each round takes up one place of it.
unfoldable pub send_window : Machine → ℕ → ℕ → Sender → Option Sender
unfolding send_next
send_window m last zero s = some s
send_window m last (suc n) s = elim (may_send s last) [
  | true ↦ (do s' ← send_next m s; send_window m last n s')
  | false ↦ some s
]

unfoldable pub send_update : Machine → Sender → Option Sender
unfolding send_window
send_update m s =
    if s.buffer_update
    then (do
      last ← deref s.heap s.last_ack
      s' ← send_window m last.seqnum (s.base + s.window - s.nextseqnum) s
      some (record s' { nextseqnum = s'.nextseqnum % 256 }))
    else some s

-- The retransmission of the first packet; the sum with the timeout is one of `uint32_t`.
unfoldable pub resend_first : Machine → Sender → Option Sender
unfolding transmit stamp
resend_first m s = do
  a ← get_elem? s.slots 0
  elim a [
    | none ↦ some s
    | some n ↦ (do
      p ← s.heap n
      let s' = record s { ticks = s.ticks + 1 }
      if ltb ((p.timestamp + 500000) % 2 ^ 32) (m.clock s.ticks)
          then (do s1 ← stamp m s' (some n); transmit m s1 (some n))
          else some s')
  ]

-- The branch on POLLOUT.
unfoldable pub output_half : Machine → Sender → Revents → Option Sender
unfolding resend_nack send_update resend_first
output_half m s events = elim events [
  | ready ↦ (do s1 ← resend_nack m s; s2 ← send_update m s1; resend_first m s2)
  | _ ↦ some s
]

unfoldable pub round : Machine → Sender → Round → Option (Next × Sender)
unfolding receive output_half
round m s t = elim t.input [
  | quiet ↦ (do s' ← output_half m s t.output; some (again, s'))
  | other ↦ (do s' ← output_half m s t.output; some (stop, s'))
  | ready ↦ elim t.datagram [
    | none ↦ some (left, s)
    | some bytes ↦ (do s1 ← receive m s bytes; s2 ← output_half m s1 t.output; some (again, s2))
  ]
]

-- The loop over the rounds that `poll` reports.
unfoldable pub run_rounds : Machine → Sender → List Round → Option (Next × Sender)
unfolding round
run_rounds m s [] = some (again, s)
run_rounds m s (t ∷ ts) = do i ← round m s t; elim i.0 [ again ↦ run_rounds m i.1 ts | _ ↦ some i ]

-- `read_write_loop_sender` up to the loop: the first acknowledgement, and the first filling.
unfoldable pub prepare : Machine → Sender → Option Sender
unfolding fill_buffer
prepare m s = do
  r ←
      put_on_pkt m.zlib m.endian (m.room s.next) (m.pkt_new s.next) s.buffer none (pos 0) (pos 1) 0
        ack_kind (clock32 m s)
  let s1 = record s {
    buffer = r.1;
    heap = update s.heap s.next (some r.0);
    last_ack = some s.next;
    next = s.next + 1;
    rtt_delay = m.clock (s.ticks + 1) % 2 ^ 32;
    ticks = s.ticks + 2;
  }
  s2 ← fill_buffer m s1.window s1
  some (record s2 { buffer_update = true })

unfoldable pub read_write_loop_sender : Machine → Sender → List Round → Option (Next × Sender)
unfolding prepare run_rounds
read_write_loop_sender m s ts = do s' ← prepare m s; run_rounds m s' ts

-- The sender as its global variables start it. `slots` is the memory of `listPkt` and `buffer` that
-- of `buffer`, which the code does not initialise; `file` is the whole input.
unfoldable pub start : List Ptr → List ℕ → List ℕ → Sender
start slots buffer file = record {
  slots = slots;
  heap = λ n. none;
  next = 0;
  buffer = buffer;
  file = file;
  ticks = 0;
  sent = [];
  seqnum = 0;
  last_valid = 0;
  pkt_sent = 0;
  window = 1;
  free_place_on_buffer = 1;
  last_last_pkt = 0;
  last_pkt_sent = 0;
  rtt_delay = 0;
  last_ack = none;
  base = 0;
  nextseqnum = 0;
  buffer_update = false;
  nack = negsuc 0;
  data_sent = 0;
  data_received = 0;
  data_truncated = 0;
  ack_received = 0;
  nack_sent = 0;
  nack_received = 0;
  packet_ignored = 0;
}

-- The counters as the end of the loop prints them, in order; `min_rtt`, `max_rtt` and the count of
-- retransmissions keep their first values.
unfoldable pub stats : Sender → List ℕ
stats s =
    s.data_sent ∷ s.data_received ∷ s.data_truncated ∷ 0 ∷ 0 ∷ 0 ∷ s.ack_received ∷ s.nack_sent
    ∷ s.nack_received ∷ s.packet_ignored ∷ 9999999 ∷ 0 ∷ 0 ∷ []
