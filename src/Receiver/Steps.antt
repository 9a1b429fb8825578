-- ===== src/Receiver/Steps.antt =====
-- src/read_write_loop.c, `read_write_loop`: what one round of the loop does with a datagram, and
-- what it sends back.
use trtp_network.Prelude.{
  ℕ, ◌+◌, ◌%◌, ◌^◌, List, [], ◌∷◌, ◌++◌, Bool, true, false, Option, none, some, ltb, ◌==◌, ◌&&◌,
  ◌||◌, not, if◌then◌else◌, ◌>>=◌, get_elem?, put, take,
}
use trtp_network.Prelude.Int.{ℤ, pos, negsuc, ◌+ℤ◌, sub_ℕ, rem, eq_ℤ}
use trtp_network.Packet.{Status, pkt_ok, Pkt, ptype_data, ptype_nack, pkt_set_length, pkt_del}
use trtp_network.Codec.{pkt_decode}
use trtp_network.Build.{read_into, Machine, put_on_pkt, ack_kind, nack_kind, Kind}
use trtp_network.Heap.{Ptr, Heap, update, free_pkt}
use trtp_network.Receiver.{
  Receiver, max_buffer_size, real_window, fwrite_bytes, clear_and_fill_buffer_r,
}

-- The `revents` of one descriptor: zero, with the event that was asked for, or with others only.
pub data Revents : Type 0 where
  quiet ready other : Revents

-- One round of the loop: what `poll` reports of `fds[0]` and `fds[1]`, what `read` delivers (`none`
-- is -1), and the reading of `clock ()`.
pub record Round : Type 0 where
  pub input : Revents
  pub output : Revents
  pub datagram : Option (List ℕ)
  pub now : ℕ

-- `listPkt[i] == NULL`
abbrev pub is_null_at : List Ptr → ℕ → Option Bool
is_null_at l i = do a ← get_elem? l i; some (elim a [ none ↦ true | some n ↦ false ])

-- A packet that could not be decoded, or a NACK. The last receiver is the state afterwards.
unfoldable pub drop_packet : Receiver → Pkt → Option Receiver
drop_packet r p = do
  lost ←
      (if ltb p.seqnum (0 + real_window) && ltb 0 p.seqnum
        then is_null_at r.slots p.seqnum
        else some false)
  _ ← pkt_del (pkt_set_length p 0).1
  some (record r {
    data_truncated = if p.tr == 1 then r.data_truncated + 1 else r.data_truncated;
    nack = if lost then pos p.seqnum else r.nack;
    packet_ignored = r.packet_ignored + 1;
  })

-- The loop at the end of the transfer: the packets in the window are written and deleted, and
-- their entries stay. `l` are the entries from the current one on.
unfoldable pub flush : Heap → List Ptr → List ℕ → Option (Heap × List ℕ)
flush h [] out = none
flush h (none ∷ l) out = some (h, out)
flush h (some a ∷ l) out = do
  p ← h a
  if ltb 0 p.length_field
      then (do bytes ← fwrite_bytes p; h' ← free_pkt h (some a); flush h' l (out ++ bytes))
      else some (h, out)

-- An index of `listPkt` as C computes it: a negative one is a fault.
abbrev pub index : ℤ → Option ℕ
index (pos n) = some n
index (negsuc n) = none

-- A packet for the window: it goes to entry `(seqnum - base_r) % realWindow`, if that is free.
-- `n` is the address of the packet `p`.
unfoldable pub place : Receiver → ℕ → Pkt → Option Receiver
place r n p = do
  let r' = record r { base_r = if p.seqnum == 0 then 0 else r.base_r }
  i ← index (rem (sub_ℕ p.seqnum r'.base_r) real_window)
  a ← get_elem? r'.slots i
  elim a [
    | none ↦ (do
      slots ← put r'.slots i (some n)
      some (record r' {
        slots = slots;
        heap = update r'.heap n (some p);
        free_place = r'.free_place +ℤ negsuc 0;
        partial_ack = pos ((p.seqnum + 1) % 256);
      }))
    | some b ↦ (do
      _ ← (if p.length_field == 0 then pkt_del p else some tt)
      some (record r' {
        packet_ignored = r'.packet_ignored + 1;
        packet_duplicated = r'.packet_duplicated + 1;
      }))
  ]

-- A packet that was decoded. `true` is the end of the transfer, which leaves the loop at once.
unfoldable pub accept_packet : Receiver → ℕ → Pkt → Option (Bool × Receiver)
unfolding flush place
accept_packet r n p =
    let r' = record r {
      last_time_pkt = if ltb r.last_time_pkt p.timestamp then p.timestamp else r.last_time_pkt;
    } in
    if p.length_field == 0 && p.type == ptype_data
    then (do
      f ← flush r'.heap r'.slots r'.stdout
      _ ← pkt_del p
      some (true, record r' { heap = f.0; stdout = f.1 }))
    else (do r'' ← place r' n p; some (false, r''))

abbrev pub is_ok : Status → Bool
is_ok pkt_ok = true
is_ok _ = false

-- The branch on POLLIN.
unfoldable pub receive : Machine → Receiver → Option (List ℕ) → Option (Bool × Receiver)
unfolding drop_packet accept_packet
receive m r datagram = do
  let buffer = read_into r.buffer datagram
  fresh ← m.pkt_new r.next
  d ← pkt_decode m.zlib m.endian (m.room r.next) buffer max_buffer_size fresh
  let r' = record r { buffer = buffer; next = r.next + 1; data_received = r.data_received + 1 }
  if not (is_ok d.0) || d.1.type == ptype_nack
      then (do r'' ← drop_packet r' d.1; some (false, r''))
      else accept_packet r' r.next d.1

-- `put_on_pkt`, `write` and `pkt_del` of an acknowledgement.
unfoldable pub send_control : Machine → Receiver → ℤ → Kind → Option Receiver
send_control m r seqnum kind = do
  s ←
      put_on_pkt m.zlib m.endian (m.room r.next) (m.pkt_new r.next) r.buffer none seqnum
        r.free_place 0 kind r.last_time_pkt
  _ ← pkt_del s.0
  some (record r { buffer = s.1; next = r.next + 1; sent = r.sent ++ (take s.2 s.1 ∷ []) })

-- The two parts of the branch on POLLOUT.
unfoldable pub answer_nack : Machine → Receiver → Option Receiver
unfolding send_control
answer_nack m r = if eq_ℤ r.nack (negsuc 0) then some r else (do
  r' ← send_control m r r.nack nack_kind
  some (record r' { nack_sent = r'.nack_sent + 1; data_sent = r'.data_sent + 1; nack = negsuc 0 }))

unfoldable pub answer_ack : Machine → Receiver → ℕ → Option Receiver
unfolding send_control clear_and_fill_buffer_r
answer_ack m r now =
    if eq_ℤ r.partial_ack (negsuc 0) || not (eq_ℤ r.nack (negsuc 0)) then some r else (do
      r1 ← clear_and_fill_buffer_r r
      r2 ← send_control m r1 r1.partial_ack ack_kind
      some (record r2 {
        ack_sent = r2.ack_sent + 1;
        data_sent = r2.data_sent + 1;
        base_r = if eq_ℤ r2.partial_ack (pos 0) then 0 else r2.base_r;
        partial_ack = negsuc 0;
        last_timestamp = now % 2 ^ 32;
      }))

-- How a round ends: the loop goes on, its test stops it, or `break` leaves it.
pub data Next : Type 0 where
  again stop left : Next

-- The input half and the output half of a round.
unfoldable pub input_half : Machine → Receiver → Round → Option (Next × Receiver)
unfolding receive
input_half m r t = elim t.input [
  | quiet ↦ some (again, r)
  | other ↦ some (stop, r)
  | ready ↦ (do d ← receive m r t.datagram; some (if d.0 then left else again, d.1))
]

unfoldable pub output_half : Machine → Receiver → Round → Next → Option (Next × Receiver)
unfolding answer_nack answer_ack
output_half m r t next = elim t.output [
  | quiet ↦ some (next, r)
  | other ↦ some (stop, r)
  | ready ↦ (do r1 ← answer_nack m r; r2 ← answer_ack m r1 t.now; some (next, r2))
]

unfoldable pub round : Machine → Receiver → Round → Option (Next × Receiver)
unfolding input_half output_half
round m r t = do i ← input_half m r t; elim i.0 [ left ↦ some i | _ ↦ output_half m i.1 t i.0 ]

-- `read_write_loop` over the rounds that `poll` reports, until the transfer ends or no round is left.
unfoldable pub read_write_loop : Machine → Receiver → List Round → Option (Next × Receiver)
unfolding round
read_write_loop m r [] = some (again, r)
read_write_loop m r (t ∷ ts) = do
  i ← round m r t
  elim i.0 [ again ↦ read_write_loop m i.1 ts | _ ↦ some i ]

-- The receiver as `read_write_loop` starts it: `slots` and `buffer` are what the memory of `listPkt`
-- and of `buffer` holds, which the code does not initialise.
unfoldable pub start : List Ptr → Heap → ℕ → List ℕ → Receiver
start slots heap next buffer = record {
  slots = slots;
  heap = heap;
  next = next;
  buffer = buffer;
  base_r = 0;
  free_place = pos 4;
  nack = negsuc 0;
  partial_ack = negsuc 0;
  last_time_pkt = 0;
  last_timestamp = 0;
  data_sent = 0;
  data_received = 0;
  data_truncated = 0;
  ack_sent = 0;
  nack_sent = 0;
  packet_ignored = 0;
  packet_duplicated = 0;
  stdout = [];
  sent = [];
}

-- The counters as the end of the loop prints them, in order.
unfoldable pub stats : Receiver → List ℕ
stats r =
    r.data_sent ∷ r.data_received ∷ r.data_truncated ∷ 0 ∷ 0 ∷ r.ack_sent ∷ 0 ∷ r.nack_sent ∷ 0
    ∷ r.packet_ignored ∷ r.packet_duplicated ∷ 0 ∷ []
