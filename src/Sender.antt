-- ===== src/Sender.antt =====
-- src/read_write_loop_sender.c: the state of the sender, and the buffer of packets `listPkt` that it
-- fills from the file.
use trtp_network.Prelude.{
  ℕ, zero, suc, ◌+◌, ◌-◌, ◌*◌, ◌%◌, ◌^◌, List, [], ◌∷◌, ◌++◌, Bool, true, false, Option, none, some,
  ltb, leb, ◌==◌, ◌&&◌, ◌||◌, if◌then◌else◌, ◌>>=◌, get_elem?, put, take, drop, length, replicate,
}
use trtp_network.Prelude.Int.{ℤ, pos, negsuc}
use trtp_network.Packet.{Pkt}
use trtp_network.Build.{Machine, put_on_pkt, data_kind}
use trtp_network.Heap.{Ptr, Heap, update, deref, free_pkt, shift_slots}
pub mod Steps
pub mod Buffer
pub mod Filling
pub mod Content
pub mod Pace
pub mod Next
pub mod Burst
pub mod Snoc
pub mod Refill
pub mod Freeing
pub mod Acknowledge
pub mod Output
pub mod Idle
pub mod Turn
pub mod Run
pub mod Asked
pub mod Resend
pub mod Timer
pub mod Behind
pub mod Selective
pub mod Faults
pub mod First
pub mod Prepare

abbrev pub max_buffer_size : ℕ
max_buffer_size = 512

-- `MAX_BUFFER_SIZE - sizeof(pkt_t)`, with pointers of eight bytes
abbrev pub content_size : ℕ
content_size = 488

-- The packets that the buffer is meant to hold; its memory has room for 150 pointers.
abbrev pub buffer_slots : ℕ
buffer_slots = 50

-- The global variables of the sender, its `nack`, its memory, what is left of the file, the number of
-- readings of the clock so far, and the datagrams handed to `write`, the oldest first.
pub record Sender : Type 0 where
  pub slots : List Ptr
  pub heap : Heap
  pub next : ℕ
  pub buffer : List ℕ
  pub file : List ℕ
  pub ticks : ℕ
  pub sent : List (List ℕ)
  pub seqnum : ℕ
  pub last_valid : ℕ
  pub pkt_sent : ℕ
  pub window : ℕ
  pub free_place_on_buffer : ℕ
  pub last_last_pkt : ℕ
  pub last_pkt_sent : ℕ
  pub rtt_delay : ℕ
  pub last_ack : Ptr
  pub base : ℕ
  pub nextseqnum : ℕ
  pub buffer_update : Bool
  pub nack : ℤ
  pub data_sent : ℕ
  pub data_received : ℕ
  pub data_truncated : ℕ
  pub ack_received : ℕ
  pub nack_sent : ℕ
  pub nack_received : ℕ
  pub packet_ignored : ℕ

-- A reading of the clock, cut to the `uint32_t` that the code stores.
abbrev pub clock32 : Machine → Sender → ℕ
clock32 m s = m.clock s.ticks % 2 ^ 32

-- The local arrays that `put_on_pkt` encodes into; what they hold is not read.
abbrev pub scratch : List ℕ
scratch = replicate 512 0

-- One round of the loops that fill the buffer: a packet with the next bytes of the file goes to
-- entry `i`. Only a refill notes when it has met the end of the file.
unfoldable pub insert_packet : Machine → Bool → ℕ → ℕ → Sender → Option Sender
insert_packet m refill win i s = do
  let content = take content_size s.file
  let fr = length content
  r ←
      put_on_pkt m.zlib m.endian (m.room s.next) (m.pkt_new s.next) scratch (some content)
        (pos s.seqnum) (pos win) fr data_kind (clock32 m s)
  slots ← put s.slots i (some s.next)
  let ended = refill && (fr == 0 && s.last_last_pkt == 0)
  some (record s {
    slots = slots;
    heap = update s.heap s.next (some r.0);
    next = s.next + 1;
    file = drop content_size s.file;
    ticks = if ended then s.ticks + 2 else s.ticks + 1;
    seqnum = s.seqnum + 1;
    last_last_pkt = if ended then m.clock (s.ticks + 1) % 2 ^ 32 else s.last_last_pkt;
  })

-- `n` rounds from entry `i` on.
unfoldable pub insert_packets : Machine → Bool → ℕ → ℕ → ℕ → Sender → Option Sender
unfolding insert_packet
insert_packets m refill win zero i s = some s
insert_packets m refill win (suc n) i s = do
  s' ← insert_packet m refill win i s
  insert_packets m refill win n (i + 1) s'

-- `while(listPkt[s]== NULL) s++`
unfoldable pub leading_nulls : List Ptr → Option ℕ
leading_nulls [] = none
leading_nulls (some n ∷ l) = some 0
leading_nulls (none ∷ l) = do i ← leading_nulls l; some (suc i)

-- The loop that prints the entries of the window reads every packet that they point to.
unfoldable pub print_window : ℕ → Heap → List Ptr → Option (Unit {0})
print_window zero h l = some tt
print_window (suc n) h [] = none
print_window (suc n) h (none ∷ l) = print_window n h l
print_window (suc n) h (some a ∷ l) = do _ ← h a; print_window n h l

-- `clear_and_fill_buffer` with `ack` -10: the first filling.
unfoldable pub fill_buffer : Machine → ℕ → Sender → Option Sender
unfolding insert_packets print_window
fill_buffer m win s = do
  s' ← insert_packets m false win buffer_slots 0 s
  _ ← print_window s'.window s'.heap s'.slots
  some s'

-- `for(i = s; i <= 50-s; i++) listPkt[i-s] = listPkt[i]`
abbrev pub shift_rounds : ℕ → ℕ
shift_rounds s = 51 - 2 * s

-- `clear_and_fill_buffer` with an acknowledgement: the leading NULLs are shifted out, and as many
-- packets are inserted. With more than 50 of them the last loop starts at a negative index.
unfoldable pub clear_and_fill_buffer : Machine → ℕ → Sender → Option Sender
unfolding insert_packets print_window
clear_and_fill_buffer m win s = do
  n ← leading_nulls s.slots
  slots ← shift_slots (shift_rounds n) n 0 s.slots
  let s' = record s { slots = slots; buffer_update = if ltb 0 n then true else s.buffer_update }
  s'' ← (if ltb buffer_slots n then none else insert_packets m true win n (buffer_slots - n) s')
  _ ← print_window s''.window s''.heap s''.slots
  some s''
