-- ===== src/Receiver.antt =====
-- src/read_write_loop.c: the state of the receiver and its reception window, `listPkt`.
use trtp_network.Prelude.{
  ℕ, zero, suc, ◌+◌, ◌-◌, ◌%◌, List, [], ◌∷◌, ◌++◌, Bool, Option, none, some, ltb, ◌==◌,
  if◌then◌else◌, ◌>>=◌, get_elem?, put,
}
use trtp_network.Prelude.Int.{ℤ, pos, ◌+ℤ◌}
use trtp_network.Packet.{Pkt}
use trtp_network.Codec.{payload_bytes}
use trtp_network.Heap.{Ptr, Heap, deref, free_pkt, first_empty_place, shift_slots}
pub mod Steps
pub mod Window
pub mod InOrder
pub mod Reassembly
pub mod Transfer
pub mod Faults
pub mod Duplicates
pub mod Wrap
pub mod Ahead
pub mod Counters

abbrev pub max_buffer_size : ℕ
max_buffer_size = 512

abbrev pub real_window : ℕ
real_window = 4

-- The global variables of the receiver, its memory, and what it has put out: `stdout`, and the
-- datagrams that it has sent, the oldest first. `full_ack` is -1 and `lastFullAck` is 0 for the
-- whole run, and the counters for FEC, received acknowledgements and recovered packets stay 0.
pub record Receiver : Type 0 where
  pub slots : List Ptr
  pub heap : Heap
  pub next : ℕ
  pub buffer : List ℕ
  pub base_r : ℕ
  pub free_place : ℤ
  pub nack : ℤ
  pub partial_ack : ℤ
  pub last_time_pkt : ℕ
  pub last_timestamp : ℕ
  pub data_sent : ℕ
  pub data_received : ℕ
  pub data_truncated : ℕ
  pub ack_sent : ℕ
  pub nack_sent : ℕ
  pub packet_ignored : ℕ
  pub packet_duplicated : ℕ
  pub stdout : List ℕ
  pub sent : List (List ℕ)

-- What `fwrite` of a packet's payload reads.
abbrev pub fwrite_bytes : Pkt → Option (List ℕ)
fwrite_bytes p = if ltb 0 p.length_field then payload_bytes p.payload p.length_field else some []

-- One round of the loop that delivers and frees: the packet in entry `i` is written out and deleted.
unfoldable pub deliver_one : Receiver → ℕ → Option Receiver
deliver_one r i = do
  a ← get_elem? r.slots i
  p ← deref r.heap a
  bytes ← fwrite_bytes p
  heap ← free_pkt r.heap a
  slots ← put r.slots i none
  some (record r {
    slots = slots;
    heap = heap;
    free_place = r.free_place +ℤ pos 1;
    stdout = r.stdout ++ bytes;
  })

-- `n` rounds from entry `i` on.
unfoldable pub deliver : ℕ → ℕ → Receiver → Option Receiver
unfolding deliver_one
deliver zero i r = some r
deliver (suc n) i r = do r' ← deliver_one r i; deliver n (i + 1) r'

-- The loop that prints the first four entries reads every packet that they point to.
unfoldable pub print_slots : ℕ → Heap → List Ptr → Option (Unit {0})
print_slots zero h l = some tt
print_slots (suc n) h [] = none
print_slots (suc n) h (none ∷ l) = print_slots n h l
print_slots (suc n) h (some a ∷ l) = do _ ← h a; print_slots n h l

-- `clear_and_fill_buffer_r`
unfoldable pub clear_and_fill_buffer_r : Receiver → Option Receiver
unfolding deliver print_slots
clear_and_fill_buffer_r r = do
  s ← first_empty_place r.slots
  r' ← deliver s 0 (record r { base_r = (r.base_r + s) % real_window })
  slots ← shift_slots (real_window - s) s 0 r'.slots
  _ ← print_slots real_window r'.heap slots
  some (record r' { slots = slots })
