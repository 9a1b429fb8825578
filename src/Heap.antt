-- ===== src/Heap.antt =====
-- The packets in memory, and the arrays of pointers to them (`pkt_t **listPkt`) that both programs
-- keep. A pointer is the number of an allocation.
use trtp_network.Prelude.{
  ℕ, zero, suc, ◌+◌, List, [], ◌∷◌, true, false, Option, none, some, ◌==◌, if◌then◌else◌, ◌>>=◌,
  get_elem?, put,
}
use trtp_network.Packet.{Pkt, pkt_del}

-- NULL is `none`.
abbrev pub Ptr : Type 0
Ptr = Option ℕ

-- The live packets; a packet that was freed is no longer there.
abbrev pub Heap : Type 0
Heap = ℕ → Option Pkt

abbrev pub update : Heap → ℕ → Option Pkt → Heap
update h n p m = if n == m then p else h m

-- `*p`
unfoldable pub deref : Heap → Ptr → Option Pkt
deref h none = none
deref h (some n) = h n

-- `pkt_del` of a pointer: the payload is freed, then the packet.
unfoldable pub free_pkt : Heap → Ptr → Option Heap
free_pkt h none = none
free_pkt h (some n) = do p ← h n; _ ← pkt_del p; some (update h n none)

-- The number of entries before the first NULL: `while(listPkt[i]) i++`.
unfoldable pub first_empty_place : List Ptr → Option ℕ
first_empty_place [] = none
first_empty_place (none ∷ l) = some 0
first_empty_place (some n ∷ l) = do i ← first_empty_place l; some (suc i)

-- One round of `listPkt[to] = listPkt[from]`.
abbrev pub copy_slot : List Ptr → ℕ → ℕ → Option (List Ptr)
copy_slot l from to = do p ← get_elem? l from; put l to p

-- `for(i = from; …; i++) listPkt[i-by] = listPkt[i]`, for `n` rounds: the target starts at `to`.
unfoldable pub shift_slots : ℕ → ℕ → ℕ → List Ptr → Option (List Ptr)
shift_slots zero from to l = some l
shift_slots (suc n) from to l = do l' ← copy_slot l from to; shift_slots n (from + 1) (to + 1) l'

-- `find_buffer` and `find_buffer_r`: the first of the next `n` entries that points to a packet with
-- the sequence number; `some none` is the result -1.
unfoldable pub find_from : Heap → ℕ → ℕ → ℕ → List Ptr → Option (Option ℕ)
find_from h seq i zero l = some none
find_from h seq i (suc n) [] = none
find_from h seq i (suc n) (none ∷ l) = find_from h seq (i + 1) n l
find_from h seq i (suc n) (some a ∷ l) = do
  p ← h a
  elim (p.seqnum == seq) [ true ↦ some (some i) | false ↦ find_from h seq (i + 1) n l ]

unfoldable pub find_buffer : Heap → List Ptr → ℕ → ℕ → Option (Option ℕ)
unfolding find_from
find_buffer h l seq win = find_from h seq 0 win l
