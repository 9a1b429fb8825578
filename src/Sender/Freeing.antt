-- ===== src/Sender/Freeing.antt =====
-- src/read_write_loop_sender.c: the packet that an acknowledgement names is freed.
use trtp_network.Prelude.{
  ℕ, ◌+◌, ◌%◌, ◌<◌, ◌≡◌, ap, ◌∙◌, List, ◌∷◌, ◌++◌, none, some, arith, length, get_elem?, put,
}
use trtp_network.Packet.{Pkt, pkt_del}
use trtp_network.Heap.{Ptr, Heap, update, free_pkt, find_buffer}
use trtp_network.Receiver.Window.{Item, pointers, pkt_del_lem}
use trtp_network.Sender.{Sender}
use trtp_network.Sender.Content.{Buffered, find_buffer-at}
use trtp_network.Sender.Steps.{acked, delete_acked}

-- `free_pkt` of a live packet that can be freed.
pub free_live :
    (h : Heap) (a : ℕ) (p : Pkt)
    → h a ≡ some p
    → pkt_del p ≡ some tt
    → free_pkt h (some a) ≡ some (update h a none)
unfolding free_pkt
free_live h a p live freeable = rw (live, freeable)

acked-before : (n : ℕ) → n + 1 < 256 → acked (n + 1) ≡ (n + 0) % 256
acked-before n h = ground arith

pub delete_acked-runs :
    (s : Sender) (seq i a : ℕ) (h : Heap) (slots : List Ptr)
    → find_buffer s.heap s.slots (acked seq) s.window ≡ some (some i)
    → find_buffer s.heap s.slots (acked seq) 50 ≡ some (some i)
    → get_elem? s.slots i ≡ some (some a)
    → free_pkt s.heap (some a) ≡ some h
    → put s.slots i none ≡ some slots
    → delete_acked s seq ≡ some (record s { heap = h; slots = slots })
unfolding delete_acked
delete_acked-runs s seq i a h slots near all at freed written = rw (near, all, at, freed, written)

-- The first packet in flight is deleted, and NULL stands in its place.
pub delete_acked-first :
    (s : Sender) (n a : ℕ) (body : List ℕ) (rest : List Item) (beyond : List Ptr)
    → s.slots ≡ some a ∷ (pointers rest ++ beyond)
    → length rest ≡ 49
    → Buffered s.heap n ((a, body) ∷ rest)
    → 0 < s.window
    → n + 1 < 256
    → delete_acked s (n + 1)
      ≡ some (record s { heap = update s.heap a none; slots = none ∷ (pointers rest ++ beyond) })
unfolding put
delete_acked-first s n a body rest beyond slots_are count held wide small =
    delete_acked-runs s (n + 1) 0 a (update s.heap a none) (none ∷ (pointers rest ++ beyond))
      (found s.window wide) (found 50 (omega arith)) (ap (λ l. get_elem? l 0) slots_are)
      (free_live s.heap a held.0.0 held.0.1 (pkt_del_lem held.0.0 body held.0.2.holds))
      (ap (λ l. put l 0 none) slots_are)
  where
    found : (w : ℕ) → 0 < w → find_buffer s.heap s.slots (acked (n + 1)) w ≡ some (some 0)
    found w l =
        ap (λ q. find_buffer s.heap q (acked (n + 1)) w) slots_are
        ∙ ap (λ k. find_buffer s.heap (some a ∷ (pointers rest ++ beyond)) k w)
            (acked-before n small)
        ∙ find_buffer-at s.heap n 0 w ((a, body) ∷ rest) beyond held (omega arith) (omega arith) l
