-- ===== src/Receiver/Reassembly/Idle.antt =====
-- src/read_write_loop.c, `clear_and_fill_buffer_r`: a window whose first entry is free.
use trtp_network.Prelude.{◌+◌, ◌%◌, ◌≡◌, refl, List, [], ◌∷◌, none, some, put}
use trtp_network.Heap.{Ptr, Heap, first_empty_place, shift_slots}
use trtp_network.Receiver.{Receiver, print_slots, clear_and_fill_buffer_r, real_window}
use trtp_network.Receiver.Window.{AllLive}

shift_none :
    (x y z : Ptr) (l : List Ptr)
    → shift_slots 4 0 0 (none ∷ x ∷ y ∷ z ∷ l) ≡ some (none ∷ x ∷ y ∷ z ∷ l)
unfolding shift_slots put
shift_none x y z l = refl

print_three :
    (h : Heap) (x y z : Ptr) (l : List Ptr)
    → AllLive h (x ∷ y ∷ z ∷ [])
    → print_slots 4 h (none ∷ x ∷ y ∷ z ∷ l) ≡ some tt
unfolding print_slots
print_three h none none none l live = refl
print_three h none none (some z) l live = rw live.0.1
print_three h none (some y) none l live = rw live.0.1
print_three h none (some y) (some z) l live = rw (live.0.1, live.1.0.1)
print_three h (some x) none none l live = rw live.0.1
print_three h (some x) none (some z) l live = rw (live.0.1, live.1.0.1)
print_three h (some x) (some y) none l live = rw (live.0.1, live.1.0.1)
print_three h (some x) (some y) (some z) l live = rw (live.0.1, live.1.0.1, live.1.1.0.1)

-- With the first entry free, `clear_and_fill_buffer_r` leaves a window of live packets as it is.
pub clear_and_fill_buffer_r-idle :
    (r : Receiver) (x y z : Ptr) (l : List Ptr)
    → r.slots ≡ none ∷ x ∷ y ∷ z ∷ l
    → AllLive r.heap (x ∷ y ∷ z ∷ [])
    → clear_and_fill_buffer_r r
      ≡ some (record r { base_r = (r.base_r + 0) % real_window; slots = none ∷ x ∷ y ∷ z ∷ l })
unfolding clear_and_fill_buffer_r first_empty_place
clear_and_fill_buffer_r-idle r x y z l at live =
    rw at (rw (shift_none x y z l, print_three r.heap x y z l live))
