-- ===== src/Receiver/Reassembly/Complete.antt =====
-- src/read_write_loop.c, `read_write_loop`: the packet that is due, with others behind it that came
-- early.
use trtp_network.Prelude.{
  Option, ℕ, ◌+◌, ◌%◌, ◌≤◌, ◌<◌, ◌≡◌, refl, ap, ◌∙◌, List, ◌∷◌, ◌++◌, none, some, arith, length,
  put, get_elem?, replicate,
}
use trtp_network.Prelude.Int.{pos, negsuc, ◌+ℤ◌}
use trtp_network.Packet.{Pkt}
use trtp_network.Codec.Encode.{HasPayload}
use trtp_network.Codec.RoundTrip.{IsSendable}
use trtp_network.Build.{Machine}
use trtp_network.Heap.{Ptr, Heap}
use trtp_network.Receiver.{Receiver, clear_and_fill_buffer_r}
use trtp_network.Receiver.Steps.{round, again}
use trtp_network.Receiver.Window.{
  Item, Held, gap, behind, bodies, pointers, freed, delivered, clear_and_fill_buffer_r-slides,
}
use trtp_network.Receiver.InOrder.{HasMemory, arrival}
use trtp_network.Receiver.Reassembly.Store.{Holds, At, ptr, room}
use trtp_network.Receiver.Reassembly.Placed.{Cleared, with_window, stored, stored_base, round-Holds}
use trtp_network.Receiver.Reassembly.Early.{heap_with}

some_left : (v w l u : ℕ) → v ≡ w + 1 → w + l ≡ u → pos v +ℤ negsuc 0 +ℤ pos l ≡ pos u
unfolding ◌+ℤ◌
some_left v w l u h e = ground arith

module _ (m : Machine) (memory : HasMemory m) (r : Receiver) (n : ℕ) (x y z : Option Item)
    (beyond : List Ptr) (holds : Holds r n x y z beyond) (p : Pkt) (body : List ℕ) (now : ℕ)
    (ok : IsSendable p) (typed : p.type ≡ 1) (has : HasPayload p body) (full : 0 < length body)
    (fits : length body ≤ 496) (seq : p.seqnum ≡ n + 0) (early : p.seqnum < 255) where
  abbrev pub heap_now : Heap
  heap_now =
      heap_with m memory r n x y z beyond holds p body now 0 ok typed has full fits seq
        (omega arith) early

  -- The packet and those behind it, up to the first gap, are written and freed; the window slides.
  pub round_complete :
      (items : List Item) (u v : Ptr) (x' : Option Item)
      → length items ≤ 4
      → some r.next ∷ ptr x ∷ ptr y ∷ ptr z ∷ none ∷ beyond
        ≡ pointers items ++ behind (length items) u v beyond
      → (gap (length items) u v ++ replicate (length items) none) ++ (none ∷ beyond)
        ≡ none ∷ ptr x' ∷ none ∷ none ∷ none ∷ beyond
      → room x + room y + room z + length items ≡ 3 + room x'
      → Held heap_now items (gap (length items) u v)
      → At (freed heap_now items) (r.next + 1) (n + length items + 1) x'
      → (r' : Receiver) × (round m r (arrival m memory p body now) ≡ some (again, r'))
        × Holds r' (n + length items) x' none none beyond
        × (r'.stdout ≡ r.stdout ++ bodies items)
  unfolding put
  round_complete items u v x' few shape slid counted held ax =
      round-Holds m memory r n x y z beyond holds p body now 0 ok typed has full fits seq
        (omega arith) early slots c (n + length items) x' none none
        (ap (λ l. get_elem? l 0) holds.slots) (ap (λ l. put l 0 (some r.next)) holds.slots) clears
        (record {
          entries = slid;
          based = omega (arith, s_base);
          room_left = refl;
          first = ax;
          second = tt;
          third = tt;
        })
    where
      slots : List Ptr
      slots = some r.next ∷ ptr x ∷ ptr y ∷ ptr z ∷ none ∷ beyond

      s : Receiver
      s =
          stored m memory r n x y z beyond holds p body now 0 ok typed has full fits seq
            (omega arith) early slots

      s_base : s.base_r ≡ n % 4
      s_base =
          stored_base m memory r n x y z beyond holds p body now 0 ok typed has full fits seq
            (omega arith) early slots

      c : Cleared
      c = record {
        slots = (gap (length items) u v ++ replicate (length items) none) ++ (none ∷ beyond);
        heap = freed heap_now items;
        base = (s.base_r + length items) % 4;
        places = 1 + room x' + 1 + 1;
        output = r.stdout ++ bodies items;
      }

      places : s.free_place +ℤ pos (length items) ≡ pos c.places
      places =
          ap (λ w. w +ℤ negsuc 0 +ℤ pos (length items)) holds.places
          ∙ some_left (1 + room x + room y + room z) (room x + room y + room z) (length items)
              c.places (omega arith) (omega (arith, counted))

      clears : clear_and_fill_buffer_r s ≡ some (with_window s c)
      clears = clear_and_fill_buffer_r-slides s items u v beyond few held shape ∙ (λ i.
          some (record (delivered s items c.slots) { base_r = c.base; free_place = places i }))
