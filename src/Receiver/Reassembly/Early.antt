-- ===== src/Receiver/Reassembly/Early.antt =====
-- src/read_write_loop.c, `read_write_loop`: a packet that overtook the one that is due.
use trtp_network.Prelude.{
  ==_self, Option, ℕ, ◌+◌, ◌%◌, ◌≤◌, ◌<◌, ◌≡◌, refl, ap, ◌∙◌, List, [], ◌∷◌, none, some, arith,
  length, get_elem?, put,
}
use trtp_network.Prelude.Int.{pos, negsuc, ◌+ℤ◌}
use trtp_network.Packet.{Pkt}
use trtp_network.Codec.Encode.{HasPayload}
use trtp_network.Codec.RoundTrip.{IsSendable}
use trtp_network.Build.{Machine}
use trtp_network.Heap.{Ptr, Heap, update}
use trtp_network.Receiver.{Receiver, clear_and_fill_buffer_r}
use trtp_network.Receiver.Steps.{round, again}
use trtp_network.Receiver.Window.{Item, AllLive}
use trtp_network.Receiver.InOrder.{HasMemory, arrival}
use trtp_network.Receiver.Reassembly.Idle.{clear_and_fill_buffer_r-idle}
use trtp_network.Receiver.Reassembly.Store.{Holds, At, At-later, At-fresh, At-AllLive, ptr, room}
use trtp_network.Receiver.Reassembly.Placed.{
  Cleared, with_window, got, got_seq, got_has, stored, stored_base, round-Holds,
}

pub one_taken : (v w : ℕ) → v ≡ w + 1 → pos v +ℤ negsuc 0 ≡ pos w
unfolding ◌+ℤ◌
one_taken v w h = ground arith

module _ (m : Machine) (memory : HasMemory m) (r : Receiver) (n : ℕ) (x y z : Option Item)
    (beyond : List Ptr) (holds : Holds r n x y z beyond) (p : Pkt) (body : List ℕ) (now j : ℕ)
    (ok : IsSendable p) (typed : p.type ≡ 1) (has : HasPayload p body) (full : 0 < length body)
    (fits : length body ≤ 496) (seq : p.seqnum ≡ n + j) (near : j < 4)
    (early : p.seqnum < 255) where
  -- The memory with the packet that came.
  abbrev pub heap_with : Heap
  heap_with = update r.heap r.next (
      some (got m memory r n x y z beyond holds p body now j ok typed has full fits seq near early))

  pub At-stays : (k : ℕ) (i : Option Item) → At r.heap r.next k i → At heap_with (r.next + 1) k i
  At-stays k i at = At-later heap_with r.next k i (
      At-fresh r.heap r.next k i
        (some
          (got m memory r n x y z beyond holds p body now j ok typed has full fits seq near early))
        at)

  abbrev pub came : Option Item
  came = some (r.next, body)

  pub At-came : At heap_with (r.next + 1) (n + j) came
  At-came = (
    got m memory r n x y z beyond holds p body now j ok typed has full fits seq near early,
    (rw (==_self r.next)),
    got_has m memory r n x y z beyond holds p body now j ok typed has full fits seq near early,
    got_seq m memory r n x y z beyond holds p body now j ok typed has full fits seq near early,
    omega arith,
  )

  -- The packet went to a free entry behind the first: the window keeps it, and nothing is written.
  pub round-early :
      (x' y' z' : Option Item)
      → get_elem? r.slots j ≡ some none
      → put r.slots j (some r.next) ≡ some (none ∷ ptr x' ∷ ptr y' ∷ ptr z' ∷ none ∷ beyond)
      → 1 + room x + room y + room z ≡ 1 + room x' + room y' + room z' + 1
      → At heap_with (r.next + 1) (n + 1) x'
      → At heap_with (r.next + 1) (n + 2) y'
      → At heap_with (r.next + 1) (n + 3) z'
      → (r' : Receiver) × (round m r (arrival m memory p body now) ≡ some (again, r'))
        × Holds r' n x' y' z' beyond
        × (r'.stdout ≡ r.stdout)
  round-early x' y' z' free written taken ax ay az =
      round-Holds m memory r n x y z beyond holds p body now j ok typed has full fits seq near early
        slots c n x' y' z' free written clears
        (record {
          entries = refl;
          based = omega (arith, s_base);
          room_left = refl;
          first = ax;
          second = ay;
          third = az;
        })
    where
      slots : List Ptr
      slots = none ∷ ptr x' ∷ ptr y' ∷ ptr z' ∷ none ∷ beyond

      s : Receiver
      s =
          stored m memory r n x y z beyond holds p body now j ok typed has full fits seq near early
            slots

      s_base : s.base_r ≡ n % 4
      s_base =
          stored_base m memory r n x y z beyond holds p body now j ok typed has full fits seq near
            early slots

      c : Cleared
      c = record {
        slots = slots;
        heap = heap_with;
        base = (s.base_r + 0) % 4;
        places = 1 + room x' + room y' + room z';
        output = r.stdout;
      }

      live : AllLive heap_with (ptr x' ∷ ptr y' ∷ ptr z' ∷ [])
      live = At-AllLive heap_with (r.next + 1) (n + 1) x' (ptr y' ∷ ptr z' ∷ []) ax (
          At-AllLive heap_with (r.next + 1) (n + 2) y' (ptr z' ∷ []) ay
            (At-AllLive heap_with (r.next + 1) (n + 3) z' [] az tt))

      places : s.free_place ≡ pos c.places
      places =
          ap (λ w. w +ℤ negsuc 0) holds.places
          ∙ one_taken (1 + room x + room y + room z) c.places taken

      clears : clear_and_fill_buffer_r s ≡ some (with_window s c)
      clears =
          clear_and_fill_buffer_r-idle s (ptr x') (ptr y') (ptr z') (none ∷ beyond) refl live
          ∙ (λ i. some (record s { base_r = c.base; slots = slots; free_place = places i }))
