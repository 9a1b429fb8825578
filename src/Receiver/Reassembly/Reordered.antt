-- ===== src/Receiver/Reassembly/Reordered.antt =====
-- src/read_write_loop.c, `read_write_loop`: a whole transfer without loss, in which packets overtake
-- each other.
use mathlib.Core.Path.{subst}
use trtp_network.Prelude.{
  Option, ℕ, suc, ◌+◌, ◌<◌, ◌≡◌, refl, ap, ◌∙◌, List, [], ◌∷◌, ◌++◌, none, some, length,
}
use trtp_network.Packet.{Pkt}
use trtp_network.Build.{Machine}
use trtp_network.Heap.{Ptr}
use trtp_network.Receiver.{Receiver}
use trtp_network.Receiver.Window.{Item}
use mathlib.Core.Option.{some-ne-none}
use trtp_network.Receiver.Reassembly.Store.{Holds, payload_of}
use trtp_network.Receiver.Steps.{Round, read_write_loop, left}
use trtp_network.Receiver.InOrder.{HasMemory, InStep, arrival}
use trtp_network.Receiver.Transfer.{Arrival, IsLast, loop-last, ended}
use trtp_network.Receiver.Reassembly.{window, reassemble}
use trtp_network.Receiver.Reassembly.Round.{InWindow}
use trtp_network.Receiver.Reassembly.Refines.{
  Event, packets, AreGood, event_rounds, numbered, read_write_loop-reassembles,
}
use trtp_network.Receiver.Reassembly.Shuffle.{Shuffled, span, with_content, reassemble-Shuffled}

-- Every packet is a data packet below number 255 and carries the content that belongs to its number.
abbrev pub Carries : (ℕ → List ℕ) → List Arrival → Type 0
Carries content [] = Unit
Carries content (a ∷ l) = (a.body ≡ content a.pkt.seqnum) × Carries content l

abbrev pub numbers : List Arrival → List ℕ
numbers [] = []
numbers (a ∷ l) = a.pkt.seqnum ∷ numbers l

numbered_lem :
    (content : ℕ → List ℕ) (l : List Arrival)
    → Carries content l
    → numbered l ≡ with_content content (numbers l)
numbered_lem content [] carries = refl
numbered_lem content (a ∷ l) carries =
    λ i. (a.pkt.seqnum, carries.0 i) ∷ numbered_lem content l carries.1 i

length-numbers : (l : List Arrival) → length (numbers l) ≡ length l
length-numbers [] = refl
length-numbers (a ∷ l) = ap suc (length-numbers l)

pub InStep-Holds :
    (r : Receiver) (n : ℕ) (beyond : List Ptr) → InStep r n beyond → Holds r n none none none beyond
InStep-Holds r n beyond step = record {
  slots = step.empty;
  base = step.base;
  places = step.places;
  first = tt;
  second = tt;
  third = tt;
  no_nack = step.no_nack;
  no_ack = step.no_ack;
  sized = step.sized;
  stamped = step.stamped;
}

pub InStep-InWindow :
    (r : Receiver) (n : ℕ) (beyond : List Ptr)
    → InStep r n beyond
    → InWindow r (window n none none none) beyond
InStep-InWindow r n beyond step = record {
  x = none;
  y = none;
  z = none;
  holds = InStep-Holds r n beyond step;
  first = refl;
  second = refl;
  third = refl;
}

pub Holds-InStep :
    (r : Receiver) (n : ℕ) (beyond : List Ptr)
    → n < 256
    → Holds r n none none none beyond
    → InStep r n beyond
Holds-InStep r n beyond byte holds = record {
  empty = holds.slots;
  base = holds.base;
  places = holds.places;
  no_nack = holds.no_nack;
  no_ack = holds.no_ack;
  byte = byte;
  sized = holds.sized;
  stamped = holds.stamped;
}

InWindow-InStep :
    (r : Receiver) (n : ℕ) (beyond : List Ptr)
    → n < 256
    → InWindow r (window n none none none) beyond
    → InStep r n beyond
InWindow-InStep r n beyond byte at = from at.x at.y at.z at.holds at.first at.second at.third
  where
    from :
        (x y z : Option Item)
        → Holds r n x y z beyond
        → payload_of x ≡ none
        → payload_of y ≡ none
        → payload_of z ≡ none
        → InStep r n beyond
    from none none none holds e e' e'' = Holds-InStep r n beyond byte holds
    from (some (a, b)) y z holds e e' e'' = absurd (some-ne-none b e)
    from none (some (a, b)) z holds e e' e'' = absurd (some-ne-none b e')
    from none none (some (a, b)) holds e e' e'' = absurd (some-ne-none b e'')

module _ (m : Machine) (memory : HasMemory m) (content : ℕ → List ℕ) where
  -- Data packets with payloads of 1 to 496 bytes arrive once each, numbered from the due number on
  -- and below 255, in groups: one alone, two swapped, three in any order, or four of which the first
  -- comes after the others, which are in order. Between them there are datagrams that the decoder
  -- refuses, and rounds without any; then comes the packet that ends the transfer. The loop ends
  -- there, whatever would follow, and has written the payloads in the order of their numbers.
  pub read_write_loop-Shuffled :
      (l : List Event) (p : Pkt) (now : ℕ) (rest : List Round) (r : Receiver) (n : ℕ)
      (beyond : List Ptr)
      → InStep r n beyond
      → AreGood m l
      → Carries content (packets l)
      → Shuffled n (numbers (packets l))
      → n + length (packets l) < 256
      → IsLast p
      → (r' : Receiver) × (read_write_loop m r
            (event_rounds m memory l ++ (arrival m memory p [] now ∷ rest))
          ≡ some (left, r'))
        × (r'.stdout ≡ r.stdout ++ span content n (length (packets l)))
  read_write_loop-Shuffled l p now rest r n beyond step good carries shuffled byte last =
      let count : ℕ = length (packets l) in
      let t =
        read_write_loop-reassembles m memory beyond l (arrival m memory p [] now ∷ rest) r
          (window n none none none) (window (n + count) none none none, span content n count)
          (InStep-InWindow r n beyond step) good
          (ap (reassemble (window n none none none)) (numbered_lem content (packets l) carries)
            ∙ subst
                (λ k.
                  reassemble (window n none none none) (with_content content (numbers (packets l)))
                  ≡ some (window (n + k) none none none, span content n k))
                (length-numbers (packets l))
                (reassemble-Shuffled content n (numbers (packets l)) shuffled)) in
      let still = InWindow-InStep t.0 (n + count) beyond byte t.2 in
      (
        ended m memory t.0 (n + count) beyond still p last,
        t.1 ∙ loop-last m memory t.0 (n + count) beyond still p last now rest,
        t.3,
      )
