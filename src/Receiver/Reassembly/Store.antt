-- ===== src/Receiver/Reassembly/Store.antt =====
-- src/read_write_loop.c: the packets in `listPkt` that came early.
use trtp_network.Prelude.{
  ℕ, ◌+◌, ◌%◌, ◌^◌, ◌<◌, ◌≡◌, ◌≢◌, sym, ap, ◌∙◌, List, ◌∷◌, Option, none, some, false, arith,
  length, ◌==◌,
}
use mathlib.Core.Option.{some-injective}
use trtp_network.Prelude.Int.{pos, negsuc}
use trtp_network.Packet.{Pkt}
use trtp_network.Codec.Encode.{HasPayload}
use trtp_network.Heap.{Ptr, Heap, update}
use trtp_network.Receiver.{Receiver}
use trtp_network.Receiver.Window.{Item, AllLive}

abbrev pub ptr : Option Item → Ptr
ptr none = none
ptr (some (a, body)) = some a

abbrev pub payload_of : Option Item → Option (List ℕ)
payload_of none = none
payload_of (some (a, body)) = some body

abbrev pub room : Option Item → ℕ
room none = 1
room (some x) = 0

-- An entry is free, or points to the live packet number `k` with the payload, at an address below
-- `next`.
abbrev pub At : Heap → ℕ → ℕ → Option Item → Type 0
At h next k none = Unit
At h next k (some (a, body)) =
    (p : Pkt) × (h a ≡ some p) × HasPayload p body × (p.seqnum ≡ k) × (a < next)

-- Between two rounds: packet number `n` is due, so the first entry is free; `x`, `y` and `z` are what
-- came early of the three packets behind it. Nothing is to be answered.
pub record Holds (r : Receiver) (n : ℕ) (x y z : Option Item) (beyond : List Ptr) : Type 0 where
  pub slots : r.slots ≡ none ∷ ptr x ∷ ptr y ∷ ptr z ∷ none ∷ beyond
  pub base : r.base_r ≡ n % 4
  pub places : r.free_place ≡ pos (1 + room x + room y + room z)
  pub first : At r.heap r.next (n + 1) x
  pub second : At r.heap r.next (n + 2) y
  pub third : At r.heap r.next (n + 3) z
  pub no_nack : r.nack ≡ negsuc 0
  pub no_ack : r.partial_ack ≡ negsuc 0
  pub sized : length r.buffer ≡ 512
  pub stamped : r.last_time_pkt < 2 ^ 32

other : (a b : ℕ) → a ≢ b → (a == b) ≡ false
other a b h = ground arith

-- A packet of the window survives what happens at the next address.
pub At-fresh :
    (h : Heap) (next k : ℕ) (x : Option Item) (q : Option Pkt)
    → At h next k x
    → At (update h next q) next k x
At-fresh h next k none q at = tt
At-fresh h next k (some (a, body)) q at =
    (at.0, rw (other next a (λ e. omega arith)) at.1, at.2, at.3, at.4)

pub At-later : (h : Heap) (next k : ℕ) (x : Option Item) → At h next k x → At h (next + 1) k x
At-later h next k none at = tt
At-later h next k (some (a, body)) at = (at.0, at.1, at.2, at.3, omega arith)

-- It survives when a packet with another number is freed.
pub At-freed :
    (h : Heap) (next k l a : ℕ) (body : List ℕ) (x : Option Item)
    → At h next k (some (a, body))
    → k ≢ l
    → At h next l x
    → At (update h a none) next l x
At-freed h next k l a body none at apart kept = tt
At-freed h next k l a body (some (b, text)) at apart kept =
    (kept.0, rw (other a b apart_at) kept.1, kept.2, kept.3, kept.4)
  where
    apart_at : a ≢ b
    apart_at e = apart (
        sym at.3
        ∙ ap (λ p. p.seqnum) (some-injective at.0 kept.0 (sym at.1 ∙ ap h e ∙ kept.1))
        ∙ kept.3)

pub At-AllLive :
    (h : Heap) (next k : ℕ) (x : Option Item) (l : List Ptr)
    → At h next k x
    → AllLive h l
    → AllLive h (ptr x ∷ l)
At-AllLive h next k none l at live = live
At-AllLive h next k (some (a, body)) l at live = ((at.0, at.1), live)
