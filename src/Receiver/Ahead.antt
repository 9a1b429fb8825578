-- ===== src/Receiver/Ahead.antt =====
-- src/read_write_loop.c: a packet that is a whole window ahead of the one that is due.
use mathlib.Core.List.{append-nil}
use trtp_network.Prelude.{
  ==_self, Option, ◌>>=◌, ℕ, ◌+◌, ◌%◌, ◌<◌, ◌≡◌, refl, ap, ◌∙◌, List, [], ◌∷◌, ◌++◌, none, some,
  arith, get_elem?, put, if◌then◌else◌, ◌==◌,
}
use trtp_network.Prelude.Int.{pos, sub_ℕ, rem}
use trtp_network.Packet.{Pkt}
use trtp_network.Heap.{Ptr}
use trtp_network.Codec.Encode.{HasPayload}
use trtp_network.Receiver.{Receiver, clear_and_fill_buffer_r}
use trtp_network.Receiver.Steps.{place}
use trtp_network.Receiver.Window.{Item, delivered, clear_and_fill_buffer_r-slides}
use trtp_network.Receiver.InOrder.{InStep, place_free, put_at}

-- A packet is placed, and the window delivers.
abbrev pub placed_delivery : Receiver → ℕ → Pkt → Option Receiver
placed_delivery r a p = do r1 ← place r a p; clear_and_fill_buffer_r r1

first_again : (n : ℕ) → rem (sub_ℕ (n + 4) (n % 4)) 4 ≡ pos 0
unfolding rem
first_again n = ground arith

-- With packet `n` due and an empty window, packet `n + 4` goes to the entry of packet `n`: its payload
-- is written in the place of the one of packet `n`, and the base moves on to packet `n + 1`.
pub placed_delivery-ahead :
    (r : Receiver) (n a : ℕ) (p : Pkt) (body : List ℕ) (beyond : List Ptr)
    → InStep r n beyond
    → p.seqnum ≡ n + 4
    → HasPayload p body
    → (r' : Receiver) × (placed_delivery r a p ≡ some r')
      × (r'.stdout ≡ r.stdout ++ body)
      × (r'.base_r ≡ (n + 1) % 4)
unfolding put
placed_delivery-ahead r n a p body beyond step seq has =
    let slots : List Ptr = some a ∷ none ∷ none ∷ none ∷ none ∷ beyond in
    let r1 : Receiver = put_at r a p slots in
    let items : List Item = (a, body) ∷ [] in
    (
      record (delivered r1 items (none ∷ none ∷ none ∷ none ∷ none ∷ beyond)) {
        base_r = (r1.base_r + 1) % 4;
      },
      (rw (
        place_free r a p 0 slots at (ap (λ l. get_elem? l 0) step.empty)
            (ap (λ l. put l 0 (some a)) step.empty),
        clear_and_fill_buffer_r-slides r1 items none none beyond (omega arith)
            ((p, rw (==_self a), has), tt) refl,
      )),
      ap (λ l. r.stdout ++ l) (append-nil body),
      omega (arith, base_is),
    )
  where
    kept : (s b : ℕ) → 0 < s → (if s == 0 then 0 else b) ≡ b
    kept s b h = ground arith

    base_is : (if p.seqnum == 0 then 0 else r.base_r) ≡ n % 4
    base_is = kept p.seqnum r.base_r (omega (arith, seq)) ∙ step.base

    at : rem (sub_ℕ p.seqnum (if p.seqnum == 0 then 0 else r.base_r)) 4 ≡ pos 0
    at = rw (base_is, seq) (first_again n)
