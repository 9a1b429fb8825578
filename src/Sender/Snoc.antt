-- ===== src/Sender/Snoc.antt =====
-- src/read_write_loop_sender.c: a packet more at the end of the buffer.
use mathlib.Core.Path.{subst}
use trtp_network.Prelude.{
  ℕ, suc, ◌+◌, ◌<◌, ◌≡◌, ◌≢◌, refl, ap, List, [], ◌∷◌, ◌++◌, some, arith, length,
}
use trtp_network.Packet.{Pkt}
use trtp_network.Heap.{Ptr, Heap}
use trtp_network.Receiver.Window.{Item, pointers}
use trtp_network.Sender.Content.{Carries, Buffered, Apart, Distinct, Below, payloads}

-- An item more at the end.
abbrev pub snoc : List Item → ℕ → List ℕ → List Item
snoc items a body = items ++ ((a, body) ∷ [])

pub pointers-snoc :
    (items : List Item) (a : ℕ) (body : List ℕ) (beyond : List Ptr)
    → pointers items ++ (some a ∷ beyond) ≡ pointers (snoc items a body) ++ beyond
pointers-snoc [] a body beyond = refl
pointers-snoc ((b, c) ∷ items) a body beyond =
    ap (λ l. some b ∷ l) (pointers-snoc items a body beyond)

pub payloads-snoc :
    (items : List Item) (a : ℕ) (body : List ℕ)
    → payloads (snoc items a body) ≡ payloads items ++ (body ∷ [])
payloads-snoc [] a body = refl
payloads-snoc ((b, c) ∷ items) a body = ap (λ l. c ∷ l) (payloads-snoc items a body)

pub length-pointers : (items : List Item) → length (pointers items) ≡ length items
length-pointers [] = refl
length-pointers ((b, c) ∷ items) = ap suc (length-pointers items)

pub Buffered-snoc :
    (h : Heap) (n : ℕ) (items : List Item) (a : ℕ) (body : List ℕ) (p : Pkt)
    → h a ≡ some p
    → Carries p (n + length items) body
    → Buffered h n items
    → Buffered h n (snoc items a body)
Buffered-snoc h n [] a body p live c b =
    ((p, live, subst (λ j. Carries p j body) (omega arith) c), tt)
Buffered-snoc h n ((a', body') ∷ items) a body p live c b = (
  b.0,
  Buffered-snoc h (suc n) items a body p live (subst (λ j. Carries p j body) (omega arith) c) b.1,
)

pub Apart-snoc :
    (x : ℕ) (items : List Item) (a : ℕ) (body : List ℕ)
    → Apart x items
    → x ≢ a
    → Apart x (snoc items a body)
Apart-snoc x [] a body h other = (other, tt)
Apart-snoc x ((b, c) ∷ items) a body h other = (h.0, Apart-snoc x items a body h.1 other)

pub Below-snoc :
    (k : ℕ) (items : List Item) (a : ℕ) (body : List ℕ)
    → Below k items
    → a < k
    → Below k (snoc items a body)
Below-snoc k [] a body h l = (l, tt)
Below-snoc k ((b, c) ∷ items) a body h l = (h.0, Below-snoc k items a body h.1 l)

pub Distinct-snoc :
    (items : List Item) (a : ℕ) (body : List ℕ)
    → Distinct items
    → Below a items
    → Distinct (snoc items a body)
Distinct-snoc [] a body d h = (tt, tt)
Distinct-snoc ((b, c) ∷ items) a body d h =
    (Apart-snoc b items a body d.0 (λ e. omega (arith, e, h.0)), Distinct-snoc items a body d.1 h.1)
