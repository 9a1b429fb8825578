-- ===== src/Network/Flow.antt =====
-- src/read_write_loop_sender.c and src/read_write_loop.c: both loops at any moment of a transfer in
-- which nothing is lost and the order is kept.
use mathlib.Core.Path.{subst}
use mathlib.Core.Option.{some-injective}
use trtp_network.Prelude.{
  ℕ, suc, ◌+◌, ◌*◌, ◌^◌, ◌≤◌, ◌<◌, ◌≡◌, refl, sym, ap, ◌∙◌, List, [], ◌∷◌, ◌++◌, false, none, some,
  arith, length, get_elem?,
}
use trtp_network.Packet.{Pkt}
use trtp_network.Codec.Encode.{wire}
use trtp_network.Build.{Machine}
use trtp_network.Heap.{Ptr}
use trtp_network.Receiver.Window.{Item}
use trtp_network.Receiver.InOrder.{InStep, ack_pkt}
use trtp_network.Sender.Burst.{Flight, datagrams}
use trtp_network.Sender.Filling.{left_over}
use trtp_network.Sender.Pace.{InPace}
use trtp_network.Network.{Net}
use trtp_network.Network.Transfer.{next_in}

-- The datagram that acknowledges the packet before number `n`.
abbrev pub ack_wire : Machine → ℕ → ℕ → List ℕ
ack_wire m n late = wire m.zlib m.endian (ack_pkt n late) []

-- Acknowledgements of the packets from number `n` on.
abbrev pub Answers : Machine → ℕ → List (List ℕ) → Type 0
Answers m n [] = Unit
Answers m n (d ∷ l) =
    ((late : ℕ) × (late < 2 ^ 32) × (d ≡ ack_wire m (n + 1) late)) × Answers m (n + 1) l

pub Answers-snoc :
    (m : Machine) (n late : ℕ) (l : List (List ℕ))
    → Answers m n l
    → late < 2 ^ 32
    → Answers m n (l ++ (ack_wire m (n + length l + 1) late ∷ []))
Answers-snoc m n late [] h stamped =
    ((late, stamped, ap (λ k. ack_wire m (k + 1) late) (plus_zero n)), tt)
  where
    plus_zero : (n : ℕ) → n + 0 ≡ n
    plus_zero n = omega arith
Answers-snoc m n late (d ∷ l) h stamped = (
  h.0,
  subst (λ k. Answers m (n + 1) (l ++ (ack_wire m (k + 1) late ∷ []))) (shuffle n (length l))
      (Answers-snoc m (n + 1) late l h.1 stamped),
)
  where
    shuffle : (n k : ℕ) → n + 1 + k ≡ n + suc k
    shuffle n k = omega arith

-- The sender waits for the acknowledgement of packet `n`. The receiver has written everything before
-- packet `n + k`, and its last `k` answers are on their way; the other packets of the sender's full
-- window, `w`, are on their way too.
pub record Flow (m : Machine) (t : Net) (n k f w : ℕ) (whole : List ℕ) (bs br : List Ptr)
    : Type 0 where
  pub items : List Item
  pub flying : List (Pkt × List ℕ)
  pub pending : List (List ℕ)
  pub read : List (List ℕ)
  pub heard : List (List ℕ)
  pub pace : InPace t.sender n w w whole items bs
  pub step : InStep t.receiver (n + k) br
  pub full : k + f ≡ w
  pub wide : 0 < w
  pub small : w ≤ 4
  pub many : length flying ≡ f
  pub flight : Flight (n + k) whole flying
  pub sent : t.sender.sent ≡ read ++ datagrams m flying
  pub data_at : t.data_read ≡ length read
  pub data_count : t.data_read ≡ n + k
  pub answers : Answers m n pending
  pub waiting : length pending ≡ k
  pub answered : t.receiver.sent ≡ heard ++ pending
  pub answers_at : t.answers_read ≡ length heard
  pub answers_count : t.answers_read ≡ n
  pub written : t.receiver.stdout ++ left_over (n + k) whole ≡ whole
  pub nonempty : 488 * (n + k) < length whole + 488
  pub running : t.over ≡ false

none_in : (l : List (List ℕ)) → get_elem? (l ++ []) (length l) ≡ none
none_in [] = refl
none_in (x ∷ l) = none_in l

-- What is read next of a queue of datagrams, `gone` of which are behind.
pub read_next :
    (all gone rest : List (List ℕ)) (at : ℕ) (x : List ℕ)
    → all ≡ gone ++ (x ∷ rest)
    → at ≡ length gone
    → get_elem? all at ≡ some x
read_next all gone rest at x e f = rw (e, f) (next_in gone rest x)

-- A datagram that is read is the first of those on their way.
pub read_is :
    (all gone rest : List (List ℕ)) (at : ℕ) (d : List ℕ)
    → all ≡ gone ++ rest
    → at ≡ length gone
    → get_elem? all at ≡ some d
    → (more : List (List ℕ)) × (rest ≡ d ∷ more)
read_is all gone [] at d e f h = absurd (
    no_some (
      sym (none_in gone)
      ∙ (ap (get_elem? (gone ++ [])) (sym f) ∙ ap (λ l. get_elem? l at) (sym e) ∙ h)))
  where
    no_some : {x : List ℕ} → none ≡ some x → ⊥
    no_some h = cc
read_is all gone (x ∷ rest) at d e f h =
    (rest, ap (λ y. y ∷ rest) (some-injective _ _ (sym (read_next all gone rest at x e f) ∙ h)))

-- A packet on its way belongs to the datagram that is read.
pub flying_is :
    (m : Machine) (l : List (Pkt × List ℕ)) (d : List ℕ) (more : List (List ℕ))
    → datagrams m l ≡ d ∷ more
    → (p : Pkt) × (body : List ℕ) × (rest : List (Pkt × List ℕ)) × (l ≡ (p, body) ∷ rest)
      × (d ≡ wire m.zlib m.endian p body)
flying_is m [] d more h = absurd (cc)
flying_is m ((p, body) ∷ l) d more h = (p, body, l, refl, sym (cc))
