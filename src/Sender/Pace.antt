-- ===== src/Sender/Pace.antt =====
-- src/read_write_loop_sender.c: the sender between two acknowledgements of a transfer in order.
use mathlib.Core.Option.{some-injective}
use trtp_network.Prelude.{
  ℕ, zero, suc, ◌+◌, ◌<◌, ◌≡◌, refl, sym, ap, ◌∙◌, List, [], ◌∷◌, ◌++◌, some, arith, length,
  get_elem?, take, drop,
}
use trtp_network.Prelude.Int.{negsuc}
use trtp_network.Packet.{Pkt, pkt_del}
use trtp_network.Heap.{Ptr}
use trtp_network.Receiver.Window.{Item, pointers}
use trtp_network.Sender.{Sender}
use trtp_network.Sender.Filling.{pieces, left_over}
use trtp_network.Sender.Content.{Buffered, Apart, Distinct, Below, payloads}

-- The piece number `n` of a file.
abbrev pub piece : ℕ → List ℕ → List ℕ
piece n whole = take 488 (left_over n whole)

pub left_over-add :
    (n k : ℕ) (whole : List ℕ) → left_over k (left_over n whole) ≡ left_over (n + k) whole
left_over-add zero k whole = ap (λ j. left_over j whole) (zero_plus k)
  where
    zero_plus : (k : ℕ) → k ≡ 0 + k
    zero_plus k = omega arith
left_over-add (suc n) k whole =
    left_over-add n k (drop 488 whole) ∙ ap (λ j. left_over j whole) (suc_plus n k)
  where
    suc_plus : (n k : ℕ) → suc (n + k) ≡ suc n + k
    suc_plus n k = omega arith

pieces-at :
    (c k : ℕ) (file : List ℕ)
    → k < c
    → get_elem? (pieces c file) k ≡ some (take 488 (left_over k file))
pieces-at zero k file h = absurd (omega arith)
pieces-at (suc c) zero file h = refl
pieces-at (suc c) (suc k) file h = pieces-at c k (drop 488 file) (omega arith)

-- The acknowledgement that the sender keeps as the last one, number `n`.
pub record Acked (s : Sender) (n : ℕ) (items : List Item) : Type 0 where
  pub address : ℕ
  pub packet : Pkt
  pub kept : s.last_ack ≡ some address
  pub live : s.heap address ≡ some packet
  pub numbered : packet.seqnum ≡ n
  pub freeable : pkt_del packet ≡ some tt
  pub old : address < s.next
  pub apart : Apart address items

-- The sender has sent `f` packets from number `n` on, the next that is to be acknowledged, of the
-- fifty in its buffer, which hold the pieces of the file from number `n` on.
pub record InPace (s : Sender) (n f w : ℕ) (whole : List ℕ) (items : List Item) (beyond : List Ptr)
    : Type 0 where
  pub slots_are : s.slots ≡ pointers items ++ beyond
  pub fifty : length items ≡ 50
  pub buffered : Buffered s.heap n items
  pub distinct : Distinct items
  pub below : Below s.next items
  pub acked : Acked s n items
  pub base_is : s.base ≡ n
  pub next_is : s.nextseqnum ≡ n + f
  pub window_is : s.window ≡ w
  pub quiet_nack : s.nack ≡ negsuc 0
  pub count_is : s.seqnum ≡ n + 50
  pub sized : length s.buffer ≡ 512
  pub in_buffer : payloads items ≡ pieces 50 (left_over n whole)
  pub in_file : s.file ≡ left_over (n + 50) whole

pub piece_in_buffer :
    {s : Sender} {n f w : ℕ} {whole : List ℕ} {items : List Item} {beyond : List Ptr}
    → InPace s n f w whole items beyond
    → (k : ℕ) (body : List ℕ) → k < 50
    → get_elem? (payloads items) k ≡ some body
    → body ≡ piece (n + k) whole
piece_in_buffer {n} {whole} pace k body few at =
    some-injective _ _
      (sym at ∙ ap (λ l. get_elem? l k) pace.in_buffer ∙ pieces-at 50 k (left_over n whole) few)
    ∙ ap (take 488) (left_over-add n k whole)

pub pieces-snoc :
    (c : ℕ) (file : List ℕ)
    → pieces c file ++ (take 488 (left_over c file) ∷ []) ≡ pieces (suc c) file
pieces-snoc zero file = refl
pieces-snoc (suc c) file = ap (λ l. take 488 file ∷ l) (pieces-snoc c (drop 488 file))

pub left_over-next :
    (n : ℕ) (whole : List ℕ) → drop 488 (left_over n whole) ≡ left_over (n + 1) whole
left_over-next n whole = left_over-add n 1 whole

-- The buffer without its first packet, and with the next piece of the file at the end.
pub pieces-along :
    (n c : ℕ) (whole file : List ℕ) (first : List ℕ) (l : List (List ℕ))
    → first ∷ l ≡ pieces (suc c) (left_over n whole)
    → file ≡ left_over (n + suc c) whole
    → l ++ (take 488 file ∷ []) ≡ pieces (suc c) (left_over (n + 1) whole)
pieces-along n c whole file first l held at =
    ap (λ q. q ++ (take 488 file ∷ [])) (ap (drop 1) held ∙ ap (pieces c) (left_over-next n whole))
    ∙ ap (λ q. pieces c (left_over (n + 1) whole) ++ (take 488 q ∷ []))
        (at ∙ ap (λ k. left_over k whole) (shuffle n c) ∙ sym (left_over-add (n + 1) c whole))
    ∙ pieces-snoc c (left_over (n + 1) whole)
  where
    shuffle : (n c : ℕ) → n + suc c ≡ n + 1 + c
    shuffle n c = omega arith
