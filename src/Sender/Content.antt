-- ===== src/Sender/Content.antt =====
-- src/read_write_loop_sender.c: the packets in the buffer, and how `find_buffer` finds them.
use mathlib.Core.Path.{subst}
use mathlib.Core.Option.{some-injective}
use trtp_network.Prelude.{
  ==_iff, ℕ, zero, suc, ◌+◌, ◌%◌, ◌≤◌, ◌<◌, ◌≡◌, ◌≢◌, refl, sym, ap, ◌∙◌, List, [], ◌∷◌, ◌++◌, true,
  false, Option, some, arith, length, ◌==◌, get_elem?, Bool-cases, inl, inr,
}
use trtp_network.Packet.{Pkt}
use trtp_network.Codec.Encode.{HasPayload}
use trtp_network.Codec.RoundTrip.{IsSendable}
use trtp_network.Heap.{Ptr, Heap, update, find_from, find_buffer}
use trtp_network.Receiver.Window.{Item, pointers}

-- The data packet number `n` with the payload `body`, made in the first half second.
pub record Carries (p : Pkt) (n : ℕ) (body : List ℕ) : Type 0 where
  pub typed : p.type ≡ 1
  pub untruncated : p.tr ≡ 0
  pub numbered : p.seqnum ≡ n % 256
  pub narrow : p.window < 32
  pub holds : HasPayload p body
  pub short : length body ≤ 488
  pub early : p.timestamp < 500000

-- The heap holds the packets of the items, numbered from `n` on.
abbrev pub Buffered : Heap → ℕ → List Item → Type 0
Buffered h n [] = Unit
Buffered h n ((a, body) ∷ items) =
    ((p : Pkt) × (h a ≡ some p) × Carries p n body) × Buffered h (suc n) items

-- No item is at the address.
abbrev pub Apart : ℕ → List Item → Type 0
Apart a [] = Unit
Apart a ((b, body) ∷ items) = (a ≢ b) × Apart a items

abbrev pub Distinct : List Item → Type 0
Distinct [] = Unit
Distinct ((a, body) ∷ items) = Apart a items × Distinct items

abbrev pub Below : ℕ → List Item → Type 0
Below k [] = Unit
Below k ((a, body) ∷ items) = (a < k) × Below k items

abbrev pub payloads : List Item → List (List ℕ)
payloads [] = []
payloads ((a, body) ∷ items) = body ∷ payloads items

pub Carries-IsSendable : (p : Pkt) (n : ℕ) (body : List ℕ) → Carries p n body → IsSendable p
Carries-IsSendable p n body c = record {
  stored = omega (arith, c.typed, c.untruncated, c.numbered, c.narrow, c.holds.0, c.short, c.early);
  typed = inl c.untruncated;
  short = omega (arith, c.holds.0, c.short);
}

pub Below-Apart : (k : ℕ) (items : List Item) → Below k items → Apart k items
Below-Apart k [] h = tt
Below-Apart k ((a, body) ∷ items) h = (λ e. omega (arith, e, h.0), Below-Apart k items h.1)

pub Below-up : (k l : ℕ) (items : List Item) → k ≤ l → Below k items → Below l items
Below-up k l [] le h = tt
Below-up k l ((a, body) ∷ items) le h = (omega (arith, h.0), Below-up k l items le h.1)

pub differ : (a b : ℕ) → a ≢ b → (a == b) ≡ false
differ a b h = ground arith

-- An update elsewhere changes nothing.
pub Buffered-update :
    (h : Heap) (n a : ℕ) (o : Option Pkt) (items : List Item)
    → Apart a items
    → Buffered h n items
    → Buffered (update h a o) n items
Buffered-update h n a o [] apart b = tt
Buffered-update h n a o ((c, body) ∷ items) apart b = (
  (b.0.0, (rw (differ a c apart.0) b.0.1), b.0.2),
  Buffered-update h (suc n) a o items apart.1 b.1,
)

restamped :
    (p : Pkt) (n t : ℕ) (body : List ℕ)
    → t < 500000
    → Carries p n body
    → Carries (record p { timestamp = t }) n body
restamped p n t body early c = record {
  typed = c.typed;
  untruncated = c.untruncated;
  numbered = c.numbered;
  narrow = c.narrow;
  holds = c.holds;
  short = c.short;
  early = early;
}

same_packet :
    (h : Heap) (a c : ℕ) (p p' : Pkt) → (a == c) ≡ true → h a ≡ some p → h c ≡ some p' → p' ≡ p
same_packet h a c p p' e at at' = some-injective _ _ (sym at' ∙ ap h (sym ((==_iff a c).0 e)) ∙ at)

-- A new timestamp changes nothing else.
pub Buffered-stamp :
    (h : Heap) (n a t : ℕ) (p : Pkt) (items : List Item)
    → h a ≡ some p
    → t < 500000
    → Buffered h n items
    → Buffered (update h a (some (record p { timestamp = t }))) n items
Buffered-stamp h n a t p [] at early b = tt
Buffered-stamp h n a t p ((c, body) ∷ items) at early b = (
  elim (Bool-cases (a == c)) [
    | inl same ↦ (
      record p { timestamp = t },
      (rw same),
      restamped p n t body early
          (subst (λ x. Carries x n body) (same_packet h a c p b.0.0 same at b.0.1) b.0.2),
    )
    | inr other ↦ (b.0.0, (rw other b.0.1), b.0.2)
  ],
  Buffered-stamp h (suc n) a t p items at early b.1,
)

find_from-hit :
    (h : Heap) (seq i w a : ℕ) (p : Pkt) (l : List Ptr)
    → h a ≡ some p
    → (p.seqnum == seq) ≡ true
    → find_from h seq i (suc w) (some a ∷ l) ≡ some (some i)
unfolding find_from
find_from-hit h seq i w a p l live found =
    rw live (ap (λ b. elim b [ true ↦ some (some i) | false ↦ find_from h seq (i + 1) w l ]) found)

find_from-miss :
    (h : Heap) (seq i w a : ℕ) (p : Pkt) (l : List Ptr)
    → h a ≡ some p
    → (p.seqnum == seq) ≡ false
    → find_from h seq i (suc w) (some a ∷ l) ≡ find_from h seq (i + 1) w l
unfolding find_from
find_from-miss h seq i w a p l live other =
    rw live (ap (λ b. elim b [ true ↦ some (some i) | false ↦ find_from h seq (i + 1) w l ]) other)

-- `find_buffer` finds the packet number `n + k` at place `k`.
pub find_from-at :
    (h : Heap) (n k i w : ℕ) (items : List Item) (beyond : List Ptr)
    → Buffered h n items
    → k < length items
    → length items ≤ 256
    → k < w
    → find_from h ((n + k) % 256) i w (pointers items ++ beyond) ≡ some (some (i + k))
unfolding find_from
find_from-at h n k i w [] beyond b l few room = absurd (omega arith)
find_from-at h n k i zero (x ∷ items) beyond b l few room = absurd (omega arith)
find_from-at h n zero i (suc w) ((a, body) ∷ items) beyond b l few room =
    find_from-hit h ((n + 0) % 256) i w a b.0.0 (pointers items ++ beyond) b.0.1
      (numbered_here b.0.0.seqnum n b.0.2.numbered)
    ∙ ap (λ j. some (some j)) (sym (plus_zero i))
  where
    numbered_here : (x n : ℕ) → x ≡ n % 256 → (x == (n + 0) % 256) ≡ true
    numbered_here x n h = ground arith

    plus_zero : (i : ℕ) → i + 0 ≡ i
    plus_zero i = omega arith
find_from-at h n (suc k) i (suc w) ((a, body) ∷ items) beyond b l few room =
    find_from-miss h ((n + suc k) % 256) i w a b.0.0 (pointers items ++ beyond) b.0.1
      (differ b.0.0.seqnum ((n + suc k) % 256) (λ e. omega (arith, e, l, few, b.0.2.numbered)))
    ∙ ap (λ x. find_from h (x % 256) (i + 1) w (pointers items ++ beyond)) (next_up n k)
    ∙ find_from-at h (suc n) k (i + 1) w items beyond b.1 (omega arith) (omega arith) (omega arith)
    ∙ ap (λ j. some (some j)) (next_place i k)
  where
    next_up : (n k : ℕ) → n + suc k ≡ suc n + k
    next_up n k = omega arith

    next_place : (i k : ℕ) → i + 1 + k ≡ i + suc k
    next_place i k = omega arith

pub find_buffer-at :
    (h : Heap) (n k w : ℕ) (items : List Item) (beyond : List Ptr)
    → Buffered h n items
    → k < length items
    → length items ≤ 256
    → k < w
    → find_buffer h (pointers items ++ beyond) ((n + k) % 256) w ≡ some (some k)
unfolding find_buffer
find_buffer-at h n k w items beyond b l few room =
    find_from-at h n k 0 w items beyond b l few room ∙ ap (λ j. some (some j)) (zero_plus k)
  where
    zero_plus : (k : ℕ) → 0 + k ≡ k
    zero_plus k = omega arith

-- What stands at place `k`.
pub record Place (h : Heap) (n k : ℕ) (items : List Item) (beyond : List Ptr) : Type 0 where
  pub address : ℕ
  pub body : List ℕ
  pub packet : Pkt
  pub at : get_elem? (pointers items ++ beyond) k ≡ some (some address)
  pub live : h address ≡ some packet
  pub carries : Carries packet (n + k) body
  pub is_piece : get_elem? (payloads items) k ≡ some body
  pub elsewhere : (l : ℕ) → Apart l items → l ≢ address

pub standing :
    (h : Heap) (n k : ℕ) (items : List Item) (beyond : List Ptr)
    → Buffered h n items
    → k < length items
    → Place h n k items beyond
standing h n k [] beyond b l = absurd (omega arith)
standing h n zero ((a, body) ∷ items) beyond b l = record {
  address = a;
  body = body;
  packet = b.0.0;
  at = refl;
  live = b.0.1;
  carries = subst (λ j. Carries b.0.0 j body) (omega arith) b.0.2;
  is_piece = refl;
  elsewhere = λ l apart. apart.0;
}
standing h n (suc k) ((a, body) ∷ items) beyond b l =
    let r = standing h (suc n) k items beyond b.1 (omega arith) in
    record {
      address = r.address;
      body = r.body;
      packet = r.packet;
      at = r.at;
      live = r.live;
      carries = subst (λ j. Carries r.packet j r.body) (omega arith) r.carries;
      is_piece = r.is_piece;
      elsewhere = λ l apart. r.elsewhere l apart.1;
    }
