-- ===== src/Receiver/Reassembly/Due.antt =====
-- src/read_write_loop.c, `read_write_loop`: the packet that is due, by what came before it.
use mathlib.Core.Path.{subst}
use mathlib.Core.List.{append-nil}
use trtp_network.Prelude.{
  Option, ℕ, ◌+◌, ◌≤◌, ◌<◌, ◌≡◌, refl, ap, ◌∙◌, List, [], ◌∷◌, ◌++◌, none, some, arith, length,
}
use trtp_network.Packet.{Pkt}
use trtp_network.Codec.Encode.{HasPayload}
use trtp_network.Codec.RoundTrip.{IsSendable}
use trtp_network.Build.{Machine}
use trtp_network.Heap.{Ptr, Heap, update}
use trtp_network.Receiver.{Receiver}
use trtp_network.Receiver.Steps.{round, again}
use trtp_network.Receiver.Window.{Item, Held}
use trtp_network.Receiver.InOrder.{HasMemory, arrival}
use trtp_network.Receiver.Reassembly.Store.{Holds, At, At-freed, At-AllLive, ptr}
use trtp_network.Receiver.Reassembly.Early.{At-stays, At-came}
use trtp_network.Receiver.Reassembly.Complete.{heap_now, round_complete}

Held-cons :
    (h : Heap) (next k a : ℕ) (body : List ℕ) (items : List Item) (tail : List Ptr)
    → At h next k (some (a, body))
    → Held (update h a none) items tail
    → Held h ((a, body) ∷ items) tail
Held-cons h next k a body items tail at held = ((at.0, at.1, at.2), held)

module _ (m : Machine) (memory : HasMemory m) (r : Receiver) (n : ℕ) (beyond : List Ptr) (p : Pkt)
    (body : List ℕ) (now : ℕ) (ok : IsSendable p) (typed : p.type ≡ 1) (has : HasPayload p body)
    (full : 0 < length body) (fits : length body ≤ 496) (seq : p.seqnum ≡ n + 0)
    (early : p.seqnum < 255) where
  abbrev pub After : ℕ → Option Item → List ℕ → Type 0
  After n' x' out =
      (r' : Receiver) × (round m r (arrival m memory p body now) ≡ some (again, r'))
      × Holds r' n' x' none none beyond
      × (r'.stdout ≡ r.stdout ++ out)

  module _ (x y z : Option Item) (holds : Holds r n x y z beyond) where
    abbrev h0 : Heap
    h0 = heap_now m memory r n x y z beyond holds p body now ok typed has full fits seq early

    abbrev h1 : Heap
    h1 = update h0 r.next none

    arrived : At h0 (r.next + 1) (n + 0) (some (r.next, body))
    arrived =
        At-came m memory r n x y z beyond holds p body now 0 ok typed has full fits seq
          (omega arith) early

    behind_it : (k : ℕ) (i : Option Item) → n < k → At r.heap r.next k i → At h1 (r.next + 1) k i
    behind_it k i h at =
        At-freed h0 (r.next + 1) (n + 0) k r.next body i arrived (λ e. omega arith)
          (At-stays m memory r n x y z beyond holds p body now 0 ok typed has full fits seq
            (omega arith) early k i at)

  abbrev one : Item
  one = (r.next, body)

  -- Nothing stands in the entry behind it.
  pub due-alone : (y : Option Item) → Holds r n none y none beyond → After (n + 1) y body
  due-alone y holds =
      let kept = behind_it none y none holds (n + 2) y (omega arith) holds.second in
      let o =
        round_complete m memory r n none y none beyond holds p body now ok typed has full fits seq
          early (one ∷ []) (ptr y) none y (omega arith) refl refl (omega arith)
          (Held-cons (h0 none y none holds) (r.next + 1) (n + 0) r.next body []
            (none ∷ ptr y ∷ none ∷ []) (arrived none y none holds)
            (At-AllLive (h1 none y none holds) (r.next + 1) (n + 2) y (none ∷ []) kept tt))
          (subst (λ k. At (h1 none y none holds) (r.next + 1) k y) again_one kept) in
      (o.0, o.1, o.2, o.3 ∙ ap (λ b. r.stdout ++ b) (append-nil body))
    where
      again_one : n + 2 ≡ n + 1 + 1
      again_one = omega arith

  pub due-two :
      (a : ℕ) (b : List ℕ)
      → Holds r n (some (a, b)) none none beyond
      → After (n + 2) none (body ++ b)
  due-two a b holds =
      let x : Option Item = some (a, b) in
      let o =
        round_complete m memory r n x none none beyond holds p body now ok typed has full fits seq
          early (one ∷ (a, b) ∷ []) none none none (omega arith) refl refl (omega arith)
          (Held-cons (h0 x none none holds) (r.next + 1) (n + 0) r.next body ((a, b) ∷ [])
            (none ∷ none ∷ []) (arrived x none none holds)
            (Held-cons (h1 x none none holds) (r.next + 1) (n + 1) a b [] (none ∷ none ∷ [])
              (behind_it x none none holds (n + 1) x (omega arith) holds.first) tt))
          tt in
      (o.0, o.1, o.2, o.3 ∙ ap (λ l. r.stdout ++ (body ++ l)) (append-nil b))

  -- What stands in the entries behind it, when it and the packet in the next one are freed.
  abbrev h2 : (a : ℕ) (b : List ℕ) (y z : Option Item) → Holds r n (some (a, b)) y z beyond → Heap
  h2 a b y z holds = update (h1 (some (a, b)) y z holds) a none

  behind_both :
      (a : ℕ) (b : List ℕ) (y z : Option Item) (holds : Holds r n (some (a, b)) y z beyond) (k : ℕ)
      (i : Option Item)
      → n + 1 < k
      → At r.heap r.next k i
      → At (h2 a b y z holds) (r.next + 1) k i
  behind_both a b y z holds k i h at =
      At-freed (h1 (some (a, b)) y z holds) (r.next + 1) (n + 1) k a b i
        (behind_it (some (a, b)) y z holds (n + 1) (some (a, b)) (omega arith) holds.first)
        (λ e. omega arith) (behind_it (some (a, b)) y z holds k i (omega arith) at)

  pub due-three :
      (a : ℕ) (b : List ℕ) (a' : ℕ) (b' : List ℕ)
      → Holds r n (some (a, b)) (some (a', b')) none beyond
      → After (n + 3) none (body ++ (b ++ b'))
  due-three a b a' b' holds =
      let x : Option Item = some (a, b) in
      let y : Option Item = some (a', b') in
      let o =
        round_complete m memory r n x y none beyond holds p body now ok typed has full fits seq
          early (one ∷ (a, b) ∷ (a', b') ∷ []) none none none (omega arith) refl refl (omega arith)
          (Held-cons (h0 x y none holds) (r.next + 1) (n + 0) r.next body ((a, b) ∷ (a', b') ∷ [])
            (none ∷ []) (arrived x y none holds)
            (Held-cons (h1 x y none holds) (r.next + 1) (n + 1) a b ((a', b') ∷ []) (none ∷ [])
              (behind_it x y none holds (n + 1) x (omega arith) holds.first)
              (Held-cons (h2 a b y none holds) (r.next + 1) (n + 2) a' b' [] (none ∷ [])
                (behind_both a b y none holds (n + 2) y (omega arith) holds.second) tt)))
          tt in
      (o.0, o.1, o.2, o.3 ∙ ap (λ l. r.stdout ++ (body ++ (b ++ l))) (append-nil b'))

  pub due-four :
      (a : ℕ) (b : List ℕ) (a' : ℕ) (b' : List ℕ) (a'' : ℕ) (b'' : List ℕ)
      → Holds r n (some (a, b)) (some (a', b')) (some (a'', b'')) beyond
      → After (n + 4) none (body ++ (b ++ (b' ++ b'')))
  due-four a b a' b' a'' b'' holds =
      let x : Option Item = some (a, b) in
      let y : Option Item = some (a', b') in
      let z : Option Item = some (a'', b'') in
      let o =
        round_complete m memory r n x y z beyond holds p body now ok typed has full fits seq early
          (one ∷ (a, b) ∷ (a', b') ∷ (a'', b'') ∷ []) none none none (omega arith) refl refl
          (omega arith)
          (Held-cons (h0 x y z holds) (r.next + 1) (n + 0) r.next body
            ((a, b) ∷ (a', b') ∷ (a'', b'') ∷ []) [] (arrived x y z holds)
            (Held-cons (h1 x y z holds) (r.next + 1) (n + 1) a b ((a', b') ∷ (a'', b'') ∷ []) []
              (behind_it x y z holds (n + 1) x (omega arith) holds.first)
              (Held-cons (h2 a b y z holds) (r.next + 1) (n + 2) a' b' ((a'', b'') ∷ []) []
                (behind_both a b y z holds (n + 2) y (omega arith) holds.second)
                (Held-cons (update (h2 a b y z holds) a' none) (r.next + 1) (n + 3) a'' b'' [] []
                  (At-freed (h2 a b y z holds) (r.next + 1) (n + 2) (n + 3) a' b' z
                    (behind_both a b y z holds (n + 2) y (omega arith) holds.second)
                    (λ e. omega arith)
                    (behind_both a b y z holds (n + 3) z (omega arith) holds.third))
                  tt))))
          tt in
      (o.0, o.1, o.2, o.3 ∙ ap (λ l. r.stdout ++ (body ++ (b ++ (b' ++ l)))) (append-nil b''))
