-- ===== src/Receiver/Reassembly/Refines.antt =====
-- src/read_write_loop.c, `read_write_loop`: the loop against the abstract window.
use mathlib.Core.Path.{subst}
use mathlib.Core.List.{append-nil, append_assoc}
use mathlib.Core.Option.{some-injective, none-ne-some}
use trtp_network.Prelude.{
  Option, ℕ, ◌≡◌, refl, sym, ap, ◌∙◌, List, [], ◌∷◌, ◌++◌, none, some, ◌>>=◌,
}
use trtp_network.Build.{Machine}
use trtp_network.Heap.{Ptr}
use trtp_network.Receiver.{Receiver}
use trtp_network.Receiver.Steps.{Round, round, again, read_write_loop}
use trtp_network.Receiver.InOrder.{HasMemory, arrival}
use trtp_network.Receiver.Transfer.{Arrival, loop-again}
use trtp_network.Receiver.Reassembly.Store.{Holds}
use trtp_network.Receiver.Reassembly.Rejected.{IsRejected, noise, pause, round-noise, round-pause}
use trtp_network.Receiver.Reassembly.{Window, accept, reassemble}
use trtp_network.Receiver.Reassembly.Round.{InWindow, IsData, round-accepts}

-- What a round brings: a data packet, a datagram that the decoder refuses, or nothing.
pub data Event : Type 0 where
  came : Arrival → Event
  noisy : List ℕ → ℕ → Event
  silent : ℕ → Event

-- The data packets among the events.
abbrev pub packets : List Event → List Arrival
packets [] = []
packets (came a ∷ l) = a ∷ packets l
packets (noisy bytes now ∷ l) = packets l
packets (silent now ∷ l) = packets l

abbrev pub AreGood : Machine → List Event → Type 0
AreGood m [] = Unit
AreGood m (came a ∷ l) = IsData a × AreGood m l
AreGood m (noisy bytes now ∷ l) = IsRejected m bytes × AreGood m l
AreGood m (silent now ∷ l) = AreGood m l

-- The numbers and the payloads of the packets.
abbrev pub numbered : List Arrival → List (ℕ × List ℕ)
numbered [] = []
numbered (a ∷ l) = (a.pkt.seqnum, a.body) ∷ numbered l

module _ (w : Window) (i : ℕ) (b : List ℕ) (l : List (ℕ × List ℕ)) (o : Window × List ℕ) where
  abbrev Taken : Type 0
  Taken =
      (a : Window × List ℕ) × (rest : Window × List ℕ) × (accept w i b ≡ some a)
      × (reassemble a.0 l ≡ some rest)
      × ((rest.0, a.1 ++ rest.1) ≡ o)

  abbrev then_rest : Window × List ℕ → Option (Window × List ℕ)
  then_rest a = do rest ← reassemble a.0 l; some (rest.0, a.1 ++ rest.1)

  reassemble-taken : reassemble w ((i, b) ∷ l) ≡ some o → Taken
  unfolding reassemble
  reassemble-taken e = first (accept w i b) refl e
    where
      second :
          (a : Window × List ℕ) (r : Option (Window × List ℕ))
          → accept w i b ≡ some a
          → reassemble a.0 l ≡ r
          → (r >>= λ rest. some (rest.0, a.1 ++ rest.1)) ≡ some o
          → Taken
      second a none taken h e = absurd (none-ne-some o e)
      second a (some rest) taken h e =
          (a, rest, taken, h, some-injective (rest.0, a.1 ++ rest.1) o e)

      first : (t : Option (Window × List ℕ)) → accept w i b ≡ t → (t >>= then_rest) ≡ some o → Taken
      first none h e = absurd (none-ne-some o e)
      first (some a) h e = second a (reassemble a.0 l) h refl e

module _ (m : Machine) (memory : HasMemory m) where
  abbrev pub event_rounds : List Event → List Round
  event_rounds [] = []
  event_rounds (came a ∷ l) = arrival m memory a.pkt a.body a.now ∷ event_rounds l
  event_rounds (noisy bytes now ∷ l) = noise m memory bytes now ∷ event_rounds l
  event_rounds (silent now ∷ l) = pause m memory now ∷ event_rounds l

  module _ (beyond : List Ptr) where
    -- The loop over the rounds goes on with the window, and has written the bytes.
    abbrev pub Refines : Receiver → List Event → List Round → Window × List ℕ → Type 0
    Refines r l rest o =
        (r' : Receiver) × (read_write_loop m r (event_rounds l ++ rest) ≡ read_write_loop m r' rest)
        × InWindow r' o.0 beyond
        × (r'.stdout ≡ r.stdout ++ o.1)

    -- A round that changes nothing of the window.
    unchanged :
        (l : List Event) (rest : List Round) (r r1 : Receiver) (t : Round) (w : Window)
        (o : Window × List ℕ) (at : InWindow r w beyond)
        → round m r t ≡ some (again, r1)
        → Holds r1 w.due at.x at.y at.z beyond
        → r1.stdout ≡ r.stdout
        → (InWindow r1 w beyond → Refines r1 l rest o)
        → (r' : Receiver) × (read_write_loop m r (t ∷ (event_rounds l ++ rest))
            ≡ read_write_loop m r' rest)
          × InWindow r' o.0 beyond
          × (r'.stdout ≡ r.stdout ++ o.1)
    unchanged l rest r r1 t w o at runs holds same more =
        let m' = more (record {
          x = at.x;
          y = at.y;
          z = at.z;
          holds = holds;
          first = at.first;
          second = at.second;
          third = at.third;
        }) in
        (
          m'.0,
          loop-again m memory r r1 t (event_rounds l ++ rest) runs ∙ m'.1,
          m'.2,
          m'.3 ∙ ap (λ s. s ++ o.1) same,
        )

    -- The receiver refines the abstract window. Data packets numbered below 255, with payloads of 1
    -- to 496 bytes, arrive in an order that the abstract window takes, and between them datagrams that
    -- the decoder refuses, and rounds without any: the loop runs on after them, its window holds what the
    -- abstract one holds, and it has written exactly what that one put out.
    pub read_write_loop-reassembles :
        (l : List Event) (rest : List Round) (r : Receiver) (w : Window) (o : Window × List ℕ)
        → InWindow r w beyond
        → AreGood m l
        → reassemble w (numbered (packets l)) ≡ some o
        → Refines r l rest o
    unfolding reassemble
    read_write_loop-reassembles [] rest r w o at good e =
        let same = some-injective (w, []) o e in
        (
          r,
          refl,
          subst (λ v. InWindow r v beyond) (ap (λ t. t.0) same) at,
          sym (append-nil r.stdout) ∙ ap (λ t. r.stdout ++ t.1) same,
        )
    read_write_loop-reassembles (came a ∷ l) rest r w o at good e =
        let t = reassemble-taken w a.pkt.seqnum a.body (numbered (packets l)) o e in
        let one = round-accepts m memory beyond a good.0 r w t.0 at t.2 in
        let more = read_write_loop-reassembles l rest one.0 t.0.0 t.1 one.2 good.1 t.3 in
        (
          more.0,
          loop-again m memory r one.0 (arrival m memory a.pkt a.body a.now) (event_rounds l ++ rest)
                one.1
              ∙ more.1,
          subst (λ v. InWindow more.0 v beyond) (ap (λ s. s.0) t.4) more.2,
          more.3
              ∙ ap (λ s. s ++ t.1.1) one.3
              ∙ append_assoc r.stdout t.0.1 t.1.1
              ∙ ap (λ s. r.stdout ++ s.1) t.4,
        )
    read_write_loop-reassembles (noisy bytes now ∷ l) rest r w o at good e =
        let one = round-noise m memory r w.due at.x at.y at.z beyond at.holds bytes now good.0 in
        unchanged l rest r one.0 (noise m memory bytes now) w o at one.1 one.2 one.3
          (λ still. read_write_loop-reassembles l rest one.0 w o still good.1 e)
    read_write_loop-reassembles (silent now ∷ l) rest r w o at good e =
        let one = round-pause m memory r w.due at.x at.y at.z beyond at.holds now in
        unchanged l rest r one.0 (pause m memory now) w o at one.1 one.2 one.3
          (λ still. read_write_loop-reassembles l rest one.0 w o still good e)
