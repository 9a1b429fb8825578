-- ===== src/Receiver/Reassembly/Round.antt =====
-- src/read_write_loop.c, `read_write_loop`: one round against the abstract window.
use mathlib.Core.Path.{subst}
use mathlib.Core.List.{append-nil}
use mathlib.Core.Option.{some-injective, none-ne-some}
use trtp_network.Prelude.{
  Bool, Option, ℕ, zero, suc, ◌+◌, ◌-◌, ◌≤◌, ◌<◌, ◌≡◌, refl, sym, ap, ◌∙◌, List, [], ◌++◌, none,
  some, arith, get_elem?, put, ltb, if◌then◌else◌, true, false,
}
use trtp_network.Build.{Machine}
use trtp_network.Heap.{Ptr}
use trtp_network.Receiver.{Receiver}
use trtp_network.Receiver.Steps.{round, again}
use trtp_network.Receiver.Window.{Item}
use trtp_network.Receiver.InOrder.{HasMemory, arrival}
use trtp_network.Receiver.Transfer.{Arrival, IsDue}
use trtp_network.Receiver.Reassembly.{Window, window, slide, arrive, accept}
use trtp_network.Receiver.Reassembly.Store.{Holds, payload_of}
use trtp_network.Receiver.Reassembly.Early.{At-stays, At-came, came, round-early}
use trtp_network.Receiver.Reassembly.Known.{round-known}
use trtp_network.Receiver.Reassembly.Due.{due-alone, due-two, due-three, due-four}

-- The receiver's window holds the payloads of the abstract one, at some addresses.
pub record InWindow (r : Receiver) (w : Window) (beyond : List Ptr) : Type 0 where
  pub x : Option Item
  pub y : Option Item
  pub z : Option Item
  pub holds : Holds r w.due x y z beyond
  pub first : payload_of x ≡ w.first
  pub second : payload_of y ≡ w.second
  pub third : payload_of z ≡ w.third

-- A data packet with a payload of 1 to 496 bytes. From number 255 on the next number is 0 again, for
-- which the code resets the base of its window.
abbrev pub IsData : Arrival → Type 0
IsData a = IsDue a.pkt.seqnum a × (a.pkt.seqnum < 255)

accept-arrive :
    (w : Window) (i : ℕ) (b : List ℕ) (o : Window × List ℕ)
    → accept w i b ≡ some o
    → (w.due ≤ i) × (arrive (i - w.due) w.due b w.first w.second w.third ≡ some o)
unfolding accept
accept-arrive w i b o e = split (ltb i w.due) refl e
  where
    split :
        (t : Bool)
        → ltb i w.due ≡ t
        → (if t then none else arrive (i - w.due) w.due b w.first w.second w.third) ≡ some o
        → (w.due ≤ i) × (arrive (i - w.due) w.due b w.first w.second w.third ≡ some o)
    split true h e = absurd (none-ne-some o e)
    split false h e = (ground arith, e)

module _ (m : Machine) (memory : HasMemory m) (beyond : List Ptr) (a : Arrival)
    (good : IsData a) where
  -- The round goes on with the window, and has written the bytes.
  abbrev pub Leads : Receiver → Window × List ℕ → Type 0
  Leads r o =
      (r' : Receiver) × (round m r (arrival m memory a.pkt a.body a.now) ≡ some (again, r'))
      × InWindow r' o.0 beyond
      × (r'.stdout ≡ r.stdout ++ o.1)

  leads :
      (r r' : Receiver) (n : ℕ) (x y z : Option Item) (out : List ℕ)
      → round m r (arrival m memory a.pkt a.body a.now) ≡ some (again, r')
      → Holds r' n x y z beyond
      → r'.stdout ≡ r.stdout ++ out
      → Leads r (window n (payload_of x) (payload_of y) (payload_of z), out)
  leads r r' n x y z out runs holds written = (
    r',
    runs,
    record { x = x; y = y; z = z; holds = holds; first = refl; second = refl; third = refl },
    written,
  )

  due :
      (r : Receiver) (n : ℕ) (x y z : Option Item) (o : Window × List ℕ)
      → a.pkt.seqnum ≡ n + 0
      → Holds r n x y z beyond
      → slide n a.body (payload_of x) (payload_of y) (payload_of z) ≡ some o
      → Leads r o
  unfolding slide
  due r n none y none o seq holds e =
      let d =
        due-alone m memory r n beyond a.pkt a.body a.now good.0.sendable good.0.typed good.0.holds
          good.0.full good.0.fits seq good.1 y holds in
      subst (Leads r) (some-injective (window (n + 1) (payload_of y) none none, a.body) o e)
        (leads r d.0 (n + 1) y none none (a.body) d.1 d.2 d.3)
  due r n none y (some z) o seq holds e = absurd (none-ne-some o e)
  due r n (some (c, b)) none none o seq holds e =
      let d =
        due-two m memory r n beyond a.pkt a.body a.now good.0.sendable good.0.typed good.0.holds
          good.0.full good.0.fits seq good.1 c b holds in
      subst (Leads r) (some-injective (window (n + 2) none none none, a.body ++ b) o e)
        (leads r d.0 (n + 2) none none none (a.body ++ b) d.1 d.2 d.3)
  due r n (some x) none (some z) o seq holds e = absurd (none-ne-some o e)
  due r n (some (c, b)) (some (c', b')) none o seq holds e =
      let d =
        due-three m memory r n beyond a.pkt a.body a.now good.0.sendable good.0.typed good.0.holds
          good.0.full good.0.fits seq good.1 c b c' b' holds in
      subst (Leads r) (some-injective (window (n + 3) none none none, a.body ++ (b ++ b')) o e)
        (leads r d.0 (n + 3) none none none (a.body ++ (b ++ b')) d.1 d.2 d.3)
  due r n (some (c, b)) (some (c', b')) (some (c'', b'')) o seq holds e =
      let d =
        due-four m memory r n beyond a.pkt a.body a.now good.0.sendable good.0.typed good.0.holds
          good.0.full good.0.fits seq good.1 c b c' b' c'' b'' holds in
      subst (Leads r)
        (some-injective (window (n + 4) none none none, a.body ++ (b ++ (b' ++ b''))) o e)
        (leads r d.0 (n + 4) none none none (a.body ++ (b ++ (b' ++ b''))) d.1 d.2 d.3)

  -- Packet number `n + j` comes while `n` is due.
  arrives :
      (j : ℕ) (r : Receiver) (n : ℕ) (x y z : Option Item) (o : Window × List ℕ)
      → a.pkt.seqnum ≡ n + j
      → Holds r n x y z beyond
      → arrive j n a.body (payload_of x) (payload_of y) (payload_of z) ≡ some o
      → Leads r o
  unfolding arrive put
  arrives zero r n x y z o seq holds e = due r n x y z o seq holds e
  arrives (suc zero) r n none y z o seq holds e =
      let c =
        came m memory r n none y z beyond holds a.pkt a.body a.now 1 good.0.sendable good.0.typed
          good.0.holds good.0.full good.0.fits seq (omega arith) good.1 in
      let d =
        round-early m memory r n none y z beyond holds a.pkt a.body a.now 1 good.0.sendable
          good.0.typed good.0.holds good.0.full good.0.fits seq (omega arith) good.1 c y z
          (ap (λ l. get_elem? l 1) holds.slots) (ap (λ l. put l 1 (some r.next)) holds.slots)
          (omega arith)
          (At-came m memory r n none y z beyond holds a.pkt a.body a.now 1 good.0.sendable
            good.0.typed good.0.holds good.0.full good.0.fits seq (omega arith) good.1)
          (At-stays m memory r n none y z beyond holds a.pkt a.body a.now 1 good.0.sendable
            good.0.typed good.0.holds good.0.full good.0.fits seq (omega arith) good.1 (n + 2) y
            holds.second)
          (At-stays m memory r n none y z beyond holds a.pkt a.body a.now 1 good.0.sendable
            good.0.typed good.0.holds good.0.full good.0.fits seq (omega arith) good.1 (n + 3) z
            holds.third) in
      subst (Leads r)
        (some-injective (window n (some a.body) (payload_of y) (payload_of z), []) o e)
        (leads r d.0 n c y z [] d.1 d.2 (d.3 ∙ sym (append-nil r.stdout)))
  arrives (suc zero) r n (some (c, b)) y z o seq holds e =
      let d =
        round-known m memory r n (some (c, b)) y z beyond holds a.pkt a.body a.now 1 good.0.sendable
          good.0.typed good.0.holds good.0.full good.0.fits seq (omega arith) good.1 c
          (ap (λ l. get_elem? l 1) holds.slots) in
      subst (Leads r) (some-injective (window n (some b) (payload_of y) (payload_of z), []) o e)
        (leads r d.0 n (some (c, b)) y z [] d.1 d.2 (d.3 ∙ sym (append-nil r.stdout)))
  arrives (suc (suc zero)) r n x none z o seq holds e =
      let c =
        came m memory r n x none z beyond holds a.pkt a.body a.now 2 good.0.sendable good.0.typed
          good.0.holds good.0.full good.0.fits seq (omega arith) good.1 in
      let d =
        round-early m memory r n x none z beyond holds a.pkt a.body a.now 2 good.0.sendable
          good.0.typed good.0.holds good.0.full good.0.fits seq (omega arith) good.1 x c z
          (ap (λ l. get_elem? l 2) holds.slots) (ap (λ l. put l 2 (some r.next)) holds.slots)
          (omega arith)
          (At-stays m memory r n x none z beyond holds a.pkt a.body a.now 2 good.0.sendable
            good.0.typed good.0.holds good.0.full good.0.fits seq (omega arith) good.1 (n + 1) x
            holds.first)
          (At-came m memory r n x none z beyond holds a.pkt a.body a.now 2 good.0.sendable
            good.0.typed good.0.holds good.0.full good.0.fits seq (omega arith) good.1)
          (At-stays m memory r n x none z beyond holds a.pkt a.body a.now 2 good.0.sendable
            good.0.typed good.0.holds good.0.full good.0.fits seq (omega arith) good.1 (n + 3) z
            holds.third) in
      subst (Leads r)
        (some-injective (window n (payload_of x) (some a.body) (payload_of z), []) o e)
        (leads r d.0 n x c z [] d.1 d.2 (d.3 ∙ sym (append-nil r.stdout)))
  arrives (suc (suc zero)) r n x (some (c, b)) z o seq holds e =
      let d =
        round-known m memory r n x (some (c, b)) z beyond holds a.pkt a.body a.now 2 good.0.sendable
          good.0.typed good.0.holds good.0.full good.0.fits seq (omega arith) good.1 c
          (ap (λ l. get_elem? l 2) holds.slots) in
      subst (Leads r) (some-injective (window n (payload_of x) (some b) (payload_of z), []) o e)
        (leads r d.0 n x (some (c, b)) z [] d.1 d.2 (d.3 ∙ sym (append-nil r.stdout)))
  arrives (suc (suc (suc zero))) r n x y none o seq holds e =
      let c =
        came m memory r n x y none beyond holds a.pkt a.body a.now 3 good.0.sendable good.0.typed
          good.0.holds good.0.full good.0.fits seq (omega arith) good.1 in
      let d =
        round-early m memory r n x y none beyond holds a.pkt a.body a.now 3 good.0.sendable
          good.0.typed good.0.holds good.0.full good.0.fits seq (omega arith) good.1 x y c
          (ap (λ l. get_elem? l 3) holds.slots) (ap (λ l. put l 3 (some r.next)) holds.slots)
          (omega arith)
          (At-stays m memory r n x y none beyond holds a.pkt a.body a.now 3 good.0.sendable
            good.0.typed good.0.holds good.0.full good.0.fits seq (omega arith) good.1 (n + 1) x
            holds.first)
          (At-stays m memory r n x y none beyond holds a.pkt a.body a.now 3 good.0.sendable
            good.0.typed good.0.holds good.0.full good.0.fits seq (omega arith) good.1 (n + 2) y
            holds.second)
          (At-came m memory r n x y none beyond holds a.pkt a.body a.now 3 good.0.sendable
            good.0.typed good.0.holds good.0.full good.0.fits seq (omega arith) good.1) in
      subst (Leads r)
        (some-injective (window n (payload_of x) (payload_of y) (some a.body), []) o e)
        (leads r d.0 n x y c [] d.1 d.2 (d.3 ∙ sym (append-nil r.stdout)))
  arrives (suc (suc (suc zero))) r n x y (some (c, b)) o seq holds e =
      let d =
        round-known m memory r n x y (some (c, b)) beyond holds a.pkt a.body a.now 3 good.0.sendable
          good.0.typed good.0.holds good.0.full good.0.fits seq (omega arith) good.1 c
          (ap (λ l. get_elem? l 3) holds.slots) in
      subst (Leads r) (some-injective (window n (payload_of x) (payload_of y) (some b), []) o e)
        (leads r d.0 n x y (some (c, b)) [] d.1 d.2 (d.3 ∙ sym (append-nil r.stdout)))
  arrives (suc (suc (suc (suc j)))) r n x y z o seq holds e = absurd (none-ne-some o e)

  -- A packet that the abstract window takes: the round goes on with the next window, and writes what
  -- that window puts out.
  pub round-accepts :
      (r : Receiver) (w : Window) (o : Window × List ℕ)
      → InWindow r w beyond
      → accept w a.pkt.seqnum a.body ≡ some o
      → Leads r o
  round-accepts r w o at e =
      let taken = accept-arrive w a.pkt.seqnum a.body o e in
      arrives (a.pkt.seqnum - w.due) r w.due at.x at.y at.z o (omega (arith, taken.0)) at.holds
        (same (a.pkt.seqnum - w.due) ∙ taken.1)
    where
      same :
          (j : ℕ)
          → arrive j w.due a.body (payload_of at.x) (payload_of at.y) (payload_of at.z)
            ≡ arrive j w.due a.body w.first w.second w.third
      same j = rw (at.first, at.second, at.third)
