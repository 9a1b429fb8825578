-- ===== src/Receiver/Faults.antt =====
-- src/read_write_loop.c: where the reception window leaves its array or uses a freed packet.
use mathlib.Core.List.{append_assoc}
use trtp_network.Prelude.{
  ==_self, ℕ, suc, ◌+◌, ◌%◌, ◌<◌, ◌≡◌, sym, ap, ◌∙◌, List, [], ◌∷◌, ◌++◌, false, none, some, arith,
  length, ◌==◌, Option-cases, ◌⊎◌, inl, inr, length-append,
}
use trtp_network.Prelude.Int.{pos, sub_ℕ, rem, ◌+ℤ◌}
use trtp_network.Packet.{Pkt, pkt_del}
use trtp_network.Heap.{Ptr, update, deref, free_pkt, first_empty_place}
use trtp_network.Receiver.{
  Receiver, fwrite_bytes, deliver, deliver_one, clear_and_fill_buffer_r, real_window,
}
use trtp_network.Receiver.Steps.{place, index}
use trtp_network.Receiver.Window.{get_elem?-behind, put-behind}

negative_index : (b n : ℕ) → 0 < n → n < b → b < 4 → index (rem (sub_ℕ n b) real_window) ≡ none
unfolding rem
negative_index b n h l few = ground arith

-- A packet whose number is below the base of the window, but not 0: its entry has a negative index,
-- since `%` keeps the sign, and the access leaves the array.
pub place-negative :
    (r : Receiver) (a : ℕ) (p : Pkt)
    → 0 < p.seqnum
    → p.seqnum < r.base_r
    → r.base_r < 4
    → place r a p ≡ none
unfolding place
place-negative r a p h l few =
    rw (not_zero p.seqnum h) (rw (negative_index r.base_r p.seqnum h l few))
  where
    not_zero : (n : ℕ) → 0 < n → (n == 0) ≡ false
    not_zero n h = ground arith

-- The receiver after the packet `a`, with the payload `bytes`, was taken out of the window.
abbrev taken : Receiver → List Ptr → List Ptr → ℕ → List ℕ → Receiver
taken r pre rest a bytes = record r {
  slots = pre ++ (none ∷ rest);
  heap = update r.heap a none;
  free_place = r.free_place +ℤ pos 1;
  stdout = r.stdout ++ bytes;
}

deliver_one-cases :
    (r : Receiver) (pre rest : List Ptr) (a : ℕ)
    → r.slots ≡ pre ++ (some a ∷ rest)
    → (deliver_one r (length pre) ≡ none)
      ⊎ ((bytes : List ℕ) × (deliver_one r (length pre) ≡ some (taken r pre rest a bytes)))
unfolding deliver_one deref free_pkt
deliver_one-cases r pre rest a at = elim (Option-cases (r.heap a)) [
  | inl gone ↦ inl (rw (at, get_elem?-behind pre (some a) rest, gone))
  | inr (p, live) ↦ elim (Option-cases (fwrite_bytes p)) [
    | inl unread ↦ inl (rw (at, get_elem?-behind pre (some a) rest, live, unread))
    | inr (bytes, read) ↦ elim (Option-cases (pkt_del p)) [
      | inl wild ↦ inl (rw (at, get_elem?-behind pre (some a) rest, live, read, wild))
      | inr (u, freed) ↦ inr (
        bytes,
        (rw (
          at,
          get_elem?-behind pre (some a) rest,
          live,
          read,
          freed,
          put-behind pre (some a) none rest,
        )),
      )
    ]
  ]
]

deliver_one-gone :
    (r : Receiver) (pre rest : List Ptr) (a : ℕ)
    → r.slots ≡ pre ++ (some a ∷ rest)
    → r.heap a ≡ none
    → deliver_one r (length pre) ≡ none
unfolding deliver_one deref
deliver_one-gone r pre rest a at gone = rw (at, get_elem?-behind pre (some a) rest, gone)

length-next : (pre : List Ptr) → length pre + 1 ≡ length (pre ++ (none ∷ []))
length-next pre = omega (arith, length-append pre (none ∷ []))

-- The packets `pre`, then one packet twice.
abbrev pub doubled : List ℕ → ℕ → List Ptr → List Ptr
doubled [] d rest = some d ∷ some d ∷ rest
doubled (a ∷ pre) d rest = some a ∷ doubled pre d rest

-- The number of entries up to the second one of these, and `k` more.
abbrev past : List ℕ → ℕ → ℕ
past [] k = suc (suc k)
past (a ∷ pre) k = suc (past pre k)

deliver-doubled :
    (pre : List ℕ) (done rest : List Ptr) (d k : ℕ) (r : Receiver)
    → r.slots ≡ done ++ doubled pre d rest
    → deliver (past pre k) (length done) r ≡ none
unfolding deliver
deliver-doubled [] done rest d k r at = elim (deliver_one-cases r done (some d ∷ rest) d at) [
  | inl fault ↦ rw fault
  | inr (bytes, ok) ↦
      rw (ok, length-next done)
        (rw (
          deliver_one-gone (taken r done (some d ∷ rest) d bytes) (done ++ (none ∷ [])) rest d
            (sym (append_assoc done (none ∷ []) (some d ∷ rest))) (rw (==_self d))))
]
deliver-doubled (a ∷ pre) done rest d k r at =
    elim (deliver_one-cases r done (doubled pre d rest) a at) [
      | inl fault ↦ rw fault
      | inr (bytes, ok) ↦
          rw (ok, length-next done)
            (deliver-doubled pre (done ++ (none ∷ [])) rest d k
              (taken r done (doubled pre d rest) a bytes)
              (sym (append_assoc done (none ∷ []) (doubled pre d rest))))
    ]

first_empty_place-doubled :
    (pre : List ℕ) (d : ℕ) (rest : List Ptr)
    → (first_empty_place (doubled pre d rest) ≡ none)
      ⊎ ((k : ℕ) × (first_empty_place (doubled pre d rest) ≡ some (past pre k)))
unfolding first_empty_place
first_empty_place-doubled [] d rest = elim (Option-cases (first_empty_place rest)) [
  | inl e ↦ inl (rw e)
  | inr (k, e) ↦ inr (k, rw e)
]
first_empty_place-doubled (a ∷ pre) d rest = elim (first_empty_place-doubled pre d rest) [
  | inl e ↦ inl (rw e)
  | inr (k, e) ↦ inr (k, rw e)
]

-- A window in which one packet stands in two entries that follow each other, behind other packets
-- or none: `clear_and_fill_buffer_r` uses the packet after it has freed it.
pub clear_and_fill_buffer_r-doubled :
    (r : Receiver) (pre : List ℕ) (d : ℕ) (rest : List Ptr)
    → r.slots ≡ doubled pre d rest
    → clear_and_fill_buffer_r r ≡ none
unfolding clear_and_fill_buffer_r
clear_and_fill_buffer_r-doubled r pre d rest at = elim (first_empty_place-doubled pre d rest) [
  | inl e ↦ rw (ap first_empty_place at ∙ e)
  | inr (k, e) ↦ rw (
    ap first_empty_place at ∙ e,
    deliver-doubled pre [] rest d k (record r { base_r = (r.base_r + past pre k) % real_window })
        at,
  )
]
