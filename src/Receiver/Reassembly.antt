-- ===== src/Receiver/Reassembly.antt =====
-- What the reception window of src/read_write_loop.c promises when packets overtake each other: an
-- abstract window of payloads, which the modules below relate to `read_write_loop`.
pub mod Idle
pub mod Store
pub mod Answered
pub mod Placed
pub mod Early
pub mod Known
pub mod Dropped
pub mod Rejected
pub mod Damaged
pub mod Complete
pub mod Due
pub mod Round
pub mod Refines
pub mod Shuffle
pub mod Reordered
use trtp_network.Prelude.{
  ℕ, zero, suc, ◌+◌, ◌-◌, List, [], ◌∷◌, ◌++◌, Option, none, some, ltb, if◌then◌else◌, ◌>>=◌,
}

-- A window without addresses: the number that is due, and the payloads of the three numbers behind
-- it, as far as they came early.
pub record Window : Type 0 where
  pub due : ℕ
  pub first : Option (List ℕ)
  pub second : Option (List ℕ)
  pub third : Option (List ℕ)

abbrev pub window : ℕ → Option (List ℕ) → Option (List ℕ) → Option (List ℕ) → Window
window n x y z = record { due = n; first = x; second = y; third = z }

-- The packet that is due came: the payloads up to the first gap leave the window. With a gap before
-- a third packet the window of the code has entries left that it duplicates, and nothing is promised.
unfoldable pub slide :
    ℕ → List ℕ → Option (List ℕ) → Option (List ℕ) → Option (List ℕ) → Option (Window × List ℕ)
slide n b none y none = some (window (n + 1) y none none, b)
slide n b none y (some z) = none
slide n b (some x) none none = some (window (n + 2) none none none, b ++ x)
slide n b (some x) none (some z) = none
slide n b (some x) (some y) none = some (window (n + 3) none none none, b ++ (x ++ y))
slide n b (some x) (some y) (some z) = some (window (n + 4) none none none, b ++ (x ++ (y ++ z)))

-- Packet number `n + j` came, with its payload `b`: one that is in the window already changes nothing.
unfoldable pub arrive :
    ℕ → ℕ → List ℕ → Option (List ℕ) → Option (List ℕ) → Option (List ℕ) → Option (Window × List ℕ)
unfolding slide
arrive zero n b x y z = slide n b x y z
arrive (suc zero) n b none y z = some (window n (some b) y z, [])
arrive (suc zero) n b (some x) y z = some (window n (some x) y z, [])
arrive (suc (suc zero)) n b x none z = some (window n x (some b) z, [])
arrive (suc (suc zero)) n b x (some y) z = some (window n x (some y) z, [])
arrive (suc (suc (suc zero))) n b x y none = some (window n x y (some b), [])
arrive (suc (suc (suc zero))) n b x y (some z) = some (window n x y (some z), [])
arrive (suc (suc (suc (suc j)))) n b x y z = none

-- The window takes packet number `i`, and puts out what is then complete. `none`: an old packet, or
-- one too far ahead.
unfoldable pub accept : Window → ℕ → List ℕ → Option (Window × List ℕ)
unfolding arrive
accept w i b = if ltb i w.due then none else arrive (i - w.due) w.due b w.first w.second w.third

-- The window takes numbered payloads, one after the other.
unfoldable pub reassemble : Window → List (ℕ × List ℕ) → Option (Window × List ℕ)
unfolding accept
reassemble w [] = some (w, [])
reassemble w ((i, b) ∷ l) = do
  a ← accept w i b
  rest ← reassemble a.0 l
  some (rest.0, a.1 ++ rest.1)
