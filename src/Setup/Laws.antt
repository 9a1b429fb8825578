-- ===== src/Setup/Laws.antt =====
-- src/sender.c, src/receiver.c: the two `main` functions up to their loops.
use trtp_network.Prelude.{ℕ, ◌≡◌, ◌⊎◌, List, Bool, true, false, Option, none, some}
use trtp_network.Setup.{System, Address}
use trtp_network.Setup.Main.{Config, Library, Exit, failed, started, positional}

-- The options and the two arguments are in order, the files are there, the host is found, and `P`
-- holds of the rest.
abbrev pub Reached :
    System
    → Library
    → List (List ℕ)
    → Option Config
    → (Config → Bool)
    → (Config → Address → ℕ → Exit → Type 0)
    → Exit
    → Type 0
Reached sys lib args parsed files P x =
    (options : Config) × (host : List ℕ) × (port : ℕ) × (a : Address) × (parsed ≡ some options)
    × (files options ≡ true)
    × (positional lib args ≡ some (host, port))
    × (sys.getaddrinfo host ≡ some a)
    × P options a port x

-- A program that starts has come as far as that. One that fails has done so too, or its options, its
-- files, its arguments or the host were not in order.
abbrev pub Resolved :
    System
    → Library
    → List (List ℕ)
    → Option Config
    → (Config → Bool)
    → (Config → Address → ℕ → Exit → Type 0)
    → Exit
    → Type 0
Resolved sys lib args parsed files P (failed calls) =
    (parsed ≡ none)
    ⊎ (((options : Config) × (parsed ≡ some options) × (files options ≡ false))
        ⊎ ((positional lib args ≡ none)
            ⊎ (((host : List ℕ) × (port : ℕ) × (positional lib args ≡ some (host, port))
                  × (sys.getaddrinfo host ≡ none))
                ⊎ Reached sys lib args parsed files P (failed calls))))
Resolved sys lib args parsed files P (started fd c calls) =
    Reached sys lib args parsed files P (started fd c calls)
