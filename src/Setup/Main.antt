-- ===== src/Setup/Main.antt =====
-- src/sender.c and src/receiver.c: the command lines, and the way to the loops.
use trtp_network.Prelude.{
  ℕ, List, [], ◌∷◌, ◌++◌, Bool, true, Option, none, some, ltb, not, if◌then◌else◌,
}
use trtp_network.Prelude.Int.{ℤ, pos, negsuc, to_word}
use trtp_network.Setup.{System, Call, create_socket, real_address, wait_for_client}

-- The results of `getopt`; a letter that the program does not know is `unknown_opt`.
pub data Opt : Type 0 where
  file_opt stats_opt : List ℕ → Opt
  fec_opt help_opt unknown_opt : Opt

pub record Config : Type 0 where
  pub filename : Option (List ℕ)
  pub stats_filename : Option (List ℕ)

abbrev pub no_options : Config
no_options = record { filename = none; stats_filename = none }

-- The loops over the options; `none` prints the usage and fails.
unfoldable pub sender_options : List Opt → Config → Option Config
sender_options [] c = some c
sender_options (file_opt name ∷ opts) c = sender_options opts (record c { filename = some name })
sender_options (stats_opt name ∷ opts) c =
    sender_options opts (record c { stats_filename = some name })
sender_options (fec_opt ∷ opts) c = sender_options opts c
sender_options (help_opt ∷ opts) c = none
sender_options (unknown_opt ∷ opts) c = none

unfoldable pub receiver_options : List Opt → Config → Option Config
receiver_options [] c = some c
receiver_options (stats_opt name ∷ opts) c =
    receiver_options opts (record c { stats_filename = some name })
receiver_options (_ ∷ opts) c = none

-- `access` and `strtol` in base 10: the value, and whether the whole text is a number.
pub record Library : Type 0 where
  pub exists : List ℕ → Bool
  pub strtol : List ℕ → ℤ × Bool

-- How `main` ends: it fails, or it starts the loop on the socket.
pub data Exit : Type 0 where
  failed : List Call → Exit
  started : ℕ → Config → List Call → Exit

-- The two positional arguments, the host and the port; any other number of them is an error.
unfoldable pub positional : Library → List (List ℕ) → Option (List ℕ × ℕ)
positional lib (host ∷ port ∷ []) =
    let n = lib.strtol port in if n.1 then some (host, to_word 16 n.0) else none
positional lib _ = none

-- `access` on the file that `-f` names.
abbrev pub has_input : Library → Config → Bool
has_input lib c = elim c.filename [ none ↦ true | some name ↦ lib.exists name ]

abbrev pub finish : Config → Option ℕ × List Call → Exit
finish c (none, calls) = failed calls
finish c (some fd, calls) = started fd c calls

-- `main` of the sender.
unfoldable pub sender_main : System → Library → List Opt → List (List ℕ) → Exit
unfolding sender_options positional real_address create_socket
sender_main sys lib opts args = elim (sender_options opts no_options) [
  | none ↦ failed []
  | some c ↦ if not (has_input lib c) then failed [] else elim (positional lib args) [
    | none ↦ failed []
    | some (host, port) ↦ elim (real_address sys host) [
      | none ↦ failed []
      | some a ↦ finish c (create_socket sys none (negsuc 0) (some a) (pos port))
    ]
  ]
]

-- After `create_socket` the receiver waits for its client, unless the descriptor is 0.
unfoldable pub attend : System → Config → Option ℕ × List Call → Exit
unfolding wait_for_client
attend sys c (none, calls) = failed calls
attend sys c (some fd, calls) =
    let w = wait_for_client sys fd in
    if ltb 0 fd
    then (if w.0 then started fd c (calls ++ w.1) else failed (calls ++ w.1))
    else started fd c calls

-- `main` of the receiver.
unfoldable pub receiver_main : System → Library → List Opt → List (List ℕ) → Exit
unfolding receiver_options positional real_address create_socket attend
receiver_main sys lib opts args = elim (receiver_options opts no_options) [
  | none ↦ failed []
  | some c ↦ elim (positional lib args) [
    | none ↦ failed []
    | some (host, port) ↦ elim (real_address sys host) [
      | none ↦ failed []
      | some a ↦ attend sys c (create_socket sys (some a) (pos port) none (negsuc 0))
    ]
  ]
]
