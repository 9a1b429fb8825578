-- ===== src/Chat.antt =====
-- SendAndReceiveData/chat.c and the files that it includes: a chat over UDP, up to its loop.
use trtp_network.Prelude.{
  ℕ, ◌+◌, List, [], ◌∷◌, ◌++◌, Bool, true, false, Option, none, some, ltb, ◌||◌, length, take, drop,
  if◌then◌else◌, ◌>>=◌,
}
use trtp_network.Prelude.Int.{ℤ, pos, negsuc}
use trtp_network.Setup.{
  System, Address, Call, bind_call, connect_call, connect_bytes_call, with_port,
}
pub mod Loop
pub mod Laws
pub mod Peers

-- The results of `getopt`.
pub data ChatOpt : Type 0 where
  server_opt client_opt usage_opt : ChatOpt
  port_opt chat_host_opt : List ℕ → ChatOpt

pub record ChatConfig : Type 0 where
  pub client : Bool
  pub port : ℤ
  pub host : List ℕ

-- A server on "::1", port 12345.
abbrev pub chat_defaults : ChatConfig
chat_defaults = record { client = false; port = pos 12345; host = 58 ∷ 58 ∷ 49 ∷ [] }

-- The loop over the options, with C's `atoi`. An unknown option prints the usage, and the loop goes on.
unfoldable pub chat_options : (List ℕ → ℤ) → List ChatOpt → ChatConfig → ChatConfig
chat_options atoi [] c = c
chat_options atoi (server_opt ∷ opts) c = chat_options atoi opts (record c { client = false })
chat_options atoi (client_opt ∷ opts) c = chat_options atoi opts (record c { client = true })
chat_options atoi (port_opt text ∷ opts) c = chat_options atoi opts (record c { port = atoi text })
chat_options atoi (chat_host_opt name ∷ opts) c = chat_options atoi opts (record c { host = name })
chat_options atoi (usage_opt ∷ opts) c = chat_options atoi opts c

-- One of the two steps of `create_socket`; `false` is `exit`.
unfoldable pub attach_or_exit :
    (ℕ → Address → Bool) → (ℕ → Address → Call) → ℕ → Option Address → ℤ → Bool × List Call
attach_or_exit system call fd none port = (true, [])
attach_or_exit system call fd (some a) port =
    (system fd (with_port a port), call fd (with_port a port) ∷ [])

-- `create_socket`: every failure leaves the process, which is `none`.
unfoldable pub create_socket :
    System → Option Address → ℤ → Option Address → ℤ → Option ℕ × List Call
unfolding attach_or_exit
create_socket sys source src_port dest dst_port = elim sys.socket [
  | none ↦ (none, [])
  | some fd ↦
      let b = attach_or_exit sys.bind bind_call fd source src_port in
      let c = attach_or_exit sys.connect connect_call fd dest dst_port in
      if b.0 then (if c.0 then some fd else none, b.1 ++ c.1) else (none, b.1)
]

unfoldable pub real_address : System → List ℕ → Option Address
real_address sys host = sys.getaddrinfo host

-- `recvfrom` with MSG_PEEK and `connect` on the memory of an address. `peek_into` takes the
-- descriptor and what `len` holds, and returns the bytes that it stores at the address and the new
-- `len`; `none` is -1. `connect_bytes` takes the descriptor and the `len` bytes at the address.
pub record RawSocket : Type 0 where
  pub peek_into : ℕ → ℕ → Option (List ℕ × ℕ)
  pub connect_bytes : ℕ → List ℕ → Bool

-- What the two variables of `wait_for_client` hold, which it does not initialise.
pub record Stack : Type 0 where
  pub len : ℕ
  pub address : List ℕ

-- `sizeof (struct sockaddr)`
abbrev pub sockaddr_size : ℕ
sockaddr_size = 16

-- `none` is an access behind the end of `address`: by `recvfrom`, which stores more bytes than it has,
-- or by `connect`, which reads `len` of them.
unfoldable pub wait_for_client : RawSocket → Stack → ℕ → Option (Bool × List Call)
wait_for_client raw stack fd = elim (raw.peek_into fd stack.len) [
  | none ↦ some (false, [])
  | some (bytes, len) ↦
      if ltb sockaddr_size (length bytes) || ltb sockaddr_size len
      then none
      else (let given : List ℕ = take len (bytes ++ drop (length bytes) stack.address) in
          some (raw.connect_bytes fd given, connect_bytes_call fd given ∷ []))
]

-- How `main` ends: with a failure, or in the loop on the socket.
pub data ChatExit : Type 0 where
  chat_failed : List Call → ChatExit
  chatting : ℕ → List Call → ChatExit

-- After `create_socket` the server waits for its peer, unless the descriptor is 0.
unfoldable pub serve : RawSocket → Stack → Option ℕ × List Call → Option ChatExit
unfolding wait_for_client
serve raw stack (none, calls) = some (chat_failed calls)
serve raw stack (some fd, calls) =
    if ltb 0 fd
    then (do
      w ← wait_for_client raw stack fd
      some (if w.0 then chatting fd (calls ++ w.1) else chat_failed (calls ++ w.1)))
    else some (chatting fd calls)

unfoldable pub dial : Option ℕ × List Call → ChatExit
dial (none, calls) = chat_failed calls
dial (some fd, calls) = chatting fd calls

-- `none` is an access outside an object.
unfoldable pub chat_main :
    System → RawSocket → Stack → (List ℕ → ℤ) → List ChatOpt → Option ChatExit
unfolding chat_options create_socket real_address serve dial
chat_main sys raw stack atoi opts =
    let c = chat_options atoi opts chat_defaults in
    elim (real_address sys c.host) [
      | none ↦ some (chat_failed [])
      | some a ↦
          if c.client
          then some (dial (create_socket sys none (negsuc 0) (some a) c.port))
          else serve raw stack (create_socket sys (some a) c.port none (negsuc 0))
    ]
