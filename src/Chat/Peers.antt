-- ===== src/Chat/Peers.antt =====
-- SendAndReceiveData/wait_for_client.c and SendAndReceiveData/chat.c: a server whose first client has an
-- address that is longer than `struct sockaddr`.
use mathlib.Core.Path.{subst}
use trtp_network.Prelude.{
  ℕ, zero, suc, ◌≡◌, ◌⊎◌, inl, inr, refl, sym, List, [], Bool, true, false, Option, none, some,
  arith, length, ltb, ◌||◌, lt→ltb, Bool-cases, Option-cases,
}
use trtp_network.Prelude.Int.{ℤ, negsuc}
use trtp_network.Setup.{System, Call}
use trtp_network.Chat.{
  RawSocket, Stack, ChatOpt, ChatConfig, ChatExit, chatting, chat_failed, wait_for_client, serve,
  dial, chat_main, chat_options, chat_defaults, sockaddr_size, real_address, create_socket,
}

-- The peers of an IPv6 socket have addresses of 28 bytes, and `recvfrom` sets `len` to that.
abbrev pub HasLongPeers : RawSocket → Type 0
HasLongPeers raw = (fd len : ℕ) (r : List ℕ × ℕ) → raw.peek_into fd len ≡ some r → r.1 ≡ 28

-- The chat is in its loop only as a client, or on descriptor 0.
abbrev pub Unserved : Bool → Option ChatExit → Type 0
Unserved client none = Unit
Unserved client (some (chat_failed calls)) = Unit
Unserved client (some (chatting fd calls)) = (client ≡ true) ⊎ (fd ≡ 0)

module _ (raw : RawSocket) (stack : Stack) (long : HasLongPeers raw) where
  past_or_refused :
      (fd : ℕ)
      → (wait_for_client raw stack fd ≡ none) ⊎ (wait_for_client raw stack fd ≡ some (false, []))
  unfolding wait_for_client
  past_or_refused fd = elim (Option-cases (raw.peek_into fd stack.len)) [
    | inl e ↦ inr (rw (e, wait_for_client) refl)
    | inr ((bytes, len), e) ↦ inl (
        rw
          (
            e,
            long fd stack.len (bytes, len) e,
            any (ltb sockaddr_size (length bytes)),
            wait_for_client,
          )
          refl)
  ]
    where
      any : (b : Bool) → (b || true) ≡ true
      any true = refl
      any false = refl

  serve-Unserved : (client : Bool) (s : Option ℕ × List Call) → Unserved client (serve raw stack s)
  unfolding serve
  serve-Unserved client (none, calls) = tt
  serve-Unserved client (some zero, calls) = inr refl
  serve-Unserved client (some (suc k), calls) = elim (past_or_refused (suc k)) [
    | inl e ↦ rw (lt→ltb 0 (suc k) (omega arith), e) tt
    | inr e ↦ rw (lt→ltb 0 (suc k) (omega arith), e) tt
  ]

dial-Unserved : (s : Option ℕ × List Call) → Unserved true (some (dial s))
unfolding dial
dial-Unserved (none, calls) = tt
dial-Unserved (some fd, calls) = inl refl

-- Where the peers of the socket have addresses of 28 bytes, as on IPv6, and whatever the stack holds,
-- the options say, and the system answers: `main` fails, makes an access behind the end of
-- `address`, or is a client, or has descriptor 0. A server never comes to its loop in another way.
pub chat_main-Unserved :
    (sys : System) (raw : RawSocket) (stack : Stack) (atoi : List ℕ → ℤ) (opts : List ChatOpt)
    → HasLongPeers raw
    → Unserved (chat_options atoi opts chat_defaults).client (chat_main sys raw stack atoi opts)
unfolding chat_main real_address
chat_main-Unserved sys raw stack atoi opts long =
    elim (Option-cases (sys.getaddrinfo (chat_options atoi opts chat_defaults).host)) [
      | inl e ↦ met (some (chat_failed [])) (rw (e, chat_main) refl) tt
      | inr (a, e) ↦ elim (Bool-cases client) [
        | inl role ↦
            met (some (dial (create_socket sys none (negsuc 0) (some a) c.port)))
              (rw (e, role, chat_main) refl)
              (subst
                (λ b. Unserved b (some (dial (create_socket sys none (negsuc 0) (some a) c.port))))
                (sym role) (dial-Unserved (create_socket sys none (negsuc 0) (some a) c.port)))
        | inr role ↦
            met (serve raw stack (create_socket sys (some a) c.port none (negsuc 0)))
              (rw (e, role, chat_main) refl)
              (serve-Unserved raw stack long client
                (create_socket sys (some a) c.port none (negsuc 0)))
      ]
    ]
  where
    c : ChatConfig
    c = chat_options atoi opts chat_defaults

    client : Bool
    client = c.client

    met :
        (x : Option ChatExit)
        → chat_main sys raw stack atoi opts ≡ x
        → Unserved client x
        → Unserved client (chat_main sys raw stack atoi opts)
    met x e = subst (Unserved client) (sym e)
