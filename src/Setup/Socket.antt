-- ===== src/Setup/Socket.antt =====
-- src/create_socket.c, src/wait_for_client.c: the calls on the socket before the loops start.
use trtp_network.Prelude.{
  ◌∙◌, sym, ap, if◌then◌else◌, Bool-cases, lt→ltb, arith, ◌++◌, ℕ, zero, suc, ◌≡◌, ◌⊎◌, refl, List,
  [], ◌∷◌, Bool, true, false, Option, none, some, inl, inr, Option-cases,
}
use mathlib.Core.Path.{subst}
use trtp_network.Prelude.Int.{pos, negsuc}
use trtp_network.Setup.{
  System, Address, Call, bind_call, connect_call, with_port, create_socket, wait_for_client, attach,
}
use trtp_network.Setup.Main.{Config, Exit, failed, started, attend, finish}

zero_cases : (n : ℕ) → (n ≡ 0) ⊎ ((k : ℕ) × (n ≡ suc k))
zero_cases zero = inl refl
zero_cases (suc n) = inr (n, refl)

-- The loop of the receiver starts on a socket that is bound to the address and the port and then
-- connected to the sender of the first datagram; descriptor 0 is not connected. Where it does not
-- start, one of these calls has failed.
abbrev pub Attended : System → Config → Address → ℕ → Exit → Type 0
Attended sys options a port (failed calls) =
    (sys.socket ≡ none)
    ⊎ ((fd : ℕ) × (sys.socket ≡ some fd)
        × ((sys.bind fd (with_port a (pos port)) ≡ false)
            ⊎ ((sys.peek_sender fd ≡ none)
                ⊎ ((client : Address) × (sys.peek_sender fd ≡ some client)
                    × (sys.connect fd client ≡ false)))))
Attended sys options a port (started fd c calls) =
    (c ≡ options)
    × (sys.socket ≡ some fd)
    × (sys.bind fd (with_port a (pos port)) ≡ true)
    × (((fd ≡ 0) × (calls ≡ bind_call fd (with_port a (pos port)) ∷ []))
        ⊎ ((client : Address) × (sys.peek_sender fd ≡ some client)
            × (sys.connect fd client ≡ true)
            × (calls ≡ bind_call fd (with_port a (pos port)) ∷ connect_call fd client ∷ [])))

-- The loop of the sender starts on a socket that is connected to the address and the port. Where it
-- does not start, one of these calls has failed.
abbrev pub Dialed : System → Config → Address → ℕ → Exit → Type 0
Dialed sys options a port (failed calls) =
    (sys.socket ≡ none)
    ⊎ ((fd : ℕ) × (sys.socket ≡ some fd) × (sys.connect fd (with_port a (pos port)) ≡ false))
Dialed sys options a port (started fd c calls) =
    (c ≡ options)
    × (sys.socket ≡ some fd)
    × (sys.connect fd (with_port a (pos port)) ≡ true)
    × (calls ≡ connect_call fd (with_port a (pos port)) ∷ [])

module _ (sys : System) (c : Config) (a : Address) (port : ℕ) where
  abbrev at : Address
  at = with_port a (pos port)

  abbrev pub bound_socket : Option ℕ × List Call
  bound_socket = create_socket sys (some a) (pos port) none (negsuc 0)

  abbrev pub connected_socket : Option ℕ × List Call
  connected_socket = create_socket sys none (negsuc 0) (some a) (pos port)

  bound_socket-runs :
      (fd : ℕ)
      → sys.socket ≡ some fd
      → bound_socket ≡ (if sys.bind fd at then some fd else none, bind_call fd at ∷ [])
  unfolding create_socket attach
  bound_socket-runs fd e = elim (Bool-cases (sys.bind fd at)) [
    | inl bound ↦ rw (e, bound) refl
    | inr refused ↦ rw (e, refused) refl
  ]

  connected_socket-runs :
      (fd : ℕ)
      → sys.socket ≡ some fd
      → connected_socket ≡ (if sys.connect fd at then some fd else none, connect_call fd at ∷ [])
  unfolding create_socket attach
  connected_socket-runs fd e = rw e refl

  attend-runs :
      (k : ℕ) (r : Bool × List Call) (calls : List Call)
      → wait_for_client sys (suc k) ≡ r
      → attend sys c (some (suc k), calls)
        ≡ (if r.0 then started (suc k) c (calls ++ r.1) else failed (calls ++ r.1))
  unfolding attend
  attend-runs k r calls e = rw (lt→ltb 0 (suc k) (omega arith), e) refl

  bound_socket-none : sys.socket ≡ none → bound_socket ≡ (none, [])
  unfolding create_socket
  bound_socket-none e = rw e refl

  connected_socket-none : sys.socket ≡ none → connected_socket ≡ (none, [])
  unfolding create_socket
  connected_socket-none e = rw e refl

  pub attend-Attended : Attended sys c a port (attend sys c bound_socket)
  unfolding attend wait_for_client create_socket
  attend-Attended = elim (Option-cases sys.socket) [
    | inl e ↦
        subst (λ q. Attended sys c a port (attend sys c q)) (sym (bound_socket-none e)) (inl e)
    | inr (fd, e) ↦ elim (Bool-cases (sys.bind fd at)) [
      | inr refused ↦
          subst (λ s. Attended sys c a port (attend sys c s))
            (sym (
              bound_socket-runs fd e
              ∙ ap (λ b. (if b then some fd else none, bind_call fd at ∷ [])) refused))
            (inr (fd, e, inl refused))
      | inl bound ↦
          subst (λ s. Attended sys c a port (attend sys c s))
            (sym (
              bound_socket-runs fd e
              ∙ ap (λ b. (if b then some fd else none, bind_call fd at ∷ [])) bound))
            (waits fd e bound)
    ]
  ]
    where
      joins :
          (k : ℕ) (client : Address)
          → sys.socket ≡ some (suc k)
          → sys.bind (suc k) at ≡ true
          → sys.peek_sender (suc k) ≡ some client
          → Attended sys c a port (
              let calls = bind_call (suc k) at ∷ connect_call (suc k) client ∷ [] in
              if sys.connect (suc k) client then started (suc k) c calls else failed calls)
      joins k client e bound heard = elim (Bool-cases (sys.connect (suc k) client)) [
        | inr refused ↦
            subst
              (λ b. Attended sys c a port (
                let calls = bind_call (suc k) at ∷ connect_call (suc k) client ∷ [] in
                if b then started (suc k) c calls else failed calls))
              (sym refused) (inr (suc k, e, inr (inr (client, heard, refused))))
        | inl joined ↦
            subst
              (λ b. Attended sys c a port (
                let calls = bind_call (suc k) at ∷ connect_call (suc k) client ∷ [] in
                if b then started (suc k) c calls else failed calls))
              (sym joined) (refl, e, bound, inr (client, heard, joined, refl))
      ]

      waits :
          (fd : ℕ)
          → sys.socket ≡ some fd
          → sys.bind fd at ≡ true
          → Attended sys c a port (attend sys c (some fd, bind_call fd at ∷ []))
      waits zero e bound = (refl, e, bound, inl (refl, refl))
      waits (suc k) e bound = elim (Option-cases (sys.peek_sender (suc k))) [
        | inl silent ↦
            subst (Attended sys c a port)
              (sym (
                attend-runs k (false, []) (bind_call (suc k) at ∷ [])
                  (rw (silent, wait_for_client) refl)))
              (inr (suc k, e, inr (inl silent)))
        | inr (client, heard) ↦
            subst (Attended sys c a port)
              (sym (
                attend-runs k (sys.connect (suc k) client, connect_call (suc k) client ∷ [])
                  (bind_call (suc k) at ∷ []) (rw (heard, wait_for_client) refl)))
              (joins k client e bound heard)
      ]

  pub finish-Dialed : Dialed sys c a port (finish c connected_socket)
  unfolding create_socket
  finish-Dialed = elim (Option-cases sys.socket) [
    | inl e ↦ subst (λ q. Dialed sys c a port (finish c q)) (sym (connected_socket-none e)) (inl e)
    | inr (fd, e) ↦ elim (Bool-cases (sys.connect fd at)) [
      | inr refused ↦
          subst (λ s. Dialed sys c a port (finish c s))
            (sym (
              connected_socket-runs fd e
              ∙ ap (λ b. (if b then some fd else none, connect_call fd at ∷ [])) refused))
            (inr (fd, e, refused))
      | inl joined ↦
          subst (λ s. Dialed sys c a port (finish c s))
            (sym (
              connected_socket-runs fd e
              ∙ ap (λ b. (if b then some fd else none, connect_call fd at ∷ [])) joined))
            (refl, e, joined, refl)
    ]
  ]
