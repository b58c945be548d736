-- ===== src/App/Connecting.antt =====
-- app/client_main.cpp: the client that `main` has over TCP when it comes to its loop.
use strongly_typed_sockets.Base.{
  ℕ, ◌+◌, ◌≡◌, refl, ℤ, pos, Bool, bit_or, ◌==ℤ◌, minus_one, true, false, Option, none, some, List,
  [], ◌∷◌, inl, inr, Bool-cases, Option-cases, arith, ◌∙◌, to_size,
}
use strongly_typed_sockets.Os.{
  Bytes, Platform, World, Call, answer, perform, af_inet, sock_nonblock,
}
use strongly_typed_sockets.Os.Returns.{
  Returns, returns, Returns-bind, mono, Partial, defined, Returns-and,
}
use strongly_typed_sockets.Os.Ledger.{Books, IsDescriptor, held}
use strongly_typed_sockets.Utils.{mbind_cmd}
use strongly_typed_sockets.Address.{InAddressPort, from_string_and_port}
use strongly_typed_sockets.Impl
use strongly_typed_sockets.States
use strongly_typed_sockets.States.{Proto, Active, tcp, protocol_of}
use strongly_typed_sockets.Epoll
use strongly_typed_sockets.Epoll.{Epoll, Constructed, constructed, runtime_error, epoll}
use strongly_typed_sockets.Observer.{epoll_traits}
use strongly_typed_sockets.Observer.Quiet.{epoll_traits-QuietPoll}
use strongly_typed_sockets.Client.{Client, client_t, destroy_state, register_cbs, assign_socket}
use strongly_typed_sockets.Client.Control.{start, adopt_socket}
use strongly_typed_sockets.Client.Connect.{connect}
use strongly_typed_sockets.Client.Invariant.{held_state, IsValid}
use strongly_typed_sockets.Client.Lifecycle.{start-Books}
use strongly_typed_sockets.Client.Connection.{connect-first_Books}
use strongly_typed_sockets.Client.Outcome.{Connected, Outcome, connect-Outcome}
use strongly_typed_sockets.Client.KeepsPoll.{connect-poll}
use strongly_typed_sockets.App.Client.{init, request_to, localhost}
use strongly_typed_sockets.App.Serving.{epoll-Books, held_made}
use strongly_typed_sockets.App.Startup.{client_with, start_client, client_main, same_text, tcp_text}

-- What no call to the system changes.
abbrev Same : World → World → Type 0
Same w w' = (w'.captured tcp.socket_type ≡ w.captured tcp.socket_type) × (w'.platform ≡ w.platform)

-- `start()` of a new client keeps its poll, and does not call `connect`.
start-Same :
    (p : Proto) (poll : Epoll) (w : World)
    → Partial
        (λ r w'. (r.0.poll ≡ poll) × Same w w')
        (start epoll_traits p (client_t poll af_inet none) w)
unfolding start States.create Impl.open_fd perform adopt_socket assign_socket register_cbs mbind_cmd
    Epoll.add_socket destroy_state States.destroy_impl
start-Same p poll w =
    let opening = Call.socket af_inet (bit_or sock_nonblock p.socket_type) (protocol_of p) in
    elim (Bool-cases ((answer w opening).ret ==ℤ minus_one)) [
      | inl failed ↦ simp failed (defined (refl, (refl, refl)))
      | inr opened ↦ simp opened (defined (refl, (refl, refl)))
    ]

epoll-Same :
    (queue_size : ℤ) (n : ℕ) (w : World) → Partial (λ _ w'. Same w w') (epoll queue_size n w)
unfolding epoll perform
epoll-Same queue_size n w =
    elim (Bool-cases ((answer w (Call.epoll_create queue_size)).ret ==ℤ minus_one)) [
      | inl failed ↦ rw failed (defined (refl, refl))
      | inr made ↦ rw made (defined (refl, refl))
    ]

-- A client that `init` has connected to the port of this host.
abbrev pub IsReady : Platform → ℕ → Client Epoll → Type 0
IsReady pl port c =
    (at : InAddressPort) × (from_string_and_port pl localhost port ≡ some at)
    × Connected (request_to port) at c

connected-IsReady :
    (pl : Platform) (port : ℕ) (c : Client Epoll) (r : Client Epoll × Bool)
    → Outcome (request_to port) (from_string_and_port pl localhost port) c r
    → r.1 ≡ true
    → IsReady pl port r.0
connected-IsReady pl port c (d, true) h e = h
connected-IsReady pl port c (d, false) h e = absurd (ground (arith, e))

module _ (x : ℤ) (d : IsDescriptor x) where
  -- After `init`: what the client holds, and what it is if `init` succeeds.
  abbrev Inited : Platform → ℕ → Epoll → ℕ → Client Epoll × Bool → World → Type 0
  Inited pl port poll l r w =
      (IsValid tcp r.0 × Books x (held_state x r.0.state + l) w)
      × (r.0.poll ≡ poll)
      × (r.1 ≡ true → IsReady pl port r.0)

  connect-Inited :
      (pl : Platform) (port : ℕ) (poll : Epoll) (c : Client Epoll) (l : ℕ) (w : World)
      → w.platform ≡ pl
      → c.poll ≡ poll
      → IsValid tcp c
      → w.captured tcp.socket_type ≡ none
      → Books x (held_state x c.state + l) w
      → Returns (Inited pl port poll l) (connect tcp (request_to port) c w)
  connect-Inited pl port poll c l w same kept v unused b =
      mono
        (Returns-and
          (Returns-and (connect-first_Books x tcp (request_to port) c l w v unused b)
            (connect-poll tcp (request_to port) c w unused))
          (connect-Outcome tcp (request_to port) c w unused))
        λ r w' h. (h.0.0, h.0.1 ∙ kept, connected-IsReady pl port c r (rw same at h.1))

  init-Inited :
      (port : ℕ) (poll : Epoll) (l : ℕ) (w : World)
      → w.captured tcp.socket_type ≡ none
      → Books x l w
      → Returns
          (Inited w.platform port poll l)
          (init epoll_traits tcp port none (client_t poll af_inet none) w)
  unfolding init
  init-Inited port poll l w unused b =
      Returns-bind
        (Returns-and
          (start-Books x epoll_traits (epoll_traits-QuietPoll x) d tcp (client_t poll af_inet none)
            l w tt (ground (arith, b), b.1))
          (start-Same tcp poll w))
        λ r w1 h. elim (Bool-cases r.1) [
          | inl good ↦ rw good (
              connect-Inited w.platform port poll r.0 l w1 h.1.1.1 h.1.0 h.0.0 (h.1.1.0 ∙ unused)
                (ground (arith, h.0.1, good), h.0.1.1))
          | inr bad ↦ rw bad (
              returns (
                (h.0.0, (ground (arith, h.0.1, bad), h.0.1.1)),
                h.1.0,
                λ e. absurd (ground (arith, e)),
              ))
        ]

  -- With a client in the loop: it is well formed and connected, and what is owed for `x` is what the
  -- epoll and the client's state hold and the `k` of before.
  abbrev pub HasClient : Platform → ℕ → ℕ → Option (Client Epoll) → World → Type 0
  HasClient pl port k none w = Unit {0}
  HasClient pl port k (some c) w =
      IsValid tcp c
      × IsReady pl port c
      × Books x (held x (some c.poll.m_fd) + (held_state x c.state + k)) w

  client_with-HasClient :
      (pl : Platform) (port k : ℕ) (made : Constructed) (w : World)
      → w.platform ≡ pl
      → w.captured tcp.socket_type ≡ none
      → Books x (held_made x d made + k) w
      → Returns (HasClient pl port k) (client_with (init epoll_traits tcp port none) made w)
  unfolding client_with
  client_with-HasClient pl port k (runtime_error errno) w same unused b = returns tt
  client_with-HasClient pl port k (constructed poll) w same unused b =
      Returns-bind (init-Inited port poll (held x (some poll.m_fd) + k) w unused b) λ r w1 h.
        elim (Bool-cases r.1) [
          | inl good ↦
              rw good
                (returns (h.0.0, rw same at (h.2 good), (rw h.1 (ground (arith, h.0.1)), h.0.1.1)))
          | inr bad ↦ rw bad (returns tt)
        ]

  start_client-HasClient :
      (proto : Bytes) (remote_port : ℕ) (local_port : Option ℕ) (k : ℕ) (w : World)
      → same_text proto tcp_text ≡ true
      → w.captured tcp.socket_type ≡ none
      → Books x k w
      → Returns (HasClient w.platform remote_port k) (start_client proto remote_port local_port w)
  unfolding start_client
  start_client-HasClient proto remote_port local_port k w is_tcp unused b =
      Returns-bind (Returns-and (epoll-Books x d (pos 5) 10 k w b) (epoll-Same (pos 5) 10 w))
        λ made w1 h.
          rw is_tcp
            (client_with-HasClient w.platform remote_port k made w1 h.1.1 (h.1.0 ∙ unused) h.0)

  -- For a descriptor `x` and balanced books, and before any `connect` of a TCP client: `main` of
  -- the demonstration client, with a first argument that is "tcp" and a second that is a number, is
  -- defined up to its loop, whatever follows them and whatever the system answers. If it has a
  -- client then, this is well formed and active, has the address of 127.0.0.1 and the port for its
  -- remote and the callbacks of `init`, and what is owed for `x` is what its epoll and its state
  -- hold and the `k` of before.
  pub client_main-HasClient :
      (stoi : Bytes → Option ℤ) (proto remote_port : Bytes) (rest : List Bytes) (remote : ℤ) (k : ℕ)
      (w : World)
      → stoi remote_port ≡ some remote
      → same_text proto tcp_text ≡ true
      → w.captured tcp.socket_type ≡ none
      → Books x k w
      → Returns
          (HasClient w.platform (to_size remote) k)
          (client_main stoi (proto ∷ remote_port ∷ rest) w)
  unfolding client_main
  client_main-HasClient stoi proto remote_port [] remote k w number is_tcp unused b =
      rw (client_main, number)
        (start_client-HasClient proto (to_size remote) none k w is_tcp unused b)
  client_main-HasClient stoi proto remote_port (local ∷ rest) remote k w number is_tcp unused b =
      rw (client_main, number)
        (elim (Option-cases (stoi local)) [
          | inl bad ↦ rw bad (returns tt)
          | inr (n, good) ↦
              rw good (
                start_client-HasClient proto (to_size remote) (some (to_size n)) k w is_tcp unused
                  b)
        ])
