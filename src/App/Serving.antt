-- ===== src/App/Serving.antt =====
-- app/server_main.cpp: what the demonstration server holds when it has started.
use strongly_typed_sockets.Base.{
  ℕ, ◌+◌, ◌≡◌, refl, ℤ, pos, ◌==ℤ◌, minus_one, Bool, true, false, Option, none, some, inl, inr,
  if◌then◌else◌, Bool-cases, Option-cases, arith,
}
use strongly_typed_sockets.Os.{Bytes, Callback, World, Cmd, Call, answer, perform, af_inet}
use strongly_typed_sockets.Os.Returns.{
  Returns, returns, Returns-bind, Partial, defined, Partial-bind, Partial-any, Returns-and,
}
use strongly_typed_sockets.Os.Ledger.{Books, IsDescriptor, held}
use strongly_typed_sockets.Utils.{mbind_cmd}
use strongly_typed_sockets.Address.{from_string_and_port}
use strongly_typed_sockets.States
use strongly_typed_sockets.States.{Proto, tcp, udp, destroy_socket}
use strongly_typed_sockets.Epoll
use strongly_typed_sockets.App.Client.{localhost}
use strongly_typed_sockets.Epoll.{Epoll, Constructed, constructed, runtime_error, epoll}
use strongly_typed_sockets.Observer.{PollTraits, epoll_traits}
use strongly_typed_sockets.Observer.Quiet.{epoll_traits-QuietPoll}
use strongly_typed_sockets.Accepted.{ServerState, listening, active}
use strongly_typed_sockets.Server.{Server, server_t, is_idle, destroy_state, state_fd, register_cbs}
use strongly_typed_sockets.Server.Control.{start, start_datagram, adopt_state, bind_listen}
use strongly_typed_sockets.Server.Lifecycle.{
  IsValid, held_state, start-Books_server, start_datagram-Books,
}
use strongly_typed_sockets.App.Startup.{
  Started, serving, terminated, init_tcp, init_udp, start_with, emplace, start_server, same_text,
  tcp_text, udp_text,
}

module _ {Poll : Type 0} (traits : PollTraits Poll) where
  -- A server keeps its poll when it starts.
  adopt_state-poll :
      (f g : Option Callback) (ignores : Bool) (made : ServerState) (c : Server Poll) (w : World)
      → Partial (λ r _. r.0.poll ≡ c.poll) (adopt_state traits f g ignores made c w)
  unfolding adopt_state register_cbs
  adopt_state-poll f g ignores made c w =
      Partial-bind (Partial-any (traits.add_socket c.poll (state_fd made) Epoll.read w))
        λ _ w1 _. Partial-bind (Partial-any (destroy_state c.state w1)) λ _ w2 _. defined refl

  start-poll :
      (p : Proto) (address : Bytes) (port n : ℕ) (f g : Option Callback) (c : Server Poll)
      (w : World)
      → Partial (λ r _. r.0.poll ≡ c.poll) (start traits p address port n f g c w)
  unfolding start
  start-poll p address port n f g c w = elim (Bool-cases (is_idle c.state)) [
    | inr busy ↦ rw busy (defined refl)
    | inl is ↦ rw is (elim (Option-cases (from_string_and_port w.platform address port)) [
      | inl bad ↦ rw bad (defined refl)
      | inr (at, good) ↦ rw good (
          Partial-bind (Partial-any (States.create p c.af w)) λ created w1 _.
            Partial-bind (Partial-any (mbind_cmd destroy_socket created (bind_listen n at) w1))
              λ made w2 _. elim (Option-cases made) [
                | inl e ↦ rw e (defined refl)
                | inr (l, e) ↦ rw e (adopt_state-poll f g false (listening l) c w2)
              ])
    ])
  ]

  start_datagram-poll :
      (p : Proto) (address : Bytes) (port : ℕ) (f g : Option Callback) (c : Server Poll) (w : World)
      → Partial (λ r _. r.0.poll ≡ c.poll) (start_datagram traits p address port f g c w)
  unfolding start_datagram
  start_datagram-poll p address port f g c w = elim (Bool-cases (is_idle c.state)) [
    | inr busy ↦ rw busy (defined refl)
    | inl is ↦ rw is (elim (Option-cases (from_string_and_port w.platform address port)) [
      | inl bad ↦ rw bad (defined refl)
      | inr (at, good) ↦ rw good (
          Partial-bind (Partial-any (States.create p c.af w)) λ created w1 _.
            Partial-bind
              (Partial-any
                (mbind_cmd destroy_socket created (λ sock. States.bind_datagram sock at) w1))
              λ made w2 _. elim (Option-cases made) [
                | inl e ↦ rw e (defined refl)
                | inr (a, e) ↦ rw e (adopt_state-poll f g true (active a) c w2)
              ])
    ])
  ]

abbrev pub protocol : Bool → Proto
protocol is_tcp = if is_tcp then tcp else udp

module _ (x : ℤ) (d : IsDescriptor x) where
  -- A server that serves is well formed, and holds what was opened for it, with its epoll.
  abbrev pub Ready : ℕ → Started → World → Type 0
  Ready k (serving c n is_tcp) w =
      IsValid (protocol is_tcp) c
      × Books x (held x (some c.poll.m_fd) + (held_state x c.state + k)) w
  Ready k terminated w = Unit {0}

  abbrev pub held_made : Constructed → ℕ
  held_made (constructed e) = held x (some e.m_fd)
  held_made (runtime_error errno) = 0

  pub epoll-Books :
      (queue_size : ℤ) (n k : ℕ) (w : World)
      → Books x k w
      → Returns (λ r w'. Books x (held_made r + k) w') (epoll queue_size n w)
  unfolding epoll perform
  epoll-Books queue_size n k w b =
      elim (Bool-cases ((answer w (Call.epoll_create queue_size)).ret ==ℤ minus_one)) [
        | inl e ↦ rw e (returns (ground (arith, d, e), b.1))
        | inr e ↦ rw e (returns (ground arith, b.1))
      ]

  -- An `init` that makes a well formed server and keeps what was owed and the poll.
  abbrev Inits : Bool → (Server Epoll → Cmd (Server Epoll × Bool)) → Type 0
  Inits is_tcp init =
      (poll : Epoll) (l : ℕ) (w : World)
      → Books x l w
      → Returns
          (λ r w'.
            (IsValid (protocol is_tcp) r.0 × Books x (held_state x r.0.state + l) w')
            × (r.0.poll ≡ poll))
          (init (server_t poll af_inet none) w)

  start_with-Ready :
      (init : Server Epoll → Cmd (Server Epoll × Bool)) (n : ℕ) (is_tcp : Bool) (k : ℕ)
      (made : Constructed) (w : World)
      → Inits is_tcp init
      → Books x (held_made made + k) w
      → Returns (Ready k) (start_with init n is_tcp made w)
  unfolding start_with
  start_with-Ready init n is_tcp k (runtime_error errno) w inits b = returns tt
  start_with-Ready init n is_tcp k (constructed poll) w inits b =
      Returns-bind (inits poll (held x (some poll.m_fd) + k) w b) λ r w' h. elim (Bool-cases r.1) [
        | inl e ↦ rw e (returns (h.0.0, (rw h.1 (ground (arith, h.0.1)), h.0.1.1)))
        | inr e ↦ rw e (returns tt)
      ]

  emplace-Ready :
      (init : Server Epoll → Cmd (Server Epoll × Bool)) (n : ℕ) (is_tcp : Bool) (k : ℕ) (w : World)
      → Inits is_tcp init
      → Books x k w
      → Returns (Ready k) (emplace init n is_tcp w)
  unfolding emplace
  emplace-Ready init n is_tcp k w inits b =
      Returns-bind (epoll-Books (pos 5) 10 k w b)
        λ made w' b'. start_with-Ready init n is_tcp k made w' inits b'

  -- For a descriptor `x` and balanced books: `main` of the demonstration server is defined up to
  -- the loop, for every text that names the protocol and every port, and if it does not end there,
  -- it has a server that is well formed for its protocol, and what is owed for `x` is what the
  -- epoll and the state of the server hold and the `k` of before.
  pub start_server-Ready :
      (proto : Bytes) (local_port k : ℕ) (w : World)
      → Books x k w
      → Returns (Ready k) (start_server proto local_port w)
  unfolding start_server init_tcp init_udp
  start_server-Ready proto local_port k w b = elim (Bool-cases (same_text proto tcp_text)) [
    | inl e ↦
        rw (start_server, e)
          (emplace-Ready (init_tcp epoll_traits local_port) 20 true k w
            (λ poll l w1 b1.
              Returns-and
                (start-Books_server x epoll_traits (epoll_traits-QuietPoll x) d tcp localhost
                  local_port 10 (some 0) (some 1) (server_t poll af_inet none) l w1 refl tt
                  (ground (arith, b1), b1.1))
                (start-poll epoll_traits tcp localhost local_port 10 (some 0) (some 1)
                  (server_t poll af_inet none) w1))
            b)
    | inr not_tcp ↦
        rw (start_server, not_tcp)
          (elim (Bool-cases (same_text proto udp_text)) [
            | inl e ↦ rw e (
                emplace-Ready (init_udp epoll_traits local_port) 256 false k w
                  (λ poll l w1 b1.
                    Returns-and
                      (start_datagram-Books x epoll_traits (epoll_traits-QuietPoll x) d udp
                        localhost local_port (some 0) (some 1) (server_t poll af_inet none) l w1
                        refl tt (ground (arith, b1), b1.1))
                      (start_datagram-poll epoll_traits udp localhost local_port (some 0) (some 1)
                        (server_t poll af_inet none) w1))
                  b)
            | inr not_udp ↦ rw not_udp (returns tt)
          ])
  ]
