-- ===== src/App/Starting.antt =====
-- app/client_main.cpp: `init` of the demonstration client over a connectionless protocol.
use strongly_typed_sockets.Base.{
  to_size, ℕ, ◌≡◌, refl, ℤ, pos, true, false, Option, none, some, inl, inr, Bool-cases,
  Option-cases, ap, arith, ◌∷◌, [], to_size,
}
use strongly_typed_sockets.Os.{Bytes, World, Cmd, af_inet}
use strongly_typed_sockets.Os.Returns.{
  Returns, returns, Returns-bind, mono, Partial, defined, Partial-bind, Partial-any, Returns-and,
}
use strongly_typed_sockets.Os.Ledger.{Books, IsDescriptor}
use strongly_typed_sockets.Utils.{mbind_cmd}
use strongly_typed_sockets.Impl
use strongly_typed_sockets.States
use strongly_typed_sockets.Epoll.{read_write, Constructed, constructed, runtime_error}
use strongly_typed_sockets.States.{Proto, udp, Socket, destroy_socket}
use strongly_typed_sockets.Observer.{PollTraits, epoll_traits}
use strongly_typed_sockets.Observer.Quiet.{QuietPoll, epoll_traits-QuietPoll}
use strongly_typed_sockets.Client.{Client, idle, is_idle, assign_socket, destroy_state, client_t}
use strongly_typed_sockets.Client.Control.{start, adopt_socket}
use strongly_typed_sockets.Client.Lifecycle.{start-Books}
use strongly_typed_sockets.Client.Reconnect.{connect-unbound_datagram}
use strongly_typed_sockets.App.Client.{init, request_to}
use strongly_typed_sockets.App.Startup.{client_with, start_client, same_text, tcp_text, client_main}
use strongly_typed_sockets.App.Serving.{epoll-Books}

mbind_cmd-Partial :
    {T B : Type 0} (Q : Option B → Type 0) (destroy : T → Cmd (Unit {0})) (o : Option T)
    (f : T → Cmd (T × Option B)) (w : World)
    → Q none
    → ((t : T) (w : World) → Partial (λ r _. Q r.1) (f t w))
    → Partial (λ r _. Q r) (mbind_cmd destroy o f w)
unfolding mbind_cmd
mbind_cmd-Partial Q destroy none f w nothing made = defined nothing
mbind_cmd-Partial Q destroy (some t) f w nothing made =
    Partial-bind (made t w)
      λ r w1 q. Partial-bind (Partial-any (destroy r.0 w1)) λ _ w2 _. defined q

module _ {Poll : Type 0} (traits : PollTraits Poll) where
  -- `start()` leaves a client idle, with a socket or without one.
  abbrev IsIdle : Option (Client Poll) → Type 0
  IsIdle none = Unit {0}
  IsIdle (some c) = is_idle c.state ≡ true

  assign_socket-is_idle :
      (o : Option Socket) (s : Socket) (w : World)
      → Partial (λ r _. is_idle r.0 ≡ true) (assign_socket (idle o) s w)
  unfolding assign_socket destroy_state
  assign_socket-is_idle none s w = defined refl
  assign_socket-is_idle (some old) s w = defined refl

  adopt_socket-IsIdle :
      (c : Client Poll) (o : Option Socket) (s : Socket) (w : World)
      → c.state ≡ idle o
      → Partial (λ r _. IsIdle r.1) (adopt_socket traits c s w)
  unfolding adopt_socket
  adopt_socket-IsIdle c o s w e =
      Partial-bind (Partial-any (traits.add_socket c.poll (Impl.fd s.m_impl) read_write w))
        λ _ w1 _. rw e (Partial-bind (assign_socket-is_idle o s w1) λ r w2 h. defined h)

  start-is_idle :
      (p : Proto) (c : Client Poll) (o : Option Socket) (w : World)
      → c.state ≡ idle o
      → Partial (λ r _. is_idle r.0.state ≡ true) (start traits p c w)
  unfolding start
  start-is_idle p c o w e =
      let is : is_idle c.state ≡ true = rw e refl in
      rw is (
        Partial-bind (Partial-any (States.create p c.af w)) λ created w1 _.
          Partial-bind
            (mbind_cmd-Partial IsIdle destroy_socket created (adopt_socket traits c) w1 tt
              λ s w'. adopt_socket-IsIdle c o s w' e)
            λ started w2 h. elim (Option-cases started) [
              | inl n ↦ rw n (defined is)
              | inr (c', m) ↦ rw m (defined (rw m at h))
            ])

  pub init-unbound_datagram :
      (x : ℤ) (p : Proto) (port : ℕ) (c : Client Poll) (k : ℕ) (w : World)
      → QuietPoll x traits
      → IsDescriptor x
      → p.is_connectionless ≡ true
      → c.state ≡ idle none
      → Books x k w
      → Returns (λ r _. r.1 ≡ false) (init traits p port none c w)
  unfolding init
  init-unbound_datagram x p port c k w quiet d less fresh b =
      let started =
        start-Books x traits quiet d p c k w (rw fresh tt) (rw fresh (ground (arith, b), b.1)) in
      Returns-bind (Returns-and started (start-is_idle p c none w fresh)) λ r w1 h.
        elim (Bool-cases r.1) [
          | inl e ↦ rw e (
              mono (connect-unbound_datagram p (request_to port) r.0 w1 less h.1)
                λ r' w' g. ap (λ q. q.1) g.0)
          | inr e ↦ rw e (returns refl)
        ]

client_with-none :
    (x : ℤ) (d : IsDescriptor x) (port k : ℕ) (made : Constructed) (w : World)
    → Books x k w
    → Returns (λ r _. r ≡ none) (client_with (init epoll_traits udp port none) made w)
unfolding client_with
client_with-none x d port k (runtime_error errno) w b = returns refl
client_with-none x d port k (constructed poll) w b =
    Returns-bind
      (init-unbound_datagram epoll_traits x udp port (client_t poll af_inet none) k w
        (epoll_traits-QuietPoll x) d refl refl b)
      λ r w' e. rw e (returns refl)

-- With balanced books, `main` of the demonstration client, without a local port and for a protocol
-- other than "tcp", is defined and has no client, whatever the system answers: `init` fails.
pub start_client-unbound :
    (x : ℤ) (d : IsDescriptor x) (proto : Bytes) (remote_port k : ℕ) (w : World)
    → same_text proto tcp_text ≡ false
    → Books x k w
    → Returns (λ r _. r ≡ none) (start_client proto remote_port none w)
unfolding start_client
start_client-unbound x d proto remote_port k w not_tcp b =
    Returns-bind (epoll-Books x d (pos 5) 10 k w b)
      λ made w' b'. rw not_tcp (client_with-none x d remote_port _ made w' b')

-- With balanced books, `main` of the demonstration client with two arguments, of which the first is
-- not "tcp", is defined and has no client, whatever the system answers and whatever number the
-- second argument is: `init` fails without a local port.
pub client_main-unbound :
    (x : ℤ) (d : IsDescriptor x) (stoi : Bytes → Option ℤ) (proto remote_port : Bytes) (k : ℕ)
    (w : World)
    → same_text proto tcp_text ≡ false
    → Books x k w
    → Returns (λ r _. r ≡ none) (client_main stoi (proto ∷ remote_port ∷ []) w)
unfolding client_main
client_main-unbound x d stoi proto remote_port k w not_tcp b =
    elim (Option-cases (stoi remote_port)) [
      | inl bad ↦ rw (client_main, bad) (returns refl)
      | inr (n, good) ↦
          rw (client_main, good) (start_client-unbound x d proto (to_size n) k w not_tcp b)
    ]
