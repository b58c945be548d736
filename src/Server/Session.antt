-- ===== src/Server/Session.antt =====
-- src/endpoint/server.tpp: the life of a server of an epoll, as a sequence of calls of its operations,
-- up to its destructor.
use strongly_typed_sockets.Base.{
  ℕ, ◌+◌, ◌≤◌, ◌≡◌, ℤ, Bool, true, false, ◌||◌, Option, inl, inr, Bool-cases, Option-cases, is_some,
}
use strongly_typed_sockets.Os.{World, ok, pure, af_inet, Bytes, Callback}
use strongly_typed_sockets.Os.Returns.{Returns, returns, Returns-bind, Returns-ok}
use strongly_typed_sockets.Os.Ledger.{Books, IsDescriptor}
use strongly_typed_sockets.States.{Proto}
use strongly_typed_sockets.Epoll.{Epoll, ready}
use strongly_typed_sockets.Epoll.Polling.{waited, size_after, proceed-Returns_epoll}
use strongly_typed_sockets.Observer.{epoll_traits, Proceeded}
use strongly_typed_sockets.Observer.Quiet.{epoll_traits-QuietPoll, invoke-Books}
use strongly_typed_sockets.Server
use strongly_typed_sockets.Server.{Server, erase_active_socket}
use strongly_typed_sockets.Server.Control.{
  start, start_datagram, destroy, Ended, finished, terminated,
}
use strongly_typed_sockets.Server.Lifecycle.{
  held_state, IsValid, destroy_state-Books, start-Books_server, start_datagram-Books,
}
use strongly_typed_sockets.Server.Handlers.{proceed-Books_server}

-- A server of an epoll, in a world.
abbrev pub Point : Type 0
Point = Server Epoll × World

-- One call: the `start` of the protocol, or `proceed` where the thread's vector has room for the
-- events.
pub data Step (p : Proto) : Point → Point → Type 0 where
  starts :
      (address : Bytes) (port max_conns : ℕ) (f g : Option Callback) (c c' : Server Epoll)
      (b : Bool) (w w' : World)
      → p.is_connectionless ≡ false
      → start epoll_traits p address port max_conns f g c w ≡ ok (c', b) w'
      → Step p (c, w) (c', w')
  starts_datagram :
      (address : Bytes) (port : ℕ) (f g : Option Callback) (c c' : Server Epoll) (b : Bool)
      (w w' : World)
      → p.is_connectionless ≡ true
      → start_datagram epoll_traits p address port f g c w ≡ ok (c', b) w'
      → Step p (c, w) (c', w')
  proceeds :
      (timeout : ℤ) (c c' : Server Epoll) (r : Proceeded) (w w' : World)
      → c.af ≡ af_inet
      → ready (waited c.poll timeout w).ret ≤ size_after c.poll w.polled
      → Server.proceed epoll_traits p timeout c w ≡ ok (c', r) w'
      → Step p (c, w) (c', w')

pub data Session (p : Proto) : Point → Point → Type 0 where
  ended : (s : Point) → Session p s s
  next : (s t u : Point) → Step p s t → Session p t u → Session p s u

-- What is owed once the destructor has come to an end; where `std::terminate` ends the program, the
-- system closes what is left.
abbrev pub Closed : ℤ → ℕ → Ended → World → Type 0
Closed x k finished w = Books x k w
Closed x k terminated w = Unit {0}

module _ (x : ℤ) (d : IsDescriptor x) (p : Proto) where
  abbrev Balanced : ℕ → Point → Type 0
  Balanced k (c, w) = IsValid p c × Books x (held_state x c.state + k) w

  Step-Balanced : (s t : Point) (k : ℕ) → Step p s t → Balanced k s → Balanced k t
  Step-Balanced s t k (starts address port n f g c c' b w w' stream run) h =
      Returns-ok
        (start-Books_server x epoll_traits (epoll_traits-QuietPoll x) d p address port n f g c k w
          stream h.0 h.1)
        run
  Step-Balanced s t k (starts_datagram address port f g c c' b w w' datagram run) h =
      Returns-ok
        (start_datagram-Books x epoll_traits (epoll_traits-QuietPoll x) d p address port f g c k w
          datagram h.0 h.1)
        run
  Step-Balanced s t k (proceeds timeout c c' r w w' four fits run) h =
      Returns-ok
        (proceed-Books_server x d epoll_traits (epoll_traits-QuietPoll x) p timeout c k w four h.0
          (proceed-Returns_epoll x c.poll timeout _ w fits h.1))
        run

  Session-Balanced : (s t : Point) (k : ℕ) → Session p s t → Balanced k s → Balanced k t
  Session-Balanced s t k (ended _) h = h
  Session-Balanced s t k (next _ u _ one rest) h =
      Session-Balanced u t k rest (Step-Balanced s u k one h)

  destroy-Closed :
      (c : Server Epoll) (k : ℕ) (w : World)
      → Books x (held_state x c.state + k) w
      → Returns (Closed x k) (destroy epoll_traits (λ _. pure tt) c w)
  unfolding destroy erase_active_socket
  destroy-Closed c k w b = elim (Bool-cases (c.m_ignores_fd || is_some c.m_erase_active_socket)) [
    | inl calls ↦ rw calls (
        Returns-bind (invoke-Books x c.m_erase_active_socket _ _ w b) λ thrown w1 b1.
          elim (Option-cases thrown) [
            | inl calm ↦
                rw calm (Returns-bind (destroy_state-Books x c.state k w1 b1) λ _ w2 b2. returns b2)
            | inr (e, t) ↦ rw t (returns tt)
          ])
    | inr silent ↦
        rw silent (Returns-bind (destroy_state-Books x c.state k w b) λ _ w2 b2. returns b2)
  ]

  -- For a descriptor `x`, a server of an epoll that is well formed at the start, and balanced
  -- books: after any sequence of the `start` of its protocol and of `proceed` of the IPv4 family
  -- where the thread's vector has room for the events, the destructor of the server is defined, and
  -- unless it ends the program by `std::terminate`, just the `k` calls of `close` of before are
  -- owed for `x`: every descriptor that the server opened or accepted is closed, or was taken by
  -- the callback. The epoll, whose destructor closes another descriptor, is taken to outlive the
  -- server.
  pub Session-closes_server :
      (c c' : Server Epoll) (k : ℕ) (w w' : World)
      → Session p (c, w) (c', w')
      → IsValid p c
      → Books x (held_state x c.state + k) w
      → Returns (Closed x k) (destroy epoll_traits (λ _. pure tt) c' w')
  Session-closes_server c c' k w w' session v b =
      destroy-Closed c' k w' (Session-Balanced (c, w) (c', w') k session (v, b)).1
