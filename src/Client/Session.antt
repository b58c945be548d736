-- ===== src/Client/Session.antt =====
-- src/endpoint/client.tpp: the life of a client of an epoll, as a sequence of calls of its operations in
-- any order, up to its destructor.
use strongly_typed_sockets.Base.{ℕ, ◌+◌, ◌≤◌, ◌≡◌, ℤ, Bool, Option, none, if◌then◌else◌, arith, ap}
use strongly_typed_sockets.Os.{Buffer, World, ok, pure, af_inet, Bytes}
use strongly_typed_sockets.Os.Returns.{Returns, returns, Returns-bind, Returns-ok}
use strongly_typed_sockets.Os.Ledger.{Books, IsDescriptor}
use strongly_typed_sockets.Address.{InAddressPort}
use strongly_typed_sockets.States.{Proto}
use strongly_typed_sockets.Epoll.{Epoll, ready}
use strongly_typed_sockets.Epoll.Polling.{waited, size_after, proceed-Returns_epoll}
use strongly_typed_sockets.Observer.{epoll_traits, Proceeded}
use strongly_typed_sockets.Observer.Quiet.{epoll_traits-QuietPoll}
use strongly_typed_sockets.Client
use strongly_typed_sockets.Client.{ClientState, idle, Client}
use strongly_typed_sockets.Client.Control.{start, start_at, stop, destroy}
use strongly_typed_sockets.Client.Connect.{Request, connect}
use strongly_typed_sockets.Client.Transfer.{recv, send}
use strongly_typed_sockets.Client.Invariant.{held_state, IsValid, destroy_state-Books}
use strongly_typed_sockets.Client.Lifecycle.{start-Books, start_at-Books, stop-Books}
use strongly_typed_sockets.Client.Connection.{connect-first_Books}
use strongly_typed_sockets.Client.Exchange.{recv-Books, send-Books}
use strongly_typed_sockets.Client.Handlers.{proceed-Books}

-- A client of an epoll, in a world.
abbrev pub Point : Type 0
Point = Client Epoll × World

-- One call. `start()` is called of a client that holds no socket, `connect` once for its protocol, and
-- `proceed` where the thread's vector has room for the events.
pub data Step (p : Proto) : Point → Point → Type 0 where
  starts :
      (c c' : Client Epoll) (b : Bool) (w w' : World)
      → c.state ≡ idle none
      → start epoll_traits p c w ≡ ok (c', b) w'
      → Step p (c, w) (c', w')
  starts_at :
      (address : Bytes) (port : ℕ) (c c' : Client Epoll) (b : Bool) (w w' : World)
      → start_at epoll_traits p address port c w ≡ ok (c', b) w'
      → Step p (c, w) (c', w')
  stops :
      (c c' : Client Epoll) (w w' : World)
      → stop epoll_traits c w ≡ ok c' w'
      → Step p (c, w) (c', w')
  connects :
      (q : Request) (c c' : Client Epoll) (b : Bool) (w w' : World)
      → w.captured p.socket_type ≡ none
      → connect p q c w ≡ ok (c', b) w'
      → Step p (c, w) (c', w')
  proceeds :
      (timeout : ℤ) (c c' : Client Epoll) (r : Proceeded) (w w' : World)
      → ready (waited c.poll timeout w).ret ≤ size_after c.poll w.polled
      → Client.proceed epoll_traits timeout c w ≡ ok (c', r) w'
      → Step p (c, w) (c', w')
  receives :
      (buffer : Buffer) (n : ℕ) (c : Client Epoll) (r : Option (InAddressPort × ℕ)) (w w' : World)
      → c.af ≡ af_inet
      → recv p buffer n c w ≡ ok r w'
      → Step p (c, w) (c, w')
  sends :
      (buffer : Buffer) (n : ℕ) (c : Client Epoll) (r : Option ℕ) (w w' : World)
      → send p buffer n c w ≡ ok r w'
      → Step p (c, w) (c, w')

pub data Session (p : Proto) : Point → Point → Type 0 where
  ended : (s : Point) → Session p s s
  next : (s t u : Point) → Step p s t → Session p t u → Session p s u

module _ (x : ℤ) (d : IsDescriptor x) (p : Proto) where
  abbrev pub Balanced : ℕ → Point → Type 0
  Balanced k (c, w) = IsValid p c × Books x (held_state x c.state + k) w

  fresh_start :
      (c c' : Client Epoll) (b : Bool) (k : ℕ) (w' : World)
      → c.state ≡ idle none
      → IsValid p c'
        × Books x (held_state x c'.state + ((if b then held_state x c.state else 0) + k)) w'
      → Balanced k (c', w')
  fresh_start c c' b k w' e h =
      let nothing : held_state x c.state ≡ 0 = ap (held_state x) e in
      (h.0, (ground (arith, nothing, h.1), h.1.1))

  Step-Balanced : (s t : Point) (k : ℕ) → Step p s t → Balanced k s → Balanced k t
  Step-Balanced s t k (starts c c' b w w' e run) h =
      fresh_start c c' b k w' e
        (Returns-ok (start-Books x epoll_traits (epoll_traits-QuietPoll x) d p c k w h.0 h.1) run)
  Step-Balanced s t k (starts_at address port c c' b w w' run) h =
      Returns-ok
        (start_at-Books x epoll_traits (epoll_traits-QuietPoll x) d p address port c k w h.0 h.1)
        run
  Step-Balanced s t k (stops c c' w w' run) h =
      settled c' w'
        (Returns-ok (stop-Books x epoll_traits (epoll_traits-QuietPoll x) p c k w h.1) run)
    where
      settled :
          (c' : Client Epoll) (w' : World)
          → IsValid p c' × (c'.state ≡ idle none) × Books x k w'
          → Balanced k (c', w')
      settled c' w' g =
          let nothing : held_state x c'.state ≡ 0 = ap (held_state x) g.1 in
          (g.0, (ground (arith, nothing, g.2), g.2.1))
  Step-Balanced s t k (connects q c c' b w w' first run) h =
      Returns-ok (connect-first_Books x p q c k w h.0 first h.1) run
  Step-Balanced s t k (proceeds timeout c c' r w w' fits run) h =
      Returns-ok
        (proceed-Books x epoll_traits (epoll_traits-QuietPoll x) p timeout c k w h.0
          (proceed-Returns_epoll x c.poll timeout _ w fits h.1))
        run
  Step-Balanced s t k (receives buffer n c r w w' four run) h =
      (h.0, (Returns-ok (recv-Books x p buffer n c _ w four h.0 h.1) run).1)
  Step-Balanced s t k (sends buffer n c r w w' run) h =
      (h.0, Returns-ok (send-Books x p buffer n c _ w h.1) run)

  pub Session-Balanced : (s t : Point) (k : ℕ) → Session p s t → Balanced k s → Balanced k t
  Session-Balanced s t k (ended _) h = h
  Session-Balanced s t k (next _ u _ one rest) h =
      Session-Balanced u t k rest (Step-Balanced s u k one h)

  -- For a descriptor `x`, a client of an epoll that is well formed at the start, and balanced
  -- books: after any sequence of `start()` of a client that holds no socket, `start(address,
  -- port)`, `stop`, a first `connect`, `proceed` where the thread's vector has room for the events,
  -- `recv` for the IPv4 family and `send`, the destructor of the client is defined, and then just
  -- the `k` calls of `close` of before are owed for `x`. The epoll, whose destructor closes another
  -- descriptor, is taken to outlive the client.
  pub Session-closes :
      (c c' : Client Epoll) (k : ℕ) (w w' : World)
      → Session p (c, w) (c', w')
      → IsValid p c
      → Books x (held_state x c.state + k) w
      → Returns (λ _ w''. Books x k w'') (destroy epoll_traits (λ _. pure tt) c' w')
  unfolding destroy
  Session-closes c c' k w w' session v b =
      let end = Session-Balanced (c, w) (c', w') k session (v, b) in
      Returns-bind (destroy_state-Books x c'.state k w' end.1) λ _ w'' b'. returns b'
