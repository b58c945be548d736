-- ===== src/App/Turn/Ownership.antt =====
-- app/server_main.cpp: the descriptors of the connections, through the handlers that take and end
-- them.
use strongly_typed_sockets.Base.{ℕ, ◌+◌, ◌<◌, ◌≡◌, ℤ}
use strongly_typed_sockets.Os.{World}
use strongly_typed_sockets.Os.Returns.{Returns}
use strongly_typed_sockets.Os.Ledger.{Books, IsDescriptor}
use strongly_typed_sockets.Impl.{SocketImpl}
use strongly_typed_sockets.Impl
use strongly_typed_sockets.Epoll
use strongly_typed_sockets.States
use strongly_typed_sockets.States.{Listening}
use strongly_typed_sockets.Observer.{PollTraits}
use strongly_typed_sockets.Observer.Quiet.{QuietPoll}
use strongly_typed_sockets.Server.{Handler}
use strongly_typed_sockets.Server.Lifecycle.{held_state}
use strongly_typed_sockets.App.Sockets.Settled.{IsSettled}
use strongly_typed_sockets.App.Turn.Holdings.{held_sockets}
use strongly_typed_sockets.App.Turn.Events.{Effect}
use strongly_typed_sockets.App.Turn.{TcpServer, sockets}

module _ (x : ℤ) (d : IsDescriptor x) {Poll : Type 0} (traits : PollTraits Poll)
    (q : QuietPoll x traits) (grow : ℕ → ℕ) (grows : (n : ℕ) → n < grow n) where
  -- The vector stands, and `x` is owed for the server's state and for the elements.
  abbrev pub Owned : ℕ → TcpServer Poll → World → Type 0
  Owned k a w =
      IsSettled (sockets a)
      × Books x (held_sockets x (sockets a) + (held_state x a.server.state + k)) w

  abbrev pub Kept : ℕ → Handler → ℤ → TcpServer Poll → TcpServer Poll → World → Type 0
  Kept k handler fd a r w =
      ((r.server ≡ a.server) × Effect handler fd (sockets a).elements (sockets r).elements)
      × Owned k r w
