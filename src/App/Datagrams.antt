-- ===== src/App/Datagrams.antt =====
-- app/server_main.cpp: the UDP server together with the callbacks that `init` gave it, as App.Turn has
-- the TCP server. Every element of its vector points to the one socket in the server's state.
pub mod Handling
pub mod Receiving
pub mod Senders
pub mod Texts
pub mod Replying
pub mod Answering
pub mod Turns
use strongly_typed_sockets.Base.{ℕ, ℤ, ◌==ℤ◌, Option, none, some, if◌then◌else◌}
use strongly_typed_sockets.Os.{Cmd, pure, ◌>>=◌, ◌>>◌}
use strongly_typed_sockets.Observer
use strongly_typed_sockets.Observer.{
  PollTraits, Exn, Runner, Proceeded, returned, proceed_exception,
}
use strongly_typed_sockets.Accepted.{AcceptedSockRef}
use strongly_typed_sockets.SendRecv.{SendRecv, accepted_sock_ref}
use strongly_typed_sockets.Server.{Server, Handler, erase, on_readable, state_fd}
use strongly_typed_sockets.App.Sockets.{ActiveSockets}
use strongly_typed_sockets.App.Server.{
  Main, Passed, terminated, serve, on_datagram, on_datagram_close,
}

pub record UdpServer (Poll : Type 0) : Type 0 where
  pub server : Server Poll
  pub main : Main AcceptedSockRef

-- `accepted_sock_ref{this->state}`; the server is the one of location 0.
abbrev pub new_ref : AcceptedSockRef
new_ref = record { m_sock = some 0; m_remote = none }

module _ {Poll : Type 0} where
  abbrev pub refs : UdpServer Poll → ActiveSockets AcceptedSockRef
  refs a = a.main.active_sockets

  abbrev pub with_refs : ActiveSockets AcceptedSockRef → UdpServer Poll → UdpServer Poll
  with_refs v a = record a { main = record a.main { active_sockets = v } }

  -- The methods of the elements, on the state that the server has.
  abbrev pub methods : UdpServer Poll → SendRecv AcceptedSockRef
  methods a = accepted_sock_ref (λ l. a.server.state)

module _ {Poll : Type 0} (traits : PollTraits Poll) (grow : ℕ → ℕ) where
  -- The lambda `erase` of `register_cbs`.
  unfoldable pub end_all : ℤ → UdpServer Poll → Cmd (UdpServer Poll × Option Exn)
  end_all fd a = do
    traits.del_socket a.server.poll fd
    v ← on_datagram_close (methods a) (refs a)
    pure (with_refs v a, none)

  -- `m_on_conn(accepted_sock_ref<Proto>{this->state})`
  unfoldable pub refer : UdpServer Poll → Cmd (UdpServer Poll × Option Exn)
  refer a =
      let (v, left) = on_datagram grow new_ref (refs a) in
      do (methods a).destroy left; pure (with_refs v a, none)

  unfoldable pub run_udp : Runner Handler (UdpServer Poll)
  unfolding end_all refer
  run_udp erase fd a = end_all fd a
  run_udp on_readable fd a = if fd ==ℤ state_fd a.server.state then refer a else pure (a, none)

  -- A turn of the loop of `main`.
  unfoldable pub udp_turn :
      (timeout : ℤ) (rounds fuel : ℕ) → UdpServer Poll → Cmd (UdpServer Poll × Passed)
  unfolding run_udp
  udp_turn timeout rounds fuel a = do
    (a', proceeded) ←
        Observer.proceed traits run_udp a.server.poll a.server.handlers a.server.m_unhandled timeout
          a
    elim proceeded [
      | proceed_exception es ↦ pure (a', terminated)
      | returned _ ↦ do
        (m, ended) ← serve (methods a') rounds fuel 0 a'.main
        pure (record a' { main = m }, ended)
    ]
