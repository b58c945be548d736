-- ===== src/App/Turn.antt =====
-- app/server_main.cpp: the TCP server together with the callbacks that `init` gave it. They are
-- closures over the global `active_sockets`, so a handler of src/endpoint/server.tpp that calls them
-- changes the server's surroundings: `TcpServer` is the server with the variables of `main`. The
-- handlers here are those of `Server` with the calls of `m_on_conn` and `m_erase_active_socket`
-- replaced by the bodies of the closures.
pub mod Holdings
pub mod Events
pub mod Ownership
pub mod Growth
pub mod Silence
pub mod Idle
pub mod Peers
pub mod Connected
pub mod Rounds
pub mod Answers
use strongly_typed_sockets.Base.{ℕ, ℤ, ◌==ℤ◌, Option, none, some, if◌then◌else◌}
use strongly_typed_sockets.Os.{Cmd, pure, ◌>>=◌, ◌>>◌, deref}
use strongly_typed_sockets.Impl
use strongly_typed_sockets.States
use strongly_typed_sockets.States.{Active, destroy_active}
use strongly_typed_sockets.Epoll
use strongly_typed_sockets.Observer
use strongly_typed_sockets.Observer.{
  PollTraits, Exn, bad_variant_access, Runner, Proceeded, returned, proceed_exception,
}
use strongly_typed_sockets.Accepted.{AcceptedSock, listening}
use strongly_typed_sockets.SendRecv.{accepted_sock}
use strongly_typed_sockets.Server.{Server, Handler, erase, on_readable, state_fd}
use strongly_typed_sockets.App.Sockets.{ActiveSockets}
use strongly_typed_sockets.App.Server.{Main, Passed, terminated, serve, on_conn, on_close}

pub record TcpServer (Poll : Type 0) : Type 0 where
  pub server : Server Poll
  pub main : Main AcceptedSock

module _ {Poll : Type 0} where
  abbrev pub sockets : TcpServer Poll → ActiveSockets AcceptedSock
  sockets a = a.main.active_sockets

  abbrev pub with_sockets : ActiveSockets AcceptedSock → TcpServer Poll → TcpServer Poll
  with_sockets v a = record a { main = record a.main { active_sockets = v } }

module _ {Poll : Type 0} (traits : PollTraits Poll) (grow : ℕ → ℕ) where
  -- The lambda `erase` of `register_cbs`.
  unfoldable pub end_connection : ℤ → TcpServer Poll → Cmd (TcpServer Poll × Option Exn)
  end_connection fd a = do
    traits.del_socket a.server.poll fd
    v ← on_close fd (sockets a)
    pure (with_sockets v a, none)

  -- `m_on_conn(accepted_sock{*remote, std::move(*accepted)})`, and the end of the temporary.
  unfoldable pub take_connection : Active → TcpServer Poll → Cmd (TcpServer Poll × Option Exn)
  take_connection sock a = do
    traits.add_socket a.server.poll (Impl.fd sock.m_impl) Epoll.read
    remote ← deref (States.remote sock)
    let (v, left) = on_conn grow (record { m_sock = sock; m_remote = remote }) (sockets a)
    destroy_active left.m_sock
    pure (with_sockets v a, none)

  -- The lambda for READ_READY.
  unfoldable pub accept_connection : TcpServer Poll → Cmd (TcpServer Poll × Option Exn)
  unfolding take_connection
  accept_connection a = elim a.server.state [
    | listening sock ↦ do
      accepted ← States.accept sock
      elim accepted [ some c ↦ take_connection c a | none ↦ pure (a, none) ]
    | _ ↦ pure (a, some bad_variant_access)
  ]

  unfoldable pub run_tcp : Runner Handler (TcpServer Poll)
  unfolding end_connection accept_connection
  run_tcp erase fd a = end_connection fd a
  run_tcp on_readable fd a =
      if fd ==ℤ state_fd a.server.state then accept_connection a else pure (a, none)

  -- A turn of the loop of `main`: an exception that leaves `proceed` ends the program.
  unfoldable pub server_turn :
      (timeout : ℤ) (rounds fuel : ℕ) → TcpServer Poll → Cmd (TcpServer Poll × Passed)
  unfolding run_tcp
  server_turn timeout rounds fuel a = do
    (a', proceeded) ←
        Observer.proceed traits run_tcp a.server.poll a.server.handlers a.server.m_unhandled timeout
          a
    elim proceeded [
      | proceed_exception es ↦ pure (a', terminated)
      | returned _ ↦ do
        (m, ended) ← serve accepted_sock rounds fuel 0 a'.main
        pure (record a' { main = m }, ended)
    ]
