-- ===== src/Examples/Servers.antt =====
-- Tests of src/endpoint/server.tpp: a server of TCP and one of UDP over an epoll.
use strongly_typed_sockets.Base.{◌+◌, refl, pos, false, none, some, [], ◌∷◌, arith}
use strongly_typed_sockets.Os.{Bytes}
use strongly_typed_sockets.Os.Returns.{Returns}
use strongly_typed_sockets.Os.Ledger.{Books}
use strongly_typed_sockets.States.{tcp, Active}
use strongly_typed_sockets.Epoll.{Epoll}
use strongly_typed_sockets.Epoll.Polling.{proceed-Returns_epoll}
use strongly_typed_sockets.Observer.{epoll_traits}
use strongly_typed_sockets.Observer.Quiet.{epoll_traits-QuietPoll}
use strongly_typed_sockets.Accepted.{
  ServerState, idle, listening, active, Location, AcceptedSockRef,
}
use strongly_typed_sockets.Server
use strongly_typed_sockets.Server.{Server, register_cbs}
use strongly_typed_sockets.Server.Control.{start}
use strongly_typed_sockets.Server.Lifecycle.{held_state, IsValid, start-Books_server}
use strongly_typed_sockets.Server.Handlers.{proceed-Books_server}
use strongly_typed_sockets.Examples.Endpoints.{poll, server_of}
use strongly_typed_sockets.Examples.World.{before, opened, machine, stream_impl, local_host}

-- A listening server with its handlers.
abbrev running : Server Epoll
running =
    register_cbs (
      server_of (listening (record { m_impl = stream_impl; m_local = local_host; m_max_conn = 5 })))

abbrev address : Bytes
address = b'1' ∷ []

start-Books_server_example :
    Returns
      (λ r w'. IsValid tcp r.0 × Books (pos 3) (held_state (pos 3) r.0.state + 0) w')
      (start epoll_traits tcp address 80 5 (some 10) (some 11) (server_of (idle none)) before)
start-Books_server_example =
    start-Books_server (pos 3) epoll_traits (epoll_traits-QuietPoll (pos 3)) refl tcp address 80 5
      (some 10) (some 11) (server_of (idle none)) 0 before refl tt (refl, machine)

-- A callback that takes no connection: the server closes descriptor 4 again.
proceed-Books_server_example :
    Returns
      (λ r w'. IsValid tcp r.0 × Books (pos 4) (held_state (pos 4) r.0.state + 0) w')
      (Server.proceed epoll_traits tcp (pos 0) running opened)
unfolding register_cbs
proceed-Books_server_example =
    proceed-Books_server (pos 4) refl epoll_traits (epoll_traits-QuietPoll (pos 4)) tcp (pos 0)
      running 0 opened refl (record { present = refl; family = refl }, refl)
      (proceed-Returns_epoll (pos 4) poll (pos 0) 0 opened (omega arith) (refl, machine))

-- A UDP server, and the object that its callback has for the sender.
abbrev state_at : Location → ServerState
state_at l = active (record {
  m_impl = stream_impl;
  m_remote = none;
  m_local = some local_host;
  m_accepted = false;
})

abbrev socket : Active
socket = record {
  m_impl = stream_impl;
  m_remote = none;
  m_local = some local_host;
  m_accepted = false;
}

abbrev accepted : AcceptedSockRef
accepted = record { m_sock = some 0; m_remote = some local_host }
