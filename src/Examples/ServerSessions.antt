-- ===== src/Examples/ServerSessions.antt =====
-- A test of src/endpoint/server.tpp: a server of TCP that is started and destroyed.
use strongly_typed_sockets.Base.{◌≡◌, refl, pos, true, none, some, [], ◌∷◌}
use strongly_typed_sockets.Os.{World, in4, Call, ok, after, pure, af_inet, perform}
use strongly_typed_sockets.Os.Returns.{Returns}
use strongly_typed_sockets.Address.{from_string_and_port}
use strongly_typed_sockets.States.{tcp}
use strongly_typed_sockets.States
use strongly_typed_sockets.Impl
use strongly_typed_sockets.Impl.Sockaddr.{sock_addr4, to_sockaddr}
use strongly_typed_sockets.Epoll
use strongly_typed_sockets.Epoll.{Epoll, flags_from_op, read, ctl_add}
use strongly_typed_sockets.Observer.{epoll_traits}
use strongly_typed_sockets.Accepted.{idle, listening}
use strongly_typed_sockets.Server.{Server, register_cbs}
use strongly_typed_sockets.Server.Control.{start, destroy}
use strongly_typed_sockets.Server.Session.{
  Session, starts, ended, next, Closed, Session-closes_server,
}
use strongly_typed_sockets.Examples.Endpoints.{server_of}
use strongly_typed_sockets.Examples.World.{before, machine, stream_impl, local_host, platform}

abbrev serving : Server Epoll
serving =
    register_cbs (
      server_of (listening (record { m_impl = stream_impl; m_local = local_host; m_max_conn = 5 })))

-- The world after the socket was opened and bound, listens and was registered.
abbrev listens : World
listens =
    after
      (after
        (after (after before (Call.socket af_inet 2049 0))
          (Call.bind (pos 3) (in4 (sock_addr4 platform local_host))))
        (Call.listen (pos 3) (pos 5)))
      (Call.epoll_ctl (pos 5) ctl_add (pos 3)
        (some (record { events = flags_from_op read; fd = pos 3 })))

server_run :
    start epoll_traits tcp (b'1' ∷ []) 80 5 (some 10) (some 11) (server_of (idle none)) before
    ≡ ok (serving, true) listens
unfolding start from_string_and_port States.create Impl.open_fd perform States.bind Impl.bind
    States.listen Impl.listen States.destroy_impl Epoll.add_socket to_sockaddr
server_run = refl

server_life : Session tcp (server_of (idle none), before) (serving, listens)
server_life =
    next (server_of (idle none), before) (serving, listens) (serving, listens)
      (starts (b'1' ∷ []) 80 5 (some 10) (some 11) (server_of (idle none)) serving true before
        listens refl server_run)
      (ended (serving, listens))

Session-closes_server_example :
    Returns (Closed (pos 3) 0) (destroy epoll_traits (λ _. pure tt) serving listens)
Session-closes_server_example =
    Session-closes_server (pos 3) refl tcp (server_of (idle none)) serving 0 before listens
      server_life tt (refl, machine)
