-- ===== src/Examples/Turns.antt =====
-- Tests of app/server_main.cpp: the TCP server, to which a peer connects on descriptor 4, and the UDP
-- server.
use strongly_typed_sockets.Base.{
  none, some, zero, suc, minus_one, ap, sym, ◌≡◌, refl, pos, true, inr, arith, some, [], false,
}
use strongly_typed_sockets.Os.{Call, Reply, Trace, World, undefined, perform}
use strongly_typed_sockets.Os.Returns.{Returns}
use strongly_typed_sockets.States.{Active, Listening}
use strongly_typed_sockets.Epoll
use strongly_typed_sockets.Impl
use strongly_typed_sockets.Impl.Sockaddr.{parse_addr}
use strongly_typed_sockets.States
use strongly_typed_sockets.Epoll.{Epoll, read_ready}
use strongly_typed_sockets.Observer.{epoll_traits, find}
use strongly_typed_sockets.Observer.Quiet.{epoll_traits-QuietPoll}
use strongly_typed_sockets.Accepted.{active, AcceptedSock, listening}
use strongly_typed_sockets.Server.{on_readable, register_cbs}
use strongly_typed_sockets.App.Sockets.{ActiveSockets, no_sockets}
use strongly_typed_sockets.App.Datagrams.{UdpServer, refs, run_udp}
use strongly_typed_sockets.App.Datagrams.Handling.{Handled, run_udp-Handled}
use strongly_typed_sockets.Os.Ledger.{Books}
use strongly_typed_sockets.App.Turn.{sockets, TcpServer, server_turn}
use strongly_typed_sockets.App.Turn.Silence.{HasNoText}
use strongly_typed_sockets.App.Turn.Idle.{server_turn-idle}
use strongly_typed_sockets.App.Server.{passed}
use strongly_typed_sockets.App.Sockets.Settled.{IsSettled}
use strongly_typed_sockets.App.Turn.Growth.{server_turn-dangles}
use strongly_typed_sockets.Examples.Apps.{one_socket, one-IsSettled, double, grows}
use strongly_typed_sockets.Examples.Endpoints.{server_of}
use strongly_typed_sockets.Examples.World.{
  answered, linux, memory, opened, machine, stream_impl, local_host,
}

abbrev pub listener : Listening
listener = record { m_impl = stream_impl; m_local = local_host; m_max_conn = 10 }

abbrev pub with_vector : ActiveSockets AcceptedSock → TcpServer Epoll
with_vector v = record {
  server = register_cbs (server_of (listening listener));
  main = record { active_sockets = v; tmp_buff = memory; is_tcp = true };
}

-- One event, for descriptor 3.
abbrev one_event : Trace → Call → Reply
one_event t (Call.epoll_wait _ _ _) = answered (pos 1)
one_event t c = linux t c

abbrev world : World
world = record opened { env = one_event }

server_turn-dangles_example :
    server_turn epoll_traits double (pos 10) 5 5 (with_vector one_socket) world ≡ undefined
unfolding register_cbs Epoll.proceed perform find States.accept Impl.accept parse_addr
server_turn-dangles_example =
    server_turn-dangles double (pos 10) 4 5 (with_vector one_socket) listener read_ready _
      local_host _ world _ _ refl refl refl refl refl refl refl one-IsSettled refl refl

-- No event, and nothing to receive.
abbrev nothing_comes : Trace → Call → Reply
nothing_comes t (Call.epoll_wait _ _ _) = answered (pos 0)
nothing_comes t (Call.recv _ _ _ _) = answered minus_one
nothing_comes t c = linux t c

abbrev quiet_world : World
quiet_world = record opened { env = nothing_comes }

no_text : HasNoText one_socket.elements
no_text zero e at = ap (λ o. elim o [ some u ↦ u.text | none ↦ [] ]) (sym at)
no_text (suc n) e at = absurd (ground (arith, at))

server_turn-idle_example :
    Returns
      (λ r w'.
        (r.1 ≡ passed)
        × (r.0.server ≡ (with_vector one_socket).server)
        × ((sockets r.0).elements ≡ one_socket.elements)
        × IsSettled (sockets r.0))
      (server_turn epoll_traits double (pos 10) 2 3 (with_vector one_socket) quiet_world)
unfolding register_cbs Epoll.proceed perform
server_turn-idle_example =
    server_turn-idle epoll_traits double (pos 10) 2 2 (with_vector one_socket) quiet_world _ refl
      refl (omega arith) one-IsSettled no_text (λ t d buffer. refl)

-- A UDP server to which a first datagram comes.
abbrev datagrams : UdpServer Epoll
datagrams = record {
  server = server_of (
      active (record {
        m_impl = stream_impl;
        m_remote = none;
        m_local = some local_host;
        m_accepted = false;
      }));
  main = record { active_sockets = no_sockets; tmp_buff = memory; is_tcp = false };
}

run_udp-Handled_example :
    Returns
      (λ r w'.
        (r.0.server ≡ datagrams.server)
        × (r.1 ≡ none)
        × IsSettled (refs r.0)
        × Handled on_readable (pos 3) datagrams r.0
        × Books (pos 3) 1 w')
      (run_udp epoll_traits double on_readable (pos 3) datagrams opened)
run_udp-Handled_example =
    run_udp-Handled (pos 3) epoll_traits (epoll_traits-QuietPoll (pos 3)) double grows on_readable
      (pos 3) datagrams 1 opened (inr refl) (record { stand = tt; room = omega arith })
      (refl, machine)
