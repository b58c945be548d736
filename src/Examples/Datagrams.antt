-- ===== src/Examples/Datagrams.antt =====
-- Tests of app/server_main.cpp: two datagrams of different senders come to the UDP server.
use strongly_typed_sockets.Base.{
  ◌≡◌, refl, pos, minus_one, true, none, some, [], ◌∷◌, false, length, arith,
}
use strongly_typed_sockets.Os.{Call, Reply, Run, Trace, SockaddrIn, World, ok, undefined, perform}
use strongly_typed_sockets.Os.Returns.{Returns}
use strongly_typed_sockets.Os.Ledger.{IsMachine}
use strongly_typed_sockets.States.{Active}
use strongly_typed_sockets.Accepted.{active}
use strongly_typed_sockets.Epoll
use strongly_typed_sockets.Epoll.{Epoll}
use strongly_typed_sockets.Observer
use strongly_typed_sockets.Observer.{epoll_traits, returned, Proceeded, find}
use strongly_typed_sockets.Server.{register_cbs}
use strongly_typed_sockets.Service.{create_response, parse_ints, words, numbers, to_ints}
use strongly_typed_sockets.App.Sockets.{no_sockets, emplace_back}
use strongly_typed_sockets.App.Sockets.Settled.{place}
use strongly_typed_sockets.App.Datagrams.{UdpServer, new_ref, run_udp, udp_turn}
use strongly_typed_sockets.App.Datagrams.Receiving.{Arrive}
use strongly_typed_sockets.App.Datagrams.Turns.{AllReplied, udp_turn-Replied}
use strongly_typed_sockets.Examples.Endpoints.{server_of}
use strongly_typed_sockets.Examples.World.{answered, peer4, local_host, memory, stream_impl}
use strongly_typed_sockets.Examples.Apps.{hi, nothing, double, world_with}

abbrev other_peer : SockaddrIn
other_peer = record peer4 { sin_port = 81 }

-- The poll has an event, and then "h" comes from the first peer and "i" from the other.
abbrev two_senders : Trace → Call → Reply
two_senders [] c = answered (pos 1)
two_senders (_ ∷ []) c = record (answered (pos 1)) { received = b'h' ∷ [] }
two_senders (_ ∷ _ ∷ []) c = record (answered (pos 1)) { received = b'i' ∷ []; addr4 = other_peer }
two_senders (_ ∷ _ ∷ _ ∷ []) c = nothing
two_senders t c = answered (pos 2)

abbrev sock : Active
sock = record {
  m_impl = stream_impl;
  m_remote = none;
  m_local = some local_host;
  m_accepted = false;
}

abbrev udp_server : UdpServer Epoll
udp_server = record {
  server = register_cbs (server_of (active sock));
  main = record { active_sockets = no_sockets; tmp_buff = memory; is_tcp = false };
}

abbrev events_run : Run (UdpServer Epoll × Proceeded)
events_run =
    Observer.proceed epoll_traits (run_udp epoll_traits double) udp_server.server.poll
      udp_server.server.handlers udp_server.server.m_unhandled (pos 10) udp_server
      (world_with two_senders)

-- The server and the world after the event.
abbrev with_ref : UdpServer Epoll
with_ref = record udp_server {
  main = record {
    active_sockets = emplace_back double new_ref minus_one no_sockets;
    tmp_buff = memory;
    is_tcp = false;
  };
}

abbrev world_after : Run (UdpServer Epoll × Proceeded) → World
world_after (ok r w) = w
world_after undefined = world_with two_senders

proceeds : events_run ≡ ok (with_ref, returned true) (world_after events_run)
unfolding Observer.proceed run_udp register_cbs Epoll.proceed perform find emplace_back
    Observer.handle_type
proceeds = refl

address_of : (t : Trace) (c : Call) → length (two_senders t c).addr4.s_addr ≡ 4
address_of [] c = refl
address_of (_ ∷ []) c = refl
address_of (_ ∷ _ ∷ []) c = refl
address_of (_ ∷ _ ∷ _ ∷ []) c = refl
address_of (_ ∷ _ ∷ _ ∷ _ ∷ t) c = refl

padding_of : (t : Trace) (c : Call) → length (two_senders t c).addr4.sin_zero ≡ 8
padding_of [] c = refl
padding_of (_ ∷ []) c = refl
padding_of (_ ∷ _ ∷ []) c = refl
padding_of (_ ∷ _ ∷ _ ∷ []) c = refl
padding_of (_ ∷ _ ∷ _ ∷ _ ∷ t) c = refl

two_senders-IsMachine : IsMachine (world_with two_senders)
two_senders-IsMachine = record {
  fresh = refl;
  readable = omega arith;
  address = address_of;
  padding = padding_of;
}

echoed : create_response hi ≡ some hi
unfolding create_response parse_ints words numbers to_ints
echoed = refl

arrives :
    Arrive two_senders
      (pos 3)
      8
      ((peer4, b'h' ∷ []) ∷ (other_peer, b'i' ∷ []) ∷ [])
      (world_after events_run).trace
unfolding Observer.proceed run_udp register_cbs Epoll.proceed perform find emplace_back
    Observer.handle_type
arrives = λ buffer len. (
  record { count = refl; written = refl; fits = omega arith; sender = refl },
  λ buffer' len'. (
    record { count = refl; written = refl; fits = omega arith; sender = refl },
    λ buffer'' len''. (refl, refl),
  ),
)

-- The reply to both goes to the other peer.
udp_turn-Replied_example :
    Returns
      (λ r w'. (r.0.server ≡ with_ref.server) × AllReplied (pos 3) hi other_peer (r.0.main, r.1) w')
      (udp_turn epoll_traits double (pos 10) 2 3 udp_server (world_with two_senders))
unfolding Observer.proceed run_udp register_cbs Epoll.proceed perform find emplace_back
    Observer.handle_type
udp_turn-Replied_example =
    udp_turn-Replied epoll_traits double sock (pos 3) refl refl (pos 10) 0 3 udp_server with_ref
      true (record { socket = some (place 1 0); fd = minus_one; text = [] }) new_ref peer4
      (b'h' ∷ []) ((other_peer, b'i' ∷ []) ∷ []) hi (world_with two_senders)
      (world_after events_run) proceeds refl
      (record { stand = ((refl, (new_ref, refl)), tt); room = omega arith }) refl refl refl
      (omega arith) (omega arith) two_senders-IsMachine arrives refl echoed
      (record {
        filled = record { address = refl; padding = refl };
        family = refl;
        zero_padding = refl;
        order = refl;
      })
