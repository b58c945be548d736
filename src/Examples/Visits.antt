-- ===== src/Examples/Visits.antt =====
-- Tests of app/server_main.cpp: a turn in which a peer connects on descriptor 4 and sends "hi".
use strongly_typed_sockets.Base.{
  ℕ, zero, suc, ◌<◌, ◌≤◌, ◌≡◌, refl, ap, sym, ℤ, pos, ◌==ℤ◌, true, Option, none, some, List, [],
  ◌∷◌, arith, length, if◌then◌else◌, inl, inr, Bool-cases,
}
use strongly_typed_sockets.Os.{Bytes, Call, Reply, Trace, World, Run, undefined, perform, ok}
use strongly_typed_sockets.Os.Returns.{Returns}
use strongly_typed_sockets.Epoll
use strongly_typed_sockets.Epoll.{Epoll}
use strongly_typed_sockets.Observer
use strongly_typed_sockets.Observer.{epoll_traits, returned, Proceeded, find}
use strongly_typed_sockets.Server.{register_cbs}
use strongly_typed_sockets.States
use strongly_typed_sockets.Impl
use strongly_typed_sockets.Impl.Sockaddr.{parse_addr}
use strongly_typed_sockets.Service.{create_response, parse_ints, words, numbers, to_ints}
use strongly_typed_sockets.App.Sockets.{no_sockets, emplace_back}
use strongly_typed_sockets.App.Receiving.{joined}
use strongly_typed_sockets.App.Requests.{count, nth, Says, Peers}
use strongly_typed_sockets.App.Turn.{TcpServer, run_tcp, server_turn}
use strongly_typed_sockets.App.Turn.Connected.{Connected, TakesAll}
use strongly_typed_sockets.App.Turn.Answers.{Served, server_turn-Served}
use strongly_typed_sockets.Examples.World.{answered, linux, opened}
use strongly_typed_sockets.Examples.Apps.{hi, nothing, double}
use strongly_typed_sockets.Examples.Turns.{with_vector}

abbrev chunks : ℤ → List Bytes
chunks d = if d ==ℤ pos 4 then hi ∷ [] else []

abbrev said : Option Bytes → Reply
said none = nothing
said (some bytes) = record (answered (pos (length bytes))) { received = bytes }

abbrev visitors : Trace → Call → Reply
visitors t (Call.recv d _ _ _) = said (nth (count d t) (chunks d))
visitors t (Call.epoll_wait _ _ _) = answered (pos 1)
visitors t c = linux t c

said-Says :
    (texts : List Bytes) (k : ℕ)
    → ((bytes : Bytes) → nth k texts ≡ some bytes → length bytes ≤ 8)
    → Says 8 (nth k texts) (said (nth k texts))
said-Says texts k fits = go (nth k texts) fits
  where
    go :
        (o : Option Bytes)
        → ((bytes : Bytes) → o ≡ some bytes → length bytes ≤ 8)
        → Says 8 o (said o)
    go none small = (refl, refl)
    go (some bytes) small = record { count = refl; written = refl; fits = small bytes refl }

fits_hi : (k : ℕ) (bytes : Bytes) → nth k (hi ∷ []) ≡ some bytes → length bytes ≤ 8
fits_hi zero bytes at = let same : hi ≡ bytes = cc in omega (arith, ap length (sym same))
fits_hi (suc k) bytes at = absurd (ground (arith, at))

no_chunk : (k : ℕ) (bytes : Bytes) → nth {A = Bytes} k [] ≡ some bytes → ⊥
no_chunk k bytes at = ground (arith, at)

fits : (d : ℤ) (k : ℕ) (bytes : Bytes) → nth k (chunks d) ≡ some bytes → length bytes ≤ 8
fits d k bytes at = elim (Bool-cases (d ==ℤ pos 4)) [
  | inl e ↦ fits_hi k bytes (rw e at at)
  | inr e ↦ absurd (no_chunk k bytes (rw e at at))
]

few : (d : ℤ) → length (chunks d) < 2
few d = elim (Bool-cases (d ==ℤ pos 4)) [ inl e ↦ rw e (omega arith) | inr e ↦ rw e (omega arith) ]

all_say : Peers visitors 8 chunks
all_say t d buffer len = said-Says (chunks d) (count d t) (fits d (count d t))

all_taken : TakesAll visitors
all_taken t d text = refl

answers : (d : ℤ) → (resp : Bytes) × (create_response (joined (chunks d)) ≡ some resp)
unfolding create_response parse_ints words numbers to_ints
answers d = elim (Bool-cases (d ==ℤ pos 4)) [ inl e ↦ (hi, rw e refl) | inr e ↦ ([], rw e refl) ]

abbrev world : World
world = record opened { env = visitors }

abbrev idle_server : TcpServer Epoll
idle_server = with_vector no_sockets

abbrev events_run : Run (TcpServer Epoll × Proceeded)
events_run =
    Observer.proceed epoll_traits (run_tcp epoll_traits double) idle_server.server.poll
      idle_server.server.handlers idle_server.server.m_unhandled (pos 10) idle_server world

-- The server and the world after the events.
abbrev turned : Run (TcpServer Epoll × Proceeded) → TcpServer Epoll
turned (ok r w) = r.0
turned undefined = idle_server

abbrev world_after : Run (TcpServer Epoll × Proceeded) → World
world_after (ok r w) = w
world_after undefined = world

abbrev with_peer : TcpServer Epoll
with_peer = turned events_run

abbrev peer_world : World
peer_world = world_after events_run

proceeds : events_run ≡ ok (with_peer, returned true) peer_world
unfolding Observer.proceed run_tcp register_cbs Epoll.proceed perform find States.accept Impl.accept
    parse_addr Epoll.add_socket emplace_back Observer.handle_type States.destroy_impl
proceeds = refl

connected : Connected with_peer.main.active_sockets (pos 4 ∷ [])
unfolding Observer.proceed run_tcp register_cbs Epoll.proceed perform find States.accept Impl.accept
    parse_addr Epoll.add_socket emplace_back Observer.handle_type States.destroy_impl
connected zero e at = (
  pos 4,
  _,
  refl,
  refl,
  ap (λ o. elim o [ some u ↦ u.socket | none ↦ none ]) (sym at),
  refl,
  ap (λ o. elim o [ some u ↦ u.text | none ↦ [] ]) (sym at),
)
connected (suc k) e at = absurd (ground (arith, at))

server_turn-Served_example :
    Returns
      (λ r w'.
        (r.0.server ≡ with_peer.server)
        × Served (λ d. joined (chunks d)) (pos 4 ∷ []) with_peer.main peer_world (r.0.main, r.1) w')
      (server_turn epoll_traits double (pos 10) 3 2 idle_server world)
unfolding Observer.proceed run_tcp register_cbs Epoll.proceed perform find States.accept Impl.accept
    parse_addr Epoll.add_socket emplace_back Observer.handle_type States.destroy_impl
server_turn-Served_example =
    server_turn-Served visitors chunks (pos 4 ∷ []) 8 2 (omega arith) all_say few all_taken answers
      epoll_traits double (pos 10) 3 idle_server with_peer true world peer_world proceeds connected
      refl refl refl refl (refl, tt, tt) (omega arith)
