-- ===== src/App/Startup.antt =====
-- app/server_main.cpp and app/client_main.cpp: `main` up to the loop, and the two `init`s of the server,
-- whose callbacks are the closures 0, for a connection, and 1, for an end.
use strongly_typed_sockets.Base.{
  ℕ, ℤ, pos, to_size, ◌==◌, Bool, true, false, ◌&&◌, Option, none, some, List, [], ◌∷◌,
}
use strongly_typed_sockets.Os.{Bytes, af_inet, Cmd, pure, ◌>>=◌, undefined}
use strongly_typed_sockets.States.{tcp, udp}
use strongly_typed_sockets.Epoll.{Epoll, epoll, constructed, runtime_error, Constructed}
use strongly_typed_sockets.Observer.{PollTraits, epoll_traits}
use strongly_typed_sockets.Server.{Server, server_t}
use strongly_typed_sockets.Server.Control.{start, start_datagram}
use strongly_typed_sockets.App.Client.{localhost, init}
use strongly_typed_sockets.Client.{Client, client_t}

module _ {Poll : Type 0} (traits : PollTraits Poll) where
  unfoldable pub init_udp : ℕ → Server Poll → Cmd (Server Poll × Bool)
  init_udp local_port serv = start_datagram traits udp localhost local_port (some 0) (some 1) serv

  unfoldable pub init_tcp : ℕ → Server Poll → Cmd (Server Poll × Bool)
  init_tcp local_port serv = start traits tcp localhost local_port 10 (some 0) (some 1) serv

-- What `main` has when it comes to the loop: the server, the size of its buffer and whether the
-- protocol is TCP. Otherwise it ends by `std::terminate`, also for an exception.
pub data Started : Type 0 where
  serving : (server : Server Epoll) (buff_size : ℕ) (is_tcp : Bool) → Started
  terminated : Started

-- `operator==` of texts.
abbrev pub same_text : Bytes → Bytes → Bool
same_text [] [] = true
same_text [] (d ∷ t) = false
same_text (c ∷ s) [] = false
same_text (c ∷ s) (d ∷ t) = c == d && same_text s t

abbrev pub tcp_text : Bytes
tcp_text = b't' ∷ b'c' ∷ b'p' ∷ []

abbrev pub udp_text : Bytes
udp_text = b'u' ∷ b'd' ∷ b'p' ∷ []

-- The construction of a server with the epoll that was made, and the server if its `init` succeeds.
unfoldable pub start_with :
    (Server Epoll → Cmd (Server Epoll × Bool))
    → (buff_size : ℕ) (is_tcp : Bool) → Constructed
    → Cmd Started
start_with init buff_size is_tcp (runtime_error errno) = pure terminated
start_with init buff_size is_tcp (constructed poll) = do
  (server, started) ← init (server_t poll af_inet none)
  elim started [ true ↦ pure (serving server buff_size is_tcp) | false ↦ pure terminated ]

-- `server_….emplace(epoll_t{5, 10u}, ipv4{})` and the `init` of the server.
unfoldable pub emplace :
    (Server Epoll → Cmd (Server Epoll × Bool)) → (buff_size : ℕ) (is_tcp : Bool) → Cmd Started
unfolding epoll start_with
emplace init buff_size is_tcp = do made ← epoll (pos 5) 10; start_with init buff_size is_tcp made

unfoldable pub start_server : Bytes → ℕ → Cmd Started
unfolding emplace init_tcp init_udp
start_server proto local_port = elim (same_text proto tcp_text) [
  | true ↦ emplace (init_tcp epoll_traits local_port) 20 true
  | false ↦ elim (same_text proto udp_text) [
    | true ↦ emplace (init_udp epoll_traits local_port) 256 false
    | false ↦ pure terminated
  ]
]

-- `main` with its arguments, of which `argv[2]` is read where there may be only one; `stoi` is the
-- function of the C++ library, `none` where it throws.
unfoldable pub main_start : (stoi : Bytes → Option ℤ) → List Bytes → Cmd Started
unfolding start_server
main_start stoi [] = pure terminated
main_start stoi (proto ∷ []) = λ w. undefined
main_start stoi (proto ∷ port ∷ rest) = elim (stoi port) [
  | none ↦ pure terminated
  | some n ↦ start_server proto (to_size n)
]

-- The client, if its `init` succeeds; `main` ends by `std::terminate` without one.
unfoldable pub client_with :
    (Client Epoll → Cmd (Client Epoll × Bool)) → Constructed → Cmd (Option (Client Epoll))
client_with init (runtime_error errno) = pure none
client_with init (constructed poll) = do
  (client, ready) ← init (client_t poll af_inet none)
  pure (elim ready [ true ↦ some client | false ↦ none ])

-- Over TCP the client takes no local port; every other text stands for UDP.
unfoldable pub start_client : Bytes → ℕ → Option ℕ → Cmd (Option (Client Epoll))
unfolding epoll client_with
start_client proto remote_port local_port = do
  made ← epoll (pos 5) 10
  elim (same_text proto tcp_text) [
    | true ↦ client_with (init epoll_traits tcp remote_port none) made
    | false ↦ client_with (init epoll_traits udp remote_port local_port) made
  ]

-- `main` with its arguments, up to the test of the client.
unfoldable pub client_main : (stoi : Bytes → Option ℤ) → List Bytes → Cmd (Option (Client Epoll))
unfolding start_client
client_main stoi [] = pure none
client_main stoi (proto ∷ []) = pure none
client_main stoi (proto ∷ remote_port ∷ rest) = elim (stoi remote_port) [
  | none ↦ pure none
  | some remote ↦ elim rest [
    | [] ↦ start_client proto (to_size remote) none
    | local_port ∷ _ ↦ elim (stoi local_port) [
      | none ↦ pure none
      | some local ↦ start_client proto (to_size remote) (some (to_size local))
    ]
  ]
]
