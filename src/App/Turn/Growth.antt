-- ===== src/App/Turn/Growth.antt =====
-- app/server_main.cpp: a turn of the loop in which a connection comes while `active_sockets` is full.
use strongly_typed_sockets.Base.{ℕ, suc, ◌≡◌, refl, ℤ, ==ℤ_refl, Bool, none, some, [], ◌∷◌, length}
use strongly_typed_sockets.Os.{World, ok, undefined, perform}
use strongly_typed_sockets.Address.{InAddressPort}
use strongly_typed_sockets.Impl
use strongly_typed_sockets.States
use strongly_typed_sockets.States.{Active, Listening}
use strongly_typed_sockets.Epoll
use strongly_typed_sockets.Epoll.{Epoll, Event, EventType, no_event}
use strongly_typed_sockets.Observer
use strongly_typed_sockets.Observer.{
  PollTraits, epoll_traits, Handlers, Runner, find, handled_types, handle_events, handle_unhandled,
  add_exception, dispatch, returned,
}
use strongly_typed_sockets.Observer.Single.{dispatch-one}
use strongly_typed_sockets.Observer.Selection.{selected}
use strongly_typed_sockets.Accepted.{AcceptedSock, listening, move_sock}
use strongly_typed_sockets.SendRecv.{accepted_sock}
use strongly_typed_sockets.Server.{on_readable}
use strongly_typed_sockets.App.Sockets.{Element, emplace_back}
use strongly_typed_sockets.App.Sockets.Settled.{IsSettled, emplace_back-dangles}
use strongly_typed_sockets.App.Server.{Main, receive_all, visit, serve, element_at}
use strongly_typed_sockets.App.Turn.{
  TcpServer, sockets, with_sockets, take_connection, accept_connection, run_tcp, server_turn,
}

-- A visit of the first element is undefined where each use of its pointer is.
serve-dangles :
    (rounds fuel : ℕ) (e : Element) (m : Main AcceptedSock) (w : World)
    → element_at 0 m.active_sockets.elements ≡ some e
    → visit accepted_sock fuel 0 e m w ≡ undefined
    → serve accepted_sock (suc rounds) fuel 0 m w ≡ undefined
unfolding serve
serve-dangles rounds fuel e m w at bad = rw (serve, at, bad) refl

registers :
    (e : Epoll) (fd : ℤ) (w : World)
    → (b : Bool) × (last : World) × (Epoll.add_socket e fd Epoll.read w ≡ ok b last)
unfolding Epoll.add_socket perform
registers e fd w = (_, _, refl)

-- What `accept_connection` does with a connection: it goes into the vector.
accept-takes :
    (grow : ℕ → ℕ) (a : TcpServer Epoll) (s : Listening) (c : Active) (at : InAddressPort)
    (w w' : World)
    → a.server.state ≡ listening s
    → States.accept s w ≡ ok (some c) w'
    → c.m_remote ≡ some at
    → (kept : AcceptedSock) × (last : World) × (accept_connection epoll_traits grow a w
        ≡ ok (with_sockets (emplace_back grow kept (Impl.fd c.m_impl) (sockets a)) a, none) last)
unfolding accept_connection take_connection States.destroy_impl
accept-takes grow a s c at w w' state accepts knows =
    let (b, last, adds) = registers a.server.poll (Impl.fd c.m_impl) w' in
    (
      (move_sock (record { m_sock = record c { m_remote = some at }; m_remote = at })).0,
      last,
      simp (state, accept_connection, accepts, take_connection, adds, knows) refl,
    )

module _ (grow : ℕ → ℕ) where
  -- For a vector in which every element leads to an object in its own storage, and which is full
  -- and not empty: a turn of the loop in which the poll gives one event, of the listening socket
  -- and for the handler of what can be read alone, and in which `accept` gives a connection, has
  -- undefined behaviour, whatever the bounds of the loop are. No handler is registered for the
  -- empty type, and there is no callback for unhandled events.
  pub server_turn-dangles :
      (timeout : ℤ) (rounds fuel : ℕ) (a : TcpServer Epoll) (s : Listening) (type : EventType)
      (c : Active) (at : InAddressPort) (e : Element) (w w1 w2 : World)
      → a.server.state ≡ listening s
      → a.server.m_unhandled ≡ none
      → find no_event a.server.handlers ≡ none
      → selected (run_tcp epoll_traits grow) a.server.handlers handled_types type ≡ on_readable ∷ []
      → Epoll.proceed a.server.poll timeout w
        ≡ ok (record { fd = Impl.fd s.m_impl; type = type } ∷ []) w1
      → States.accept s w1 ≡ ok (some c) w2
      → c.m_remote ≡ some at
      → IsSettled (sockets a)
      → length (sockets a).elements ≡ (sockets a).capacity
      → element_at 0 (sockets a).elements ≡ some e
      → server_turn epoll_traits grow timeout (suc rounds) fuel a w ≡ undefined
  unfolding server_turn Observer.proceed run_tcp visit
  server_turn-dangles timeout rounds fuel a s type c at e w w1 w2 state none_for quiet chosen polls
        accepts knows h full first =
      let (kept, last, takes) = accept-takes grow a s c at w1 w2 state accepts knows in
      let v = emplace_back grow kept (Impl.fd c.m_impl) (sockets a) in
      let event : Event = record { fd = Impl.fd s.m_impl; type = type } in
      let runs : run_tcp epoll_traits grow on_readable event.fd a w1
          ≡ ok (with_sockets v a, none) last =
        simp (run_tcp, state, ==ℤ_refl (Impl.fd s.m_impl)) takes in
      let (there, bad) =
        emplace_back-dangles grow kept (Impl.fd c.m_impl) (sockets a) 0 e
          (receive_all accepted_sock fuel a.main.tmp_buff e.text) last h full first in
      simp
        (
          server_turn,
          Observer.proceed,
          polls,
          none_for,
          dispatch-one (run_tcp epoll_traits grow) a.server.handlers epoll_traits on_readable event
              a (with_sockets v a) w1 last quiet chosen runs,
          serve-dangles rounds fuel e (with_sockets v a).main last there (rw bad refl),
        )
        refl
