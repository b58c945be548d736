-- ===== src/Server.antt =====
-- include/endpoint/server.h, src/endpoint/server.tpp and the parts of src/endpoint/endpoint.tpp that a
-- server uses, laid out as `Client` is.
pub mod Control
pub mod Handlers
pub mod Lifecycle
pub mod Session
use strongly_typed_sockets.Base.{
  ℕ, ℤ, minus_one, ◌==ℤ◌, Bool, true, false, Option, none, some, [], ◌∷◌, ◌||◌, is_some,
  if◌then◌else◌,
}
use strongly_typed_sockets.Os.{
  Bytes, Callback, Call, Reply, Cmd, pure, ◌>>=◌, ◌>>◌, perform, get_platform, undefined,
}
use strongly_typed_sockets.Utils.{mbind_cmd}
use strongly_typed_sockets.Address.{InAddressPort, from_string_and_port}
use strongly_typed_sockets.Impl
use strongly_typed_sockets.States
use strongly_typed_sockets.States.{
  Proto, Socket, Binded, Listening, Active, destroy_socket, destroy_binded, destroy_listening,
  destroy_active,
}
use strongly_typed_sockets.Epoll
use strongly_typed_sockets.Epoll.{exception, read_ready, peer_closed, error, hangup}
use strongly_typed_sockets.Observer
use strongly_typed_sockets.Observer.{
  PollTraits, Exn, bad_function_call, bad_variant_access, user, invoke, add, remove, Proceeded,
}
use strongly_typed_sockets.Accepted.{ServerState, idle, binded, listening, active}

pub data Handler : Type 0 where
  erase on_readable : Handler

-- `m_on_conn` and `m_erase_active_socket` hold the user's callbacks behind a lambda that erases the
-- type; `m_ignores_fd` says that the latter is the one of the connectionless `start`, which calls the
-- user's `on_close` with no argument.
pub record Server (Poll : Type 0) : Type 0 where
  pub poll : Poll
  pub handlers : Observer.Handlers Handler
  pub m_unhandled : Option Callback
  pub af : ℤ
  pub state : ServerState
  pub m_on_conn : Option Callback
  pub m_erase_active_socket : Option Callback
  pub m_ignores_fd : Bool

-- The constructor, which is `endpoint_t`'s and that of the observer.
abbrev pub server_t :
    {Poll : Type 0} → Poll → (af : ℤ) → (unhandled : Option Callback) → Server Poll
server_t poll af unhandled = record {
  poll = poll;
  handlers = [];
  m_unhandled = unhandled;
  af = af;
  state = idle none;
  m_on_conn = none;
  m_erase_active_socket = none;
  m_ignores_fd = false;
}

abbrev pub is_idle : ServerState → Bool
is_idle (idle _) = true
is_idle _ = false

abbrev pub state_fd : ServerState → ℤ
state_fd (idle none) = minus_one
state_fd (idle (some s)) = Impl.fd s.m_impl
state_fd (binded s) = Impl.fd s.m_impl
state_fd (listening s) = Impl.fd s.m_impl
state_fd (active s) = Impl.fd s.m_impl

unfoldable pub destroy_state : ServerState → Cmd (Unit {0})
destroy_state (idle none) = pure tt
destroy_state (idle (some s)) = destroy_socket s
destroy_state (binded s) = destroy_binded s
destroy_state (listening s) = destroy_listening s
destroy_state (active s) = destroy_active s

-- `m_erase_active_socket(fd)`: an empty callback of the user throws in its lambda.
unfoldable pub erase_active_socket : {Poll : Type 0} → ℤ → Server Poll → Cmd (Option Exn)
unfolding invoke
erase_active_socket fd c = invoke c.m_erase_active_socket (if c.m_ignores_fd then [] else fd ∷ [])

-- `m_on_conn(accepted_sock{*remote, std::move(*accepted)})`: the temporary is destroyed at the end,
-- with the descriptor unless the callback moved it away.
unfoldable pub hand_over : Option Callback → Active → Cmd (Option Exn)
hand_over none sock = do destroy_active sock; pure (some bad_function_call)
hand_over (some k) sock = do
  r ← perform (Call.hand_over k (Impl.fd sock.m_impl))
  (if r.took then pure tt else destroy_active sock)
  pure (if r.threw then some (user k) else none)

module _ {Poll : Type 0} where
  unfoldable pub register_cbs : Server Poll → Server Poll
  unfolding add
  register_cbs c = record c {
    handlers =
        (add read_ready on_readable
          (add exception erase
            (add hangup erase (add error erase (add peer_closed erase c.handlers).0).0).0).0).0;
  }

  unfoldable pub unregister_cbs : Server Poll → Server Poll
  unfolding remove
  unregister_cbs c = record c {
    handlers =
        (remove read_ready
          (remove exception
            (remove hangup (remove error (remove peer_closed c.handlers).0).0).0).0).0;
  }

module _ {Poll : Type 0} (traits : PollTraits Poll) where
  -- The lambda `erase`, which does not look whose descriptor it is given.
  unfoldable pub run_erase : ℤ → Server Poll → Cmd (Server Poll × Option Exn)
  unfolding erase_active_socket
  run_erase fd c = do
    traits.del_socket c.poll fd
    thrown ← erase_active_socket fd c
    pure (c, thrown)

  -- What the handler of READ_READY does with a connection.
  unfoldable pub welcome : Server Poll → Active → Cmd (Server Poll × Option Exn)
  unfolding hand_over
  welcome c sock = do
    traits.add_socket c.poll (Impl.fd sock.m_impl) Epoll.read
    thrown ← hand_over c.m_on_conn sock
    pure (c, thrown)

  unfoldable pub run_accept : Server Poll → Cmd (Server Poll × Option Exn)
  unfolding welcome
  run_accept c = elim c.state [
    | listening sock ↦ do
      accepted ← States.accept sock
      elim accepted [ some a ↦ welcome c a | none ↦ pure (c, none) ]
    | _ ↦ pure (c, some bad_variant_access)
  ]

  unfoldable pub run_on_readable : Proto → ℤ → Server Poll → Cmd (Server Poll × Option Exn)
  unfolding run_accept invoke
  run_on_readable p fd c =
      if fd ==ℤ state_fd c.state
      then if p.is_connectionless
        then (do thrown ← invoke c.m_on_conn []; pure (c, thrown))
        else run_accept c
      else pure (c, none)

  unfoldable pub run_handler : Proto → Observer.Runner Handler (Server Poll)
  unfolding run_erase run_on_readable
  run_handler p erase fd c = run_erase fd c
  run_handler p on_readable fd c = run_on_readable p fd c

  unfoldable pub proceed : Proto → ℤ → Server Poll → Cmd (Server Poll × Proceeded)
  unfolding run_handler
  proceed p timeout c =
      Observer.proceed traits (run_handler p) c.poll c.handlers c.m_unhandled timeout c
