-- ===== src/Server/Control.antt =====
-- src/endpoint/server.tpp: the `start` of either kind of server, and the destructor.
use strongly_typed_sockets.Base.{
  ℕ, minus_one, Bool, true, false, Option, none, some, ◌||◌, is_some, if◌then◌else◌,
}
use strongly_typed_sockets.Os.{Bytes, Callback, Cmd, pure, ◌>>=◌, ◌>>◌, get_platform}
use strongly_typed_sockets.Utils.{mbind_cmd}
use strongly_typed_sockets.Address.{InAddressPort, from_string_and_port}
use strongly_typed_sockets.States
use strongly_typed_sockets.States.{
  Proto, Socket, Binded, Listening, Active, destroy_socket, destroy_binded, destroy_listening,
  destroy_active,
}
use strongly_typed_sockets.Epoll
use strongly_typed_sockets.Epoll.{exception, read_ready, peer_closed, error, hangup}
use strongly_typed_sockets.Observer.{PollTraits}
use strongly_typed_sockets.Accepted.{ServerState, listening, active}
use strongly_typed_sockets.Server.{
  Server, is_idle, state_fd, destroy_state, erase_active_socket, register_cbs,
}

-- A destructor ends normally, or by `std::terminate` where an exception leaves it.
pub data Ended : Type 0 where
  finished terminated : Ended

-- The two functions of the `mbind` of three in `start`: bind the socket, and let what was bound listen.
unfoldable pub bind_listen : ℕ → InAddressPort → Socket → Cmd (Socket × Option Listening)
unfolding mbind_cmd
bind_listen max_conns addr sock = do
  (left, bound) ← States.bind sock addr
  made ← mbind_cmd destroy_binded bound (λ b. States.listen b max_conns)
  pure (left, made)

module _ {Poll : Type 0} (traits : PollTraits Poll) where
  -- The second half of `start`: the state that it has made replaces the one of the idle server.
  unfoldable pub adopt_state :
      (on_conn erase_active_socket : Option Callback) (ignores_fd : Bool)
      → ServerState
      → Server Poll
      → Cmd (Server Poll × Bool)
  unfolding register_cbs destroy_state
  adopt_state on_conn erase_active_socket ignores_fd made c = do
    traits.add_socket c.poll (state_fd made) Epoll.read
    destroy_state c.state
    pure (
      record (register_cbs c) {
        state = made;
        m_on_conn = on_conn;
        m_erase_active_socket = erase_active_socket;
        m_ignores_fd = ignores_fd;
      },
      true,
    )

  -- `start` for a connection based protocol.
  unfoldable pub start :
      Proto
      → Bytes
      → ℕ
      → (max_conns : ℕ) → (on_conn erase_active_socket : Option Callback) → Server Poll
      → Cmd (Server Poll × Bool)
  unfolding adopt_state mbind_cmd bind_listen
  start p address port max_conns on_conn erase_active_socket c = do
    pl ← get_platform
    if is_idle c.state
        then elim (from_string_and_port pl address port) [
          | none ↦ pure (c, false)
          | some addr ↦ do
            created ← States.create p c.af
            listener ← mbind_cmd destroy_socket created (bind_listen max_conns addr)
            elim listener [
              | some made ↦ adopt_state on_conn erase_active_socket false (listening made) c
              | none ↦ pure (c, false)
            ]
        ]
        else pure (c, false)

  -- `start` for a connectionless protocol.
  unfoldable pub start_datagram :
      Proto
      → Bytes
      → ℕ
      → (on_conn on_close : Option Callback) → Server Poll
      → Cmd (Server Poll × Bool)
  unfolding adopt_state mbind_cmd
  start_datagram p address port on_conn on_close c = do
    pl ← get_platform
    if is_idle c.state
        then elim (from_string_and_port pl address port) [
          | none ↦ pure (c, false)
          | some addr ↦ do
            created ← States.create p c.af
            bound ← mbind_cmd destroy_socket created (λ sock. States.bind_datagram sock addr)
            elim bound [
              | some made ↦ adopt_state on_conn on_close true (active made) c
              | none ↦ pure (c, false)
            ]
        ]
        else pure (c, false)

  -- `~server_t`: the lambda of a connectionless server is never an empty function.
  unfoldable pub destroy : (Poll → Cmd (Unit {0})) → Server Poll → Cmd Ended
  unfolding destroy_state erase_active_socket
  destroy destroy_poll c = do
    thrown ←
        (if c.m_ignores_fd || is_some c.m_erase_active_socket
          then erase_active_socket minus_one c
          else pure none)
    elim thrown [
      | some _ ↦ pure terminated
      | none ↦ do destroy_state c.state; destroy_poll c.poll; pure finished
    ]
