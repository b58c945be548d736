-- ===== src/Client/Control.antt =====
-- src/endpoint/client.tpp: the two `start`s of a client, `stop` and the destructor.
use strongly_typed_sockets.Base.{ℕ, Bool, true, false, Option, none, some, if◌then◌else◌}
use strongly_typed_sockets.Os.{Bytes, Cmd, pure, ◌>>=◌, ◌>>◌, get_platform}
use strongly_typed_sockets.Utils.{mbind_cmd}
use strongly_typed_sockets.Address.{InAddressPort, from_string_and_port}
use strongly_typed_sockets.Impl
use strongly_typed_sockets.States
use strongly_typed_sockets.States.{
  Proto, Socket, Binded, Active, destroy_impl, destroy_socket, destroy_binded, destroy_active,
}
use strongly_typed_sockets.Epoll
use strongly_typed_sockets.Epoll.{exception, read_ready, write_ready, peer_closed, error, hangup}
use strongly_typed_sockets.Observer.{PollTraits}
use strongly_typed_sockets.Client.{
  ClientState, idle, binded, active, Client, is_idle, state_fd, destroy_state, assign_socket,
  replace_state, register_cbs, unregister_cbs,
}

module _ {Poll : Type 0} (traits : PollTraits Poll) where
  -- The lambda of `start()`.
  unfoldable pub adopt_socket : Client Poll → Socket → Cmd (Socket × Option (Client Poll))
  unfolding register_cbs assign_socket
  adopt_socket c sock = do
    traits.add_socket c.poll (Impl.fd sock.m_impl) Epoll.read_write
    (state, left) ← assign_socket c.state sock
    pure (left, some (record (register_cbs c) { state = state }))

  -- `start()`
  unfoldable pub start : Proto → Client Poll → Cmd (Client Poll × Bool)
  unfolding adopt_socket mbind_cmd
  start p c =
      if is_idle c.state
      then (do
        created ← States.create p c.af
        started ← mbind_cmd destroy_socket created (adopt_socket c)
        pure (elim started [ some c' ↦ (c', true) | none ↦ (c, false) ]))
      else pure (c, false)

  -- `bind` of the protocol's policy, as the state that the client will hold.
  unfoldable pub bind_state : Proto → InAddressPort → Socket → Cmd (Socket × Option ClientState)
  bind_state p at sock =
      if p.is_connectionless
      then (do
        (left, bound) ← States.bind_datagram sock at
        pure (left, elim bound [ some b ↦ some (active b) | none ↦ none ]))
      else do
        (left, bound) ← States.bind sock at
        pure (left, elim bound [ some b ↦ some (binded b) | none ↦ none ])

  -- What `start(address, port)` does with the state that it bound.
  unfoldable pub adopt_state : Client Poll → ClientState → Cmd (Client Poll × Bool)
  unfolding register_cbs replace_state
  adopt_state c bound = do
    traits.add_socket c.poll (state_fd bound) Epoll.read_write
    state ← replace_state c.state bound
    pure (record (register_cbs c) { state = state }, true)

  -- `start(address, port)`
  unfoldable pub start_at : Proto → Bytes → ℕ → Client Poll → Cmd (Client Poll × Bool)
  unfolding bind_state adopt_state mbind_cmd
  start_at p local_address local_port c = do
    pl ← get_platform
    if is_idle c.state
        then elim (from_string_and_port pl local_address local_port) [
          | none ↦ pure (c, false)
          | some at ↦ do
            created ← States.create p c.af
            bound ← mbind_cmd destroy_socket created (bind_state p at)
            elim bound [ some b ↦ adopt_state c b | none ↦ pure (c, false) ]
        ]
        else pure (c, false)

  unfoldable pub stop : Client Poll → Cmd (Client Poll)
  unfolding destroy_state unregister_cbs
  stop c = do
    traits.del_socket c.poll (state_fd c.state)
    destroy_state c.state
    pure (unregister_cbs (record c { state = idle none }))

  -- `~client_t`; the state and then the poll are destroyed with the bases.
  unfoldable pub destroy : (Poll → Cmd (Unit {0})) → Client Poll → Cmd (Unit {0})
  unfolding destroy_state
  destroy destroy_poll c = do destroy_state c.state; destroy_poll c.poll
