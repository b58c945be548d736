-- ===== src/Client/Connect.antt =====
-- src/endpoint/client.tpp: `client_t::connect`.
use strongly_typed_sockets.Base.{ℕ, Bool, true, false, Option, none, some, if◌then◌else◌}
use strongly_typed_sockets.Os.{Bytes, Callback, Cmd, pure, ◌>>=◌, get_platform}
use strongly_typed_sockets.Address.{InAddressPort, from_string_and_port}
use strongly_typed_sockets.States
use strongly_typed_sockets.States.{Proto, Socket, Binded, Active}
use strongly_typed_sockets.Client.{
  ClientState, idle, binded, active, Client, replace_state, enter_connect, use_closures, set_fields,
}

-- The arguments of `connect`.
pub record Request : Type 0 where
  pub remote_address : Bytes
  pub remote_port : ℕ
  pub on_connect : Option Callback
  pub on_read_ready : Option Callback
  pub on_disconnect : Option Callback

-- `sock.connect(addr)` on the socket that a state holds, with the state that it leaves.
unfoldable pub connect_idle : Socket → InAddressPort → Cmd (ClientState × Option Active)
connect_idle sock addr = do (left, made) ← States.connect sock addr; pure (idle (some left), made)

unfoldable pub connect_bound : Binded → InAddressPort → Cmd (ClientState × Option Active)
connect_bound sock addr = do
  (left, made) ← States.connect_binded sock addr
  pure (binded left, made)

module _ {Poll : Type 0} where
  abbrev pub fields_of : Request → InAddressPort → Client Poll → Client Poll
  fields_of q addr = set_fields addr q.on_connect q.on_read_ready q.on_disconnect

  -- The end of the static lambda `connect`: what to do with the result of the socket's `connect`,
  -- where `left` is the state that the socket leaves.
  unfoldable pub finish_connect :
      Request → InAddressPort → ClientState → Option Active → Client Poll → Cmd (Client Poll × Bool)
  unfolding set_fields replace_state
  finish_connect q addr left none c = pure (record c { state = left }, false)
  finish_connect q addr left (some connected) c = do
    state ← replace_state left (active connected)
    pure (record (fields_of q addr c) { state = state }, true)

  -- The static lambda `connect` on a socket: `policy` is the `connect` of the socket, with the state
  -- that it leaves.
  unfoldable pub connect_parsed :
      (policy : InAddressPort → Cmd (ClientState × Option Active))
      → Request
      → Client Poll
      → Option InAddressPort
      → Cmd (Client Poll × Bool)
  unfolding finish_connect
  connect_parsed policy q c none = pure (c, false)
  connect_parsed policy q c (some addr) = do
    (left, connected) ← policy addr
    finish_connect q addr left connected c

  unfoldable pub call_connect :
      (policy : InAddressPort → Cmd (ClientState × Option Active))
      → Request
      → Client Poll
      → Cmd (Client Poll × Bool)
  unfolding connect_parsed
  call_connect policy q c = do
    pl ← get_platform
    connect_parsed policy q c (from_string_and_port pl q.remote_address q.remote_port)

  -- The lambda for an active socket, which is not connected again.
  unfoldable pub retarget :
      Option Request → Client Poll → Option InAddressPort → Cmd (Client Poll × Bool)
  unfolding use_closures set_fields
  retarget refs c none = pure (c, false)
  retarget refs c (some addr) = do q ← use_closures refs; pure (fields_of q addr c, true)

  -- The lambda that `std::visit` selects for each state; `refs` is what the references of the closures
  -- lead to.
  unfoldable pub connect_from :
      Proto → Request → Option Request → ClientState → Client Poll → Cmd (Client Poll × Bool)
  unfolding connect_idle connect_bound call_connect use_closures retarget
  connect_from p q refs (active _) c = do
    pl ← get_platform
    retarget refs c (from_string_and_port pl q.remote_address q.remote_port)
  connect_from p q refs (idle none) c = pure (c, false)
  connect_from p q refs (idle (some sock)) c =
      if p.is_connectionless
      then pure (c, false)
      else do q' ← use_closures refs; call_connect (connect_idle sock) q' c
  connect_from p q refs (binded sock) c = do
    q' ← use_closures refs
    call_connect (connect_bound sock) q' c

  unfoldable pub connect : Proto → Request → Client Poll → Cmd (Client Poll × Bool)
  unfolding connect_from
  connect p q c = do refs ← enter_connect p q; connect_from p q refs c.state c
