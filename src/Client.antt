-- ===== src/Client.antt =====
-- include/endpoint/client.h, src/endpoint/client.tpp and the parts of src/endpoint/endpoint.tpp that a
-- client uses. A handler is a constructor for each lambda that `register_cbs` makes, and
-- `run_handler` is its body. The calls of the poll go through the section's `traits`.
pub mod Frames
pub mod Stays
pub mod Control
pub mod Handlers
pub mod Lifecycle
pub mod Transfer
pub mod Connect
pub mod Connection
pub mod Reconnect
pub mod Exchange
pub mod Registration
pub mod Reactions
pub mod Outcome
pub mod Callbacks
pub mod Session
pub mod Invariant
pub mod KeepsPoll
use strongly_typed_sockets.Base.{
  ℕ, ℤ, minus_one, ◌==ℤ◌, Bool, true, false, ◌||◌, Option, none, some, [], is_some, if◌then◌else◌,
  suc, ◌==◌,
}
use strongly_typed_sockets.Os.{
  Bytes, Buffer, Callback, World, ok, undefined, Cmd, pure, ◌>>=◌, ◌>>◌, get_platform, deref,
}
use strongly_typed_sockets.Utils.{mbind, mbind_cmd}
use strongly_typed_sockets.Address.{InAddressPort, from_string_and_port}
use strongly_typed_sockets.Impl
use strongly_typed_sockets.States
use strongly_typed_sockets.States.{
  Proto, Socket, Binded, Active, destroy_impl, destroy_socket, destroy_binded, destroy_active,
}
use strongly_typed_sockets.Epoll
use strongly_typed_sockets.Epoll.{exception, read_ready, write_ready, peer_closed, error, hangup}
use strongly_typed_sockets.Observer
use strongly_typed_sockets.Observer.{PollTraits, Exn, invoke, add, remove, Proceeded}

-- `sum_of_client_states_t`; a connectionless protocol has no `binded`.
pub data ClientState : Type 0 where
  idle : Option Socket → ClientState
  binded : Binded → ClientState
  active : Active → ClientState

pub data Handler : Type 0 where
  erase on_readable on_writable : Handler

-- `client_t` with its bases; the statements about its fields use the source's names.
pub record Client (Poll : Type 0) : Type 0 where
  pub poll : Poll
  pub handlers : Observer.Handlers Handler
  pub m_unhandled : Option Callback
  pub af : ℤ
  pub state : ClientState
  pub m_remote : Option InAddressPort
  pub m_on_connect : Option Callback
  pub m_on_read_ready : Option Callback
  pub m_on_disconnect : Option Callback

-- The constructor, which is `endpoint_t`'s and that of the observer.
abbrev pub client_t :
    {Poll : Type 0} → Poll → (af : ℤ) → (unhandled : Option Callback) → Client Poll
client_t poll af unhandled = record {
  poll = poll;
  handlers = [];
  m_unhandled = unhandled;
  af = af;
  state = idle none;
  m_remote = none;
  m_on_connect = none;
  m_on_read_ready = none;
  m_on_disconnect = none;
}

-- `endpoint_t::idle`
abbrev pub is_idle : ClientState → Bool
is_idle (idle _) = true
is_idle _ = false

-- `endpoint_t::get_fd`
abbrev pub state_fd : ClientState → ℤ
state_fd (idle none) = minus_one
state_fd (idle (some s)) = Impl.fd s.m_impl
state_fd (binded s) = Impl.fd s.m_impl
state_fd (active s) = Impl.fd s.m_impl

-- The destructor of the variant.
unfoldable pub destroy_state : ClientState → Cmd (Unit {0})
destroy_state (idle none) = pure tt
destroy_state (idle (some s)) = destroy_socket s
destroy_state (binded s) = destroy_binded s
destroy_state (active s) = destroy_active s

-- `state = std::move(sock)` for a `socket_t`: a socket that the optional holds is move assigned, any
-- other alternative is destroyed first. Also what is left of `sock`.
unfoldable pub assign_socket : ClientState → Socket → Cmd (ClientState × Socket)
unfolding destroy_state
assign_socket (idle (some old)) sock =
    let (kept, left) = Impl.move_assign old.m_impl sock.m_impl in
    pure (idle (some (record { m_impl = kept })), record { m_impl = left })
assign_socket other sock = do
  destroy_state other
  let (kept, left) = Impl.move sock.m_impl
  pure (idle (some (record { m_impl = kept })), record { m_impl = left })

-- `state = …` for an alternative that the variant does not hold.
unfoldable pub replace_state : ClientState → ClientState → Cmd ClientState
unfolding destroy_state
replace_state old new = do destroy_state old; pure new

-- The call in which the closures of an instance of `client_t` were made: an earlier one, or this one.
abbrev pub made_in : Option ℕ → ℕ → ℕ
made_in none frame = frame
made_in (some earlier) frame = earlier

-- The world in a call of `connect`, a new frame. The first call for a protocol makes the function-local
-- statics of its instance of `client_t`, which are closures over references to `this` and to the
-- parameters of that frame.
abbrev pub entered : Proto → World → World
entered p w = record w {
  frames = suc w.frames;
  captured =
      λ k. if k == p.socket_type then some (made_in (w.captured k) w.frames) else w.captured k;
}

-- What references to the parameters of the call in `frame` lead to in the call `now` with these
-- parameters: a frame that has ended has none.
abbrev pub parameters_of : {A : Type 0} → (frame now : ℕ) → A → Option A
parameters_of frame now parameters = if frame == now then some parameters else none

-- Enters `connect` with these parameters: what the references in the closures lead to.
unfoldable pub enter_connect : {A : Type 0} → Proto → A → Cmd (Option A)
enter_connect p parameters w =
    ok (parameters_of (made_in (w.captured p.socket_type) w.frames) w.frames parameters)
      (entered p w)

-- A use of the closures reads the parameters through their references: undefined where these dangle.
unfoldable pub use_closures : {A : Type 0} → Option A → Cmd A
use_closures (some parameters) = pure parameters
use_closures none = λ _. undefined

module _ {Poll : Type 0} where
  unfoldable pub register_cbs : Client Poll → Client Poll
  unfolding add
  register_cbs c = record c {
    handlers =
        (add write_ready on_writable
          (add read_ready on_readable
            (add exception erase
              (add hangup erase
                (add error erase (add peer_closed erase c.handlers).0).0).0).0).0).0;
  }

  unfoldable pub unregister_cbs : Client Poll → Client Poll
  unfolding remove
  unregister_cbs c = record c {
    handlers =
        (remove read_ready
          (remove exception
            (remove hangup (remove error (remove peer_closed c.handlers).0).0).0).0).0;
  }

  unfoldable pub set_fields :
      InAddressPort
      → (on_connect on_read_ready on_disconnect : Option Callback) → Client Poll
      → Client Poll
  set_fields addr on_connect on_read_ready on_disconnect c = record c {
    m_remote = some addr;
    m_on_connect = on_connect;
    m_on_read_ready = on_read_ready;
    m_on_disconnect = on_disconnect;
  }

  -- `again_or_would_block`, which `finished_recv` and `finished_send` return.
  unfoldable pub again_or_would_block : Client Poll → Cmd Bool
  again_or_would_block c = elim c.state [ active _ ↦ States.again_or_would_block | _ ↦ pure true ]

module _ {Poll : Type 0} (traits : PollTraits Poll) where
  -- The lambda `erase`: the callback is forgotten unless it throws.
  unfoldable pub run_erase : ℤ → Client Poll → Cmd (Client Poll × Option Exn)
  unfolding invoke
  run_erase fd c =
      if fd ==ℤ state_fd c.state
      then (do
        traits.del_socket c.poll fd
        elim c.m_on_disconnect [
          | none ↦ pure (c, none)
          | some k ↦ do
            thrown ← invoke (some k) []
            pure (elim thrown [
              | some e ↦ (c, some e)
              | none ↦ (record c { m_on_disconnect = none }, none)
            ])
        ])
      else pure (c, none)

  unfoldable pub run_on_readable : ℤ → Client Poll → Cmd (Client Poll × Option Exn)
  unfolding invoke
  run_on_readable fd c =
      if fd ==ℤ state_fd c.state
      then (do thrown ← invoke c.m_on_read_ready []; pure (c, thrown))
      else pure (c, none)

  unfoldable pub run_on_writable : ℤ → Client Poll → Cmd (Client Poll × Option Exn)
  unfolding invoke
  run_on_writable fd c =
      if fd ==ℤ state_fd c.state
      then elim c.m_on_connect [
        | none ↦ pure (c, none)
        | some k ↦ do
          thrown ← invoke (some k) []
          pure (elim thrown [
            | some e ↦ (c, some e)
            | none ↦ (record c { m_on_connect = none }, none)
          ])
      ]
      else pure (c, none)

  unfoldable pub run_handler : Observer.Runner Handler (Client Poll)
  unfolding run_erase run_on_readable run_on_writable
  run_handler erase fd c = run_erase fd c
  run_handler on_readable fd c = run_on_readable fd c
  run_handler on_writable fd c = run_on_writable fd c

  unfoldable pub proceed : ℤ → Client Poll → Cmd (Client Poll × Proceeded)
  unfolding run_handler
  proceed timeout c = Observer.proceed traits run_handler c.poll c.handlers c.m_unhandled timeout c
