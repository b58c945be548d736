-- ===== src/States.antt =====
-- include/socket/socket.h, include/socket/proto.h, include/socket_states, include/policy and
-- src/socket/socket.tpp: a type for each state of a socket, and the policies that lead from one to
-- the next. A policy moves the `socket_impl` out of the object on success, so it gives back what it
-- leaves of the object. The policies of a connection based protocol are named `…`, those of a
-- connectionless one `…_datagram`.
pub mod Ledger
pub mod Phases
pub mod Calls
pub mod Transfers
pub mod Typestate
pub mod Creation
pub mod Refinement
use strongly_typed_sockets.Base.{ℕ, ℤ, Bool, true, false, ◌||◌, Option, none, some, if◌then◌else◌}
use strongly_typed_sockets.Os.{
  sock_stream, sock_dgram, Buffer, Cmd, pure, ◌>>=◌, ◌>>◌, get_platform,
}
use strongly_typed_sockets.Utils.{mbind}
use strongly_typed_sockets.Address.{InAddressPort}
use strongly_typed_sockets.Impl
use strongly_typed_sockets.Impl.{SocketImpl, ShutdownDir}

-- A protocol: its socket type, whether it is connectionless, and `flags` if it declares them.
pub record Proto : Type 0 where
  pub is_connectionless : Bool
  pub socket_type : ℕ
  pub flags : Option ℕ

abbrev pub tcp : Proto
tcp = record { is_connectionless = false; socket_type = sock_stream; flags = none }

abbrev pub udp : Proto
udp = record { is_connectionless = true; socket_type = sock_dgram; flags = none }

pub record Socket : Type 0 where
  pub m_impl : SocketImpl

pub record Binded : Type 0 where
  pub m_impl : SocketImpl
  pub m_local : InAddressPort

pub record Listening : Type 0 where
  pub m_impl : SocketImpl
  pub m_local : InAddressPort
  pub m_max_conn : ℕ

pub record Active : Type 0 where
  pub m_impl : SocketImpl
  pub m_remote : Option InAddressPort
  pub m_local : Option InAddressPort
  pub m_accepted : Bool

-- The constructors, which move the implementation out of the object that they are given: the new
-- object, and what is left there.
abbrev pub socket_t : SocketImpl → Socket × SocketImpl
socket_t impl = let (taken, left) = Impl.move impl in (record { m_impl = taken }, left)

abbrev pub binded_socket_t : InAddressPort → SocketImpl → Binded × SocketImpl
binded_socket_t local impl =
    let (taken, left) = Impl.move impl in (record { m_impl = taken; m_local = local }, left)

abbrev pub listening_socket_t : ℕ → InAddressPort → SocketImpl → Listening × SocketImpl
listening_socket_t max_conn local impl =
    let (taken, left) = Impl.move impl in
    (record { m_impl = taken; m_local = local; m_max_conn = max_conn }, left)

abbrev pub active_socket_t :
    SocketImpl → (remote local : Option InAddressPort) → (accepted : Bool) → Active × SocketImpl
active_socket_t impl remote local accepted =
    let (taken, left) = Impl.move impl in
    (record { m_impl = taken; m_remote = remote; m_local = local; m_accepted = accepted }, left)

-- The accessors: `local` of each state that has a local address, `max_conn`, `accepted`, `remote`.
abbrev pub local_binded : Binded → InAddressPort
local_binded s = s.m_local

abbrev pub local_listening : Listening → InAddressPort
local_listening s = s.m_local

abbrev pub max_conn : Listening → ℕ
max_conn s = s.m_max_conn

abbrev pub accepted : Active → Bool
accepted s = s.m_accepted

abbrev pub remote : Active → Option InAddressPort
remote s = s.m_remote

abbrev pub local_active : Active → Option InAddressPort
local_active s = s.m_local

-- The destructor of each of the four.
unfoldable pub destroy_impl : SocketImpl → Cmd (Unit {0})
destroy_impl s = if Impl.empty s then pure tt else (do Impl.close s; pure tt)

abbrev pub destroy_socket : Socket → Cmd (Unit {0})
destroy_socket s = destroy_impl s.m_impl

abbrev pub destroy_binded : Binded → Cmd (Unit {0})
destroy_binded s = destroy_impl s.m_impl

abbrev pub destroy_listening : Listening → Cmd (Unit {0})
destroy_listening s = destroy_impl s.m_impl

abbrev pub destroy_active : Active → Cmd (Unit {0})
destroy_active s = destroy_impl s.m_impl

abbrev pub protocol_of : Proto → ℕ
protocol_of p = elim p.flags [ some flags ↦ flags | none ↦ 0 ]

-- `socket_t::create`, with flags and without.
unfoldable pub create : Proto → ℤ → Cmd (Option Socket)
create p af = do
  pl ← get_platform
  (sock, opened) ← Impl.open_fd (Impl.default_impl pl) af p.socket_type (protocol_of p)
  if opened then pure (some (socket_t sock).0) else pure none

-- `bind_policy`
unfoldable pub bind : Socket → InAddressPort → Cmd (Socket × Option Binded)
bind s at = do
  bound ← Impl.bind s.m_impl at
  let (made, left) = binded_socket_t at s.m_impl
  if bound then pure (record { m_impl = left }, some made) else pure (s, none)

unfoldable pub bind_datagram : Socket → InAddressPort → Cmd (Socket × Option Active)
bind_datagram s at = do
  bound ← Impl.bind s.m_impl at
  let (made, left) = active_socket_t s.m_impl none (some at) false
  if bound then pure (record { m_impl = left }, some made) else pure (s, none)

-- `connect_policy`, for a state that has no local address and for one that has.
unfoldable pub connect : Socket → InAddressPort → Cmd (Socket × Option Active)
connect s at = do
  connected ← Impl.connect s.m_impl at
  let (made, left) = active_socket_t s.m_impl (some at) none false
  if connected then pure (record { m_impl = left }, some made) else pure (s, none)

unfoldable pub connect_binded : Binded → InAddressPort → Cmd (Binded × Option Active)
connect_binded s at = do
  connected ← Impl.connect s.m_impl at
  let (made, left) = active_socket_t s.m_impl (some at) (some (local_binded s)) false
  if connected then pure (record s { m_impl = left }, some made) else pure (s, none)

-- `listen_policy`
unfoldable pub listen : Binded → ℕ → Cmd (Binded × Option Listening)
listen s backlog = do
  listening ← Impl.listen s.m_impl backlog
  let (made, left) = listening_socket_t backlog (local_binded s) s.m_impl
  if listening then pure (record s { m_impl = left }, some made) else pure (s, none)

-- `accept_policy`
unfoldable pub accept : Listening → Cmd (Option Active)
unfolding mbind
accept s = do
  peer ← Impl.accept s.m_impl
  pure (
      mbind peer
        λ (impl, from). some (active_socket_t impl (some from) (some (local_listening s)) true).0)

-- `send_recv_policy`
abbrev pub send : Active → Buffer → ℕ → ℤ → Cmd (Option ℕ)
send s = Impl.send s.m_impl

abbrev pub receive : Active → Buffer → ℕ → ℤ → Cmd (Option ℕ)
receive s = Impl.receive s.m_impl

abbrev pub send_datagram : Active → InAddressPort → Buffer → ℕ → ℤ → Cmd (Option ℕ)
send_datagram s = Impl.send_to s.m_impl

abbrev pub receive_datagram : Active → Buffer → ℕ → ℤ → Cmd (Option (InAddressPort × ℕ))
receive_datagram s = Impl.receive_from s.m_impl

unfoldable pub shutdown : Active → ShutdownDir → Cmd Bool
shutdown s dir = if Impl.empty s.m_impl then pure true else Impl.shutdown s.m_impl dir

-- `again() || would_block()`
unfoldable pub again_or_would_block : Cmd Bool
again_or_would_block = do again ← Impl.eagain; if again then pure true else Impl.would_block
