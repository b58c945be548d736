-- ===== src/Impl.antt =====
-- src/socket/socket_impl.cpp: the class `socket_impl`, a descriptor that may be absent and an address
-- family. `Sockaddr` is the choice of the template argument `Addr`, `Impl.Sockaddr` converts between
-- address structures and addresses.
pub mod Sockaddr
pub mod Ledger
pub mod RoundTrip
pub mod Accept
pub mod Behaviour
use strongly_typed_sockets.Base.{
  ℕ, ◌%◌, ◌^◌, ℤ, minus_one, ◌==ℤ◌, to_size, to_int, Bool, true, false, ◌&&◌, ◌||◌, not, Option,
  none, some, is_none, bit_or, ◌==◌, if◌then◌else◌, ◌-◌,
}
use strongly_typed_sockets.Os.{
  af_inet, af_inet6, sock_nonblock, e_again, e_would_block, e_in_progress, Buffer, Call, Reply,
  Platform, World, Cmd, pure, ◌>>=◌, ◌>>◌, perform, get_errno, get_platform, deref, succeeds,
}
use strongly_typed_sockets.Os
use strongly_typed_sockets.Address.{InAddress, InAddressPort, is_ipv4, is_ipv6}
use Sockaddr.{AddrKind, addr_in, addr_in6, addr_size, to_sockaddr, parse_addr}

pub record SocketImpl : Type 0 where
  pub m_fd : Option ℤ
  pub m_family : ℤ

-- `socket_impl(fd, fam)`, and the default constructor, which leaves `m_family` as it is.
abbrev pub socket_impl : ℤ → ℤ → SocketImpl
socket_impl fd fam = record { m_fd = some fd; m_family = fam }

abbrev pub default_impl : Platform → SocketImpl
default_impl pl = record { m_fd = none; m_family = pl.fresh_int }

abbrev pub empty : SocketImpl → Bool
empty s = is_none s.m_fd

-- `socket_impl(socket_impl&&)`: the new object, and the one moved from.
abbrev pub move : SocketImpl → SocketImpl × SocketImpl
move other = (record { m_fd = other.m_fd; m_family = other.m_family }, record other { m_fd = none })

-- `operator=(socket_impl&&)` on two objects: what `*this` held is dropped, not closed.
abbrev pub move_assign : SocketImpl → SocketImpl → SocketImpl × SocketImpl
move_assign self other = move other

-- `fd()`
abbrev pub fd : SocketImpl → ℤ
fd s = elim s.m_fd [ some d ↦ d | none ↦ minus_one ]

-- `open`
unfoldable pub open_fd : SocketImpl → ℤ → ℕ → ℕ → Cmd (SocketImpl × Bool)
open_fd s fam proto flags = do
  r ← perform (Call.socket fam (bit_or sock_nonblock proto) flags)
  if not (r.ret ==ℤ minus_one)
      then pure (record { m_fd = some r.ret; m_family = fam }, true)
      else pure (s, false)

pub data ShutdownDir : Type 0 where
  read write both : ShutdownDir

-- SHUT_RD, SHUT_WR and SHUT_RDWR.
abbrev pub macro_dir : ShutdownDir → ℤ
macro_dir read = ℤ.pos 0
macro_dir write = ℤ.pos 1
macro_dir both = ℤ.pos 2

-- An empty socket shuts down and closes with success.
unfoldable pub shutdown : SocketImpl → ShutdownDir → Cmd Bool
shutdown s dir = elim s.m_fd [
  | none ↦ pure true
  | some d ↦ succeeds (Call.shutdown d (macro_dir dir))
]

unfoldable pub close : SocketImpl → Cmd Bool
close s = elim s.m_fd [ none ↦ pure true | some d ↦ succeeds (Call.close d) ]

unfoldable pub bind_addr : SocketImpl → Os.Sockaddr → Cmd Bool
bind_addr s addr = elim s.m_fd [ none ↦ pure false | some d ↦ succeeds (Call.bind d addr) ]

-- `*m_fd` is read before `m_fd` is tested.
unfoldable pub connect_addr : SocketImpl → Os.Sockaddr → Cmd Bool
connect_addr s addr = do
  d ← deref s.m_fd
  r ← perform (Call.connect d addr)
  errno ← get_errno
  pure (not (is_none s.m_fd) && (e_in_progress ==ℤ errno || ℤ.pos 0 ==ℤ r.ret))

unfoldable pub bind : SocketImpl → InAddressPort → Cmd Bool
unfolding bind_addr
bind s at = do
  pl ← get_platform
  if is_ipv4 at.addr
      then bind_addr s (to_sockaddr addr_in pl at)
      else if is_ipv6 at.addr
      then bind_addr s (to_sockaddr addr_in6 pl at)
      else pure false

unfoldable pub connect : SocketImpl → InAddressPort → Cmd Bool
unfolding connect_addr
connect s remote = do
  pl ← get_platform
  if is_ipv4 remote.addr
      then connect_addr s (to_sockaddr addr_in pl remote)
      else if is_ipv6 remote.addr
      then connect_addr s (to_sockaddr addr_in6 pl remote)
      else pure false

unfoldable pub listen : SocketImpl → ℕ → Cmd Bool
listen s max_conn = elim s.m_fd [
  | none ↦ pure false
  | some d ↦ succeeds (Call.listen d (to_int max_conn))
]

-- What `accept` does with a descriptor that the system accepted.
unfoldable pub adopt : AddrKind → SocketImpl → Reply → Cmd (Option (SocketImpl × InAddressPort))
adopt kind s r = do
  parsed ← parse_addr kind r
  elim parsed [
    | some remote ↦ pure (some (socket_impl r.ret s.m_family, remote))
    | none ↦ do perform (Call.close r.ret); pure none
  ]

unfoldable pub accept_as : AddrKind → SocketImpl → Cmd (Option (SocketImpl × InAddressPort))
unfolding adopt
accept_as kind s = elim s.m_fd [
  | none ↦ pure none
  | some d ↦ do
    r ← perform (Call.accept4 d (addr_size kind) sock_nonblock)
    if not (minus_one ==ℤ r.ret) then adopt kind s r else pure none
]

unfoldable pub accept : SocketImpl → Cmd (Option (SocketImpl × InAddressPort))
unfolding accept_as
accept s =
    if s.m_family ==ℤ af_inet
    then accept_as addr_in s
    else if s.m_family ==ℤ af_inet6
    then accept_as addr_in6 s
    else pure none

-- The result of a `::send` or `::recv`, -1 for none.
abbrev pub counted : Reply → Option ℕ
counted r = if not (r.ret ==ℤ minus_one) then some (to_size r.ret) else none

unfoldable pub send : SocketImpl → Buffer → ℕ → ℤ → Cmd (Option ℕ)
send s buffer n flags = elim s.m_fd [
  | none ↦ pure none
  | some d ↦ do r ← perform (Call.send d buffer n flags); pure (counted r)
]

unfoldable pub receive : SocketImpl → Buffer → ℕ → ℤ → Cmd (Option ℕ)
receive s buffer n flags = elim s.m_fd [
  | none ↦ pure none
  | some d ↦ do r ← perform (Call.recv d buffer n flags); pure (counted r)
]

unfoldable pub send_to_as : AddrKind → SocketImpl → InAddressPort → Buffer → ℕ → ℤ → Cmd ℕ
send_to_as kind s remote buffer n flags = do
  pl ← get_platform
  d ← deref s.m_fd
  r ← perform (Call.sendto d buffer n flags (to_sockaddr kind pl remote))
  pure (to_size r.ret)

-- `static_cast<std::size_t>(-1)`
abbrev pub npos : ℕ
npos = 2 ^ 64 - 1

abbrev pub unless_npos : ℕ → Option ℕ
unless_npos ret = if ret == npos then none else some ret

unfoldable pub send_to : SocketImpl → InAddressPort → Buffer → ℕ → ℤ → Cmd (Option ℕ)
unfolding send_to_as
send_to s remote buffer n flags = do
  ret ←
      (if not (is_none s.m_fd) && s.m_family ==ℤ remote.addr.m_family
        then if is_ipv4 remote.addr
          then send_to_as addr_in s remote buffer n flags
          else if is_ipv6 remote.addr
          then send_to_as addr_in6 s remote buffer n flags
          else pure npos
        else pure npos)
  pure (unless_npos ret)

unfoldable pub recv_from_as :
    AddrKind → SocketImpl → Buffer → ℕ → ℤ → Cmd (Option (InAddressPort × ℕ))
recv_from_as kind s buffer n flags = do
  d ← deref s.m_fd
  r ← perform (Call.recvfrom d buffer n flags (addr_size kind))
  if not (r.ret ==ℤ minus_one)
      then (do
        parsed ← parse_addr kind r
        elim parsed [ some remote ↦ pure (some (remote, to_size r.ret)) | none ↦ pure none ])
      else pure none

unfoldable pub receive_from : SocketImpl → Buffer → ℕ → ℤ → Cmd (Option (InAddressPort × ℕ))
unfolding recv_from_as
receive_from s buffer n flags = elim s.m_fd [
  | none ↦ pure none
  | some _ ↦
      if s.m_family ==ℤ af_inet
      then recv_from_as addr_in s buffer n flags
      else if s.m_family ==ℤ af_inet6
      then recv_from_as addr_in6 s buffer n flags
      else pure none
]

abbrev pub eagain : Cmd Bool
eagain = do errno ← get_errno; pure (errno ==ℤ e_again)

abbrev pub would_block : Cmd Bool
would_block = do errno ← get_errno; pure (errno ==ℤ e_would_block)
