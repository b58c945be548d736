-- ===== src/Examples/World.antt =====
-- A concrete system below src/socket and src/epoll: it opens descriptor 3, accepts descriptor 4,
-- and makes epoll 5; every callback comes to an end without an exception.
use strongly_typed_sockets.Base.{refl, ℤ, pos, false, none, some, [], ◌∷◌, replicate, arith}
use strongly_typed_sockets.Os.{
  Bytes, Call, Reply, Trace, Platform, World, SockaddrIn, SockaddrIn6, af_inet, af_inet6,
}
use strongly_typed_sockets.Os.Ledger.{Machine}
use strongly_typed_sockets.Address.{InAddressPort}
use strongly_typed_sockets.Impl.{SocketImpl}

abbrev pub peer4 : SockaddrIn
peer4 = record {
  sin_family = af_inet;
  sin_port = 80;
  s_addr = 127 ∷ 0 ∷ 0 ∷ 1 ∷ [];
  sin_zero = replicate 8 0;
}

abbrev pub peer6 : SockaddrIn6
peer6 = record {
  sin6_family = af_inet6;
  sin6_port = 80;
  sin6_flowinfo = 0;
  sin6_addr = replicate 16 1;
  sin6_scope_id = replicate 4 0;
}

-- What a buffer of eight bytes holds.
abbrev pub memory : Bytes
memory = replicate 8 0

abbrev pub answered : ℤ → Reply
answered n = record {
  ret = n;
  errno = pos 0;
  addr4 = peer4;
  addr6 = peer6;
  events = record { events = 1; fd = pos 3 } ∷ record { events = 16; fd = pos 3 } ∷ [];
  received = [];
  threw = false;
  took = false;
}

abbrev pub ret_of : Call → ℤ
ret_of (Call.socket _ _ _) = pos 3
ret_of (Call.accept4 _ _ _) = pos 4
ret_of (Call.epoll_create _) = pos 5
ret_of (Call.epoll_wait _ _ _) = pos 2
ret_of (Call.send _ _ _ _) = pos 8
ret_of (Call.recv _ _ _ _) = pos 8
ret_of (Call.sendto _ _ _ _ _) = pos 8
ret_of (Call.recvfrom _ _ _ _ _) = pos 8
ret_of _ = pos 0

abbrev pub linux : Trace → Call → Reply
linux t c = answered (ret_of c)

-- Every text reads as 127.0.0.1.
abbrev pub platform : Platform
platform = record {
  inet_pton = λ af text bytes. (pos 1, 127 ∷ 0 ∷ 0 ∷ 1 ∷ replicate 12 0);
  inet_ntop = λ af bytes len. some (b'1' ∷ []);
  htons = λ port. port;
  ntohs = λ port. port;
  fresh_bytes = replicate 16 0;
  fresh_int = pos 0;
  beyond = replicate 4 0;
}

abbrev pub world_of : Trace → World
world_of t = record {
  env = linux;
  platform = platform;
  trace = t;
  errno = pos 0;
  polled = none;
  frames = 0;
  captured = λ k. none;
}

-- Before the first call, and after a call that opened descriptor 3.
abbrev pub before : World
before = world_of []

abbrev pub opened : World
opened = world_of ((Call.socket af_inet 2049 0, answered (pos 3)) ∷ [])

pub machine : Machine linux platform
machine = record {
  fresh = refl;
  readable = omega arith;
  address = λ t c. refl;
  padding = λ t c. refl;
}

abbrev pub stream_impl : SocketImpl
stream_impl = record { m_fd = some (pos 3); m_family = af_inet }

abbrev pub stream6_impl : SocketImpl
stream6_impl = record { m_fd = some (pos 3); m_family = af_inet6 }

abbrev pub local_host : InAddressPort
local_host = record {
  addr = record { m_data = 127 ∷ 0 ∷ 0 ∷ 1 ∷ replicate 12 0; m_family = af_inet };
  port = 80;
}
