-- ===== src/Impl/Sockaddr.antt =====
-- src/socket/socket_impl.cpp: `sock_addr4`, `sock_addr6` and `parse_addr`.
use strongly_typed_sockets.Base.{
  ℕ, ◌%◌, ◌^◌, ◌&&◌, Option, some, ◌++◌, leb, if◌then◌else◌, length, take, drop, replicate,
}
use strongly_typed_sockets.Os.{
  af_inet, af_inet6, Bytes, SockaddrIn, SockaddrIn6, Sockaddr, in4, in6, Reply, Platform, Cmd, pure,
  ◌>>=◌, undefined, get_platform,
}
use strongly_typed_sockets.Address.{InAddressPort}

-- The template argument `Addr`: `sockaddr_in` or `sockaddr_in6`.
pub data AddrKind : Type 0 where
  addr_in addr_in6 : AddrKind

-- `sizeof(Addr)`
abbrev pub addr_size : AddrKind → ℕ
addr_size addr_in = 16
addr_size addr_in6 = 28

-- `htons` takes 16 bits of the port. The caller has checked the family, which the code asserts.
unfoldable pub sock_addr4 : Platform → InAddressPort → SockaddrIn
sock_addr4 pl a = record {
  sin_family = a.addr.m_family;
  sin_port = pl.htons (a.port % 2 ^ 16);
  s_addr = take 4 a.addr.m_data;
  sin_zero = replicate 8 0;
}

unfoldable pub sock_addr6 : Platform → InAddressPort → SockaddrIn6
sock_addr6 pl a = record {
  sin6_family = a.addr.m_family;
  sin6_port = pl.htons (a.port % 2 ^ 16);
  sin6_flowinfo = 0;
  sin6_addr = take 16 a.addr.m_data;
  sin6_scope_id = replicate 4 0;
}

unfoldable pub to_sockaddr : AddrKind → Platform → InAddressPort → Sockaddr
unfolding sock_addr4 sock_addr6
to_sockaddr addr_in pl a = in4 (sock_addr4 pl a)
to_sockaddr addr_in6 pl a = in6 (sock_addr6 pl a)

-- `std::copy(p, p + n, bytes)` from memory that reads `source` at `p`. Undefined where the copy
-- writes past the end of `bytes`, or reads past the memory that is known.
unfoldable pub copy_bytes : (source : Bytes) → ℕ → (bytes : Bytes) → Cmd Bytes
copy_bytes source n bytes =
    if leb n (length source) && leb n (length bytes)
    then pure (take n source ++ drop n bytes)
    else λ _. undefined

-- Both branches copy `sizeof(Addr)` bytes from the address field, which lies inside an `Addr`, so
-- they read on behind the structure.
unfoldable pub parse_addr : AddrKind → Reply → Cmd (Option InAddressPort)
unfolding copy_bytes
parse_addr addr_in r = do
  pl ← get_platform
  bytes ←
      copy_bytes (r.addr4.s_addr ++ r.addr4.sin_zero ++ pl.beyond) (addr_size addr_in)
        pl.fresh_bytes
  pure (
      some (record {
        addr = record { m_data = bytes; m_family = af_inet };
        port = pl.ntohs r.addr4.sin_port;
      }))
parse_addr addr_in6 r = do
  pl ← get_platform
  bytes ←
      copy_bytes (r.addr6.sin6_addr ++ r.addr6.sin6_scope_id ++ pl.beyond) (addr_size addr_in6)
        pl.fresh_bytes
  pure (
      some (record {
        addr = record { m_data = bytes; m_family = af_inet6 };
        port = pl.ntohs r.addr6.sin6_port;
      }))
