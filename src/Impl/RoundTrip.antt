-- ===== src/Impl/RoundTrip.antt =====
-- src/socket/socket_impl.cpp: what `parse_addr` makes of the structures that `sock_addr4` builds, and
-- of those that the system fills.
use strongly_typed_sockets.Base.{
  take-all, take-take, length-take, ◌∙◌, ℕ, ◌+◌, ◌%◌, ◌^◌, ◌≤◌, ◌<◌, ◌≡◌, refl, some, ◌++◌, length,
  take, drop, length-append, take-append, arith, ap,
}
use strongly_typed_sockets.Os.{af_inet, Bytes, Reply, Platform, World, ok, undefined, SockaddrIn}
use strongly_typed_sockets.Os.Ledger.{IsMachine}
use strongly_typed_sockets.Address.{InAddressPort}
use strongly_typed_sockets.Impl.Sockaddr.{addr_in, addr_in6, sock_addr4, copy_bytes, parse_addr}

pub copy_bytes-ok :
    (src : Bytes) (n : ℕ) (dst : Bytes) (w : World)
    → n ≤ length src
    → n ≤ length dst
    → copy_bytes src n dst w ≡ ok (take n src ++ drop n dst) w
unfolding copy_bytes
copy_bytes-ok src n dst w h k = ground arith

copy_bytes-undefined :
    (src : Bytes) (n : ℕ) (dst : Bytes) (w : World)
    → length dst < n
    → copy_bytes src n dst w ≡ undefined
unfolding copy_bytes
copy_bytes-undefined src n dst w h = ground arith

-- An address structure as the system fills it: four bytes, and eight of padding.
pub record IsFilled (a : SockaddrIn) : Type 0 where
  pub address : length a.s_addr ≡ 4
  pub padding : length a.sin_zero ≡ 8

-- The first bytes that the copy for IPv4 takes are those of the address.
abbrev pub memory4 : SockaddrIn → Bytes → Bytes
memory4 a beyond = a.s_addr ++ a.sin_zero ++ beyond

abbrev pub parsed4 : Platform → SockaddrIn → InAddressPort
parsed4 pl a = record {
  addr = record {
    m_data = take 16 (memory4 a pl.beyond) ++ drop 16 pl.fresh_bytes;
    m_family = af_inet;
  };
  port = pl.ntohs a.sin_port;
}

length-memory4 :
    (a : SockaddrIn) (beyond : Bytes) → IsFilled a → length (memory4 a beyond) ≡ 12 + length beyond
length-memory4 a beyond f = omega (
  arith,
  f.address,
  f.padding,
  length-append {0} (a.s_addr ++ a.sin_zero) beyond,
  length-append {0} a.s_addr a.sin_zero,
)

pub parse_addr-in :
    (r : Reply) (w : World)
    → IsFilled r.addr4
    → IsMachine w
    → parse_addr addr_in r w ≡ ok (some (parsed4 w.platform r.addr4)) w
unfolding parse_addr
parse_addr-in r w f m =
    rw
      (copy_bytes-ok (memory4 r.addr4 w.platform.beyond) 16 w.platform.fresh_bytes w
        (omega (arith, length-memory4 r.addr4 w.platform.beyond f, m.readable))
        (omega (arith, m.fresh)))
      refl

-- The copy for IPv6 writes 28 bytes into an array of 16.
pub parse_addr-in6 : (r : Reply) (w : World) → IsMachine w → parse_addr addr_in6 r w ≡ undefined
unfolding parse_addr
parse_addr-in6 r w m =
    rw (copy_bytes-undefined _ 28 w.platform.fresh_bytes w (omega (arith, m.fresh))) refl

-- What `parse_addr` reads of an address structure that `sock_addr4` made.
pub record SameEndpoint (a b : InAddressPort) : Type 0 where
  pub family : b.addr.m_family ≡ af_inet
  pub address : take 4 b.addr.m_data ≡ take 4 a.addr.m_data
  pub port : b.port ≡ a.port % 2 ^ 16

-- The first bytes of an address that was parsed are those of the structure.
pub take-parsed4 :
    (pl : Platform) (a : SockaddrIn) → IsFilled a → take 4 (parsed4 pl a).addr.m_data ≡ a.s_addr
take-parsed4 pl a f =
    let whole : length (memory4 a pl.beyond) ≡ 12 + length pl.beyond =
      length-memory4 a pl.beyond f in
    take-append 4 (take 16 (memory4 a pl.beyond)) _
      (omega (arith, length-take {0} 16 (memory4 a pl.beyond), whole))
    ∙ take-take 4 16 (memory4 a pl.beyond) (omega arith)
    ∙ take-append 4 (a.s_addr ++ a.sin_zero) pl.beyond
        (omega (arith, length-append {0} a.s_addr a.sin_zero, f.address))
    ∙ take-append 4 a.s_addr a.sin_zero (omega (arith, f.address))
    ∙ take-all 4 a.s_addr (omega (arith, f.address))

sock_addr4-IsFilled :
    (pl : Platform) (a : InAddressPort) → length a.addr.m_data ≡ 16 → IsFilled (sock_addr4 pl a)
unfolding sock_addr4
sock_addr4-IsFilled pl a h = record {
  address = omega (arith, length-take {0} 4 a.addr.m_data);
  padding = refl;
}

-- Where `ntohs` undoes `htons` on 16 bits and memory is as `IsMachine` says: an address of 16 bytes
-- that `sock_addr4` puts into the structure of a reply comes back from `parse_addr` with the IPv4
-- family, its first four bytes and the low 16 bits of its port.
pub parse_addr-sock_addr4 :
    (a : InAddressPort) (r : Reply) (w : World)
    → length a.addr.m_data ≡ 16
    → r.addr4 ≡ sock_addr4 w.platform a
    → ((p : ℕ) → p < 2 ^ 16 → w.platform.ntohs (w.platform.htons p) ≡ p)
    → IsMachine w
    → (b : InAddressPort) × (parse_addr addr_in r w ≡ ok (some b) w) × SameEndpoint a b
unfolding sock_addr4
parse_addr-sock_addr4 a r w len same order m = (
  parsed4 w.platform r.addr4,
  parse_addr-in r w filled m,
  record {
    family = refl;
    address = take-parsed4 w.platform r.addr4 filled ∙ ap (λ s. s.s_addr) same;
    port =
        ap (λ (s : SockaddrIn). w.platform.ntohs s.sin_port) same
        ∙ order (a.port % 2 ^ 16) (omega arith);
  },
)
  where
    filled : IsFilled r.addr4
    filled = rw same (sock_addr4-IsFilled w.platform a len)
