-- ===== src/Impl/Accept.antt =====
-- src/socket/socket_impl.cpp: `accept` and `receive_from`, which read the address of a peer.
use strongly_typed_sockets.Base.{
  ◌≢◌, ℕ, ◌+◌, ◌≡◌, refl, ℤ, minus_one, ◌==ℤ◌, true, false, Option, none, some, inl, inr,
  Option-cases, Bool-cases, arith, is_none,
}
use strongly_typed_sockets.Os.{
  Buffer, Call, World, perform, answer, after, af_inet, af_inet6, undefined, sock_nonblock,
}
use strongly_typed_sockets.Os.Returns.{Returns, returns}
use strongly_typed_sockets.Os.Ledger.{Books, IsMachine, Quiet, IsDescriptor, held}
use strongly_typed_sockets.Address.{InAddressPort}
use strongly_typed_sockets.Impl.Sockaddr.{addr_in}
use strongly_typed_sockets.Impl.RoundTrip.{IsFilled, parse_addr-in, parse_addr-in6}
use strongly_typed_sockets.Impl.{SocketImpl, adopt, accept_as, accept, recv_from_as, receive_from}

filled : (w : World) (c : Call) → IsMachine w → IsFilled (answer w c).addr4
filled w c m = record { address = m.address w.trace c; padding = m.padding w.trace c }

-- The descriptor that `accept` gives back.
abbrev pub held_accepted : ℤ → Option (SocketImpl × InAddressPort) → ℕ
held_accepted x none = 0
held_accepted x (some (impl, _)) = held x impl.m_fd

module _ (x : ℤ) (d : IsDescriptor x) where
  accept_as-Books :
      (s : SocketImpl) (k : ℕ) (w : World)
      → Books x k w
      → Returns (λ r w'. Books x (held_accepted x r + k) w') (accept_as addr_in s w)
  unfolding accept_as adopt perform
  accept_as-Books s k w b = elim (Option-cases s.m_fd) [
    | inl e ↦ rw (e, accept_as) (returns (ground arith, b.1))
    | inr (f, e) ↦
        let c = Call.accept4 f 16 sock_nonblock in
        rw (e, accept_as)
          (elim (Bool-cases (minus_one ==ℤ (answer w c).ret)) [
            | inl failed ↦ rw failed (returns (ground (arith, d, failed), b.1))
            | inr accepted ↦
                rw (accepted, parse_addr-in (answer w c) (after w c) (filled w c b.1) b.1)
                  (returns (ground arith, b.1))
          ])
  ]

  -- For a descriptor `x`, a socket of the IPv4 family and balanced books: `accept` is defined, and
  -- afterwards what is owed for `x` is what the accepted object holds and the `k` of before.
  pub accept-Books :
      (s : SocketImpl) (k : ℕ) (w : World)
      → s.m_family ≡ af_inet
      → Books x k w
      → Returns (λ r w'. Books x (held_accepted x r + k) w') (accept s w)
  unfolding accept
  accept-Books s k w four b =
      let is4 : (s.m_family ==ℤ af_inet) ≡ true = ground arith in rw is4 (accept_as-Books s k w b)

module _ (x : ℤ) where
  recv_from_as-Quiet :
      (s : SocketImpl) (buffer : Buffer) (n : ℕ) (flags : ℤ)
      → is_none s.m_fd ≡ false
      → Quiet x (recv_from_as addr_in s buffer n flags)
  unfolding recv_from_as perform
  recv_from_as-Quiet s buffer n flags h k w b = elim (Option-cases s.m_fd) [
    | inl e ↦ cc
    | inr (f, e) ↦
        let c = Call.recvfrom f buffer n flags 16 in
        rw (e, recv_from_as)
          (elim (Bool-cases ((answer w c).ret ==ℤ minus_one)) [
            | inl failed ↦ rw failed (returns (ground arith, b.1))
            | inr got ↦
                rw (got, parse_addr-in (answer w c) (after w c) (filled w c b.1) b.1)
                  (returns (ground arith, b.1))
          ])
  ]

  -- Receiving a datagram over IPv4 is defined, and leaves the descriptors alone.
  pub receive_from-Quiet :
      (s : SocketImpl) (buffer : Buffer) (n : ℕ) (flags : ℤ)
      → s.m_family ≡ af_inet
      → Quiet x (receive_from s buffer n flags)
  unfolding receive_from
  receive_from-Quiet s buffer n flags four k w b = elim (Option-cases s.m_fd) [
    | inl e ↦ rw (e, receive_from) (returns b)
    | inr (f, e) ↦
        let is4 : (s.m_family ==ℤ af_inet) ≡ true = ground arith in
        rw (e, receive_from) (rw is4 (recv_from_as-Quiet s buffer n flags (rw e refl) k w b))
  ]

-- Where memory is as `IsMachine` says, `accept` on an open socket of the IPv6 family is undefined
-- whenever the system accepts a connection.
pub accept-in6_overruns :
    (s : SocketImpl) (f : ℤ) (w : World)
    → s.m_fd ≡ some f
    → s.m_family ≡ af_inet6
    → (answer w (Call.accept4 f 28 sock_nonblock)).ret ≢ minus_one
    → IsMachine w
    → accept s w ≡ undefined
unfolding accept accept_as adopt perform
accept-in6_overruns s f w e six ret m =
    let c = Call.accept4 f 28 sock_nonblock in
    let good : (minus_one ==ℤ (answer w c).ret) ≡ false = ground arith in
    let not4 : (s.m_family ==ℤ af_inet) ≡ false = ground arith in
    let is6 : (s.m_family ==ℤ af_inet6) ≡ true = ground arith in
    rw not4 (rw is6 (rw (e, accept_as) (rw (good, parse_addr-in6 (answer w c) (after w c) m) refl)))

-- Where memory is as `IsMachine` says, `receive_from` on an open socket of the IPv6 family is
-- undefined whenever the system receives a datagram.
pub receive_from-in6_overruns :
    (s : SocketImpl) (f : ℤ) (buffer : Buffer) (n : ℕ) (flags : ℤ) (w : World)
    → s.m_fd ≡ some f
    → s.m_family ≡ af_inet6
    → (answer w (Call.recvfrom f buffer n flags 28)).ret ≢ minus_one
    → IsMachine w
    → receive_from s buffer n flags w ≡ undefined
unfolding receive_from recv_from_as perform
receive_from-in6_overruns s f buffer n flags w e six ret m =
    let c = Call.recvfrom f buffer n flags 28 in
    let good : ((answer w c).ret ==ℤ minus_one) ≡ false = ground arith in
    let not4 : (s.m_family ==ℤ af_inet) ≡ false = ground arith in
    let is6 : (s.m_family ==ℤ af_inet6) ≡ true = ground arith in
    rw (e, receive_from)
      (rw not4
        (rw is6 (rw (e, recv_from_as) (rw (good, parse_addr-in6 (answer w c) (after w c) m) refl))))
