-- ===== src/Impl/Behaviour.antt =====
-- src/socket/socket_impl.cpp: `connect` of an empty socket, and what `send_to` sends and reports.
use strongly_typed_sockets.Base.{
  ℕ, ◌≡◌, ◌<◌, ◌^◌, refl, ℤ, pos, negsuc, minus_one, ◌==ℤ◌, to_size, not, true, false, ◌||◌, Option,
  none, some, Option-cases, Bool-cases, if◌then◌else◌, arith, inl, inr,
}
use strongly_typed_sockets.Os.{
  World, Run, ok, undefined, Call, Reply, Buffer, answer, after, perform, af_inet, af_inet6,
}
use strongly_typed_sockets.Os.Returns.{Returns, returns}
use strongly_typed_sockets.Os.Ledger.{Books, Quiet}
use strongly_typed_sockets.Address.{InAddressPort, is_ipv4, is_ipv6}
use strongly_typed_sockets.Impl.{
  SocketImpl, connect, connect_addr, send_to, send_to_as, unless_npos, counted,
}
use strongly_typed_sockets.Impl.Sockaddr.{AddrKind, addr_in, addr_in6, to_sockaddr}

-- `connect` of a socket with no descriptor is undefined for every remote of the IPv4 or IPv6
-- family.
pub connect-empty_undefined :
    (s : SocketImpl) (remote : InAddressPort) (w : World)
    → s.m_fd ≡ none
    → is_ipv4 remote.addr || is_ipv6 remote.addr ≡ true
    → connect s remote w ≡ undefined
unfolding connect connect_addr
connect-empty_undefined s remote w gone known = elim (Bool-cases (is_ipv4 remote.addr)) [
  | inl four ↦ rw (four, connect, connect_addr, gone) refl
  | inr not4 ↦ elim (Bool-cases (is_ipv6 remote.addr)) [
    | inl six ↦ rw (not4, six, connect, connect_addr, gone) refl
    | inr not6 ↦ absurd (ground arith)
  ]
]

-- A result that fits in `ssize_t`.
abbrev pub IsSsize : ℤ → Type 0
IsSsize (pos n) = n < 2 ^ 63
IsSsize (negsuc n) = n < 2 ^ 63

unless_npos-cases :
    (v : ℤ)
    → IsSsize v
    → unless_npos (to_size v) ≡ (if not (v ==ℤ minus_one) then some (to_size v) else none)
unless_npos-cases (pos n) h = ground arith
unless_npos-cases (negsuc n) h = ground arith

-- For a result that fits in `ssize_t`, the sentinel of `send_to` loses nothing: it gives the count
-- that `send` and `receive` give, and nothing only for -1.
pub unless_npos-counted : (r : Reply) → IsSsize r.ret → unless_npos (to_size r.ret) ≡ counted r
unless_npos-counted r h = unless_npos-cases r.ret h

abbrev pub family_of : AddrKind → ℤ
family_of addr_in = af_inet
family_of addr_in6 = af_inet6

abbrev pub sendto_call : AddrKind → ℤ → InAddressPort → Buffer → ℕ → ℤ → World → Call
sendto_call kind d remote buffer n flags w =
    Call.sendto d buffer n flags (to_sockaddr kind w.platform remote)

-- What `send_to` does: nothing, unless the socket is open and of the family of the remote; then one
-- `sendto` with the address of the remote, whose count it reports.
pub data Sent (s : SocketImpl) (remote : InAddressPort) (buffer : Buffer) (n : ℕ) (flags : ℤ)
    (w : World) : Run (Option ℕ) → Type 0 where
  closed : s.m_fd ≡ none → Sent s remote buffer n flags w (ok none w)
  other_family :
      (s.m_family ==ℤ remote.addr.m_family) ≡ false → Sent s remote buffer n flags w (ok none w)
  unknown_family :
      (is_ipv4 remote.addr || is_ipv6 remote.addr) ≡ false
      → Sent s remote buffer n flags w (ok none w)
  sent :
      (d : ℤ) (kind : AddrKind)
      → s.m_fd ≡ some d
      → s.m_family ≡ family_of kind
      → remote.addr.m_family ≡ family_of kind
      → Sent s remote buffer n flags w (
          ok
            (unless_npos (to_size (answer w (sendto_call kind d remote buffer n flags w)).ret))
            (after w (sendto_call kind d remote buffer n flags w)))

-- `send_to` gives nothing and calls nothing where the socket is empty, is of another family than
-- the remote, or the remote is of neither family. Otherwise it makes one `sendto` with the remote's
-- address in the structure of that family, and gives its count unless that is the sentinel.
pub send_to-Sent :
    (s : SocketImpl) (remote : InAddressPort) (buffer : Buffer) (n : ℕ) (flags : ℤ) (w : World)
    → Sent s remote buffer n flags w (send_to s remote buffer n flags w)
unfolding send_to send_to_as perform
send_to-Sent s remote buffer n flags w = elim (Option-cases s.m_fd) [
  | inl e ↦ simp (e, send_to) (closed e)
  | inr (d, e) ↦ elim (Bool-cases (s.m_family ==ℤ remote.addr.m_family)) [
    | inr other ↦ simp (e, send_to) (simp other (other_family other))
    | inl same ↦ elim (Bool-cases (is_ipv4 remote.addr)) [
      | inl four ↦
          simp (e, send_to)
            (simp same
              (simp four (sent d addr_in e (ground (arith, same, four)) (ground (arith, four)))))
      | inr not4 ↦ elim (Bool-cases (is_ipv6 remote.addr)) [
        | inl six ↦
            simp (e, send_to)
              (simp same (
                simp not4
                  (rw six (sent d addr_in6 e (ground (arith, same, six)) (ground (arith, six))))))
        | inr not6 ↦
            simp (e, send_to)
              (simp same (simp not4 (rw not6 (unknown_family (ground (arith, not4, not6))))))
      ]
    ]
  ]
]

module _ (x : ℤ) where
  Sent-Books :
      (s : SocketImpl) (remote : InAddressPort) (buffer : Buffer) (n : ℕ) (flags : ℤ) (k : ℕ)
      (w : World) {r : Run (Option ℕ)}
      → Sent s remote buffer n flags w r
      → Books x k w
      → Returns (λ _ w'. Books x k w') r
  Sent-Books s remote buffer n flags k w (closed _) b = returns b
  Sent-Books s remote buffer n flags k w (other_family _) b = returns b
  Sent-Books s remote buffer n flags k w (unknown_family _) b = returns b
  Sent-Books s remote buffer n flags k w (sent d kind _ _ _) b = returns (ground arith, b.1)

  pub send_to-Quiet :
      (s : SocketImpl) (remote : InAddressPort) (buffer : Buffer) (n : ℕ) (flags : ℤ)
      → Quiet x (send_to s remote buffer n flags)
  send_to-Quiet s remote buffer n flags k w b =
      Sent-Books s remote buffer n flags k w (send_to-Sent s remote buffer n flags w) b
