-- ===== src/Impl/Ledger.antt =====
-- src/socket/socket_impl.cpp: the descriptors that each operation opens and closes.
use strongly_typed_sockets.Base.{
  ◌==ℤ◌, minus_one, if◌then◌else◌, refl, ℤ, inl, inr, Option-cases, Bool-cases, is_none, ℕ, ◌≡◌,
  ◌+◌, false, arith, true, bit_or,
}
use strongly_typed_sockets.Os.{Buffer, Call, Reply, World, Cmd, pure, perform, answer, succeeds}
use strongly_typed_sockets.Os
use strongly_typed_sockets.Os.Returns.{returns, Returns, Returns-bind}
use strongly_typed_sockets.Os.Ledger.{
  Quiet, succeeds-Quiet, IsDescriptor, Books, perform-Quiet, held,
}
use strongly_typed_sockets.Address.{InAddressPort, is_ipv4, is_ipv6}
use strongly_typed_sockets.Impl
use strongly_typed_sockets.Impl.{
  SocketImpl, ShutdownDir, open_fd, shutdown, close, bind_addr, connect_addr, connect, listen, send,
  receive, send_to, send_to_as, sock_nonblock,
}

module _ (x : ℤ) where
  bind_addr-Quiet : (s : SocketImpl) (a : Os.Sockaddr) → Quiet x (bind_addr s a)
  unfolding bind_addr
  bind_addr-Quiet s a k w b = elim (Option-cases s.m_fd) [
    | inl e ↦ rw (e, bind_addr) (returns b)
    | inr (d, e) ↦ rw (e, bind_addr) (succeeds-Quiet x (Call.bind d a) (λ r. (refl, refl)) k w b)
  ]

  pub bind-Quiet_impl : (s : SocketImpl) (at : InAddressPort) → Quiet x (Impl.bind s at)
  unfolding Impl.bind
  bind-Quiet_impl s at k w b = elim (Bool-cases (is_ipv4 at.addr)) [
    | inl four ↦ rw four (bind_addr-Quiet s _ k w b)
    | inr not4 ↦ rw not4 (elim (Bool-cases (is_ipv6 at.addr)) [
      | inl six ↦ rw six (bind_addr-Quiet s _ k w b)
      | inr not6 ↦ rw not6 (returns b)
    ])
  ]

  connect_addr-Quiet :
      (s : SocketImpl) (a : Os.Sockaddr) → is_none s.m_fd ≡ false → Quiet x (connect_addr s a)
  unfolding connect_addr
  connect_addr-Quiet s a h k w b = elim (Option-cases s.m_fd) [
    | inl e ↦ cc
    | inr (d, e) ↦
        rw (e, connect_addr)
          (Returns-bind (perform-Quiet x (Call.connect d a) (λ r. (refl, refl)) k w b)
            λ r w' b'. returns b')
  ]

  -- Defined on a socket that has a descriptor.
  pub connect-Quiet :
      (s : SocketImpl) (at : InAddressPort) → is_none s.m_fd ≡ false → Quiet x (connect s at)
  unfolding connect
  connect-Quiet s at h k w b = elim (Bool-cases (is_ipv4 at.addr)) [
    | inl four ↦ rw four (connect_addr-Quiet s _ h k w b)
    | inr not4 ↦ rw not4 (elim (Bool-cases (is_ipv6 at.addr)) [
      | inl six ↦ rw six (connect_addr-Quiet s _ h k w b)
      | inr not6 ↦ rw not6 (returns b)
    ])
  ]

  pub listen-Quiet : (s : SocketImpl) (n : ℕ) → Quiet x (listen s n)
  unfolding listen
  listen-Quiet s n k w b = elim (Option-cases s.m_fd) [
    | inl e ↦ rw (e, listen) (returns b)
    | inr (d, e) ↦ rw (e, listen) (succeeds-Quiet x (Call.listen d _) (λ r. (refl, refl)) k w b)
  ]

  pub send-Quiet :
      (s : SocketImpl) (buffer : Buffer) (n : ℕ) (flags : ℤ) → Quiet x (send s buffer n flags)
  unfolding send
  send-Quiet s buffer n flags k w b = elim (Option-cases s.m_fd) [
    | inl e ↦ rw (e, send) (returns b)
    | inr (d, e) ↦
        rw (e, send)
          (Returns-bind (perform-Quiet x (Call.send d buffer n flags) (λ r. (refl, refl)) k w b)
            λ r w' b'. returns b')
  ]

  pub receive-Quiet :
      (s : SocketImpl) (buffer : Buffer) (n : ℕ) (flags : ℤ) → Quiet x (receive s buffer n flags)
  unfolding receive
  receive-Quiet s buffer n flags k w b = elim (Option-cases s.m_fd) [
    | inl e ↦ rw (e, receive) (returns b)
    | inr (d, e) ↦
        rw (e, receive)
          (Returns-bind (perform-Quiet x (Call.recv d buffer n flags) (λ r. (refl, refl)) k w b)
            λ r w' b'. returns b')
  ]

  -- `close` settles the descriptor that the object holds.
  pub close-Books :
      (s : SocketImpl) (k : ℕ) (w : World)
      → Books x (held x s.m_fd + k) w
      → Returns (λ _ w'. Books x k w') (close s w)
  unfolding close perform
  close-Books s k w b = elim (Option-cases s.m_fd) [
    | inl e ↦ rw (e, close) (returns (ground (arith, e), b.1))
    | inr (d, e) ↦ rw (e, close) (returns (ground (arith, e), b.1))
  ]

module _ (x : ℤ) (d : IsDescriptor x) where
  -- What `open` returns: on success the object holds the one descriptor that was opened.
  pub open_fd-Books :
      (s : SocketImpl) (fam : ℤ) (proto flags : ℕ) (k : ℕ) (w : World)
      → Books x k w
      → Returns
          (λ r w'.
            Books x ((if r.1 then held x r.0.m_fd else 0) + k) w'
            × (r.1 ≡ true → (is_none r.0.m_fd ≡ false) × (r.0.m_family ≡ fam)))
          (open_fd s fam proto flags w)
  unfolding open_fd perform
  open_fd-Books s fam proto flags k w b =
      elim (Bool-cases
        ((answer w (Call.socket fam (bit_or sock_nonblock proto) flags)).ret ==ℤ minus_one)) [
          | inl e ↦ rw e (returns ((ground (arith, d, e), b.1), λ h. ground arith))
          | inr e ↦ rw e (returns ((ground arith, b.1), λ h. (refl, refl)))
        ]
