-- ===== src/States/Transfers.antt =====
-- src/socket/socket_impl.cpp: the methods that transfer data, and those that end a connection, in the
-- phase of the descriptor that the object holds.
use strongly_typed_sockets.Base.{
  ℕ, ◌≡◌, refl, ℤ, pos, ◌==ℤ◌, ==ℤ_refl, true, some, inl, inr, Bool-cases, Option-cases, minus_one,
  to_size,
}
use strongly_typed_sockets.Os.{
  ◌>>=◌, ◌>>=◌, World, Buffer, Call, perform, pure, af_inet, af_inet6, Run, and_then,
}
use strongly_typed_sockets.Os.Returns.{Partial, defined, Partial-bind}
use strongly_typed_sockets.Address.{InAddressPort, is_ipv4, is_ipv6}
use strongly_typed_sockets.Impl
use strongly_typed_sockets.Impl.Sockaddr.{AddrKind, addr_in, addr_in6, addr_size, to_sockaddr}
use strongly_typed_sockets.Impl.{
  SocketImpl, ShutdownDir, connect_addr, accept_as, adopt, counted, send_to_as, send_to,
  recv_from_as, receive_from, macro_dir, unless_npos,
}
use strongly_typed_sockets.States.{destroy_impl}
use strongly_typed_sockets.States.Phases.{
  Phase, closed, connected, InPhase, perform-InPhase, may_transfer_datagram, may_close,
}
use strongly_typed_sockets.States.Calls.{stays-InPhase, parse_addr-reads}

module _ (x : ℤ) where
  pub send-InPhase :
      (s : SocketImpl) (buffer : Buffer) (n : ℕ) (flags : ℤ) (w : World)
      → s.m_fd ≡ some x
      → InPhase x connected w
      → Partial (λ _ w'. InPhase x connected w') (Impl.send s buffer n flags w)
  unfolding Impl.send
  send-InPhase s buffer n flags w holds h =
      rw (holds, Impl.send)
        (stays-InPhase x (Call.send x buffer n flags) counted connected w h (rw (==ℤ_refl x) refl)
          λ r. refl)

  pub receive-InPhase :
      (s : SocketImpl) (buffer : Buffer) (n : ℕ) (flags : ℤ) (w : World)
      → s.m_fd ≡ some x
      → InPhase x connected w
      → Partial (λ _ w'. InPhase x connected w') (Impl.receive s buffer n flags w)
  unfolding Impl.receive
  receive-InPhase s buffer n flags w holds h =
      rw (holds, Impl.receive)
        (stays-InPhase x (Call.recv x buffer n flags) counted connected w h (rw (==ℤ_refl x) refl)
          λ r. refl)

  sendto-InPhase :
      (kind : AddrKind) (ph : Phase) (remote : InAddressPort) (buffer : Buffer) (n : ℕ) (flags : ℤ)
      (w : World)
      → may_transfer_datagram ph ≡ true
      → InPhase x ph w
      → Partial
          (λ _ w'. InPhase x ph w')
          ((perform (Call.sendto x buffer n flags (to_sockaddr kind w.platform remote)) >>= λ r.
              pure (to_size r.ret))
            w)
  sendto-InPhase kind ph remote buffer n flags w may h =
      stays-InPhase x (Call.sendto x buffer n flags (to_sockaddr kind w.platform remote))
        (λ r. to_size r.ret) ph w h (rw (==ℤ_refl x) may) λ r. refl

  -- The family of the remote chooses the call, if there is one.
  pub send_to-InPhase :
      (ph : Phase) (s : SocketImpl) (remote : InAddressPort) (buffer : Buffer) (n : ℕ) (flags : ℤ)
      (w : World)
      → s.m_fd ≡ some x
      → may_transfer_datagram ph ≡ true
      → InPhase x ph w
      → Partial (λ _ w'. InPhase x ph w') (send_to s remote buffer n flags w)
  unfolding send_to
  send_to-InPhase ph s remote buffer n flags w holds may h =
      elim (Bool-cases (s.m_family ==ℤ remote.addr.m_family)) [
        | inl same ↦ elim (Bool-cases (is_ipv4 remote.addr)) [
          | inl four ↦
              simp (holds, send_to)
                (simp same
                  (simp four (sent (sendto-InPhase addr_in ph remote buffer n flags w may h))))
          | inr not4 ↦ elim (Bool-cases (is_ipv6 remote.addr)) [
            | inl six ↦
                simp (holds, send_to)
                  (simp same (
                    simp not4
                      (simp six (sent (sendto-InPhase addr_in6 ph remote buffer n flags w may h)))))
            | inr not6 ↦ simp (holds, send_to) (simp same (simp not4 (simp not6 (defined h))))
          ]
        ]
        | inr other ↦ simp (holds, send_to) (simp other (defined h))
      ]
    where
      sent :
          {r : Run ℕ}
          → Partial (λ _ w'. InPhase x ph w') r
          → Partial (λ _ w'. InPhase x ph w') (and_then r (λ ret. pure (unless_npos ret)))
      sent p = Partial-bind p λ ret w' h'. defined h'

  recv_from_as-InPhase :
      (kind : AddrKind) (ph : Phase) (s : SocketImpl) (buffer : Buffer) (n : ℕ) (flags : ℤ)
      (w : World)
      → s.m_fd ≡ some x
      → may_transfer_datagram ph ≡ true
      → InPhase x ph w
      → Partial (λ _ w'. InPhase x ph w') (recv_from_as kind s buffer n flags w)
  unfolding recv_from_as
  recv_from_as-InPhase kind ph s buffer n flags w holds may h =
      rw (holds, recv_from_as)
        (Partial-bind
          (perform-InPhase x (Call.recvfrom x buffer n flags (addr_size kind)) ph w h
            (rw (==ℤ_refl x) may))
          λ r w' q. elim (Bool-cases (r.ret ==ℤ minus_one)) [
            | inl failed ↦ rw failed (defined q.1)
            | inr got ↦ rw got (
                Partial-bind (parse_addr-reads (InPhase x ph) kind r w' q.1) λ o w1 h1.
                  elim (Option-cases o) [
                    | inl e ↦ rw e (defined h1)
                    | inr (remote, e) ↦ rw e (defined h1)
                  ])
          ])

  pub receive_from-InPhase :
      (ph : Phase) (s : SocketImpl) (buffer : Buffer) (n : ℕ) (flags : ℤ) (w : World)
      → s.m_fd ≡ some x
      → may_transfer_datagram ph ≡ true
      → InPhase x ph w
      → Partial (λ _ w'. InPhase x ph w') (receive_from s buffer n flags w)
  unfolding receive_from
  receive_from-InPhase ph s buffer n flags w holds may h =
      rw (holds, receive_from)
        (elim (Bool-cases (s.m_family ==ℤ af_inet)) [
          | inl four ↦ rw four (recv_from_as-InPhase addr_in ph s buffer n flags w holds may h)
          | inr not4 ↦ rw not4 (elim (Bool-cases (s.m_family ==ℤ af_inet6)) [
            | inl six ↦ rw six (recv_from_as-InPhase addr_in6 ph s buffer n flags w holds may h)
            | inr not6 ↦ rw not6 (defined h)
          ])
        ])

  pub shutdown-InPhase :
      (ph : Phase) (s : SocketImpl) (dir : ShutdownDir) (w : World)
      → s.m_fd ≡ some x
      → may_transfer_datagram ph ≡ true
      → InPhase x ph w
      → Partial (λ _ w'. InPhase x ph w') (Impl.shutdown s dir w)
  unfolding Impl.shutdown
  shutdown-InPhase ph s dir w holds may h =
      rw (holds, Impl.shutdown)
        (stays-InPhase x (Call.shutdown x (macro_dir dir)) (λ r. r.ret ==ℤ pos 0) ph w h
          (rw (==ℤ_refl x) may) λ r. refl)

  -- The destructor closes the descriptor.
  pub destroy_impl-InPhase :
      (ph : Phase) (s : SocketImpl) (w : World)
      → s.m_fd ≡ some x
      → may_close ph ≡ true
      → InPhase x ph w
      → Partial (λ _ w'. InPhase x closed w') (destroy_impl s w)
  unfolding destroy_impl Impl.close
  destroy_impl-InPhase ph s w holds may h =
      rw (holds, destroy_impl)
        (Partial-bind {P = λ _ w'. InPhase x closed w'}
          (Partial-bind (perform-InPhase x (Call.close x) ph w h (rw (==ℤ_refl x) may))
            λ r w' q. defined {a = r.ret ==ℤ pos 0} (rw (==ℤ_refl x) at q.1))
          λ b w' h'. defined h')
