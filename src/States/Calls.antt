-- ===== src/States/Calls.antt =====
-- src/socket/socket_impl.cpp: what the calls of each method do to the phase of the descriptor that the
-- object holds.
use strongly_typed_sockets.Base.{
  ◌&&◌, ℕ, ◌≡◌, refl, ℤ, ◌==ℤ◌, ==ℤ_refl, Bool, true, false, some, inl, inr, Bool-cases,
  Option-cases, if◌then◌else◌, arith, to_int, leb, length, ◌&&◌, minus_one, ◌++◌,
}
use strongly_typed_sockets.Os.{
  ◌>>=◌, World, Buffer, Call, Cmd, answer, perform, succeeds, e_in_progress, Bytes, Reply,
  sock_nonblock, pure, af_inet, af_inet6,
}
use strongly_typed_sockets.Os
use strongly_typed_sockets.Os.Returns.{Partial, defined, Partial-bind, not_defined}
use strongly_typed_sockets.Address.{InAddressPort, is_ipv4, is_ipv6}
use strongly_typed_sockets.Impl
use strongly_typed_sockets.Impl.Sockaddr.{
  AddrKind, addr_in, addr_in6, addr_size, copy_bytes, parse_addr,
}
use strongly_typed_sockets.Impl.{SocketImpl, ShutdownDir, connect_addr, accept_as, adopt, counted}
use strongly_typed_sockets.States.Phases.{
  Phase, created, bound, listening, connected, InPhase, perform-InPhase, may_connect, allows, next,
}

-- What holds of the world holds after statements that only read it.
module _ (I : World → Type 0) where
  copy_bytes-reads :
      (source : Bytes) (n : ℕ) (bytes : Bytes) (w : World)
      → I w
      → Partial (λ _ w'. I w') (copy_bytes source n bytes w)
  unfolding copy_bytes
  copy_bytes-reads source n bytes w h =
      elim (Bool-cases (leb n (length source) && leb n (length bytes))) [
        | inl e ↦ rw e (defined h)
        | inr e ↦ rw e not_defined
      ]

  pub parse_addr-reads :
      (kind : AddrKind) (r : Reply) (w : World) → I w → Partial (λ _ w'. I w') (parse_addr kind r w)
  unfolding parse_addr
  parse_addr-reads addr_in r w h =
      Partial-bind
        {k = λ bytes. pure (
          some (record {
            addr = record { m_data = bytes; m_family = af_inet };
            port = w.platform.ntohs r.addr4.sin_port;
          }))}
        (copy_bytes-reads (r.addr4.s_addr ++ r.addr4.sin_zero ++ w.platform.beyond)
          (addr_size addr_in) w.platform.fresh_bytes w h)
        λ bytes w' h'. defined h'
  parse_addr-reads addr_in6 r w h =
      Partial-bind
        {k = λ bytes. pure (
          some (record {
            addr = record { m_data = bytes; m_family = af_inet6 };
            port = w.platform.ntohs r.addr6.sin6_port;
          }))}
        (copy_bytes-reads (r.addr6.sin6_addr ++ r.addr6.sin6_scope_id ++ w.platform.beyond)
          (addr_size addr_in6) w.platform.fresh_bytes w h)
        λ bytes w' h'. defined h'

module _ (x : ℤ) where
  -- After a test that succeeds or fails, the phase `new` or `old`.
  abbrev pub Leads : (old new : Phase) → Bool → World → Type 0
  Leads old new b w = InPhase x (if b then new else old) w

  succeeds-bind :
      (addr : Os.Sockaddr) (w : World)
      → InPhase x created w
      → Partial (Leads created bound) (succeeds (Call.bind x addr) w)
  succeeds-bind addr w h =
      Partial-bind (perform-InPhase x (Call.bind x addr) created w h (rw (==ℤ_refl x) refl))
        λ r w' q. defined (rw (==ℤ_refl x) at q.1)

  pub bind-Leads :
      (s : SocketImpl) (at : InAddressPort) (w : World)
      → s.m_fd ≡ some x
      → InPhase x created w
      → Partial (Leads created bound) (Impl.bind s at w)
  unfolding Impl.bind Impl.bind_addr
  bind-Leads s at w holds h = elim (Bool-cases (is_ipv4 at.addr)) [
    | inl four ↦ rw four (rw holds (succeeds-bind _ w h))
    | inr not4 ↦ rw not4 (elim (Bool-cases (is_ipv6 at.addr)) [
      | inl six ↦ rw six (rw holds (succeeds-bind _ w h))
      | inr not6 ↦ rw not6 (defined h)
    ])
  ]

  connect-call :
      (ph : Phase) (addr : Os.Sockaddr) (s : SocketImpl) (w : World)
      → s.m_fd ≡ some x
      → may_connect ph ≡ true
      → InPhase x ph w
      → Partial (Leads ph connected) (connect_addr s addr w)
  unfolding connect_addr
  connect-call ph addr s w holds may h =
      rw (holds, connect_addr)
        (Partial-bind (perform-InPhase x (Call.connect x addr) ph w h (rw (==ℤ_refl x) may))
          λ r w' q. defined (simp q.2 (rw (==ℤ_refl x) at q.1)))

  pub connect-Leads :
      (ph : Phase) (s : SocketImpl) (at : InAddressPort) (w : World)
      → s.m_fd ≡ some x
      → may_connect ph ≡ true
      → InPhase x ph w
      → Partial (Leads ph connected) (Impl.connect s at w)
  unfolding Impl.connect
  connect-Leads ph s at w holds may h = elim (Bool-cases (is_ipv4 at.addr)) [
    | inl four ↦ rw four (connect-call ph _ s w holds may h)
    | inr not4 ↦ rw not4 (elim (Bool-cases (is_ipv6 at.addr)) [
      | inl six ↦ rw six (connect-call ph _ s w holds may h)
      | inr not6 ↦ rw not6 (defined h)
    ])
  ]

  pub listen-Leads :
      (s : SocketImpl) (n : ℕ) (w : World)
      → s.m_fd ≡ some x
      → InPhase x bound w
      → Partial (Leads bound listening) (Impl.listen s n w)
  unfolding Impl.listen
  listen-Leads s n w holds h =
      rw (holds, Impl.listen)
        (Partial-bind
          (perform-InPhase x (Call.listen x (to_int n)) bound w h (rw (==ℤ_refl x) refl))
          λ r w' q. defined (rw (==ℤ_refl x) at q.1))

  -- What `accept` does with another descriptor leaves the phase of `x`.
  adopt-InPhase :
      (ph : Phase) (kind : AddrKind) (s : SocketImpl) (r : Reply) (w : World)
      → (r.ret ==ℤ x) ≡ false
      → InPhase x ph w
      → Partial (λ _ w'. InPhase x ph w') (adopt kind s r w)
  unfolding adopt
  adopt-InPhase ph kind s r w other h =
      Partial-bind (parse_addr-reads (InPhase x ph) kind r w h) λ o w1 h1. elim (Option-cases o) [
        | inl e ↦ rw e (
            Partial-bind (perform-InPhase x (Call.close r.ret) ph w1 h1 (rw other refl))
              λ r' w2 q. defined (rw other at q.1))
        | inr (remote, e) ↦ rw e (defined h1)
      ]

  -- A listening socket stays one, whatever `accept` gives back.
  accept_as-InPhase :
      (kind : AddrKind) (s : SocketImpl) (w : World)
      → s.m_fd ≡ some x
      → InPhase x listening w
      → Partial (λ _ w'. InPhase x listening w') (accept_as kind s w)
  unfolding accept_as
  accept_as-InPhase kind s w holds h =
      let c = Call.accept4 x (addr_size kind) sock_nonblock in
      rw (holds, accept_as)
        (Partial-bind (perform-InPhase x c listening w h (rw (==ℤ_refl x) refl)) λ r w' q.
          elim (Bool-cases (r.ret ==ℤ x)) [
            | inl back ↦
                let was =
                  h.fresh.by_accept w.trace x (addr_size kind) sock_nonblock (rw q.0 at back) in
                absurd (ground (arith, was, h.at))
            | inr other ↦ elim (Bool-cases (minus_one ==ℤ r.ret)) [
              | inl failed ↦ rw failed (defined (rw other at q.1))
              | inr good ↦ rw good (adopt-InPhase listening kind s r w' other (rw other at q.1))
            ]
          ])

  pub accept-InPhase :
      (s : SocketImpl) (w : World)
      → s.m_fd ≡ some x
      → InPhase x listening w
      → Partial (λ _ w'. InPhase x listening w') (Impl.accept s w)
  unfolding Impl.accept
  accept-InPhase s w holds h = elim (Bool-cases (s.m_family ==ℤ af_inet)) [
    | inl four ↦ rw four (accept_as-InPhase addr_in s w holds h)
    | inr not4 ↦ rw not4 (elim (Bool-cases (s.m_family ==ℤ af_inet6)) [
      | inl six ↦ rw six (accept_as-InPhase addr_in6 s w holds h)
      | inr not6 ↦ rw not6 (defined h)
    ])
  ]

  -- A call on a descriptor that takes it and stays in its phase.
  pub stays-InPhase :
      {A : Type 0} (c : Call) (f : Reply → A) (ph : Phase) (w : World)
      → InPhase x ph w
      → allows x c ph ≡ true
      → ((r : Reply) → next x c r ph ≡ ph)
      → Partial (λ _ w'. InPhase x ph w') ((perform c >>= λ r. pure (f r)) w)
  stays-InPhase c f ph w h may same =
      Partial-bind (perform-InPhase x c ph w h may) λ r w' q. defined (rw (same r) at q.1)
