-- ===== src/States/Creation.antt =====
-- src/socket/socket.tpp and include/policy/accept_policy.h: an object that comes to hold a descriptor
-- holds one that the system has just handed out.
use strongly_typed_sockets.Base.{
  ◌≡◌, refl, ℤ, ◌==ℤ◌, ==ℤ_refl, true, false, Option, none, some, inl, inr, Bool-cases,
  Option-cases, arith, ap, minus_one, bit_or,
}
use strongly_typed_sockets.Os.{World, Call, Reply, perform, sock_nonblock, af_inet, af_inet6}
use strongly_typed_sockets.Os.Returns.{Partial, defined, Partial-bind, Partial-any}
use strongly_typed_sockets.Address.{InAddressPort}
use strongly_typed_sockets.Impl.{SocketImpl, open_fd, adopt, accept_as}
use strongly_typed_sockets.Impl
use strongly_typed_sockets.Impl.Sockaddr.{AddrKind, addr_in, addr_in6, addr_size}
use strongly_typed_sockets.States.{Proto, Socket, Listening, Active, create, accept, protocol_of}
use strongly_typed_sockets.States.Phases.{closed, created, connected, InPhase, perform-InPhase}
use strongly_typed_sockets.States.Calls.{parse_addr-reads}

module _ (x : ℤ) where
  -- Where what was made holds `x`, the system has opened it, or connected it.
  abbrev pub Opens : Option Socket → World → Type 0
  Opens none w = Unit {0}
  Opens (some s) w = s.m_impl.m_fd ≡ some x → InPhase x created w

  abbrev Connects : Option (SocketImpl × InAddressPort) → World → Type 0
  Connects none w = Unit {0}
  Connects (some (impl, remote)) w = impl.m_fd ≡ some x → InPhase x connected w

  abbrev pub ConnectsActive : Option Active → World → Type 0
  ConnectsActive none w = Unit {0}
  ConnectsActive (some s) w = s.m_impl.m_fd ≡ some x → InPhase x connected w

  same_fd : (y : ℤ) → some y ≡ some x → (y ==ℤ x) ≡ true
  same_fd y e =
      let same : y ≡ x = ap (λ o. elim o [ some z ↦ z | none ↦ y ]) e in rw same (==ℤ_refl x)

  pub create-Opens :
      (p : Proto) (af : ℤ) (w : World) → InPhase x closed w → Partial Opens (create p af w)
  unfolding create open_fd
  create-Opens p af w h =
      Partial-bind {P = λ r w'. (r.1 ≡ true) → r.0.m_fd ≡ some x → InPhase x created w'}
        (Partial-bind
          (perform-InPhase x (Call.socket af (bit_or sock_nonblock p.socket_type) (protocol_of p))
            closed w h refl)
          λ r w' q. elim (Bool-cases (r.ret ==ℤ minus_one)) [
            | inl failed ↦ rw failed (defined λ no _. absurd (ground (arith, no)))
            | inr good ↦ rw good (defined λ _ holds. rw (same_fd r.ret holds) at q.1)
          ])
        λ r w' h'. elim (Bool-cases r.1) [
          | inl e ↦ rw e (defined λ holds. h' e holds)
          | inr e ↦ rw e (defined tt)
        ]

  adopt-Connects :
      (kind : AddrKind) (s : SocketImpl) (r : Reply) (w : World)
      → ((r.ret ==ℤ x) ≡ true → InPhase x connected w)
      → Partial Connects (adopt kind s r w)
  unfolding adopt
  adopt-Connects kind s r w h =
      Partial-bind
        (parse_addr-reads (λ w'. (r.ret ==ℤ x) ≡ true → InPhase x connected w') kind r w h)
        λ o w1 h1. elim (Option-cases o) [
          | inl e ↦
              rw e
                (Partial-bind (Partial-any (perform (Call.close r.ret) w1)) λ r' w2 _. defined tt)
          | inr (at, e) ↦ rw e (defined λ holds. h1 (same_fd r.ret holds))
        ]

  accept_as-Connects :
      (kind : AddrKind) (s : SocketImpl) (y : ℤ) (w : World)
      → s.m_fd ≡ some y
      → (y ==ℤ x) ≡ false
      → InPhase x closed w
      → Partial Connects (accept_as kind s w)
  unfolding accept_as
  accept_as-Connects kind s y w holds other h =
      let c = Call.accept4 y (addr_size kind) sock_nonblock in
      rw (holds, accept_as)
        (Partial-bind (perform-InPhase x c closed w h (rw other refl)) λ r w' q.
          elim (Bool-cases (minus_one ==ℤ r.ret)) [
            | inl failed ↦ rw failed (defined tt)
            | inr good ↦ rw good (adopt-Connects kind s r w' λ e. rw e at q.1)
          ])

  pub accept-Connects :
      (s : Listening) (y : ℤ) (w : World)
      → s.m_impl.m_fd ≡ some y
      → (y ==ℤ x) ≡ false
      → InPhase x closed w
      → Partial ConnectsActive (accept s w)
  unfolding accept Impl.accept
  accept-Connects s y w holds other h = Partial-bind (accepted s.m_impl holds) λ o w' h'.
      elim (Option-cases o) [
        | inl e ↦ rw e (defined tt)
        | inr (got, e) ↦ rw e (defined (rw e at h'))
      ]
    where
      accepted : (impl : SocketImpl) → impl.m_fd ≡ some y → Partial Connects (Impl.accept impl w)
      accepted impl has = elim (Bool-cases (impl.m_family ==ℤ af_inet)) [
        | inl four ↦ rw four (accept_as-Connects addr_in impl y w has other h)
        | inr not4 ↦ rw not4 (elim (Bool-cases (impl.m_family ==ℤ af_inet6)) [
          | inl six ↦ rw six (accept_as-Connects addr_in6 impl y w has other h)
          | inr not6 ↦ rw not6 (defined tt)
        ])
      ]
