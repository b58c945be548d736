-- ===== src/Client/Stays.antt =====
-- src/endpoint/client.tpp: what a `connect` leaves as it is.
use strongly_typed_sockets.Base.{Option, none, some, inl, inr, Bool-cases, Option-cases}
use strongly_typed_sockets.Os.{Sockaddr, World, Call, Cmd, after, perform}
use strongly_typed_sockets.Os.Returns.{Partial, defined, not_defined, Partial-bind}
use strongly_typed_sockets.Address.{InAddressPort, is_ipv4, is_ipv6}
use strongly_typed_sockets.Impl
use strongly_typed_sockets.Impl.{SocketImpl}
use strongly_typed_sockets.States
use strongly_typed_sockets.States.{Proto, Socket, Binded, Active, destroy_impl}
use strongly_typed_sockets.Client.{
  ClientState, idle, binded, active, Client, use_closures, set_fields, replace_state, destroy_state,
}
use strongly_typed_sockets.Client.Connect.{
  Request, finish_connect, connect_idle, connect_bound, connect_parsed, call_connect, retarget,
  connect_from,
}

-- What calls to the system leave as it is stays over a `connect`.
module _ (J : World → Type 0) (stable : (c : Call) (w : World) → J w → J (after w c)) where
  abbrev pub Stays : {A : Type 0} → Cmd A → Type 0
  Stays {A} cmd = (w : World) → J w → Partial (λ _ w'. J w') (cmd w)

  connect_addr-Stays : (s : SocketImpl) (at : Sockaddr) → Stays (Impl.connect_addr s at)
  unfolding Impl.connect_addr perform
  connect_addr-Stays s at w h = elim (Option-cases s.m_fd) [
    | inl gone ↦ rw gone not_defined
    | inr (d, has) ↦ rw has (defined (stable (Call.connect d at) w h))
  ]

  impl_connect-Stays : (s : SocketImpl) (at : InAddressPort) → Stays (Impl.connect s at)
  unfolding Impl.connect
  impl_connect-Stays s at w h = elim (Bool-cases (is_ipv4 at.addr)) [
    | inl four ↦ rw four (connect_addr-Stays s _ w h)
    | inr not4 ↦ elim (Bool-cases (is_ipv6 at.addr)) [
      | inl six ↦ rw (not4, six) (connect_addr-Stays s _ w h)
      | inr not6 ↦ rw (not4, not6) (defined h)
    ]
  ]

  pub policy-Stays :
      (s : ClientState) (at : InAddressPort) (sock : Socket) (w : World)
      → J w
      → Partial (λ _ w'. J w') (connect_idle sock at w)
  unfolding connect_idle States.connect
  policy-Stays s at sock w h =
      Partial-bind
        (Partial-bind (impl_connect-Stays sock.m_impl at w h)
          λ r w1 h1. elim (Bool-cases r) [ inl e ↦ rw e (defined h1) | inr e ↦ rw e (defined h1) ])
        λ r w1 h1. defined h1

  policy_bound-Stays : (sock : Binded) (at : InAddressPort) → Stays (connect_bound sock at)
  unfolding connect_bound States.connect_binded
  policy_bound-Stays sock at w h =
      Partial-bind
        (Partial-bind (impl_connect-Stays sock.m_impl at w h)
          λ r w1 h1. elim (Bool-cases r) [ inl e ↦ rw e (defined h1) | inr e ↦ rw e (defined h1) ])
        λ r w1 h1. defined h1

  destroy_impl-Stays : (s : SocketImpl) → Stays (destroy_impl s)
  unfolding destroy_impl Impl.close perform
  destroy_impl-Stays s w h = elim (Option-cases s.m_fd) [
    | inl gone ↦ rw gone (defined h)
    | inr (d, has) ↦ rw has (defined (stable (Call.close d) w h))
  ]

  destroy_state-Stays : (s : ClientState) → Stays (destroy_state s)
  unfolding destroy_state
  destroy_state-Stays (idle none) w h = defined h
  destroy_state-Stays (idle (some s)) w h = destroy_impl-Stays s.m_impl w h
  destroy_state-Stays (binded s) w h = destroy_impl-Stays s.m_impl w h
  destroy_state-Stays (active s) w h = destroy_impl-Stays s.m_impl w h

  module _ {Poll : Type 0} where
    pub connect_parsed-Stays :
        (policy : InAddressPort → Cmd (ClientState × Option Active)) (q : Request) (c : Client Poll)
        (o : Option InAddressPort)
        → ((at : InAddressPort) → Stays (policy at))
        → Stays (connect_parsed policy q c o)
    unfolding connect_parsed finish_connect set_fields replace_state
    connect_parsed-Stays policy q c none stays w h = defined h
    connect_parsed-Stays policy q c (some at) stays w h =
        Partial-bind (stays at w h) λ r w1 h1. finish r.0 r.1 w1 h1
      where
        finish :
            (left : ClientState) (made : Option Active) → Stays (finish_connect q at left made c)
        finish left none w h = defined h
        finish left (some a) w h =
            Partial-bind (Partial-bind (destroy_state-Stays left w h) λ _ w1 h1. defined h1)
              λ st w1 h1. defined h1

    retarget-Stays :
        (refs : Option Request) (c : Client Poll) (o : Option InAddressPort)
        → Stays (retarget refs c o)
    unfolding retarget use_closures set_fields
    retarget-Stays refs c none w h = defined h
    retarget-Stays (some q) c (some at) w h = defined h
    retarget-Stays none c (some at) w h = not_defined

    pub connect_from-Stays :
        (p : Proto) (q : Request) (refs : Option Request) (s : ClientState) (c : Client Poll)
        → Stays (connect_from p q refs s c)
    unfolding connect_from use_closures call_connect
    connect_from-Stays p q refs (idle none) c w h = defined h
    connect_from-Stays p q refs (idle (some s)) c w h = elim (Bool-cases p.is_connectionless) [
      | inl less ↦ simp less (defined h)
      | inr stream ↦ simp stream (elim (Option-cases refs) [
        | inr (q', e) ↦
            rw e (
              connect_parsed-Stays (connect_idle s) q' c _ (λ at. policy-Stays (idle none) at s) w
                h)
        | inl e ↦ rw e not_defined
      ])
    ]
    connect_from-Stays p q refs (binded s) c w h = elim (Option-cases refs) [
      | inr (q', e) ↦
          rw e (connect_parsed-Stays (connect_bound s) q' c _ (policy_bound-Stays s) w h)
      | inl e ↦ rw e not_defined
    ]
    connect_from-Stays p q refs (active s) c w h = retarget-Stays refs c _ w h
