-- ===== src/Client/Reconnect.antt =====
-- src/endpoint/client.tpp: `connect` after a call of another frame, and of a client that cannot connect.
use strongly_typed_sockets.Base.{
  ℕ, ◌==◌, ◌<◌, ◌≡◌, refl, not, is_some, if◌then◌else◌, Bool, true, false, Option, none, some, inl,
  inr, Bool-cases, Option-cases, arith,
}
use strongly_typed_sockets.Os.{ok, undefined, Platform, World}
use strongly_typed_sockets.Os.Returns.{Returns, returns, Partial, Partial-mono}
use strongly_typed_sockets.Address.{InAddressPort, from_string_and_port}
use strongly_typed_sockets.States.{Proto}
use strongly_typed_sockets.Client.{
  ClientState, idle, binded, active, Client, is_idle, made_in, parameters_of, entered,
  enter_connect, use_closures,
}
use strongly_typed_sockets.Client.Frames.{==_refl}
use strongly_typed_sockets.Client.Stays.{connect_from-Stays}
use strongly_typed_sockets.Client.Connect.{Request, retarget, connect_from, connect}

-- The closures of the instance for `p` were made in a frame that has ended.
abbrev Ended : Proto → World → Type 0
Ended p w = (frame : ℕ) × (w.captured p.socket_type ≡ some frame) × (frame < w.frames)

-- The frames that closures refer to have begun.
abbrev pub IsOrdered : Proto → World → Type 0
IsOrdered p w = (frame : ℕ) → w.captured p.socket_type ≡ some frame → frame < w.frames

entered-Ended : (p : Proto) (w : World) → IsOrdered p w → Ended p (entered p w)
entered-Ended p w ordered = elim (Option-cases (w.captured p.socket_type)) [
  | inl none_yet ↦ (w.frames, rw (==_refl p.socket_type, none_yet) refl, omega arith)
  | inr (frame, before) ↦
      (frame, rw (==_refl p.socket_type, before) refl, omega (arith, ordered frame before))
]

-- Whether a `connect` comes to the closures.
abbrev pub comes_to : Platform → Proto → Request → ClientState → Bool
comes_to pl p q (idle none) = false
comes_to pl p q (idle (some s)) = not p.is_connectionless
comes_to pl p q (binded s) = true
comes_to pl p q (active s) = is_some (from_string_and_port pl q.remote_address q.remote_port)

module _ {Poll : Type 0} where
  -- For a connectionless protocol, `connect` of an idle client gives back false, leaves the client
  -- as it is and calls nothing, whatever the request.
  pub connect-unbound_datagram :
      (p : Proto) (q : Request) (c : Client Poll) (w : World)
      → p.is_connectionless ≡ true
      → is_idle c.state ≡ true
      → Returns (λ r w'. (r ≡ (c, false)) × (w'.trace ≡ w.trace)) (connect p q c w)
  unfolding connect enter_connect
  connect-unbound_datagram p q c w less is =
      from c.state (parameters_of (made_in (w.captured p.socket_type) w.frames) w.frames q)
        (entered p w) is
    where
      from :
          (s : ClientState) (refs : Option Request) (v : World)
          → is_idle s ≡ true
          → Returns (λ r w'. (r ≡ (c, false)) × (w'.trace ≡ v.trace)) (connect_from p q refs s c v)
      from (idle none) refs v is' = returns (refl, refl)
      from (idle (some s)) refs v is' = simp less (returns (refl, refl))
      from (binded s) refs v is' = cc
      from (active s) refs v is' = cc

  connect-Ended :
      (p : Proto) (q : Request) (c : Client Poll) (w : World)
      → IsOrdered p w
      → Partial (λ _ w'. Ended p w') (connect p q c w)
  unfolding connect enter_connect
  connect-Ended p q c w ordered =
      connect_from-Stays (Ended p) (λ call v h. h) p q
        (parameters_of (made_in (w.captured p.socket_type) w.frames) w.frames q) c.state c
        (entered p w) (entered-Ended p w ordered)

  dangling_from :
      (p : Proto) (q : Request) (s : ClientState) (c : Client Poll) (w : World)
      → connect_from p q none s c w
        ≡ (if comes_to w.platform p q s then undefined else ok (c, false) w)
  unfolding connect_from use_closures retarget
  dangling_from p q (idle none) c w = refl
  dangling_from p q (idle (some s)) c w = elim (Bool-cases p.is_connectionless) [
    | inl less ↦ simp less refl
    | inr stream ↦ simp stream refl
  ]
  dangling_from p q (binded s) c w = refl
  dangling_from p q (active s) c w =
      go (from_string_and_port w.platform q.remote_address q.remote_port)
    where
      go :
          (o : Option InAddressPort)
          → retarget none c o w ≡ (if is_some o then undefined else ok (c, false) w)
      go none = refl
      go (some at) = refl

  connect-dangling :
      (p : Proto) (q : Request) (c : Client Poll) (w : World)
      → Ended p w
      → connect p q c w
        ≡ (if comes_to w.platform p q c.state then undefined else ok (c, false) (entered p w))
  unfolding connect enter_connect
  connect-dangling p q c w (frame, before, ended) =
      let other : (frame == w.frames) ≡ false = ground (arith, ended) in
      simp (before, other) (dangling_from p q c.state c (entered p w))

  -- Where the frames that closures refer to have begun: of two calls of `connect` of clients of one
  -- protocol, the first with any request and client, the second with any request and with any
  -- client, which may be chosen from what the first gave back, the second does not succeed,
  -- wherever the first is defined, whether it succeeds or not. The second is undefined for a socket
  -- of a connection based protocol that is not bound, for a bound socket, and for an active one
  -- with an address that parses; else it gives back false with that client as it is and no call of
  -- the system.
  pub connect-twice :
      (p : Proto) (q1 q2 : Request) (c1 : Client Poll) (c2 : Client Poll × Bool → Client Poll)
      (w : World)
      → IsOrdered p w
      → Partial
          (λ r1 w1. connect p q2 (c2 r1) w1 ≡ (
            if comes_to w1.platform p q2 (c2 r1).state
            then undefined
            else ok (c2 r1, false) (entered p w1)))
          (connect p q1 c1 w)
  connect-twice p q1 q2 c1 c2 w ordered =
      Partial-mono (connect-Ended p q1 c1 w ordered)
        λ r w1 ended. connect-dangling p q2 (c2 r) w1 ended
