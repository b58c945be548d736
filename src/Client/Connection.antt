-- ===== src/Client/Connection.antt =====
-- src/endpoint/client.tpp: the first call of `connect` for a protocol, in each state.
use strongly_typed_sockets.Base.{
  ℕ, ◌+◌, ◌≡◌, refl, ℤ, false, Option, none, some, inl, inr, Bool-cases, arith,
}
use strongly_typed_sockets.Os.{World, Cmd}
use strongly_typed_sockets.Os.Returns.{Returns, returns, Returns-bind}
use strongly_typed_sockets.Os.Ledger.{Books, held}
use strongly_typed_sockets.Address.{InAddressPort}
use strongly_typed_sockets.Impl.{SocketImpl}
use strongly_typed_sockets.States.{Proto, Socket, Binded, Active}
use strongly_typed_sockets.States.Ledger.{
  IsOpen, Moves, active_impl, connect-Books, connect_binded-Books,
}
use strongly_typed_sockets.Client.{entered, ClientState, idle, binded, active, Client, set_fields}
use strongly_typed_sockets.Client.Frames.{enter_connect-first}
use strongly_typed_sockets.Client.Connect.{
  Request, finish_connect, connect_idle, connect_bound, connect_parsed, retarget, connect_from,
  connect,
}
use strongly_typed_sockets.Client.Invariant.{held_state, ValidState, IsValid, replace_state-Books}

-- The `socket_impl` of a state.
abbrev impl_of : ClientState → Option SocketImpl
impl_of (idle none) = none
impl_of (idle (some s)) = some s.m_impl
impl_of (binded s) = some s.m_impl
impl_of (active s) = some s.m_impl

held-impl_of :
    (x : ℤ) (l : ClientState) (i : SocketImpl) → impl_of l ≡ some i → held_state x l ≡ held x i.m_fd
held-impl_of x (idle none) i e = cc
held-impl_of x (idle (some t)) i e = ground arith
held-impl_of x (binded t) i e = ground arith
held-impl_of x (active t) i e = ground arith

module _ (x : ℤ) {Poll : Type 0} where
  -- `finish_connect` after a policy: the state keeps its socket, or the new socket takes its place.
  finish_connect-Books :
      (p : Proto) (q : Request) (addr : InAddressPort) (s : SocketImpl) (left : ClientState)
      (li : SocketImpl) (made : Option Active) (c : Client Poll) (k : ℕ) (w : World)
      → IsOpen c.af s
      → impl_of left ≡ some li
      → (li ≡ s → ValidState p c.af c.m_remote left)
      → Moves s li (active_impl made)
      → Books x (held x s.m_fd + k) w
      → Returns
          (λ r w'. IsValid p r.0 × Books x (held_state x r.0.state + k) w')
          (finish_connect q addr left made c w)
  unfolding finish_connect set_fields
  finish_connect-Books p q addr s left li none c k w ready il keep m b =
      returns (keep (ground (arith, m)), (ground (arith, m, held-impl_of x left li il), b.1))
  finish_connect-Books p q addr s left li (some a) c k w ready il keep m b =
      let moved : (li.m_fd ≡ none) × (a.m_impl ≡ s) = ground (arith, m) in
      Returns-bind
        (replace_state-Books x left (active a) (held x s.m_fd + k) w
          (ground (arith, moved, held-impl_of x left li il), b.1))
        λ st w1 h.
          returns (rw h.0 (rw moved.1 ready, inr refl), (ground (arith, h.0, h.1.0, moved), h.1.1))

  -- A policy that leaves a state of the client with the socket `s`, or moves the socket away.
  abbrev Policy :
      Proto → Client Poll → SocketImpl → ℕ → ClientState × Option Active → World → Type 0
  Policy p c s k r w =
      (li : SocketImpl) × (impl_of r.0 ≡ some li)
      × (li ≡ s → ValidState p c.af c.m_remote r.0)
      × Moves s li (active_impl r.1)
      × Books x (held x s.m_fd + k) w

  connect_idle-Policy :
      (p : Proto) (c : Client Poll) (s : Socket) (at : InAddressPort) (k : ℕ) (w : World)
      → IsOpen c.af s.m_impl
      → Books x (held x s.m_impl.m_fd + k) w
      → Returns (Policy p c s.m_impl k) (connect_idle s at w)
  unfolding connect_idle
  connect_idle-Policy p c s at k w v b =
      Returns-bind (connect-Books x s at k w v.present b) λ r w1 h.
        returns {a = (idle (some r.0), r.1)} (r.0.m_impl, refl, (λ same. rw same v), h.1, h.0)

  connect_bound-Policy :
      (p : Proto) (c : Client Poll) (s : Binded) (at : InAddressPort) (k : ℕ) (w : World)
      → IsOpen c.af s.m_impl
      → p.is_connectionless ≡ false
      → Books x (held x s.m_impl.m_fd + k) w
      → Returns (Policy p c s.m_impl k) (connect_bound s at w)
  unfolding connect_bound
  connect_bound-Policy p c s at k w v stream b =
      Returns-bind (connect_binded-Books x s at k w v.present b) λ r w1 h.
        returns {a = (binded r.0, r.1)} (r.0.m_impl, refl, (λ same. (rw same v, stream)), h.1, h.0)

  connect_parsed-Books :
      (p : Proto) (policy : InAddressPort → Cmd (ClientState × Option Active)) (q : Request)
      (s : SocketImpl) (c : Client Poll) (o : Option InAddressPort) (k : ℕ) (w : World)
      → IsOpen c.af s
      → IsValid p c
      → Books x (held_state x c.state + k) w
      → ((at : InAddressPort) → Returns (Policy p c s k) (policy at w))
      → Returns
          (λ r w'. IsValid p r.0 × Books x (held_state x r.0.state + k) w')
          (connect_parsed policy q c o w)
  unfolding connect_parsed
  connect_parsed-Books p policy q s c none k w ready v b next = returns (v, b)
  connect_parsed-Books p policy q s c (some at) k w ready v b next =
      Returns-bind (next at)
        λ r w1 h. finish_connect-Books p q at s r.0 h.0 r.1 c k w1 ready h.1 h.2 h.3 h.4

  retarget-Books :
      (p : Proto) (q : Request) (s : Active) (c : Client Poll) (o : Option InAddressPort) (k : ℕ)
      (w : World)
      → c.state ≡ active s
      → IsOpen c.af s.m_impl
      → IsValid p c
      → Books x (held_state x c.state + k) w
      → Returns
          (λ r w'. IsValid p r.0 × Books x (held_state x r.0.state + k) w')
          (retarget (some q) c o w)
  unfolding retarget
  retarget-Books p q s c none k w e ready v b = returns (v, b)
  retarget-Books p q s c (some at) k w e ready v b = returns (rw e (ready, inr refl), b)

  connect_from-Books :
      (p : Proto) (q : Request) (s : ClientState) (c : Client Poll) (k : ℕ) (w : World)
      → c.state ≡ s
      → ValidState p c.af c.m_remote s
      → Books x (held_state x s + k) w
      → Returns
          (λ r w'. IsValid p r.0 × Books x (held_state x r.0.state + k) w')
          (connect_from p q (some q) s c w)
  unfolding connect_from
  connect_from-Books p q (idle none) c k w e v b = returns (rw e tt, rw e b)
  connect_from-Books p q (idle (some s)) c k w e v b = elim (Bool-cases p.is_connectionless) [
    | inl less ↦ simp less (returns (rw e v, rw e b))
    | inr stream ↦ simp stream (
        connect_parsed-Books p (connect_idle s) q s.m_impl c _ k w v (rw e v) (rw e b)
          λ at. connect_idle-Policy p c s at k w v b)
  ]
  connect_from-Books p q (binded s) c k w e v b =
      connect_parsed-Books p (connect_bound s) q s.m_impl c _ k w v.0 (rw e v) (rw e b)
        λ at. connect_bound-Policy p c s at k w v.0 v.1 b
  connect_from-Books p q (active s) c k w e v b =
      retarget-Books p q s c _ k w e v.0 (rw e v) (rw e b)

  -- A call of `connect`, the first for clients of its protocol, on a well formed client with balanced
  -- books, is defined in every state, and afterwards the client is well formed and what is owed for
  -- `x` is what its state holds and the `k` of before, whether it succeeds or not.
  pub connect-first_Books :
      (p : Proto) (q : Request) (c : Client Poll) (k : ℕ) (w : World)
      → IsValid p c
      → w.captured p.socket_type ≡ none
      → Books x (held_state x c.state + k) w
      → Returns (λ r w'. IsValid p r.0 × Books x (held_state x r.0.state + k) w') (connect p q c w)
  unfolding connect
  connect-first_Books p q c k w v unused b =
      rw (connect, enter_connect-first p q w unused)
        (connect_from-Books p q c.state c k (entered p w) refl v b)
