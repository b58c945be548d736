-- ===== src/States/Ledger.antt =====
-- src/socket/socket.tpp and include/policy: the descriptor of a socket goes from state to state, and
-- is closed by the destructor of the last object that holds it.
use strongly_typed_sockets.Base.{
  ◌⊎◌, ℕ, ◌+◌, ◌≡◌, refl, ℤ, false, Option, none, some, inl, inr, Option-cases, Bool-cases, arith,
  is_none,
}
use strongly_typed_sockets.Os.{World, Cmd, af_inet}
use strongly_typed_sockets.Os.Returns.{Returns, returns, Returns-bind}
use strongly_typed_sockets.Os.Ledger.{Books, IsDescriptor, held}
use strongly_typed_sockets.Utils.{mbind_cmd}
use strongly_typed_sockets.Address.{InAddressPort}
use strongly_typed_sockets.Impl.{SocketImpl, default_impl}
use strongly_typed_sockets.Impl
use strongly_typed_sockets.Impl.Ledger.{
  bind-Quiet_impl, connect-Quiet, listen-Quiet, close-Books, open_fd-Books,
}
use strongly_typed_sockets.Impl.Accept.{accept-Books}
use strongly_typed_sockets.States.{
  Proto, Socket, Binded, Listening, Active, destroy_impl, create, bind, bind_datagram, connect,
  connect_binded, listen, accept,
}

-- The `socket_impl` of an object that may be absent, and the descriptor that it holds.
abbrev pub binded_impl : Option Binded → Option SocketImpl
binded_impl none = none
binded_impl (some s) = some s.m_impl

abbrev pub listening_impl : Option Listening → Option SocketImpl
listening_impl none = none
listening_impl (some s) = some s.m_impl

abbrev pub active_impl : Option Active → Option SocketImpl
active_impl none = none
active_impl (some s) = some s.m_impl

abbrev pub socket_impl_of : Option Socket → Option SocketImpl
socket_impl_of none = none
socket_impl_of (some s) = some s.m_impl

abbrev pub held_impl : ℤ → Option SocketImpl → ℕ
held_impl x none = 0
held_impl x (some s) = held x s.m_fd

-- What a policy does with the `socket_impl` of its object: it stays there and nothing is made, or it
-- is moved whole to what is made.
abbrev pub Moves : SocketImpl → SocketImpl → Option SocketImpl → Type 0
Moves s left made = ((left ≡ s) × (made ≡ none)) ⊎ ((left ≡ (Impl.move s).1) × (made ≡ some s))

-- Nothing is lost or doubled.
pub held-Moves :
    (x : ℤ) (s left : SocketImpl) (made : Option SocketImpl)
    → Moves s left made
    → held x s.m_fd ≡ held x left.m_fd + held_impl x made
held-Moves x s left made m = ground arith

-- A socket that has its descriptor, of the family `af`.
pub record IsOpen (af : ℤ) (s : SocketImpl) : Type 0 where
  pub present : is_none s.m_fd ≡ false
  pub family : s.m_family ≡ af

module _ (x : ℤ) where
  -- A destructor settles what the object holds.
  pub destroy_impl-Books :
      (s : SocketImpl) (k : ℕ) (w : World)
      → Books x (held x s.m_fd + k) w
      → Returns (λ _ w'. Books x k w') (destroy_impl s w)
  unfolding destroy_impl
  destroy_impl-Books s k w b = elim (Bool-cases (is_none s.m_fd)) [
    | inl e ↦ rw e (returns (ground arith, b.1))
    | inr e ↦ rw e (Returns-bind (close-Books x s k w b) λ _ w' b'. returns b')
  ]

  -- The policies leave the books alone and move the descriptor.
  pub bind-Books :
      (s : Socket) (at : InAddressPort) (k : ℕ) (w : World)
      → Books x (held x s.m_impl.m_fd + k) w
      → Returns
          (λ r w'.
            Books x (held x s.m_impl.m_fd + k) w' × Moves s.m_impl r.0.m_impl (binded_impl r.1))
          (bind s at w)
  unfolding bind
  bind-Books s at k w b = Returns-bind (bind-Quiet_impl x s.m_impl at _ w b) λ ok w' b'.
      elim (Bool-cases ok) [
        | inl e ↦ rw e (returns (b', inr (refl, refl)))
        | inr e ↦ rw e (returns (b', inl (refl, refl)))
      ]

  pub bind_datagram-Books :
      (s : Socket) (at : InAddressPort) (k : ℕ) (w : World)
      → Books x (held x s.m_impl.m_fd + k) w
      → Returns
          (λ r w'.
            Books x (held x s.m_impl.m_fd + k) w' × Moves s.m_impl r.0.m_impl (active_impl r.1))
          (bind_datagram s at w)
  unfolding bind_datagram
  bind_datagram-Books s at k w b = Returns-bind (bind-Quiet_impl x s.m_impl at _ w b) λ ok w' b'.
      elim (Bool-cases ok) [
        | inl e ↦ rw e (returns (b', inr (refl, refl)))
        | inr e ↦ rw e (returns (b', inl (refl, refl)))
      ]

  pub connect-Books :
      (s : Socket) (at : InAddressPort) (k : ℕ) (w : World)
      → is_none s.m_impl.m_fd ≡ false
      → Books x (held x s.m_impl.m_fd + k) w
      → Returns
          (λ r w'.
            Books x (held x s.m_impl.m_fd + k) w' × Moves s.m_impl r.0.m_impl (active_impl r.1))
          (connect s at w)
  unfolding connect
  connect-Books s at k w h b = Returns-bind (connect-Quiet x s.m_impl at h _ w b) λ ok w' b'.
      elim (Bool-cases ok) [
        | inl e ↦ rw e (returns (b', inr (refl, refl)))
        | inr e ↦ rw e (returns (b', inl (refl, refl)))
      ]

  pub connect_binded-Books :
      (s : Binded) (at : InAddressPort) (k : ℕ) (w : World)
      → is_none s.m_impl.m_fd ≡ false
      → Books x (held x s.m_impl.m_fd + k) w
      → Returns
          (λ r w'.
            Books x (held x s.m_impl.m_fd + k) w' × Moves s.m_impl r.0.m_impl (active_impl r.1))
          (connect_binded s at w)
  unfolding connect_binded
  connect_binded-Books s at k w h b = Returns-bind (connect-Quiet x s.m_impl at h _ w b) λ ok w' b'.
      elim (Bool-cases ok) [
        | inl e ↦ rw e (returns (b', inr (refl, refl)))
        | inr e ↦ rw e (returns (b', inl (refl, refl)))
      ]

  pub listen-Books :
      (s : Binded) (n : ℕ) (k : ℕ) (w : World)
      → Books x (held x s.m_impl.m_fd + k) w
      → Returns
          (λ r w'.
            Books x (held x s.m_impl.m_fd + k) w' × Moves s.m_impl r.0.m_impl (listening_impl r.1))
          (listen s n w)
  unfolding listen
  listen-Books s n k w b = Returns-bind (listen-Quiet x s.m_impl n _ w b) λ ok w' b'.
      elim (Bool-cases ok) [
        | inl e ↦ rw e (returns (b', inr (refl, refl)))
        | inr e ↦ rw e (returns (b', inl (refl, refl)))
      ]

module _ (x : ℤ) (d : IsDescriptor x) where
  -- `create` gives back the socket that the system opened, or none was opened.
  pub create-Books :
      (p : Proto) (af : ℤ) (k : ℕ) (w : World)
      → Books x k w
      → Returns
          (λ r w'.
            Books x (held_impl x (socket_impl_of r) + k) w'
            × ((s : Socket) → r ≡ some s → IsOpen af s.m_impl))
          (create p af w)
  unfolding create
  create-Books p af k w b =
      Returns-bind (open_fd-Books x d (default_impl w.platform) af p.socket_type _ k w b) λ r w' h.
        elim (Bool-cases r.1) [
          | inl e ↦ rw e (returns ((ground (arith, e), h.0.1), λ s q. opened r.0 s q (h.1 e)))
          | inr e ↦ rw e (returns ((ground (arith, e), h.0.1), λ s q. cc))
        ]
    where
      opened :
          (i : SocketImpl) (s : Socket)
          → some (record { m_impl = (Impl.move i).0 }) ≡ some s
          → (is_none i.m_fd ≡ false) × (i.m_family ≡ af)
          → IsOpen af s.m_impl
      opened i s q o = ground arith

  pub accept-Books_socket :
      (s : Listening) (k : ℕ) (w : World)
      → s.m_impl.m_family ≡ af_inet
      → Books x k w
      → Returns (λ r w'. Books x (held_impl x (active_impl r) + k) w') (accept s w)
  unfolding accept
  accept-Books_socket s k w four b = Returns-bind (accept-Books x d s.m_impl k w four b) λ r w' b'.
      elim (Option-cases r) [
        | inl e ↦ rw e (returns (ground (arith, e), b'.1))
        | inr (a, e) ↦ rw e (returns (ground (arith, e), b'.1))
      ]

-- The rule for `mbind` over objects that hold a `socket_impl`: `held_by r` is what the result holds
-- with the frame `k`, and `V r` what else is known of it. What the bound function leaves is
-- destroyed.
module _ (x : ℤ) {T B : Type 0} (impl : T → SocketImpl) (held_by : Option B → ℕ)
    (V : Option B → Type 0) where
  abbrev pub Result : Option B → World → Type 0
  Result r w = Books x (held_by r) w × V r

  pub mbind_cmd-Books :
      (o : Option T) (f : T → Cmd (T × Option B)) (k : ℕ) (w : World)
      → held_by none ≡ k
      → V none
      → (o ≡ none → Books x k w)
      → ((t : T)
          → o ≡ some t
          → Returns (λ r w'. Books x (held x (impl r.0).m_fd + held_by r.1) w' × V r.1) (f t w))
      → Returns Result (mbind_cmd (λ t. destroy_impl (impl t)) o f w)
  unfolding mbind_cmd
  mbind_cmd-Books none f k w e v b next = returns ((ground (arith, b refl), (b refl).1), v)
  mbind_cmd-Books (some t) f k w e v b next = Returns-bind (next t refl) λ r w' h.
      Returns-bind (destroy_impl-Books x (impl r.0) _ w' h.0) λ _ w'' b'. returns (b', h.1)
