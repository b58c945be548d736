-- ===== src/States/Refinement.antt =====
-- src/socket/socket.tpp and include/policy: every step in the life of a descriptor keeps to the phases.
use strongly_typed_sockets.Base.{ℕ, ◌≡◌, refl, ℤ, true, false, some, inl, inr, Bool-cases, sym}
use strongly_typed_sockets.Os.{World}
use strongly_typed_sockets.Os.Returns.{Partial, defined, Partial-bind, Partial-ok, Partial-mono}
use strongly_typed_sockets.Address.{InAddressPort}
use strongly_typed_sockets.Impl.{SocketImpl, ShutdownDir}
use strongly_typed_sockets.Impl
use strongly_typed_sockets.States
use strongly_typed_sockets.States.{
  Proto, Socket, Binded, Listening, Active, destroy_impl, create, bind, bind_datagram, connect,
  connect_binded, listen, accept,
}
use strongly_typed_sockets.States.Phases.{
  Fresh, phase, proper, closed, created, bound, InPhase, may_close, may_transfer_datagram,
}
use strongly_typed_sockets.States.Calls.{bind-Leads, connect-Leads, listen-Leads, accept-InPhase}
use strongly_typed_sockets.States.Transfers.{
  send-InPhase, receive-InPhase, send_to-InPhase, receive_from-InPhase, shutdown-InPhase,
  destroy_impl-InPhase,
}
use strongly_typed_sockets.States.Creation.{create-Opens, accept-Connects}
use strongly_typed_sockets.States.Typestate.{
  Object, no_object, socket_t, binded_socket, listening_socket, active_socket, stands_for, Holds,
  bind_result, active_result, connect_result, listen_result, Point, IsImpl, Step, Life, creates,
  is_accepted, elsewhere, binds, binds_datagram, connects, connects_binded, listens, accepts, sends,
  receives, sends_to, receives_from, shuts_down, is_destroyed, ended, step,
}

module _ (p : Proto) (x : ℤ) where
  -- The object holds the descriptor, which is in the phase that its type stands for.
  abbrev pub Keeps : Object → World → Type 0
  Keeps o w = InPhase x (stands_for p o) w × Holds x o

  bind-Keeps :
      (s : Socket) (at : InAddressPort) (w : World)
      → Keeps (socket_t s) w
      → Partial (λ r w'. Keeps (bind_result r) w') (bind s at w)
  unfolding bind
  bind-Keeps s at w h = Partial-bind (bind-Leads x s.m_impl at w h.1 h.0) λ ok w' h'.
      elim (Bool-cases ok) [
        | inl e ↦ rw e (defined (rw e at h', h.1))
        | inr e ↦ rw e (defined (rw e at h', h.1))
      ]

  bind_datagram-Keeps :
      (s : Socket) (at : InAddressPort) (w : World)
      → p.is_connectionless ≡ true
      → Keeps (socket_t s) w
      → Partial (λ r w'. Keeps (active_result r) w') (bind_datagram s at w)
  unfolding bind_datagram
  bind_datagram-Keeps s at w less h = Partial-bind (bind-Leads x s.m_impl at w h.1 h.0) λ ok w' h'.
      elim (Bool-cases ok) [
        | inl e ↦ rw e (defined (rw less (rw e at h'), h.1))
        | inr e ↦ rw e (defined (rw e at h', h.1))
      ]

  connect-Keeps :
      (s : Socket) (remote : InAddressPort) (w : World)
      → p.is_connectionless ≡ false
      → Keeps (socket_t s) w
      → Partial (λ r w'. Keeps (active_result r) w') (connect s remote w)
  unfolding connect
  connect-Keeps s remote w stream h =
      Partial-bind (connect-Leads x created s.m_impl remote w h.1 refl h.0) λ ok w' h'.
        elim (Bool-cases ok) [
          | inl e ↦ rw e (defined (rw stream (rw e at h'), h.1))
          | inr e ↦ rw e (defined (rw e at h', h.1))
        ]

  connect_binded-Keeps :
      (s : Binded) (remote : InAddressPort) (w : World)
      → p.is_connectionless ≡ false
      → Keeps (binded_socket s) w
      → Partial (λ r w'. Keeps (connect_result r) w') (connect_binded s remote w)
  unfolding connect_binded
  connect_binded-Keeps s remote w stream h =
      Partial-bind (connect-Leads x bound s.m_impl remote w h.1 refl h.0) λ ok w' h'.
        elim (Bool-cases ok) [
          | inl e ↦ rw e (defined (rw stream (rw e at h'), h.1))
          | inr e ↦ rw e (defined (rw e at h', h.1))
        ]

  listen-Keeps :
      (s : Binded) (max_conn : ℕ) (w : World)
      → Keeps (binded_socket s) w
      → Partial (λ r w'. Keeps (listen_result r) w') (listen s max_conn w)
  unfolding listen
  listen-Keeps s max_conn w h =
      Partial-bind (listen-Leads x s.m_impl max_conn w h.1 h.0) λ ok w' h'. elim (Bool-cases ok) [
        | inl e ↦ rw e (defined (rw e at h', h.1))
        | inr e ↦ rw e (defined (rw e at h', h.1))
      ]

  accept-Keeps :
      (s : Listening) (w : World)
      → Keeps (listening_socket s) w
      → Partial (λ _ w'. Keeps (listening_socket s) w') (accept s w)
  unfolding accept
  accept-Keeps s w h =
      Partial-bind (accept-InPhase x s.m_impl w h.1 h.0) λ o w' h'. defined (h', h.1)

  transfer_phase : (s : Active) → may_transfer_datagram (stands_for p (active_socket s)) ≡ true
  transfer_phase s = elim (Bool-cases p.is_connectionless) [ inl e ↦ rw e refl | inr e ↦ rw e refl ]

  close_phase : (o : Object) (s : SocketImpl) → IsImpl o s → may_close (stands_for p o) ≡ true
  close_phase no_object s h = absurd h
  close_phase (socket_t _) s h = refl
  close_phase (binded_socket _) s h = refl
  close_phase (listening_socket _) s h = refl
  close_phase (active_socket _) s h = elim (Bool-cases p.is_connectionless) [
    | inl e ↦ rw e refl
    | inr e ↦ rw e refl
  ]

  impl-Holds : (o : Object) (s : SocketImpl) → IsImpl o s → Holds x o → s.m_fd ≡ some x
  impl-Holds no_object s h holds = absurd h
  impl-Holds (socket_t o) s h holds = rw (sym h) holds
  impl-Holds (binded_socket o) s h holds = rw (sym h) holds
  impl-Holds (listening_socket o) s h holds = rw (sym h) holds
  impl-Holds (active_socket o) s h holds = rw (sym h) holds

  shutdown-Keeps :
      (s : Active) (dir : ShutdownDir) (w : World)
      → Keeps (active_socket s) w
      → Partial (λ _ w'. Keeps (active_socket s) w') (States.shutdown s dir w)
  unfolding States.shutdown
  shutdown-Keeps s dir w h = elim (Bool-cases (Impl.empty s.m_impl)) [
    | inl e ↦ rw e (defined h)
    | inr e ↦ rw e (
        Partial-mono (shutdown-InPhase x _ s.m_impl dir w h.1 (transfer_phase s) h.0)
          λ _ w' h'. (h', h.1))
  ]

  pub Step-Keeps : (from to : Point) → Step p x from to → Keeps from.0 from.1 → Keeps to.0 to.1
  Step-Keeps from to (creates af s w w' run holds) h =
      (Partial-ok (create-Opens x p af w h.0) run holds, holds)
  Step-Keeps from to (is_accepted l y s w w' stream at other run holds) h =
      (rw stream (Partial-ok (accept-Connects x l y w at other h.0) run holds), holds)
  Step-Keeps from to (elsewhere c o w foreign) h = (
    record {
      proper_so_far = rw (h.0.at, (foreign (stands_for p o)).0) h.0.proper_so_far;
      at = rw h.0.at (foreign (stands_for p o)).1;
      fresh = h.0.fresh;
    },
    h.1,
  )
  Step-Keeps from to (binds s at r w w' stream run) h = Partial-ok (bind-Keeps s at w h) run
  Step-Keeps from to (binds_datagram s at r w w' less run) h =
      Partial-ok (bind_datagram-Keeps s at w less h) run
  Step-Keeps from to (connects s remote r w w' stream run) h =
      Partial-ok (connect-Keeps s remote w stream h) run
  Step-Keeps from to (connects_binded s remote r w w' stream run) h =
      Partial-ok (connect_binded-Keeps s remote w stream h) run
  Step-Keeps from to (listens s max_conn r w w' run) h =
      Partial-ok (listen-Keeps s max_conn w h) run
  Step-Keeps from to (accepts s r w w' run) h = Partial-ok (accept-Keeps s w h) run
  Step-Keeps from to (sends s buffer n flags r w w' stream run) h = (
    rw stream (Partial-ok (send-InPhase x s.m_impl buffer n flags w h.1 (rw stream at h.0)) run),
    h.1,
  )
  Step-Keeps from to (receives s buffer n flags r w w' stream run) h = (
    rw stream (Partial-ok (receive-InPhase x s.m_impl buffer n flags w h.1 (rw stream at h.0)) run),
    h.1,
  )
  Step-Keeps from to (sends_to s remote buffer n flags r w w' less run) h = (
    Partial-ok (send_to-InPhase x _ s.m_impl remote buffer n flags w h.1 (transfer_phase s) h.0)
        run,
    h.1,
  )
  Step-Keeps from to (receives_from s buffer n flags r w w' less run) h = (
    Partial-ok (receive_from-InPhase x _ s.m_impl buffer n flags w h.1 (transfer_phase s) h.0) run,
    h.1,
  )
  Step-Keeps from to (shuts_down s dir r w w' run) h = Partial-ok (shutdown-Keeps s dir w h) run
  Step-Keeps from to (is_destroyed o s w w' has run) h = (
    Partial-ok (destroy_impl-InPhase x _ s w (impl-Holds o s has h.1) (close_phase o s has) h.0)
        run,
    tt,
  )

  Life-Keeps : (from to : Point) → Life p x from to → Keeps from.0 from.1 → Keeps to.0 to.1
  Life-Keeps from to (ended _) h = h
  Life-Keeps from to (step _ mid _ one rest) h = Life-Keeps mid to rest (Step-Keeps from mid one h)

  -- For a descriptor `x` that is closed at first, a trace of calls that `x` takes in its phases,
  -- and a system that hands out `x` only where it is closed: over any life of `x`, from the
  -- `create` or `accept` whose object holds it through the policies that are called on that object
  -- and calls that do not concern `x`, to its destructor, every call on `x` is one that it takes in
  -- the phase that it is in, and at the end an object holds `x` whose type stands for the phase
  -- that `x` is in, or it is closed and none holds it.
  pub Life-proper :
      (o : Object) (w w' : World)
      → Life p x (no_object, w) (o, w')
      → phase x w.trace ≡ closed
      → proper x w.trace ≡ true
      → Fresh x w.env
      → (proper x w'.trace ≡ true) × (phase x w'.trace ≡ stands_for p o) × Holds x o
  Life-proper o w w' life at so_far fresh =
      let end =
        Life-Keeps (no_object, w) (o, w') life
          (record { proper_so_far = so_far; at = at; fresh = fresh }, tt) in
      (end.0.proper_so_far, end.0.at, end.1)
