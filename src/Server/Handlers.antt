-- ===== src/Server/Handlers.antt =====
-- src/endpoint/server.tpp: the handlers that `register_cbs` adds, and the descriptors of the connections
-- that the server accepts.
use strongly_typed_sockets.Base.{
  ℕ, ◌+◌, ◌≡◌, refl, ℤ, ◌==ℤ◌, Option, none, some, [], inl, inr, Bool-cases, Option-cases, arith,
  ◌∙◌,
}
use strongly_typed_sockets.Os.{World, Call, Callback, perform, after, answer, af_inet}
use strongly_typed_sockets.Os.Returns.{Returns, returns, Returns-bind, mono}
use strongly_typed_sockets.Os.Ledger.{Books, IsDescriptor, held}
use strongly_typed_sockets.Impl
use strongly_typed_sockets.States.{Proto, Active}
use strongly_typed_sockets.States.Ledger.{destroy_impl-Books, accept-Books_socket}
use strongly_typed_sockets.Observer.{PollTraits}
use strongly_typed_sockets.Observer.Quiet.{QuietPoll, invoke-Books}
use strongly_typed_sockets.Observer.Proceed.{proceed-keeps}
use strongly_typed_sockets.Accepted.{ServerState, idle, binded, listening, active}
use strongly_typed_sockets.Server
use strongly_typed_sockets.Server.{
  Server, Handler, erase, on_readable, state_fd, erase_active_socket, hand_over, run_erase, welcome,
  run_accept, run_on_readable, run_handler,
}
use strongly_typed_sockets.Server.Lifecycle.{held_state, ValidState, IsValid}

module _ (x : ℤ) (d : IsDescriptor x) where
  -- The temporary `accepted_sock` settles its descriptor: through the callback that takes it, or in
  -- its own destructor.
  hand_over-Books :
      (o : Option Callback) (a : Active) (k : ℕ) (w : World)
      → Books x (held x a.m_impl.m_fd + k) w
      → Returns (λ _ w'. Books x k w') (hand_over o a w)
  unfolding hand_over perform
  hand_over-Books none a k w b =
      Returns-bind (destroy_impl-Books x a.m_impl k w b) λ _ w1 b1. returns b1
  hand_over-Books (some f) a k w b =
      let c = Call.hand_over f (Impl.fd a.m_impl) in
      elim (Bool-cases (answer w c).took) [
        | inl taken ↦ rw taken (returns (ground (arith, d, taken), b.1))
        | inr left ↦ rw left (
            Returns-bind (destroy_impl-Books x a.m_impl k (after w c) (ground (arith, left), b.1))
              λ _ w1 b1. returns b1)
      ]

module _ (x : ℤ) (d : IsDescriptor x) {Poll : Type 0} (traits : PollTraits Poll)
    (q : QuietPoll x traits) where
  -- What a handler keeps of a server of IPv4 sockets.
  abbrev Keeps : Proto → ℕ → Server Poll → World → Type 0
  Keeps p k c w = (c.af ≡ af_inet) × IsValid p c × Books x (held_state x c.state + k) w

  run_erase-Keeps :
      (p : Proto) (k : ℕ) (fd : ℤ) (c : Server Poll) (w : World)
      → Keeps p k c w
      → Returns (λ r w'. Keeps p k r.0 w') (run_erase traits fd c w)
  unfolding run_erase erase_active_socket
  run_erase-Keeps p k fd c w h = Returns-bind (q.del c.poll fd _ w h.2) λ _ w1 b1.
      Returns-bind (invoke-Books x c.m_erase_active_socket _ _ w1 b1)
        λ thrown w2 b2. returns (h.0, h.1, b2)

  welcome-Keeps :
      (p : Proto) (k : ℕ) (c : Server Poll) (a : Active) (w : World)
      → (c.af ≡ af_inet) × IsValid p c
      → Books x (held x a.m_impl.m_fd + (held_state x c.state + k)) w
      → Returns (λ r w'. Keeps p k r.0 w') (welcome traits c a w)
  unfolding welcome
  welcome-Keeps p k c a w v b = Returns-bind (q.add c.poll _ _ _ w b) λ _ w1 b1.
      Returns-bind (hand_over-Books x d c.m_on_conn a _ w1 b1)
        λ thrown w2 b2. returns (v.0, v.1, b2)

  run_accept-Keeps :
      (p : Proto) (k : ℕ) (s : ServerState) (c : Server Poll) (w : World)
      → c.state ≡ s
      → ValidState p c.af s
      → Keeps p k c w
      → Returns (λ r w'. Keeps p k r.0 w') (run_accept traits c w)
  unfolding run_accept
  run_accept-Keeps p k (idle o) c w e v h = rw (e, run_accept) (returns h)
  run_accept-Keeps p k (binded s) c w e v h = rw (e, run_accept) (returns h)
  run_accept-Keeps p k (active s) c w e v h = rw (e, run_accept) (returns h)
  run_accept-Keeps p k (listening s) c w e v h =
      rw (e, run_accept)
        (Returns-bind (accept-Books_socket x d s _ w (v.0.family ∙ h.0) h.2) λ r w1 b1.
          elim (Option-cases r) [
            | inl n ↦ rw n (returns (h.0, h.1, (ground (arith, n), b1.1)))
            | inr (a, m) ↦ rw m (welcome-Keeps p k c a w1 (h.0, h.1) (ground (arith, m), b1.1))
          ])

  run_on_readable-Keeps :
      (p : Proto) (k : ℕ) (fd : ℤ) (c : Server Poll) (w : World)
      → Keeps p k c w
      → Returns (λ r w'. Keeps p k r.0 w') (run_on_readable traits p fd c w)
  unfolding run_on_readable
  run_on_readable-Keeps p k fd c w h = elim (Bool-cases (fd ==ℤ state_fd c.state)) [
    | inr other ↦ rw other (returns h)
    | inl mine ↦ rw mine (elim (Bool-cases p.is_connectionless) [
      | inl datagram ↦ simp datagram (
          Returns-bind (invoke-Books x c.m_on_conn [] _ w h.2)
            λ thrown w1 b1. returns (h.0, h.1, b1))
      | inr stream ↦ simp stream (run_accept-Keeps p k c.state c w refl h.1 h)
    ])
  ]

  run_handler-Keeps :
      (p : Proto) (k : ℕ) (handler : Handler) (fd : ℤ) (c : Server Poll) (w : World)
      → Keeps p k c w
      → Returns (λ r w'. Keeps p k r.0 w') (run_handler traits p handler fd c w)
  unfolding run_handler
  run_handler-Keeps p k erase fd c w h = run_erase-Keeps p k fd c w h
  run_handler-Keeps p k on_readable fd c w h = run_on_readable-Keeps p k fd c w h

  -- For a descriptor `x`, a well formed server of the IPv4 family, a poll whose registrations open
  -- and close nothing, and a poll result that leaves the books of `x` balanced: `proceed` is
  -- defined whatever the events are and whatever the user's callbacks throw and take, and
  -- afterwards the server is well formed and what is owed for `x` is what the server's own socket
  -- and the `k` of before owe. So a connection that it accepts is taken by the callback or closed.
  pub proceed-Books_server :
      (p : Proto) (timeout : ℤ) (c : Server Poll) (k : ℕ) (w : World)
      → c.af ≡ af_inet
      → IsValid p c
      → Returns
          (λ events w'. Books x (held_state x c.state + k) w')
          (traits.proceed c.poll timeout w)
      → Returns
          (λ r w'. IsValid p r.0 × Books x (held_state x r.0.state + k) w')
          (Server.proceed traits p timeout c w)
  unfolding Server.proceed
  proceed-Books_server p timeout c k w four v polls =
      mono
        (proceed-keeps traits (run_handler traits p) c.handlers c.m_unhandled (Keeps p k)
          (run_handler-Keeps p k) (λ f args s w u h. (h.0, h.1, (ground (arith, h.2), h.2.1)))
          (λ _. Unit {0}) c.poll timeout c w (mono polls λ events w' b. ((four, v, b), tt)))
        λ r w' h. (h.0.1, h.0.2)
