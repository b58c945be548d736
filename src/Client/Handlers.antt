-- ===== src/Client/Handlers.antt =====
-- src/endpoint/client.tpp: the handlers that `register_cbs` adds, and what they do to the client.
use strongly_typed_sockets.Base.{
  ℕ, ◌+◌, ℤ, ◌==ℤ◌, some, [], inl, inr, Bool-cases, Option-cases, arith,
}
use strongly_typed_sockets.Os.{World}
use strongly_typed_sockets.Os.Returns.{Returns, returns, Returns-bind, mono}
use strongly_typed_sockets.Os.Ledger.{Books}
use strongly_typed_sockets.States.{Proto}
use strongly_typed_sockets.Observer.{PollTraits}
use strongly_typed_sockets.Observer.Quiet.{QuietPoll, invoke-Books}
use strongly_typed_sockets.Observer.Proceed.{proceed-keeps}
use strongly_typed_sockets.Client
use strongly_typed_sockets.Client.{
  Client, Handler, erase, on_readable, on_writable, state_fd, run_erase, run_on_readable,
  run_on_writable, run_handler, register_cbs, unregister_cbs,
}
use strongly_typed_sockets.Client.Invariant.{held_state, IsValid}

module _ (x : ℤ) {Poll : Type 0} (traits : PollTraits Poll) (q : QuietPoll x traits) where
  -- What a handler leaves as it is: the socket and all else that the books and validity are about.
  abbrev Keeps : Proto → ℕ → Client Poll → World → Type 0
  Keeps p k c w = IsValid p c × Books x (held_state x c.state + k) w

  run_erase-Keeps :
      (p : Proto) (k : ℕ) (fd : ℤ) (c : Client Poll) (w : World)
      → Keeps p k c w
      → Returns (λ r w'. Keeps p k r.0 w') (run_erase traits fd c w)
  unfolding run_erase
  run_erase-Keeps p k fd c w h = elim (Bool-cases (fd ==ℤ state_fd c.state)) [
    | inr other ↦ rw other (returns h)
    | inl mine ↦ rw mine (
        Returns-bind (q.del c.poll fd _ w h.1) λ _ w1 b1. elim (Option-cases c.m_on_disconnect) [
          | inl n ↦ rw n (returns (h.0, b1))
          | inr (f, m) ↦ rw m (
              Returns-bind (invoke-Books x (some f) [] _ w1 b1) λ thrown w2 b2.
                elim (Option-cases thrown) [
                  | inl calm ↦ rw calm (returns (h.0, b2))
                  | inr (e, t) ↦ rw t (returns (h.0, b2))
                ])
        ])
  ]

  run_on_readable-Keeps :
      (p : Proto) (k : ℕ) (fd : ℤ) (c : Client Poll) (w : World)
      → Keeps p k c w
      → Returns (λ r w'. Keeps p k r.0 w') (run_on_readable traits fd c w)
  unfolding run_on_readable
  run_on_readable-Keeps p k fd c w h = elim (Bool-cases (fd ==ℤ state_fd c.state)) [
    | inr other ↦ rw other (returns h)
    | inl mine ↦ rw mine (
        Returns-bind (invoke-Books x c.m_on_read_ready [] _ w h.1)
          λ thrown w1 b1. returns (h.0, b1))
  ]

  run_on_writable-Keeps :
      (p : Proto) (k : ℕ) (fd : ℤ) (c : Client Poll) (w : World)
      → Keeps p k c w
      → Returns (λ r w'. Keeps p k r.0 w') (run_on_writable traits fd c w)
  unfolding run_on_writable
  run_on_writable-Keeps p k fd c w h = elim (Bool-cases (fd ==ℤ state_fd c.state)) [
    | inr other ↦ rw other (returns h)
    | inl mine ↦ rw mine (elim (Option-cases c.m_on_connect) [
      | inl n ↦ rw n (returns h)
      | inr (f, m) ↦ rw m (
          Returns-bind (invoke-Books x (some f) [] _ w h.1) λ thrown w2 b2.
            elim (Option-cases thrown) [
              | inl calm ↦ rw calm (returns (h.0, b2))
              | inr (e, t) ↦ rw t (returns (h.0, b2))
            ])
    ])
  ]

  run_handler-Keeps :
      (p : Proto) (k : ℕ) (handler : Handler) (fd : ℤ) (c : Client Poll) (w : World)
      → Keeps p k c w
      → Returns (λ r w'. Keeps p k r.0 w') (run_handler traits handler fd c w)
  unfolding run_handler
  run_handler-Keeps p k erase fd c w h = run_erase-Keeps p k fd c w h
  run_handler-Keeps p k on_readable fd c w h = run_on_readable-Keeps p k fd c w h
  run_handler-Keeps p k on_writable fd c w h = run_on_writable-Keeps p k fd c w h

  -- For a well formed client, a poll whose registrations open and close nothing, and a poll result
  -- that leaves the books of `x` balanced: `proceed` is defined whatever the events are and
  -- whatever the user's callbacks throw, and afterwards the client is well formed and the calls of
  -- `close` that are owed for `x` are those for the client's own socket and the `k` of before.
  pub proceed-Books :
      (p : Proto) (timeout : ℤ) (c : Client Poll) (k : ℕ) (w : World)
      → IsValid p c
      → Returns
          (λ events w'. Books x (held_state x c.state + k) w')
          (traits.proceed c.poll timeout w)
      → Returns
          (λ r w'. IsValid p r.0 × Books x (held_state x r.0.state + k) w')
          (Client.proceed traits timeout c w)
  unfolding Client.proceed
  proceed-Books p timeout c k w v polls =
      mono
        (proceed-keeps traits (run_handler traits) c.handlers c.m_unhandled (Keeps p k)
          (run_handler-Keeps p k) (λ f args s w u h. (h.0, (ground (arith, h.1), h.1.1)))
          (λ _. Unit {0}) c.poll timeout c w (mono polls λ events w' b. ((v, b), tt)))
        λ r w' h. h.0
