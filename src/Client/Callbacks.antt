-- ===== src/Client/Callbacks.antt =====
-- src/endpoint/client.tpp: how often `proceed` calls the callbacks of `connect` that are to be called
-- once, the one for the connection and the one for its end.
use strongly_typed_sockets.Base.{
  ℕ, ◌+◌, ◌≡◌, refl, ℤ, ◌==ℤ◌, Bool, false, Option, none, some, List, [], ◌∷◌, inl, inr, Bool-cases,
  Option-cases, arith, ◌==◌,
}
use strongly_typed_sockets.Os.{World, Call, Trace, Callback, perform, answer}
use strongly_typed_sockets.Os.Returns.{Returns, returns, Returns-bind, mono}
use strongly_typed_sockets.Os.Ledger.{one_if}
use strongly_typed_sockets.Epoll
use strongly_typed_sockets.Epoll.{Event, Epoll}
use strongly_typed_sockets.Observer.{PollTraits, invoke, epoll_traits}
use strongly_typed_sockets.Observer.Proceed.{proceed-keeps}
use strongly_typed_sockets.Client
use strongly_typed_sockets.Client.{
  Client, Handler, erase, on_readable, on_writable, state_fd, run_erase, run_on_readable,
  run_on_writable, run_handler,
}

abbrev pub is_call : Callback → Call → Bool
is_call f (Call.invoke k _) = k == f
is_call f _ = false

-- How often a trace calls `f`.
abbrev pub calls : Callback → Trace → ℕ
calls f [] = 0
calls f ((c, _) ∷ t) = one_if (is_call f c) + calls f t

abbrev pub pending_of : Callback → Option Callback → ℕ
pending_of f none = 0
pending_of f (some k) = one_if (k == f)

-- How often the client still holds `f` as a callback to be called once.
abbrev pub pending : {Poll : Type 0} → Callback → Client Poll → ℕ
pending f c = pending_of f c.m_on_connect + pending_of f c.m_on_disconnect

-- `f` does not throw.
abbrev pub Calm : Callback → World → Type 0
Calm f w = (t : Trace) (args : List ℤ) → (w.env t (Call.invoke f args)).threw ≡ false

abbrev pub Told : Callback → ℕ → World → Type 0
Told f n w = (calls f w.trace ≡ n) × Calm f w

-- A poll that calls no callback.
pub record SilentPoll (f : Callback) {Poll : Type 0} (traits : PollTraits Poll) : Type 0 where
  pub del :
      (poll : Poll) (fd : ℤ) (n : ℕ) (w : World)
      → Told f n w
      → Returns (λ _ w'. Told f n w') (traits.del_socket poll fd w)

pub epoll_traits-SilentPoll : (f : Callback) → SilentPoll f epoll_traits
unfolding Epoll.del_socket Epoll.epoll_ctl perform
epoll_traits-SilentPoll f = record { del = λ poll fd n w h. returns (ground (arith, h.0), h.1) }

module _ (f : Callback) {Poll : Type 0} (traits : PollTraits Poll) (q : SilentPoll f traits) where
  -- The calls made and those still to make are `n`.
  abbrev Once : ℕ → Client Poll → World → Type 0
  Once n c w = (pending_of f c.m_on_read_ready ≡ 0) × (calls f w.trace + pending f c ≡ n) × Calm f w

  run_erase-Once :
      (n : ℕ) (fd : ℤ) (c : Client Poll) (w : World)
      → Once n c w
      → Returns (λ r w'. Once n r.0 w') (run_erase traits fd c w)
  unfolding run_erase invoke perform
  run_erase-Once n fd c w h = elim (Bool-cases (fd ==ℤ state_fd c.state)) [
    | inr other ↦ rw other (returns h)
    | inl mine ↦ rw mine (
        Returns-bind (q.del c.poll fd _ w (refl, h.2)) λ _ w1 b1.
          elim (Option-cases c.m_on_disconnect) [
            | inl e ↦ rw e (returns (h.0, ground (arith, h.1, b1.0), b1.1))
            | inr (k, e) ↦ rw e (elim (Bool-cases (answer w1 (Call.invoke k [])).threw) [
              | inl t ↦ rw t (returns (h.0, ground (arith, h.1, b1.0, b1.1 w1.trace [], e), b1.1))
              | inr t ↦ rw t (returns (h.0, ground (arith, h.1, b1.0, e), b1.1))
            ])
          ])
  ]

  run_on_readable-Once :
      (n : ℕ) (fd : ℤ) (c : Client Poll) (w : World)
      → Once n c w
      → Returns (λ r w'. Once n r.0 w') (run_on_readable traits fd c w)
  unfolding run_on_readable invoke perform
  run_on_readable-Once n fd c w h = elim (Bool-cases (fd ==ℤ state_fd c.state)) [
    | inr other ↦ rw other (returns h)
    | inl mine ↦ rw mine (elim (Option-cases c.m_on_read_ready) [
      | inl e ↦ simp e (returns h)
      | inr (k, e) ↦ simp e (returns {a = (c, _)} (h.0, ground (arith, h.0, h.1, e), h.2))
    ])
  ]

  run_on_writable-Once :
      (n : ℕ) (fd : ℤ) (c : Client Poll) (w : World)
      → Once n c w
      → Returns (λ r w'. Once n r.0 w') (run_on_writable traits fd c w)
  unfolding run_on_writable invoke perform
  run_on_writable-Once n fd c w h = elim (Bool-cases (fd ==ℤ state_fd c.state)) [
    | inr other ↦ rw other (returns h)
    | inl mine ↦ rw mine (elim (Option-cases c.m_on_connect) [
      | inl e ↦ rw e (returns h)
      | inr (k, e) ↦ rw e (elim (Bool-cases (answer w (Call.invoke k [])).threw) [
        | inl t ↦ rw t (returns (h.0, ground (arith, h.1, h.2 w.trace [], e), h.2))
        | inr t ↦ rw t (returns (h.0, ground (arith, h.1, e), h.2))
      ])
    ])
  ]

  run_handler-Once :
      (n : ℕ) (handler : Handler) (fd : ℤ) (c : Client Poll) (w : World)
      → Once n c w
      → Returns (λ r w'. Once n r.0 w') (run_handler traits handler fd c w)
  unfolding run_handler
  run_handler-Once n erase fd c w h = run_erase-Once n fd c w h
  run_handler-Once n on_readable fd c w h = run_on_readable-Once n fd c w h
  run_handler-Once n on_writable fd c w h = run_on_writable-Once n fd c w h

  -- For a callback `f` that does not throw and is neither the client's callback for reading nor the
  -- one for unhandled events, and a poll that calls no callback when a socket is taken off it and
  -- leaves the sum at `n` when it is asked for events: after `proceed`, with whatever events, the
  -- calls of `f` in the trace and the places where the client still holds `f` as `on_connect` or
  -- `on_disconnect` are together `n`. So each of these places leads to one call at most.
  pub proceed-Once :
      (n : ℕ) (timeout : ℤ) (c : Client Poll) (w : World)
      → pending_of f c.m_on_read_ready ≡ 0
      → pending_of f c.m_unhandled ≡ 0
      → Returns
          (λ events w'. (calls f w'.trace + pending f c ≡ n) × Calm f w')
          (traits.proceed c.poll timeout w)
      → Returns (λ r w'. calls f w'.trace + pending f r.0 ≡ n) (Client.proceed traits timeout c w)
  unfolding Client.proceed
  proceed-Once n timeout c w reading unhandled polls =
      mono
        (proceed-keeps traits (run_handler traits) c.handlers c.m_unhandled (Once n)
          (run_handler-Once n) (λ k args s w' u h. (h.0, ground (arith, h.1, unhandled, u), h.2))
          (λ _. Unit {0}) c.poll timeout c w (mono polls λ events w' b. ((reading, b.0, b.1), tt)))
        λ r w' h. h.0.1
