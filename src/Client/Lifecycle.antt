-- ===== src/Client/Lifecycle.antt =====
-- src/endpoint/client.tpp: the descriptors that `start` and `stop` open and close.
use strongly_typed_sockets.Base.{
  ℕ, ◌+◌, ◌≡◌, ◌⊎◌, refl, ℤ, Bool, true, false, Option, none, some, inl, inr, Option-cases,
  Bool-cases, if◌then◌else◌, arith,
}
use strongly_typed_sockets.Os.{World, Bytes}
use strongly_typed_sockets.Os.Returns.{Returns, returns, Returns-bind, mono}
use strongly_typed_sockets.Os.Ledger.{Books, IsDescriptor, held}
use strongly_typed_sockets.Address.{InAddressPort, from_string_and_port}
use strongly_typed_sockets.States.{Proto, Socket}
use strongly_typed_sockets.States.Ledger.{
  IsOpen, create-Books, bind-Books, bind_datagram-Books, mbind_cmd-Books,
}
use strongly_typed_sockets.Observer.{PollTraits}
use strongly_typed_sockets.Observer.Quiet.{QuietPoll}
use strongly_typed_sockets.Client.{
  ClientState, idle, binded, active, Client, is_idle, register_cbs, unregister_cbs,
}
use strongly_typed_sockets.Client.Control.{
  adopt_socket, start, bind_state, adopt_state, start_at, stop,
}
use strongly_typed_sockets.Client.Invariant.{
  held_state, ValidState, IsValid, destroy_state-Books, replace_state-Books, assign_socket-idle,
}

pub state-cases : (s : ClientState) → ((o : Option Socket) × (s ≡ idle o)) ⊎ (is_idle s ≡ false)
state-cases (idle o) = inl (o, refl)
state-cases (binded s) = inr refl
state-cases (active s) = inr refl

module _ (x : ℤ) {Poll : Type 0} (traits : PollTraits Poll) (q : QuietPoll x traits) where
  -- What `start` holds and loses: on success the new state, beside whatever the client held before.
  abbrev Started : Proto → Client Poll → ℕ → Client Poll × Bool → World → Type 0
  Started p c k r w =
      IsValid p r.0
      × Books x (held_state x r.0.state + ((if r.1 then held_state x c.state else 0) + k)) w

  -- The same for the client that the lambda of `start` gives back.
  abbrev held_started : Client Poll → ℕ → Option (Client Poll) → ℕ
  held_started c k none = held_state x c.state + k
  held_started c k (some c') = held_state x c'.state + (held_state x c.state + k)

  abbrev ValidStarted : Proto → Option (Client Poll) → Type 0
  ValidStarted p none = Unit {0}
  ValidStarted p (some c') = IsValid p c'

  adopt_socket-Books :
      (p : Proto) (c : Client Poll) (o : Option Socket) (s : Socket) (k : ℕ) (w : World)
      → c.state ≡ idle o
      → IsOpen c.af s.m_impl
      → Books x (held x s.m_impl.m_fd + (held_state x c.state + k)) w
      → Returns
          (λ r w'. Books x (held x r.0.m_impl.m_fd + held_started c k r.1) w' × ValidStarted p r.1)
          (adopt_socket traits c s w)
  unfolding adopt_socket register_cbs
  adopt_socket-Books p c o s k w e ready b = Returns-bind (q.add c.poll _ _ _ w b) λ _ w1 b1. rw e (
      Returns-bind (assign_socket-idle x o s k w1 (ground (arith, e), b1.1))
        λ r w2 h. returns ((ground (arith, e, h.1), h.2.1), rw h.0 ready))

  module _ (d : IsDescriptor x) where
    start_idle-Books :
        (p : Proto) (c : Client Poll) (o : Option Socket) (k : ℕ) (w : World)
        → c.state ≡ idle o
        → IsValid p c
        → Books x (held_state x c.state + k) w
        → Returns (Started p c k) (start traits p c w)
    unfolding start
    start_idle-Books p c o k w e v b =
        let is : is_idle c.state ≡ true = rw e refl in
        rw is (
          Returns-bind (create-Books x d p c.af _ w b) λ created w1 h.
            Returns-bind
              (mbind_cmd-Books x (λ (s : Socket). s.m_impl) (held_started c k) (ValidStarted p)
                created (adopt_socket traits c) (held_state x c.state + k) w1 refl tt
                (λ n. (ground (arith, n), h.0.1))
                λ s m. adopt_socket-Books p c o s k w1 e (h.1 s m) (ground (arith, m), h.0.1))
              λ r w2 g. elim (Option-cases r) [
                | inl n ↦ rw n (returns (v, (ground (arith, n), g.0.1)))
                | inr (c', m) ↦ rw m (returns (ground (arith, m), (ground (arith, m), g.0.1)))
              ])

    -- For a descriptor `x`, a well formed client, a poll whose registrations open and close nothing
    -- and balanced books: `start()` is defined, and afterwards the client is well formed. What is
    -- owed for `x` is then what the client's state holds and the `k` of before, and, where
    -- `start()` succeeds, also what its state held before: a socket of an earlier `start()` stays
    -- open with no owner.
    pub start-Books :
        (p : Proto) (c : Client Poll) (k : ℕ) (w : World)
        → IsValid p c
        → Books x (held_state x c.state + k) w
        → Returns (Started p c k) (start traits p c w)
    unfolding start
    start-Books p c k w v b = elim (state-cases c.state) [
      | inl (o, e) ↦ start_idle-Books p c o k w e v b
      | inr busy ↦ rw busy (returns (v, (ground arith, b.1)))
    ]

    abbrev held_bound : ℕ → Option ClientState → ℕ
    held_bound k none = k
    held_bound k (some s) = held_state x s + k

    abbrev ValidBound : Proto → Client Poll → Option ClientState → Type 0
    ValidBound p c none = Unit {0}
    ValidBound p c (some s) = ValidState p c.af c.m_remote s

    -- The descriptor of the socket is in what is left of it, or in the state that was made.
    bind_state-Books :
        (p : Proto) (c : Client Poll) (at : InAddressPort) (s : Socket) (k : ℕ) (w : World)
        → IsOpen c.af s.m_impl
        → Books x (held x s.m_impl.m_fd + k) w
        → Returns
            (λ r w'. Books x (held x r.0.m_impl.m_fd + held_bound k r.1) w' × ValidBound p c r.1)
            (bind_state traits p at s w)
    unfolding bind_state
    bind_state-Books p c at s k w ready b = elim (Bool-cases p.is_connectionless) [
      | inl e ↦ rw e (
          Returns-bind (bind_datagram-Books x s at k w b) λ r w' h. elim (Option-cases r.1) [
            | inl n ↦ rw n (returns ((ground (arith, h.1, n), h.0.1), tt))
            | inr (a, m) ↦
                rw m (returns ((ground (arith, h.1, m), h.0.1), (ground (arith, h.1, m), inl refl)))
          ])
      | inr e ↦ rw e (
          Returns-bind (bind-Books x s at k w b) λ r w' h. elim (Option-cases r.1) [
            | inl n ↦ rw n (returns ((ground (arith, h.1, n), h.0.1), tt))
            | inr (a, m) ↦
                rw m (returns ((ground (arith, h.1, m), h.0.1), (ground (arith, h.1, m), refl)))
          ])
    ]

    adopt_state-Books :
        (p : Proto) (c : Client Poll) (s : ClientState) (k : ℕ) (w : World)
        → ValidState p c.af c.m_remote s
        → Books x (held_state x s + (held_state x c.state + k)) w
        → Returns
            (λ r w'.
              IsValid p r.0 × (r.1 ≡ true) × (r.0.state ≡ s) × Books x (held_state x s + k) w')
            (adopt_state traits c s w)
    unfolding adopt_state register_cbs
    adopt_state-Books p c s k w v b = Returns-bind (q.add c.poll _ _ _ w b) λ _ w1 b1.
        Returns-bind (replace_state-Books x c.state s (held_state x s + k) w1 (ground arith, b1.1))
          λ r w2 h. returns (rw h.0 v, refl, h.0, h.1)

    -- For a descriptor `x`, a well formed client, a poll whose registrations open and close nothing
    -- and balanced books: `start(address, port)` is defined on every path, and afterwards the
    -- client is well formed and what is owed for `x` is what its state holds and the `k` of before.
    -- So the socket of an earlier start is closed.
    pub start_at-Books :
        (p : Proto) (address : Bytes) (port : ℕ) (c : Client Poll) (k : ℕ) (w : World)
        → IsValid p c
        → Books x (held_state x c.state + k) w
        → Returns
            (λ r w'. IsValid p r.0 × Books x (held_state x r.0.state + k) w')
            (start_at traits p address port c w)
    unfolding start_at
    start_at-Books p address port c k w v b = elim (Bool-cases (is_idle c.state)) [
      | inr busy ↦ rw busy (returns (v, b))
      | inl is ↦ rw is (elim (Option-cases (from_string_and_port w.platform address port)) [
        | inl bad ↦ rw bad (returns (v, b))
        | inr (at, good) ↦ rw good (
            Returns-bind (create-Books x d p c.af _ w b) λ created w1 h.
              Returns-bind
                (mbind_cmd-Books x (λ (s : Socket). s.m_impl)
                  (held_bound (held_state x c.state + k)) (ValidBound p c) created
                  (bind_state traits p at) (held_state x c.state + k) w1 refl tt
                  (λ n. (ground (arith, n), h.0.1))
                  λ s m. bind_state-Books p c at s _ w1 (h.1 s m) (ground (arith, m), h.0.1))
                λ r w2 g. elim (Option-cases r) [
                  | inl n ↦ rw n (returns (v, (ground (arith, n), g.0.1)))
                  | inr (s, m) ↦ rw m (
                      mono
                        (adopt_state-Books p c s k w2 (ground (arith, m))
                          (ground (arith, m), g.0.1))
                        λ r w' a. (a.0, rw a.2 a.3))
                ])
      ])
    ]

  -- For a poll whose registrations open and close nothing and balanced books: `stop` is defined,
  -- settles what the client's state holds, and leaves a well formed client that is idle with no
  -- socket.
  pub stop-Books :
      (p : Proto) (c : Client Poll) (k : ℕ) (w : World)
      → Books x (held_state x c.state + k) w
      → Returns (λ c' w'. IsValid p c' × (c'.state ≡ idle none) × Books x k w') (stop traits c w)
  unfolding stop unregister_cbs
  stop-Books p c k w b = Returns-bind (q.del c.poll _ _ w b) λ _ w1 b1.
      Returns-bind (destroy_state-Books x c.state k w1 b1) λ _ w2 b2. returns (tt, refl, b2)
