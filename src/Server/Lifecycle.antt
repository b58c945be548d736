-- ===== src/Server/Lifecycle.antt =====
-- src/endpoint/server.tpp: the descriptors that the two `start`s open and close.
use strongly_typed_sockets.Base.{
  ℕ, ◌+◌, ◌≡◌, ℤ, Bool, true, false, Option, none, some, inl, inr, Option-cases, Bool-cases, arith,
}
use strongly_typed_sockets.Os.{World, Bytes, Callback}
use strongly_typed_sockets.Os.Returns.{Returns, returns, Returns-bind, mono}
use strongly_typed_sockets.Os.Ledger.{Books, IsDescriptor, held}
use strongly_typed_sockets.Address.{InAddressPort, from_string_and_port}
use strongly_typed_sockets.Impl.{SocketImpl}
use strongly_typed_sockets.States.{Proto, Socket, Binded, Listening, Active, destroy_socket}
use strongly_typed_sockets.States
use strongly_typed_sockets.States.Ledger.{
  IsOpen, Moves, held_impl, held-Moves, active_impl, listening_impl, binded_impl,
  destroy_impl-Books, create-Books, bind-Books, bind_datagram-Books, listen-Books, mbind_cmd-Books,
}
use strongly_typed_sockets.Observer.{PollTraits}
use strongly_typed_sockets.Observer.Quiet.{QuietPoll}
use strongly_typed_sockets.Accepted.{ServerState, idle, binded, listening, active}
use strongly_typed_sockets.Server.{Server, destroy_state, is_idle, register_cbs}
use strongly_typed_sockets.Server.Control.{bind_listen, adopt_state, start, start_datagram}

abbrev pub held_state : ℤ → ServerState → ℕ
held_state x (idle none) = 0
held_state x (idle (some s)) = held x s.m_impl.m_fd
held_state x (binded s) = held x s.m_impl.m_fd
held_state x (listening s) = held x s.m_impl.m_fd
held_state x (active s) = held x s.m_impl.m_fd

-- Every socket has its descriptor and family; a connection based server is never `active`, and a
-- connectionless one never `listening`.
abbrev pub ValidState : Proto → ℤ → ServerState → Type 0
ValidState p af (idle none) = Unit {0}
ValidState p af (idle (some s)) = IsOpen af s.m_impl
ValidState p af (binded s) = IsOpen af s.m_impl
ValidState p af (listening s) = IsOpen af s.m_impl × (p.is_connectionless ≡ false)
ValidState p af (active s) = IsOpen af s.m_impl × (p.is_connectionless ≡ true)

abbrev pub IsValid : {Poll : Type 0} → Proto → Server Poll → Type 0
IsValid p c = ValidState p c.af c.state

module _ (x : ℤ) where
  pub destroy_state-Books :
      (s : ServerState) (k : ℕ) (w : World)
      → Books x (held_state x s + k) w
      → Returns (λ _ w'. Books x k w') (destroy_state s w)
  unfolding destroy_state
  destroy_state-Books (idle none) k w b = returns (ground arith, b.1)
  destroy_state-Books (idle (some s)) k w b = destroy_impl-Books x s.m_impl k w b
  destroy_state-Books (binded s) k w b = destroy_impl-Books x s.m_impl k w b
  destroy_state-Books (listening s) k w b = destroy_impl-Books x s.m_impl k w b
  destroy_state-Books (active s) k w b = destroy_impl-Books x s.m_impl k w b

  -- The bound socket listens, or is destroyed with its descriptor.
  listen_step-Books :
      (af : ℤ) (b : Binded) (n k : ℕ) (w : World)
      → IsOpen af b.m_impl
      → Books x (held x b.m_impl.m_fd + k) w
      → Returns
          (λ r w'.
            Books x (held x r.0.m_impl.m_fd + (held_impl x (listening_impl r.1) + k)) w'
            × ((l : Listening) → r.1 ≡ some l → IsOpen af l.m_impl))
          (States.listen b n w)
  listen_step-Books af b n k w ready books = mono (listen-Books x b n k w books) λ r w' h. (
    (ground (arith, held-Moves x b.m_impl r.0.m_impl (listening_impl r.1) h.1), h.0.1),
    λ l e. from_moves r.0.m_impl r.1 l e h.1,
  )
    where
      from_moves :
          (left : SocketImpl) (o : Option Listening) (l : Listening)
          → o ≡ some l
          → Moves b.m_impl left (listening_impl o)
          → IsOpen af l.m_impl
      from_moves left o l e m = ground (arith, ready, e)

module _ (x : ℤ) {Poll : Type 0} (traits : PollTraits Poll) (q : QuietPoll x traits) where
  adopt_state-Books :
      (p : Proto) (f g : Option Callback) (ignores : Bool) (s : ServerState) (c : Server Poll)
      (k : ℕ) (w : World)
      → ValidState p c.af s
      → Books x (held_state x s + (held_state x c.state + k)) w
      → Returns
          (λ r w'. IsValid p r.0 × Books x (held_state x r.0.state + k) w')
          (adopt_state traits f g ignores s c w)
  unfolding adopt_state register_cbs
  adopt_state-Books p f g ignores s c k w v b = Returns-bind (q.add c.poll _ _ _ w b) λ _ w1 b1.
      Returns-bind (destroy_state-Books x c.state (held_state x s + k) w1 (ground arith, b1.1))
        λ _ w2 b2. returns (v, b2)

  -- What the listening or the datagram socket that `start` makes holds, and what is known of it.
  abbrev held_listening : ℕ → Option Listening → ℕ
  held_listening k o = held_impl x (listening_impl o) + k

  abbrev held_active : ℕ → Option Active → ℕ
  held_active k o = held_impl x (active_impl o) + k

  abbrev ValidListening : ℤ → Option Listening → Type 0
  ValidListening af o = (l : Listening) → o ≡ some l → IsOpen af l.m_impl

  abbrev ValidActive : ℤ → Option Active → Type 0
  ValidActive af o = (a : Active) → o ≡ some a → IsOpen af a.m_impl

  bind_listen-Books :
      (af : ℤ) (n : ℕ) (at : InAddressPort) (s : Socket) (k : ℕ) (w : World)
      → IsOpen af s.m_impl
      → Books x (held x s.m_impl.m_fd + k) w
      → Returns
          (λ r w'.
            Books x (held x r.0.m_impl.m_fd + held_listening k r.1) w' × ValidListening af r.1)
          (bind_listen n at s w)
  unfolding bind_listen
  bind_listen-Books af n at s k w ready b = Returns-bind (bind-Books x s at k w b) λ r w1 h.
      let left = held x r.0.m_impl.m_fd + k in
      Returns-bind
        (mbind_cmd-Books x (λ (b : Binded). b.m_impl) (held_listening left) (ValidListening af) r.1
          (λ b. States.listen b n) left w1 (omega arith) (λ l e. cc)
          (λ none_bound. (ground (arith, h.1, none_bound), h.0.1))
          λ t m.
            listen_step-Books x af t n left w1 (from_bind r.0.m_impl r.1 t m h.1)
              (ground (arith, h.1, m), h.0.1))
        λ made w2 g. returns ((ground (arith, g.0), g.0.1), g.1)
    where
      from_bind :
          (left : SocketImpl) (o : Option Binded) (t : Binded)
          → o ≡ some t
          → Moves s.m_impl left (binded_impl o)
          → IsOpen af t.m_impl
      from_bind left o t e m = ground (arith, ready, e)

  bind_active-Books :
      (af : ℤ) (at : InAddressPort) (s : Socket) (k : ℕ) (w : World)
      → IsOpen af s.m_impl
      → Books x (held x s.m_impl.m_fd + k) w
      → Returns
          (λ r w'. Books x (held x r.0.m_impl.m_fd + held_active k r.1) w' × ValidActive af r.1)
          (States.bind_datagram s at w)
  bind_active-Books af at s k w ready b = mono (bind_datagram-Books x s at k w b) λ r w' h. (
    (ground (arith, held-Moves x s.m_impl r.0.m_impl (active_impl r.1) h.1), h.0.1),
    λ a e. from_moves r.0.m_impl r.1 a e h.1,
  )
    where
      from_moves :
          (left : SocketImpl) (o : Option Active) (a : Active)
          → o ≡ some a
          → Moves s.m_impl left (active_impl o)
          → IsOpen af a.m_impl
      from_moves left o a e m = ground (arith, ready, e)

  module _ (d : IsDescriptor x) where
    -- For a descriptor `x`, a connection based protocol, a well formed server, a poll whose
    -- registrations open and close nothing and balanced books: `start` is defined on every path,
    -- and afterwards the server is well formed and what is owed for `x` is what the server's state
    -- holds and the `k` of before. So a socket that cannot be bound or cannot listen is closed.
    pub start-Books_server :
        (p : Proto) (address : Bytes) (port max_conns : ℕ) (f g : Option Callback) (c : Server Poll)
        (k : ℕ) (w : World)
        → p.is_connectionless ≡ false
        → IsValid p c
        → Books x (held_state x c.state + k) w
        → Returns
            (λ r w'. IsValid p r.0 × Books x (held_state x r.0.state + k) w')
            (start traits p address port max_conns f g c w)
    unfolding start
    start-Books_server p address port n f g c k w stream v b = elim (Bool-cases (is_idle c.state)) [
      | inr busy ↦ rw busy (returns (v, b))
      | inl is ↦ rw is (elim (Option-cases (from_string_and_port w.platform address port)) [
        | inl bad ↦ rw bad (returns (v, b))
        | inr (at, good) ↦ rw good (
            let own = held_state x c.state + k in
            Returns-bind (create-Books x d p c.af own w b) λ created w1 h.
              Returns-bind
                (mbind_cmd-Books x (λ (s : Socket). s.m_impl) (held_listening own)
                  (ValidListening c.af) created (bind_listen n at) own w1 (omega arith) (λ l e. cc)
                  (λ n. (ground (arith, n), h.0.1))
                  λ s m. bind_listen-Books c.af n at s own w1 (h.1 s m) (ground (arith, m), h.0.1))
                λ r w2 g'. elim (Option-cases r) [
                  | inl n ↦ rw n (returns (v, (ground (arith, n), g'.0.1)))
                  | inr (l, m) ↦ rw m (
                      adopt_state-Books p f g false (listening l) c k w2 (g'.1 l m, stream)
                        (ground (arith, m), g'.0.1))
                ])
      ])
    ]

    -- For a descriptor `x`, a connectionless protocol, a well formed server, a poll whose
    -- registrations open and close nothing and balanced books: `start` is defined on every path,
    -- and afterwards the server is well formed and what is owed for `x` is what its state holds and
    -- the `k` of before.
    pub start_datagram-Books :
        (p : Proto) (address : Bytes) (port : ℕ) (f g : Option Callback) (c : Server Poll) (k : ℕ)
        (w : World)
        → p.is_connectionless ≡ true
        → IsValid p c
        → Books x (held_state x c.state + k) w
        → Returns
            (λ r w'. IsValid p r.0 × Books x (held_state x r.0.state + k) w')
            (start_datagram traits p address port f g c w)
    unfolding start_datagram
    start_datagram-Books p address port f g c k w datagram v b =
        elim (Bool-cases (is_idle c.state)) [
          | inr busy ↦ rw busy (returns (v, b))
          | inl is ↦ rw is (elim (Option-cases (from_string_and_port w.platform address port)) [
            | inl bad ↦ rw bad (returns (v, b))
            | inr (at, good) ↦ rw good (
                let own = held_state x c.state + k in
                Returns-bind (create-Books x d p c.af own w b) λ created w1 h.
                  Returns-bind
                    (mbind_cmd-Books x (λ (s : Socket). s.m_impl) (held_active own)
                      (ValidActive c.af) created (λ s. States.bind_datagram s at) own w1
                      (omega arith) (λ a e. cc) (λ n. (ground (arith, n), h.0.1))
                      λ s m.
                        bind_active-Books c.af at s own w1 (h.1 s m) (ground (arith, m), h.0.1))
                    λ r w2 g'. elim (Option-cases r) [
                      | inl n ↦ rw n (returns (v, (ground (arith, n), g'.0.1)))
                      | inr (a, m) ↦ rw m (
                          adopt_state-Books p f g true (active a) c k w2 (g'.1 a m, datagram)
                            (ground (arith, m), g'.0.1))
                    ])
          ])
        ]
