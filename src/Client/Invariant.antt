-- ===== src/Client/Invariant.antt =====
-- src/endpoint/client.tpp: the descriptors of a client, and what holds of its state between two
-- operations.
use strongly_typed_sockets.Base.{
  ℕ, ◌+◌, ◌≡◌, ◌⊎◌, refl, ℤ, true, false, Option, none, some, arith, is_none, is_some,
}
use strongly_typed_sockets.Os.{World}
use strongly_typed_sockets.Os.Returns.{Returns, returns, Returns-bind}
use strongly_typed_sockets.Os.Ledger.{Books, held}
use strongly_typed_sockets.Address.{InAddressPort}
use strongly_typed_sockets.States.{Proto, Socket}
use strongly_typed_sockets.States.Ledger.{IsOpen, destroy_impl-Books}
use strongly_typed_sockets.Client.{
  ClientState, idle, binded, active, Client, destroy_state, assign_socket, replace_state,
}

abbrev pub held_state : ℤ → ClientState → ℕ
held_state x (idle none) = 0
held_state x (idle (some s)) = held x s.m_impl.m_fd
held_state x (binded s) = held x s.m_impl.m_fd
held_state x (active s) = held x s.m_impl.m_fd

-- Every socket has its descriptor and family; a connectionless client is never `binded`; a connection
-- based one that is `active` knows its remote.
abbrev pub ValidState : Proto → ℤ → Option InAddressPort → ClientState → Type 0
ValidState p af remote (idle none) = Unit {0}
ValidState p af remote (idle (some s)) = IsOpen af s.m_impl
ValidState p af remote (binded s) = IsOpen af s.m_impl × (p.is_connectionless ≡ false)
ValidState p af remote (active s) =
    IsOpen af s.m_impl × ((p.is_connectionless ≡ true) ⊎ (is_some remote ≡ true))

abbrev pub IsValid : {Poll : Type 0} → Proto → Client Poll → Type 0
IsValid p c = ValidState p c.af c.m_remote c.state

module _ (x : ℤ) where
  pub destroy_state-Books :
      (s : ClientState) (k : ℕ) (w : World)
      → Books x (held_state x s + k) w
      → Returns (λ _ w'. Books x k w') (destroy_state s w)
  unfolding destroy_state
  destroy_state-Books (idle none) k w b = returns (ground arith, b.1)
  destroy_state-Books (idle (some s)) k w b = destroy_impl-Books x s.m_impl k w b
  destroy_state-Books (binded s) k w b = destroy_impl-Books x s.m_impl k w b
  destroy_state-Books (active s) k w b = destroy_impl-Books x s.m_impl k w b

  pub replace_state-Books :
      (old new : ClientState) (k : ℕ) (w : World)
      → Books x (held_state x old + k) w
      → Returns (λ s w'. (s ≡ new) × Books x k w') (replace_state old new w)
  unfolding replace_state
  replace_state-Books old new k w b =
      Returns-bind (destroy_state-Books old k w b) λ _ w' b'. returns (refl, b')

  -- Assigning a socket to an idle state drops the descriptor that the state held: it stays open,
  -- and no object holds it any more.
  pub assign_socket-idle :
      (o : Option Socket) (s : Socket) (k : ℕ) (w : World)
      → Books x (held x s.m_impl.m_fd + (held_state x (idle o) + k)) w
      → Returns
          (λ r w'.
            (r.0 ≡ idle (some s))
            × (is_none r.1.m_impl.m_fd ≡ true)
            × Books x (held_state x r.0 + (held_state x (idle o) + k)) w')
          (assign_socket (idle o) s w)
  unfolding assign_socket destroy_state
  assign_socket-idle none s k w b = returns (refl, refl, b)
  assign_socket-idle (some old) s k w b = returns (refl, refl, b)
