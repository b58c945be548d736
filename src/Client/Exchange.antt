-- ===== src/Client/Exchange.antt =====
-- src/endpoint/client.tpp: `recv` and `send` of a client that is well formed.
use strongly_typed_sockets.Base.{
  ℕ, ◌≡◌, ◌⊎◌, refl, ℤ, true, Option, none, some, inl, inr, Option-cases, Bool-cases, arith, ◌∙◌,
}
use strongly_typed_sockets.Os.{Buffer, World, af_inet}
use strongly_typed_sockets.Os.Returns.{Returns, returns, Returns-bind, mono}
use strongly_typed_sockets.Os.Ledger.{Books, Quiet}
use strongly_typed_sockets.Address.{InAddressPort}
use strongly_typed_sockets.Impl.Ledger.{receive-Quiet, send-Quiet}
use strongly_typed_sockets.Impl.Accept.{receive_from-Quiet}
use strongly_typed_sockets.Impl.Behaviour.{send_to-Quiet}
use strongly_typed_sockets.States.{Proto}
use strongly_typed_sockets.Client.{ClientState, idle, binded, active, Client}
use strongly_typed_sockets.Client.Invariant.{ValidState, IsValid}
use strongly_typed_sockets.Client.Transfer.{recv, send}

-- What the caller of `recv` learns: of a connection based client the remote that it was connected to.
abbrev pub Received : Proto → Option InAddressPort → Option (InAddressPort × ℕ) → Type 0
Received p remote none = Unit {0}
Received p remote (some (from, count)) = (p.is_connectionless ≡ true) ⊎ (remote ≡ some from)

module _ (x : ℤ) {Poll : Type 0} where
  recv_state-Books :
      (p : Proto) (s : ClientState) (buffer : Buffer) (n : ℕ) (c : Client Poll) (k : ℕ) (w : World)
      → c.state ≡ s
      → c.af ≡ af_inet
      → ValidState p c.af c.m_remote s
      → Books x k w
      → Returns (λ r w'. Received p c.m_remote r × Books x k w') (recv p buffer n c w)
  unfolding recv
  recv_state-Books p (idle o) buffer n c k w e four v b = rw (e, recv) (returns (tt, b))
  recv_state-Books p (binded s) buffer n c k w e four v b = rw (e, recv) (returns (tt, b))
  recv_state-Books p (active s) buffer n c k w e four v b =
      rw (e, recv)
        (elim (Bool-cases p.is_connectionless) [
          | inl e1 ↦ simp e1 (
              mono (receive_from-Quiet x s.m_impl buffer n (ℤ.pos 0) (v.0.family ∙ four) k w b)
                λ r w' b'. (any_received p c.m_remote r e1, b'))
          | inr e1 ↦ simp e1 (
              Returns-bind (receive-Quiet x s.m_impl buffer n (ℤ.pos 0) k w b) λ got w' b'.
                elim (Option-cases got) [
                  | inl failed ↦ rw failed (returns (tt, b'))
                  | inr (count, got_some) ↦ rw got_some (elim (Option-cases c.m_remote) [
                    | inl lost ↦ absurd (ground (arith, v.1, lost, e1))
                    | inr (remote, known) ↦ rw known (returns (inr refl, b'))
                  ])
                ])
        ])
    where
      any_received :
          (p : Proto) (remote : Option InAddressPort) (r : Option (InAddressPort × ℕ))
          → p.is_connectionless ≡ true
          → Received p remote r
      any_received p remote none h = tt
      any_received p remote (some (from, count)) h = inl h

  -- For a well formed client of the IPv4 family with balanced books: `recv` is defined, opens and
  -- closes nothing, and for a connection based protocol what it gives names the client's remote.
  pub recv-Books :
      (p : Proto) (buffer : Buffer) (n : ℕ) (c : Client Poll) (k : ℕ) (w : World)
      → c.af ≡ af_inet
      → IsValid p c
      → Books x k w
      → Returns (λ r w'. Received p c.m_remote r × Books x k w') (recv p buffer n c w)
  recv-Books p buffer n c k w four v b = recv_state-Books p c.state buffer n c k w refl four v b

  send_state-Books :
      (p : Proto) (s : ClientState) (buffer : Buffer) (n : ℕ) (c : Client Poll)
      → c.state ≡ s
      → Quiet x (send p buffer n c)
  unfolding send
  send_state-Books p (idle o) buffer n c e k w b = rw (e, send) (returns b)
  send_state-Books p (binded s) buffer n c e k w b = rw (e, send) (returns b)
  send_state-Books p (active s) buffer n c e k w b =
      rw (e, send)
        (elim (Option-cases c.m_remote) [
          | inl lost ↦ rw lost (returns b)
          | inr (remote, known) ↦ rw known (elim (Bool-cases p.is_connectionless) [
            | inl e1 ↦ rw e1 (send_to-Quiet x s.m_impl remote buffer n (ℤ.pos 0) k w b)
            | inr e1 ↦ rw e1 (send-Quiet x s.m_impl buffer n (ℤ.pos 0) k w b)
          ])
        ])

  -- With balanced books `send` is defined in every state of a client, and opens and closes nothing.
  pub send-Books :
      (p : Proto) (buffer : Buffer) (n : ℕ) (c : Client Poll) (k : ℕ) (w : World)
      → Books x k w
      → Returns (λ _ w'. Books x k w') (send p buffer n c w)
  send-Books p buffer n c k w b = send_state-Books p c.state buffer n c refl k w b
