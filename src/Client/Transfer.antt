-- ===== src/Client/Transfer.antt =====
-- src/endpoint/client.tpp: `recv_impl` and `send_impl`, which `recv_i::recv` and `send_i::send` call.
use strongly_typed_sockets.Base.{ℕ, ℤ, Option, none, some, if◌then◌else◌}
use strongly_typed_sockets.Os.{Buffer, Cmd, pure, ◌>>=◌, deref}
use strongly_typed_sockets.Address.{InAddressPort}
use strongly_typed_sockets.States
use strongly_typed_sockets.States.{Proto}
use strongly_typed_sockets.Client.{active, Client}

module _ {Poll : Type 0} where
  -- A connection based client reports `*m_remote`, whoever the peer of the socket is.
  unfoldable pub recv : Proto → Buffer → ℕ → Client Poll → Cmd (Option (InAddressPort × ℕ))
  recv p buffer n c = elim c.state [
    | active sock ↦
        if p.is_connectionless then States.receive_datagram sock buffer n (ℤ.pos 0) else (do
          got ← States.receive sock buffer n (ℤ.pos 0)
          elim got [
            | none ↦ pure none
            | some count ↦ do remote ← deref c.m_remote; pure (some (remote, count))
          ])
    | _ ↦ pure none
  ]

  unfoldable pub send : Proto → Buffer → ℕ → Client Poll → Cmd (Option ℕ)
  send p buffer n c = elim c.state [
    | active sock ↦ elim c.m_remote [
      | none ↦ pure none
      | some remote ↦
          if p.is_connectionless
          then States.send_datagram sock remote buffer n (ℤ.pos 0)
          else States.send sock buffer n (ℤ.pos 0)
    ]
    | _ ↦ pure none
  ]
