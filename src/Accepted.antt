-- ===== src/Accepted.antt =====
-- include/endpoint/accepted_sock.h and include/endpoint/accepted_sock_ref.h: what a server hands to
-- its user, a socket of its own for a connection based protocol, and a pointer to the server's state
-- for a connectionless one. `send` and `recv` are the virtual `send_impl` and `recv_impl`.
pub mod Exchange
use strongly_typed_sockets.Base.{ℕ, ℤ, Bool, false, Option, none, some}
use strongly_typed_sockets.Os.{Buffer, Cmd, pure, ◌>>=◌}
use strongly_typed_sockets.Address.{InAddressPort}
use strongly_typed_sockets.Impl
use strongly_typed_sockets.States
use strongly_typed_sockets.States.{Active, Socket, Binded, Listening, destroy_active}

-- `sum_of_server_states_t`; a connection based protocol has `binded` and `listening`, and a
-- connectionless one `active`.
pub data ServerState : Type 0 where
  idle : Option Socket → ServerState
  binded : Binded → ServerState
  listening : Listening → ServerState
  active : Active → ServerState

pub record AcceptedSock : Type 0 where
  pub m_sock : Active
  pub m_remote : InAddressPort

unfoldable pub send : Buffer → ℕ → AcceptedSock → Cmd (Option ℕ)
send buffer n a = States.send a.m_sock buffer n (ℤ.pos 0)

unfoldable pub recv : Buffer → ℕ → AcceptedSock → Cmd (Option (InAddressPort × ℕ))
recv buffer n a = do
  got ← States.receive a.m_sock buffer n (ℤ.pos 0)
  elim got [ none ↦ pure none | some count ↦ pure (some (a.m_remote, count)) ]

-- The move constructor: the new object, and the one moved from, which keeps its address.
abbrev pub move_sock : AcceptedSock → AcceptedSock × AcceptedSock
move_sock a =
    let (kept, left) = Impl.move a.m_sock.m_impl in
    (
      record a { m_sock = record a.m_sock { m_impl = kept } },
      record a { m_sock = record a.m_sock { m_impl = left } },
    )

-- `m_sock` is a pointer to the state of the server, `none` for the null pointer of an object moved
-- from; `Location` names the server that it points into.
abbrev pub Location : Type 0
Location = ℕ

pub record AcceptedSockRef : Type 0 where
  pub m_sock : Option Location
  pub m_remote : Option InAddressPort

-- The move constructor nulls the source; the move assignment to another object does not.
abbrev pub move_ref : AcceptedSockRef → AcceptedSockRef × AcceptedSockRef
move_ref other = (other, record other { m_sock = none })

abbrev pub assign_ref : AcceptedSockRef → AcceptedSockRef × AcceptedSockRef
assign_ref other = (other, other)

module _ (state_at : Location → ServerState) where
  -- `call_if_active`: `std::get_if` of a null pointer is null.
  unfoldable pub call_if_active : {B : Type 0} → B → (Active → Cmd B) → AcceptedSockRef → Cmd B
  call_if_active default lambda a = elim a.m_sock [
    | none ↦ pure default
    | some l ↦ elim (state_at l) [ active sock ↦ lambda sock | _ ↦ pure default ]
  ]

  unfoldable pub send_ref : Buffer → ℕ → AcceptedSockRef → Cmd (Option ℕ)
  unfolding call_if_active
  send_ref buffer n a =
      call_if_active none
        (λ sock. elim a.m_remote [
          | some remote ↦ States.send_datagram sock remote buffer n (ℤ.pos 0)
          | none ↦ pure none
        ])
        a

  -- A datagram's sender becomes the remote of later sends.
  unfoldable pub recv_ref :
      Buffer → ℕ → AcceptedSockRef → Cmd (AcceptedSockRef × Option (InAddressPort × ℕ))
  unfolding call_if_active
  recv_ref buffer n a =
      call_if_active (a, none)
        (λ sock. do
          got ← States.receive_datagram sock buffer n (ℤ.pos 0)
          elim got [
            | some (remote, count) ↦
                pure (record a { m_remote = some remote }, some (remote, count))
            | none ↦ pure (a, none)
          ])
        a

  -- `finished_send_impl` and `finished_recv_impl`
  unfoldable pub finished_ref : AcceptedSockRef → Cmd Bool
  unfolding call_if_active
  finished_ref a = call_if_active false (λ _. States.again_or_would_block) a
