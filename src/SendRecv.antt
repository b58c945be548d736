-- ===== src/SendRecv.antt =====
-- include/endpoint/send_i.h, recv_i.h and send_recv_i.h, and src/endpoint/send_i.cpp and recv_i.cpp:
-- the interfaces behind which the applications use a socket. A method such as `send` only calls its
-- virtual function, so the interface is the record of these, and each class that implements them
-- gives one.
use strongly_typed_sockets.Base.{ℕ, Bool, Option}
use strongly_typed_sockets.Os.{Buffer, Cmd, pure, ◌>>=◌}
use strongly_typed_sockets.Address.{InAddressPort}
use strongly_typed_sockets.States
use strongly_typed_sockets.States.{Proto, destroy_active}
use strongly_typed_sockets.Accepted
use strongly_typed_sockets.Accepted.{
  AcceptedSock, AcceptedSockRef, Location, ServerState, send_ref, recv_ref, finished_ref,
}

pub record SendRecv (S : Type 0) : Type 0 where
  pub send : Buffer → ℕ → S → Cmd (Option ℕ)
  pub recv : Buffer → ℕ → S → Cmd (S × Option (InAddressPort × ℕ))
  pub finished_send : S → Cmd Bool
  pub finished_recv : S → Cmd Bool
  pub destroy : S → Cmd (Unit {0})

-- A `recv` that leaves its object as it is.
abbrev pub unchanged : {S A : Type 0} → (S → Cmd A) → S → Cmd (S × A)
unchanged recv s = do got ← recv s; pure (s, got)

-- `accepted_sock`
abbrev pub accepted_sock : SendRecv AcceptedSock
accepted_sock = record {
  send = Accepted.send;
  recv = λ buffer n. unchanged (Accepted.recv buffer n);
  finished_send = λ a. States.again_or_would_block;
  finished_recv = λ a. States.again_or_would_block;
  destroy = λ a. destroy_active a.m_sock;
}

-- `accepted_sock_ref`
abbrev pub accepted_sock_ref : (Location → ServerState) → SendRecv AcceptedSockRef
accepted_sock_ref state_at = record {
  send = send_ref state_at;
  recv = recv_ref state_at;
  finished_send = finished_ref state_at;
  finished_recv = finished_ref state_at;
  destroy = λ a. pure tt;
}
