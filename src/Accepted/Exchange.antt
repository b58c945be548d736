-- ===== src/Accepted/Exchange.antt =====
-- include/endpoint/accepted_sock_ref.h: the socket that the object leads to, and what `recv` leaves.
use strongly_typed_sockets.Base.{
  ℕ, ◌≡◌, refl, ℤ, Option, none, some, inl, inr, Option-cases, arith, ap,
}
use strongly_typed_sockets.Os.{World, Run, Buffer, Cmd, pure, af_inet}
use strongly_typed_sockets.Os.Returns.{Returns, returns, Returns-bind}
use strongly_typed_sockets.Os.Ledger.{Books}
use strongly_typed_sockets.Address.{InAddressPort}
use strongly_typed_sockets.Impl.Accept.{receive_from-Quiet}
use strongly_typed_sockets.States.{Active}
use strongly_typed_sockets.Accepted.{
  ServerState, idle, binded, listening, active, Location, AcceptedSockRef, call_if_active, recv_ref,
}

-- What the object is after `recv`: as it was where nothing was received, and else with the sender as
-- its remote.
abbrev pub Remembers : AcceptedSockRef → AcceptedSockRef × Option (InAddressPort × ℕ) → Type 0
Remembers a (a', none) = a' ≡ a
Remembers a (a', some (from, count)) = (a'.m_sock ≡ a.m_sock) × (a'.m_remote ≡ some from)

-- The socket that the object leads to, if it leads to one.
abbrev pub socket_of : (Location → ServerState) → AcceptedSockRef → Option Active
socket_of state_at a = elim a.m_sock [
  | none ↦ none
  | some l ↦ elim (state_at l) [ active s ↦ some s | _ ↦ none ]
]

module _ (state_at : Location → ServerState) where
  -- What holds of the lambda's run on the active socket holds of the call.
  pub call_if_active_lem :
      {B : Type 0} (P : Run B → Type 0) (default : B) (lambda : Active → Cmd B)
      (a : AcceptedSockRef) (s : Active) (w : World)
      → socket_of state_at a ≡ some s
      → P (lambda s w)
      → P (call_if_active state_at default lambda a w)
  unfolding call_if_active
  call_if_active_lem {B = B} P default lambda a s w leads p = elim (Option-cases a.m_sock) [
    | inl e ↦ absurd (ground (arith, leads, e))
    | inr (l, e) ↦ rw e (go (state_at l) (ground (arith, leads, e)))
  ]
    where
      go :
          (st : ServerState)
          → elim st [ active t ↦ some t | _ ↦ none ] ≡ some s
          → P (elim st as (λ _. Cmd B) [ active sock ↦ lambda sock | _ ↦ pure default ] w)
      go (idle _) h = absurd (ground (arith, h))
      go (binded _) h = absurd (ground (arith, h))
      go (listening _) h = absurd (ground (arith, h))
      go (active t) h = let same : t ≡ s = ap (λ o. elim o [ some u ↦ u | none ↦ t ]) h in rw same p

  -- For an object that leads to an active socket of the IPv4 family, and balanced books: `recv` is
  -- defined, opens and closes nothing, and leaves the object as it was where nothing was received,
  -- and else with the same socket and the sender as its remote.
  pub recv_ref-Remembers :
      (x : ℤ) (buffer : Buffer) (n : ℕ) (a : AcceptedSockRef) (s : Active) (k : ℕ) (w : World)
      → socket_of state_at a ≡ some s
      → s.m_impl.m_family ≡ af_inet
      → Books x k w
      → Returns (λ r w'. Remembers a r × Books x k w') (recv_ref state_at buffer n a w)
  unfolding recv_ref
  recv_ref-Remembers x buffer n a s k w leads four b =
      call_if_active_lem (Returns _) _ _ a s w leads (
        Returns-bind (receive_from-Quiet x s.m_impl buffer n (ℤ.pos 0) four k w b) λ got w1 b1.
          elim (Option-cases got) [
            | inl e ↦ rw e (returns (refl, b1))
            | inr (r, e) ↦ rw e (returns ((refl, refl), b1))
          ])
