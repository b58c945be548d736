-- ===== src/App/Datagrams/Receiving.antt =====
-- app/server_main.cpp: the receives of the UDP server, whose datagrams may come from several senders.
use strongly_typed_sockets.Base.{
  ℕ, zero, suc, ◌%◌, ◌<◌, ◌≤◌, ◌^◌, ◌≡◌, refl, sym, ◌∙◌, ℤ, pos, minus_one, Option, none, some,
  List, [], ◌∷◌, ◌++◌, length, arith,
}
use mathlib.Core.List.{append_assoc, append-nil}
use strongly_typed_sockets.Os.{
  Bytes, Buffer, Call, Reply, Trace, World, SockaddrIn, Platform, af_inet, e_again, ok, answer,
  after, perform,
}
use strongly_typed_sockets.Os.Returns.{Returns, returns}
use strongly_typed_sockets.Os.Ledger.{IsMachine}
use strongly_typed_sockets.Address.{InAddressPort}
use strongly_typed_sockets.Impl
use strongly_typed_sockets.Impl.Sockaddr.{addr_in, addr_size}
use strongly_typed_sockets.Impl.RoundTrip.{parsed4, parse_addr-in}
use strongly_typed_sockets.States.{Active}
use strongly_typed_sockets.Accepted.{AcceptedSockRef, ServerState, Location, recv_ref}
use strongly_typed_sockets.Accepted.Exchange.{socket_of, call_if_active_lem}
use strongly_typed_sockets.SendRecv.{accepted_sock_ref}
use strongly_typed_sockets.App.Server.{receive_all, fill}
use strongly_typed_sockets.App.Receiving.{Ended, length-fill, take-fill}

abbrev pub recvfrom_call : ℤ → Buffer → Call
recvfrom_call d buffer = Call.recvfrom d buffer (length buffer) (pos 0) (addr_size addr_in)

-- What the system answers to a receive that delivers `bytes`, which `src` has sent, into a buffer of `n`.
pub record IsDatagram (n : ℕ) (src : SockaddrIn) (bytes : Bytes) (r : Reply) : Type 0 where
  pub count : r.ret ≡ pos (length bytes)
  pub written : r.received ≡ bytes
  pub fits : length bytes ≤ n
  pub sender : r.addr4 ≡ src

-- A system that, from a history on, delivers these datagrams on `d`, and then has none.
module _ (env : Trace → Call → Reply) (d : ℤ) (n : ℕ) where
  abbrev pub Arrive : List (SockaddrIn × Bytes) → Trace → Type 0
  Arrive [] t =
      (buffer : Buffer)
      → length buffer ≡ n
      → ((env t (recvfrom_call d buffer)).ret ≡ minus_one)
        × ((env t (recvfrom_call d buffer)).errno ≡ e_again)
  Arrive ((src, bytes) ∷ rest) t =
      (buffer : Buffer)
      → length buffer ≡ n
      → IsDatagram n src bytes (env t (recvfrom_call d buffer))
        × Arrive rest ((recvfrom_call d buffer, env t (recvfrom_call d buffer)) ∷ t)

abbrev pub all_bytes : List (SockaddrIn × Bytes) → Bytes
all_bytes [] = []
all_bytes ((src, bytes) ∷ rest) = bytes ++ all_bytes rest

-- The remote that is remembered at the end.
abbrev pub last_sender :
    Platform → Option InAddressPort → List (SockaddrIn × Bytes) → Option InAddressPort
last_sender pl known [] = known
last_sender pl known ((src, bytes) ∷ rest) = last_sender pl (some (parsed4 pl src)) rest

-- The socket of the server, to which an object leads.
module _ (state_at : Location → ServerState) (s : Active) (d : ℤ) (has : s.m_impl.m_fd ≡ some d)
    (four : s.m_impl.m_family ≡ af_inet) where
  recv_none :
      (buffer : Buffer) (a : AcceptedSockRef) (w : World)
      → socket_of state_at a ≡ some s
      → (answer w (recvfrom_call d buffer)).ret ≡ minus_one
      → recv_ref state_at buffer (length buffer) a w
        ≡ ok (a, none) (after w (recvfrom_call d buffer))
  unfolding recv_ref Impl.receive_from Impl.recv_from_as perform
  recv_none buffer a w leads failed =
      call_if_active_lem state_at (λ r. r ≡ ok (a, none) (after w (recvfrom_call d buffer))) _ _ a s
        w leads (rw (has, four, failed) refl)

  recv_some :
      (buffer : Buffer) (a : AcceptedSockRef) (n : ℕ) (src : SockaddrIn) (bytes : Bytes) (w : World)
      → socket_of state_at a ≡ some s
      → IsDatagram n src bytes (answer w (recvfrom_call d buffer))
      → length bytes < 2 ^ 64
      → IsMachine w
      → recv_ref state_at buffer (length buffer) a w
        ≡ ok
            (
              record a { m_remote = some (parsed4 w.platform src) },
              some (parsed4 w.platform src, length bytes),
            )
            (after w (recvfrom_call d buffer))
  unfolding recv_ref Impl.receive_from Impl.recv_from_as perform
  recv_some buffer a n src bytes w leads c small m =
      let r = answer w (recvfrom_call d buffer) in
      let w' = after w (recvfrom_call d buffer) in
      let whole : length bytes % 2 ^ 64 ≡ length bytes = omega (arith, small) in
      let parses =
        parse_addr-in r w'
          (record {
            address = m.address w.trace (recvfrom_call d buffer);
            padding = m.padding w.trace (recvfrom_call d buffer);
          })
          m in
      call_if_active_lem state_at
        (λ q.
          q
          ≡ ok
              (
                record a { m_remote = some (parsed4 w.platform src) },
                some (parsed4 w.platform src, length bytes),
              )
              w')
        _ _ a s w leads (rw (has, four, c.count, parses, c.sender, c.count, whole) refl)

  pub receive_all-Arrived :
      (datagrams : List (SockaddrIn × Bytes)) (fuel n : ℕ) (buffer : Buffer) (text : Bytes)
      (a : AcceptedSockRef) (w : World)
      → socket_of state_at a ≡ some s
      → n < 2 ^ 64
      → length buffer ≡ n
      → length datagrams < fuel
      → IsMachine w
      → Arrive w.env d n datagrams w.trace
      → Returns
          (λ r w'.
            (r.0 ≡ record a { m_remote = last_sender w.platform a.m_remote datagrams })
            × Ended n (text ++ all_bytes datagrams) r.1
            × (w'.env ≡ w.env)
            × (w'.platform ≡ w.platform)
            × (w'.errno ≡ e_again))
          (receive_all (accepted_sock_ref state_at) fuel buffer text a w)
  unfolding receive_all
  receive_all-Arrived datagrams zero n buffer text a w leads small len more m sys =
      absurd (omega (arith, more))
  receive_all-Arrived [] (suc fuel) n buffer text a w leads small len more m sys =
      rw (recv_none buffer a w leads (sys buffer len).0)
        (returns (refl, (len, sym (append-nil text)), refl, refl, (sys buffer len).1))
  receive_all-Arrived ((src, bytes) ∷ rest) (suc fuel) n buffer text a w leads small len more m
        sys =
      let c = (sys buffer len).0 in
      rw
        (
          recv_some buffer a n src bytes w leads c (omega (arith, c.fits, small)) m,
          c.written,
          take-fill bytes buffer,
          sym (append_assoc text bytes (all_bytes rest)),
        )
        (receive_all-Arrived rest fuel n (fill bytes buffer) (text ++ bytes)
          (record a { m_remote = some (parsed4 w.platform src) }) (after w (recvfrom_call d buffer))
          leads small (length-fill bytes buffer (omega (arith, c.fits, len)) ∙ len)
          (omega (arith, more)) m (sys buffer len).1)
