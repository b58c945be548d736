-- ===== src/App/Datagrams/Replying.antt =====
-- app/server_main.cpp: the reply of the UDP server, after which the element is erased.
use strongly_typed_sockets.Base.{
  ℕ, suc, ◌≡◌, refl, ℤ, pos, Bool, true, false, ◌||◌, is_none, not, Option, none, some, [], length,
  take, arith, to_size,
}
use strongly_typed_sockets.Os.{
  Bytes, Call, World, SockaddrIn, in4, af_inet, e_again, ok, answer, after, perform, Cmd, pure,
  ◌>>=◌,
}
use strongly_typed_sockets.Os.Returns.{Returns, returns}
use strongly_typed_sockets.Impl
use strongly_typed_sockets.Impl.{unless_npos}
use strongly_typed_sockets.Impl.Sockaddr.{to_sockaddr}
use strongly_typed_sockets.Impl.RoundTrip.{parsed4}
use strongly_typed_sockets.States.{Active}
use strongly_typed_sockets.Accepted.{AcceptedSockRef, ServerState, Location, send_ref, finished_ref}
use strongly_typed_sockets.Accepted.Exchange.{socket_of, call_if_active_lem}
use strongly_typed_sockets.SendRecv.{SendRecv, accepted_sock_ref}
use strongly_typed_sockets.Service.{create_response}
use strongly_typed_sockets.App.Sockets.{Element, ActiveSockets, put, erase}
use strongly_typed_sockets.App.Sockets.Settled.{place, IsSettled, put-IsSettled, same_place_refl}
use strongly_typed_sockets.App.Sockets.Lifetime.{
  at_socket-run, without_last-IsSettled, erase-without_last,
}
use strongly_typed_sockets.App.Server.{Main, Visit, again, element_at, set_text, reply}
use strongly_typed_sockets.App.Hearing.{again_lem}
use strongly_typed_sockets.App.Answering.{newest}
use strongly_typed_sockets.App.Datagrams.Senders.{IsSource, sock_addr4-parsed4}

abbrev pub sendto_call : ℤ → Bytes → SockaddrIn → Call
sendto_call d text src = Call.sendto d text (length text) (pos 0) (in4 src)

-- Whether the reply was sent or not, the element of a connectionless server is erased.
erases_any :
    {Q : Main AcceptedSockRef × Visit → World → Type 0} (iface : SendRecv AcceptedSockRef)
    (slot : ℕ) (sent : Option ℕ) (tcp : Bool) (m : Main AcceptedSockRef)
    (v : ActiveSockets AcceptedSockRef) (w : World)
    → tcp ≡ false
    → Returns Q ((do v' ← erase iface slot v; pure (record m { active_sockets = v' }, again)) w)
    → Returns Q (
        elim (is_none sent || not tcp) as (λ _. Cmd (Main AcceptedSockRef × Visit)) [
          | true ↦ do v' ← erase iface slot v; pure (record m { active_sockets = v' }, again)
          | false ↦ pure (
            record m { active_sockets = record v { elements = set_text slot [] v.elements } },
            again,
          )
        ]
          w)
erases_any iface slot none tcp m v w udp p = p
erases_any iface slot (some n) false m v w udp p = p
erases_any iface slot (some n) true m v w udp p = absurd (ground (arith, udp))

module _ (state_at : Location → ServerState) (s : Active) (d : ℤ) (has : s.m_impl.m_fd ≡ some d)
    (four : s.m_impl.m_family ≡ af_inet) where
  send_lem :
      (text : Bytes) (src : SockaddrIn) (a : AcceptedSockRef) (w : World)
      → socket_of state_at a ≡ some s
      → a.m_remote ≡ some (parsed4 w.platform src)
      → IsSource w.platform src
      → send_ref state_at text (length text) a w
        ≡ ok
            (unless_npos (to_size (answer w (sendto_call d text src)).ret))
            (after w (sendto_call d text src))
  unfolding send_ref Impl.send_to Impl.send_to_as to_sockaddr perform
  send_lem text src a w leads known h =
      call_if_active_lem state_at
        (λ r.
          r
          ≡ ok (unless_npos (to_size (answer w (sendto_call d text src)).ret))
              (after w (sendto_call d text src)))
        _ _ a s w leads (rw (known, has, four, sock_addr4-parsed4 w.platform src h) refl)

  pub finished_lem :
      (a : AcceptedSockRef) (w : World)
      → socket_of state_at a ≡ some s
      → w.errno ≡ e_again
      → finished_ref state_at a w ≡ ok true w
  unfolding finished_ref
  finished_lem a w leads stop =
      call_if_active_lem state_at (λ r. r ≡ ok true w) _ _ a s w leads (again_lem w stop)

  -- After the answer: the element has gone, the others stand, and the reply is the last call.
  pub record Replied (slot : ℕ) (text : Bytes) (src : SockaddrIn) (m : Main AcceptedSockRef)
      (r : Main AcceptedSockRef × Visit) (w : World) : Type 0 where
    pub stays : r.1 ≡ again
    pub gone : r.0.active_sockets.elements ≡ take slot m.active_sockets.elements
    pub settled : IsSettled r.0.active_sockets
    pub sent : newest w.trace ≡ some (sendto_call d text src)

  module _ (slot : ℕ) (e : Element) (text resp : Bytes) (src : SockaddrIn) (a : AcceptedSockRef)
      (leads : socket_of state_at a ≡ some s) where
    -- What holds of the vector and the object while the element is visited.
    pub record Standing (m : Main AcceptedSockRef) (w : World) : Type 0 where
      pub settled : IsSettled m.active_sockets
      pub last : suc slot ≡ length m.active_sockets.elements
      pub there : (f : Element) × (element_at slot m.active_sockets.elements ≡ some f)
      pub pointer : e.socket ≡ some (place m.active_sockets.block slot)
      pub object : m.active_sockets.objects (place m.active_sockets.block slot) ≡ some a
      pub udp : m.is_tcp ≡ false
      pub knows : a.m_remote ≡ some (parsed4 w.platform src)
      pub source : IsSource w.platform src

    pub reply-Replied :
        (m : Main AcceptedSockRef) (w : World)
        → Standing m w
        → create_response text ≡ some resp
        → Returns (Replied slot resp src m) (reply (accepted_sock_ref state_at) slot e text m w)
    unfolding reply
    reply-Replied m w h answers =
        let v = m.active_sockets in
        let p = place v.block slot in
        let v1 : ActiveSockets AcceptedSockRef = record v { objects = put p (some a) v.objects } in
        let settled : IsSettled v1 = put-IsSettled p a v h.settled in
        let erases =
          erase-without_last (accepted_sock_ref state_at) slot h.there.0 a v1
            (after w (sendto_call d resp src)) settled h.last h.there.1
            (rw (same_place_refl p) refl) in
        rw (reply, answers)
          (rw
            (
              at_socket-run e.socket p a _ v w h.pointer h.object,
              send_lem resp src a w leads h.knows h.source,
            )
            (erases_any (accepted_sock_ref state_at) slot _ m.is_tcp m v1
              (after w (sendto_call d resp src)) h.udp
              (rw erases (
                returns (record {
                  stays = refl;
                  gone = refl;
                  settled = without_last-IsSettled slot v1 settled;
                  sent = refl;
                })))))
