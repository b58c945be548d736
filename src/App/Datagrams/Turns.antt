-- ===== src/App/Datagrams/Turns.antt =====
-- app/server_main.cpp: a turn of the loop of the UDP server, from the datagrams to the reply.
use strongly_typed_sockets.Base.{
  ℕ, suc, ◌<◌, ◌^◌, ◌≡◌, refl, sym, ap, ℤ, Bool, false, some, List, [], ◌∷◌, ◌++◌, length,
}
use strongly_typed_sockets.Os.{Bytes, World, SockaddrIn, af_inet, ok}
use strongly_typed_sockets.Os.Returns.{Returns, returns, Returns-bind}
use strongly_typed_sockets.Os.Ledger.{IsMachine}
use strongly_typed_sockets.States.{Active}
use strongly_typed_sockets.Accepted.{AcceptedSockRef, ServerState, Location}
use strongly_typed_sockets.Accepted.Exchange.{socket_of}
use strongly_typed_sockets.SendRecv.{accepted_sock_ref}
use strongly_typed_sockets.Service.{create_response}
use strongly_typed_sockets.Observer
use strongly_typed_sockets.Observer.{PollTraits, returned}
use strongly_typed_sockets.App.Sockets.{Element}
use strongly_typed_sockets.App.Sockets.Settled.{place, IsSettled}
use strongly_typed_sockets.App.Server.{Main, Passed, passed, element_at, is_empty, visit, serve}
use strongly_typed_sockets.App.Answering.{newest}
use strongly_typed_sockets.App.Datagrams.{UdpServer, refs, run_udp, udp_turn}
use strongly_typed_sockets.App.Datagrams.Receiving.{Arrive, all_bytes}
use strongly_typed_sockets.App.Datagrams.Senders.{last_source, IsSource}
use strongly_typed_sockets.App.Datagrams.Replying.{Replied, sendto_call}
use strongly_typed_sockets.App.Datagrams.Answering.{visit-Replied}

-- What a turn comes to: no element is left, and the reply is the last call.
pub record AllReplied (d : ℤ) (text : Bytes) (src : SockaddrIn) (r : Main AcceptedSockRef × Passed)
    (w : World) : Type 0 where
  pub ended : r.1 ≡ passed
  pub none_left : r.0.active_sockets.elements ≡ []
  pub sent : newest w.trace ≡ some (sendto_call d text src)

-- The loop over the one element, which its visit erases.
serve-Replied :
    (state_at : Location → ServerState) (s : Active) (d : ℤ) (has : s.m_impl.m_fd ≡ some d)
    (four : s.m_impl.m_family ≡ af_inet) (rounds fuel : ℕ) (e : Element) (resp : Bytes)
    (src : SockaddrIn) (m : Main AcceptedSockRef) (w : World)
    → element_at 0 m.active_sockets.elements ≡ some e
    → Returns
        (Replied state_at s d has four 0 resp src m)
        (visit (accepted_sock_ref state_at) fuel 0 e m w)
    → Returns
        (AllReplied d resp src)
        (serve (accepted_sock_ref state_at) (suc (suc rounds)) fuel 0 m w)
unfolding serve
serve-Replied state_at s d has four rounds fuel e resp src m w at visited =
    rw (serve, at)
      (Returns-bind visited λ r w' q.
        rw (q.stays, serve, ap (element_at 0) q.gone)
          (returns (record { ended = refl; none_left = q.gone; sent = q.sent })))

module _ {Poll : Type 0} (traits : PollTraits Poll) (grow : ℕ → ℕ) (s : Active) (d : ℤ)
    (has : s.m_impl.m_fd ≡ some d) (four : s.m_impl.m_family ≡ af_inet) where
  -- For a turn of the loop of the UDP server in which `proceed` gives back, after which there is
  -- one element, which leads to an object in its own storage, and that object refers to the IPv4
  -- socket of the server with a descriptor; a buffer of fewer than 2 ^ 64 bytes, memory as the code
  -- takes it to be, and a system that then delivers one or more datagrams that fit in the buffer to
  -- the receives on that descriptor, and fails the next with EAGAIN: where the text of the element
  -- and the bytes of all the datagrams make a text that is not empty and that `create_response`
  -- answers, and the address of the last sender is one of IPv4 whose port `htons` gives back, the
  -- turn comes to its end, with a bound on the visits of at least two and more fuel than there are
  -- datagrams. Its last call is one `sendto` with just that answer to the address of the last
  -- sender, whoever sent the other datagrams. The element is gone, whether the system sends the
  -- answer or not, and the server is as `proceed` left it.
  pub udp_turn-Replied :
      (timeout : ℤ) (rounds fuel : ℕ) (a a' : UdpServer Poll) (b : Bool) (e : Element)
      (ref : AcceptedSockRef) (first : SockaddrIn) (bytes : Bytes)
      (rest : List (SockaddrIn × Bytes)) (resp : Bytes) (w w1 : World)
      → Observer.proceed traits
          (run_udp traits grow)
          a.server.poll
          a.server.handlers
          a.server.m_unhandled
          timeout
          a
          w
        ≡ ok (a', returned b) w1
      → (refs a').elements ≡ e ∷ []
      → IsSettled (refs a')
      → (refs a').objects (place (refs a').block 0) ≡ some ref
      → socket_of (λ l. a'.server.state) ref ≡ some s
      → a'.main.is_tcp ≡ false
      → length a'.main.tmp_buff < 2 ^ 64
      → suc (length rest) < fuel
      → IsMachine w1
      → Arrive w1.env d (length a'.main.tmp_buff) ((first, bytes) ∷ rest) w1.trace
      → is_empty (e.text ++ all_bytes ((first, bytes) ∷ rest)) ≡ false
      → create_response (e.text ++ all_bytes ((first, bytes) ∷ rest)) ≡ some resp
      → IsSource w1.platform (last_source first rest)
      → Returns
          (λ r w'.
            (r.0.server ≡ a'.server)
            × AllReplied d resp (last_source first rest) (r.0.main, r.1) w')
          (udp_turn traits grow timeout (suc (suc rounds)) fuel a w)
  unfolding udp_turn
  udp_turn-Replied timeout rounds fuel a a' b e ref first bytes rest resp w w1 proceeds one settled
        object leads udp small more machine sys asks answers source =
      let at : element_at 0 (refs a').elements ≡ some e = ap (element_at 0) one in
      simp (udp_turn, proceeds)
        (Returns-bind
          (serve-Replied (λ l. a'.server.state) s d has four rounds fuel e resp
            (last_source first rest) a'.main w1 at
            (visit-Replied (λ l. a'.server.state) s d has four 0 fuel e first bytes rest resp ref
              a'.main w1 leads settled (sym (ap length one)) at object udp small more machine sys
              asks answers source))
          λ r w' q. returns (refl, q))
