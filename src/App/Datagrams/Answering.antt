-- ===== src/App/Datagrams/Answering.antt =====
-- app/server_main.cpp: one visit of the UDP server, from the datagrams to the reply.
use strongly_typed_sockets.Base.{
  ℕ, suc, ◌<◌, ◌^◌, ◌≡◌, refl, sym, ◌∙◌, ap, ℤ, false, Option, none, some, List, ◌∷◌, ◌++◌, length,
  arith,
}
use mathlib.Core.Path.{subst}
use strongly_typed_sockets.Os.{Bytes, Buffer, World, SockaddrIn, af_inet, e_again}
use strongly_typed_sockets.Os.Returns.{Returns, returns, Returns-bind, mono}
use strongly_typed_sockets.Os.Ledger.{IsMachine}
use strongly_typed_sockets.States.{Active}
use strongly_typed_sockets.Accepted.{AcceptedSockRef, ServerState, Location}
use strongly_typed_sockets.Accepted.Exchange.{socket_of}
use strongly_typed_sockets.SendRecv.{accepted_sock_ref}
use strongly_typed_sockets.Service.{create_response}
use strongly_typed_sockets.App.Sockets.{Element, put}
use strongly_typed_sockets.App.Sockets.Settled.{
  element_at-StandsAt, place, IsSettled, put-IsSettled, same_place_refl,
}
use strongly_typed_sockets.App.Sockets.Lifetime.{at_socket-run}
use strongly_typed_sockets.App.Server.{
  Main, element_at, set_text, is_empty, heard, visit, receive_all,
}
use strongly_typed_sockets.App.Receiving.{Ended}
use strongly_typed_sockets.App.Datagrams.Senders.{last_source, last_sender_lem, IsSource}
use strongly_typed_sockets.App.Datagrams.Texts.{
  set_text-IsSettled, length-set_text, take-set_text, element_at-set_text,
}
use strongly_typed_sockets.App.Datagrams.Receiving.{
  Arrive, all_bytes, last_sender, receive_all-Arrived,
}
use strongly_typed_sockets.App.Datagrams.Replying.{Replied, Standing, reply-Replied, finished_lem}

module _ (state_at : Location → ServerState) (s : Active) (d : ℤ) (has : s.m_impl.m_fd ≡ some d)
    (four : s.m_impl.m_family ≡ af_inet) where
  module _ (slot : ℕ) (e : Element) (text resp : Bytes) (src : SockaddrIn) (a : AcceptedSockRef)
      (leads : socket_of state_at a ≡ some s) where
    heard_text-Replied :
        (buffer : Buffer) (m : Main AcceptedSockRef) (w : World)
        → Standing state_at s d has four slot e text resp src a leads m w
        → w.errno ≡ e_again
        → is_empty text ≡ false
        → create_response text ≡ some resp
        → Returns
            (Replied state_at s d has four slot resp src m)
            (heard (accepted_sock_ref state_at) slot e (some (buffer, text)) m w)
    unfolding heard
    heard_text-Replied buffer m w h stop asks answers =
        let v = m.active_sockets in
        let p = place v.block slot in
        let m' : Main AcceptedSockRef = record m {
          active_sockets = record v {
            objects = put p (some a) v.objects;
            elements = set_text slot text v.elements;
          };
          tmp_buff = buffer;
        } in
        let standing : Standing state_at s d has four slot e text resp src a leads m' w = record {
          settled =
              set_text-IsSettled slot text (record v { objects = put p (some a) v.objects })
                (put-IsSettled p a v h.settled);
          last = h.last ∙ sym (length-set_text slot text v.elements);
          there = (
            record h.there.0 { text = text },
            element_at-set_text slot text v.elements h.there.0 h.there.1,
          );
          pointer = h.pointer;
          object = rw (same_place_refl p) refl;
          udp = h.udp;
          knows = h.knows;
          source = h.source;
        } in
        rw
          (
            at_socket-run e.socket p a _ v w h.pointer h.object,
            finished_lem state_at s d has four a w leads stop,
            asks,
          )
          (mono
            (reply-Replied state_at s d has four slot e text resp src a leads m' w standing answers)
            λ r w' q. record {
              stays = q.stays;
              gone = q.gone ∙ take-set_text slot text v.elements;
              settled = q.settled;
              sent = q.sent;
            })

    heard-Replied :
        (n : ℕ) (got : Option (Buffer × Bytes)) (m : Main AcceptedSockRef) (w : World)
        → Standing state_at s d has four slot e text resp src a leads m w
        → Ended n text got
        → w.errno ≡ e_again
        → is_empty text ≡ false
        → create_response text ≡ some resp
        → Returns
            (Replied state_at s d has four slot resp src m)
            (heard (accepted_sock_ref state_at) slot e got m w)
    heard-Replied n none m w h ended stop asks answers = absurd ended
    heard-Replied n (some (buffer, got)) m w h ended stop asks answers =
        subst
          (λ g.
            Returns (Replied state_at s d has four slot resp src m)
              (heard (accepted_sock_ref state_at) slot e (some (buffer, g)) m w))
          (sym ended.1) (heard_text-Replied buffer m w h stop asks answers)

  -- For the last element of a vector of the UDP server in which every element leads to an object in
  -- its own storage, whose object refers to the IPv4 socket of the server with a descriptor, a
  -- buffer of fewer than 2 ^ 64 bytes, memory as the code takes it to be, and a system that
  -- delivers one or more datagrams that fit in the buffer to the receives on that descriptor, and
  -- then fails one with EAGAIN: where the text received before and the bytes of all the datagrams
  -- make a text that is not empty and that `create_response` answers, and the address of the last
  -- sender is one of IPv4 whose port `htons` gives back, a visit with more fuel than there are
  -- datagrams is defined. Its last call is one `sendto` with just that answer to the address of the
  -- last sender, whoever sent the other datagrams. The element is erased, whether the system sends
  -- the answer or not, and the elements before it stay, each leading to an object in its own
  -- storage.
  pub visit-Replied :
      (slot fuel : ℕ) (e : Element) (first : SockaddrIn) (bytes : Bytes)
      (rest : List (SockaddrIn × Bytes)) (resp : Bytes) (a : AcceptedSockRef)
      (m : Main AcceptedSockRef) (w : World)
      → socket_of state_at a ≡ some s
      → IsSettled m.active_sockets
      → suc slot ≡ length m.active_sockets.elements
      → element_at slot m.active_sockets.elements ≡ some e
      → m.active_sockets.objects (place m.active_sockets.block slot) ≡ some a
      → m.is_tcp ≡ false
      → length m.tmp_buff < 2 ^ 64
      → suc (length rest) < fuel
      → IsMachine w
      → Arrive w.env d (length m.tmp_buff) ((first, bytes) ∷ rest) w.trace
      → is_empty (e.text ++ all_bytes ((first, bytes) ∷ rest)) ≡ false
      → create_response (e.text ++ all_bytes ((first, bytes) ∷ rest)) ≡ some resp
      → IsSource w.platform (last_source first rest)
      → Returns
          (Replied state_at s d has four slot resp (last_source first rest) m)
          (visit (accepted_sock_ref state_at) fuel slot e m w)
  unfolding visit
  visit-Replied slot fuel e first bytes rest resp a m w leads settled last at object udp small more
        machine sys asks answers source =
      let v = m.active_sockets in
      let p = place v.block slot in
      let datagrams = (first, bytes) ∷ rest in
      let text = e.text ++ all_bytes datagrams in
      let a' : AcceptedSockRef = record a {
        m_remote = last_sender w.platform a.m_remote datagrams;
      } in
      let pointer =
        (element_at-StandsAt v.block v.objects slot 0 slot v.elements e (omega arith) settled.stand
          at).0 in
      rw
        (at_socket-run e.socket p a
          (receive_all (accepted_sock_ref state_at) fuel m.tmp_buff e.text) v w pointer object)
        (Returns-bind
          (Returns-bind
            {Q = λ r w'.
              (r.0 ≡ record v { objects = put p (some a') v.objects })
              × Ended (length m.tmp_buff) text r.1
              × (w'.platform ≡ w.platform)
              × (w'.errno ≡ e_again)}
            (receive_all-Arrived state_at s d has four datagrams fuel (length m.tmp_buff) m.tmp_buff
              e.text a w leads small refl more machine sys)
            λ r w' q.
              returns
                (ap (λ o. record v { objects = put p (some o) v.objects }) q.0, q.1, q.3, q.4))
          λ r w' q.
            subst
              (λ u. Returns (Replied state_at s d has four slot resp (last_source first rest) m) (
                heard (accepted_sock_ref state_at) slot e r.1 (record m { active_sockets = u }) w'))
              (sym q.0)
              (mono
                (heard-Replied slot e text resp (last_source first rest) a' leads
                  (length m.tmp_buff) r.1
                  (record m { active_sockets = record v { objects = put p (some a') v.objects } })
                  w'
                  (record {
                    settled = put-IsSettled p a' v settled;
                    last = last;
                    there = (e, at);
                    pointer = pointer;
                    object = rw (same_place_refl p) refl;
                    udp = udp;
                    knows = rw q.2 (last_sender_lem w.platform a.m_remote first bytes rest);
                    source = rw q.2 source;
                  })
                  q.1 q.3 asks answers)
                λ r' w'' f. record {
                  stays = f.stays;
                  gone = f.gone;
                  settled = f.settled;
                  sent = f.sent;
                }))
