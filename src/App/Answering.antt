-- ===== src/App/Answering.antt =====
-- app/server_main.cpp: one visit of an active socket of the TCP server, from its request to the reply.
use strongly_typed_sockets.Base.{
  ℕ, zero, suc, ◌<◌, ◌^◌, ◌≡◌, refl, ℤ, ◌==ℤ◌, minus_one, true, false, Option, none, some, List, [],
  ◌∷◌, ◌++◌, length, ap, sym, ◌∙◌, arith,
}
use strongly_typed_sockets.Os.{
  Bytes, Buffer, Call, Reply, Trace, World, ok, answer, after, perform, e_again,
}
use strongly_typed_sockets.Os.Returns.{Returns, returns, Returns-bind, mono}
use strongly_typed_sockets.Impl
use strongly_typed_sockets.Impl.{counted}
use strongly_typed_sockets.Accepted.{AcceptedSock}
use strongly_typed_sockets.Accepted
use strongly_typed_sockets.SendRecv.{accepted_sock}
use strongly_typed_sockets.Service.{create_response}
use strongly_typed_sockets.App.Sockets.{Place, Element}
use strongly_typed_sockets.App.Sockets.Settled.{same_place_refl}
use strongly_typed_sockets.App.Sockets.Lifetime.{LeadsTo, at_socket-run}
use strongly_typed_sockets.App.Server.{Main, Visit, again, set_text, is_empty, reply, heard, visit}
use strongly_typed_sockets.App.Hearing.{after_receives, receives-Heard, again_lem}
use strongly_typed_sockets.App.Receiving.{Delivers, joined, Ended}
use strongly_typed_sockets.App.Keeping.{Keeps, Keeps-after, put-same}
use strongly_typed_sockets.App.Requests.{Adds, Adds-after}

abbrev pub send_call : ℤ → Bytes → Call
send_call d text = Call.send d text (length text) (ℤ.pos 0)

abbrev pub newest : Trace → Option Call
newest [] = none
newest ((c, r) ∷ t) = some c

-- A system that takes a reply on `d`, whatever came before.
abbrev pub Takes : (Trace → Call → Reply) → ℤ → Bytes → Type 0
Takes env d text = (t : Trace) → ((env t (send_call d text)).ret ==ℤ minus_one) ≡ false

set_text-twice :
    (slot : ℕ) (s t : Bytes) (es : List Element)
    → set_text slot t (set_text slot s es) ≡ set_text slot t es
set_text-twice slot s t [] = refl
set_text-twice zero s t (e ∷ es) = refl
set_text-twice (suc slot) s t (e ∷ es) = ap (λ l. e ∷ l) (set_text-twice slot s t es)

send_lem :
    (d : ℤ) (text : Bytes) (a : AcceptedSock) (w : World)
    → a.m_sock.m_impl.m_fd ≡ some d
    → Accepted.send text (length text) a w
      ≡ ok (counted (answer w (send_call d text))) (after w (send_call d text))
unfolding Accepted.send Impl.send perform
send_lem d text a w h = rw h refl

-- After the answer: the element stays, without its text, and the reply is the last call.
pub record Answered (slot : ℕ) (d : ℤ) (resp : Bytes) (k : ℕ) (m : Main AcceptedSock)
    (before : World) (r : Main AcceptedSock × Visit) (w : World) : Type 0 where
  pub stays : r.1 ≡ again
  pub emptied : r.0.active_sockets.elements ≡ set_text slot [] m.active_sockets.elements
  pub kept : Keeps m before r.0 w
  pub adds : Adds d k ((d, resp) ∷ []) before.trace w.trace
  pub sent : newest w.trace ≡ some (send_call d resp)

module _ (d : ℤ) (a : AcceptedSock) (holds : a.m_sock.m_impl.m_fd ≡ some d) where
  reply-Answered :
      (slot : ℕ) (e : Element) (p : Place) (text resp : Bytes) (m : Main AcceptedSock) (w : World)
      → e.socket ≡ some p
      → m.active_sockets.objects p ≡ some a
      → m.is_tcp ≡ true
      → create_response text ≡ some resp
      → Takes w.env d resp
      → Returns (Answered slot d resp 0 m w) (reply accepted_sock slot e text m w)
  unfolding reply
  reply-Answered slot e p text resp m w leads lives tcp answers takes =
      rw (reply, answers)
        (simp
          (
            at_socket-run e.socket p a _ m.active_sockets w leads lives,
            send_lem d resp a w holds,
            takes w.trace,
            tcp,
          )
          (returns (record {
            stays = refl;
            emptied = refl;
            kept = record {
              block = refl;
              objects = put-same p a m.active_sockets.objects lives;
              buffer = refl;
              protocol = sym tcp;
              env = refl;
            };
            adds = record { received = omega arith; others = λ x apart. refl; replied = refl };
            sent = refl;
          })))

  heard-Answered :
      (slot : ℕ) (e : Element) (p : Place) (n : ℕ) (text resp : Bytes) (m : Main AcceptedSock)
      (got : Option (Buffer × Bytes)) (w : World)
      → e.socket ≡ some p
      → m.active_sockets.objects p ≡ some a
      → m.is_tcp ≡ true
      → length m.tmp_buff ≡ n
      → Ended n text got
      → w.errno ≡ e_again
      → is_empty text ≡ false
      → create_response text ≡ some resp
      → Takes w.env d resp
      → Returns (Answered slot d resp 0 m w) (heard accepted_sock slot e got m w)
  unfolding heard
  heard-Answered slot e p n text resp m none w leads lives tcp len ended stop request answers
        takes =
      absurd ended
  heard-Answered slot e p n text resp m (some (buffer, got)) w leads lives tcp len ended stop
        request answers takes =
      let got_request : is_empty got ≡ false = rw ended.1 request in
      rw
        (at_socket-run e.socket p a _ m.active_sockets w leads lives, again_lem w stop, got_request)
        (mono
          (reply-Answered slot e p got resp _ w leads (rw (same_place_refl p) refl) tcp
            (rw ended.1 answers) takes)
          λ r w' q. record {
            stays = q.stays;
            emptied = q.emptied ∙ set_text-twice slot got [] m.active_sockets.elements;
            kept =
                Keeps-after m (after_receives slot p a got buffer m) r.0 w w w'
                  (record {
                    block = refl;
                    objects = put-same p a m.active_sockets.objects lives;
                    buffer = ended.0 ∙ sym len;
                    protocol = refl;
                    env = refl;
                  })
                  q.kept;
            adds = q.adds;
            sent = q.sent;
          })

  -- For an active socket of the TCP server whose pointer leads to an object with a descriptor, a
  -- buffer of fewer than 2 ^ 64 bytes, and a system that delivers chunks that fit in the buffer to
  -- the receives on that descriptor, then fails one with EAGAIN, and takes the reply whatever came
  -- before: where the text received before and the chunks make a text that is not empty and that
  -- `create_response` answers, a visit with more fuel than there are chunks is defined, its last
  -- call sends just that answer on the descriptor, and the element stays at its slot with its
  -- object and without its text.
  pub visit-Answered :
      (slot fuel : ℕ) (e : Element) (chunks : List Bytes) (resp : Bytes) (m : Main AcceptedSock)
      (w : World) (h : LeadsTo m.active_sockets slot e a)
      → m.is_tcp ≡ true
      → length m.tmp_buff < 2 ^ 64
      → length chunks < fuel
      → Delivers w.env d (length m.tmp_buff) e_again chunks w.trace
      → is_empty (e.text ++ joined chunks) ≡ false
      → create_response (e.text ++ joined chunks) ≡ some resp
      → Takes w.env d resp
      → Returns
          (Answered slot d resp (suc (length chunks)) m w)
          (visit accepted_sock fuel slot e m w)
  unfolding visit
  visit-Answered slot fuel e chunks resp m w h tcp small more sys request answers takes =
      Returns-bind
        (receives-Heard d a holds fuel e h.target chunks m w h.pointer h.object small more sys)
        λ r w' q.
          mono
            (heard-Answered slot e h.target (length m.tmp_buff) (e.text ++ joined chunks) resp
              (record m { active_sockets = r.0 }) r.1 w' h.pointer q.lives tcp refl q.ended
              q.stopped request answers (rw q.kept.env takes))
            λ r' w'' p. record {
              stays = p.stays;
              emptied = p.emptied ∙ ap (set_text slot []) q.elements;
              kept = Keeps-after m (record m { active_sockets = r.0 }) r'.0 w w' w'' q.kept p.kept;
              adds =
                  Adds-after d (suc (length chunks)) 0 _ [] ((d, resp) ∷ []) w.trace w'.trace
                    w''.trace (omega arith) q.adds p.adds;
              sent = p.sent;
            }
