-- ===== src/App/Turn/Peers.antt =====
-- app/server_main.cpp: the visits of active sockets whose peers send their requests in chunks.
use strongly_typed_sockets.Base.{
  ℕ, suc, ◌<◌, ◌^◌, ◌≡◌, refl, sym, ap, ◌∙◌, ℤ, Option, none, some, List, [], length, arith,
}
use strongly_typed_sockets.Os.{Bytes, Buffer, World, e_again}
use strongly_typed_sockets.Os.Returns.{Returns, returns, Returns-bind, mono}
use strongly_typed_sockets.Accepted.{AcceptedSock}
use strongly_typed_sockets.SendRecv.{accepted_sock}
use strongly_typed_sockets.App.Sockets.{Place, Element}
use strongly_typed_sockets.App.Sockets.Lifetime.{at_socket-run}
use strongly_typed_sockets.App.Server.{Main, Visit, onward, element_at, set_text, heard, visit}
use strongly_typed_sockets.App.Receiving.{Delivers, joined, Ended}
use strongly_typed_sockets.App.Keeping.{Keeps, Keeps-after, put-same}
use strongly_typed_sockets.App.Requests.{Adds, Adds-after}
use strongly_typed_sockets.App.Hearing.{receives-Heard, again_lem}
use strongly_typed_sockets.App.Turn.Silence.{set_text-same}

-- A visit that goes on to the next element.
pub record Quiet (d : ℤ) (k : ℕ) (m : Main AcceptedSock) (w : World) (r : Main AcceptedSock × Visit)
    (w' : World) : Type 0 where
  pub goes_on : r.1 ≡ onward
  pub elements : r.0.active_sockets.elements ≡ m.active_sockets.elements
  pub kept : Keeps m w r.0 w'
  pub adds : Adds d k [] w.trace w'.trace

module _ (d : ℤ) (a : AcceptedSock) (holds : a.m_sock.m_impl.m_fd ≡ some d) where
  heard-Quiet :
      (slot : ℕ) (e : Element) (p : Place) (n : ℕ) (m : Main AcceptedSock)
      (got : Option (Buffer × Bytes)) (w : World)
      → e.socket ≡ some p
      → e.text ≡ []
      → element_at slot m.active_sockets.elements ≡ some e
      → m.active_sockets.objects p ≡ some a
      → length m.tmp_buff ≡ n
      → Ended n [] got
      → w.errno ≡ e_again
      → Returns (Quiet d 0 m w) (heard accepted_sock slot e got m w)
  unfolding heard
  heard-Quiet slot e p n m none w leads no_text at lives len ended stop = absurd ended
  heard-Quiet slot e p n m (some (buffer, got)) w leads no_text at lives len ended stop =
      rw (ended.1, at_socket-run e.socket p a _ m.active_sockets w leads lives, again_lem w stop)
        (returns (record {
          goes_on = refl;
          elements =
              ap (λ t. set_text slot t m.active_sockets.elements) (ended.1 ∙ sym no_text)
              ∙ set_text-same slot m.active_sockets.elements e at;
          kept = record {
            block = refl;
            objects = put-same p a m.active_sockets.objects lives;
            buffer = ended.0 ∙ sym len;
            protocol = refl;
            env = refl;
          };
          adds = record { received = omega arith; others = λ x apart. refl; replied = refl };
        }))

  -- A visit of an element whose peer sends no more than an empty text.
  pub visit-Quiet :
      (slot fuel : ℕ) (e : Element) (p : Place) (chunks : List Bytes) (m : Main AcceptedSock)
      (w : World)
      → e.socket ≡ some p
      → e.text ≡ []
      → element_at slot m.active_sockets.elements ≡ some e
      → m.active_sockets.objects p ≡ some a
      → length m.tmp_buff < 2 ^ 64
      → length chunks < fuel
      → Delivers w.env d (length m.tmp_buff) e_again chunks w.trace
      → joined chunks ≡ []
      → Returns (Quiet d (suc (length chunks)) m w) (visit accepted_sock fuel slot e m w)
  unfolding visit
  visit-Quiet slot fuel e p chunks m w leads no_text at lives small more sys nothing =
      Returns-bind (receives-Heard d a holds fuel e p chunks m w leads lives small more sys)
        λ r w' q.
          mono
            (heard-Quiet slot e p (length m.tmp_buff) (record m { active_sockets = r.0 }) r.1 w'
              leads no_text (rw q.elements at) q.lives refl (rw (no_text, nothing) at q.ended)
              q.stopped)
            λ r' w'' g. record {
              goes_on = g.goes_on;
              elements = g.elements ∙ q.elements;
              kept = Keeps-after m (record m { active_sockets = r.0 }) r'.0 w w' w'' q.kept g.kept;
              adds =
                  Adds-after d (suc (length chunks)) 0 _ [] [] w.trace w'.trace w''.trace
                    (omega arith) q.adds g.adds;
            }
