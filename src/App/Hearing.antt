-- ===== src/App/Hearing.antt =====
-- app/server_main.cpp: the receives at the start of the visit of an active socket.
use strongly_typed_sockets.Base.{
  ℕ, suc, ◌<◌, ◌^◌, ◌≡◌, refl, ℤ, true, Option, some, List, [], ◌++◌, length,
}
use strongly_typed_sockets.Os.{Bytes, Buffer, World, ok, e_again}
use strongly_typed_sockets.Os.Returns.{Returns, returns, Returns-bind, Returns-both}
use strongly_typed_sockets.States
use strongly_typed_sockets.Accepted.{AcceptedSock}
use strongly_typed_sockets.SendRecv.{accepted_sock}
use strongly_typed_sockets.App.Sockets.{Place, Element, ActiveSockets, put, at_socket}
use strongly_typed_sockets.App.Sockets.Settled.{same_place_refl}
use strongly_typed_sockets.App.Sockets.Lifetime.{at_socket-run}
use strongly_typed_sockets.App.Server.{Main, set_text, receive_all}
use strongly_typed_sockets.App.Receiving.{Delivers, joined, Ended, receive_all-Ended}
use strongly_typed_sockets.App.Keeping.{Keeps, put-same}
use strongly_typed_sockets.App.Requests.{Adds, receive_all-Adds}

-- The variables once the receives have ended, with this text and buffer.
abbrev pub after_receives :
    ℕ → Place → AcceptedSock → Bytes → Buffer → Main AcceptedSock → Main AcceptedSock
after_receives slot p a text buffer m = record m {
  active_sockets = record m.active_sockets {
    objects = put p (some a) m.active_sockets.objects;
    elements = set_text slot text m.active_sockets.elements;
  };
  tmp_buff = buffer;
}

pub again_lem : (w : World) → w.errno ≡ e_again → States.again_or_would_block w ≡ ok true w
unfolding States.again_or_would_block
again_lem w h = rw h refl

module _ (d : ℤ) (a : AcceptedSock) (holds : a.m_sock.m_impl.m_fd ≡ some d) where
  -- What holds when the receives have ended.
  pub record Heard (p : Place) (text : Bytes) (k : ℕ) (m : Main AcceptedSock) (w : World)
      (r : ActiveSockets AcceptedSock × Option (Buffer × Bytes)) (w' : World) : Type 0 where
    pub elements : r.0.elements ≡ m.active_sockets.elements
    pub lives : r.0.objects p ≡ some a
    pub kept : Keeps m w (record m { active_sockets = r.0 }) w'
    pub ended : Ended (length m.tmp_buff) text r.1
    pub stopped : w'.errno ≡ e_again
    pub adds : Adds d k [] w.trace w'.trace

  pub receives-Heard :
      (fuel : ℕ) (e : Element) (p : Place) (chunks : List Bytes) (m : Main AcceptedSock) (w : World)
      → e.socket ≡ some p
      → m.active_sockets.objects p ≡ some a
      → length m.tmp_buff < 2 ^ 64
      → length chunks < fuel
      → Delivers w.env d (length m.tmp_buff) e_again chunks w.trace
      → Returns
          (Heard p (e.text ++ joined chunks) (suc (length chunks)) m w)
          (at_socket e.socket (receive_all accepted_sock fuel m.tmp_buff e.text) m.active_sockets w)
  receives-Heard fuel e p chunks m w leads lives small more sys =
      rw
        (at_socket-run e.socket p a (receive_all accepted_sock fuel m.tmp_buff e.text)
          m.active_sockets w leads lives)
        (Returns-bind
          (Returns-both
            (receive_all-Ended d (length m.tmp_buff) e_again a chunks fuel m.tmp_buff e.text w holds
              small refl more sys)
            (receive_all-Adds d (length m.tmp_buff) e_again a chunks fuel m.tmp_buff e.text w holds
              small refl more sys))
          λ r w' q. returns (record {
            elements = refl;
            lives = rw (same_place_refl p, q.0.0) refl;
            kept = record {
              block = refl;
              objects = rw q.0.0 (put-same p a m.active_sockets.objects lives);
              buffer = refl;
              protocol = refl;
              env = q.0.2;
            };
            ended = q.0.1;
            stopped = q.0.3;
            adds = q.1;
          }))
