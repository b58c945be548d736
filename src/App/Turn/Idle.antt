-- ===== src/App/Turn/Idle.antt =====
-- app/server_main.cpp: a turn of the loop of the TCP server in which nothing happens.
use strongly_typed_sockets.Base.{
  ℕ, zero, suc, ◌+◌, ◌≤◌, ◌<◌, ◌≡◌, refl, ℤ, none, some, List, [], ◌∷◌, length, inl, inr,
  Option-cases, arith, ◌∙◌,
}
use strongly_typed_sockets.Os.{World, ok}
use strongly_typed_sockets.Os.Returns.{Returns, returns, Returns-bind, mono}
use strongly_typed_sockets.Accepted.{AcceptedSock}
use strongly_typed_sockets.SendRecv.{accepted_sock}
use strongly_typed_sockets.App.Sockets.{Element}
use strongly_typed_sockets.App.Sockets.Settled.{place, IsSettled, element_at-StandsAt}
use strongly_typed_sockets.App.Server.{Main, passed, element_at, serve}
use strongly_typed_sockets.Observer
use strongly_typed_sockets.Observer.{
  PollTraits, dispatch, handle_events, handle_unhandled, add_exception, returned,
}
use strongly_typed_sockets.App.Turn.{TcpServer, sockets, server_turn}
use strongly_typed_sockets.App.Turn.Silence.{Silent, HasNoText, visit-Silent}

element_at-less :
    (n : ℕ) (es : List Element) (e : Element) → element_at n es ≡ some e → n < length es
element_at-less n [] e h = absurd (ground (arith, h))
element_at-less zero (f ∷ es) e h = omega arith
element_at-less (suc n) (f ∷ es) e h = omega (arith, element_at-less n es e h)

module _ (fuel : ℕ) where
  -- The loop over the elements visits each of them once.
  serve-idle :
      (rounds slot : ℕ) (m : Main AcceptedSock) (w : World)
      → slot ≤ length m.active_sockets.elements
      → length m.active_sockets.elements < slot + rounds
      → IsSettled m.active_sockets
      → HasNoText m.active_sockets.elements
      → Silent w.env
      → Returns
          (λ r w'.
            (r.1 ≡ passed)
            × (r.0.active_sockets.elements ≡ m.active_sockets.elements)
            × IsSettled r.0.active_sockets)
          (serve accepted_sock rounds (suc fuel) slot m w)
  unfolding serve
  serve-idle zero slot m w within more h texts silent = absurd (omega (arith, within, more))
  serve-idle (suc rounds) slot m w within more h texts silent =
      elim (Option-cases (element_at slot m.active_sockets.elements)) [
        | inl at_end ↦ rw (serve, at_end) (returns (refl, refl, h))
        | inr (e, at) ↦
            let v = m.active_sockets in
            let stands =
              element_at-StandsAt v.block v.objects slot 0 slot v.elements e (omega arith) h.stand
                at in
            rw (serve, at)
              (Returns-bind
                (visit-Silent slot e (place v.block slot) stands.1.0 stands.0 fuel m w stands.1.1 h
                  at (texts slot e at) silent)
                λ r w1 g. rw g.0 (
                  mono
                    (serve-idle rounds (suc slot) r.0 w1
                      (rw g.1 (element_at-less slot v.elements e at)) (rw g.1 (omega (arith, more)))
                      g.2 (rw g.1 texts) (rw g.3 silent))
                    λ q w2 f. (f.0, f.1 ∙ g.1, f.2)))
      ]

module _ {Poll : Type 0} (traits : PollTraits Poll) (grow : ℕ → ℕ) where
  -- For a vector in which every element leads to an object in its own storage and has no text, a
  -- poll that gives no event, a server with no callback for unhandled events, and a system in which
  -- no receive has a result from then on: a turn of the loop comes to its end, with a bound on the
  -- visits that is above the number of elements and a bound on the receives of at least one. The
  -- server and the elements are as they were, and each element leads to an object in its own
  -- storage.
  pub server_turn-idle :
      (timeout : ℤ) (rounds fuel : ℕ) (a : TcpServer Poll) (w w1 : World)
      → a.server.m_unhandled ≡ none
      → traits.proceed a.server.poll timeout w ≡ ok [] w1
      → length (sockets a).elements < rounds
      → IsSettled (sockets a)
      → HasNoText (sockets a).elements
      → Silent w1.env
      → Returns
          (λ r w'.
            (r.1 ≡ passed)
            × (r.0.server ≡ a.server)
            × ((sockets r.0).elements ≡ (sockets a).elements)
            × IsSettled (sockets r.0))
          (server_turn traits grow timeout rounds (suc fuel) a w)
  unfolding server_turn Observer.proceed
  server_turn-idle timeout rounds fuel a w w1 none_for polls more h texts silent =
      simp (server_turn, Observer.proceed, polls, none_for)
        (Returns-bind
          (serve-idle fuel rounds 0 a.main w1 (omega arith) (omega (arith, more)) h texts silent)
          λ r w' g. returns (g.0, refl, g.1, g.2))
