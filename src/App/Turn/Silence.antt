-- ===== src/App/Turn/Silence.antt =====
-- app/server_main.cpp: a visit of an element for which nothing has come.
use strongly_typed_sockets.Base.{
  ℕ, zero, suc, ◌≡◌, refl, ℤ, minus_one, none, some, List, [], ◌∷◌, length, inl, inr, Bool-cases,
  Option-cases, ap, ◌∙◌, sym, ◌==ℤ◌,
}
use strongly_typed_sockets.Os.{Buffer, Bytes, Call, Reply, Trace, World, ok, after, e_again}
use strongly_typed_sockets.Os.Returns.{Returns, returns, Returns-bind}
use strongly_typed_sockets.Impl
use strongly_typed_sockets.States
use strongly_typed_sockets.Accepted
use strongly_typed_sockets.Accepted.{AcceptedSock}
use strongly_typed_sockets.SendRecv.{accepted_sock}
use strongly_typed_sockets.App.Sockets.{Place, Element, ActiveSockets, at_socket}
use strongly_typed_sockets.App.Sockets.Settled.{put-IsSettled, IsSettled, same_place_refl}
use strongly_typed_sockets.App.Sockets.Lifetime.{at_socket-run}
use strongly_typed_sockets.App.Server.{
  Main, Visit, onward, element_at, set_text, const_method, receive_all, heard, visit,
}
use strongly_typed_sockets.App.Receiving.{recv_call, recv_lem}

-- A system in which no receive has a result.
abbrev pub Silent : (Trace → Call → Reply) → Type 0
Silent env = (t : Trace) (d : ℤ) (buffer : Buffer) → (env t (recv_call d buffer)).ret ≡ minus_one

abbrev pub HasNoText : List Element → Type 0
HasNoText es = (n : ℕ) (e : Element) → element_at n es ≡ some e → e.text ≡ []

recv-Silent :
    (buffer : Buffer) (a : AcceptedSock) (w : World)
    → Silent w.env
    → (w' : World) × (w'.env ≡ w.env) × (Accepted.recv buffer (length buffer) a w ≡ ok none w')
unfolding Accepted.recv Impl.receive
recv-Silent buffer a w silent = elim (Option-cases a.m_sock.m_impl.m_fd) [
  | inl closed ↦ (w, refl, rw closed refl)
  | inr (d, has) ↦ (
    after w (recv_call d buffer),
    refl,
    rw (recv_lem d a buffer w has, silent w.trace d buffer) refl,
  )
]

receive_all-Silent :
    (fuel : ℕ) (buffer : Buffer) (text : Bytes) (a : AcceptedSock) (w w' : World)
    → Accepted.recv buffer (length buffer) a w ≡ ok none w'
    → receive_all accepted_sock (suc fuel) buffer text a w ≡ ok (a, some (buffer, text)) w'
unfolding receive_all
receive_all-Silent fuel buffer text a w w' nothing = rw nothing refl

pub set_text-same :
    (slot : ℕ) (es : List Element) (e : Element)
    → element_at slot es ≡ some e
    → set_text slot e.text es ≡ es
set_text-same slot [] e at = refl
set_text-same zero (f ∷ es) e at =
    let same : e ≡ f = ap (λ o. elim o [ some u ↦ u | none ↦ f ]) (sym at) in
    ap (λ u. record f { text = u.text } ∷ es) same
set_text-same (suc slot) (f ∷ es) e at = ap (λ l. f ∷ l) (set_text-same slot es e at)

with_elements-IsSettled :
    (v : ActiveSockets AcceptedSock) (es : List Element)
    → es ≡ v.elements
    → IsSettled v
    → IsSettled (record v { elements = es })
with_elements-IsSettled v es same h = record { stand = rw same h.stand; room = rw same h.room }

-- A visit goes on to the next element, and the vector and the system are as they were.
abbrev Passes : Main AcceptedSock → World → Main AcceptedSock × Visit → World → Type 0
Passes m w r w' =
    (r.1 ≡ onward)
    × (r.0.active_sockets.elements ≡ m.active_sockets.elements)
    × IsSettled r.0.active_sockets
    × (w'.env ≡ w.env)

module _ (slot : ℕ) (e : Element) (p : Place) (a : AcceptedSock) (leads : e.socket ≡ some p) where
  -- A vector and a system that are as before.
  abbrev Stays : ActiveSockets AcceptedSock → World → ActiveSockets AcceptedSock → World → Type 0
  Stays v w v' w' =
      (v'.elements ≡ v.elements) × IsSettled v' × (w'.env ≡ w.env) × (v'.objects p ≡ some a)

  receives-Silent :
      (fuel : ℕ) (buffer : Buffer) (text : Bytes) (v : ActiveSockets AcceptedSock) (w : World)
      → v.objects p ≡ some a
      → IsSettled v
      → Silent w.env
      → Returns
          (λ r w'. Stays v w r.0 w' × (r.1 ≡ some (buffer, text)))
          (at_socket e.socket (receive_all accepted_sock (suc fuel) buffer text) v w)
  receives-Silent fuel buffer text v w lives h silent =
      let (w', same, nothing) = recv-Silent buffer a w silent in
      rw
        (
          at_socket-run e.socket p a (receive_all accepted_sock (suc fuel) buffer text) v w leads
              lives,
          receive_all-Silent fuel buffer text a w w' nothing,
        )
        (returns ((refl, put-IsSettled p a v h, same, rw (same_place_refl p) refl), refl))

  finishes :
      (v : ActiveSockets AcceptedSock) (w : World)
      → v.objects p ≡ some a
      → IsSettled v
      → Returns
          (λ r w'. Stays v w r.0 w')
          (at_socket e.socket (const_method accepted_sock accepted_sock.finished_recv) v w)
  unfolding States.again_or_would_block
  finishes v w lives h =
      rw
        (at_socket-run e.socket p a (const_method accepted_sock accepted_sock.finished_recv) v w
          leads lives)
        (elim (Bool-cases (w.errno ==ℤ e_again)) [
          | inl again ↦
              rw again (returns (refl, put-IsSettled p a v h, refl, rw (same_place_refl p) refl))
          | inr other ↦
              rw other (returns (refl, put-IsSettled p a v h, refl, rw (same_place_refl p) refl))
        ])

  -- A visit of an element without a text, for which nothing has come.
  pub visit-Silent :
      (fuel : ℕ) (m : Main AcceptedSock) (w : World)
      → m.active_sockets.objects p ≡ some a
      → IsSettled m.active_sockets
      → element_at slot m.active_sockets.elements ≡ some e
      → e.text ≡ []
      → Silent w.env
      → Returns (Passes m w) (visit accepted_sock (suc fuel) slot e m w)
  unfolding visit heard
  visit-Silent fuel m w lives h at no_text silent =
      Returns-bind (receives-Silent fuel m.tmp_buff e.text m.active_sockets w lives h silent)
        λ r w1 g.
          rw (g.1, no_text, heard)
            (Returns-bind (finishes r.0 w1 g.0.3 g.0.1) λ q w2 f.
              let there : element_at slot q.0.elements ≡ some e = rw (f.0, g.0.0) at in
              let kept = set_text-same slot q.0.elements e there in
              let stands = with_elements-IsSettled q.0 _ kept f.1 in
              elim (Bool-cases q.1) [
                | inl finished ↦
                    rw finished (returns (refl, kept ∙ f.0 ∙ g.0.0, stands, f.2 ∙ g.0.2))
                | inr not_finished ↦
                    rw not_finished (returns (refl, kept ∙ f.0 ∙ g.0.0, stands, f.2 ∙ g.0.2))
              ])
