-- ===== src/App/Turn/Rounds.antt =====
-- app/server_main.cpp: the loop over active sockets whose peers send their requests in chunks.
use strongly_typed_sockets.Base.{
  ℕ, zero, suc, ◌+◌, ◌<◌, ◌≤◌, ◌^◌, ◌≡◌, refl, ap, ◌∙◌, ℤ, true, false, some, List, [], ◌∷◌, ◌++◌,
  length, drop, inl, inr, Bool-cases, arith,
}
use strongly_typed_sockets.Os.{Bytes, Call, Reply, Trace, World, e_again}
use strongly_typed_sockets.Os.Returns.{Returns, Returns-bind, mono}
use strongly_typed_sockets.Accepted.{AcceptedSock}
use strongly_typed_sockets.SendRecv.{accepted_sock}
use strongly_typed_sockets.Service.{create_response}
use strongly_typed_sockets.App.Sockets.{Place, Element}
use strongly_typed_sockets.App.Server.{
  Main, Passed, again, onward, element_at, is_empty, visit, serve,
}
use strongly_typed_sockets.App.Receiving.{Delivers, joined}
use strongly_typed_sockets.App.Keeping.{Keeps, Keeps-after}
use strongly_typed_sockets.App.Requests.{Adds, Adds-after, count, replies, Peers, Peers-Delivers}
use strongly_typed_sockets.App.Turn.Silence.{set_text-same}
use strongly_typed_sockets.App.Answering.{visit-Answered}
use strongly_typed_sockets.App.Turn.Peers.{visit-Quiet}
use strongly_typed_sockets.App.Turn.Connected.{
  Connected, Connected-same, Fresh, Fresh-after, add_reply, TakesAll,
}

drop-past : (k : ℕ) (l : List Bytes) → length l ≤ k → drop k l ≡ []
drop-past zero [] h = refl
drop-past zero (x ∷ l) h = absurd (omega (arith, h))
drop-past (suc k) [] h = refl
drop-past (suc k) (x ∷ l) h = drop-past k l (omega (arith, h))

is_empty-nil : (s : Bytes) → is_empty s ≡ true → s ≡ []
is_empty-nil [] h = refl
is_empty-nil (c ∷ s) h = absurd (ground (arith, h))

-- A visit that ends in a way goes on with the loop.
module _ {P : Main AcceptedSock → World → Type 0} {Q : Main AcceptedSock × Passed → World → Type 0}
    (rounds fuel slot : ℕ) (e : Element) (m : Main AcceptedSock) (w : World)
    (at : element_at slot m.active_sockets.elements ≡ some e) where
  serve_onward :
      Returns (λ r w'. (r.1 ≡ onward) × P r.0 w') (visit accepted_sock fuel slot e m w)
      → ((m' : Main AcceptedSock) (w' : World)
          → P m' w'
          → Returns Q (serve accepted_sock rounds fuel (suc slot) m' w'))
      → Returns Q (serve accepted_sock (suc rounds) fuel slot m w)
  unfolding serve
  serve_onward visited next =
      rw (serve, at) (Returns-bind visited λ r w' g. rw g.0 (next r.0 w' g.1))

  serve_again :
      Returns (λ r w'. (r.1 ≡ again) × P r.0 w') (visit accepted_sock fuel slot e m w)
      → ((m' : Main AcceptedSock) (w' : World)
          → P m' w'
          → Returns Q (serve accepted_sock rounds fuel slot m' w'))
      → Returns Q (serve accepted_sock (suc rounds) fuel slot m w)
  unfolding serve
  serve_again visited next =
      rw (serve, at) (Returns-bind visited λ r w' g. rw g.0 (next r.0 w' g.1))

module _ (env : Trace → Call → Reply) (chunks : ℤ → List Bytes) (fds : List ℤ) (n fuel : ℕ)
    (small : n < 2 ^ 64) (peers : Peers env n chunks) (more : (d : ℤ) → length (chunks d) < fuel)
    (takes : TakesAll env) where
  abbrev pub request : ℤ → Bytes
  request d = joined (chunks d)

  -- The loop before the visit of a slot, with these descriptors from there on.
  pub record Serves (ds : List ℤ) (m : Main AcceptedSock) (w : World) : Type 0 where
    pub connected : Connected m.active_sockets fds
    pub buffer : length m.tmp_buff ≡ n
    pub protocol : m.is_tcp ≡ true
    pub same_env : w.env ≡ env
    pub fresh : Fresh ds w.trace

  -- What the visits of one element come to.
  pub record Done (d : ℤ) (k : ℕ) (said : List (ℤ × Bytes)) (m : Main AcceptedSock) (w : World)
      (m' : Main AcceptedSock) (w' : World) : Type 0 where
    pub elements : m'.active_sockets.elements ≡ m.active_sockets.elements
    pub kept : Keeps m w m' w'
    pub adds : Adds d k said w.trace w'.trace

  pub Serves-after :
      (d : ℤ) (k : ℕ) (said : List (ℤ × Bytes)) (ds : List ℤ) (m m' : Main AcceptedSock)
      (w w' : World)
      → Done d k said m w m' w'
      → Serves (d ∷ ds) m w
      → Serves ds m' w'
  Serves-after d k said ds m m' w w' done h = record {
    connected = Connected-same fds m m' w w' done.kept done.elements h.connected;
    buffer = done.kept.buffer ∙ h.buffer;
    protocol = done.kept.protocol ∙ h.protocol;
    same_env = done.kept.env ∙ h.same_env;
    fresh = Fresh-after d k said ds w.trace w'.trace done.adds h.fresh.1 h.fresh.2;
  }

  module _ (slot : ℕ) (e : Element) (d : ℤ) (a : AcceptedSock) (p : Place) (m : Main AcceptedSock)
      (w : World) (has : a.m_sock.m_impl.m_fd ≡ some d) (leads : e.socket ≡ some p)
      (lives : m.active_sockets.objects p ≡ some a) (no_text : e.text ≡ [])
      (at : element_at slot m.active_sockets.elements ≡ some e) (len : length m.tmp_buff ≡ n)
      (same_env : w.env ≡ env) where
    delivers :
        (rest : List Bytes)
        → drop (count d w.trace) (chunks d) ≡ rest
        → Delivers w.env d (length m.tmp_buff) e_again rest w.trace
    delivers rest left = rw (same_env, len) (Peers-Delivers env n chunks d rest w.trace peers left)

    visit-nothing :
        (rest : List Bytes)
        → drop (count d w.trace) (chunks d) ≡ rest
        → length rest < fuel
        → joined rest ≡ []
        → Returns
            (λ r w'. (r.1 ≡ onward) × Done d (suc (length rest)) [] m w r.0 w')
            (visit accepted_sock fuel slot e m w)
    visit-nothing rest left enough nothing =
        mono
          (visit-Quiet d a has slot fuel e p rest m w leads no_text at lives (rw len small) enough
            (delivers rest left) nothing)
          λ r w' q. (q.goes_on, record { elements = q.elements; kept = q.kept; adds = q.adds })

    visit-request :
        (resp : Bytes)
        → count d w.trace ≡ 0
        → m.is_tcp ≡ true
        → is_empty (request d) ≡ false
        → create_response (request d) ≡ some resp
        → Returns
            (λ r w'. (r.1 ≡ again) × Done d (suc (length (chunks d))) ((d, resp) ∷ []) m w r.0 w')
            (visit accepted_sock fuel slot e m w)
    visit-request resp none_yet tcp asks answers =
        mono
          (visit-Answered d a has slot fuel e (chunks d) resp m w
            (record { there = at; target = p; pointer = leads; object = lives }) tcp (rw len small)
            (more d) (delivers (chunks d) (rw none_yet refl)) (rw no_text asks) (rw no_text answers)
            (rw same_env λ t. takes t d resp))
          λ r w' q. (
            q.stays,
            record {
              elements =
                  q.emptied ∙ rw no_text at (set_text-same slot m.active_sockets.elements e at);
              kept = q.kept;
              adds = q.adds;
            },
          )

  Done-after :
      (d : ℤ) (j k : ℕ) (said : List (ℤ × Bytes)) (m m1 m2 : Main AcceptedSock) (w w1 w2 : World)
      → Done d j said m w m1 w1
      → Done d k [] m1 w1 m2 w2
      → Done d (k + j) said m w m2 w2
  Done-after d j k said m m1 m2 w w1 w2 f g = record {
    elements = g.elements ∙ f.elements;
    kept = Keeps-after m m1 m2 w w1 w2 f.kept g.kept;
    adds = Adds-after d j k (k + j) said [] w.trace w1.trace w2.trace refl f.adds g.adds;
  }

  module _ (slot : ℕ) (e : Element) (d : ℤ) (a : AcceptedSock) (p : Place) (m : Main AcceptedSock)
      (w : World) (has : a.m_sock.m_impl.m_fd ≡ some d) (leads : e.socket ≡ some p)
      (lives : m.active_sockets.objects p ≡ some a) (no_text : e.text ≡ [])
      (at : element_at slot m.active_sockets.elements ≡ some e) (len : length m.tmp_buff ≡ n)
      (same_env : w.env ≡ env) where
    -- The visit after a reply finds nothing more.
    again_after :
        {Q : Main AcceptedSock × Passed → World → Type 0} (rounds : ℕ) (resp : Bytes)
        (m1 : Main AcceptedSock) (w1 : World)
        → count d w.trace ≡ 0
        → is_empty (request d) ≡ false
        → create_response (request d) ≡ some resp
        → ((left : ℕ) (k : ℕ) (said : List (ℤ × Bytes)) (m' : Main AcceptedSock) (w' : World)
            → rounds ≤ left
            → said ++ replies w.trace ≡ add_reply d (request d) (replies w.trace)
            → Done d k said m w m' w'
            → Returns Q (serve accepted_sock left fuel (suc slot) m' w'))
        → Done d (suc (length (chunks d))) ((d, resp) ∷ []) m w m1 w1
        → Returns Q (serve accepted_sock (suc rounds) fuel slot m1 w1)
    again_after rounds resp m1 w1 none_yet asks answers next done1 =
        let at1 : element_at slot m1.active_sockets.elements ≡ some e =
          ap (element_at slot) done1.elements ∙ at in
        let nothing_left : drop (count d w1.trace) (chunks d) ≡ [] =
          drop-past (count d w1.trace) (chunks d) (omega (arith, done1.adds.received, none_yet)) in
        serve_onward rounds fuel slot e m1 w1 at1
          (visit-nothing slot e d a p m1 w1 has leads (done1.kept.objects p ∙ lives) no_text at1
            (done1.kept.buffer ∙ len) (done1.kept.env ∙ same_env) [] nothing_left
            (omega (arith, more d)) refl)
          λ m2 w2 done2.
            next rounds _ ((d, resp) ∷ []) m2 w2 (omega arith) (rw (asks, answers) refl) (
              Done-after d (suc (length (chunks d))) 1 ((d, resp) ∷ []) m m1 m2 w w1 w2 done1 done2)

    -- The visits of one element: one where its peer has sent nothing, and two where it has sent a request.
    pub serve-element :
        {Q : Main AcceptedSock × Passed → World → Type 0} (rounds : ℕ)
        → count d w.trace ≡ 0
        → m.is_tcp ≡ true
        → ((resp : Bytes) × (create_response (request d) ≡ some resp))
        → ((left : ℕ) (k : ℕ) (said : List (ℤ × Bytes)) (m' : Main AcceptedSock) (w' : World)
            → rounds ≤ left
            → said ++ replies w.trace ≡ add_reply d (request d) (replies w.trace)
            → Done d k said m w m' w'
            → Returns Q (serve accepted_sock left fuel (suc slot) m' w'))
        → Returns Q (serve accepted_sock (suc (suc rounds)) fuel slot m w)
    serve-element rounds none_yet tcp (resp, answers) next =
        elim (Bool-cases (is_empty (request d))) [
          | inl silent ↦
              serve_onward (suc rounds) fuel slot e m w at
                (visit-nothing slot e d a p m w has leads lives no_text at len same_env (chunks d)
                  (rw none_yet refl) (more d) (is_empty-nil (request d) silent))
                λ m' w' done. next (suc rounds) _ [] m' w' (omega arith) (rw silent refl) done
          | inr asks ↦
              serve_again (suc rounds) fuel slot e m w at
                (visit-request slot e d a p m w has leads lives no_text at len same_env resp
                  none_yet tcp asks answers)
                λ m1 w1 done1. again_after rounds resp m1 w1 none_yet asks answers next done1
        ]
