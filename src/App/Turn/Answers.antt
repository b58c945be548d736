-- ===== src/App/Turn/Answers.antt =====
-- app/server_main.cpp: a turn of the loop of the TCP server that answers the requests of its peers.
use strongly_typed_sockets.Base.{
  ℕ, zero, suc, ◌+◌, ◌*◌, ◌<◌, ◌≤◌, ◌^◌, ◌≡◌, refl, sym, ap, ◌∙◌, ℤ, Bool, true, none, some, List,
  [], ◌∷◌, length, drop, arith,
}
use strongly_typed_sockets.Os.{Bytes, Call, Reply, Trace, World, ok}
use strongly_typed_sockets.Os.Returns.{Returns, returns, Returns-bind, mono}
use strongly_typed_sockets.Accepted.{AcceptedSock}
use strongly_typed_sockets.SendRecv.{accepted_sock}
use strongly_typed_sockets.Service.{create_response}
use strongly_typed_sockets.App.Sockets.{Element}
use strongly_typed_sockets.App.Sockets.Settled.{place}
use strongly_typed_sockets.App.Server.{Main, Passed, passed, element_at, serve}
use strongly_typed_sockets.App.Receiving.{joined}
use strongly_typed_sockets.App.Keeping.{Keeps, Keeps-after}
use strongly_typed_sockets.App.Requests.{replies, nth, nth-drop, drop-suc, Peers}
use strongly_typed_sockets.App.Turn.Events.{element_at-exists}
use strongly_typed_sockets.App.Turn.Connected.{Connected, Fresh, served, TakesAll}
use strongly_typed_sockets.App.Turn.Rounds.{Serves, Serves-after, serve-element}
use strongly_typed_sockets.Observer
use strongly_typed_sockets.Observer.{PollTraits, returned}
use strongly_typed_sockets.App.Turn.{TcpServer, sockets, run_tcp, server_turn}

-- How the loop ends from a slot on.
pub record Served (request : ℤ → Bytes) (ds : List ℤ) (m : Main AcceptedSock) (w : World)
    (r : Main AcceptedSock × Passed) (w' : World) : Type 0 where
  pub ended : r.1 ≡ passed
  pub elements : r.0.active_sockets.elements ≡ m.active_sockets.elements
  pub kept : Keeps m w r.0 w'
  pub replied : replies w'.trace ≡ served request ds (replies w.trace)

element_at-none : (n : ℕ) (es : List Element) → length es ≤ n → element_at n es ≡ none
element_at-none n [] h = refl
element_at-none zero (e ∷ es) h = absurd (omega (arith, h))
element_at-none (suc n) (e ∷ es) h = element_at-none n es (omega (arith, h))

module _ (env : Trace → Call → Reply) (chunks : ℤ → List Bytes) (fds : List ℤ) (n fuel : ℕ)
    (small : n < 2 ^ 64) (peers : Peers env n chunks) (more : (d : ℤ) → length (chunks d) < fuel)
    (takes : TakesAll env)
    (answers : (d : ℤ) → (resp : Bytes) × (create_response (joined (chunks d)) ≡ some resp)) where
  abbrev Before : List ℤ → Main AcceptedSock → World → Type 0
  Before = Serves env chunks fds n fuel small peers more takes

  serve-Served :
      (ds : List ℤ) (slot rounds : ℕ) (m : Main AcceptedSock) (w : World)
      → drop slot fds ≡ ds
      → slot + length ds ≡ length m.active_sockets.elements
      → 2 * length ds < rounds
      → Before ds m w
      → Returns (Served (λ d. joined (chunks d)) ds m w) (serve accepted_sock rounds fuel slot m w)
  unfolding serve
  serve-Served [] slot zero m w left all enough h = absurd (omega (arith, enough))
  serve-Served [] slot (suc rounds) m w left all enough h =
      rw (serve, element_at-none slot m.active_sockets.elements (omega (arith, all)))
        (returns (record {
          ended = refl;
          elements = refl;
          kept = record {
            block = refl;
            objects = λ q. refl;
            buffer = refl;
            protocol = refl;
            env = refl;
          };
          replied = refl;
        }))
  serve-Served (d ∷ ds) slot zero m w left all enough h = absurd (omega (arith, enough))
  serve-Served (d ∷ ds) slot (suc zero) m w left all enough h = absurd (omega (arith, enough))
  serve-Served (d ∷ ds) slot (suc (suc rounds)) m w left all enough h =
      let (e, at) = element_at-exists slot m.active_sockets.elements (omega (arith, all)) in
      let (x, a, at_fd, has, leads, lives, no_text) = h.connected slot e at in
      let has_d = has ∙ sym at_fd ∙ sym (nth-drop slot fds) ∙ ap (nth 0) left in
      serve-element env chunks fds n fuel small peers more takes slot e d a
        (place m.active_sockets.block slot) m w has_d leads lives no_text at h.buffer h.same_env
        rounds h.fresh.0 h.protocol (answers d)
        λ remaining k said m' w' enough' spoken done.
          mono
            (serve-Served ds (suc slot) remaining m' w' (drop-suc slot fds ∙ ap (drop 1) left)
              (omega (arith, all, ap length done.elements)) (omega (arith, enough, enough'))
              (Serves-after env chunks fds n fuel small peers more takes d k said ds m m' w w' done
                h))
            λ r w'' q. record {
              ended = q.ended;
              elements = q.elements ∙ done.elements;
              kept = Keeps-after m m' r.0 w w' w'' done.kept q.kept;
              replied =
                  q.replied ∙ ap (served (λ x. joined (chunks x)) ds) (done.adds.replied ∙ spoken);
            }

  module _ {Poll : Type 0} (traits : PollTraits Poll) (grow : ℕ → ℕ) where
    -- For a system in which the peer at each descriptor sends a text in chunks, one for each
    -- receive on it and no longer than the buffer of fewer than 2 ^ 64 bytes, and then nothing, and
    -- which takes every reply; texts that `create_response` answers; and a turn of the loop of the
    -- TCP server in which `proceed` gives back, after which each element has no text and leads to a
    -- connection in its own storage, no two have the same descriptor, and nothing has been received
    -- from these descriptors: with more fuel than each peer has chunks, and a bound on the visits
    -- that is above twice the number of elements, the turn comes to its end, and the replies that
    -- it sends are the responses to the texts of the peers, one on the descriptor of each peer that
    -- has sent a text that is not empty, in the order of the elements, and no other. The elements,
    -- the objects that they lead to, the length of the buffer and the server are then as `proceed`
    -- left them.
    pub server_turn-Served :
        (timeout : ℤ) (rounds : ℕ) (a a' : TcpServer Poll) (b : Bool) (w w1 : World)
        → Observer.proceed traits
            (run_tcp traits grow)
            a.server.poll
            a.server.handlers
            a.server.m_unhandled
            timeout
            a
            w
          ≡ ok (a', returned b) w1
        → Connected (sockets a') fds
        → length fds ≡ length (sockets a').elements
        → length a'.main.tmp_buff ≡ n
        → a'.main.is_tcp ≡ true
        → w1.env ≡ env
        → Fresh fds w1.trace
        → 2 * length fds < rounds
        → Returns
            (λ r w'.
              (r.0.server ≡ a'.server)
              × Served (λ d. joined (chunks d)) fds a'.main w1 (r.0.main, r.1) w')
            (server_turn traits grow timeout rounds fuel a w)
    unfolding server_turn
    server_turn-Served timeout rounds a a' b w w1 proceeds connected all buffer tcp same_env fresh
          enough =
        simp (server_turn, proceeds)
          (Returns-bind
            (serve-Served fds 0 rounds a'.main w1 refl (omega (arith, all)) enough (record {
              connected = connected;
              buffer = buffer;
              protocol = tcp;
              same_env = same_env;
              fresh = fresh;
            }))
            λ r w' q. returns (refl, q))
