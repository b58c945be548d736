-- ===== src/App/Turn/Connected.antt =====
-- app/server_main.cpp: a vector of connections whose peers send their requests in chunks.
use strongly_typed_sockets.Base.{
  ℕ, ◌≡◌, sym, ap, ◌∙◌, ℤ, ◌==ℤ◌, minus_one, if◌then◌else◌, false, none, some, List, [], ◌∷◌,
}
use strongly_typed_sockets.Os.{Bytes, Call, Reply, Trace, World}
use strongly_typed_sockets.Accepted.{AcceptedSock}
use strongly_typed_sockets.Service.{create_response}
use strongly_typed_sockets.App.Sockets.{Element, ActiveSockets}
use strongly_typed_sockets.App.Sockets.Settled.{place}
use strongly_typed_sockets.App.Server.{Main, element_at, is_empty}
use strongly_typed_sockets.App.Keeping.{Keeps}
use strongly_typed_sockets.App.Requests.{Adds, count, nth}
use strongly_typed_sockets.App.Answering.{send_call}

-- A vector of connections without a text, with the descriptors `fds`.
abbrev pub Connected : ActiveSockets AcceptedSock → List ℤ → Type 0
Connected v fds =
    (n : ℕ) (e : Element)
    → element_at n v.elements ≡ some e
    → (d : ℤ) × (a : AcceptedSock) × (nth n fds ≡ some d)
      × (a.m_sock.m_impl.m_fd ≡ some d)
      × (e.socket ≡ some (place v.block n))
      × (v.objects (place v.block n) ≡ some a)
      × (e.text ≡ [])

abbrev pub AllApart : ℤ → List ℤ → Type 0
AllApart d [] = Unit {0}
AllApart d (x ∷ xs) = ((d ==ℤ x) ≡ false) × AllApart d xs

-- Descriptors that no two elements share, and from which nothing has been received.
abbrev pub Fresh : List ℤ → Trace → Type 0
Fresh [] t = Unit {0}
Fresh (d ∷ ds) t = (count d t ≡ 0) × AllApart d ds × Fresh ds t

abbrev pub add_reply : ℤ → Bytes → List (ℤ × Bytes) → List (ℤ × Bytes)
add_reply d text said =
    if is_empty text
    then said
    else elim (create_response text) [ some resp ↦ (d, resp) ∷ said | none ↦ said ]

-- The replies that follow `said` when the peers at these descriptors have been served: one for each
-- that has sent a request.
abbrev pub served : (request : ℤ → Bytes) → List ℤ → List (ℤ × Bytes) → List (ℤ × Bytes)
served request [] said = said
served request (d ∷ ds) said = served request ds (add_reply d (request d) said)

-- A system that takes every reply.
abbrev pub TakesAll : (Trace → Call → Reply) → Type 0
TakesAll env =
    (t : Trace) (d : ℤ) (text : Bytes) → ((env t (send_call d text)).ret ==ℤ minus_one) ≡ false

pub Fresh-after :
    (d : ℤ) (k : ℕ) (said : List (ℤ × Bytes)) (ds : List ℤ) (t t' : Trace)
    → Adds d k said t t'
    → AllApart d ds
    → Fresh ds t
    → Fresh ds t'
Fresh-after d k said [] t t' adds apart fresh = tt
Fresh-after d k said (x ∷ ds) t t' adds apart fresh =
    (adds.others x apart.0 ∙ fresh.0, fresh.1, Fresh-after d k said ds t t' adds apart.1 fresh.2)

pub Connected-same :
    (fds : List ℤ) (m m' : Main AcceptedSock) (w w' : World)
    → Keeps m w m' w'
    → m'.active_sockets.elements ≡ m.active_sockets.elements
    → Connected m.active_sockets fds
    → Connected m'.active_sockets fds
Connected-same fds m m' w w' kept same h = λ n e at.
    let (d, a, at_fd, has, leads, lives, no_text) = h n e (sym (ap (element_at n) same) ∙ at) in
    (
      d,
      a,
      at_fd,
      has,
      rw kept.block leads,
      rw kept.block (kept.objects (place m.active_sockets.block n) ∙ lives),
      no_text,
    )
