-- ===== src/App/Datagrams/Handling.antt =====
-- app/server_main.cpp: the vector of the UDP server, through the handlers.
use strongly_typed_sockets.Base.{
  minus_one, ap, ℕ, suc, ◌<◌, ◌≡◌, refl, ℤ, ◌==ℤ◌, ◌==◌, Option, true, false, none, some, List, [],
  ◌∷◌, ◌++◌, length, ◌⊎◌, inl, inr, Bool-cases, arith,
}
use strongly_typed_sockets.Os.{World, ok}
use strongly_typed_sockets.Os.Returns.{Returns, returns, Returns-bind}
use strongly_typed_sockets.Os.Ledger.{Books}
use strongly_typed_sockets.Observer.{PollTraits}
use strongly_typed_sockets.Observer.Quiet.{QuietPoll}
use strongly_typed_sockets.Accepted.{AcceptedSockRef, Location, ServerState}
use strongly_typed_sockets.SendRecv.{accepted_sock_ref}
use strongly_typed_sockets.Server.{Handler, erase, on_readable, state_fd}
use strongly_typed_sockets.App.Sockets.{
  Place, Element, ActiveSockets, put, clear, reserve, end_place, reset, destroy_elements,
  emplace_back,
}
use strongly_typed_sockets.App.Sockets.Settled.{
  same_place_refl, reserve-elements, place, AllStand, IsSettled, ==_refl, emplace_back-IsSettled,
}
use strongly_typed_sockets.App.Sockets.Lifetime.{LeadsTo}
use strongly_typed_sockets.App.Server.{element_at}
use strongly_typed_sockets.App.Datagrams.{UdpServer, new_ref, refs, run_udp, end_all, refer}

==_more : (m n : ℕ) → m < n → (m == n) ≡ false
==_more m n h = ground arith

-- Those behind a slot still stand when its object is gone.
gone-AllStand :
    (block end slot : ℕ) (objects : Place → Option AcceptedSockRef) (es : List Element)
    → end < slot
    → AllStand block objects slot es
    → AllStand block (put (place block end) none objects) slot es
gone-AllStand block end slot objects [] less h = tt
gone-AllStand block end slot objects (e ∷ es) less h = (
  (h.0.0, (h.0.1.0, rw (==_refl block, ==_more end slot less) h.0.1.1)),
  gone-AllStand block end (suc slot) objects es (omega (arith, less)) h.1,
)

module _ (state_at : Location → ServerState) where
  destroy_elements_lem :
      (slot : ℕ) (es : List Element) (v : ActiveSockets AcceptedSockRef) (w : World)
      → AllStand v.block v.objects slot es
      → (v' : ActiveSockets AcceptedSockRef) × (destroy_elements (accepted_sock_ref state_at) es v w
          ≡ ok v' w)
  unfolding destroy_elements reset
  destroy_elements_lem slot [] v w h = (v, refl)
  destroy_elements_lem slot (e ∷ es) v w h =
      let (v', same) =
        destroy_elements_lem (suc slot) es
          (record v { objects = put (place v.block slot) none v.objects }) w
          (gone-AllStand v.block slot (suc slot) v.objects es (omega arith) h.1) in
      (v', rw (h.0.0, reset, h.0.1.1) same)

element_at-end : (es : List Element) (e : Element) → element_at (length es) (es ++ e ∷ []) ≡ some e
element_at-end [] e = refl
element_at-end (f ∷ es) e = element_at-end es e

element_at-end_of :
    (es fs : List Element) (e : Element) → fs ≡ es → element_at (length es) (fs ++ e ∷ []) ≡ some e
element_at-end_of es fs e same = rw same (element_at-end es e)

-- A datagram comes while the vector has room or is empty.
abbrev pub Fits : Handler → ActiveSockets AcceptedSockRef → Type 0
Fits erase v = Unit {0}
Fits on_readable v = (length v.elements < v.capacity) ⊎ (v.elements ≡ [])

-- One more element, that leads to a reference to the server's state with no remote yet.
abbrev pub Refers : ActiveSockets AcceptedSockRef → ActiveSockets AcceptedSockRef → Type 0
Refers old new =
    (e : Element) × (new.elements ≡ old.elements ++ e ∷ [])
    × LeadsTo new (length old.elements) e new_ref

module _ {Poll : Type 0} where
  -- An end removes every element, and an event for another descriptor none.
  abbrev pub Handled : Handler → ℤ → UdpServer Poll → UdpServer Poll → Type 0
  Handled erase fd a r = (refs r).elements ≡ []
  Handled on_readable fd a r =
      (((fd ==ℤ state_fd a.server.state) ≡ true) × Refers (refs a) (refs r))
      ⊎ (((fd ==ℤ state_fd a.server.state) ≡ false) × ((refs r).elements ≡ (refs a).elements))

emplace_back-Refers :
    (grow : ℕ → ℕ) (fd : ℤ) (v : ActiveSockets AcceptedSockRef)
    → Refers v (emplace_back grow new_ref fd v)
unfolding emplace_back
emplace_back-Refers grow fd v =
    let room = reserve grow v in
    let e : Element = record { socket = some (end_place room); fd = fd; text = [] } in
    (
      e,
      ap (λ l. l ++ e ∷ []) (reserve-elements grow v),
      record {
        there = element_at-end_of v.elements room.elements e (reserve-elements grow v);
        target = end_place room;
        pointer = refl;
        object = rw (same_place_refl (end_place room)) refl;
      },
    )

module _ (x : ℤ) {Poll : Type 0} (traits : PollTraits Poll) (q : QuietPoll x traits) (grow : ℕ → ℕ)
    (grows : (n : ℕ) → n < grow n) where
  -- For a descriptor `x` with balanced books, a poll whose registrations open and close nothing, a
  -- growth that makes room, and a vector in which every element leads to an object in its own
  -- storage: each handler of the UDP server with the callbacks of `init` is defined, throws
  -- nothing, keeps this of the vector, the books and the server, provided that a datagram comes
  -- while the vector has room or is empty. An end, of whatever descriptor, removes every element.
  -- An event for reading on the descriptor of the server adds one element behind the others, which
  -- leads to a reference to the state of the server without a remote, and one on another descriptor
  -- changes no element.
  pub run_udp-Handled :
      (handler : Handler) (fd : ℤ) (a : UdpServer Poll) (k : ℕ) (w : World)
      → Fits handler (refs a)
      → IsSettled (refs a)
      → Books x k w
      → Returns
          (λ r w'.
            (r.0.server ≡ a.server)
            × (r.1 ≡ none)
            × IsSettled (refs r.0)
            × Handled handler fd a r.0
            × Books x k w')
          (run_udp traits grow handler fd a w)
  unfolding run_udp end_all refer clear
  run_udp-Handled erase fd a k w fits h b = Returns-bind (q.del a.server.poll fd k w b) λ _ w1 b1.
      let (v, same) =
        destroy_elements_lem (λ l. a.server.state) 0 (refs a).elements (refs a) w1 h.stand in
      rw same (returns (refl, refl, record { stand = tt; room = omega arith }, refl, b1))
  run_udp-Handled on_readable fd a k w fits h b =
      elim (Bool-cases (fd ==ℤ state_fd a.server.state)) [
        | inr other ↦ rw other (returns (refl, refl, h, inr (refl, refl), b))
        | inl mine ↦ rw mine (
            returns (
              refl,
              refl,
              emplace_back-IsSettled grow new_ref minus_one (refs a) h grows fits,
              inl (refl, emplace_back-Refers grow minus_one (refs a)),
              b,
            ))
      ]
