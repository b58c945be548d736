-- ===== src/App/Sockets/Lifetime.antt =====
-- app/base_socket.h: how calls and the erasure of elements treat the objects that the elements lead to.
use strongly_typed_sockets.Base.{
  ℕ, zero, suc, ◌+◌, ◌≡◌, refl, List, [], ◌∷◌, length, take, arith, ap, ◌==◌, some, none, Option,
  length-take, ◌≤◌,
}
use strongly_typed_sockets.Os.{World, Cmd, and_then, pure}
use strongly_typed_sockets.Os.Returns.{and_then_assoc}
use strongly_typed_sockets.SendRecv.{SendRecv}
use strongly_typed_sockets.App.Sockets.{
  Place, Element, ActiveSockets, put, at_socket, reset, move_down, erase_from, erase, assign_over,
  emplace_back, ℤ, false,
}
use strongly_typed_sockets.App.Server.{element_at}
use strongly_typed_sockets.App.Sockets.Settled.{
  place, IsSettled, AllStand, element_at-StandsAt, ==_refl, ==_less,
}

module _ {S : Type 0} where
  -- A call through a pointer runs on the object that it leads to.
  pub at_socket-run :
      {A : Type 0} (o : Option Place) (p : Place) (s : S) (method : S → Cmd (S × A))
      (v : ActiveSockets S) (w : World)
      → o ≡ some p
      → v.objects p ≡ some s
      → at_socket o method v w
        ≡ and_then (method s w) (λ r. pure (record v { objects = put p (some r.0) v.objects }, r.1))
  unfolding at_socket
  at_socket-run o p s method v w leads lives = rw (leads, at_socket, lives) refl

  take-AllStand :
      (block : ℕ) (objects : Place → Option S) (n slot end : ℕ) (es : List Element)
      → slot + n ≡ end
      → AllStand block objects slot es
      → AllStand block (put (place block end) none objects) slot (take n es)
  take-AllStand block objects zero slot end es sum h = tt
  take-AllStand block objects (suc n) slot end [] sum h = tt
  take-AllStand block objects (suc n) slot end (e ∷ es) sum h = (
    (h.0.0, (h.0.1.0, rw (==_refl block, ==_less slot end (omega (arith, sum))) h.0.1.1)),
    take-AllStand block objects n (suc slot) end es (omega (arith, sum)) h.1,
  )

  -- A vector without its last element, of slot `n`, and without the object of that slot.
  abbrev pub without_last : ℕ → ActiveSockets S → ActiveSockets S
  without_last n v = record v {
    objects = put (place v.block n) none v.objects;
    elements = take n v.elements;
  }

  pub without_last-IsSettled :
      (n : ℕ) (v : ActiveSockets S) → IsSettled v → IsSettled (without_last n v)
  without_last-IsSettled n v h = record {
    stand = take-AllStand v.block v.objects n 0 n v.elements (omega arith) h.stand;
    room = omega (arith, length-take n v.elements, h.room);
  }

module _ {S : Type 0} (iface : SendRecv S) where
  erase_from-last :
      (n slot : ℕ) (es : List Element) (e : Element) (p : Place) (s : S) (v : ActiveSockets S)
      (w : World)
      → suc n ≡ length es
      → element_at n es ≡ some e
      → e.socket ≡ some p
      → v.objects p ≡ some s
      → erase_from iface n slot es v w
        ≡ and_then
            (iface.destroy s w)
            (λ _. pure (record v { objects = put p none v.objects }, take n es))
  unfolding erase_from move_down reset
  erase_from-last n slot [] e p s v w len at leads lives = absurd (omega (arith, len))
  erase_from-last zero slot (f ∷ []) e p s v w len at leads lives =
      let same : f ≡ e = ap (λ o. elim o [ some u ↦ u | none ↦ f ]) at in
      rw (same, leads, reset, lives) (and_then_assoc (iface.destroy s w) _ _)
  erase_from-last zero slot (f ∷ g ∷ es) e p s v w len at leads lives = absurd (omega (arith, len))
  erase_from-last (suc n) slot (f ∷ es) e p s v w len at leads lives =
      rw (erase_from-last n (suc slot) es e p s v w (omega (arith, len)) at leads lives)
        (and_then_assoc (iface.destroy s w) _ _)

  -- `erase` of the last element, where its pointer leads to an object.
  pub erase-without_last :
      (n : ℕ) (e : Element) (s : S) (v : ActiveSockets S) (w : World)
      → IsSettled v
      → suc n ≡ length v.elements
      → element_at n v.elements ≡ some e
      → v.objects (place v.block n) ≡ some s
      → erase iface n v w ≡ and_then (iface.destroy s w) (λ _. pure (without_last n v))
  unfolding erase
  erase-without_last n e s v w h len at lives =
      let stands =
        element_at-StandsAt v.block v.objects n 0 n v.elements e (omega arith) h.stand at in
      rw (erase_from-last n 0 v.elements e (place v.block n) s v w len at stands.0 lives)
        (and_then_assoc (iface.destroy s w) _ _)

  -- For a vector in which every element leads to an object in its own storage: `erase` of the last
  -- element destroys the object of that element and does nothing else, and leaves the other
  -- elements, each of which still leads to an object in its own storage.
  pub erase-last :
      (n : ℕ) (e : Element) (s : S) (v : ActiveSockets S) (w : World)
      → IsSettled v
      → suc n ≡ length v.elements
      → element_at n v.elements ≡ some e
      → v.objects (place v.block n) ≡ some s
      → (v' : ActiveSockets S) × (erase iface n v w ≡ and_then (iface.destroy s w) (λ _. pure v'))
        × (v'.elements ≡ take n v.elements)
        × IsSettled v'
  erase-last n e s v w h len at lives = (
    without_last n v,
    erase-without_last n e s v w h len at lives,
    refl,
    without_last-IsSettled n v h,
  )

-- An element of the vector, and the object that its pointer leads to.
pub record LeadsTo {S : Type 0} (v : ActiveSockets S) (slot : ℕ) (e : Element) (s : S)
    : Type 0 where
  pub there : element_at slot v.elements ≡ some e
  pub target : Place
  pub pointer : e.socket ≡ some target
  pub object : v.objects target ≡ some s

module _ {S : Type 0} (iface : SendRecv S) where
  erase-first :
      (e f : Element) (s : S) (v : ActiveSockets S) (w : World)
      → v.elements ≡ e ∷ f ∷ []
      → e.socket ≡ some (place v.block 0)
      → v.objects (place v.block 0) ≡ some s
      → erase iface 0 v w
        ≡ and_then (iface.destroy s w) (λ _. pure (record v {
          elements = f ∷ [];
          objects = put (place v.block 0) none (put (place v.block 0) none v.objects);
        }))
  unfolding erase erase_from move_down assign_over reset
  erase-first e f s v w two leads lives = rw (two, leads, reset, lives) (simp and_then_assoc refl)

  -- For a vector of two elements, each of which leads to an object in its own storage: `erase` of
  -- the first destroys its object and does nothing else, and after a further `emplace_back` the
  -- element that stayed, the second of before, leads to the object of the new connection.
  pub erase-crosses :
      (grow : ℕ → ℕ) (u : S) (fd : ℤ) (e f : Element) (s : S) (v : ActiveSockets S) (w : World)
      → IsSettled v
      → v.elements ≡ e ∷ f ∷ []
      → v.objects (place v.block 0) ≡ some s
      → (v' : ActiveSockets S) × (erase iface 0 v w ≡ and_then (iface.destroy s w) (λ _. pure v'))
        × LeadsTo (emplace_back grow u fd v') 0 f u
  unfolding emplace_back
  erase-crosses grow u fd e f s v w h two lives =
      let two_fit : 2 ≤ v.capacity = rw two at h.room in
      let not_full : (1 == v.capacity) ≡ false = ground (arith, two_fit) in
      let first =
        element_at-StandsAt v.block v.objects 0 0 0 v.elements e (omega arith) h.stand
          (rw two refl) in
      let second =
        element_at-StandsAt v.block v.objects 1 0 1 v.elements f (omega arith) h.stand
          (rw two refl) in
      (
        _,
        erase-first e f s v w two first.0 lives,
        record {
          there = rw not_full refl;
          target = place v.block 1;
          pointer = second.0;
          object = rw (not_full, ==_refl v.block) refl;
        },
      )
