-- ===== src/App/Sockets/Settled.antt =====
-- app/base_socket.h: the elements whose pointer is to an object in their own storage, and what
-- happens to the others when the vector grows.
use strongly_typed_sockets.Base.{
  ℕ, zero, suc, ◌+◌, ◌≤◌, ◌<◌, ◌==◌, ◌≡◌, refl, ◌⊎◌, inl, inr, ℤ, true, false, Bool-cases, List, [],
  ◌∷◌, ◌++◌, length, arith, ap, some, none, Option, sym, length-append,
}
use strongly_typed_sockets.Os.{World, undefined, Cmd}
use strongly_typed_sockets.App.Sockets.{
  Place, Element, ActiveSockets, same_place, put, is_full, reserve, end_place, at_socket,
  emplace_back,
}
use strongly_typed_sockets.App.Server.{element_at}

pub ==_refl : (n : ℕ) → (n == n) ≡ true
==_refl n = ground arith

pub ==_less : (m n : ℕ) → m < n → (n == m) ≡ false
==_less m n h = ground arith

abbrev pub place : ℕ → ℕ → Place
place block slot = record { block = block; slot = slot }

element_at-append :
    (n : ℕ) (es fs : List Element) (e : Element)
    → element_at n es ≡ some e
    → element_at n (es ++ fs) ≡ some e
element_at-append n [] fs e h = absurd (ground (arith, h))
element_at-append zero (f ∷ es) fs e h = h
element_at-append (suc n) (f ∷ es) fs e h = element_at-append n es fs e h

pub same_place_refl : (p : Place) → same_place p p ≡ true
same_place_refl p = rw (==_refl p.block, ==_refl p.slot) refl

module _ {S : Type 0} where
  -- An element stands at a slot when its pointer leads to its own storage and an object lives there.
  abbrev pub StandsAt : ℕ → (Place → Option S) → ℕ → Element → Type 0
  StandsAt block objects slot e =
      (e.socket ≡ some (place block slot)) × ((s : S) × (objects (place block slot) ≡ some s))

  abbrev pub AllStand : ℕ → (Place → Option S) → ℕ → List Element → Type 0
  AllStand block objects slot [] = Unit {0}
  AllStand block objects slot (e ∷ es) =
      StandsAt block objects slot e × AllStand block objects (suc slot) es

  pub record IsSettled (v : ActiveSockets S) : Type 0 where
    pub stand : AllStand v.block v.objects 0 v.elements
    pub room : length v.elements ≤ v.capacity

  append-AllStand :
      (block : ℕ) (objects : Place → Option S) (slot end : ℕ) (es : List Element) (e : Element)
      (sock : S)
      → slot + length es ≡ end
      → e.socket ≡ some (place block end)
      → AllStand block objects slot es
      → AllStand block (put (place block end) (some sock) objects) slot (es ++ e ∷ [])
  append-AllStand block objects slot end [] e sock at own h =
      let same : slot ≡ end = omega (arith, at) in
      rw same ((own, (sock, rw (==_refl block, ==_refl end) refl)), tt)
  append-AllStand block objects slot end (f ∷ es) e sock at own h = (
    (h.0.0, (h.0.1.0, rw (==_refl block, ==_less slot end (omega (arith, at))) h.0.1.1)),
    append-AllStand block objects (suc slot) end es e sock (omega (arith, at)) own h.1,
  )

  -- The vector that `reserve` makes still stands, unless it leaves elements in a block that is freed.
  pub reserve-IsSettled :
      (grow : ℕ → ℕ) (v : ActiveSockets S)
      → IsSettled v
      → ((n : ℕ) → n < grow n)
      → (length v.elements < v.capacity) ⊎ (v.elements ≡ [])
      → AllStand (reserve grow v).block (reserve grow v).objects 0 (reserve grow v).elements
        × (length (reserve grow v).elements < (reserve grow v).capacity)
  reserve-IsSettled grow v h grows (inl less) =
      let room : is_full v ≡ false = ground (arith, less) in rw room (h.stand, less)
  reserve-IsSettled grow v h grows (inr none_there) = elim (Bool-cases (is_full v)) [
    | inl e ↦ rw e (rw none_there (tt, omega (arith, grows v.capacity)))
    | inr e ↦ rw e (h.stand, ground (arith, e, h.room))
  ]

  pub reserve-elements :
      (grow : ℕ → ℕ) (v : ActiveSockets S) → (reserve grow v).elements ≡ v.elements
  reserve-elements grow v = elim (Bool-cases (is_full v)) [ inl e ↦ rw e refl | inr e ↦ rw e refl ]

  -- For a vector in which every element leads to an object in its own storage, and a growth that
  -- makes room: `emplace_back` keeps this where the vector has room or is empty.
  pub emplace_back-IsSettled :
      (grow : ℕ → ℕ) (sock : S) (fd : ℤ) (v : ActiveSockets S)
      → IsSettled v
      → ((n : ℕ) → n < grow n)
      → (length v.elements < v.capacity) ⊎ (v.elements ≡ [])
      → IsSettled (emplace_back grow sock fd v)
  unfolding emplace_back
  emplace_back-IsSettled grow sock fd v h grows free =
      let r = reserve-IsSettled grow v h grows free in
      let room = reserve grow v in
      record {
        stand =
            append-AllStand room.block room.objects 0 (length room.elements) room.elements _ sock
              (omega arith) refl r.0;
        room = omega (
          arith,
          r.1,
          length-append room.elements
              (record { socket = some (end_place room); fd = fd; text = [] } ∷ []),
        );
      }

  -- One more element behind those of before.
  pub emplace_back-elements :
      (grow : ℕ → ℕ) (sock : S) (fd : ℤ) (v : ActiveSockets S)
      → (e : Element) × ((emplace_back grow sock fd v).elements ≡ v.elements ++ e ∷ [])
  unfolding emplace_back
  emplace_back-elements grow sock fd v =
      let e : Element = record { socket = some (end_place (reserve grow v)); fd = fd; text = [] } in
      (e, ap (λ l. l ++ e ∷ []) (reserve-elements grow v))

  pub element_at-StandsAt :
      (block : ℕ) (objects : Place → Option S) (n slot place : ℕ) (es : List Element) (e : Element)
      → slot + n ≡ place
      → AllStand block objects slot es
      → element_at n es ≡ some e
      → StandsAt block objects place e
  element_at-StandsAt block objects n slot place [] e sum h at = absurd (ground (arith, at))
  element_at-StandsAt block objects zero slot place (f ∷ es) e sum h at =
      let same : e ≡ f = ap (λ o. elim o [ some u ↦ u | none ↦ f ]) (sym at) in
      let here : place ≡ slot = omega (arith, sum) in rw (same, here) h.0
  element_at-StandsAt block objects (suc n) slot place (f ∷ es) e sum h at =
      element_at-StandsAt block objects n (suc slot) place es e (omega (arith, sum)) h.1 at

  -- An element that stood in a vector which was full leads nowhere in the one that took its place.
  full-dangles :
      {A : Type 0} (grow : ℕ → ℕ) (v : ActiveSockets S) (slot : ℕ) (e : Element) (sock : S) (fd : ℤ)
      (method : S → Cmd (S × A)) (w : World)
      → is_full v ≡ true
      → e.socket ≡ some (place v.block slot)
      → at_socket e.socket method (emplace_back grow sock fd v) w ≡ undefined
  unfolding emplace_back at_socket
  full-dangles grow v slot e sock fd method w full own =
      rw (own, at_socket, full, ==_less v.block (suc v.block) (omega arith), ==_refl v.block) refl

  -- For a vector in which every element leads to an object in its own storage, and which is full:
  -- after `emplace_back` each of its elements is still at its slot, and every use of its pointer is
  -- undefined.
  pub emplace_back-dangles :
      {A : Type 0} (grow : ℕ → ℕ) (sock : S) (fd : ℤ) (v : ActiveSockets S) (slot : ℕ) (e : Element)
      (method : S → Cmd (S × A)) (w : World)
      → IsSettled v
      → length v.elements ≡ v.capacity
      → element_at slot v.elements ≡ some e
      → (element_at slot (emplace_back grow sock fd v).elements ≡ some e)
        × (at_socket e.socket method (emplace_back grow sock fd v) w ≡ undefined)
  unfolding emplace_back
  emplace_back-dangles grow sock fd v slot e method w h full at =
      let is_full : is_full v ≡ true = ground (arith, full) in
      (
        rw (reserve-elements grow v) (element_at-append slot v.elements _ e at),
        full-dangles grow v slot e sock fd method w is_full
            (element_at-StandsAt v.block v.objects slot 0 slot v.elements e (omega arith) h.stand
              at).0,
      )

-- An object that is replaced leaves the vector settled.
pub put-IsSettled :
    {S : Type 0} (p : Place) (a : S) (v : ActiveSockets S)
    → IsSettled v
    → IsSettled (record v { objects = put p (some a) v.objects })
put-IsSettled p a v h = record { stand = stands 0 v.elements h.stand; room = h.room }
  where
    stands :
        (slot : ℕ) (es : List Element)
        → AllStand v.block v.objects slot es
        → AllStand v.block (put p (some a) v.objects) slot es
    stands slot [] g = tt
    stands slot (e ∷ es) g = (
      (
        g.0.0,
        elim (Bool-cases (same_place p (place v.block slot))) [
          | inl here ↦ (a, rw here refl)
          | inr elsewhere ↦ (g.0.1.0, rw elsewhere g.0.1.1)
        ],
      ),
      stands (suc slot) es g.1,
    )
