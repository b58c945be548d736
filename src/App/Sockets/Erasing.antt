-- ===== src/App/Sockets/Erasing.antt =====
-- app/server_main.cpp: the two ways in which elements leave `active_sockets`, `erase` at an iterator
-- and `std::remove_if` by descriptor.
use strongly_typed_sockets.Base.{ℕ, zero, suc, ◌≡◌, refl, ℤ, ◌==ℤ◌, true, false, List, [], ◌∷◌, ap}
use strongly_typed_sockets.Os.{World, and_then, pure, ok}
use strongly_typed_sockets.Os.Returns.{and_then-ap, and_then_assoc}
use strongly_typed_sockets.SendRecv.{SendRecv}
use strongly_typed_sockets.App.Sockets.{
  Element, ActiveSockets, moved, reset, assign_over, destroy_elements, move_down, erase_from, erase,
  remove_elements, remove_fd,
}

-- No element has this descriptor, and the one at a slot alone has it.
abbrev pub NoneHas : ℤ → List Element → Type 0
NoneHas fd [] = Unit {0}
NoneHas fd (e ∷ es) = ((e.fd ==ℤ fd) ≡ false) × NoneHas fd es

abbrev pub OnlyHas : ℤ → ℕ → List Element → Type 0
OnlyHas fd n [] = ⊥
OnlyHas fd zero (e ∷ es) = ((e.fd ==ℤ fd) ≡ true) × NoneHas fd es
OnlyHas fd (suc n) (e ∷ es) = ((e.fd ==ℤ fd) ≡ false) × OnlyHas fd n es

module _ {S : Type 0} (iface : SendRecv S) (fd : ℤ) where
  -- Behind an element that goes, `remove_if` moves the others down as `erase` does.
  remove_elements-move_down :
      (rest : List Element) (slot : ℕ) (e : Element) (v : ActiveSockets S) (w : World)
      → NoneHas fd rest
      → remove_elements iface fd slot (e ∷ []) rest v w ≡ move_down iface slot e rest v w
  unfolding remove_elements move_down destroy_elements
  remove_elements-move_down [] slot e v w h =
      and_then_assoc (reset iface e.socket v w) pure (λ v'. pure (v', []))
  remove_elements-move_down (f ∷ rest) slot e v w h =
      rw (h.0, remove_elements)
        (and_then-ap (assign_over iface slot e v w) _ _ λ v' w'.
          ap (λ r. and_then r (λ k. pure (k.0, f ∷ k.1)))
            (remove_elements-move_down rest (suc slot) (moved f) v' w' h.1))

  remove_elements-erase_from :
      (es : List Element) (n slot : ℕ) (v : ActiveSockets S) (w : World)
      → OnlyHas fd n es
      → remove_elements iface fd slot [] es v w ≡ erase_from iface n slot es v w
  unfolding remove_elements erase_from
  remove_elements-erase_from [] n slot v w h = absurd h
  remove_elements-erase_from (e ∷ es) zero slot v w h =
      rw (h.0, remove_elements) (remove_elements-move_down es slot e v w h.1)
  remove_elements-erase_from (e ∷ es) (suc n) slot v w h =
      rw (h.0, remove_elements)
        (ap (λ r. and_then r (λ k. pure (k.0, e ∷ k.1)))
          (remove_elements-erase_from es n (suc slot) v w h.1))

  -- Where just one element has the descriptor, `std::remove_if` by it with the `erase` of what it
  -- leaves does the same as `erase` at that element, whatever the elements' pointers lead to.
  pub remove_fd-erase :
      (n : ℕ) (v : ActiveSockets S) (w : World)
      → OnlyHas fd n v.elements
      → remove_fd iface fd v w ≡ erase iface n v w
  unfolding remove_fd erase
  remove_fd-erase n v w h =
      ap (λ r. and_then r (λ k. pure (record k.0 { elements = k.1 })))
        (remove_elements-erase_from v.elements n 0 v w h)

  remove_elements-none :
      (es : List Element) (slot : ℕ) (v : ActiveSockets S) (w : World)
      → NoneHas fd es
      → remove_elements iface fd slot [] es v w ≡ ok (v, es) w
  unfolding remove_elements destroy_elements
  remove_elements-none [] slot v w h = refl
  remove_elements-none (e ∷ es) slot v w h =
      rw (h.0, remove_elements, remove_elements-none es (suc slot) v w h.1) refl

  -- Where no element has the descriptor, nothing happens.
  pub remove_fd-none :
      (v : ActiveSockets S) (w : World) → NoneHas fd v.elements → remove_fd iface fd v w ≡ ok v w
  unfolding remove_fd
  remove_fd-none v w h = rw (remove_elements-none v.elements 0 v w h) refl
