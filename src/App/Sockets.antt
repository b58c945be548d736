-- ===== src/App/Sockets.antt =====
-- app/base_socket.h and the global `active_sockets` of app/server_main.cpp: a vector of sockets of
-- which each element stands on a pointer, `socket`, to an object in a storage of its own. A storage
-- has a place: the block of memory that the vector held when the object was made, and the element's
-- slot there. The implicit move of `base_socket` copies the pointer, and the storage as bytes.
pub mod Erasing
pub mod Settled
pub mod Lifetime
use strongly_typed_sockets.Base.{
  ℕ, zero, suc, ◌==◌, ℤ, ◌==ℤ◌, Bool, true, false, ◌&&◌, Option, none, some, List, [], ◌∷◌, ◌++◌,
  length, take, drop, if◌then◌else◌,
}
use strongly_typed_sockets.Os.{Bytes, Cmd, pure, ◌>>=◌, ◌>>◌, undefined}
use strongly_typed_sockets.SendRecv.{SendRecv}

pub record Place : Type 0 where
  pub block : ℕ
  pub slot : ℕ

abbrev pub same_place : Place → Place → Bool
same_place p q = p.block == q.block && p.slot == q.slot

-- An element: `base_socket`, whose `socket` is null when it was moved from, and the text received.
pub record Element : Type 0 where
  pub socket : Option Place
  pub fd : ℤ
  pub text : Bytes

-- What is left of an element that was moved.
abbrev pub moved : Element → Element
moved e = record e { socket = none; text = [] }

-- The vector, and the objects of type `S` that live in storages.
pub record ActiveSockets (S : Type 0) : Type 0 where
  pub block : ℕ
  pub capacity : ℕ
  pub elements : List Element
  pub objects : Place → Option S

module _ {S : Type 0} where
  abbrev pub no_sockets : ActiveSockets S
  no_sockets = record { block = 0; capacity = 0; elements = []; objects = λ p. none }

  abbrev pub put : Place → Option S → (Place → Option S) → Place → Option S
  put p o objects q = if same_place p q then o else objects q

  abbrev pub free_block : ℕ → (Place → Option S) → Place → Option S
  free_block block objects q = if block == q.block then none else objects q

  abbrev pub is_full : ActiveSockets S → Bool
  is_full v = length v.elements == v.capacity

  -- A full vector takes a new block, moves its elements there and frees the old one; `grow` is the
  -- capacity that the C++ library chooses.
  abbrev pub reserve : (grow : ℕ → ℕ) → ActiveSockets S → ActiveSockets S
  reserve grow v =
      if is_full v
      then record v {
        block = suc v.block;
        capacity = grow v.capacity;
        objects = free_block v.block v.objects;
      }
      else v

  abbrev pub end_place : ActiveSockets S → Place
  end_place v = record { block = v.block; slot = length v.elements }

  -- `emplace_back` of a `base_socket{std::move(sock), fd}` and an empty text.
  unfoldable pub emplace_back : (grow : ℕ → ℕ) → S → ℤ → ActiveSockets S → ActiveSockets S
  emplace_back grow sock fd v =
      let room = reserve grow v in
      record room {
        elements =
            room.elements ++ record { socket = some (end_place room); fd = fd; text = [] } ∷ [];
        objects = put (end_place room) (some sock) room.objects;
      }

  -- `p->…`: undefined unless an object lives at the place.
  unfoldable pub at_socket :
      {A : Type 0} → Option Place → (S → Cmd (S × A)) → ActiveSockets S → Cmd (ActiveSockets S × A)
  at_socket none method v = λ w. undefined
  at_socket (some p) method v = elim (v.objects p) [
    | none ↦ λ w. undefined
    | some s ↦ do (s', a) ← method s; pure (record v { objects = put p (some s') v.objects }, a)
  ]

module _ {S : Type 0} (iface : SendRecv S) where
  -- `unique_ptr::reset()`: the deleter destroys the object, whose storage is not freed.
  unfoldable pub reset : Option Place → ActiveSockets S → Cmd (ActiveSockets S)
  reset none v = pure v
  reset (some p) v = elim (v.objects p) [
    | none ↦ λ w. undefined
    | some s ↦ do iface.destroy s; pure (record v { objects = put p none v.objects })
  ]

  -- An assignment to the element at `slot`, from an element behind it: the pointer is reset, and the
  -- bytes of the other's storage end what lives in this one's.
  unfoldable pub assign_over : ℕ → Element → ActiveSockets S → Cmd (ActiveSockets S)
  unfolding reset
  assign_over slot old v = do
    v' ← reset old.socket v
    pure (record v' { objects = put (record { block = v'.block; slot = slot }) none v'.objects })

  -- The destructors of elements.
  unfoldable pub destroy_elements : List Element → ActiveSockets S → Cmd (ActiveSockets S)
  unfolding reset
  destroy_elements [] v = pure v
  destroy_elements (e ∷ es) v = do v' ← reset e.socket v; destroy_elements es v'

  -- `erase(it)` from the element at `slot` on: those behind move down by one, and the last is
  -- destroyed.
  unfoldable pub move_down :
      ℕ → Element → List Element → ActiveSockets S → Cmd (ActiveSockets S × List Element)
  unfolding assign_over
  move_down slot e [] v = do v' ← reset e.socket v; pure (v', [])
  move_down slot e (f ∷ rest) v = do
    v' ← assign_over slot e v
    (v'', kept) ← move_down (suc slot) (moved f) rest v'
    pure (v'', f ∷ kept)

  -- The elements from `slot` on, of which the one `n` behind it goes.
  unfoldable pub erase_from :
      ℕ → ℕ → List Element → ActiveSockets S → Cmd (ActiveSockets S × List Element)
  unfolding move_down
  erase_from n slot [] v = λ w. undefined
  erase_from zero slot (e ∷ es) v = move_down slot e es v
  erase_from (suc n) slot (e ∷ es) v = do
    (v', kept) ← erase_from n (suc slot) es v
    pure (v', e ∷ kept)

  unfoldable pub erase : ℕ → ActiveSockets S → Cmd (ActiveSockets S)
  unfolding erase_from
  erase slot v = do
    (v', kept) ← erase_from slot 0 v.elements v
    pure (record v' { elements = kept })

  -- `std::remove_if` and the `erase` of what it leaves: `gap` holds the elements between the result
  -- and the next to look at, which the next kept element moves down over.
  unfoldable pub remove_elements :
      ℤ → ℕ → List Element → List Element → ActiveSockets S → Cmd (ActiveSockets S × List Element)
  unfolding assign_over destroy_elements
  remove_elements fd slot gap [] v = do v' ← destroy_elements gap v; pure (v', [])
  remove_elements fd slot gap (e ∷ es) v = elim (e.fd ==ℤ fd) [
    | true ↦ remove_elements fd slot (gap ++ e ∷ []) es v
    | false ↦ elim gap [
      | [] ↦ do (v', kept) ← remove_elements fd (suc slot) [] es v; pure (v', e ∷ kept)
      | h ∷ hs ↦ do
        v' ← assign_over slot h v
        (v'', kept) ← remove_elements fd (suc slot) (hs ++ moved e ∷ []) es v'
        pure (v'', e ∷ kept)
    ]
  ]

  unfoldable pub remove_fd : ℤ → ActiveSockets S → Cmd (ActiveSockets S)
  unfolding remove_elements
  remove_fd fd v = do
    (v', kept) ← remove_elements fd 0 [] v.elements v
    pure (record v' { elements = kept })

  unfoldable pub clear : ActiveSockets S → Cmd (ActiveSockets S)
  unfolding destroy_elements
  clear v = do v' ← destroy_elements v.elements v; pure (record v' { elements = [] })
