-- ===== src/Observer/Dispatch.antt =====
-- src/endpoint/event_observer.tpp: the map of handlers, and the handlers that an event selects.
use strongly_typed_sockets.Base.{◌≡◌, refl, none, some, [], ◌∷◌, ◌++◌, if◌then◌else◌, arith, ◌==◌}
use strongly_typed_sockets.Epoll.{EventType}
use strongly_typed_sockets.Observer.{Handlers, find, add, erase, remove}

module _ {H : Type 0} where
  find-append :
      (e k : EventType) (h : H) (m : Handlers H)
      → find e (m ++ (k, h) ∷ [])
        ≡ elim (find e m) [ some g ↦ some g | none ↦ if k == e then some h else none ]
  unfolding find
  find-append e k h [] = refl
  find-append e k h ((j, g) ∷ m) = ground (arith, find-append e k h m)

  -- After `add` a type of event has the handler that it had, or else, if it is the one added for,
  -- the new one.
  pub find-add :
      (e k : EventType) (h : H) (m : Handlers H)
      → find e (add k h m).0
        ≡ elim (find e m) [ some g ↦ some g | none ↦ if k == e then some h else none ]
  unfolding add
  find-add e k h m = ground (arith, find-append e k h m)

  -- After `remove` its type of event has no handler, and each other type the one that it had.
  pub find-remove :
      (e k : EventType) (m : Handlers H)
      → find e (remove k m).0 ≡ (if k == e then none else find e m)
  unfolding remove find erase
  find-remove e k [] = ground arith
  find-remove e k ((j, g) ∷ m) = ground (arith, find-remove e k m)
