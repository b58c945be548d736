-- ===== src/Locks/Order.antt =====
-- The order in which the operations of an endpoint take its mutexes.
use strongly_typed_sockets.Base.{
  ℕ, zero, suc, ◌≡◌, refl, Bool, true, false, ◌&&◌, ◌||◌, not, List, [], ◌∷◌, ◌++◌, inl, inr,
  Bool-cases, Option-cases, arith,
}
use mathlib.Core.List.{append_assoc}
use strongly_typed_sockets.Utils.{enum_and}
use strongly_typed_sockets.Epoll.{Event, EventType}
use strongly_typed_sockets.Observer.{Handlers, find, handled_types}
use strongly_typed_sockets.Locks.{
  Act, work, lock_endpoint, unlock_endpoint, lock_shared, unlock_shared, lock_unique, unlock_unique,
  registering, handling, handling_all, proceeding, Op, starts, stops, destroys, guarded, transfers,
  proceeds, op_acts, thread,
}

-- Which mutex is taken first where a thread takes both.
pub data Order : Type 0 where
  observer_first endpoint_first : Order

abbrev pub endpoint_inside : Order → Bool
endpoint_inside observer_first = true
endpoint_inside endpoint_first = false

-- A thread that holds these mutexes (of the endpoint, shared, unique) does the rest in the order, takes
-- none that it holds, gives back only what it holds, and ends with none.
abbrev pub obeys : Order → (e r w : Bool) → List Act → Bool
obeys o e r w [] = not e && not r && not w
obeys o e r w (work ∷ p) = obeys o e r w p
obeys o e r w (lock_endpoint ∷ p) =
    not e && (endpoint_inside o || not r && not w) && obeys o true r w p
obeys o e r w (unlock_endpoint ∷ p) = e && obeys o false r w p
obeys o e r w (lock_shared ∷ p) =
    not r && not w && (not (endpoint_inside o) || not e) && obeys o e true w p
obeys o e r w (unlock_shared ∷ p) = r && obeys o e false w p
obeys o e r w (lock_unique ∷ p) =
    not r && not w && (not (endpoint_inside o) || not e) && obeys o e r true p
obeys o e r w (unlock_unique ∷ p) = w && obeys o e r false p

-- After one part that ends with the mutexes that it began with, the rest.
registering-obeys :
    (o : Order) (e : Bool) (n : ℕ) (p : List Act)
    → not (endpoint_inside o) || not e ≡ true
    → obeys o e false false p ≡ true
    → obeys o e false false (registering n ++ p) ≡ true
unfolding registering
registering-obeys o e zero p may h = h
registering-obeys o e (suc n) p may h = rw may (registering-obeys o e n p may h)

module _ {H : Type 0} where
  -- The operations that take the mutexes in an order: all but `start` and `stop`, or all but `proceed`.
  abbrev pub suits : Order → Op H → Bool
  suits observer_first (starts added) = false
  suits observer_first stops = false
  suits endpoint_first (proceeds handlers events) = false
  suits o op = true

  abbrev pub all_suit : Order → List (Op H) → Bool
  all_suit o [] = true
  all_suit o (op ∷ ops) = suits o op && all_suit o ops

module _ {H : Type 0} (throws : H → Event → Bool) where
  handling-obeys :
      (handlers : Handlers H) (tps : List EventType) (event : Event) (p : List Act)
      → obeys observer_first false true false p ≡ true
      → obeys observer_first false true false (handling handlers throws tps event ++ p) ≡ true
  unfolding handling
  handling-obeys handlers [] event p h = h
  handling-obeys handlers (tp ∷ tps) event p h =
      elim (Option-cases (find (enum_and event.type tp) handlers)) [
        | inl missing ↦ rw (handling, missing) (handling-obeys handlers tps event p h)
        | inr (g, there) ↦ elim (Bool-cases (throws g event)) [
          | inl thrown ↦ rw (handling, there, thrown) h
          | inr calm ↦ rw (handling, there, calm) (handling-obeys handlers tps event p h)
        ]
      ]

  handling_all-obeys :
      (handlers : Handlers H) (events : List Event) (p : List Act)
      → obeys observer_first false true false p ≡ true
      → obeys observer_first false true false (handling_all handlers throws events ++ p) ≡ true
  unfolding handling_all
  handling_all-obeys handlers [] p h = h
  handling_all-obeys handlers (event ∷ events) p h =
      rw
        (append_assoc (handling handlers throws handled_types event)
          (handling_all handlers throws events) p)
        (handling-obeys handlers handled_types event _ (handling_all-obeys handlers events p h))

  op_acts-obeys :
      (o : Order) (op : Op H) (p : List Act)
      → suits o op ≡ true
      → obeys o false false false p ≡ true
      → obeys o false false false (op_acts throws op ++ p) ≡ true
  unfolding op_acts proceeding
  op_acts-obeys observer_first (starts added) p fits h = cc
  op_acts-obeys observer_first stops p fits h = cc
  op_acts-obeys observer_first destroys p fits h = registering-obeys observer_first false 5 p refl h
  op_acts-obeys observer_first guarded p fits h = h
  op_acts-obeys observer_first transfers p fits h = h
  op_acts-obeys observer_first (proceeds handlers events) p fits h =
      rw (append_assoc (handling_all handlers throws events) (unlock_shared ∷ work ∷ []) p)
        (handling_all-obeys handlers events (unlock_shared ∷ work ∷ p) h)
  op_acts-obeys endpoint_first (starts added) p fits h =
      simp append_assoc
        (registering-obeys endpoint_first true added (work ∷ unlock_endpoint ∷ p) refl h)
  op_acts-obeys endpoint_first stops p fits h = h
  op_acts-obeys endpoint_first destroys p fits h = registering-obeys endpoint_first false 5 p refl h
  op_acts-obeys endpoint_first guarded p fits h = h
  op_acts-obeys endpoint_first transfers p fits h = h
  op_acts-obeys endpoint_first (proceeds handlers events) p fits h = cc

  -- A thread of such operations takes the mutexes in the order.
  pub thread-obeys :
      (o : Order) (ops : List (Op H))
      → all_suit o ops ≡ true
      → obeys o false false false (thread throws ops) ≡ true
  unfolding thread
  thread-obeys o [] fits = refl
  thread-obeys o (op ∷ ops) fits =
      op_acts-obeys o op (thread throws ops) (ground (arith, fits))
        (thread-obeys o ops (ground (arith, fits)))
