-- ===== src/Locks/Asking.antt =====
-- How a thread in `proceed` comes to ask for the mutex of the endpoint.
use strongly_typed_sockets.Base.{
  length, ℕ, zero, suc, ◌≡◌, refl, ap, Bool, true, false, ◌||◌, if◌then◌else◌, is_some, List, [],
  ◌∷◌, ◌++◌, inl, inr, Bool-cases, Option-cases, replicate, arith,
}
use mathlib.Core.List.{append_assoc}
use strongly_typed_sockets.Utils.{enum_and}
use strongly_typed_sockets.Epoll.{Event, EventType}
use strongly_typed_sockets.Observer.{Handlers, find, handled_types}
use strongly_typed_sockets.Locks.{Act, work, lock_endpoint, unlock_endpoint, handling, handling_all}

module _ {H : Type 0} (handlers : Handlers H) where
  -- A handler is found for a type that the event has, for one of the events.
  abbrev pub meets : List EventType → Event → Bool
  meets [] event = false
  meets (tp ∷ tps) event = is_some (find (enum_and event.type tp) handlers) || meets tps event

  abbrev pub meets_any : List Event → Bool
  meets_any [] = false
  meets_any (event ∷ events) = meets handled_types event || meets_any events

-- A thread that does no more than `work` before it asks for the mutex of the endpoint.
abbrev pub Asks : List Act → Type 0
Asks acts = (n : ℕ) × (p : List Act) × (acts ≡ replicate n work ++ lock_endpoint ∷ p)

module _ {H : Type 0} (handlers : Handlers H) (throws : H → Event → Bool) where
  after-Asks : (n : ℕ) (acts : List Act) → Asks acts → Asks (replicate n work ++ acts)
  after-Asks zero acts asks = asks
  after-Asks (suc n) acts asks =
      let (m, p, same) = after-Asks n acts asks in (suc m, p, ap (λ q. work ∷ q) same)

  append-Asks : (acts more : List Act) → Asks acts → Asks (acts ++ more)
  append-Asks acts more (n, p, same) =
      (n, p ++ more, rw same (append_assoc (replicate n work) (lock_endpoint ∷ p) more))

  handling-Asks :
      (tps : List EventType) (event : Event)
      → meets handlers tps event ≡ true
      → Asks (handling handlers throws tps event)
  unfolding handling
  handling-Asks [] event found = absurd (ground (arith, found))
  handling-Asks (tp ∷ tps) event found =
      elim (Option-cases (find (enum_and event.type tp) handlers)) [
        | inl missing ↦
            rw (handling, missing)
              (after-Asks 1 _ (handling-Asks tps event (ground (arith, found, missing))))
        | inr (h, there) ↦ (
          1,
          work
              ∷ unlock_endpoint
              ∷ (if throws h event then [] else handling handlers throws tps event),
          rw (handling, there) refl,
        )
      ]

  handling_quiet :
      (tps : List EventType) (event : Event)
      → meets handlers tps event ≡ false
      → handling handlers throws tps event ≡ replicate (length tps) work
  unfolding handling
  handling_quiet [] event missing = refl
  handling_quiet (tp ∷ tps) event missing =
      elim (Option-cases (find (enum_and event.type tp) handlers)) [
        | inl no_handler ↦
            rw
              (handling, no_handler, handling_quiet tps event (ground (arith, missing, no_handler)))
              refl
        | inr (h, there) ↦ absurd (ground (arith, missing, there))
      ]

  pub handling_all-Asks :
      (events : List Event)
      → meets_any handlers events ≡ true
      → Asks (handling_all handlers throws events)
  unfolding handling_all
  handling_all-Asks [] found = absurd (ground (arith, found))
  handling_all-Asks (event ∷ events) found =
      elim (Bool-cases (meets handlers handled_types event)) [
        | inl here ↦
            append-Asks _ (handling_all handlers throws events)
              (handling-Asks handled_types event here)
        | inr quiet ↦ rw (handling_quiet handled_types event quiet) (
            after-Asks (length handled_types) _
              (handling_all-Asks events (ground (arith, found, quiet))))
      ]
