-- ===== src/Locks/Progress.antt =====
-- Threads that take the mutexes of an endpoint in one order do not block each other.

use strongly_typed_sockets.Base.{
  ℕ, ◌⊎◌, ◌≡◌, refl, Bool, true, false, ◌&&◌, ◌||◌, is_none, none, some, List, [], ◌∷◌, inl, inr,
  Option-cases, arith,
}
use strongly_typed_sockets.Locks.{
  Act, work, lock_endpoint, unlock_endpoint, lock_shared, unlock_shared, lock_unique, unlock_unique,
  System, update, is_nil, perform, step_thread, thread_turn,
}
use strongly_typed_sockets.Locks.Order.{Order, observer_first, endpoint_first, obeys}
use strongly_typed_sockets.Locks.Ordered.{Ordered, owns, reads, ==_refl}

-- Thread `i` need not wait to do this.
abbrev unhindered : System → Act → Bool
unhindered s lock_endpoint = is_none s.endpoint
unhindered s lock_shared = is_none s.writer
unhindered s lock_unique = is_none s.writer && is_nil s.readers
unhindered s a = true

abbrev pub Moves : System → Type 0
Moves s = (j : ℕ) × (t : System) × (thread_turn j s ≡ some t)

unhindered-perform :
    (s : System) (a : Act) (i : ℕ) → unhindered s a ≡ true → (t : System) × (perform a i s ≡ some t)
unhindered-perform s work i free = (_, refl)
unhindered-perform s lock_endpoint i free = (record s { endpoint = some i }, rw free refl)
unhindered-perform s unlock_endpoint i free = (_, refl)
unhindered-perform s lock_shared i free = (record s { readers = i ∷ s.readers }, rw free refl)
unhindered-perform s unlock_shared i free = (_, refl)
unhindered-perform s lock_unique i free = (record s { writer = some i }, rw free refl)
unhindered-perform s unlock_unique i free = (_, refl)

unhindered-Moves :
    (s : System) (i : ℕ) (a : Act) (p : List Act)
    → s.rest i ≡ a ∷ p
    → unhindered s a ≡ true
    → Moves s
unfolding thread_turn step_thread
unhindered-Moves s i a p left free =
    let (t, does) = unhindered-perform (record s { rest = update s.rest i p }) a i free in
    (i, t, simp left does)

-- What a thread holds that can go on: the last mutex in the order, or an earlier one if the last is free.
abbrev holds_last : Order → System → (e r w : Bool) → Bool
holds_last observer_first s e r w = e || (r || w) && is_none s.endpoint
holds_last endpoint_first s e r w = (r || w) || e && (is_none s.writer && is_nil s.readers)

holds_last-unhindered :
    (o : Order) (s : System) (e r w : Bool) (a : Act) (p : List Act)
    → obeys o e r w (a ∷ p) ≡ true
    → holds_last o s e r w ≡ true
    → unhindered s a ≡ true
holds_last-unhindered observer_first s e r w lock_endpoint p h last = ground (arith, h, last)
holds_last-unhindered endpoint_first s e r w lock_endpoint p h last = ground (arith, h, last)
holds_last-unhindered observer_first s e r w lock_shared p h last = ground (arith, h, last)
holds_last-unhindered endpoint_first s e r w lock_shared p h last = ground (arith, h, last)
holds_last-unhindered observer_first s e r w lock_unique p h last = ground (arith, h, last)
holds_last-unhindered endpoint_first s e r w lock_unique p h last = ground (arith, h, last)
holds_last-unhindered o s e r w work p h last = refl
holds_last-unhindered o s e r w unlock_endpoint p h last = refl
holds_last-unhindered o s e r w unlock_shared p h last = refl
holds_last-unhindered o s e r w unlock_unique p h last = refl

holds_last_busy :
    (o : Order) (s : System) (e r w : Bool) → obeys o e r w [] ≡ true → holds_last o s e r w ≡ false
holds_last_busy observer_first s e r w h = ground (arith, h)
holds_last_busy endpoint_first s e r w h = ground (arith, h)

holds_last-Moves :
    (o : Order) (s : System) (j : ℕ) (acts : List Act)
    → Ordered o s
    → s.rest j ≡ acts
    → holds_last o s (owns s.endpoint j) (reads s.readers j) (owns s.writer j) ≡ true
    → Moves s
holds_last-Moves o s j [] inv left last =
    absurd (ground (arith, last, holds_last_busy o s _ _ _ (rw left at (inv.obedient j))))
holds_last-Moves o s j (a ∷ p) inv left last =
    unhindered-Moves s j a p left
      (holds_last-unhindered o s _ _ _ a p (rw left at (inv.obedient j)) last)

abbrev pub Free : System → Type 0
Free s = (s.endpoint ≡ none) × (s.readers ≡ []) × (s.writer ≡ none)

held_lock-Moves :
    (o : Order) (s : System) (j : ℕ)
    → Ordered o s
    → holds_last o s (owns s.endpoint j) (reads s.readers j) (owns s.writer j) ≡ true
    → Moves s
held_lock-Moves o s j inv last = holds_last-Moves o s j (s.rest j) inv refl last

readers_cases : (readers : List ℕ) → (readers ≡ []) ⊎ ((j : ℕ) × (reads readers j ≡ true))
readers_cases [] = inl refl
readers_cases (j ∷ readers) = inr (j, rw (==_refl j) refl)

-- Of the threads that hold a mutex, one can go on.
pub holders-Moves : (o : Order) (s : System) → Ordered o s → Moves s ⊎ Free s
holders-Moves observer_first s inv = elim (Option-cases s.endpoint) [
  | inr (j, held) ↦ inl (held_lock-Moves observer_first s j inv (rw (held, ==_refl j) refl))
  | inl free ↦ elim (readers_cases s.readers) [
    | inr (j, read) ↦ inl (held_lock-Moves observer_first s j inv (ground (arith, free, read)))
    | inl unread ↦ elim (Option-cases s.writer) [
      | inr (j, held) ↦
          inl (held_lock-Moves observer_first s j inv (ground (arith, free, held, ==_refl j)))
      | inl unwritten ↦ inr (free, unread, unwritten)
    ]
  ]
]
holders-Moves endpoint_first s inv = elim (readers_cases s.readers) [
  | inr (j, read) ↦ inl (held_lock-Moves endpoint_first s j inv (ground (arith, read)))
  | inl unread ↦ elim (Option-cases s.writer) [
    | inr (j, held) ↦ inl (held_lock-Moves endpoint_first s j inv (ground (arith, held, ==_refl j)))
    | inl unwritten ↦ elim (Option-cases s.endpoint) [
      | inr (j, held) ↦ inl (
          held_lock-Moves endpoint_first s j inv
            (ground (arith, held, unread, unwritten, ==_refl j)))
      | inl free ↦ inr (free, unread, unwritten)
    ]
  ]
]

unhindered-Free : (s : System) (a : Act) → Free s → unhindered s a ≡ true
unhindered-Free s lock_endpoint (e, r, w) = rw e refl
unhindered-Free s lock_shared (e, r, w) = rw w refl
unhindered-Free s lock_unique (e, r, w) = rw (w, r) refl
unhindered-Free s work free = refl
unhindered-Free s unlock_endpoint free = refl
unhindered-Free s unlock_shared free = refl
unhindered-Free s unlock_unique free = refl

-- While a thread has not finished, one can go on.
pub Ordered-Moves :
    (o : Order) (s : System) (i : ℕ) (a : Act) (p : List Act)
    → Ordered o s
    → s.rest i ≡ a ∷ p
    → Moves s
Ordered-Moves o s i a p inv left = elim (holders-Moves o s inv) [
  | inl go_on ↦ go_on
  | inr free ↦ unhindered-Moves s i a p left (unhindered-Free s a free)
]
