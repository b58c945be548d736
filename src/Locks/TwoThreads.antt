-- ===== src/Locks/TwoThreads.antt =====
-- Turns of a first thread, which reads the handlers, and a second, which holds the endpoint.
use strongly_typed_sockets.Base.{
  ℕ, zero, suc, ◌≡◌, refl, Option, none, some, List, ◌∷◌, ◌++◌, replicate,
}
use strongly_typed_sockets.Locks.{
  Act, work, lock_endpoint, lock_shared, lock_unique, System, update, step_thread, thread_turn,
  Turns, start, later,
}

-- What the mutexes and the first two threads are at.
pub record At (endpoint : Option ℕ) (readers : List ℕ) (p q : List Act) (s : System) : Type 0 where
  pub endpoint_at : s.endpoint ≡ endpoint
  pub readers_at : s.readers ≡ readers
  pub writer_at : s.writer ≡ none
  pub first_at : s.rest 0 ≡ p
  pub second_at : s.rest 1 ≡ q

module _ {readers : List ℕ} (p q : List Act) (s : System) where
  pub first_works :
      {endpoint : Option ℕ}
      → At endpoint readers (work ∷ p) q s
      → (t : System) × (thread_turn 0 s ≡ some t) × At endpoint readers p q t
  unfolding thread_turn step_thread
  first_works at = (
    record s { rest = update s.rest 0 p },
    simp at.first_at refl,
    record {
      endpoint_at = at.endpoint_at;
      readers_at = at.readers_at;
      writer_at = at.writer_at;
      first_at = refl;
      second_at = at.second_at;
    },
  )

  pub first_reads :
      {endpoint : Option ℕ}
      → At endpoint readers (lock_shared ∷ p) q s
      → (t : System) × (thread_turn 0 s ≡ some t) × At endpoint (0 ∷ readers) p q t
  unfolding thread_turn step_thread
  first_reads at = (
    record s { readers = 0 ∷ s.readers; rest = update s.rest 0 p },
    simp (at.first_at, at.writer_at) refl,
    record {
      endpoint_at = at.endpoint_at;
      readers_at = rw at.readers_at refl;
      writer_at = at.writer_at;
      first_at = refl;
      second_at = at.second_at;
    },
  )

  pub second_works :
      {endpoint : Option ℕ}
      → At endpoint readers p (work ∷ q) s
      → (t : System) × (thread_turn 1 s ≡ some t) × At endpoint readers p q t
  unfolding thread_turn step_thread
  second_works at = (
    record s { rest = update s.rest 1 q },
    simp at.second_at refl,
    record {
      endpoint_at = at.endpoint_at;
      readers_at = at.readers_at;
      writer_at = at.writer_at;
      first_at = at.first_at;
      second_at = refl;
    },
  )

  pub second_locks :
      At none readers p (lock_endpoint ∷ q) s
      → (t : System) × (thread_turn 1 s ≡ some t) × At (some 1) readers p q t
  unfolding thread_turn step_thread
  second_locks at = (
    record s { endpoint = some 1; rest = update s.rest 1 q },
    simp (at.second_at, at.endpoint_at) refl,
    record {
      endpoint_at = refl;
      readers_at = at.readers_at;
      writer_at = at.writer_at;
      first_at = at.first_at;
      second_at = refl;
    },
  )

  -- The first waits for the mutex of the endpoint and the second for that of the observer.
  pub both_wait :
      At (some 1) (0 ∷ readers) (lock_endpoint ∷ p) (lock_unique ∷ q) s
      → (thread_turn 0 s ≡ none) × (thread_turn 1 s ≡ none)
  unfolding thread_turn step_thread
  both_wait at = (
    simp (at.first_at, at.endpoint_at) refl,
    simp (at.second_at, at.writer_at, at.readers_at) refl,
  )

pub all_work :
    {endpoint : Option ℕ} {readers : List ℕ} (n : ℕ) (p q : List Act) (s : System)
    → At endpoint readers (replicate n work ++ p) q s
    → (t : System) × Turns n s t × At endpoint readers p q t
all_work zero p q s at = (s, start, at)
all_work (suc n) p q s at =
    let (t, does, at_t) = first_works (replicate n work ++ p) q s at in
    let (u, turns, at_u) = all_work n p q t at_t in (u, later 0 does turns, at_u)
