-- ===== src/Locks/Deadlock.antt =====
-- A thread in `proceed` and one in `start` or `stop`, which take the mutexes in opposite orders.
use strongly_typed_sockets.Base.{
  ℕ, zero, suc, ◌==◌, ◌≡◌, refl, Bool, true, false, if◌then◌else◌, none, List, [], ◌∷◌, ◌++◌,
  replicate, arith,
}
use mathlib.Core.List.{append_assoc}
use strongly_typed_sockets.Epoll.{Event}
use strongly_typed_sockets.Observer.{Handlers}
use strongly_typed_sockets.Locks.{
  Act, work, lock_endpoint, lock_shared, unlock_shared, lock_unique, registering, proceeding, Op,
  starts, stops, destroys, guarded, transfers, proceeds, op_acts, thread, System, thread_turn,
  Turns, later,
}
use strongly_typed_sockets.Locks.Finish.{threads}
use strongly_typed_sockets.Locks.Asking.{meets_any, handling_all-Asks}
use strongly_typed_sockets.Locks.TwoThreads.{
  At, first_works, first_reads, second_works, second_locks, both_wait, all_work,
}

-- The operations that take the mutex of the observer while they hold that of the endpoint.
abbrev pub locks_both : {H : Type 0} → Op H → Bool
locks_both (starts zero) = false
locks_both (starts (suc added)) = true
locks_both stops = true
locks_both op = false

-- Two threads, with an operation each and what they would do after it.
abbrev pub two : {H : Type 0} → (first second : List (Op H)) → ℕ → List (Op H)
two first second j = if j == 0 then first else if j == 1 then second else []

module _ {H : Type 0} (throws : H → Event → Bool) where
  locks_both_acts :
      (op : Op H)
      → locks_both op ≡ true
      → (q : List Act) × (op_acts throws op ≡ lock_endpoint ∷ work ∷ lock_unique ∷ q)
  unfolding op_acts registering
  locks_both_acts (starts zero) both = absurd (ground (arith, both))
  locks_both_acts (starts (suc added)) both = (_, refl)
  locks_both_acts stops both = (_, refl)
  locks_both_acts destroys both = absurd (ground (arith, both))
  locks_both_acts guarded both = absurd (ground (arith, both))
  locks_both_acts transfers both = absurd (ground (arith, both))
  locks_both_acts (proceeds handlers events) both = absurd (ground (arith, both))

  proceeds_acts :
      (handlers : Handlers H) (events : List Event) (more : List Act)
      → meets_any handlers events ≡ true
      → (n : ℕ) × (p : List Act) × (op_acts throws (proceeds handlers events) ++ more
          ≡ work ∷ lock_shared ∷ replicate n work ++ lock_endpoint ∷ p)
  unfolding op_acts proceeding
  proceeds_acts handlers events more found =
      let (n, p, same) = handling_all-Asks handlers throws events found in
      (n, p ++ unlock_shared ∷ work ∷ more, simp (same, append_assoc) refl)

  -- For a thread that is about to call `proceed`, with events of which one has a type that a
  -- handler is there for, and a second thread that is about to call `stop`, or a `start` that adds
  -- handlers: there are turns to a state in which neither can go on, the first waiting in a handler
  -- for the mutex of the endpoint, and the second, which holds it, for the mutex of the observer,
  -- whatever the two would do afterwards.
  pub opposite-Deadlock :
      (handlers : Handlers H) (events : List Event) (op : Op H) (first second : List (Op H))
      → meets_any handlers events ≡ true
      → locks_both op ≡ true
      → (k : ℕ) × (s : System) × (p : List Act) × (q : List Act) × Turns k
          (threads throws (two (proceeds handlers events ∷ first) (op ∷ second)))
          s
        × (s.rest 0 ≡ lock_endpoint ∷ p)
        × (s.rest 1 ≡ lock_unique ∷ q)
        × (thread_turn 0 s ≡ none)
        × (thread_turn 1 s ≡ none)
  unfolding thread
  opposite-Deadlock handlers events op first second found both =
      let (n, p, first_acts) = proceeds_acts handlers events (thread throws first) found in
      let (q, second_acts) = locks_both_acts op both in
      let q_all = q ++ thread throws second in
      let at_0 : At none [] (work ∷ lock_shared ∷ replicate n work ++ lock_endpoint ∷ p)
          (lock_endpoint ∷ work ∷ lock_unique ∷ q_all)
          (threads throws (two (proceeds handlers events ∷ first) (op ∷ second))) =
        record {
          endpoint_at = refl;
          readers_at = refl;
          writer_at = refl;
          first_at = first_acts;
          second_at = rw second_acts refl;
        } in
      let (s1, does_1, at_1) = first_works _ _ _ at_0 in
      let (s2, does_2, at_2) = first_reads _ _ _ at_1 in
      let (s3, does_3, at_3) = second_locks _ _ _ at_2 in
      let (s4, does_4, at_4) = second_works _ _ _ at_3 in
      let (s5, turns, at_5) = all_work n (lock_endpoint ∷ p) _ _ at_4 in
      let (waits_0, waits_1) = both_wait _ _ _ at_5 in
      (
        _,
        s5,
        p,
        q_all,
        later 0 does_1 (later 0 does_2 (later 1 does_3 (later 1 does_4 turns))),
        at_5.first_at,
        at_5.second_at,
        waits_0,
        waits_1,
      )
