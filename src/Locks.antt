-- ===== src/Locks.antt =====
-- The mutexes of an endpoint: `m_mutex` of include/endpoint/event_observer.h, which readers share, and
-- `m_mutex` of include/endpoint/client.h and server.h. An operation is the list of what it does with
-- them, with `work` for all that it does in between, and threads take turns at these steps. The
-- mutexes are those of the C++ library: a thread that asks for one waits until it can have it.
pub mod Asking
pub mod Deadlock
pub mod Finish
pub mod Order
pub mod Ordered
pub mod Progress
pub mod TwoThreads
use strongly_typed_sockets.Base.{
  ◌≡◌, ℕ, zero, suc, ◌==◌, Bool, true, false, ◌&&◌, is_none, Option, none, some, List, [], ◌∷◌,
  ◌++◌, if◌then◌else◌,
}
use strongly_typed_sockets.Utils.{enum_and}
use strongly_typed_sockets.Epoll.{Event, EventType}
use strongly_typed_sockets.Observer.{Handlers, find, handled_types}

pub data Act : Type 0 where
  work lock_endpoint unlock_endpoint lock_shared unlock_shared lock_unique unlock_unique : Act

-- A section under the mutex of the endpoint.
abbrev pub section : List Act → List Act
section body = lock_endpoint ∷ body ++ unlock_endpoint ∷ []

-- `n` calls of `add` or `remove`.
unfoldable pub registering : ℕ → List Act
registering zero = []
registering (suc n) = lock_unique ∷ work ∷ unlock_unique ∷ registering n

module _ {H : Type 0} (handlers : Handlers H) (throws : H → Event → Bool) where
  -- `handle_event(event)`: the handler of each type that the event has, each under the mutex of the
  -- endpoint, up to the first that throws.
  unfoldable pub handling : List EventType → Event → List Act
  unfolding enum_and
  handling [] event = []
  handling (tp ∷ tps) event =
      let rest = handling tps event in
      elim (find (enum_and event.type tp) handlers) [
        | none ↦ work ∷ rest
        | some h ↦ work ∷ section (work ∷ []) ++ (if throws h event then [] else rest)
      ]

  unfoldable pub handling_all : List Event → List Act
  unfolding handling
  handling_all [] = []
  handling_all (event ∷ events) = handling handled_types event ++ handling_all events

  -- `proceed`, for the events that the poll gives.
  unfoldable pub proceeding : List Event → List Act
  unfolding handling_all
  proceeding events = work ∷ lock_shared ∷ handling_all events ++ unlock_shared ∷ work ∷ []

-- The operations of an endpoint. A client adds 6 handlers and removes 5, a server adds 5 and removes 5.
-- `guarded` is a `start` that fails. `transfers` is `connect`, `recv` or `send`, which take no mutex. The
-- handlers of `proceeds` are those that it finds under the mutex of the observer; they do not change
-- while it holds it.
pub data Op (H : Type 0) : Type 0 where
  starts : (added : ℕ) → Op H
  stops destroys guarded transfers : Op H
  proceeds : Handlers H → List Event → Op H

module _ {H : Type 0} (throws : H → Event → Bool) where
  unfoldable pub op_acts : Op H → List Act
  unfolding registering proceeding
  op_acts (starts added) = section (work ∷ registering added ++ work ∷ [])
  op_acts stops = section (work ∷ registering 5)
  op_acts destroys = work ∷ registering 5
  op_acts guarded = section (work ∷ [])
  op_acts transfers = work ∷ []
  op_acts (proceeds handlers events) = proceeding handlers throws events

  -- A thread that calls these operations, one after the other.
  unfoldable pub thread : List (Op H) → List Act
  unfolding op_acts
  thread [] = []
  thread (op ∷ ops) = op_acts op ++ thread ops

-- The mutexes, with the threads that hold them, and what is left for each thread to do.
pub record System : Type 0 where
  pub endpoint : Option ℕ
  pub readers : List ℕ
  pub writer : Option ℕ
  pub rest : ℕ → List Act

abbrev pub update : (ℕ → List Act) → ℕ → List Act → ℕ → List Act
update rest i p j = if i == j then p else rest j

abbrev pub without : ℕ → List ℕ → List ℕ
without i [] = []
without i (j ∷ readers) = if i == j then without i readers else j ∷ without i readers

abbrev pub is_nil : List ℕ → Bool
is_nil [] = true
is_nil (_ ∷ _) = false

-- Thread `i` does one thing, or waits.
abbrev pub perform : Act → ℕ → System → Option System
perform work i s = some s
perform lock_endpoint i s =
    if is_none s.endpoint then some (record s { endpoint = some i }) else none
perform unlock_endpoint i s = some (record s { endpoint = none })
perform lock_shared i s =
    if is_none s.writer then some (record s { readers = i ∷ s.readers }) else none
perform unlock_shared i s = some (record s { readers = without i s.readers })
perform lock_unique i s =
    if is_none s.writer && is_nil s.readers then some (record s { writer = some i }) else none
perform unlock_unique i s = some (record s { writer = none })

unfoldable pub step_thread : List Act → ℕ → System → Option System
step_thread [] i s = none
step_thread (a ∷ p) i s = perform a i (record s { rest = update s.rest i p })

-- The turn of thread `i`: `none` if it has finished or waits.
unfoldable pub thread_turn : ℕ → System → Option System
unfolding step_thread
thread_turn i s = step_thread (s.rest i) i s

-- All threads at their start, which hold nothing.
abbrev pub at_start : (ℕ → List Act) → System
at_start rest = record { endpoint = none; readers = []; writer = none; rest = rest }

-- `k` turns of the threads, in any order, from one state to another.
pub data Turns : ℕ → System → System → Type 0 where
  start : {s : System} → Turns zero s s
  later :
      {k : ℕ} {s t u : System} (i : ℕ) → thread_turn i s ≡ some t → Turns k t u → Turns (suc k) s u
