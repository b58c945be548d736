-- ===== src/Examples/Threads.antt =====
-- Tests of the mutexes of an endpoint: a thread in `proceed` with a handler for the event that comes.
use strongly_typed_sockets.Base.{
  ℕ, ◌+◌, ◌≡◌, refl, Bool, true, false, List, drop, length, [], ◌∷◌, some, none, pos, arith,
}
use strongly_typed_sockets.Utils.{enum_and}
use strongly_typed_sockets.Epoll.{Event, read_ready}
use strongly_typed_sockets.Observer.{Handlers, find}
use strongly_typed_sockets.Client
use strongly_typed_sockets.Server
use strongly_typed_sockets.Accepted.{listening}
use strongly_typed_sockets.Examples.Starts.{connected}
use strongly_typed_sockets.Examples.Endpoints.{server_of}
use strongly_typed_sockets.Examples.Turns.{listener}
use strongly_typed_sockets.Locks.{
  Act, lock_endpoint, lock_unique, Op, guarded, stops, destroys, proceeds, proceeding, op_acts,
  thread, System, update, step_thread, thread_turn, Turns, start, later,
}
use strongly_typed_sockets.Locks.Order.{observer_first}
use strongly_typed_sockets.Locks.Finish.{Finishes, total, threads, threads-Finish}
use strongly_typed_sockets.Locks.Asking.{meets_any}
use strongly_typed_sockets.Locks.Deadlock.{two, opposite-Deadlock}

abbrev handler : Handlers ℕ
handler = (read_ready, 7) ∷ []

abbrev readable : List Event
readable = record { fd = pos 4; type = read_ready } ∷ []

abbrev never : ℕ → Event → Bool
never h event = false

-- One thread in `proceed`, the other in a `start` that fails and then in the destructor.
abbrev calls : ℕ → List (Op ℕ)
calls = two (proceeds handler readable ∷ []) (guarded ∷ destroys ∷ [])

abbrev at_first : ℕ → List Act
at_first j = thread never (calls j)

-- The first thread holds the mutex of the observer, and the second that of the endpoint.
abbrev both_in : System
both_in = record {
  endpoint = some 1;
  readers = 0 ∷ [];
  writer = none;
  rest =
      update (update (update at_first 0 (drop 1 (at_first 0))) 0 (drop 2 (at_first 0))) 1
        (drop 1 (at_first 1));
}

turns_to_both : Turns 3 (threads never calls) both_in
unfolding thread_turn step_thread thread op_acts proceeding
turns_to_both = later 0 refl (later 0 refl (later 1 refl start))

threads-Finish_example :
    (3 + total 2 both_in.rest ≡ total 2 (threads never calls).rest)
    × Finishes (total 2 both_in.rest) both_in
threads-Finish_example =
    threads-Finish never observer_first 2 calls 3 both_in (λ j. ground arith)
      (λ j far. ground (arith, far)) turns_to_both

has_handler : meets_any handler readable ≡ true
unfolding find enum_and
has_handler = refl

opposite-Deadlock_example :
    (k : ℕ) × (s : System) × (p : List Act) × (q : List Act) × Turns k
      (threads never (two (proceeds handler readable ∷ []) (stops ∷ [])))
      s
    × (s.rest 0 ≡ lock_endpoint ∷ p)
    × (s.rest 1 ≡ lock_unique ∷ q)
    × (thread_turn 0 s ≡ none)
    × (thread_turn 1 s ≡ none)
opposite-Deadlock_example = opposite-Deadlock never handler readable stops [] [] has_handler refl

-- A client registers six handlers and a server five: its `start` is `starts 6` or `starts 5`.
client_adds : length (Client.register_cbs connected).handlers ≡ 6
unfolding Client.register_cbs find
client_adds = refl

server_adds : length (Server.register_cbs (server_of (listening listener))).handlers ≡ 5
unfolding Server.register_cbs find
server_adds = refl
