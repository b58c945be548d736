-- ===== src/Observer.antt =====
-- include/endpoint/poll_traits.h, include/endpoint/event_observer.h and
-- src/endpoint/event_observer.tpp: the static adapter of a poll, and the observer that dispatches its
-- events to handlers.
pub mod Dispatch
pub mod Proceed
pub mod Selection
pub mod Outcomes
pub mod Single
pub mod Quiet
use strongly_typed_sockets.Base.{
  ℕ, ◌==◌, ℤ, Bool, true, false, not, Option, none, some, List, [], ◌∷◌, ◌++◌, if◌then◌else◌,
  is_some, is_none,
}
use mathlib.Core.List.{map}
use strongly_typed_sockets.Os.{Callback, Call, Cmd, pure, ◌>>=◌, ◌>>◌, perform}
use strongly_typed_sockets.Utils.{enum_and}
use strongly_typed_sockets.Epoll
use strongly_typed_sockets.Epoll.{
  Epoll, Event, EventType, SockOp, exception, read_ready, write_ready, peer_closed, error, hangup,
}

-- The interface of a poll.
pub record PollTraits (Poll : Type 0) : Type 0 where
  pub proceed : Poll → ℤ → Cmd (List Event)
  pub add_socket : Poll → ℤ → SockOp → Cmd Bool
  pub mod_socket : Poll → ℤ → SockOp → Cmd Bool
  pub del_socket : Poll → ℤ → Cmd Bool

-- The adapter of `epoll_t`, which has the four operations as methods.
abbrev pub epoll_traits : PollTraits Epoll
epoll_traits = record {
  proceed = Epoll.proceed;
  add_socket = Epoll.add_socket;
  mod_socket = Epoll.mod_socket;
  del_socket = Epoll.del_socket;
}

-- A pointer, plain, unique or shared, and its adapter.
pub record Ptr (Poll : Type 0) : Type 0 where
  pub pointee : Poll

abbrev pub ptr_traits : {Poll : Type 0} → PollTraits Poll → PollTraits (Ptr Poll)
ptr_traits traits = record {
  proceed = λ poll timeout. traits.proceed poll.pointee timeout;
  add_socket = λ poll sock_fd op. traits.add_socket poll.pointee sock_fd op;
  mod_socket = λ poll sock_fd op. traits.mod_socket poll.pointee sock_fd op;
  del_socket = λ poll sock_fd. traits.del_socket poll.pointee sock_fd;
}

-- What a callback or a handler throws.
pub data Exn : Type 0 where
  bad_function_call bad_variant_access : Exn
  user : Callback → Exn

-- A call of a `std::function` that may be empty.
unfoldable pub invoke : Option Callback → List ℤ → Cmd (Option Exn)
invoke none args = pure (some bad_function_call)
invoke (some k) args = do
  r ← perform (Call.invoke k args)
  pure (if r.threw then some (user k) else none)

-- `m_handlers`, a map from event types to handlers of type `H`.
abbrev pub Handlers : Type 0 → Type 0
Handlers H = List (EventType × H)

module _ {H : Type 0} where
  unfoldable pub find : EventType → Handlers H → Option H
  find e [] = none
  find e ((k, h) ∷ m) = if k == e then some h else find e m

  -- `add`, by `emplace`: a handler that is there stays.
  unfoldable pub add : EventType → H → Handlers H → Handlers H × Bool
  unfolding find
  add e h m = elim (find e m) [ some _ ↦ (m, false) | none ↦ (m ++ (e, h) ∷ [], true) ]

  unfoldable pub erase : EventType → Handlers H → Handlers H
  erase e [] = []
  erase e ((k, h) ∷ m) = if k == e then erase e m else (k, h) ∷ erase e m

  unfoldable pub remove : EventType → Handlers H → Handlers H × Bool
  unfolding find erase
  remove e m = (erase e m, is_some (find e m))

unfoldable pub add_exception : Option Exn → List Exn → List Exn
add_exception (some e) vec = vec ++ e ∷ []
add_exception none vec = vec

-- How a handler runs on the object that it captures: it changes the object, and may throw.
abbrev pub Runner : Type 0 → Type 0 → Type 0
Runner H S = H → ℤ → S → Cmd (S × Option Exn)

-- The types that `handle_event` tries, in order.
abbrev pub handled_types : List EventType
handled_types = read_ready ∷ write_ready ∷ exception ∷ hangup ∷ error ∷ peer_closed ∷ []

module _ {H S : Type 0} (run : Runner H S) (handlers : Handlers H) where
  -- `handle_event(event, tp)`: the object, whether a handler was found, and what it threw.
  unfoldable pub run_found : Option H → Event → S → Cmd (S × Bool × Option Exn)
  run_found none event s = pure (s, false, none)
  run_found (some h) event s = do (s', thrown) ← run h event.fd s; pure (s', is_none thrown, thrown)

  unfoldable pub handle_type : Event → EventType → S → Cmd (S × Bool × Option Exn)
  unfolding enum_and run_found
  handle_type event tp s = run_found (find (enum_and event.type tp) handlers) event s

  -- The body of the `try` of `handle_event(event)`, from the first type not yet tried: a throw ends
  -- it before its own `|=`.
  unfoldable pub handle_types : List EventType → Event → Bool → S → Cmd (S × Bool × Option Exn)
  handle_types [] event first s = pure (s, first, none)
  handle_types (tp ∷ tps) event first s = do
    (s', found, thrown) ← handle_type event tp s
    elim thrown [
      | some e ↦ pure (s', first, some e)
      | none ↦ handle_types tps event (if first then true else found) s'
    ]

  unfoldable pub handle_event : Event → S → Cmd (S × Bool × Option Exn)
  unfolding handle_types
  handle_event event s = handle_types handled_types event false s

  -- The loop of `proceed`: the object, the events not handled and the exceptions, in order.
  unfoldable pub handle_events :
      List Event → List Event → List Exn → S → Cmd (S × List Event × List Exn)
  unfolding handle_event add_exception
  handle_events [] unhandled exceptions s = pure (s, unhandled, exceptions)
  handle_events (event ∷ events) unhandled exceptions s = do
    (s', first, thrown) ← handle_event event s
    handle_events events (if first then unhandled else unhandled ++ event ∷ [])
        (add_exception thrown exceptions) s'

-- The events as the arguments of a callback: descriptor and type of each.
abbrev pub event_args : List Event → List ℤ
event_args [] = []
event_args (e ∷ es) = e.fd ∷ ℤ.pos e.type ∷ event_args es

unfoldable pub handle_unhandled : Option Callback → List Event → Cmd (Option Exn)
unfolding invoke
handle_unhandled none events = pure none
handle_unhandled (some k) events = invoke (some k) (event_args events)

pub data Proceeded : Type 0 where
  returned : Bool → Proceeded
  proceed_exception : List Exn → Proceeded

module _ {H S Poll : Type 0} (traits : PollTraits Poll) (run : Runner H S) where
  -- What `proceed` does with the events of the poll.
  unfoldable pub dispatch : Handlers H → Option Callback → List Event → S → Cmd (S × Proceeded)
  unfolding handle_events handle_unhandled
  dispatch handlers m_unhandled events s = do
    (s', unhandled, thrown) ← handle_events run handlers events [] [] s
    last ← handle_unhandled m_unhandled unhandled
    let exceptions = add_exception last thrown
    pure (
      s',
      elim exceptions [
        | [] ↦ returned (elim events [ [] ↦ false | _ ∷ _ ↦ true ])
        | e ∷ es ↦ proceed_exception (e ∷ es)
      ],
    )

  unfoldable pub proceed : Poll → Handlers H → Option Callback → ℤ → S → Cmd (S × Proceeded)
  unfolding dispatch
  proceed poll handlers m_unhandled timeout s = do
    events ← traits.proceed poll timeout
    dispatch handlers m_unhandled events s
