-- ===== src/Client/Reactions.antt =====
-- src/endpoint/client.tpp: what `proceed` does with the events of a client, as the list of the calls
-- that it makes.
pub mod Handling
pub mod Proceeding
use mathlib.Core.List.{append_assoc, append-nil}
use strongly_typed_sockets.Base.{
  ◌≡◌, refl, ◌∙◌, ap, ℤ, ◌==ℤ◌, Bool, true, false, not, Option, none, some, List, [], ◌∷◌, ◌++◌,
  inl, inr, Bool-cases, Option-cases, if◌then◌else◌, arith, ◌==◌, bit_and,
}
use strongly_typed_sockets.Os.{World, Trace, Call, Callback, perform, after, ok, and_then}
use strongly_typed_sockets.Epoll
use strongly_typed_sockets.Epoll.{Event, EventType, Epoll, ctl_del, read_ready, write_ready}
use strongly_typed_sockets.Observer.{
  Exn, Handlers, invoke, epoll_traits, event_args, find, handled_types, returned,
}
use strongly_typed_sockets.Observer.Proceed.{is_nil}
use strongly_typed_sockets.Observer.Selection.{selected, run_all}
use strongly_typed_sockets.Observer.Outcomes.{
  Outcome, unhandled_of, thrown_of, outcomes, dispatched, call_unhandled, proceed-dispatched,
}
use strongly_typed_sockets.Client
use strongly_typed_sockets.Client.{
  Client, Handler, erase, on_readable, on_writable, state_fd, run_erase, run_on_readable,
  run_on_writable, run_handler, register_cbs,
}

-- No callback throws.
abbrev pub AllCalm : World → Type 0
AllCalm w =
    (t : Trace) (k : Callback) (args : List ℤ) → (w.env t (Call.invoke k args)).threw ≡ false

-- The call of a callback, if there is one.
abbrev pub calls_of : Option Callback → List ℤ → List Call
calls_of none args = []
calls_of (some k) args = Call.invoke k args ∷ []

-- The world after these calls.
abbrev pub after_all : World → List Call → World
after_all w [] = w
after_all w (c ∷ cs) = after_all (after w c) cs

-- What an event of the type `tp` for the client's own descriptor does: the client afterwards, and the
-- calls, in order.
abbrev pub reaction : EventType → ℤ → Client Epoll → Client Epoll × List Call
reaction tp fd c =
    if tp == read_ready
    then (c, calls_of c.m_on_read_ready [])
    else if tp == write_ready
    then (record c { m_on_connect = none }, calls_of c.m_on_connect [])
    else (
      record c { m_on_disconnect = none },
      Call.epoll_ctl c.poll.m_fd ctl_del fd none ∷ calls_of c.m_on_disconnect [],
    )

abbrev pub reacts : List EventType → EventType → ℤ → Client Epoll → Client Epoll × List Call
reacts [] type fd c = (c, [])
reacts (tp ∷ tps) type fd c = if bit_and type tp == 0 then reacts tps type fd c else (
  (reacts tps type fd (reaction tp fd c).0).0,
  (reaction tp fd c).1 ++ (reacts tps type fd (reaction tp fd c).0).1,
)

-- Whether an event has one of the types.
abbrev pub has_one : List EventType → EventType → Bool
has_one [] type = false
has_one (tp ∷ tps) type = if bit_and type tp == 0 then has_one tps type else true

-- Events for other descriptors does nothing.
abbrev pub reacts_to : Event → Client Epoll → Client Epoll × List Call
reacts_to event c =
    if event.fd ==ℤ state_fd c.state then reacts handled_types event.type event.fd c else (c, [])

abbrev pub reacts_to_all : List Event → Client Epoll → Client Epoll × List Call
reacts_to_all [] c = (c, [])
reacts_to_all (event ∷ events) c = (
  (reacts_to_all events (reacts_to event c).0).0,
  (reacts_to event c).1 ++ (reacts_to_all events (reacts_to event c).0).1,
)

-- The events of none of the six types.
abbrev pub typeless : List Event → List Event
typeless [] = []
typeless (event ∷ events) =
    if has_one handled_types event.type then typeless events else event ∷ typeless events
