-- ===== src/Examples/Polls.antt =====
-- Tests of src/epoll and of src/endpoint/event_observer.tpp: flags, polling, and the handlers of an
-- event.
use strongly_typed_sockets.Base.{ℕ, ◌+◌, ◌≡◌, refl, ℤ, pos, minus_one, true, false, some, [], ◌∷◌}
use strongly_typed_sockets.Os.{and_then, Callback, pure, ◌>>=◌}
use strongly_typed_sockets.Epoll.{
  Epoll, Event, event_type_from_flags, peer_closed, read_ready, exchange, move_epoll, assign_epoll,
}
use strongly_typed_sockets.Epoll.Flags.{event_sum, event_type_from_flags-sum}
use strongly_typed_sockets.Observer
use strongly_typed_sockets.Observer.{
  PollTraits, Handlers, Runner, find, invoke, handle_event, handled_types,
}
use strongly_typed_sockets.Observer.Outcomes.{dispatched, proceed-dispatched}
use strongly_typed_sockets.Observer.Selection.{selected, run_all, handle_event-run_all}
use strongly_typed_sockets.Examples.World.{before}

-- A handler is a callback, and the state counts the handlers that have run.
abbrev run : Runner Callback ℕ
run k fd n = do thrown ← invoke (some k) (fd ∷ []); pure (1 + n, thrown)

abbrev handlers : Handlers Callback
handlers = (read_ready, 20) ∷ (peer_closed, 21) ∷ []

abbrev event : Event
event = record { fd = pos 3; type = 10 }

event_type_from_flags-sum_example : event_type_from_flags 17 ≡ event_sum 17
event_type_from_flags-sum_example = event_type_from_flags-sum 17

handle_event-run_all_example :
    handle_event run handlers event 0 before
    ≡ run_all run handlers (selected run handlers handled_types 10) event false 0 before
unfolding find
handle_event-run_all_example = handle_event-run_all run handlers event 0 before refl

-- A poll that gives two events, of which the second is none of the six types.
abbrev two : PollTraits ℕ
two = record {
  proceed = λ poll timeout. pure (event ∷ record { fd = pos 4; type = 0 } ∷ []);
  add_socket = λ poll fd op. pure true;
  mod_socket = λ poll fd op. pure true;
  del_socket = λ poll fd. pure true;
}

proceed-dispatched_example :
    Observer.proceed two run 0 handlers (some 30) (pos 0) 0 before
    ≡ and_then (two.proceed 0 (pos 0) before) (λ events. dispatched run handlers (some 30) events 0)
unfolding find
proceed-dispatched_example = proceed-dispatched run handlers two 0 (some 30) (pos 0) 0 before refl

-- An epoll that is assigned over loses its descriptor, unless it is assigned to itself.
abbrev poll_of : ℤ → Epoll
poll_of fd = record { m_fd = fd; m_max_events = 2 }

assigned :
    assign_epoll false (poll_of (pos 5)) (poll_of (pos 6))
    ≡ (poll_of (pos 6), record { m_fd = minus_one; m_max_events = 0 })
unfolding exchange
assigned = refl

assigned_itself :
    assign_epoll true (poll_of (pos 5)) (poll_of (pos 5)) ≡ (poll_of (pos 5), poll_of (pos 5))
assigned_itself = refl

moved_out : move_epoll (poll_of (pos 5)) ≡ assign_epoll false (poll_of (pos 7)) (poll_of (pos 5))
moved_out = refl
