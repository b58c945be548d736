-- ===== src/Observer/Single.antt =====
-- src/endpoint/event_observer.tpp: `proceed` where the poll gives one event for one handler.
use strongly_typed_sockets.Base.{◌≡◌, refl, true, none, [], ◌∷◌}
use strongly_typed_sockets.Os.{World, ok}
use strongly_typed_sockets.Epoll.{Event, no_event}
use strongly_typed_sockets.Observer.{
  PollTraits, Handlers, Runner, find, handled_types, handle_events, handle_unhandled, add_exception,
  dispatch, returned,
}
use strongly_typed_sockets.Observer.Selection.{selected, handle_event-run_all}

module _ {H S : Type 0} (run : Runner H S) (handlers : Handlers H) where
  -- One event for one handler, which throws nothing: `dispatch` is the run of that handler.
  pub dispatch-one :
      {Poll : Type 0} (traits : PollTraits Poll) (h : H) (event : Event) (s s' : S) (w w' : World)
      → find no_event handlers ≡ none
      → selected run handlers handled_types event.type ≡ h ∷ []
      → run h event.fd s w ≡ ok (s', none) w'
      → dispatch traits run handlers none (event ∷ []) s w ≡ ok (s', returned true) w'
  unfolding dispatch handle_events handle_unhandled add_exception
  dispatch-one traits h event s s' w w' n chosen runs =
      rw (handle_event-run_all run handlers event s w n, chosen, runs) refl
