-- ===== src/Observer/Outcomes.antt =====
-- src/endpoint/event_observer.tpp: `proceed` against an independent description, by what the handlers of
-- each event come to.
use mathlib.Core.List.{append_assoc, append-nil}
use strongly_typed_sockets.Base.{
  ◌≡◌, refl, ◌∙◌, ℤ, Bool, true, false, Option, none, some, List, [], ◌∷◌, ◌++◌, if◌then◌else◌, sym,
}
use strongly_typed_sockets.Os.{
  World, Run, Call, Callback, Cmd, ok, undefined, pure, perform, ◌>>=◌, and_then,
}
use strongly_typed_sockets.Os.Returns.{and_then-ap, and_then_assoc}
use strongly_typed_sockets.Epoll.{Event, no_event}
use strongly_typed_sockets.Observer.{
  PollTraits, Exn, user, Handlers, Runner, Proceeded, returned, proceed_exception, find, invoke,
  handled_types, handle_events, add_exception, event_args, handle_unhandled, dispatch, proceed,
}
use strongly_typed_sockets.Observer.Selection.{selected, run_all, handle_event-run_all}

-- An event, whether one of its handlers came to an end, and what one of them threw.
abbrev pub Outcome : Type 0
Outcome = Event × Bool × Option Exn

abbrev pub unhandled_of : List Outcome → List Event
unhandled_of [] = []
unhandled_of ((event, true, thrown) ∷ os) = unhandled_of os
unhandled_of ((event, false, thrown) ∷ os) = event ∷ unhandled_of os

abbrev pub thrown_of : List Outcome → List Exn
thrown_of [] = []
thrown_of ((event, handled, none) ∷ os) = thrown_of os
thrown_of ((event, handled, some e) ∷ os) = e ∷ thrown_of os

abbrev pub listed : Option Exn → List Exn
listed none = []
listed (some e) = e ∷ []

-- What the caller gets: the exceptions, and without any whether there was an event.
abbrev pub told : List Exn → List Event → Proceeded
told (e ∷ es) events = proceed_exception (e ∷ es)
told [] [] = returned false
told [] (event ∷ events) = returned true

-- One call of the callback, if there is one, with all events that no handler has handled.
abbrev pub call_unhandled : Option Callback → List Event → Cmd (Option Exn)
call_unhandled none events = pure none
call_unhandled (some k) events = do
  r ← perform (Call.invoke k (event_args events))
  pure (if r.threw then some (user k) else none)

module _ {H S : Type 0} (run : Runner H S) (handlers : Handlers H) where
  -- The events one after the other, each with the handlers of the types that it has.
  abbrev pub outcomes : List Event → S → Cmd (S × List Outcome)
  outcomes [] s = pure (s, [])
  outcomes (event ∷ events) s = do
    (s', handled, thrown) ←
        run_all run handlers (selected run handlers handled_types event.type) event false s
    (s'', os) ← outcomes events s'
    pure (s'', (event, handled, thrown) ∷ os)

  abbrev pub dispatched : Option Callback → List Event → S → Cmd (S × Proceeded)
  dispatched m_unhandled events s = do
    (s', os) ← outcomes events s
    last ← call_unhandled m_unhandled (unhandled_of os)
    pure (s', told (thrown_of os ++ listed last) events)

  unhandled-cons :
      (un : List Event) (event : Event) (handled : Bool) (thrown : Option Exn) (os : List Outcome)
      → (if handled then un else un ++ event ∷ []) ++ unhandled_of os
        ≡ un ++ unhandled_of ((event, handled, thrown) ∷ os)
  unhandled-cons un event true thrown os = refl
  unhandled-cons un event false thrown os = append_assoc un (event ∷ []) (unhandled_of os)

  add_exception-listed : (o : Option Exn) (vec : List Exn) → add_exception o vec ≡ vec ++ listed o
  unfolding add_exception
  add_exception-listed none vec = sym (append-nil vec)
  add_exception-listed (some e) vec = refl

  thrown-cons :
      (ex : List Exn) (event : Event) (handled : Bool) (thrown : Option Exn) (os : List Outcome)
      → add_exception thrown ex ++ thrown_of os ≡ ex ++ thrown_of ((event, handled, thrown) ∷ os)
  unfolding add_exception
  thrown-cons ex event handled none os = refl
  thrown-cons ex event handled (some e) os = append_assoc ex (e ∷ []) (thrown_of os)

  handle_events-outcomes :
      (events un : List Event) (ex : List Exn) (s : S) (w : World)
      → find no_event handlers ≡ none
      → handle_events run handlers events un ex s w
        ≡ and_then
            (outcomes events s w)
            (λ r. pure (r.0, un ++ unhandled_of r.1, ex ++ thrown_of r.1))
  unfolding handle_events
  handle_events-outcomes [] un ex s w n = rw (append-nil un, append-nil ex) refl
  handle_events-outcomes (event ∷ events) un ex s w n =
      rw (handle_event-run_all run handlers event s w n) (
        go (run_all run handlers (selected run handlers handled_types event.type) event false s w)
          (λ un' ex' s' w'. handle_events-outcomes events un' ex' s' w' n))
    where
      code : S × Bool × Option Exn → Cmd (S × List Event × List Exn)
      code p =
          handle_events run handlers events (if p.1 then un else un ++ event ∷ [])
            (add_exception p.2 ex) p.0

      spec : S × Bool × Option Exn → Cmd (S × List Outcome)
      spec p = do (s'', os) ← outcomes events p.0; pure (s'', (event, p.1, p.2) ∷ os)

      go :
          (r : Run (S × Bool × Option Exn))
          → ((un : List Event) (ex : List Exn) (s : S) (w : World)
              → handle_events run handlers events un ex s w
                ≡ and_then
                    (outcomes events s w)
                    (λ r. pure (r.0, un ++ unhandled_of r.1, ex ++ thrown_of r.1)))
          → and_then r code
            ≡ and_then
                (and_then r spec)
                (λ r. pure (r.0, un ++ unhandled_of r.1, ex ++ thrown_of r.1))
      go undefined rest = refl
      go (ok (s', handled, thrown) w') rest =
          rest _ _ s' w'
          ∙ and_then-ap (outcomes events s' w') _ _ (λ r v.
            rw (unhandled-cons un event handled thrown r.1, thrown-cons ex event handled thrown r.1)
              refl)
          ∙ sym (and_then_assoc (outcomes events s' w') _ _)

  handle_unhandled-call :
      (o : Option Callback) (events : List Event) (w : World)
      → handle_unhandled o events w ≡ call_unhandled o events w
  unfolding handle_unhandled invoke
  handle_unhandled-call none events w = refl
  handle_unhandled-call (some k) events w = refl

  told_lem :
      (exceptions : List Exn) (events : List Event)
      → elim exceptions [
        | [] ↦ returned (elim events [ [] ↦ false | _ ∷ _ ↦ true ])
        | e ∷ es ↦ proceed_exception (e ∷ es)
      ]
        ≡ told exceptions events
  told_lem [] [] = refl
  told_lem [] (_ ∷ _) = refl
  told_lem (_ ∷ _) events = refl

  dispatch-dispatched :
      {Poll : Type 0} (traits : PollTraits Poll) (m_unhandled : Option Callback)
      (events : List Event) (s : S) (w : World)
      → find no_event handlers ≡ none
      → dispatch traits run handlers m_unhandled events s w ≡ dispatched m_unhandled events s w
  unfolding dispatch
  dispatch-dispatched traits m_unhandled events s w n =
      rw (handle_events-outcomes events [] [] s w n) (
        and_then_assoc (outcomes events s w) _ _
        ∙ and_then-ap (outcomes events s w) _ _ λ r v.
          rw (handle_unhandled-call m_unhandled (unhandled_of r.1) v) (
            and_then-ap (call_unhandled m_unhandled (unhandled_of r.1) v) _ _ λ last u.
              rw
                (
                  add_exception-listed last (thrown_of r.1),
                  told_lem (thrown_of r.1 ++ listed last) events,
                )
                refl))

  -- Where no handler is registered for the empty type: `proceed` does the same as this. It runs,
  -- for the events of the poll in order, the handlers of the types that each event has, up to the
  -- first that throws. Then the callback for unhandled events, if there is one, is called once,
  -- with the events of which no handler came to an end, in order. If a handler or that callback
  -- threw, the caller gets just these exceptions, in order, and else whether there was an event.
  pub proceed-dispatched :
      {Poll : Type 0} (traits : PollTraits Poll) (poll : Poll) (m_unhandled : Option Callback)
      (timeout : ℤ) (s : S) (w : World)
      → find no_event handlers ≡ none
      → proceed traits run poll handlers m_unhandled timeout s w
        ≡ and_then (traits.proceed poll timeout w) (λ events. dispatched m_unhandled events s)
  unfolding proceed
  proceed-dispatched traits poll m_unhandled timeout s w n =
      and_then-ap (traits.proceed poll timeout w) _ _
        λ events v. dispatch-dispatched traits m_unhandled events s v n
