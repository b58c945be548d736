-- ===== src/Client/Reactions/Proceeding.antt =====
-- src/endpoint/client.tpp: `proceed` of a client that `register_cbs` has registered.

use strongly_typed_sockets.Base.{
  ◌≡◌, refl, ◌∙◌, ap, ℤ, ◌==ℤ◌, Bool, true, false, not, Option, none, some, List, [], ◌∷◌, ◌++◌,
  inl, inr, Bool-cases, if◌then◌else◌, ◌==◌, bit_and,
}
use strongly_typed_sockets.Os.{World, Callback, perform, ok}
use strongly_typed_sockets.Epoll
use strongly_typed_sockets.Epoll.{
  Event, EventType, Epoll, exception, hangup, error, peer_closed, no_event, ctl_del, read_ready,
  write_ready,
}
use strongly_typed_sockets.Observer.{
  Handlers, epoll_traits, event_args, find, handled_types, returned,
}
use strongly_typed_sockets.Observer.Proceed.{is_nil}
use strongly_typed_sockets.Observer.Selection.{selected, run_all}
use strongly_typed_sockets.Observer.Outcomes.{
  Outcome, told, unhandled_of, thrown_of, outcomes, call_unhandled, proceed-dispatched,
}
use strongly_typed_sockets.Client
use strongly_typed_sockets.Client.{
  Client, Handler, erase, on_readable, on_writable, state_fd, run_erase, run_on_readable,
  run_on_writable, run_handler, register_cbs,
}
use strongly_typed_sockets.Client.Reactions.{
  AllCalm, calls_of, after_all, has_one, reacts_to, reacts_to_all, typeless,
}
use strongly_typed_sockets.Client.Registration.{wanted, register_cbs_lem}
use strongly_typed_sockets.Client.Reactions.Handling.{
  after_all-append, after_all-AllCalm, reacts-Same, Does, AllDo, on_readable-Does, on_writable-Does,
  erase-Does, run_all-reacts, or_false, or_true,
}

module _ (handlers : Handlers Handler) where
  run_handler-other :
      (h : Handler) (fd : ℤ) (c : Client Epoll) (w : World)
      → (fd ==ℤ state_fd c.state) ≡ false
      → run_handler epoll_traits h fd c w ≡ ok (c, none) w
  unfolding run_handler run_erase run_on_readable run_on_writable
  run_handler-other erase fd c w other = rw other refl
  run_handler-other on_readable fd c w other = rw other refl
  run_handler-other on_writable fd c w other = rw other refl

  run_all-other :
      (tps : List EventType) (event : Event) (first : Bool) (c : Client Epoll) (w : World)
      → AllDo handlers tps
      → (event.fd ==ℤ state_fd c.state) ≡ false
      → run_all
          (run_handler epoll_traits)
          handlers
          (selected (run_handler epoll_traits) handlers tps event.type)
          event
          first
          c
          w
        ≡ ok (c, (if first then true else has_one tps event.type), none) w
  run_all-other [] event first c w does other = ap (λ b. ok (c, b, none) w) (or_false first)
  run_all-other (tp ∷ tps) event first c w does other =
      elim (Bool-cases (bit_and event.type tp == 0)) [
        | inl clear ↦ rw clear (run_all-other tps event first c w does.1 other)
        | inr set ↦
            rw (set, does.0.1, run_handler-other does.0.0 event.fd c w other)
              (run_all-other tps event true c w does.1 other
                ∙ ap (λ b. ok (c, b, none) w) (or_true first))
      ]

  run_all-reacts_to :
      (event : Event) (c : Client Epoll) (w : World)
      → AllDo handlers handled_types
      → (k : Callback) → c.m_on_read_ready ≡ some k
      → AllCalm w
      → run_all
          (run_handler epoll_traits)
          handlers
          (selected (run_handler epoll_traits) handlers handled_types event.type)
          event
          false
          c
          w
        ≡ ok
            ((reacts_to event c).0, has_one handled_types event.type, none)
            (after_all w (reacts_to event c).1)
  run_all-reacts_to event c w does k reads calm =
      elim (Bool-cases (event.fd ==ℤ state_fd c.state)) [
        | inl own ↦
            rw own (run_all-reacts handlers handled_types event false c w does own k reads calm)
        | inr other ↦ rw other (run_all-other handled_types event false c w does other)
      ]

  -- What the handlers of these events come to.
  abbrev settled : List Event → List Outcome
  settled [] = []
  settled (event ∷ events) = (event, has_one handled_types event.type, none) ∷ settled events

  unhandled_of-settled : (events : List Event) → unhandled_of (settled events) ≡ typeless events
  unhandled_of-settled [] = refl
  unhandled_of-settled (event ∷ events) = elim (Bool-cases (has_one handled_types event.type)) [
    | inl some_type ↦ rw some_type (unhandled_of-settled events)
    | inr no_type ↦ rw no_type (ap (λ es. event ∷ es) (unhandled_of-settled events))
  ]

  thrown_of-settled : (events : List Event) → thrown_of (settled events) ≡ []
  thrown_of-settled [] = refl
  thrown_of-settled (event ∷ events) = thrown_of-settled events

  reacts_to-reads :
      (event : Event) (c : Client Epoll) → (reacts_to event c).0.m_on_read_ready ≡ c.m_on_read_ready
  reacts_to-reads event c = elim (Bool-cases (event.fd ==ℤ state_fd c.state)) [
    | inl own ↦ rw own (reacts-Same handled_types event.type event.fd c).1
    | inr other ↦ rw other refl
  ]

  outcomes-reacts_to_all :
      (events : List Event) (c : Client Epoll) (w : World)
      → AllDo handlers handled_types
      → (k : Callback) → c.m_on_read_ready ≡ some k
      → AllCalm w
      → outcomes (run_handler epoll_traits) handlers events c w
        ≡ ok ((reacts_to_all events c).0, settled events) (after_all w (reacts_to_all events c).1)
  outcomes-reacts_to_all [] c w does k reads calm = refl
  outcomes-reacts_to_all (event ∷ events) c w does k reads calm =
      let (c', calls) = reacts_to event c in
      rw
        (
          run_all-reacts_to event c w does k reads calm,
          outcomes-reacts_to_all events c' (after_all w calls) does k
              (reacts_to-reads event c ∙ reads) (after_all-AllCalm calls w calm),
          after_all-append w calls (reacts_to_all events c').1,
        )
        refl

call_unhandled-calm :
    (o : Option Callback) (events : List Event) (w : World)
    → AllCalm w
    → call_unhandled o events w ≡ ok none (after_all w (calls_of o (event_args events)))
unfolding perform
call_unhandled-calm none events w calm = refl
call_unhandled-calm (some k) events w calm = rw (calm w.trace k (event_args events)) refl

register_cbs-wanted :
    (e : EventType) (c : Client Epoll)
    → c.handlers ≡ []
    → find e (register_cbs c).handlers ≡ wanted e
unfolding find
register_cbs-wanted e c empty = rw (register_cbs_lem e c, empty) refl

register_cbs-erase :
    (e : EventType) (c : Client Epoll)
    → c.handlers ≡ []
    → (e == read_ready) ≡ false
    → (e == write_ready) ≡ false
    → wanted e ≡ some erase
    → (h : Handler) × (find e (register_cbs c).handlers ≡ some h) × Does e h
register_cbs-erase e c empty r w ends =
    (erase, register_cbs-wanted e c empty ∙ ends, erase-Does e r w)

register_cbs-AllDo :
    (c : Client Epoll) → c.handlers ≡ [] → AllDo (register_cbs c).handlers handled_types
register_cbs-AllDo c empty = (
  (on_readable, register_cbs-wanted read_ready c empty, on_readable-Does),
  (
    (on_writable, register_cbs-wanted write_ready c empty, on_writable-Does),
    (
      register_cbs-erase exception c empty refl refl refl,
      (
        register_cbs-erase hangup c empty refl refl refl,
        (
          register_cbs-erase error c empty refl refl refl,
          (register_cbs-erase peer_closed c empty refl refl refl, tt),
        ),
      ),
    ),
  ),
)

told-nil : (events : List Event) → told [] events ≡ returned (not (is_nil events))
told-nil [] = refl
told-nil (_ ∷ _) = refl

-- For a client whose handlers are those that `register_cbs` adds to none, with a callback for
-- reading, an epoll that gives `events`, and callbacks that do not throw: `proceed` is defined and
-- gives back whether there was an event. The calls that it makes are, event by event and in order:
-- nothing for a descriptor other than the client's; else the callback for reading where the event
-- can be read; `on_connect`, if there is one, where it can be written; and for each of exception,
-- hangup, error and the peer's close that it has, one `epoll_ctl` that takes the descriptor off the
-- epoll and then `on_disconnect`, if there is one. Last comes one call of the callback for
-- unhandled events, if there is one, with the events of none of the six types. `on_connect` and
-- `on_disconnect` are forgotten as they are called, so later events of the same poll call them no
-- more, and the client is else as it was.
pub proceed-reactions :
    (c0 c : Client Epoll) (timeout : ℤ) (events : List Event) (k : Callback) (w w1 : World)
    → c0.handlers ≡ []
    → c.handlers ≡ (register_cbs c0).handlers
    → c.m_on_read_ready ≡ some k
    → Epoll.proceed c.poll timeout w ≡ ok events w1
    → AllCalm w1
    → Client.proceed epoll_traits timeout c w
      ≡ ok
          ((reacts_to_all events c).0, returned (not (is_nil events)))
          (after_all w1
            ((reacts_to_all events c).1 ++ calls_of c.m_unhandled (event_args (typeless events))))
unfolding Client.proceed
proceed-reactions c0 c timeout events k w w1 empty registered reads polls calm =
    let does : AllDo c.handlers handled_types = rw registered (register_cbs-AllDo c0 empty) in
    let (c', calls) = reacts_to_all events c in
    rw
      (
        proceed-dispatched (run_handler epoll_traits) c.handlers epoll_traits c.poll c.m_unhandled
            timeout c w (rw registered (register_cbs-wanted no_event c0 empty)),
        polls,
        outcomes-reacts_to_all c.handlers events c w1 does k reads calm,
        unhandled_of-settled c.handlers events,
        call_unhandled-calm c.m_unhandled (typeless events) (after_all w1 calls)
            (after_all-AllCalm calls w1 calm),
        thrown_of-settled c.handlers events,
        after_all-append w1 calls (calls_of c.m_unhandled (event_args (typeless events))),
      )
      (ap
        (λ r.
          ok (c', r)
            (after_all (after_all w1 calls)
              (calls_of c.m_unhandled (event_args (typeless events)))))
        (told-nil events))
