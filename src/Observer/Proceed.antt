-- ===== src/Observer/Proceed.antt =====
-- src/endpoint/event_observer.tpp: `proceed` for invariants of the handlers, and what it tells its
-- caller.
use strongly_typed_sockets.Base.{
  not, ◌+◌, ◌≤◌, ◌≡◌, refl, ℤ, Bool, true, false, Option, none, some, List, [], ◌∷◌, ◌++◌, inl, inr,
  Option-cases, if◌then◌else◌, length, length-append, arith,
}
use strongly_typed_sockets.Os.{World, Call, Callback, perform, after}
use strongly_typed_sockets.Os.Returns.{Returns, returns, Returns-bind, mono}
use strongly_typed_sockets.Epoll.{Event, EventType}
use strongly_typed_sockets.Observer.{
  PollTraits, Exn, Handlers, Runner, invoke, handle_type, handle_types, handle_event, handled_types,
  handle_events, add_exception, event_args, handle_unhandled, Proceeded, returned,
  proceed_exception, dispatch, proceed, run_found,
}

module _ {H S : Type 0} (run : Runner H S) (handlers : Handlers H) (P : S → World → Type 0)
    (keeps : (h : H) (fd : ℤ) (s : S) (w : World)
      → P s w
      → Returns (λ r w'. P r.0 w') (run h fd s w)) where
  run_found-keeps :
      (o : Option H) (event : Event) (s : S) (w : World)
      → P s w
      → Returns (λ r w'. P r.0 w') (run_found run handlers o event s w)
  unfolding run_found
  run_found-keeps none event s w p = returns p
  run_found-keeps (some h) event s w p = Returns-bind (keeps h event.fd s w p) λ r w' p'. returns p'

  handle_type-keeps :
      (event : Event) (tp : EventType) (s : S) (w : World)
      → P s w
      → Returns (λ r w'. P r.0 w') (handle_type run handlers event tp s w)
  unfolding handle_type
  handle_type-keeps event tp s w p = run_found-keeps _ event s w p

  handle_types-keeps :
      (tps : List EventType) (event : Event) (first : Bool) (s : S) (w : World)
      → P s w
      → Returns (λ r w'. P r.0 w') (handle_types run handlers tps event first s w)
  unfolding handle_types
  handle_types-keeps [] event first s w p = returns p
  handle_types-keeps (tp ∷ tps) event first s w p =
      Returns-bind (handle_type-keeps event tp s w p) λ r w' p'. elim (Option-cases r.2) [
        | inl calm ↦ rw calm (handle_types-keeps tps event _ r.0 w' p')
        | inr (e, thrown) ↦ rw thrown (returns p')
      ]

  -- Besides the invariant: each event adds at most one exception and at most one unhandled event, and
  -- the unhandled events are among those given, in order.
  abbrev pub Kept : List Event → List Event → List Exn → S × List Event × List Exn → World → Type 0
  Kept events unhandled exceptions r w =
      P r.0 w
      × (length r.1 ≤ length unhandled + length events)
      × (length exceptions ≤ length r.2)
      × (length r.2 ≤ length exceptions + length events)

  length-add_exception :
      (o : Option Exn) (vec : List Exn)
      → (length vec ≤ length (add_exception o vec))
        × (length (add_exception o vec) ≤ length vec + 1)
  unfolding add_exception
  length-add_exception none vec = (omega arith, omega arith)
  length-add_exception (some e) vec =
      (omega (arith, length-append {0} vec (e ∷ [])), omega (arith, length-append {0} vec (e ∷ [])))

  length-push :
      (b : Bool) (e : Event) (vec : List Event)
      → length (if b then vec else vec ++ e ∷ []) ≤ length vec + 1
  length-push true e vec = omega arith
  length-push false e vec = omega (arith, length-append {0} vec (e ∷ []))

  handle_events-keeps :
      (events unhandled : List Event) (exceptions : List Exn) (s : S) (w : World)
      → P s w
      → Returns
          (Kept events unhandled exceptions)
          (handle_events run handlers events unhandled exceptions s w)
  unfolding handle_events handle_event
  handle_events-keeps [] unhandled exceptions s w p =
      returns (p, omega arith, omega arith, omega arith)
  handle_events-keeps (event ∷ events) unhandled exceptions s w p =
      Returns-bind (handle_types-keeps handled_types event false s w p) λ r w' p'.
        let seen = length-add_exception r.2 exceptions in
        let pushed = length-push r.1 event unhandled in
        mono (handle_events-keeps events _ _ r.0 w' p') λ q w'' k.
          (k.0, omega (arith, k.1, pushed), omega (arith, k.2, seen.0), omega (arith, k.3, seen.1))

abbrev pub is_nil {ℓ} : {A : Type ℓ} → List A → Bool
is_nil [] = true
is_nil (_ ∷ _) = false

-- What `proceed` tells its caller: whether there was an event, or at least one exception and at most
-- one more than there were events.
abbrev pub Reported : List Event → Proceeded → Type 0
Reported events (returned b) = b ≡ not (is_nil events)
Reported events (proceed_exception es) = (1 ≤ length es) × (length es ≤ length events + 1)

module _ {H S Poll : Type 0} (traits : PollTraits Poll) (run : Runner H S) (handlers : Handlers H)
    (m_unhandled : Option Callback) (P : S → World → Type 0)
    (keeps : (h : H) (fd : ℤ) (s : S) (w : World)
      → P s w
      → Returns (λ r w'. P r.0 w') (run h fd s w))
    (calls : (k : Callback) (args : List ℤ) (s : S) (w : World)
      → m_unhandled ≡ some k
      → P s w
      → P s (after w (Call.invoke k args))) where
  handle_unhandled-keeps :
      (o : Option Callback) (events : List Event) (s : S) (w : World)
      → m_unhandled ≡ o
      → P s w
      → Returns (λ r w'. P s w') (handle_unhandled o events w)
  unfolding handle_unhandled invoke perform
  handle_unhandled-keeps none events s w e p = returns p
  handle_unhandled-keeps (some k) events s w e p = returns (calls k (event_args events) s w e p)

  -- For an invariant that every handler keeps, with defined behaviour and whether it throws or not,
  -- and that a call of the callback for unhandled events keeps: `dispatch` of any events is defined
  -- and keeps it. It gives back whether there was an event, or hands over at least one exception
  -- and at most one more than there were events.
  pub dispatch-keeps :
      (events : List Event) (s : S) (w : World)
      → P s w
      → Returns
          (λ r w'. P r.0 w' × Reported events r.1)
          (dispatch traits run handlers m_unhandled events s w)
  unfolding dispatch
  dispatch-keeps events s w p =
      Returns-bind (handle_events-keeps run handlers P keeps events [] [] s w p) λ r w' k.
        Returns-bind (handle_unhandled-keeps m_unhandled r.1 r.0 w' refl k.0) λ last w'' p''.
          returns (
            p'',
            report events (add_exception last r.2)
                (omega (arith, length-add_exception run handlers P keeps last r.2, k.3)),
          )
    where
      report :
          (events : List Event) (es : List Exn)
          → length es ≤ length events + 1
          → Reported events (elim es [
            | [] ↦ returned (elim events [ [] ↦ false | _ ∷ _ ↦ true ])
            | e ∷ es ↦ proceed_exception (e ∷ es)
          ])
      report [] [] h = refl
      report (e ∷ es) [] h = refl
      report [] (e ∷ es) h = (omega arith, h)
      report (ev ∷ evs) (e ∷ es) h = (omega arith, h)

  -- The same of `proceed`, for the events that the poll gave.
  pub proceed-keeps :
      (Q : List Event → Type 0) (poll : Poll) (timeout : ℤ) (s : S) (w : World)
      → Returns (λ events w'. P s w' × Q events) (traits.proceed poll timeout w)
      → Returns
          (λ r w'. P r.0 w' × ((events : List Event) × Q events × Reported events r.1))
          (proceed traits run poll handlers m_unhandled timeout s w)
  unfolding proceed
  proceed-keeps Q poll timeout s w polls =
      Returns-bind polls
        λ events w' p'. mono (dispatch-keeps events s w' p'.0) λ r w'' h. (h.0, (events, p'.1, h.1))
