-- ===== src/Client/Reactions/Handling.antt =====
-- src/endpoint/client.tpp: the handlers of one event, for the client's own descriptor.

use strongly_typed_sockets.Base.{
  ◌≡◌, refl, ◌∙◌, ap, ℤ, ◌==ℤ◌, Bool, true, false, none, some, List, [], ◌∷◌, ◌++◌, inl, inr,
  Bool-cases, Option-cases, if◌then◌else◌, ◌==◌, bit_and,
}
use strongly_typed_sockets.Os.{World, Call, Callback, perform, after, ok}
use strongly_typed_sockets.Epoll
use strongly_typed_sockets.Epoll.{Event, EventType, Epoll, ctl_del, read_ready, write_ready}
use strongly_typed_sockets.Observer.{Handlers, invoke, epoll_traits, find}
use strongly_typed_sockets.Observer.Selection.{selected, run_all}
use strongly_typed_sockets.Client.{
  Client, Handler, erase, on_readable, on_writable, state_fd, run_erase, run_on_readable,
  run_on_writable, run_handler,
}
use strongly_typed_sockets.Client.Reactions.{AllCalm, after_all, reaction, reacts, has_one}

pub after_all-append :
    (w : World) (xs ys : List Call) → after_all w (xs ++ ys) ≡ after_all (after_all w xs) ys
after_all-append w [] ys = refl
after_all-append w (x ∷ xs) ys = after_all-append (after w x) xs ys

pub after_all-AllCalm : (cs : List Call) (w : World) → AllCalm w → AllCalm (after_all w cs)
after_all-AllCalm [] w calm = calm
after_all-AllCalm (c ∷ cs) w calm = after_all-AllCalm cs (after w c) calm

-- What a client keeps: its descriptor, its epoll and its callback for reading.
abbrev pub Same : Client Epoll → Client Epoll → Type 0
Same c d = (d.state ≡ c.state) × (d.m_on_read_ready ≡ c.m_on_read_ready)

pub reaction-Same : (tp : EventType) (fd : ℤ) (c : Client Epoll) → Same c (reaction tp fd c).0
reaction-Same tp fd c = elim (Bool-cases (tp == read_ready)) [
  | inl e ↦ rw e (refl, refl)
  | inr e ↦ rw e (elim (Bool-cases (tp == write_ready)) [
    | inl e' ↦ rw e' (refl, refl)
    | inr e' ↦ rw e' (refl, refl)
  ])
]

pub reacts-Same :
    (tps : List EventType) (type : EventType) (fd : ℤ) (c : Client Epoll)
    → Same c (reacts tps type fd c).0
reacts-Same [] type fd c = (refl, refl)
reacts-Same (tp ∷ tps) type fd c = elim (Bool-cases (bit_and type tp == 0)) [
  | inl clear ↦ rw clear (reacts-Same tps type fd c)
  | inr set ↦
      let rest = reacts-Same tps type fd (reaction tp fd c).0 in
      let one = reaction-Same tp fd c in rw set (rest.0 ∙ one.0, rest.1 ∙ one.1)
]

pub or_false : (b : Bool) → b ≡ (if b then true else false)
or_false true = refl
or_false false = refl

pub or_true : (b : Bool) → true ≡ (if b then true else true)
or_true true = refl
or_true false = refl

-- A handler does for a type what the description says.
abbrev pub Does : EventType → Handler → Type 0
Does tp h =
    (c : Client Epoll) (fd : ℤ) (w : World)
    → (fd ==ℤ state_fd c.state) ≡ true
    → (k : Callback) → c.m_on_read_ready ≡ some k
    → AllCalm w
    → run_handler epoll_traits h fd c w
      ≡ ok ((reaction tp fd c).0, none) (after_all w (reaction tp fd c).1)

pub on_readable-Does : Does read_ready on_readable
unfolding run_handler run_on_readable invoke perform
on_readable-Does c fd w own k reads calm = rw (own, run_on_readable, reads, calm w.trace k []) refl

pub on_writable-Does : Does write_ready on_writable
unfolding run_handler run_on_writable invoke perform
on_writable-Does c fd w own k reads calm = elim (Option-cases c.m_on_connect) [
  | inl e ↦ rw (own, e) (ap (λ m. ok (record c { m_on_connect = m }, none) w) e)
  | inr (f, e) ↦ rw (own, e, calm w.trace f []) refl
]

-- The world once the descriptor is off the client's epoll.
abbrev unregistered : ℤ → Client Epoll → World → World
unregistered fd c w = after w (Call.epoll_ctl c.poll.m_fd ctl_del fd none)

pub erase-Does :
    (tp : EventType) → (tp == read_ready) ≡ false → (tp == write_ready) ≡ false → Does tp erase
unfolding run_handler run_erase invoke perform Epoll.del_socket Epoll.epoll_ctl
erase-Does tp r w' c fd w own k reads calm = elim (Option-cases c.m_on_disconnect) [
  | inl e ↦
      rw (own, e, r, w')
        (ap (λ m. ok (record c { m_on_disconnect = m }, none) (unregistered fd c w)) e)
  | inr (f, e) ↦ rw (own, e, r, w', calm (unregistered fd c w).trace f []) refl
]

module _ (handlers : Handlers Handler) where
  -- Each of the types has a handler, which does what the description says.
  abbrev pub AllDo : List EventType → Type 0
  AllDo [] = Unit {0}
  AllDo (tp ∷ tps) = ((h : Handler) × (find tp handlers ≡ some h) × Does tp h) × AllDo tps

  pub run_all-reacts :
      (tps : List EventType) (event : Event) (first : Bool) (c : Client Epoll) (w : World)
      → AllDo tps
      → (event.fd ==ℤ state_fd c.state) ≡ true
      → (k : Callback) → c.m_on_read_ready ≡ some k
      → AllCalm w
      → run_all
          (run_handler epoll_traits)
          handlers
          (selected (run_handler epoll_traits) handlers tps event.type)
          event
          first
          c
          w
        ≡ ok
            (
              (reacts tps event.type event.fd c).0,
              (if first then true else has_one tps event.type),
              none,
            )
            (after_all w (reacts tps event.type event.fd c).1)
  run_all-reacts [] event first c w does own k reads calm =
      ap (λ b. ok (c, b, none) w) (or_false first)
  run_all-reacts (tp ∷ tps) event first c w does own k reads calm =
      elim (Bool-cases (bit_and event.type tp == 0)) [
        | inl clear ↦ rw clear (run_all-reacts tps event first c w does.1 own k reads calm)
        | inr set ↦
            let same = reaction-Same tp event.fd c in
            rw
              (
                set,
                does.0.1,
                does.0.2 c event.fd w own k reads calm,
                after_all-append w (reaction tp event.fd c).1
                    (reacts tps event.type event.fd (reaction tp event.fd c).0).1,
              )
              (run_all-reacts tps event true (reaction tp event.fd c).0
                  (after_all w (reaction tp event.fd c).1) does.1 (rw same.0 own) k (same.1 ∙ reads)
                  (after_all-AllCalm (reaction tp event.fd c).1 w calm)
                ∙ ap
                    (λ b.
                      ok ((reacts tps event.type event.fd (reaction tp event.fd c).0).0, b, none)
                        (after_all (after_all w (reaction tp event.fd c).1)
                          (reacts tps event.type event.fd (reaction tp event.fd c).0).1))
                    (or_true first))
      ]
