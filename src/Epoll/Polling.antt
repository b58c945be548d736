-- ===== src/Epoll/Polling.antt =====
-- src/epoll/epoll.cpp: the vector that `proceed` keeps for the thread, registration, and the
-- descriptor of the epoll.
use strongly_typed_sockets.Base.{
  ℕ, ◌+◌, ◌≤◌, ◌≡◌, ℤ, minus_one, ◌==ℤ◌, to_int, Option, none, some, inl, inr, Bool-cases, leb,
  if◌then◌else◌, take, arith,
}
use mathlib.Core.List.{map}
use strongly_typed_sockets.Os.{Call, Reply, World, undefined, ok, perform, answer, after}
use strongly_typed_sockets.Os.Returns.{Returns, returns}
use strongly_typed_sockets.Os.Ledger.{Books, IsDescriptor, held, one_if}
use strongly_typed_sockets.Epoll.{Epoll, polled_size, ready, to_event, proceed, destroy, create}

-- The size of the thread's vector once `e` polls.
abbrev pub size_after : Epoll → Option ℕ → ℕ
size_after e none = e.m_max_events
size_after e (some size) = size

-- The call that `proceed` makes, from the world in which it makes it.
abbrev pub wait_call : Epoll → ℤ → Call
wait_call e timeout = Call.epoll_wait e.m_fd (to_int e.m_max_events) timeout

abbrev pub waiting : Epoll → World → World
waiting e w = record w { polled = some (size_after e w.polled) }

polled_size-ok :
    (e : Epoll) (w : World) → polled_size e w ≡ ok (size_after e w.polled) (waiting e w)
unfolding polled_size
polled_size-ok e w = ground arith

module _ (e : Epoll) (timeout : ℤ) (w : World) where
  abbrev pub waited : Reply
  waited = answer (waiting e w) (wait_call e timeout)

  proceed_size : proceed e timeout w ≡ (
      if leb (ready waited.ret) (size_after e w.polled)
      then ok
          (map to_event (take (ready waited.ret) waited.events))
          (after (waiting e w) (wait_call e timeout))
      else undefined)
  unfolding proceed perform
  proceed_size = rw (polled_size-ok e w, proceed) (ground arith)

  -- Where the events that are ready are no more than the thread's vector holds, `proceed` is
  -- defined, makes one `epoll_wait`, and gives the events that it wrote, in order and translated
  -- one by one.
  pub proceed_within :
      ready waited.ret ≤ size_after e w.polled
      → proceed e timeout w
        ≡ ok
            (map to_event (take (ready waited.ret) waited.events))
            (after (waiting e w) (wait_call e timeout))
  proceed_within h = rw proceed_size (ground arith)

abbrev pub epoll_fd : Option Epoll → Option ℤ
epoll_fd none = none
epoll_fd (some e) = some e.m_fd

module _ (x : ℤ) (d : IsDescriptor x) where
  -- For a descriptor `x` and balanced books: after `create`, what is owed for `x` is what the epoll
  -- that it made holds and the `k` of before; a failure leaves nothing open.
  pub create-Books_epoll :
      (queue_size : ℤ) (max_events k : ℕ) (w : World)
      → Books x k w
      → Returns (λ r w'. Books x (held x (epoll_fd r) + k) w') (create queue_size max_events w)
  unfolding create perform
  create-Books_epoll queue_size max_events k w b =
      elim (Bool-cases ((answer w (Call.epoll_create queue_size)).ret ==ℤ minus_one)) [
        | inl e ↦ rw e (returns (ground (arith, d, e), b.1))
        | inr e ↦ rw e (returns (ground arith, b.1))
      ]

  -- For a descriptor `x` and balanced books: the destructor of an epoll settles `x` exactly if the
  -- epoll holds it.
  pub destroy-Books :
      (e : Epoll) (k : ℕ) (w : World)
      → Books x (one_if (e.m_fd ==ℤ x) + k) w
      → Returns (λ _ w'. Books x k w') (destroy e w)
  unfolding destroy perform
  destroy-Books e k w b = elim (Bool-cases (e.m_fd ==ℤ minus_one)) [
    | inl none_left ↦ rw none_left (returns (ground (arith, d, none_left), b.1))
    | inr some_left ↦ rw some_left (returns (ground arith, b.1))
  ]

-- Polling opens and closes no descriptor.
pub proceed-Returns_epoll :
    (x : ℤ) (e : Epoll) (timeout : ℤ) (k : ℕ) (w : World)
    → ready (waited e timeout w).ret ≤ size_after e w.polled
    → Books x k w
    → Returns (λ _ w'. Books x k w') (proceed e timeout w)
proceed-Returns_epoll x e timeout k w fits b =
    rw (proceed_within e timeout w fits) (returns (ground arith, b.1))
