-- ===== src/Epoll/Flags.antt =====
-- src/epoll/epoll.cpp: `event_type_from_flags` and `flags_from_op`, bit by bit.
use strongly_typed_sockets.Base.{
  ℕ, ◌+◌, ◌≡◌, refl, Bool, true, false, not, bit_and, bit_or, ◌==◌, if◌then◌else◌, arith,
}
use strongly_typed_sockets.Epoll.{
  epollin, epollpri, epollout, epollerr, epollhup, epollrdhup, epollet, EventType, exception,
  read_ready, write_ready, peer_closed, error, hangup, SockOp, read, write, read_write,
  flags_from_op, event_type_from_flags,
}

-- `flags & bit` as a test.
abbrev pub has : ℕ → ℕ → Bool
has flags bit = not (bit_and flags bit == 0)

-- The sum of the values of the flags that are set, an independent reading of a set of flags.
abbrev pub weight : Bool → ℕ → ℕ
weight b n = if b then n else 0

abbrev pub event_sum : ℕ → ℕ
event_sum flags =
    weight (has flags epollpri) exception
    + weight (has flags epollin) read_ready
    + weight (has flags epollout) write_ready
    + weight (has flags epollrdhup) peer_closed
    + weight (has flags epollerr) error
    + weight (has flags epollhup) hangup

-- `if (test) ret |= event`, and the six of them over the outcomes of the tests `flags & bit == 0`.
abbrev unless_zero : Bool → EventType → EventType → EventType
unless_zero zero event ret = if zero then ret else bit_or ret event

abbrev collect : (no_in no_out no_pri no_hup no_err no_rdhup : Bool) → EventType
collect no_in no_out no_pri no_hup no_err no_rdhup = unless_zero no_rdhup peer_closed (
    unless_zero no_err error (
      unless_zero no_hup hangup (
        unless_zero no_pri exception
          (unless_zero no_out write_ready (unless_zero no_in read_ready 0)))))

collect-sum :
    (a b c d e f : Bool)
    → collect a b c d e f
      ≡ weight (not c) exception
        + weight (not a) read_ready
        + weight (not b) write_ready
        + weight (not f) peer_closed
        + weight (not e) error
        + weight (not d) hangup
collect-sum a b c d e f = ground arith

-- The event type is the sum of the values of the types whose flags are set: no flag is dropped,
-- taken for another, or counted twice.
pub event_type_from_flags-sum : (flags : ℕ) → event_type_from_flags flags ≡ event_sum flags
unfolding event_type_from_flags
event_type_from_flags-sum flags = collect-sum _ _ _ _ _ _

abbrev pub Mirrors : EventType → (i o pri hup err rdhup : Bool) → Type 0
Mirrors e i o pri hup err rdhup =
    (has e read_ready ≡ i)
    × (has e write_ready ≡ o)
    × (has e exception ≡ pri)
    × (has e hangup ≡ hup)
    × (has e error ≡ err)
    × (has e peer_closed ≡ rdhup)

collect-Mirrors :
    (a b c d e f : Bool)
    → Mirrors (collect a b c d e f) (not a) (not b) (not c) (not d) (not e) (not f)
collect-Mirrors a b c d e f =
    (ground arith, ground arith, ground arith, ground arith, ground arith, ground arith)

-- An event has each of the six types exactly when epoll's flags have the flag that the type stands
-- for.
pub event_type_from_flags-Mirrors :
    (flags : ℕ)
    → Mirrors
        (event_type_from_flags flags)
        (has flags epollin)
        (has flags epollout)
        (has flags epollpri)
        (has flags epollhup)
        (has flags epollerr)
        (has flags epollrdhup)
unfolding event_type_from_flags
event_type_from_flags-Mirrors flags = collect-Mirrors _ _ _ _ _ _

abbrev pub reads : SockOp → Bool
reads read = true
reads write = false
reads read_write = true

abbrev pub writes : SockOp → Bool
writes read = false
writes write = true
writes read_write = true

-- What is asked of epoll for an operation: input and output exactly as the operation says, and
-- always edge triggering, the peer's end, urgent data, errors and hangups.
pub flags_from_op_lem :
    (op : SockOp)
    → (has (flags_from_op op) epollin ≡ reads op)
      × (has (flags_from_op op) epollout ≡ writes op)
      × (has (flags_from_op op) epollet ≡ true)
      × (has (flags_from_op op) epollrdhup ≡ true)
      × (has (flags_from_op op) epollpri ≡ true)
      × (has (flags_from_op op) epollerr ≡ true)
      × (has (flags_from_op op) epollhup ≡ true)
unfolding flags_from_op
flags_from_op_lem read = (refl, refl, refl, refl, refl, refl, refl)
flags_from_op_lem write = (refl, refl, refl, refl, refl, refl, refl)
flags_from_op_lem read_write = (refl, refl, refl, refl, refl, refl, refl)
