-- ===== src/Epoll.antt =====
-- src/epoll/epoll.cpp and include/poll_event/event.h: the encapsulation of Linux epoll. Sets of flags
-- are numbers, as in the code.
pub mod Flags
pub mod Polling
use strongly_typed_sockets.Base.{
  ℕ, ◌^◌, ◌≤◌, ℤ, minus_one, ◌==ℤ◌, to_int, Bool, true, false, ◌&&◌, Option, none, some, List, [],
  ◌∷◌, bit_and, bit_or, leb, ◌==◌, if◌then◌else◌, length, take, not,
}
use mathlib.Core.List.{map}
use strongly_typed_sockets.Os.{
  EpollEvent, Call, Reply, World, ok, undefined, Cmd, pure, ◌>>=◌, ◌>>◌, perform, get_errno,
  succeeds,
}
use strongly_typed_sockets.Utils.{enum_or}

abbrev pub epollin : ℕ
epollin = 1

abbrev pub epollpri : ℕ
epollpri = 2

abbrev pub epollout : ℕ
epollout = 4

abbrev pub epollerr : ℕ
epollerr = 8

abbrev pub epollhup : ℕ
epollhup = 16

abbrev pub epollrdhup : ℕ
epollrdhup = 8192

abbrev pub epollet : ℕ
epollet = 2 ^ 31

-- `poll_event::event_type`, a set of flags.
abbrev pub EventType : Type 0
EventType = ℕ

abbrev pub no_event : EventType
no_event = 0

abbrev pub exception : EventType
exception = 1

abbrev pub read_ready : EventType
read_ready = 2

abbrev pub write_ready : EventType
write_ready = 4

abbrev pub peer_closed : EventType
peer_closed = 8

abbrev pub error : EventType
error = 16

abbrev pub hangup : EventType
hangup = 32

pub record Event : Type 0 where
  pub fd : ℤ
  pub type : EventType

pub data SockOp : Type 0 where
  read write read_write : SockOp

pub record Epoll : Type 0 where
  pub m_fd : ℤ
  pub m_max_events : ℕ

unfoldable pub flags_from_op : SockOp → ℕ
flags_from_op op =
    let flags = bit_or (bit_or (bit_or (bit_or epollrdhup epollet) epollpri) epollerr) epollhup in
    elim op [
      | read ↦ bit_or flags epollin
      | write ↦ bit_or flags epollout
      | read_write ↦ bit_or flags (bit_or epollout epollin)
    ]

-- `if (flags & bit) ret |= event`
unfoldable pub translate : (flags bit event : ℕ) → EventType → EventType
unfolding enum_or
translate flags bit event ret = if bit_and flags bit == 0 then ret else enum_or ret event

unfoldable pub event_type_from_flags : ℕ → EventType
unfolding translate
event_type_from_flags flags = translate flags epollrdhup peer_closed (
    translate flags epollerr error (
      translate flags epollhup hangup (
        translate flags epollpri exception
          (translate flags epollout write_ready (translate flags epollin read_ready no_event)))))

-- `create`, and the constructor, which throws `std::runtime_error` with `errno`.
unfoldable pub create : ℤ → ℕ → Cmd (Option Epoll)
create queue_size max_events = do
  r ← perform (Call.epoll_create queue_size)
  if not (r.ret ==ℤ minus_one)
      then pure (some (record { m_fd = r.ret; m_max_events = max_events }))
      else pure none

pub data Constructed : Type 0 where
  constructed : Epoll → Constructed
  runtime_error : (errno : ℤ) → Constructed

unfoldable pub epoll : ℤ → ℕ → Cmd Constructed
epoll queue_size max_events = do
  r ← perform (Call.epoll_create queue_size)
  errno ← get_errno
  if r.ret ==ℤ minus_one
      then pure (runtime_error errno)
      else pure (constructed (record { m_fd = r.ret; m_max_events = max_events }))

-- `exchange(other)`, the body of the move constructor and of the move assignment to another object:
-- the new object, and the one moved from. What `*this` held is dropped, not closed.
unfoldable pub exchange : Epoll → Epoll × Epoll
exchange other = (other, record { m_fd = minus_one; m_max_events = 0 })

abbrev pub move_epoll : Epoll → Epoll × Epoll
move_epoll other = exchange other

-- The move assignment; `itself` where the two are one object.
abbrev pub assign_epoll : (itself : Bool) → (self other : Epoll) → Epoll × Epoll
assign_epoll itself self other = if itself then (self, other) else exchange other

unfoldable pub destroy : Epoll → Cmd (Unit {0})
destroy e = if e.m_fd ==ℤ minus_one then pure tt else (do perform (Call.close e.m_fd); pure tt)

-- EPOLL_CTL_ADD, EPOLL_CTL_DEL and EPOLL_CTL_MOD.
abbrev pub ctl_add : ℤ
ctl_add = ℤ.pos 1

abbrev pub ctl_del : ℤ
ctl_del = ℤ.pos 2

abbrev pub ctl_mod : ℤ
ctl_mod = ℤ.pos 3

unfoldable pub epoll_ctl : Epoll → (sock_fd ctl_op : ℤ) → Option SockOp → Cmd Bool
unfolding flags_from_op
epoll_ctl e sock_fd ctl_op op = succeeds (
    Call.epoll_ctl e.m_fd ctl_op sock_fd
      (elim op [ some o ↦ some (record { events = flags_from_op o; fd = sock_fd }) | none ↦ none ]))

unfoldable pub add_socket : Epoll → ℤ → SockOp → Cmd Bool
unfolding epoll_ctl
add_socket e sock_fd op = epoll_ctl e sock_fd ctl_add (some op)

unfoldable pub mod_socket : Epoll → ℤ → SockOp → Cmd Bool
unfolding epoll_ctl
mod_socket e sock_fd op = epoll_ctl e sock_fd ctl_mod (some op)

unfoldable pub del_socket : Epoll → ℤ → Cmd Bool
unfolding epoll_ctl
del_socket e sock_fd = epoll_ctl e sock_fd ctl_del none

-- `static thread_local std::vector<epoll_event> events(m_max_events)`: its size is fixed by the first
-- call in the thread.
unfoldable pub polled_size : Epoll → Cmd ℕ
polled_size e w = elim w.polled [
  | some size ↦ ok size w
  | none ↦ ok e.m_max_events (record w { polled = some e.m_max_events })
]

unfoldable pub to_event : EpollEvent → Event
unfolding event_type_from_flags
to_event e = record { fd = e.fd; type = event_type_from_flags e.events }

-- The count that `epoll_wait` gave back, 0 for none.
abbrev pub ready : ℤ → ℕ
ready (ℤ.pos n) = n
ready (ℤ.negsuc n) = 0

-- Undefined where the system writes more events than the vector holds.
unfoldable pub proceed : Epoll → ℤ → Cmd (List Event)
unfolding polled_size to_event
proceed e timeout = do
  size ← polled_size e
  r ← perform (Call.epoll_wait e.m_fd (to_int e.m_max_events) timeout)
  if leb (ready r.ret) size then pure (map to_event (take (ready r.ret) r.events)) else λ _.
      undefined
