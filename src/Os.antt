-- ===== src/Os.antt =====
-- The operating system below the library: the calls that src/socket, src/epoll and src/endpoint make
-- (socket, bind, accept4, epoll_wait, close, ... and the user's callbacks), and the C++ statements
-- that make them. None of it is under the repository, so the system is a parameter: `World.env`
-- answers each call from the history of all calls before it. A statement is a `Cmd`: it takes the
-- world to a result and a new world, or has undefined behaviour.
pub mod Returns
pub mod Ledger
use strongly_typed_sockets.Base.{ℕ, ℤ, ◌==ℤ◌, Bool, List, [], ◌∷◌, Option, none, some}

-- Linux values of the macros that the code names.
abbrev pub af_inet : ℤ
af_inet = ℤ.pos 2

abbrev pub af_inet6 : ℤ
af_inet6 = ℤ.pos 10

abbrev pub sock_stream : ℕ
sock_stream = 1

abbrev pub sock_dgram : ℕ
sock_dgram = 2

abbrev pub sock_nonblock : ℕ
sock_nonblock = 2048

abbrev pub e_again : ℤ
e_again = ℤ.pos 11

abbrev pub e_would_block : ℤ
e_would_block = ℤ.pos 11

abbrev pub e_in_progress : ℤ
e_in_progress = ℤ.pos 115

abbrev pub Bytes : Type 0
Bytes = List ℕ

-- A caller's buffer, as what it holds when the call is made; the library only passes it on.
abbrev pub Buffer : Type 0
Buffer = Bytes

-- `struct sockaddr_in`: family, port and address in network order, padding.
pub record SockaddrIn : Type 0 where
  pub sin_family : ℤ
  pub sin_port : ℕ
  pub s_addr : Bytes
  pub sin_zero : Bytes

-- `struct sockaddr_in6`.
pub record SockaddrIn6 : Type 0 where
  pub sin6_family : ℤ
  pub sin6_port : ℕ
  pub sin6_flowinfo : ℕ
  pub sin6_addr : Bytes
  pub sin6_scope_id : Bytes

pub data Sockaddr : Type 0 where
  in4 : SockaddrIn → Sockaddr
  in6 : SockaddrIn6 → Sockaddr

-- `struct epoll_event`, with `data.fd`.
pub record EpollEvent : Type 0 where
  pub events : ℕ
  pub fd : ℤ

-- A `std::function` that a user of the library made.
abbrev pub Callback : Type 0
Callback = ℕ

pub data Call : Type 0 where
  socket : (domain : ℤ) (type protocol : ℕ) → Call
  bind : ℤ → Sockaddr → Call
  connect : ℤ → Sockaddr → Call
  listen : (fd backlog : ℤ) → Call
  accept4 : (fd : ℤ) (addr_size flags : ℕ) → Call
  shutdown : (fd how : ℤ) → Call
  close : ℤ → Call
  send : (fd : ℤ) → Buffer → ℕ → ℤ → Call
  sendto : (fd : ℤ) → Buffer → ℕ → ℤ → Sockaddr → Call
  recv : (fd : ℤ) → Buffer → ℕ → ℤ → Call
  recvfrom : (fd : ℤ) → Buffer → ℕ → ℤ → (addr_size : ℕ) → Call
  epoll_create : ℤ → Call
  epoll_ctl : (epfd op fd : ℤ) → Option EpollEvent → Call
  epoll_wait : (epfd maxevents timeout : ℤ) → Call
  invoke : Callback → (args : List ℤ) → Call
  hand_over : Callback → (fd : ℤ) → Call

-- What a call gives back: its value, `errno` after it, and what it wrote through its pointers, into
-- the caller's buffer `received`. A callback gives back whether it threw, and for `hand_over`, which hands it a socket by rvalue
-- reference, whether it moved from that socket.
pub record Reply : Type 0 where
  pub ret : ℤ
  pub errno : ℤ
  pub addr4 : SockaddrIn
  pub addr6 : SockaddrIn6
  pub events : List EpollEvent
  pub received : Bytes
  pub threw : Bool
  pub took : Bool

abbrev pub Trace : Type 0
Trace = List (Call × Reply)

-- The functions of <arpa/inet.h>, and the values of memory that the program reads without having
-- written it: fresh `in_address_t::bytes_t` and `int` variables, and what stands on the stack behind
-- the address structure that `parse_addr` reads.
pub record Platform : Type 0 where
  pub inet_pton : ℤ → Bytes → Bytes → ℤ × Bytes
  pub inet_ntop : ℤ → Bytes → ℕ → Option Bytes
  pub htons : ℕ → ℕ
  pub ntohs : ℕ → ℕ
  pub fresh_bytes : Bytes
  pub fresh_int : ℤ
  pub beyond : Bytes

-- `polled` is the size of the vector that `epoll_t::proceed` keeps for the thread. `frames` counts the
-- calls of `client_t::connect`, and `captured` tells, by the socket type of the protocol, in which of
-- them the function-local statics of that instance of `client_t` were made.
pub record World : Type 0 where
  pub env : Trace → Call → Reply
  pub platform : Platform
  pub trace : Trace
  pub errno : ℤ
  pub polled : Option ℕ
  pub frames : ℕ
  pub captured : ℕ → Option ℕ

pub data Run (A : Type 0) : Type 0 where
  ok : A → World → Run A
  undefined : Run A

abbrev pub Cmd : Type 0 → Type 0
Cmd A = World → Run A

abbrev pub pure : {A : Type 0} → A → Cmd A
pure = ok

module _ {A B : Type 0} where
  abbrev pub and_then : Run A → (A → Cmd B) → Run B
  and_then (ok a w) k = k a w
  and_then undefined k = undefined

  infixl 5 ◌>>=◌ ◌>>◌
  abbrev pub ◌>>=◌ : Cmd A → (A → Cmd B) → Cmd B
  m >>= k = λ w. and_then (m w) k

  abbrev pub ◌>>◌ : Cmd A → Cmd B → Cmd B
  m >> n = m >>= λ _. n

-- The new entry of the trace, and the world after it.
abbrev pub answer : World → Call → Reply
answer w c = w.env w.trace c

abbrev pub after : World → Call → World
after w c = record w { trace = (c, answer w c) ∷ w.trace; errno = (answer w c).errno }

unfoldable pub perform : Call → Cmd Reply
perform c w = ok (answer w c) (after w c)

-- `errno`
abbrev pub get_errno : Cmd ℤ
get_errno w = ok w.errno w

abbrev pub get_platform : Cmd Platform
get_platform w = ok w.platform w

-- `*o`, undefined on an empty optional
abbrev pub deref : {A : Type 0} → Option A → Cmd A
deref none w = undefined
deref (some a) w = ok a w

-- `0 == ::f(...)`
abbrev pub succeeds : Call → Cmd Bool
succeeds c = do r ← perform c; pure (r.ret ==ℤ ℤ.pos 0)

-- What the last call wrote into the caller's buffer.
abbrev pub last_received : Trace → Bytes
last_received [] = []
last_received ((c, r) ∷ t) = r.received

abbrev pub get_received : Cmd Bytes
get_received w = ok (last_received w.trace) w
