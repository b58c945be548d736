-- ===== src/States/Typestate.antt =====
-- src/socket/socket.tpp and include/policy: the types refine the phases of a descriptor. The life of a
-- descriptor `x` is the sequence of the policies that are called on the object that holds it, with what
-- the program does elsewhere in between. Each policy makes only calls that `x` takes in the phase that
-- the object's type stands for, and the type of the object that it gives stands for the next phase.
use strongly_typed_sockets.Base.{
  ℕ, ◌≡◌, ℤ, ◌==ℤ◌, Bool, true, false, Option, none, some, if◌then◌else◌,
}
use strongly_typed_sockets.Os.{World, Buffer, Call, Reply, ok, answer, after}
use strongly_typed_sockets.Address.{InAddressPort}
use strongly_typed_sockets.Impl.{SocketImpl, ShutdownDir}
use strongly_typed_sockets.States
use strongly_typed_sockets.States.{
  Proto, Socket, Binded, Listening, Active, destroy_impl, create, bind, bind_datagram, connect,
  connect_binded, listen, accept,
}
use strongly_typed_sockets.States.Phases.{
  Phase, closed, created, bound, listening, connected, allows, next,
}

-- The object that holds the descriptor.
pub data Object : Type 0 where
  no_object : Object
  socket_t : Socket → Object
  binded_socket : Binded → Object
  listening_socket : Listening → Object
  active_socket : Active → Object

-- The phase that the type of the object stands for.
abbrev pub stands_for : Proto → Object → Phase
stands_for p no_object = closed
stands_for p (socket_t _) = created
stands_for p (binded_socket _) = bound
stands_for p (listening_socket _) = listening
stands_for p (active_socket _) = if p.is_connectionless then bound else connected

abbrev pub Holds : ℤ → Object → Type 0
Holds x no_object = Unit {0}
Holds x (socket_t s) = s.m_impl.m_fd ≡ some x
Holds x (binded_socket s) = s.m_impl.m_fd ≡ some x
Holds x (listening_socket s) = s.m_impl.m_fd ≡ some x
Holds x (active_socket s) = s.m_impl.m_fd ≡ some x

-- The object that a policy leaves or makes.
abbrev pub bind_result : Socket × Option Binded → Object
bind_result (left, none) = socket_t left
bind_result (left, some made) = binded_socket made

abbrev pub active_result : Socket × Option Active → Object
active_result (left, none) = socket_t left
active_result (left, some made) = active_socket made

abbrev pub connect_result : Binded × Option Active → Object
connect_result (left, none) = binded_socket left
connect_result (left, some made) = active_socket made

abbrev pub listen_result : Binded × Option Listening → Object
listen_result (left, none) = binded_socket left
listen_result (left, some made) = listening_socket made

abbrev pub Point : Type 0
Point = Object × World

-- The `socket_impl` of the object.
abbrev pub IsImpl : Object → SocketImpl → Type 0
IsImpl no_object s = ⊥
IsImpl (socket_t o) s = o.m_impl ≡ s
IsImpl (binded_socket o) s = o.m_impl ≡ s
IsImpl (listening_socket o) s = o.m_impl ≡ s
IsImpl (active_socket o) s = o.m_impl ≡ s

-- A call that the program makes elsewhere.
abbrev pub Foreign : ℤ → Call → Reply → Type 0
Foreign x c r = (ph : Phase) → (allows x c ph ≡ true) × (next x c r ph ≡ ph)

pub data Step (p : Proto) (x : ℤ) : Point → Point → Type 0 where
  creates :
      (af : ℤ) (s : Socket) (w w' : World)
      → create p af w ≡ ok (some s) w'
      → s.m_impl.m_fd ≡ some x
      → Step p x (no_object, w) (socket_t s, w')
  is_accepted :
      (l : Listening) (y : ℤ) (s : Active) (w w' : World)
      → p.is_connectionless ≡ false
      → l.m_impl.m_fd ≡ some y
      → (y ==ℤ x) ≡ false
      → accept l w ≡ ok (some s) w'
      → s.m_impl.m_fd ≡ some x
      → Step p x (no_object, w) (active_socket s, w')
  elsewhere :
      (c : Call) (o : Object) (w : World)
      → Foreign x c (answer w c)
      → Step p x (o, w) (o, after w c)
  binds :
      (s : Socket) (at : InAddressPort) (r : Socket × Option Binded) (w w' : World)
      → p.is_connectionless ≡ false
      → bind s at w ≡ ok r w'
      → Step p x (socket_t s, w) (bind_result r, w')
  binds_datagram :
      (s : Socket) (at : InAddressPort) (r : Socket × Option Active) (w w' : World)
      → p.is_connectionless ≡ true
      → bind_datagram s at w ≡ ok r w'
      → Step p x (socket_t s, w) (active_result r, w')
  connects :
      (s : Socket) (remote : InAddressPort) (r : Socket × Option Active) (w w' : World)
      → p.is_connectionless ≡ false
      → connect s remote w ≡ ok r w'
      → Step p x (socket_t s, w) (active_result r, w')
  connects_binded :
      (s : Binded) (remote : InAddressPort) (r : Binded × Option Active) (w w' : World)
      → p.is_connectionless ≡ false
      → connect_binded s remote w ≡ ok r w'
      → Step p x (binded_socket s, w) (connect_result r, w')
  listens :
      (s : Binded) (max_conn : ℕ) (r : Binded × Option Listening) (w w' : World)
      → listen s max_conn w ≡ ok r w'
      → Step p x (binded_socket s, w) (listen_result r, w')
  accepts :
      (s : Listening) (r : Option Active) (w w' : World)
      → accept s w ≡ ok r w'
      → Step p x (listening_socket s, w) (listening_socket s, w')
  sends :
      (s : Active) (buffer : Buffer) (n : ℕ) (flags : ℤ) (r : Option ℕ) (w w' : World)
      → p.is_connectionless ≡ false
      → States.send s buffer n flags w ≡ ok r w'
      → Step p x (active_socket s, w) (active_socket s, w')
  receives :
      (s : Active) (buffer : Buffer) (n : ℕ) (flags : ℤ) (r : Option ℕ) (w w' : World)
      → p.is_connectionless ≡ false
      → States.receive s buffer n flags w ≡ ok r w'
      → Step p x (active_socket s, w) (active_socket s, w')
  sends_to :
      (s : Active) (remote : InAddressPort) (buffer : Buffer) (n : ℕ) (flags : ℤ) (r : Option ℕ)
      (w w' : World)
      → p.is_connectionless ≡ true
      → States.send_datagram s remote buffer n flags w ≡ ok r w'
      → Step p x (active_socket s, w) (active_socket s, w')
  receives_from :
      (s : Active) (buffer : Buffer) (n : ℕ) (flags : ℤ) (r : Option (InAddressPort × ℕ))
      (w w' : World)
      → p.is_connectionless ≡ true
      → States.receive_datagram s buffer n flags w ≡ ok r w'
      → Step p x (active_socket s, w) (active_socket s, w')
  shuts_down :
      (s : Active) (dir : ShutdownDir) (r : Bool) (w w' : World)
      → States.shutdown s dir w ≡ ok r w'
      → Step p x (active_socket s, w) (active_socket s, w')
  is_destroyed :
      (o : Object) (s : SocketImpl) (w w' : World)
      → IsImpl o s
      → destroy_impl s w ≡ ok tt w'
      → Step p x (o, w) (no_object, w')

pub data Life (p : Proto) (x : ℤ) : Point → Point → Type 0 where
  ended : (s : Point) → Life p x s s
  step : (s t u : Point) → Step p x s t → Life p x t u → Life p x s u
