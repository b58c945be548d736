-- ===== src/App/Server.antt =====
-- app/server_main.cpp: the callbacks that `init` passes to the server, and the loop of `main` over
-- the active sockets. `fuel` bounds the receives in one visit of a socket and `rounds` the visits: a
-- pass that runs out of either is `busy`.
use strongly_typed_sockets.Base.{
  ℕ, zero, suc, ℤ, minus_one, Bool, true, false, ◌&&◌, ◌||◌, not, is_none, Option, none, some, List,
  [], ◌∷◌, ◌++◌, length, take, drop,
}
use strongly_typed_sockets.Os.{Bytes, Buffer, Cmd, pure, ◌>>=◌, get_received}
use strongly_typed_sockets.Impl
use strongly_typed_sockets.Accepted.{AcceptedSock, AcceptedSockRef, move_sock, move_ref}
use strongly_typed_sockets.SendRecv.{SendRecv, accepted_sock}
use strongly_typed_sockets.Service.{create_response}
use strongly_typed_sockets.App.Sockets.{
  Element, ActiveSockets, emplace_back, at_socket, erase, remove_fd, clear,
}

-- What a call wrote into a buffer, over what the buffer held.
abbrev pub fill : Bytes → Buffer → Buffer
fill bytes buffer = bytes ++ drop (length bytes) buffer

-- The callbacks of a connection: the server's socket is moved into the vector. They give back what
-- is left of the server's object.
abbrev pub on_conn :
    (grow : ℕ → ℕ)
    → AcceptedSock
    → ActiveSockets AcceptedSock
    → ActiveSockets AcceptedSock × AcceptedSock
on_conn grow sock v =
    let (kept, left) = move_sock sock in
    (emplace_back grow kept (Impl.fd sock.m_sock.m_impl) v, left)

abbrev pub on_datagram :
    (grow : ℕ → ℕ)
    → AcceptedSockRef
    → ActiveSockets AcceptedSockRef
    → ActiveSockets AcceptedSockRef × AcceptedSockRef
on_datagram grow sock v =
    let (kept, left) = move_ref sock in (emplace_back grow kept minus_one v, left)

-- The callbacks of an end: of one connection, and of the socket of a connectionless server.
abbrev pub on_close : ℤ → ActiveSockets AcceptedSock → Cmd (ActiveSockets AcceptedSock)
on_close fd = remove_fd accepted_sock fd

abbrev pub on_datagram_close :
    SendRecv AcceptedSockRef → ActiveSockets AcceptedSockRef → Cmd (ActiveSockets AcceptedSockRef)
on_datagram_close iface = clear iface

-- The variables of `main` that the loop uses; `is_tcp` is `proto == "tcp"`.
pub record Main (S : Type 0) : Type 0 where
  pub active_sockets : ActiveSockets S
  pub tmp_buff : Buffer
  pub is_tcp : Bool

-- How the visit of an element ends: the iterator stays at its slot, goes on, or `create_response`
-- throws, which no handler in `main` catches.
pub data Visit : Type 0 where
  again onward terminated busy : Visit

pub data Passed : Type 0 where
  passed terminated busy : Passed

abbrev pub element_at : ℕ → List Element → Option Element
element_at n [] = none
element_at zero (e ∷ es) = some e
element_at (suc n) (e ∷ es) = element_at n es

abbrev pub set_text : ℕ → Bytes → List Element → List Element
set_text n text [] = []
set_text zero text (e ∷ es) = record e { text = text } ∷ es
set_text (suc n) text (e ∷ es) = e ∷ set_text n text es

abbrev pub is_empty : Bytes → Bool
is_empty [] = true
is_empty (c ∷ s) = false

module _ {S : Type 0} (iface : SendRecv S) where
  -- `do … while (rec)`: the buffer and the text behind the last receive.
  unfoldable pub receive_all : ℕ → Buffer → Bytes → S → Cmd (S × Option (Buffer × Bytes))
  receive_all zero buffer text s = pure (s, none)
  receive_all (suc fuel) buffer text s = do
    (s', rec) ← iface.recv buffer (length buffer) s
    bytes ← get_received
    elim rec [
      | none ↦ pure (s', some (buffer, text))
      | some (_, n) ↦ receive_all fuel (fill bytes buffer) (text ++ take n (fill bytes buffer)) s'
    ]

  -- A method that leaves its object as it is.
  abbrev pub const_method : {A : Type 0} → (S → Cmd A) → S → Cmd (S × A)
  const_method method s = do a ← method s; pure (s, a)

  -- The reply, and what becomes of the element.
  unfoldable pub reply : ℕ → Element → Bytes → Main S → Cmd (Main S × Visit)
  unfolding at_socket erase
  reply slot e text m = elim (create_response text) [
    | none ↦ pure (m, terminated)
    | some resp ↦ do
      (v, sent) ← at_socket e.socket (const_method (iface.send resp (length resp))) m.active_sockets
      elim (is_none sent || not m.is_tcp) [
        | true ↦ do v' ← erase iface slot v; pure (record m { active_sockets = v' }, again)
        | false ↦ pure (
          record m { active_sockets = record v { elements = set_text slot [] v.elements } },
          again,
        )
      ]
  ]

  -- What follows the receives: the test of `finished_recv` and of the text.
  unfoldable pub heard : ℕ → Element → Option (Buffer × Bytes) → Main S → Cmd (Main S × Visit)
  unfolding at_socket reply
  heard slot e none m = pure (m, busy)
  heard slot e (some (buffer, text)) m = do
    (v, finished) ← at_socket e.socket (const_method iface.finished_recv) m.active_sockets
    let m' = record m {
      active_sockets = record v { elements = set_text slot text v.elements };
      tmp_buff = buffer;
    }
    elim (finished && not (is_empty text)) [
      | true ↦ reply slot e text m'
      | false ↦ pure (m', onward)
    ]

  -- The body of the loop, at an element and its slot.
  unfoldable pub visit : ℕ → ℕ → Element → Main S → Cmd (Main S × Visit)
  unfolding receive_all at_socket heard
  visit fuel slot e m = do
    (v, got) ← at_socket e.socket (receive_all fuel m.tmp_buff e.text) m.active_sockets
    heard slot e got (record m { active_sockets = v })

  -- The loop, from a slot on.
  unfoldable pub serve : (rounds fuel : ℕ) → ℕ → Main S → Cmd (Main S × Passed)
  unfolding visit
  serve zero fuel slot m = pure (m, busy)
  serve (suc rounds) fuel slot m = elim (element_at slot m.active_sockets.elements) [
    | none ↦ pure (m, passed)
    | some e ↦ do
      (m', ended) ← visit fuel slot e m
      elim ended [
        | again ↦ serve rounds fuel slot m'
        | onward ↦ serve rounds fuel (suc slot) m'
        | terminated ↦ pure (m', terminated)
        | busy ↦ pure (m', busy)
      ]
  ]
