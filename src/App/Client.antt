-- ===== src/App/Client.antt =====
-- app/client_main.cpp and app/async_stdin.cpp: the demonstration client. Its callbacks are the closures
-- 0, 1 and 2 of `init`, for the connection, for what can be read and for the disconnection.
use strongly_typed_sockets.Base.{
  ℕ, zero, suc, ℤ, pos, ◌==ℤ◌, Bool, true, false, Option, none, some, List, [], ◌∷◌, ◌++◌, length,
  take, replicate, if◌then◌else◌,
}
use strongly_typed_sockets.Os.{Bytes, Buffer, Cmd, pure, ◌>>=◌, get_received}
use strongly_typed_sockets.Address.{InAddressPort}
use strongly_typed_sockets.States.{Proto}
use strongly_typed_sockets.Observer.{PollTraits, returned, proceed_exception, Exn}
use strongly_typed_sockets.Client
use strongly_typed_sockets.Client.{Client, again_or_would_block}
use strongly_typed_sockets.Client.Control.{start, start_at}
use strongly_typed_sockets.Client.Connect.{Request, connect}
use strongly_typed_sockets.Client.Transfer.{send, recv}
use strongly_typed_sockets.App.Server.{fill}

-- "127.0.0.1"
abbrev pub localhost : Bytes
localhost = b'1' ∷ b'2' ∷ b'7' ∷ b'.' ∷ b'0' ∷ b'.' ∷ b'0' ∷ b'.' ∷ b'1' ∷ []

abbrev pub request_to : ℕ → Request
request_to port = record {
  remote_address = localhost;
  remote_port = port;
  on_connect = some 0;
  on_read_ready = some 1;
  on_disconnect = some 2;
}

-- The fresh buffer of 256 bytes of each `recv`.
unfoldable pub fresh_buffer : Buffer
fresh_buffer = replicate 256 0

-- What one `recv` of the callback for reading appends to the response.
abbrev pub appended : Option (InAddressPort × ℕ) → Bytes → Bytes
appended none bytes = []
appended (some (_, n)) bytes = take n (fill bytes fresh_buffer)

module _ {Poll : Type 0} where
  -- The callback for reading, up to the response that it prints; `fuel` bounds the receives.
  unfoldable pub read_response : Proto → ℕ → Bytes → Client Poll → Cmd (Option Bytes)
  read_response p zero resp c = pure none
  read_response p (suc fuel) resp c = do
    rec ← recv p fresh_buffer 256 c
    bytes ← get_received
    finished ← again_or_would_block c
    elim finished [
      | true ↦ pure (some (resp ++ appended rec bytes))
      | false ↦ read_response p fuel (resp ++ appended rec bytes) c
    ]

  unfoldable pub init :
      PollTraits Poll → Proto → ℕ → Option ℕ → Client Poll → Cmd (Client Poll × Bool)
  init traits p port local_port c = do
    (c', started) ← elim local_port [
      | some local ↦ start_at traits p localhost local c
      | none ↦ start traits p c
    ]
    if started then connect p (request_to port) c' else pure (c', false)

-- `async_stdin::read_line`, with the result of `poll` and the line that `getline` reads.
abbrev pub read_line : ℤ → Bytes → Option Bytes
read_line polled line = if polled ==ℤ pos 1 then some line else none

-- How a turn of the loop of `main` ends.
pub data Turn : Type 0 where
  nothing_to_send sent not_yet : Turn
  failed : Bytes → Turn
  terminated : List Exn → Turn

module _ {Poll : Type 0} where
  -- `!sent && !finished_send() && !finished_recv()`
  unfoldable pub send_input : Proto → Bytes → Client Poll → Cmd Turn
  send_input p input c = do
    count ← send p input (length input) c
    elim count [
      | some _ ↦ pure sent
      | none ↦ do
        finished_send ← again_or_would_block c
        elim finished_send [
          | true ↦ pure not_yet
          | false ↦ do
            finished_recv ← again_or_would_block c
            pure (elim finished_recv [ true ↦ not_yet | false ↦ failed input ])
        ]
    ]

  unfoldable pub turn :
      PollTraits Poll → Proto → Option Bytes → Client Poll → Cmd (Client Poll × Turn)
  unfolding send_input
  turn traits p input c = do
    (c', proceeded) ← Client.proceed traits (pos 10) c
    elim proceeded [
      | proceed_exception es ↦ pure (c', terminated es)
      | returned _ ↦ elim input [
        | none ↦ pure (c', nothing_to_send)
        | some text ↦ do ended ← send_input p text c'; pure (c', ended)
      ]
    ]
