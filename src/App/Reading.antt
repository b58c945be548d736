-- ===== src/App/Reading.antt =====
-- app/client_main.cpp: the client together with the callbacks that `init` gave it. The one for reading,
-- closure 1, receives with the client itself, so the handler of src/endpoint/client.tpp that calls it
-- has its body in the place of the call. The two others only print.
pub mod Talking
use strongly_typed_sockets.Base.{
  ℕ, ℤ, pos, ◌==ℤ◌, Option, none, some, List, [], ◌∷◌, ◌++◌, if◌then◌else◌,
}
use strongly_typed_sockets.Os.{Bytes, Cmd, pure, ◌>>=◌}
use strongly_typed_sockets.States.{Proto}
use strongly_typed_sockets.Observer
use strongly_typed_sockets.Observer.{
  PollTraits, Exn, Runner, Proceeded, returned, proceed_exception,
}
use strongly_typed_sockets.Client
use strongly_typed_sockets.Client.{
  Client, Handler, erase, on_readable, on_writable, state_fd, run_erase, run_on_writable,
}
use strongly_typed_sockets.App.Client.{Turn, nothing_to_send, terminated, read_response, send_input}

-- The client, and the responses that it has printed: `none` for a callback that `fuel` was not enough
-- for.
pub record Talker (Poll : Type 0) : Type 0 where
  pub client : Client Poll
  pub responses : List (Option Bytes)

module _ {Poll : Type 0} (traits : PollTraits Poll) (p : Proto) (fuel : ℕ) where
  -- The lambda for READ_READY, and the callback.
  unfoldable pub read_and_print : ℤ → Talker Poll → Cmd (Talker Poll × Option Exn)
  read_and_print fd a =
      if fd ==ℤ state_fd a.client.state
      then (do
        resp ← read_response p fuel [] a.client
        pure (record a { responses = a.responses ++ resp ∷ [] }, none))
      else pure (a, none)

  unfoldable pub run_talker : Runner Handler (Talker Poll)
  unfolding read_and_print run_erase run_on_writable
  run_talker on_readable fd a = read_and_print fd a
  run_talker erase fd a = do
    (c, thrown) ← run_erase traits fd a.client
    pure (record a { client = c }, thrown)
  run_talker on_writable fd a = do
    (c, thrown) ← run_on_writable traits fd a.client
    pure (record a { client = c }, thrown)

  -- A turn of the loop of `main`, with what `read_line` gave.
  unfoldable pub talk : Option Bytes → Talker Poll → Cmd (Talker Poll × Turn)
  unfolding run_talker send_input
  talk input a = do
    (a', proceeded) ←
        Observer.proceed traits run_talker a.client.poll a.client.handlers a.client.m_unhandled
          (pos 10) a
    elim proceeded [
      | proceed_exception es ↦ pure (a', terminated es)
      | returned _ ↦ elim input [
        | none ↦ pure (a', nothing_to_send)
        | some text ↦ do ended ← send_input p text a'.client; pure (a', ended)
      ]
    ]
