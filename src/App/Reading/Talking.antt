-- ===== src/App/Reading/Talking.antt =====
-- app/client_main.cpp: a turn of the client's loop in which a response comes.
use strongly_typed_sockets.Base.{
  ℕ, ◌<◌, ◌≡◌, refl, ℤ, pos, ==ℤ_refl, Option, none, some, List, [], ◌∷◌, ◌++◌, length, ap,
}
use strongly_typed_sockets.Os.{Bytes, World, ok}
use strongly_typed_sockets.Os.Returns.{Returns, returns, Returns-value}
use strongly_typed_sockets.States.{Proto}
use strongly_typed_sockets.Epoll.{EventType, no_event}
use strongly_typed_sockets.Observer
use strongly_typed_sockets.Observer.{PollTraits, find, handled_types}
use strongly_typed_sockets.Observer.Selection.{selected}
use strongly_typed_sockets.Observer.Single.{dispatch-one}
use strongly_typed_sockets.Client.{Client, on_readable, state_fd}
use strongly_typed_sockets.App.Client.{nothing_to_send, read_response}
use strongly_typed_sockets.App.Responses.{Connected, Replies, all_bytes, read_response-joins}
use strongly_typed_sockets.App.Reading.{Talker, read_and_print, run_talker, talk}

module _ {Poll : Type 0} (traits : PollTraits Poll) (p : Proto) (fuel : ℕ) (d : ℤ) where
  abbrev printed : Talker Poll → Option Bytes → Talker Poll
  printed a resp = record a { responses = a.responses ++ resp ∷ [] }

  state_fd-Connected : (c : Client Poll) → Connected p d c → state_fd c.state ≡ d
  state_fd-Connected c h = rw (h.is_active, h.holds) refl

  run_talker-prints :
      (a : Talker Poll) (resp : Option Bytes) (w w' : World)
      → Connected p d a.client
      → read_response p fuel [] a.client w ≡ ok resp w'
      → run_talker traits p fuel on_readable d a w ≡ ok (printed a resp, none) w'
  unfolding run_talker read_and_print
  run_talker-prints a resp w w' h reads =
      simp (run_talker, read_and_print, state_fd-Connected a.client h, ==ℤ_refl d, reads) refl

  talk-prints :
      (type : EventType) (a : Talker Poll) (resp : Option Bytes) (w w1 w2 : World)
      → a.client.m_unhandled ≡ none
      → find no_event a.client.handlers ≡ none
      → selected (run_talker traits p fuel) a.client.handlers handled_types type ≡ on_readable ∷ []
      → traits.proceed a.client.poll (pos 10) w ≡ ok (record { fd = d; type = type } ∷ []) w1
      → Connected p d a.client
      → read_response p fuel [] a.client w1 ≡ ok resp w2
      → talk traits p fuel none a w ≡ ok (printed a resp, nothing_to_send) w2
  unfolding talk Observer.proceed
  talk-prints type a resp w w1 w2 none_for quiet chosen polls h reads =
      simp
        (
          talk,
          Observer.proceed,
          polls,
          none_for,
          dispatch-one (run_talker traits p fuel) a.client.handlers traits on_readable
              (record { fd = d; type = type }) a (printed a resp) w1 w2 quiet chosen
              (run_talker-prints a resp w1 w2 h reads),
        )
        refl

  -- For a connected client of a connection based protocol with no callback for unhandled events and
  -- no handler for the empty type, a poll that gives one event, of its descriptor and for the
  -- handler of what can be read alone, and a system whose replies to the receives on the descriptor
  -- from then on are known up to the first after which `errno` is EAGAIN: a turn of the loop
  -- without a line of input comes to its end, with more fuel than there are replies before that
  -- one. It leaves the client as it was and prints one response, the bytes of all these replies in
  -- order, those of the last one too: it stops there even if that reply had bytes.
  pub talk-joins :
      (type : EventType) (a : Talker Poll) (replies : List (Option Bytes)) (last : Option Bytes)
      (w w1 : World)
      → a.client.m_unhandled ≡ none
      → find no_event a.client.handlers ≡ none
      → selected (run_talker traits p fuel) a.client.handlers handled_types type ≡ on_readable ∷ []
      → traits.proceed a.client.poll (pos 10) w ≡ ok (record { fd = d; type = type } ∷ []) w1
      → Connected p d a.client
      → length replies < fuel
      → Replies w1.env d last replies w1.trace
      → Returns
          (λ r _.
            (r.1 ≡ nothing_to_send)
            × (r.0.client ≡ a.client)
            × (r.0.responses ≡ a.responses ++ some (all_bytes replies last) ∷ []))
          (talk traits p fuel none a w)
  talk-joins type a replies last w w1 none_for quiet chosen polls h more sys =
      let (resp, w2, reads, same) =
        Returns-value (read_response-joins p d a.client replies last fuel [] w1 h more sys) in
      rw (talk-prints type a resp w w1 w2 none_for quiet chosen polls h reads)
        (returns (refl, refl, ap (λ o. a.responses ++ o ∷ []) same))
