-- ===== src/Examples/Clients.antt =====
-- Tests of src/endpoint/client.tpp: a client of TCP over an epoll, started twice, connected, polled and
-- stopped.
use strongly_typed_sockets.Base.{
  ◌+◌, ◌≡◌, refl, ℤ, pos, true, List, false, none, some, [], ◌∷◌, if◌then◌else◌, arith,
}
use strongly_typed_sockets.Os.{af_inet, World, Call, after, ok, undefined}
use strongly_typed_sockets.Os.Returns.{Returns, returns, Partial}
use strongly_typed_sockets.Os.Ledger.{Books}
use strongly_typed_sockets.Address.{from_string_and_port}
use strongly_typed_sockets.States.{tcp}
use strongly_typed_sockets.States.Ledger.{IsOpen}
use strongly_typed_sockets.Epoll
use strongly_typed_sockets.Epoll.{Epoll, Event, ctl_del, hangup, read_ready, write_ready}
use strongly_typed_sockets.Epoll.Polling.{proceed_within, waiting, wait_call}
use strongly_typed_sockets.Observer.{epoll_traits, returned}
use strongly_typed_sockets.Observer.Quiet.{epoll_traits-QuietPoll}
use strongly_typed_sockets.Client
use strongly_typed_sockets.Client.{
  ClientState, idle, binded, active, Client, entered, on_writable, register_cbs, unregister_cbs,
}
use strongly_typed_sockets.Client.Control.{start}
use strongly_typed_sockets.Client.Connect.{Request, connect}
use strongly_typed_sockets.Client.Invariant.{held_state, IsValid}
use strongly_typed_sockets.Client.Lifecycle.{start-Books}
use strongly_typed_sockets.Client.Reconnect.{connect-twice, comes_to}
use strongly_typed_sockets.Client.Reactions.{after_all}
use strongly_typed_sockets.Client.Reactions.Proceeding.{proceed-reactions}
use strongly_typed_sockets.Client.Outcome.{Outcome, connect-first_Outcome}
use strongly_typed_sockets.Client.Callbacks.{
  Calm, calls, pending, epoll_traits-SilentPoll, proceed-Once,
}
use strongly_typed_sockets.Examples.Endpoints.{poll, client_of}
use strongly_typed_sockets.Examples.World.{platform, opened, machine, stream_impl, local_host}

abbrev x : ℤ
x = pos 3

abbrev fresh : Client Epoll
fresh = client_of (idle none)

abbrev started : Client Epoll
started = client_of (idle (some (record { m_impl = stream_impl })))

abbrev connected : Client Epoll
connected = client_of (
    active (record {
      m_impl = stream_impl;
      m_remote = some local_host;
      m_local = none;
      m_accepted = false;
    }))

-- A connected client with its handlers.
abbrev running : Client Epoll
running = register_cbs connected

is_open : IsOpen af_inet stream_impl
is_open = record { present = refl; family = refl }

abbrev request : Request
request = record {
  remote_address = b'1' ∷ [];
  remote_port = 80;
  on_connect = some 10;
  on_read_ready = some 11;
  on_disconnect = some 12;
}

-- A second `start` of a started client leaves descriptor 3 with no owner.
start-Books_example :
    Returns
      (λ r w'.
        IsValid tcp r.0
        × Books x
            (held_state x r.0.state + ((if r.1 then held_state x started.state else 0) + 0))
            w')
      (start epoll_traits tcp started opened)
start-Books_example =
    start-Books x epoll_traits (epoll_traits-QuietPoll x) refl tcp started 0 opened is_open
      (refl, machine)

connect-first_Outcome_example :
    Returns
      (λ r _. Outcome request (from_string_and_port platform request.remote_address 80) started r)
      (connect tcp request started opened)
connect-first_Outcome_example =
    connect-first_Outcome x tcp request started 0 opened is_open refl (refl, machine)

-- The second is of the client that the first gave back.
connect-twice_example :
    Partial
      (λ r1 w1. connect tcp request r1.0 w1 ≡ (
        if comes_to w1.platform tcp request r1.0.state
        then undefined
        else ok (r1.0, false) (entered tcp w1)))
      (connect tcp request started opened)
connect-twice_example =
    connect-twice tcp request request started (λ r. r.0) opened
      (λ frame made. absurd (ground (arith, made)))

-- What the epoll gives for descriptor 3: something to read, and a hangup.
abbrev seen : List Event
seen = record { fd = pos 3; type = read_ready } ∷ record { fd = pos 3; type = hangup } ∷ []

abbrev after_poll : World
after_poll = after (waiting poll opened) (wait_call poll (pos 0))

proceed-reactions_example :
    Client.proceed epoll_traits (pos 0) running opened
    ≡ ok
        (record running { m_on_disconnect = none }, returned true)
        (after_all after_poll (
          Call.invoke 11 [] ∷ Call.epoll_ctl (pos 5) ctl_del (pos 3) none ∷ Call.invoke 12 [] ∷ []))
unfolding register_cbs Epoll.to_event
proceed-reactions_example =
    proceed-reactions connected running (pos 0) seen 11 opened after_poll refl refl refl
      (proceed_within poll (pos 0) opened (omega arith)) (λ t k args. refl)

proceed-Once_example :
    Returns
      (λ r w'. calls 12 w'.trace + pending 12 r.0 ≡ 1)
      (Client.proceed epoll_traits (pos 0) running opened)
unfolding register_cbs
proceed-Once_example =
    proceed-Once 12 epoll_traits (epoll_traits-SilentPoll 12) 1 (pos 0) running opened refl refl
      polled
  where
    polled :
        Returns
          (λ _ w'. (calls 12 w'.trace + 1 ≡ 1) × Calm 12 w')
          (Epoll.proceed poll (pos 0) opened)
    polled = rw (proceed_within poll (pos 0) opened (omega arith)) (returns (refl, λ t args. refl))
