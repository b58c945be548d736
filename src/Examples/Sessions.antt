-- ===== src/Examples/Sessions.antt =====
-- A test of src/endpoint/client.tpp: a client of TCP that is started and destroyed.
use strongly_typed_sockets.Base.{◌≡◌, refl, pos, true, none, some}
use strongly_typed_sockets.Os.{World, Call, ok, after, pure, af_inet, perform}
use strongly_typed_sockets.Os.Returns.{Returns}
use strongly_typed_sockets.Os.Ledger.{Books}
use strongly_typed_sockets.States.{Proto, tcp, Socket}
use strongly_typed_sockets.States
use strongly_typed_sockets.Impl
use strongly_typed_sockets.Epoll
use strongly_typed_sockets.Epoll.{Epoll, flags_from_op, read, read_write, ctl_add}
use strongly_typed_sockets.Observer.{epoll_traits}
use strongly_typed_sockets.Client.{idle, Client, register_cbs}
use strongly_typed_sockets.Client.Control.{start, destroy, adopt_socket}
use strongly_typed_sockets.Client.Session.{Session, starts, ended, next, Session-closes}
use strongly_typed_sockets.Examples.Endpoints.{client_of}
use strongly_typed_sockets.Examples.World.{before, machine, stream_impl}

abbrev fresh : Client Epoll
fresh = client_of (idle none)

abbrev started : Client Epoll
started = register_cbs (client_of (idle (some (record { m_impl = stream_impl }))))

-- The world after the socket was opened and registered.
abbrev registered : World
registered = after (after before (Call.socket af_inet 2049 0)) (
    Call.epoll_ctl (pos 5) ctl_add (pos 3)
      (some (record { events = flags_from_op read_write; fd = pos 3 })))

start_run : start epoll_traits tcp fresh before ≡ ok (started, true) registered
unfolding start register_cbs adopt_socket States.create Impl.open_fd perform Epoll.add_socket
    States.destroy_impl
start_run = refl

life : Session tcp (fresh, before) (started, registered)
life =
    next (fresh, before) (started, registered) (started, registered)
      (starts fresh started true before registered refl start_run) (ended (started, registered))

Session-closes_example :
    Returns (λ _ w''. Books (pos 3) 0 w'') (destroy epoll_traits (λ _. pure tt) started registered)
Session-closes_example =
    Session-closes (pos 3) refl tcp fresh started 0 before registered life tt (refl, machine)
