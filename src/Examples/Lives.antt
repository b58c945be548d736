-- ===== src/Examples/Lives.antt =====
-- Tests of src/socket/socket.tpp: the life of a listening socket, from `create` to its destructor.
use strongly_typed_sockets.Base.{◌≡◌, refl, ℤ, pos, minus_one, ◌==ℤ◌, true, none, [], arith}
use strongly_typed_sockets.Os.{Call, Reply, Trace, World, perform, af_inet}
use strongly_typed_sockets.Impl
use strongly_typed_sockets.Impl.{SocketImpl, open_fd, bind_addr, close}
use strongly_typed_sockets.States.{tcp, create, bind, listen, destroy_impl}
use strongly_typed_sockets.States.Phases.{
  Phase, closed, created, bound, listening, connected, Fresh, phase, proper,
}
use strongly_typed_sockets.States.Typestate.{
  no_object, listening_socket, Life, step, ended, creates, binds, listens, is_destroyed,
}
use strongly_typed_sockets.States.Refinement.{Life-proper}
use strongly_typed_sockets.Examples.World.{answered, platform, stream_impl, local_host}

-- A system that knows one descriptor, and hands it out where it is closed.
abbrev handed_out : Phase → ℤ
handed_out closed = pos 3
handed_out _ = minus_one

abbrev one_descriptor : Trace → Call → Reply
one_descriptor t (Call.socket _ _ _) = answered (handed_out (phase (pos 3) t))
one_descriptor t (Call.accept4 _ _ _) = answered (handed_out (phase (pos 3) t))
one_descriptor t _ = answered (pos 0)

handed_out-closed : (ph : Phase) → (handed_out ph ==ℤ pos 3) ≡ true → ph ≡ closed
handed_out-closed closed h = refl
handed_out-closed created h = absurd (ground (arith, h))
handed_out-closed bound h = absurd (ground (arith, h))
handed_out-closed listening h = absurd (ground (arith, h))
handed_out-closed connected h = absurd (ground (arith, h))

hands_out_fresh : Fresh (pos 3) one_descriptor
hands_out_fresh = record {
  by_socket = λ t domain type protocol. handed_out-closed (phase (pos 3) t);
  by_accept = λ t fd addr_size flags. handed_out-closed (phase (pos 3) t);
}

abbrev start : World
start = record {
  env = one_descriptor;
  platform = platform;
  trace = [];
  errno = pos 0;
  polled = none;
  frames = 0;
  captured = λ k. none;
}

listens_and_closes : (w : World) × Life tcp (pos 3) (no_object, start) (no_object, w)
unfolding create open_fd bind Impl.bind bind_addr listen Impl.listen destroy_impl close perform
listens_and_closes = (
  _,
  step _ _ _ (creates af_inet (record { m_impl = stream_impl }) start _ refl refl) (
      step _ _ _ (binds (record { m_impl = stream_impl }) local_host _ _ _ refl refl) (
        step _ _ _ (listens (record { m_impl = stream_impl; m_local = local_host }) 10 _ _ _ refl) (
          step _ _ _
            (is_destroyed
              (listening_socket
                (record { m_impl = stream_impl; m_local = local_host; m_max_conn = 10 }))
              stream_impl _ _ refl refl)
            (ended _)))),
)

Life-proper_example :
    (proper (pos 3) listens_and_closes.0.trace ≡ true)
    × (phase (pos 3) listens_and_closes.0.trace ≡ closed)
    × Unit {0}
Life-proper_example =
    Life-proper tcp (pos 3) no_object start listens_and_closes.0 listens_and_closes.1 refl refl
      hands_out_fresh
