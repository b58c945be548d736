-- ===== src/Examples/Sockets.antt =====
-- Tests of src/socket: addresses and sockets.
use strongly_typed_sockets.Base.{◌+◌, ◌≡◌, refl, pos, true, none, some, [], ◌∷◌, arith}
use strongly_typed_sockets.Os.{World, Call, perform, ok, undefined, af_inet, af_inet6, in4}
use strongly_typed_sockets.Os
use strongly_typed_sockets.Os.Returns.{Returns, returns}
use strongly_typed_sockets.Os.Ledger.{Books}
use strongly_typed_sockets.Address.{InAddressPort, create}
use strongly_typed_sockets.Address.Parsing.{Parsed, create-Parsed}
use strongly_typed_sockets.Impl
use strongly_typed_sockets.Impl.{accept, send_to}
use strongly_typed_sockets.Impl.Sockaddr.{addr_in, sock_addr4, parse_addr}
use strongly_typed_sockets.Impl.RoundTrip.{SameEndpoint, parse_addr-sock_addr4}
use strongly_typed_sockets.States
use strongly_typed_sockets.States.{Binded, Listening}
use strongly_typed_sockets.Impl.Accept.{held_accepted, accept-Books, accept-in6_overruns}
use strongly_typed_sockets.Impl.Behaviour.{Sent, send_to-Sent}
use strongly_typed_sockets.Examples.World.{
  memory, answered, platform, before, opened, machine, stream_impl, stream6_impl, local_host,
}

abbrev text : Os.Bytes
text = b'1' ∷ b'2' ∷ []

create-Parsed_example : Parsed platform text (create platform text)
create-Parsed_example = create-Parsed platform text

parse_addr-sock_addr4_example :
    (b : InAddressPort) × (parse_addr addr_in
        (record (answered (pos 4)) { addr4 = sock_addr4 platform local_host })
        before
      ≡ ok (some b) before)
    × SameEndpoint local_host b
parse_addr-sock_addr4_example =
    parse_addr-sock_addr4 local_host
      (record (answered (pos 4)) { addr4 = sock_addr4 platform local_host }) before refl refl
      (λ p h. refl) machine

accept-Books_example :
    Returns (λ r w'. Books (pos 4) (held_accepted (pos 4) r + 0) w') (accept stream_impl opened)
accept-Books_example = accept-Books (pos 4) refl stream_impl 0 opened refl (refl, machine)

accept-in6_overruns_example : accept stream6_impl opened ≡ undefined
accept-in6_overruns_example =
    accept-in6_overruns stream6_impl (pos 3) opened refl refl (λ e. ground (arith, e)) machine

send_to-Sent_example :
    Sent stream_impl local_host memory 8
      (pos 0)
      opened
      (send_to stream_impl local_host memory 8 (pos 0) opened)
send_to-Sent_example = send_to-Sent stream_impl local_host memory 8 (pos 0) opened

-- What the objects say of themselves after `bind`, `listen` and `accept`.
bound :
    Returns
      (λ r w'. elim r.1 [ some b ↦ States.local_binded b ≡ local_host | none ↦ ⊥ ])
      (States.bind (record { m_impl = stream_impl }) local_host opened)
unfolding States.bind Impl.bind perform
bound = returns refl

abbrev bound_socket : Binded
bound_socket = record { m_impl = stream_impl; m_local = local_host }

listens :
    Returns
      (λ r w'. elim r.1 [
        | some l ↦ (States.max_conn l ≡ 10) × (States.local_listening l ≡ local_host)
        | none ↦ ⊥
      ])
      (States.listen bound_socket 10 opened)
unfolding States.listen Impl.listen perform
listens = returns (refl, refl)

abbrev listening_socket : Listening
listening_socket = record { m_impl = stream_impl; m_local = local_host; m_max_conn = 10 }

accepts :
    Returns
      (λ r w'. elim r [
        | some a ↦ (States.accepted a ≡ true) × (States.local_active a ≡ some local_host)
        | none ↦ ⊥
      ])
      (States.accept listening_socket opened)
unfolding States.accept Impl.accept parse_addr perform
accepts = returns (refl, refl)
