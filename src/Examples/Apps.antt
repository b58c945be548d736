-- ===== src/Examples/Apps.antt =====
-- Tests of app/server_main.cpp: a peer on descriptor 4 sends "hi" and waits for the answer.
use strongly_typed_sockets.Base.{
  ℕ, zero, suc, ◌<◌, ◌≡◌, refl, ℤ, pos, minus_one, true, none, some, [], ◌∷◌, arith, length, ◌+◌,
}
use strongly_typed_sockets.Os.{Bytes, Call, Reply, Trace, World, af_inet, e_again, and_then, pure}
use strongly_typed_sockets.Os.Returns.{Returns}
use strongly_typed_sockets.Accepted.{AcceptedSock}
use strongly_typed_sockets.SendRecv.{accepted_sock}
use strongly_typed_sockets.Service.{create_response, parse_ints, words, numbers, to_ints}
use strongly_typed_sockets.App.Sockets.{Element, ActiveSockets, emplace_back, erase}
use strongly_typed_sockets.App.Sockets.Settled.{IsSettled, place}
use strongly_typed_sockets.App.Sockets.Lifetime.{LeadsTo, erase-crosses}
use strongly_typed_sockets.App.Server.{Main, receive_all, visit}
use strongly_typed_sockets.App.Receiving.{Delivers, AtEnd, receive_all-endless}
use strongly_typed_sockets.App.Answering.{Answered, Takes, visit-Answered}
use strongly_typed_sockets.Examples.World.{answered, platform, local_host, memory}

abbrev pub hi : Bytes
hi = b'h' ∷ b'i' ∷ []

abbrev pub chunk : Reply
chunk = record (answered (pos 2)) { received = hi }

abbrev pub nothing : Reply
nothing = record (answered minus_one) { errno = e_again }

-- The first call delivers the text, a later receive finds nothing, and a send is taken.
abbrev pub peer : Trace → Call → Reply
peer [] (Call.recv _ _ _ _) = chunk
peer (_ ∷ _) (Call.recv _ _ _ _) = nothing
peer t _ = answered (pos 2)

-- A peer that has closed the connection.
abbrev pub gone : Trace → Call → Reply
gone t c = answered (pos 0)

abbrev pub world_with : (Trace → Call → Reply) → World
world_with env = record {
  env = env;
  platform = platform;
  trace = [];
  errno = pos 0;
  polled = none;
  frames = 0;
  captured = λ k. none;
}

abbrev connection : ℤ → AcceptedSock
connection d = record {
  m_sock = record {
    m_impl = record { m_fd = some d; m_family = af_inet };
    m_remote = some local_host;
    m_local = some local_host;
    m_accepted = true;
  };
  m_remote = local_host;
}

delivers : Delivers peer (pos 4) 8 e_again (hi ∷ []) []
delivers = λ buffer len.
    (record { count = refl; written = refl; fits = omega arith }, λ buffer' len'. (refl, refl))

at_end : AtEnd gone (pos 4) 8
at_end = λ t buffer len. record { count = refl; written = refl; fits = omega arith }

receive_all-endless_example :
    Returns
      (λ r w'. (r.1 ≡ none) × (length w'.trace ≡ 5))
      (receive_all accepted_sock 5 memory [] (connection (pos 4)) (world_with gone))
receive_all-endless_example =
    receive_all-endless (pos 4) 8 (connection (pos 4)) 5 memory [] (world_with gone) refl refl
      at_end

-- The vector with one connection, and with two in the same block.
abbrev pub double : ℕ → ℕ
double n = suc (n + n)

abbrev element : ℕ → ℤ → Element
element slot d = record { socket = some (place 7 slot); fd = d; text = [] }

abbrev pub one_socket : ActiveSockets AcceptedSock
one_socket = record {
  block = 7;
  capacity = 1;
  elements = element 0 (pos 4) ∷ [];
  objects = λ p. some (connection (pos 4));
}

abbrev two_sockets : ActiveSockets AcceptedSock
two_sockets = record {
  block = 7;
  capacity = 3;
  elements = element 0 (pos 4) ∷ element 1 (pos 5) ∷ [];
  objects =
      λ p. elim p.slot [ zero ↦ some (connection (pos 4)) | suc _ ↦ some (connection (pos 5)) ];
}

pub one-IsSettled : IsSettled one_socket
one-IsSettled = record { stand = ((refl, (connection (pos 4), refl)), tt); room = omega arith }

two-IsSettled : IsSettled two_sockets
two-IsSettled = record {
  stand = ((refl, (connection (pos 4), refl)), ((refl, (connection (pos 5), refl)), tt));
  room = omega arith;
}

pub grows : (n : ℕ) → n < double n
grows n = omega arith

erase-crosses_example :
    (v' : ActiveSockets AcceptedSock) × (erase accepted_sock 0 two_sockets (world_with peer)
      ≡ and_then (accepted_sock.destroy (connection (pos 4)) (world_with peer)) (λ _. pure v'))
    × LeadsTo
        (emplace_back double (connection (pos 6)) (pos 6) v')
        0
        (element 1 (pos 5))
        (connection (pos 6))
erase-crosses_example =
    erase-crosses accepted_sock double (connection (pos 6)) (pos 6) (element 0 (pos 4))
      (element 1 (pos 5)) (connection (pos 4)) two_sockets (world_with peer) two-IsSettled refl refl

-- A request without a number is its own answer.
abbrev serving : Main AcceptedSock
serving = record { active_sockets = one_socket; tmp_buff = memory; is_tcp = true }

echoed : create_response hi ≡ some hi
unfolding create_response parse_ints words numbers to_ints
echoed = refl

takes : Takes peer (pos 4) hi
takes [] = refl
takes (_ ∷ _) = refl

abbrev serves : LeadsTo one_socket 0 (element 0 (pos 4)) (connection (pos 4))
serves = record { there = refl; target = place 7 0; pointer = refl; object = refl }

visit-Answered_example :
    Returns
      (Answered 0 (pos 4) hi 2 serving (world_with peer))
      (visit accepted_sock 2 0 (element 0 (pos 4)) serving (world_with peer))
visit-Answered_example =
    visit-Answered (pos 4) (connection (pos 4)) refl 0 2 (element 0 (pos 4)) (hi ∷ []) hi serving
      (world_with peer) serves refl (omega arith) (omega arith) delivers refl echoed takes
