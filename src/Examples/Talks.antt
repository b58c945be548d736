-- ===== src/Examples/Talks.antt =====
-- Tests of app/client_main.cpp: a turn in which "hi" comes on descriptor 4.
use strongly_typed_sockets.Base.{refl, pos, none, some, [], ◌∷◌, ◌++◌, ◌≡◌, arith}
use strongly_typed_sockets.Os.{Call, Reply, Trace, perform}
use strongly_typed_sockets.Os.Returns.{Returns}
use strongly_typed_sockets.States.{tcp}
use strongly_typed_sockets.Epoll
use strongly_typed_sockets.Epoll.{Epoll, read_ready}
use strongly_typed_sockets.Observer.{epoll_traits, find}
use strongly_typed_sockets.Client.{register_cbs}
use strongly_typed_sockets.App.Client.{nothing_to_send}
use strongly_typed_sockets.App.Responses.{Connected}
use strongly_typed_sockets.App.Reading.{Talker, talk}
use strongly_typed_sockets.App.Reading.Talking.{talk-joins}
use strongly_typed_sockets.Examples.World.{answered, linux, local_host}
use strongly_typed_sockets.Examples.Apps.{hi, chunk, nothing, world_with}
use strongly_typed_sockets.Examples.Starts.{sock, connected}

abbrev speaker : Trace → Call → Reply
speaker t (Call.epoll_wait _ _ _) = record (answered (pos 1)) {
  events = record { events = 1; fd = pos 4 } ∷ [];
}
speaker (_ ∷ []) (Call.recv _ _ _ _) = chunk
speaker _ (Call.recv _ _ _ _) = nothing
speaker t c = linux t c

abbrev talker : Talker Epoll
talker = record { client = register_cbs connected; responses = [] }

talker-Connected : Connected tcp (pos 4) talker.client
unfolding register_cbs
talker-Connected = record {
  stream = refl;
  sock = sock;
  is_active = refl;
  holds = refl;
  remote = local_host;
  knows = refl;
}

talk-joins_example :
    Returns
      (λ r _.
        (r.1 ≡ nothing_to_send)
        × (r.0.client ≡ talker.client)
        × (r.0.responses ≡ [] ++ some hi ∷ []))
      (talk epoll_traits tcp 2 none talker (world_with speaker))
unfolding register_cbs Epoll.proceed perform find
talk-joins_example =
    talk-joins epoll_traits tcp 2 (pos 4) read_ready talker (some hi ∷ []) none (world_with speaker)
      _ refl refl refl refl talker-Connected (omega arith)
      (record { count = refl; written = refl; fits = omega arith }, refl, (refl, refl))
