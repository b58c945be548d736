-- ===== src/Examples/Starts.antt =====
-- Tests of app/client_main.cpp and of the start of app/server_main.cpp.
use strongly_typed_sockets.Base.{◌≡◌, refl, pos, false, none, some, [], ◌∷◌, length, Option, ℤ}
use strongly_typed_sockets.Os.{af_inet, Bytes}
use strongly_typed_sockets.Os.Returns.{Returns}
use strongly_typed_sockets.States.{tcp, Active}
use strongly_typed_sockets.Epoll.{Epoll}
use strongly_typed_sockets.Client.{Client, active}
use strongly_typed_sockets.App.Client.{read_response}
use strongly_typed_sockets.App.Responses.{Connected, read_response-endless}
use strongly_typed_sockets.App.Startup.{start_server, tcp_text, udp_text, client_main}
use strongly_typed_sockets.App.Connecting.{HasClient, client_main-HasClient}
use strongly_typed_sockets.App.Starting.{client_main-unbound}
use strongly_typed_sockets.App.Serving.{Ready, start_server-Ready}
use strongly_typed_sockets.Examples.World.{platform, before, machine, local_host}
use strongly_typed_sockets.Examples.Endpoints.{client_of}
use strongly_typed_sockets.Examples.Apps.{gone, world_with}

abbrev pub sock : Active
sock = record {
  m_impl = record { m_fd = some (pos 4); m_family = af_inet };
  m_remote = some local_host;
  m_local = none;
  m_accepted = false;
}

abbrev pub connected : Client Epoll
connected = client_of (active sock)

connected-Connected : Connected tcp (pos 4) connected
connected-Connected = record {
  stream = refl;
  sock = sock;
  is_active = refl;
  holds = refl;
  remote = local_host;
  knows = refl;
}

read_response-endless_example :
    Returns
      (λ r w'. (r ≡ none) × (length w'.trace ≡ 5))
      (read_response tcp 5 [] connected (world_with gone))
read_response-endless_example =
    read_response-endless tcp (pos 4) connected 5 [] (world_with gone) connected-Connected λ t. refl

-- The arguments "udp" and "80".
abbrev stoi : Bytes → Option ℤ
stoi text = some (pos 80)

client_main-unbound_example :
    Returns (λ r _. r ≡ none) (client_main stoi (udp_text ∷ (b'8' ∷ b'0' ∷ []) ∷ []) before)
client_main-unbound_example =
    client_main-unbound (pos 3) refl stoi udp_text (b'8' ∷ b'0' ∷ []) 0 before refl (refl, machine)

-- The arguments "tcp" and "80".
client_main-HasClient_example :
    Returns
      (HasClient (pos 3) refl platform 80 0)
      (client_main stoi (tcp_text ∷ (b'8' ∷ b'0' ∷ []) ∷ []) before)
client_main-HasClient_example =
    client_main-HasClient (pos 3) refl stoi tcp_text (b'8' ∷ b'0' ∷ []) [] (pos 80) 0 before refl
      refl refl (refl, machine)

start_server-Ready_example : Returns (Ready (pos 3) refl 0) (start_server tcp_text 80 before)
start_server-Ready_example = start_server-Ready (pos 3) refl tcp_text 80 0 before (refl, machine)
