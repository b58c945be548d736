-- ===== src/Examples/Endpoints.antt =====
-- An epoll, and a client and a server of it, for the tests of src/epoll and src/endpoint.
use strongly_typed_sockets.Base.{pos, none, some, [], false}
use strongly_typed_sockets.Os.{af_inet}
use strongly_typed_sockets.Epoll.{Epoll}
use strongly_typed_sockets.Client.{ClientState, Client}
use strongly_typed_sockets.Accepted.{ServerState}
use strongly_typed_sockets.Server.{Server}
use strongly_typed_sockets.Examples.World.{local_host}

abbrev pub poll : Epoll
poll = record { m_fd = pos 5; m_max_events = 8 }

abbrev pub client_of : ClientState → Client Epoll
client_of s = record {
  poll = poll;
  handlers = [];
  m_unhandled = none;
  af = af_inet;
  state = s;
  m_remote = some local_host;
  m_on_connect = some 10;
  m_on_read_ready = some 11;
  m_on_disconnect = some 12;
}

abbrev pub server_of : ServerState → Server Epoll
server_of s = record {
  poll = poll;
  handlers = [];
  m_unhandled = none;
  af = af_inet;
  state = s;
  m_on_conn = some 10;
  m_erase_active_socket = some 11;
  m_ignores_fd = false;
}
