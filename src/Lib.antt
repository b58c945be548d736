-- ===== src/Lib.antt =====
-- A model of the type safe sockets of this repository, and what is proved of it.
--
-- The library wraps a POSIX descriptor (`socket_impl`) into types whose methods are the transitions
-- between the states of a socket, an epoll (`epoll_t`), a dispatcher of events to handlers
-- (`event_observer_t`), and two endpoints, `client_t` and `server_t`, that hold a socket in one of its
-- states, register it with the poll, and handle its events.
--
-- Files and what they model, with paths from the repository's root:
--   Utils               include/utils/mbind.h, include/utils/enum_op.h
--   Address             src/socket/in_address.cpp, src/utils/address_from_string.cpp,
--                       src/utils/to_string.cpp
--   Impl, Impl.Sockaddr src/socket/socket_impl.cpp
--   States              src/socket/socket.tpp, include/socket_states, include/policy,
--                       src/socket/proto.cpp
--   Epoll               src/epoll/epoll.cpp, include/poll_event/event.h
--   Observer            src/endpoint/event_observer.tpp, include/endpoint/poll_traits.h
--   Client, Client.Control, Client.Connect, Client.Transfer
--                       src/endpoint/client.tpp, src/endpoint/endpoint.tpp
--   Accepted            include/endpoint/accepted_sock.h, include/endpoint/accepted_sock_ref.h
--   Server, Server.Control
--                       src/endpoint/server.tpp, src/endpoint/endpoint.tpp
--   Service             app/service.cpp, what the demonstration server answers
--   Locks               the mutexes of include/endpoint/event_observer.h, client.h and server.h
--   SendRecv            include/endpoint/send_recv_i.h and what it joins, src/endpoint/send_i.cpp,
--                       src/endpoint/recv_i.cpp
--   App.Sockets         app/base_socket.h, and the vector of sockets of app/server_main.cpp
--   App.Server          app/server_main.cpp, the callbacks and the loop
--   App.Turn, App.Datagrams
--                       app/server_main.cpp with src/endpoint/server.tpp: the TCP and the UDP server
--                       whose handlers run the callbacks of `init`
--   App.Startup         app/server_main.cpp and app/client_main.cpp, up to the loop
--   App.Client          app/client_main.cpp, app/async_stdin.cpp
--   App.Reading         app/client_main.cpp with src/endpoint/client.tpp: the client whose handler runs
--                       the callback for reading
-- The definitions have the names of the functions that they model. A class is a record of its fields,
-- a `std::variant` of states a data type, a template argument an argument: `Proto` for the protocol,
-- `PollTraits` for the poll, which stands for `poll_traits<Poll>`, the default: `proceed` of an
-- endpoint uses that one in any case. The other files prove things of these, and Examples holds tests.
--
-- The system below is a parameter. A statement of the program is a `Cmd` of Os: it takes a `World` to a
-- result and a new world, or has undefined behaviour. `World.env` answers each call to the system, and
-- each call of a callback of the user, from the whole history of calls, so a theorem about every world
-- is one about every behaviour of the system. `World.platform` has the functions of <arpa/inet.h> and
-- the memory that the program reads without having written it. Exceptions are values. A destructor that
-- closes a descriptor is called where C++ ends the object's life; moving from an object leaves it
-- without a descriptor, and assigning over one drops what it held, as the code does. The closures that
-- `client_t::connect` keeps as function-local statics refer to the frame of the call that made them:
-- `World.frames` counts these calls, and `World.captured` has the frame for each protocol, since each
-- instance of `client_t` has its own.
--
-- Os.Ledger counts how often the system hands out a descriptor and how often the program closes it or
-- hands it over to a callback that takes it. `Books x k w` says that, in the world `w`, all but `k` of
-- the openings of `x` are settled, and that memory is as the code takes it to be (`IsMachine`): the
-- array of an address has 16 bytes, the structures that the system fills have their sizes, and the four
-- bytes behind a `sockaddr_in` on the stack can be read. `Returns P r` says that `r` is defined and ends
-- with a result and a world of which `P` holds.
--
-- States.Phases has the abstract view of a socket: the phases of a descriptor, that is closed, created,
-- bound, listening or connected, and the calls that it takes in each. States.Typestate has the life of a
-- descriptor as a relation, with one constructor for each policy of the types and one for calls that do
-- not concern the descriptor.
--
-- Client.Session and Server.Session have the life of an endpoint as a relation, with one constructor for
-- each operation.
--
-- Locks has the operations of an endpoint once more, as the acts on its two mutexes, which threads do in
-- turns: Locks.Order has the order in which each operation takes them, Locks.Finish what threads come to
-- that keep to one order, and Locks.Deadlock what two come to that do not. All other files take an
-- operation as one sequence of steps, and its callbacks as calls that use no operation of the object.
--
-- An object in a storage is found by its place, a block of memory and a slot in it: App.Sockets keeps
-- the objects that live by their places apart from the elements that point to them, so that a pointer
-- to memory that was freed or used again leads to no object or to another one. The capacity that a
-- vector takes when it grows is a parameter.
--
-- App.Requests counts the receives and the replies in a history of calls: a peer of the TCP server sends
-- its request in chunks, one for each receive on its descriptor.
--
-- Loops are recursions on the list that they run over. The loops of the demonstration programs end
-- only if the system lets them: they run on fuel and have no result when it runs out. App.Receiving,
-- App.Responses, App.Turn.Idle, App.Turn.Answers and App.Datagrams.Turns say which fuel is enough. The
-- one bound on a recursion is that of `decimal`, which stands for `std::to_string`: 20 digits for a `std::uint_fast16_t` of at most 64
-- bits and 10 for an `unsigned` of 32, which are enough for every value of these types.
--
-- Not modelled: `server_t::stop` and
-- `accepted_sock_ref::native_handle`, which do not compile where they are used; what the demonstration
-- programs print, but for the responses of the client, and their signal handlers; the tests in test/.
pub mod Base
pub mod Os
pub mod Utils
pub mod Address
pub mod Impl
pub mod States
pub mod Epoll
pub mod Observer
pub mod Client
pub mod Accepted
pub mod Server
pub mod Service
pub mod App
pub mod SendRecv
pub mod Locks
mod Examples
