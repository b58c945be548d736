-- ===== src/Examples.antt =====
-- Tests of src/ on concrete inputs: a system that answers every call, and sockets, polls, clients and
-- servers in it.
mod World
mod Endpoints
mod Sockets
mod Polls
mod Clients
mod Servers
mod Sessions
mod ServerSessions
mod Services
mod Apps
mod Lives
mod Starts
mod Turns
mod Talks
mod Threads
mod Visits
mod Datagrams
