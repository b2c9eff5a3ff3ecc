-- ===== src/Lib.antt =====
-- A verification of the mesh VPN's relay and control plane. Devices register with the control plane
-- (control-plane/), which keeps accounts, nodes and mesh addresses in PostgreSQL, answers their
-- heartbeats, and mints a token for the relays; a relay (relay-node/) carries WireGuard packets
-- between devices that cannot reach each other, over a mesh dispatcher, a UDP relay and a TCP
-- fallback. valhalla-common/ holds the types that they share.
--
-- Base and its children: tests, lists, maps as association lists, equality, big-endian words,
-- exclusive or, decimal numerals, and a value or an error. Crypto: HMAC-SHA256 and base64 as
-- interfaces, since their code is not in the repository; the witnesses give them concrete
-- functions.
--
-- Relay. Frame: the wire format of relay-node/mesh/protocol.go and readFrame. Auth: authenticate
-- and verifyMeshToken of relay-node/mesh/dispatcher.go. Dispatcher: register, unregister, forward
-- and ActiveSessions; Dispatcher.System: handleConn, one goroutine for a connection, with any
-- interleaving of accept, receive, handle and cancel. SessionTable: relay-node/relay/session.go.
-- Forwarder: handlePacket and the receive loop of relay-node/relay/forwarder.go, the goroutines in
-- steps that share the loop's buffer and run in any order. Tcp: relay-node/transport/tcp.go.
-- Registrar: registerOnce of relay-node/registration/register.go. Tests: runs and witnesses.
--
-- Control. MeshToken: issueMeshToken of control-plane/service/route_service.go, against the relay's
-- check. Nodes: the statements of control-plane/db/node_repo.go and of the IP allocator in
-- control-plane/db/metrics_repo.go, as operations on lists of rows. NodeService:
-- control-plane/service/node_service.go. NodeHandler: control-plane/handler/node.go. Events:
-- control-plane/events/broker.go. Scheduler: control-plane/scheduler/stale_node_cleanup.go and
-- offline_node_deleter.go. Relays: UpsertWithCredentials and GetBestAvailable of
-- control-plane/db/metrics_repo.go. Stun: control-plane/stun/stun.go, its goroutines in steps in
-- the same way. Graph: BuildGraph and Cost of control-plane/routing, with float64 and its
-- operations as a parameter. Paths: ShortestPath of control-plane/routing/optimizer.go, with
-- container/heap as a parameter. Accounts: control-plane/db/account_repo.go. Tokens:
-- valhalla-common/crypto/token.go and control-plane/middleware/auth.go, with the code of JWT as a
-- parameter. Auth, Settings and Devices: the handlers of control-plane/handler/auth.go, settings.go
-- and devices.go, with the client of control-plane/remnawave/client.go and bcrypt as a parameter.
-- Routes: the tables of control-plane/db/route_repo.go and the measurements of
-- control-plane/db/metrics_repo.go. Allowlist: control-plane/handler/relay_allowlist.go before
-- RegisterRelay of control-plane/handler/node.go. Enrolment: Registrar, which is
-- relay-node/registration/register.go, against Allowlist and MeshToken, with what JSON makes of a
-- string as a parameter. RouteService: control-plane/service/route_service.go, which builds the
-- graph of the online nodes, searches it and stores what it finds; RouteService.Answers: its
-- answers, with the relay that Relays chooses and the token of MeshToken, and
-- control-plane/handler/route.go. ToyCrypto, ToyTokens and ListHeap: concrete functions for the
-- parameters. Tests, GraphTests, PathTests, RelayTests, RouteTests, EnrolmentTests and
-- AccountTests: runs and witnesses.
--
-- State is passed explicitly. What the program does not decide is an argument: clock readings, the
-- statements that the database answers, the identifier that it makes, which free address it
-- returns, which of two equally cheap routes it prefers, how much of a write the network takes,
-- which goroutine runs next. Numbers of the wire and counters wrap as their width says. Two loops
-- run on fuel. That of Tcp: a packet takes at least two bytes, so one more than the bytes is
-- enough, and more changes nothing; a lack of fuel is a result of its own. That of Paths: each turn
-- takes an item from the queue, and only a node's first turn adds any, at most one for each of its
-- edges, so that two more than the edges are enough.
--
-- A request of the control plane is one sequence of statements; requests that run at the same time
-- are not modelled. Not modelled: the exit node, key generation, the table of STUN servers, the SSH
-- and log handlers, configuration and logging.
pub mod Base
pub mod Crypto
pub mod Relay
pub mod Control
