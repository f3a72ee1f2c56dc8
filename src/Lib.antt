-- ===== src/Lib.antt =====
-- A model of dizzchat, a chat backend: conversations with members, messages that are written once
-- and replayed, the exchange that stores, publishes and answers a message, and the sockets on which a
-- replica delivers it.
--
-- How the parts meet. A use case is a function of a unit of work: it reads and writes through the
-- repositories' ports, and the unit of work commits what it wrote, or drops it when an error leaves
-- it. The exchange of a message runs the writer's units of work one after the other and publishes
-- between them. An HTTP request finds its caller from the bearer token, runs a use case in a session
-- of its own, and is committed before it is answered; a socket runs the exchange for each message,
-- and is registered with the replica for those of others. The files:
--   Prelude   lists, sorting, paging and results that the other files share;
--   Text      texts as lists of character codes, and `str.strip`;
--   Errors    the exceptions as one sum, from src/dizzchat/contexts/*/domain/**/errors.py;
--   Logging   src/dizzchat/logging.py: the payload of a log line, and the root logger;
--   Messaging/Conversation, Messaging/Message
--             the aggregates of src/dizzchat/contexts/messaging/domain, method by method;
--   Messaging/Ports
--             the protocols of .../domain/*/repository.py and .../application/ports.py, as records
--             of operations over an arbitrary state;
--   Messaging/Services
--             .../application/services, a file for each use case, over the ports;
--   Messaging/Services/Directory
--             what the use cases on conversations promise, as an abstract directory without tables;
--   Messaging/Outbound
--             .../infrastructure/outbound/persistence/session_scoped_*.py and the assistant;
--   Identity/User, Identity/RefreshToken, Identity/TokenService, Identity/AccessTokens
--             src/dizzchat/contexts/identity/domain, and the refresh and access tokens of its
--             infrastructure/outbound/security;
--   Identity/Ports, Identity/RefreshAccessToken, Identity/Services
--             the repositories' protocols in .../identity/domain, .../identity/application/services over
--             them, and the directory of users that messaging is given;
--   Storage   the tables (Rows), a session's unit of work (Session) and the repositories of
--             .../infrastructure/outbound/persistence/repositories over the tables;
--   Http/Routes, Http/Application, Http/Transactions
--             src/dizzchat/shared/infrastructure/inbound/api: the dependencies of routes with the check
--             at start-up, the application with its own routes, and the session of a request with the
--             commit before the response;
--   Http/Responses, Http/Schemas, Http/Environment, Http/Controllers, Http/Requests
--             the `inbound/api` packages of both contexts: the statuses of errors, the bodies, the
--             caller of a request, the controllers, and all requests with their routes;
--   Migrations
--             migrations/versions, each revision up and down (Steps), what an upgrade makes of old
--             tables (Upgraded), and migrations/env.py on several replicas (Replicas);
--   Realtime/ConnectionManager, Realtime/ConversationRegistry, Realtime/Websocket
--             .../infrastructure/inbound/api/realtime: a replica's sockets, their coordination with
--             the subscriptions, and the endpoint's control flow;
--   Realtime/Wiring
--             .../realtime/dependencies.py: the endpoint on the services that it is given, with what
--             it has stored (Stored) and what a client that comes back reads (CaughtUp);
--   Realtime/Protocol
--             .../realtime/protocol.py: the outbound frames as JSON, and the validation of inbound ones;
--   Realtime/Lifespan
--             `lifespan` of src/dizzchat/app.py: the start-up, and the shutdown with what it closes;
--   Realtime/Subscriber, Realtime/RateLimiter, Realtime/MessageCodec, Realtime/FanOut
--             .../infrastructure/outbound/redis: the reader of the fanned-out messages, the
--             limiter's windows, and the messages' encoding with their way between replicas;
--   Tests     runs at concrete inputs.
--
-- How the code is read. An operation is an `Action S A`: it takes the state and returns a result or
-- the error that was raised, and the state. What a session wrote before an error is dropped by
-- `settle`, as `get_session` does. A time is a number, and the clock's reading is an argument. A
-- UUID is a number. A text is a list of character codes. A message's number comes from a sequence
-- that an insert moves on even where it is refused. The order in which rows without ORDER BY come
-- back is that of the tables, the latest insert first.
--
-- Bounds. The loop of ReplayMessages takes the number of its rounds; one more than the number of
-- messages to replay is enough, since each round but the last returns at least one.
--
-- `upgrade head` takes the number of revisions, of which there are five above the empty database; the
-- replay of the wired endpoint takes one round more than there are messages.
--
-- Numbers have no bound: a message's number, a cursor or an id that the columns' bigint does not hold
-- is refused by the database, which the reads of the tables do not show.
--
-- The loops of the endpoint and of the subscriber's reader run over the list of what the client sends
-- and of what the reads come to. The shutdown has no bound of its own: that the closing of a socket
-- outlasts the drain's time is one of the ways in which it may go.
--
-- What is a parameter: lowering a text, hashing and verifying a password, the digest of a secret,
-- the JWT library, the text forms of UUIDs and times, JSON, random texts and UUIDs, whether a call of
-- Redis succeeds, its commands, what arrives at a pub/sub connection, how pydantic reads an int or a UUID, on which frames or sockets a send
-- succeeds, what the database answers to a commit, and what other sessions commit while a socket is
-- served. The commit that ends a write of SessionScopedMessageWriter, and the closing of a socket by the
-- endpoint, are taken to succeed. A session of a socket records the frames that the endpoint's own
-- task sends; Websocket/Wire puts those of broadcasts among them. `receive_json` is taken to raise
-- `KeyError` on a binary frame. The web framework is taken at its word: it solves the dependencies of a route before it
-- validates fields, and leaves `get_session` after the response is sent. The lock of the registry,
-- and that of the subscriber, make a call one step; what happens between the sends of a broadcast and
-- the dropping of its dead sockets is covered by steps that drop any sockets.
--
-- Not modelled: the reading of JSON bodies and of the ids in paths, the texts of error responses, the
-- reading of the environment, the clients of the database and of Redis, and the demonstration script,
-- which drives a server over the network.
pub mod Prelude
pub mod Text
pub mod Errors
pub mod Logging
pub mod Messaging
pub mod Identity
pub mod Storage
pub mod Migrations
pub mod Http
pub mod Realtime
pub mod Tests
