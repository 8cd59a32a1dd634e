-- ===== src/Lib.antt =====
-- dwn-server: a model of the server's own logic, with the theorems that make it correct.
--
-- The server gives access to a Decentralized Web Node over HTTP and WebSockets. A tenant registers
-- with a proof of work over its registration data; the registration manager is asked for each
-- message whether its tenant is active. Beside that the server keeps the requests and the responses
-- of Web5 Connect for a short time. A client on a WebSocket sends JSON-RPC requests, which a router
-- gives to a handler; a subscription of the DWN lives as long as its connection refers to it.
--
-- The files, and what they model:
--   Errors            src/dwn-error.ts, and the result of code that can throw
--   ProofOfWork       src/registration/proof-of-work.ts: hashing, the test of a nonce, the search
--   PowManager        src/registration/proof-of-work-manager.ts: challenge nonces, solved proofs;
--                     PowManager/Difficulty has the difficulty and the timers, PowManager/Run the
--                     runs of submissions and timers
--   Registration      src/registration/registration-manager.ts, registration-store.ts
--   Connect           src/web5-connect/web5-connect-server.ts, sql-ttl-cache.ts; Connect/Setup has
--                     their creation, and two servers that start on one database
--   JsonRpc           src/lib/json-rpc.ts, src/lib/json-rpc-router.ts, src/json-rpc-api.ts;
--                     JsonRpc/Connection has src/connection/socket-connection.ts, JsonRpc/Handlers
--                     src/json-rpc-handlers, JsonRpc/Socket the messages and their interleavings, and
--                     JsonRpc/Manager src/connection/connection-manager.ts and src/ws-api.ts
--   Client            src/json-rpc-socket.ts: the client's requests and subscriptions, and in
--                     Client/Server what the server of JsonRpc/Socket answers them
--   Http              src/http-api.ts: the routes of Web5 Connect; Http/Rpc has JSON-RPC over POST /,
--                     Http/Query the object of a query, Http/Reads the routes that read from the
--                     DWN, Http/Admission the registration routes and /info, and Http/Creation
--                     the creation of the whole
--   Shutdown          src/lib/http-server-shutdown-handler.ts
--   Storage           src/storage.ts, src/plugin-loader.ts
--   Config            src/config.ts, and Config/Stores its stores together with src/storage.ts
--   Server            src/dwn-server.ts; Server/Process has src/process-handlers.ts
--   Double            floating-point numbers, a parameter, and exact fractions as an instance
--   Common            numbers, lists, dictionaries, texts and hexadecimal digits
-- The modules below a component's file hold its theorems, and `Tests` its examples.
--
-- State is a record that an operation takes and returns; an operation that throws returns `throw`,
-- beside the state where it has changed by then. A Map is an association list (Common/Dict). Time
-- is a natural number of milliseconds and an argument, as are random bytes. SHA-256, the SQL tables,
-- JSON text, the messages of the DWN and floating-point numbers are parameters; the laws that are
-- asked of them stand in records and predicates (IsTable, IsSchema, IsJson, IsRounded, IsDigest), and
-- the tests give instances of all of them.
--
-- The only fuel is that of the search for a nonce: it bounds the rounds, and one round more than the
-- number of a round that draws a solution is enough. The digits of a number are printed with fuel
-- of one more than the number, which is always enough.
--
-- The parts meet in several places: Http/Admission uses the registration manager, whose view as a
-- registry is Registration/Registry; JsonRpc/Manager runs the machines of JsonRpc/Socket; Http/Rpc
-- uses the handlers of JsonRpc; Client/Server lets the client talk to JsonRpc/Socket; Http/Creation
-- creates the connect server of Connect/Setup, whose dialect comes from Storage; and Config/Stores
-- hands a configuration to Storage.
--
-- Not modelled: the middleware of the HTTP API, /health, /metrics and the text of GET /, calls of
-- start or stop that overlap, what the handlers of the process print, logging and metrics, and the
-- statement that creates the table of registered tenants, which is part of its opening. The objects
-- of a query have no prototype, so that the names that every object inherits are outside of the
-- model, as are requests with other properties than those of their types.
pub mod Common
pub mod Errors
pub mod Double
pub mod ProofOfWork
pub mod PowManager
pub mod Registration
pub mod Connect
pub mod JsonRpc
pub mod Client
pub mod Shutdown
pub mod Http
pub mod Storage
pub mod Config
pub mod Server
