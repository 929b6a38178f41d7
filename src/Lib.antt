-- ===== src/Lib.antt =====
-- A verification of the flight simulation server (cmd/fsd, internal).
--
-- The program is a server of the FSD protocol with a web interface. A connection is a session,
-- which reads lines; a line is a command with fields; the command's handler changes the session's
-- client, the table of all clients and the flight plans, and passes lines on to other clients. The
-- model is the state of the server with explicit steps: `Server` has the clients and sessions by
-- number (their pointers), the client manager's table, the timers that run, the goroutines that
-- were started, and what was written to the connections. Code is a function from a state to a value
-- and a state, or to a panic, which ends the process.
--
-- The parts, and where they are modelled:
--   internal/fsd_server/packet/packet_utils.go      Packet/Lines.antt: parserCommandLine,
--                                                   makePacket, callsignValid, frequencyValid
--   internal/fsd_server/packet/net_utils.go         Packet/Framing.antt: createSplitFunc and the
--                                                   scanner's loop
--   internal/fsd_server/packet/client.go            Packet/Client.antt (NewClient, Delete,
--                                                   Reconnect, MarkedDisconnect), Packet/Updates.antt
--                                                   (positions, plans, ATIS), Packet/Sending.antt
--   internal/fsd_server/packet/client_manager.go    Packet/Registry.antt (the table),
--                                                   Packet/Manager.antt (broadcasts, shutdown)
--   internal/fsd_server/packet/command_handler.go   Packet/Login.antt, Packet/Positions.antt,
--                                                   Packet/Messages.antt, Packet/PlanHandlers.antt,
--                                                   Packet/Commands.antt (handleCommand)
--   internal/fsd_server/packet/connection_handler.go  Packet/Commands.antt: SendError, handleLine,
--                                                   HandleConnection's end, goroutines and timers
--   internal/interfaces/fsd                         Fsd: Command, Outcome, Rating, Broadcast,
--                                                   Distance
--   internal/interfaces/operation, internal/database  Database: Model, Plans, Activity (stations),
--                                                   Permission, Accounts (users), Signups,
--                                                   Histories (connections, totals)
--   internal/utils                                  Utils: Cast, Format (fmt's verbs), Trigger,
--                                                   Cache, Slices
--   internal/interfaces/config, internal/base/config.go  Config: Version and Files (utils.go), Limits,
--                                                   Ssl, Tokens (jwt.go), Mail, Stores, Database,
--                                                   Servers, Whole (server.go, config.go, readConfig)
--   internal/base/cleaner.go                        Base/Cleaner.antt
--   internal/interfaces/service/struct.go           Service/Response.antt
--   internal/http_server/service/field.go           Service/Fields.antt
--   internal/http_server/service/email.go           Service/Email.antt: the codes;
--                                                   Email/Notices.antt
--   internal/http_server/service/user.go            Service/Users.antt (registration, login, tokens),
--                                                   Service/Users/Profile.antt, Users/Admin.antt
--   internal/http_server/service/client.go          Service/Clients.antt, on the FSD server's state
--   internal/http_server/service/activity.go, audit.go  Service/Activities.antt
--   internal/http_server/service/server.go          Service/Reports.antt
--   internal/http_server/service/store/local.go     Service/Store.antt
--   internal/http_server/middleware/limiter.go      Middleware/Limiter.antt
--
-- A web service is a function from `Web` (the database, the email codes, the jobs left to goroutines
-- and the time) to a value, or to the early return of an error, with the state after it
-- (Service/Web.antt); Service/Outcome.antt has the rules for what holds after it. The clients service
-- runs on the state of the FSD server instead, which the two share.
-- A check of the configuration is a function from the state outside (files, network) to the checked
-- configuration or to a failure (Config.antt); Config/Outcome.antt has its rules. The limits that it
-- checks are those of which the web services make their validators.
--
-- Packet/State.antt has the state, Packet/Monad.antt the code's form, Packet/Ends.antt total
-- correctness, Packet/Invariant.antt and its children the invariant. Functions keep the source's
-- names in snake case; a large one is cut at its early returns, and each piece names its origin.
--
-- An `int` is an integer, where StrToInt refuses a text beyond 64 bits; a `byte` and a `uint32`
-- wrap around. A permission is an integer whose bits are a set. Times and ids are natural numbers
-- without a bound, and the offset of a page does not wrap. `scan` runs on fuel, one unit for each
-- line and each read, and its theorem says how much is enough.
--
-- Parameters, since their code is not in the repository: what gorm and bcrypt answer (`Database`,
-- `Accounts`, `Signups`, `Records`), `float64` (`Floats`), the mail server, the template engine,
-- the signature of tokens, JSON, the file system, the network and time.ParseDuration (`Outside`,
-- `Disk`). A query of gorm is asked with its condition where the code's outcome depends on it.
-- Examples.antt and the tests have an instance of each.
--
-- Not modelled: log lines, except where writing one panics; locks (a handler runs as one step, and
-- goroutines and timers run between handlers in any order); the scanner's limit of 64 KiB for a
-- line and the sharing of its buffer with goroutines; errors of writes, which are only logged; the
-- time limit of a shutdown whose goroutine goes on; the descriptions that responses show; the
-- stores in the cloud, which are calls of their libraries; the mail with a code, of which the
-- model has only whether its template renders and the server takes it; the web controllers, the
-- logger and the gRPC server.
pub mod Prelude
pub mod Utils
pub mod Fsd
pub mod Packet
pub mod Database
pub mod Service
pub mod Middleware
pub mod Config
pub mod Base
pub mod Examples
pub mod Tests
