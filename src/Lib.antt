-- ===== src/Lib.antt =====
-- zerobased orchestrates local development stacks: a daemon holds the claims of projects on hosts, a
-- route runtime publishes their routes through Caddy, and a run of a project claims its host, starts
-- its processes and publishes.
--
-- Base: what the program uses of Go's language and library (maps, strings, file paths, sorting, %d).
--   A string is a sequence of Unicode code points; the tables of Unicode are the record Base.Text.Unicode.
-- Zberr: internal/zberr. Zberr/Errors.antt is error.go (New is new, Is is is, Critical is critical);
--   Zberr/Registry.antt, Layer.antt and Code.antt are registry.go.
-- Controlplane: internal/controlplane/types.go, and client.go in Controlplane/Client.antt. net/http and the
--   JSON codecs are the record Controlplane.Client.Http.
-- Daemon: the API server of internal/daemon/start.go. Server.antt has its state and handleClaim,
--   Handlers.antt handleRoutes, handleRelease and ServeHTTP, Interleaving.antt the critical sections as
--   the steps of concurrent requests. The route runtime is the record Daemon.Runtime.RouteRuntime.
--   Generations.antt is about the generations that the server counts.
-- Daemon/Startup.antt: Start and Close of internal/daemon/start.go. The operating system is the record Host,
--   and a session keeps, beside the world, what the calls so far have taken and not given back, and whether the
--   runtime's Bootstrap or Close has answered with an error, which leaves open what it still has up. A closing
--   of a file or of the listener gives its descriptor back whatever it answers, as close(2) does.
-- RouteRuntime: internal/route_runtime/docker_caddy.go. Validation.antt is validatePublication,
--   Render.antt renderCaddyfile, Caddy.antt the operations, Bootstrap.antt Bootstrap. The file system,
--   the commands and the clock are the record RouteRuntime.Machine.Machine. AdminUrl.antt is
--   internal/route_runtime/admin_url.go.
-- Compose: internal/composebackend/backend.go. Policies.antt is loadRawPolicies, Isolation.antt
--   validateIsolation, Names.antt ProjectName, Project.antt Load, Start and Stop. compose-go's project is
--   the record Compose.Isolation.ComposeGo; its loader, the lifecycle and SHA-256 are Compose.Project.Tools.
--   Docker.antt is docker_lifecycle.go, over the record Docker.
-- Up: internal/up/runner.go. Config.antt is loadConfig from the decoded file on, Processes.antt the start
--   and the end of the processes and the two loops that wait, Run.antt is Run from its claim on, whose
--   deferred calls run in the reverse of their order. The control plane, the compose backend, processes,
--   files and the clock are the record Up.Environment.Environment. Root.antt is findProjectRoot, and
--   Command.antt Run from its options on, over the record Files.
-- Cli: cmd/zerobased/main.go. A command comes to an Outcome, its exit code and what it prints.
-- Gateway: the daemon over the Caddy runtime (Agreement.antt, Withdrawal.antt), a client that talks to it over
--   a socket (Wire.antt, Session.antt), and a run whose control plane is that client (Orchestration.antt,
--   Bystanders.antt, LostAnswer.antt). On the socket, which is the record Gateway.Wire.Link, a connection may
--   fail before the daemon has the request, and an answer may be lost behind it; an answer that comes, comes
--   whole. Gateway.Wire.Codec is the JSON.
--   Configuration.antt is ConfigFromEnv and what Start finds on the runtime.
-- Tests: runs at concrete inputs, on a small machine.
--
-- A handler takes what the JSON decoder makes of a body, and the token that newClaimToken would make.
-- Generations are int64 bit patterns and wrap at 2 ^ 64. The reload's ten attempts are the code's own
-- bound. The two loops of a run that wait take fuel, one for a round, and answer `none` when it is spent; a
-- run has enough with one more than the ticks that are left before its deadline and its interrupt. The
-- search of a project's directory takes fuel too, one for a directory, and has enough with one more than the
-- elements of the path. Decimal printing has the number itself as fuel, which falls with each digit.
--
-- Not modelled: execCommandRunner.Run, which only calls os/exec; newClaimToken, whose token is a handler's
-- argument; the goroutine that serves the socket, whose requests are the steps of Interleaving.antt, and the
-- signals, which are parameters of the commands; the tests, the npm packages, the documents and the
-- workflows, which hold none of the program's logic.
pub mod Base
pub mod Zberr
pub mod Cli
pub mod Compose
pub mod Controlplane
pub mod Daemon
pub mod RouteRuntime
pub mod Gateway
pub mod Up
pub mod Tests
