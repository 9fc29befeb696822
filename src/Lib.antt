-- ===== src/Lib.antt =====
-- Agent Sandbox Platform: a verification library of its Go services.
--
-- The platform rents sandboxes to AI agents. The parts modelled here are of three of its services
-- and of a helper inside the sandboxes.
--
-- apps/workload-router is the data plane that exposes a workload's port to browsers. Its registry
-- (internal/auth/registry.go) holds the exposures, their hosts, the one-time capabilities and the
-- sessions. A caller exchanges a capability for a session at the exposure's host, authenticates
-- requests with the session, takes one of the exposure's slots for each request, and has its
-- connections tracked, so that revocation and expiry can close them. Workload/Host.antt is
-- canonicalHost, Workload/Registry.antt the state with Revoke and Close, Registry/Sections.antt the
-- sections under the mutex and Registry/Methods.antt the methods made of them. A run of concurrent
-- calls is a list of sections in Registry/Interleaving.antt; the event sink, which is called outside
-- the lock, is the list of events that were sent. internal/router/router.go is in Workload/Headers.antt
-- (the headers taken out of requests and responses), Workload/Redirects.antt (rewriteLocation),
-- Workload/Router.antt (cookies, origins, the page and the answers) and Router/Serving.antt, where
-- ServeHTTP calls the registry's methods; internal/resolver/resolver.go is Workload/Resolver.antt. What
-- other goroutines do to the registry between the calls of one request is an argument of the model.
--
-- apps/control-plane-go is the service that grants Leases on sandboxes. ControlPlane/Lease.antt has the
-- types and errors of internal/lease; ControlPlane/Tokens.antt is VerifySubjectToken of internal/auth;
-- and of internal/backend/kubernetes ControlPlane/Cursors.antt has identity.go and cursor.go,
-- ControlPlane/Commands.antt the paths and shell commands of exec.go, ControlPlane/Buffers.antt the
-- output buffers, and ControlPlane/Transfers.antt the transfer manager of transfer.go, whose methods
-- each hold the mutex throughout: a run is a list of calls in any order. The methods of Backend in
-- backend.go and exec.go act on a node, a world and the transfers of the process.
-- ControlPlane/Cluster.antt says what they use of the world: the API server, the clock, the random
-- reader and the runner of commands, each an argument of the model. ControlPlane/Claims.antt has
-- buildClaim, recordFromClaim, requireClaim, deleteClaim and stopLeaseAndDelete,
-- ControlPlane/Acquire.antt Acquire, ControlPlane/Requests.antt Get, Release, Delete, Exec, ReadFile
-- and WriteFile, ControlPlane/Listing.antt List, ListActiveLeases, SweepExpired and Ready, and
-- ControlPlane/Options.antt New. Claims/Store.antt says what theorems rely on of an API server that
-- answers, and Claims/Labels.antt of its lists of claims. Close is close_transfers. ControlPlane/Markers.antt and ControlPlane/Streams.antt are the rest
-- of transfer.go: the marker line of the helper in the sandbox, OpenFile and WriteFileStream; what the
-- helper's run does is an argument.
--
-- apps/command-supervisor runs commands inside a sandbox. Supervisor/Events.antt has the records of
-- output events in internal/runtime/persistence.go and Supervisor/Spool.antt the segment files they are
-- appended to, as a list of segments.
--
-- images/runtime/file-transfer is the helper in a sandbox that the transfers run. Sandbox/Helper.antt is
-- how it reads its arguments and its path.
--
-- Base holds what these share: Boolean tests, decided equality, lists measured by native numbers,
-- results, dictionaries for Go's maps, and strings as bytes. Codec has the functions of Go's standard
-- library that are written out: base64, hexadecimal, decimal and big-endian integers and POSIX paths.
--
-- Times are nanoseconds since 1970, natural numbers, and an argument of every operation that reads
-- the clock; the expiry in a token is an integer of seconds. The generation counter of the
-- registry wraps at 2 ^ 64, and so do the nanoseconds of a time to live; a time before 1970 that this
-- comes to is 1970. Counters that the Go code takes down are natural numbers: the
-- invariants show that they are positive there. `strings.TrimSpace` runs on fuel, the length of
-- the text, which is enough since each step drops a byte; `decodeEvents` runs on one more than the
-- length of its text, since a record is not empty. A Go map is an association list whose order
-- stands for the order of a `range` loop.
--
-- waitForReadyClaim polls as often as the environment says that the context allows. Reading from the
-- API server changes nothing, and no one else changes it while one method runs, except while the method
-- polls or waits. Error messages that `fmt` puts together are written without the values in them.
--
-- SHA-256, HMAC, AES-GCM, encoding/json, net/http's cookies, net/netip, net/url, mime, RFC 3339 times,
-- Unicode case, the headers that httputil.ReverseProxy takes out of a request before Rewrite and the
-- Kubernetes validation of names are parameters. Contexts of parents, waiting on
-- channels and reading from the streams of a transfer are not modelled, nor are failing reads and writes of files,
-- the control plane's HTTP interface, the proxy's transport and its timeouts, the manager of the
-- supervisor, the files that the transfer helper opens, process start-up and the client libraries.
pub mod Base
pub mod Codec
pub mod Workload
pub mod ControlPlane
pub mod Supervisor
pub mod Sandbox
