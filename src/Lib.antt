-- ===== src/Lib.antt =====
-- Proxy Centauri: a reverse proxy for HTTP, TCP and UDP. A "jump gate" listens on a port and
-- spreads its requests over "star systems" (backends). Each gate has one load balancer, a health
-- checker that hands the balancer the list of the backends that answer, and, for HTTP, a chain of
-- handlers: rate limiter, metrics, request log, reverse proxy (cmd/centauri/main.go builds it).
--
-- What models what:
--   Balancer.antt             internal/balancer/balancer.go: the three algorithms behind one interface
--   Balancer/RoundRobin.antt  internal/balancer/roundrobin.go
--   Balancer/LeastConn.antt   internal/balancer/leastconn.go: a map of pointers to counters, the
--                             counters in a store of cells, so that an `Acquire` can still hold a
--                             counter that a `SetBackends` has dropped
--   Balancer/Weighted.antt    internal/balancer/weighted.go: smooth weighted round-robin on 64-bit ints
--   Health.antt               internal/health/pulsescan.go: `check`, `SetAll`, `Healthy`, the pings
--   Health/Steps.antt         internal/health/pulsescan.go: the goroutine of `Start`, step by step
--   Http.antt                 what the handlers use of net/http, and the `statusWriter` that
--                             internal/metrics/middleware.go and internal/logger/stellar.go both have
--   Http/Text.antt            the functions of strings and net on text that the handlers call
--   Metrics/Middleware.antt   internal/metrics/middleware.go
--   Metrics/Store.antt        internal/metrics/store.go: the SQL statements on the tables
--   Metrics/Collector.antt    internal/metrics/collector.go: from what is gathered to snapshots
--   RateLimit.antt            internal/ratelimit/fluxshield.go
--   Proxy.antt                internal/proxy/proxy.go: the director and the two hooks
--   Logger.antt               internal/logger/stellar.go: the entry of a request and its client address
--   Main.antt                 cmd/centauri/main.go: the store, the oracle and the gates as moves on one state
--   Launch.antt               cmd/centauri/main.go: the servers of the gates, with internal/tls/stellar.go
--   Gate.antt                 cmd/centauri/main.go: the chain of handlers of an HTTP gate
--   Reload.antt               cmd/centauri/main.go: the registry of gates, started and reloaded by name, with
--                             the loop of internal/config/watcher.go
--   Config.antt               internal/config/config.go: the records and `Load`
--   Config/Env.antt           os.ExpandEnv, which `Load` calls
--   Wizard.antt               cmd/centauri/wizard.go: from what is typed to a configuration
--   Tunnel/Tcp.antt           internal/tunnel/tunnel.go: the goroutines as connections whose moves interleave
--   Tunnel/Udp.antt           internal/tunnel/udp.go: the goroutines as workers whose moves interleave
--   Oracle/Aggregator.antt    internal/oracle/aggregator.go: request counts to rates
--   Oracle/Engine.antt        internal/oracle/oracle.go: when Claude is called, and what is kept
--   Oracle/Flights.antt       internal/oracle/oracle.go: the loop and the flush, which overlap while Claude is asked
--   Oracle/Signals.antt       internal/oracle/signals.go: requests to list and to resolve signals
--   Numbers.antt              strconv.ParseInt and, in Numbers/Atoi.antt, strconv.Atoi; decimal digits
--   Floats.antt               the operations of float64 that are used, and laws of them
--   Prelude.antt              lists, association lists and 64-bit integers for all of these
--   Tests.antt                every property at concrete inputs
-- A component's modules of proofs stand below it, named for what they prove.
--
-- State is passed explicitly: an operation takes the state and returns the new one. A mutex makes
-- an operation one step. Where the source takes a lock twice (LeastConn's `Acquire` and `Release`
-- read the map under the lock and add to the counter after it) the two halves are separate
-- definitions, and their interleaving with a `SetBackends` is a theorem. The health checker holds
-- no lock: Health/Steps.antt has its goroutine step by step, with the begin and the answer of a
-- ping apart, and the moves of Reload.antt and Main.antt come between these steps; a `SetAll` is
-- one step. `check` of Health.antt is what the steps come to when nothing disturbs them, and
-- Health/Overlap.antt is a `SetAll` between two pings. A tick of the flush or of the oracle and a
-- request are one step of Main.antt; in Oracle/Flights.antt an analysis is two, and the other
-- goroutine goes on while Claude is asked. `Next` of LeastConn reads all counters in one step; the
-- source reads them one after the other while additions go on. Integers of 64 bits wrap around
-- (`add64`, `sub64`, and `% 2 ^ 64` for the counter of the round robin); a theorem that needs no
-- overflow has that as a hypothesis. A map is an association list that `insert` keeps without
-- duplicates where the source relies on it. A range over a sync.Map takes its entries in the order
-- of the list. Loops over a list need no fuel. The wizard asks for backends as long as the answer
-- is yes: a round that goes on reads at least one character, so fuel above the number of
-- characters is enough. The digits of a number n are written with fuel n + 1, and each digit
-- leaves less.
--
-- Parameters, since their code is not here: the network (what a ping finds),
-- golang.org/x/time/rate (a limiter with `Allow`), Prometheus (vectors with a value for each list
-- of labels), the transport of net/http/httputil's reverse proxy (what a round trip to a host
-- gives; a request without a host or to port 0 fails), the arithmetic of float64, what Claude
-- answers, the metrics that Prometheus gathers, whether SQLite takes a statement, what the system
-- says to a bind, YAML in both directions, and strconv.ParseFloat, whose values are those of the
-- abstract float64.
--
-- Simplifications: text is a list of code points; times are natural numbers, of seconds or of what
-- the file says; the label `status_code` is the number and not its decimal digits; headers are
-- only those that the code reads or that decide the status; the histogram of durations is its
-- count of observations; log lines for people are left out.
--
-- Not modelled: the manager of golang.org/x/crypto/acme/autocert that internal/tls/stellar.go
-- fills; the prompt that internal/oracle/oracle.go formats for Claude; the messages that are
-- printed, the signals that end the program, and when the tickers tick, of cmd/centauri/main.go,
-- since they are calls of the operating system; registration with Prometheus.
pub mod Balancer
pub mod Config
pub mod Floats
pub mod Gate
pub mod Health
pub mod Http
pub mod Launch
pub mod Logger
pub mod Main
pub mod Metrics
pub mod Numbers
pub mod Oracle
pub mod Prelude
pub mod Proxy
pub mod RateLimit
pub mod Reload
pub mod Tests
pub mod Tunnel
pub mod Wizard
