-- ===== src/Lib.antt =====
-- Verification of nyxora: the parts of internal/ that decide which tunnel, path or backend the
-- traffic takes.
--
-- The program. nyxora keeps several tunnels to a remote machine. A transport (internal/transport)
-- is one of them; the transport manager registers the transports, connects them all at once, picks
-- the best or keeps all, and weighs them. Their figures (latency, jitter, loss, stability) come from
-- pings and become scores (internal/transport/scoring.go, internal/routing). The orchestrator hands
-- the figures on to the routing engine, which ranks the paths, to failover, which keeps a status
-- for each transport and calls back when one is down, and to the multipath scheduler, which spreads
-- the traffic over the active paths by weight. The load balancer picks backends, and the rate
-- limiter holds a bucket of tokens for each key. These parts share no state: each is a Go struct
-- behind a lock, and the values pass between them as arguments. The orchestrator
-- (internal/orchestrator) holds one of each and a configuration (internal/config); it registers the
-- transports that the configuration selects, sets up a tunnel to a remote machine, and measures and
-- switches the paths in rounds. Beside them stand a resolver of names (internal/dns), the
-- rotation of secrets (internal/secret), an audit log (internal/audit), metrics (internal/metrics)
-- and the pinning of certificates (internal/tls).
--
-- The files.
--   Common       what the parts share: Common/Words (Go's `int`), Common/Float (`float64`),
--                Common/Assoc (maps), Common/Lists and Common/Panics (slices, run-time panics),
--                Common/Sort (`sort.Slice`), Common/Best (the search for the best element),
--                Common/Shares (percentages), Common/Bytes (texts that are taken apart) and
--                Common/Latest (slices that keep only their end).
--   Balancer     internal/loadbalancer/balancer.go: `next` is Next, `next_with_ip` NextWithIP, and
--                so on. Balancer/Pick and Balancer/Window speak of the weighted choice,
--                Balancer/Select of all algorithms, Balancer/Rotation of runs of calls,
--                Balancer/Minimum of the least loaded backend, Balancer/Affinity of IP hash,
--                Balancer/Health and Balancer/Distinct of the operations by name.
--   Multipath    internal/multipath/multipath.go: the state in Multipath/State, the weights
--                (`adjust_weights` is adjustWeights) in Multipath/Weights, the operations on paths in
--                Multipath/Paths and the choices in Multipath/Pick; the proofs in Normal, Choice,
--                Ranking, Tracked and Total.
--   Failover     internal/failover/failover.go: `update` is Update, `evaluate` a round of the loop
--                of Start; the proofs in Trace, Switch and Lifecycle.
--   Transport    internal/transport: Transport/Registry is registry.go, Transport/Scoring scoring.go,
--                Transport/Base base.go and Transport/Manager manager.go; the proofs on ConnectAll in
--                Connect and Settled, on the active names in Active, on the weights in Weights, on
--                the scores in Score and Stability, on the registry in Tunnels. Transport/Vless is the
--                header and the identifiers of vless.go, byte by byte; the proofs in Uuid.
--   Routing      internal/routing: scorer.go and engine.go; the proofs in Routing/Best.
--   Ratelimit    internal/ratelimit/ratelimit.go; the proofs in Bounded, Waiting and Limits.
--   Monitor      internal/monitor/monitor.go: `store` is the body of the loop of Start for one target;
--                the proofs in Monitor/History.
--   Dns          internal/dns: Dns/Wire is the queries and responses of dns.go, byte by byte, and
--                Dns/Resolver the resolver and its monitor and the client of doh.go; the proofs in
--                Query, Response, Offset and Cached.
--   Secret       internal/secret/rotation.go: Secret/Rotation is the rotator and Secret/Files the text
--                of SaveSecrets and LoadSecrets; the proofs in Aged and Saved.
--   Config       internal/config: Config/Memory is GetAvailableRAMMB, Config/Modes the modes and the
--                tables of transports, Config/Settings the configuration and its checks, Config/Loading
--                `Load`, and Config/Watching watcher.go; the proofs in Detected, Valid, Loaded and
--                Watched.
--   Orchestrator internal/orchestrator: Orchestrator/State is its struct, Orchestrator/Starting `Init`
--                with the constructors of internal/transport, Orchestrator/Rounds lifecycle.go, where
--                `monitor_round` is a turn of the loop of startMonitoring, and Orchestrator/Connecting
--                connect.go; the proofs in Registered, Measured, Switching, Connected and Required.
--   Audit        internal/audit/logger.go; the proofs in Audit/Kept.
--   Metrics      internal/metrics/metrics.go: counters, gauges, histograms and the collector; the
--                proofs in Metrics/Tallied.
--   Tls          internal/tls/pinning.go; the proofs in Tls/Pinned.
-- A file called Tests holds runs of the code and each theorem at a concrete input.
--
-- How the code is modelled.
--   Structs are records, and a method is a function from the struct to the new struct and what it
--   returns. A method that holds its lock from start to end is one step; a theorem about a run of
--   calls is a theorem about the calls in the order in which they took the lock.
--   `int`, `int64` and `uint64` are natural numbers below 2 ^ 64, the bit patterns, with Go's
--   operations that wrap around; a theorem that needs a value not to overflow says so.
--   Times are numbers counted from a moment before all readings of the clock, and a
--   `time.Duration` is a signed `int64`: a negative one leads back.
--   A panic (an index out of range, a division by zero, closing a closed channel) is the value
--   `panic` of `Outcome`.
--   `float64` is an interface, `Float64`, and the theorems that need laws of it take them as
--   hypotheses: an order as long as no value is NaN, and operations that are monotone, as IEEE 754
--   rounds. The witnesses use natural numbers.
--   A map is an association list, in the order in which a `range` comes by its entries. Go leaves
--   that order open, and the theorems are about every list.
--   `sort.Slice` is the insertion sort that Go runs on up to twelve elements. On longer slices Go
--   may leave elements that compare equal in another order.
--   The clock, the pings, the transports' answers and the order in which goroutines send their
--   results are arguments. A callback is an entry of the list of calls that an operation starts, and
--   a call of Disconnect an entry of the list of names that it returns.
--   The loop of the limiter's Wait runs on the readings of the clock that its turns make, of which
--   those up to the first one past the deadline are enough. No other loop needs a bound: each walks
--   over a slice or a map.
--   Texts that the code walks over are lists of bytes, other texts are strings.
--
-- Not modelled: what the transports do beyond their base (starting external programs, writing their
-- configuration files); files, the network, the terminal and log lines, whose answers are
-- arguments; text made by fmt and JSON; the making of certificates; internal/remote,
-- internal/packager, internal/dashboard and internal/interactive.
pub mod Common
pub mod Balancer
pub mod Multipath
pub mod Failover
pub mod Transport
pub mod Routing
pub mod Ratelimit
pub mod Monitor
pub mod Dns
pub mod Secret
pub mod Config
pub mod Orchestrator
pub mod Audit
pub mod Metrics
pub mod Tls
