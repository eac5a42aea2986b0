-- ===== src/Lib.antt =====
-- A verification library for muxcore, a multi-protocol server core in Go. It models the parts below
-- as functions on explicit state, with theorems about what makes each of them correct, and about what
-- they do where they are not. Paths are those of the repository.
--
-- Common holds the helpers: Boolean tests, lists, dictionaries (Go's maps), counts in a list, sorting
-- and binary search as in Go's sort, integers, bit operations, texts as bytes with the sums of hash/fnv, the
-- laws of float64 that the thresholds use (Float) and its operations, of which nothing is assumed (Floats).
--
-- Reliability (core/reliability/reliability_manager.go): the circuit breaker as a state machine over
--   calls with clock readings, and the degradation level. Its children are about the transitions,
--   the counters and the levels.
-- Buffer (pkg/buffer/bytes_buffer.go): the growing byte buffer. Slices, Reads and Fresh are about it
--   as a view of the unread bytes, Words, Varint, VarintRead and Zigzag about reading back what was written.
-- RadixTree (core/router/radix_tree.go): the prefix tree of the HTTP router; Shadow is about
--   what the empty prefix of the root does to Insert and Search.
-- DosProtection (core/security/dos_protection.go): rate limits by fingerprint. Burst is about the
--   limit, Cleanup about the verdicts after a cleanup.
-- ThreatResponse (core/security/security_manager_enhanced.go): the ResponseEngine; Blacklist is about its blacklist as
--   what was last done to each address.
-- SecurityManager (core/security/security_manager_enhanced.go): the manager over the ResponseEngine, with its tracker (Tracker) and
--   its detector (Detection). Answers, Sources and Blocking are about connections after data were refused, Limits and Lockout about the limit by address,
--   Silence about alerts and anomalies.
-- RouterCache (core/router/router_cache.go): the cache of routes with its four policies of eviction.
--   Order and Invariant relate the map, the list of access and the recorded memory; Evictions is
--   about the policies, Space about the loop of evictToMakeSpace, which has as many rounds of fuel as
--   there are entries, since each round removes one; Operations, Limits, Kept, Hits, Lfu, Cleanup and
--   Routes are about the calls.
-- Network (core/network/buffered_conn.go): the buffered connection. Padding is about how much Read
--   returns and about Close, Empty about a Read into an empty slice.
-- Detector (core/detector/protocol_detector.go): protocol detection, over Network and Buffer. Bloom is
--   about the filter, Layers about the first layer, Dispatch about DetectProtocol as a whole.
-- ConnectionPool (core/pool/connection_pool.go): the pool of connections; Balance follows every net.Conn
--   through it.
-- ConnectionHandler (core/pool/connection_manager.go): the limiter and the calls of Handle, each with its phase. Accounts is
--   about one event, Limits about any interleaving.
-- ResponseWriter (core/pool/connection_manager.go): the writer of a response and its mutex (Lock), and the
--   chain of middlewares (Chain).
-- GoroutinePool (core/pool/enhanced_pool.go): OptimizedGoroutinePool as a step relation on where its workers
--   stand. Accounts is about the counters, Shutdown about when Shutdown returns and when it never does.
-- EnhancedPool (core/pool/enhanced_pool.go): OptimizedConnectionPool, with the objects that its maps point to. Accounts
--   is about the counters and the cleaner, Groups and Steps about the map of protocols through any steps, Balancing
--   about the connection that GetConnectionByProtocol picks.
-- MessageBus (core/bus/enhanced_message_bus.go): the queue with priorities (Order and Refinement are about
--   it as one sorted list), the partitions (Partitions), the bus with its subscriptions (Bus, with Topics,
--   Invariant and Calls about them), Publish and Broadcast (Delivery, Runs, Sends) and events (Events);
--   Websocket is the bus of core/bus/message_bus.go.
-- NodeRouter (core/router/multidimensional_router.go): nodes, rules, scores and SelectNode (Selection);
--   Candidates and Healthy are about the node that it gives.
-- HashRing (core/router/multidimensional_router.go, core/router/enhanced_router.go): the consistent hash ring.
--   Clockwise is about Get, Restore about Remove after Add.
-- LoadBalancer (core/router/enhanced_router.go): the strategies over the nodes of NodeRouter and the ring. Fair is
--   about RoundRobin, Least about LeastConnections and LeastResponseTime.
-- RequestCache (core/router/enhanced_router.go): OptimizedRouteCache. Bounds and Fixed are about its size, Lookups
--   about runs of calls and about what Get finds, Accesses about the hits and misses.
-- OptimizedRouter (core/router/enhanced_router.go): a request over the cache, the router over several dimensions and
--   the load balancer. Events is the channels and workers, Metrics is updateMetrics; Kept, Looks, Flow and
--   Counts are about runs of events, Repeats about a request that comes again.
-- RateLimiter (core/protocols/websocket/batch_processor.go): the limit on the messages of a connection; SlidingWindow
--   is about it as a count over all that was allowed.
-- WebsocketBatch (core/protocols/websocket/batch_processor.go): the batches of a connection, its timer, and the flushes that
--   interleave. Deliveries is about what becomes of the messages.
-- HttpRouter (core/router/http_router.go): routes and middlewares. Matching is about matchRoute, Handlers about
--   the handler that ServeHTTP calls; the loop over middlewares is that of ResponseWriter.
-- PolicyEngine (core/governance/policy_engine.go): policies and their listeners. Versions is about what
--   AddPolicy stores over many calls, Listeners about who hears of it.
-- ProtocolManager (core/governance/protocol_manager.go): the versions of protocols. OneActive is about how many are
--   active, Promotion about a version that takes all the traffic.
--
-- Conventions. A method takes the state and returns the new one with its result; what a mutex guards is
-- one step. Times and durations are numbers of nanoseconds and do not wrap; counters of 64 bits are
-- unbounded numbers, since no run counts so far, or wrap as written out; words of the buffer keep their width. A Go map is an
-- association list: theorems hold for every order of its entries, as Go walks it in any order. A value
-- that may be absent is an Option; errors and panics are results. Loops recur on the list or number
-- that they walk; WriteVarint and ReadVarint recur on ten rounds, enough for 64 bits at seven to a byte.
--
-- Not modelled: logging, network and file I/O, goroutine scheduling (but for GoroutinePool, OptimizedRouter and ConnectionHandler), and the parts of
-- the repository that no file here names.
pub mod Common
pub mod Buffer
pub mod GoroutinePool
pub mod HashRing
pub mod HttpRouter
pub mod LoadBalancer
pub mod MessageBus
pub mod Network
pub mod NodeRouter
pub mod OptimizedRouter
pub mod PolicyEngine
pub mod ProtocolManager
pub mod RadixTree
pub mod ConnectionPool
pub mod ConnectionHandler
pub mod Detector
pub mod EnhancedPool
pub mod DosProtection
pub mod ResponseWriter
pub mod RequestCache
pub mod RouterCache
pub mod RateLimiter
pub mod Reliability
pub mod ThreatResponse
pub mod SecurityManager
pub mod WebsocketBatch
