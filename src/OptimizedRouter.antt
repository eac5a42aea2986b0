-- ===== src/OptimizedRouter.antt =====
-- core/router/enhanced_router.go: OptimizedRouter and its workers, over the routers, the load balancer and the cache.
-- A worker that waits to send its result holds it. The clock is read at `now`, and again at `later` once the node
-- is selected; `random` is what the load balancer draws, whose panics are left out. What one part writes into a node
-- that another part holds too is left out, and with it the health check.
mod Tests
pub mod Flow
pub mod Kept
pub mod Looks
pub mod Counts
pub mod Events
pub mod Metrics
pub mod Repeats
use muxcore.Common.{
  ℕ, ◌-◌, ◌*◌, String, Bool, true, false, Option, none, some, List, [], ◌++◌, ◌==◌, if◌then◌else◌,
  length, replicate,
}
use muxcore.Common.Dict.{Dict}
use muxcore.Common.Keys.{string_key, number_key}
use muxcore.Common.Int.{pos}
use muxcore.Common.Floats.{FloatOps}
use muxcore.NodeRouter.{
  RouteNode, NodeRouter, Candidate, LoadBalanceStrategy, weighted_round_robin, new_node_router,
  add_node, remove_node,
}
use muxcore.NodeRouter.Selection.{select_node}
use muxcore.LoadBalancer.{LoadBalancer, new_load_balancer, next_node, add_balanced, remove_balanced}
use muxcore.RequestCache.{RequestCache, new_request_cache, generate_key, get_route, put_route}

pub record RouteRequest : Type 0 where
  pub id : String
  pub method : String
  pub path : String
  pub headers : Dict String String
  pub params : Dict String String
  pub criteria : Dict String String
  pub timestamp : ℕ
  pub priority : ℕ

-- The settings that a call reads; the others are periods, timeouts and switches of goroutines.
pub record RouterConfig : Type 0 where
  pub max_concurrency : ℕ
  pub enable_caching : Bool
  pub cache_size : ℕ
  pub cache_ttl : ℕ
  pub load_balance_strategy : LoadBalanceStrategy

pub record RouteResult (W : Type 0) : Type 0 where
  pub node : Option (RouteNode W)
  pub latency : ℕ
  pub cache_hit : Bool
  pub error : Option String
  pub timestamp : ℕ

pub record RouterWorker (W : Type 0) : Type 0 where
  pub processed : ℕ
  pub errors : ℕ
  pub held : Option (RouteResult W)
  pub running : Bool

pub record RouterMetrics (W : Type 0) : Type 0 where
  pub total_requests : ℕ
  pub successful_requests : ℕ
  pub failed_requests : ℕ
  pub average_latency : ℕ
  pub cache_hit_rate : W
  pub last_updated : ℕ

-- createWorker.
unfoldable pub create_worker : {W : Type 0} → RouterWorker W
create_worker = record { processed = 0; errors = 0; held = none; running = true }

abbrev pub request_key : RouteRequest → String
request_key q = generate_key q.method q.path q.criteria

module _ (f : FloatOps) where
  -- `capacity` is that of both channels.
  pub record OptimizedRouter : Type 0 where
    pub config : RouterConfig
    pub multidim_router : NodeRouter f
    pub load_balancer : LoadBalancer f.Carrier
    pub route_cache : RequestCache (RouteNode f.Carrier)
    pub metrics : RouterMetrics f.Carrier
    pub workers : List (RouterWorker f.Carrier)
    pub request_queue : List RouteRequest
    pub result_queue : List (RouteResult f.Carrier)
    pub capacity : ℕ
    pub stopped : Bool

  abbrev Node : Type 0
  Node = RouteNode f.Carrier

  -- NewOptimizedRouter, with the defaults of NewMultidimensionalRouter.
  unfoldable pub new_optimized_router : RouterConfig → ℕ → OptimizedRouter
  unfolding new_node_router new_load_balancer new_request_cache
  new_optimized_router config now = record {
    config = config;
    multidim_router = new_node_router f weighted_round_robin 3 5;
    load_balancer = new_load_balancer config.load_balance_strategy;
    route_cache = new_request_cache config.cache_size config.cache_ttl;
    metrics = record {
      total_requests = 0;
      successful_requests = 0;
      failed_requests = 0;
      average_latency = 0;
      cache_hit_rate = f.of_int (pos 0);
      last_updated = now;
    };
    workers = [];
    request_queue = [];
    result_queue = [];
    capacity = config.max_concurrency * 2;
    stopped = false;
  }

  -- Start.
  unfoldable pub start_workers : OptimizedRouter → OptimizedRouter
  unfolding create_worker
  start_workers r = record r {
    workers = r.workers ++ replicate r.config.max_concurrency create_worker;
  }

  -- The node that the load balancer gives, or the error.
  unfoldable pub select_balanced :
      Option f.Carrier → RouteRequest → OptimizedRouter → OptimizedRouter × Option Node
  unfolding next_node
  select_balanced random q r =
      let selected = next_node f random q.path r.load_balancer in
      (record r { load_balancer = selected.0 }, selected.1)

  unfoldable pub or_balanced :
      NodeRouter f × Option (Candidate f.Carrier)
      → Option f.Carrier
      → RouteRequest
      → OptimizedRouter
      → OptimizedRouter × Option Node
  unfolding select_balanced
  or_balanced (m, some (id, n)) random q r = (record r { multidim_router = m }, some n)
  or_balanced (m, none) random q r = select_balanced random q (record r { multidim_router = m })

  -- selectNode of a worker; `none` is its error.
  unfoldable pub worker_select :
      Option f.Carrier → RouteRequest → OptimizedRouter → OptimizedRouter × Option Node
  unfolding select_balanced or_balanced select_node
  worker_select random q r =
      if length q.criteria == 0
      then select_balanced random q r
      else or_balanced (select_node f q.criteria r.multidim_router) random q r

  unfoldable pub note_selected :
      ℕ → ℕ → RouteRequest → OptimizedRouter × Option Node → OptimizedRouter × RouteResult f.Carrier
  unfolding put_route
  note_selected now later q (r, none) = (
    r,
    record {
      node = none;
      latency = 0;
      cache_hit = false;
      error = some "no available nodes";
      timestamp = now;
    },
  )
  note_selected now later q (r, some n) = (
    if r.config.enable_caching
        then record r { route_cache = put_route later (request_key q) n r.route_cache }
        else r,
    record {
      node = some n;
      latency = later - now;
      cache_hit = false;
      error = none;
      timestamp = now;
    },
  )

  unfoldable pub or_select :
      ℕ
      → ℕ
      → Option f.Carrier
      → RouteRequest
      → RequestCache Node × Option Node
      → OptimizedRouter
      → OptimizedRouter × RouteResult f.Carrier
  unfolding worker_select note_selected
  or_select now later random q (c, some n) r = (
    record r { route_cache = c },
    record {
      node = some n;
      latency = later - now;
      cache_hit = true;
      error = none;
      timestamp = now;
    },
  )
  or_select now later random q (c, none) r =
      note_selected now later q (worker_select random q (record r { route_cache = c }))

  -- processRequest, without the counters of the worker.
  unfoldable pub process_request :
      ℕ
      → ℕ
      → Option f.Carrier
      → RouteRequest
      → OptimizedRouter
      → OptimizedRouter × RouteResult f.Carrier
  unfolding worker_select note_selected or_select get_route
  process_request now later random q r =
      if r.config.enable_caching
      then or_select now later random q (get_route now (request_key q) r.route_cache) r
      else note_selected now later q (worker_select random q r)

  unfoldable pub add_route_node : Node → OptimizedRouter → OptimizedRouter
  unfolding add_balanced add_node
  add_route_node n r = record r {
    load_balancer = add_balanced n r.load_balancer;
    multidim_router = add_node f n r.multidim_router;
  }

  unfoldable pub remove_route_node : String → OptimizedRouter → OptimizedRouter
  unfolding remove_balanced remove_node
  remove_route_node id r = record r {
    load_balancer = remove_balanced id r.load_balancer;
    multidim_router = remove_node f id r.multidim_router;
  }
