-- ===== src/Main.antt =====
-- main.go: the start of a server, up to where it listens. net.JoinHostPort, the parsed ini file and
-- the addresses of the machine are arguments.
pub mod Steps
pub mod Laws
use go_websocket.Prelude.{
  ℕ, Bool, true, false, Option, none, some, List, [], ◌∷◌, ◌++◌, if◌then◌else◌,
}
use go_websocket.Prelude.Text.{Str, codes}
use go_websocket.Prelude.Result.{Result, ok, err, panic}
use go_websocket.Setting.{CommonConf, Global, Settings}
use go_websocket.Util.{is_cluster}
use go_websocket.Discovery.{ClientDis, new_client_dis, get_service}
use go_websocket.Routers.Routes.{Routing, init}
use go_websocket.Registration.{Leases, ServiceReg, new_service_reg, put_service}

-- ETCD_SERVER_LIST
abbrev pub etcd_server_list : Str
etcd_server_list = codes "/wsServers/"

-- What runs: etcd, the settings, the port of the RPC server, the routes with the loops that they start,
-- the heartbeat and the port of the HTTP server.
pub record Boot (S : Type 0) : Type 0 where
  pub etcd : S
  pub endpoints : List Str
  pub global : Global
  pub rpc_port : Option Str
  pub routing : Routing
  pub heartbeat : Bool
  pub http_port : Option Str

-- A step of main ends, or it panics.
pub data Step (S : Type 0) : Type 0 where
  goes_on : Boot S → Step S
  panics : Boot S → Step S

infixl 5 ◌>>=◌
abbrev pub ◌>>=◌ : {S : Type 0} → Step S → (Boot S → Step S) → Step S
goes_on b >>= f = f b
panics b >>= f = panics b

module _ {S : Type 0} (e : Leases S) (join_host_port : Str → Str → Str) (common : CommonConf) where
  -- InitGRpcServer, which starts createGRPCServer as a goroutine on the port.
  abbrev pub init_grpc_server : Boot S → Boot S
  init_grpc_server b = record b { rpc_port = some (b':' ∷ common.rpc_port) }

  -- initRPCServer
  unfoldable pub init_rpc_server : Boot S → Boot S
  init_rpc_server b = if is_cluster common then init_grpc_server b else b

  -- The end of registerServer, from the answer of GetService.
  abbrev pub discovered_list : Boot S → Global × Result (List Str) → Step S
  discovered_list b (g, ok addrs) = goes_on (record b { global = g })
  discovered_list b (g, err x) = panics (record b { global = g })
  discovered_list b (g, panic) = panics (record b { global = g })

  -- From the answer of NewClientDis.
  abbrev pub connected_dis : Boot S → Result (ClientDis (Unit {0})) → Step S
  connected_dis b (ok cli) =
      discovered_list b (get_service (e.get_prefix etcd_server_list b.etcd) b.global)
  connected_dis b (err x) = panics b
  connected_dis b panic = panics b

  -- From the answer of PutService.
  abbrev pub put_done : Boot S → S × Result (Unit {0}) → Step S
  put_done b (s, ok u) =
      connected_dis (record b { etcd = s }) (new_client_dis (λ conf. e.new s) b.endpoints)
  put_done b (s, err x) = panics (record b { etcd = s })
  put_done b (s, panic) = panics (record b { etcd = s })

  abbrev pub host_port : Boot S → Str
  host_port b = join_host_port b.global.local_host common.rpc_port

  -- From the answer of NewServiceReg.
  abbrev pub registered : Boot S → S × Result ServiceReg → Step S
  registered b (s, ok ser) =
      put_done b (put_service e (etcd_server_list ++ host_port b) (host_port b) ser s)
  registered b (s, err x) = panics (record b { etcd = s })
  registered b (s, panic) = panics (record b { etcd = s })

  -- registerServer
  unfoldable pub register_server : Boot S → Step S
  register_server b =
      if is_cluster common then registered b (new_service_reg e 5 b.etcd) else goes_on b

  -- The end of main, from routers.Init: the heartbeat and the HTTP server; `listens` is whether
  -- ListenAndServe goes on to serve.
  abbrev pub routed : Bool → Boot S → Option Routing → Step S
  routed listens b none = panics b
  routed true b (some routing) =
      goes_on (record b {
        routing = routing;
        heartbeat = true;
        http_port = some (b':' ∷ common.http_port);
      })
  routed false b (some routing) = panics (record b { routing = routing; heartbeat = true })

  unfoldable pub main : Bool → Boot S → Step S
  main listens b = register_server (init_rpc_server b) >>= λ c. routed listens c (init c.routing)

-- What init leaves to main, with etcd as it is.
abbrev pub booted : {S : Type 0} → S → Settings → Boot S
booted s settings = record {
  etcd = s;
  endpoints = settings.endpoints;
  global = settings.global;
  rpc_port = none;
  routing = record { mux = []; manager_starts = false; messages_written = false };
  heartbeat = false;
  http_port = none;
}
