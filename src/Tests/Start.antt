-- ===== src/Tests/Start.antt =====
-- The start of a server in a cluster, with an etcd that keeps the last key that was put.
use go_websocket.Prelude.{
  ℕ, none, false, ◌+◌, ◌≡◌, refl, sym, ◌∙◌, ap, true, Option, some, List, [], ◌∷◌, ◌++◌,
  if◌then◌else◌, subst,
}
use go_websocket.Prelude.Text.{str_eq, Str, codes, Free, has_prefix, str_eq_refl}
use go_websocket.Prelude.Dict.{lookup, insert, NodupKeys}
use go_websocket.Prelude.Result.{Result, ok}
use go_websocket.Setting.{Global}
use go_websocket.Util.Laws.{names}
use go_websocket.Util.{is_addr_local, gen_client_id, get_addr_info_and_is_local, is_cluster}
use go_websocket.Registration.{Leases, new_service_reg, set_lease, put_service}
use go_websocket.Discovery.{new_client_dis, get_service, extract_addrs, set_service_list}
use go_websocket.Routers.AccessLog.{
  Request, request_entry, access_entry, access_log, access_log_lem,
}
use go_websocket.Routers.Routes.{
  Routing, interface, route_or, init_lem, init, handle_func, start_web_socket, api_routes, bare,
  websocket_run,
}
use go_websocket.Log.{RotateOptions, Logger, FileHook, Level, setup}
use go_websocket.Log.Laws.{writer_of, is_error, missing, info_file, error_file, setup_lem}
use go_websocket.Main.{
  etcd_server_list, Boot, goes_on, main, init_rpc_server, register_server, booted,
}
use go_websocket.Main.Laws.{KeepsPuts, JoinsPlain, ids_name_servers}
use go_websocket.Tests.Ciphers.{
  plain, plain-IsLawful, key_fits, iv, common, global, Free-host, Free-port,
}

abbrev entries : Str × Str → Str → List (Str × Option Str)
entries s p = if has_prefix s.0 p then (s.0, some s.1) ∷ [] else []

abbrev etcd : Leases (Str × Str)
etcd = record {
  new = λ s. ok tt;
  grant = λ time_num s. (s, ok 1);
  keep_alive = λ id s. (s, ok 1);
  put_with_lease = λ k v id s. ((k, v), ok tt);
  revoke = λ id s. (s, ok tt);
  get_prefix = λ p s. ok (entries s p);
}

abbrev values_of : Result (List (Str × Option Str)) → List (Str × Option Str)
values_of (ok kvs) = kvs
values_of _ = []

etcd-KeepsPuts : KeepsPuts etcd
unfolding lookup
etcd-KeepsPuts k v p lease s t kvs put fits answer =
    let e : (k, v) ≡ t = ap (λ x. x.0) put in
    let same : (k, some v) ∷ [] ≡ kvs =
      sym (ap (λ b. if b then (k, some v) ∷ [] else []) fits)
      ∙ (ap (λ x. entries x p) e ∙ ap values_of answer) in
    subst (λ l. NodupKeys l × (lookup k l ≡ some (some v))) same ((refl, tt), rw (str_eq_refl k))

abbrev join : Str → Str → Str
join host port = host ++ b':' ∷ port

join-JoinsPlain : JoinsPlain join
join-JoinsPlain host port colon percent = refl

abbrev boot : Boot (Str × Str)
boot = booted ([], []) (record { common = common; endpoints = []; global = global })

abbrev booted_server : Boot (Str × Str)
booted_server = record {
  etcd = (codes "/wsServers/10.0.0.1:7000", codes "10.0.0.1:7000");
  endpoints = [];
  global = record {
    local_host = codes "10.0.0.1";
    server_list = (codes "/wsServers/10.0.0.1:7000", codes "10.0.0.1:7000") ∷ [];
  };
  rpc_port = some (codes ":7000");
  routing = record {
    mux = api_routes ++ (codes "/ws", bare websocket_run) ∷ [];
    manager_starts = true;
    messages_written = true;
  };
  heartbeat = true;
  http_port = some (codes ":6000");
}

starts : main etcd join common true boot ≡ goes_on booted_server
unfolding main init_rpc_server register_server new_service_reg set_lease put_service get_service
    extract_addrs set_service_list has_prefix insert init handle_func lookup str_eq start_web_socket
    new_client_dis
starts = refl

in_cluster : is_cluster common ≡ true
in_cluster = refl

no_percent : Free b'%' (codes "10.0.0.1")
no_percent = (refl, (refl, (refl, (refl, (refl, (refl, (refl, (refl, tt))))))))

-- Another server of the cluster, which has a list of its own.
abbrev other_server : Global
other_server = record {
  local_host = codes "10.0.0.2";
  server_list = (codes "/wsServers/10.0.0.2:7000", codes "10.0.0.2:7000") ∷ [];
}

ids_name_servers_example :
    (id : Str) × (addr : Str) × (addr ≡ codes "10.0.0.1:7000")
    × (gen_client_id plain (ok iv) common booted_server.global ≡ ok id)
    × (get_addr_info_and_is_local plain common booted_server.global id
        ≡ ok (names (codes "10.0.0.1") (codes "7000") true))
    × (lookup (etcd_server_list ++ addr) booted_server.global.server_list ≡ some addr)
    × (get_addr_info_and_is_local plain common other_server id
        ≡ ok (names (codes "10.0.0.1") (codes "7000") false))
    × (lookup
          (etcd_server_list ++ addr)
          (get_service
            (etcd.get_prefix etcd_server_list booted_server.etcd)
            other_server).0.server_list
        ≡ some addr)
unfolding is_addr_local str_eq
ids_name_servers_example =
    ids_name_servers etcd join common etcd-KeepsPuts join-JoinsPlain plain plain-IsLawful iv refl
      key_fits true boot booted_server in_cluster Free-host no_percent Free-port starts common
      other_server refl

abbrev empty : Routing
empty = record { mux = []; manager_starts = false; messages_written = false }

init_lem_example :
    (t : Routing) × (init empty ≡ some t)
    × ((path : Str) → lookup path t.mux ≡ route_or (lookup path interface) (lookup path []))
    × (t.manager_starts ≡ true)
    × (t.messages_written ≡ true)
unfolding lookup
init_lem_example =
    init_lem empty (refl, (refl, (refl, (refl, (refl, (refl, (refl, (refl, (refl, tt)))))))))

abbrev request : Request
request = record {
  trace_id = [];
  dump = codes "POST /api/register";
  method = codes "POST";
  request_uri = codes "/api/register";
  remote_addr = codes "10.0.0.9:5000";
}

access_log_lem_example :
    ((access_log (codes "u1") (λ r n. some (n + 1)) request 4 []).0 ≡ some 5)
    × ((line : Str) × (Free 10 line)
        × ((access_log (codes "u1") (λ r n. some (n + 1)) request 4 []).1
            ≡ request_entry (codes "u1") line
              ∷ access_entry (codes "u1") request.remote_addr request.method request.request_uri
              ∷ []))
unfolding str_eq
access_log_lem_example = access_log_lem (codes "u1") (λ r n. some (n + 1)) request 4 []

-- The error file cannot be opened.
abbrev rotate_logs : RotateOptions → Option ℕ
rotate_logs o = if str_eq o.link_name (codes "error.log") then none else some 7

abbrev logger : Logger ℕ
logger = record { hooks = []; report_caller = false; logged_errors = 0 }

setup_lem_example :
    (hook : FileHook ℕ) × ((setup rotate_logs (codes "C:\\app") global logger).hooks ≡ hook ∷ [])
    × ((level : Level)
        → writer_of level hook.writers
          ≡ some (
              if is_error level
              then error_file rotate_logs (codes "C:\\app") global
              else info_file rotate_logs (codes "C:\\app") global))
    × ((setup rotate_logs (codes "C:\\app") global logger).report_caller ≡ true)
    × ((setup rotate_logs (codes "C:\\app") global logger).logged_errors
        ≡ logger.logged_errors
          + missing (info_file rotate_logs (codes "C:\\app") global)
          + missing (error_file rotate_logs (codes "C:\\app") global))
setup_lem_example = setup_lem rotate_logs (codes "C:\\app") global logger
