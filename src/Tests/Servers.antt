-- ===== src/Tests/Servers.antt =====
-- The running server at concrete data: two connections of one client, one of which is dead.
use mathlib.Core.List.Perm
use go_websocket.Prelude.{
  if◌then◌else◌, ◌++◌, ◌+◌, ℕ, ◌≡◌, ◌↔◌, refl, Bool, false, true, none, some, [], ◌∷◌, arith, ◌==◌,
  not,
}
use go_websocket.Prelude.Text.{codes, str_eq, split, contains, has_prefix}
use go_websocket.Prelude.Dict.{erase, lookup, insert, values}
use go_websocket.Prelude.Result.{ok}
use go_websocket.Setting.{CommonConf, Global}
use go_websocket.Client.{Heap, new_client}
use go_websocket.Rpc.{Network, get_online_list_broadcast}
use go_websocket.Rpc.OnlineList.{AllAnswer, get_online_list_broadcast_waits}
use go_websocket.Manager.{add_client, add_account, account_key, is_app, add_client2_system_client}
use go_websocket.World.{
  ClientInfo, Frame, World, Progress, done, blocked, crashed, send_connect, conn_suc,
}
use go_websocket.Server.{ping_timer}
use go_websocket.Server.Delivery.{
  sent, written, unwritten, dead, connections, ping_timer_lem, frame_of,
}
use go_websocket.Events.{event_connect, start_connect, take_connect}
use go_websocket.Connect.{Handshake, run, admit, link_text}
use go_websocket.System.Journey.{perform_all, quiet, sends-delivered, connects-delivered}
use go_websocket.System.{
  sends, runs, writes, Libraries, connects, takes_connect, Reach, here, next, perform, initial,
}
use go_websocket.System.Closing.{settled}
use go_websocket.System.Kicking.{closes_named_client}
use go_websocket.System.{closes, takes_dis_connect}
use go_websocket.System.Listing.{idle, app_listed_twice}
use go_websocket.Manager.Accounts.{online}
use go_websocket.System.Safe.{IsSafe}
use go_websocket.System.Invariant.{Reach-IsSafe}
use go_websocket.Tests.Managers.{web_client, one_client, one_client-IsSound, connected_at}

-- The second of two servers does not answer.
abbrev two_servers : Global
two_servers = record {
  local_host = codes "10.0.0.1";
  server_list = (codes "a", codes "10.0.0.1:7000") ∷ (codes "b", codes "10.0.0.2:7000") ∷ [];
}

abbrev half_down : Network
half_down = record {
  answer = λ call. if str_eq call.to (codes "10.0.0.2:7000") then none else some (codes "c" ∷ []);
  ends = λ calls. calls;
}

get_online_list_broadcast_waits_example :
    (get_online_list_broadcast half_down two_servers (codes "im") (codes "g") ≡ none)
    ↔ (¬ AllAnswer half_down two_servers.server_list (codes "im") (codes "g"))
get_online_list_broadcast_waits_example =
    get_online_list_broadcast_waits half_down (λ calls. Perm.refl calls) two_servers (codes "im")
      (codes "g")

abbrev pub heap : Heap
heap r = web_client

abbrev pub common : CommonConf
common = record {
  http_port = codes "6000";
  rpc_port = codes "7000";
  cluster = false;
  crypto_key = [];
}

abbrev pub global : Global
global = record { local_host = []; server_list = [] }

abbrev pub start : World
start = initial common global heap

abbrev pub serving : World
serving = record start { manager = one_client }

abbrev pub info : ClientInfo
info = record {
  client_id = codes "WEB_7";
  send_user_id = [];
  message_id = codes "m1";
  code = codes "1";
  msg = [];
  content = some (codes "hello");
}

-- Socket 3 is dead.
abbrev pub write_json : ℕ → Frame → Bool
write_json socket frame = not (socket == 3)

ping_timer_lem_example :
    ping_timer (λ s. false) serving
    ≡ done (sent [] (dead (λ s. false) heap one_client.client_id_map) serving)
unfolding one_client add_client add_account account_key is_app contains has_prefix split lookup
    insert values str_eq connections
ping_timer_lem_example = ping_timer_lem (λ s. false) serving one_client-IsSound.keyed (omega arith)

abbrev pub libraries : Libraries
libraries = record {
  cipher = record {
    encrypt = λ key iv text. text;
    decrypt = λ key iv text. text;
    encode_to_string = λ text. text;
    decode_string = ok;
  };
  marshal = λ fields. [];
  uuid = λ name. name;
  write_json = λ socket frame. true;
  write_control = λ socket. true;
}

abbrev pub state_of : Progress World → World
state_of (done w) = w
state_of (blocked w) = w
state_of crashed = start

abbrev pub handshake : Handshake
handshake = record { system_id = codes "APP_1"; token = []; remote_addr = codes "10.0.0.2:900" }

unfoldable pub connected : World
connected = state_of (perform libraries (connects 5 (some 4) handshake) start)

unfoldable pub registered : World
registered = state_of (perform libraries takes_connect connected)

pub Reach-registered : Reach start registered
unfolding perform run admit send_connect start_connect take_connect connected registered str_eq
    add_client2_system_client add_client is_app contains new_client add_account account_key split
Reach-registered =
    next libraries takes_connect (next libraries (connects 5 (some 4) handshake) here refl) refl

Reach-IsSafe_example : IsSafe registered
Reach-IsSafe_example = Reach-IsSafe common global heap Reach-registered

app_connections :
    lookup (codes "APP_1") registered.manager.client_id_map ≡ some ((codes "10.0.0.2:900", 0) ∷ [])
unfolding perform run admit send_connect start_connect take_connect connected registered str_eq
    add_client2_system_client add_client is_app contains new_client add_account account_key split
    lookup insert has_prefix event_connect values erase
app_connections = refl

closes_named_client_example :
    (v : World) × (perform_all libraries
        (closes (codes "APP_1") (registered.heap 0).system_id (codes "10.0.0.2:900")
          ∷ takes_dis_connect
          ∷ [])
        (settled registered)
      ≡ done v)
    × (v.closed ≡ registered.closed ++ (registered.heap 0).socket ∷ [])
    × ((registered.heap 0).client_id ≡ codes "APP_1")
    × ((registered.heap 0).addr ≡ codes "10.0.0.2:900")
    × ((v.heap 0).is_deleted ≡ true)
unfolding perform run admit send_connect start_connect take_connect connected registered str_eq
    event_connect lookup add_client2_system_client add_client is_app contains new_client add_account
    account_key split
closes_named_client_example =
    closes_named_client libraries common global heap registered Reach-registered refl
      (codes "APP_1") (codes "10.0.0.2:900") ((codes "10.0.0.2:900", 0) ∷ []) 0 app_connections refl

sends-delivered_example :
    perform_all libraries (sends info ∷ runs 0 ∷ writes ∷ []) (quiet serving)
    ≡ done (
        sent
          (written libraries.write_json info heap ((codes "10.0.0.9:5000", 0) ∷ []))
          (unwritten libraries.write_json info heap ((codes "10.0.0.9:5000", 0) ∷ []))
          (quiet serving))
unfolding one_client add_client is_app contains lookup add_account account_key split
sends-delivered_example =
    sends-delivered libraries info serving refl one_client-IsSound.keyed
      ((codes "10.0.0.9:5000", 0) ∷ []) connected_at (omega arith)

abbrev app_info : ClientInfo
app_info = record info { client_id = codes "APP_1" }

app_is_new : lookup (codes "APP_1") one_client.client_id_map ≡ none
unfolding one_client add_client is_app contains has_prefix lookup insert add_account account_key
    split str_eq
app_is_new = refl

connects-delivered_example :
    (v : World) × (perform_all libraries
        (connects 5 (some 4) handshake ∷ sends app_info ∷ runs 0 ∷ writes ∷ [])
        (quiet serving)
      ≡ done v)
    × (v.frames ≡ (4, conn_suc (codes "Link") link_text) ∷ (4, frame_of app_info) ∷ [])
unfolding str_eq one_client add_client add_account account_key is_app contains has_prefix split
    lookup
connects-delivered_example =
    connects-delivered libraries 5 4 handshake app_info serving refl refl refl
      one_client-IsSound.keyed app_is_new (omega arith) (omega arith) (λ f. refl)

app_listed_twice_example :
    (v : World) × (perform_all libraries
        (connects 5 (some 4) handshake ∷ takes_connect ∷ [])
        (idle start)
      ≡ done v)
    × (online (codes "APP_1") (codes "APP_1") v.manager
        ≡ online (codes "APP_1") (codes "APP_1") start.manager + 2)
unfolding is_app contains has_prefix account_key split str_eq
app_listed_twice_example =
    app_listed_twice libraries 5 4 handshake start (codes "APP_1") refl refl refl refl
