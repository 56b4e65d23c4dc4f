-- ===== src/Server.antt =====
-- servers/server.go: sending, closing and listing, and the bodies of the loops WriteMessage and
-- PingTimer. `message_id` is what util.GenUUID returned. `write_json` and `write_control` say
-- whether the websocket library writes to a socket without an error.
pub mod Delivery
pub mod Order
use go_websocket.Prelude.{ℕ, Bool, Option, none, some, List, [], ◌∷◌, ◌++◌, length, if◌then◌else◌}
use go_websocket.Prelude.Text.{Str, str_eq}
use go_websocket.Prelude.Dict.{Dict, lookup}
use go_websocket.Prelude.Result.{ok, err, panic}
use go_websocket.Prelude.Int.{ℤ}
use go_websocket.Crypto.{Cipher}
use go_websocket.Client.{Ref}
use go_websocket.Util.{is_cluster, get_addr_info_and_is_local, gen_group_key}
use go_websocket.Rpc.{
  Call, Network, close_rpc_client, send_group_broadcast, send_system_broadcast,
  get_online_list_broadcast,
}
use go_websocket.Manager.{
  all_client, get_by_client_id, platform_account_count, get_group_client_list,
}
use go_websocket.World.{
  ClientInfo, Frame, ret_data, Task, local_client, group_broadcast, World, Progress, done, crashed,
  ◌>>=◌, send_dis_connect, send_message2_local_client, spawn, write_frame,
}

unfoldable pub get_data : ClientInfo → Str
get_data info = elim info.content [ none ↦ [] | some text ↦ text ]

-- SendMessage2Client. In a cluster the message to another machine is dropped.
unfoldable pub send_message2_client : Cipher → ClientInfo → World → Progress World
send_message2_client c info w =
    if is_cluster w.common
    then (elim (get_addr_info_and_is_local c w.common w.global info.client_id) [
      | ok a ↦ if a.is_local then send_message2_local_client info w else done w
      | err e ↦ done w
      | panic ↦ crashed
    ])
    else done (spawn (local_client info) w)

-- CloseLocalClient
unfoldable pub close_local_client : Str → Str → Str → World → Progress World
close_local_client client_id system_id addr w = elim (get_by_client_id client_id w.manager) [
  | ok addr_to_client ↦ elim (lookup addr addr_to_client) [
    | none ↦ done w
    | some conn ↦
        if str_eq (w.heap conn).system_id system_id then send_dis_connect conn w else done w
  ]
  | err e ↦ done w
  | panic ↦ crashed
]

abbrev pub make_calls : List Call → World → World
make_calls calls w = record w { calls = w.calls ++ calls }

-- CloseClient
unfoldable pub close_client : Cipher → Str → Str → Str → World → Progress World
close_client c client_id system_id client_addr w =
    if is_cluster w.common
    then (elim (get_addr_info_and_is_local c w.common w.global client_id) [
      | ok a ↦
          if a.is_local
          then close_local_client client_id system_id client_addr w
          else done (make_calls (close_rpc_client a.addr client_id system_id) w)
      | err e ↦ done w
      | panic ↦ crashed
    ])
    else close_local_client client_id system_id client_addr w

unfoldable pub client_statistics : Str → Str → World → List Str × ℕ
client_statistics platform account w = platform_account_count platform account w.manager

-- AddClient2Group: both branches of its body are commented out.
unfoldable pub add_client2_group_by_id : Str → Str → Str → Str → Str → World → World
add_client2_group_by_id system_id group_name client_id user_id extend w = w

-- SendMessage2Group. On a single machine nothing is sent.
unfoldable pub send_message2_group : Str → Str → Str → Str → ℤ → Str → Option Str → World → World
send_message2_group message_id system_id send_user_id group_name code msg content w =
    if is_cluster w.common
    then spawn (group_broadcast system_id message_id send_user_id group_name code msg content) w
    else w

-- SendMessage2System. On a single machine nothing is sent.
unfoldable pub send_message2_system : Str → Str → Str → ℤ → Str → Str → World → Progress World
send_message2_system message_id system_id send_user_id code msg content w =
    if is_cluster w.common
    then (elim (send_system_broadcast w.global system_id message_id send_user_id code msg
        (some content)) [ ok calls ↦ done (make_calls calls w) | err e ↦ done w | panic ↦ crashed ])
    else done w

-- GetOnlineList: the count and the list, or `none` where it waits for ever.
unfoldable pub get_online_list : Network → Str → Str → World → Option (ℕ × List Str)
get_online_list net system_id group_name w =
    if is_cluster w.common
    then (elim (get_online_list_broadcast net w.global system_id group_name) [
      | none ↦ none
      | some client_list ↦ some (length client_list, client_list)
    ])
    else (let client_list = get_group_client_list (gen_group_key system_id group_name) w.manager in
        some (length client_list, client_list))

-- One goroutine that was started runs.
unfoldable pub run_task : Task → World → Progress World
run_task (local_client info) w = send_message2_local_client info w
run_task (group_broadcast system_id message_id send_user_id group_name code msg content) w =
    elim (send_group_broadcast w.global system_id message_id send_user_id group_name code msg
      content) [ ok calls ↦ done (make_calls calls w) | err e ↦ done w | panic ↦ crashed ]

module _ (write_json : ℕ → Frame → Bool) where
  -- Render, and what WriteMessage does with its error.
  unfoldable pub render_to : ClientInfo → Ref → World → Progress World
  render_to info conn w =
      let socket = (w.heap conn).socket in
      let frame = ret_data info.message_id info.code info.content in
      if write_json socket frame then done (write_frame socket frame w) else send_dis_connect conn w

  unfoldable pub render_all : ClientInfo → Dict Ref → World → Progress World
  render_all info [] w = done w
  render_all info ((addr, conn) ∷ entries) w =
      render_to info conn w >>= λ v. render_all info entries v

  -- The body of the loop of WriteMessage, for the message that it received.
  unfoldable pub write_message : ClientInfo → World → Progress World
  write_message info w = elim (get_by_client_id info.client_id w.manager) [
    | ok addr_to_conn ↦ render_all info addr_to_conn w
    | err e ↦ done w
    | panic ↦ crashed
  ]

module _ (write_control : ℕ → Bool) where
  unfoldable pub ping_entries : Dict Ref → World → Progress World
  ping_entries [] w = done w
  ping_entries ((addr, conn) ∷ entries) w =
      (if write_control (w.heap conn).socket then done w else send_dis_connect conn w) >>= λ v.
      ping_entries entries v

  unfoldable pub ping_clients : Dict (Dict Ref) → World → Progress World
  ping_clients [] w = done w
  ping_clients ((client_id, addr_to_client_map) ∷ clients) w =
      ping_entries addr_to_client_map w >>= λ v. ping_clients clients v

  -- The body of the loop of PingTimer.
  unfoldable pub ping_timer : World → Progress World
  ping_timer w = ping_clients (all_client w.manager) w
