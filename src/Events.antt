-- ===== src/Events.antt =====
-- The methods of servers/clientmanager.go that send messages: the events of the loop Start, joining
-- a group, and sending to a group or a system on this machine. `marshal` is json.Marshal of a map of
-- strings, and `uuid` gives the message id that util.GenUUID makes for a group.
pub mod Laws
use go_websocket.Prelude.{
  ℕ, zero, suc, ◌+◌, Bool, true, false, ◌||◌, Option, none, some, List, [], ◌∷◌, ◌++◌, length, take,
  drop, get_or, if◌then◌else◌,
}
use go_websocket.Prelude.Text.{Str, codes, str_eq}
use go_websocket.Prelude.Dict.{insert, values}
use go_websocket.Prelude.Result.{ok, err, panic}
use go_websocket.Prelude.Int.{ℤ, pos}
use go_websocket.Client.{Client, Ref, store}
use go_websocket.Util.{gen_group_key}
use go_websocket.Manager.Removal.{returned, panicked, remove_slice}
use go_websocket.Manager.{
  add_client, del_client, add_client2_group, get_by_client_id, get_group_client_list,
  get_system_client_list,
}
use go_websocket.World.{
  ClientInfo, World, Progress, done, crashed, ◌>>=◌, send_message2_local_client, close_socket,
}
use go_websocket.Server.{send_message2_group}

-- retcode.ONLINE_MESSAGE_CODE and retcode.OFFLINE_MESSAGE_CODE
abbrev pub online_message_code : ℤ
online_message_code = pos 1001

abbrev pub offline_message_code : ℤ
offline_message_code = pos 1002

-- The UTF-8 bytes of the messages that tell of a client that comes or goes.
abbrev pub online_msg : Str
online_msg =
    229 ∷ 174 ∷ 162 ∷ 230 ∷ 136 ∷ 183 ∷ 231 ∷ 171 ∷ 175 ∷ 228 ∷ 184 ∷ 138 ∷ 231 ∷ 186 ∷ 191 ∷ []

abbrev pub offline_msg : Str
offline_msg =
    229 ∷ 174 ∷ 162 ∷ 230 ∷ 136 ∷ 183 ∷ 231 ∷ 171 ∷ 175 ∷ 228 ∷ 184 ∷ 139 ∷ 231 ∷ 186 ∷ 191 ∷ []

-- EventConnect
unfoldable pub event_connect : Ref → World → World
event_connect r w = record w { manager = add_client (w.heap r) r w.manager }

-- Is the name in the list?
unfoldable pub has_name : Str → List Str → Bool
has_name name [] = false
has_name name (x ∷ xs) = str_eq x name || has_name name xs

module _ (marshal : List (Str × Str) → Str) (uuid : Str → Str) where
  -- The loop that tells the groups of a client that it is gone.
  unfoldable pub tell_groups : Client → List Str → Str → World → World
  tell_groups c [] content w = w
  tell_groups c (group_name ∷ names) content w = tell_groups c names content (
      send_message2_group (uuid group_name) c.system_id [] group_name offline_message_code
        offline_msg (some content) w)

  -- EventDisconnect
  unfoldable pub event_disconnect : Ref → World → World
  event_disconnect r w =
      let c = w.heap r in
      let v = close_socket c.socket w in
      let deleted = record v { manager = del_client (some c) v.manager } in
      let content = marshal (
        (codes "clientId", c.client_id)
        ∷ (codes "userId", c.user_id)
        ∷ (codes "addr", c.addr)
        ∷ (codes "extend", c.extend)
        ∷ []) in
      let told = tell_groups c c.group_list content deleted in
      record told { heap = store r (record c { is_deleted = true }) told.heap }

  -- AddClient2LocalGroup
  unfoldable pub add_client2_local_group : Str → Ref → Str → Str → World → World
  add_client2_local_group group_name r user_id extend w =
      let c = record (w.heap r) { user_id = user_id; extend = extend } in
      let named = record w { heap = store r c w.heap } in
      let joined = record c { group_list = c.group_list ++ group_name ∷ [] } in
      let content = marshal (
        (codes "clientId", c.client_id)
        ∷ (codes "userId", c.user_id)
        ∷ (codes "extend", c.extend)
        ∷ []) in
      if has_name group_name c.group_list
      then named
      else send_message2_group (uuid group_name) c.system_id [] group_name online_message_code
          online_msg (some content)
          (record w {
            manager = add_client2_group (gen_group_key c.system_id group_name) c w.manager;
            heap = store r joined w.heap;
          })

  -- The loop Start: `select` takes a client from either channel that has one.
  unfoldable pub take_connect : List Ref → World → Option World
  take_connect [] w = none
  take_connect (r ∷ rest) w =
      some (event_connect r (record w { manager = record w.manager { connect = rest } }))

  unfoldable pub take_dis_connect : List Ref → World → Option World
  take_dis_connect [] w = none
  take_dis_connect (r ∷ rest) w =
      some (event_disconnect r (record w { manager = record w.manager { dis_connect = rest } }))

  unfoldable pub start_connect : World → Option World
  start_connect w = take_connect w.manager.connect w

  unfoldable pub start_dis_connect : World → Option World
  start_dis_connect w = take_dis_connect w.manager.dis_connect w

-- The loop of SendMessage2LocalGroup ranges over the array `view` that it shares with the map: a
-- client that is gone is deleted from the group, which moves the entries behind it.
unfoldable pub local_group_rounds : Str → ClientInfo → ℕ → ℕ → List Str → World → Progress World
local_group_rounds group_key info zero index view w = done w
local_group_rounds group_key info (suc rounds) index view w =
    let client_id = get_or view index [] in
    let ids = values group_key w.manager.groups in
    elim (get_by_client_id client_id w.manager) [
      | ok clients ↦ send_message2_local_client (record info { client_id = client_id }) w >>= λ v.
          local_group_rounds group_key info rounds (index + 1) view v
      | err e ↦ elim (remove_slice (length w.manager.groups) client_id ids) [
        | returned t ↦
            local_group_rounds group_key info rounds (index + 1) (t.array ++ drop (length ids) view)
              (record w {
                manager = record w.manager {
                  groups = insert group_key (take t.len t.array) w.manager.groups;
                };
              })
        | panicked t ↦ crashed
      ]
      | panic ↦ crashed
    ]

-- SendMessage2LocalGroup; `info` lacks the client id only.
unfoldable pub send_message2_local_group : Str → Str → ClientInfo → World → Progress World
send_message2_local_group system_id group_name info w =
    let group_key = gen_group_key system_id group_name in
    let view = get_group_client_list group_key w.manager in
    if str_eq group_name []
    then done w
    else local_group_rounds group_key info (length view) 0 view w

unfoldable pub send_to_all : ClientInfo → List Str → World → Progress World
send_to_all info [] w = done w
send_to_all info (client_id ∷ ids) w =
    send_message2_local_client (record info { client_id = client_id }) w >>= λ v.
    send_to_all info ids v

-- SendMessage2LocalSystem
unfoldable pub send_message2_local_system : Str → ClientInfo → World → Progress World
send_message2_local_system system_id info w =
    if str_eq system_id []
    then done w
    else send_to_all info (get_system_client_list system_id w.manager) w
