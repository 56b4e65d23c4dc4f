-- ===== src/Rpc.antt =====
-- servers/rpcclient.go: the requests to the servers of the cluster. The messages are those of
-- servers/grpc.proto; dialling and calling are grpc's. A function returns the calls that it makes,
-- in order, with the address of each.
pub mod OnlineList
use go_websocket.Prelude.{ℕ, zero, suc, Option, none, some, List, [], ◌∷◌, ◌++◌, length}
use go_websocket.Prelude.Text.{Str}
use go_websocket.Prelude.Dict.{Dict}
use go_websocket.Prelude.Result.{Result, ok, err, panic, ◌>>=◌}
use go_websocket.Prelude.Int.{ℤ, int32}
use go_websocket.Setting.{Global}

-- The fields stand in the order of the protocol file.
pub data Request : Type 0 where
  send2_client_req : Str → Str → Str → Str → ℤ → Str → Str → Request
  close_client_req : Str → Str → Request
  bind_group_req : Str → Str → Str → Str → Str → Request
  send2_group_req : Str → Str → Str → Str → ℤ → Str → Str → Request
  send2_system_req : Str → Str → Str → ℤ → Str → Str → Request
  get_group_clients_req : Str → Str → Request

pub record Call : Type 0 where
  pub to : Str
  pub request : Request

-- `*data`
abbrev pub deref : Option Str → Result Str
deref none = panic
deref (some text) = ok text

-- SendRpc2Client sets no system id.
unfoldable pub send_rpc2_client : Str → Str → Str → Str → ℤ → Str → Option Str → Result (List Call)
send_rpc2_client addr message_id send_user_id client_id code message content = do
  text ← deref content
  ok (
      record {
        to = addr;
        request = send2_client_req [] message_id send_user_id client_id (int32 code) message text;
      }
      ∷ [])

unfoldable pub close_rpc_client : Str → Str → Str → List Call
close_rpc_client addr client_id system_id =
    record { to = addr; request = close_client_req system_id client_id } ∷ []

unfoldable pub send_rpc_bind_group : Str → Str → Str → Str → Str → Str → List Call
send_rpc_bind_group addr system_id group_name client_id user_id extend =
    record { to = addr; request = bind_group_req system_id group_name client_id user_id extend }
    ∷ []

-- A request to each server of the list; `request` panics where it reads a nil pointer.
unfoldable pub broadcast : Dict Str → Result Request → Result (List Call)
broadcast [] request = ok []
broadcast ((key, addr) ∷ servers) request = do
  req ← request
  calls ← broadcast servers request
  ok (record { to = addr; request = req } ∷ calls)

unfoldable pub send_group_broadcast :
    Global → Str → Str → Str → Str → ℤ → Str → Option Str → Result (List Call)
send_group_broadcast global system_id message_id send_user_id group_name code message content =
    broadcast global.server_list (do
      text ← deref content
      ok (send2_group_req system_id message_id send_user_id group_name (int32 code) message text))

unfoldable pub send_system_broadcast :
    Global → Str → Str → Str → ℤ → Str → Option Str → Result (List Call)
send_system_broadcast global system_id message_id send_user_id code message content =
    broadcast global.server_list (do
      text ← deref content
      ok (send2_system_req system_id message_id send_user_id (int32 code) message text))

-- What grpc and the other servers do with the calls of GetOnlineListBroadcast: the list that a call
-- is answered with, or `none` where it gives an error, and the order in which calls end that run at
-- the same time.
pub record Network : Type 0 where
  pub answer : Call → Option (List Str)
  pub ends : List Call → List Call

-- The loop over the servers: each goroutine makes one call.
unfoldable pub group_clients_calls : Dict Str → Str → Str → List Call
group_clients_calls [] system_id group_name = []
group_clients_calls ((key, addr) ∷ servers) system_id group_name =
    record { to = addr; request = get_group_clients_req system_id group_name }
    ∷ group_clients_calls servers system_id group_name

-- The answers to the calls, in the order in which these end.
unfoldable pub answers : Network → List Call → List (Option (List Str))
answers net [] = []
answers net (call ∷ calls) = net.answer call ∷ answers net calls

-- The goroutines put the lists of the calls that succeed on the channel.
unfoldable pub online_list_chan : List (Option (List Str)) → List (List Str)
online_list_chan [] = []
online_list_chan (some list ∷ arrived) = list ∷ online_list_chan arrived
online_list_chan (none ∷ arrived) = online_list_chan arrived

-- The receiving loop. The channel is closed behind the loop only, so that a receive from the empty
-- channel waits for ever: `none`.
unfoldable pub receive_lists : ℕ → List (List Str) → List Str → Option (List Str)
receive_lists zero chan client_id_list = some client_id_list
receive_lists (suc n) [] client_id_list = none
receive_lists (suc n) (list ∷ chan) client_id_list = receive_lists n chan (client_id_list ++ list)

unfoldable pub get_online_list_broadcast : Network → Global → Str → Str → Option (List Str)
get_online_list_broadcast net global system_id group_name =
    let calls = group_clients_calls global.server_list system_id group_name in
    receive_lists (length global.server_list) (online_list_chan (answers net (net.ends calls))) []
