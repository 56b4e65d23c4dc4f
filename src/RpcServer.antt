-- ===== src/RpcServer.antt =====
-- servers/rpcserver.go: what a server does with the requests of the others. The handlers that are
-- left empty, or whose body is commented out, reply and do nothing.
use go_websocket.Prelude.{List}
use go_websocket.Prelude.Text.{Str}
use go_websocket.Prelude.Result.{Result, ok, panic}
use go_websocket.Util.{gen_group_key}
use go_websocket.Rpc.{
  Request, send2_client_req, close_client_req, bind_group_req, send2_group_req, send2_system_req,
  get_group_clients_req,
}
use go_websocket.Manager.{get_group_client_list}
use go_websocket.World.{World}

-- The replies of servers/grpc.proto; all but one are empty.
pub data Reply : Type 0 where
  send2_client_reply close_client_reply bind_group_reply send2_group_reply : Reply
  send2_system_reply : Reply
  get_group_clients_reply : List Str → Reply

-- The handlers of CommonServiceServer. None returns an error.
unfoldable pub serve_request : Request → World → World × Reply
serve_request (send2_client_req system_id message_id user client code text content) w =
    (w, send2_client_reply)
serve_request (close_client_req system_id client) w = (w, close_client_reply)
serve_request (bind_group_req system_id group_name client user extend) w = (w, bind_group_reply)
serve_request (send2_group_req system_id message_id user group_name code text content) w =
    (w, send2_group_reply)
serve_request (send2_system_req system_id message_id user code text content) w =
    (w, send2_system_reply)
serve_request (get_group_clients_req system_id group_name) w = (
  w,
  get_group_clients_reply (get_group_client_list (gen_group_key system_id group_name) w.manager),
)

-- createGRPCServer, from what net.Listen and Serve return; the panic of its goroutine ends the
-- program.
unfoldable pub create_grpc_server : Result (Unit {0}) → Result (Unit {0}) → Result (Unit {0})
create_grpc_server (ok lis) (ok served) = ok tt
create_grpc_server (ok lis) _ = panic
create_grpc_server _ served = panic
