-- ===== src/Api/Groups.antt =====
-- A request to send to a group of a cluster (api/send2group), from the handler by the broadcast of
-- servers/rpcclient.go to the RPC handlers of the other servers (servers/rpcserver.go).
use go_websocket.Prelude.{◌≡◌, ◌≢◌, refl, ap, ◌∙◌, true, some, List, [], ◌∷◌, length}
use go_websocket.Prelude.Text.{Str}
use go_websocket.Prelude.Dict.{Dict}
use go_websocket.Prelude.Result.{Result, ok, err, panic}
use go_websocket.Prelude.Int.{int32}
use go_websocket.Util.{is_cluster, gen_uuid}
use go_websocket.Rpc.{Request, Call, send2_group_req, broadcast, send_group_broadcast}
use go_websocket.RpcServer.{send2_group_reply, serve_request}
use go_websocket.World.{group_broadcast, World, done, crashed, spawn}
use go_websocket.Server.{send_message2_group, run_task, make_calls}
use go_websocket.Http.{render, success, success_text, message_id}
use go_websocket.Api.{
  Validator, IsRequired, replied, Send2Group, send2_group_fields, with_message_id, send2_group,
  succeed,
}
use go_websocket.Api.Laws.{serve_valid}
use go_websocket.System.{Libraries, runs, perform, run_picked, or_stays}
use go_websocket.System.Journey.{pick-last}

-- The same request to each server of a list.
abbrev pub calls_to : Dict Str → Request → List Call
calls_to [] request = []
calls_to ((key, addr) ∷ servers) request =
    record { to = addr; request = request } ∷ calls_to servers request

broadcast_lem :
    (servers : Dict Str) (request : Request)
    → broadcast servers (ok request) ≡ ok (calls_to servers request)
unfolding broadcast
broadcast_lem [] request = refl
broadcast_lem ((key, addr) ∷ servers) request = rw (broadcast_lem servers request) refl

abbrev pub group_request : Str → Str → Send2Group → Request
group_request id system_id i =
    send2_group_req system_id id i.send_user_id i.group_name (int32 i.code) i.msg i.content

module _ (id system_id : Str) (i : Send2Group) (w : World) where
  abbrev task_started : World
  task_started =
      spawn (group_broadcast system_id id i.send_user_id i.group_name i.code i.msg (some i.content))
        w

  group_task :
      is_cluster w.common ≡ true
      → send_message2_group id system_id i.send_user_id i.group_name i.code i.msg (some i.content) w
        ≡ task_started
  unfolding send_message2_group
  group_task h = simp h

  group_calls :
      (lib : Libraries)
      → perform lib (runs (length w.spawned)) task_started
        ≡ done (make_calls (calls_to w.global.server_list (group_request id system_id i)) w)
  unfolding perform run_task send_group_broadcast
  group_calls lib =
      ap (λ t. run_picked task_started t)
        (pick-last w.spawned
          (group_broadcast system_id id i.send_user_id i.group_name i.code i.msg (some i.content)))
      ∙ ap
          (λ (r : Result (List Call)).
            or_stays task_started
              (elim r [ ok calls ↦ done (make_calls calls w) | err e ↦ done w | panic ↦ crashed ]))
          (broadcast_lem w.global.server_list (group_request id system_id i))

-- In a cluster a request to send to a group is answered with success and the id of the message, but
-- no client gets it: the goroutine that is started sends the message once to each server of the list
-- and does nothing else, and every server replies to that and stays as it is.
pub group_message_lost :
    (lib : Libraries) (validate : Validator)
    → IsRequired validate
    → (uuid id : Str) → gen_uuid uuid ≡ ok id
    → (system_id : Str) (i : Send2Group) → i.group_name ≢ []
    → (w : World) → is_cluster w.common ≡ true
    → (v : World) × (send2_group validate uuid system_id (some i) w
        ≡ replied v (render success success_text (message_id id)))
      × (perform lib (runs (length w.spawned)) v
          ≡ done (make_calls (calls_to w.global.server_list (group_request id system_id i)) w))
      × ((server : World)
          → serve_request (group_request id system_id i) server ≡ (server, send2_group_reply))
unfolding send2_group serve_request
group_message_lost lib validate law uuid id makes system_id i named w h = (
  task_started id system_id i w,
  serve_valid send2_group_fields validate law w i _ (named, tt)
      ∙ (ap
            (λ r. with_message_id r (λ n. succeed (message_id n) (
              send_message2_group n system_id i.send_user_id i.group_name i.code i.msg
                (some i.content) w)))
            makes
          ∙ ap (λ u. succeed (message_id id) u) (group_task id system_id i w h)),
  group_calls id system_id i w lib,
  λ server. refl,
)
