-- ===== src/Api/Laws.antt =====
-- What the handlers of api do from the request to the state of the server and the reply.
use mathlib.Core.List.{Perm}
use go_websocket.Prelude.{
  ℕ, ◌+◌, ◌≡◌, subst, ◌≢◌, refl, ◌∙◌, ap, Option, none, some, List, [], ◌∷◌, ◌++◌, true, false,
  arith, length, ltb, leb, ◌&&◌, ◌||◌, append_assoc, append-nil,
}
use go_websocket.Prelude.Text.{Str}
use go_websocket.Prelude.Dict.{Dict, values}
use go_websocket.Prelude.Result.{ok}
use go_websocket.Setting.{CommonConf, Global}
use go_websocket.Crypto.{Cipher}
use go_websocket.Util.{gen_uuid, is_cluster, gen_group_key}
use go_websocket.Client.{Heap}
use go_websocket.Rpc.{Call, Network, group_clients_calls, answers}
use go_websocket.Rpc.OnlineList.{AllAnswer, answered, get_online_list_broadcast_answers}
use go_websocket.RpcServer.{Reply, get_group_clients_reply, serve_request}
use go_websocket.Manager.{ClientManager, is_app, get_group_client_list, platform_account_count}
use go_websocket.Manager.Accounts.{connected, in_account, occurrences, online}
use go_websocket.Manager.Online.{Listed}
use go_websocket.World.{ClientInfo, Task, local_client, World, spawn, done}
use go_websocket.Server.{client_statistics, get_online_list, send_message2_client}
use go_websocket.System.{Reach, initial}
use go_websocket.System.Invariant.{Reach-IsSafe}
use go_websocket.Http.{render, success, success_text, no_items, statistics, online_list}
use go_websocket.Api.{
  Field, AllFilled, Validator, IsRequired, Served, replied, serve, Send2Clients, message, send_each,
  send2_clients, send2_clients_fields, elements, online_fields, online_answer, statistics_fields,
  get_online_list_handler, statistics_handler,
}

-- A body whose required fields are set is acted on.
pub serve_valid :
    {A W : Type 0} (fields : A → List Field) (validate : Validator)
    → IsRequired validate
    → (w : W) (input : A) (act : A → Served W) → AllFilled (fields input)
    → serve fields validate w (some input) act ≡ act input
unfolding serve
serve_valid fields validate law w input act h = rw ((law (fields input)).1 h)

-- The goroutines that are started for a list of clients.
abbrev pub tasks : (ℕ → Str) → ℕ → Send2Clients → List Str → List Task
tasks ids n i [] = []
tasks ids n i (client ∷ clients) =
    local_client (message client i.send_user_id (ids n) i.code i.msg i.content)
    ∷ tasks ids (n + 1) i clients

single_machine :
    (cipher : Cipher) (info : ClientInfo) (w : World)
    → is_cluster w.common ≡ false
    → send_message2_client cipher info w ≡ done (spawn (local_client info) w)
unfolding send_message2_client
single_machine cipher info w h = simp h

module _ (cipher : Cipher) (uuids ids : ℕ → Str) (makes : (n : ℕ) → gen_uuid (uuids n) ≡ ok (ids n))
    (i : Send2Clients) where
  send_each_lem :
      (clients : List Str) (n : ℕ) (w : World)
      → is_cluster w.common ≡ false
      → send_each cipher uuids n i clients w
        ≡ replied
            (record w { spawned = w.spawned ++ tasks ids n i clients })
            (render success success_text no_items)
  unfolding send_each
  send_each_lem [] n w h = rw append-nil
  send_each_lem (client ∷ clients) n w h =
      let info = message client i.send_user_id (ids n) i.code i.msg i.content in
      let rest = tasks ids (n + 1) i clients in
      rw (makes n, single_machine cipher info w h)
        (send_each_lem clients (n + 1) (spawn (local_client info) w) h
          ∙ ap (λ ts. replied (record w { spawned = ts }) (render success success_text no_items))
              (append_assoc w.spawned (local_client info ∷ []) rest))

  -- On a single machine a request to send to a list of clients starts one goroutine for each of
  -- them, in order, with the message and an id of its own, changes nothing else and reports success.
  pub send2_clients_lem :
      (validate : Validator)
      → IsRequired validate
      → (clients : List Str) → i.client_ids ≡ some clients
      → (w : World) → is_cluster w.common ≡ false
      → send2_clients cipher validate uuids (some i) w
        ≡ replied
            (record w { spawned = w.spawned ++ tasks ids 0 i clients })
            (render success success_text no_items)
  unfolding send2_clients
  send2_clients_lem validate law clients e w h =
      serve_valid send2_clients_fields validate law w i
        (λ input. send_each cipher uuids 0 input (elements input.client_ids) w)
        (λ f. ground (arith, e, f), tt)
      ∙ (ap (λ l. send_each cipher uuids 0 i (elements l) w) e ∙ send_each_lem clients 0 w h)

-- Asked over RPC for a group, each server of the cluster gives its own list.
abbrev pub list_of : World × Reply → Option (List Str)
list_of (w, get_group_clients_reply l) = some l
list_of (w, _) = none

-- The network of a cluster, by the state of the server at each address.
abbrev pub cluster : (Str → World) → (List Call → List Call) → Network
cluster server ends = record {
  answer = λ call. list_of (serve_request call.request (server call.to));
  ends = ends;
}

-- The members of a group on the servers of a list, by its key there.
abbrev pub members : (Str → World) → Str → Dict Str → List Str
members server group_key [] = []
members server group_key ((key, addr) ∷ servers) =
    get_group_client_list group_key (server addr).manager ++ members server group_key servers

module _ (server : Str → World) (ends : List Call → List Call) (system_id group_name : Str) where
  all_answer : (servers : Dict Str) → AllAnswer (cluster server ends) servers system_id group_name
  unfolding serve_request group_clients_calls answers
  all_answer [] = tt
  all_answer ((key, addr) ∷ servers) = (tt, all_answer servers)

  answered-members :
      (servers : Dict Str)
      → answered (cluster server ends) servers system_id group_name
        ≡ members server (gen_group_key system_id group_name) servers
  unfolding serve_request group_clients_calls answers
  answered-members [] = refl
  answered-members ((key, addr) ∷ servers) =
      ap
        (λ l. get_group_client_list (gen_group_key system_id group_name) (server addr).manager ++ l)
        (answered-members servers)

  cluster_list :
      ((calls : List Call) → Perm (ends calls) calls)
      → (w : World) → is_cluster w.common ≡ true
      → (ids : List Str) × (get_online_list (cluster server ends) system_id group_name w
          ≡ some (length ids, ids))
        × Perm ids (members server (gen_group_key system_id group_name) w.global.server_list)
  unfolding get_online_list
  cluster_list all w h =
      let (ids, got, same) =
        get_online_list_broadcast_answers (cluster server ends) all w.global system_id group_name
          (all_answer w.global.server_list) in
      (ids, simp (h, got), subst (λ l. Perm ids l) (answered-members w.global.server_list) same)

module _ (validate : Validator) (law : IsRequired validate) where
  -- In a cluster in which every call is answered by the handler of the server at the address, the
  -- request for the online list of a group replies the members of the group on all servers of the
  -- own list of servers, under the system id of the request and the group's name, in some order, and
  -- their number. The calls may end in any order; the group's name is not empty.
  pub get_online_list_handler_lem :
      (server : Str → World) (ends : List Call → List Call)
      → ((calls : List Call) → Perm (ends calls) calls)
      → (system_id group_name : Str) → group_name ≢ []
      → (w : World) → is_cluster w.common ≡ true
      → (ids : List Str) × (get_online_list_handler validate
            (cluster server ends)
            system_id
            (some (record { group_name = group_name }))
            w
          ≡ replied w (render success success_text (online_list (length ids) ids)))
        × Perm ids (members server (gen_group_key system_id group_name) w.global.server_list)
  unfolding get_online_list_handler
  get_online_list_handler_lem server ends all system_id group_name n w h =
      let (ids, got, same) = cluster_list server ends system_id group_name all w h in
      (
        ids,
        serve_valid online_fields validate law w _
              (λ i.
                online_answer validate w
                  (get_online_list (cluster server ends) system_id i.group_name w))
              (n, tt)
            ∙ ap (online_answer validate w) got,
        same,
      )

  accounts_lem :
      (m : ClientManager) (key : Str)
      → Listed m
      → (id : Str)
      → (ltb 0 (online id key m) ≡ (in_account id key && connected id m))
        × ((is_app id || leb (online id key m) 1) ≡ true)
  accounts_lem m key v id = (
    ground (arith, v.once id key, v.some_app id key, v.no_app id key, v.elsewhere id key),
    ground (arith, v.once id key, v.elsewhere id key),
  )

  -- In every state that the server reaches, the request for the clients of a platform's account
  -- replies a list and its length. An id is in the list exactly if it is connected and belongs to
  -- the account, and an id that is no APP_ one is in it at most once.
  pub statistics_handler_lem :
      (common : CommonConf) (global : Global) (heap : Heap) {w : World}
      → Reach (initial common global heap) w
      → (platform account : Str)
      → (ids : List Str) × (statistics_handler validate
            (some (record { platform = platform; account = account }))
            w
          ≡ replied w (render success success_text (statistics ids (length ids))))
        × ((id : Str)
            → (ltb 0 (occurrences id ids)
                ≡ (in_account id (platform ++ (b'_' ∷ account)) && connected id w.manager))
              × ((is_app id || leb (occurrences id ids) 1) ≡ true))
  unfolding statistics_handler client_statistics platform_account_count
  statistics_handler_lem common global heap {w} r platform account = (
    values (platform ++ (b'_' ∷ account)) w.manager.platform_account_map,
    serve_valid statistics_fields validate law w _ _ tt,
    accounts_lem w.manager (platform ++ (b'_' ∷ account))
        (Reach-IsSafe common global heap r).manager.listed,
  )
