-- ===== src/Tests/Interface.antt =====
-- The registration, the HTTP interface, the discovery and the log hook at concrete data.
use mathlib.Core.List.{Perm}
use mathlib.Core.List.Perm
use go_websocket.Prelude.{
  ℕ, ◌≡◌, ◌≢◌, refl, sym, ◌∙◌, ap, Bool, true, false, Option, none, some, List, [], ◌∷◌, ◌++◌,
  arith, replicate, if◌then◌else◌, ◌&&◌, ◌||◌, ltb, leb, length,
}
use go_websocket.Prelude.Text.{Str, codes, str_eq, str_eq_refl, contains, split}
use go_websocket.Prelude.Dict.{Dict, lookup, insert, values, lookup-insert}
use go_websocket.Prelude.Result.{Result, ok}
use go_websocket.Util.{gen_group_key}
use go_websocket.Manager.{get_group_client_list, is_app, add_client, add_account, account_key}
use go_websocket.Manager.Accounts.{connected, in_account, occurrences}
use go_websocket.World.{ClientInfo, World, done}
use go_websocket.Account.{Etcd, IsStore, Accounts, AccountInfo, register, register_in_cluster}
use go_websocket.Account.Laws.{register_twice}
use go_websocket.Http.{render, success, success_text, no_items, online_list, statistics, message_id}
use go_websocket.Api.{
  Field, text, slice, Validator, IsRequired, Send2Clients, Send2Group, send2_group, send2_clients,
  get_online_list_handler, statistics_handler, replied, message,
}
use go_websocket.Api.Groups.{calls_to, group_request, group_message_lost}
use go_websocket.RpcServer.{serve_request, send2_group_reply}
use go_websocket.Server.{make_calls}
use go_websocket.System.{perform, runs, writes}
use go_websocket.System.Journey.{perform_all, quiet}
use go_websocket.System.Writes.{all_written, all_unwritten}
use go_websocket.Server.Delivery.{sent}
use go_websocket.Api.Delivery.{messages, send2_clients-delivered}
use go_websocket.Tests.Managers.{one_client, one_client-IsSound}
use go_websocket.Prelude.Int.{pos}
use go_websocket.Tests.Ciphers.{uuid, gen_uuid_run}
use go_websocket.Api.Laws.{cluster, get_online_list_handler_lem, statistics_handler_lem}
use go_websocket.Tests.Servers.{
  common, global, heap, start, serving, libraries, registered, Reach-registered,
}

abbrev counted : Option Str → Result ℕ
counted none = ok 0
counted (some v) = ok 1

abbrev etcd : Etcd (Dict Str)
etcd = record { get = λ k s. counted (lookup k s); put = λ k v s. (insert k v s, ok tt) }

etcd-IsStore : IsStore etcd
etcd-IsStore = record {
  get-put = λ k v s t h f.
      let e : insert k v s ≡ t = ap (λ p. p.0) h in
      let l = lookup-insert k k v s in ground (arith, l, str_eq_refl k, ap (λ d. lookup k d) e, f);
  get_other = λ k v j s t h f.
      let e : insert k v s ≡ t = ap (λ p. p.0) h in
      ap counted (ap (λ d. lookup j d) (sym e) ∙ (lookup-insert k j v s ∙ rw f));
}

abbrev marshal : AccountInfo → Str
marshal info = info.system_id

abbrev im : Str
im = codes "im"

abbrev before : Accounts (Dict Str)
before = record { system_map = []; store = [] }

abbrev after : Accounts (Dict Str)
after = record { system_map = []; store = (codes "ws/account/im", im) ∷ [] }

register-im : register etcd marshal true 5 im before ≡ (after, ok tt)
unfolding register register_in_cluster str_eq lookup insert
register-im = refl

register_twice_example :
    ((register etcd marshal true 6 im after).0 ≡ after)
    × ((register etcd marshal true 6 im after).1 ≢ ok tt)
register_twice_example =
    register_twice etcd etcd-IsStore marshal true 5 6 im before after register-im

abbrev caller : ℕ → Option (Str × ℕ)
caller n =
    some
      (if ltb n 7 then (codes "/go/logrus/entry.go", n) else (codes "/go/src/servers/client.go", n))

abbrev is_unset : Field → Bool
is_unset (text []) = true
is_unset (text (c ∷ s)) = false
is_unset (slice none) = true
is_unset (slice (some l)) = false

abbrev first_unset : Validator
first_unset [] = none
first_unset (f ∷ fields) =
    let rest = first_unset fields in if is_unset f then some (codes "required") else rest

first_unset-IsRequired : IsRequired first_unset
first_unset-IsRequired [] = (λ h. tt, λ h. refl)
first_unset-IsRequired (text [] ∷ fields) =
    (λ h. absurd (ground (arith, h)), λ h. absurd (h.0 refl))
first_unset-IsRequired (text (c ∷ s) ∷ fields) =
    let (f, g) = first_unset-IsRequired fields in
    (λ h. (λ e. absurd (ground (arith, e)), f h), λ h. g h.1)
first_unset-IsRequired (slice none ∷ fields) =
    (λ h. absurd (ground (arith, h)), λ h. absurd (h.0 refl))
first_unset-IsRequired (slice (some l) ∷ fields) =
    let (f, g) = first_unset-IsRequired fields in
    (λ h. (λ e. absurd (ground (arith, e)), f h), λ h. g h.1)

abbrev two_clients : Send2Clients
two_clients = record {
  client_ids = some (codes "WEB_7" ∷ codes "APP_1" ∷ []);
  send_user_id = [];
  code = codes "1";
  msg = [];
  content = codes "hello";
}

abbrev id_of_message : ℕ → Str
id_of_message n = codes "9dad11d180b400c0"

abbrev two_messages : List ClientInfo
two_messages = messages id_of_message 0 two_clients (codes "WEB_7" ∷ codes "APP_1" ∷ [])

send2_clients-delivered_example :
    (v : World) × (send2_clients libraries.cipher first_unset
        (λ n. uuid)
        (some two_clients)
        (quiet serving)
      ≡ replied v (render success success_text no_items))
    × (perform_all libraries (replicate 2 (runs 0) ++ replicate 2 writes) v
        ≡ done (
            sent
              (all_written libraries heap one_client.client_id_map two_messages)
              (all_unwritten libraries heap one_client.client_id_map two_messages)
              (quiet serving)))
unfolding one_client add_client is_app contains lookup add_account account_key split values str_eq
    insert message
send2_clients-delivered_example =
    send2_clients-delivered libraries (λ n. uuid) id_of_message (λ n. gen_uuid_run) two_clients
      first_unset first_unset-IsRequired (codes "WEB_7" ∷ codes "APP_1" ∷ []) refl (omega arith)
      serving refl
      (record {
        outer = one_client-IsSound.keyed.outer;
        inner = one_client-IsSound.keyed.inner;
        nonempty = one_client-IsSound.keyed.nonempty;
      })
      (omega arith)

abbrev in_two : World
in_two = record start {
  common = record common { cluster = true };
  global = record global {
    server_list = (codes "a", codes "10.0.0.1:7000") ∷ (codes "b", codes "10.0.0.2:7000") ∷ [];
  };
}

-- The second server has two members of the group.
abbrev member_lists : Str → World
member_lists addr =
    if str_eq addr (codes "10.0.0.2:7000")
    then record start {
      manager = record start.manager {
        groups = (codes "im:g", codes "WEB_7" ∷ codes "APP_1" ∷ []) ∷ [];
      };
    }
    else start

get_online_list_handler_lem_example :
    (ids : List Str) × (get_online_list_handler first_unset
        (cluster member_lists (λ calls. calls))
        im
        (some (record { group_name = codes "g" }))
        in_two
      ≡ replied in_two (render success success_text (online_list (length ids) ids)))
    × Perm ids (codes "WEB_7" ∷ codes "APP_1" ∷ [])
unfolding get_group_client_list gen_group_key values lookup str_eq
get_online_list_handler_lem_example =
    get_online_list_handler_lem first_unset first_unset-IsRequired member_lists (λ calls. calls)
      (λ calls. Perm.refl calls) im (codes "g") (λ e. absurd (ground (arith, e))) in_two refl

statistics_handler_lem_example :
    (ids : List Str) × (statistics_handler first_unset
        (some (record { platform = codes "APP"; account = codes "1" }))
        registered
      ≡ replied registered (render success success_text (statistics ids (length ids))))
    × ((id : Str)
        → (ltb 0 (occurrences id ids)
            ≡ (in_account id (codes "APP_1") && connected id registered.manager))
          × ((is_app id || leb (occurrences id ids) 1) ≡ true))
statistics_handler_lem_example =
    statistics_handler_lem first_unset first_unset-IsRequired common global heap Reach-registered
      (codes "APP") (codes "1")

abbrev to_group : Send2Group
to_group = record {
  send_user_id = [];
  group_name = codes "g";
  code = pos 1;
  msg = [];
  content = codes "hello";
}

group_message_lost_example :
    (v : World) × (send2_group first_unset uuid im (some to_group) in_two
      ≡ replied v (render success success_text (message_id (codes "9dad11d180b400c0"))))
    × (perform libraries (runs 0) v
        ≡ done (
            make_calls
              (calls_to in_two.global.server_list
                (group_request (codes "9dad11d180b400c0") im to_group))
              in_two))
    × ((server : World)
        → serve_request (group_request (codes "9dad11d180b400c0") im to_group) server
          ≡ (server, send2_group_reply))
group_message_lost_example =
    group_message_lost libraries first_unset first_unset-IsRequired uuid (codes "9dad11d180b400c0")
      gen_uuid_run im to_group (λ e. absurd (ground (arith, e))) in_two refl
