-- ===== src/Tests/Groups.antt =====
-- A group of three clients on one machine, the first of which is gone.
use go_websocket.Prelude.{◌≡◌, ◌++◌, refl, [], ◌∷◌, arith}
use go_websocket.Prelude.Text.{codes, str_eq, contains, has_prefix, split}
use go_websocket.Prelude.Dict.{lookup, insert, values, erase}
use go_websocket.Prelude.Result.{client_missing}
use go_websocket.Util.{gen_group_key}
use go_websocket.Client.{Client}
use go_websocket.Manager.{
  ClientManager, new_client_manager, add_client, add_account, account_key, is_app, get_by_client_id,
  copy_entries, get_group_client_list,
}
use go_websocket.World.{World, done}
use go_websocket.Events.{send_message2_local_group}
use go_websocket.System.Broadcasts.{addressed}
use go_websocket.System.GroupSends.{group_message_reaches}
use go_websocket.System.GroupSends.Skips.{group_message_skips}
use go_websocket.Tests.Managers.{web_client}
use go_websocket.Tests.Servers.{start, info}

abbrev app_client : Client
app_client = record web_client { client_id = codes "APP_1"; addr = codes "10.0.0.2:900" }

two_connected : ClientManager
two_connected = add_client web_client 0 (add_client app_client 1 new_client_manager)

abbrev grouped : World
grouped = record start {
  manager = record two_connected {
    groups =
        (gen_group_key (codes "im") (codes "g"), codes "WEB_9" ∷ codes "WEB_7" ∷ codes "APP_1" ∷ [])
        ∷ (gen_group_key (codes "im") (codes "h"), codes "WEB_7" ∷ [])
        ∷ [];
  };
}

group_message_skips_example :
    send_message2_local_group (codes "im") (codes "g") info grouped
    ≡ done (record grouped {
      to_client_chan =
          grouped.to_client_chan ++ addressed info (codes "APP_1" ∷ codes "APP_1" ∷ []);
      manager = record grouped.manager {
        groups =
            insert
              (gen_group_key (codes "im") (codes "g"))
              (codes "WEB_7" ∷ codes "APP_1" ∷ [])
              grouped.manager.groups;
      };
    })
unfolding two_connected add_client add_account account_key is_app contains has_prefix split lookup
    insert values erase str_eq get_by_client_id copy_entries get_group_client_list gen_group_key
group_message_skips_example =
    group_message_skips (codes "im") (codes "g") info grouped refl [] [] (codes "WEB_9")
      (codes "WEB_7") (codes "APP_1") refl tt ((_, refl), ((_, refl), tt)) client_missing refl
      (omega arith) (omega arith)

group_message_reaches_example :
    send_message2_local_group (codes "im") (codes "h") info grouped
    ≡ done (record grouped {
      to_client_chan = grouped.to_client_chan ++ addressed info (codes "WEB_7" ∷ []);
    })
unfolding two_connected add_client add_account account_key is_app contains has_prefix split lookup
    insert values erase str_eq get_by_client_id copy_entries get_group_client_list gen_group_key
group_message_reaches_example =
    group_message_reaches (codes "im") (codes "h") info grouped refl (codes "WEB_7" ∷ []) refl
      ((_, refl), tt) (omega arith)
