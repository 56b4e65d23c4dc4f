-- ===== src/Tests/Tables.antt =====
-- A client that comes and goes, and the theorems on the table of connections applied to its run.
use go_websocket.Prelude.{◌∷◌, arith, ◌++◌, ◌≡◌, ◌≢◌, refl, some, none, []}
use go_websocket.Prelude.Text.{codes, str_eq, contains, has_prefix, split}
use go_websocket.Prelude.Dict.{lookup, insert, values}
use go_websocket.Client.{new_client}
use go_websocket.Manager.{add_client2_system_client, add_client, is_app, add_account, account_key}
use go_websocket.World.{done, World, send_connect, send_dis_connect}
use go_websocket.Connect.{Handshake, run, admit, read_round, closed_as_expected}
use go_websocket.Events.{
  start_connect, take_connect, event_connect, start_dis_connect, take_dis_connect,
}
use go_websocket.System.{
  connects, reads, takes_dis_connect, sends_local_system, Reach, here, next, perform,
}
use go_websocket.System.Table.{table, empty, apply, effect}
use go_websocket.System.Table.Refines.{Shows, perform-refines-table}
use go_websocket.System.Table.History.{effects, after, Reach-refines-table, connection_never_leaves}
use go_websocket.Manager.{get_system_client_list}
use go_websocket.System.Lonely.{system_is_one_client}
use go_websocket.Tests.Servers.{
  libraries, state_of, common, global, heap, start, registered, connected, info, Reach-registered,
}

abbrev web : Handshake
web = record { system_id = codes "WEB_7"; token = []; remote_addr = codes "10.0.0.9:5000" }

entered : World
entered = state_of (perform libraries (connects 6 (some 5) web) start)

closing : World
closing = state_of (perform libraries (reads 0 closed_as_expected) entered)

left : World
left = state_of (perform libraries takes_dis_connect closing)

Reach-left : Reach entered left
unfolding perform run admit add_client2_system_client add_client is_app contains new_client
    add_account account_key split entered closing left read_round send_dis_connect start_dis_connect
    take_dis_connect str_eq send_connect lookup
Reach-left =
    next libraries takes_dis_connect (next libraries (reads 0 closed_as_expected) here refl) refl

perform-refines-table_example :
    Shows
      (apply (effect (connects 6 (some 5) web) start) (table start))
      (perform libraries (connects 6 (some 5) web) start)
perform-refines-table_example = perform-refines-table libraries (connects 6 (some 5) web) start

Reach-refines-table_example : table registered ≡ after (effects Reach-registered) empty
Reach-refines-table_example = Reach-refines-table common global heap Reach-registered

connection_never_leaves_example : table left (codes "WEB_7") (codes "10.0.0.9:5000") ≢ none
unfolding perform run admit send_connect add_client2_system_client add_client is_app contains
    has_prefix new_client add_account account_key split entered lookup insert str_eq values
connection_never_leaves_example =
    connection_never_leaves Reach-left (codes "WEB_7") (codes "10.0.0.9:5000") refl refl (λ e. cc)

system_is_one_client_example :
    (get_system_client_list (codes "APP_1") registered.manager ≡ codes "APP_1" ∷ [])
    × (perform libraries (sends_local_system (codes "APP_1") info) registered
        ≡ done (record registered {
          to_client_chan =
              registered.to_client_chan ++ record info { client_id = codes "APP_1" } ∷ [];
        }))
unfolding perform run admit send_connect add_client2_system_client add_client is_app contains
    has_prefix new_client add_account account_key split lookup insert str_eq values registered
    connected get_system_client_list start_connect take_connect event_connect
system_is_one_client_example =
    system_is_one_client libraries common global heap registered Reach-registered (codes "APP_1")
      info refl 1 refl (omega arith)
