-- ===== src/Tests/Channels.antt =====
-- The channels of a running server, and what a client's socket reads, at concrete data.
use mathlib.Core.List.{Perm}
use mathlib.Core.List.Perm
use go_websocket.Prelude.{
  ◌≡◌, refl, true, false, none, some, [], ◌∷◌, arith, replicate, Bool-cases, inl, inr, subst,
}
use go_websocket.Prelude.Text.{Str, codes, str_eq, split, contains}
use go_websocket.Prelude.Dict.{insert, values, Dict, lookup, NodupKeys}
use go_websocket.Client.{Ref}
use go_websocket.Manager.{
  ClientManager, get_system_client_list, is_empty, add_client, add_account, account_key, is_app,
}
use go_websocket.Manager.Maps.{IsKeyed}
use go_websocket.World.{World, done}
use go_websocket.Server.{write_message}
use go_websocket.Server.Delivery.{sent}
use go_websocket.Server.Order.{write_message-perm}
use go_websocket.Connect.{message, closed_as_expected, failed, ping_failed}
use go_websocket.Connect.Reading.{read, answers, read_lem}
use go_websocket.System.Writes.{all_written, all_unwritten, writes_in_order}
use go_websocket.System.Broadcasts.{system_delivered}
use go_websocket.System.{sends_local_system, takes_dis_connect, reads, writes}
use go_websocket.System.Journey.{perform_all, quiet}
use go_websocket.System.Queues.{rounds, start_empties}
use go_websocket.System.Closing.{settled, closed_client_stays}
use go_websocket.Tests.Managers.{one_client, one_client-IsSound, connected_at}
use go_websocket.Tests.Servers.{heap, serving, info, libraries, write_json}

abbrev waiting : World
waiting = record serving {
  manager = record one_client { connect = 0 ∷ []; dis_connect = 1 ∷ 0 ∷ [] };
}

start_empties_example :
    (v : World) × (perform_all libraries (rounds (false ∷ true ∷ false ∷ [])) waiting ≡ done v)
    × (v.manager.connect ≡ [])
    × (v.manager.dis_connect ≡ [])
start_empties_example = start_empties libraries (false ∷ true ∷ false ∷ []) waiting refl refl

abbrev inner : Dict Ref
inner = (codes "10.0.0.9:5000", 0) ∷ []

writes_in_order_example :
    perform_all libraries
      (replicate 2 writes)
      (record serving { to_client_chan = info ∷ info ∷ [] })
    ≡ done (
        sent
          (all_written libraries heap one_client.client_id_map (info ∷ info ∷ []))
          (all_unwritten libraries heap one_client.client_id_map (info ∷ info ∷ []))
          (record serving { to_client_chan = [] }))
unfolding one_client add_client is_app contains lookup add_account account_key split values str_eq
    insert
writes_in_order_example =
    writes_in_order libraries (info ∷ info ∷ []) serving one_client-IsSound.keyed (omega arith)

closed_client_stays_example :
    (v : World) × (perform_all libraries
        (reads 0 closed_as_expected ∷ takes_dis_connect ∷ [])
        (settled serving)
      ≡ done v)
    × (v.closed ≡ 3 ∷ [])
    × ((v.heap 0).is_deleted ≡ true)
    × ((j : Str) → lookup j v.manager.client_id_map ≡ lookup j one_client.client_id_map)
unfolding str_eq lookup
closed_client_stays_example =
    closed_client_stays libraries 0 serving one_client-IsSound.keyed inner connected_at refl

read_lem_example :
    (read write_json 0
        (message none
          ∷ message (some (codes "KeepLive"))
          ∷ ping_failed
          ∷ closed_as_expected
          ∷ failed
          ∷ [])
        serving
      ≡ done (
          sent
            (answers write_json 0 3
              (message none ∷ message (some (codes "KeepLive")) ∷ ping_failed ∷ []))
            (0 ∷ [])
            serving))
    × (read write_json 0
          (message none ∷ message (some (codes "KeepLive")) ∷ ping_failed ∷ failed ∷ failed ∷ [])
          serving
        ≡ done (
            sent
              (answers write_json 0 3
                (message none ∷ message (some (codes "KeepLive")) ∷ ping_failed ∷ []))
              []
              serving))
unfolding one_client add_client is_app contains lookup add_account account_key split
read_lem_example =
    read_lem write_json 0 (message none ∷ message (some (codes "KeepLive")) ∷ ping_failed ∷ [])
      (failed ∷ []) serving tt (omega arith)

-- Two connections of one client, in both orders.
abbrev ahead : Dict Ref
ahead = (codes "a", 0) ∷ (codes "b", 1) ∷ []

abbrev behind : Dict Ref
behind = (codes "b", 1) ∷ (codes "a", 0) ∷ []

abbrev with_connections : Dict Ref → ClientManager
with_connections d = record one_client { client_id_map = (codes "WEB_7", d) ∷ [] }

-- A dictionary under one key, as it stands in the maps of the manager.
with_connections-IsKeyed :
    (d : Dict Ref) → NodupKeys d → is_empty d ≡ false → IsKeyed (with_connections d)
unfolding lookup
with_connections-IsKeyed d n e = record {
  outer = (refl, tt);
  inner = λ id x h. elim (Bool-cases (str_eq (codes "WEB_7") id)) [
    | inl b ↦ let e : d ≡ x = ground (arith, b, h) in subst NodupKeys e n
    | inr b ↦ absurd (ground (arith, b, h))
  ];
  nonempty = λ id x h. elim (Bool-cases (str_eq (codes "WEB_7") id)) [
    | inl b ↦ let same : d ≡ x = ground (arith, b, h) in subst (λ y. is_empty y ≡ false) same e
    | inr b ↦ absurd (ground (arith, b, h))
  ];
}

swapped : Perm ahead behind
swapped = Perm.swap (codes "b", 1) (codes "a", 0) []

write_message-perm_example :
    (u v : World) × (write_message write_json info
        (record serving { manager = with_connections ahead })
      ≡ done u)
    × (write_message write_json info (record serving { manager = with_connections behind })
        ≡ done v)
    × Perm u.frames v.frames
    × Perm u.manager.dis_connect v.manager.dis_connect
unfolding lookup str_eq one_client add_client is_app contains add_account account_key split
write_message-perm_example =
    write_message-perm write_json info (record serving { manager = with_connections ahead })
      (with_connections behind) (with_connections-IsKeyed ahead (refl, (refl, tt)) refl)
      (with_connections-IsKeyed behind (refl, (refl, tt)) refl) refl ahead behind swapped refl refl
      (omega arith) (omega arith)

-- The client is in the list of a system.
abbrev in_system : World
in_system = record serving {
  manager = record one_client { system_clients = (codes "im", codes "WEB_7" ∷ []) ∷ [] };
}

system_delivered_example :
    perform_all libraries (sends_local_system (codes "im") info ∷ writes ∷ []) (quiet in_system)
    ≡ done (
        sent
          (all_written libraries heap one_client.client_id_map (info ∷ []))
          (all_unwritten libraries heap one_client.client_id_map (info ∷ []))
          (quiet in_system))
unfolding one_client add_client is_app contains lookup add_account account_key split str_eq
    get_system_client_list values insert
system_delivered_example =
    system_delivered libraries (codes "im") info in_system refl
      (record {
        outer = one_client-IsSound.keyed.outer;
        inner = one_client-IsSound.keyed.inner;
        nonempty = one_client-IsSound.keyed.nonempty;
      })
      (codes "WEB_7" ∷ []) refl (omega arith) (omega arith)
