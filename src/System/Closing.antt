-- ===== src/System/Closing.antt =====
-- What becomes of a client that closes its connection: Read queues it (servers/client.go), and Start
-- takes it from the queue (servers/clientmanager.go).
use go_websocket.Prelude.{
  ◌≡◌, ◌∙◌, refl, ap, some, none, [], ◌∷◌, ◌++◌, true, Bool-cases, inl, inr, ==_iff,
}
use go_websocket.Prelude.Text.{Str, str_eq}
use go_websocket.Prelude.Dict.{Dict, lookup}
use go_websocket.Client.{Client, Ref}
use go_websocket.Manager.{ClientManager, del_client, del_client_id_map}
use go_websocket.Manager.Maps.{IsKeyed}
use go_websocket.Manager.Lookups.{del_client_id_map_keeps}
use go_websocket.Manager.Sound.{del_rest-SameRest}
use go_websocket.World.{World, done, send_dis_connect}
use go_websocket.Events.{event_disconnect, start_dis_connect, take_dis_connect}
use go_websocket.Events.Laws.{event_disconnect_lem}
use go_websocket.Connect.{read_round, closed_as_expected}
use go_websocket.System.{Libraries, reads, takes_dis_connect, perform}
use go_websocket.System.Journey.{perform_all}

-- DelClient leaves the connections of every id as they are, unless one of the client's addresses is
-- its id.
del_client_keeps :
    (c : Client) (m : ClientManager) (d : Dict Ref)
    → IsKeyed m
    → lookup c.client_id m.client_id_map ≡ some d
    → lookup c.client_id d ≡ none
    → (j : Str) → lookup j (del_client (some c) m).client_id_map ≡ lookup j m.client_id_map
unfolding del_client
del_client_keeps c m d v e f j = elim (Bool-cases (str_eq c.client_id [])) [
  | inl b ↦ rw b
  | inr b ↦ rw b (
      ap (lookup j) (del_rest-SameRest c (del_client_id_map c.client_id c.addr m)).0
      ∙ (del_client_id_map_keeps c.client_id c.addr m d v e f).0 j)
]

-- A server whose channel DisConnect is empty.
abbrev pub settled : World → World
settled w = record w { manager = record w.manager { dis_connect = [] } }

-- A connection that is closed as expected is closed by the server too, once its Read has queued it and
-- Start has taken it; but ClientIdMap keeps all connections of all ids, so that messages for the
-- client still go to the closed socket. The client is connected, no address of it is its id, no map has a
-- key twice, and DisConnect is empty.
pub closed_client_stays :
    (lib : Libraries) (r : Ref) (w : World)
    → IsKeyed w.manager
    → (d : Dict Ref) → lookup (w.heap r).client_id w.manager.client_id_map ≡ some d
    → lookup (w.heap r).client_id d ≡ none
    → (v : World) × (perform_all lib
          (reads r closed_as_expected ∷ takes_dis_connect ∷ [])
          (settled w)
        ≡ done v)
      × (v.closed ≡ w.closed ++ (w.heap r).socket ∷ [])
      × ((v.heap r).is_deleted ≡ true)
      × ((j : Str) → lookup j v.manager.client_id_map ≡ lookup j w.manager.client_id_map)
unfolding perform read_round send_dis_connect start_dis_connect take_dis_connect
closed_client_stays lib r w v d e f =
    let same = event_disconnect_lem lib.marshal lib.uuid r (settled w) in
    let k : IsKeyed (settled w).manager = record {
      outer = v.outer;
      inner = v.inner;
      nonempty = v.nonempty;
    } in
    (
      event_disconnect lib.marshal lib.uuid r (settled w),
      refl,
      ap (λ x. x.closed) same,
      ap (λ x. (x.heap r).is_deleted) same ∙ rw ((==_iff r r).1 refl) refl,
      λ j.
          ap (λ x. lookup j x.manager.client_id_map) same
          ∙ del_client_keeps (w.heap r) (settled w).manager d k e f j,
    )
