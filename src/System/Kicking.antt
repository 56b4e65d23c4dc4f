-- ===== src/System/Kicking.antt =====
-- A request to close a connection (CloseClient of servers/server.go), up to where the loop Start
-- (servers/clientmanager.go) closes the socket.
use go_websocket.Prelude.{◌≡◌, refl, ap, ◌∙◌, some, [], ◌∷◌, ◌++◌, false, true, ==_iff}
use go_websocket.Prelude.Text.{Str, str_eq_iff}
use go_websocket.Prelude.Dict.{Dict, lookup}
use go_websocket.Setting.{CommonConf, Global}
use go_websocket.Crypto.{Cipher}
use go_websocket.Util.{is_cluster}
use go_websocket.Client.{Ref, Heap}
use go_websocket.Manager.Maps.{IsKeyed}
use go_websocket.Manager.Lookups.{get_by_client_id-some}
use go_websocket.World.{World, done, ◌>>=◌, send_dis_connect}
use go_websocket.Server.{close_client, close_local_client}
use go_websocket.Events.{event_disconnect, start_dis_connect, take_dis_connect}
use go_websocket.Events.Laws.{event_disconnect_lem}
use go_websocket.System.{Libraries, Reach, initial, closes, takes_dis_connect, perform}
use go_websocket.System.Invariant.{Reach-IsSafe}
use go_websocket.System.Journey.{perform_all}
use go_websocket.System.Closing.{settled}

close_single :
    (c : Cipher) (id system_id addr : Str) (w : World)
    → is_cluster w.common ≡ false
    → close_client c id system_id addr w ≡ close_local_client id system_id addr w
unfolding close_client
close_single c id system_id addr w h = simp h

close_local :
    (id system_id addr : Str) (w : World)
    → IsKeyed w.manager
    → (d : Dict Ref) → lookup id w.manager.client_id_map ≡ some d
    → (r : Ref) → lookup addr d ≡ some r
    → (w.heap r).system_id ≡ system_id
    → close_local_client id system_id addr w ≡ send_dis_connect r w
unfolding close_local_client
close_local id system_id addr w v d e r f g =
    rw (get_by_client_id-some id w.manager d v e, close_local_client)
      (rw (f, close_local_client) (rw ((str_eq_iff (w.heap r).system_id system_id).1 g) refl))

-- On a single machine, in every state that a server reaches, with an empty channel DisConnect: a
-- request to close the connection that stands under an id and an address, with the system id of its
-- client, closes its socket when Start has taken the client, and no other; the client has that id and
-- that address, and is marked as deleted.
pub closes_named_client :
    (lib : Libraries) (common : CommonConf) (global : Global) (heap : Heap) (w : World)
    → Reach (initial common global heap) w
    → is_cluster w.common ≡ false
    → (id addr : Str) (d : Dict Ref) (r : Ref) → lookup id w.manager.client_id_map ≡ some d
    → lookup addr d ≡ some r
    → (v : World) × (perform_all lib
          (closes id (w.heap r).system_id addr ∷ takes_dis_connect ∷ [])
          (settled w)
        ≡ done v)
      × (v.closed ≡ w.closed ++ (w.heap r).socket ∷ [])
      × ((w.heap r).client_id ≡ id)
      × ((w.heap r).addr ≡ addr)
      × ((v.heap r).is_deleted ≡ true)
unfolding perform start_dis_connect take_dis_connect send_dis_connect
closes_named_client lib common global heap w reach single id addr d r e f =
    let safe = Reach-IsSafe common global heap reach in
    let keyed = safe.manager.keyed in
    let k : IsKeyed (settled w).manager = record {
      outer = keyed.outer;
      inner = keyed.inner;
      nonempty = keyed.nonempty;
    } in
    let (below, same_id, same_addr) = safe.bound.named id d addr r e f in
    let same = event_disconnect_lem lib.marshal lib.uuid r (settled w) in
    (
      event_disconnect lib.marshal lib.uuid r (settled w),
      ap (λ p. p >>= λ v. perform_all lib (takes_dis_connect ∷ []) v)
          (close_single lib.cipher id (w.heap r).system_id addr (settled w) single
            ∙ close_local id (w.heap r).system_id addr (settled w) k d e r f refl),
      ap (λ x. x.closed) same,
      same_id,
      same_addr,
      ap (λ x. (x.heap r).is_deleted) same ∙ rw ((==_iff r r).1 refl) refl,
    )
