-- ===== src/System/Broadcasts.antt =====
-- A message to all clients of a system on this machine: SendMessage2LocalSystem
-- (servers/clientmanager.go) puts it on the channel for each of them, and WriteMessage
-- (servers/server.go) writes it.
use go_websocket.Prelude.{
  ◌+◌, ◌≤◌, ◌≡◌, refl, sym, ap, ◌∙◌, false, List, [], ◌∷◌, ◌++◌, length, replicate, arith, lt→ltb,
  length-append, append-nil, append_assoc,
}
use go_websocket.Prelude.Text.{Str, str_eq}
use go_websocket.Manager.{get_system_client_list}
use go_websocket.Manager.Maps.{IsKeyed}
use go_websocket.World.{
  ClientInfo, World, done, ◌>>=◌, connect_cap, to_client_cap, send_message2_local_client,
}
use go_websocket.Server.Delivery.{sent}
use go_websocket.Events.{send_to_all, send_message2_local_system}
use go_websocket.System.{Libraries, writes, sends_local_system, perform}
use go_websocket.System.Journey.{perform_all, quiet}
use go_websocket.System.Writes.{all_written, all_unwritten, connections_of, writes_in_order}

-- The message, once for each of the clients.
abbrev pub addressed : ClientInfo → List Str → List ClientInfo
addressed info [] = []
addressed info (id ∷ ids) = record info { client_id = id } ∷ addressed info ids

pub length-addressed :
    (info : ClientInfo) (ids : List Str) → length (addressed info ids) ≡ length ids
length-addressed info [] = refl
length-addressed info (id ∷ ids) = omega (arith, length-addressed info ids)

-- The loop of SendMessage2LocalSystem on a channel with room for all its messages.
pub send_to_all_lem :
    (info : ClientInfo) (ids : List Str) (w : World)
    → length w.to_client_chan + length ids ≤ to_client_cap
    → send_to_all info ids w
      ≡ done (record w { to_client_chan = w.to_client_chan ++ addressed info ids })
unfolding send_to_all send_message2_local_client
send_to_all_lem info [] w h =
    ap (λ l. done (record w { to_client_chan = l })) (sym (append-nil w.to_client_chan))
send_to_all_lem info (id ∷ ids) w h =
    let one = record info { client_id = id } in
    rw (lt→ltb (length w.to_client_chan) to_client_cap (omega arith)) (
      send_to_all_lem info ids (record w { to_client_chan = w.to_client_chan ++ one ∷ [] })
        (omega (arith, length-append w.to_client_chan (one ∷ [])))
      ∙ ap (λ l. done (record w { to_client_chan = l }))
          (append_assoc w.to_client_chan (one ∷ []) (addressed info ids)))

-- A message to a system on a server whose channel to the clients is empty is written, client by
-- client in the order of the system's list, once to each of the client's connections that can be
-- written to, when WriteMessage has run as often as the list is long; the other connections are
-- queued to be disconnected. Nothing else changes. Both channels must have room, and no map has a key
-- twice.
pub system_delivered :
    (lib : Libraries) (system_id : Str) (info : ClientInfo) (w : World)
    → str_eq system_id [] ≡ false
    → IsKeyed w.manager
    → (ids : List Str) → get_system_client_list system_id w.manager ≡ ids
    → length ids ≤ to_client_cap
    → length w.manager.dis_connect + connections_of w.manager.client_id_map (addressed info ids)
      ≤ connect_cap
    → perform_all lib (sends_local_system system_id info ∷ replicate (length ids) writes) (quiet w)
      ≡ done (
          sent
            (all_written lib w.heap w.manager.client_id_map (addressed info ids))
            (all_unwritten lib w.heap w.manager.client_id_map (addressed info ids))
            (quiet w))
unfolding perform send_message2_local_system
system_delivered lib system_id info w named v ids e room out =
    rw (named, e)
      (ap (λ p. p >>= λ x. perform_all lib (replicate (length ids) writes) x)
          (send_to_all_lem info ids (quiet w) (omega arith))
        ∙ (ap
              (λ n.
                perform_all lib (replicate n writes)
                  (record w { to_client_chan = addressed info ids }))
              (sym (length-addressed info ids))
            ∙ writes_in_order lib (addressed info ids) w v out))
