-- ===== src/System/Lonely.antt =====
-- What a message to a system (servers/clientmanager.go) comes to, whatever the server did before: the
-- handshake of servers/connect.go makes the system id the client id.
use go_websocket.Prelude.{
  ℕ, zero, suc, ◌+◌, ◌≤◌, ◌≡◌, refl, sym, ap, ◌∙◌, subst, false, inl, inr, Option, none, some, List,
  [], ◌∷◌, ◌++◌, arith, length, replicate, length-replicate, if◌then◌else◌, Bool-cases,
}
use go_websocket.Prelude.Text.{Str, str_eq}
use go_websocket.Prelude.Dict.{lookup, values}
use go_websocket.Setting.{CommonConf, Global}
use go_websocket.Client.{Client, Ref, Heap, new_client}
use go_websocket.Manager.{
  ClientManager, add_account, add_client, add_client2_system_client, del_client, del_client_id_map,
  remove_account, get_system_client_list,
}
use go_websocket.World.{ClientInfo, system_id_error, World, done, to_client_cap}
use go_websocket.Connect.{Handshake, run, admit}
use go_websocket.Events.{
  take_connect, take_dis_connect, start_connect, start_dis_connect, event_connect, event_disconnect,
  send_message2_local_system,
}
use go_websocket.System.{
  Libraries, Action, connects, sends_local_system, Reach, here, next, waits, perform, initial,
  or_waits,
}
use go_websocket.System.Broadcasts.{addressed, send_to_all_lem}
use go_websocket.System.Owners.{
  AllAre-append, AllAre-replicate, Owned, Owned-insert, del_rest-Owned,
}
use go_websocket.System.Table.Keeps
use go_websocket.System.Table.Rule.{Ends-if, Ends-map, perform_rule, change_cases}

abbrev OwnedAt : World → Type 0
OwnedAt w = Owned w.manager.system_clients

add_client-systems :
    (c : Client) (r : Ref) (m : ClientManager)
    → (add_client c r m).system_clients ≡ m.system_clients
unfolding add_client add_account
add_client-systems c r m = ground arith

del_client_id_map-systems :
    (id addr : Str) (m : ClientManager)
    → (del_client_id_map id addr m).system_clients ≡ m.system_clients
unfolding del_client_id_map remove_account
del_client_id_map-systems id addr m = ground arith

entered-Owned :
    (id : Str) (c : Client) (r : Ref) (m : ClientManager)
    → c.client_id ≡ id
    → Owned m.system_clients
    → Owned (add_client2_system_client id c r m).system_clients
unfolding add_client2_system_client
entered-Owned id c r m same v =
    rw (add_client-systems c r m)
      (Owned-insert id _ m.system_clients (AllAre-append id _ _ (v id) (same, tt)) v)

del_client-Owned :
    (c : Client) (m : ClientManager)
    → Owned m.system_clients
    → Owned (del_client (some c) m).system_clients
unfolding del_client
del_client-Owned c m v = elim (Bool-cases (str_eq c.client_id [])) [
  | inl e ↦ rw e v
  | inr e ↦
      rw e (del_rest-Owned c c.group_list _ (rw (del_client_id_map-systems c.client_id c.addr m) v))
]

addressed_again :
    (info : ClientInfo) (id : Str) (n : ℕ)
    → addressed info (replicate n id) ≡ replicate n (record info { client_id = id })
addressed_again info id zero = refl
addressed_again info id (suc n) =
    ap (λ l. record info { client_id = id } ∷ l) (addressed_again info id n)

module _ (lib : Libraries) where
  run-Owned :
      (now : ℕ) (socket : Option ℕ) (h : Handshake) (w : World)
      → OwnedAt w
      → Keeps.Ends OwnedAt (perform lib (connects now socket h) w)
  unfolding perform run admit new_client
  run-Owned now none h w v = v
  run-Owned now (some socket) h w v =
      let id = if str_eq h.system_id [] then h.token else h.system_id in
      let c = new_client now id h.remote_addr id socket in
      let m = add_client2_system_client id c w.next_client w.manager in
      let u = entered-Owned id c w.next_client w.manager refl v in
      Ends-if OwnedAt (str_eq id []) _ _
        (elim (Bool-cases (lib.write_json socket system_id_error)) [
          | inl e ↦ rw e v
          | inr e ↦ rw e v
        ])
        (Ends-if OwnedAt (lib.write_json socket _) _ _
          (Ends-map (Keeps.Has m) OwnedAt _ (λ x k. rw k.1 u)
            (Keeps.send_connect-Has m w.next_client _ (refl, refl)))
          u)

  take_connect-Owned :
      (l : List Ref) (w : World)
      → OwnedAt w
      → Keeps.Ends OwnedAt (or_waits w (take_connect lib.marshal lib.uuid l w))
  unfolding take_connect event_connect
  take_connect-Owned [] w v = v
  take_connect-Owned (r ∷ rest) w v = rw (add_client-systems (w.heap r) r _) v

  take_dis_connect-Owned :
      (l : List Ref) (w : World)
      → OwnedAt w
      → Keeps.Ends OwnedAt (or_waits w (take_dis_connect lib.marshal lib.uuid l w))
  unfolding take_dis_connect event_disconnect
  take_dis_connect-Owned [] w v = v
  take_dis_connect-Owned (r ∷ rest) w v =
      let c = w.heap r in
      let m = record w.manager { dis_connect = rest } in
      subst Owned
        (sym
          (Keeps.tell_groups-Has (del_client (some c) m) lib.marshal lib.uuid c c.group_list _ _
            (refl, refl)).1)
        (del_client-Owned c m v)

  perform-Owned : (a : Action) (w : World) → OwnedAt w → Keeps.Ends OwnedAt (perform lib a w)
  unfolding perform start_connect start_dis_connect
  perform-Owned a w v =
      perform_rule lib OwnedAt a w (λ x h. rw h.1 v)
        (change_cases (λ b. Keeps.Ends OwnedAt (perform lib b w))
          (λ now socket h. run-Owned now socket h w v) (take_connect-Owned w.manager.connect w v)
          (take_dis_connect-Owned w.manager.dis_connect w v) a)

Reach-Owned_from : {s w : World} → OwnedAt s → Reach s w → OwnedAt w
Reach-Owned_from v here = v
Reach-Owned_from v (next lib a r e) =
    subst (Keeps.Ends OwnedAt) e (perform-Owned lib a _ (Reach-Owned_from v r))
Reach-Owned_from v (waits lib a r e) =
    subst (Keeps.Ends OwnedAt) e (perform-Owned lib a _ (Reach-Owned_from v r))

Reach-Owned :
    (common : CommonConf) (global : Global) (heap : Heap) {w : World}
    → Reach (initial common global heap) w
    → OwnedAt w
unfolding values lookup
Reach-Owned common global heap r = Reach-Owned_from (λ s. tt) r

module _ (lib : Libraries) where
  -- In every state that a server reaches from its start by any sequence of actions, a message to a
  -- system goes to no client but the one whose id is the system's, once for each entry of the system's
  -- list, if the channel to the clients has room for them.
  pub system_is_one_client :
      (common : CommonConf) (global : Global) (heap : Heap) (w : World)
      → Reach (initial common global heap) w
      → (system_id : Str) (info : ClientInfo) → str_eq system_id [] ≡ false
      → (n : ℕ) → length (get_system_client_list system_id w.manager) ≡ n
      → length w.to_client_chan + n ≤ to_client_cap
      → (get_system_client_list system_id w.manager ≡ replicate n system_id)
        × (perform lib (sends_local_system system_id info) w
            ≡ done (record w {
              to_client_chan =
                  w.to_client_chan ++ replicate n (record info { client_id = system_id });
            }))
  unfolding perform send_message2_local_system get_system_client_list
  system_is_one_client common global heap w r system_id info named n count room =
      let all = AllAre-replicate system_id _ (Reach-Owned common global heap r system_id) in
      let same : get_system_client_list system_id w.manager ≡ replicate n system_id =
        all ∙ ap (λ k. replicate k system_id) count in
      (
        same,
        rw (named, same)
            (send_to_all_lem info (replicate n system_id) w
                (omega (arith, length-replicate n system_id))
              ∙ ap (λ l. done (record w { to_client_chan = w.to_client_chan ++ l }))
                  (addressed_again info system_id n)),
      )
