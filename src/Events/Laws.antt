-- ===== src/Events/Laws.antt =====
-- What EventDisconnect does besides DelClient, and what joining a group does the second time
-- (servers/clientmanager.go).
use go_websocket.Prelude.{
  ◌≡◌, refl, sym, ◌∙◌, ap, Bool, true, false, Option, some, List, [], ◌∷◌, ◌++◌, arith,
  if◌then◌else◌, Bool-cases, inl, inr, append-nil, append_assoc, ◌==◌, ==_iff,
}
use go_websocket.Prelude.Text.{Str, codes, str_eq_refl}
use go_websocket.Prelude.Int.{ℤ}
use go_websocket.Client.{Client, Ref, store}
use go_websocket.Util.{is_cluster}
use go_websocket.Manager.{del_client}
use go_websocket.World.{Task, group_broadcast, World, spawn, close_socket}
use go_websocket.Server.{send_message2_group}
use go_websocket.Events.{
  offline_message_code, offline_msg, has_name, tell_groups, event_disconnect,
  add_client2_local_group,
}

module _ (marshal : List (Str × Str) → Str) (uuid : Str → Str) where
  -- What goes to the groups of a client that is gone.
  abbrev pub farewell : Client → Str
  farewell c = marshal (
      (codes "clientId", c.client_id)
      ∷ (codes "userId", c.user_id)
      ∷ (codes "addr", c.addr)
      ∷ (codes "extend", c.extend)
      ∷ [])

  abbrev pub farewells : Client → List Str → List Task
  farewells c [] = []
  farewells c (name ∷ names) =
      group_broadcast c.system_id (uuid name) [] name offline_message_code offline_msg
        (some (farewell c))
      ∷ farewells c names

  -- In a cluster each of its groups is told once.
  abbrev pub told : World → Client → List Str → World
  told w c names = record w {
    spawned = w.spawned ++ (if is_cluster w.common then farewells c names else []);
  }

  none_told : (b : Bool) (ts : List Task) → ts ≡ ts ++ (if b then [] else [])
  none_told true ts = sym (append-nil ts)
  none_told false ts = sym (append-nil ts)

  one_told :
      (b : Bool) (t : Task) (c : Client) (names : List Str) (w : World)
      → is_cluster w.common ≡ b
      → told (if b then spawn t w else w) c names
        ≡ record w { spawned = w.spawned ++ (if b then t ∷ farewells c names else []) }
  one_told true t c names w h =
      ap
        (λ b. record w { spawned = (w.spawned ++ t ∷ []) ++ (if b then farewells c names else []) })
        h
      ∙ ap (λ l. record w { spawned = l }) (append_assoc w.spawned (t ∷ []) (farewells c names))
  one_told false t c names w h =
      ap (λ b. record w { spawned = w.spawned ++ (if b then farewells c names else []) }) h

  tell_groups-told :
      (c : Client) (names : List Str) (w : World)
      → tell_groups marshal uuid c names (farewell c) w ≡ told w c names
  unfolding tell_groups send_message2_group
  tell_groups-told c [] w =
      ap (λ l. record w { spawned = l }) (none_told (is_cluster w.common) w.spawned)
  tell_groups-told c (name ∷ names) w =
      tell_groups-told c names _ ∙ one_told (is_cluster w.common) _ c names w refl

  -- EventDisconnect closes the socket, deletes the client from the manager, starts in a cluster one
  -- broadcast for each group of the client, in order, and marks the client as deleted; nothing else
  -- changes.
  pub event_disconnect_lem :
      (r : Ref) (w : World)
      → event_disconnect marshal uuid r w ≡ record (told w (w.heap r) (w.heap r).group_list) {
        closed = w.closed ++ (w.heap r).socket ∷ [];
        manager = del_client (some (w.heap r)) w.manager;
        heap = store r (record (w.heap r) { is_deleted = true }) w.heap;
      }
  unfolding event_disconnect
  event_disconnect_lem r w =
      let c = w.heap r in
      ap {A = World} (λ t. record t { heap = store r (record c { is_deleted = true }) t.heap })
        (tell_groups-told c c.group_list
          (record (close_socket c.socket w) { manager = del_client (some c) w.manager }))

  has_name-append : (name : Str) (names : List Str) → has_name name (names ++ name ∷ []) ≡ true
  unfolding has_name
  has_name-append name [] = rw (str_eq_refl name)
  has_name-append name (x ∷ names) = ground (arith, has_name-append name names)

  group_message-heap :
      (id system user name : Str) (code : ℤ) (msg : Str) (content : Option Str) (w : World)
      → (send_message2_group id system user name code msg content w).heap ≡ w.heap
  unfolding send_message2_group
  group_message-heap id system user name code msg content w = ground arith

  -- After AddClient2LocalGroup the client has the group in its list.
  joined :
      (group_name : Str) (r : Ref) (user_id extend : Str) (w : World)
      → has_name group_name
          ((add_client2_local_group marshal uuid group_name r user_id extend w).heap r).group_list
        ≡ true
  unfolding add_client2_local_group
  joined group_name r user_id extend w =
      let self : (r == r) ≡ true = (==_iff r r).1 refl in
      elim (Bool-cases (has_name group_name (w.heap r).group_list)) [
        | inl b ↦ rw (b, self) b
        | inr b ↦
            rw (b, group_message-heap, self) (has_name-append group_name (w.heap r).group_list)
      ]

  -- Joining a group that the client is in changes its user id and its extension only.
  member_again :
      (group_name : Str) (r : Ref) (user_id extend : Str) (w : World)
      → has_name group_name (w.heap r).group_list ≡ true
      → add_client2_local_group marshal uuid group_name r user_id extend w ≡ record w {
        heap = store r (record (w.heap r) { user_id = user_id; extend = extend }) w.heap;
      }
  unfolding add_client2_local_group
  member_again group_name r user_id extend w h = rw h

  -- A client that joins a group a second time is not entered into it again and not announced again:
  -- besides the client's user id and extension the second AddClient2LocalGroup changes nothing.
  pub joins_once :
      (group_name : Str) (r : Ref) (user_id extend user_id' extend' : Str) (w : World)
      → (let v = add_client2_local_group marshal uuid group_name r user_id extend w in
          add_client2_local_group marshal uuid group_name r user_id' extend' v ≡ record v {
            heap = store r (record (v.heap r) { user_id = user_id'; extend = extend' }) v.heap;
          })
  joins_once group_name r user_id extend user_id' extend' w =
      member_again group_name r user_id' extend' _ (joined group_name r user_id extend w)
