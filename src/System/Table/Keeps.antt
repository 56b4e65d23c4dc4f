-- ===== src/System/Table/Keeps.antt =====
-- What servers/server.go sends, writes and closes, and the groups of servers/clientmanager.go, leave
-- ClientIdMap and SystemClients as they are.
use go_websocket.Prelude.{
  ℕ, zero, suc, ◌+◌, ◌≡◌, Bool, Option, some, List, [], ◌∷◌, ◌++◌, arith, length, get_or, drop,
  take,
}
use go_websocket.Prelude.Text.{Str}
use go_websocket.Prelude.Dict.{Dict, values, insert}
use go_websocket.Prelude.Int.{ℤ}
use go_websocket.Prelude.Result.{ok, err, panic, Result}
use go_websocket.Crypto.{Cipher}
use go_websocket.Client.{Client, Ref}
use go_websocket.Manager.{ClientManager, get_by_client_id, add_client2_group}
use go_websocket.Manager.Removal.{Outcome, returned, panicked, Slice, remove_slice}
use go_websocket.World.{
  ClientInfo, Frame, Task, local_client, group_broadcast, World, Progress, done, blocked, crashed,
  ◌>>=◌, send_connect, send_dis_connect, send_message2_local_client,
}
use go_websocket.Server.{
  send_message2_client, close_local_client, close_client, send_message2_group, send_message2_system,
  run_task, render_to, render_all, write_message, ping_entries, ping_clients,
}
use go_websocket.Events.{tell_groups, add_client2_local_group, local_group_rounds, send_to_all}

-- A property of the states in which an action can leave the server.
abbrev pub Ends : (World → Type 0) → Progress World → Type 0
Ends P (done w) = P w
Ends P (blocked w) = P w
Ends P crashed = Unit {0}

-- The two maps are those of a manager.
abbrev pub Has : ClientManager → World → Type 0
Has m w =
    (w.manager.client_id_map ≡ m.client_id_map) × (w.manager.system_clients ≡ m.system_clients)

module _ (m : ClientManager) where
  pub Has-bind :
      (p : Progress World) (f : World → Progress World)
      → Ends (Has m) p
      → ((w : World) → Has m w → Ends (Has m) (f w))
      → Ends (Has m) (p >>= f)
  Has-bind (done w) f h k = k w h
  Has-bind (blocked w) f h k = h
  Has-bind crashed f h k = tt

  pub send_connect-Has : (r : Ref) (w : World) → Has m w → Ends (Has m) (send_connect r w)
  unfolding send_connect
  send_connect-Has r w h = ground arith

  pub send_dis_connect-Has : (r : Ref) (w : World) → Has m w → Ends (Has m) (send_dis_connect r w)
  unfolding send_dis_connect
  send_dis_connect-Has r w h = ground arith

  pub local_client-Has :
      (info : ClientInfo) (w : World) → Has m w → Ends (Has m) (send_message2_local_client info w)
  unfolding send_message2_local_client
  local_client-Has info w h = ground arith

  pub close_local_client-Has :
      (id system addr : Str) (w : World)
      → Has m w
      → Ends (Has m) (close_local_client id system addr w)
  unfolding close_local_client send_dis_connect
  close_local_client-Has id system addr w h = ground arith

  pub send_message2_client-Has :
      (c : Cipher) (info : ClientInfo) (w : World)
      → Has m w
      → Ends (Has m) (send_message2_client c info w)
  unfolding send_message2_client send_message2_local_client
  send_message2_client-Has c info w h = ground arith

  pub close_client-Has :
      (c : Cipher) (id system addr : Str) (w : World)
      → Has m w
      → Ends (Has m) (close_client c id system addr w)
  unfolding close_client close_local_client send_dis_connect
  close_client-Has c id system addr w h = ground arith

  pub send_message2_system-Has :
      (mid system user : Str) (code : ℤ) (msg content : Str) (w : World)
      → Has m w
      → Ends (Has m) (send_message2_system mid system user code msg content w)
  unfolding send_message2_system
  send_message2_system-Has mid system user code msg content w h = ground arith

  pub send_message2_group-Has :
      (mid system user group : Str) (code : ℤ) (msg : Str) (content : Option Str) (w : World)
      → Has m w
      → Has m (send_message2_group mid system user group code msg content w)
  unfolding send_message2_group
  send_message2_group-Has mid system user group code msg content w h = ground arith

  pub run_task-Has : (t : Task) (w : World) → Has m w → Ends (Has m) (run_task t w)
  unfolding run_task send_message2_local_client
  run_task-Has (local_client info) w h = ground arith
  run_task-Has (group_broadcast system mid user group code msg content) w h = ground arith

  module _ (write_json : ℕ → Frame → Bool) (info : ClientInfo) where
    render_to-Has :
        (conn : Ref) (w : World) → Has m w → Ends (Has m) (render_to write_json info conn w)
    unfolding render_to send_dis_connect
    render_to-Has conn w h = ground arith

    pub render_all-Has :
        (d : Dict Ref) (w : World) → Has m w → Ends (Has m) (render_all write_json info d w)
    unfolding render_all
    render_all-Has [] w h = h
    render_all-Has ((addr, conn) ∷ d) w h =
        Has-bind (render_to write_json info conn w) (λ u. render_all write_json info d u)
          (render_to-Has conn w h) (λ u k. render_all-Has d u k)

    pub write_message-Has : (w : World) → Has m w → Ends (Has m) (write_message write_json info w)
    unfolding write_message
    write_message-Has w h = entries (get_by_client_id info.client_id w.manager)
      where
        entries :
            (r : Result (Dict Ref))
            → Ends (Has m) (elim r [
              | ok d ↦ render_all write_json info d w
              | err e ↦ done w
              | panic ↦ crashed
            ])
        entries (ok d) = render_all-Has d w h
        entries (err e) = h
        entries panic = tt

  module _ (write_control : ℕ → Bool) where
    pub ping_entries-Has :
        (d : Dict Ref) (w : World) → Has m w → Ends (Has m) (ping_entries write_control d w)
    unfolding ping_entries send_dis_connect
    ping_entries-Has [] w h = h
    ping_entries-Has ((addr, conn) ∷ d) w h =
        Has-bind _ (λ u. ping_entries write_control d u) (ground arith)
          (λ u k. ping_entries-Has d u k)

    pub ping_clients-Has :
        (d : Dict (Dict Ref)) (w : World) → Has m w → Ends (Has m) (ping_clients write_control d w)
    unfolding ping_clients
    ping_clients-Has [] w h = h
    ping_clients-Has ((id, entries) ∷ d) w h =
        Has-bind _ (λ u. ping_clients write_control d u) (ping_entries-Has entries w h)
          (λ u k. ping_clients-Has d u k)

  module _ (marshal : List (Str × Str) → Str) (uuid : Str → Str) where
    pub tell_groups-Has :
        (c : Client) (names : List Str) (content : Str) (w : World)
        → Has m w
        → Has m (tell_groups marshal uuid c names content w)
    unfolding tell_groups
    tell_groups-Has c [] content w h = h
    tell_groups-Has c (name ∷ names) content w h =
        tell_groups-Has c names content _
          (send_message2_group-Has (uuid name) c.system_id [] name _ _ (some content) w h)

    pub add_client2_local_group-Has :
        (name : Str) (r : Ref) (user extend : Str) (w : World)
        → Has m w
        → Has m (add_client2_local_group marshal uuid name r user extend w)
    unfolding add_client2_local_group send_message2_group add_client2_group
    add_client2_local_group-Has name r user extend w h = ground arith

  pub local_group_rounds-Has :
      (key : Str) (info : ClientInfo) (rounds i : ℕ) (view : List Str) (w : World)
      → Has m w
      → Ends (Has m) (local_group_rounds key info rounds i view w)
  unfolding local_group_rounds
  local_group_rounds-Has key info zero i view w h = h
  local_group_rounds-Has key info (suc rounds) i view w h =
      found (get_by_client_id id w.manager) (remove_slice (length w.manager.groups) id ids)
        (λ u k. local_group_rounds-Has key info rounds (i + 1) view u k)
        (λ a u k. local_group_rounds-Has key info rounds (i + 1) a u k)
    where
      id : Str
      id = get_or view i []

      ids : List Str
      ids = values key w.manager.groups

      found :
          (r : Result (Dict Ref)) (o : Outcome Slice)
          → ((u : World)
              → Has m u
              → Ends (Has m) (local_group_rounds key info rounds (i + 1) view u))
          → ((a : List Str) (u : World)
              → Has m u
              → Ends (Has m) (local_group_rounds key info rounds (i + 1) a u))
          → Ends (Has m) (elim r [
            | ok clients ↦ send_message2_local_client (record info { client_id = id }) w >>= λ u.
                local_group_rounds key info rounds (i + 1) view u
            | err e ↦ elim o [
              | returned t ↦
                  local_group_rounds key info rounds
                    (i + 1)
                    (t.array ++ drop (length ids) view)
                    (record w {
                      manager = record w.manager {
                        groups = insert key (take t.len t.array) w.manager.groups;
                      };
                    })
              | panicked t ↦ crashed
            ]
            | panic ↦ crashed
          ])
      found (ok d) o k l = Has-bind _ _ (local_client-Has (record info { client_id = id }) w h) k
      found (err e) (returned t) k l = l _ _ h
      found (err e) (panicked t) k l = tt
      found panic o k l = tt

  pub send_to_all-Has :
      (info : ClientInfo) (ids : List Str) (w : World)
      → Has m w
      → Ends (Has m) (send_to_all info ids w)
  unfolding send_to_all
  send_to_all-Has info [] w h = h
  send_to_all-Has info (id ∷ ids) w h =
      Has-bind _ _ (local_client-Has (record info { client_id = id }) w h)
        (λ u k. send_to_all-Has info ids u k)
