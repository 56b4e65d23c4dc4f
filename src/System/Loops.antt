-- ===== src/System/Loops.antt =====
-- The loop Start of servers/clientmanager.go and the groups on this machine keep the state of the
-- server safe.
use go_websocket.Prelude.{
  ◌≡◌, ◌∙◌, ap, sym, ℕ, zero, suc, ◌+◌, ◌≤◌, ◌<◌, refl, Bool, true, false, Option, some, List, [],
  ◌∷◌, ◌++◌, arith, length, if◌then◌else◌, get_or, drop, take,
}
use go_websocket.Prelude.Text.{Str}
use go_websocket.Prelude.Dict.{Dict, values, insert}
use go_websocket.Prelude.Int.{ℤ}
use go_websocket.Prelude.Result.{ok, err, panic, Result}
use go_websocket.Client.{Client, Ref}
use go_websocket.Manager.Removal.{Outcome, returned, panicked, Slice, remove_slice}
use go_websocket.Manager.{add_client, del_client, add_client2_group, get_by_client_id}
use go_websocket.Manager.Sound.{
  same_IsSound, add_client-IsSound, del_client-IsSound, add_client-SameChannels,
  del_client-SameChannels,
}
use go_websocket.System.Bound.{AllBelow, add_client-IsBound, del_client-IsBound, store-IsBound}
use go_websocket.World.{
  ClientInfo, group_broadcast, World, crashed, ◌>>=◌, connect_cap, send_message2_local_client,
  close_socket, spawn,
}
use go_websocket.Server.{send_message2_group}
use go_websocket.Events.{
  event_connect, event_disconnect, tell_groups, take_connect, take_dis_connect,
  add_client2_local_group, has_name, local_group_rounds, send_to_all,
}
use go_websocket.System.{or_waits}
use go_websocket.System.Safe.{
  IsSafe, Leaves, Leaves-bind, with_dis_connect, with_connect, local_client-Leaves, same_IsSafe,
  with_manager, with_heap,
}

pub IsSafe-if : (b : Bool) (x y : World) → IsSafe x → IsSafe y → IsSafe (if b then x else y)
IsSafe-if true x y h k = h
IsSafe-if false x y h k = k

-- SendMessage2Group starts a task at most.
pub send_message2_group-IsSafe :
    (mid system user group : Str) (code : ℤ) (msg : Str) (content : Option Str) (w : World)
    → IsSafe w
    → IsSafe (send_message2_group mid system user group code msg content w)
unfolding send_message2_group
send_message2_group-IsSafe mid system user group code msg content w v =
    let told = spawn (group_broadcast system mid user group code msg content) w in
    IsSafe-if w.common.cluster told w (same_IsSafe w told refl refl v.bound v) v

event_connect-IsSafe :
    (r : Ref) (w : World) → r < w.next_client → IsSafe w → IsSafe (event_connect r w)
unfolding event_connect
event_connect-IsSafe r w k v =
    let (a, b) = add_client-SameChannels (w.heap r) r w.manager in
    with_manager w (add_client (w.heap r) r w.manager) a b
      (add_client-IsSound (w.heap r) r w.manager v.manager)
      (add_client-IsBound w.heap w.next_client w.manager.connect (w.heap r) r w.manager k refl refl
        v.bound)
      v

module _ (marshal : List (Str × Str) → Str) (uuid : Str → Str) where
  tell_groups-IsSafe :
      (c : Client) (names : List Str) (content : Str) (w : World)
      → IsSafe w
      → IsSafe (tell_groups marshal uuid c names content w)
  unfolding tell_groups
  tell_groups-IsSafe c [] content w v = v
  tell_groups-IsSafe c (name ∷ names) content w v =
      tell_groups-IsSafe c names content _
        (send_message2_group-IsSafe (uuid name) c.system_id [] name _ _ (some content) w v)

  tell_groups-heap :
      (c : Client) (names : List Str) (content : Str) (w : World)
      → (tell_groups marshal uuid c names content w).heap ≡ w.heap
  unfolding tell_groups send_message2_group
  tell_groups-heap c [] content w = refl
  tell_groups-heap c (name ∷ names) content w = tell_groups-heap c names content _ ∙ ground arith

  event_disconnect-IsSafe :
      (r : Ref) (w : World) → IsSafe w → IsSafe (event_disconnect marshal uuid r w)
  unfolding event_disconnect
  event_disconnect-IsSafe r w v =
      let c = w.heap r in
      let (a, b) = del_client-SameChannels (some c) w.manager in
      let closed = same_IsSafe w (close_socket c.socket w) refl refl v.bound v in
      let deleted =
        with_manager (close_socket c.socket w) (del_client (some c) w.manager) a b
          (del_client-IsSound (some c) w.manager v.manager)
          (del_client-IsBound w.heap w.next_client w.manager.connect c w.manager v.bound) closed in
      let told = tell_groups-IsSafe c c.group_list _ _ deleted in
      same_IsSafe _ _ refl refl
        (store-IsBound _ _ _ r (record c { is_deleted = true }) _
          (ap (λ h. (h r).client_id) (sym (tell_groups-heap c c.group_list _ _)))
          (ap (λ h. (h r).addr) (sym (tell_groups-heap c c.group_list _ _))) told.bound)
        told

  pub take_connect-Leaves :
      (l : List Ref) (w : World)
      → length l ≤ connect_cap
      → AllBelow w.next_client l
      → IsSafe w
      → Leaves (or_waits w (take_connect marshal uuid l w))
  unfolding take_connect
  take_connect-Leaves [] w h k v = v
  take_connect-Leaves (r ∷ rest) w h (k, ks) v =
      event_connect-IsSafe r (record w { manager = record w.manager { connect = rest } }) k
        (with_connect w rest v (omega arith) ks)

  pub take_dis_connect-Leaves :
      (l : List Ref) (w : World)
      → length l ≤ connect_cap
      → IsSafe w
      → Leaves (or_waits w (take_dis_connect marshal uuid l w))
  unfolding take_dis_connect
  take_dis_connect-Leaves [] w h v = v
  take_dis_connect-Leaves (r ∷ rest) w h v =
      event_disconnect-IsSafe r (record w { manager = record w.manager { dis_connect = rest } })
        (with_dis_connect w rest v (omega arith))

  pub add_client2_local_group-IsSafe :
      (name : Str) (r : Ref) (user extend : Str) (w : World)
      → IsSafe w
      → IsSafe (add_client2_local_group marshal uuid name r user extend w)
  unfolding add_client2_local_group add_client2_group
  add_client2_local_group-IsSafe name r user extend w v =
      IsSafe-if (has_name name (w.heap r).group_list) _ _
        (same_IsSafe w _ refl refl (store-IsBound _ _ _ r _ _ refl refl v.bound) v)
        (send_message2_group-IsSafe (uuid name) (w.heap r).system_id [] name _ _ _ _ (
          with_heap w _ _ w.next_client refl refl (same_IsSound w.manager _ (refl, refl) v.manager)
            (store-IsBound _ _ _ r _ _ refl refl v.bound) v))

pub local_group_rounds-Leaves :
    (key : Str) (info : ClientInfo) (rounds i : ℕ) (view : List Str) (w : World)
    → IsSafe w
    → Leaves (local_group_rounds key info rounds i view w)
unfolding local_group_rounds
local_group_rounds-Leaves key info zero i view w v = v
local_group_rounds-Leaves key info (suc rounds) i view w v =
    found (get_by_client_id id w.manager) (remove_slice (length w.manager.groups) id ids)
      (λ u s. local_group_rounds-Leaves key info rounds (i + 1) view u s)
      (λ a u s. local_group_rounds-Leaves key info rounds (i + 1) a u s)
  where
    id : Str
    id = get_or view i []

    ids : List Str
    ids = values key w.manager.groups

    found :
        (r : Result (Dict Ref)) (o : Outcome Slice)
        → ((u : World) → IsSafe u → Leaves (local_group_rounds key info rounds (i + 1) view u))
        → ((a : List Str) (u : World)
            → IsSafe u
            → Leaves (local_group_rounds key info rounds (i + 1) a u))
        → Leaves (elim r [
          | ok clients ↦ send_message2_local_client (record info { client_id = id }) w >>= λ u.
              local_group_rounds key info rounds (i + 1) view u
          | err e ↦ elim o [
            | returned t ↦
                local_group_rounds key info rounds
                  (i + 1)
                  (t.array ++ drop (length ids) view)
                  (record w {
                    manager = record w.manager {
                      groups = insert key (take t.len t.array) w.manager.groups;
                    };
                  })
            | panicked t ↦ crashed
          ]
          | panic ↦ crashed
        ])
    found (ok d) o k l =
        Leaves-bind _ _ (local_client-Leaves (record info { client_id = id }) w v) k
    found (err e) (returned t) k l = l _ _ (
        with_heap w (record w.manager { groups = insert key (take t.len t.array) w.manager.groups })
          w.heap w.next_client refl refl (same_IsSound w.manager _ (refl, refl) v.manager) v.bound
          v)
    found (err e) (panicked t) k l = tt
    found panic o k l = tt

pub send_to_all-Leaves :
    (info : ClientInfo) (ids : List Str) (w : World) → IsSafe w → Leaves (send_to_all info ids w)
unfolding send_to_all
send_to_all-Leaves info [] w v = v
send_to_all-Leaves info (id ∷ ids) w v =
    Leaves-bind _ _ (local_client-Leaves (record info { client_id = id }) w v)
      (λ u s. send_to_all-Leaves info ids u s)
