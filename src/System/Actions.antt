-- ===== src/System/Actions.antt =====
-- The handshake, the loop Read and the calls of the HTTP interface keep the state of the server safe.
use go_websocket.Prelude.{
  ◌≡◌, ◌==◌, ==_iff, true, ℕ, ◌+◌, ◌≤◌, refl, Bool, inl, inr, Option, none, some, List, [], ◌∷◌,
  arith, length, if◌then◌else◌, Bool-cases,
}
use go_websocket.Prelude.Text.{Str}
use go_websocket.Prelude.Int.{ℤ}
use go_websocket.Prelude.Result.{ok, err, panic, Result}
use go_websocket.Crypto.{Cipher}
use go_websocket.Util.{get_addr_info_and_is_local, AddrInfo}
use go_websocket.Rpc.{Call, close_rpc_client, send_group_broadcast, send_system_broadcast}
use go_websocket.Client.{Client, Ref, new_client, store}
use go_websocket.Manager.Sound.{
  add_client2_system_client-IsSound, add_client2_system_client-SameChannels,
}
use go_websocket.System.Bound.{IsBound, add_client-IsBound, fresh-IsBound}
use go_websocket.Manager.{add_client, add_client2_system_client}
use go_websocket.World.{
  ClientInfo, Frame, Task, local_client, group_broadcast, system_id_error, World, Progress, done,
  blocked, crashed, to_client_cap, send_message2_local_client, close_socket, write_frame, spawn,
}
use go_websocket.Server.{
  send_message2_client, close_local_client, close_client, send_message2_system, run_task,
  make_calls,
}
use go_websocket.Connect.{
  try_write, is_keep_live, admit, run, read_round, Received, message, closed_as_expected, failed,
  ping_failed, Handshake,
}
use go_websocket.System.{take_message, read_end, or_stays, run_picked}
use go_websocket.System.Safe.{
  IsSafe, Leaves, Leaves-if, send_dis_connect-Leaves, send_connect-Leaves, local_client-Leaves,
  same_IsSafe, with_heap,
}
use go_websocket.System.Sends.{close_local_client-Leaves, write_message-Leaves}
use go_websocket.System.Loops.{IsSafe-if}

-- What a list of calls, an error or a panic makes of the state.
calls-Leaves :
    (w : World) (r : Result (List Call))
    → IsSafe w
    → Leaves (elim r [ ok calls ↦ done (make_calls calls w) | err e ↦ done w | panic ↦ crashed ])
calls-Leaves w (ok calls) v = same_IsSafe w (make_calls calls w) refl refl v.bound v
calls-Leaves w (err e) v = v
calls-Leaves w panic v = tt

pub send_message2_client-Leaves :
    (c : Cipher) (info : ClientInfo) (w : World) → IsSafe w → Leaves (send_message2_client c info w)
unfolding send_message2_client
send_message2_client-Leaves c info w v =
    Leaves-if w.common.cluster _ (done (spawn (local_client info) w))
      (where_to (get_addr_info_and_is_local c w.common w.global info.client_id))
      (same_IsSafe w (spawn (local_client info) w) refl refl v.bound v)
  where
    where_to :
        (r : Result AddrInfo)
        → Leaves (elim r [
          | ok a ↦ if a.is_local then send_message2_local_client info w else done w
          | err e ↦ done w
          | panic ↦ crashed
        ])
    where_to (ok a) =
        Leaves-if a.is_local (send_message2_local_client info w) (done w)
          (local_client-Leaves info w v) v
    where_to (err e) = v
    where_to panic = tt

pub close_client-Leaves :
    (c : Cipher) (id system addr : Str) (w : World)
    → IsSafe w
    → Leaves (close_client c id system addr w)
unfolding close_client
close_client-Leaves c id system addr w v =
    Leaves-if w.common.cluster _ (close_local_client id system addr w)
      (where_to (get_addr_info_and_is_local c w.common w.global id))
      (close_local_client-Leaves id system addr w v)
  where
    where_to :
        (r : Result AddrInfo)
        → Leaves (elim r [
          | ok a ↦
              if a.is_local
              then close_local_client id system addr w
              else done (make_calls (close_rpc_client a.addr id system) w)
          | err e ↦ done w
          | panic ↦ crashed
        ])
    where_to (ok a) =
        Leaves-if a.is_local (close_local_client id system addr w)
          (done (make_calls (close_rpc_client a.addr id system) w))
          (close_local_client-Leaves id system addr w v)
          (same_IsSafe w (make_calls (close_rpc_client a.addr id system) w) refl refl v.bound v)
    where_to (err e) = v
    where_to panic = tt

pub send_message2_system-Leaves :
    (mid system user : Str) (code : ℤ) (msg content : Str) (w : World)
    → IsSafe w
    → Leaves (send_message2_system mid system user code msg content w)
unfolding send_message2_system
send_message2_system-Leaves mid system user code msg content w v =
    Leaves-if w.common.cluster _ (done w)
      (calls-Leaves w (send_system_broadcast w.global system mid user code msg (some content)) v) v

run_task-Leaves : (t : Task) (w : World) → IsSafe w → Leaves (run_task t w)
unfolding run_task
run_task-Leaves (local_client info) w v = local_client-Leaves info w v
run_task-Leaves (group_broadcast system mid user group code msg content) w v =
    calls-Leaves w (send_group_broadcast w.global system mid user group code msg content) v

placed :
    (w : World) (c : Client)
    → IsBound w.heap w.next_client w.manager.client_id_map w.manager.connect
    → IsBound
        (store w.next_client c w.heap)
        (w.next_client + 1)
        (add_client c w.next_client w.manager).client_id_map
        w.manager.connect
placed w c v =
    let self : (w.next_client == w.next_client) ≡ true =
      (==_iff w.next_client w.next_client).1 refl in
    add_client-IsBound (store w.next_client c w.heap) (w.next_client + 1) w.manager.connect c
      w.next_client w.manager (omega arith) (rw self refl) (rw self refl)
      (fresh-IsBound w.heap w.next_client w.manager.connect c w.manager.client_id_map v)

admit-Leaves :
    (write_json : ℕ → Frame → Bool) (now : ℕ) (id addr : Str) (socket : ℕ) (w : World)
    → IsSafe w
    → Leaves (admit write_json now id addr socket w)
unfolding admit add_client2_system_client
admit-Leaves write_json now id addr socket w v =
    let c = new_client now id addr id socket in
    let (a, b) = add_client2_system_client-SameChannels id c w.next_client w.manager in
    let s =
      with_heap w _ (store w.next_client c w.heap) (w.next_client + 1) a b
        (add_client2_system_client-IsSound id c w.next_client w.manager v.manager)
        (placed w c v.bound) v in
    Leaves-if (write_json socket _) _ _
      (send_connect-Leaves w.next_client _ (omega arith) (same_IsSafe _ _ refl refl s.bound s))
      (same_IsSafe _ _ refl refl s.bound s)

try_write-IsSafe :
    (write_json : ℕ → Frame → Bool) (socket : ℕ) (frame : Frame) (w : World)
    → IsSafe w
    → IsSafe (try_write write_json socket frame w)
try_write-IsSafe write_json socket frame w v =
    IsSafe-if (write_json socket frame) (write_frame socket frame w) w
      (same_IsSafe w (write_frame socket frame w) refl refl v.bound v) v

pub run-Leaves :
    (write_json : ℕ → Frame → Bool) (now : ℕ) (socket : Option ℕ) (h : Handshake) (w : World)
    → IsSafe w
    → Leaves (run write_json now socket h w)
unfolding run
run-Leaves write_json now none h w v = v
run-Leaves write_json now (some socket) h w v =
    let told = try_write write_json socket system_id_error w in
    let wrote = try_write-IsSafe write_json socket system_id_error w v in
    Leaves-if _ (done (close_socket socket told)) (admit write_json now _ h.remote_addr socket w)
      (same_IsSafe told (close_socket socket told) refl refl wrote.bound wrote)
      (admit-Leaves write_json now _ h.remote_addr socket w v)

pub read_round-Leaves :
    (write_json : ℕ → Frame → Bool) (r : Ref) (received : Received) (w : World)
    → IsSafe w
    → Leaves (read_end (read_round write_json r received w))
unfolding read_round
read_round-Leaves write_json r (message kind) w v = elim (Bool-cases (is_keep_live kind)) [
  | inl e ↦ rw e (try_write-IsSafe write_json (w.heap r).socket _ w v)
  | inr e ↦ rw e v
]
read_round-Leaves write_json r closed_as_expected w v = send_dis_connect-Leaves r w v
read_round-Leaves write_json r failed w v = v
read_round-Leaves write_json r ping_failed w v = v

pub take_message-Leaves :
    (write_json : ℕ → Frame → Bool) (l : List ClientInfo) (w : World)
    → length l ≤ to_client_cap
    → IsSafe w
    → Leaves (take_message write_json l w)
unfolding take_message
take_message-Leaves write_json [] w h v = v
take_message-Leaves write_json (info ∷ rest) w h v =
    write_message-Leaves write_json info (record w { to_client_chan = rest })
      (record {
        manager = v.manager;
        connect_room = v.connect_room;
        dis_connect_room = v.dis_connect_room;
        to_client_room = omega arith;
        bound = v.bound;
      })

pick_stays : (w : World) (p : Progress World) → IsSafe w → Leaves p → Leaves (or_stays w p)
pick_stays w (done v) s h = h
pick_stays w (blocked v) s h = s
pick_stays w crashed s h = tt

pub run_picked-Leaves :
    (w : World) (o : Option (Task × List Task)) → IsSafe w → Leaves (run_picked w o)
run_picked-Leaves w none v = v
run_picked-Leaves w (some (t, rest)) v = pick_stays w _ v (
    run_task-Leaves t (record w { spawned = rest })
      (same_IsSafe w (record w { spawned = rest }) refl refl v.bound v))
