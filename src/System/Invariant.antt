-- ===== src/System/Invariant.antt =====
-- Every action of the running server keeps the invariant.
use go_websocket.Prelude.{subst, arith, Bool-cases, ltb, ltb→lt, inl, inr}
use go_websocket.Setting.{CommonConf, Global}
use go_websocket.Client.{Heap}
use go_websocket.Manager.Sound.{new_client_manager-IsSound}
use go_websocket.Prelude.Dict.{lookup}
use go_websocket.World.{World, done}
use go_websocket.Events.{
  start_connect, start_dis_connect, send_message2_local_group, send_message2_local_system,
}
use go_websocket.System.{
  Libraries, Action, connects, reads, takes_connect, takes_dis_connect, sends, closes, sends_group,
  sends_system, joins, sends_local_group, sends_local_system, runs, writes, pings, resumes, Rest,
  links, queues, writes_on, pings_on, sends_on, rounds_on, resume, Reach, here, next, waits,
  perform, initial, pick,
}
use go_websocket.System.Safe.{
  IsSafe, Leaves, Leaves-if, Leaves-bind, send_connect-Leaves, send_dis_connect-Leaves,
  local_client-Leaves,
}
use go_websocket.System.Sends.{
  ping_timer-Leaves, render_all-Leaves, ping_entries-Leaves, ping_clients-Leaves,
}
use go_websocket.System.Loops.{
  send_message2_group-IsSafe, take_connect-Leaves, take_dis_connect-Leaves,
  add_client2_local_group-IsSafe, local_group_rounds-Leaves, send_to_all-Leaves,
}
use go_websocket.System.Actions.{
  send_message2_client-Leaves, close_client-Leaves, send_message2_system-Leaves, run-Leaves,
  read_round-Leaves, take_message-Leaves, run_picked-Leaves,
}

module _ (lib : Libraries) where
  resume-IsSafe : (rest : Rest) (w : World) → IsSafe w → Leaves (resume lib rest w)
  unfolding resume
  resume-IsSafe (links r) w v = elim (Bool-cases (ltb r w.next_client)) [
    | inl e ↦ rw e (send_connect-Leaves r w (ltb→lt r w.next_client e) v)
    | inr e ↦ rw e v
  ]
  resume-IsSafe (queues r) w v = send_dis_connect-Leaves r w v
  resume-IsSafe (writes_on info r entries) w v =
      Leaves-bind _ _ (send_dis_connect-Leaves r w v)
        (λ u k. render_all-Leaves lib.write_json info entries u k)
  resume-IsSafe (pings_on r entries clients) w v =
      Leaves-bind _ _ (send_dis_connect-Leaves r w v) (λ u k.
        Leaves-bind _ _ (ping_entries-Leaves lib.write_control entries u k)
          (λ x l. ping_clients-Leaves lib.write_control clients x l))
  resume-IsSafe (sends_on info ids) w v =
      Leaves-bind _ _ (local_client-Leaves info w v) (λ u k. send_to_all-Leaves info ids u k)
  resume-IsSafe (rounds_on group_key info rounds index view) w v =
      Leaves-bind _ _ (local_client-Leaves info w v)
        (λ u k. local_group_rounds-Leaves group_key info rounds index view u k)

  -- Whatever the action, a safe server is left in a safe state, where the action ends and where it
  -- waits.
  pub perform-IsSafe : (a : Action) (w : World) → IsSafe w → Leaves (perform lib a w)
  unfolding perform start_connect start_dis_connect send_message2_local_group
      send_message2_local_system
  perform-IsSafe (connects now socket h) w v = run-Leaves lib.write_json now socket h w v
  perform-IsSafe (reads r received) w v = read_round-Leaves lib.write_json r received w v
  perform-IsSafe takes_connect w v =
      take_connect-Leaves lib.marshal lib.uuid w.manager.connect w v.connect_room v.bound.allocated
        v
  perform-IsSafe takes_dis_connect w v =
      take_dis_connect-Leaves lib.marshal lib.uuid w.manager.dis_connect w v.dis_connect_room v
  perform-IsSafe (sends info) w v = send_message2_client-Leaves lib.cipher info w v
  perform-IsSafe (closes id system addr) w v = close_client-Leaves lib.cipher id system addr w v
  perform-IsSafe (sends_group mid system user group code msg content) w v =
      send_message2_group-IsSafe mid system user group code msg content w v
  perform-IsSafe (sends_system mid system user code msg content) w v =
      send_message2_system-Leaves mid system user code msg content w v
  perform-IsSafe (joins name r user extend) w v =
      add_client2_local_group-IsSafe lib.marshal lib.uuid name r user extend w v
  perform-IsSafe (sends_local_group system name info) w v =
      Leaves-if _ (done w) _ v (local_group_rounds-Leaves _ info _ 0 _ w v)
  perform-IsSafe (sends_local_system system info) w v =
      Leaves-if _ (done w) _ v (send_to_all-Leaves info _ w v)
  perform-IsSafe (runs i) w v = run_picked-Leaves w (pick i w.spawned) v
  perform-IsSafe writes w v =
      take_message-Leaves lib.write_json w.to_client_chan w v.to_client_room v
  perform-IsSafe (resumes rest) w v = resume-IsSafe rest w v
  perform-IsSafe pings w v = ping_timer-Leaves lib.write_control w v

initial-IsSafe :
    (common : CommonConf) (global : Global) (heap : Heap) → IsSafe (initial common global heap)
unfolding lookup
initial-IsSafe common global heap = record {
  manager = new_client_manager-IsSound;
  connect_room = omega arith;
  dis_connect_room = omega arith;
  to_client_room = omega arith;
  bound = record { named = λ id d a r h k. absurd (ground (arith, h)); allocated = tt };
}

Reach-IsSafe_from : {s w : World} → IsSafe s → Reach s w → IsSafe w
Reach-IsSafe_from v here = v
Reach-IsSafe_from v (next lib a r e) =
    subst Leaves e (perform-IsSafe lib a _ (Reach-IsSafe_from v r))
Reach-IsSafe_from v (waits lib a r e) =
    subst Leaves e (perform-IsSafe lib a _ (Reach-IsSafe_from v r))

-- In every state that a server reaches from its start by any sequence of actions, a client id with
-- an account stands in the online list of its account exactly once if it is connected and never if
-- not (an APP_ id at least once), and in no other list; every connection in ClientIdMap is that of
-- an allocated client, which has the id and the address under which it stands, and the clients in
-- the channel Connect are allocated; the maps have no key twice and no empty entry; no channel
-- holds more than its capacity.
pub Reach-IsSafe :
    (common : CommonConf) (global : Global) (heap : Heap) {w : World}
    → Reach (initial common global heap) w
    → IsSafe w
Reach-IsSafe common global heap r = Reach-IsSafe_from (initial-IsSafe common global heap) r
