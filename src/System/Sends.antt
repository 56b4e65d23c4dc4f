-- ===== src/System/Sends.antt =====
-- The sends and closes of servers/server.go, WriteMessage and PingTimer keep the state of the server
-- safe.
use go_websocket.Prelude.{ℕ, refl, Bool, Option, none, some, [], ◌∷◌, if◌then◌else◌}
use go_websocket.Prelude.Text.{Str, str_eq}
use go_websocket.Prelude.Dict.{Dict, lookup}
use go_websocket.Prelude.Result.{ok, err, panic, Result}
use go_websocket.Client.{Ref}
use go_websocket.Manager.{get_by_client_id}
use go_websocket.World.{
  ClientInfo, Frame, ret_data, World, done, crashed, send_dis_connect, write_frame,
}
use go_websocket.Server.{
  close_local_client, render_to, render_all, write_message, ping_entries, ping_clients, ping_timer,
}
use go_websocket.System.Safe.{
  IsSafe, Leaves, Leaves-bind, Leaves-if, send_dis_connect-Leaves, same_IsSafe,
}

pub close_local_client-Leaves :
    (id system addr : Str) (w : World) → IsSafe w → Leaves (close_local_client id system addr w)
unfolding close_local_client
close_local_client-Leaves id system addr w v = entries (get_by_client_id id w.manager)
  where
    conn_of :
        (o : Option Ref)
        → Leaves (elim o [
          | none ↦ done w
          | some conn ↦
              if str_eq (w.heap conn).system_id system then send_dis_connect conn w else done w
        ])
    conn_of none = v
    conn_of (some conn) =
        Leaves-if (str_eq (w.heap conn).system_id system) (send_dis_connect conn w) (done w)
          (send_dis_connect-Leaves conn w v) v

    entries :
        (r : Result (Dict Ref))
        → Leaves (elim r [
          | ok d ↦ elim (lookup addr d) [
            | none ↦ done w
            | some conn ↦
                if str_eq (w.heap conn).system_id system then send_dis_connect conn w else done w
          ]
          | err e ↦ done w
          | panic ↦ crashed
        ])
    entries (ok d) = conn_of (lookup addr d)
    entries (err e) = v
    entries panic = tt

module _ (write_json : ℕ → Frame → Bool) (info : ClientInfo) where
  render_to-Leaves : (conn : Ref) (w : World) → IsSafe w → Leaves (render_to write_json info conn w)
  unfolding render_to
  render_to-Leaves conn w v =
      let socket = (w.heap conn).socket in
      let frame = ret_data info.message_id info.code info.content in
      Leaves-if (write_json socket frame) (done (write_frame socket frame w))
        (send_dis_connect conn w) (same_IsSafe w (write_frame socket frame w) refl refl v.bound v)
        (send_dis_connect-Leaves conn w v)

  pub render_all-Leaves :
      (d : Dict Ref) (w : World) → IsSafe w → Leaves (render_all write_json info d w)
  unfolding render_all
  render_all-Leaves [] w v = v
  render_all-Leaves ((addr, conn) ∷ d) w v =
      Leaves-bind (render_to write_json info conn w) (λ u. render_all write_json info d u)
        (render_to-Leaves conn w v) (λ u s. render_all-Leaves d u s)

  pub write_message-Leaves : (w : World) → IsSafe w → Leaves (write_message write_json info w)
  unfolding write_message
  write_message-Leaves w v = entries (get_by_client_id info.client_id w.manager)
    where
      entries :
          (r : Result (Dict Ref))
          → Leaves
              (elim r [ ok d ↦ render_all write_json info d w | err e ↦ done w | panic ↦ crashed ])
      entries (ok d) = render_all-Leaves d w v
      entries (err e) = v
      entries panic = tt

module _ (write_control : ℕ → Bool) where
  pub ping_entries-Leaves :
      (d : Dict Ref) (w : World) → IsSafe w → Leaves (ping_entries write_control d w)
  unfolding ping_entries
  ping_entries-Leaves [] w v = v
  ping_entries-Leaves ((addr, conn) ∷ d) w v =
      Leaves-bind _ (λ u. ping_entries write_control d u)
        (Leaves-if (write_control (w.heap conn).socket) (done w) (send_dis_connect conn w) v
          (send_dis_connect-Leaves conn w v))
        (λ u s. ping_entries-Leaves d u s)

  pub ping_clients-Leaves :
      (d : Dict (Dict Ref)) (w : World) → IsSafe w → Leaves (ping_clients write_control d w)
  unfolding ping_clients
  ping_clients-Leaves [] w v = v
  ping_clients-Leaves ((id, entries) ∷ d) w v =
      Leaves-bind _ (λ u. ping_clients write_control d u) (ping_entries-Leaves entries w v)
        (λ u s. ping_clients-Leaves d u s)

  pub ping_timer-Leaves : (w : World) → IsSafe w → Leaves (ping_timer write_control w)
  unfolding ping_timer
  ping_timer-Leaves w v = ping_clients-Leaves _ w v
