-- ===== src/Server/Order.antt =====
-- Go leaves open in which order a loop ranges over a map. WriteMessage (servers/server.go) sends the
-- same frames, as often, in whatever order it meets the connections of a client.
use mathlib.Core.List.{Perm, filter_map}
use mathlib.Core.List.Perm
use go_websocket.Prelude.{
  ℕ, ◌+◌, ◌≤◌, ◌≡◌, refl, Bool, Option, some, none, [], ◌∷◌, length, arith, if◌then◌else◌,
}
use go_websocket.Prelude.Text.{Str}
use go_websocket.Prelude.Dict.{Dict, lookup}
use go_websocket.Client.{Ref, Heap}
use go_websocket.Manager.{ClientManager}
use go_websocket.Manager.Maps.{IsKeyed}
use go_websocket.World.{ClientInfo, Frame, World, done, connect_cap}
use go_websocket.Server.{write_message}
use go_websocket.Server.Delivery.{sent, written, unwritten, frame_of, write_message_lem}

module _ (write_json : ℕ → Frame → Bool) (info : ClientInfo) (heap : Heap) where
  abbrev frame_for : Str × Ref → Option (ℕ × Frame)
  frame_for (addr, conn) =
      if write_json (heap conn).socket (frame_of info)
      then some ((heap conn).socket, frame_of info)
      else none

  abbrev lost_for : Str × Ref → Option Ref
  lost_for (addr, conn) = if write_json (heap conn).socket (frame_of info) then none else some conn

  written_lem : (d : Dict Ref) → written write_json info heap d ≡ filter_map frame_for d
  unfolding written filter_map
  written_lem [] = refl
  written_lem ((addr, conn) ∷ d) = ground (arith, written_lem d)

  unwritten_lem : (d : Dict Ref) → unwritten write_json info heap d ≡ filter_map lost_for d
  unfolding unwritten filter_map
  unwritten_lem [] = refl
  unwritten_lem ((addr, conn) ∷ d) = ground (arith, unwritten_lem d)

  written-perm :
      {d e : Dict Ref}
      → Perm d e
      → Perm (written write_json info heap d) (written write_json info heap e)
  written-perm {d} {e} p = rw (written_lem d, written_lem e) (Perm.filter_map frame_for p)

  unwritten-perm :
      {d e : Dict Ref}
      → Perm d e
      → Perm (unwritten write_json info heap d) (unwritten write_json info heap e)
  unwritten-perm {d} {e} p = rw (unwritten_lem d, unwritten_lem e) (Perm.filter_map lost_for p)

-- Two states that differ in the manager, as far as WriteMessage reads and changes it, only by the
-- order of the connections of the message's client: WriteMessage ends in both, the frames that it
-- has written in one are a permutation of those in the other, and so are the queues of clients to be
-- disconnected. There must be room in these queues, and no map has a key twice.
pub write_message-perm :
    (write_json : ℕ → Frame → Bool) (info : ClientInfo) (w : World) (m : ClientManager)
    → IsKeyed w.manager
    → IsKeyed m
    → m.dis_connect ≡ w.manager.dis_connect
    → (d e : Dict Ref) → Perm d e
    → lookup info.client_id w.manager.client_id_map ≡ some d
    → lookup info.client_id m.client_id_map ≡ some e
    → length w.manager.dis_connect + length d ≤ connect_cap
    → length w.manager.dis_connect + length e ≤ connect_cap
    → (u v : World) × (write_message write_json info w ≡ done u)
      × (write_message write_json info (record w { manager = m }) ≡ done v)
      × Perm u.frames v.frames
      × Perm u.manager.dis_connect v.manager.dis_connect
write_message-perm write_json info w m kw km same d e p ed ee rd re = (
  sent (written write_json info w.heap d) (unwritten write_json info w.heap d) w,
  sent (written write_json info w.heap e) (unwritten write_json info w.heap e)
      (record w { manager = m }),
  write_message_lem write_json info w kw d ed rd,
  write_message_lem write_json info (record w { manager = m }) km e ee (rw same re),
  Perm.append_left w.frames (written-perm write_json info w.heap p),
  rw same (Perm.append_left w.manager.dis_connect (unwritten-perm write_json info w.heap p)),
)
