-- ===== src/Server/Delivery.antt =====
-- What the loop bodies of WriteMessage and PingTimer in servers/server.go send, and which clients
-- they hand to the loop that disconnects.
use go_websocket.Prelude.{
  ℕ, ◌+◌, ◌≤◌, ◌≡◌, refl, sym, ap, ◌∙◌, Bool, true, false, inl, inr, some, List, [], ◌∷◌, ◌++◌,
  arith, lt→ltb, length, length-append, if◌then◌else◌, Bool-cases, append-nil, append_assoc,
}
use mathlib.Core.Path.{ap₂}
use go_websocket.Prelude.Dict.{Dict, lookup}
use go_websocket.Client.{Ref, Heap}
use go_websocket.Manager.Maps.{IsKeyed}
use go_websocket.Manager.Lookups.{get_by_client_id-some, all_client_lem}
use go_websocket.World.{ClientInfo, Frame, ret_data, World, done, connect_cap, send_dis_connect}
use go_websocket.Server.{
  render_to, render_all, write_message, ping_entries, ping_clients, ping_timer,
}

-- The state with more frames written, and more clients queued to be disconnected.
abbrev pub sent : List (ℕ × Frame) → List Ref → World → World
sent frames lost w = record w {
  frames = w.frames ++ frames;
  manager = record w.manager { dis_connect = w.manager.dis_connect ++ lost };
}

pub sent_none : (w : World) → w ≡ sent [] [] w
sent_none w =
    ap (λ (f, d). record w { frames = f; manager = record w.manager { dis_connect = d } })
      (ap₂ (λ f d. (f, d)) (sym (append-nil w.frames)) (sym (append-nil w.manager.dis_connect)))

pub sent_nothing : (w : World) → done w ≡ done (sent [] [] w)
sent_nothing w = ap done (sent_none w)

pub sent_twice :
    (f g : List (ℕ × Frame)) (a b : List Ref) (w : World)
    → sent g b (sent f a w) ≡ sent (f ++ g) (a ++ b) w
sent_twice f g a b w = rw (append_assoc, append_assoc) refl

pub send_dis_connect_room :
    (r : Ref) (w : World)
    → length w.manager.dis_connect + 1 ≤ connect_cap
    → send_dis_connect r w ≡ done (sent [] (r ∷ []) w)
unfolding send_dis_connect
send_dis_connect_room r w h =
    rw (lt→ltb (length w.manager.dis_connect) connect_cap (omega arith), append-nil) refl

-- The JSON of the message, as it goes to every connection of its client.
abbrev pub frame_of : ClientInfo → Frame
frame_of info = ret_data info.message_id info.code info.content

module _ (write_json : ℕ → Frame → Bool) (info : ClientInfo) (heap : Heap) where
  -- The frames for the connections that can be written to.
  unfoldable pub written : Dict Ref → List (ℕ × Frame)
  written [] = []
  written ((addr, conn) ∷ entries) =
      (if write_json (heap conn).socket (frame_of info)
        then ((heap conn).socket, frame_of info) ∷ []
        else [])
      ++ written entries

  -- The connections that cannot.
  unfoldable pub unwritten : Dict Ref → List Ref
  unwritten [] = []
  unwritten ((addr, conn) ∷ entries) =
      (if write_json (heap conn).socket (frame_of info) then [] else conn ∷ []) ++ unwritten entries

pub unwritten_bound :
    (write_json : ℕ → Frame → Bool) (info : ClientInfo) (heap : Heap) (d : Dict Ref)
    → length (unwritten write_json info heap d) ≤ length d
unfolding unwritten
unwritten_bound write_json info heap [] = omega arith
unwritten_bound write_json info heap ((addr, conn) ∷ d) =
    ground (arith, unwritten_bound write_json info heap d)

module _ (write_json : ℕ → Frame → Bool) (info : ClientInfo) where
  render_to-written :
      (conn : Ref) (w : World)
      → write_json (w.heap conn).socket (frame_of info) ≡ true
      → render_to write_json info conn w
        ≡ done (sent (((w.heap conn).socket, frame_of info) ∷ []) [] w)
  unfolding render_to
  render_to-written conn w e = rw (e, append-nil) refl

  render_to-unwritten :
      (conn : Ref) (w : World)
      → write_json (w.heap conn).socket (frame_of info) ≡ false
      → length w.manager.dis_connect + 1 ≤ connect_cap
      → render_to write_json info conn w ≡ done (sent [] (conn ∷ []) w)
  unfolding render_to
  render_to-unwritten conn w e h = rw e (send_dis_connect_room conn w h)

  render_all-sent :
      (entries : Dict Ref) (w : World)
      → length w.manager.dis_connect + length entries ≤ connect_cap
      → render_all write_json info entries w
        ≡ done (
            sent
              (written write_json info w.heap entries)
              (unwritten write_json info w.heap entries)
              w)
  unfolding render_all written unwritten
  render_all-sent [] w h = sent_nothing w
  render_all-sent ((addr, conn) ∷ entries) w h =
      elim (Bool-cases (write_json (w.heap conn).socket (frame_of info))) [
        | inl e ↦
            rw (render_to-written conn w e, e)
              (render_all-sent entries (sent (((w.heap conn).socket, frame_of info) ∷ []) [] w)
                  (omega (arith, length-append w.manager.dis_connect []))
                ∙ ap done (sent_twice _ _ _ _ w))
        | inr e ↦
            rw (render_to-unwritten conn w e (omega arith), e)
              (render_all-sent entries (sent [] (conn ∷ []) w)
                  (omega (arith, length-append w.manager.dis_connect (conn ∷ [])))
                ∙ ap done (sent_twice _ _ _ _ w))
      ]

  -- For an id that is connected WriteMessage writes the message once to every connection of the id
  -- that can be written to, in the order of the map, and queues the others to be disconnected;
  -- nothing else changes. The queue must have room for all the connections of the id.
  pub write_message_lem :
      (w : World)
      → IsKeyed w.manager
      → (d : Dict Ref) → lookup info.client_id w.manager.client_id_map ≡ some d
      → length w.manager.dis_connect + length d ≤ connect_cap
      → write_message write_json info w
        ≡ done (sent (written write_json info w.heap d) (unwritten write_json info w.heap d) w)
  unfolding write_message
  write_message_lem w v d e h =
      rw (get_by_client_id-some info.client_id w.manager d v e, write_message)
        (render_all-sent d w h)

module _ (write_control : ℕ → Bool) where
  -- The connections at which a ping fails.
  unfoldable pub dead_entries : Heap → Dict Ref → List Ref
  dead_entries heap [] = []
  dead_entries heap ((addr, conn) ∷ entries) =
      (if write_control (heap conn).socket then [] else conn ∷ []) ++ dead_entries heap entries

  unfoldable pub dead : Heap → Dict (Dict Ref) → List Ref
  dead heap [] = []
  dead heap ((client_id, entries) ∷ clients) = dead_entries heap entries ++ dead heap clients

  unfoldable pub connections : Dict (Dict Ref) → ℕ
  connections [] = 0
  connections ((client_id, entries) ∷ clients) = length entries + connections clients

  ping_entries-sent :
      (entries : Dict Ref) (w : World)
      → length w.manager.dis_connect + length entries ≤ connect_cap
      → ping_entries write_control entries w ≡ done (sent [] (dead_entries w.heap entries) w)
  unfolding ping_entries dead_entries
  ping_entries-sent [] w h = sent_nothing w
  ping_entries-sent ((addr, conn) ∷ entries) w h =
      elim (Bool-cases (write_control (w.heap conn).socket)) [
        | inl e ↦ rw e (ping_entries-sent entries w (omega arith))
        | inr e ↦
            rw (e, send_dis_connect_room conn w (omega arith))
              (ping_entries-sent entries (sent [] (conn ∷ []) w)
                  (omega (arith, length-append w.manager.dis_connect (conn ∷ [])))
                ∙ ap done (sent_twice _ _ _ _ w))
      ]

  dead_entries_bound :
      (heap : Heap) (entries : Dict Ref) → length (dead_entries heap entries) ≤ length entries
  unfolding dead_entries
  dead_entries_bound heap [] = omega arith
  dead_entries_bound heap ((addr, conn) ∷ entries) = ground (arith, dead_entries_bound heap entries)

  ping_clients-sent :
      (clients : Dict (Dict Ref)) (w : World)
      → length w.manager.dis_connect + connections clients ≤ connect_cap
      → ping_clients write_control clients w ≡ done (sent [] (dead w.heap clients) w)
  unfolding ping_clients dead connections
  ping_clients-sent [] w h = sent_nothing w
  ping_clients-sent ((client_id, entries) ∷ clients) w h =
      rw (ping_entries-sent entries w (omega arith)) (
        ping_clients-sent clients (sent [] (dead_entries w.heap entries) w) (
          omega (
            arith,
            length-append w.manager.dis_connect (dead_entries w.heap entries),
            dead_entries_bound w.heap entries,
          ))
        ∙ ap done (sent_twice _ _ _ _ w))

  -- A round of PingTimer pings every connection of every client and queues those whose ping fails to
  -- be disconnected, in the order of the maps; nothing else changes. The queue must have room for
  -- all connections.
  pub ping_timer_lem :
      (w : World)
      → IsKeyed w.manager
      → length w.manager.dis_connect + connections w.manager.client_id_map ≤ connect_cap
      → ping_timer write_control w ≡ done (sent [] (dead w.heap w.manager.client_id_map) w)
  unfolding ping_timer
  ping_timer_lem w v h =
      rw (all_client_lem w.manager v) (ping_clients-sent w.manager.client_id_map w h)
