-- ===== src/System/Writes.antt =====
-- WriteMessage (servers/server.go) works its channel off, message by message.
use go_websocket.Prelude.{
  ℕ, ◌+◌, ◌≤◌, ◌≡◌, ap, ◌∙◌, Option-cases, inl, inr, List, [], ◌∷◌, ◌++◌, length, replicate, arith,
  length-append,
}
use go_websocket.Prelude.Dict.{Dict, lookup, values, values_absent, values_present}
use go_websocket.Client.{Ref, Heap}
use go_websocket.Manager.Maps.{IsKeyed}
use go_websocket.Manager.Lookups.{get_by_client_id-none}
use go_websocket.World.{ClientInfo, Frame, World, done, ◌>>=◌, connect_cap}
use go_websocket.Server.{write_message}
use go_websocket.Server.Delivery.{
  sent, sent_nothing, written, unwritten, unwritten_bound, sent_twice, write_message_lem,
}
use go_websocket.System.{Libraries, writes, perform, take_message}
use go_websocket.System.Journey.{perform_all}

-- The connections of the clients of some messages; an id that is not in the map has none.
abbrev pub connections_of : Dict (Dict Ref) → List ClientInfo → ℕ
connections_of m [] = 0
connections_of m (info ∷ infos) = length (values info.client_id m) + connections_of m infos

sent-IsKeyed :
    (frames : List (ℕ × Frame)) (lost : List Ref) (w : World)
    → IsKeyed w.manager
    → IsKeyed (sent frames lost w).manager
sent-IsKeyed frames lost w v = record { outer = v.outer; inner = v.inner; nonempty = v.nonempty }

module _ (lib : Libraries) where
  -- WriteMessage for any id, connected or not.
  write_message_any :
      (info : ClientInfo) (w : World)
      → IsKeyed w.manager
      → length w.manager.dis_connect + length (values info.client_id w.manager.client_id_map)
        ≤ connect_cap
      → write_message lib.write_json info w
        ≡ done (
            sent
              (written lib.write_json info w.heap (values info.client_id w.manager.client_id_map))
              (unwritten lib.write_json info w.heap (values info.client_id w.manager.client_id_map))
              w)
  unfolding write_message written unwritten
  write_message_any info w v h =
      elim (Option-cases (lookup info.client_id w.manager.client_id_map)) [
        | inl e ↦
            rw
              (
                get_by_client_id-none info.client_id w.manager e,
                write_message,
                values_absent info.client_id w.manager.client_id_map e,
              )
              (sent_nothing w)
        | inr (d, e) ↦
            let same = values_present info.client_id d w.manager.client_id_map e in
            rw same (write_message_lem lib.write_json info w v d e (omega (arith, ap length same)))
      ]

  abbrev pub all_written : Heap → Dict (Dict Ref) → List ClientInfo → List (ℕ × Frame)
  all_written heap m [] = []
  all_written heap m (info ∷ infos) =
      written lib.write_json info heap (values info.client_id m) ++ all_written heap m infos

  abbrev pub all_unwritten : Heap → Dict (Dict Ref) → List ClientInfo → List Ref
  all_unwritten heap m [] = []
  all_unwritten heap m (info ∷ infos) =
      unwritten lib.write_json info heap (values info.client_id m) ++ all_unwritten heap m infos

  -- WriteMessage writes the messages of its channel in the order in which they were sent, each to all
  -- connections of its client that can be written to, and queues the others to be disconnected, as
  -- long as there is room for all of them; then the channel is empty and nothing else has changed.
  -- A message to an id that is not connected is dropped. No map has a key twice.
  pub writes_in_order :
      (infos : List ClientInfo) (w : World)
      → IsKeyed w.manager
      → length w.manager.dis_connect + connections_of w.manager.client_id_map infos ≤ connect_cap
      → perform_all lib (replicate (length infos) writes) (record w { to_client_chan = infos })
        ≡ done (
            sent
              (all_written w.heap w.manager.client_id_map infos)
              (all_unwritten w.heap w.manager.client_id_map infos)
              (record w { to_client_chan = [] }))
  unfolding perform take_message
  writes_in_order [] w v h = sent_nothing (record w { to_client_chan = [] })
  writes_in_order (info ∷ infos) w v h =
      let u = record w { to_client_chan = infos } in
      let d = values info.client_id w.manager.client_id_map in
      let out = written lib.write_json info w.heap d in
      let lost = unwritten lib.write_json info w.heap d in
      let l = unwritten_bound lib.write_json info w.heap d in
      let k = length-append w.manager.dis_connect lost in
      ap (λ p. p >>= λ x. perform_all lib (replicate (length infos) writes) x)
        (write_message_any info u v (omega arith))
      ∙ (writes_in_order infos (sent out lost w) (sent-IsKeyed out lost w v) (omega arith)
          ∙ ap done (
              sent_twice out (all_written w.heap w.manager.client_id_map infos) lost
                (all_unwritten w.heap w.manager.client_id_map infos)
                (record w { to_client_chan = [] })))
