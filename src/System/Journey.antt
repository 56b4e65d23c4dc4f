-- ===== src/System/Journey.antt =====
-- A message on its way through a server on its own: from the HTTP call by the goroutine and the
-- channel to the sockets (servers/server.go), and from the handshake on (servers/connect.go).
use go_websocket.Prelude.{
  ℕ, ◌+◌, ◌≤◌, ◌≡◌, refl, ◌∙◌, ap, none, some, List, [], ◌∷◌, ◌++◌, false, true, length, arith,
  lt→ltb, if◌then◌else◌, Bool-cases, inl, inr, append_assoc, ==_iff,
}
use go_websocket.Prelude.Text.{Str, codes, str_eq, str_eq_refl}
use go_websocket.Prelude.Dict.{Dict, lookup}
use go_websocket.Client.{Ref, new_client, store}
use go_websocket.Util.{is_cluster}
use go_websocket.Manager.Maps.{IsKeyed, lookup-add_client, add_client-IsKeyed}
use go_websocket.World.{
  ClientInfo, Task, local_client, World, Progress, done, ◌>>=◌, connect_cap,
  send_message2_local_client, spawn, Frame, conn_suc, send_connect,
}
use go_websocket.Server.{send_message2_client, run_task}
use go_websocket.Server.Delivery.{sent, written, unwritten, write_message_lem, frame_of}
use go_websocket.System.{
  Libraries, Action, sends, runs, writes, perform, pick, take_message, connects,
}
use go_websocket.Manager.{add_client2_system_client, is_app}
use go_websocket.Manager.Sound.{add_client2_system_client-SameChannels}
use go_websocket.Connect.{Handshake, run, admit, link_text}

-- The actions, one after the other.
abbrev pub perform_all : Libraries → List Action → World → Progress World
perform_all lib [] w = done w
perform_all lib (a ∷ actions) w = perform lib a w >>= λ v. perform_all lib actions v

pub pick-last : (ts : List Task) (t : Task) → pick (length ts) (ts ++ t ∷ []) ≡ some (t, ts)
unfolding pick
pick-last [] t = refl
pick-last (u ∷ ts) t = rw (pick-last ts t)

-- A server whose channel to the clients is empty.
abbrev pub quiet : World → World
quiet w = record w { to_client_chan = [] }

module _ (lib : Libraries) (info : ClientInfo) where
  send_step :
      (w : World)
      → is_cluster w.common ≡ false
      → perform lib (sends info) w ≡ done (spawn (local_client info) w)
  unfolding perform send_message2_client
  send_step w h = simp h

  run_step :
      (w : World)
      → perform lib (runs (length w.spawned)) (spawn (local_client info) (quiet w))
        ≡ done (record w { to_client_chan = info ∷ [] })
  unfolding perform run_task send_message2_local_client
  run_step w = rw (pick-last w.spawned (local_client info))

  write_step :
      (w : World)
      → IsKeyed w.manager
      → (d : Dict Ref) → lookup info.client_id w.manager.client_id_map ≡ some d
      → length w.manager.dis_connect + length d ≤ connect_cap
      → perform lib writes (record w { to_client_chan = info ∷ [] })
        ≡ done (
            sent
              (written lib.write_json info w.heap d)
              (unwritten lib.write_json info w.heap d)
              (quiet w))
  unfolding perform take_message
  write_step w v d e h = write_message_lem lib.write_json info (quiet w) v d e h

  -- On a single machine whose channel to the clients is empty, a message that is sent to a connected
  -- client is written once to each of its connections that can be written to when the goroutine of
  -- the send and then WriteMessage run; the other connections are queued to be disconnected, for
  -- which there must be room. Nothing else changes.
  pub sends-delivered :
      (w : World)
      → is_cluster w.common ≡ false
      → IsKeyed w.manager
      → (d : Dict Ref) → lookup info.client_id w.manager.client_id_map ≡ some d
      → length w.manager.dis_connect + length d ≤ connect_cap
      → perform_all lib (sends info ∷ runs (length w.spawned) ∷ writes ∷ []) (quiet w)
        ≡ done (
            sent
              (written lib.write_json info w.heap d)
              (unwritten lib.write_json info w.heap d)
              (quiet w))
  sends-delivered w c v d e h =
      ap
        (λ p. p >>= λ x.
          perform lib (runs (length w.spawned)) x >>= λ y. perform lib writes y >>= λ z. done z)
        (send_step (quiet w) c)
      ∙ (ap (λ p. p >>= λ y. perform lib writes y >>= λ z. done z) (run_step w)
          ∙ ap (λ p. p >>= λ z. done z) (write_step w v d e h))

-- The id that the handler Run takes from the form.
abbrev pub id_of : Handshake → Str
id_of h = if str_eq h.system_id [] then h.token else h.system_id

-- The state after a handshake that succeeds.
abbrev pub linked : ℕ → ℕ → Handshake → World → World
linked now socket h w =
    let c = new_client now (id_of h) h.remote_addr (id_of h) socket in
    let m = add_client2_system_client (id_of h) c w.next_client w.manager in
    record w {
      heap = store w.next_client c w.heap;
      next_client = w.next_client + 1;
      manager = record m { connect = m.connect ++ w.next_client ∷ [] };
      frames = w.frames ++ (socket, conn_suc (codes "Link") link_text) ∷ [];
    }

module _ (lib : Libraries) (now socket : ℕ) (h : Handshake) where
  pub run_linked :
      (w : World)
      → str_eq (id_of h) [] ≡ false
      → length w.manager.connect + 1 ≤ connect_cap
      → lib.write_json socket (conn_suc (codes "Link") link_text) ≡ true
      → perform lib (connects now (some socket) h) w ≡ done (linked now socket h w)
  unfolding perform run admit send_connect
  run_linked w n room ok =
      let c = new_client now (id_of h) h.remote_addr (id_of h) socket in
      let (same, _) = add_client2_system_client-SameChannels (id_of h) c w.next_client w.manager in
      rw (
        n,
        ok,
        lt→ltb (length (add_client2_system_client (id_of h) c w.next_client w.manager).connect)
            connect_cap (omega (arith, ap length same)),
      )

  lookup-linked :
      (w : World)
      → lookup (id_of h) w.manager.client_id_map ≡ none
      → lookup (id_of h) (linked now socket h w).manager.client_id_map
        ≡ some ((h.remote_addr, w.next_client) ∷ [])
  unfolding add_client2_system_client new_client
  lookup-linked w fresh =
      let c = new_client now (id_of h) h.remote_addr (id_of h) socket in
      let l = lookup-add_client c w.next_client w.manager (id_of h) in
      l
      ∙ rw (str_eq_refl (id_of h), fresh)
          (elim (Bool-cases (is_app (id_of h))) [ inl app ↦ rw app | inr web ↦ rw web ])

  linked-IsKeyed : (w : World) → IsKeyed w.manager → IsKeyed (linked now socket h w).manager
  unfolding add_client2_system_client
  linked-IsKeyed w v =
      let c = new_client now (id_of h) h.remote_addr (id_of h) socket in
      let k = add_client-IsKeyed c w.next_client w.manager v in
      record { outer = k.outer; inner = k.inner; nonempty = k.nonempty }

  -- The new client is the only one of its id, and its socket takes the frame.
  written-linked :
      (info : ClientInfo) (w : World)
      → ((f : Frame) → lib.write_json socket f ≡ true)
      → written lib.write_json info
          (linked now socket h w).heap
          ((h.remote_addr, w.next_client) ∷ [])
        ≡ (socket, frame_of info) ∷ []
  unfolding written new_client
  written-linked info w ok = rw ((==_iff w.next_client w.next_client).1 refl, ok (frame_of info))

  -- On a single machine whose channel to the clients is empty, whose channels Connect and DisConnect
  -- have room for one more client each, and whose maps have no key twice, a client with an id that is
  -- new and not empty, whose socket takes every frame, gets by its handshake the frame of type Link
  -- with the text of ConnRender, and then by a send to its id exactly the message.
  pub connects-delivered :
      (info : ClientInfo) (w : World)
      → info.client_id ≡ id_of h
      → str_eq (id_of h) [] ≡ false
      → is_cluster w.common ≡ false
      → IsKeyed w.manager
      → lookup (id_of h) w.manager.client_id_map ≡ none
      → length w.manager.connect + 1 ≤ connect_cap
      → length w.manager.dis_connect + 1 ≤ connect_cap
      → ((f : Frame) → lib.write_json socket f ≡ true)
      → (v : World) × (perform_all lib
            (connects now (some socket) h ∷ sends info ∷ runs (length w.spawned) ∷ writes ∷ [])
            (quiet w)
          ≡ done v)
        × (v.frames
            ≡ w.frames
              ++ (socket, conn_suc (codes "Link") link_text) ∷ (socket, frame_of info) ∷ [])
  connects-delivered info w same n c v fresh room out ok =
      let client = new_client now (id_of h) h.remote_addr (id_of h) socket in
      let (_, same_out) =
        add_client2_system_client-SameChannels (id_of h) client w.next_client w.manager in
      (
        sent
            (written lib.write_json info (linked now socket h w).heap
              ((h.remote_addr, w.next_client) ∷ []))
            (unwritten lib.write_json info (linked now socket h w).heap
              ((h.remote_addr, w.next_client) ∷ []))
            (quiet (linked now socket h w)),
        ap (λ p. p >>= λ x. perform_all lib (sends info ∷ runs (length w.spawned) ∷ writes ∷ []) x)
              (run_linked (quiet w) n room (ok (conn_suc (codes "Link") link_text)))
            ∙ sends-delivered lib info (linked now socket h w) c (linked-IsKeyed w v)
                ((h.remote_addr, w.next_client) ∷ []) (rw same (lookup-linked w fresh))
                (rw same_out out),
        rw (written-linked info w ok) (append_assoc w.frames _ _),
      )
