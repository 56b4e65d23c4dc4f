-- ===== src/Api/Delivery.antt =====
-- A request to send to a list of clients, from the HTTP interface (api/send2clients) by the goroutines
-- and WriteMessage (servers/server.go) to the sockets.
use go_websocket.Prelude.{
  ℕ, ◌+◌, ◌≤◌, ◌≡◌, refl, sym, ap, ◌∙◌, some, List, [], ◌∷◌, ◌++◌, false, length, replicate, arith,
  lt→ltb, length-append, append_assoc, append-nil,
}
use go_websocket.Prelude.Text.{Str}
use go_websocket.Prelude.Result.{ok}
use go_websocket.Util.{gen_uuid, is_cluster}
use go_websocket.Manager.Maps.{IsKeyed}
use go_websocket.World.{
  ClientInfo, Task, local_client, World, done, ◌>>=◌, connect_cap, to_client_cap,
  send_message2_local_client,
}
use go_websocket.Server.{run_task}
use go_websocket.Server.Delivery.{sent}
use go_websocket.Http.{render, success, success_text, no_items}
use go_websocket.System.{Libraries, runs, writes, perform, pick}
use go_websocket.System.Journey.{perform_all, quiet}
use go_websocket.System.Queues.{perform_all-append}
use go_websocket.System.Writes.{all_written, all_unwritten, connections_of, writes_in_order}
use go_websocket.Api.{Validator, IsRequired, replied, Send2Clients, message, send2_clients}
use go_websocket.Api.Laws.{tasks, send2_clients_lem}

-- The goroutines that send these messages.
abbrev senders : List ClientInfo → List Task
senders [] = []
senders (info ∷ infos) = local_client info ∷ senders infos

pick-middle :
    (old : List Task) (t : Task) (ts : List Task)
    → pick (length old) (old ++ t ∷ ts) ≡ some (t, old ++ ts)
unfolding pick
pick-middle [] t ts = refl
pick-middle (u ∷ old) t ts = rw (pick-middle old t ts)

-- The messages of a request, in the order of its clients.
abbrev pub messages : (ℕ → Str) → ℕ → Send2Clients → List Str → List ClientInfo
messages ids n i [] = []
messages ids n i (client ∷ clients) =
    message client i.send_user_id (ids n) i.code i.msg i.content ∷ messages ids (n + 1) i clients

tasks-senders :
    (ids : ℕ → Str) (n : ℕ) (i : Send2Clients) (clients : List Str)
    → tasks ids n i clients ≡ senders (messages ids n i clients)
tasks-senders ids n i [] = refl
tasks-senders ids n i (client ∷ clients) =
    ap (λ l. local_client (message client i.send_user_id (ids n) i.code i.msg i.content) ∷ l)
      (tasks-senders ids (n + 1) i clients)

length-messages :
    (ids : ℕ → Str) (n : ℕ) (i : Send2Clients) (clients : List Str)
    → length (messages ids n i clients) ≡ length clients
length-messages ids n i [] = refl
length-messages ids n i (client ∷ clients) = omega (arith, length-messages ids (n + 1) i clients)

module _ (lib : Libraries) where
  -- The goroutines run in the order in which they were started.
  senders_run :
      (infos chan : List ClientInfo) (w : World)
      → length chan + length infos ≤ to_client_cap
      → perform_all lib
          (replicate (length infos) (runs (length w.spawned)))
          (record w { spawned = w.spawned ++ senders infos; to_client_chan = chan })
        ≡ done (record w { to_client_chan = chan ++ infos })
  unfolding perform run_task send_message2_local_client
  senders_run [] chan w h = rw (append-nil, append-nil)
  senders_run (info ∷ infos) chan w h =
      rw
        (
          pick-middle w.spawned (local_client info) (senders infos),
          lt→ltb (length chan) to_client_cap (omega arith),
        )
        (senders_run infos (chan ++ info ∷ []) w (omega (arith, length-append chan (info ∷ [])))
          ∙ ap (λ l. done (record w { to_client_chan = l })) (append_assoc chan (info ∷ []) infos))

  -- On a single machine whose channel to the clients is empty, a request to send to a list of clients
  -- reports success, and the goroutines that it starts, in the order in which they were started, and
  -- WriteMessage, as often as the list is long, write the message, client by client in the order of the
  -- list, once to each of the client's connections that can be written to, under the message id that
  -- was made for the client; the other connections are queued to be disconnected. Nothing else changes.
  -- Both channels must have room, no map has a key twice, and each UUID is long enough for an id.
  pub send2_clients-delivered :
      (uuids ids : ℕ → Str)
      → ((n : ℕ) → gen_uuid (uuids n) ≡ ok (ids n))
      → (i : Send2Clients) (validate : Validator) → IsRequired validate
      → (clients : List Str) → i.client_ids ≡ some clients
      → length clients ≤ to_client_cap
      → (w : World) → is_cluster w.common ≡ false
      → IsKeyed w.manager
      → length w.manager.dis_connect
          + connections_of w.manager.client_id_map (messages ids 0 i clients)
        ≤ connect_cap
      → (v : World) × (send2_clients lib.cipher validate uuids (some i) (quiet w)
          ≡ replied v (render success success_text no_items))
        × (perform_all lib
              (replicate (length clients) (runs (length w.spawned))
                ++ replicate (length clients) writes)
              v
            ≡ done (
                sent
                  (all_written lib w.heap w.manager.client_id_map (messages ids 0 i clients))
                  (all_unwritten lib w.heap w.manager.client_id_map (messages ids 0 i clients))
                  (quiet w)))
  send2_clients-delivered uuids ids makes i validate law clients e room w single keyed out =
      let infos = messages ids 0 i clients in
      let n = length-messages ids 0 i clients in
      let started = record (quiet w) { spawned = w.spawned ++ senders infos } in
      (
        started,
        send2_clients_lem lib.cipher uuids ids makes i validate law clients e (quiet w) single
            ∙ ap
                (λ l.
                  replied (record (quiet w) { spawned = w.spawned ++ l })
                    (render success success_text no_items))
                (tasks-senders ids 0 i clients),
        perform_all-append lib (replicate (length clients) (runs (length w.spawned)))
              (replicate (length clients) writes) started
            ∙ (ap
                  (λ k. perform_all lib (replicate k (runs (length w.spawned))) started >>= λ x.
                    perform_all lib (replicate k writes) x)
                  (sym n)
                ∙ (ap (λ p. p >>= λ x. perform_all lib (replicate (length infos) writes) x)
                      (senders_run infos [] w (omega (arith, n)))
                    ∙ writes_in_order lib infos w keyed out)),
      )
