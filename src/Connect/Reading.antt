-- ===== src/Connect/Reading.antt =====
-- The loop of Client.Read (servers/client.go) over what ReadMessage gives, one after the other.
use go_websocket.Prelude.{
  Option, ℕ, ◌+◌, ◌≤◌, ◌≡◌, refl, sym, ◌∙◌, ap, Bool, List, [], ◌∷◌, ◌++◌, length, arith,
  if◌then◌else◌, Bool-cases, inl, inr, append-nil, length-append,
}
use go_websocket.Prelude.Text.{Str, codes}
use go_websocket.Client.{Ref}
use go_websocket.World.{Frame, conn_suc, World, Progress, done, connect_cap, write_frame}
use go_websocket.Server.Delivery.{sent, sent_none, sent_twice, send_dis_connect_room}
use go_websocket.Connect.{
  Received, message, closed_as_expected, failed, ping_failed, Next, reads_on, ends, is_keep_live,
  read_round,
}

module _ (write_json : ℕ → Frame → Bool) (r : Ref) where
  -- Read, for what it has read until now.
  unfoldable pub read : List Received → World → Progress World
  read [] w = done w
  read (x ∷ rest) w = elim (read_round write_json r x w) [ reads_on v ↦ read rest v | ends p ↦ p ]

  -- Everything but what ends the loop.
  abbrev pub GoesOn : List Received → Type 0
  GoesOn [] = Unit {0}
  GoesOn (message kind ∷ rest) = GoesOn rest
  GoesOn (ping_failed ∷ rest) = GoesOn rest
  GoesOn (closed_as_expected ∷ rest) = ⊥
  GoesOn (failed ∷ rest) = ⊥

  abbrev pub pong : Frame
  pong = conn_suc (codes "KeepLive") (codes "Succeed")

  abbrev pub answer : ℕ → Received → List (ℕ × Frame)
  answer socket (message kind) =
      if is_keep_live kind then (if write_json socket pong then (socket, pong) ∷ [] else []) else []
  answer socket _ = []

  -- One answer for each KeepLive, on a socket that can be written to.
  abbrev pub answers : ℕ → List Received → List (ℕ × Frame)
  answers socket [] = []
  answers socket (x ∷ rest) = answer socket x ++ answers socket rest

  message_round :
      (kind : Option Str) (w : World)
      → read_round write_json r (message kind) w
        ≡ reads_on (sent (answer (w.heap r).socket (message kind)) [] w)
  unfolding read_round
  message_round kind w = elim (Bool-cases (is_keep_live kind)) [
    | inl k ↦ elim (Bool-cases (write_json (w.heap r).socket pong)) [
      | inl e ↦
          rw (k, e)
            (ap
              (λ d. reads_on (record (write_frame (w.heap r).socket pong w) {
                manager = record w.manager { dis_connect = d };
              }))
              (sym (append-nil w.manager.dis_connect)))
      | inr e ↦ rw (k, e) (ap reads_on (sent_none w))
    ]
    | inr k ↦ rw k (ap reads_on (sent_none w))
  ]

  ping_round : (w : World) → read_round write_json r ping_failed w ≡ reads_on w
  unfolding read_round
  ping_round w = refl

  abbrev continues : List Received → Next → Progress World
  continues rest (reads_on v) = read rest v
  continues rest (ends p) = p

  read_on :
      (before rest : List Received) (w : World)
      → GoesOn before
      → read (before ++ rest) w ≡ read rest (sent (answers (w.heap r).socket before) [] w)
  unfolding read
  read_on [] rest w h = ap (λ v. read rest v) (sent_none w)
  read_on (message kind ∷ before) rest w h =
      let socket = (w.heap r).socket in
      let first = answer socket (message kind) in
      ap (λ n. continues (before ++ rest) n) (message_round kind w)
      ∙ (read_on before rest (sent first [] w) h
          ∙ ap (λ v. read rest v) (sent_twice first (answers socket before) [] [] w))
  read_on (ping_failed ∷ before) rest w h =
      ap (λ n. continues (before ++ rest) n) (ping_round w) ∙ read_on before rest w h
  read_on (closed_as_expected ∷ before) rest w h = absurd h
  read_on (failed ∷ before) rest w h = absurd h

  -- Read answers each KeepLive before the first error, on a socket that can be written to, in order.
  -- A close with one of the expected codes then queues the client once to be disconnected, for which
  -- there must be room; another error does not. What would come after is not read, and nothing else
  -- changes.
  pub read_lem :
      (before after : List Received) (w : World)
      → GoesOn before
      → length w.manager.dis_connect + 1 ≤ connect_cap
      → (read (before ++ closed_as_expected ∷ after) w
          ≡ done (sent (answers (w.heap r).socket before) (r ∷ []) w))
        × (read (before ++ failed ∷ after) w ≡ done (sent (answers (w.heap r).socket before) [] w))
  unfolding read read_round
  read_lem before after w h room =
      let out = answers (w.heap r).socket before in
      (
        read_on before (closed_as_expected ∷ after) w h
            ∙ (send_dis_connect_room r (sent out [] w)
                  (omega (arith, length-append w.manager.dis_connect []))
                ∙ ap done (
                    sent_twice out [] [] (r ∷ []) w
                    ∙ ap (λ f. sent f (r ∷ []) w) (append-nil out))),
        read_on before (failed ∷ after) w h,
      )
