-- ===== src/Connect.antt =====
-- servers/connect.go and the reading loop of servers/client.go. `write_json` says whether the
-- websocket library writes a frame to a socket without an error.
pub mod Reading
use go_websocket.Prelude.{ℕ, ◌+◌, Bool, false, Option, none, some, [], ◌∷◌, if◌then◌else◌}
use go_websocket.Prelude.Text.{Str, codes, str_eq}
use go_websocket.Client.{Ref, store, new_client}
use go_websocket.Manager.{add_client2_system_client}
use go_websocket.World.{
  Frame, conn_suc, system_id_error, World, Progress, done, send_connect, send_dis_connect,
  write_frame, close_socket,
}

-- What the handler reads of a request: the form values and the remote address.
pub record Handshake : Type 0 where
  pub system_id : Str
  pub token : Str
  pub remote_addr : Str

-- The text of ConnSuc in ConnRender of api/controller.go, in UTF-8.
abbrev pub link_text : Str
link_text = 232 ∷ 191 ∷ 158 ∷ 230 ∷ 142 ∷ 165 ∷ 230 ∷ 136 ∷ 144 ∷ 229 ∷ 138 ∷ 159 ∷ []

-- A write whose error is dropped.
abbrev pub try_write : (ℕ → Frame → Bool) → ℕ → Frame → World → World
try_write write_json socket frame w =
    if write_json socket frame then write_frame socket frame w else w

module _ (write_json : ℕ → Frame → Bool) where
  -- Run from where the id is known. The goroutine that reads the socket is `read_round` below.
  unfoldable pub admit : ℕ → Str → Str → ℕ → World → Progress World
  admit now client_id remote_addr socket w =
      let r = w.next_client in
      let c = new_client now client_id remote_addr client_id socket in
      let v = record w {
        heap = store r c w.heap;
        next_client = r + 1;
        manager = add_client2_system_client client_id c r w.manager;
      } in
      let link = conn_suc (codes "Link") link_text in
      if write_json socket link
      then send_connect r (write_frame socket link v)
      else done (close_socket socket v)

  -- Controller.Run; `upgraded` is the socket that Upgrade makes, if it succeeds.
  unfoldable pub run : ℕ → Option ℕ → Handshake → World → Progress World
  run now none h w = done w
  run now (some socket) h w =
      let id = if str_eq h.system_id [] then h.token else h.system_id in
      if str_eq id []
      then done (close_socket socket (try_write write_json socket system_id_error w))
      else admit now id h.remote_addr socket w

-- What ReadMessage gives: a message, whose JSON has a `Type` or not, or an error, where the
-- message type is -1, that of a ping, or another.
pub data Received : Type 0 where
  message : Option Str → Received
  -- a close with one of the three codes that the loop expects
  closed_as_expected : Received
  failed : Received
  ping_failed : Received

-- What the loop does next.
pub data Next : Type 0 where
  reads_on : World → Next
  ends : Progress World → Next

abbrev pub is_keep_live : Option Str → Bool
is_keep_live none = false
is_keep_live (some kind) = str_eq kind (codes "KeepLive")

-- One round of the loop of Client.Read. After an error on a ping `receive` is empty, so its JSON
-- has no `Type`.
unfoldable pub read_round : (ℕ → Frame → Bool) → Ref → Received → World → Next
read_round write_json r (message kind) w =
    if is_keep_live kind
    then reads_on
        (try_write write_json (w.heap r).socket (conn_suc (codes "KeepLive") (codes "Succeed")) w)
    else reads_on w
read_round write_json r closed_as_expected w = ends (send_dis_connect r w)
read_round write_json r failed w = ends (done w)
read_round write_json r ping_failed w = reads_on w
