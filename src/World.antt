-- ===== src/World.antt =====
-- The state that the package `servers` shares (servers/server.go, servers/client.go and the parts
-- of servers/clientmanager.go that send): the manager, the clients it points to, the channels, the
-- goroutines that were started and wait, and what went out.
use go_websocket.Prelude.{ℕ, Option, List, [], ◌∷◌, ◌++◌, ltb, length, if◌then◌else◌}
use go_websocket.Prelude.Text.{Str}
use go_websocket.Prelude.Int.{ℤ}
use go_websocket.Client.{Ref, Heap}
use go_websocket.Setting.{CommonConf, Global}
use go_websocket.Manager.{ClientManager}
use go_websocket.Rpc.{Call}

-- clientInfo
pub record ClientInfo : Type 0 where
  pub client_id : Str
  pub send_user_id : Str
  pub message_id : Str
  pub code : Str
  pub msg : Str
  pub content : Option Str

-- What is written to a socket as JSON. RetData keeps its fields SendUserId and Msg out of the JSON.
pub data Frame : Type 0 where
  ret_data : Str → Str → Option Str → Frame
  conn_suc : Str → Str → Frame
  system_id_error : Frame

-- A goroutine that was started and has not run.
pub data Task : Type 0 where
  local_client : ClientInfo → Task
  group_broadcast : Str → Str → Str → Str → ℤ → Str → Option Str → Task

pub record World : Type 0 where
  pub common : CommonConf
  pub global : Global
  pub manager : ClientManager
  pub heap : Heap
  -- the pointer that the next allocation gives
  pub next_client : Ref
  pub to_client_chan : List ClientInfo
  pub spawned : List Task
  pub calls : List Call
  pub frames : List (ℕ × Frame)
  pub closed : List ℕ

-- How far a goroutine comes: to the end, to a channel that is full, where it waits with the state
-- as it is, or to a panic that nothing recovers.
pub data Progress {ℓ} (A : Type ℓ) : Type ℓ where
  done : A → Progress A
  blocked : A → Progress A
  crashed : Progress A

infixl 5 ◌>>=◌
abbrev pub ◌>>=◌ {ℓ} : {A : Type ℓ} → Progress A → (A → Progress A) → Progress A
done a >>= f = f a
blocked a >>= f = blocked a
crashed >>= f = crashed

-- The capacities that `make` gives; `init` makes ToClientChan anew.
abbrev pub to_client_cap : ℕ
to_client_cap = 1000

abbrev pub connect_cap : ℕ
connect_cap = 10000

unfoldable pub send_connect : Ref → World → Progress World
send_connect r w =
    if ltb (length w.manager.connect) connect_cap
    then done (record w { manager = record w.manager { connect = w.manager.connect ++ r ∷ [] } })
    else blocked w

unfoldable pub send_dis_connect : Ref → World → Progress World
send_dis_connect r w =
    if ltb (length w.manager.dis_connect) connect_cap
    then done
        (record w { manager = record w.manager { dis_connect = w.manager.dis_connect ++ r ∷ [] } })
    else blocked w

-- SendMessage2LocalClient
unfoldable pub send_message2_local_client : ClientInfo → World → Progress World
send_message2_local_client info w =
    if ltb (length w.to_client_chan) to_client_cap
    then done (record w { to_client_chan = w.to_client_chan ++ info ∷ [] })
    else blocked w

abbrev pub spawn : Task → World → World
spawn task w = record w { spawned = w.spawned ++ task ∷ [] }

abbrev pub write_frame : ℕ → Frame → World → World
write_frame socket frame w = record w { frames = w.frames ++ (socket, frame) ∷ [] }

abbrev pub close_socket : ℕ → World → World
close_socket socket w = record w { closed = w.closed ++ socket ∷ [] }
