-- ===== src/System.antt =====
-- The running server: what its goroutines and the outside can do, one action at a time. An action
-- runs under the locks that the code holds, up to where it ends, waits at a full channel or panics.
pub mod Bound
pub mod Safe
pub mod Sends
pub mod Loops
pub mod Actions
pub mod Invariant
pub mod Journey
pub mod Listing
pub mod Queues
pub mod Writes
pub mod Closing
pub mod Kicking
pub mod Broadcasts
pub mod Dropped
pub mod Table
pub mod Owners
pub mod Lonely
pub mod GroupSends
use mathlib.Core.Option
use go_websocket.Prelude.{
  ℕ, zero, suc, Bool, Option, none, some, List, [], ◌∷◌, ◌≡◌, ◌++◌, ltb, if◌then◌else◌,
}
use go_websocket.Prelude.Text.{Str}
use go_websocket.Prelude.Dict.{Dict}
use go_websocket.Prelude.Int.{ℤ}
use go_websocket.Setting.{CommonConf, Global}
use go_websocket.Crypto.{Cipher}
use go_websocket.Client.{Ref, Heap}
use go_websocket.Manager.{new_client_manager}
use go_websocket.World.{
  ClientInfo, Frame, Task, World, Progress, done, blocked, crashed, ◌>>=◌, send_connect,
  send_dis_connect, send_message2_local_client,
}
use go_websocket.Server.{
  send_message2_client, close_client, send_message2_group, send_message2_system, run_task,
  write_message, ping_timer, render_all, ping_entries, ping_clients,
}
use go_websocket.Events.{
  start_connect, start_dis_connect, add_client2_local_group, send_message2_local_group,
  send_message2_local_system, send_to_all, local_group_rounds,
}
use go_websocket.Connect.{Handshake, run, Received, Next, reads_on, ends, read_round}

-- The libraries that the server calls.
pub record Libraries : Type 0 where
  pub cipher : Cipher
  pub marshal : List (Str × Str) → Str
  pub uuid : Str → Str
  pub write_json : ℕ → Frame → Bool
  pub write_control : ℕ → Bool

-- What a goroutine has still to do that waits at a full channel.
pub data Rest : Type 0 where
  -- the handshake: to send its client to the channel Connect
  links : Ref → Rest
  -- Read and CloseLocalClient: to send a client to DisConnect
  queues : Ref → Rest
  -- WriteMessage: the same, and then the connections of the message's client that are left
  writes_on : ClientInfo → Ref → Dict Ref → Rest
  -- PingTimer: the same, and then the connections of the client and the clients that are left
  pings_on : Ref → Dict Ref → Dict (Dict Ref) → Rest
  -- SendMessage2LocalSystem: to send the message to the channel to the clients, and then to the ids
  -- that are left; SendMessage2LocalClient has none left
  sends_on : ClientInfo → List Str → Rest
  -- SendMessage2LocalGroup: the same, and then the rounds that are left, from an index of the slice
  rounds_on : Str → ClientInfo → ℕ → ℕ → List Str → Rest

pub data Action : Type 0 where
  -- a request to /ws, at a time, with the socket that the upgrade makes
  connects : ℕ → Option ℕ → Handshake → Action
  -- a round of the loop that reads the socket of a client
  reads : Ref → Received → Action
  -- the loop Start takes from the channel Connect, or from DisConnect
  takes_connect takes_dis_connect : Action
  -- the calls of the HTTP interface
  sends : ClientInfo → Action
  closes : Str → Str → Str → Action
  sends_group : Str → Str → Str → Str → ℤ → Str → Option Str → Action
  sends_system : Str → Str → Str → ℤ → Str → Str → Action
  -- the methods for groups on this machine
  joins : Str → Ref → Str → Str → Action
  sends_local_group : Str → Str → ClientInfo → Action
  sends_local_system : Str → ClientInfo → Action
  -- a goroutine that was started runs: the one at this place
  runs : ℕ → Action
  -- WriteMessage takes a message
  writes : Action
  -- the ticker of PingTimer fires
  pings : Action
  -- a goroutine that waited at a full channel tries it again and goes on
  resumes : Rest → Action

abbrev pub or_waits : World → Option World → Progress World
or_waits w none = blocked w
or_waits w (some v) = done v

abbrev pub read_end : Next → Progress World
read_end (reads_on w) = done w
read_end (ends p) = p

-- WriteMessage waits at the empty channel.
unfoldable pub take_message : (ℕ → Frame → Bool) → List ClientInfo → World → Progress World
take_message write_json [] w = blocked w
take_message write_json (info ∷ rest) w =
    write_message write_json info (record w { to_client_chan = rest })

-- The task at a place, and the others.
unfoldable pub pick : ℕ → List Task → Option (Task × List Task)
pick i [] = none
pick zero (t ∷ ts) = some (t, ts)
pick (suc i) (t ∷ ts) = Option.map (λ (u, us). (u, t ∷ us)) (pick i ts)

-- A task that waits stays among the tasks.
abbrev pub or_stays : World → Progress World → Progress World
or_stays w (done v) = done v
or_stays w (blocked v) = blocked w
or_stays w crashed = crashed

abbrev pub run_picked : World → Option (Task × List Task) → Progress World
run_picked w none = done w
run_picked w (some (task, rest)) = or_stays w (run_task task (record w { spawned = rest }))

module _ (lib : Libraries) where
  -- The handshake waits with a client that it has made.
  unfoldable pub resume : Rest → World → Progress World
  resume (links r) w = if ltb r w.next_client then send_connect r w else done w
  resume (queues r) w = send_dis_connect r w
  resume (writes_on info r entries) w =
      send_dis_connect r w >>= λ v. render_all lib.write_json info entries v
  resume (pings_on r entries clients) w = send_dis_connect r w >>= λ v.
      ping_entries lib.write_control entries v >>= λ u. ping_clients lib.write_control clients u
  resume (sends_on info ids) w = send_message2_local_client info w >>= λ v. send_to_all info ids v
  resume (rounds_on group_key info rounds index view) w = send_message2_local_client info w >>= λ v.
      local_group_rounds group_key info rounds index view v

  unfoldable pub perform : Action → World → Progress World
  perform (connects now socket h) w = run lib.write_json now socket h w
  perform (reads r received) w = read_end (read_round lib.write_json r received w)
  perform takes_connect w = or_waits w (start_connect lib.marshal lib.uuid w)
  perform takes_dis_connect w = or_waits w (start_dis_connect lib.marshal lib.uuid w)
  perform (sends info) w = send_message2_client lib.cipher info w
  perform (closes client_id system_id addr) w = close_client lib.cipher client_id system_id addr w
  perform (sends_group message_id system_id user group_name code msg content) w =
      done (send_message2_group message_id system_id user group_name code msg content w)
  perform (sends_system message_id system_id user code msg content) w =
      send_message2_system message_id system_id user code msg content w
  perform (joins group_name r user_id extend) w =
      done (add_client2_local_group lib.marshal lib.uuid group_name r user_id extend w)
  perform (sends_local_group system_id group_name info) w =
      send_message2_local_group system_id group_name info w
  perform (sends_local_system system_id info) w = send_message2_local_system system_id info w
  perform (runs i) w = run_picked w (pick i w.spawned)
  perform writes w = take_message lib.write_json w.to_client_chan w
  perform pings w = ping_timer lib.write_control w
  perform (resumes rest) w = resume rest w

-- The server as it starts.
abbrev pub initial : CommonConf → Global → Heap → World
initial common global heap = record {
  common = common;
  global = global;
  manager = new_client_manager;
  heap = heap;
  next_client = 0;
  to_client_chan = [];
  spawned = [];
  calls = [];
  frames = [];
  closed = [];
}

-- The states that a server comes to from `s`. What the libraries answer may differ from action to
-- action: a socket that a ping reached may be dead at the next one. An action that waits leaves the
-- state that it reached, and `resumes` takes up what its goroutine has still to do, then or after
-- other actions. Any rest can be resumed at any time, so that these are the states of every run of
-- the goroutines, and more. A task that waits stays among those that were started and runs again.
pub data Reach (s : World) : World → Type 0 where
  here : Reach s s
  next :
      {w v : World} (lib : Libraries) (a : Action)
      → Reach s w
      → perform lib a w ≡ done v
      → Reach s v
  waits :
      {w v : World} (lib : Libraries) (a : Action)
      → Reach s w
      → perform lib a w ≡ blocked v
      → Reach s v
