-- ===== src/Client.antt =====
-- servers/client.go: a connection, and the heap of the clients that the program points to.
use go_websocket.Prelude.{ℕ, Bool, false, List, [], ◌==◌, if◌then◌else◌}
use go_websocket.Prelude.Text.{Str}

-- A socket of the websocket library is a number.
pub record Client : Type 0 where
  pub addr : Str
  pub client_id : Str
  pub system_id : Str
  pub socket : ℕ
  pub connect_time : ℕ
  pub is_deleted : Bool
  pub user_id : Str
  pub extend : Str
  pub group_list : List Str

-- A `*Client`.
abbrev pub Ref : Type 0
Ref = ℕ

abbrev pub Heap : Type 0
Heap = Ref → Client

-- A write through a pointer.
abbrev pub store : Ref → Client → Heap → Heap
store r c heap q = if r == q then c else heap q

-- `now` is `time.Now().Unix()`.
unfoldable pub new_client : ℕ → Str → Str → Str → ℕ → Client
new_client now client_id addr system_id socket = record {
  addr = addr;
  client_id = client_id;
  system_id = system_id;
  socket = socket;
  connect_time = now;
  is_deleted = false;
  user_id = [];
  extend = [];
  group_list = [];
}
