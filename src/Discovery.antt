-- ===== src/Discovery.antt =====
-- pkg/etcd/etcddis.go: a server finds the others of its cluster under a prefix of etcd, and follows
-- the changes there. The answers of etcd are arguments.
pub mod Laws
pub mod Puts
use go_websocket.Prelude.{ℕ, Option, none, some, List, [], ◌∷◌}
use go_websocket.Prelude.Text.{Str}
use go_websocket.Prelude.Dict.{insert, erase}
use go_websocket.Prelude.Result.{Result, ok, err, panic}
use go_websocket.Setting.{Global}

-- clientv3.Config, with the seconds of its DialTimeout.
pub record DialConfig : Type 0 where
  pub endpoints : List Str
  pub dial_timeout : ℕ

pub record ClientDis (C : Type 0) : Type 0 where
  pub client : C

-- NewClientDis; `new` is clientv3.New.
unfoldable pub new_client_dis :
    {C : Type 0} → (DialConfig → Result C) → List Str → Result (ClientDis C)
new_client_dis new addr = elim (new (record { endpoints = addr; dial_timeout = 5 })) [
  | ok client ↦ ok (record { client = client })
  | err x ↦ err x
  | panic ↦ panic
]

-- SetServiceList
unfoldable pub set_service_list : Str → Str → Global → Global
set_service_list key val g = record g { server_list = insert key val g.server_list }

-- DelServiceList
unfoldable pub del_service_list : Str → Global → Global
del_service_list key g = record g { server_list = erase key g.server_list }

-- An event of a watch.
pub data Event : Type 0 where
  put_event : Str → Str → Event
  delete_event : Str → Event

unfoldable pub handle_event : Event → Global → Global
handle_event (put_event key val) g = set_service_list key val g
handle_event (delete_event key) g = del_service_list key g

-- One response of the watch.
unfoldable pub handle_events : List Event → Global → Global
handle_events [] g = g
handle_events (ev ∷ events) g = handle_events events (handle_event ev g)

-- watcher, for the responses that the channel gives before it is closed.
unfoldable pub watcher : List (List Event) → Global → Global
watcher [] g = g
watcher (wresp ∷ rch) g = watcher rch (handle_events wresp g)

-- extractAddrs; a value may be nil.
unfoldable pub extract_addrs : List (Str × Option Str) → Global → Global × List Str
extract_addrs [] g = (g, [])
extract_addrs ((key, none) ∷ kvs) g = extract_addrs kvs g
extract_addrs ((key, some v) ∷ kvs) g =
    let (h, addrs) = extract_addrs kvs (set_service_list key v g) in (h, v ∷ addrs)

-- GetService, up to where it starts the watcher.
unfoldable pub get_service : Result (List (Str × Option Str)) → Global → Global × Result (List Str)
get_service (ok kvs) g = let (h, addrs) = extract_addrs kvs g in (h, ok addrs)
get_service (err x) g = (g, err x)
get_service panic g = (g, panic)
