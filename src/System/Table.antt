-- ===== src/System/Table.antt =====
-- What ClientIdMap of servers/clientmanager.go holds of the connections, as a function from a client id
-- and an address, and what each action of the server makes of it.
pub mod Keeps
pub mod Methods
pub mod Rule
pub mod Refines
pub mod History
use go_websocket.Prelude.{Option, none, some, List, [], ◌∷◌, if◌then◌else◌}
use go_websocket.Prelude.Text.{Str, str_eq}
use go_websocket.Prelude.Dict.{Dict, lookup}
use go_websocket.Client.{Ref, Heap}
use go_websocket.Manager.{is_app}
use go_websocket.World.{World}
use go_websocket.Connect.{Handshake}
use go_websocket.System.{Libraries, Action, connects, takes_connect, takes_dis_connect}

abbrev pub Table : Type 0
Table = Str → Str → Option Ref

abbrev pub in_entry : Str → Option (Dict Ref) → Option Ref
in_entry addr none = none
in_entry addr (some d) = lookup addr d

abbrev pub at : Dict (Dict Ref) → Table
at m id addr = in_entry addr (lookup id m)

-- The connections of a server.
abbrev pub table : World → Table
table w = at w.manager.client_id_map

-- No connection.
abbrev pub empty : Table
empty id addr = none

pub data Effect : Type 0 where
  stays : Effect
  -- a connection comes, under an id and an address
  enters : Str → Str → Ref → Effect
  -- where a connection stands under an id and an address, the connection of the id whose address is
  -- the id itself goes, if there is one; the one under the address stays
  drops : Str → Str → Effect

-- An APP_ id has one connection, the last one that came. What goes by `drops` is not the connection
-- under the address: delClientIdMap finds the client by the address, but deletes the key `client_id`
-- of the map from addresses.
unfoldable pub apply : Effect → Table → Table
apply stays t = t
apply (enters id addr r) t = λ j a.
    if str_eq id j
    then (if str_eq addr a then some r else if is_app id then none else t j a)
    else t j a
apply (drops id addr) t = λ j a. elim (t id addr) [
  | none ↦ t j a
  | some r ↦ if str_eq id j then (if str_eq id a then none else t j a) else t j a
]

-- A request to /ws with a system id, or with a token in its place.
abbrev pub comes : Handshake → Ref → Effect
comes h r =
    let id = if str_eq h.system_id [] then h.token else h.system_id in
    if str_eq id [] then stays else enters id h.remote_addr r

abbrev pub first_enters : Heap → List Ref → Effect
first_enters heap [] = stays
first_enters heap (r ∷ rest) = enters (heap r).client_id (heap r).addr r

abbrev pub first_drops : Heap → List Ref → Effect
first_drops heap [] = stays
first_drops heap (r ∷ rest) =
    if str_eq (heap r).client_id [] then stays else drops (heap r).client_id (heap r).addr

-- Only a handshake, and the loop Start where it takes a client from a channel, change the table.
unfoldable pub effect : Action → World → Effect
effect (connects now (some socket) h) w = comes h w.next_client
effect takes_connect w = first_enters w.heap w.manager.connect
effect takes_dis_connect w = first_drops w.heap w.manager.dis_connect
effect _ w = stays
