-- ===== src/Manager/Shared.antt =====
-- The inner maps of ClientIdMap (servers/clientmanager.go) as what they are in Go: pointers into a store,
-- which AllClient and GetByClientId give away. AddClient is its change of ClientIdMap here.
pub mod Laws
pub mod Refines
use go_websocket.Prelude.{ℕ, ◌+◌, ◌==◌, Option, none, some, List, [], ◌∷◌, if◌then◌else◌}
use go_websocket.Prelude.Text.{Str}
use go_websocket.Prelude.Dict.{Dict, lookup, insert, erase}
use go_websocket.Prelude.Result.{Result, ok, err, client_missing}
use go_websocket.Client.{Client, Ref}
use go_websocket.Manager.{is_app, copy_entries}

abbrev pub MapRef : Type 0
MapRef = ℕ

-- ClientIdMap, the maps in the store, and the pointer that the next `make` gives.
pub record Maps : Type 0 where
  pub client_id_map : Dict MapRef
  pub cells : MapRef → Dict Ref
  pub next_map : MapRef

abbrev pub put_cell : MapRef → Dict Ref → (MapRef → Dict Ref) → MapRef → Dict Ref
put_cell p d cells q = if p == q then d else cells q

abbrev pub write_map : MapRef → Dict Ref → Maps → Maps
write_map p d s = record s { cells = put_cell p d s.cells }

-- make(map[string]*Client), with what is written into it at once.
abbrev pub make_map : Dict Ref → Maps → Maps
make_map d s = record s { cells = put_cell s.next_map d s.cells; next_map = s.next_map + 1 }

-- The entries of ClientIdMap, with their maps.
abbrev pub contents : (MapRef → Dict Ref) → Dict MapRef → Dict (Dict Ref)
contents cells [] = []
contents cells ((id, p) ∷ d) = (id, cells p) ∷ contents cells d

-- AddClient: an APP_ id gets a new map, another id the one that it has, or else a new one.
unfoldable pub add_client_shared : Client → Ref → Maps → Maps
add_client_shared c r s =
    if is_app c.client_id
    then record (make_map ((c.addr, r) ∷ []) s) {
      client_id_map = insert c.client_id s.next_map (erase c.client_id s.client_id_map);
    }
    else (elim (lookup c.client_id s.client_id_map) [
      | some p ↦ write_map p (insert c.addr r (s.cells p)) s
      | none ↦ record (make_map ((c.addr, r) ∷ []) s) {
        client_id_map = insert c.client_id s.next_map s.client_id_map;
      }
    ])

-- The loop of AllClient. For an id that the result does not have it makes a map, enters the old one
-- into the result, and copies into the new one.
unfoldable pub all_entries_shared : Dict MapRef → Dict MapRef → Maps → Dict MapRef × Maps
all_entries_shared [] result s = (result, s)
all_entries_shared ((key, value) ∷ rest) result s = elim (lookup key result) [
  | none ↦
      all_entries_shared rest (insert key value result)
        (make_map (copy_entries (s.cells value) []) s)
  | some p ↦
      all_entries_shared rest result (write_map p (copy_entries (s.cells value) (s.cells p)) s)
]

unfoldable pub all_client_shared : Maps → Dict MapRef × Maps
all_client_shared s = all_entries_shared s.client_id_map [] s

unfoldable pub get_by_client_id_shared : Str → Maps → Result (MapRef × Maps)
get_by_client_id_shared id s = elim (lookup id s.client_id_map) [
  | none ↦ err client_missing
  | some p ↦ ok (s.next_map, make_map (copy_entries (s.cells p) []) s)
]
