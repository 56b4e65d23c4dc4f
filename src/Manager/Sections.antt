-- ===== src/Manager/Sections.antt =====
-- The methods of servers/clientmanager.go that take several locks, one after the other: what stands
-- between two of them is not protected, and the calls of other goroutines come between.
pub mod Laws
use go_websocket.Prelude.{ℕ, ◌==◌, some, List, [], ◌∷◌, ◌++◌, if◌then◌else◌}
use go_websocket.Prelude.Text.{Str, str_eq}
use go_websocket.Prelude.Dict.{insert, values}
use go_websocket.Client.{Client, Ref}
use go_websocket.Util.{gen_group_key}
use go_websocket.Manager.Removal.{Outcome, returned, panicked}
use go_websocket.Manager.{
  ClientManager, add_client, del_client_id_map, del_group_client, del_system_client, recovered,
  add_client2_system_client, del_client,
}

-- AddClient2SystemClient and DelClient.
pub data Method : Type 0 where
  adds : Str → Client → Ref → Method
  deletes : Client → Method

-- What the calls do under a lock, but for their first section.
pub data Section : Type 0 where
  -- the rest of AddClient2SystemClient, under SystemClientsLock
  enters_system : Str → Client → Section
  -- delGroupClient, under GroupLock
  leaves_group : Str → Str → Section
  -- delSystemClient, under SystemClientsLock
  leaves_system : Client → Section

unfoldable pub section : Section → ClientManager → Outcome ClientManager
section (enters_system system_id c) m = returned (record m {
  system_clients =
      insert system_id (values system_id m.system_clients ++ c.client_id ∷ []) m.system_clients;
})
section (leaves_group group_key client_id) m = del_group_client group_key client_id m
section (leaves_system c) m = del_system_client c m

-- The first section, under ClientIdMapLock: AddClient, or delClientIdMap.
unfoldable pub first_section : Method → ClientManager → ClientManager
first_section (adds system_id c r) m = add_client c r m
first_section (deletes c) m =
    if str_eq c.client_id [] then m else del_client_id_map c.client_id c.addr m

-- The sections of the loop over the groups, and then that of the system.
unfoldable pub group_sections : Client → List Str → List Section
group_sections c [] = leaves_system c ∷ []
group_sections c (group_name ∷ names) =
    leaves_group (gen_group_key c.system_id group_name) c.client_id ∷ group_sections c names

unfoldable pub others : Method → List Section
others (adds system_id c r) = enters_system system_id c ∷ []
others (deletes c) = if str_eq c.client_id [] then [] else group_sections c c.group_list

-- A call on its own.
unfoldable pub whole : Method → ClientManager → ClientManager
whole (adds system_id c r) m = add_client2_system_client system_id c r m
whole (deletes c) m = del_client (some c) m

-- Where a goroutine is in its call: before it, or with these sections to go.
pub data Place : Type 0 where
  waits : Place
  within : List Section → Place

-- The manager, the place of each goroutine in its call, and the goroutines that have begun, the last one first_section.
pub record Running : Type 0 where
  pub manager : ClientManager
  pub place : ℕ → Place
  pub begun : List ℕ

abbrev pub moved : ℕ → Place → (ℕ → Place) → ℕ → Place
moved i p place j = if i == j then p else place j

-- A panic in a section ends the call: it is recovered.
abbrev pub after_section : List Section → Outcome ClientManager → List Section
after_section rest (returned m) = rest
after_section rest (panicked m) = []

module _ (method : ℕ → Method) where
  -- The next section of a goroutine that is at a place.
  abbrev pub advance_from : Place → ℕ → Running → Running
  advance_from waits i s = record {
    manager = first_section (method i) s.manager;
    place = moved i (within (others (method i))) s.place;
    begun = i ∷ s.begun;
  }
  advance_from (within []) i s = s
  advance_from (within (x ∷ rest)) i s =
      let o = section x s.manager in
      record s { manager = recovered o; place = moved i (within (after_section rest o)) s.place }

  unfoldable pub advance : ℕ → Running → Running
  advance i s = advance_from (s.place i) i s

  -- The goroutines take steps in some order.
  unfoldable pub interleave : List ℕ → Running → Running
  interleave [] s = s
  interleave (i ∷ schedule) s = interleave schedule (advance i s)

  -- Their calls as wholes, in the order in which they began.
  unfoldable pub in_order : List ℕ → ClientManager → ClientManager
  in_order [] m = m
  in_order (i ∷ begun) m = whole (method i) (in_order begun m)

-- A manager before any of the calls.
abbrev pub before : ClientManager → Running
before m = record { manager = m; place = λ i. waits; begun = [] }
