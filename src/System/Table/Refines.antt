-- ===== src/System/Table/Refines.antt =====
-- What the actions of the running server make of the table of connections, against their effects.
use go_websocket.Prelude.{
  ◌≡◌, refl, ap, ◌∙◌, ℕ, false, Bool, none, some, List, [], ◌∷◌, arith, if◌then◌else◌, Bool-cases,
  inl, inr,
}
use go_websocket.Prelude.Text.{Str, str_eq}
use go_websocket.Client.{Ref, new_client}
use go_websocket.Manager.{ClientManager, add_client2_system_client, del_client}
use go_websocket.World.{Frame, World, Progress}
use go_websocket.Connect.{Handshake, admit, run}
use go_websocket.Events.{
  event_connect, event_disconnect, take_connect, take_dis_connect, start_connect, start_dis_connect,
}
use go_websocket.System.{
  Libraries, Action, connects, reads, takes_connect, takes_dis_connect, sends, closes, sends_group,
  sends_system, joins, sends_local_group, sends_local_system, runs, writes, pings, resumes, perform,
  or_waits,
}
use go_websocket.System.Table.{
  Table, at, table, stays, enters, apply, comes, first_enters, first_drops, effect,
}
use go_websocket.System.Table.Methods.{at-add_client, at-del_client}
use go_websocket.System.Table.Keeps
use go_websocket.System.Table.Rule.{Ends-if, Ends-map, changes, perform_rule}

-- The states in which an action can leave the server have the table.
abbrev pub Shows : Table → Progress World → Type 0
Shows t p = Keeps.Ends (λ v. table v ≡ t) p

-- What keeps ClientIdMap keeps the table.
Has-Shows :
    (m : ClientManager) (p : Progress World)
    → Keeps.Ends (Keeps.Has m) p
    → Shows (at m.client_id_map) p
Has-Shows m p h = Ends-map (Keeps.Has m) (λ v. table v ≡ at m.client_id_map) p (λ v k. ap at k.0) h

module _ (write_json : ℕ → Frame → Bool) where
  admit-Shows :
      (now : ℕ) (id addr : Str) (socket : ℕ) (w : World)
      → Shows
          (apply (enters id addr w.next_client) (table w))
          (admit write_json now id addr socket w)
  unfolding admit add_client2_system_client new_client
  admit-Shows now id addr socket w =
      let c = new_client now id addr id socket in
      let e = at-add_client c w.next_client w.manager in
      let m = add_client2_system_client id c w.next_client w.manager in
      Ends-if _ (write_json socket _) _ _
        (Ends-map (λ v. table v ≡ at m.client_id_map) _ _ (λ v k. k ∙ e)
          (Has-Shows m _ (Keeps.send_connect-Has m w.next_client _ (refl, refl))))
        e

  run-Shows :
      (now : ℕ) (socket : ℕ) (h : Handshake) (w : World)
      → Shows (apply (comes h w.next_client) (table w)) (run write_json now (some socket) h w)
  unfolding run apply
  run-Shows now socket h w =
      elim (Bool-cases (str_eq (if str_eq h.system_id [] then h.token else h.system_id) [])) [
        | inl e ↦ rw e (ground arith)
        | inr e ↦ rw e (admit-Shows now _ h.remote_addr socket w)
      ]

module _ (marshal : List (Str × Str) → Str) (uuid : Str → Str) where
  take_connect-Shows :
      (l : List Ref) (w : World)
      → Shows (apply (first_enters w.heap l) (table w)) (or_waits w (take_connect marshal uuid l w))
  unfolding take_connect event_connect apply
  take_connect-Shows [] w = refl
  take_connect-Shows (r ∷ rest) w = at-add_client (w.heap r) r _

  take_dis_connect-Shows :
      (l : List Ref) (w : World)
      → Shows
          (apply (first_drops w.heap l) (table w))
          (or_waits w (take_dis_connect marshal uuid l w))
  unfolding take_dis_connect event_disconnect apply
  take_dis_connect-Shows [] w = refl
  take_dis_connect-Shows (r ∷ rest) w =
      let c = w.heap r in
      let m = record w.manager { dis_connect = rest } in
      ap at
        (Keeps.tell_groups-Has (del_client (some c) m) marshal uuid c c.group_list _ _
          (refl, refl)).0
      ∙ at-del_client c m

module _ (lib : Libraries) where
  unchanged :
      (a : Action) (w : World) → changes a ≡ false → Shows (apply stays (table w)) (perform lib a w)
  unfolding apply
  unchanged a w f =
      perform_rule lib (λ v. table v ≡ table w) a w (λ v h. ap at h.0)
        (λ e. absurd (ground (arith, e, f)))

  -- Whatever the action and the state of the server, the connections in ClientIdMap are changed by the
  -- effect of the action, where the action ends and where it waits: a handshake that gives a system id
  -- or a token and a client that Start takes from Connect enter under their id and address; a client
  -- with an id that Start takes from DisConnect makes, if a connection stands under its id and address,
  -- the connection of its id go whose address is the id itself, so that its own stays unless the two
  -- are the same; every other action leaves all connections as they are.
  pub perform-refines-table :
      (a : Action) (w : World) → Shows (apply (effect a w) (table w)) (perform lib a w)
  unfolding perform effect start_connect start_dis_connect run apply
  perform-refines-table (connects now none h) w = refl
  perform-refines-table (connects now (some socket) h) w = run-Shows lib.write_json now socket h w
  perform-refines-table takes_connect w =
      take_connect-Shows lib.marshal lib.uuid w.manager.connect w
  perform-refines-table takes_dis_connect w =
      take_dis_connect-Shows lib.marshal lib.uuid w.manager.dis_connect w
  perform-refines-table (reads r received) w = unchanged (reads r received) w refl
  perform-refines-table (sends info) w = unchanged (sends info) w refl
  perform-refines-table (closes id system addr) w = unchanged (closes id system addr) w refl
  perform-refines-table (sends_group mid system user group code msg content) w =
      unchanged (sends_group mid system user group code msg content) w refl
  perform-refines-table (sends_system mid system user code msg content) w =
      unchanged (sends_system mid system user code msg content) w refl
  perform-refines-table (joins name r user extend) w = unchanged (joins name r user extend) w refl
  perform-refines-table (sends_local_group system name info) w =
      unchanged (sends_local_group system name info) w refl
  perform-refines-table (sends_local_system system info) w =
      unchanged (sends_local_system system info) w refl
  perform-refines-table (runs i) w = unchanged (runs i) w refl
  perform-refines-table writes w = unchanged writes w refl
  perform-refines-table pings w = unchanged pings w refl
  perform-refines-table (resumes rest) w = unchanged (resumes rest) w refl
