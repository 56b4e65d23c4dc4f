-- ===== src/Manager/Shared/Laws.antt =====
-- The pointers that AllClient and GetByClientId of servers/clientmanager.go give away.
use go_websocket.Prelude.{
  ◌<◌, ◌≡◌, refl, sym, ap, ◌∙◌, ◌==◌, ==_iff, true, false, none, some, [], ◌∷◌, ◌++◌, arith,
  append_assoc, append-nil,
}
use go_websocket.Prelude.Text.{Str}
use go_websocket.Prelude.Dict.{Dict, lookup, insert, NodupKeys, insert_fresh}
use go_websocket.Prelude.Result.{ok}
use go_websocket.Client.{Client, Ref}
use go_websocket.Manager.{is_app, copy_entries}
use go_websocket.Manager.Lookups.{lookup-append_fresh, copy_entries_all}
use go_websocket.Manager.Shared.{
  MapRef, Maps, make_map, add_client_shared, all_entries_shared, all_client_shared,
  get_by_client_id_shared,
}

-- Every id has a map of its own, which was made.
pub record IsApart (s : Maps) : Type 0 where
  pub made : (id : Str) (p : MapRef) → lookup id s.client_id_map ≡ some p → p < s.next_map
  pub apart :
      (id j : Str) (p : MapRef)
      → lookup id s.client_id_map ≡ some p
      → lookup j s.client_id_map ≡ some p
      → id ≡ j

pub self : (p : MapRef) → (p == p) ≡ true
self p = (==_iff p p).1 refl

new_entry :
    (k : Str) (v : MapRef) (from to : Dict MapRef) (s : Maps)
    → lookup k to ≡ none
    → all_entries_shared ((k, v) ∷ from) to s
      ≡ all_entries_shared from (to ++ (k, v) ∷ []) (make_map (copy_entries (s.cells v) []) s)
unfolding all_entries_shared
new_entry k v from to s h =
    rw (h, all_entries_shared)
      (ap (λ l. all_entries_shared from l (make_map (copy_entries (s.cells v) []) s))
        (insert_fresh k v to h))

-- The loop of AllClient enters the pointers themselves, and touches new maps only.
all_onto :
    (from to : Dict MapRef) (s : Maps)
    → NodupKeys (to ++ from)
    → ((all_entries_shared from to s).0 ≡ to ++ from)
      × ((q : MapRef) → q < s.next_map → (all_entries_shared from to s).1.cells q ≡ s.cells q)
      × ((all_entries_shared from to s).1.client_id_map ≡ s.client_id_map)
unfolding all_entries_shared
all_onto [] to s n = (sym (append-nil to), λ q h. refl, refl)
all_onto ((k, v) ∷ from) to s n =
    let fresh = lookup-append_fresh k to k v from n in
    let a : (to ++ (k, v) ∷ []) ++ from ≡ to ++ (k, v) ∷ from =
      append_assoc to ((k, v) ∷ []) from in
    let t = make_map (copy_entries (s.cells v) []) s in
    let (x, y, z) = all_onto from (to ++ (k, v) ∷ []) t (rw a n) in
    rw (new_entry k v from to s fresh) (
      x ∙ a,
      λ q h. y q (omega arith) ∙ (let other : (s.next_map == q) ≡ false = ground arith in rw other),
      z,
    )

-- AllClient does not copy: its result holds the manager's own maps, so that a client that AddClient
-- enters later, under an id that is connected and no APP_ id, stands in the result too. What
-- GetByClientId returned is a copy, and stays as it was. The ids have maps of their own, and no map
-- has a key twice.
pub all_client_shares :
    (c : Client) (r : Ref) (s : Maps)
    → IsApart s
    → NodupKeys s.client_id_map
    → is_app c.client_id ≡ false
    → (p : MapRef) → lookup c.client_id s.client_id_map ≡ some p
    → NodupKeys (s.cells p)
    → ((all_client_shared s).0 ≡ s.client_id_map)
      × ((add_client_shared c r (all_client_shared s).1).cells p ≡ insert c.addr r (s.cells p))
      × ((q : MapRef) × (t : Maps) × (get_by_client_id_shared c.client_id s ≡ ok (q, t))
          × (t.cells q ≡ s.cells p)
          × ((add_client_shared c r t).cells q ≡ s.cells p))
unfolding all_client_shared get_by_client_id_shared add_client_shared
all_client_shares c r s v n web p e m =
    let below = v.made c.client_id p e in
    let (x, y, z) = all_onto s.client_id_map [] s n in
    let other : (p == s.next_map) ≡ false = ground arith in
    let copied = copy_entries_all (s.cells p) m in
    (
      x,
      rw (web, z, e, self) (ap (insert c.addr r) (y p below)),
      (
        s.next_map,
        make_map (copy_entries (s.cells p) []) s,
        rw (e, get_by_client_id_shared) refl,
        rw self copied,
        rw (web, e, other, self) copied,
      ),
    )
