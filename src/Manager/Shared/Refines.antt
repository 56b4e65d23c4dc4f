-- ===== src/Manager/Shared/Refines.antt =====
-- AddClient of servers/clientmanager.go by its writes through the pointers to the inner maps, against
-- AddClient on the values of the maps.
use go_websocket.Prelude.{
  ◌⊎◌, ◌<◌, ◌≡◌, ◌≢◌, refl, sym, ap, ◌∙◌, ◌==◌, ==_iff, true, false, inl, inr, Option, none, some,
  [], ◌∷◌, arith, Bool-cases, Option-cases,
}
use go_websocket.Prelude.Text.{Str, str_eq, str_eq_iff}
use go_websocket.Prelude.Dict.{Dict, lookup, insert, erase, lookup-insert, lookup-erase}
use go_websocket.Client.{Client, Ref}
use go_websocket.Manager.{ClientManager, is_app, add_client}
use go_websocket.Manager.Maps.{entry, lookup-add_client}
use go_websocket.Manager.Shared.{MapRef, Maps, write_map, make_map, add_client_shared}
use go_websocket.Manager.Shared.Laws.{IsApart, self}

-- The map of an id.
abbrev pub seen : Maps → Option MapRef → Option (Dict Ref)
seen s none = none
seen s (some p) = some (s.cells p)

abbrev pub view : Maps → Str → Option (Dict Ref)
view s id = seen s (lookup id s.client_id_map)

-- A map that is made is not one that was there, and a write is seen at its map only.
seen-make_map :
    (d : Dict Ref) (s : Maps) (o : Option MapRef)
    → ((p : MapRef) → o ≡ some p → p < s.next_map)
    → seen (make_map d s) o ≡ seen s o
seen-make_map d s none h = refl
seen-make_map d s (some p) h =
    let below = h p refl in let other : (s.next_map == p) ≡ false = ground arith in rw other

seen-write_map :
    (q : MapRef) (d : Dict Ref) (s : Maps) (o : Option MapRef)
    → o ≢ some q
    → seen (write_map q d s) o ≡ seen s o
seen-write_map q d s none h = refl
seen-write_map q d s (some p) h = elim (Bool-cases (q == p)) [
  | inl e ↦ absurd (h (ap some (sym ((==_iff q p).0 e))))
  | inr e ↦ rw e
]

-- The entry that AddClient makes on the shared maps.
entered :
    (c : Client) (r : Ref) (s : Maps) (m : ClientManager) (id : Str)
    → str_eq c.client_id id ≡ true
    → view s c.client_id ≡ lookup c.client_id m.client_id_map
    → view (add_client_shared c r s) id ≡ some (entry c r m)
unfolding add_client_shared
entered c r s m id e h = elim (Bool-cases (is_app c.client_id)) [
  | inl app ↦ rw (app, lookup-insert, e, self)
  | inr web ↦ elim (Option-cases (lookup c.client_id s.client_id_map)) [
    | inl none_yet ↦
        let f = sym h ∙ ap (seen s) none_yet in rw (web, none_yet, lookup-insert, e, self, f)
    | inr (p, there) ↦
        let same : c.client_id ≡ id = (str_eq_iff c.client_id id).0 e in
        let f = sym h ∙ ap (seen s) there in
        let g = ap (λ j. lookup j s.client_id_map) (sym same) ∙ there in rw (web, there, g, self, f)
  ]
]

-- The other entries stay.
not_entered :
    (c : Client) (r : Ref) (s : Maps) (id : Str)
    → str_eq c.client_id id ≡ false
    → IsApart s
    → view (add_client_shared c r s) id ≡ view s id
unfolding add_client_shared
not_entered c r s id e v = elim (Bool-cases (is_app c.client_id)) [
  | inl app ↦
      rw (app, lookup-insert, e, lookup-erase, e)
        (seen-make_map _ s (lookup id s.client_id_map) (v.made id))
  | inr web ↦ elim (Option-cases (lookup c.client_id s.client_id_map)) [
    | inl none_yet ↦
        rw (web, none_yet, lookup-insert, e)
          (seen-make_map _ s (lookup id s.client_id_map) (v.made id))
    | inr (p, there) ↦
        rw (web, there)
          (seen-write_map p _ s (lookup id s.client_id_map)
            (λ k. ground (arith, str_eq_iff c.client_id id, v.apart c.client_id id p there k)))
  ]
]

-- The value that AddClient makes of the map of maps is what its writes through the pointers make.
pub add_client-refines :
    (c : Client) (r : Ref) (s : Maps) (m : ClientManager)
    → IsApart s
    → ((id : Str) → view s id ≡ lookup id m.client_id_map)
    → (id : Str) → view (add_client_shared c r s) id ≡ lookup id (add_client c r m).client_id_map
add_client-refines c r s m v h id = elim (Bool-cases (str_eq c.client_id id)) [
  | inl e ↦ entered c r s m id e (h c.client_id) ∙ sym (lookup-add_client c r m id ∙ rw e)
  | inr e ↦ not_entered c r s id e v ∙ (h id ∙ sym (lookup-add_client c r m id ∙ rw e))
]

module _ (s : Maps) (v : IsApart s) (k : Str) (e : Dict Ref) (d : Dict MapRef)
    (old : (j : Str) (p : MapRef) → lookup j d ≡ some p → lookup j s.client_id_map ≡ some p) where
  -- What stands under an id once a new map was entered: the new map, or an old one.
  placed :
      (j : Str) (p : MapRef)
      → lookup j (insert k s.next_map d) ≡ some p
      → ((k ≡ j) × (p ≡ s.next_map)) ⊎ ((lookup j s.client_id_map ≡ some p) × (p < s.next_map))
  placed j p h = elim (Bool-cases (str_eq k j)) [
    | inl b ↦ inl ((str_eq_iff k j).0 b, ground (arith, lookup-insert k j s.next_map d, h, b))
    | inr b ↦
        let there = old j p (ground (arith, lookup-insert k j s.next_map d, h, b)) in
        inr (there, v.made j p there)
  ]

  added : IsApart (record (make_map e s) { client_id_map = insert k s.next_map d })
  added = record {
    made = λ j p h. elim (placed j p h) [
      | inl (_, new) ↦ omega (arith, new)
      | inr (_, below) ↦ omega (arith, below)
    ];
    apart = λ i j p g h. elim (placed i p g) [
      | inl (a, new) ↦ elim (placed j p h) [
        | inl (b, _) ↦ sym a ∙ b
        | inr (_, below) ↦ absurd (omega (arith, new, below))
      ]
      | inr (there, below) ↦ elim (placed j p h) [
        | inl (_, new) ↦ absurd (omega (arith, new, below))
        | inr (here, _) ↦ v.apart i j p there here
      ]
    ];
  }

-- AddClient keeps the maps apart.
pub add_client-IsApart :
    (c : Client) (r : Ref) (s : Maps) → IsApart s → IsApart (add_client_shared c r s)
unfolding add_client_shared
add_client-IsApart c r s v = elim (Bool-cases (is_app c.client_id)) [
  | inl app ↦ rw app (
      added s v c.client_id ((c.addr, r) ∷ []) (erase c.client_id s.client_id_map)
        (λ j p h. ground (arith, lookup-erase c.client_id j s.client_id_map, h)))
  | inr web ↦ elim (Option-cases (lookup c.client_id s.client_id_map)) [
    | inl e ↦ rw (web, e) (added s v c.client_id ((c.addr, r) ∷ []) s.client_id_map (λ j p h. h))
    | inr (p, e) ↦ rw (web, e) (record { made = v.made; apart = v.apart })
  ]
]
