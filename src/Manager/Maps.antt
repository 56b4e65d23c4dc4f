-- ===== src/Manager/Maps.antt =====
-- ClientIdMap of servers/clientmanager.go as a map of maps, and that AddClient and delClientIdMap
-- keep it in order.
use go_websocket.Prelude.{
  ◌≡◌, refl, ap, false, inl, inr, none, some, [], ◌∷◌, arith, if◌then◌else◌, Option-cases,
  Bool-cases,
}
use go_websocket.Prelude.Text.{Str, str_eq}
use go_websocket.Prelude.Dict.{
  Dict, lookup, insert, erase, NodupKeys, lookup-insert, lookup-erase, lookup-nil, insert-NodupKeys,
  erase-NodupKeys,
}
use go_websocket.Client.{Client, Ref}
use go_websocket.Manager.{
  ClientManager, is_app, add_account, add_client, remove_account, is_empty, del_client_id_map,
}

-- What the maps of maps of Go are: no key twice, in the outer map and in each inner one. No inner
-- map is empty.
pub record IsKeyed (m : ClientManager) : Type 0 where
  pub outer : NodupKeys m.client_id_map
  pub inner : (id : Str) (d : Dict Ref) → lookup id m.client_id_map ≡ some d → NodupKeys d
  pub nonempty : (id : Str) (d : Dict Ref) → lookup id m.client_id_map ≡ some d → is_empty d ≡ false

pub client_id_map-add_account :
    (id : Str) (m : ClientManager) → (add_account id m).client_id_map ≡ m.client_id_map
unfolding add_account
client_id_map-add_account id m = ground arith

pub client_id_map-remove_account :
    (id : Str) (m : ClientManager) → (remove_account id m).client_id_map ≡ m.client_id_map
unfolding remove_account
client_id_map-remove_account id m = ground arith

-- The entry of the client's id after AddClient.
abbrev pub entry : Client → Ref → ClientManager → Dict Ref
entry c r m =
    if is_app c.client_id then (c.addr, r) ∷ [] else elim (lookup c.client_id m.client_id_map) [
      | none ↦ (c.addr, r) ∷ []
      | some d ↦ insert c.addr r d
    ]

pub lookup-add_client :
    (c : Client) (r : Ref) (m : ClientManager) (j : Str)
    → lookup j (add_client c r m).client_id_map
      ≡ (if str_eq c.client_id j then some (entry c r m) else lookup j m.client_id_map)
unfolding add_client
lookup-add_client c r m j = elim (Bool-cases (is_app c.client_id)) [
  | inl app ↦
      rw (app, client_id_map-add_account) (rw lookup-insert (rw lookup-erase (ground arith)))
  | inr web ↦ elim (Option-cases (lookup c.client_id m.client_id_map)) [
    | inl e ↦ rw (web, e) (rw client_id_map-add_account (rw lookup-insert refl))
    | inr (d, e) ↦ rw (web, e) (rw lookup-insert refl)
  ]
]

insert_nonempty : (k : Str) (r : Ref) (d : Dict Ref) → is_empty (insert k r d) ≡ false
unfolding insert
insert_nonempty k r [] = refl
insert_nonempty k r ((j, w) ∷ d) = ground arith

entry-NodupKeys : (c : Client) (r : Ref) (m : ClientManager) → IsKeyed m → NodupKeys (entry c r m)
entry-NodupKeys c r m v = elim (Bool-cases (is_app c.client_id)) [
  | inl app ↦ rw app (lookup-nil c.addr, tt)
  | inr web ↦ elim (Option-cases (lookup c.client_id m.client_id_map)) [
    | inl e ↦ rw (web, e) (lookup-nil c.addr, tt)
    | inr (d, e) ↦ rw (web, e) (insert-NodupKeys c.addr r d (v.inner c.client_id d e))
  ]
]

entry-nonempty : (c : Client) (r : Ref) (m : ClientManager) → is_empty (entry c r m) ≡ false
entry-nonempty c r m = elim (Bool-cases (is_app c.client_id)) [
  | inl app ↦ rw app refl
  | inr web ↦ elim (Option-cases (lookup c.client_id m.client_id_map)) [
    | inl e ↦ rw (web, e) refl
    | inr (d, e) ↦ rw (web, e) (insert_nonempty c.addr r d)
  ]
]

add_client-outer :
    (c : Client) (r : Ref) (m : ClientManager)
    → IsKeyed m
    → NodupKeys (add_client c r m).client_id_map
unfolding add_client
add_client-outer c r m v = elim (Bool-cases (is_app c.client_id)) [
  | inl app ↦
      rw (app, client_id_map-add_account)
        (insert-NodupKeys c.client_id ((c.addr, r) ∷ []) (erase c.client_id m.client_id_map)
          (erase-NodupKeys c.client_id m.client_id_map v.outer))
  | inr web ↦ elim (Option-cases (lookup c.client_id m.client_id_map)) [
    | inl e ↦
        rw (web, e)
          (rw client_id_map-add_account
            (insert-NodupKeys c.client_id ((c.addr, r) ∷ []) m.client_id_map v.outer))
    | inr (d, e) ↦
        rw (web, e) (insert-NodupKeys c.client_id (insert c.addr r d) m.client_id_map v.outer)
  ]
]

-- AddClient keeps the map of maps in order.
pub add_client-IsKeyed :
    (c : Client) (r : Ref) (m : ClientManager) → IsKeyed m → IsKeyed (add_client c r m)
add_client-IsKeyed c r m v = record {
  outer = add_client-outer c r m v;
  inner =
      λ id d e. ground (arith, lookup-add_client c r m id, v.inner id d, entry-NodupKeys c r m v);
  nonempty =
      λ id d e. ground (arith, lookup-add_client c r m id, v.nonempty id d, entry-nonempty c r m);
}

-- The three things that delClientIdMap can do.
pub del_client_id_map_cases {ℓ} :
    (P : ClientManager → Type ℓ) (id addr : Str) (m : ClientManager)
    → P m
    → P (remove_account id (record m { client_id_map = erase id m.client_id_map }))
    → ((d : Dict Ref)
        → lookup id m.client_id_map ≡ some d
        → is_empty (erase id d) ≡ false
        → P (record m { client_id_map = insert id (erase id d) m.client_id_map }))
    → P (del_client_id_map id addr m)
unfolding del_client_id_map
del_client_id_map_cases P id addr m same gone less =
    elim (Option-cases (lookup id m.client_id_map)) [
      | inl e ↦ rw (e, del_client_id_map) same
      | inr (d, e) ↦ elim (Option-cases (lookup addr d)) [
        | inl f ↦ rw (e, f, del_client_id_map) same
        | inr (r, f) ↦ elim (Bool-cases (is_empty (erase id d))) [
          | inl g ↦ rw (e, f, g, del_client_id_map) gone
          | inr g ↦ rw (e, f, g, del_client_id_map) (less d e g)
        ]
      ]
    ]

erased-IsKeyed :
    (id : Str) (m : ClientManager)
    → IsKeyed m
    → IsKeyed (remove_account id (record m { client_id_map = erase id m.client_id_map }))
erased-IsKeyed id m v = record {
  outer = rw client_id_map-remove_account (erase-NodupKeys id m.client_id_map v.outer);
  inner = λ j d e. v.inner j d (kept j d e);
  nonempty = λ j d e. v.nonempty j d (kept j d e);
}
  where
    kept :
        (j : Str) (d : Dict Ref)
        → lookup j
            (remove_account id
              (record m { client_id_map = erase id m.client_id_map })).client_id_map
          ≡ some d
        → lookup j m.client_id_map ≡ some d
    kept j d e = ground (
      arith,
      ap (lookup j)
          (client_id_map-remove_account id (record m { client_id_map = erase id m.client_id_map })),
      lookup-erase id j m.client_id_map,
    )

lessened-IsKeyed :
    (id : Str) (m : ClientManager)
    → IsKeyed m
    → (d : Dict Ref) → lookup id m.client_id_map ≡ some d
    → is_empty (erase id d) ≡ false
    → IsKeyed (record m { client_id_map = insert id (erase id d) m.client_id_map })
lessened-IsKeyed id m v d e f = record {
  outer = insert-NodupKeys id (erase id d) m.client_id_map v.outer;
  inner = λ j b g. ground (
    arith,
    lookup-insert id j (erase id d) m.client_id_map,
    v.inner j b,
    erase-NodupKeys id d (v.inner id d e),
  );
  nonempty =
      λ j b g. ground (arith, lookup-insert id j (erase id d) m.client_id_map, v.nonempty j b);
}

-- delClientIdMap keeps the map of maps in order.
pub del_client_id_map-IsKeyed :
    (id addr : Str) (m : ClientManager) → IsKeyed m → IsKeyed (del_client_id_map id addr m)
del_client_id_map-IsKeyed id addr m v =
    del_client_id_map_cases IsKeyed id addr m v (erased-IsKeyed id m v) (lessened-IsKeyed id m v)
