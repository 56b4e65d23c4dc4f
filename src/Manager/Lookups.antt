-- ===== src/Manager/Lookups.antt =====
-- What Count, AllClient and GetByClientId of servers/clientmanager.go give, and what AddClient and
-- delClientIdMap change in it.
use go_websocket.Prelude.{
  ◌+◌, ◌≡◌, refl, sym, ap, ◌∙◌, inl, inr, none, some, [], ◌∷◌, ◌++◌, arith, if◌then◌else◌,
  Option-cases, Bool-cases, append_assoc, append-nil,
}
use go_websocket.Prelude.Text.{Str, str_eq, str_eq_iff, str_eq_refl}
use go_websocket.Prelude.Dict.{
  Dict, lookup, insert, erase, NodupKeys, lookup-insert, lookup-erase, erase_absent, length-insert,
  length-erase, insert_fresh, lookup-append,
}
use go_websocket.Prelude.Result.{ok, err, client_missing}
use go_websocket.Client.{Client, Ref}
use go_websocket.Manager.{
  ClientManager, is_app, add_client, del_client_id_map, copy_entries, all_entries, all_client,
  count, get_by_client_id,
}
use go_websocket.Manager.Maps.{
  IsKeyed, client_id_map-add_account, entry, lookup-add_client, add_client-IsKeyed,
}

pub lookup-append_fresh {ℓ} :
    {V : Type ℓ} (k : Str) (d : Dict V) (j : Str) (v : V) (e : Dict V)
    → NodupKeys (d ++ (j, v) ∷ e)
    → lookup j d ≡ none
unfolding lookup
lookup-append_fresh k [] j v e n = refl
lookup-append_fresh k ((i, w) ∷ d) j v e (fresh, n) = ground (
  arith,
  lookup-append_fresh k d j v e n,
  lookup-append i d ((j, v) ∷ e),
  str_eq_iff i j,
  str_eq_iff j i,
)

copy_onto : (from to : Dict Ref) → NodupKeys (to ++ from) → copy_entries from to ≡ to ++ from
unfolding copy_entries
copy_onto [] to n = sym (append-nil to)
copy_onto ((k, v) ∷ from) to n =
    let e = insert_fresh k v to (lookup-append_fresh k to k v from n) in
    let a : (to ++ (k, v) ∷ []) ++ from ≡ to ++ (k, v) ∷ from =
      append_assoc to ((k, v) ∷ []) from in
    rw e (copy_onto from (to ++ (k, v) ∷ []) (rw a n) ∙ a)

-- The copying loop copies.
pub copy_entries_all : (from : Dict Ref) → NodupKeys from → copy_entries from [] ≡ from
copy_entries_all from n = copy_onto from [] n

all_onto : (from to : Dict (Dict Ref)) → NodupKeys (to ++ from) → all_entries from to ≡ to ++ from
unfolding all_entries
all_onto [] to n = sym (append-nil to)
all_onto ((k, v) ∷ from) to n =
    let fresh = lookup-append_fresh k to k v from n in
    let e = insert_fresh k v to fresh in
    let a : (to ++ (k, v) ∷ []) ++ from ≡ to ++ (k, v) ∷ from =
      append_assoc to ((k, v) ∷ []) from in
    rw (fresh, e) (all_onto from (to ++ (k, v) ∷ []) (rw a n) ∙ a)

-- The result of AllClient has the entries of ClientIdMap, in the order of the loop.
pub all_client_lem : (m : ClientManager) → IsKeyed m → all_client m ≡ m.client_id_map
unfolding all_client
all_client_lem m v = all_onto m.client_id_map [] v.outer

-- GetByClientId returns the entry of the id, or the error that there is none.
pub get_by_client_id_lem :
    (id : Str) (m : ClientManager)
    → IsKeyed m
    → get_by_client_id id m
      ≡ (elim (lookup id m.client_id_map) [ none ↦ err client_missing | some d ↦ ok d ])
unfolding get_by_client_id
get_by_client_id_lem id m v = elim (Option-cases (lookup id m.client_id_map)) [
  | inl e ↦ rw (e, get_by_client_id) refl
  | inr (d, e) ↦ rw (e, get_by_client_id) (ap ok (copy_entries_all d (v.inner id d e)))
]

pub lookup-entry :
    (c : Client) (r : Ref) (m : ClientManager) (a : Str)
    → lookup a (entry c r m) ≡ (
        if str_eq c.addr a
        then some r
        else if is_app c.client_id
        then none
        else elim (lookup c.client_id m.client_id_map) [ none ↦ none | some old ↦ lookup a old ])
unfolding lookup
lookup-entry c r m a = elim (Bool-cases (is_app c.client_id)) [
  | inl app ↦ rw app refl
  | inr web ↦ elim (Option-cases (lookup c.client_id m.client_id_map)) [
    | inl e ↦ rw (web, e) refl
    | inr (d, e) ↦ rw (web, e) (lookup-insert c.addr a r d)
  ]
]

pub get_by_client_id-some :
    (id : Str) (m : ClientManager) (d : Dict Ref)
    → IsKeyed m
    → lookup id m.client_id_map ≡ some d
    → get_by_client_id id m ≡ ok d
get_by_client_id-some id m d v e = get_by_client_id_lem id m v ∙ rw e refl

pub get_by_client_id-none :
    (id : Str) (m : ClientManager)
    → lookup id m.client_id_map ≡ none
    → get_by_client_id id m ≡ err client_missing
unfolding get_by_client_id
get_by_client_id-none id m e = rw (e, get_by_client_id)

-- After AddClient GetByClientId gives for the client's id the entry with the new client at its
-- address `a`; for an APP_ id that is the whole entry, for another id the old entries at other
-- addresses are kept. For every other id `j` it gives what it gave.
pub get_by_client_id-add_client :
    (c : Client) (r : Ref) (m : ClientManager)
    → IsKeyed m
    → (j a : Str)
    → (get_by_client_id j (add_client c r m)
        ≡ (if str_eq c.client_id j then ok (entry c r m) else get_by_client_id j m))
      × (lookup a (entry c r m) ≡ (
          if str_eq c.addr a
          then some r
          else if is_app c.client_id
          then none
          else elim (lookup c.client_id m.client_id_map) [ none ↦ none | some old ↦ lookup a old ]))
get_by_client_id-add_client c r m v j a = (
  get_by_client_id_lem j _ (add_client-IsKeyed c r m v)
      ∙ rw (lookup-add_client c r m j) (ground (arith, get_by_client_id_lem j m v)),
  lookup-entry c r m a,
)

-- Count grows by one where the id is new, and is the same where it is known.
pub count-add_client :
    (c : Client) (r : Ref) (m : ClientManager)
    → IsKeyed m
    → count (add_client c r m)
      ≡ (elim (lookup c.client_id m.client_id_map) [ none ↦ count m + 1 | some d ↦ count m ])
unfolding count add_client
count-add_client c r m v = elim (Bool-cases (is_app c.client_id)) [
  | inl app ↦
      rw (app, client_id_map-add_account)
        (ground (
          arith,
          length-insert c.client_id ((c.addr, r) ∷ []) (erase c.client_id m.client_id_map),
          lookup-erase c.client_id c.client_id m.client_id_map,
          str_eq_refl c.client_id,
          length-erase c.client_id m.client_id_map v.outer,
        ))
  | inr web ↦ elim (Option-cases (lookup c.client_id m.client_id_map)) [
    | inl e ↦
        rw (web, e)
          (rw client_id_map-add_account
            (ground (arith, length-insert c.client_id ((c.addr, r) ∷ []) m.client_id_map)))
    | inr (d, e) ↦
        rw (web, e) (ground (arith, length-insert c.client_id (insert c.addr r d) m.client_id_map))
  ]
]

-- delClientIdMap deletes the wrong key. Unless one of the addresses of the id equals the id itself,
-- ClientIdMap and the online lists stay as they are, and the client stays connected.
pub del_client_id_map_keeps :
    (id addr : Str) (m : ClientManager) (d : Dict Ref)
    → IsKeyed m
    → lookup id m.client_id_map ≡ some d
    → lookup id d ≡ none
    → ((j : Str) → lookup j (del_client_id_map id addr m).client_id_map ≡ lookup j m.client_id_map)
      × ((del_client_id_map id addr m).platform_account_map ≡ m.platform_account_map)
unfolding del_client_id_map
del_client_id_map_keeps id addr m d v e f = elim (Option-cases (lookup addr d)) [
  | inl g ↦ rw (e, g, del_client_id_map) (λ j. refl, refl)
  | inr (r, g) ↦
      rw (e, g, erase_absent id d f, v.nonempty id d e, del_client_id_map)
        (λ j. ground (arith, lookup-insert id j d m.client_id_map, str_eq_iff id j), refl)
]
