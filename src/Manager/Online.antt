-- ===== src/Manager/Online.antt =====
-- The online lists of servers/clientmanager.go against the set of connected ids, through AddClient
-- and delClientIdMap.
use go_websocket.Prelude.{
  ◌+◌, ◌<◌, ◌≡◌, refl, true, false, not, inl, inr, Bool, ◌&&◌, ◌||◌, Option, none, some, arith,
  if◌then◌else◌, Option-cases, Bool-cases,
}
use go_websocket.Prelude.Text.{Str, str_eq, str_eq_iff}
use go_websocket.Prelude.Dict.{Dict, lookup, erase, lookup-insert, lookup-erase}
use go_websocket.Client.{Client, Ref}
use go_websocket.Manager.{ClientManager, is_app, add_client, is_empty, del_client_id_map}
use go_websocket.Manager.Accounts.{
  connected, online, in_account, online-add_account, online-remove_account, connected-add_account,
  connected-remove_account,
}

-- AddClient lists the id again where the id is an APP_ one, or is new.
abbrev lists_anew : Str → ClientManager → Bool
lists_anew id m = is_app id || not (connected id m)

connected-add_client :
    (c : Client) (r : Ref) (j : Str) (m : ClientManager)
    → connected j (add_client c r m) ≡ (str_eq c.client_id j || connected j m)
unfolding add_client
connected-add_client c r j m = elim (Bool-cases (is_app c.client_id)) [
  | inl app ↦ rw (app, connected-add_account) (rw lookup-insert (rw lookup-erase (ground arith)))
  | inr web ↦ elim (Option-cases (lookup c.client_id m.client_id_map)) [
    | inl e ↦ rw (web, e) (rw connected-add_account (rw lookup-insert (ground arith)))
    | inr (inner, e) ↦ rw (web, e) (rw lookup-insert (ground arith))
  ]
]

pub online-add_client :
    (c : Client) (r : Ref) (j key : Str) (m : ClientManager)
    → online j key (add_client c r m)
      ≡ online j key m
        + (if in_account c.client_id key && str_eq c.client_id j && lists_anew c.client_id m
            then 1
            else 0)
unfolding add_client
online-add_client c r j key m = elim (Bool-cases (is_app c.client_id)) [
  | inl app ↦ rw (app, online-add_account) (ground arith)
  | inr web ↦ elim (Option-cases (lookup c.client_id m.client_id_map)) [
    | inl e ↦ rw (web, e) (rw online-add_account (ground arith))
    | inr (inner, e) ↦ rw (web, e) (ground arith)
  ]
]

-- delClientIdMap takes the id out of ClientIdMap: the client is known at its address, and no entry
-- is left once the key `clientId` is deleted.
inner_dropped : Str → Option (Dict Ref) → Str → Bool
inner_dropped id none addr = false
inner_dropped id (some inner) addr = elim (lookup addr inner) [
  | none ↦ false
  | some r ↦ is_empty (erase id inner)
]

abbrev dropped : Str → Str → ClientManager → Bool
dropped id addr m = inner_dropped id (lookup id m.client_id_map) addr

connected-del_client_id_map :
    (id addr j : Str) (m : ClientManager)
    → connected j (del_client_id_map id addr m)
      ≡ (if dropped id addr m && str_eq id j then false else connected j m)
unfolding del_client_id_map inner_dropped
connected-del_client_id_map id addr j m = elim (Option-cases (lookup id m.client_id_map)) [
  | inl e ↦ rw (e, del_client_id_map, inner_dropped) (ground arith)
  | inr (inner, e) ↦ elim (Option-cases (lookup addr inner)) [
    | inl f ↦ rw (e, f, del_client_id_map, inner_dropped) (ground arith)
    | inr (r, f) ↦ elim (Bool-cases (is_empty (erase id inner))) [
      | inl g ↦
          rw (e, f, g, del_client_id_map, inner_dropped)
            (rw connected-remove_account (rw lookup-erase (ground arith)))
      | inr g ↦
          rw (e, f, g, del_client_id_map, inner_dropped)
            (rw lookup-insert (ground (arith, str_eq_iff id j)))
    ]
  ]
]

online-del_client_id_map :
    (id addr j key : Str) (m : ClientManager)
    → online j key (del_client_id_map id addr m)
      ≡ (if dropped id addr m && in_account id key && str_eq id j then 0 else online j key m)
unfolding del_client_id_map inner_dropped
online-del_client_id_map id addr j key m = elim (Option-cases (lookup id m.client_id_map)) [
  | inl e ↦ rw (e, del_client_id_map, inner_dropped) (ground arith)
  | inr (inner, e) ↦ elim (Option-cases (lookup addr inner)) [
    | inl f ↦ rw (e, f, del_client_id_map, inner_dropped) (ground arith)
    | inr (r, f) ↦ elim (Bool-cases (is_empty (erase id inner))) [
      | inl g ↦ rw (e, f, g, del_client_id_map, inner_dropped) (rw online-remove_account refl)
      | inr g ↦ rw (e, f, g, del_client_id_map, inner_dropped) refl
    ]
  ]
]

-- For a client id with an account: it stands in the online list of that account exactly once if it
-- is connected and never if it is not; an APP_ id stands there at least once while it is connected.
-- No id stands in the list of another account.
pub record Listed (m : ClientManager) : Type 0 where
  pub once :
      (id key : Str)
      → in_account id key ≡ true
      → is_app id ≡ false
      → online id key m ≡ (if connected id m then 1 else 0)
  pub some_app :
      (id key : Str) → in_account id key ≡ true → connected id m ≡ true → 0 < online id key m
  pub no_app :
      (id key : Str) → in_account id key ≡ true → connected id m ≡ false → online id key m ≡ 0
  pub elsewhere : (id key : Str) → in_account id key ≡ false → online id key m ≡ 0

-- AddClient keeps the online lists in agreement with the connected ids.
pub add_client-Listed :
    (c : Client) (r : Ref) (m : ClientManager) → Listed m → Listed (add_client c r m)
add_client-Listed c r m v = record {
  once = λ id key a b.
      rw (online-add_client c r id key m, connected-add_client c r id m)
        (ground (arith, v.once id key a b, str_eq_iff c.client_id id));
  some_app = λ id key a b. rw (online-add_client c r id key m) (
      ground
        (arith, connected-add_client c r id m, v.some_app id key a, str_eq_iff c.client_id id));
  no_app = λ id key a b.
      rw (online-add_client c r id key m) (
        ground
          (arith, connected-add_client c r id m, v.no_app id key a, str_eq_iff c.client_id id));
  elsewhere = λ id key a.
      rw (online-add_client c r id key m)
        (ground (arith, v.elsewhere id key a, str_eq_iff c.client_id id));
}

-- delClientIdMap keeps the online lists in agreement with the connected ids.
pub del_client_id_map-Listed :
    (id addr : Str) (m : ClientManager) → Listed m → Listed (del_client_id_map id addr m)
del_client_id_map-Listed i addr m v = record {
  once = λ id key a b.
      rw (online-del_client_id_map i addr id key m, connected-del_client_id_map i addr id m)
        (ground (arith, v.once id key a b, str_eq_iff i id));
  some_app = λ id key a b. rw (online-del_client_id_map i addr id key m) (
      ground
        (arith, connected-del_client_id_map i addr id m, v.some_app id key a, str_eq_iff i id));
  no_app = λ id key a b.
      rw (online-del_client_id_map i addr id key m) (
        ground
          (arith, connected-del_client_id_map i addr id m, v.no_app id key a, str_eq_iff i id));
  elsewhere = λ id key a.
      rw (online-del_client_id_map i addr id key m)
        (ground (arith, v.elsewhere id key a, str_eq_iff i id));
}
