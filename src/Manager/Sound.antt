-- ===== src/Manager/Sound.antt =====
-- The invariant of the manager of servers/clientmanager.go, and the methods that keep it.
use go_websocket.Prelude.{
  ◌≡◌, ◌⊎◌, refl, ◌∙◌, inl, inr, Option, none, some, List, [], ◌∷◌, arith, Bool-cases,
}
use go_websocket.Prelude.Text.{Str, str_eq}
use go_websocket.Prelude.Dict.{lookup, values}
use go_websocket.Client.{Client, Ref}
use go_websocket.Util.{gen_group_key}
use go_websocket.Manager.Removal.{Outcome, returned, panicked}
use go_websocket.Manager.{
  ClientManager, new_client_manager, add_account, remove_account, add_client, del_client_id_map,
  del_group_client, del_groups, del_system_client, recovered, then_del_system_client, del_client,
  add_client2_system_client,
}
use go_websocket.Manager.Accounts.{occurrences}
use go_websocket.Manager.Online.{Listed, add_client-Listed, del_client_id_map-Listed}
use go_websocket.Manager.Maps.{IsKeyed, add_client-IsKeyed, del_client_id_map-IsKeyed}

-- The online lists agree with the connected ids, and the maps have no key twice and no empty entry.
pub record IsSound (m : ClientManager) : Type 0 where
  pub listed : Listed m
  pub keyed : IsKeyed m

-- The two maps from which the invariant is read.
abbrev pub SameIds : ClientManager → ClientManager → Type 0
SameIds m n =
    (n.client_id_map ≡ m.client_id_map) × (n.platform_account_map ≡ m.platform_account_map)

pub same_IsSound : (m n : ClientManager) → SameIds m n → IsSound m → IsSound n
same_IsSound m n (e, f) v = record {
  listed = record {
    once = λ id key. rw (e, f) (v.listed.once id key);
    some_app = λ id key. rw (e, f) (v.listed.some_app id key);
    no_app = λ id key. rw (e, f) (v.listed.no_app id key);
    elsewhere = λ id key. rw f (v.listed.elsewhere id key);
  };
  keyed = record {
    outer = rw e v.keyed.outer;
    inner = λ id d. rw e (v.keyed.inner id d);
    nonempty = λ id d. rw e (v.keyed.nonempty id d);
  };
}

-- What the methods that delete from the groups and the systems leave alone.
abbrev pub SameRest : ClientManager → ClientManager → Type 0
SameRest m n =
    (n.client_id_map ≡ m.client_id_map)
    × (n.platform_account_map ≡ m.platform_account_map)
    × (n.connect ≡ m.connect)
    × (n.dis_connect ≡ m.dis_connect)

SameRest-trans : (m n o : ClientManager) → SameRest m n → SameRest n o → SameRest m o
SameRest-trans m n o (a, b, e, f) (c, d, g, h) = (c ∙ a, d ∙ b, g ∙ e, h ∙ f)

pub del_group_client-SameRest :
    (key id : Str) (m : ClientManager) → SameRest m (recovered (del_group_client key id m))
unfolding del_group_client
del_group_client-SameRest key id m = ground arith

pub Outcome-cases {ℓ} :
    {A : Type ℓ} (o : Outcome A) → ((a : A) × (o ≡ returned a)) ⊎ ((a : A) × (o ≡ panicked a))
Outcome-cases (returned a) = inl (a, refl)
Outcome-cases (panicked a) = inr (a, refl)

del_groups-SameRest :
    (c : Client) (names : List Str) (m : ClientManager)
    → SameRest m (recovered (del_groups c names m))
unfolding del_groups
del_groups-SameRest c [] m = (refl, refl, refl, refl)
del_groups-SameRest c (name ∷ names) m =
    let key = gen_group_key c.system_id name in
    let first = del_group_client-SameRest key c.client_id m in
    elim (Outcome-cases (del_group_client key c.client_id m)) [
      | inl (n, e) ↦
          rw (e, del_groups)
            (SameRest-trans m n (recovered (del_groups c names n)) (rw e at first)
              (del_groups-SameRest c names n))
      | inr (n, e) ↦ rw (e, del_groups) (rw e at first)
    ]

del_system_client-SameRest :
    (c : Client) (m : ClientManager) → SameRest m (recovered (del_system_client c m))
unfolding del_system_client
del_system_client-SameRest c m = ground arith

-- What DelClient does behind delClientIdMap touches the groups and the systems only.
pub del_rest-SameRest :
    (c : Client) (m : ClientManager)
    → SameRest m (recovered (then_del_system_client c (del_groups c c.group_list m)))
del_rest-SameRest c m =
    let first = del_groups-SameRest c c.group_list m in
    elim (Outcome-cases (del_groups c c.group_list m)) [
      | inl (n, e) ↦ rw e (
          SameRest-trans m n (recovered (del_system_client c n)) (rw e at first)
            (del_system_client-SameRest c n))
      | inr (n, e) ↦ rw e (rw e at first)
    ]

-- DelClient keeps the invariant, also where a panic ends it.
pub del_client-IsSound :
    (c : Option Client) (m : ClientManager) → IsSound m → IsSound (del_client c m)
unfolding del_client
del_client-IsSound none m v = v
del_client-IsSound (some c) m v = elim (Bool-cases (str_eq c.client_id [])) [
  | inl e ↦ rw e v
  | inr e ↦ rw e (
      let rest = del_rest-SameRest c (del_client_id_map c.client_id c.addr m) in
      same_IsSound (del_client_id_map c.client_id c.addr m)
        (recovered (
          then_del_system_client c
            (del_groups c c.group_list (del_client_id_map c.client_id c.addr m))))
        (rest.0, rest.1)
        (record {
          listed = del_client_id_map-Listed c.client_id c.addr m v.listed;
          keyed = del_client_id_map-IsKeyed c.client_id c.addr m v.keyed;
        }))
]

-- The channels of the manager.
abbrev pub SameChannels : ClientManager → ClientManager → Type 0
SameChannels m n = (n.connect ≡ m.connect) × (n.dis_connect ≡ m.dis_connect)

del_client_id_map-SameChannels :
    (id addr : Str) (m : ClientManager) → SameChannels m (del_client_id_map id addr m)
unfolding del_client_id_map remove_account
del_client_id_map-SameChannels id addr m = ground arith

pub del_client-SameChannels :
    (c : Option Client) (m : ClientManager) → SameChannels m (del_client c m)
unfolding del_client
del_client-SameChannels none m = (refl, refl)
del_client-SameChannels (some c) m = elim (Bool-cases (str_eq c.client_id [])) [
  | inl e ↦ rw e (refl, refl)
  | inr e ↦ rw e (
      let first = del_client_id_map-SameChannels c.client_id c.addr m in
      let rest = del_rest-SameRest c (del_client_id_map c.client_id c.addr m) in
      (rest.2 ∙ first.0, rest.3 ∙ first.1))
]

pub add_client-SameChannels :
    (c : Client) (r : Ref) (m : ClientManager) → SameChannels m (add_client c r m)
unfolding add_client add_account
add_client-SameChannels c r m = ground arith

pub add_client2_system_client-SameChannels :
    (id : Str) (c : Client) (r : Ref) (m : ClientManager)
    → SameChannels m (add_client2_system_client id c r m)
unfolding add_client2_system_client
add_client2_system_client-SameChannels id c r m = add_client-SameChannels c r m

pub add_client-IsSound :
    (c : Client) (r : Ref) (m : ClientManager) → IsSound m → IsSound (add_client c r m)
add_client-IsSound c r m v = record {
  listed = add_client-Listed c r m v.listed;
  keyed = add_client-IsKeyed c r m v.keyed;
}

pub add_client2_system_client-IsSound :
    (id : Str) (c : Client) (r : Ref) (m : ClientManager)
    → IsSound m
    → IsSound (add_client2_system_client id c r m)
unfolding add_client2_system_client
add_client2_system_client-IsSound id c r m v =
    same_IsSound (add_client c r m) _ (refl, refl) (add_client-IsSound c r m v)

pub new_client_manager-IsSound : IsSound new_client_manager
unfolding lookup occurrences values
new_client_manager-IsSound = record {
  listed = record {
    once = λ id key a b. refl;
    some_app = λ id key a b. cc;
    no_app = λ id key a b. refl;
    elsewhere = λ id key a. refl;
  };
  keyed = record { outer = tt; inner = λ id d e. cc; nonempty = λ id d e. cc };
}
