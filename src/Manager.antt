-- ===== src/Manager.antt =====
-- servers/clientmanager.go: the maps of the connection manager and the methods that change them
-- one at a time. Each method holds the lock of the map that it uses, so it is one step.
pub mod Removal
pub mod Accounts
pub mod Online
pub mod Maps
pub mod Lookups
pub mod Sound
pub mod Shared
pub mod Sections
use go_websocket.Prelude.{
  ℕ, ◌+◌, Option, none, some, Bool, true, false, List, [], ◌∷◌, ◌++◌, length, if◌then◌else◌,
}
use go_websocket.Prelude.Text.{Str, codes, str_eq, contains, split}
use go_websocket.Prelude.Dict.{Dict, lookup, insert, erase, values}
use go_websocket.Prelude.Result.{Result, ok, err, client_missing}
use go_websocket.Client.{Client, Ref}
use go_websocket.Util.{gen_group_key}
use Removal.{Outcome, returned, panicked, remove_client}

-- The channels are the lists of what was sent and not yet received.
pub record ClientManager : Type 0 where
  pub client_id_map : Dict (Dict Ref)
  pub platform_account_map : Dict (List Str)
  pub connect : List Ref
  pub dis_connect : List Ref
  pub groups : Dict (List Str)
  pub system_clients : Dict (List Str)

abbrev pub new_client_manager : ClientManager
new_client_manager = record {
  client_id_map = [];
  platform_account_map = [];
  connect = [];
  dis_connect = [];
  groups = [];
  system_clients = [];
}

-- platform + "_" + account, from the parts of a client id; none for an id without an underscore.
abbrev key_of : List Str → Option Str
key_of [] = none
key_of (p ∷ []) = none
key_of (platform ∷ account ∷ []) = some (platform ++ (b'_' ∷ account))
key_of (platform ∷ _ ∷ account ∷ []) = some (platform ++ (b'_' ∷ account))
key_of (p ∷ q ∷ r ∷ s ∷ rest) = some (b'_' ∷ [])

unfoldable pub account_key : Str → Option Str
account_key client_id = key_of (split b'_' client_id)

-- The end of AddClient: the id joins the online list of its account.
unfoldable pub add_account : Str → ClientManager → ClientManager
add_account client_id m = elim (account_key client_id) [
  | none ↦ m
  | some key ↦ record m {
    platform_account_map =
        insert key (values key m.platform_account_map ++ client_id ∷ []) m.platform_account_map;
  }
]

unfoldable pub is_app : Str → Bool
is_app client_id = contains client_id (codes "APP_")

-- AddClient. In the second branch the outer `addrToClientMap` stays nil, so the test
-- `len(addrToClientMap) < 2` passes wherever it is reached.
unfoldable pub add_client : Client → Ref → ClientManager → ClientManager
add_client c r m =
    if is_app c.client_id
    then add_account c.client_id (record m {
      client_id_map = insert c.client_id ((c.addr, r) ∷ []) (erase c.client_id m.client_id_map);
    })
    else (elim (lookup c.client_id m.client_id_map) [
      | some inner ↦ record m {
        client_id_map = insert c.client_id (insert c.addr r inner) m.client_id_map;
      }
      | none ↦
          add_account c.client_id
            (record m { client_id_map = insert c.client_id ((c.addr, r) ∷ []) m.client_id_map })
    ])

-- removeElement
unfoldable pub remove_element : List Str → Str → List Str
remove_element [] val = []
remove_element (num ∷ nums) val =
    let rest = remove_element nums val in if str_eq num val then rest else num ∷ rest

-- The end of delClientIdMap: the id leaves the online list of its account.
unfoldable pub remove_account : Str → ClientManager → ClientManager
remove_account client_id m = elim (account_key client_id) [
  | none ↦ m
  | some key ↦ elim (lookup key m.platform_account_map) [
    | none ↦ m
    | some ids ↦ record m {
      platform_account_map = insert key (remove_element ids client_id) m.platform_account_map;
    }
  ]
]

-- `len(d) == 0`
abbrev pub is_empty {ℓ} : {V : Type ℓ} → Dict V → Bool
is_empty [] = true
is_empty (e ∷ d) = false

-- delClientIdMap, which deletes the key `clientId` of the map from addresses to clients.
unfoldable pub del_client_id_map : Str → Str → ClientManager → ClientManager
del_client_id_map client_id addr m = elim (lookup client_id m.client_id_map) [
  | none ↦ m
  | some inner ↦ elim (lookup addr inner) [
    | none ↦ m
    | some _ ↦
        let rest = erase client_id inner in
        if is_empty rest
        then remove_account client_id (record m { client_id_map = erase client_id m.client_id_map })
        else record m { client_id_map = insert client_id rest m.client_id_map }
  ]
]

-- The loop body of the copies in AllClient and GetByClientId.
unfoldable pub copy_entries : Dict Ref → Dict Ref → Dict Ref
copy_entries [] to = to
copy_entries ((k, v) ∷ from) to = copy_entries from (insert k v to)

unfoldable pub all_entries : Dict (Dict Ref) → Dict (Dict Ref) → Dict (Dict Ref)
all_entries [] result = result
all_entries ((key, value) ∷ rest) result = all_entries rest (elim (lookup key result) [
  | none ↦ insert key value result
  | some inner ↦ insert key (copy_entries value inner) result
])

unfoldable pub all_client : ClientManager → Dict (Dict Ref)
all_client m = all_entries m.client_id_map []

unfoldable pub count : ClientManager → ℕ
count m = length m.client_id_map

unfoldable pub platform_account_count : Str → Str → ClientManager → List Str × ℕ
platform_account_count platform account m =
    let ids = values (platform ++ (b'_' ∷ account)) m.platform_account_map in (ids, length ids)

unfoldable pub get_by_client_id : Str → ClientManager → Result (Dict Ref)
get_by_client_id client_id m = elim (lookup client_id m.client_id_map) [
  | none ↦ err client_missing
  | some inner ↦ ok (copy_entries inner [])
]

unfoldable pub add_client2_group : Str → Client → ClientManager → ClientManager
add_client2_group group_key c m = record m {
  groups = insert group_key (values group_key m.groups ++ c.client_id ∷ []) m.groups;
}

-- delGroupClient; a key with no slice has no rounds.
unfoldable pub del_group_client : Str → Str → ClientManager → Outcome ClientManager
del_group_client group_key client_id m = elim (lookup group_key m.groups) [
  | none ↦ returned m
  | some ids ↦ elim (remove_client (length m.groups) client_id ids) [
    | returned left ↦ returned (record m { groups = insert group_key left m.groups })
    | panicked left ↦ panicked (record m { groups = insert group_key left m.groups })
  ]
]

unfoldable pub get_group_client_list : Str → ClientManager → List Str
get_group_client_list group_key m = values group_key m.groups

unfoldable pub add_client2_system_client : Str → Client → Ref → ClientManager → ClientManager
add_client2_system_client system_id c r m =
    let n = add_client c r m in
    record n {
      system_clients =
          insert system_id (values system_id n.system_clients ++ c.client_id ∷ []) n.system_clients;
    }

-- delSystemClient, which bounds its index by the number of groups.
unfoldable pub del_system_client : Client → ClientManager → Outcome ClientManager
del_system_client c m = elim (lookup c.system_id m.system_clients) [
  | none ↦ returned m
  | some ids ↦ elim (remove_client (length m.groups) c.client_id ids) [
    | returned left ↦
        returned (record m { system_clients = insert c.system_id left m.system_clients })
    | panicked left ↦
        panicked (record m { system_clients = insert c.system_id left m.system_clients })
  ]
]

unfoldable pub get_system_client_list : Str → ClientManager → List Str
get_system_client_list system_id m = values system_id m.system_clients

unfoldable pub del_groups : Client → List Str → ClientManager → Outcome ClientManager
del_groups c [] m = returned m
del_groups c (group_name ∷ names) m =
    elim (del_group_client (gen_group_key c.system_id group_name) c.client_id m) [
      | returned n ↦ del_groups c names n
      | panicked n ↦ panicked n
    ]

-- A deferred `recover`.
abbrev pub recovered : Outcome ClientManager → ClientManager
recovered (returned m) = m
recovered (panicked m) = m

abbrev pub then_del_system_client : Client → Outcome ClientManager → Outcome ClientManager
then_del_system_client c (returned m) = del_system_client c m
then_del_system_client c (panicked m) = panicked m

-- DelClient; `none` is the nil pointer.
unfoldable pub del_client : Option Client → ClientManager → ClientManager
del_client none m = m
del_client (some c) m =
    if str_eq c.client_id []
    then m
    else recovered (
        then_del_system_client c
          (del_groups c c.group_list (del_client_id_map c.client_id c.addr m)))
