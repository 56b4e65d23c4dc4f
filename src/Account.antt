-- ===== src/Account.antt =====
-- servers/account.go: the registration of systems, on a single machine in SystemMap and in a cluster
-- in etcd. `S` is etcd's state.
pub mod Laws
pub mod Concurrent
use go_websocket.Prelude.{
  ℕ, zero, suc, ◌≡◌, ◌≢◌, Bool, false, Option, none, some, [], ◌++◌, if◌then◌else◌,
}
use go_websocket.Prelude.Text.{Str, codes, str_eq}
use go_websocket.Prelude.Dict.{Dict, lookup, insert}
use go_websocket.Prelude.Result.{Result, ok, err, panic, system_id_empty, system_id_taken}

-- accountInfo
pub record AccountInfo : Type 0 where
  pub system_id : Str
  pub register_time : ℕ

abbrev pub account_info : ℕ → Str → AccountInfo
account_info now system_id = record { system_id = system_id; register_time = now }

-- Put and Get of pkg/etcd; Get gives the count of the response.
pub record Etcd (S : Type 0) : Type 0 where
  pub get : Str → S → Result ℕ
  pub put : Str → Str → S → S × Result (Unit {0})

-- A Put without an error stores the key: a Get of it does not find nothing. Other keys stay.
pub record IsStore {S : Type 0} (e : Etcd S) : Type 0 where
  pub get-put : (k v : Str) (s t : S) → e.put k v s ≡ (t, ok tt) → e.get k t ≢ ok 0
  pub get_other :
      (k v j : Str) (s t : S)
      → e.put k v s ≡ (t, ok tt)
      → str_eq k j ≡ false
      → e.get j t ≡ e.get j s

pub record Accounts (S : Type 0) : Type 0 where
  pub system_map : Dict AccountInfo
  pub store : S

-- ETCD_PREFIX_ACCOUNT_INFO
abbrev pub account_prefix : Str
account_prefix = codes "ws/account/"

module _ {S : Type 0} (e : Etcd S) (marshal : AccountInfo → Str) where
  -- The end of Register in a cluster: an error of Put panics.
  abbrev pub put_account : Accounts S → S × Result (Unit {0}) → Accounts S × Result (Unit {0})
  put_account a (s, ok u) = (record a { store = s }, ok u)
  put_account a (s, err x) = (record a { store = s }, panic)
  put_account a (s, panic) = (record a { store = s }, panic)

  -- Register in a cluster, from the answer of Get.
  abbrev pub register_found : AccountInfo → Accounts S → Result ℕ → Accounts S × Result (Unit {0})
  register_found info a (ok zero) =
      put_account a (e.put (account_prefix ++ info.system_id) (marshal info) a.store)
  register_found info a (ok (suc n)) = (a, err system_id_taken)
  register_found info a (err x) = (a, err x)
  register_found info a panic = (a, panic)

  unfoldable pub register_in_cluster : AccountInfo → Accounts S → Accounts S × Result (Unit {0})
  register_in_cluster info a =
      register_found info a (e.get (account_prefix ++ info.system_id) a.store)

  -- Register on a single machine, from what SystemMap has.
  abbrev pub register_loaded :
      AccountInfo → Accounts S → Option AccountInfo → Accounts S × Result (Unit {0})
  register_loaded info a (some _) = (a, err system_id_taken)
  register_loaded info a none =
      (record a { system_map = insert info.system_id info a.system_map }, ok tt)

  unfoldable pub register_here : AccountInfo → Accounts S → Accounts S × Result (Unit {0})
  register_here info a = register_loaded info a (lookup info.system_id a.system_map)

  -- Register, at a time.
  unfoldable pub register : Bool → ℕ → Str → Accounts S → Accounts S × Result (Unit {0})
  register cluster now system_id a =
      if str_eq system_id []
      then (a, err system_id_empty)
      else if cluster
      then register_in_cluster (account_info now system_id) a
      else register_here (account_info now system_id) a
