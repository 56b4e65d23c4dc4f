-- ===== src/Manager/Accounts.antt =====
-- How the methods of servers/clientmanager.go change the online lists of the accounts
-- (PlatformAccountMap) and the set of connected ids (ClientIdMap).
use go_websocket.Prelude.{
  ℕ, ◌+◌, ◌≡◌, refl, true, false, inl, inr, Bool, List, [], ◌∷◌, ◌++◌, ◌&&◌, Option, none, some,
  arith, if◌then◌else◌, Option-cases,
}
use go_websocket.Prelude.Text.{Str, str_eq, str_eq_iff}
use go_websocket.Prelude.Dict.{lookup, values, values-insert, values_absent, values_present}
use go_websocket.Manager.{ClientManager, account_key, add_account, remove_element, remove_account}

-- How often an id stands in a list.
unfoldable pub occurrences : Str → List Str → ℕ
occurrences id [] = 0
occurrences id (x ∷ xs) = (if str_eq x id then 1 else 0) + occurrences id xs

pub occurrences-append :
    (id : Str) (xs ys : List Str)
    → occurrences id (xs ++ ys) ≡ occurrences id xs + occurrences id ys
unfolding occurrences
occurrences-append id [] ys = omega arith
occurrences-append id (x ∷ xs) ys = ground (arith, occurrences-append id xs ys)

occurrences-remove_element :
    (id val : Str) (xs : List Str)
    → occurrences id (remove_element xs val) ≡ (if str_eq val id then 0 else occurrences id xs)
unfolding occurrences remove_element
occurrences-remove_element id val [] = ground arith
occurrences-remove_element id val (x ∷ xs) = ground (
  arith,
  str_eq_iff x val,
  str_eq_iff x id,
  str_eq_iff val id,
  occurrences-remove_element id val xs,
)

abbrev is_some {ℓ} : {A : Type ℓ} → Option A → Bool
is_some none = false
is_some (some a) = true

-- Is the id a key of ClientIdMap?
abbrev pub connected : Str → ClientManager → Bool
connected id m = is_some (lookup id m.client_id_map)

-- How often the online list at a key names the id.
abbrev pub online : Str → Str → ClientManager → ℕ
online id key m = occurrences id (values key m.platform_account_map)

-- Is `key` the account of the id?
abbrev belongs : Option Str → Str → Bool
belongs none key = false
belongs (some k) key = str_eq k key

abbrev pub in_account : Str → Str → Bool
in_account id key = belongs (account_key id) key

pub online-add_account :
    (id j key : Str) (m : ClientManager)
    → online j key (add_account id m)
      ≡ online j key m + (if in_account id key && str_eq id j then 1 else 0)
unfolding add_account occurrences
online-add_account id j key m = elim (Option-cases (account_key id)) [
  | inl e ↦ rw (e, add_account) (omega arith)
  | inr (k, e) ↦
      rw (e, add_account, values-insert)
        (ground (
          arith,
          str_eq_iff k key,
          occurrences-append j (values k m.platform_account_map) (id ∷ []),
        ))
]

pub online-remove_account :
    (id j key : Str) (m : ClientManager)
    → online j key (remove_account id m)
      ≡ (if in_account id key && str_eq id j then 0 else online j key m)
unfolding remove_account occurrences
online-remove_account id j key m = elim (Option-cases (account_key id)) [
  | inl e ↦ rw (e, remove_account) (refl)
  | inr (k, e) ↦ elim (Option-cases (lookup k m.platform_account_map)) [
    | inl f ↦
        rw (e, f, remove_account)
          (ground (arith, str_eq_iff k key, values_absent k m.platform_account_map))
    | inr (ids, f) ↦
        rw (e, f, remove_account)
          (ground (
            arith,
            str_eq_iff k key,
            values-insert k key (remove_element ids id) m.platform_account_map,
            occurrences-remove_element j id ids,
            values_present k ids m.platform_account_map,
          ))
  ]
]

pub connected-add_account :
    (id j : Str) (m : ClientManager) → connected j (add_account id m) ≡ connected j m
unfolding add_account
connected-add_account id j m = ground arith

pub connected-remove_account :
    (id j : Str) (m : ClientManager) → connected j (remove_account id m) ≡ connected j m
unfolding remove_account
connected-remove_account id j m = ground arith
