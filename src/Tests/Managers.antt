-- ===== src/Tests/Managers.antt =====
-- servers/clientmanager.go at concrete data.
use go_websocket.Prelude.{◌≡◌, refl, false, none, some, [], ◌∷◌, if◌then◌else◌}
use go_websocket.Prelude.Text.{Str, codes, str_eq, split, contains, has_prefix}
use go_websocket.Prelude.Dict.{lookup, insert, values}
use go_websocket.Prelude.Result.{ok}
use go_websocket.Client.{Client, Ref}
use go_websocket.Manager.Removal.{
  returned, panicked, remove_client, remove_rounds, remove_step, remove_at, close_gap,
}
use go_websocket.Manager.Removal.Laws.{remove_client_once}
use go_websocket.Manager.{
  ClientManager, new_client_manager, add_client, add_account, account_key, is_app, get_by_client_id,
}
use go_websocket.Manager.Sound.{IsSound, add_client-IsSound, new_client_manager-IsSound}
use go_websocket.Manager.Maps.{entry}
use go_websocket.Manager.Lookups.{get_by_client_id-add_client}

abbrev a : Str
a = codes "a"

abbrev b : Str
b = codes "b"

abbrev c : Str
c = codes "c"

remove_client_once_example : remove_client 2 b (a ∷ b ∷ c ∷ []) ≡ returned (a ∷ [])
unfolding str_eq
remove_client_once_example = remove_client_once 2 b (a ∷ []) (c ∷ []) (refl, tt) (refl, tt)

-- Two entries of the id at the end, under enough groups: the loop panics.
remove_client_twice : remove_client 9 a (b ∷ a ∷ a ∷ []) ≡ panicked (b ∷ a ∷ [])
unfolding remove_client remove_rounds remove_step remove_at close_gap str_eq
remove_client_twice = refl

abbrev pub web_client : Client
web_client = record {
  addr = codes "10.0.0.9:5000";
  client_id = codes "WEB_7";
  system_id = codes "WEB_7";
  socket = 3;
  connect_time = 0;
  is_deleted = false;
  user_id = [];
  extend = [];
  group_list = [];
}

unfoldable pub one_client : ClientManager
one_client = add_client web_client 0 new_client_manager

pub one_client-IsSound : IsSound one_client
unfolding one_client
one_client-IsSound = add_client-IsSound web_client 0 new_client_manager new_client_manager-IsSound

get_by_client_id-add_client_example :
    (get_by_client_id (codes "WEB_7") (add_client web_client 1 one_client) ≡ (
      if str_eq (codes "WEB_7") (codes "WEB_7")
      then ok (entry web_client 1 one_client)
      else get_by_client_id (codes "WEB_7") one_client))
    × (lookup (codes "x") (entry web_client 1 one_client) ≡ (
        if str_eq web_client.addr (codes "x")
        then some 1
        else if is_app (codes "WEB_7")
        then none
        else elim (lookup (codes "WEB_7") one_client.client_id_map) [
          | none ↦ none
          | some old ↦ lookup (codes "x") old
        ]))
get_by_client_id-add_client_example =
    get_by_client_id-add_client web_client 1 one_client one_client-IsSound.keyed (codes "WEB_7")
      (codes "x")

pub connected_at :
    lookup (codes "WEB_7") one_client.client_id_map ≡ some ((codes "10.0.0.9:5000", 0) ∷ [])
unfolding one_client add_client add_account account_key is_app contains has_prefix split lookup
    insert values str_eq
connected_at = refl

not_an_address : lookup {V = Ref} (codes "WEB_7") ((codes "10.0.0.9:5000", 0) ∷ []) ≡ none
unfolding lookup str_eq
not_an_address = refl
