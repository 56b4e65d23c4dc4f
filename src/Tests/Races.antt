-- ===== src/Tests/Races.antt =====
-- Two requests to register one id at the same time, and a server that leaves a cluster while another
-- joins it.
use go_websocket.Prelude.{ℕ, ◌≡◌, refl, none, some, [], ◌∷◌, ◌++◌, arith, inr}
use go_websocket.Prelude.Text.{Str, codes, str_eq}
use go_websocket.Prelude.Dict.{lookup}
use go_websocket.Prelude.Result.{ok}
use go_websocket.Account.{AccountInfo}
use go_websocket.Account.Concurrent.{
  waits, replied, Requests, run, IsSound, run-IsSound, register_race,
}
use go_websocket.Discovery.{put_event, delete_event, watcher, get_service}
use go_websocket.Discovery.Laws.{Answers, store_after, flat, discovery-refines-store, stale_server}
use go_websocket.Tests.Servers.{global}

abbrev info : ℕ → AccountInfo
info i = record { system_id = codes "im"; register_time = i }

abbrev idle : Requests
idle = record { system_map = []; phase = λ i. waits }

idle-IsSound : IsSound info idle
idle-IsSound = record { listed = λ i x h. absurd (ground (arith, h)) }

run-IsSound_example : IsSound info (run info (1 ∷ 2 ∷ 1 ∷ 2 ∷ 3 ∷ []) idle)
run-IsSound_example = run-IsSound info (1 ∷ 2 ∷ 1 ∷ 2 ∷ 3 ∷ []) idle idle-IsSound

register_race_example :
    ((run info (1 ∷ 2 ∷ 2 ∷ 1 ∷ []) idle).phase 1 ≡ replied (ok tt))
    × ((run info (1 ∷ 2 ∷ 2 ∷ 1 ∷ []) idle).phase 2 ≡ replied (ok tt))
    × (lookup (codes "im") (run info (1 ∷ 2 ∷ 2 ∷ 1 ∷ []) idle).system_map ≡ some (info 1))
unfolding lookup
register_race_example =
    register_race info 1 2 2 1 idle (omega arith) (inr (refl, refl)) refl refl refl refl

abbrev server : Str
server = codes "/wsServers/b"

abbrev addr : Str
addr = codes "10.0.0.2:7000"

one-Answers : Answers ((server, some addr) ∷ []) (put_event server addr ∷ [])
one-Answers j = refl

discovery-refines-store_example :
    lookup server
      (watcher
        ((delete_event server ∷ []) ∷ [])
        (get_service (ok ((server, some addr) ∷ [])) global).0).server_list
    ≡ store_after ((put_event server addr ∷ []) ++ flat ((delete_event server ∷ []) ∷ [])) server
discovery-refines-store_example =
    discovery-refines-store ((server, some addr) ∷ []) (put_event server addr ∷ [])
      ((delete_event server ∷ []) ∷ []) global refl one-Answers server

stale_server_example :
    (store_after ((put_event server addr ∷ []) ++ (delete_event server ∷ [])) server ≡ none)
    × (lookup server (watcher [] (get_service (ok ((server, some addr) ∷ [])) global).0).server_list
        ≡ some addr)
unfolding str_eq
stale_server_example =
    stale_server ((server, some addr) ∷ []) (put_event server addr ∷ []) [] global refl one-Answers
      server addr refl tt
