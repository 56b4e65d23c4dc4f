-- ===== src/Tests/Clusters.antt =====
-- A client of a server in a cluster, at concrete data.
use go_websocket.Prelude.{◌≡◌, refl, some, inr, [], ◌∷◌, arith, true}
use go_websocket.Prelude.Text.{codes, str_eq}
use go_websocket.World.{ClientInfo, World, done}
use go_websocket.System.{connects, sends}
use go_websocket.System.Journey.{perform_all, linked}
use go_websocket.System.Dropped.{cluster_send_dropped}
use go_websocket.Tests.Ciphers.{key, key_fits}
use go_websocket.Tests.Servers.{common, start, info, handshake, libraries}

abbrev in_cluster : World
in_cluster = record start { common = record common { cluster = true; crypto_key = key } }

abbrev to_app : ClientInfo
to_app = record info { client_id = codes "APP_1" }

cluster_send_dropped_example :
    perform_all libraries (connects 5 (some 4) handshake ∷ sends to_app ∷ []) in_cluster
    ≡ done (linked 5 4 handshake in_cluster)
unfolding str_eq
cluster_send_dropped_example =
    cluster_send_dropped libraries 5 4 handshake to_app in_cluster refl refl refl key_fits
      (inr (codes "APP_1", refl, omega arith)) (omega arith) refl
