-- ===== src/Tests/Sharing.antt =====
-- The maps of one client, with a second connection that comes after AllClient was called, and a client
-- that is added while it is deleted.
use go_websocket.Prelude.{ℕ, ◌==◌, if◌then◌else◌, ◌≡◌, refl, [], ◌∷◌, arith}
use go_websocket.Prelude.Text.{codes, str_eq, contains, has_prefix}
use go_websocket.Prelude.Dict.{lookup, insert}
use go_websocket.Prelude.Result.{ok}
use go_websocket.Client.{Client}
use go_websocket.Manager.{is_app}
use go_websocket.Manager.Shared.{
  MapRef, Maps, add_client_shared, all_client_shared, get_by_client_id_shared,
}
use go_websocket.Manager.Shared.Refines.{add_client-IsApart}
use go_websocket.Manager.Shared.Laws.{IsApart, all_client_shares}
use go_websocket.Manager.Sound.{SameIds, IsSound}
use go_websocket.Manager.Sections.{Method, adds, deletes, Running, interleave, in_order, before}
use go_websocket.Manager.Sections.Laws.{interleave-in_order}
use go_websocket.Tests.Managers.{web_client, one_client, one_client-IsSound}

abbrev no_maps : Maps
no_maps = record { client_id_map = []; cells = λ p. []; next_map = 0 }

no_maps-IsApart : IsApart no_maps
unfolding lookup
no_maps-IsApart = record {
  made = λ id p h. absurd (ground (arith, h));
  apart = λ id j p h k. absurd (ground (arith, h));
}

abbrev second : Client
second = record web_client { addr = codes "10.0.0.8:6000" }

one_map : Maps
one_map = add_client_shared web_client 0 no_maps

all_client_shares_example :
    ((all_client_shared one_map).0 ≡ one_map.client_id_map)
    × ((add_client_shared second 1 (all_client_shared one_map).1).cells 0
        ≡ insert second.addr 1 (one_map.cells 0))
    × ((q : MapRef) × (t : Maps) × (get_by_client_id_shared second.client_id one_map ≡ ok (q, t))
        × (t.cells q ≡ one_map.cells 0)
        × ((add_client_shared second 1 t).cells q ≡ one_map.cells 0))
unfolding one_map add_client_shared is_app contains has_prefix lookup insert str_eq
all_client_shares_example =
    all_client_shares second 1 one_map (add_client-IsApart web_client 0 no_maps no_maps-IsApart)
      (refl, tt) refl 0 refl (refl, tt)

-- Goroutine 0 adds the client and the others delete it.
abbrev method_of : ℕ → Method
method_of i = if i == 0 then adds (codes "WEB_7") web_client 0 else deletes web_client

abbrev mixed : Running
mixed = interleave method_of (1 ∷ 0 ∷ 1 ∷ 0 ∷ []) (before one_client)

interleave-in_order_example :
    SameIds (in_order method_of mixed.begun one_client) mixed.manager × IsSound mixed.manager
interleave-in_order_example =
    interleave-in_order method_of one_client (1 ∷ 0 ∷ 1 ∷ 0 ∷ []) one_client-IsSound
