-- ===== src/System/Table/History.antt =====
-- The connections in ClientIdMap (servers/clientmanager.go) after any run of the server, from the effects
-- of its actions.
use go_websocket.Prelude.{◌≡◌, ◌≢◌, refl, ap, ◌∙◌, sym, subst, false, none, List, [], ◌∷◌, arith}
use go_websocket.Prelude.Text.{Str, str_eq, str_eq_iff}
use go_websocket.Prelude.Dict.{lookup}
use go_websocket.Setting.{CommonConf, Global}
use go_websocket.Client.{Heap}
use go_websocket.Manager.{is_app}
use go_websocket.World.{World}
use go_websocket.System.{Reach, here, next, waits, initial}
use go_websocket.System.Table.{Table, table, empty, Effect, stays, enters, drops, apply, effect}
use go_websocket.System.Table.Refines.{Shows, perform-refines-table}

-- The effects of a run, the last one first.
unfoldable pub effects : {s w : World} → Reach s w → List Effect
effects here = []
effects (next {w} lib a r e) = effect a w ∷ effects r
effects (waits {w} lib a r e) = effect a w ∷ effects r

unfoldable pub after : List Effect → Table → Table
after [] t = t
after (e ∷ es) t = apply e (after es t)

pub Reach-table : {s w : World} (r : Reach s w) → table w ≡ after (effects r) (table s)
unfolding effects after
Reach-table here = refl
Reach-table (next {w} lib a r e) =
    subst (Shows (apply (effect a w) (table w))) e (perform-refines-table lib a w)
    ∙ ap (apply (effect a w)) (Reach-table r)
Reach-table (waits {w} lib a r e) =
    subst (Shows (apply (effect a w) (table w))) e (perform-refines-table lib a w)
    ∙ ap (apply (effect a w)) (Reach-table r)

-- In every state that a server reaches from its start by any sequence of actions, ClientIdMap holds
-- for each id and address the connection that the effects of those actions, in their order, give to
-- the table without a connection.
pub Reach-refines-table :
    (common : CommonConf) (global : Global) (heap : Heap) {w : World}
    → (r : Reach (initial common global heap) w) → table w ≡ after (effects r) empty
unfolding lookup
Reach-refines-table common global heap r = Reach-table r ∙ refl

-- No effect takes the connection of an id from an address that is not the id, unless the id is an
-- APP_ id.
apply_keeps :
    (e : Effect) (t : Table) (id addr : Str)
    → is_app id ≡ false
    → str_eq id addr ≡ false
    → t id addr ≢ none
    → apply e t id addr ≢ none
unfolding apply
apply_keeps stays t id addr f g h = h
apply_keeps (enters j a r) t id addr f g h = ground (arith, str_eq_iff j id)
apply_keeps (drops j a) t id addr f g h = ground (arith, str_eq_iff j id)

after_keeps :
    (es : List Effect) (t : Table) (id addr : Str)
    → is_app id ≡ false
    → str_eq id addr ≡ false
    → t id addr ≢ none
    → after es t id addr ≢ none
unfolding after
after_keeps [] t id addr f g h = h
after_keeps (e ∷ es) t id addr f g h =
    apply_keeps e (after es t) id addr f g (after_keeps es t id addr f g h)

-- A connection never leaves: where ClientIdMap holds one for an id that is not an APP_ id and an address
-- that is not the id, it holds one for them after any sequence of actions, whatever is closed and
-- deleted on the way.
pub connection_never_leaves :
    {w v : World}
    → Reach w v
    → (id addr : Str) → is_app id ≡ false
    → str_eq id addr ≡ false
    → table w id addr ≢ none
    → table v id addr ≢ none
connection_never_leaves {w} {v} r id addr f g h =
    subst (λ t. t id addr ≢ none) (sym (Reach-table r))
      (after_keeps (effects r) (table w) id addr f g h)
