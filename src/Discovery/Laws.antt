-- ===== src/Discovery/Laws.antt =====
-- The list of servers that pkg/etcd/etcddis.go keeps, against what happened in etcd.
use go_websocket.Prelude.{
  ◌≡◌, refl, sym, false, ◌∙◌, ap, ◌++◌, Option, none, some, List, [], ◌∷◌, if◌then◌else◌,
}
use go_websocket.Prelude.Text.{Str, str_eq, str_eq_refl}
use go_websocket.Prelude.Dict.{lookup, lookup-insert, lookup-erase}
use go_websocket.Prelude.Result.{ok}
use go_websocket.Setting.{Global}
use go_websocket.Discovery.{
  Event, put_event, delete_event, set_service_list, del_service_list, handle_event, handle_events,
  watcher, extract_addrs, get_service,
}

-- What the last event of a key says of it, if there is one.
abbrev pub after_event : Str → Event → Option Str → Option Str
after_event j (put_event key val) old = if str_eq key j then some val else old
after_event j (delete_event key) old = if str_eq key j then none else old

abbrev pub after_events : Str → List Event → Option Str → Option Str
after_events j [] old = old
after_events j (ev ∷ events) old = after_events j events (after_event j ev old)

abbrev pub after_responses : Str → List (List Event) → Option Str → Option Str
after_responses j [] old = old
after_responses j (wresp ∷ rch) old = after_responses j rch (after_events j wresp old)

lookup-handle_event :
    (j : Str) (ev : Event) (g : Global)
    → lookup j (handle_event ev g).server_list ≡ after_event j ev (lookup j g.server_list)
unfolding handle_event set_service_list del_service_list
lookup-handle_event j (put_event key val) g = lookup-insert key j val g.server_list
lookup-handle_event j (delete_event key) g = lookup-erase key j g.server_list

pub lookup-handle_events :
    (j : Str) (events : List Event) (g : Global)
    → lookup j (handle_events events g).server_list ≡ after_events j events (lookup j g.server_list)
unfolding handle_events
lookup-handle_events j [] g = refl
lookup-handle_events j (ev ∷ events) g =
    lookup-handle_events j events (handle_event ev g)
    ∙ ap (after_events j events) (lookup-handle_event j ev g)

-- After the watcher has taken the responses of a watch, the server list has for each key the value
-- of its last event, and none where that deleted it; a key without an event keeps what it had.
pub lookup-watcher :
    (j : Str) (rch : List (List Event)) (g : Global)
    → lookup j (watcher rch g).server_list ≡ after_responses j rch (lookup j g.server_list)
unfolding watcher
lookup-watcher j [] g = refl
lookup-watcher j (wresp ∷ rch) g =
    lookup-watcher j rch (handle_events wresp g)
    ∙ ap (after_responses j rch) (lookup-handle_events j wresp g)

-- The values that are there, in the order of the response.
abbrev pub present : List (Str × Option Str) → List Str
present [] = []
present ((key, none) ∷ kvs) = present kvs
present ((key, some v) ∷ kvs) = v ∷ present kvs

abbrev pub puts : List (Str × Option Str) → List Event
puts [] = []
puts ((key, none) ∷ kvs) = puts kvs
puts ((key, some v) ∷ kvs) = put_event key v ∷ puts kvs

extract_addrs_lem :
    (kvs : List (Str × Option Str)) (g : Global)
    → extract_addrs kvs g ≡ (handle_events (puts kvs) g, present kvs)
unfolding extract_addrs handle_events handle_event
extract_addrs_lem [] g = refl
extract_addrs_lem ((key, none) ∷ kvs) g = extract_addrs_lem kvs g
extract_addrs_lem ((key, some v) ∷ kvs) g = rw (extract_addrs_lem kvs (set_service_list key v g))

-- The first answer of etcd does to the server list what events that put its values would do, and
-- the addresses are its values, in order; a value that is nil is left out.
pub get_service_lem :
    (kvs : List (Str × Option Str)) (g : Global)
    → get_service (ok kvs) g ≡ (handle_events (puts kvs) g, ok (present kvs))
unfolding get_service
get_service_lem kvs g = rw (extract_addrs_lem kvs g)

-- After GetService and the responses that its watcher takes, the server list has for each key what
-- the last event of the key said, or else the last value of the key in the first answer, or else
-- what it had.
pub discovered :
    (j : Str) (kvs : List (Str × Option Str)) (rch : List (List Event)) (g : Global)
    → lookup j (watcher rch (get_service (ok kvs) g).0).server_list
      ≡ after_responses j rch (after_events j (puts kvs) (lookup j g.server_list))
discovered j kvs rch g = rw (get_service_lem kvs g) (
    lookup-watcher j rch (handle_events (puts kvs) g)
    ∙ ap (after_responses j rch) (lookup-handle_events j (puts kvs) g))

-- The events of all responses, one after the other.
abbrev pub flat : List (List Event) → List Event
flat [] = []
flat (wresp ∷ rch) = wresp ++ flat rch

after_events-append :
    (j : Str) (xs ys : List Event) (old : Option Str)
    → after_events j (xs ++ ys) old ≡ after_events j ys (after_events j xs old)
after_events-append j [] ys old = refl
after_events-append j (ev ∷ xs) ys old = after_events-append j xs ys (after_event j ev old)

after_responses-flat :
    (j : Str) (rch : List (List Event)) (old : Option Str)
    → after_responses j rch old ≡ after_events j (flat rch) old
after_responses-flat j [] old = refl
after_responses-flat j (wresp ∷ rch) old =
    after_responses-flat j rch (after_events j wresp old)
    ∙ sym (after_events-append j wresp (flat rch) old)

-- What etcd has under a prefix after the events since it was empty.
abbrev pub store_after : List Event → Str → Option Str
store_after events j = after_events j events none

-- The answer to a Get is what etcd has: its values, put one after the other, give the same.
abbrev pub Answers : List (Str × Option Str) → List Event → Type 0
Answers kvs past = (j : Str) → after_events j (puts kvs) none ≡ store_after past j

-- The server list of a server that starts with an empty list is what etcd would have if nothing had
-- happened between the Get of GetService and the Watch of its watcher: `past` happened before the
-- Get, whose answer is what etcd then has, and `rch` are the responses of the watch.
pub discovery-refines-store :
    (kvs : List (Str × Option Str)) (past : List Event) (rch : List (List Event)) (g : Global)
    → g.server_list ≡ []
    → Answers kvs past
    → (j : Str)
    → lookup j (watcher rch (get_service (ok kvs) g).0).server_list
      ≡ store_after (past ++ flat rch) j
unfolding lookup
discovery-refines-store kvs past rch g empty answers j =
    discovered j kvs rch g
    ∙ (ap (λ l. after_responses j rch (after_events j (puts kvs) (lookup j l))) empty
        ∙ (ap (after_responses j rch) (answers j)
            ∙ (after_responses-flat j rch (store_after past j)
                ∙ sym (after_events-append j past (flat rch) none))))

-- No event is of the key.
abbrev pub Quiet : Str → List Event → Type 0
Quiet j [] = Unit {0}
Quiet j (put_event key val ∷ events) = (str_eq key j ≡ false) × Quiet j events
Quiet j (delete_event key ∷ events) = (str_eq key j ≡ false) × Quiet j events

after_events-Quiet :
    (j : Str) (events : List Event) (old : Option Str)
    → Quiet j events
    → after_events j events old ≡ old
after_events-Quiet j [] old q = refl
after_events-Quiet j (put_event key val ∷ events) old (e, q) =
    rw (e, after_events) (after_events-Quiet j events old q)
after_events-Quiet j (delete_event key ∷ events) old (e, q) =
    rw (e, after_events) (after_events-Quiet j events old q)

-- A server that leaves the cluster between the Get and the Watch stays in the list of a server that
-- starts with an empty list and gets an answer which is what etcd then has: etcd has its key no more,
-- the list keeps the address for as long as the key has no new event.
pub stale_server :
    (kvs : List (Str × Option Str)) (past : List Event) (rch : List (List Event)) (g : Global)
    → g.server_list ≡ []
    → Answers kvs past
    → (key addr : Str) → store_after past key ≡ some addr
    → Quiet key (flat rch)
    → (store_after (past ++ (delete_event key ∷ flat rch)) key ≡ none)
      × (lookup key (watcher rch (get_service (ok kvs) g).0).server_list ≡ some addr)
stale_server kvs past rch g empty answers key addr had quiet = (
  after_events-append key past (delete_event key ∷ flat rch) none
      ∙ (ap (λ o. after_events key (flat rch) o) (gone key (store_after past key))
          ∙ after_events-Quiet key (flat rch) none quiet),
  discovery-refines-store kvs past rch g empty answers key
      ∙ (after_events-append key past (flat rch) none
          ∙ (after_events-Quiet key (flat rch) (store_after past key) quiet ∙ had)),
)
  where
    gone : (j : Str) (old : Option Str) → after_event j (delete_event j) old ≡ none
    gone j old = rw (str_eq_refl j)
