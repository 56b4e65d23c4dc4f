-- ===== src/System/Owners.antt =====
-- Which clients a system has: SystemClients of servers/clientmanager.go, in which the handshake of
-- servers/connect.go enters a client under its own id.
use go_websocket.Prelude.{
  ℕ, zero, suc, ◌+◌, ◌-◌, ◌≡◌, refl, subst, inl, inr, List, [], ◌∷◌, ◌++◌, arith, length, take,
  drop, replicate, Bool-cases, Option-cases,
}
use go_websocket.Prelude.Text.{Str, str_eq, str_eq_iff}
use go_websocket.Prelude.Dict.{Dict, lookup, values, insert, values-insert, values_present}
use go_websocket.Client.{Client}
use go_websocket.Manager.Removal.{
  Outcome, returned, panicked, Slice, close_gap, remove_at, remove_step, remove_rounds,
  remove_slice, remove_client, visible,
}
use go_websocket.Manager.{
  ClientManager, recovered, del_group_client, del_groups, del_system_client, then_del_system_client,
}
use go_websocket.Util.{gen_group_key}
use go_websocket.Manager.Sound.{Outcome-cases}

-- Every entry is the id.
abbrev pub AllAre : Str → List Str → Type 0
AllAre s [] = Unit {0}
AllAre s (x ∷ xs) = (x ≡ s) × AllAre s xs

pub AllAre-append : (s : Str) (xs ys : List Str) → AllAre s xs → AllAre s ys → AllAre s (xs ++ ys)
AllAre-append s [] ys h k = k
AllAre-append s (x ∷ xs) ys (e, h) k = (e, AllAre-append s xs ys h k)

AllAre-take : (s : Str) (n : ℕ) (xs : List Str) → AllAre s xs → AllAre s (take n xs)
AllAre-take s zero xs h = tt
AllAre-take s (suc n) [] h = tt
AllAre-take s (suc n) (x ∷ xs) (e, h) = (e, AllAre-take s n xs h)

AllAre-drop : (s : Str) (n : ℕ) (xs : List Str) → AllAre s xs → AllAre s (drop n xs)
AllAre-drop s zero xs h = h
AllAre-drop s (suc n) [] h = tt
AllAre-drop s (suc n) (x ∷ xs) (e, h) = AllAre-drop s n xs h

pub AllAre-replicate : (s : Str) (xs : List Str) → AllAre s xs → xs ≡ replicate (length xs) s
AllAre-replicate s [] h = refl
AllAre-replicate s (x ∷ xs) (e, h) = rw (e, ← AllAre-replicate s xs h)

-- The loop that takes an id out of a slice moves the entries only.
abbrev Kept : Str → Outcome Slice → Type 0
Kept s (returned t) = AllAre s t.array
Kept s (panicked t) = AllAre s t.array

remove_step-Kept :
    (s : Str) (groups : ℕ) (id : Str) (i : ℕ) (t : Slice)
    → AllAre s t.array
    → Kept s (remove_step groups id i t)
unfolding remove_step remove_at close_gap
remove_step-Kept s groups id i t h =
    let moved = AllAre-append s _ _ (AllAre-take s i t.array h) (
      AllAre-append s _ _ (AllAre-take s (t.len - (i + 1)) _ (AllAre-drop s (i + 1) t.array h))
        (AllAre-drop s (t.len - 1) t.array h)) in
    ground (arith, moved)

remove_rounds-Kept :
    (s : Str) (groups : ℕ) (id : Str) (rounds i : ℕ) (t : Slice)
    → AllAre s t.array
    → Kept s (remove_rounds groups id rounds i t)
unfolding remove_rounds
remove_rounds-Kept s groups id zero i t h = h
remove_rounds-Kept s groups id (suc rounds) i t h =
    onward (remove_step groups id i t) (remove_step-Kept s groups id i t h)
      (λ u k. remove_rounds-Kept s groups id rounds (i + 1) u k)
  where
    onward :
        (o : Outcome Slice)
        → Kept s o
        → ((u : Slice) → AllAre s u.array → Kept s (remove_rounds groups id rounds (i + 1) u))
        → Kept s (elim o [
          | returned u ↦ remove_rounds groups id rounds (i + 1) u
          | panicked u ↦ panicked u
        ])
    onward (returned u) k f = f u k
    onward (panicked u) k f = k

abbrev Remains : Str → Outcome (List Str) → Type 0
Remains s (returned l) = AllAre s l
Remains s (panicked l) = AllAre s l

remove_client-Remains :
    (s : Str) (groups : ℕ) (id : Str) (ids : List Str)
    → AllAre s ids
    → Remains s (remove_client groups id ids)
unfolding remove_client remove_slice
remove_client-Remains s groups id ids h =
    cut (remove_rounds groups id (length ids) 0 (record { array = ids; len = length ids }))
      (remove_rounds-Kept s groups id (length ids) 0 (record { array = ids; len = length ids }) h)
  where
    cut : (o : Outcome Slice) → Kept s o → Remains s (visible o)
    cut (returned t) k = AllAre-take s t.len t.array k
    cut (panicked t) k = AllAre-take s t.len t.array k

-- A system has no client but the one whose id is the system's.
abbrev pub Owned : Dict (List Str) → Type 0
Owned d = (s : Str) → AllAre s (values s d)

pub Owned-insert :
    (k : Str) (l : List Str) (d : Dict (List Str)) → AllAre k l → Owned d → Owned (insert k l d)
Owned-insert k l d h v s = elim (Bool-cases (str_eq k s)) [
  | inl e ↦
      let same : k ≡ s = (str_eq_iff k s).0 e in
      rw (values-insert k s l d, e) (subst (λ j. AllAre j l) same h)
  | inr e ↦ rw (values-insert k s l d, e) (v s)
]

del_system_client-Owned :
    (c : Client) (m : ClientManager)
    → Owned m.system_clients
    → Owned (recovered (del_system_client c m)).system_clients
unfolding del_system_client
del_system_client-Owned c m v = elim (Option-cases (lookup c.system_id m.system_clients)) [
  | inl e ↦ rw (e, del_system_client) v
  | inr (ids, e) ↦
      let all : AllAre c.system_id ids =
        subst (AllAre c.system_id) (values_present c.system_id ids m.system_clients e)
          (v c.system_id) in
      rw (e, del_system_client)
        (left (remove_client (length m.groups) c.client_id ids)
          (remove_client-Remains c.system_id (length m.groups) c.client_id ids all))
]
  where
    left :
        (o : Outcome (List Str))
        → Remains c.system_id o
        → Owned
            (recovered (elim o [
              | returned l ↦
                  returned (record m { system_clients = insert c.system_id l m.system_clients })
              | panicked l ↦
                  panicked (record m { system_clients = insert c.system_id l m.system_clients })
            ])).system_clients
    left (returned l) k = Owned-insert c.system_id l m.system_clients k v
    left (panicked l) k = Owned-insert c.system_id l m.system_clients k v

del_group_client-systems :
    (key id : Str) (m : ClientManager)
    → (recovered (del_group_client key id m)).system_clients ≡ m.system_clients
unfolding del_group_client
del_group_client-systems key id m = ground arith

-- DelClient gives a system no other client.
pub del_rest-Owned :
    (c : Client) (names : List Str) (m : ClientManager)
    → Owned m.system_clients
    → Owned (recovered (then_del_system_client c (del_groups c names m))).system_clients
unfolding del_groups
del_rest-Owned c [] m v = del_system_client-Owned c m v
del_rest-Owned c (name ∷ names) m v =
    let key = gen_group_key c.system_id name in
    let kept = del_group_client-systems key c.client_id m in
    elim (Outcome-cases (del_group_client key c.client_id m)) [
      | inl (n, e) ↦ rw (e, del_groups) (del_rest-Owned c names n (rw (rw e at kept) v))
      | inr (n, e) ↦ rw (e, del_groups) (rw (rw e at kept) v)
    ]
