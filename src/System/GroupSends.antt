-- ===== src/System/GroupSends.antt =====
-- A message to the clients of a group on this machine: SendMessage2LocalGroup of
-- servers/clientmanager.go ranges over the slice from which it deletes a client that is gone.
pub mod Skips
use go_websocket.Prelude.{
  ℕ, zero, suc, ◌+◌, ◌≤◌, ◌<◌, ◌≡◌, refl, sym, ap, ◌∙◌, true, false, List, [], ◌∷◌, ◌++◌, length,
  take, drop, get_or, Bool-cases, inl, inr, arith, ltb, lt→ltb, length-append, length-drop,
  append-nil, append_assoc, drop-append,
}
use go_websocket.Prelude.Text.{Str, str_eq, str_eq_iff}
use go_websocket.Prelude.Dict.{Dict, values, insert}
use go_websocket.Prelude.Result.{ok, err, Error}
use go_websocket.Client.{Ref}
use go_websocket.Util.{gen_group_key}
use go_websocket.Util.{gen_group_key}
use go_websocket.Manager.{ClientManager, get_by_client_id, get_group_client_list}
use go_websocket.Manager.Removal.{returned, Slice, remove_slice}
use go_websocket.Manager.Removal.Rounds.{Lacks}
use go_websocket.Manager.Removal.Laws.{remove_slice_gap, take_gap}
use go_websocket.World.{ClientInfo, World, done, ◌>>=◌, to_client_cap, send_message2_local_client}
use go_websocket.Events.{local_group_rounds, send_message2_local_group}
use go_websocket.System.Broadcasts.{addressed}

-- GetByClientId finds all of the ids.
abbrev pub AllConnected : ClientManager → List Str → Type 0
AllConnected m [] = Unit {0}
AllConnected m (id ∷ ids) = ((d : Dict Ref) × (get_by_client_id id m ≡ ok d)) × AllConnected m ids

head_of :
    (i : ℕ) (view : List Str) (id : Str) (t : List Str)
    → drop i view ≡ id ∷ t
    → (get_or view i [] ≡ id) × (drop (i + 1) view ≡ t)
head_of zero [] id t e = absurd (ground (arith, e))
head_of zero (x ∷ view) id t e = ground (arith, e)
head_of (suc i) [] id t e = absurd (ground (arith, e))
head_of (suc i) (x ∷ view) id t e =
    let (a, b) = head_of i view id t e in
    (a, ap (λ n. drop n (x ∷ view)) (let n : suc i + 1 ≡ suc (i + 1) = omega arith in n) ∙ b)

pub at_round :
    (key : Str) (info : ClientInfo) (n m i j : ℕ) (view : List Str) (w v : World)
    → n ≡ m
    → i ≡ j
    → w ≡ v
    → local_group_rounds key info n i view w ≡ local_group_rounds key info m j view v
at_round key info n m i j view w v a b e = cc

-- A round whose client is connected.
round_sent :
    (key : Str) (info : ClientInfo) (rest i : ℕ) (view : List Str) (w : World) (id : Str)
    (d : Dict Ref)
    → get_or view i [] ≡ id
    → get_by_client_id id w.manager ≡ ok d
    → length w.to_client_chan < to_client_cap
    → local_group_rounds key info (suc rest) i view w
      ≡ local_group_rounds key info rest
          (i + 1)
          view
          (record w { to_client_chan = w.to_client_chan ++ record info { client_id = id } ∷ [] })
unfolding local_group_rounds send_message2_local_client
round_sent key info rest i view w id d p f h = rw (
  local_group_rounds,
  ap (λ x. get_by_client_id x w.manager) p ∙ f,
  lt→ltb (length w.to_client_chan) to_client_cap h,
  p,
)

-- The message goes to the clients of the next rounds, as long as they are connected.
pub rounds_sent :
    (key : Str) (info : ClientInfo) (ids after : List Str) (rest i : ℕ) (view : List Str)
    (w : World)
    → drop i view ≡ ids ++ after
    → AllConnected w.manager ids
    → length w.to_client_chan + length ids ≤ to_client_cap
    → local_group_rounds key info (length ids + rest) i view w
      ≡ local_group_rounds key info rest
          (i + length ids)
          view
          (record w { to_client_chan = w.to_client_chan ++ addressed info ids })
unfolding local_group_rounds send_message2_local_client
rounds_sent key info [] after rest i view w e c h =
    at_round key info (0 + rest) rest i (i + 0) view w _ (omega arith) (omega arith)
      (ap (λ l. record w { to_client_chan = l }) (sym (append-nil w.to_client_chan)))
rounds_sent key info (id ∷ ids) after rest i view w e ((d, f), c) h =
    let (x, y) = head_of i view id (ids ++ after) e in
    let one = record info { client_id = id } in
    let v = record w { to_client_chan = w.to_client_chan ++ one ∷ [] } in
    at_round key info (suc (length ids) + rest) (suc (length ids + rest)) i i view w w (omega arith)
      refl refl
    ∙ (round_sent key info (length ids + rest) i view w id d x f (omega arith)
        ∙ (rounds_sent key info ids after rest (i + 1) view v y c
              (omega (arith, length-append w.to_client_chan (one ∷ [])))
            ∙ at_round key info rest rest (i + 1 + length ids) (i + suc (length ids)) view _ _ refl
                (omega arith)
                (ap (λ l. record w { to_client_chan = l })
                  (append_assoc w.to_client_chan (one ∷ []) (addressed info ids)))))

-- A client that is gone is taken out of the group.
pub round_removed :
    (key : Str) (info : ClientInfo) (rest i : ℕ) (view : List Str) (w : World) (id : Str)
    (t : List Str) (x : Error) (s : Slice)
    → drop i view ≡ id ∷ t
    → get_by_client_id id w.manager ≡ err x
    → remove_slice (length w.manager.groups) id (values key w.manager.groups) ≡ returned s
    → local_group_rounds key info (suc rest) i view w
      ≡ local_group_rounds key info rest
          (i + 1)
          (s.array ++ drop (length (values key w.manager.groups)) view)
          (record w {
            manager = record w.manager {
              groups = insert key (take s.len s.array) w.manager.groups;
            };
          })
unfolding local_group_rounds
round_removed key info rest i view w id t x s e f g =
    let (p, q) = head_of i view id t e in
    rw (
      local_group_rounds,
      ap (λ x. get_by_client_id x w.manager) p ∙ f,
      ap (λ x. remove_slice (length w.manager.groups) x (values key w.manager.groups)) p ∙ g,
    )

pub addressed-append :
    (info : ClientInfo) (a b : List Str)
    → addressed info (a ++ b) ≡ addressed info a ++ addressed info b
addressed-append info [] b = refl
addressed-append info (id ∷ a) b =
    ap (λ l. record info { client_id = id } ∷ l) (addressed-append info a b)

-- A client that is gone is none of those that are connected.
pub connected-Lacks :
    (m : ClientManager) (v : Str) (x : Error) (ids : List Str)
    → get_by_client_id v m ≡ err x
    → AllConnected m ids
    → Lacks v ids
connected-Lacks m v x [] e c = tt
connected-Lacks m v x (id ∷ ids) e ((d, f), c) = (
  elim (Bool-cases (str_eq id v)) [
    | inl b ↦
        let same : id ≡ v = (str_eq_iff id v).0 b in
        let clash = sym f ∙ (ap (λ j. get_by_client_id j m) same ∙ e) in
        absurd (ground (arith, clash))
    | inr b ↦ b
  ],
  connected-Lacks m v x ids e c,
)

-- The last one twice.
pub doubled :
    (m : ClientManager) (r : List Str) (z : Str)
    → AllConnected m (r ++ z ∷ [])
    → AllConnected m (r ++ z ∷ z ∷ [])
doubled m [] z (d, c) = (d, (d, c))
doubled m (id ∷ r) z (d, c) = (d, doubled m r z c)

pub last_cell :
    (v x z : Str) (r : List Str)
    → drop (length (x ∷ (r ++ z ∷ []))) (v ∷ x ∷ (r ++ z ∷ [])) ≡ z ∷ []
last_cell v x z r =
    drop-append (x ∷ r) (z ∷ []) 0 (length (r ++ z ∷ [])) (omega (arith, length-append r (z ∷ [])))

-- A message to a group on this machine whose clients are all connected is put on the channel once for
-- each of them, in the order of the group's list, and nothing else changes. The channel must have room.
pub group_message_reaches :
    (system_id group_name : Str) (info : ClientInfo) (w : World)
    → str_eq group_name [] ≡ false
    → (ids : List Str) → get_group_client_list (gen_group_key system_id group_name) w.manager ≡ ids
    → AllConnected w.manager ids
    → length w.to_client_chan + length ids ≤ to_client_cap
    → send_message2_local_group system_id group_name info w
      ≡ done (record w { to_client_chan = w.to_client_chan ++ addressed info ids })
unfolding send_message2_local_group local_group_rounds
group_message_reaches system_id group_name info w named ids list connected room =
    let key = gen_group_key system_id group_name in
    rw (named, list)
      (at_round key info (length ids) (length ids + 0) 0 0 ids w w (omega arith) refl refl
        ∙ rounds_sent key info ids [] 0 0 ids w (sym (append-nil ids)) connected room)
