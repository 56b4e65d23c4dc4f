-- ===== src/System/GroupSends/Skips.antt =====
-- What becomes of a message to a group on this machine (servers/clientmanager.go) one of whose clients is
-- gone.
use go_websocket.Prelude.{
  suc, ◌+◌, ◌≤◌, ◌<◌, ◌≡◌, refl, sym, ap, ◌∙◌, false, List, [], ◌∷◌, ◌++◌, length, take, drop,
  arith, lt→ltb, length-append, append-nil, append_assoc, drop-append,
}
use go_websocket.Prelude.Text.{Str, str_eq}
use go_websocket.Prelude.Dict.{values, insert}
use go_websocket.Prelude.Result.{err, Error}
use go_websocket.Util.{gen_group_key}
use go_websocket.Manager.{get_by_client_id, get_group_client_list}
use go_websocket.Manager.Removal.{returned, remove_slice}
use go_websocket.Manager.Removal.Rounds.{over}
use go_websocket.Manager.Removal.Laws.{remove_slice_gap, take_gap}
use go_websocket.World.{ClientInfo, World, done, to_client_cap}
use go_websocket.Events.{local_group_rounds, send_message2_local_group}
use go_websocket.System.Broadcasts.{addressed, length-addressed}
use go_websocket.System.GroupSends.{
  AllConnected, at_round, rounds_sent, round_removed, addressed-append, connected-Lacks, doubled,
  last_cell,
}

drop_all : (l : List Str) → drop (length l) l ≡ []
drop_all l = ap (drop (length l)) (sym (append-nil l)) ∙ drop-append l [] 0 (length l) (omega arith)

module _ (key : Str) (info : ClientInfo) (w : World) (p r : List Str) (v x z : Str) (e : Error)
    (list : values key w.manager.groups ≡ p ++ v ∷ x ∷ (r ++ z ∷ []))
    (before : AllConnected w.manager p) (behind : AllConnected w.manager (x ∷ (r ++ z ∷ [])))
    (gone : get_by_client_id v w.manager ≡ err e) (groups : length p + 1 < length w.manager.groups)
    (room : length w.to_client_chan + (length p + (length r + 2)) ≤ to_client_cap) where
  abbrev last : List Str
  last = x ∷ (r ++ z ∷ [])

  -- The array once the client is deleted.
  abbrev moved : List Str
  moved = p ++ (last ++ drop (length last) (v ∷ last))

  abbrev told : World
  told = record w { to_client_chan = w.to_client_chan ++ addressed info p }

  abbrev deleted : World
  deleted = record told {
    manager = record w.manager {
      groups = insert key (take (length p + length last) moved) w.manager.groups;
    };
  }

  first_rounds :
      local_group_rounds key info (length (p ++ v ∷ last)) 0 (p ++ v ∷ last) w
      ≡ local_group_rounds key info (suc (length last)) (0 + length p) (p ++ v ∷ last) told
  first_rounds =
      at_round key info _ (length p + suc (length last)) 0 0 (p ++ v ∷ last) w w
        (omega (arith, length-append p (v ∷ last))) refl refl
      ∙ rounds_sent key info p (v ∷ last) (suc (length last)) 0 (p ++ v ∷ last) w refl before
          (omega arith)

  removed :
      remove_slice (length w.manager.groups) v (values key w.manager.groups)
      ≡ returned (over moved (length p + length last))
  removed =
      ap (remove_slice (length w.manager.groups) v) list
      ∙ remove_slice_gap (length w.manager.groups) v p last
          (connected-Lacks w.manager v e p gone before)
          (connected-Lacks w.manager v e last gone behind)
          (lt→ltb (length p + 1) (length w.manager.groups) groups)

  view_behind :
      moved ++ drop (length (values key w.manager.groups)) (p ++ v ∷ last)
      ≡ p ++ x ∷ (r ++ z ∷ z ∷ [])
  view_behind =
      ap (λ l. moved ++ l)
        (ap (λ l. drop (length l) (p ++ v ∷ last)) list ∙ drop_all (p ++ v ∷ last))
      ∙ (append-nil moved
          ∙ ap (λ l. p ++ l)
              (ap (λ l. last ++ l) (last_cell v x z r)
                ∙ ap (λ l. x ∷ l) (append_assoc r (z ∷ []) (z ∷ []))))

  middle_round :
      local_group_rounds key info (suc (length last)) (0 + length p) (p ++ v ∷ last) told
      ≡ local_group_rounds key info
          (length last)
          (0 + length p + 1)
          (p ++ x ∷ (r ++ z ∷ z ∷ []))
          deleted
  middle_round =
      round_removed key info (length last) (0 + length p) (p ++ v ∷ last) told v last e
        (over moved (length p + length last))
        (drop-append p (v ∷ last) 0 (0 + length p) (omega arith)) gone removed
      ∙ ap (λ l. local_group_rounds key info (length last) (0 + length p + 1) l deleted) view_behind

  last_rounds :
      local_group_rounds key info
        (length last)
        (0 + length p + 1)
        (p ++ x ∷ (r ++ z ∷ z ∷ []))
        deleted
      ≡ done (record deleted {
        to_client_chan = told.to_client_chan ++ addressed info (r ++ z ∷ z ∷ []);
      })
  unfolding local_group_rounds get_by_client_id
  last_rounds =
      at_round key info (length last) (length (r ++ z ∷ z ∷ []) + 0) _ _ _ deleted deleted
        (omega (arith, length-append r (z ∷ []), length-append r (z ∷ z ∷ []))) refl refl
      ∙ rounds_sent key info (r ++ z ∷ z ∷ []) [] 0 (0 + length p + 1) (p ++ x ∷ (r ++ z ∷ z ∷ []))
          deleted
          (drop-append p (x ∷ (r ++ z ∷ z ∷ [])) 1 (0 + length p + 1) (omega arith)
            ∙ sym (append-nil (r ++ z ∷ z ∷ [])))
          (doubled w.manager r z behind.1)
          (omega (
            arith,
            length-append w.to_client_chan (addressed info p),
            length-addressed info p,
            length-append r (z ∷ z ∷ []),
          ))

  all_rounds :
      local_group_rounds key info (length (p ++ v ∷ last)) 0 (p ++ v ∷ last) w
      ≡ done (record w {
        to_client_chan = w.to_client_chan ++ addressed info (p ++ (r ++ z ∷ z ∷ []));
        manager = record w.manager { groups = insert key (p ++ last) w.manager.groups };
      })
  all_rounds =
      first_rounds
      ∙ (middle_round
          ∙ (last_rounds
              ∙ (ap (λ l. done (record deleted { to_client_chan = l }))
                    (append_assoc w.to_client_chan (addressed info p)
                        (addressed info (r ++ z ∷ z ∷ []))
                      ∙ ap (λ l. w.to_client_chan ++ l)
                          (sym (addressed-append info p (r ++ z ∷ z ∷ []))))
                  ∙ ap
                      (λ l. done (record w {
                        to_client_chan =
                            w.to_client_chan ++ addressed info (p ++ (r ++ z ∷ z ∷ []));
                        manager = record w.manager { groups = insert key l w.manager.groups };
                      }))
                      (take_gap (length w.manager.groups) v p last))))

-- A message to a group on this machine, one client of which is gone, leaves out the client right behind
-- that one and goes to the last client twice: the client that is gone is deleted from the slice that
-- the loop ranges over, which moves the others up. The group has the clients `p`, then the one that is
-- gone, then `x`, then `r` and last `z`; all but the one are connected, the place behind it is below the
-- number of groups, and the channel to the clients has room.
pub group_message_skips :
    (system_id group_name : Str) (info : ClientInfo) (w : World)
    → str_eq group_name [] ≡ false
    → (p r : List Str) (gone x z : Str)
    → get_group_client_list (gen_group_key system_id group_name) w.manager
      ≡ p ++ gone ∷ x ∷ (r ++ z ∷ [])
    → AllConnected w.manager p
    → AllConnected w.manager (x ∷ (r ++ z ∷ []))
    → (e : Error) → get_by_client_id gone w.manager ≡ err e
    → length p + 1 < length w.manager.groups
    → length w.to_client_chan + (length p + (length r + 2)) ≤ to_client_cap
    → send_message2_local_group system_id group_name info w
      ≡ done (record w {
        to_client_chan = w.to_client_chan ++ addressed info (p ++ (r ++ z ∷ z ∷ []));
        manager = record w.manager {
          groups =
              insert (gen_group_key system_id group_name) (p ++ x ∷ (r ++ z ∷ [])) w.manager.groups;
        };
      })
unfolding send_message2_local_group get_group_client_list
group_message_skips system_id group_name info w named p r gone x z list before behind e absent
      groups room =
    rw (named, list)
      (all_rounds (gen_group_key system_id group_name) info w p r gone x z e list before behind
        absent groups room)
