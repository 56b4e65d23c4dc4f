-- ===== src/System/Table/Methods.antt =====
-- AddClient and DelClient of servers/clientmanager.go as changes of the table.
use mathlib.Core.Path.{fun_ext}
use go_websocket.Prelude.{
  ◌≡◌, refl, ap, ◌∙◌, inl, inr, true, Option, none, some, [], ◌∷◌, arith, if◌then◌else◌,
  Option-cases, Bool-cases,
}
use go_websocket.Prelude.Text.{Str, str_eq, str_eq_iff}
use go_websocket.Prelude.Dict.{Dict, lookup, insert, erase, lookup-insert, lookup-erase}
use go_websocket.Client.{Client, Ref}
use go_websocket.Manager.{ClientManager, is_empty, add_client, del_client_id_map, del_client}
use go_websocket.Manager.Maps.{lookup-add_client, client_id_map-remove_account}
use go_websocket.Manager.Lookups.{lookup-entry}
use go_websocket.Manager.Sound.{del_rest-SameRest}
use go_websocket.System.Table.{in_entry, at, Effect, stays, enters, drops, apply}

in_entry_elim :
    (a : Str) (o : Option (Dict Ref))
    → in_entry a o ≡ (elim o [ none ↦ none | some d ↦ lookup a d ])
in_entry_elim a none = refl
in_entry_elim a (some d) = refl

pub at-add_client :
    (c : Client) (r : Ref) (m : ClientManager)
    → at (add_client c r m).client_id_map ≡ apply (enters c.client_id c.addr r) (at m.client_id_map)
unfolding apply
at-add_client c r m = fun_ext λ j. fun_ext λ a. elim (Bool-cases (str_eq c.client_id j)) [
  | inl e ↦
      let same : c.client_id ≡ j = (str_eq_iff c.client_id j).0 e in
      ap (in_entry a) (lookup-add_client c r m j)
      ∙ rw e (lookup-entry c r m a ∙ rw (← same, in_entry_elim) refl)
  | inr e ↦ ap (in_entry a) (lookup-add_client c r m j) ∙ rw e refl
]

-- An empty map holds nothing.
none_empty : (a : Str) (d : Dict Ref) → is_empty d ≡ true → lookup a d ≡ none
unfolding lookup
none_empty a [] h = refl
none_empty a (y ∷ ys) h = ground (arith, h)

-- The ends of delClientIdMap where it deletes.
erased_at :
    (id j a : Str) (m : Dict (Dict Ref)) (d : Dict Ref)
    → lookup id m ≡ some d
    → is_empty (erase id d) ≡ true
    → at (erase id m) j a
      ≡ (if str_eq id j then (if str_eq id a then none else at m j a) else at m j a)
erased_at id j a m d e f = ground (
  arith,
  none_empty a (erase id d) f,
  lookup-erase id j m,
  str_eq_iff id j,
  lookup-erase id a d,
  e,
)

lessened_at :
    (id j a : Str) (m : Dict (Dict Ref)) (d : Dict Ref)
    → lookup id m ≡ some d
    → at (insert id (erase id d) m) j a
      ≡ (if str_eq id j then (if str_eq id a then none else at m j a) else at m j a)
lessened_at id j a m d e =
    ground (arith, lookup-insert id j (erase id d) m, str_eq_iff id j, lookup-erase id a d, e)

pub at-del_client_id_map :
    (id addr : Str) (m : ClientManager)
    → at (del_client_id_map id addr m).client_id_map ≡ apply (drops id addr) (at m.client_id_map)
unfolding del_client_id_map apply
at-del_client_id_map id addr m = fun_ext λ j. fun_ext λ a.
    elim (Option-cases (lookup id m.client_id_map)) [
      | inl e ↦ rw (apply, e, del_client_id_map) refl
      | inr (d, e) ↦ elim (Option-cases (lookup addr d)) [
        | inl f ↦ rw (apply, e, f, del_client_id_map) refl
        | inr (r, f) ↦ elim (Bool-cases (is_empty (erase id d))) [
          | inl g ↦
              rw (apply, e, f, g, del_client_id_map, client_id_map-remove_account)
                (erased_at id j a m.client_id_map d e g)
          | inr g ↦ rw (apply, e, f, g, del_client_id_map) (lessened_at id j a m.client_id_map d e)
        ]
      ]
    ]

-- What DelClient makes of the connections.
abbrev pub drop_of : Client → Effect
drop_of c = if str_eq c.client_id [] then stays else drops c.client_id c.addr

pub at-del_client :
    (c : Client) (m : ClientManager)
    → at (del_client (some c) m).client_id_map ≡ apply (drop_of c) (at m.client_id_map)
unfolding del_client apply
at-del_client c m = elim (Bool-cases (str_eq c.client_id [])) [
  | inl e ↦ rw (e, apply) refl
  | inr e ↦
      rw (e, (del_rest-SameRest c (del_client_id_map c.client_id c.addr m)).0)
        (at-del_client_id_map c.client_id c.addr m)
]
