-- ===== src/System/Bound.antt =====
-- The connections in ClientIdMap and in the channel Connect (servers/clientmanager.go) are allocated
-- clients, and stand in the map under their own ids and addresses.
use go_websocket.Prelude.{
  ◌+◌, ◌<◌, ◌≡◌, refl, sym, ap, ◌∙◌, subst, ◌==◌, ==_iff, Bool, Option, true, false, none, some,
  List, [], ◌∷◌, ◌++◌, arith, if◌then◌else◌, Bool-cases, inl, inr,
}
use go_websocket.Prelude.Text.{Str, str_eq, str_eq_iff}
use go_websocket.Prelude.Dict.{Dict, lookup, lookup-insert, lookup-erase, erase}
use go_websocket.Client.{Client, Ref, Heap, store}
use go_websocket.Manager.{ClientManager, is_app, add_client, del_client_id_map, del_client}
use go_websocket.Manager.Maps.{
  entry, lookup-add_client, del_client_id_map_cases, client_id_map-remove_account,
}
use go_websocket.Manager.Lookups.{lookup-entry}
use go_websocket.Manager.Sound.{del_rest-SameRest}

-- The references of a list are allocated.
abbrev pub AllBelow : Ref → List Ref → Type 0
AllBelow n [] = Unit {0}
AllBelow n (r ∷ rs) = (r < n) × AllBelow n rs

pub AllBelow-append :
    (n r : Ref) (rs : List Ref) → AllBelow n rs → r < n → AllBelow n (rs ++ r ∷ [])
AllBelow-append n r [] h k = (k, tt)
AllBelow-append n r (q ∷ rs) (h, hs) k = (h, AllBelow-append n r rs hs k)

pub AllBelow-suc : (n : Ref) (rs : List Ref) → AllBelow n rs → AllBelow (n + 1) rs
AllBelow-suc n [] h = tt
AllBelow-suc n (r ∷ rs) (h, hs) = (omega arith, AllBelow-suc n rs hs)

pub record IsBound (heap : Heap) (n : Ref) (m : Dict (Dict Ref)) (waiting : List Ref) : Type 0 where
  pub named :
      (id : Str) (d : Dict Ref) (a : Str) (r : Ref)
      → lookup id m ≡ some d
      → lookup a d ≡ some r
      → (r < n) × ((heap r).client_id ≡ id) × ((heap r).addr ≡ a)
  pub allocated : AllBelow n waiting

erased_was {ℓ} :
    {V : Type ℓ} (k j : Str) (v : V) (d : Dict V)
    → lookup j (erase k d) ≡ some v
    → lookup j d ≡ some v
erased_was k j v d h = elim (Bool-cases (str_eq k j)) [
  | inl e ↦ absurd (ground (arith, lookup-erase k j d, h, e))
  | inr e ↦ sym (lookup-erase k j d ∙ rw e) ∙ h
]

-- What stands in the new entry of a client at another address stood in the old one.
entry_was :
    (c : Client) (r : Ref) (m : ClientManager) (a : Str) (q : Ref)
    → str_eq c.addr a ≡ false
    → lookup a (entry c r m) ≡ some q
    → (old : Dict Ref) × (lookup c.client_id m.client_id_map ≡ some old) × (lookup a old ≡ some q)
entry_was c r m a q f k = found (is_app c.client_id) (lookup c.client_id m.client_id_map) (
    ap
      (λ (t : Bool).
        if t
        then some r
        else if is_app c.client_id
        then none
        else elim (lookup c.client_id m.client_id_map) [ none ↦ none | some old ↦ lookup a old ])
      (sym f)
    ∙ (sym (lookup-entry c r m a) ∙ k))
  where
    found :
        (b : Bool) (o : Option (Dict Ref))
        → (if b then none else elim o [ none ↦ none | some old ↦ lookup a old ]) ≡ some q
        → (old : Dict Ref) × (o ≡ some old) × (lookup a old ≡ some q)
    found true o h = absurd (ground (arith, h))
    found false none h = absurd (ground (arith, h))
    found false (some old) h = (old, refl, h)

module _ (heap : Heap) (n : Ref) (waiting : List Ref) where
  pub add_client-IsBound :
      (c : Client) (r : Ref) (m : ClientManager)
      → r < n
      → (heap r).client_id ≡ c.client_id
      → (heap r).addr ≡ c.addr
      → IsBound heap n m.client_id_map waiting
      → IsBound heap n (add_client c r m).client_id_map waiting
  add_client-IsBound c r m fits same_id same_addr v = record {
    named = λ id d a q h k. elim (Bool-cases (str_eq c.client_id id)) [
      | inl e ↦
          (let same : c.client_id ≡ id = (str_eq_iff c.client_id id).0 e in
            let new : entry c r m ≡ d = ground (arith, lookup-add_client c r m id, h, e) in
            let there = ap (λ x. lookup a x) new ∙ k in
            elim (Bool-cases (str_eq c.addr a)) [
              | inl f ↦
                  let self : r ≡ q = ground (arith, lookup-entry c r m a, there, f) in
                  subst (λ x. (x < n) × ((heap x).client_id ≡ id) × ((heap x).addr ≡ a)) self
                    (fits, same_id ∙ same, same_addr ∙ (str_eq_iff c.addr a).0 f)
              | inr f ↦
                  let (old, was, k') = entry_was c r m a q f there in
                  v.named id old a q (ap (λ x. lookup x m.client_id_map) (sym same) ∙ was) k'
            ])
      | inr e ↦ v.named id d a q (sym (lookup-add_client c r m id ∙ rw e) ∙ h) k
    ];
    allocated = v.allocated;
  }

  pub del_client_id_map-IsBound :
      (id addr : Str) (m : ClientManager)
      → IsBound heap n m.client_id_map waiting
      → IsBound heap n (del_client_id_map id addr m).client_id_map waiting
  del_client_id_map-IsBound id addr m v =
      del_client_id_map_cases (λ o. IsBound heap n o.client_id_map waiting) id addr m v
        (rw client_id_map-remove_account (record {
          named = λ j d a q h k. v.named j d a q (erased_was id j d m.client_id_map h) k;
          allocated = v.allocated;
        }))
        (λ d found kept. record {
          named = λ j x a q h k. elim (Bool-cases (str_eq id j)) [
            | inl e ↦
                (let same : id ≡ j = (str_eq_iff id j).0 e in
                  let less : erase id d ≡ x =
                    ground (arith, lookup-insert id j (erase id d) m.client_id_map, h, e) in
                  v.named j d a q (ap (λ t. lookup t m.client_id_map) (sym same) ∙ found)
                    (erased_was id a q d (ap (λ t. lookup a t) less ∙ k)))
            | inr e ↦
                v.named j x a q (sym (lookup-insert id j (erase id d) m.client_id_map ∙ rw e) ∙ h) k
          ];
          allocated = v.allocated;
        })

  pub del_client-IsBound :
      (c : Client) (m : ClientManager)
      → IsBound heap n m.client_id_map waiting
      → IsBound heap n (del_client (some c) m).client_id_map waiting
  unfolding del_client
  del_client-IsBound c m v = elim (Bool-cases (str_eq c.client_id [])) [
    | inl e ↦ rw e v
    | inr e ↦
        rw (e, (del_rest-SameRest c (del_client_id_map c.client_id c.addr m)).0)
          (del_client_id_map-IsBound c.client_id c.addr m v)
  ]

  -- A new client.
  pub fresh-IsBound :
      (c : Client) (m : Dict (Dict Ref))
      → IsBound heap n m waiting
      → IsBound (store n c heap) (n + 1) m waiting
  fresh-IsBound c m v = record {
    named = λ id d a r h k.
        let (below, i, j) = v.named id d a r h k in
        let other : (n == r) ≡ false = ground arith in (omega arith, rw other i, rw other j);
    allocated = AllBelow-suc n waiting v.allocated;
  }

  -- A write to a client that leaves its id and its address.
  pub store-IsBound :
      (p : Ref) (c : Client) (m : Dict (Dict Ref))
      → c.client_id ≡ (heap p).client_id
      → c.addr ≡ (heap p).addr
      → IsBound heap n m waiting
      → IsBound (store p c heap) n m waiting
  store-IsBound p c m same_id same_addr v = record {
    named = λ id d a r h k.
        let (below, i, j) = v.named id d a r h k in
        elim (Bool-cases (p == r)) [
          | inl e ↦
              let same : p ≡ r = (==_iff p r).0 e in
              (
                below,
                rw e (same_id ∙ (ap (λ x. (heap x).client_id) same ∙ i)),
                rw e (same_addr ∙ (ap (λ x. (heap x).addr) same ∙ j)),
              )
          | inr e ↦ (below, rw e i, rw e j)
        ];
    allocated = v.allocated;
  }
