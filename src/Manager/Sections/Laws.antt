-- ===== src/Manager/Sections/Laws.antt =====
-- Calls of AddClient2SystemClient and DelClient (servers/clientmanager.go) that run at the same time,
-- against the same calls one after the other.
use go_websocket.Prelude.{ℕ, ◌≡◌, refl, sym, ◌∙◌, inl, inr, some, List, [], ◌∷◌, arith, Bool-cases}
use go_websocket.Prelude.Text.{Str, str_eq}
use go_websocket.Client.{Client}
use go_websocket.Util.{gen_group_key}
use go_websocket.Manager.Removal.{Outcome, returned, panicked}
use go_websocket.Manager.{
  ClientManager, add_account, remove_account, add_client, del_client_id_map, del_group_client,
  del_system_client, recovered, then_del_system_client, del_groups, add_client2_system_client,
  del_client,
}
use go_websocket.Manager.Sound.{
  SameIds, del_rest-SameRest, IsSound, same_IsSound, add_client2_system_client-IsSound,
  del_client-IsSound,
}
use go_websocket.Manager.Sections.{
  Method, adds, deletes, Section, enters_system, leaves_group, leaves_system, section,
  first_section, group_sections, others, whole, Place, waits, within, Running, advance_from,
  advance, interleave, in_order, before,
}

-- Only the first section of a call reads or writes ClientIdMap and the online lists.
section-SameIds : (x : Section) (m : ClientManager) → SameIds m (recovered (section x m))
unfolding section del_group_client del_system_client
section-SameIds (enters_system id c) m = (refl, refl)
section-SameIds (leaves_group key id) m = ground arith
section-SameIds (leaves_system c) m = ground arith

first_section-SameIds :
    (k : Method) (m n : ClientManager)
    → SameIds m n
    → SameIds (first_section k m) (first_section k n)
unfolding first_section add_client add_account del_client_id_map remove_account
first_section-SameIds (adds id c r) m n (e, f) = ground arith
first_section-SameIds (deletes c) m n (e, f) = ground arith

whole-SameIds : (k : Method) (m : ClientManager) → SameIds (first_section k m) (whole k m)
unfolding first_section whole add_client2_system_client del_client
whole-SameIds (adds id c r) m = (refl, refl)
whole-SameIds (deletes c) m = elim (Bool-cases (str_eq c.client_id [])) [
  | inl e ↦ rw e (refl, refl)
  | inr e ↦
      rw e (let s = del_rest-SameRest c (del_client_id_map c.client_id c.addr m) in (s.0, s.1))
]

-- The sections of a call, one after the other.
abbrev pub run_sections : List Section → ClientManager → ClientManager
run_sections [] m = m
run_sections (x ∷ xs) m = elim (section x m) [ returned n ↦ run_sections xs n | panicked n ↦ n ]

group_sections_lem :
    (c : Client) (names : List Str) (m : ClientManager)
    → run_sections (group_sections c names) m
      ≡ recovered (then_del_system_client c (del_groups c names m))
unfolding group_sections section del_groups
group_sections_lem c [] m = last (del_system_client c m)
  where
    last : (o : Outcome ClientManager) → (elim o [ returned n ↦ n | panicked n ↦ n ]) ≡ recovered o
    last (returned n) = refl
    last (panicked n) = refl
group_sections_lem c (name ∷ names) m =
    goes_on (del_group_client (gen_group_key c.system_id name) c.client_id m)
      (λ n. group_sections_lem c names n)
  where
    goes_on :
        (o : Outcome ClientManager)
        → ((n : ClientManager)
            → run_sections (group_sections c names) n
              ≡ recovered (then_del_system_client c (del_groups c names n)))
        → (elim o [ returned n ↦ run_sections (group_sections c names) n | panicked n ↦ n ])
          ≡ recovered (
              then_del_system_client c
                (elim o [ returned n ↦ del_groups c names n | panicked n ↦ panicked n ]))
    goes_on (returned n) h = h n
    goes_on (panicked n) h = refl

-- Nothing of a call is outside its sections: they make of the manager what the call makes.
pub whole-sections :
    (k : Method) (m : ClientManager) → whole k m ≡ run_sections (others k) (first_section k m)
unfolding whole first_section others add_client2_system_client del_client section
whole-sections (adds id c r) m = refl
whole-sections (deletes c) m = elim (Bool-cases (str_eq c.client_id [])) [
  | inl e ↦ rw e
  | inr e ↦ rw e (sym (group_sections_lem c c.group_list (del_client_id_map c.client_id c.addr m)))
]

module _ (method : ℕ → Method) (m : ClientManager) where
  -- The maps of a run are those of the calls that have begun, one after the other.
  abbrev Follows : Running → Type 0
  Follows s = SameIds (in_order method s.begun m) s.manager

  advance_from-Follows :
      (p : Place) (i : ℕ) (s : Running) → Follows s → Follows (advance_from method p i s)
  unfolding in_order
  advance_from-Follows waits i s h =
      let (a, b) = first_section-SameIds (method i) (in_order method s.begun m) s.manager h in
      let (c, d) = whole-SameIds (method i) (in_order method s.begun m) in (a ∙ sym c, b ∙ sym d)
  advance_from-Follows (within []) i s h = h
  advance_from-Follows (within (x ∷ rest)) i s (a, b) =
      let (c, d) = section-SameIds x s.manager in (c ∙ a, d ∙ b)

  interleave-Follows :
      (schedule : List ℕ) (s : Running) → Follows s → Follows (interleave method schedule s)
  unfolding interleave advance
  interleave-Follows [] s h = h
  interleave-Follows (i ∷ schedule) s h =
      interleave-Follows schedule _ (advance_from-Follows (s.place i) i s h)

  in_order-IsSound : (begun : List ℕ) → IsSound m → IsSound (in_order method begun m)
  unfolding in_order whole
  in_order-IsSound [] v = v
  in_order-IsSound (i ∷ begun) v = whole_sound (method i) (in_order-IsSound begun v)
    where
      whole_sound :
          (k : Method)
          → IsSound (in_order method begun m)
          → IsSound (whole k (in_order method begun m))
      whole_sound (adds id c r) u = add_client2_system_client-IsSound id c r _ u
      whole_sound (deletes c) u = del_client-IsSound (some c) _ u

  -- Calls of AddClient2SystemClient and DelClient that run at the same time, with their locked sections
  -- in any order, leave ClientIdMap and the online lists as the same calls do one after the other, in the
  -- order in which they took the first lock; and the manager stays sound, if it is so at the start.
  pub interleave-in_order :
      (schedule : List ℕ)
      → IsSound m
      → SameIds
          (in_order method (interleave method schedule (before m)).begun m)
          (interleave method schedule (before m)).manager
        × IsSound (interleave method schedule (before m)).manager
  unfolding in_order
  interleave-in_order schedule v =
      let s = interleave method schedule (before m) in
      let h = interleave-Follows schedule (before m) (refl, refl) in
      (h, same_IsSound (in_order method s.begun m) s.manager h (in_order-IsSound s.begun v))
