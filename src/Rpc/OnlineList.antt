-- ===== src/Rpc/OnlineList.antt =====
-- GetOnlineListBroadcast of servers/rpcclient.go: when it returns, and what.
use mathlib.Core.List.{Perm, Permᴰ, perm_append_comm}
use mathlib.Core.List.Perm
use mathlib.Core.Logic.{∥∥₁_elim, ∥∥₁_prop}
use mathlib.Core.HLevel.{⊥_prop, Unit-prop, ×_prop}
use native.Mathlib.Nat.{ℕ_set}
use go_websocket.Prelude.{
  ℕ, zero, suc, ◌<◌, ◌≤◌, ◌≡◌, refl, sym, subst, ◌∙◌, ◌↔◌, Option, none, some, List, [], ◌∷◌, ◌++◌,
  length, arith, append_assoc, append-nil, inl, inr, ap, ◌⊎◌,
}
use go_websocket.Prelude.Text.{Str}
use go_websocket.Prelude.Dict.{Dict}
use go_websocket.Setting.{Global}
use go_websocket.Rpc.{
  Call, Network, group_clients_calls, answers, online_list_chan, receive_lists,
  get_online_list_broadcast,
}

abbrev IsAnswer : Option (List Str) → Type 0
IsAnswer none = ⊥
IsAnswer (some list) = Unit {0}

abbrev AllAnswered : List (Option (List Str)) → Type 0
AllAnswered [] = Unit {0}
AllAnswered (answer ∷ arrived) = IsAnswer answer × AllAnswered arrived

IsAnswer-prop : (answer : Option (List Str)) → IsProp (IsAnswer answer)
IsAnswer-prop none = ⊥_prop
IsAnswer-prop (some list) = Unit-prop

AllAnswered-prop : (arrived : List (Option (List Str))) → IsProp (AllAnswered arrived)
AllAnswered-prop [] = Unit-prop
AllAnswered-prop (answer ∷ arrived) = ×_prop (IsAnswer-prop answer) (AllAnswered-prop arrived)

abbrev listed : Option (List Str) → List Str
listed none = []
listed (some list) = list

-- All ids of the answers, one answer after the other.
abbrev joined : List (Option (List Str)) → List Str
joined [] = []
joined (answer ∷ arrived) = listed answer ++ joined arrived

receive_all :
    (arrived : List (Option (List Str))) (acc : List Str)
    → AllAnswered arrived
    → receive_lists (length arrived) (online_list_chan arrived) acc ≡ some (acc ++ joined arrived)
unfolding receive_lists online_list_chan
receive_all [] acc h = rw append-nil
receive_all (some list ∷ arrived) acc h =
    receive_all arrived (acc ++ list) h.1 ∙ ap some (append_assoc acc list (joined arrived))
receive_all (none ∷ arrived) acc h = absurd h.0

chan_bound :
    (arrived : List (Option (List Str))) → length (online_list_chan arrived) ≤ length arrived
unfolding online_list_chan
chan_bound [] = omega arith
chan_bound (some list ∷ arrived) = omega (arith, chan_bound arrived)
chan_bound (none ∷ arrived) = omega (arith, chan_bound arrived)

length-online_list_chan :
    (arrived : List (Option (List Str)))
    → (AllAnswered arrived) ⊎ (length (online_list_chan arrived) < length arrived)
unfolding online_list_chan
length-online_list_chan [] = inl tt
length-online_list_chan (some list ∷ arrived) = elim (length-online_list_chan arrived) [
  | inl h ↦ inl (tt, h)
  | inr h ↦ inr (omega arith)
]
length-online_list_chan (none ∷ arrived) = inr (omega (arith, chan_bound arrived))

receive_short :
    (n : ℕ) (chan : List (List Str)) (acc : List Str)
    → length chan < n
    → receive_lists n chan acc ≡ none
unfolding receive_lists
receive_short zero chan acc h = elim h [ ]
receive_short (suc n) [] acc h = refl
receive_short (suc n) (l ∷ chan) acc h = receive_short n chan (acc ++ l) (omega arith)

-- Every call ends, once.
abbrev pub EndsAll : Network → Type 0
EndsAll net = (calls : List Call) → Perm (net.ends calls) calls

-- Every server of a list answers.
abbrev pub AllAnswer : Network → Dict Str → Str → Str → Type 0
AllAnswer net servers system_id group_name =
    AllAnswered (answers net (group_clients_calls servers system_id group_name))

-- The ids that the servers of a list answer with.
abbrev pub answered : Network → Dict Str → Str → Str → List Str
answered net servers system_id group_name =
    joined (answers net (group_clients_calls servers system_id group_name))

length-group_clients_calls :
    (servers : Dict Str) (system_id group_name : Str)
    → length (group_clients_calls servers system_id group_name) ≡ length servers
unfolding group_clients_calls
length-group_clients_calls [] system_id group_name = refl
length-group_clients_calls ((key, addr) ∷ servers) system_id group_name =
    ap suc (length-group_clients_calls servers system_id group_name)

module _ (net : Network) where
  length-answers : (calls : List Call) → length (answers net calls) ≡ length calls
  unfolding answers
  length-answers [] = refl
  length-answers (call ∷ calls) = ap suc (length-answers calls)

  length_reordered : {a b : List Call} → Permᴰ a b → length a ≡ length b
  length_reordered Permᴰ.nil = refl
  length_reordered (Permᴰ.cons same p) = ap suc (length_reordered p)
  length_reordered (Permᴰ.swap first second) = refl
  length_reordered (Permᴰ.trans p q) = length_reordered p ∙ length_reordered q

  answered_reordered :
      {a b : List Call} → Permᴰ a b → AllAnswered (answers net a) → AllAnswered (answers net b)
  unfolding answers
  answered_reordered Permᴰ.nil h = tt
  answered_reordered (Permᴰ.cons same p) h =
      (subst IsAnswer (ap net.answer same) h.0, answered_reordered p h.1)
  answered_reordered (Permᴰ.swap first second) h = (
    subst IsAnswer (ap net.answer second) h.1.0,
    (subst IsAnswer (ap net.answer first) h.0, h.1.1),
  )
  answered_reordered (Permᴰ.trans p q) h = answered_reordered q (answered_reordered p h)

  joined_reordered :
      {a b : List Call} → Permᴰ a b → Perm (joined (answers net a)) (joined (answers net b))
  unfolding answers
  joined_reordered Permᴰ.nil = Perm.refl []
  joined_reordered (Permᴰ.cons {a} {b} {l₁} {l₂} same p) =
      subst
        (λ c.
          Perm (listed (net.answer a) ++ joined (answers net l₁))
            (listed (net.answer c) ++ joined (answers net l₂)))
        same (Perm.append_left (listed (net.answer a)) (joined_reordered p))
  joined_reordered (Permᴰ.swap {a} {b} {a'} {b'} {l} first second) =
      let xs = listed (net.answer a) in
      let ys = listed (net.answer b) in
      let rest = joined (answers net l) in
      let swapped : Perm (xs ++ (ys ++ rest)) (ys ++ (xs ++ rest)) =
        rw (append_assoc xs ys rest, append_assoc ys xs rest) at
          (Perm.append_right rest (perm_append_comm xs ys)) in
      subst
        (λ c. Perm (xs ++ (ys ++ rest)) (listed (net.answer c) ++ (listed (net.answer b') ++ rest)))
        second
        (subst (λ c. Perm (xs ++ (ys ++ rest)) (ys ++ (listed (net.answer c) ++ rest))) first
          swapped)
  joined_reordered (Permᴰ.trans p q) = Perm.trans (joined_reordered p) (joined_reordered q)

  module _ (all : EndsAll net) (global : Global) (system_id group_name : Str) where
    abbrev calls : List Call
    calls = group_clients_calls global.server_list system_id group_name

    -- There is one answer for each server.
    one_for_each : length (answers net (net.ends calls)) ≡ length global.server_list
    one_for_each =
        length-answers (net.ends calls)
        ∙ (∥∥₁_elim (all calls) (ℕ_set _ _) length_reordered
            ∙ length-group_clients_calls global.server_list system_id group_name)

    received :
        get_online_list_broadcast net global system_id group_name
        ≡ receive_lists
            (length (answers net (net.ends calls)))
            (online_list_chan (answers net (net.ends calls)))
            []
    unfolding get_online_list_broadcast
    received =
        ap (λ n. receive_lists n (online_list_chan (answers net (net.ends calls))) [])
          (sym one_for_each)

    -- If every server of the list answers, GetOnlineListBroadcast returns all ids of the answers, in
    -- some order.
    pub get_online_list_broadcast_answers :
        AllAnswer net global.server_list system_id group_name
        → (ids : List Str) × (get_online_list_broadcast net global system_id group_name ≡ some ids)
          × Perm ids (answered net global.server_list system_id group_name)
    get_online_list_broadcast_answers h = (
      joined (answers net (net.ends calls)),
      received
          ∙ receive_all (answers net (net.ends calls)) []
              (∥∥₁_elim (Perm.symm (all calls)) (AllAnswered-prop _) (λ p. answered_reordered p h)),
      ∥∥₁_elim (all calls) ∥∥₁_prop joined_reordered,
    )

    -- Where each call of GetOnlineListBroadcast ends, with an answer or an error, it waits for ever
    -- exactly when not every server of the list answers the call for the group that it makes to it.
    pub get_online_list_broadcast_waits :
        (get_online_list_broadcast net global system_id group_name ≡ none)
        ↔ (¬ AllAnswer net global.server_list system_id group_name)
    get_online_list_broadcast_waits = (
      λ e answer. let (ids, f, same) = get_online_list_broadcast_answers answer in clash ids f e,
      λ h. elim (length-online_list_chan (answers net (net.ends calls))) [
        | inl done ↦
            absurd (h (∥∥₁_elim (all calls) (AllAnswered-prop _) (λ p. answered_reordered p done)))
        | inr short ↦
            received
            ∙ receive_short (length (answers net (net.ends calls)))
                (online_list_chan (answers net (net.ends calls))) [] short
      ],
    )
      where
        clash :
            (ids : List Str)
            → get_online_list_broadcast net global system_id group_name ≡ some ids
            → get_online_list_broadcast net global system_id group_name ≡ none
            → ⊥
        clash ids f e = cc
