-- ===== src/Discovery/Puts.antt =====
-- The first answer of etcd in the list of servers (pkg/etcd/etcddis.go): its keys get their values,
-- and the address of the machine stays.
use go_websocket.Prelude.{
  ◌≡◌, refl, sym, ◌∙◌, ap, Option, none, some, List, [], ◌∷◌, arith, Bool-cases, inl, inr,
}
use go_websocket.Prelude.Text.{Str, str_eq, str_eq_iff}
use go_websocket.Prelude.Dict.{Dict, lookup, NodupKeys}
use go_websocket.Setting.{Global}
use go_websocket.Discovery.{
  Event, put_event, delete_event, set_service_list, del_service_list, handle_event, handle_events,
}
use go_websocket.Discovery.Laws.{after_events, puts}

puts_absent :
    (k : Str) (kvs : Dict (Option Str)) (old : Option Str)
    → lookup k kvs ≡ none
    → after_events k (puts kvs) old ≡ old
unfolding lookup
puts_absent k [] old h = refl
puts_absent k ((j, none) ∷ kvs) old h = puts_absent k kvs old (ground (arith, h))
puts_absent k ((j, some v) ∷ kvs) old h = elim (Bool-cases (str_eq j k)) [
  | inl e ↦ absurd (ground (arith, e, h))
  | inr e ↦ rw (e, after_events) (puts_absent k kvs old (ground (arith, e, h)))
]

-- A key that an answer has once gets its value.
pub puts_present :
    (k v : Str) (kvs : Dict (Option Str)) (old : Option Str)
    → NodupKeys kvs
    → lookup k kvs ≡ some (some v)
    → after_events k (puts kvs) old ≡ some v
unfolding lookup
puts_present k v [] old n h = absurd (ground (arith, h))
puts_present k v ((j, none) ∷ kvs) old (fresh, n) h = puts_present k v kvs old n (ground (arith, h))
puts_present k v ((j, some w) ∷ kvs) old (fresh, n) h = elim (Bool-cases (str_eq j k)) [
  | inl e ↦
      let same : j ≡ k = (str_eq_iff j k).0 e in
      let val : w ≡ v = ground (arith, e, h) in
      rw (e, after_events) (puts_absent k kvs (some w) (rw (sym same) fresh) ∙ ap some val)
  | inr e ↦ rw (e, after_events) (puts_present k v kvs old n (ground (arith, e, h)))
]

pub handle_events-local_host :
    (events : List Event) (g : Global) → (handle_events events g).local_host ≡ g.local_host
unfolding handle_events handle_event set_service_list del_service_list
handle_events-local_host [] g = refl
handle_events-local_host (put_event k v ∷ events) g =
    handle_events-local_host events (set_service_list k v g)
handle_events-local_host (delete_event k ∷ events) g =
    handle_events-local_host events (del_service_list k g)
