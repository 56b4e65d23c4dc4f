-- ===== src/Etcd.antt =====
-- pkg/etcd/etcd.go: the one client of etcd that the program shares. `made` is what clientv3.New
-- gives: a client, or an error. The client's calls are arguments.
use go_websocket.Prelude.{ℕ, ◌≡◌, refl, Option, none, some}
use go_websocket.Prelude.Result.{Result, panic}

-- GetInstance: the client that is kept, and the one that is returned; `none` is nil.
unfoldable pub get_instance : Option ℕ → Option ℕ → Option ℕ × Option ℕ
get_instance made (some client) = (some client, some client)
get_instance made none = (made, made)

-- A method of a client, which panics on nil.
abbrev pub call_on {ℓ} : {A : Type ℓ} → (ℕ → Result A) → Option ℕ → Result A
call_on method none = panic
call_on method (some client) = method client

-- Put, from the client's Put of the key and the value.
unfoldable pub put : (ℕ → Result (Unit {0})) → Option ℕ → Option ℕ → Option ℕ × Result (Unit {0})
unfolding get_instance
put method made kept = let (now, client) = get_instance made kept in (now, call_on method client)

-- Get, from the client's Get of the key; the response is given by its count.
unfoldable pub get : (ℕ → Result ℕ) → Option ℕ → Option ℕ → Option ℕ × Result ℕ
unfolding get_instance
get method made kept = let (now, client) = get_instance made kept in (now, call_on method client)

-- Once there is a client it stays, whatever New would give. While there is none and New gives an
-- error, Get and Put panic and keep none.
pub get_lem :
    (method : ℕ → Result ℕ) (made : Option ℕ) (client : ℕ)
    → (get method made (some client) ≡ (some client, method client))
      × (get method none none ≡ (none, panic))
      × (get method (some client) none ≡ (some client, method client))
unfolding get
get_lem method made client = (refl, refl, refl)
