-- ===== src/Account/Laws.antt =====
-- What a registration (servers/account.go) means to the later ones and to the check of the header
-- SystemId (routers/middleware.go).
use go_websocket.Prelude.{
  ℕ, zero, suc, ◌≡◌, ◌≢◌, refl, sym, ◌∙◌, Bool, true, false, Option, none, some, [], ◌∷◌, ◌++◌,
  arith, if◌then◌else◌, Bool-cases, inl, inr, ap,
}
use go_websocket.Prelude.Text.{Str, str_eq, str_eq_iff, str_eq_refl}
use go_websocket.Prelude.Dict.{lookup, insert, lookup-insert}
use go_websocket.Prelude.Result.{Result, ok, err, panic}
use go_websocket.Account.{
  Etcd, IsStore, Accounts, AccountInfo, account_prefix, register, register_here,
  register_in_cluster, put_account, register_found, register_loaded, account_info,
}
use go_websocket.Routers.{Verdict, answers, access_token, check_registered, count_verdict}
use go_websocket.Http.{render, system_id_invalid}

-- A prefix does not change which keys are the same.
str_eq-append : (p s t : Str) → str_eq (p ++ s) (p ++ t) ≡ str_eq s t
unfolding str_eq
str_eq-append [] s t = refl
str_eq-append (c ∷ p) s t = ground (arith, str_eq-append p s t)

-- Is the answer that the system id is not registered?
abbrev pub calls_invalid : Verdict → Bool
calls_invalid (answers (render code system_id_invalid content)) = true
calls_invalid _ = false

module _ {S : Type 0} (e : Etcd S) (law : IsStore e) (marshal : AccountInfo → Str) where
  put_account-ok :
      (a b : Accounts S) (p : S × Result (Unit {0}))
      → put_account e marshal a p ≡ (b, ok tt)
      → (p ≡ (b.store, ok tt)) × (b.system_map ≡ a.system_map)
  put_account-ok a b (s, ok u) h =
      (ap (λ x. (x.0.store, ok tt)) h, sym (ap (λ x. x.0.system_map) h))
  put_account-ok a b (s, err x) h = absurd (ground (arith, ap (λ x. x.1) h))
  put_account-ok a b (s, panic) h = absurd (ground (arith, ap (λ x. x.1) h))

  found-ok :
      (info : AccountInfo) (a b : Accounts S) (r : Result ℕ)
      → register_found e marshal info a r ≡ (b, ok tt)
      → (e.put (account_prefix ++ info.system_id) (marshal info) a.store ≡ (b.store, ok tt))
        × (b.system_map ≡ a.system_map)
  found-ok info a b (ok zero) h = put_account-ok a b _ h
  found-ok info a b (ok (suc n)) h = absurd (ground (arith, ap (λ x. x.1) h))
  found-ok info a b (err x) h = absurd (ground (arith, ap (λ x. x.1) h))
  found-ok info a b panic h = absurd (ground (arith, ap (λ x. x.1) h))

  loaded-ok :
      (info : AccountInfo) (a b : Accounts S) (r : Option AccountInfo)
      → register_loaded e marshal info a r ≡ (b, ok tt)
      → b ≡ record a { system_map = insert info.system_id info a.system_map }
  loaded-ok info a b (some x) h = absurd (ground (arith, ap (λ x. x.1) h))
  loaded-ok info a b none h = sym (ap (λ x. x.0) h)

  -- A Get after a successful Put does not let a second registration through.
  found-refused :
      (info : AccountInfo) (a : Accounts S) (r : Result ℕ)
      → r ≢ ok 0
      → ((register_found e marshal info a r).0 ≡ a)
        × ((register_found e marshal info a r).1 ≢ ok tt)
  found-refused info a (ok zero) h = absurd (h refl)
  found-refused info a (ok (suc n)) h = (refl, λ g. ground (arith, g))
  found-refused info a (err x) h = (refl, λ g. ground (arith, g))
  found-refused info a panic h = (refl, λ g. ground (arith, g))

  loaded-refused :
      (info : AccountInfo) (a : Accounts S) (r : Option AccountInfo)
      → r ≢ none
      → ((register_loaded e marshal info a r).0 ≡ a)
        × ((register_loaded e marshal info a r).1 ≢ ok tt)
  loaded-refused info a (some x) h = (refl, λ g. ground (arith, g))
  loaded-refused info a none h = absurd (h refl)

  register-nonempty :
      (cluster : Bool) (now : ℕ) (id : Str) (a b : Accounts S)
      → register e marshal cluster now id a ≡ (b, ok tt)
      → str_eq id [] ≡ false
  unfolding register str_eq
  register-nonempty cluster now [] a b h = absurd (ground (arith, ap (λ x. x.1) h))
  register-nonempty cluster now (c ∷ id) a b h = refl

  registers_in_cluster :
      (now : ℕ) (id : Str) (a : Accounts S)
      → str_eq id [] ≡ false
      → register e marshal true now id a
        ≡ register_found e marshal (account_info now id) a (e.get (account_prefix ++ id) a.store)
  unfolding register register_in_cluster
  registers_in_cluster now id a h = rw h

  registers_here :
      (now : ℕ) (id : Str) (a : Accounts S)
      → str_eq id [] ≡ false
      → register e marshal false now id a
        ≡ register_loaded e marshal (account_info now id) a (lookup id a.system_map)
  unfolding register register_here
  registers_here now id a h = rw h

  -- What a registration without an error did in a cluster.
  in_cluster-ok :
      (now : ℕ) (id : Str) (a b : Accounts S)
      → register e marshal true now id a ≡ (b, ok tt)
      → (e.put (account_prefix ++ id) (marshal (account_info now id)) a.store ≡ (b.store, ok tt))
        × (b.system_map ≡ a.system_map)
  in_cluster-ok now id a b h =
      found-ok (account_info now id) a b (e.get (account_prefix ++ id) a.store)
        (sym (registers_in_cluster now id a (register-nonempty true now id a b h)) ∙ h)

  -- And on a single machine.
  here-ok :
      (now : ℕ) (id : Str) (a b : Accounts S)
      → register e marshal false now id a ≡ (b, ok tt)
      → b ≡ record a { system_map = insert id (account_info now id) a.system_map }
  here-ok now id a b h =
      loaded-ok (account_info now id) a b (lookup id a.system_map)
        (sym (registers_here now id a (register-nonempty false now id a b h)) ∙ h)

  lookup-here :
      (now : ℕ) (id j : Str) (a b : Accounts S)
      → register e marshal false now id a ≡ (b, ok tt)
      → lookup j b.system_map
        ≡ (if str_eq id j then some (account_info now id) else lookup j a.system_map)
  lookup-here now id j a b h =
      rw (here-ok now id a b h) (lookup-insert id j (account_info now id) a.system_map)

  -- A system id that was registered, on a single machine or in a cluster, cannot be registered
  -- again: a second Register fails and changes nothing.
  pub register_twice :
      (cluster : Bool) (now later : ℕ) (id : Str) (a b : Accounts S)
      → register e marshal cluster now id a ≡ (b, ok tt)
      → ((register e marshal cluster later id b).0 ≡ b)
        × ((register e marshal cluster later id b).1 ≢ ok tt)
  register_twice true now later id a b h =
      rw (registers_in_cluster later id b (register-nonempty true now id a b h)) (
        found-refused (account_info later id) b (e.get (account_prefix ++ id) b.store)
          (law.get-put _ _ a.store b.store (in_cluster-ok now id a b h).0))
  register_twice false now later id a b h =
      rw (registers_here later id b (register-nonempty false now id a b h)) (
        loaded-refused (account_info later id) b (lookup id b.system_map)
          (λ f. let g = lookup-here now id id a b h in ground (arith, f, g, str_eq_refl id)))

  verdict_valid : (r : Result ℕ) → r ≢ ok 0 → calls_invalid (count_verdict r) ≡ false
  verdict_valid (ok zero) h = absurd (h refl)
  verdict_valid (ok (suc n)) h = refl
  verdict_valid (err x) h = refl
  verdict_valid panic h = refl

  -- After a registration the check of the header SystemId no longer calls the registered id
  -- invalid, and for every other id it says what it said.
  pub access_token-register :
      (cluster : Bool) (now : ℕ) (id j : Str) (a b : Accounts S)
      → register e marshal cluster now id a ≡ (b, ok tt)
      → calls_invalid (access_token e cluster true j b)
        ≡ (if str_eq id j then false else calls_invalid (access_token e cluster true j a))
  unfolding access_token check_registered
  access_token-register true now id j a b h = elim (Bool-cases (str_eq id j)) [
    | inl same ↦
        let valid =
          verdict_valid _ (law.get-put _ _ a.store b.store (in_cluster-ok now id a b h).0) in
        let n = register-nonempty true now id a b h in
        let i : id ≡ j = (str_eq_iff id j).0 same in rw (same, sym i, n) valid
    | inr other ↦ rw (
      other,
      law.get_other _ _ (account_prefix ++ j) a.store b.store (in_cluster-ok now id a b h).0
          (str_eq-append account_prefix id j ∙ other),
    )
  ]
  access_token-register false now id j a b h =
      let l = lookup-here now id j a b h in
      let n = register-nonempty false now id a b h in ground (arith, l, n, str_eq_iff id j)
