-- ===== src/Account/Concurrent.antt =====
-- Requests to register on a single machine that run at the same time (servers/account.go): Load and
-- Store of SystemMap are atomic, and what stands between them is not.
use go_websocket.Prelude.{
  ℕ, ◌≡◌, ◌≢◌, refl, sym, subst, ◌⊎◌, ◌∙◌, ap, true, false, Option, none, some, List, [], ◌∷◌,
  arith, ◌==◌, ==_iff, if◌then◌else◌, Bool-cases, Option-cases, inl, inr,
}
use go_websocket.Prelude.Text.{Str, str_eq, str_eq_refl}
use go_websocket.Prelude.Dict.{Dict, lookup, insert, lookup-insert}
use go_websocket.Prelude.Result.{Result, ok, err, system_id_taken}
use go_websocket.Account.{AccountInfo, register_here, Etcd}

-- Where a request is, behind the test that its id is not empty: before Load, between Load and Store,
-- or back with its result.
pub data Phase : Type 0 where
  waits passed : Phase
  replied : Result (Unit {0}) → Phase

-- The map, and the phase of each request.
pub record Requests : Type 0 where
  pub system_map : Dict AccountInfo
  pub phase : ℕ → Phase

abbrev pub at : ℕ → Phase → (ℕ → Phase) → ℕ → Phase
at i p phase j = if i == j then p else phase j

-- The test of the loaded value.
abbrev pub after_load : Option AccountInfo → Phase
after_load none = passed
after_load (some info) = replied (err system_id_taken)

module _ (info : ℕ → AccountInfo) where
  -- The next atomic step of the request `i` in a phase.
  abbrev pub step_from : Phase → ℕ → Requests → Requests
  step_from waits i r = record r {
    phase = at i (after_load (lookup (info i).system_id r.system_map)) r.phase;
  }
  step_from passed i r = record {
    system_map = insert (info i).system_id (info i) r.system_map;
    phase = at i (replied (ok tt)) r.phase;
  }
  step_from (replied x) i r = r

  unfoldable pub step : ℕ → Requests → Requests
  step i r = step_from (r.phase i) i r

  -- The requests take steps in some order.
  unfoldable pub run : List ℕ → Requests → Requests
  run [] r = r
  run (i ∷ schedule) r = run schedule (step i r)

  -- A request without an error has its id in the map, and so has one that was refused.
  pub record IsSound (r : Requests) : Type 0 where
    pub listed :
        (i : ℕ) (x : Result (Unit {0}))
        → r.phase i ≡ replied x
        → lookup (info i).system_id r.system_map ≢ none

  load_found :
      (o : Option AccountInfo) (x : Result (Unit {0})) → after_load o ≡ replied x → o ≢ none
  load_found none x h = absurd (ground (arith, h))
  load_found (some a) x h = λ e. ground (arith, e)

  stored_found :
      (i j : ℕ) (d : Dict AccountInfo)
      → ((i == j) ≡ true) ⊎ (lookup (info j).system_id d ≢ none)
      → lookup (info j).system_id (insert (info i).system_id (info i) d) ≢ none
  stored_found i j d h e =
      let l = lookup-insert (info i).system_id (info j).system_id (info i) d in
      elim h [
        | inl same ↦
            let m : i ≡ j = (==_iff i j).0 same in
            ground (
              arith,
              l,
              e,
              ap (λ k. str_eq (info i).system_id (info k).system_id) m,
              str_eq_refl (info i).system_id,
            )
        | inr old ↦ elim (Bool-cases (str_eq (info i).system_id (info j).system_id)) [
          | inl b ↦ ground (arith, l, e, b)
          | inr b ↦ old (sym (l ∙ rw b) ∙ e)
        ]
      ]

  step_from-IsSound :
      (p : Phase) (i : ℕ) (r : Requests) → r.phase i ≡ p → IsSound r → IsSound (step_from p i r)
  step_from-IsSound waits i r e v = record {
    listed = λ j x h. elim (Bool-cases (i == j)) [
      | inl same ↦
          let m : i ≡ j = (==_iff i j).0 same in
          subst (λ k. lookup (info k).system_id r.system_map ≢ none) m
            (load_found (lookup (info i).system_id r.system_map) x (sym (rw same) ∙ h))
      | inr other ↦ v.listed j x (sym (rw other) ∙ h)
    ];
  }
  step_from-IsSound passed i r e v = record {
    listed = λ j x h. stored_found i j r.system_map (elim (Bool-cases (i == j)) [
      | inl same ↦ inl same
      | inr other ↦ inr (v.listed j x (sym (rw other) ∙ h))
    ]);
  }
  step_from-IsSound (replied x) i r e v = v

  -- In whatever order the requests take their steps, the id of every request that has its reply is
  -- registered, whether the reply is a success or a refusal, if that is so at the start.
  pub run-IsSound : (schedule : List ℕ) (r : Requests) → IsSound r → IsSound (run schedule r)
  unfolding run step
  run-IsSound [] r v = v
  run-IsSound (i ∷ schedule) r v =
      run-IsSound schedule (step i r) (step_from-IsSound (r.phase i) i r refl v)

  step-at : (p : Phase) (i : ℕ) (r : Requests) → r.phase i ≡ p → step i r ≡ step_from p i r
  unfolding step
  step-at p i r h = ap (λ q. step_from q i r) h

  -- A request whose id is new passes the test.
  load_free :
      (i : ℕ) (r : Requests)
      → r.phase i ≡ waits
      → lookup (info i).system_id r.system_map ≡ none
      → step i r ≡ record r { phase = at i passed r.phase }
  load_free i r h f =
      step-at waits i r h ∙ ap (λ o. record r { phase = at i (after_load o) r.phase }) f

  -- A request that takes its two steps with no other between them does to the map what Register
  -- does, and gives the same result.
  pub run-register_here :
      (S : Type 0) (e : Etcd S) (marshal : AccountInfo → Str) (i : ℕ) (r : Requests) (s : S)
      → r.phase i ≡ waits
      → ((run (i ∷ i ∷ []) r).system_map
          ≡ (register_here e marshal
              (info i)
              (record { system_map = r.system_map; store = s })).0.system_map)
        × ((run (i ∷ i ∷ []) r).phase i
            ≡ replied
                (register_here e marshal
                  (info i)
                  (record { system_map = r.system_map; store = s })).1)
  unfolding run register_here
  run-register_here S e marshal i r s h =
      let self : (i == i) ≡ true = (==_iff i i).1 refl in
      elim (Option-cases (lookup (info i).system_id r.system_map)) [
        | inl f ↦
            let u = record r { phase = at i passed r.phase } in
            let two : step i (step i r) ≡ step_from passed i u =
              ap (step i) (load_free i r h f) ∙ step-at passed i u (rw self) in
            (ap (λ q. q.system_map) two ∙ rw f, ap (λ q. q.phase i) two ∙ rw (self, f))
        | inr (x, f) ↦
            let u = record r { phase = at i (replied (err system_id_taken)) r.phase } in
            let one : step i r ≡ u =
              step-at waits i r h ∙ ap (λ o. record r { phase = at i (after_load o) r.phase }) f in
            let two : step i (step i r) ≡ u =
              ap (step i) one ∙ step-at (replied (err system_id_taken)) i u (rw self) in
            (ap (λ q. q.system_map) two ∙ rw f, ap (λ q. q.phase i) two ∙ rw (self, f))
      ]

  -- Two requests for one id that have passed the test both succeed.
  both_store :
      (k l : ℕ) (r : Requests)
      → k ≢ l
      → (info k).system_id ≡ (info l).system_id
      → r.phase k ≡ passed
      → r.phase l ≡ passed
      → ((run (k ∷ l ∷ []) r).phase k ≡ replied (ok tt))
        × ((run (k ∷ l ∷ []) r).phase l ≡ replied (ok tt))
        × (lookup (info k).system_id (run (k ∷ l ∷ []) r).system_map ≡ some (info l))
  unfolding run
  both_store k l r other same pk pl =
      let kl : (k == l) ≡ false = ground arith in
      let lk : (l == k) ≡ false = ground arith in
      let kk : (k == k) ≡ true = (==_iff k k).1 refl in
      let ll : (l == l) ≡ true = (==_iff l l).1 refl in
      let c = step_from passed k r in
      let all : step l (step k r) ≡ step_from passed l c =
        ap (step l) (step-at passed k r pk) ∙ step-at passed l c (rw (kl, pl)) in
      (
        ap (λ q. q.phase k) all ∙ rw (lk, kk),
        ap (λ q. q.phase l) all ∙ rw ll,
        ap (λ q. lookup (info k).system_id q.system_map) all
            ∙ (lookup-insert (info l).system_id (info k).system_id (info l) c.system_map
                ∙ rw (same, str_eq_refl (info l).system_id)),
      )

  both_pass :
      (i j : ℕ) (r : Requests)
      → i ≢ j
      → (info i).system_id ≡ (info j).system_id
      → r.phase i ≡ waits
      → r.phase j ≡ waits
      → lookup (info i).system_id r.system_map ≡ none
      → ((step j (step i r)).phase i ≡ passed) × ((step j (step i r)).phase j ≡ passed)
  both_pass i j r other same wi wj fresh =
      let ij : (i == j) ≡ false = ground arith in
      let ji : (j == i) ≡ false = ground arith in
      let ii : (i == i) ≡ true = (==_iff i i).1 refl in
      let jj : (j == j) ≡ true = (==_iff j j).1 refl in
      let a = record r { phase = at i passed r.phase } in
      let both : step j (step i r) ≡ record a { phase = at j passed a.phase } =
        ap (step j) (load_free i r wi fresh)
        ∙ load_free j a (rw ij wj) (subst (λ k. lookup k r.system_map ≡ none) same fresh) in
      (ap (λ q. q.phase i) both ∙ rw (ji, ii), ap (λ q. q.phase j) both ∙ rw jj)

  -- Two requests for the same new id, neither of which has loaded yet, both succeed if first both
  -- load and then both store, each in either order and with no step of another request between, and
  -- the map keeps what the later one stored: `i` loads first and `j` second, and `l` stores last.
  pub register_race :
      (i j k l : ℕ) (r : Requests)
      → i ≢ j
      → ((k ≡ i) × (l ≡ j)) ⊎ ((k ≡ j) × (l ≡ i))
      → (info i).system_id ≡ (info j).system_id
      → r.phase i ≡ waits
      → r.phase j ≡ waits
      → lookup (info i).system_id r.system_map ≡ none
      → ((run (i ∷ j ∷ k ∷ l ∷ []) r).phase i ≡ replied (ok tt))
        × ((run (i ∷ j ∷ k ∷ l ∷ []) r).phase j ≡ replied (ok tt))
        × (lookup (info i).system_id (run (i ∷ j ∷ k ∷ l ∷ []) r).system_map ≡ some (info l))
  unfolding run
  register_race i j k l r other stores same wi wj fresh =
      let (pi, pj) = both_pass i j r other same wi wj fresh in
      let after = step j (step i r) in
      elim stores [
        | inl (ki, lj) ↦ rw (ki, lj) (both_store i j after other same pi pj)
        | inr (kj, li) ↦
            let (first, second, last) =
              both_store j i after (λ e. other (sym e)) (sym same) pj pi in
            rw (kj, li)
              (second, first, ap (λ s. lookup s (run (j ∷ i ∷ []) after).system_map) same ∙ last)
      ]
