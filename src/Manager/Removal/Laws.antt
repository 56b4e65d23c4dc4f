-- ===== src/Manager/Removal/Laws.antt =====
-- What the loops of delGroupClient and delSystemClient do to a list of client ids.
use go_websocket.Prelude.{
  ℕ, zero, suc, ◌+◌, ◌-◌, ◌≤◌, ◌≡◌, refl, ap, ◌∙◌, true, false, inl, inr, List, [], ◌∷◌, ◌++◌,
  arith, ltb, le→ltb, Bool-cases, if◌then◌else◌, get_or, drop, take, length, length-append,
  length-drop, get_or-append, take-append, drop-append, take-length, append-nil,
}
use go_websocket.Prelude.Text.{Str, str_eq, str_eq_refl}
use go_websocket.Manager.Removal.{
  returned, Slice, close_gap, remove_at, remove_rounds, remove_slice, remove_client, visible,
}
use go_websocket.Manager.Removal.Rounds.{
  Lacks, Lacks-Misses, Lacks-Misses_front, Lacks-append, Lacks-drop, Lacks-get_or, Misses, at_index,
  get_or_shift, one_round, over, remove_step-hit, remove_step-miss, scan, scan_to_end,
}

module _ (g : ℕ) (v : Str) where
  close_gap_middle :
      (p q : List Str) (n : ℕ)
      → n ≡ length p + (length q + 1)
      → close_gap (length p) (over (p ++ v ∷ q) n)
        ≡ over (p ++ (q ++ drop (length q) (v ∷ q))) (length p + length q)
  unfolding close_gap
  close_gap_middle p q n e = rw (
    take-append p (v ∷ q) 0 (length p) (omega arith),
    append-nil,
    drop-append p (v ∷ q) 1 (length p + 1) (omega arith),
    drop-append p (v ∷ q) (length q) (n - 1) (omega arith),
    (let d : n - (length p + 1) ≡ length q = omega arith in d),
    take-length q,
    (let d : n - 1 ≡ length p + length q = omega arith in d),
  )

  -- The array behind the gap that is closed: no cell of it is the id, but for one already passed.
  Misses-behind :
      (p q : List Str)
      → Lacks v q
      → Misses v (p ++ (q ++ drop (length q) (v ∷ q))) (length p + 1) (length q)
  Misses-behind p [] h = λ j l u. absurd (omega arith)
  Misses-behind p (x ∷ q) h =
      Lacks-Misses v p ((x ∷ q) ++ drop (length q) (x ∷ q)) (length p + 1) (length (x ∷ q))
        (Lacks-append v (x ∷ q) (drop (length q) (x ∷ q)) h (Lacks-drop v (length q) (x ∷ q) h))
        (omega arith)
        (omega
          (arith, length-append (x ∷ q) (drop (length q) (x ∷ q)), length-drop (length q) (x ∷ q)))

  Misses-after : (p q : List Str) → Lacks v q → Misses v (p ++ v ∷ q) (length p + 1) (length q)
  Misses-after p q h j l u =
      rw (get_or_shift p (v ∷ q) (suc (j - length p - 1)) j (omega arith))
        (Lacks-get_or v q (j - length p - 1) h (omega arith))

  remove_at_gap :
      (p q : List Str)
      → ltb (length p + 1) g ≡ true
      → remove_at g (length p) (over (p ++ v ∷ q) (length (p ++ v ∷ q)))
        ≡ returned (over (p ++ (q ++ drop (length q) (v ∷ q))) (length p + length q))
  unfolding remove_at
  remove_at_gap p q b =
      rw (b, le→ltb (length (p ++ v ∷ q)) (length p + 1) (omega (arith, length-append p (v ∷ q))))
        (ap returned
          (close_gap_middle p q (length (p ++ v ∷ q)) (omega (arith, length-append p (v ∷ q)))))

  remove_at_cut :
      (i : ℕ) (s : Slice)
      → ltb (i + 1) g ≡ false
      → remove_at g i s ≡ returned (record s { len = i })
  unfolding remove_at
  remove_at_cut i s b = rw b

  -- The scan g v up to the first occurrence, and the edit there.
  rounds_to_hit :
      (p q : List Str) (t : Slice)
      → Lacks v p
      → remove_at g (length p) (over (p ++ v ∷ q) (length (p ++ v ∷ q))) ≡ returned t
      → remove_rounds g v (length (p ++ v ∷ q)) 0 (over (p ++ v ∷ q) (length (p ++ v ∷ q)))
        ≡ remove_rounds g v (length q) (length p + 1) t
  rounds_to_hit p q t h e =
      scan g v (p ++ v ∷ q) (length (p ++ v ∷ q)) (length p) (suc (length q)) _ 0
        (omega (arith, length-append p (v ∷ q))) (Lacks-Misses_front v p (v ∷ q) h)
      ∙ (at_index g v _ _ (0 + length p) (length p) _ refl (omega arith)
          ∙ one_round g v (length q) (length p) _ t
              (remove_step-hit g v (length p) _ (rw (get_or-append p v q []) (str_eq_refl v)) ∙ e))

  -- The array where an id that stands once goes: the entries behind it move up, and the last one
  -- stands in the freed cell too.
  pub remove_slice_gap :
      (p q : List Str)
      → Lacks v p
      → Lacks v q
      → ltb (length p + 1) g ≡ true
      → remove_slice g v (p ++ v ∷ q)
        ≡ returned (over (p ++ (q ++ drop (length q) (v ∷ q))) (length p + length q))
  unfolding remove_slice
  remove_slice_gap p q h k b =
      rounds_to_hit p q _ h (remove_at_gap p q b)
      ∙ scan_to_end g v _ (length p + length q) (length q) (length p + 1) (Misses-behind p q k)

  pub take_gap :
      (p q : List Str) → take (length p + length q) (p ++ (q ++ drop (length q) (v ∷ q))) ≡ p ++ q
  take_gap p q =
      take-append p (q ++ drop (length q) (v ∷ q)) (length q) (length p + length q) refl
      ∙ ap (λ l. p ++ l)
          (take-append q (drop (length q) (v ∷ q)) 0 (length q) (omega arith) ∙ append-nil q)

  after_gap :
      (p q : List Str)
      → Lacks v p
      → Lacks v q
      → ltb (length p + 1) g ≡ true
      → remove_client g v (p ++ v ∷ q) ≡ returned (p ++ q)
  unfolding remove_client
  after_gap p q h k b = ap visible (remove_slice_gap p q h k b) ∙ ap returned (take_gap p q)

  after_cut :
      (p q : List Str)
      → Lacks v p
      → Lacks v q
      → ltb (length p + 1) g ≡ false
      → remove_client g v (p ++ v ∷ q) ≡ returned p
  unfolding remove_client
  after_cut p q h k b =
      ap visible (
        rounds_to_hit p q _ h (remove_at_cut (length p) _ b)
        ∙ scan_to_end g v (p ++ v ∷ q) (length p) (length q) (length p + 1) (Misses-after p q k))
      ∙ ap returned (take-append p (v ∷ q) 0 (length p) (omega arith) ∙ append-nil p)

  -- An id that stands once goes, but where `length p + 1` reaches the number of groups all that
  -- stands behind it goes with it.
  pub remove_client_once :
      (p q : List Str)
      → Lacks v p
      → Lacks v q
      → remove_client g v (p ++ v ∷ q) ≡ returned (if ltb (length p + 1) g then p ++ q else p)
  remove_client_once p q h k = elim (Bool-cases (ltb (length p + 1) g)) [
    | inl b ↦ rw b (after_gap p q h k b)
    | inr b ↦ rw b (after_cut p q h k b)
  ]

  -- With one group or none each hit cuts at its index: the array stays, only the length moves.
  cuts :
      g ≤ 1
      → (a : List Str) (r k n i m : ℕ) → n ≡ r + k
      → (m' : ℕ) × (remove_rounds g v n i (over a m) ≡ remove_rounds g v k (i + r) (over a m'))
  cuts one a zero k n i m e = (m, at_index g v n k i (i + 0) (over a m) (omega arith) (omega arith))
  cuts one a (suc r) k zero i m e = absurd (omega arith)
  cuts one a (suc r) k (suc n) i m e = elim (Bool-cases (str_eq (get_or a i []) v)) [
    | inl hit ↦
        let (m', f) = cuts one a r k n (i + 1) i (omega arith) in
        (
          m',
          one_round g v n i _ _ (
                remove_step-hit g v i (over a m) hit
                ∙ remove_at_cut i (over a m) (le→ltb (i + 1) g (omega arith)))
              ∙ (f ∙ at_index g v k k (i + 1 + r) (i + suc r) (over a m') refl (omega arith)),
        )
    | inr miss ↦
        let (m', f) = cuts one a r k n (i + 1) m (omega arith) in
        (
          m',
          one_round g v n i _ _ (remove_step-miss g v i (over a m) miss)
              ∙ (f ∙ at_index g v k k (i + 1 + r) (i + suc r) (over a m') refl (omega arith)),
        )
  ]

  last_hit :
      g ≤ 1
      → (p q : List Str) (m i : ℕ) → i ≡ length p
      → Lacks v q
      → remove_rounds g v (suc (length q)) i (over (p ++ v ∷ q) m)
        ≡ returned (over (p ++ v ∷ q) (length p))
  last_hit one p q m i e k =
      at_index g v _ _ i (length p) _ refl e
      ∙ (one_round g v (length q) (length p) _ (over (p ++ v ∷ q) (length p)) (
            remove_step-hit g v (length p) _ (rw (get_or-append p v q []) (str_eq_refl v))
            ∙ remove_at_cut (length p) _ (le→ltb (length p + 1) g (omega arith)))
          ∙ scan_to_end g v (p ++ v ∷ q) (length p) (length q) (length p + 1) (Misses-after p q k))

  -- With one group or none the list is cut at the last occurrence of the id, whatever stands
  -- before it.
  pub remove_client_last :
      g ≤ 1 → (p q : List Str) → Lacks v q → remove_client g v (p ++ v ∷ q) ≡ returned p
  unfolding remove_client
  remove_client_last one p q k =
      let n = length (p ++ v ∷ q) in
      let (m, f) =
        cuts one (p ++ v ∷ q) (length p) (suc (length q)) n 0 n
          (omega (arith, length-append p (v ∷ q))) in
      ap visible (f ∙ last_hit one p q m (0 + length p) (omega arith) k)
      ∙ ap returned (take-append p (v ∷ q) 0 (length p) (omega arith) ∙ append-nil p)
