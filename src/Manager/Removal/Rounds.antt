-- ===== src/Manager/Removal/Rounds.antt =====
-- The rounds of the loops of delGroupClient and delSystemClient that do not meet the client id.
use go_websocket.Prelude.{
  ℕ, zero, suc, ◌+◌, ◌-◌, ◌≤◌, ◌<◌, ◌≡◌, refl, ap, ◌∙◌, true, false, List, [], ◌∷◌, ◌++◌, arith,
  get_or, drop, length, take-length,
}
use go_websocket.Prelude.Text.{Str, str_eq}
use go_websocket.Manager.Removal.{
  returned, Slice, remove_at, remove_step, remove_rounds, remove_client, visible,
}

-- No entry equals the id.
abbrev pub Lacks : Str → List Str → Type 0
Lacks v [] = Unit {0}
Lacks v (x ∷ xs) = (str_eq x v ≡ false) × Lacks v xs

pub Lacks-append : (v : Str) (xs ys : List Str) → Lacks v xs → Lacks v ys → Lacks v (xs ++ ys)
Lacks-append v [] ys h k = k
Lacks-append v (x ∷ xs) ys h k = (h.0, Lacks-append v xs ys h.1 k)

pub Lacks-drop : (v : Str) (n : ℕ) (xs : List Str) → Lacks v xs → Lacks v (drop n xs)
Lacks-drop v zero xs h = h
Lacks-drop v (suc n) [] h = h
Lacks-drop v (suc n) (x ∷ xs) h = Lacks-drop v n xs h.1

-- The cells from `i` on, `r` of them, are not the id.
abbrev pub Misses : Str → List Str → ℕ → ℕ → Type 0
Misses v a i r = (j : ℕ) → i ≤ j → j < i + r → str_eq (get_or a j []) v ≡ false

pub Lacks-get_or :
    (v : Str) (xs : List Str) (j : ℕ)
    → Lacks v xs
    → j < length xs
    → str_eq (get_or xs j []) v ≡ false
Lacks-get_or v [] j h l = absurd (omega arith)
Lacks-get_or v (x ∷ xs) zero h l = h.0
Lacks-get_or v (x ∷ xs) (suc j) h l = Lacks-get_or v xs j h.1 (omega arith)

pub get_or_shift :
    (p xs : List Str) (i j : ℕ) → j ≡ length p + i → get_or (p ++ xs) j [] ≡ get_or xs i []
get_or_shift [] xs i j e = ap (λ n. get_or xs n []) (omega arith)
get_or_shift (x ∷ p) xs i zero e = absurd (omega arith)
get_or_shift (x ∷ p) xs i (suc j) e = get_or_shift p xs i j (omega arith)

pub Lacks-Misses :
    (v : Str) (p xs : List Str) (i r : ℕ)
    → Lacks v xs
    → length p ≤ i
    → i + r ≤ length p + length xs
    → Misses v (p ++ xs) i r
Lacks-Misses v p xs i r h l u j a b =
    rw (get_or_shift p xs (j - length p) j (omega arith))
      (Lacks-get_or v xs (j - length p) h (omega arith))

pub Lacks-Misses_front : (v : Str) (p q : List Str) → Lacks v p → Misses v (p ++ q) 0 (length p)
Lacks-Misses_front v [] q h j l u = absurd (omega arith)
Lacks-Misses_front v (x ∷ p) q h zero l u = h.0
Lacks-Misses_front v (x ∷ p) q h (suc j) l u =
    Lacks-Misses_front v p q h.1 j (omega arith) (omega arith)

abbrev pub over : List Str → ℕ → Slice
over a m = record { array = a; len = m }

module _ (g : ℕ) (v : Str) where
  pub remove_step-miss :
      (i : ℕ) (s : Slice)
      → str_eq (get_or s.array i []) v ≡ false
      → remove_step g v i s ≡ returned s
  unfolding remove_step
  remove_step-miss i s h = rw h

  pub remove_step-hit :
      (i : ℕ) (s : Slice)
      → str_eq (get_or s.array i []) v ≡ true
      → remove_step g v i s ≡ remove_at g i s
  unfolding remove_step
  remove_step-hit i s h = rw h

  pub one_round :
      (n i : ℕ) (s t : Slice)
      → remove_step g v i s ≡ returned t
      → remove_rounds g v (suc n) i s ≡ remove_rounds g v n (i + 1) t
  unfolding remove_rounds
  one_round n i s t e = rw (e, remove_rounds)

  pub at_index :
      (n m i j : ℕ) (s : Slice) → n ≡ m → i ≡ j → remove_rounds g v n i s ≡ remove_rounds g v m j s
  at_index n m i j s e f = cc

  -- Cells that are not the id leave the slice alone.
  pub scan :
      (a : List Str) (m r k n i : ℕ)
      → n ≡ r + k
      → Misses v a i r
      → remove_rounds g v n i (over a m) ≡ remove_rounds g v k (i + r) (over a m)
  scan a m zero k n i e h = at_index n k i (i + 0) (over a m) (omega arith) (omega arith)
  scan a m (suc r) k zero i e h = absurd (omega arith)
  scan a m (suc r) k (suc n) i e h =
      one_round n i _ _ (remove_step-miss i _ (h i (omega arith) (omega arith)))
      ∙ (scan a m r k n (i + 1) (omega arith) (λ j l u. h j (omega arith) (omega arith))
          ∙ at_index k k (i + 1 + r) (i + suc r) (over a m) refl (omega arith))

  pub scan_to_end :
      (a : List Str) (m r i : ℕ)
      → Misses v a i r
      → remove_rounds g v r i (over a m) ≡ returned (over a m)
  unfolding remove_rounds
  scan_to_end a m r i h = scan a m r 0 r i (omega arith) h

  -- An id that is not in the list leaves it as it is.
  pub remove_client_absent : (ids : List Str) → Lacks v ids → remove_client g v ids ≡ returned ids
  unfolding remove_client
  remove_client_absent ids h =
      ap visible (
        scan_to_end ids (length ids) (length ids) 0
          (Lacks-Misses v [] ids 0 (length ids) h (omega arith) (omega arith)))
      ∙ ap returned (take-length ids)
