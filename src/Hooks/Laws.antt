-- ===== src/Hooks/Laws.antt =====
-- What hooks/hooks.go finds as the caller of a log entry.
use go_websocket.Prelude.{
  ℕ, zero, suc, ◌+◌, ◌<◌, ◌≡◌, refl, sym, ◌∙◌, ap, Option, some, [], ◌∷◌, ◌++◌, Bool, false, arith,
  length, ltb, get_or, drop, if◌then◌else◌, Bool-cases, inl, inr, ◌==◌, length-append, drop-append,
  append_assoc, append-nil,
}
use go_websocket.Prelude.Text.{Str, codes, has_prefix, Free}
use go_websocket.Hooks.{shorten, get_caller, find_rounds, find_caller}

-- Does the file of the frame begin with "logrus"?
abbrev pub is_logrus : Option (Str × ℕ) → Bool
is_logrus frame = has_prefix (get_caller frame).0 (codes "logrus")

-- The first of the frames from `i` to `i + n` that is not logrus', or else the last of them.
abbrev pub first_other : (ℕ → Option (Str × ℕ)) → ℕ → ℕ → ℕ
first_other caller zero i = i
first_other caller (suc n) i =
    let rest = first_other caller n (i + 1) in if is_logrus (caller i) then rest else i

find_rounds_lem :
    (caller : ℕ → Option (Str × ℕ)) (n i : ℕ) (found : Str × ℕ)
    → find_rounds caller (suc n) i found ≡ get_caller (caller (first_other caller n i))
unfolding find_rounds
find_rounds_lem caller zero i found = elim (Bool-cases (is_logrus (caller i))) [
  | inl b ↦ rw b
  | inr b ↦ rw b
]
find_rounds_lem caller (suc n) i found = elim (Bool-cases (is_logrus (caller i))) [
  | inl b ↦ rw b (find_rounds_lem caller n (i + 1) (get_caller (caller i)))
  | inr b ↦ rw b
]

-- findCaller reports the first of the ten frames from `skip` on whose file does not begin with
-- "logrus", or else the last of them.
pub find_caller_lem :
    (caller : ℕ → Option (Str × ℕ)) (skip : ℕ)
    → find_caller caller skip ≡ get_caller (caller (first_other caller 9 skip))
unfolding find_caller
find_caller_lem caller skip = find_rounds_lem caller 9 skip ([], 0)

get_or-behind : (p s : Str) (j k : ℕ) → k ≡ length p + j → get_or (p ++ s) k 0 ≡ get_or s j 0
get_or-behind [] s j k e = ap (λ m. get_or s m 0) (omega arith)
get_or-behind (c ∷ p) s j zero e = absurd (omega arith)
get_or-behind (c ∷ p) s j (suc k) e = get_or-behind p s j k (omega arith)

get_or-Free :
    (c : ℕ) (s q : Str) (j : ℕ) → Free c s → j < length s → (get_or (s ++ q) j 0 == c) ≡ false
get_or-Free c [] q j h l = absurd (omega arith)
get_or-Free c (x ∷ s) q zero h l = h.0
get_or-Free c (x ∷ s) q (suc j) h l = get_or-Free c s q j h.1 (omega arith)

-- The loop passes over bytes that are no slashes.
shorten_skips :
    (p s q : Str) (n m k : ℕ)
    → Free b'/' s
    → m < length s + 1
    → k ≡ length p + m
    → shorten (p ++ (b'/' ∷ s ++ q)) k n ≡ shorten (p ++ (b'/' ∷ s ++ q)) (length p) n
unfolding shorten
shorten_skips p s q n zero k h l e = ap (λ i. shorten (p ++ (b'/' ∷ s ++ q)) i n) (omega arith)
shorten_skips p s q n (suc m) zero h l e = absurd (omega arith)
shorten_skips p s q n (suc m) (suc k) h l e =
    rw (get_or-behind p (b'/' ∷ s ++ q) (suc m) (suc k) e, get_or-Free b'/' s q m h (omega arith))
      (shorten_skips p s q n m k h (omega arith) (omega arith))

at_slash :
    (p s : Str) (n i k : ℕ)
    → k ≡ length p
    → k ≡ suc i
    → shorten (p ++ b'/' ∷ s) k n
      ≡ (if ltb n 1 then shorten (p ++ b'/' ∷ s) i (n + 1) else drop (k + 1) (p ++ b'/' ∷ s))
unfolding shorten
at_slash p s n i zero e f = absurd (omega arith)
at_slash p s n i (suc k) e f =
    let same : i ≡ k = omega arith in rw (get_or-behind p (b'/' ∷ s) 0 (suc k) (omega arith), same)

in_parts :
    (p dir file : Str) → p ++ (b'/' ∷ dir ++ b'/' ∷ file) ≡ (p ++ b'/' ∷ dir) ++ (b'/' ∷ file ++ [])
in_parts p dir file = rw append-nil (sym (append_assoc p (b'/' ∷ dir) (b'/' ∷ file)))

-- From the end, the loop comes to the last slash, and from there to the one before.
to_last_slash :
    (p dir file : Str) (k : ℕ)
    → Free b'/' file
    → k ≡ length (p ++ b'/' ∷ dir) + length file
    → shorten (p ++ (b'/' ∷ dir ++ b'/' ∷ file)) k 0
      ≡ shorten (p ++ (b'/' ∷ dir ++ b'/' ∷ file)) (length (p ++ b'/' ∷ dir)) 0
to_last_slash p dir file k h e =
    rw (in_parts p dir file)
      (shorten_skips (p ++ b'/' ∷ dir) file [] 0 (length file) k h (omega arith) e)

past_last_slash :
    (p dir file : Str) (i k : ℕ)
    → k ≡ length (p ++ b'/' ∷ dir)
    → k ≡ suc i
    → shorten (p ++ (b'/' ∷ dir ++ b'/' ∷ file)) k 0
      ≡ shorten (p ++ (b'/' ∷ dir ++ b'/' ∷ file)) i 1
past_last_slash p dir file i k e f =
    rw (in_parts p dir file) (at_slash (p ++ b'/' ∷ dir) (file ++ []) 0 i k e f)

-- getCaller keeps of a path the last directory and the file, where something stands before the
-- directory's slash, and the line.
pub get_caller_lem :
    (c : ℕ) (p dir file : Str) (line : ℕ)
    → Free b'/' dir
    → Free b'/' file
    → get_caller (some ((c ∷ p) ++ (b'/' ∷ dir ++ b'/' ∷ file), line)) ≡ (dir ++ b'/' ∷ file, line)
unfolding get_caller
get_caller_lem c p dir file line h k =
    let f = (c ∷ p) ++ (b'/' ∷ dir ++ b'/' ∷ file) in
    let l = length-append (c ∷ p) (b'/' ∷ dir) in
    let n = length-append (c ∷ p) (b'/' ∷ dir ++ b'/' ∷ file) in
    let m = length-append dir (b'/' ∷ file) in
    ap (λ t. (t, line))
      (to_last_slash (c ∷ p) dir file _ k (omega arith)
        ∙ past_last_slash (c ∷ p) dir file (length (c ∷ p) + length dir) _ refl (omega arith)
        ∙ shorten_skips (c ∷ p) dir (b'/' ∷ file) 1 (length dir) _ h (omega arith) refl
        ∙ at_slash (c ∷ p) (dir ++ b'/' ∷ file) 1 (length p) _ refl refl
        ∙ drop-append (c ∷ p) (b'/' ∷ dir ++ b'/' ∷ file) 1 _ (omega arith))
