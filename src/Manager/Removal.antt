-- ===== src/Manager/Removal.antt =====
-- The loops of delGroupClient and delSystemClient (servers/clientmanager.go). Each ranges over a
-- slice of client ids and edits the map's slice, which shares the array, as it goes.
pub mod Rounds
pub mod Laws
use go_websocket.Prelude.{
  ℕ, zero, suc, ◌+◌, ◌-◌, List, [], ◌++◌, ltb, if◌then◌else◌, get_or, take, drop, length,
}
use go_websocket.Prelude.Text.{Str, str_eq}

-- A panic leaves the state that was reached.
pub data Outcome {ℓ} (A : Type ℓ) : Type ℓ where
  returned : A → Outcome A
  panicked : A → Outcome A

-- The cells that the loop reads, and the length of the map's slice over them.
pub record Slice : Type 0 where
  pub array : List Str
  pub len : ℕ

-- append(s[:index], s[index+1:]...), in place.
unfoldable pub close_gap : ℕ → Slice → Slice
close_gap index s = record {
  array =
      take index s.array
      ++ (take (s.len - (index + 1)) (drop (index + 1) s.array) ++ drop (s.len - 1) s.array);
  len = s.len - 1;
}

-- The slice is cut at `index` unless `index + 1 < len(manager.Groups)`; `s[index+1:]` panics where
-- it starts behind the end.
unfoldable pub remove_at : ℕ → ℕ → Slice → Outcome Slice
remove_at groups index s =
    if ltb (index + 1) groups
    then (if ltb s.len (index + 1) then panicked s else returned (close_gap index s))
    else returned (record s { len = index })

unfoldable pub remove_step : ℕ → Str → ℕ → Slice → Outcome Slice
remove_step groups client_id index s =
    if str_eq (get_or s.array index []) client_id then remove_at groups index s else returned s

unfoldable pub remove_rounds : ℕ → Str → ℕ → ℕ → Slice → Outcome Slice
remove_rounds groups client_id zero index s = returned s
remove_rounds groups client_id (suc rounds) index s = elim (remove_step groups client_id index s) [
  | returned t ↦ remove_rounds groups client_id rounds (index + 1) t
  | panicked t ↦ panicked t
]

abbrev pub visible : Outcome Slice → Outcome (List Str)
visible (returned s) = returned (take s.len s.array)
visible (panicked s) = panicked (take s.len s.array)

-- The loop over a slice that the map holds.
unfoldable pub remove_slice : ℕ → Str → List Str → Outcome Slice
remove_slice groups client_id ids =
    remove_rounds groups client_id (length ids) 0 (record { array = ids; len = length ids })

-- The slice that the map holds after the loop.
unfoldable pub remove_client : ℕ → Str → List Str → Outcome (List Str)
unfolding remove_slice
remove_client groups client_id ids = visible (remove_slice groups client_id ids)
