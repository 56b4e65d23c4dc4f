-- ===== src/Hooks.antt =====
-- hooks/hooks.go: the file and the line that a log entry carries. runtime.Caller is a parameter: the
-- file and the line of a frame, if there is one.
pub mod Laws
use go_websocket.Prelude.{
  ℕ, zero, suc, ◌+◌, ◌-◌, Bool, Option, none, some, List, [], ◌∷◌, ◌==◌, drop, get_or, length, ltb,
  if◌then◌else◌,
}
use go_websocket.Prelude.Text.{Str, codes, has_prefix}
use go_websocket.Prelude.Dict.{Dict, insert}

-- The loop of getCaller: from the index down to 1, it counts the slashes and cuts behind the second.
unfoldable pub shorten : Str → ℕ → ℕ → Str
shorten file zero n = file
shorten file (suc i) n =
    let next = shorten file i n in
    let counted = shorten file i (n + 1) in
    if get_or file (suc i) 0 == b'/'
    then (if ltb n 1 then counted else drop (suc i + 1) file)
    else next

-- getCaller
unfoldable pub get_caller : Option (Str × ℕ) → Str × ℕ
get_caller none = ([], 0)
get_caller (some (file, line)) = (shorten file (length file - 1) 0, line)

-- The rounds of findCaller that are left, from a frame on, and what the last round found.
unfoldable pub find_rounds : (ℕ → Option (Str × ℕ)) → ℕ → ℕ → Str × ℕ → Str × ℕ
find_rounds caller zero i found = found
find_rounds caller (suc rounds) i found =
    let next = get_caller (caller i) in
    let rest = find_rounds caller rounds (i + 1) next in
    if has_prefix next.0 (codes "logrus") then rest else next

-- findCaller, before it prints the two.
unfoldable pub find_caller : (ℕ → Option (Str × ℕ)) → ℕ → Str × ℕ
find_caller caller skip = find_rounds caller 10 skip ([], 0)

-- contextHook; a level is a number.
pub record ContextHook : Type 0 where
  pub field : Str
  pub skip : ℕ
  pub levels : List ℕ

-- NewContextHook: no levels are all levels.
unfoldable pub new_context_hook : List ℕ → List ℕ → ContextHook
new_context_hook all_levels [] = record { field = codes "line"; skip = 5; levels = all_levels }
new_context_hook all_levels (l ∷ levels) = record {
  field = codes "line";
  skip = 5;
  levels = l ∷ levels;
}

-- Levels, which does not read the field.
unfoldable pub hook_levels : List ℕ → ContextHook → List ℕ
hook_levels all_levels hook = all_levels

-- Fire, on the fields of an entry; `sprintf` prints the file and the line.
unfoldable pub fire : (Str → ℕ → Str) → (ℕ → Option (Str × ℕ)) → ContextHook → Dict Str → Dict Str
unfolding find_caller
fire sprintf caller hook fields =
    let (file, line) = find_caller caller hook.skip in insert hook.field (sprintf file line) fields
