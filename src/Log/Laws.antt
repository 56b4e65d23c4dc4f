-- ===== src/Log/Laws.antt =====
-- Where an entry of the log goes once Setup of tools/log/log.go has run.
use go_websocket.Prelude.{
  ℕ, ◌+◌, ◌≡◌, refl, ap, ◌∙◌, Bool, true, false, Option, none, some, List, [], ◌∷◌, ◌++◌, arith,
  if◌then◌else◌,
}
use go_websocket.Prelude.Text.{Str}
use go_websocket.Setting.{Global}
use go_websocket.Log.{
  Level, debug_level, info_level, warn_level, error_level, fatal_level, panic_level,
  get_current_directory, RotateOptions, info_options, error_options, FileHook, Logger, checked,
  writer_map, file_hook, setup,
}

-- Is it the level of errors?
abbrev pub is_error : Level → Bool
is_error error_level = true
is_error _ = false

abbrev same_level : Level → Level → Bool
same_level debug_level debug_level = true
same_level info_level info_level = true
same_level warn_level warn_level = true
same_level error_level error_level = true
same_level fatal_level fatal_level = true
same_level panic_level panic_level = true
same_level _ _ = false

-- The writer of a level, if the map has one.
abbrev pub writer_of : {W : Type 0} → Level → List (Level × Option W) → Option (Option W)
writer_of level [] = none
writer_of level ((key, writer) ∷ writers) =
    if same_level key level then some writer else writer_of level writers

abbrev pub missing : {W : Type 0} → Option W → ℕ
missing none = 1
missing (some w) = 0

module _ {W : Type 0} (new_rotate_logs : RotateOptions → Option W) (dir : Str)
    (global : Global) where
  abbrev pub info_file : Option W
  info_file = new_rotate_logs (info_options (get_current_directory dir))

  abbrev pub error_file : Option W
  error_file = new_rotate_logs (error_options (get_current_directory dir))

  checked-keeps :
      (o : Option W) (l : Logger W)
      → ((checked o l).hooks ≡ l.hooks)
        × ((checked o l).logged_errors ≡ l.logged_errors + missing o)
  unfolding checked
  checked-keeps none l = (refl, omega arith)
  checked-keeps (some w) l = (refl, omega arith)

  -- Setup adds one hook behind those that are there. For each of the six levels the hook has the writer
  -- that New gave for the pattern of the error file, if the level is that of errors, and for that of the
  -- info file, if not, be it nil. Setup logs an error for each of the two that New did not give, and turns
  -- the reporting of callers on.
  pub setup_lem :
      (l : Logger W)
      → (hook : FileHook W) × ((setup new_rotate_logs dir global l).hooks ≡ l.hooks ++ hook ∷ [])
        × ((level : Level)
            → writer_of level hook.writers
              ≡ some (if is_error level then error_file else info_file))
        × ((setup new_rotate_logs dir global l).report_caller ≡ true)
        × ((setup new_rotate_logs dir global l).logged_errors
            ≡ l.logged_errors + missing info_file + missing error_file)
  unfolding setup file_hook writer_map
  setup_lem l =
      let (a, b) = checked-keeps info_file l in
      let (c, d) = checked-keeps error_file (checked info_file l) in
      (
        file_hook info_file error_file global,
        ap (λ h. h ++ file_hook info_file error_file global ∷ []) (c ∙ a),
        to_file,
        refl,
        omega (arith, b, d),
      )
    where
      to_file :
          (level : Level)
          → writer_of level (file_hook info_file error_file global).writers
            ≡ some (if is_error level then error_file else info_file)
      to_file debug_level = refl
      to_file info_level = refl
      to_file warn_level = refl
      to_file error_level = refl
      to_file fatal_level = refl
      to_file panic_level = refl
