-- ===== src/Log.antt =====
-- tools/log/log.go: the log's hook, which writes the entries of each level to a file. Rotating and
-- writing the files is the log libraries': `new_rotate_logs` is
-- rotatelogs.New, with `none` for an error.
pub mod Laws
use go_websocket.Prelude.{
  ℕ, suc, Bool, true, false, Option, none, some, List, [], ◌∷◌, ◌++◌, ◌==◌, if◌then◌else◌,
}
use go_websocket.Prelude.Text.{Str, codes}
use go_websocket.Setting.{Global}

-- The levels of logrus that Setup names.
pub data Level : Type 0 where
  debug_level info_level warn_level error_level fatal_level panic_level : Level

-- getCurrentDirectory, from the absolute path of the program's folder.
unfoldable pub get_current_directory : Str → Str
get_current_directory [] = []
get_current_directory (c ∷ dir) = (if c == b'\\' then b'/' else c) ∷ get_current_directory dir

-- What rotatelogs.New takes: the pattern of the files, the link to the newest one, and the hours for
-- which a file is kept.
pub record RotateOptions : Type 0 where
  pub pattern : Str
  pub link_name : Str
  pub max_age : ℕ

unfoldable pub info_options : Str → RotateOptions
info_options base_path = record {
  pattern = base_path ++ (codes "/log/info/" ++ codes "%Y-%m-%d" ++ codes ".log");
  link_name = codes "log.log";
  max_age = 48;
}

unfoldable pub error_options : Str → RotateOptions
error_options base_path = record {
  pattern = base_path ++ (codes "/log/error/" ++ codes "%Y-%m-%d" ++ codes ".log");
  link_name = codes "error.log";
  max_age = 48;
}

-- JSONFormatter
pub record JsonFormatter : Type 0 where
  pub timestamp_format : Str
  pub pretty_print : Bool
  pub field_map : List (Str × Str)

-- A hook of lfshook; a writer may be nil.
pub record FileHook (W : Type 0) : Type 0 where
  pub writers : List (Level × Option W)
  pub formatter : JsonFormatter

-- The logger: its hooks, whether it notes the place of a call, and the errors of Setup that it logged.
pub record Logger (W : Type 0) : Type 0 where
  pub hooks : List (FileHook W)
  pub report_caller : Bool
  pub logged_errors : ℕ

module _ {W : Type 0} where
  -- An error of New is logged, and Setup goes on with the nil writer.
  unfoldable pub checked : Option W → Logger W → Logger W
  checked none l = record l { logged_errors = suc l.logged_errors }
  checked (some writer) l = l

  unfoldable pub writer_map : Option W → Option W → List (Level × Option W)
  writer_map writer error_writer =
      (debug_level, writer)
      ∷ (info_level, writer)
      ∷ (warn_level, writer)
      ∷ (error_level, error_writer)
      ∷ (fatal_level, writer)
      ∷ (panic_level, writer)
      ∷ []

  unfoldable pub file_hook : Option W → Option W → Global → FileHook W
  unfolding writer_map
  file_hook writer error_writer global = record {
    writers = writer_map writer error_writer;
    formatter = record {
      timestamp_format = codes "2006-01-02 15:04:05";
      pretty_print = false;
      field_map = (codes "host", global.local_host) ∷ [];
    };
  }

  -- Setup; `dir` is the absolute path of the program's folder.
  unfoldable pub setup : (RotateOptions → Option W) → Str → Global → Logger W → Logger W
  setup new_rotate_logs dir global l =
      let base_path = get_current_directory dir in
      let writer = new_rotate_logs (info_options base_path) in
      let error_writer = new_rotate_logs (error_options base_path) in
      let m = checked error_writer (checked writer l) in
      record m {
        report_caller = true;
        hooks = m.hooks ++ file_hook writer error_writer global ∷ [];
      }
