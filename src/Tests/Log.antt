-- ===== src/Tests/Log.antt =====
-- bingo/log with a configuration file that asks for the level info.
use Prim.Native.String.{String}
use text.Mathlib.Text.{◌==◌ as str_eq}
use bingo_v.Prelude.{pos, ◌≡◌, ◌⊎◌, refl, true, none, some, if◌then◌else◌}
use bingo_v.ErrorWhat.{error_what}
use bingo_v.Log.{
  log_level_info, log_message, LocalLogVisitor, every_hour, Node, found, handle, read_config,
}
use bingo_v.Log.Filter.{rank_name, IsWritten, handle_lem}
use bingo_v.Log.Reading.{IsConfigured, read_config-IsConfigured}

abbrev nodes : String → Node
nodes name =
    if str_eq name "application.local_log_visitor.type"
    then found "every_hour"
    else if str_eq name "application.local_log_visitor.level"
    then found "info"
    else found "log"

abbrev visitor : LocalLogVisitor
visitor = record {
  config = record {
    is_valid = true;
    logger_type = every_hour;
    level = log_level_info;
    err = error_what;
  };
  logger = some log_level_info;
  e_what = error_what;
}

read_config-IsConfigured_example :
    IsConfigured visitor (some nodes) (read_config visitor (some nodes) error_what)
read_config-IsConfigured_example = read_config-IsConfigured visitor (some nodes) error_what

handle_lem_example :
    (IsWritten visitor log_level_info (pos 2)
      × (handle visitor (pos 2) ("now") ("tag") ("text")
          ≡ some (some (log_message ("now") ("tag") (rank_name (pos 2)) ("text")))))
    ⊎ ((¬ IsWritten visitor log_level_info (pos 2))
        × (handle visitor (pos 2) ("now") ("tag") ("text") ≡ some none))
handle_lem_example = handle_lem visitor log_level_info (pos 2) ("now") ("tag") ("text") refl
