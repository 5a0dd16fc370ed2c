-- ===== src/Log.antt =====
-- bingo/log: the levels (log_level.cpp), the level tests of logger (logger.cpp), and the local visitor
-- with its configuration (handlers/local_log_visitor.cpp, config/local_cfg.cpp). The values of the
-- configuration file are a parameter, an error or a value for each name; the text of the local time
-- is an argument; the message that log_out receives is the result.
pub mod Levels
pub mod Filter
pub mod Reading
use Prim.Native.String
use Prim.Native.String.{String}
use text.Mathlib.Text.{◌==◌ as str_eq}
use bingo_v.Prelude.{
  ℕ, ℤ, pos, negsuc, Bool, true, false, Option, none, some, ltb, leb, ◌==◌, if◌then◌else◌,
}
use bingo_v.ErrorWhat.{ErrorWhat, error_what, err_no, err_message, clone}

-- The enum log_level.
pub data LogLevel : Type 0 where
  log_level_off log_level_fatal log_level_error log_level_info log_level_debug log_level_all
        log_level_unknown :
      LogLevel

abbrev pub value_of : LogLevel → ℕ
value_of log_level_off = 0x00
value_of log_level_fatal = 0x01
value_of log_level_error = 0x02
value_of log_level_info = 0x03
value_of log_level_debug = 0x04
value_of log_level_all = 0x05
value_of log_level_unknown = 0xFF

unfoldable pub level_to_string : LogLevel → String
level_to_string log_level_off = "off"
level_to_string log_level_fatal = "fatal"
level_to_string log_level_error = "error"
level_to_string log_level_info = "info"
level_to_string log_level_debug = "debug"
level_to_string log_level_all = "all"
level_to_string log_level_unknown = "unknow"

unfoldable pub string_to_level : String → LogLevel
string_to_level s =
    if str_eq s "off"
    then log_level_off
    else if str_eq s "fatal"
    then log_level_fatal
    else if str_eq s "error"
    then log_level_error
    else if str_eq s "info"
    then log_level_info
    else if str_eq s "debug"
    then log_level_debug
    else if str_eq s "all"
    then log_level_all
    else log_level_unknown

-- now@tag@name@data
abbrev pub log_message : String → String → String → String → String
log_message now tag name info =
    String.◌++◌ now (
      String.◌++◌ "@" (String.◌++◌ tag (String.◌++◌ "@" (String.◌++◌ name (String.◌++◌ "@" info)))))

-- The methods log_f, log_e, log_i and log_d of a logger with the level cur_level_.
unfoldable pub log_f : LogLevel → String → String → String → Option String
log_f cur now tag info =
    if ltb (value_of cur) (value_of log_level_fatal)
    then none
    else some (log_message now tag "fatal" info)

unfoldable pub log_e : LogLevel → String → String → String → Option String
log_e cur now tag info =
    if ltb (value_of cur) (value_of log_level_error)
    then none
    else some (log_message now tag "error" info)

unfoldable pub log_i : LogLevel → String → String → String → Option String
log_i cur now tag info =
    if ltb (value_of cur) (value_of log_level_info)
    then none
    else some (log_message now tag "info" info)

unfoldable pub log_d : LogLevel → String → String → String → Option String
log_d cur now tag info =
    if ltb (value_of cur) (value_of log_level_debug)
    then none
    else some (log_message now tag "debug" info)

pub data LocalLoggerType : Type 0 where
  every_day every_hour one_file logger_type_unknown : LocalLoggerType

unfoldable pub string_to_local_logger_type : String → LocalLoggerType
string_to_local_logger_type s =
    if str_eq s "every_day"
    then every_day
    else if str_eq s "every_hour"
    then every_hour
    else if str_eq s "one_file"
    then one_file
    else logger_type_unknown

-- The class local_cfg; the names of the file and of its folder are left out of the value.
pub record LocalCfg : Type 0 where
  pub is_valid : Bool
  pub logger_type : LocalLoggerType
  pub level : LogLevel
  pub err : ErrorWhat

-- What get_value gives for a name: an error, or the text of the node.
pub data Node : Type 0 where
  missing : ErrorWhat → Node
  found : String → Node

-- The end of check_node, from the text of the level on.
with_level : LocalCfg → LogLevel → LocalCfg × Bool
with_level c log_level_unknown =
    (record c { err = err_message "the level value is invalid in cfg.xml!" c.err }, false)
with_level c l = (record c { level = l }, true)

check_level : LocalCfg → Node → LocalCfg × Bool
unfolding string_to_level with_level
check_level c (missing e) = (record c { err = clone e c.err }, false)
check_level c (found s) = with_level c (string_to_level s)

-- A name whose text is only copied.
check_text : LocalCfg → Node → LocalCfg × Bool → LocalCfg × Bool
check_text c (missing e) next = (record c { err = clone e c.err }, false)
check_text c (found s) next = next

-- The names after the type.
check_rest : LocalCfg → (String → Node) → LocalCfg × Bool
unfolding check_level check_text
check_rest c get = check_text c (get "application.local_log_visitor.filename") (
    check_text c (get "application.local_log_visitor.path")
      (check_level c (get "application.local_log_visitor.level")))

check_known : LocalCfg → (String → Node) → LocalLoggerType → LocalCfg × Bool
unfolding check_rest
check_known c get logger_type_unknown =
    (record c { err = err_message "the type value is invalid in cfg.xml!" c.err }, false)
check_known c get t = check_rest (record c { logger_type = t }) get

check_type : LocalCfg → (String → Node) → Node → LocalCfg × Bool
unfolding check_known string_to_local_logger_type
check_type c get (missing e) = (record c { err = clone e c.err }, false)
check_type c get (found s) = check_known c get (string_to_local_logger_type s)

unfoldable pub check_node : LocalCfg → (String → Node) → LocalCfg × Bool
unfolding check_type
check_node c get = check_type c get (get "application.local_log_visitor.type")

-- is_valid = check_node(); if(!is_valid) err_.err_no(...); return is_valid;
checked : LocalCfg × Bool → LocalCfg × Bool
checked (c, true) = (record c { is_valid = true }, true)
checked (c, false) = (record c { is_valid = false; err = err_no 0x51 c.err }, false)

-- read_xml(config_file), given the outcome of xml_.read.
unfoldable pub read_xml : LocalCfg → Option (String → Node) → ErrorWhat → LocalCfg × Bool
unfolding check_node checked
read_xml c none e = (record c { err = err_no 0x50 (clone e c.err) }, false)
read_xml c (some get) e = checked (check_node c get)

-- The class local_log_visitor: config_, logger_ with its cur_level_ unless it is null, and e_what_.
pub record LocalLogVisitor : Type 0 where
  pub config : LocalCfg
  pub logger : Option LogLevel
  pub e_what : ErrorWhat

unfoldable pub local_log_visitor : LocalLogVisitor
local_log_visitor = record {
  config = record {
    is_valid = false;
    logger_type = logger_type_unknown;
    level = log_level_unknown;
    err = error_what;
  };
  logger = none;
  e_what = error_what;
}

-- The branch of read_config in which the configuration was read: a logger of each known type, or the old
-- one.
make_logger : LocalLogVisitor → LocalLoggerType → LocalLogVisitor × Bool
make_logger v logger_type_unknown = elim v.logger [
  | none ↦ (
    record v {
      e_what = err_message "create local logger fail, type isn't exist!" (err_no 0x52 v.e_what);
    },
    false,
  )
  | some old ↦ (record v { logger = some v.config.level }, true)
]
make_logger v _ = (record v { logger = some v.config.level }, true)

configured : LocalLogVisitor → LocalCfg × Bool → LocalLogVisitor × Bool
unfolding make_logger
configured v (c, true) = make_logger (record v { config = c }) c.logger_type
configured v (c, false) = (record v { config = c; e_what = clone c.err v.e_what }, false)

-- read_config(config_file)
unfoldable pub read_config :
    LocalLogVisitor → Option (String → Node) → ErrorWhat → LocalLogVisitor × Bool
unfolding configured read_xml
read_config v get e = configured v (read_xml v.config get e)

-- The switch over the level, an int.
abbrev log_by : ℤ → LogLevel → String → String → String → Option String
log_by (negsuc n) cur now tag info = log_d cur now tag info
log_by (pos level) cur now tag info =
    if level == 0x04
    then log_d cur now tag info
    else if level == 0x02
    then log_e cur now tag info
    else if level == 0x01
    then log_f cur now tag info
    else if level == 0x03
    then log_i cur now tag info
    else log_d cur now tag info

-- level <= (int)(config_.value.level)
abbrev lets_through : LogLevel → ℤ → Bool
lets_through l (negsuc n) = true
lets_through l (pos level) = leb level (value_of l)

-- handle(level, tag, info): the message that is written, if one is; the outer `none` is a call through
-- the null logger_.
unfoldable pub handle : LocalLogVisitor → ℤ → String → String → String → Option (Option String)
unfolding log_f log_e log_i log_d
handle v level now tag info =
    if v.config.is_valid
    then if lets_through v.config.level level
      then elim v.logger [ none ↦ none | some cur ↦ some (log_by level cur now tag info) ]
      else some none
    else some none

unfoldable pub set_level : LocalLogVisitor → LogLevel → LocalLogVisitor
set_level v l = if v.config.is_valid then record v { config = record v.config { level = l } } else v
