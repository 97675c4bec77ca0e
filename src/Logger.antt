-- ===== src/Logger.antt =====
-- src/Logger.cc and src/include/atscppapi/Logger.h: a text log of a plugin. The formatted message is
-- an argument, the result of `vsnprintf`: `none` for a negative result.
pub mod Silence
use atscppapi.Common.{
  ℕ, Bytes, codes, Bool, true, false, not, Option, none, some, List, [], ltb, leb, length,
  if◌then◌else◌, ◌+◌,
}

-- The text logs of Traffic Server (ts/ts.h). A text log object may be null, `none`; the results say
-- what the calls do with it.
pub record TextLogApi : Type 1 where
  pub World : Type 0
  pub TextLogObject : Type 0
  -- TS_LOG_MODE_ADD_TIMESTAMP and TS_LOG_MODE_DO_NOT_RENAME
  pub add_timestamp_mode : ℕ
  pub do_not_rename_mode : ℕ
  -- TSTextLogObjectCreate: `none` for a result other than TS_SUCCESS
  pub create : World → Bytes → ℕ → Option TextLogObject × World
  -- TSTextLogObjectRollingEnabledSet, RollingIntervalSecSet, Flush, Write, Destroy
  pub rolling_enabled_set : World → Option TextLogObject → ℕ → World
  pub rolling_interval_set : World → Option TextLogObject → ℕ → World
  pub flush : World → Option TextLogObject → World
  pub write : World → Option TextLogObject → Bytes → Bytes → World
  pub destroy : World → TextLogObject → World

-- Logger::LogLevel
pub data LogLevel : Type 0 where
  log_level_no_log log_level_debug log_level_info log_level_error : LogLevel

unfoldable pub level_value : LogLevel → ℕ
level_value log_level_no_log = 128
level_value log_level_debug = 1
level_value log_level_info = 2
level_value log_level_error = 4

-- LoggerState. The rolling interval is given as its bit pattern.
pub record Logger (ts : TextLogApi) : Type 0 where
  pub filename : Bytes
  pub add_timestamp : Bool
  pub rename_file : Bool
  pub level : LogLevel
  pub rolling_enabled : Bool
  pub rolling_interval_seconds : ℕ
  pub text_log_obj : Option ts.TextLogObject
  pub initialized : Bool
  pub world : ts.World

abbrev roll_on_time : ℕ
roll_on_time = 1

abbrev default_buffer_size_for_varargs : ℕ
default_buffer_size_for_varargs = 8192

-- The modes are single bits, so that `|=` adds them.
unfoldable pub log_mode : (ts : TextLogApi) → Bool → Bool → ℕ
log_mode ts add_timestamp rename_file =
    (if add_timestamp then ts.add_timestamp_mode else 0)
    + (if rename_file then 0 else ts.do_not_rename_mode)

module _ {ts : TextLogApi} where
  unfoldable pub new : ts.World → Logger ts
  new world = record {
    filename = [];
    add_timestamp = false;
    rename_file = false;
    level = log_level_no_log;
    rolling_enabled = false;
    rolling_interval_seconds = 4294967295;
    text_log_obj = none;
    initialized = false;
    world = world;
  }

  -- ~Logger
  unfoldable pub delete : Logger ts → ts.World
  delete s =
      if s.initialized
      then elim s.text_log_obj [ none ↦ s.world | some obj ↦ ts.destroy s.world obj ]
      else s.world

  -- The part of `init` after the log has been asked for.
  unfoldable pub created : Option ts.TextLogObject × ts.World → Logger ts → Bool × Logger ts
  created (none, world) s = (false, record s { level = log_level_no_log; world = world })
  created (some obj, world) s =
      let enabled =
        ts.rolling_enabled_set world (some obj) (if s.rolling_enabled then roll_on_time else 0) in
      (
        true,
        record s {
          text_log_obj = some obj;
          world = ts.rolling_interval_set enabled (some obj) s.rolling_interval_seconds;
        },
      )

  unfoldable pub init : Bytes → Bool → Bool → LogLevel → Bool → ℕ → Logger ts → Bool × Logger ts
  unfolding created log_mode
  init file add_timestamp rename_file level rolling_enabled rolling_interval_seconds s =
      if s.initialized
      then (false, s)
      else created (ts.create s.world file (log_mode ts add_timestamp rename_file)) (record s {
        filename = file;
        add_timestamp = add_timestamp;
        rename_file = rename_file;
        level = level;
        rolling_enabled = rolling_enabled;
        rolling_interval_seconds = rolling_interval_seconds;
        initialized = true;
      })

  unfoldable pub set_log_level : LogLevel → Logger ts → Logger ts
  set_log_level level s = if s.initialized then record s { level = level } else s

  abbrev pub get_log_level : Logger ts → LogLevel
  get_log_level s = s.level

  abbrev pub get_rolling_interval_seconds : Logger ts → ℕ
  get_rolling_interval_seconds s = s.rolling_interval_seconds

  abbrev pub is_rolling_enabled : Logger ts → Bool
  is_rolling_enabled s = s.rolling_enabled

  unfoldable pub set_rolling_interval_seconds : ℕ → Logger ts → Logger ts
  set_rolling_interval_seconds seconds s =
      if s.initialized
      then record s {
        rolling_interval_seconds = seconds;
        world = ts.rolling_interval_set s.world s.text_log_obj seconds;
      }
      else s

  unfoldable pub set_rolling_enabled : Bool → Logger ts → Logger ts
  set_rolling_enabled enabled s =
      if s.initialized
      then record s {
        rolling_enabled = enabled;
        world = ts.rolling_enabled_set s.world s.text_log_obj (if enabled then roll_on_time else 0);
      }
      else s

  unfoldable pub flush : Logger ts → Logger ts
  flush s = if s.initialized then record s { world = ts.flush s.world s.text_log_obj } else s

  -- TS_TEXT_LOG_OBJECT_WRITE
  unfoldable pub text_log_object_write : Bytes → Option Bytes → Logger ts → Logger ts
  text_log_object_write fmt none s = s
  text_log_object_write fmt (some message) s =
      if ltb (length message) default_buffer_size_for_varargs
      then record s { world = ts.write s.world s.text_log_obj fmt message }
      else s

  unfoldable pub log_debug : Option Bytes → Logger ts → Logger ts
  unfolding text_log_object_write level_value
  log_debug message s =
      if leb (level_value s.level) (level_value log_level_debug)
      then text_log_object_write (codes "[DEBUG] %s") message s
      else s

  unfoldable pub log_info : Option Bytes → Logger ts → Logger ts
  unfolding text_log_object_write level_value
  log_info message s =
      if leb (level_value s.level) (level_value log_level_info)
      then text_log_object_write (codes "[INFO] %s") message s
      else s

  unfoldable pub log_error : Option Bytes → Logger ts → Logger ts
  unfolding text_log_object_write level_value
  log_error message s =
      if leb (level_value s.level) (level_value log_level_error)
      then text_log_object_write (codes "[ERROR] %s") message s
      else s
