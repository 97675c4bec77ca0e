-- ===== src/Logger/Silence.antt =====
-- When a log is written to and when it is not.
use atscppapi.Common.{ℕ, Bytes, Bool, true, false, Option, none, some, ◌≡◌, refl, arith}
use atscppapi.Logger.{
  log_mode, TextLogApi, Logger, LogLevel, new, init, created, log_debug, log_info, log_error,
  level_value,
}

-- A message of each level, with its method.
pub data Message : Type 0 where
  debug info error : Option Bytes → Message

module _ {ts : TextLogApi} where
  unfoldable pub log : Message → Logger ts → Logger ts
  unfolding log_debug log_info log_error
  log (debug m) s = log_debug m s
  log (info m) s = log_info m s
  log (error m) s = log_error m s

  created-initialized :
      (r : Option ts.TextLogObject × ts.World) (s : Logger ts)
      → (created r s).1.initialized ≡ s.initialized
  unfolding created
  created-initialized (none, world) s = refl
  created-initialized (some obj, world) s = refl

  init-initialized :
      (file : Bytes) (stamp rename rolling : Bool) (level : LogLevel) (seconds : ℕ) (s : Logger ts)
      → (init file stamp rename level rolling seconds s).1.initialized ≡ true
  unfolding init
  init-initialized file stamp rename rolling level seconds s = ground (
    arith,
    created-initialized (ts.create s.world file (log_mode ts stamp rename)) (record {
      filename = file;
      add_timestamp = stamp;
      rename_file = rename;
      level = level;
      rolling_enabled = rolling;
      rolling_interval_seconds = seconds;
      text_log_obj = s.text_log_obj;
      initialized = true;
      world = s.world;
    }),
  )

  already_initialized :
      (file : Bytes) (stamp rename rolling : Bool) (level : LogLevel) (seconds : ℕ) (s : Logger ts)
      → s.initialized ≡ true
      → init file stamp rename level rolling seconds s ≡ (false, s)
  unfolding init
  already_initialized file stamp rename rolling level seconds s e = rw e refl

  -- A logger is initialized once: a second `init` fails and changes nothing, also after a first one
  -- that failed.
  init-init :
      (file file' : Bytes) (stamp stamp' rename rename' rolling rolling' : Bool)
      (level level' : LogLevel) (seconds seconds' : ℕ) (s : Logger ts)
      → let first = (init file stamp rename level rolling seconds s).1 in
        init file' stamp' rename' level' rolling' seconds' first ≡ (false, first)
  init-init file file' stamp stamp' rename rename' rolling rolling' level level' seconds seconds'
        s =
      already_initialized file' stamp' rename' rolling' level' seconds' _
        (init-initialized file stamp rename rolling level seconds s)

  -- After an `init` of a new logger that failed, nothing is written, whatever the level that was asked for.
  log-failed_init :
      (file : Bytes) (stamp rename rolling : Bool) (level : LogLevel) (seconds : ℕ) (w : ts.World)
      (m : Message)
      → (init file stamp rename level rolling seconds (new {ts = ts} w)).0 ≡ false
      → let s = (init file stamp rename level rolling seconds (new {ts = ts} w)).1 in log m s ≡ s
  unfolding init created new log log_debug log_info log_error level_value
  log-failed_init file stamp rename rolling level seconds w (debug m) failed = ground arith
  log-failed_init file stamp rename rolling level seconds w (info m) failed = ground arith
  log-failed_init file stamp rename rolling level seconds w (error m) failed = ground arith
