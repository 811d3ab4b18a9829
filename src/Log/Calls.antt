-- ===== src/Log/Calls.antt =====
-- The calls of the log macros: `LogImpl` and `capture_timestamp` of
-- braid/src/util/include/braid/util/LogHandler.h, and the one handler that
-- braid/src/util/src/LogHandler.cc makes. A message is given as `std::format` makes it, or as the
-- text itself; `print` is what `snprintf` makes of a number with leading zeros up to a width, and
-- `to_string` what `std::format` makes of a line number. The time and the place are arguments.
pub mod Laws
use first_server.Common.{
  ℕ, ◌+◌, List, [], ◌∷◌, ◌++◌, Option, none, some, Bool, true, false, ℤ, pos, ◌+ℤ◌, take,
}
use first_server.Log.{
  LogLevel, info, LogHandler, Entry, write_log, log_impl, get_filename, disable_file_output,
}

-- `instance_` and `get_instance`: the first call makes the handler
unfoldable pub new_handler : LogHandler
new_handler = record {
  min_level = info;
  file_enabled = false;
  file_stream = record { is_open = false; good = true; lines = [] };
  file_path = [];
  stdout = [];
  errors = 0;
}

unfoldable pub get_instance : Option LogHandler → LogHandler
get_instance none = new_handler
get_instance (some h) = h

-- The fields of `std::tm` that are printed.
pub record Tm : Type 0 where
  pub tm_year : ℤ
  pub tm_mon : ℤ
  pub tm_mday : ℤ
  pub tm_hour : ℤ
  pub tm_min : ℤ
  pub tm_sec : ℤ

pub record SourceLocation : Type 0 where
  pub file_name : List ℕ
  pub line : ℕ
  pub function_name : List ℕ

pub record LogCall : Type 0 where
  pub level : LogLevel
  pub loc : SourceLocation
  pub now : Tm
  pub message : List ℕ

module _ (print : ℕ → ℤ → List ℕ) (to_string : ℕ → List ℕ) where
  -- "%04d-%02d-%02d %02d:%02d:%02d", cut to the 63 characters that the buffer has room for
  unfoldable pub capture_timestamp : Tm → List ℕ
  capture_timestamp tm_now = take 63 (
      print 4 (tm_now.tm_year +ℤ pos 1900)
      ++ (b'-' ∷ print 2 (tm_now.tm_mon +ℤ pos 1))
      ++ (b'-' ∷ print 2 tm_now.tm_mday)
      ++ (b' ' ∷ print 2 tm_now.tm_hour)
      ++ (b':' ∷ print 2 tm_now.tm_min)
      ++ (b':' ∷ print 2 tm_now.tm_sec))

  -- "[{}:{} {}]"
  unfoldable pub location_of : SourceLocation → List ℕ
  location_of loc =
      (b'[' ∷ get_filename loc.file_name)
      ++ (b':' ∷ to_string loc.line)
      ++ (b' ' ∷ loc.function_name)
      ++ (b']' ∷ [])

  -- The arguments of the `write_log` that a call requests if its level is high enough.
  abbrev pub entry_of : LogCall → Entry
  entry_of call = record {
    level = call.level;
    timestamp = capture_timestamp call.now;
    location = location_of call.loc;
    message = call.message;
  }

  -- One call, whose task the serializer runs; `written` is as in `write_log`.
  unfoldable pub log_and_write : Bool → LogCall → LogHandler → LogHandler
  log_and_write written call h = elim (log_impl (entry_of call) h) [
    | none ↦ h
    | some e ↦ write_log written e h
  ]

  unfoldable pub log_calls : List (LogCall × Bool) → LogHandler → LogHandler
  log_calls [] h = h
  log_calls ((call, written) ∷ more) h = log_calls more (log_and_write written call h)
