-- ===== src/Log.antt =====
-- braid/src/util: LogHandler.cc and LogHandler.h.
-- A log line's time and place come from the library and are arguments. So are what the file system
-- does: whether a file can be opened, and whether a line can be written. `std::ofstream` is kept as
-- whether it is open and good, with the lines that it has taken. `errors` counts the complaints to
-- the standard error output.
pub mod Calls
pub mod Laws
pub mod Tests
use first_server.Common.{
  ℕ, zero, suc, ◌+◌, List, [], ◌∷◌, ◌++◌, Option, none, some, Bool, true, false, if◌then◌else◌, ltb,
  drop, ◌==◌,
}

pub data LogLevel : Type 0 where
  info error fatal : LogLevel

abbrev pub level_number : LogLevel → ℕ
level_number info = 0
level_number error = 1
level_number fatal = 2

unfoldable pub to_string : LogLevel → List ℕ
to_string info = b'I' ∷ b'N' ∷ b'F' ∷ b'O' ∷ []
to_string error = b'E' ∷ b'R' ∷ b'R' ∷ b'O' ∷ b'R' ∷ []
to_string fatal = b'F' ∷ b'A' ∷ b'T' ∷ b'A' ∷ b'L' ∷ []

pub record FileStream : Type 0 where
  pub is_open : Bool
  pub good : Bool
  pub lines : List (List ℕ)

pub record LogHandler : Type 0 where
  pub min_level : LogLevel
  pub file_enabled : Bool
  pub file_stream : FileStream
  pub file_path : List ℕ
  -- the lines on the standard output
  pub stdout : List (List ℕ)
  pub errors : ℕ

unfoldable pub set_min_level : LogLevel → LogHandler → LogHandler
set_min_level level h = record h { min_level = level }

unfoldable pub get_min_level : LogHandler → LogLevel
get_min_level h = h.min_level

unfoldable pub is_file_enabled : LogHandler → Bool
is_file_enabled h = h.file_enabled

-- `~LogHandler`, after the `set_destroy` of the serializer that it is
unfoldable pub destroy_handler : LogHandler → LogHandler
destroy_handler h =
    if h.file_stream.is_open
    then record h { file_stream = record (h.file_stream) { is_open = false } }
    else h

-- `opened`: whether the file opens; opening a stream sets it to good or to failed.
unfoldable pub enable_file_output : Bool → List ℕ → LogHandler → LogHandler
enable_file_output opened path h =
    let stream : FileStream = record (h.file_stream) { is_open = opened; good = opened } in
    let h' : LogHandler = record h { file_path = path; file_stream = stream } in
    if opened
    then record h' { file_enabled = true }
    else record h' { file_enabled = false; errors = h.errors + 1 }

unfoldable pub disable_file_output : LogHandler → LogHandler
disable_file_output h = record h {
  file_enabled = false;
  file_stream = record (h.file_stream) { is_open = false };
}

unfoldable pub initialize : Bool → List ℕ → LogLevel → LogHandler → LogHandler
unfolding enable_file_output
initialize opened path level h = elim path [
  | [] ↦ record h { min_level = level }
  | c ∷ cs ↦ enable_file_output opened (c ∷ cs) (record h { min_level = level })
]

-- "{} [{}] {} : {}"
unfoldable pub format_log : LogLevel → List ℕ → List ℕ → List ℕ → List ℕ
unfolding to_string
format_log level timestamp location message =
    timestamp
    ++ (b' ' ∷ b'[' ∷ to_string level)
    ++ (b']' ∷ b' ' ∷ location)
    ++ (b' ' ∷ b':' ∷ b' ' ∷ message)

unfoldable pub write_to_stdout : List ℕ → LogHandler → LogHandler
write_to_stdout formatted h = record h { stdout = h.stdout ++ (formatted ∷ []) }

-- `written`: whether the line and the flush come through; the stream fails if not.
unfoldable pub write_to_file : Bool → List ℕ → LogHandler → LogHandler
write_to_file written formatted h =
    let valid = if h.file_stream.is_open then h.file_stream.good else false in
    if valid
    then (if written
        then record h {
          file_stream = record (h.file_stream) { lines = h.file_stream.lines ++ (formatted ∷ []) };
        }
        else record h {
          file_stream = record (h.file_stream) { good = false };
          file_enabled = false;
          errors = h.errors + 1;
        })
    else record h { file_enabled = false; errors = h.errors + 1 }

pub record Entry : Type 0 where
  pub level : LogLevel
  pub timestamp : List ℕ
  pub location : List ℕ
  pub message : List ℕ

unfoldable pub write_log : Bool → Entry → LogHandler → LogHandler
unfolding format_log write_to_stdout write_to_file
write_log written e h =
    let formatted = format_log e.level e.timestamp e.location e.message in
    let h' = write_to_stdout formatted h in
    if h'.file_enabled then write_to_file written formatted h' else h'

-- The tasks of a handler, in the order in which the serializer runs them.
unfoldable pub write_logs : List (Entry × Bool) → LogHandler → LogHandler
write_logs [] h = h
write_logs ((e, written) ∷ more) h = write_logs more (write_log written e h)

-- `LogImpl`: the `write_log` task that it requests, if any
unfoldable pub log_impl : Entry → LogHandler → Option Entry
log_impl e h = if ltb (level_number e.level) (level_number h.min_level) then none else some e

abbrev pub is_separator : ℕ → Bool
is_separator c = if c == b'/' then true else (c == b'\\')

-- `path.find_last_of("/\\")`
unfoldable pub find_last_of : List ℕ → Option ℕ
find_last_of [] = none
find_last_of (c ∷ cs) = elim (find_last_of cs) [
  | some i ↦ some (suc i)
  | none ↦ if is_separator c then some 0 else none
]

unfoldable pub get_filename : List ℕ → List ℕ
get_filename path = elim (find_last_of path) [ none ↦ path | some i ↦ drop (i + 1) path ]
