-- ===== src/Log/Tests.antt =====
-- A log with two lines, of which the second cannot be written to the file.
use first_server.Common.{ℕ, ℤ, pos, none, List, [], ◌∷◌, Bool, true, false}
use first_server.Log.{LogLevel, info, error, LogHandler, initialize}
use first_server.Log.Calls.{LogCall, get_instance}

-- Numbers as one letter.
abbrev print : ℕ → ℤ → List ℕ
print width n = b'n' ∷ []

abbrev letter : ℕ → List ℕ
letter n = b'n' ∷ []

abbrev call : LogLevel → LogCall
call level = record {
  level = level;
  loc = record { file_name = b'a' ∷ b'/' ∷ b'b' ∷ []; line = 7; function_name = b'f' ∷ [] };
  now = record {
    tm_year = pos 125;
    tm_mon = pos 0;
    tm_mday = pos 1;
    tm_hour = pos 0;
    tm_min = pos 0;
    tm_sec = pos 0;
  };
  message = b'm' ∷ [];
}

abbrev log_calls_made : List (LogCall × Bool)
log_calls_made = (call info, true) ∷ (call error, true) ∷ (call error, false) ∷ []

abbrev started : LogHandler
started = initialize true (b'l' ∷ []) error (get_instance none)

abbrev path : List ℕ
path = b'a' ∷ b'/' ∷ b'b' ∷ []
