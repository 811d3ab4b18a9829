-- ===== src/Log/Calls/Laws.antt =====
-- Which calls of the log macros become lines.
use first_server.Common.{ℕ, List, [], ◌∷◌, Bool, if◌then◌else◌, ltb, ℤ}
use first_server.Log.{LogLevel, level_number, Entry}
use first_server.Log.Calls.{LogCall, entry_of}

module _ (print : ℕ → ℤ → List ℕ) (to_string : ℕ → List ℕ) where
  -- The calls whose level is not below `min_level`, in order.
  abbrev pub accepted : LogLevel → List (LogCall × Bool) → List (Entry × Bool)
  accepted min_level [] = []
  accepted min_level ((call, written) ∷ more) =
      if ltb (level_number call.level) (level_number min_level)
      then accepted min_level more
      else (entry_of print to_string call, written) ∷ accepted min_level more
