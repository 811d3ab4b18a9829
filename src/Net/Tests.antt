-- ===== src/Net/Tests.antt =====
-- The receive buffer on concrete bytes.
use first_server.Common.{ℕ, List, [], ◌∷◌, arith, pos}
use first_server.Net.Object.{IoUringObject, new_object, commit}
use first_server.Net.Object.Laws.{Holds, new_object-Holds, commit-Holds, written}

abbrev some_bytes : List ℕ
some_bytes = 1 ∷ 2 ∷ 3 ∷ 4 ∷ []

abbrev filled : IoUringObject
filled = commit (pos 4) (written new_object 0 some_bytes)

filled-Holds : Holds 4 filled
filled-Holds = commit-Holds new_object-Holds some_bytes (omega arith)
