-- ===== src/Task/RefCount.antt =====
-- braid/src/task/include/braid/task/RefCountable.h: the counter of an object, an `int`.
use first_server.Common.{ℤ, pos, ◌+ℤ◌, ◌-ℤ◌, ltb_ℤ, eqb_ℤ, Bool}
use first_server.Task.Fault.{Result, ok, ◌>>=◌, assert}

unfoldable pub add_ref : ℤ → ℤ
add_ref ref_count = ref_count +ℤ pos 1

-- `intrusive_ptr_release`: the counter afterwards, and whether `on_final_release` is called
unfoldable pub release : ℤ → Result (ℤ × Bool)
release ref_count = do
  _ ← assert (ltb_ℤ (pos 0) ref_count)
  ok (ref_count -ℤ pos 1, eqb_ℤ ref_count (pos 1))
