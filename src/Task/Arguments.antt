-- ===== src/Task/Arguments.antt =====
-- The constructors and the destructor of `Task` in braid/src/task/include/braid/task/Task.h, with
-- `for_each_tuple` of braid/src/util/include/braid/util/Utility.h: what they do with the reference
-- counts of a task's arguments. An object is known by a number.
use first_server.Common.{
  ℕ, ◌≡◌, List, [], ◌∷◌, Option, none, some, Bool, true, false, if◌then◌else◌, ℤ, pos, ◌==◌,
}
use first_server.Task.Fault.{Result, ok, fault, ◌>>=◌}
use first_server.Task.RefCount.{add_ref, release}

-- An element of the tuple `args_`: the function, a pointer, which may be null, a counted object
-- that stands in the tuple itself, or anything else.
pub data Element : Type 0 where
  function_value : Element
  pointer_to : Option ℕ → Element
  object_value : ℕ → Element
  other_value : Element

-- `std::is_base_of_v<RefCountable, std::decay_t<decltype(arg)>>`: a pointer decays to a pointer,
-- which is no class.
unfoldable pub is_ref_countable : Element → Bool
is_ref_countable function_value = false
is_ref_countable (pointer_to object) = false
is_ref_countable (object_value object) = true
is_ref_countable other_value = false

abbrev pub Counts : Type 0
Counts = ℕ → ℤ

abbrev pub put_count : ℕ → ℤ → Counts → Counts
put_count n count counts k = if k == n then count else counts k

unfoldable pub for_each_tuple :
    (Element → Counts → Result Counts) → List Element → Counts → Result Counts
for_each_tuple func [] counts = ok counts
for_each_tuple func (arg ∷ args) counts = do
  counts' ← func arg counts
  for_each_tuple func args counts'

-- `arg->add_ref()` of an element that the test lets through
unfoldable pub add_ref_to : Element → Counts → Result Counts
add_ref_to (object_value n) counts =
    if is_ref_countable (object_value n)
    then ok (put_count n (add_ref (counts n)) counts)
    else ok counts
add_ref_to (pointer_to none) counts = ok counts
add_ref_to (pointer_to (some n)) counts =
    if is_ref_countable (pointer_to (some n))
    then ok (put_count n (add_ref (counts n)) counts)
    else ok counts
add_ref_to function_value counts = ok counts
add_ref_to other_value counts = ok counts

-- `arg->release()`, likewise
unfoldable pub release_to : Element → Counts → Result Counts
release_to (object_value n) counts = elim (release (counts n)) [
  | fault e ↦ fault e
  | ok (count, final) ↦ ok (put_count n count counts)
]
release_to (pointer_to none) counts = ok counts
release_to (pointer_to (some n)) counts =
    if is_ref_countable (pointer_to (some n))
    then (elim (release (counts n)) [
      | fault e ↦ fault e
      | ok (count, final) ↦ ok (put_count n count counts)
    ])
    else ok counts
release_to function_value counts = ok counts
release_to other_value counts = ok counts

-- `Task(obj, func, args...)` and `~Task()`, on the counts
unfoldable pub new_task : ℕ → List Element → Counts → Result Counts
new_task obj args counts =
    for_each_tuple add_ref_to (function_value ∷ pointer_to (some obj) ∷ args) counts

unfoldable pub delete_task : ℕ → List Element → Counts → Result Counts
delete_task obj args counts =
    for_each_tuple release_to (function_value ∷ pointer_to (some obj) ∷ args) counts

-- A counted object cannot be copied into the tuple, since its counter is atomic.
abbrev pub IsCopyable : List Element → Type 0
IsCopyable [] = Unit
IsCopyable (object_value n ∷ args) = ⊥
IsCopyable (function_value ∷ args) = IsCopyable args
IsCopyable (pointer_to object ∷ args) = IsCopyable args
IsCopyable (other_value ∷ args) = IsCopyable args

-- What a task leaves its object with.
pub record Dangles (obj : ℕ) (args : List Element) (counts : Counts) : Type 0 where
  pub made : new_task obj args counts ≡ ok counts
  pub deleted : delete_task obj args counts ≡ ok counts
  pub last : release (counts obj) ≡ ok (pos 0, true)
