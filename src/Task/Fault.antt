-- ===== src/Task/Fault.antt =====
-- Runs that can go wrong: a failed `assert` (the build is a debug build, braid/CMakeLists.txt), a
-- null pointer followed, or an object used after its `delete`.
use first_server.Common.{◌≡◌, refl, ◌⊎◌, inl, inr, Bool, true, false}

pub data Fault : Type 0 where
  assertion null_pointer freed out_of_depth : Fault

pub data Result {ℓ} (A : Type ℓ) : Type ℓ where
  ok : A → Result A
  fault : Fault → Result A

infixl 5 ◌>>=◌
abbrev pub ◌>>=◌ {ℓ κ} : {A : Type ℓ} {B : Type κ} → Result A → (A → Result B) → Result B
ok a >>= f = f a
fault e >>= f = fault e

abbrev pub assert : Bool → Result (Unit {0})
assert true = ok tt
assert false = fault assertion

pub Result-cases {ℓ} :
    {A : Type ℓ} (r : Result A) → ((e : Fault) × (r ≡ fault e)) ⊎ ((a : A) × (r ≡ ok a))
Result-cases (ok a) = inr (a, refl)
Result-cases (fault e) = inl (e, refl)

-- A sequence that comes through has come through its first part.
pub then_ok {ℓ κ} :
    {A : Type ℓ} {B : Type κ} (r : Result A) (f : A → Result B) {b : B}
    → (elim r [ ok a ↦ f a | fault e ↦ fault e ]) ≡ ok b
    → (a : A) × (r ≡ ok a) × (f a ≡ ok b)
then_ok (ok a) f e = (a, refl, e)
then_ok (fault x) f e = absurd (cc)
