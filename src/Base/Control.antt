-- ===== src/Base/Control.antt =====
-- C++ control flow as values: a result, an exception in flight, or undefined behaviour.

-- The exceptions that json.hpp and the containers throw, by class. All derive from
-- `std::exception`; `invalid_argument`, `domain_error` and `out_of_range` are unrelated classes.
pub data Exception : Type 0 where
  invalid_argument domain_error out_of_range : Exception

-- `fault` stands for undefined behaviour: a null or dangling pointer is dereferenced. No handler
-- sees it.
pub data Result {ℓ} (A : Type ℓ) : Type ℓ where
  ok : A → Result A
  throw : Exception → Result A
  fault : Result A

infixl 5 ◌>>=◌ ◌>>◌
abbrev pub ◌>>=◌ {ℓ κ} : {A : Type ℓ} {B : Type κ} → Result A → (A → Result B) → Result B
ok a >>= f = f a
throw e >>= f = throw e
fault >>= f = fault

abbrev pub ◌>>◌ {ℓ} : {B : Type ℓ} → Result (Unit {0}) → Result B → Result B
m >> k = m >>= λ _. k
