-- ===== src/Wire/Result.antt =====
-- The outcome of unmarshalling.
use halborn.Prelude.{Bool, true, false}

-- The errors of an `Unmarshal` and of a `skip`; `nested` is one that came from the codec of a field.
pub data WireError : Type 0 where
  int_overflow unexpected_eof invalid_length unexpected_end_of_group : WireError
  end_group illegal_tag wrong_wire_type illegal_wire_type nested : WireError

-- `stuck` is no outcome of the code: a loop of the model ran out of fuel.
pub data Result {ℓ} (A : Type ℓ) : Type ℓ where
  ok : A → Result A
  err : WireError → Result A
  stuck : Result A

infixl 5 ◌>>=◌ ◌>>◌
abbrev pub ◌>>=◌ {ℓ κ} : {A : Type ℓ} {B : Type κ} → Result A → (A → Result B) → Result B
ok a >>= f = f a
err e >>= f = err e
stuck >>= f = stuck

abbrev pub ◌>>◌ {ℓ} : {B : Type ℓ} → Result (Unit {0}) → Result B → Result B
m >> k = m >>= λ _. k

-- `if test { return e }`
abbrev pub fail_if : Bool → WireError → Result (Unit {0})
fail_if true e = err e
fail_if false e = ok tt
