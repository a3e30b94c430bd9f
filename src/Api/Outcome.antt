-- ===== src/Api/Outcome.antt =====
-- The outcome of a method of a generated message.
use halborn.Prelude.{Option, none, some}

-- Why a method panics: the two default cases of the switches over field names, a field that is no
-- message, a receiver that is nil, and a value of another kind than the field's.
pub data Panic : Type 0 where
  no_extensions no_such_field not_mutable no_such_oneof nil_pointer wrong_kind : Panic

pub data Outcome {ℓ} (A : Type ℓ) : Type ℓ where
  returns : A → Outcome A
  panics : Panic → Outcome A

infixl 5 ◌>>=◌
abbrev pub ◌>>=◌ {ℓ κ} : {A : Type ℓ} {B : Type κ} → Outcome A → (A → Outcome B) → Outcome B
returns a >>= f = f a
panics e >>= f = panics e

abbrev pub or_panic {ℓ} : {A : Type ℓ} → Panic → Option A → Outcome A
or_panic e none = panics e
or_panic e (some a) = returns a

-- A field of the receiver is read or written.
abbrev pub deref {ℓ} : {M : Type ℓ} → Option M → Outcome M
deref = or_panic nil_pointer
