-- ===== src/Keeper/Exec.antt =====
-- Calls that read and write the state of the chain, and that may return an error or panic.
use halborn.Prelude.{Bool, true, false, Option, none, some}

-- The registered errors that the module returns; `codec_failed` is an error of the codec.
pub data Error : Type 0 where
  invalid_address insufficient_funds invalid_request unauthorized invalid_signer : Error
  invalid_argument invalid_params codec_failed : Error

pub data Outcome {ℓ} (A : Type ℓ) : Type ℓ where
  ok : A → Outcome A
  err : Error → Outcome A
  panic : Outcome A

-- What was written before an error stays written: it is the caller that drops it.
abbrev pub Exec {ℓ} : Type ℓ → Type ℓ → Type ℓ
Exec S A = S → Outcome A × S

module _ {ℓ} {S A : Type ℓ} where
  abbrev pub pure : A → Exec S A
  pure a s = (ok a, s)

  abbrev pub gets : (S → A) → Exec S A
  gets f s = (ok (f s), s)

  abbrev pub or_err : Error → Option A → Exec S A
  or_err e none s = (err e, s)
  or_err e (some a) s = (ok a, s)

  abbrev pub or_panic : Option A → Exec S A
  or_panic none s = (panic, s)
  or_panic (some a) s = (ok a, s)

module _ {ℓ} {S A B : Type ℓ} where
  abbrev pub continue : Outcome A × S → (A → Exec S B) → Outcome B × S
  continue (ok a, s) f = f a s
  continue (err e, s) f = (err e, s)
  continue (panic, s) f = (panic, s)

  infixl 10 ◌>>=◌ ◌>>◌
  abbrev pub ◌>>=◌ : Exec S A → (A → Exec S B) → Exec S B
  ◌>>=◌ m f s = continue (m s) f

  abbrev pub ◌>>◌ : Exec S A → Exec S B → Exec S B
  m >> n = m >>= λ _. n

-- `if test { return e }`
abbrev pub err_if : {S : Type 0} → Bool → Error → Exec S (Unit {0})
err_if true e s = (err e, s)
err_if false e s = (ok tt, s)

abbrev pub panic_if : {S : Type 0} → Bool → Exec S (Unit {0})
panic_if true s = (panic, s)
panic_if false s = (ok tt, s)

abbrev pub modify : {S : Type 0} → (S → S) → Exec S (Unit {0})
modify f s = (ok tt, f s)
