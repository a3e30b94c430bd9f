-- ===== src/Keeper/Holds.antt =====
-- What holds of a call that returns, built up along its calls.
use halborn.Prelude.{◌≡◌, Bool, true, false, Option, none, some}
use mathlib.Core.Path.{subst}
use halborn.Sdk.Bank.{Reply, done, failed, panicked}
use halborn.Sdk.Env.{Sdk}
use halborn.Keeper.Exec.{
  Error, Outcome, ok, err, panic, Exec, continue, or_err, or_panic, err_if, panic_if,
}
use halborn.Keeper.State.{State, bank_call, bank_call_unchecked}

module _ {S A : Type 0} where
  -- An error and a panic are of no account.
  pub data Holds (P : A → S → Type 0) : Outcome A × S → Type 0 where
    on_return : (a : A) (s : S) → P a s → Holds P (ok a, s)
    on_error : (e : Error) (s : S) → Holds P (err e, s)
    on_panic : (s : S) → Holds P (panic, s)

  Holds-returned : {P : A → S → Type 0} (a : A) (s : S) → Holds P (ok a, s) → P a s
  Holds-returned a s (on_return _ _ h) = h

  pub Holds-ok :
      {P : A → S → Type 0} (r : Outcome A × S) (a : A) (s : S) → Holds P r → r ≡ (ok a, s) → P a s
  Holds-ok {P} r a s h e = Holds-returned {P = P} a s (subst (λ q. Holds P q) e h)

pub Holds-continue :
    {S A B : Type 0} {P : A → S → Type 0} {Q : B → S → Type 0} {r : Outcome A × S}
    {f : A → Exec S B}
    → Holds P r
    → ((a : A) (s : S) → P a s → Holds Q (f a s))
    → Holds Q (continue r f)
Holds-continue (on_return a s h) k = k a s h
Holds-continue (on_error e s) k = on_error e s
Holds-continue (on_panic s) k = on_panic s

-- Calls that leave the state as it is.
module _ {S : Type 0} {P : S → Type 0} (s : S) (h : P s) where
  pub Holds-or_err : {A : Type 0} (e : Error) (o : Option A) → Holds (λ a. P) (or_err e o s)
  Holds-or_err e none = on_error e s
  Holds-or_err e (some a) = on_return a s h

  pub Holds-or_panic : {A : Type 0} (o : Option A) → Holds (λ a. P) (or_panic o s)
  Holds-or_panic none = on_panic s
  Holds-or_panic (some a) = on_return a s h

  pub Holds-err_if : (test : Bool) (e : Error) → Holds (λ u. P) (err_if test e s)
  Holds-err_if true e = on_error e s
  Holds-err_if false e = on_return tt s h

  pub Holds-panic_if : (test : Bool) → Holds (λ u. P) (panic_if test s)
  Holds-panic_if true = on_panic s
  Holds-panic_if false = on_return tt s h

-- Calls of the bank leave the module's store as it is.
module _ (x : Sdk) (P : x.kv.Store → Type 0) (s : State x) (h : P s.kv) (e : Error)
    (f : x.bank.State → Reply x.bank.State) where
  pub Holds-bank_call : Holds (λ u s'. P s'.kv) (bank_call x e f s)
  Holds-bank_call = by_reply (f s.bank)
    where
      by_reply :
          (r : Reply x.bank.State)
          → Holds
              (λ u (s' : State x). P s'.kv)
              (elim r as (λ _. Outcome (Unit {0}) × State x) [
                | done b ↦ (ok tt, record s { bank = b })
                | failed ↦ (err e, s)
                | panicked ↦ (panic, s)
              ])
      by_reply (done b) = on_return tt _ h
      by_reply failed = on_error e s
      by_reply panicked = on_panic s

  pub Holds-bank_call_unchecked : Holds (λ u s'. P s'.kv) (bank_call_unchecked x f s)
  Holds-bank_call_unchecked = by_reply (f s.bank)
    where
      by_reply :
          (r : Reply x.bank.State)
          → Holds
              (λ u (s' : State x). P s'.kv)
              (elim r as (λ _. Outcome (Unit {0}) × State x) [
                | done b ↦ (ok tt, record s { bank = b })
                | failed ↦ (ok tt, s)
                | panicked ↦ (panic, s)
              ])
      by_reply (done b) = on_return tt _ h
      by_reply failed = on_return tt s h
      by_reply panicked = on_panic s
