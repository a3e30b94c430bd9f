-- ===== src/Keeper/State.antt =====
-- The state that the keeper's methods work on, and what a call is given with it.
use halborn.Prelude.{Bytes, List}
use halborn.Prelude.Int.{ℤ}
use halborn.Sdk.Bank.{Reply, done, failed, panicked}
use halborn.Sdk.Env.{Sdk}
use halborn.Keeper.Exec.{Error, ok, err, panic, Exec}

-- `sdk.Context`, with what a method takes from its machine: `now` is `time.Now()`, and `visit` the
-- order in which `range` goes through a map.
pub record Context : Type 0 where
  pub block_time : ℤ
  pub chain_id : Bytes
  pub now : ℤ
  pub visit : List (Bytes × Bytes) → List (Bytes × Bytes)

module _ (x : Sdk) where
  -- The module's own store, and the bank's state.
  pub record State : Type 0 where
    pub kv : x.kv.Store
    pub bank : x.bank.State

  -- A call of the bank whose error is returned as `e`.
  abbrev pub bank_call : Error → (x.bank.State → Reply x.bank.State) → Exec State (Unit {0})
  bank_call e f s = elim (f s.bank) [
    | done b ↦ (ok tt, record s { bank = b })
    | failed ↦ (err e, s)
    | panicked ↦ (panic, s)
  ]

  -- A call of the bank whose error is dropped.
  abbrev pub bank_call_unchecked : (x.bank.State → Reply x.bank.State) → Exec State (Unit {0})
  bank_call_unchecked f s = elim (f s.bank) [
    | done b ↦ (ok tt, record s { bank = b })
    | failed ↦ (ok tt, s)
    | panicked ↦ (panic, s)
  ]
