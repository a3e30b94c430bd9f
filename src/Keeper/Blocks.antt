-- ===== src/Keeper/Blocks.antt =====
-- What runs at the start and at the end of a block: x/hal/keeper/abci.go, and InvariantCheck of
-- x/hal/keeper/keeper.go.
pub mod Halt
pub mod Supply
use halborn.Prelude.{Bytes, [], Option, none, some, Bool, true, false}
use halborn.Prelude.Int.{ℤ, pos, ◌+ℤ◌, ◌-ℤ◌, is_negative}
use halborn.Types.Params.{Params}
use halborn.Types.Coin.{Coin}
use halborn.Types.Keys.{collateral_pool_name, redeem_pool_name}
use halborn.Sdk.Env.{Sdk}
use halborn.Keeper.Exec.{Exec, pure, ◌>>=◌, gets, or_panic, panic_if}
use halborn.Keeper.State.{State, Context}
use halborn.Keeper.Params.{get_params}
use halborn.Keeper.Requests.{end_redeeming}

-- A module account that does not exist has the nil address.
abbrev pub address_or_nil : Option Bytes → Bytes
address_or_nil none = []
address_or_nil (some a) = a

module _ (x : Sdk) where
  -- The collateral of the pool with a name.
  abbrev pub balance_of : Bytes → Bytes → Exec (State x) (Option Coin)
  balance_of name denom =
      gets (λ s. x.bank.get_balance s.bank (address_or_nil (x.bank.get_module_address name)) denom)

  -- The collateral in both pools.
  abbrev pub pool_balance : Bytes → Exec (State x) ℤ
  pool_balance denom = do
    first ← balance_of collateral_pool_name denom
    collateral_pool_balance ← or_panic first
    second ← balance_of redeem_pool_name denom
    redeem_pool_balance ← or_panic second
    pure (collateral_pool_balance.amount +ℤ redeem_pool_balance.amount)

  abbrev pub check_supply : Params → Bool → Exec (State x) (Unit {0})
  check_supply params false = pure tt
  check_supply params true = do
    pool ← pool_balance params.collateral_metas.denom
    product ← or_panic (x.math.mul (x.math.new_dec_from_int pool) (x.math.new_dec (pos 2)))
    mintable ← or_panic (x.math.truncate_int product)
    supply ← gets (λ s. x.bank.get_supply s.bank params.hal_meta.denom)
    hal_supply ← or_panic supply
    panic_if (is_negative (hal_supply.amount -ℤ mintable))

  unfoldable pub invariant_check : Exec (State x) (Unit {0})
  invariant_check = do
    params ← get_params x
    has ← gets (λ s. x.bank.has_supply s.bank params.hal_meta.denom)
    check_supply params has

  unfoldable pub begin_blocker : Exec (State x) (Unit {0})
  unfolding invariant_check
  begin_blocker = invariant_check

  unfoldable pub end_blocker : Context → Exec (State x) (Unit {0})
  unfolding end_redeeming
  end_blocker ctx = end_redeeming x ctx
