-- ===== src/Keeper/MintHal.antt =====
-- The handler of MsgMintHal: x/hal/keeper/msg_server_mint_hal.go.
pub mod Effects
pub mod Payment
use halborn.Prelude.{Bytes, not, ◌&&◌, bytes_eq}
use halborn.Prelude.Int.{ℤ, pos, is_zero}
use halborn.Types.Params.{Params}
use halborn.Types.Messages.{MsgMintHal, MsgMintHalResponse}
use halborn.Types.Keys.{collateral_pool_name}
use halborn.Sdk.Env.{Sdk}
use halborn.Keeper.Exec.{
  Exec, pure, ◌>>=◌, ◌>>◌, or_err, or_panic, err_if, invalid_address, invalid_request,
  insufficient_funds,
}
use halborn.Keeper.State.{State, bank_call, bank_call_unchecked}
use halborn.Keeper.Params.{get_params}

module _ (x : Sdk) where
  -- 1 collateral for 2 HAL: `collateralAmount.Mul(exchangeRate).TruncateInt()`
  unfoldable pub mint_amount : ℤ → Exec (State x) ℤ
  mint_amount collateral = do
    let exchange_rate = x.math.new_dec (pos 2)
    product ← or_panic (x.math.mul (x.math.new_dec_from_int collateral) exchange_rate)
    or_panic (x.math.truncate_int product)

  -- From the exchange rate on. The last call takes the collateral, and its error is dropped.
  unfoldable pub mint_with : Bytes → Params → MsgMintHal → Exec (State x) MsgMintHalResponse
  unfolding mint_amount
  mint_with acc params msg = do
    minted_amount ← mint_amount msg.collateral_amount.amount
    minted_coin ← or_panic (x.math.new_coin params.hal_meta.denom minted_amount)
    minted ← or_panic (x.math.new_coins minted_coin)
    bank_call x insufficient_funds (λ b. x.bank.mint_coins b collateral_pool_name minted)
    bank_call x insufficient_funds
        (λ b. x.bank.send_coins_from_module_to_account b collateral_pool_name acc minted)
    collateral ← or_panic (x.math.new_coins msg.collateral_amount)
    bank_call_unchecked x
        (λ b. x.bank.send_coins_from_account_to_module b acc collateral_pool_name collateral)
    pure (record { minted_amount = minted_coin })

  unfoldable pub mint_hal : MsgMintHal → Exec (State x) MsgMintHalResponse
  unfolding mint_with
  mint_hal msg = do
    acc ← or_err invalid_address (x.acc_address_from_bech32 msg.creator)
    err_if (not (x.math.is_valid msg.collateral_amount) && is_zero msg.collateral_amount.amount)
        invalid_request
    params ← get_params x
    err_if (not (bytes_eq msg.collateral_amount.denom params.collateral_metas.denom))
        invalid_request
    mint_with acc params msg
