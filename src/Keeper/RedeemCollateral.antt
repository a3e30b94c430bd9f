-- ===== src/Keeper/RedeemCollateral.antt =====
-- The handler of MsgRedeemCollateral: x/hal/keeper/msg_server_redeem_collateral.go.
pub mod Effects
pub mod Nothing
pub mod Payment
use halborn.Prelude.{Bytes, not}
use halborn.Prelude.Int.{ℤ, pos, ◌+ℤ◌}
use halborn.Types.Params.{Params}
use halborn.Types.Messages.{MsgRedeemCollateral, MsgRedeemCollateralResponse}
use halborn.Types.Keys.{collateral_pool_name, redeem_pool_name}
use halborn.Sdk.Env.{Sdk}
use halborn.Keeper.Exec.{
  Exec, pure, ◌>>=◌, ◌>>◌, or_err, or_panic, err_if, invalid_address, invalid_request,
  insufficient_funds, unauthorized,
}
use halborn.Keeper.State.{State, Context, bank_call, bank_call_unchecked}
use halborn.Keeper.Params.{get_params}
use halborn.Keeper.Requests.{set_redeem_request}

module _ (x : Sdk) where
  -- 2 HAL for 1 collateral: `halAmount.Quo(exchangeRate).TruncateInt()`
  unfoldable pub redeem_amount : ℤ → Exec (State x) ℤ
  redeem_amount hal = do
    let exchange_rate = x.math.new_dec (pos 2)
    quotient ← or_panic (x.math.quo (x.math.new_dec_from_int hal) exchange_rate)
    or_panic (x.math.truncate_int quotient)

  -- From the making of the HAL coin on. The call that takes the HAL has its error dropped.
  unfoldable pub redeem_with :
      Context → Bytes → Params → MsgRedeemCollateral → Exec (State x) MsgRedeemCollateralResponse
  unfolding redeem_amount
  redeem_with ctx acc params msg = do
    hal_coin ← or_panic (x.math.new_coin params.hal_meta.denom msg.hal_amount.amount)
    hal ← or_panic (x.math.new_coins hal_coin)
    bank_call_unchecked x
        (λ b. x.bank.send_coins_from_account_to_module b acc collateral_pool_name hal)
    bank_call x unauthorized (λ b. x.bank.burn_coins b collateral_pool_name hal)
    redeemed ← redeem_amount msg.hal_amount.amount
    redeemed_coin ← or_panic (x.math.new_coin params.collateral_metas.denom redeemed)
    coins ← or_panic (x.math.new_coins redeemed_coin)
    bank_call x insufficient_funds
        (λ b. x.bank.send_coins_from_module_to_module b collateral_pool_name redeem_pool_name coins)
    current ← get_params x
    let completion_time = ctx.now +ℤ current.redeem_dur
    set_redeem_request x (record {
      account = x.acc_address_string acc;
      collateral = redeemed_coin;
      completiontime = completion_time;
    })
    pure (record { burned_amount = hal_coin; completion_time = completion_time })

  unfoldable pub redeem_collateral :
      Context → MsgRedeemCollateral → Exec (State x) MsgRedeemCollateralResponse
  unfolding redeem_with
  redeem_collateral ctx msg = do
    acc ← or_err invalid_address (x.acc_address_from_bech32 msg.creator)
    err_if (not (x.math.is_valid msg.hal_amount)) invalid_request
    params ← get_params x
    redeem_with ctx acc params msg
