-- ===== src/Keeper/Chain/Handlers.antt =====
-- What the handlers of the other messages do leaves the tickets as they are.
use halborn.Prelude.{Bytes, bytes_eq, not, ◌&&◌}
use halborn.Prelude.Int.{ℤ, pos, ◌+ℤ◌, is_zero}
use halborn.Types.Params.{Params}
use halborn.Types.Records.{RedeemRequest}
use halborn.Types.Keys.{params_key, collateral_pool_name, redeem_pool_name}
use halborn.Types.Messages.{MsgMintHal, MsgRedeemCollateral, MsgUpdateParams}
use halborn.Wire.RedeemRequest as RequestCodec
use halborn.Wire.Params as ParamsCodec
use halborn.Sdk.Env.{Sdk, IsSdk}
use halborn.Keeper.Exec.{
  insufficient_funds, invalid_address, invalid_request, unauthorized, invalid_signer, codec_failed,
}
use halborn.Keeper.State.{State, Context}
use halborn.Keeper.Holds.{on_return, Holds-continue, Holds-or_err, Holds-or_panic, Holds-err_if}
use halborn.Keeper.Params.{set_params}
use halborn.Keeper.Requests.{request_key, set_redeem_request}
use halborn.Keeper.MintHal.{mint_amount, mint_with, mint_hal}
use halborn.Keeper.RedeemCollateral.{redeem_amount, redeem_with, redeem_collateral}
use halborn.Keeper.UpdateParams.{update_params}
use halborn.Keeper.Chain.Frame.{
  Frame, Frame-trans, Kept, get_params-Kept, bank-Kept, unchecked-Kept, Frame-set_request,
  Frame-set_params,
}

module _ (x : Sdk) (laws : IsSdk x) (kv : x.kv.Store) where
  mint_amount-Kept : (s : State x) (n : ℤ) → Frame x kv s.kv → Kept x kv (mint_amount x n s)
  unfolding mint_amount
  mint_amount-Kept s n h =
      Holds-continue
        (Holds-or_panic s h (x.math.mul (x.math.new_dec_from_int n) (x.math.new_dec (pos 2))))
        λ product s1 h1. Holds-or_panic s1 h1 (x.math.truncate_int product)

  mint_with-Kept :
      (s : State x) (acc : Bytes) (params : Params) (msg : MsgMintHal)
      → Frame x kv s.kv
      → Kept x kv (mint_with x acc params msg s)
  unfolding mint_with
  mint_with-Kept s acc params msg h =
      Holds-continue (mint_amount-Kept s msg.collateral_amount.amount h) λ amount s1 h1.
        Holds-continue (Holds-or_panic s1 h1 (x.math.new_coin params.hal_meta.denom amount))
          λ minted_coin s2 h2.
            Holds-continue (Holds-or_panic s2 h2 (x.math.new_coins minted_coin)) λ minted s3 h3.
              Holds-continue
                (bank-Kept x laws kv s3 insufficient_funds
                  (λ b. x.bank.mint_coins b collateral_pool_name minted) h3)
                λ u s4 h4.
                  Holds-continue
                    (bank-Kept x laws kv s4 insufficient_funds
                      (λ b.
                        x.bank.send_coins_from_module_to_account b collateral_pool_name acc minted)
                      h4)
                    λ v s5 h5.
                      Holds-continue (Holds-or_panic s5 h5 (x.math.new_coins msg.collateral_amount))
                        λ collateral s6 h6.
                          Holds-continue
                            (unchecked-Kept x laws kv s6
                              (λ b.
                                x.bank.send_coins_from_account_to_module b acc collateral_pool_name
                                  collateral)
                              h6)
                            λ w s7 h7. on_return (record { minted_amount = minted_coin }) s7 h7

  pub mint_hal-Kept :
      (s : State x) (msg : MsgMintHal) → Frame x kv s.kv → Kept x kv (mint_hal x msg s)
  unfolding mint_hal
  mint_hal-Kept s msg h =
      Holds-continue (Holds-or_err s h invalid_address (x.acc_address_from_bech32 msg.creator))
        λ acc s1 h1.
          Holds-continue
            (Holds-err_if s1 h1
              (not (x.math.is_valid msg.collateral_amount) && is_zero msg.collateral_amount.amount)
              invalid_request)
            λ u s2 h2. Holds-continue (get_params-Kept x laws kv s2 h2) λ params s3 h3.
              Holds-continue
                (Holds-err_if s3 h3
                  (not (bytes_eq msg.collateral_amount.denom params.collateral_metas.denom))
                  invalid_request)
                λ v s4 h4. mint_with-Kept s4 acc params msg h4

  set_request-Kept :
      (s : State x) (r : RedeemRequest) → Frame x kv s.kv → Kept x kv (set_redeem_request x r s)
  unfolding set_redeem_request
  set_request-Kept s r h =
      Holds-continue (Holds-or_panic s h (RequestCodec.marshal x.gogo r)) λ bz s1 h1.
        on_return tt (record s1 { kv = x.kv.set s1.kv (request_key r.account) bz })
          (Frame-trans x h1 (Frame-set_request x laws s1.kv r.account bz))

  redeem_amount-Kept : (s : State x) (n : ℤ) → Frame x kv s.kv → Kept x kv (redeem_amount x n s)
  unfolding redeem_amount
  redeem_amount-Kept s n h =
      Holds-continue
        (Holds-or_panic s h (x.math.quo (x.math.new_dec_from_int n) (x.math.new_dec (pos 2))))
        λ quotient s1 h1. Holds-or_panic s1 h1 (x.math.truncate_int quotient)

  redeem_with-Kept :
      (s : State x) (ctx : Context) (acc : Bytes) (params : Params) (msg : MsgRedeemCollateral)
      → Frame x kv s.kv
      → Kept x kv (redeem_with x ctx acc params msg s)
  unfolding redeem_with
  redeem_with-Kept s ctx acc params msg h =
      Holds-continue
        (Holds-or_panic s h (x.math.new_coin params.hal_meta.denom msg.hal_amount.amount))
        λ hal_coin s1 h1.
          Holds-continue (Holds-or_panic s1 h1 (x.math.new_coins hal_coin)) λ hal s2 h2.
            Holds-continue
              (unchecked-Kept x laws kv s2
                (λ b. x.bank.send_coins_from_account_to_module b acc collateral_pool_name hal) h2)
              λ u s3 h3.
                Holds-continue
                  (bank-Kept x laws kv s3 unauthorized
                    (λ b. x.bank.burn_coins b collateral_pool_name hal) h3)
                  λ v s4 h4.
                    Holds-continue (redeem_amount-Kept s4 msg.hal_amount.amount h4) λ amount s5 h5.
                      Holds-continue
                        (Holds-or_panic s5 h5
                          (x.math.new_coin params.collateral_metas.denom amount))
                        λ redeemed s6 h6.
                          Holds-continue (Holds-or_panic s6 h6 (x.math.new_coins redeemed))
                            λ coins s7 h7.
                              Holds-continue
                                (bank-Kept x laws kv s7 insufficient_funds
                                  (λ b.
                                    x.bank.send_coins_from_module_to_module b collateral_pool_name
                                      redeem_pool_name coins)
                                  h7)
                                λ w s8 h8.
                                  Holds-continue (get_params-Kept x laws kv s8 h8) λ current s9 h9.
                                    Holds-continue
                                      (set_request-Kept s9
                                        (record {
                                          account = x.acc_address_string acc;
                                          collateral = redeemed;
                                          completiontime = ctx.now +ℤ current.redeem_dur;
                                        })
                                        h9)
                                      λ z s10 h10.
                                        on_return
                                          (record {
                                            burned_amount = hal_coin;
                                            completion_time = ctx.now +ℤ current.redeem_dur;
                                          })
                                          s10 h10

  pub redeem_collateral-Kept :
      (s : State x) (ctx : Context) (msg : MsgRedeemCollateral)
      → Frame x kv s.kv
      → Kept x kv (redeem_collateral x ctx msg s)
  unfolding redeem_collateral
  redeem_collateral-Kept s ctx msg h =
      Holds-continue (Holds-or_err s h invalid_address (x.acc_address_from_bech32 msg.creator))
        λ acc s1 h1.
          Holds-continue (Holds-err_if s1 h1 (not (x.math.is_valid msg.hal_amount)) invalid_request)
            λ u s2 h2.
              Holds-continue (get_params-Kept x laws kv s2 h2)
                λ params s3 h3. redeem_with-Kept s3 ctx acc params msg h3

  pub update_params-Kept :
      (s : State x) (authority : Bytes) (msg : MsgUpdateParams)
      → Frame x kv s.kv
      → Kept x kv (update_params x authority msg s)
  unfolding update_params set_params
  update_params-Kept s authority msg h =
      Holds-continue (Holds-err_if s h (not (bytes_eq authority msg.authority)) invalid_signer)
        λ u s1 h1.
          Holds-continue (Holds-or_err s1 h1 codec_failed (ParamsCodec.marshal x.gogo msg.params))
            λ bz s2 h2.
              on_return tt (record s2 { kv = x.kv.set s2.kv params_key bz })
                (Frame-trans x h2 (Frame-set_params x laws s2.kv bz))
