-- ===== src/Keeper/RedeemCollateral/Nothing.antt =====
-- RedeemCollateral of no HAL at all, and the end of the block in which it is due.
use halborn.Prelude.{
  ◌^◌, ◌<◌, ◌≡◌, refl, arith, Bytes, true, false, [], some, bytes_eq_refl, length,
}
use halborn.Prelude.Int.{pos, ltb_ℤ, ◌+ℤ◌}
use halborn.Types.Params.{Params}
use halborn.Types.Records.{RedeemRequest}
use halborn.Types.Messages.{MsgRedeemCollateral, MsgRedeemCollateralResponse}
use halborn.Types.Keys.{collateral_pool_name, redeem_pool_name}
use halborn.Wire.RedeemRequest as Codec
use halborn.Wire.RedeemRequest.RoundTrip as Laws
use halborn.Sdk.Coins.{coin}
use halborn.Sdk.Env.{Sdk, IsSdk}
use halborn.Keeper.Exec.{ok, panic}
use halborn.Keeper.State.{State, Context, bank_call, bank_call_unchecked}
use halborn.Keeper.Params.{get_params}
use halborn.Keeper.Params.RoundTrip.{get_params-bank}
use halborn.Keeper.Requests.{set_redeem_request, request_key}
use halborn.Keeper.RedeemCollateral.{redeem_with, redeem_collateral}
use halborn.Keeper.MintHal.Effects.{new_coin-valid}
use halborn.Keeper.Requests.Halt.{end_redeeming-nothing}
use halborn.Keeper.Blocks.{end_blocker}
use halborn.Keeper.RedeemCollateral.Effects.{redeem_amount-half}

module _ (x : Sdk) where
  -- What a message must be like to reach the bank.
  pub record Nothing (s : State x) (msg : MsgRedeemCollateral) (acc : Bytes) (params : Params)
      : Type 0 where
    pub creator : x.acc_address_from_bech32 msg.creator ≡ some acc
    pub stored : get_params x s ≡ (ok params, s)
    pub amount : msg.hal_amount.amount ≡ pos 0
    pub denom_valid : x.math.valid_denom msg.hal_amount.denom ≡ true
    pub collateral_valid : x.math.valid_denom params.collateral_metas.denom ≡ true
    pub hal_valid : x.math.valid_denom params.hal_meta.denom ≡ true

module _ (x : Sdk) (laws : IsSdk x) {pool redeem_pool : Bytes}
    (pool_address : x.bank.get_module_address collateral_pool_name ≡ some pool)
    (redeem_pool_address : x.bank.get_module_address redeem_pool_name ≡ some redeem_pool)
    (may_burn : x.bank.burner collateral_pool_name ≡ true) where
  new_coins-nothing : (d : Bytes) → x.math.new_coins (coin d 0) ≡ some []
  new_coins-nothing d = rw (laws.math_laws.new_coins_lem (coin d 0))

  -- A creator who has nothing redeems nothing: the call succeeds, and stores a request of no coins.
  pub redeem_collateral-Nothing :
      (ctx : Context) (s : State x) (msg : MsgRedeemCollateral) (acc : Bytes) (params : Params)
      (bz : Bytes)
      → Nothing x s msg acc params
      → let time = ctx.now +ℤ params.redeem_dur in
        Codec.marshal x.gogo (record {
          account = x.acc_address_string acc;
          collateral = coin params.collateral_metas.denom 0;
          completiontime = time;
        })
          ≡ some bz
        → (b : x.bank.State) × (redeem_collateral x ctx msg s ≡ (
          ok (record { burned_amount = coin params.hal_meta.denom 0; completion_time = time }),
          record { kv = x.kv.set s.kv (request_key (x.acc_address_string acc)) bz; bank = b },
        ))
  unfolding redeem_collateral redeem_with set_redeem_request
  redeem_collateral-Nothing ctx s msg acc params bz h marshalled =
      let d = params.collateral_metas.denom in
      let (b1, sent, mv) =
        (laws.bank_laws.from_account s.bank acc collateral_pool_name [] pool_address).goes_through
          tt (λ e. omega arith) in
      let (b2, burned, add) =
        laws.bank_laws.burned b1 collateral_pool_name [] pool_address may_burn tt (λ e. omega arith)
          (λ e. omega arith) in
      let (b3, paid, mv') =
        (laws.bank_laws.between_modules b2 collateral_pool_name redeem_pool_name [] pool_address
            redeem_pool_address).goes_through
          tt (λ e. omega arith) in
      (
        b3,
        rw (
          h.creator,
          laws.math_laws.is_valid_lem msg.hal_amount,
          h.denom_valid,
          h.amount,
          h.stored,
          new_coin-valid x laws params.hal_meta.denom 0 h.hal_valid,
          new_coins-nothing params.hal_meta.denom,
          bank_call_unchecked,
          sent,
          bank_call,
          burned,
          redeem_amount-half x laws pool_address redeem_pool_address may_burn 0
              (record s { bank = b2 }) (omega arith),
          new_coin-valid x laws d 0 h.collateral_valid,
          new_coins-nothing d,
          paid,
          get_params-bank x s params b3 h.stored,
          marshalled,
        ),
      )

  -- RedeemCollateral, with parameters that can be read and whose denominations of HAL and of the
  -- collateral are valid, on a chain where both pools have accounts and the collateral pool may
  -- burn, for a message of the amount 0 of a valid denomination from a good creator who may
  -- receive, where the completion time can be marshalled and the request is short: the call
  -- succeeds, and then EndBlocker panics at each block time after the completion time, whatever
  -- the bank's state, as long as the module's store is as this call left it.
  pub end_blocker-redeem_collateral :
      (ctx later : Context) (s : State x) (msg : MsgRedeemCollateral) (acc : Bytes)
      (params : Params) (time : Bytes)
      → Nothing x s msg acc params
      → x.bank.blocked acc ≡ false
      → ltb_ℤ (ctx.now +ℤ params.redeem_dur) later.block_time ≡ true
      → x.gogo.time_marshal (ctx.now +ℤ params.redeem_dur) ≡ some time
      → let request : RedeemRequest = record {
        account = x.acc_address_string acc;
        collateral = coin params.collateral_metas.denom 0;
        completiontime = ctx.now +ℤ params.redeem_dur;
      } in
        Laws.Fits x.gogo request time
        → length (Laws.encoding x.gogo request time) < 2 ^ 63
        → (r : MsgRedeemCollateralResponse) × (s' : State x) × (redeem_collateral x ctx msg s
            ≡ (ok r, s'))
          × ((b : x.bank.State)
              → (s2 : State x) × (end_blocker x later (record s' { bank = b }) ≡ (panic, s2)))
  unfolding end_blocker
  end_blocker-redeem_collateral ctx later s msg acc params time h free due timed fits short =
      let request : RedeemRequest = record {
        account = x.acc_address_string acc;
        collateral = coin params.collateral_metas.denom 0;
        completiontime = ctx.now +ℤ params.redeem_dur;
      } in
      let (bz, written, read) =
        Laws.unmarshal-marshal_request x.gogo request time timed laws.codec fits short in
      let (b, e) = redeem_collateral-Nothing ctx s msg acc params bz h written in
      let key = request_key (x.acc_address_string acc) in
      let found = rw (bytes_eq_refl key) at (laws.kv_laws.get-set s.kv key key bz) in
      (
        _,
        _,
        e,
        λ c.
            end_redeeming-nothing x laws redeem_pool_address later _ key bz request acc
              params.collateral_metas.denom found read due
              (laws.address-round msg.creator acc h.creator) free refl h.collateral_valid,
      )
