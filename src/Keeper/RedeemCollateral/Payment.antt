-- ===== src/Keeper/RedeemCollateral/Payment.antt =====
-- RedeemCollateral, for a creator who has the HAL and for one who does not.
use halborn.Prelude.{
  ℕ, suc, ◌/◌, ◌^◌, ◌<◌, ◌≤◌, ◌≡◌, ◌≢◌, arith, Bytes, true, [], ◌∷◌, some, bytes_eq_refl,
}
use halborn.Prelude.Int.{pos, ◌+ℤ◌}
use halborn.Types.Params.{Params}
use halborn.Types.Messages.{MsgRedeemCollateral}
use halborn.Types.Keys.{collateral_pool_name, redeem_pool_name}
use halborn.Wire.RedeemRequest as Codec
use halborn.Sdk.Bank.{spendable}
use halborn.Sdk.Coins.{coin}
use halborn.Sdk.Env.{Sdk, IsSdk}
use halborn.Keeper.Exec.{ok, err, unauthorized}
use halborn.Keeper.State.{State, Context, bank_call, bank_call_unchecked}
use halborn.Keeper.Params.{get_params}
use halborn.Keeper.Params.RoundTrip.{get_params-bank}
use halborn.Keeper.Requests.{set_redeem_request, request_key}
use halborn.Keeper.RedeemCollateral.{redeem_with, redeem_collateral}
use halborn.Keeper.MintHal.Effects.{new_coin-valid, new_coins-positive}
use halborn.Keeper.RedeemCollateral.Effects.{redeem_amount-half, Redeemed, three_calls}

module _ (x : Sdk) where
  -- What a message must be like to reach the bank: a good address, a valid coin of a positive amount, of any
  -- denomination, and amounts that the decimals hold.
  pub record Accepted (s : State x) (msg : MsgRedeemCollateral) (acc : Bytes) (params : Params)
      (n : ℕ) : Type 0 where
    pub creator : x.acc_address_from_bech32 msg.creator ≡ some acc
    pub stored : get_params x s ≡ (ok params, s)
    pub amount : msg.hal_amount.amount ≡ pos (suc n)
    pub denom_valid : x.math.valid_denom msg.hal_amount.denom ≡ true
    pub collateral_valid : x.math.valid_denom params.collateral_metas.denom ≡ true
    pub hal_valid : x.math.valid_denom params.hal_meta.denom ≡ true
    pub small : suc n < 2 ^ 255

module _ (x : Sdk) (laws : IsSdk x) {pool redeem_pool : Bytes}
    (pool_address : x.bank.get_module_address collateral_pool_name ≡ some pool)
    (redeem_pool_address : x.bank.get_module_address redeem_pool_name ≡ some redeem_pool)
    (may_burn : x.bank.burner collateral_pool_name ≡ true) where
  -- RedeemCollateral, with parameters that can be read and whose denominations of HAL and of the
  -- collateral are valid and differ, on a chain where both pools have accounts and the collateral
  -- pool may burn, for a message with a good creator and a valid amount that fits the decimals and
  -- whose half is positive, where the supply of HAL is at least the amount, the collateral pool
  -- holds the half and the request can be marshalled: for a creator who can spend the HAL it is
  -- burned, half as much collateral, rounded down, moves to the redeem pool, no other holding
  -- changes, and the request is stored under the creator's address, in place of what stood there,
  -- for the machine's time plus the redeem duration.
  pub redeem_collateral-paid :
      (ctx : Context) (s : State x) (msg : MsgRedeemCollateral) (acc : Bytes) (params : Params)
      (n k : ℕ) (bz : Bytes)
      → Accepted x s msg acc params n
      → suc n / 2 ≡ suc k
      → suc n ≤ spendable x.bank s.bank acc params.hal_meta.denom
      → suc n ≤ x.bank.total s.bank params.hal_meta.denom
      → params.hal_meta.denom ≢ params.collateral_metas.denom
      → suc k ≤ x.bank.held s.bank pool params.collateral_metas.denom
      → let hal = coin params.hal_meta.denom (suc n) in
        let collateral = coin params.collateral_metas.denom (suc k) in
        let time = ctx.now +ℤ params.redeem_dur in
        Codec.marshal x.gogo (record {
          account = x.acc_address_string acc;
          collateral = collateral;
          completiontime = time;
        })
          ≡ some bz
        → (b : x.bank.State) × (redeem_collateral x ctx msg s ≡ (
          ok (record { burned_amount = hal; completion_time = time }),
          record { kv = x.kv.set s.kv (request_key (x.acc_address_string acc)) bz; bank = b },
        ))
          × Redeemed x pool redeem_pool s.bank b acc (hal ∷ []) (collateral ∷ [])
  unfolding redeem_collateral redeem_with set_redeem_request
  redeem_collateral-paid ctx s msg acc params n k bz h half has le differ enough marshalled =
      let d = params.collateral_metas.denom in
      let (b1, b2, b3, sent, burned, paid, effects) =
        three_calls x laws pool_address redeem_pool_address may_burn s.bank acc
          params.hal_meta.denom d n k has le differ enough in
      (
        b3,
        rw (
          h.creator,
          laws.math_laws.is_valid_lem msg.hal_amount,
          h.denom_valid,
          h.amount,
          h.stored,
          new_coin-valid x laws params.hal_meta.denom (suc n) h.hal_valid,
          new_coins-positive x laws params.hal_meta.denom n h.hal_valid,
          bank_call_unchecked,
          sent,
          bank_call,
          burned,
          redeem_amount-half x laws pool_address redeem_pool_address may_burn (suc n)
              (record s { bank = b2 }) h.small,
          half,
          new_coin-valid x laws d (suc k) h.collateral_valid,
          new_coins-positive x laws d k h.collateral_valid,
          paid,
          get_params-bank x s params b3 h.stored,
          marshalled,
        ),
        effects,
      )

  -- RedeemCollateral, with parameters that can be read and whose denominations of HAL and of the
  -- collateral are valid, on a chain where both pools have accounts and the collateral pool may
  -- burn, for a message with a good creator and a positive, valid amount that fits the decimals: a
  -- creator who cannot spend the HAL gets an error and the state is as it was, where the
  -- collateral pool can spend less HAL than was asked for.
  pub redeem_collateral-unpaid :
      (ctx : Context) (s : State x) (msg : MsgRedeemCollateral) (acc : Bytes) (params : Params)
      (n : ℕ)
      → Accepted x s msg acc params n
      → spendable x.bank s.bank acc params.hal_meta.denom < suc n
      → spendable x.bank s.bank pool params.hal_meta.denom < suc n
      → redeem_collateral x ctx msg s ≡ (err unauthorized, s)
  unfolding redeem_collateral redeem_with
  redeem_collateral-unpaid ctx s msg acc params n h short pool_short =
      let hal = params.hal_meta.denom in
      let refused =
        (laws.bank_laws.from_account s.bank acc collateral_pool_name (coin hal (suc n) ∷ [])
            pool_address).fails
          (omega arith) hal (rw (bytes_eq_refl hal) (omega (arith, short))) in
      let unburned =
        laws.bank_laws.burn_fails s.bank collateral_pool_name (coin hal (suc n) ∷ []) hal
          pool_address may_burn (omega arith)
          (rw (bytes_eq_refl hal) (omega (arith, pool_short))) in
      rw (
        h.creator,
        laws.math_laws.is_valid_lem msg.hal_amount,
        h.denom_valid,
        h.amount,
        h.stored,
        new_coin-valid x laws hal (suc n) h.hal_valid,
        new_coins-positive x laws hal n h.hal_valid,
        bank_call_unchecked,
        refused,
        bank_call,
        unburned,
      )
