-- ===== src/Keeper/Blocks/Halt.antt =====
-- A redemption and the block that follows it.
use halborn.Prelude.{
  ℕ, suc, ◌+◌, ◌*◌, ◌/◌, ◌^◌, ◌<◌, ◌≤◌, ◌≡◌, ◌≢◌, sym, arith, Bytes, [], ◌∷◌, some, bytes_eq_refl,
  lt→ltb, true,
}
use halborn.Prelude.Int.{◌+ℤ◌}
use halborn.Types.Params.{Params}
use halborn.Types.Messages.{MsgRedeemCollateral, MsgRedeemCollateralResponse}
use halborn.Types.Keys.{collateral_pool_name, redeem_pool_name, params_key}
use halborn.Wire.RedeemRequest as Codec
use halborn.Sdk.Bank.{amount_of, spendable}
use halborn.Sdk.Coins.{coin, at-none, at-other, at-amount_self, amount_of-other}
use halborn.Sdk.Env.{Sdk, IsSdk}
use halborn.Keeper.Exec.{ok, panic}
use halborn.Keeper.State.{State, Context}
use halborn.Keeper.Params.RoundTrip.{get_params-same}
use halborn.Keeper.Requests.{request_key}
use halborn.Keeper.RedeemCollateral.{redeem_collateral}
use halborn.Keeper.RedeemCollateral.Effects.{Redeemed}
use halborn.Keeper.RedeemCollateral.Payment.{Accepted, redeem_collateral-paid}
use halborn.Keeper.Blocks.{begin_blocker}
use halborn.Keeper.Blocks.Supply.{backing, begin_blocker_lem}

module _ (x : Sdk) {pool redeem_pool : Bytes} (apart : pool ≢ redeem_pool) where
  -- Collateral that moves from one pool to the other leaves their sum.
  backing-Redeemed :
      (b b' : x.bank.State) (acc hal_denom d : Bytes) (n k : ℕ)
      → hal_denom ≢ d
      → Redeemed x pool redeem_pool b b' acc (coin hal_denom n ∷ []) (coin d k ∷ [])
      → x.bank.held b' pool d + x.bank.held b' redeem_pool d
        ≡ x.bank.held b pool d + x.bank.held b redeem_pool d
  backing-Redeemed b b' acc hal_denom d n k differ h = omega (
    arith,
    h.held_lem pool d,
    h.held_lem redeem_pool d,
    at-none acc pool _ (amount_of-other hal_denom d n differ),
    at-none acc redeem_pool _ (amount_of-other hal_denom d n differ),
    at-amount_self pool d k,
    at-amount_self redeem_pool d k,
    at-other pool redeem_pool (amount_of (coin d k ∷ []) d) apart,
    at-other redeem_pool pool (amount_of (coin d k ∷ []) d) (λ e. apart (sym e)),
  )

module _ (x : Sdk) (laws : IsSdk x) {pool redeem_pool : Bytes}
    (pool_address : x.bank.get_module_address collateral_pool_name ≡ some pool)
    (redeem_pool_address : x.bank.get_module_address redeem_pool_name ≡ some redeem_pool)
    (may_burn : x.bank.burner collateral_pool_name ≡ true) where
  -- A redemption that goes through as in redeem_collateral-paid, of less HAL than there is, on a
  -- chain whose two pools differ and whose supply of HAL is at most twice their collateral, which
  -- fits the decimals: the next BeginBlocker panics.
  pub begin_blocker-redeem_collateral :
      (ctx : Context) (s : State x) (msg : MsgRedeemCollateral) (acc : Bytes) (params : Params)
      (n k : ℕ) (bz : Bytes)
      → Accepted x s msg acc params n
      → suc n / 2 ≡ suc k
      → suc n ≤ spendable x.bank s.bank acc params.hal_meta.denom
      → suc n < x.bank.total s.bank params.hal_meta.denom
      → params.hal_meta.denom ≢ params.collateral_metas.denom
      → suc k ≤ x.bank.held s.bank pool params.collateral_metas.denom
      → Codec.marshal x.gogo (record {
        account = x.acc_address_string acc;
        collateral = coin params.collateral_metas.denom (suc k);
        completiontime = ctx.now +ℤ params.redeem_dur;
      })
        ≡ some bz
      → pool ≢ redeem_pool
      → x.bank.total s.bank params.hal_meta.denom
        ≤ backing x pool redeem_pool s.bank params.collateral_metas.denom * 2
      → backing x pool redeem_pool s.bank params.collateral_metas.denom * 2 < 2 ^ 255
      → (r : MsgRedeemCollateralResponse) × (s' : State x) × (redeem_collateral x ctx msg s
          ≡ (ok r, s'))
        × (begin_blocker x s' ≡ (panic, s'))
  begin_blocker-redeem_collateral ctx s msg acc params n k bz h half has le differ enough marshalled
        apart backed small =
      let hal = params.hal_meta.denom in
      let d = params.collateral_metas.denom in
      let (b, redeemed, effects) =
        redeem_collateral-paid x laws pool_address redeem_pool_address may_burn ctx s msg acc params
          n k bz h half has (omega arith) differ enough marshalled in
      let s' : State x = record {
        kv = x.kv.set s.kv (request_key (x.acc_address_string acc)) bz;
        bank = b;
      } in
      let same = backing-Redeemed x apart s.bank b acc hal d (suc n) (suc k) differ effects in
      let burned = rw (bytes_eq_refl hal) at (effects.total_lem hal) in
      let left : 0 < x.bank.total b hal = omega (arith, burned) in
      let short : x.bank.total b hal < backing x pool redeem_pool b d * 2 =
        omega (arith, burned, same) in
      let stored =
        get_params-same x s s' params
          (laws.kv_laws.get-set s.kv (request_key (x.acc_address_string acc)) params_key bz)
          h.stored in
      (
        _,
        s',
        redeemed,
        rw (
          begin_blocker_lem x laws pool_address redeem_pool_address s' params stored
              (omega (arith, same)),
          h.collateral_valid,
          h.hal_valid,
          lt→ltb 0 (x.bank.total b hal) left,
          lt→ltb (x.bank.total b hal) (backing x pool redeem_pool b d * 2) short,
        ),
      )
