-- ===== src/Keeper/UpdateParams/Halt.antt =====
-- A change of the parameters, and the block that follows it.
use halborn.Prelude.{
  ◌<◌, ◌≤◌, ◌*◌, ◌^◌, ◌≡◌, arith, Bytes, false, some, length, bytes_eq_refl, lt→ltb,
}
use halborn.Prelude.Int.{pos_part}
use halborn.Types.Params.{hour}
use halborn.Types.Messages.{MsgUpdateParams}
use halborn.Types.Validate.{validate_update_params, valid, validate-update_params, validate_iff}
use halborn.Wire.Params.RoundTrip.{Fits, encoding}
use halborn.Sdk.Env.{Sdk, IsSdk}
use halborn.Keeper.Exec.{ok, panic}
use halborn.Keeper.State.{State}
use halborn.Keeper.Params.RoundTrip.{get_params-set_params}
use halborn.Keeper.UpdateParams.{update_params}
use halborn.Keeper.Blocks.{begin_blocker, invariant_check}

module _ (x : Sdk) (laws : IsSdk x) where
  -- Parameters with a duration that is positive and at most four weeks, that can be marshalled,
  -- with a number of entries that is an int32 and not negative and with short fields, whose
  -- denomination of the collateral is not valid, from an authority that is an address:
  -- ValidateBasic and UpdateParams accept them, and the next BeginBlocker panics where there is
  -- HAL.
  pub begin_blocker-update_params :
      (req : MsgUpdateParams) (acc dur : Bytes) (s : State x)
      → x.acc_address_from_bech32 req.authority ≡ some acc
      → 0 < pos_part req.params.redeem_dur
      → pos_part req.params.redeem_dur ≤ 4 * 7 * 24 * hour
      → (timed : x.gogo.duration_marshal req.params.redeem_dur ≡ some dur) → Fits req.params dur
      → length (encoding req.params dur) < 2 ^ 63
      → x.math.valid_denom req.params.collateral_metas.denom ≡ false
      → 0 < x.bank.total s.bank req.params.hal_meta.denom
      → (validate_update_params x.acc_address_from_bech32 req ≡ valid)
        × (s' : State x) × (update_params x req.authority req s ≡ (ok tt, s'))
        × (begin_blocker x s' ≡ (panic, s'))
  unfolding update_params begin_blocker invariant_check
  begin_blocker-update_params req acc dur s address positive bounded timed fits short invalid
        some_hal =
      let (s', set, read, same_bank) =
        get_params-set_params x laws req.params dur s timed fits short in
      (
        rw (validate-update_params x.acc_address_from_bech32 req acc address)
            ((validate_iff req.params).1 (positive, bounded, rw fits.entries_lem (omega arith))),
        s',
        rw (bytes_eq_refl req.authority, set),
        rw (
          read,
          laws.bank_laws.has_supply_lem s'.bank req.params.hal_meta.denom,
          same_bank,
          lt→ltb 0 (x.bank.total s.bank req.params.hal_meta.denom) some_hal,
          laws.bank_laws.get_balance_lem s'.bank _ req.params.collateral_metas.denom,
          invalid,
        ),
      )
