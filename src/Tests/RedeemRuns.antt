-- ===== src/Tests/RedeemRuns.antt =====
-- RedeemCollateral on a chain whose HAL is covered by the collateral, and the blocks that follow.
use halborn.Prelude.{
  ℕ, ◌+◌, ◌<◌, ◌≡◌, ◌≢◌, ◌^◌, refl, ap, arith, Bytes, ◌∷◌, [], length, codes, some,
}
use halborn.Prelude.Int.{ℤ, pos, ◌+ℤ◌}
use halborn.Types.Messages.{MsgRedeemCollateral, MsgRedeemCollateralResponse}
use halborn.Types.Records.{RedeemRequest}
use halborn.Types.Params.{default_params}
use halborn.Types.Keys.{collateral_pool_name, redeem_pool_name}
use halborn.Wire.Writer.{varint_loop}
use halborn.Wire.Encoding.{bytes_field, string_field, varint_field}
use halborn.Wire.RedeemRequest.RoundTrip as Laws
use halborn.Wire.RedeemRequest as Codec
use halborn.Sdk.Coins.{coin}
use halborn.Keeper.Exec.{ok, err, panic, unauthorized}
use halborn.Keeper.State.{State, Context}
use halborn.Keeper.Requests.{request_key}
use halborn.Keeper.RedeemCollateral.{redeem_collateral}
use halborn.Keeper.RedeemCollateral.Effects.{Redeemed}
use halborn.Keeper.RedeemCollateral.Payment.{
  Accepted, redeem_collateral-paid, redeem_collateral-unpaid,
}
use halborn.Keeper.RedeemCollateral.Nothing.{Nothing, end_blocker-redeem_collateral}
use halborn.Keeper.Blocks.{begin_blocker, end_blocker}
use halborn.Keeper.Blocks.Supply.{begin_blocker_lem}
use halborn.Keeper.Blocks.Halt.{begin_blocker-redeem_collateral}
use halborn.Tests.Chain.Ledger.{Ledger}
use halborn.Tests.Home.{home, home_laws, holding, hal, stake, alice, with_params, stored}

-- Alice has 20 HAL, all that there is, for the 10 collateral of the pool.
abbrev covered : Ledger
covered = record {
  held = λ z d. holding alice hal 20 z d + holding collateral_pool_name stake 10 z d;
  total = λ d. 20;
}

abbrev nobody : Ledger
nobody = record { held = λ z d. 0; total = λ d. 20 }

abbrev six : MsgRedeemCollateral
six = record { creator = alice; hal_amount = record { denom = hal; amount = pos 6 } }

abbrev today : Context
today = record { block_time = pos 1000; chain_id = codes "hal-1"; now = pos 1000; visit = λ m. m }

accepted : (b : Ledger) → Accepted home (with_params b) six alice default_params 5
accepted b = record {
  creator = refl;
  stored = stored b;
  amount = refl;
  denom_valid = refl;
  collateral_valid = refl;
  hal_valid = refl;
  small = omega arith;
}

abbrev in_two_weeks : ℤ
in_two_weeks = today.now +ℤ default_params.redeem_dur

abbrev request_of : ℕ → RedeemRequest
request_of n = record { account = alice; collateral = coin stake n; completiontime = in_two_weeks }

abbrev time_bytes : Bytes
time_bytes = 0 ∷ 1209600000001000 ∷ []

timed : (n : ℕ) → home.gogo.time_marshal (request_of n).completiontime ≡ some time_bytes
unfolding ◌+ℤ◌
timed n = refl

request-Fits : (n : ℕ) → Laws.Fits home.gogo (request_of n) time_bytes
request-Fits n = record {
  account_fits = omega arith;
  coin_fits = omega arith;
  time_fits = omega arith;
}

abbrev bytes_of : ℕ → Bytes
bytes_of n = Laws.encoding home.gogo (request_of n) time_bytes

marshalled : (n : ℕ) → Codec.marshal home.gogo (request_of n) ≡ some (bytes_of n)
marshalled n = Laws.marshal-encoding home.gogo (request_of n) time_bytes (timed n) (request-Fits n)

hal-not_stake : hal ≢ stake
hal-not_stake e = let no : 3 ≡ 5 = ap length e in omega (arith, no)

redeem_collateral-paid_example :
    (b : Ledger) × (redeem_collateral home today six (with_params covered) ≡ (
      ok (record { burned_amount = coin hal 6; completion_time = in_two_weeks }),
      record {
        kv = home.kv.set (with_params covered).kv (request_key alice) (bytes_of 3);
        bank = b;
      },
    ))
    × Redeemed home collateral_pool_name redeem_pool_name covered b alice
        (coin hal 6 ∷ [])
        (coin stake 3 ∷ [])
redeem_collateral-paid_example =
    redeem_collateral-paid home home_laws refl refl refl today (with_params covered) six alice
      default_params 5 2 (bytes_of 3) (accepted covered) refl (omega arith) (omega arith)
      hal-not_stake (omega arith) (marshalled 3)

redeem_collateral-unpaid_example :
    redeem_collateral home today six (with_params nobody) ≡ (err unauthorized, with_params nobody)
redeem_collateral-unpaid_example =
    redeem_collateral-unpaid home home_laws {pool = collateral_pool_name}
      {redeem_pool = redeem_pool_name} refl refl refl today (with_params nobody) six alice
      default_params 5 (accepted nobody) (omega arith) (omega arith)

pools_apart : collateral_pool_name ≢ redeem_pool_name
pools_apart e = let no : 23 ≡ 19 = ap length e in omega (arith, no)

begin_blocker-redeem_collateral_example :
    (r : MsgRedeemCollateralResponse) × (s' : State home) × (redeem_collateral home today six
        (with_params covered)
      ≡ (ok r, s'))
    × (begin_blocker home s' ≡ (panic, s'))
begin_blocker-redeem_collateral_example =
    begin_blocker-redeem_collateral home home_laws {pool = collateral_pool_name}
      {redeem_pool = redeem_pool_name} refl refl refl today (with_params covered) six alice
      default_params 5 2 (bytes_of 3) (accepted covered) refl (omega arith) (omega arith)
      hal-not_stake (omega arith) (marshalled 3) pools_apart (omega arith) (omega arith)

-- Less HAL than twice the collateral.
abbrev backed_too_well : Ledger
backed_too_well = record { held = holding collateral_pool_name stake 10; total = λ d. 15 }

begin_blocker_lem_example :
    begin_blocker home (with_params backed_too_well) ≡ (panic, with_params backed_too_well)
begin_blocker_lem_example =
    begin_blocker_lem home home_laws {pool = collateral_pool_name} {redeem_pool = redeem_pool_name}
      refl refl (with_params backed_too_well) default_params (stored backed_too_well) (omega arith)

-- A message that redeems nothing.
abbrev none_of_it : MsgRedeemCollateral
none_of_it = record { creator = alice; hal_amount = record { denom = hal; amount = pos 0 } }

abbrev later : Context
later = record today { block_time = pos 2000000000000000 }

accepted-Nothing : Nothing home (with_params nobody) none_of_it alice default_params
accepted-Nothing = record {
  creator = refl;
  stored = stored nobody;
  amount = refl;
  denom_valid = refl;
  collateral_valid = refl;
  hal_valid = refl;
}

request_short : length (bytes_of 0) < 2 ^ 63
unfolding Laws.encoding varint_loop bytes_field string_field varint_field
request_short = omega arith

end_blocker-redeem_collateral_example :
    (r : MsgRedeemCollateralResponse) × (s' : State home) × (redeem_collateral home today none_of_it
        (with_params nobody)
      ≡ (ok r, s'))
    × ((b : Ledger)
        → (s2 : State home) × (end_blocker home later (record s' { bank = b }) ≡ (panic, s2)))
unfolding ◌+ℤ◌
end_blocker-redeem_collateral_example =
    end_blocker-redeem_collateral home home_laws {pool = collateral_pool_name}
      {redeem_pool = redeem_pool_name} refl refl refl today later (with_params nobody) none_of_it
      alice default_params time_bytes accepted-Nothing refl refl refl (request-Fits 0) request_short
