-- ===== src/Tests/MintRuns.antt =====
-- MintHal for an account with collateral, and for one without.
use halborn.Prelude.{◌+◌, ◌≡◌, ◌≢◌, refl, ap, arith, Bytes, ◌∷◌, [], length}
use halborn.Prelude.Int.{pos}
use halborn.Types.Messages.{MsgMintHal}
use halborn.Types.Params.{default_params}
use halborn.Types.Keys.{collateral_pool_name}
use halborn.Sdk.Bank.{amount_of, at}
use halborn.Sdk.Coins.{coin}
use halborn.Keeper.Exec.{ok}
use halborn.Keeper.MintHal.{mint_hal}
use halborn.Keeper.MintHal.Payment.{Accepted, mint_hal-paid, mint_hal-unpaid}
use halborn.Tests.Chain.Ledger.{Ledger}
use halborn.Tests.Home.{home, home_laws, holding, hal, stake, alice, with_params, stored}

abbrev rich : Ledger
rich = record { held = holding alice stake 30; total = λ d. 0 }

abbrev poor : Ledger
poor = record { held = λ z d. 0; total = λ d. 0 }

abbrev ten : MsgMintHal
ten = record { creator = alice; collateral_amount = record { denom = stake; amount = pos 10 } }

accepted : (b : Ledger) → Accepted home (with_params b) ten alice default_params 9
accepted b = record {
  creator = refl;
  free = refl;
  stored = stored b;
  amount = refl;
  collateral_valid = refl;
  hal_valid = refl;
  small = omega arith;
}

mint_hal-paid_example :
    (b : Ledger) × (mint_hal home ten (with_params rich)
      ≡ (ok (record { minted_amount = coin hal 20 }), with_params b))
    × ((z d : Bytes)
        → b.held z d + at alice z (amount_of (coin stake 10 ∷ []) d)
          ≡ rich.held z d
            + at alice z (amount_of (coin hal 20 ∷ []) d)
            + at collateral_pool_name z (amount_of (coin stake 10 ∷ []) d))
    × ((d : Bytes) → b.total d ≡ rich.total d + amount_of (coin hal 20 ∷ []) d)
mint_hal-paid_example =
    mint_hal-paid home home_laws {pool = collateral_pool_name} refl refl (with_params rich) ten
      alice default_params 9 (accepted rich) (omega arith)

hal-not_stake : hal ≢ stake
hal-not_stake e = let no : 3 ≡ 5 = ap length e in omega (arith, no)

mint_hal-unpaid_example :
    (b : Ledger) × (mint_hal home ten (with_params poor)
      ≡ (ok (record { minted_amount = coin hal 20 }), with_params b))
    × ((z d : Bytes) → b.held z d ≡ poor.held z d + at alice z (amount_of (coin hal 20 ∷ []) d))
    × ((d : Bytes) → b.total d ≡ poor.total d + amount_of (coin hal 20 ∷ []) d)
mint_hal-unpaid_example =
    mint_hal-unpaid home home_laws {pool = collateral_pool_name} refl refl (with_params poor) ten
      alice default_params 9 (accepted poor) hal-not_stake (omega arith)
