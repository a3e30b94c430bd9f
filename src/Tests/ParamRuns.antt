-- ===== src/Tests/ParamRuns.antt =====
-- Parameters, genesis and the accounts of the application.
use halborn.Prelude.{
  ℕ, ◌<◌, ◌≤◌, ◌≡◌, ◌≢◌, ◌*◌, ◌^◌, ◌↔◌, refl, ap, arith, Bytes, ◌∷◌, [], length, codes, some, none,
  true,
}
use halborn.Prelude.Int.{pos_part, neg_part}
use halborn.Types.Params.{default_params, hour}
use halborn.Types.Keys.{treasury_key, collateral_pool_name, redeem_pool_name}
use halborn.Types.Messages.{MsgUpdateParams, default_genesis}
use halborn.Types.Equal.{params_equal, value, pointer, params_equal_iff}
use halborn.Types.Validate.{validate, valid, validate_iff, validate_update_params}
use halborn.Wire.Result as Wire
use halborn.Wire.Params as Codec
use halborn.Wire.Params.RoundTrip as Laws
use halborn.Keeper.Exec.{ok, panic}
use halborn.Keeper.State.{State}
use halborn.Keeper.Params.{init_genesis, export_genesis}
use halborn.Keeper.Params.RoundTrip.{export_genesis-init_genesis}
use halborn.Keeper.UpdateParams.{update_params, query_params}
use halborn.Keeper.UpdateParams.Authority.{query_params-update_params}
use halborn.App.Accounts.{
  Names, Apart, get_macc_perms, blocked_addresses, get_macc_perms-treasury_key, pools_lem,
}
use halborn.Wire.Writer.{varint_loop}
use halborn.Wire.Encoding.{bytes_field, string_field, varint_field}
use halborn.Wire.TokenMeta.RoundTrip as Meta
use halborn.Keeper.Blocks.{begin_blocker}
use halborn.Keeper.UpdateParams.Halt.{begin_blocker-update_params}
use halborn.Tests.Home.{home, home_laws, dur, default-Fits, default_short}

abbrev empty : State home
empty = record { kv = []; bank = record { held = λ z d. 0; total = λ d. 0 } }

unmarshal-marshal_params_example :
    (bs : Bytes) × (Codec.marshal home.gogo default_params ≡ some bs)
    × (Codec.unmarshal home.gogo bs ≡ Wire.ok default_params)
unmarshal-marshal_params_example =
    Laws.unmarshal-marshal_params home.gogo default_params dur refl home_laws.codec default-Fits
      default_short

export_genesis-init_genesis_example :
    (s' : State home) × (init_genesis home default_genesis empty ≡ (ok tt, s'))
    × (export_genesis home s' ≡ (ok default_genesis, s'))
unfolding default_genesis
export_genesis-init_genesis_example =
    export_genesis-init_genesis home home_laws default_genesis dur empty refl default-Fits
      default_short

abbrev update : MsgUpdateParams
update = record { authority = codes "gov"; params = default_params }

query_params-update_params_example :
    (s' : State home) × (update_params home (codes "gov") update empty ≡ (ok tt, s'))
    × (query_params home (some tt) s' ≡ (ok default_params, s'))
query_params-update_params_example =
    query_params-update_params home home_laws update dur empty refl default-Fits default_short

-- Parameters with a denomination of the collateral that is not valid, on a chain that has HAL.
abbrev nameless : MsgUpdateParams
nameless = record {
  authority = codes "gov";
  params = record default_params {
    collateral_metas = record default_params.collateral_metas { denom = [] };
  };
}

abbrev with_hal : State home
with_hal = record { kv = []; bank = record { held = λ z d. 0; total = λ d. 10 } }

nameless-Fits : Laws.Fits nameless.params dur
unfolding Meta.encoding varint_loop bytes_field string_field varint_field
nameless-Fits = record {
  dur_fits = omega arith;
  entries = 5;
  entries_lem = refl;
  entries_fit = omega arith;
  collateral_fits = record {
    denom_fits = omega arith;
    decimals_fits = omega arith;
    description_fits = omega arith;
  };
  collateral_short = omega arith;
  hal_fits = record {
    denom_fits = omega arith;
    decimals_fits = omega arith;
    description_fits = omega arith;
  };
  hal_short = omega arith;
}

nameless_short : length (Laws.encoding nameless.params dur) < 2 ^ 63
unfolding Laws.encoding Meta.encoding varint_loop bytes_field string_field varint_field
nameless_short = omega arith

begin_blocker-update_params_example :
    (validate_update_params home.acc_address_from_bech32 nameless ≡ valid)
    × (s' : State home) × (update_params home (codes "gov") nameless with_hal ≡ (ok tt, s'))
    × (begin_blocker home s' ≡ (panic, s'))
begin_blocker-update_params_example =
    begin_blocker-update_params home home_laws nameless (codes "gov") dur with_hal refl
      (omega arith) (omega arith) refl nameless-Fits nameless_short refl (omega arith)

validate_iff_example : (validate default_params ≡ valid) ↔ (
    (0 < pos_part default_params.redeem_dur)
    × (pos_part default_params.redeem_dur ≤ 4 * 7 * 24 * hour)
    × (neg_part default_params.max_redeem_entries ≡ 0))
validate_iff_example = validate_iff default_params

params_equal_iff_example :
    ((params_equal (some default_params) (value default_params) ≡ true)
      ↔ (default_params ≡ default_params))
    × ((params_equal (some default_params) (pointer (some default_params)) ≡ true)
        ↔ (default_params ≡ default_params))
params_equal_iff_example = params_equal_iff default_params default_params

abbrev names : Names
names = record {
  fee_collector = codes "a";
  distribution = codes "b";
  mint = codes "c";
  bonded_pool = codes "d";
  not_bonded_pool = codes "e";
  gov = codes "f";
  nft = codes "g";
  ibc_transfer = codes "h";
  ibc_fee = codes "i";
  interchain_accounts = codes "j";
  staking_module = codes "k";
  minter = codes "l";
  burner = codes "m";
  staking = codes "n";
}

one_letter : (c : ℕ) (a : Bytes) → 1 < length a → c ∷ [] ≢ a
one_letter c a h e = let no : 1 ≡ length a = ap length e in omega (arith, no)

names-Apart : (a : Bytes) → 1 < length a → Apart names a
names-Apart a h = record {
  fee_collector_apart = one_letter _ a h;
  distribution_apart = one_letter _ a h;
  mint_apart = one_letter _ a h;
  bonded_apart = one_letter _ a h;
  not_bonded_apart = one_letter _ a h;
  gov_apart = one_letter _ a h;
  nft_apart = one_letter _ a h;
  transfer_apart = one_letter _ a h;
  fee_apart = one_letter _ a h;
  interchain_apart = one_letter _ a h;
}

get_macc_perms-treasury_key_example : get_macc_perms names treasury_key ≡ none
get_macc_perms-treasury_key_example =
    get_macc_perms-treasury_key names (names-Apart treasury_key (omega arith))

pools_lem_example :
    (get_macc_perms names collateral_pool_name ≡ some (codes "l" ∷ codes "m" ∷ []))
    × (get_macc_perms names redeem_pool_name ≡ some (codes "l" ∷ codes "m" ∷ []))
    × (blocked_addresses names collateral_pool_name ≡ none)
    × (blocked_addresses names redeem_pool_name ≡ none)
pools_lem_example =
    pools_lem names (names-Apart collateral_pool_name (omega arith))
      (names-Apart redeem_pool_name (omega arith))
