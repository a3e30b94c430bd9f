-- ===== src/Types/Params.antt =====
-- The module's parameters: x/hal/types/params.go and the structs of params.pb.go.
use halborn.Prelude.{ℕ, ◌*◌, Bytes, [], codes}
use halborn.Prelude.Int.{ℤ, pos}

pub record TokenMeta : Type 0 where
  pub denom : Bytes
  pub decimals : ℕ
  pub description : Bytes

-- A duration counts nanoseconds; `max_redeem_entries` is an int32.
pub record Params : Type 0 where
  pub redeem_dur : ℤ
  pub max_redeem_entries : ℤ
  pub collateral_metas : TokenMeta
  pub hal_meta : TokenMeta

-- `TokenMeta{}` and `Params{}`
abbrev pub no_token_meta : TokenMeta
no_token_meta = record { denom = []; decimals = 0; description = [] }

abbrev pub no_params : Params
no_params = record {
  redeem_dur = pos 0;
  max_redeem_entries = pos 0;
  collateral_metas = no_token_meta;
  hal_meta = no_token_meta;
}

abbrev pub hour : ℕ
hour = 3600 * 1000000000

abbrev pub default_redeem_dur : ℤ
default_redeem_dur = pos (2 * 7 * 24 * hour)

abbrev pub default_max_redeem_entries : ℤ
default_max_redeem_entries = pos 5

abbrev pub default_hal_meta : TokenMeta
default_hal_meta = record {
  denom = codes "HAL";
  decimals = 18;
  description = codes "Halborn token";
}

abbrev pub default_collateral_metas : TokenMeta
default_collateral_metas = record {
  denom = codes "Stake";
  decimals = 18;
  description = codes "Stake token";
}

abbrev pub new_params : ℤ → ℤ → TokenMeta → TokenMeta → Params
new_params dur entries collateral hal = record {
  redeem_dur = dur;
  max_redeem_entries = entries;
  collateral_metas = collateral;
  hal_meta = hal;
}

abbrev pub default_params : Params
default_params =
    new_params default_redeem_dur default_max_redeem_entries default_collateral_metas
      default_hal_meta
