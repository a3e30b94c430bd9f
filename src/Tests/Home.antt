-- ===== src/Tests/Home.antt =====
-- A chain on which every name is a module account, with the default parameters in its store.
use halborn.Prelude.{
  ℕ, ◌<◌, ◌≡◌, ◌^◌, refl, arith, true, Bytes, codes, [], ◌∷◌, length, bytes_eq, if◌then◌else◌,
}
use halborn.Types.Params.{TokenMeta, default_params}
use halborn.Types.Keys.{params_key}
use halborn.Wire.Writer.{varint_loop}
use halborn.Wire.Encoding.{bytes_field, string_field, varint_field}
use halborn.Wire.Params.RoundTrip.{Fits, encoding}
use halborn.Wire.TokenMeta.RoundTrip as Meta
use halborn.Sdk.Env.{Sdk, IsSdk}
use halborn.Keeper.Exec.{ok}
use halborn.Keeper.State.{State}
use halborn.Keeper.Params.{get_params}
use halborn.Keeper.Params.RoundTrip.{get_params-encoding}
use halborn.Tests.Chain.{chain, chain_laws}
use halborn.Tests.Chain.Ledger.{Ledger}

abbrev pub home : Sdk
home = chain (λ m. true)

pub home_laws : IsSdk home
home_laws = chain_laws (λ m. true)

-- The default duration, two weeks, as this chain marshals it.
abbrev pub dur : Bytes
dur = 0 ∷ 1209600000000000 ∷ []

meta-Fits :
    (m : TokenMeta)
    → length m.denom < 2 ^ 64
    → m.decimals < 2 ^ 32
    → length m.description < 2 ^ 64
    → Meta.Fits m
meta-Fits m a b c = record { denom_fits = a; decimals_fits = b; description_fits = c }

pub default-Fits : Fits default_params dur
unfolding Meta.encoding varint_loop bytes_field string_field varint_field
default-Fits = record {
  dur_fits = omega arith;
  entries = 5;
  entries_lem = refl;
  entries_fit = omega arith;
  collateral_fits =
      meta-Fits default_params.collateral_metas (omega arith) (omega arith) (omega arith);
  collateral_short = omega arith;
  hal_fits = meta-Fits default_params.hal_meta (omega arith) (omega arith) (omega arith);
  hal_short = omega arith;
}

pub default_short : length (encoding default_params dur) < 2 ^ 63
unfolding encoding Meta.encoding varint_loop bytes_field string_field varint_field
default_short = omega arith

-- A holding of one denomination at one address.
abbrev pub holding : Bytes → Bytes → ℕ → Bytes → Bytes → ℕ
holding a d n z e = if bytes_eq a z then (if bytes_eq d e then n else 0) else 0

abbrev pub hal : Bytes
hal = codes "HAL"

abbrev pub stake : Bytes
stake = codes "Stake"

abbrev pub alice : Bytes
alice = codes "alice"

abbrev pub with_params : Ledger → State home
with_params b = record { kv = (params_key, encoding default_params dur) ∷ []; bank = b }

pub stored : (b : Ledger) → get_params home (with_params b) ≡ (ok default_params, with_params b)
stored b =
    get_params-encoding home home_laws default_params dur (with_params b) refl default-Fits
      default_short refl
